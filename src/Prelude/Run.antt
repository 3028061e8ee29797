-- ===== src/Prelude/Run.antt =====
-- How a call of the program ends: with a value, at a failed assertion, or in the model's fuel.
use mathlib.Core.Path.{◌≡◌, refl, sym, subst}
use mathlib.Core.Logic.{◌⊎◌, inl, inr}
use mathlib.Core.Bool.{Bool, true, false}
use mtproxy.Prelude.Tests.{if◌then◌else◌}

pub data Run {ℓ} (A : Type ℓ) : Type ℓ where
  ok : A → Run A
  abort : Run A
  out_of_fuel : Run A

infixl 5 ◌>>=◌ ◌>>◌
abbrev pub ◌>>=◌ {ℓ κ} : {A : Type ℓ} {B : Type κ} → Run A → (A → Run B) → Run B
◌>>=◌ abort next = abort
◌>>=◌ out_of_fuel next = out_of_fuel
◌>>=◌ (ok value) next = next value

abbrev pub ◌>>◌ {ℓ} : {B : Type ℓ} → Run (Unit {0}) → Run B → Run B
first >> second = first >>= λ _. second

-- assert (b)
abbrev pub assert : Bool → Run (Unit {0})
assert false = abort
assert true = ok tt

pub ok-eq {ℓ} : {A : Type ℓ} {a b : A} → ok a ≡ ok b → a ≡ b
ok-eq e = cc

-- The run `r` does end, and its value satisfies P.
pub data Returns {ℓ κ} {A : Type ℓ} (P : A → Type κ) (r : Run A) : Type (ℓ ⊔ κ) where
  ended : (value : A) → r ≡ ok value → P value → Returns P r

pub returns {ℓ κ} : {A : Type ℓ} {P : A → Type κ} {value : A} → P value → Returns P (ok value)
returns {value} p = ended value refl p

pub Returns-ok {ℓ κ} : {A : Type ℓ} {P : A → Type κ} (value : A) → Returns P (ok value) → P value
Returns-ok {P} value (ended v e p) = subst P (sym (ok-eq e)) p

-- A later step may rely on what the earlier one ensures.
pub Returns-bind {ℓ κ ℓ' κ'} :
    {A : Type ℓ} {P : A → Type κ} {B : Type ℓ'} {Q : B → Type κ'} {r : Run A} {next : A → Run B}
    → Returns P r
    → ((value : A) → P value → Returns Q (next value))
    → Returns Q (r >>= next)
Returns-bind {r = ok v} h k = k v (Returns-ok v h)
Returns-bind {r = abort} (ended v e p) k = cc
Returns-bind {r = out_of_fuel} (ended v e p) k = cc

-- The same run, by a weaker condition.
pub Returns-map {ℓ κ κ'} :
    {A : Type ℓ} {P : A → Type κ} {Q : A → Type κ'} {r : Run A}
    → Returns P r
    → ((value : A) → P value → Q value)
    → Returns Q r
Returns-map (ended v e p) weaken = ended v e (weaken v p)

-- A run whose tests the tactics split on: the condition by cases.
abbrev pub Ensures {ℓ} : {A : Type ℓ} → (A → Type 0) → Run A → Type 0
Ensures P abort = ⊥
Ensures P out_of_fuel = ⊥
Ensures P (ok value) = P value

pub Returns-Ensures {ℓ} : {A : Type ℓ} {P : A → Type 0} (r : Run A) → Ensures P r → Returns P r
Returns-Ensures abort p = absurd p
Returns-Ensures out_of_fuel p = absurd p
Returns-Ensures (ok value) p = returns p

-- A round of a loop that stops at an error, goes on, or is done.
pub Returns-round {ℓ κ} :
    {A : Type ℓ} {P : A → Type κ} (failed more : Bool) (x z : A) (y : Run A)
    → (failed ≡ true → P x)
    → (failed ≡ false → more ≡ true → Returns P y)
    → (failed ≡ false → more ≡ false → P z)
    → Returns P (if failed then ok x else (elim more [ true ↦ y | false ↦ ok z ]))
Returns-round true more x z y p q r = returns (p refl)
Returns-round false true x z y p q r = q refl refl
Returns-round false false x z y p q r = returns (r refl refl)

pub Returns-assert {ℓ κ} :
    {B : Type ℓ} {Q : B → Type κ} {r : Run B} (b : Bool)
    → b ≡ true
    → Returns Q r
    → Returns Q (assert b >> r)
Returns-assert true e h = h
Returns-assert false e h = cc

pub Returns-if {ℓ κ} :
    {A : Type ℓ} {P : A → Type κ} (test : Bool) (yes_run no_run : Run A)
    → (test ≡ true → Returns P yes_run)
    → (test ≡ false → Returns P no_run)
    → Returns P (if test then yes_run else no_run)
Returns-if false yes_run no_run p q = q refl
Returns-if true yes_run no_run p q = p refl

-- Any run, by how it ends.
pub Run-cases {ℓ} :
    {A : Type ℓ} (r : Run A) → ((a : A) × (r ≡ ok a)) ⊎ ((r ≡ abort) ⊎ (r ≡ out_of_fuel))
Run-cases (ok a) = inl (a, refl)
Run-cases abort = inr (inl refl)
Run-cases out_of_fuel = inr (inr refl)
