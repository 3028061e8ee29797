-- ===== src/Secrets/Sums.antt =====
-- Sums over the numbers below a bound, for the tables of c-original/mtproto/mtproto-proxy.c.
use mtproxy.Prelude.{ℕ, zero, suc, ◌+◌, ◌<◌, ◌≤◌, ◌≡◌, ◌≢◌, refl, ◌==◌, arith, Bool-cases, inl, inr}

unfoldable pub total : ℕ → (ℕ → ℕ) → ℕ
total zero f = 0
total (suc n) f = total n f + f n

pub total_cong : (n : ℕ) (f g : ℕ → ℕ) → ((i : ℕ) → i < n → f i ≡ g i) → total n f ≡ total n g
unfolding total
total_cong zero f g h = refl
total_cong (suc n) f g h =
    omega (arith, total_cong n f g (λ i p. h i (omega arith)), h n (omega arith))

-- Two functions that differ at one place.
pub total_update :
    (n k : ℕ) (f g : ℕ → ℕ)
    → k < n
    → ((i : ℕ) → i < n → i ≢ k → f i ≡ g i)
    → total n f + g k ≡ total n g + f k
unfolding total
total_update zero k f g p h = absurd (omega arith)
total_update (suc n) k f g p h = elim (Bool-cases (k == n)) [
  | inl same ↦
      let e : k ≡ n = ground arith in
      let rest = total_cong n f g (λ i q. h i (omega arith) (omega arith)) in ground (arith, rest)
  | inr other ↦
      let ne : k ≢ n = ground arith in
      omega (
        arith,
        total_update n k f g (omega arith) (λ i q. h i (omega arith)),
        h n (omega arith) (λ z. ground arith),
      )
]

pub total_ge : (n k : ℕ) (f : ℕ → ℕ) → k < n → f k ≤ total n f
unfolding total
total_ge zero k f p = absurd (omega arith)
total_ge (suc n) k f p = elim (Bool-cases (k == n)) [
  | inl same ↦ let e : k ≡ n = ground arith in ground (arith, e)
  | inr other ↦ let ne : k ≢ n = ground arith in omega (arith, total_ge n k f (omega arith))
]

pub total_zero : (n : ℕ) → total n (λ i. 0) ≡ 0
unfolding total
total_zero zero = refl
total_zero (suc n) = omega (arith, total_zero n)
