-- ===== src/Externals/ChainLaws.antt =====
-- The chains of InExtConnectionHash in c-original/mtproto/mtproto-proxy.c.
use mtproxy.Prelude.{
  ℕ, ◌≡◌, ◌≢◌, refl, sym, ◌∙◌, ap, subst, false, none, some, List, [], ◌∷◌, arith, Bool-cases, inl,
  inr, ◌⊎◌, some-eq, by_test,
}
use mtproxy.Externals.Entries.{ExtConnection, is_connection, find_connection, unlink_connection}

pub none≢some : {a : ℕ} → none ≡ some a → ⊥
none≢some e = cc

-- a stands in the chain
unfoldable pub Member : ℕ → List ℕ → Type 0
Member a [] = ⊥
Member a (x ∷ xs) = (a ≡ x) ⊎ Member a xs

-- No entry behind another has its key.
unfoldable pub IsChain : (ℕ → ExtConnection) → List ℕ → Type 0
IsChain conns [] = Unit {0}
IsChain conns (x ∷ xs) =
    (find_connection conns xs (conns x).in_fd (conns x).in_conn_id ≡ none) × IsChain conns xs

pub find_connection-some :
    (conns : ℕ → ExtConnection) (xs : List ℕ) (fd id a : ℕ)
    → find_connection conns xs fd id ≡ some a
    → Member a xs × ((conns a).in_fd ≡ fd) × ((conns a).in_conn_id ≡ id)
unfolding find_connection Member
find_connection-some conns [] fd id a e = cc
find_connection-some conns (x ∷ xs) fd id a e = elim (Bool-cases (is_connection (conns x) fd id)) [
  | inl hit ↦
      let same : x ≡ a = some-eq (ground (arith, hit, e)) in
      subst (λ y. ((y ≡ x) ⊎ Member y xs) × ((conns y).in_fd ≡ fd) × ((conns y).in_conn_id ≡ id))
        same (inl refl, ground (arith, hit), ground (arith, hit))
  | inr miss ↦
      let (m, f, i) = find_connection-some conns xs fd id a (ground (arith, miss, e)) in
      (inr m, f, i)
]

-- Only the keys of the entries matter to a chain.
abbrev pub SameKey : ExtConnection → ExtConnection → Type 0
SameKey c d = (c.in_fd ≡ d.in_fd) × (c.in_conn_id ≡ d.in_conn_id)

pub find_connection-keys :
    (conns others : ℕ → ExtConnection) (xs : List ℕ) (fd id : ℕ)
    → ((a : ℕ) → Member a xs → SameKey (others a) (conns a))
    → find_connection others xs fd id ≡ find_connection conns xs fd id
unfolding find_connection Member
find_connection-keys conns others [] fd id h = refl
find_connection-keys conns others (x ∷ xs) fd id h =
    let rest = find_connection-keys conns others xs fd id (λ a m. h a (inr m)) in
    let (f, i) = h x (inl refl) in rw f (rw i (rw rest refl))

pub IsChain-keys :
    (conns others : ℕ → ExtConnection) (xs : List ℕ)
    → ((a : ℕ) → Member a xs → SameKey (others a) (conns a))
    → IsChain conns xs
    → IsChain others xs
unfolding IsChain Member
IsChain-keys conns others [] h c = tt
IsChain-keys conns others (x ∷ xs) h (alone, c) =
    let (f, i) = h x (inl refl) in
    let rest =
      find_connection-keys conns others xs (others x).in_fd (others x).in_conn_id
        (λ a m. h a (inr m)) in
    (rest ∙ rw f (rw i alone), IsChain-keys conns others xs (λ a m. h a (inr m)) c)

-- An entry outside the chain does not matter to it.
same_keys : {c d : ExtConnection} → c ≡ d → SameKey c d
same_keys e = (ap (λ x. x.in_fd) e, ap (λ x. x.in_conn_id) e)

pub find_connection-agree :
    (conns others : ℕ → ExtConnection) (xs : List ℕ) (fd id : ℕ)
    → ((a : ℕ) → Member a xs → others a ≡ conns a)
    → find_connection others xs fd id ≡ find_connection conns xs fd id
find_connection-agree conns others xs fd id h =
    find_connection-keys conns others xs fd id (λ a m. same_keys (h a m))

pub IsChain-agree :
    (conns others : ℕ → ExtConnection) (xs : List ℕ)
    → ((a : ℕ) → Member a xs → others a ≡ conns a)
    → IsChain conns xs
    → IsChain others xs
IsChain-agree conns others xs h c = IsChain-keys conns others xs (λ a m. same_keys (h a m)) c

-- With a key gone: it is found no more, all others still are, and what is left was there.
pub unlink_connection-Member :
    (conns : ℕ → ExtConnection) (xs : List ℕ) (fd id a : ℕ)
    → Member a (unlink_connection conns xs fd id)
    → Member a xs
unfolding unlink_connection Member
unlink_connection-Member conns [] fd id a m = m
unlink_connection-Member conns (x ∷ xs) fd id a m =
    by_test (λ ys. Member a ys → Member a (x ∷ xs)) (is_connection (conns x) fd id) (λ hit m. inr m)
      (λ miss m. elim m [
        | inl e ↦ inl e
        | inr r ↦ inr (unlink_connection-Member conns xs fd id a r)
      ])
      m

pub find-unlink_same :
    (conns : ℕ → ExtConnection) (xs : List ℕ) (fd id : ℕ)
    → IsChain conns xs
    → find_connection conns (unlink_connection conns xs fd id) fd id ≡ none
unfolding find_connection unlink_connection IsChain
find-unlink_same conns [] fd id c = refl
find-unlink_same conns (x ∷ xs) fd id (alone, c) =
    by_test (λ ys. find_connection conns ys fd id ≡ none) (is_connection (conns x) fd id)
      (λ hit.
        let f : (conns x).in_fd ≡ fd = ground (arith, hit) in
        let i : (conns x).in_conn_id ≡ id = ground (arith, hit) in
        subst (λ j. find_connection conns xs fd j ≡ none) i
          (subst (λ g. find_connection conns xs g (conns x).in_conn_id ≡ none) f alone))
      (λ miss. ground (arith, miss, find-unlink_same conns xs fd id c))

pub find-unlink_other :
    (conns : ℕ → ExtConnection) (xs : List ℕ) (fd id f i : ℕ)
    → (f ≢ fd) ⊎ (i ≢ id)
    → find_connection conns (unlink_connection conns xs fd id) f i ≡ find_connection conns xs f i
unfolding find_connection unlink_connection
find-unlink_other conns [] fd id f i d = refl
find-unlink_other conns (x ∷ xs) fd id f i d = elim (Bool-cases (is_connection (conns x) fd id)) [
  | inl hit ↦ ground (arith, hit, d)
  | inr miss ↦ ground (arith, miss, find-unlink_other conns xs fd id f i d)
]

pub other_key :
    (c : ExtConnection) (fd id : ℕ)
    → is_connection c fd id ≡ false
    → (c.in_fd ≢ fd) ⊎ (c.in_conn_id ≢ id)
other_key c fd id miss = ground (arith, miss)

pub unlink_connection-IsChain :
    (conns : ℕ → ExtConnection) (xs : List ℕ) (fd id : ℕ)
    → IsChain conns xs
    → IsChain conns (unlink_connection conns xs fd id)
unfolding unlink_connection IsChain
unlink_connection-IsChain conns [] fd id c = c
unlink_connection-IsChain conns (x ∷ xs) fd id (alone, c) =
    by_test (IsChain conns) (is_connection (conns x) fd id) (λ hit. c)
      (λ miss. (
        find-unlink_other conns xs fd id (conns x).in_fd (conns x).in_conn_id
              (other_key (conns x) fd id miss)
            ∙ alone,
        unlink_connection-IsChain conns xs fd id c,
      ))

-- An entry of a chain is found by its key.
pub find_connection-Member :
    (conns : ℕ → ExtConnection) (xs : List ℕ) (a : ℕ)
    → IsChain conns xs
    → Member a xs
    → find_connection conns xs (conns a).in_fd (conns a).in_conn_id ≡ some a
unfolding find_connection IsChain Member
find_connection-Member conns [] a c m = absurd m
find_connection-Member conns (x ∷ xs) a (alone, c) (inl e) =
    subst (λ z. find_connection conns (z ∷ xs) (conns a).in_fd (conns a).in_conn_id ≡ some a) e
      (ground arith)
find_connection-Member conns (x ∷ xs) a (alone, c) (inr m) =
    let rest = find_connection-Member conns xs a c m in
    elim (Bool-cases (is_connection (conns x) (conns a).in_fd (conns a).in_conn_id)) [
      | inr miss ↦ ground (arith, miss, rest)
      | inl hit ↦
          let f : (conns x).in_fd ≡ (conns a).in_fd = ground (arith, hit) in
          let i : (conns x).in_conn_id ≡ (conns a).in_conn_id = ground (arith, hit) in
          absurd (none≢some {a = a} (sym alone ∙ (rw f (rw i rest))))
    ]
