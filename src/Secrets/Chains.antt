-- ===== src/Secrets/Chains.antt =====
-- The chains of the hash tables of secrets in c-original/mtproto/mtproto-proxy.c.
use mtproxy.Prelude.{
  ℕ, ◌+◌, ◌<◌, ◌≡◌, refl, Bool, true, false, none, some, List, [], ◌∷◌, ◌==◌, ◌&&◌, if◌then◌else◌,
  arith, Bool-cases, inl, inr, some-eq, sym, subst,
}
use mtproxy.Secrets.{SecretRef, is_ref, find_ref, set_connections}

-- How many entries of the chain belong to the secret.
unfoldable pub refs_of : {K : Type 0} → List (SecretRef K) → ℕ → ℕ
refs_of [] s = 0
refs_of (r ∷ rs) s = refs_of rs s + (if r.secret_id == s then 1 else 0)

abbrev pub one_ref : {K : Type 0} → ℕ → K → ℕ → SecretRef K
one_ref s k n = record { secret_id = s; key = k; connections = n }

module _ {K : Type 0} (same : K → K → Bool) where
  -- The connections of the entry for a key, 0 where there is none.
  abbrev pub connections_of : List (SecretRef K) → ℕ → K → ℕ
  connections_of c s k = elim (find_ref same c s k) [ none ↦ 0 | some r ↦ r.connections ]

  -- Every entry has connections, and no other entry behind it has its key.
  abbrev pub IsChain : List (SecretRef K) → Type 0
  IsChain [] = Unit {0}
  IsChain (r ∷ rs) =
      (0 < r.connections) × (find_ref same rs r.secret_id r.key ≡ none) × (IsChain rs)

module _ {K : Type 0} (same : K → K → Bool) (sound : (a b : K) → same a b ≡ true → a ≡ b)
    (reflexive : (a : K) → same a a ≡ true) where
  pub is_ref_sound :
      (r : SecretRef K) (s : ℕ) (k : K) → is_ref same r s k ≡ true → (r.secret_id ≡ s) × (r.key ≡ k)
  is_ref_sound r s k e = (ground (arith, e), sound r.key k (ground (arith, e)))

  pub is_ref_complete :
      (r : SecretRef K) (s : ℕ) (k : K) → r.secret_id ≡ s → r.key ≡ k → is_ref same r s k ≡ true
  is_ref_complete r s k e f =
      subst (λ x. is_ref same r s x ≡ true) f (ground (arith, e, reflexive r.key))

  -- Another key.
  abbrev pub Differs : ℕ → K → ℕ → K → Type 0
  Differs s k s' k' = is_ref same (one_ref s k 0) s' k' ≡ false

  pub Differs-at :
      (r : SecretRef K) (s s' : ℕ) (k k' : K)
      → is_ref same r s k ≡ true
      → Differs s k s' k'
      → is_ref same r s' k' ≡ false
  Differs-at r s s' k k' e d =
      let (es, ek) = is_ref_sound r s k e in
      subst (λ x. (x == s' && same r.key k') ≡ false) (sym es)
        (subst (λ y. (s == s' && same y k') ≡ false) (sym ek) d)

  pub Differs-sym :
      (r : SecretRef K) (s : ℕ) (k : K) → is_ref same r s k ≡ false → Differs s k r.secret_id r.key
  Differs-sym r s k miss = elim (Bool-cases (is_ref same (one_ref s k 0) r.secret_id r.key)) [
    | inr other ↦ other
    | inl hit ↦
        let (es, ek) = is_ref_sound (one_ref s k 0) r.secret_id r.key hit in
        let back = is_ref_complete r s k (sym es) (sym ek) in absurd (ground (arith, back, miss))
  ]

  pub find_ref-some :
      (c : List (SecretRef K)) (s : ℕ) (k : K) (r : SecretRef K)
      → find_ref same c s k ≡ some r
      → (r.secret_id ≡ s) × (r.key ≡ k)
  unfolding find_ref
  find_ref-some [] s k r e = cc
  find_ref-some (x ∷ xs) s k r e = elim (Bool-cases (is_ref same x s k)) [
    | inl hit ↦
        let here : x ≡ r = some-eq (ground (arith, hit, e)) in
        subst (λ y. (y.secret_id ≡ s) × (y.key ≡ k)) here (is_ref_sound x s k hit)
    | inr miss ↦ find_ref-some xs s k r (ground (arith, miss, e))
  ]

  pub connections_of-set_self :
      (c : List (SecretRef K)) (s : ℕ) (k : K) (r : SecretRef K) (n : ℕ)
      → find_ref same c s k ≡ some r
      → connections_of same (set_connections same c s k n) s k ≡ n
  unfolding find_ref set_connections
  connections_of-set_self [] s k r n e = cc
  connections_of-set_self (x ∷ xs) s k r n e = elim (Bool-cases (is_ref same x s k)) [
    | inl hit ↦ ground (arith, hit)
    | inr miss ↦ ground (arith, miss, connections_of-set_self xs s k r n (ground (arith, miss, e)))
  ]

  pub connections_of-set_other :
      (c : List (SecretRef K)) (s s' : ℕ) (k k' : K) (n : ℕ)
      → Differs s k s' k'
      → connections_of same (set_connections same c s k n) s' k' ≡ connections_of same c s' k'
  unfolding find_ref set_connections
  connections_of-set_other [] s s' k k' n d = refl
  connections_of-set_other (x ∷ xs) s s' k k' n d = elim (Bool-cases (is_ref same x s k)) [
    | inl hit ↦ ground (arith, hit, Differs-at x s s' k k' hit d)
    | inr miss ↦ ground (arith, miss, connections_of-set_other xs s s' k k' n d)
  ]

  find_ref-set_none :
      (c : List (SecretRef K)) (s s' : ℕ) (k k' : K) (n : ℕ)
      → find_ref same c s' k' ≡ none
      → find_ref same (set_connections same c s k n) s' k' ≡ none
  unfolding find_ref set_connections
  find_ref-set_none [] s s' k k' n e = e
  find_ref-set_none (x ∷ xs) s s' k k' n e = elim (Bool-cases (is_ref same x s' k')) [
    | inl hit ↦ absurd (ground (arith, hit, e))
    | inr miss ↦ elim (Bool-cases (is_ref same x s k)) [
      | inl changed ↦ ground (arith, miss, changed, e)
      | inr kept ↦
          ground (arith, miss, kept, find_ref-set_none xs s s' k k' n (ground (arith, miss, e)))
    ]
  ]

  pub set_connections-IsChain :
      (c : List (SecretRef K)) (s : ℕ) (k : K) (n : ℕ)
      → 0 < n
      → IsChain same c
      → IsChain same (set_connections same c s k n)
  unfolding set_connections
  set_connections-IsChain [] s k n p h = tt
  set_connections-IsChain (x ∷ xs) s k n p (positive, alone, h) =
      elim (Bool-cases (is_ref same x s k)) [
        | inl hit ↦ rw hit (p, alone, h)
        | inr miss ↦ rw miss (
          positive,
          find_ref-set_none xs s x.secret_id k x.key n alone,
          set_connections-IsChain xs s k n p h,
        )
      ]

  pub refs_of-set :
      (c : List (SecretRef K)) (s s' : ℕ) (k : K) (n : ℕ)
      → refs_of (set_connections same c s k n) s' ≡ refs_of c s'
  unfolding refs_of set_connections
  refs_of-set [] s s' k n = refl
  refs_of-set (x ∷ xs) s s' k n = elim (Bool-cases (is_ref same x s k)) [
    | inl hit ↦ ground (arith, hit)
    | inr miss ↦ ground (arith, miss, refs_of-set xs s s' k n)
  ]
