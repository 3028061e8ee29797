-- ===== src/Secrets/ChainEdits.antt =====
-- Entries that leave and join a chain of secrets in c-original/mtproto/mtproto-proxy.c.
use mtproxy.Prelude.{
  ℕ, ◌+◌, ◌<◌, ◌≡◌, refl, ◌∙◌, Bool, true, none, some, List, [], ◌∷◌, ◌++◌, ◌==◌, if◌then◌else◌,
  arith, Bool-cases, inl, inr, subst,
}
use mtproxy.Secrets.{SecretRef, is_ref, find_ref, set_connections, unlink_ref}
use mtproxy.Secrets.Chains.{
  refs_of, one_ref, IsChain, is_ref_sound, Differs-at, Differs-sym, Differs,
}

module _ {K : Type 0} (same : K → K → Bool) (sound : (a b : K) → same a b ≡ true → a ≡ b)
    (reflexive : (a : K) → same a a ≡ true) where
  -- Without the entry of its key a chain has none of this key.
  pub find_ref-unlink_self :
      (c : List (SecretRef K)) (s : ℕ) (k : K)
      → IsChain same c
      → find_ref same (unlink_ref same c s k) s k ≡ none
  unfolding find_ref unlink_ref
  find_ref-unlink_self [] s k h = refl
  find_ref-unlink_self (x ∷ xs) s k (positive, alone, h) = elim (Bool-cases (is_ref same x s k)) [
    | inl hit ↦
        let (es, ek) = is_ref_sound same sound reflexive x s k hit in
        let gone : find_ref same xs s k ≡ none =
          subst (λ y. find_ref same xs y k ≡ none) es
            (subst (λ z. find_ref same xs x.secret_id z ≡ none) ek alone) in
        ground (arith, hit, gone)
    | inr miss ↦ ground (arith, miss, find_ref-unlink_self xs s k h)
  ]

  pub find_ref-unlink_other :
      (c : List (SecretRef K)) (s s' : ℕ) (k k' : K)
      → Differs same sound reflexive s k s' k'
      → find_ref same (unlink_ref same c s k) s' k' ≡ find_ref same c s' k'
  unfolding find_ref unlink_ref
  find_ref-unlink_other [] s s' k k' d = refl
  find_ref-unlink_other (x ∷ xs) s s' k k' d = elim (Bool-cases (is_ref same x s k)) [
    | inl hit ↦ ground (arith, hit, Differs-at same sound reflexive x s s' k k' hit d)
    | inr miss ↦ ground (arith, miss, find_ref-unlink_other xs s s' k k' d)
  ]

  find_ref-unlink_none :
      (c : List (SecretRef K)) (s s' : ℕ) (k k' : K)
      → find_ref same c s' k' ≡ none
      → find_ref same (unlink_ref same c s k) s' k' ≡ none
  unfolding find_ref unlink_ref
  find_ref-unlink_none [] s s' k k' e = e
  find_ref-unlink_none (x ∷ xs) s s' k k' e = elim (Bool-cases (is_ref same x s' k')) [
    | inl hit ↦ absurd (ground (arith, hit, e))
    | inr miss ↦ elim (Bool-cases (is_ref same x s k)) [
      | inl gone ↦ ground (arith, miss, gone, e)
      | inr kept ↦
          ground (arith, miss, kept, find_ref-unlink_none xs s s' k k' (ground (arith, miss, e)))
    ]
  ]

  pub unlink_ref-IsChain :
      (c : List (SecretRef K)) (s : ℕ) (k : K)
      → IsChain same c
      → IsChain same (unlink_ref same c s k)
  unfolding unlink_ref
  unlink_ref-IsChain [] s k h = tt
  unlink_ref-IsChain (x ∷ xs) s k (positive, alone, h) = elim (Bool-cases (is_ref same x s k)) [
    | inl hit ↦ rw hit h
    | inr miss ↦
        rw miss (
          positive,
          find_ref-unlink_none xs s x.secret_id k x.key alone,
          unlink_ref-IsChain xs s k h,
        )
  ]

  -- One entry of the secret less.
  pub refs_of-unlink :
      (c : List (SecretRef K)) (s s' : ℕ) (k : K) (r : SecretRef K)
      → find_ref same c s k ≡ some r
      → refs_of (unlink_ref same c s k) s' + (if s == s' then 1 else 0) ≡ refs_of c s'
  unfolding refs_of unlink_ref find_ref
  refs_of-unlink [] s s' k r e = cc
  refs_of-unlink (x ∷ xs) s s' k r e = elim (Bool-cases (is_ref same x s k)) [
    | inl hit ↦ let (es, _) = is_ref_sound same sound reflexive x s k hit in ground (arith, hit, es)
    | inr miss ↦ ground (arith, miss, refs_of-unlink xs s s' k r (ground (arith, miss, e)))
  ]

  -- An entry for a key that has none yet.
  abbrev pub appended : List (SecretRef K) → ℕ → K → ℕ → List (SecretRef K)
  appended c s k n = c ++ one_ref s k n ∷ []

  pub find_ref-appended_self :
      (c : List (SecretRef K)) (s : ℕ) (k : K) (n : ℕ)
      → find_ref same c s k ≡ none
      → find_ref same (appended c s k n) s k ≡ some (one_ref s k n)
  unfolding find_ref
  find_ref-appended_self [] s k n e = ground (arith, reflexive k)
  find_ref-appended_self (x ∷ xs) s k n e = elim (Bool-cases (is_ref same x s k)) [
    | inl hit ↦ absurd (ground (arith, hit, e))
    | inr miss ↦ ground (arith, miss, find_ref-appended_self xs s k n (ground (arith, miss, e)))
  ]

  pub find_ref-appended_other :
      (c : List (SecretRef K)) (s s' : ℕ) (k k' : K) (n : ℕ)
      → Differs same sound reflexive s k s' k'
      → find_ref same (appended c s k n) s' k' ≡ find_ref same c s' k'
  unfolding find_ref
  find_ref-appended_other [] s s' k k' n d = ground (arith, d)
  find_ref-appended_other (x ∷ xs) s s' k k' n d =
      ground (arith, find_ref-appended_other xs s s' k k' n d)

  pub set_connections-appended :
      (c : List (SecretRef K)) (s : ℕ) (k : K) (m n : ℕ)
      → find_ref same c s k ≡ none
      → set_connections same (appended c s k m) s k n ≡ appended c s k n
  unfolding find_ref set_connections
  set_connections-appended [] s k m n e = ground (arith, reflexive k)
  set_connections-appended (x ∷ xs) s k m n e = elim (Bool-cases (is_ref same x s k)) [
    | inl hit ↦ absurd (ground (arith, hit, e))
    | inr miss ↦ ground (arith, miss, set_connections-appended xs s k m n (ground (arith, miss, e)))
  ]

  pub appended-IsChain :
      (c : List (SecretRef K)) (s : ℕ) (k : K) (n : ℕ)
      → 0 < n
      → find_ref same c s k ≡ none
      → IsChain same c
      → IsChain same (appended c s k n)
  unfolding find_ref
  appended-IsChain [] s k n p e h = (p, refl, tt)
  appended-IsChain (x ∷ xs) s k n p e (positive, alone, h) = elim (Bool-cases (is_ref same x s k)) [
    | inl hit ↦ absurd (ground (arith, hit, e))
    | inr miss ↦ (
      positive,
      find_ref-appended_other xs s x.secret_id k x.key n
            (Differs-sym same sound reflexive x s k miss)
          ∙ alone,
      appended-IsChain xs s k n p (ground (arith, miss, e)) h,
    )
  ]

  pub refs_of-appended :
      (c : List (SecretRef K)) (s s' : ℕ) (k : K) (n : ℕ)
      → refs_of (appended c s k n) s' ≡ refs_of c s' + (if s == s' then 1 else 0)
  unfolding refs_of
  refs_of-appended [] s s' k n = refl
  refs_of-appended (x ∷ xs) s s' k n = omega (arith, refs_of-appended xs s s' k n)
