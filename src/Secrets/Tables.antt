-- ===== src/Secrets/Tables.antt =====
-- The hash tables of secrets in c-original/mtproto/mtproto-proxy.c, as a whole.
use mtproxy.Prelude.{
  ℕ, ◌+◌, ◌-◌, ◌<◌, ◌≡◌, ◌∙◌, Bool, true, none, some, List, ◌==◌, if◌then◌else◌, arith, Bool-cases,
  Option-cases, inl, inr, ap, sym, subst,
}
use mtproxy.Prelude.Run.{Returns, ended}
use mtproxy.Secrets.{
  SecretRef, Table, is_ref, find_ref, set_connections, unlink_ref, set_chain, set_active, get_ref,
  release, acquire, secret_device_hash_size,
}
use mtproxy.Secrets.Chains.{
  refs_of, one_ref, connections_of, IsChain, Differs, is_ref_sound, connections_of-set_self,
  connections_of-set_other, set_connections-IsChain, refs_of-set,
}
use mtproxy.Secrets.ChainEdits.{
  find_ref-unlink_self, find_ref-unlink_other, unlink_ref-IsChain, refs_of-unlink, appended,
  find_ref-appended_self, find_ref-appended_other, set_connections-appended, appended-IsChain,
  refs_of-appended,
}
use mtproxy.Secrets.Sums.{total, total_update, total_ge}

module _ {K : Type 0} (same : K → K → Bool) (hash : ℕ → K → ℕ) where
  -- The counter of a secret is the number of its entries in all chains.
  pub record IsTable (t : Table K) : Type 0 where
    pub all_chains : (h : ℕ) → IsChain same (t.chains h)
    pub counted : (s : ℕ) → t.active s ≡ total secret_device_hash_size (λ h. refs_of (t.chains h) s)

  abbrev pub connections_at : Table K → ℕ → K → ℕ
  connections_at t s k = connections_of same (t.chains (hash s k)) s k

-- 1 for the key itself, 0 for another key.
abbrev pub unit_at : {K : Type 0} → (K → K → Bool) → ℕ → K → ℕ → K → ℕ
unit_at same s k s' k' = if is_ref same (one_ref s k 0) s' k' then 1 else 0

module _ {K : Type 0} (same : K → K → Bool) (hash : ℕ → K → ℕ)
    (sound : (a b : K) → same a b ≡ true → a ≡ b) (reflexive : (a : K) → same a a ≡ true)
    (hash_lt : (s : ℕ) (k : K) → hash s k < secret_device_hash_size) where
  -- The chain of the key is set, and the counters go with the number of its entries.
  IsTable-edited :
      (t : Table K) (s : ℕ) (k : K) (c : List (SecretRef K)) (a : ℕ → ℕ)
      → IsTable same hash t
      → IsChain same c
      → ((s' : ℕ) → refs_of c s' + t.active s' ≡ refs_of (t.chains (hash s k)) s' + a s')
      → IsTable same hash (record (set_chain t (hash s k) c) { active = a })
  IsTable-edited t s k c a h chain number = record {
    all_chains = λ i. elim (Bool-cases (i == hash s k)) [
      | inl here ↦ rw here chain
      | inr there ↦ rw there (h.all_chains i)
    ];
    counted = λ s'.
        let moved =
          total_update secret_device_hash_size (hash s k) (λ i. refs_of (t.chains i) s')
            (λ i. refs_of (if i == hash s k then c else t.chains i) s') (hash_lt s k)
            (λ i p q. ground arith) in
        ground (arith, moved, number s', h.counted s');
  }

  -- What is looked up in a table with another chain.
  connections_at-edited :
      (t : Table K) (s : ℕ) (k : K) (c : List (SecretRef K)) (a : ℕ → ℕ) (x y : ℕ)
      → connections_of same c s k + x ≡ connections_at same hash t s k + y
      → ((s' : ℕ) (k' : K)
          → Differs same sound reflexive s k s' k'
          → connections_of same c s' k' ≡ connections_of same (t.chains (hash s k)) s' k')
      → (s' : ℕ) (k' : K)
      → connections_at same hash (record (set_chain t (hash s k) c) { active = a }) s' k'
          + (if is_ref same (one_ref s k 0) s' k' then x else 0)
        ≡ connections_at same hash t s' k' + (if is_ref same (one_ref s k 0) s' k' then y else 0)
  connections_at-edited t s k c a x y own others s' k' =
      let goal : ℕ → K → Type 0 = λ i z.
        connections_at same hash (record (set_chain t (hash s k) c) { active = a }) i z
          + (if is_ref same (one_ref s k 0) i z then x else 0)
        ≡ connections_at same hash t i z + (if is_ref same (one_ref s k 0) i z then y else 0) in
      elim (Bool-cases (is_ref same (one_ref s k 0) s' k')) [
        | inl itself ↦
            let (es, ek) = is_ref_sound same sound reflexive (one_ref s k 0) s' k' itself in
            subst (λ i. goal i k') es (subst (λ z. goal s z) ek (ground (arith, own, reflexive k)))
        | inr other ↦ elim (Bool-cases (hash s' k' == hash s k)) [
          | inl here ↦
              let e : hash s' k' ≡ hash s k = ground (arith, here) in
              ground (arith, other, here, others s' k' other, ap t.chains e)
          | inr there ↦ ground (arith, other, there)
        ]
      ]

  -- What release leaves: the key has one connection less.
  abbrev pub Released : Table K → ℕ → K → Table K → Type 0
  Released t s k u =
      (IsTable same hash u)
      × ((s' : ℕ) (k' : K)
          → connections_at same hash u s' k' + unit_at same s k s' k'
            ≡ connections_at same hash t s' k')

  pub release_lem :
      (t : Table K) (s : ℕ) (k : K)
      → IsTable same hash t
      → 0 < connections_at same hash t s k
      → Returns (Released t s k) (release same hash t s k)
  unfolding release get_ref
  release_lem t s k h p =
      let c = t.chains (hash s k) in
      elim (Option-cases (find_ref same c s k)) [
        | inl missing ↦ absurd (ground (arith, missing))
        | inr (r, found) ↦ elim (Bool-cases (r.connections - 1 == 0)) [
          | inl last ↦
              let number = λ (s' : ℕ). refs_of-unlink same sound reflexive c s s' k r found in
              let active : 0 < t.active s = ground (
                arith,
                total_ge secret_device_hash_size (hash s k) (λ i. refs_of (t.chains i) s)
                    (hash_lt s k),
                number s,
                h.counted s,
              ) in
              ended
                (record (set_chain t (hash s k) (unlink_ref same c s k)) {
                  active = λ i. if i == s then t.active s - 1 else t.active i;
                })
                (ground (arith, found, last))
                (
                  IsTable-edited t s k (unlink_ref same c s k)
                      (λ i. if i == s then t.active s - 1 else t.active i) h
                      (unlink_ref-IsChain same sound reflexive c s k (h.all_chains (hash s k)))
                      (λ s'. ground (arith, number s')),
                  λ s' k'. ground (
                    arith,
                    connections_at-edited t s k (unlink_ref same c s k)
                        (λ i. if i == s then t.active s - 1 else t.active i) 1 0
                        (ground (
                          arith,
                          find_ref-unlink_self same sound reflexive c s k (h.all_chains (hash s k)),
                          found,
                          last,
                        ))
                        (λ i z d.
                          ground (arith, find_ref-unlink_other same sound reflexive c s i k z d))
                        s' k',
                  ),
                )
          | inr more ↦
              ended (set_chain t (hash s k) (set_connections same c s k (r.connections - 1)))
                (ground (arith, found, more))
                (
                  IsTable-edited t s k (set_connections same c s k (r.connections - 1)) t.active h
                      (set_connections-IsChain same sound reflexive c s k (r.connections - 1)
                        (ground (arith, more, found)) (h.all_chains (hash s k)))
                      (λ s'.
                        ground
                          (arith, refs_of-set same sound reflexive c s s' k (r.connections - 1))),
                  λ s' k'. ground (
                    arith,
                    connections_at-edited t s k (set_connections same c s k (r.connections - 1))
                        t.active 1 0
                        (ground (
                          arith,
                          connections_of-set_self same sound reflexive c s k r (r.connections - 1)
                              found,
                          found,
                          more,
                        ))
                        (λ i z d.
                          connections_of-set_other same sound reflexive c s i k z
                            (r.connections - 1) d)
                        s' k',
                  ),
                )
        ]
      ]

  -- What acquire leaves: the key has one connection more.
  abbrev pub Acquired : Table K → ℕ → K → Table K → Type 0
  Acquired t s k u =
      (IsTable same hash u)
      × ((s' : ℕ) (k' : K)
          → connections_at same hash u s' k'
            ≡ connections_at same hash t s' k' + unit_at same s k s' k')

  acquire-fresh :
      (t : Table K) (s : ℕ) (k : K)
      → IsTable same hash t
      → find_ref same (t.chains (hash s k)) s k ≡ none
      → Acquired t s k
          (record (set_chain t
            (hash s k)
            (appended same sound reflexive (t.chains (hash s k)) s k 1)) {
              active = λ i. if i == s then t.active s + 1 else t.active i;
            })
  acquire-fresh t s k h missing =
      let c = t.chains (hash s k) in
      (
        IsTable-edited t s k (appended same sound reflexive c s k 1)
            (λ i. if i == s then t.active s + 1 else t.active i) h
            (appended-IsChain same sound reflexive c s k 1 (omega arith) missing
              (h.all_chains (hash s k)))
            (λ s'. ground (arith, refs_of-appended same sound reflexive c s s' k 1)),
        λ s' k'. ground (
          arith,
          connections_at-edited t s k (appended same sound reflexive c s k 1)
              (λ i. if i == s then t.active s + 1 else t.active i) 0 1
              (ground (arith, find_ref-appended_self same sound reflexive c s k 1 missing, missing))
              (λ i z d. ground (arith, find_ref-appended_other same sound reflexive c s i k z 1 d))
              s' k',
        ),
      )

  acquire-known :
      (t : Table K) (s : ℕ) (k : K) (r : SecretRef K)
      → IsTable same hash t
      → find_ref same (t.chains (hash s k)) s k ≡ some r
      → Acquired t s k (
          set_chain t
            (hash s k)
            (set_connections same (t.chains (hash s k)) s k (r.connections + 1)))
  acquire-known t s k r h found =
      let c = t.chains (hash s k) in
      (
        IsTable-edited t s k (set_connections same c s k (r.connections + 1)) t.active h
            (set_connections-IsChain same sound reflexive c s k (r.connections + 1) (omega arith)
              (h.all_chains (hash s k)))
            (λ s'. ground (arith, refs_of-set same sound reflexive c s s' k (r.connections + 1))),
        λ s' k'. ground (
          arith,
          connections_at-edited t s k (set_connections same c s k (r.connections + 1)) t.active 0 1
              (ground (
                arith,
                connections_of-set_self same sound reflexive c s k r (r.connections + 1) found,
                found,
              ))
              (λ i z d.
                connections_of-set_other same sound reflexive c s i k z (r.connections + 1) d)
              s' k',
        ),
      )

  pub acquire_lem :
      (t : Table K) (s : ℕ) (k : K) → IsTable same hash t → Acquired t s k (acquire same hash t s k)
  unfolding acquire get_ref
  acquire_lem t s k h = elim (Option-cases (find_ref same (t.chains (hash s k)) s k)) [
    | inl missing ↦
        subst (Acquired t s k)
          (ap (λ x. set_active (set_chain t (hash s k) x) s (t.active s + 1))
              (sym (
                set_connections-appended same sound reflexive (t.chains (hash s k)) s k 0 1
                  missing))
            ∙ ground (arith, missing))
          (acquire-fresh t s k h missing)
    | inr (r, found) ↦
        subst (Acquired t s k) (ground (arith, found)) (acquire-known t s k r h found)
  ]
