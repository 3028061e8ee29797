-- ===== src/Externals/Insert.antt =====
-- A new entry of the table of external connections of c-original/mtproto/mtproto-proxy.c.
use mtproxy.Prelude.{
  ℕ, ◌+◌, ◌%◌, ◌<◌, ◌≡◌, ◌≢◌, refl, ◌∙◌, sym, ap, subst, none, ◌∷◌, ◌⊎◌, inl, inr, ◌==◌, ◌&&◌, not,
  arith, Bool-cases, by_test,
}
use mtproxy.Secrets.Sums.{total_update}
use mtproxy.Externals.Rings.{Ring, put_at, max_connections, ext_connection_head, conn_lru}
use mtproxy.Externals.Entries.{
  ExtConnection, Entries, ext_conn_table_size, ext_conn_hash, find_connection, zero_connection,
  zero_ext, next_out_conn_id,
}
use mtproxy.Externals.ChainLaws.{
  Member, IsChain, find_connection-agree, IsChain-agree, find_connection-Member,
  find_connection-some,
}
use mtproxy.Externals.Slots.{IsSlot, next_out_conn_id-slot}
use mtproxy.Externals.Joins.{IsJoined}
use mtproxy.Externals.Shape.{Live, Free, bucket, taken, IsEntries, IsIndexed, IsSlotted, IsRinged}

-- The new entry, and the table with it in the slot.
abbrev pub new_entry : ℕ → ℕ → ℕ → ℕ → ExtConnection
new_entry in_fd in_gen in_conn_id id = record zero_connection {
  in_fd = in_fd;
  in_gen = in_gen;
  in_conn_id = in_conn_id;
  out_conn_id = id;
}

abbrev pub with_entry : Entries → ℕ → ℕ → ℕ → ℕ → ℕ → Ring → Entries
with_entry t cur in_fd in_gen in_conn_id slot in_ring =
    let id = next_out_conn_id (t.out_ids slot) slot in
    let h = ext_conn_hash in_fd in_conn_id in
    record t {
      conns = put_at t.conns cur (new_entry in_fd in_gen in_conn_id id);
      pool = record t.pool { exts = put_at t.pool.exts cur zero_ext };
      chains = put_at t.chains h (cur ∷ t.chains h);
      in_ring = in_ring;
      out_refs = put_at t.out_refs slot cur;
      out_ids = put_at t.out_ids slot id;
      ext_connections = t.ext_connections + 1;
      ext_connections_created = t.ext_connections_created + 1;
    }

module _ (space : ℕ) (t : Entries) (h : IsEntries space t) (cur : ℕ) (free : Free t cur)
    (above : conn_lru < cur) (in_fd in_gen in_conn_id slot : ℕ) (in_ring : Ring)
    (unknown : find_connection t.conns (t.chains (ext_conn_hash in_fd in_conn_id)) in_fd in_conn_id
      ≡ none)
    (open_slot : IsSlot t.out_refs slot) (real : next_out_conn_id (t.out_ids slot) slot ≢ 0) where
  abbrev u : Entries
  u = with_entry t cur in_fd in_gen in_conn_id slot in_ring

  kept : (a : ℕ) → a ≢ cur → u.conns a ≡ t.conns a
  kept a o = ground (arith, o)

  elder : (a : ℕ) → a ≢ cur → Live u a → Live t a
  elder a o l = ground (arith, o, l)

  slotted_here : next_out_conn_id (t.out_ids slot) slot % ext_conn_table_size ≡ slot
  slotted_here = next_out_conn_id-slot (t.out_ids slot) slot open_slot.0

  pub slots : IsSlotted u
  slots = record {
    slot = λ a l. elim (Bool-cases (a == cur)) [
      | inl e ↦ ground (arith, e, slotted_here)
      | inr n ↦
          let o : a ≢ cur = ground (arith, n) in
          ground (arith, o, h.slotted.slot a (elder a o l), h.heap a (elder a o l), open_slot)
    ];
    owner = λ x n. elim (Bool-cases (x == slot)) [
      | inl e ↦ ground (arith, e, slotted_here, real)
      | inr d ↦
          let far : x ≢ slot = ground (arith, d) in
          let o = h.slotted.owner x (ground (arith, n, far)) in
          let ne : t.out_refs x ≢ cur =
            λ e. ground (arith, o, free, ap (λ z. (t.conns z).out_conn_id) e) in
          ground (arith, far, ne, o)
    ];
    count =
        let moved =
          total_update ext_conn_table_size slot (taken t.out_refs)
            (taken (put_at t.out_refs slot cur)) open_slot.0 (λ i p o. ground (arith, o)) in
        let empty : taken t.out_refs slot ≡ 0 = ground (arith, open_slot) in
        let full : taken (put_at t.out_refs slot cur) slot ≡ 1 = ground (arith, above) in
        omega (arith, moved, full, empty, h.slotted.count);
  }

  -- What a chain held before, and what it holds now.
  older :
      (b a : ℕ)
      → Member a (u.chains b)
      → ((a ≡ cur) × (b ≡ ext_conn_hash in_fd in_conn_id)) ⊎ ((a ≢ cur) × Member a (t.chains b))
  unfolding Member
  older b a =
      let x = ext_conn_hash in_fd in_conn_id in
      let P = (a ≡ cur) × (b ≡ x) ⊎ (a ≢ cur) × Member a (t.chains b) in
      let was : Member a (t.chains b) → P =
        λ m. inr ((λ e. ground (arith, e, free, (h.indexed.member b a m).0)), m) in
      by_test (λ ys. Member a ys → P) (b == x)
        (λ e m.
          let here : b ≡ x = ground (arith, e) in
          elim m [
            | inl f ↦ inl (f, here)
            | inr r ↦ was (subst (λ z. Member a (t.chains z)) (sym here) r)
          ])
        (λ n m. was m)

  newer : (b a : ℕ) → Member a (t.chains b) → Member a (u.chains b)
  unfolding Member
  newer b a m =
      let x = ext_conn_hash in_fd in_conn_id in
      by_test (Member a) (b == x)
        (λ e. inr (subst (λ z. Member a (t.chains z)) (ground (arith, e)) m)) (λ n. m)

  pub own : u.conns cur ≡ new_entry in_fd in_gen in_conn_id (next_out_conn_id (t.out_ids slot) slot)
  own = ground arith

  newest : Member cur (u.chains (ext_conn_hash in_fd in_conn_id))
  unfolding Member
  newest =
      let x = ext_conn_hash in_fd in_conn_id in
      by_test (Member cur) (x == x) (λ e. inl refl) (λ n. absurd (ground (arith, n)))

  chained : (b : ℕ) → IsChain u.conns (u.chains b)
  unfolding IsChain
  chained b =
      let x = ext_conn_hash in_fd in_conn_id in
      let stays : (y a : ℕ) → Member a (t.chains y) → u.conns a ≡ t.conns a =
        λ y a m. kept a (λ e. ground (arith, e, free, (h.indexed.member y a m).0)) in
      let was : (y : ℕ) → IsChain u.conns (t.chains y) =
        λ y. IsChain-agree t.conns u.conns (t.chains y) (stays y) (h.indexed.chain y) in
      by_test (IsChain u.conns) (b == x)
        (λ e. (
          subst (λ c. find_connection u.conns (t.chains x) c.in_fd c.in_conn_id ≡ none) (sym own)
              (find_connection-agree t.conns u.conns (t.chains x) in_fd in_conn_id (stays x)
                ∙ unknown),
          was x,
        ))
        (λ n. was b)

  indexed_at : (a : ℕ) → Live u a → Member a (u.chains (bucket (u.conns a)))
  indexed_at a l = elim (Bool-cases (a == cur)) [
    | inl e ↦
        subst (λ z. Member z (u.chains (bucket (u.conns z)))) {x = cur} (ground (arith, e))
          (subst (λ c. Member cur (u.chains (bucket c))) (sym own) newest)
    | inr n ↦
        let o : a ≢ cur = ground (arith, n) in
        let c = t.conns a in
        subst (λ d. Member a (u.chains (bucket d))) (sym (kept a o))
          (newer (bucket c) a
            (find_connection-some t.conns (t.chains (bucket c)) c.in_fd c.in_conn_id a
              (h.indexed.found a (elder a o l))).0)
  ]

  pub index : IsIndexed u
  index = record {
    chain = chained;
    member = λ b a m. elim (older b a m) [
      | inl (e, x) ↦
          subst (λ z. Live u z × (bucket (u.conns z) ≡ b)) (sym e)
            (subst (λ c. (c.out_conn_id ≢ 0) × (bucket c ≡ b)) (sym own) (real, sym x))
      | inr (o, m2) ↦
          subst (λ c. (c.out_conn_id ≢ 0) × (bucket c ≡ b)) (sym (kept a o))
            (h.indexed.member b a m2)
    ];
    found = λ a l.
        find_connection-Member u.conns (u.chains (bucket (u.conns a))) a (chained _)
          (indexed_at a l);
  }

  module _ (low : in_fd < max_connections) (joined : IsJoined t.in_ring in_fd cur in_ring) where
    owner :
        (fd : ℕ)
        → fd < max_connections
        → in_ring.next (ext_connection_head fd) ≢ 0
        → in_ring.next (ext_connection_head fd) ≢ ext_connection_head fd
        → Live u (in_ring.next (ext_connection_head fd))
          × ((u.conns (in_ring.next (ext_connection_head fd))).in_fd ≡ fd)
    owner fd inside n m =
        let head = ext_connection_head fd in
        let P = λ (z : ℕ). Live u z × ((u.conns z).in_fd ≡ fd) in
        elim (Bool-cases (not (in_fd == 0) && fd == in_fd)) [
          | inl e ↦
              let same : in_fd ≡ fd = ground (arith, e) in
              let here : in_ring.next head ≡ cur =
                subst (λ z. in_ring.next (ext_connection_head z) ≡ cur) same
                  (joined.inside (ground (arith, e))).1 in
              subst P (sym here)
                (subst (λ c. (c.out_conn_id ≢ 0) × (c.in_fd ≡ fd)) (sym own) (real, same))
          | inr d ↦
              let same = joined.others head (omega (arith, above, inside)) (ground (arith, d)) in
              let was =
                h.ringed.in_owner fd inside (ground (arith, same, n)) (ground (arith, same, m)) in
              let o : t.in_ring.next head ≢ cur =
                λ e. ground (arith, was, ap (λ z. (t.conns z).out_conn_id) e, free) in
              subst P (sym same) (
                subst (λ c. (c.out_conn_id ≢ 0) × (c.in_fd ≡ fd))
                  (sym (kept (t.in_ring.next head) o)) was)
        ]

    pub rings : IsRinged u
    rings =
        let r = h.ringed in
        record {
          in_ring = joined.ring;
          out_ring = r.out_ring;
          lru = r.lru;
          in_linked = λ a m n. elim (Bool-cases (a == cur)) [
            | inl e ↦ ground (arith, e, low, n, joined.inside)
            | inr d ↦
                let o : a ≢ cur = ground (arith, d) in
                let elder_a = elder a o m in
                let linked = r.in_linked a elder_a (ground (arith, d, n)) in
                ground
                  (arith, d, linked, joined.others a o (inr (omega (arith, h.heap a elder_a, low))))
          ];
          in_outside = λ a m z. elim (Bool-cases (a == cur)) [
            | inl e ↦ ground (arith, e, z, joined.outside)
            | inr d ↦
                let o : a ≢ cur = ground (arith, d) in
                let elder_a = elder a o m in
                let outside = r.in_outside a elder_a (ground (arith, d, z)) in
                ground
                  (arith, outside, joined.others a o (inr (omega (arith, h.heap a elder_a, low))))
          ];
          in_owner = λ fd inside n m. owner fd inside n m;
          out_linked = λ a m n.
              let o : a ≢ cur = λ e. ground (arith, e, n) in
              let linked = r.out_linked a (elder a o m) (ground (arith, o, n)) in
              ground (arith, o, linked);
          loose = λ a high f.
              let o : a ≢ cur = λ e. ground (arith, e, f, real) in
              let was = r.loose a high (ground (arith, o, f)) in
              ground (arith, was, joined.others a o (inr (omega (arith, high, low))));
        }
