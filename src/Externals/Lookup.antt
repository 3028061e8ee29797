-- ===== src/Externals/Lookup.antt =====
-- What the lookups in the table of external connections of c-original/mtproto/mtproto-proxy.c give.
use mtproxy.Prelude.{
  ℕ, ◌%◌, ◌<◌, ◌≡◌, ◌≢◌, ◌∙◌, sym, ap, subst, Option, none, some, inl, inr, ◌==◌, ◌||◌, not, arith,
  Option-cases, some-eq,
}
use mtproxy.Prelude.Run.{Returns, returns, Returns-if, Returns-assert}
use mtproxy.Externals.Rings.{max_connections, ext_connection_head}
use mtproxy.Externals.Entries.{
  Entries, ext_conn_table_size, ext_conn_hash, find_connection, get_ext_connection_by_in_fd,
  find_ext_connection_by_out_conn_id,
}
use mtproxy.Externals.ChainLaws.{none≢some, find_connection-some}
use mtproxy.Externals.Shape.{Live, IsEntries}

-- `r` is the only live entry with a property, or none where there is none.
abbrev pub IsOnly : Entries → (ℕ → Type 0) → Option ℕ → Type 0
IsOnly t P none = (a : ℕ) → Live t a → P a → ⊥
IsOnly t P (some a) = Live t a × P a × ((b : ℕ) → Live t b → P b → b ≡ a)

module _ (space : ℕ) (t : Entries) (h : IsEntries space t) where
  -- The lookup by a client's descriptor fails no assertion and gives the live entry of the client, of which there is
  -- no other, or none where it has none.
  pub get_ext_connection_by_in_fd_lem :
      (fd : ℕ)
      → fd ≢ 0
      → fd < max_connections
      → Returns (IsOnly t (λ a. (t.conns a).in_fd ≡ fd)) (get_ext_connection_by_in_fd t fd)
  unfolding get_ext_connection_by_in_fd
  get_ext_connection_by_in_fd_lem fd real inside =
      let head = ext_connection_head fd in
      let ring = h.ringed.in_ring in
      let ex = t.in_ring.next head in
      let owner = h.ringed.in_owner fd inside in
      let last : (a : ℕ) → Live t a → (t.conns a).in_fd ≡ fd → t.in_ring.prev head ≡ a =
        λ a l e. ground (arith, real, e, ring.forth a, h.ringed.in_linked a l) in
      let same : ex ≡ t.in_ring.prev head = ground (
        arith,
        owner,
        ring.forth head,
        ring.both head,
        ring.forth ex,
        h.ringed.in_linked ex,
        real,
      ) in
      Returns-assert _ (ground (arith, inside)) (
        Returns-assert _ (ground (arith, same)) (
          Returns-if (ex == 0 || ex == head) _ _
            (λ z. returns (λ a l e. ground (arith, last a l e, same, z, h.heap a l, inside)))
            (λ n.
              let o = owner (ground (arith, n)) (ground (arith, n)) in
              Returns-assert _ (ground (arith, o))
                (returns (o.0, o.1, λ b l e. ground (arith, last b l e, same))))))

  -- The lookup by the id that the servers know fails no assertion and gives the live entry with this id, of which there
  -- is no other, or none where there is none.
  pub find_ext_connection_by_out_conn_id_lem :
      (id : ℕ)
      → Returns
          (IsOnly t (λ a. (t.conns a).out_conn_id ≡ id))
          (find_ext_connection_by_out_conn_id t id)
  unfolding find_ext_connection_by_out_conn_id
  find_ext_connection_by_out_conn_id_lem id =
      let s = id % ext_conn_table_size in
      let cur = t.out_refs s in
      let owner = h.slotted.owner s in
      let own : (a : ℕ) → Live t a → (t.conns a).out_conn_id ≡ id → cur ≡ a =
        λ a l e. subst (λ x. t.out_refs (x % ext_conn_table_size) ≡ a) e (h.slotted.slot a l) in
      Returns-if (cur == 0 || not (t.out_ids s == id)) _ _
        (λ z. returns (λ a l e.
          let here = own a l e in
          ground (arith, z, here, h.heap a l, e, owner, ap (λ x. (t.conns x).out_conn_id) here)))
        (λ n.
          let o = owner (ground (arith, n)) in
          let same : (t.conns cur).out_conn_id ≡ id = ground (arith, n, o) in
          Returns-assert _ (ground (arith, same)) (returns (o.0, same, λ b l e. sym (own b l e))))

  own_key :
      (fd id a : ℕ)
      → Live t a
      → (t.conns a).in_fd ≡ fd
      → (t.conns a).in_conn_id ≡ id
      → find_connection t.conns (t.chains (ext_conn_hash fd id)) fd id ≡ some a
  own_key fd id a l f i =
      subst (λ x. find_connection t.conns (t.chains (ext_conn_hash x id)) x id ≡ some a) f
        (subst
          (λ y.
            find_connection t.conns (t.chains (ext_conn_hash (t.conns a).in_fd y)) (t.conns a).in_fd
              y
            ≡ some a)
          i (h.indexed.found a l))

  -- Two live entries have different keys.
  pub same_key :
      (a b : ℕ)
      → Live t a
      → Live t b
      → (t.conns a).in_fd ≡ (t.conns b).in_fd
      → (t.conns a).in_conn_id ≡ (t.conns b).in_conn_id
      → a ≡ b
  same_key a b l m f i =
      some-eq (sym (own_key (t.conns b).in_fd (t.conns b).in_conn_id a l f i) ∙ h.indexed.found b m)

  -- The lookup by a client's descriptor and id
  pub find_connection_lem :
      (fd id : ℕ)
      → IsOnly t
          (λ a. ((t.conns a).in_fd ≡ fd) × ((t.conns a).in_conn_id ≡ id))
          (find_connection t.conns (t.chains (ext_conn_hash fd id)) fd id)
  find_connection_lem fd id =
      let r = find_connection t.conns (t.chains (ext_conn_hash fd id)) fd id in
      elim (Option-cases r) [
        | inl e ↦
            subst (IsOnly t (λ a. ((t.conns a).in_fd ≡ fd) × ((t.conns a).in_conn_id ≡ id))) (sym e)
              (λ a l k. none≢some (sym e ∙ own_key fd id a l k.0 k.1))
        | inr (a, e) ↦
            let (m, f, i) =
              find_connection-some t.conns (t.chains (ext_conn_hash fd id)) fd id a e in
            subst (IsOnly t (λ a. ((t.conns a).in_fd ≡ fd) × ((t.conns a).in_conn_id ≡ id))) (sym e)
              (
                (h.indexed.member (ext_conn_hash fd id) a m).0,
                (f, i),
                λ b l kb. some-eq (sym (own_key fd id b l kb.0 kb.1) ∙ e),
              )
      ]
