-- ===== src/Queries/Room.antt =====
-- What forward_tcp_query of c-original/mtproto/mtproto-proxy.c needs for a new entry, and that it is still there
-- when the client's old entry is gone.
use mtproxy.Prelude.{
  ℕ, ◌-◌, ◌/◌, ◌%◌, ◌^◌, ◌<◌, ◌≡◌, ◌≢◌, ◌∙◌, sym, ap, subst, Bool, true, Option, some, List, [],
  ◌∷◌, inl, inr, ◌==◌, arith, Bool-cases, Option-cases,
}
use mtproxy.Externals.Rings.{max_connections, ext_connection_head, conn_lru}
use mtproxy.Externals.Entries.{
  Connection, is_peer, Entries, ext_conn_table_size, ext_conn_hash, find_connection,
}
use mtproxy.Externals.ChainLaws.{find_connection-some}
use mtproxy.Externals.Shape.{Live, Free, IsEntries}
use mtproxy.Externals.Slots.{HasFree}
use mtproxy.Externals.Create.{HasRoom}
use mtproxy.Externals.Delete.{IsDeleted}
use mtproxy.Externals.Open.{IsOpen}
use mtproxy.Queries.{choose_server}
use mtproxy.Queries.Keep.{IsKeyed}

-- calloc gives the free address fresh, the counters are below their bounds, one of the draws falls on a free slot, and
-- the server that the attempts give is ready and another connection.
pub record CanCreate (space : ℕ) (t : Entries) (c : Connection) (draws : List ℕ) (fresh : ℕ)
    (attempts : List (Option (Connection × Bool))) : Type 0 where
  pub heap : (conn_lru < fresh) × (fresh < space)
  pub free : Free t fresh
  pub room : t.ext_connections < ext_conn_table_size / 2
  pub ids : (s : ℕ) → t.out_ids s < 2 ^ 64 - ext_conn_table_size
  pub hits : HasFree t.out_refs (c.fd ∷ draws)
  pub server :
      (d : Connection)
      → choose_server attempts ≡ some d
      → (IsOpen t (some d)) × (is_peer c (some d) ≡ true) × (d.fd ≢ 0)

HasFree-mono :
    (refs others : ℕ → ℕ) (draws : List ℕ)
    → ((s : ℕ) → refs s ≡ 0 → others s ≡ 0)
    → HasFree refs draws
    → HasFree others draws
HasFree-mono refs others [] h f = f
HasFree-mono refs others (draw ∷ draws) h (inl e) = inl (h (draw % ext_conn_table_size) e)
HasFree-mono refs others (draw ∷ draws) h (inr f) = inr (HasFree-mono refs others draws h f)

module _ {space : ℕ} {t u : Entries} {c : Connection} {draws : List ℕ} {fresh : ℕ}
    {attempts : List (Option (Connection × Bool))}
    (r : CanCreate space t c draws fresh attempts) where
  pub keyed-CanCreate : IsKeyed space t u → CanCreate space u c draws fresh attempts
  keyed-CanCreate k = record {
    heap = r.heap;
    free = k.same_id fresh ∙ r.free;
    room = omega (arith, r.room, k.same_count);
    ids = λ s. omega (arith, r.ids s, k.same_ids s);
    hits = HasFree-mono t.out_refs u.out_refs (c.fd ∷ draws) (λ s e. k.same_refs s ∙ e) r.hits;
    server = λ d e.
        let (o, p, n) = r.server d e in
        ((λ z. o (sym (k.same_out_ring (ext_connection_head d.fd)) ∙ z)), p, n);
  }

  pub deleted-CanCreate :
      {ex : ℕ}
      → conn_lru < ex
      → Live t ex
      → IsDeleted space t ex u
      → CanCreate space u c draws fresh attempts
  deleted-CanCreate {ex} above live k = record {
    heap = r.heap;
    free =
        let o : fresh ≢ ex = λ e. live (subst (λ z. (t.conns z).out_conn_id ≡ 0) e r.free) in
        ap (λ c. c.out_conn_id) (k.others fresh o) ∙ r.free;
    room = omega (arith, r.room, k.fewer);
    ids = λ s. omega (arith, r.ids s, k.same_ids s);
    hits = HasFree-mono t.out_refs u.out_refs (c.fd ∷ draws) k.slots_free r.hits;
    server = λ d e.
        let (o, p, n) = r.server d e in
        let low : d.fd < max_connections = ground (arith, p) in
        (k.out_stays (ext_connection_head d.fd) (omega (arith, above, low)) o, p, n);
  }

-- Where no live entry is one of the client, there is room for one.
pub CanCreate-HasRoom :
    {space : ℕ} {t : Entries} {c : Connection} {draws : List ℕ} {fresh : ℕ}
    {attempts : List (Option (Connection × Bool))}
    → CanCreate space t c draws fresh attempts
    → IsEntries space t
    → c.fd < max_connections
    → ((a : ℕ) → Live t a → (t.conns a).in_fd ≢ c.fd)
    → HasRoom space t fresh c.fd 0 draws
CanCreate-HasRoom {t} {c} r h low none_there = record {
  heap = r.heap;
  free = r.free;
  low = low;
  room = r.room;
  ids = r.ids;
  unknown = elim (Option-cases (find_connection t.conns (t.chains (ext_conn_hash c.fd 0)) c.fd 0)) [
    | inl e ↦ e
    | inr (a, e) ↦
        let (m, f, i) = find_connection-some t.conns (t.chains (ext_conn_hash c.fd 0)) c.fd 0 a e in
        absurd (none_there a (h.indexed.member (ext_conn_hash c.fd 0) a m).0 f)
  ];
  alone =
      let head = ext_connection_head c.fd in
      let ex = t.in_ring.next head in
      elim (Bool-cases (ex == 0)) [
        | inl z ↦ inl (ground (arith, z))
        | inr n ↦ elim (Bool-cases (ex == head)) [
          | inl e ↦ inr (ground (arith, e))
          | inr d ↦
              let own = h.ringed.in_owner c.fd low (ground (arith, n)) (ground (arith, d)) in
              absurd (none_there ex own.0 own.1)
        ]
      ];
  hits = r.hits;
}
