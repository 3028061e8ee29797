-- ===== src/Externals/Open.antt =====
-- create_ext_connection of c-original/mtproto/mtproto-proxy.c, and mode 2 of the lookup that it calls.
use mtproxy.Prelude.{
  ℕ, ◌%◌, ◌<◌, ◌≤◌, ◌≡◌, ◌≢◌, refl, ◌∙◌, sym, ap, subst, true, Option, none, some, List, inl, inr,
  ◌==◌, arith, Bool-cases,
}
use mtproxy.Prelude.Run.{Returns, returns, Returns-bind, Returns-assert}
use mtproxy.Externals.Rings.{Ring, put_at, max_connections, ext_connection_head, conn_lru}
use mtproxy.Externals.RingLaws.{IsRing, append_node-IsAppended}
use mtproxy.Externals.Entries.{
  ExtConnection, Entries, entry, ext_conn_table_size, ext_conn_hash, find_connection,
  get_ext_connection_by_in_conn_id, Connection, is_peer, link_out, create_ext_connection,
}
use mtproxy.Externals.ChainLaws.{SameKey, find_connection-keys, IsChain-keys}
use mtproxy.Externals.Shape.{Live, Free, bucket, IsEntries, IsIndexed, IsSlotted, IsRinged}
use mtproxy.Externals.Create.{IsCreated, HasRoom, new_connection-IsCreated}

-- The entry ex with its peer set: its key and its id stay.
abbrev linked : ExtConnection → ℕ → ℕ → ℕ → ExtConnection
linked c out_fd out_gen auth_key_id = record c {
  out_fd = out_fd;
  out_gen = out_gen;
  auth_key_id = auth_key_id;
}

module _ (space : ℕ) (t : Entries) (h : IsEntries space t) (ex : ℕ) (live : Live t ex)
    (out_fd out_gen auth_key_id : ℕ) (out_ring : Ring) where
  abbrev u : Entries
  u = record t {
    conns = put_at t.conns ex (linked (t.conns ex) out_fd out_gen auth_key_id);
    out_ring = out_ring;
  }

  same :
      (a : ℕ)
      → SameKey (u.conns a) (t.conns a) × ((u.conns a).out_conn_id ≡ (t.conns a).out_conn_id)
  same a = elim (Bool-cases (a == ex)) [
    | inl e ↦
        let here : a ≡ ex = ground (arith, e) in
        ground (
          arith,
          e,
          ap (λ z. (t.conns z).in_fd) here,
          ap (λ z. (t.conns z).in_conn_id) here,
          ap (λ z. (t.conns z).out_conn_id) here,
        )
    | inr n ↦ ground (arith, n)
  ]

  elder : (a : ℕ) → Live u a → Live t a
  elder a l = ground (arith, l, same a)

  same_bucket : (a : ℕ) → bucket (u.conns a) ≡ bucket (t.conns a)
  same_bucket a = let ((f, i), o) = same a in rw f (rw i refl)

  index : IsIndexed u
  index = record {
    chain = λ b. IsChain-keys t.conns u.conns (t.chains b) (λ a m. (same a).0) (h.indexed.chain b);
    member = λ b a m.
        let (l, e) = h.indexed.member b a m in (ground (arith, l, same a), same_bucket a ∙ e);
    found = λ a l.
        let ((f, i), o) = same a in
        find_connection-keys t.conns u.conns (t.chains (bucket (u.conns a))) (u.conns a).in_fd
          (u.conns a).in_conn_id (λ b m. (same b).0)
        ∙ subst
            (λ x.
              find_connection t.conns (t.chains (ext_conn_hash x (u.conns a).in_conn_id)) x
                (u.conns a).in_conn_id
              ≡ some a)
            (sym f)
            (subst
              (λ y.
                find_connection t.conns (t.chains (ext_conn_hash (t.conns a).in_fd y))
                  (t.conns a).in_fd y
                ≡ some a)
              (sym i) (h.indexed.found a (elder a l)));
  }

  slots : IsSlotted u
  slots = record {
    slot = λ a l.
        subst (λ x. t.out_refs (x % ext_conn_table_size) ≡ a) (sym (same a).1)
          (h.slotted.slot a (ground (arith, l, same a)));
    owner = λ s n. let o = h.slotted.owner s n in ground (arith, o, same (t.out_refs s));
    count = h.slotted.count;
  }

  module _ (ring : IsRing out_ring) (low : out_fd < max_connections)
      (joined : out_fd ≢ 0 → out_ring.next ex ≢ 0)
      (stays : (a : ℕ) → t.out_ring.next a ≢ 0 → out_ring.next a ≢ 0)
      (loose : (a : ℕ) → a ≢ ex → conn_lru < a → t.out_ring.next a ≡ 0 → out_ring.next a ≡ 0) where
    rings : IsRinged u
    rings =
        let r = h.ringed in
        record {
          in_ring = r.in_ring;
          out_ring = ring;
          lru = r.lru;
          in_linked = λ a m n.
              subst (λ x. (x < max_connections) × (t.in_ring.next a ≡ ext_connection_head x))
                (sym (same a).0.0) (r.in_linked a (elder a m) (ground (arith, n, same a)));
          in_outside = λ a m z. r.in_outside a (elder a m) (ground (arith, z, same a));
          in_owner = λ fd inside n m.
              let (l, o) = r.in_owner fd inside n m in
              let k = same (t.in_ring.next (ext_connection_head fd)) in
              (ground (arith, l, k), k.0.0 ∙ o);
          out_linked = λ a m n. elim (Bool-cases (a == ex)) [
            | inl e ↦ ground (arith, e, low, joined, n)
            | inr d ↦ ground (arith, d, r.out_linked a (elder a m) (ground (arith, d, n)), stays a)
          ];
          loose = λ a high f.
              let free : Free t a = ground (arith, f, same a) in
              let o : a ≢ ex =
                λ e. ground (arith, free, live, ap (λ z. (t.conns z).out_conn_id) e) in
              let was = r.loose a high free in (was.0, loose a o high was.1, was.2);
        }

    pub linked-IsEntries : IsEntries space u
    linked-IsEntries = record {
      heap = λ a l. h.heap a (elder a l);
      indexed = index;
      slotted = slots;
      ringed = rings;
      counted = h.counted;
      blank = λ a f. h.blank a (ground (arith, f, same a));
    }

-- The ring of the peer is there, and stands below the entries.
abbrev pub IsOpen : Entries → Option Connection → Type 0
IsOpen t none = Unit {0}
IsOpen t (some co) = t.out_ring.next (ext_connection_head co.fd) ≢ 0

-- The entry has the peer co.
abbrev pub HasPeer : ExtConnection → Option Connection → Type 0
HasPeer c none = c.out_fd ≡ 0
HasPeer c (some d) = (c.out_fd ≡ d.fd) × (c.out_gen ≡ d.generation)

-- The entry ex of u has the peer co and the key auth_key_id, and otherwise u is t.
pub record IsLinked (space : ℕ) (t : Entries) (ex : ℕ) (co : Option Connection) (auth_key_id : ℕ)
    (u : Entries) : Type 0 where
  pub entries : IsEntries space u
  pub key : SameKey (u.conns ex) (t.conns ex)
  pub id : (u.conns ex).out_conn_id ≡ (t.conns ex).out_conn_id
  pub auth : (u.conns ex).auth_key_id ≡ auth_key_id
  pub peer : HasPeer (u.conns ex) co
  pub others : (a : ℕ) → a ≢ ex → u.conns a ≡ t.conns a
  pub same_ids : (s : ℕ) → u.out_ids s ≡ t.out_ids s

pub link_out-IsLinked :
    (space : ℕ) (t : Entries) (ex : ℕ) (ci : Connection) (co : Option Connection) (auth_key_id : ℕ)
    → IsEntries space t
    → Live t ex
    → IsOpen t co
    → is_peer ci co ≡ true
    → (t.conns ex).out_fd ≡ 0
    → t.out_ring.next ex ≡ 0
    → Returns (IsLinked space t ex co auth_key_id) (link_out t ex co auth_key_id)
unfolding link_out
link_out-IsLinked space t ex ci none auth_key_id h live way peer no_out loose =
    let c = t.conns ex in
    returns (record {
      entries =
          linked-IsEntries space t h ex live c.out_fd c.out_gen auth_key_id t.out_ring
            h.ringed.out_ring (omega (arith, no_out)) (λ n. absurd (n no_out)) (λ a n. n)
            (λ a o high e. e);
      key = (ground arith, ground arith);
      id = ground arith;
      auth = ground arith;
      peer = ground (arith, no_out);
      others = λ a n. ground (arith, n);
      same_ids = λ s. refl;
    })
link_out-IsLinked space t ex ci (some co) auth_key_id h live way peer no_out loose =
    let high = h.heap ex live in
    let low : co.fd < max_connections = ground (arith, peer) in
    Returns-assert _ (ground (arith, way)) (
      Returns-bind
        (append_node-IsAppended t.out_ring (ext_connection_head co.fd) ex h.ringed.out_ring
          (omega arith) (omega (arith, high)) loose way)
        (λ ring k. returns (record {
          entries =
              linked-IsEntries space t h ex live co.fd co.generation auth_key_id ring k.ring low
                (λ n. ground (arith, k.inside)) k.stays
                (λ a o above e. k.next_other a o (λ f. ground (arith, e, f)) ∙ e);
          key = (ground arith, ground arith);
          id = ground arith;
          auth = ground arith;
          peer = (ground arith, ground arith);
          others = λ a n. ground (arith, n);
          same_ids = λ s. refl;
        })))

still-IsOpen :
    (t u : Entries) (co : Option Connection)
    → ((a : ℕ) → u.out_ring.next a ≡ t.out_ring.next a)
    → IsOpen t co
    → IsOpen u co
still-IsOpen t u none same way = tt
still-IsOpen t u (some co) same way = λ e. way (sym (same (ext_connection_head co.fd)) ∙ e)

-- What a new entry is: well formed, found by its client's key, its id is greater than all that its slot had, and the
-- other entries stay as they were.
pub record IsOpened (space : ℕ) (t : Entries) (ci : Connection) (co : Option Connection)
    (in_conn_id auth_key_id fresh : ℕ) (r : Entries × ℕ) : Type 0 where
  pub address : r.1 ≡ fresh
  pub entries : IsEntries space r.0
  pub live : Live r.0 fresh
  pub in_fd : (r.0.conns fresh).in_fd ≡ ci.fd
  pub in_conn_id_eq : (r.0.conns fresh).in_conn_id ≡ in_conn_id
  pub auth : (r.0.conns fresh).auth_key_id ≡ auth_key_id
  pub peer : HasPeer (r.0.conns fresh) co
  pub fresh_id :
      t.out_ids ((r.0.conns fresh).out_conn_id % ext_conn_table_size)
      < (r.0.conns fresh).out_conn_id
  pub others : (a : ℕ) → a ≢ fresh → r.0.conns a ≡ t.conns a
  pub ids_grow : (s : ℕ) → t.out_ids s ≤ r.0.out_ids s

module _ (space : ℕ) (t : Entries) (h : IsEntries space t) (fresh : ℕ) (draws : List ℕ) where
  get_ext_connection-IsCreated :
      (in_fd in_gen in_conn_id : ℕ)
      → HasRoom space t fresh in_fd in_conn_id draws
      → Returns
          (λ r. IsCreated space t fresh in_fd in_gen in_conn_id r.0 × (r.1 ≡ entry fresh))
          (get_ext_connection_by_in_conn_id draws fresh t in_fd in_gen in_conn_id 2)
  unfolding get_ext_connection_by_in_conn_id
  get_ext_connection-IsCreated in_fd in_gen in_conn_id k =
      rw (get_ext_connection_by_in_conn_id, k.unknown)
        (Returns-bind (new_connection-IsCreated space t fresh in_fd in_gen in_conn_id draws h k)
          (λ u d. returns (d, refl)))

  -- Where there is room for an entry, the peer's ring is there, and the peer is another connection: create_ext_connection
  -- fails no assertion, the table stays well formed, the new entry has the client's key, and an id greater than all that
  -- its slot had before; the other entries stay as they were.
  pub create_ext_connection-IsOpened :
      (ci : Connection) (in_conn_id : ℕ) (co : Option Connection) (auth_key_id : ℕ)
      → HasRoom space t fresh ci.fd in_conn_id draws
      → IsOpen t co
      → is_peer ci co ≡ true
      → Returns
          (IsOpened space t ci co in_conn_id auth_key_id fresh)
          (create_ext_connection draws fresh t ci in_conn_id co auth_key_id)
  unfolding create_ext_connection
  create_ext_connection-IsOpened ci in_conn_id co auth_key_id k way peer =
      Returns-bind (get_ext_connection-IsCreated ci.fd ci.generation in_conn_id k) (λ r (d, e).
        let u = r.0 in
        let loose = d.same_out_ring fresh ∙ (h.ringed.loose fresh k.heap.0 k.free).1 in
        let no_out : (u.conns fresh).out_fd ≡ 0 = ap (λ c. c.out_fd) d.is_new in
        let no_key : (u.conns fresh).auth_key_id ≡ 0 = ap (λ c. c.auth_key_id) d.is_new in
        rw e (
          Returns-assert _ (ground (arith, loose, no_out, no_key)) (
            Returns-assert _ peer (
              Returns-bind
                (link_out-IsLinked space u fresh ci co auth_key_id d.entries d.live
                  (still-IsOpen t u co d.same_out_ring way) peer no_out loose)
                (λ v l. returns (record {
                  address = refl;
                  entries = l.entries;
                  live = subst (λ x. x ≢ 0) (sym l.id) d.live;
                  in_fd = l.key.0 ∙ ap (λ c. c.in_fd) d.is_new;
                  in_conn_id_eq = l.key.1 ∙ ap (λ c. c.in_conn_id) d.is_new;
                  auth = l.auth;
                  peer = l.peer;
                  fresh_id =
                      subst (λ x. t.out_ids (x % ext_conn_table_size) < x) (sym l.id) d.fresh_id;
                  others = λ a n. l.others a n ∙ d.others a n;
                  ids_grow = λ s. omega (arith, d.ids_grow s, l.same_ids s);
                }))))))
