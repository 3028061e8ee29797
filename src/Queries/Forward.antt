-- ===== src/Queries/Forward.antt =====
-- What forward_tcp_query of c-original/mtproto/mtproto-proxy.c sends, and what it leaves of the table.
use mtproxy.Prelude.{
  ◌≤◌, ◌-◌, ◌^◌, ltb, length, ◌⊎◌, [], false, ℕ, ◌+◌, ◌<◌, ◌≡◌, ◌≢◌, refl, ◌∙◌, sym, ap, subst,
  Bool, true, Option, none, some, List, [], inl, inr, ◌==◌, if◌then◌else◌, arith, Bool-cases,
  Option-cases,
}
use mtproxy.Prelude.Bytes.{Bytes}
use mtproxy.Prelude.Run.{ok, Returns, returns, Returns-bind, Returns-assert, Returns-if, ◌>>=◌}
use mtproxy.Externals.Rings.{max_connections}
use mtproxy.Externals.Entries.{
  Connection, Entries, ExtConnection, Notice, create_ext_connection, remove_ext_connection,
}
use mtproxy.Externals.Shape.{Live, IsEntries}
use mtproxy.Externals.Lookup.{IsOnly, get_ext_connection_by_in_fd_lem}
use mtproxy.Externals.Delete.{IsDeleted}
use mtproxy.Externals.Remove.{remove_ext_connection-IsDeleted}
use mtproxy.Externals.Open.{HasPeer, IsOpened, create_ext_connection-IsOpened}
use mtproxy.Queries.{
  ConnectionType, ext_server, http_server, other_type, Client, Settings, Forwarder, Fate, nowhere,
  failed, sent_to, forward_flags, secret_of, tagged, query_bytes, tl_copy_through, has_bit,
  choose_server, set_auth_key, current_server, send_query, forward_tcp_query,
}
use mtproxy.Queries.Layout.{IsReadAs, query_bytes-IsReadAs, length-query_bytes}
use mtproxy.Queries.Keep.{
  IsKeyed, IsLiveIf, set_auth_key-IsKeyed, track-IsTracked, tracked-IsEntries,
}
use mtproxy.Queries.Room.{CanCreate, keyed-CanCreate, deleted-CanCreate, CanCreate-HasRoom}

-- Every live entry has the in_conn_id 0, and a server.
abbrev pub AllProxied : Entries → Type 0
AllProxied t = (a : ℕ) → Live t a → ((t.conns a).in_conn_id ≡ 0) × ((t.conns a).out_fd ≢ 0)

-- An HTTP connection waits for one answer.
abbrev pub IsWaiting : Client → Type 0
IsWaiting c = c.conn_type ≡ http_server → c.pending_queries ≡ 1

-- The message has room for the query.
abbrev pub IsFitting : Settings → Client → ℕ → Option Bytes → Option Bytes → Bytes → Type 0
IsFitting st c flags remote our packet =
    length (query_bytes st c (tagged st flags) 0 remote our []) + length packet ≤ 2 ^ 27

copied_lem :
    (st : Settings) (c : Client) (flags id : ℕ) (remote our : Option Bytes) (packet : Bytes)
    → IsFitting st c flags remote our packet
    → (elim (tl_copy_through false
        (length (query_bytes st c (tagged st flags) id remote our []))
        (length packet)) [ none ↦ false | some n ↦ n == length packet ])
      ≡ true
unfolding tl_copy_through
copied_lem st c flags id remote our packet fits =
    let same = length-query_bytes st c (tagged st flags) id remote our in
    let stored = length (query_bytes st c (tagged st flags) id remote our []) in
    let room : ltb (2 ^ 27 - stored) (length packet) ≡ false = ground (arith, same, fits) in
    ground (arith, room)

waiting_lem :
    (kind : ConnectionType) (n : ℕ)
    → (kind ≡ http_server → n ≡ 1)
    → (elim kind [ http_server ↦ n == 1 | _ ↦ true ]) ≡ true
waiting_lem http_server n h = ground (arith, h refl)
waiting_lem ext_server n h = refl
waiting_lem other_type n h = refl

module _ (space : ℕ) (server_of : ℕ → ℕ → Option Connection) (is_open : ℕ → ℕ → Bool)
    (st : Settings) (c : Client) (client_ipv6 : Bytes) (draws : List ℕ) (fresh : ℕ)
    (attempts : List (Option (Connection × Bool))) where
  -- The table between the steps
  record IsBase (t : Entries) : Type 0 where
    entries : IsEntries space t
    proxied : AllProxied t
    room : CanCreate space t c.conn draws fresh attempts

  -- The connection d is the one that the entry names as its server.
  abbrev pub IsServer : ExtConnection → Connection → Type 0
  IsServer e d = (server_of e.out_fd e.out_gen ≡ some d) ⊎ HasPeer e (some d)

  -- The client's entry with its server; or there is none.
  abbrev IsCurrent : Entries → Option (ℕ × Connection) → Type 0
  IsCurrent t none = (a : ℕ) → Live t a → (t.conns a).in_fd ≢ c.conn.fd
  IsCurrent t (some (ex, d)) =
      Live t ex × ((t.conns ex).in_fd ≡ c.conn.fd) × IsServer (t.conns ex) d

  abbrev IsServed : Entries × Option (ℕ × Connection) × List Notice → Type 0
  IsServed r = IsBase r.0 × IsCurrent r.0 r.1

  current_server-IsServed :
      (t : Entries) (found : Option ℕ)
      → IsBase t
      → IsOnly t (λ a. (t.conns a).in_fd ≡ c.conn.fd) found
      → Returns IsServed (current_server server_of is_open t found)
  unfolding current_server
  current_server-IsServed t none b only = returns (b, only)
  current_server-IsServed t (some ex) b (live, own, only) =
      let e = t.conns ex in
      let p = b.proxied ex live in
      Returns-assert _ (ground (arith, p, b.entries.ringed.out_linked ex live))
        (served (server_of e.out_fd e.out_gen) refl)
    where
      gone : {u : Entries} → IsDeleted space t ex u → IsBase u × IsCurrent u none
      gone {u} k =
          let elder : (a : ℕ) → Live u a → (a ≢ ex) × Live t a × (u.conns a ≡ t.conns a) = λ a l.
            elim (Bool-cases (a == ex)) [
              | inl s ↦
                  let here : ex ≡ a = ground (arith, s) in
                  absurd (l (subst (λ z. (u.conns z).out_conn_id ≡ 0) here k.gone))
              | inr n ↦
                  let o : a ≢ ex = ground (arith, n) in
                  (o, subst (λ x. x.out_conn_id ≢ 0) (k.others a o) l, k.others a o)
            ] in
          (
            record {
              entries = k.entries;
              proxied = λ a l.
                  let (o, was, same) = elder a l in
                  subst (λ x. (x.in_conn_id ≡ 0) × (x.out_fd ≢ 0)) (sym same) (b.proxied a was);
              room = deleted-CanCreate b.room (b.entries.heap ex live).0 live k;
            },
            λ a l f.
                let (o, was, same) = elder a l in o (only a was (sym (ap (λ x. x.in_fd) same) ∙ f)),
          )

      served :
          (d : Option Connection)
          → server_of (t.conns ex).out_fd (t.conns ex).out_gen ≡ d
          → Returns IsServed (elim d [
            | some d ↦ ok (t, some (ex, d), [])
            | none ↦ (do r ← remove_ext_connection is_open t ex 1; ok (r.0, none, r.1))
          ])
      served (some d) q = returns (b, (live, own, inl q))
      served none q =
          Returns-bind
            (remove_ext_connection-IsDeleted space t b.entries ex live is_open 1 (inr refl))
            (λ r k. returns (gone k))

  -- Nothing is sent, as there is no server; or c is failed, as it has dropped packets before; in both cases the client has
  -- no entry. Or the query is sent to the server of the client's entry, with the entry's id.
  abbrev IsQuery : ℕ → Option Bytes → Option Bytes → Bytes → Entries → Fate → Type 0
  IsQuery flags remote our packet t nowhere = IsCurrent t none × (choose_server attempts ≡ none)
  IsQuery flags remote our packet t failed = IsCurrent t none × (has_bit flags 28 ≡ true)
  IsQuery flags remote our packet t (sent_to d bytes) =
      (ex : ℕ) × Live t ex
      × ((t.conns ex).in_fd ≡ c.conn.fd)
      × IsServer (t.conns ex) d
      × IsReadAs (tagged st flags) (t.conns ex).out_conn_id remote packet bytes
      × (bytes ≡ query_bytes st c (tagged st flags) (t.conns ex).out_conn_id remote our packet)

  pub record IsForwarded (flags : ℕ) (remote our : Option Bytes) (packet : Bytes) (g : Forwarder)
      (fate : Fate) : Type 0 where
    pub entries : IsEntries space g.entries
    pub proxied : AllProxied g.entries
    pub query : IsQuery flags remote our packet g.entries fate

  send_query-IsForwarded :
      (f : Forwarder) (ex : ℕ) (d : Connection) (flags : ℕ) (remote our : Option Bytes)
      (packet : Bytes)
      → IsWaiting c
      → IsFitting st c flags remote our packet
      → IsEntries space f.entries
      → AllProxied f.entries
      → Live f.entries ex
      → (f.entries.conns ex).in_fd ≡ c.conn.fd
      → IsServer (f.entries.conns ex) d
      → Returns
          (λ q. IsForwarded flags remote our packet q.0 q.1)
          (send_query server_of is_open st c client_ipv6 false f ex d flags remote our packet)
  unfolding send_query
  send_query-IsForwarded f ex d flags remote our packet waits fits h proxied live own server =
      let t = f.entries in
      let id = (t.conns ex).out_conn_id in
      let copied = copied_lem st c flags id remote our packet fits in
      Returns-bind
        (track-IsTracked space t.pool ex client_ipv6 (secret_of c) (t.conns ex).auth_key_id
          h.counted (h.heap ex live).1)
        (λ pool k. Returns-assert _ copied (
          Returns-assert _ (waiting_lem c.conn_type c.pending_queries waits) (
            returns (record {
              entries = tracked-IsEntries space t ex pool h live k;
              proxied = proxied;
              query = (
                ex,
                live,
                own,
                server,
                query_bytes-IsReadAs st c (tagged st flags) id remote our packet,
                refl,
              );
            }))))

  created-AllProxied :
      (t : Entries) (d : Connection) (auth_key_id : ℕ) (n : Entries × ℕ)
      → AllProxied t
      → d.fd ≢ 0
      → IsOpened space t c.conn (some d) 0 auth_key_id fresh n
      → AllProxied n.0
  created-AllProxied t d auth_key_id n proxied real o a l = elim (Bool-cases (a == fresh)) [
    | inl s ↦
        subst (λ z. ((n.0.conns z).in_conn_id ≡ 0) × ((n.0.conns z).out_fd ≢ 0)) {x = fresh}
          (ground (arith, s)) (o.in_conn_id_eq, (λ e. real (sym o.peer.0 ∙ e)))
    | inr m ↦
        let same = o.others a (ground (arith, m)) in
        subst (λ x. (x.in_conn_id ≡ 0) × (x.out_fd ≢ 0)) (sym same)
          (proxied a (subst (λ x. x.out_conn_id ≢ 0) same l))
  ]

  module _ (flags auth_key_id : ℕ) (remote our : Option Bytes) (packet : Bytes)
      (waits : IsWaiting c) (fits : IsFitting st c flags remote our packet)
      (low : c.conn.fd < max_connections) where
    -- A new entry, and the query by it
    opened-IsForwarded :
        (f : Forwarder) (d : Connection) (notices : List Notice)
        → choose_server attempts ≡ some d
        → IsBase f.entries
        → IsCurrent f.entries none
        → Returns
            (λ (r : Forwarder × Fate × List Notice). IsForwarded flags remote our packet r.0 r.1)
            (do
              n ← create_ext_connection draws fresh f.entries c.conn 0 (some d) auth_key_id
              q ←
                  send_query server_of is_open st c client_ipv6 false
                    (record f { entries = n.0 })
                    n.1
                    d
                    flags
                    remote
                    our
                    packet
              ok (q.0, q.1, notices))
    opened-IsForwarded f d notices e b none_there =
        let (way, peer, real) = b.room.server d e in
        let room = CanCreate-HasRoom b.room b.entries low none_there in
        Returns-bind
          (create_ext_connection-IsOpened space f.entries b.entries fresh draws c.conn 0 (some d)
            auth_key_id room way peer)
          (λ n o.
            Returns-bind
              (send_query-IsForwarded (record f { entries = n.0 }) n.1 d flags remote our packet
                waits fits o.entries (created-AllProxied f.entries d auth_key_id n b.proxied real o)
                (subst (Live n.0) (sym o.address) o.live)
                (subst (λ z. (n.0.conns z).in_fd ≡ c.conn.fd) (sym o.address) o.in_fd)
                (subst (λ z. IsServer (n.0.conns z) d) (sym o.address) (inr o.peer)))
              (λ q k. returns k))

    served-IsForwarded :
        (f : Forwarder) (current : Option (ℕ × Connection)) (notices : List Notice)
        → IsBase f.entries
        → IsCurrent f.entries current
        → Returns
            (λ (r : Forwarder × Fate × List Notice). IsForwarded flags remote our packet r.0 r.1)
            (elim current [
              | some (ex, d) ↦ (do
                q ←
                    send_query server_of is_open st c client_ipv6 false f ex d flags remote our
                      packet
                ok (q.0, q.1, notices))
              | none ↦ elim (choose_server attempts) [
                | none ↦ ok (record f { dropped_queries = f.dropped_queries + 1 }, nowhere, notices)
                | some d ↦ if has_bit flags 28 then ok (f, failed, notices) else (do
                  n ← create_ext_connection draws fresh f.entries c.conn 0 (some d) auth_key_id
                  q ←
                      send_query server_of is_open st c client_ipv6 false
                        (record f { entries = n.0 })
                        n.1
                        d
                        flags
                        remote
                        our
                        packet
                  ok (q.0, q.1, notices))
              ]
            ])
    served-IsForwarded f (some (ex, d)) notices b (live, own, server) =
        Returns-bind
          (send_query-IsForwarded f ex d flags remote our packet waits fits b.entries b.proxied live
            own server)
          (λ q k. returns k)
    served-IsForwarded f none notices b none_there = elim (Option-cases (choose_server attempts)) [
      | inl e ↦
          rw e
            (returns (record { entries = b.entries; proxied = b.proxied; query = (none_there, e) }))
      | inr (d, e) ↦ rw e (
          Returns-if (has_bit flags 28) _ _
            (λ y.
              returns
                (record { entries = b.entries; proxied = b.proxied; query = (none_there, y) }))
            (λ n. opened-IsForwarded f d notices e b none_there))
    ]

  only-IsLiveIf :
      (t : Entries) (P : ℕ → Type 0) (found : Option ℕ) → IsOnly t P found → IsLiveIf t found
  only-IsLiveIf t P none only = tt
  only-IsLiveIf t P (some ex) only = only.0

  -- A new key does not change who a client's entry is.
  keyed-IsOnly :
      {t u : Entries} (found : Option ℕ)
      → IsKeyed space t u
      → IsOnly t (λ a. (t.conns a).in_fd ≡ c.conn.fd) found
      → IsOnly u (λ a. (u.conns a).in_fd ≡ c.conn.fd) found
  keyed-IsOnly none k only =
      λ a l e. only a (subst (λ x. x ≢ 0) (k.same_id a) l) (sym (k.same_in_fd a) ∙ e)
  keyed-IsOnly (some ex) k (live, own, only) = (
    subst (λ x. x ≢ 0) (sym (k.same_id ex)) live,
    k.same_in_fd ex ∙ own,
    λ b l e. only b (subst (λ x. x ≢ 0) (k.same_id b) l) (sym (k.same_in_fd b) ∙ e),
  )

  keyed-IsBase :
      {t u : Entries}
      → AllProxied t
      → CanCreate space t c.conn draws fresh attempts
      → IsKeyed space t u
      → IsBase u
  keyed-IsBase proxied room k = record {
    entries = k.entries;
    proxied = λ a l.
        let (i, o) = proxied a (subst (λ x. x ≢ 0) (k.same_id a) l) in
        (k.same_in_id a ∙ i, λ e. o (sym (k.same_out_fd a) ∙ e));
    room = keyed-CanCreate room k;
  }

  -- Let the table be well formed, and let its live entries have a server and the in_conn_id 0; let the client's descriptor
  -- be neither 0 nor too great, let an HTTP client wait for one answer only, let there be what a new entry needs, and let
  -- tlio_in be at no error and the query not exceed 2 ^ 27 bytes. Then no assertion of forward_tcp_query fails, and the
  -- table stays so. The query is sent to the server that a live entry of this client names, and a server reads in it
  -- the flags, the entry's id and the packet. Where none is sent, the client has no entry, and there is no server or
  -- the client had dropped packets.
  pub forward_tcp_query-IsForwarded :
      (f : Forwarder) (rpc_flags auth_key_id : ℕ) (remote our : Option Bytes) (packet : Bytes)
      → IsWaiting c
      → IsFitting st c (forward_flags c rpc_flags) remote our packet
      → c.conn.fd ≢ 0
      → c.conn.fd < max_connections
      → IsEntries space f.entries
      → AllProxied f.entries
      → CanCreate space f.entries c.conn draws fresh attempts
      → Returns
          (λ (r : Forwarder × Fate × List Notice).
            IsForwarded (forward_flags c rpc_flags) remote our packet r.0 r.1)
          (forward_tcp_query server_of is_open st c client_ipv6 false draws fresh attempts f
            rpc_flags auth_key_id remote our packet)
  unfolding forward_tcp_query
  forward_tcp_query-IsForwarded f rpc_flags auth_key_id remote our packet waits fits real low h
        proxied room =
      let flags = forward_flags c rpc_flags in
      Returns-bind (get_ext_connection_by_in_fd_lem space f.entries h c.conn.fd real low)
        (λ found only.
          let u = set_auth_key f.entries found auth_key_id in
          let k =
            set_auth_key-IsKeyed space f.entries found auth_key_id h
              (only-IsLiveIf f.entries _ found only) in
          Returns-bind
            (current_server-IsServed u found (keyed-IsBase proxied room k)
              (keyed-IsOnly found k only))
            (λ r (b, current).
              served-IsForwarded flags auth_key_id remote our packet waits fits low
                (record f { entries = r.0 }) r.1 r.2 b current))
