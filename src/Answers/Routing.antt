-- ===== src/Answers/Routing.antt =====
-- Where process_client_packet of c-original/mtproto/mtproto-proxy.c sends the packets of a server.
use mtproxy.Prelude.{
  by_test, ℕ, ◌≤◌, ◌≡◌, ◌≢◌, refl, ◌∙◌, sym, ap, subst, Bool, true, false, Option, none, some, [],
  ◌∷◌, ◌⊎◌, inl, inr, leb, ◌==◌, if◌then◌else◌, length, drop, arith, Bool-cases, map,
}
use mtproxy.Prelude.Bytes.{Bytes}
use mtproxy.Prelude.Run.{
  ok, assert, Returns, returns, Returns-map, Returns-bind, Returns-assert, Returns-if, ◌>>=◌, ◌>>◌,
}
use mtproxy.Externals.Entries.{Connection, Entries, ExtConnection, remove_ext_connection}
use mtproxy.Externals.Shape.{Live, IsEntries}
use mtproxy.Externals.Lookup.{IsOnly, find_ext_connection_by_out_conn_id_lem}
use mtproxy.Externals.Delete.{IsDeleted}
use mtproxy.Externals.Remove.{remove_ext_connection-IsDeleted}
use mtproxy.Answers.{
  rpc_pong, rpc_proxy_ans, rpc_close_ext, rpc_simple_ack, answer, notify_remote_closed, told, Proxy,
  Outcome, packet_int, packet_long, is_route, route, answered, unanswered, acknowledged,
  unacknowledged, proxy_answer, simple_ack, close_ext, process_client_packet,
}

-- Every live entry has the in_conn_id 0, which is the one that forward_tcp_query creates entries with.
abbrev pub AllSingle : Entries → Type 0
AllSingle t = (a : ℕ) → Live t a → (t.conns a).in_conn_id ≡ 0

true≢false : true ≡ false → ⊥
true≢false e = cc

module _ (space : ℕ) (is_open : ℕ → ℕ → Bool) (is_compact : ℕ → ℕ → Bool) where
  -- The entry a is the one with this id, its server is the connection c, and its client is there.
  abbrev pub IsClient : Entries → Connection → ℕ → ℕ → Type 0
  IsClient t c id a =
      Live t a × ((t.conns a).out_conn_id ≡ id) × (is_route is_open is_compact c (t.conns a) ≡ true)

  -- What a route leads to
  abbrev pub IsRoute : Entries → Connection → ℕ → Option ExtConnection → Type 0
  IsRoute t c id none = (a : ℕ) → IsClient t c id a → ⊥
  IsRoute t c id (some e) = (a : ℕ) × IsClient t c id a × (t.conns a ≡ e)

  led :
      (t : Entries) (c : Connection) (id : ℕ) (found : Option ℕ)
      → IsOnly t (λ a. (t.conns a).out_conn_id ≡ id) found
      → IsRoute t c id (elim found [
        | none ↦ none
        | some ex ↦ if is_route is_open is_compact c (t.conns ex) then some (t.conns ex) else none
      ])
  led t c id none only = λ a (l, e, r). only a l e
  led t c id (some ex) (live, own, only) =
      by_test (IsRoute t c id) (is_route is_open is_compact c (t.conns ex))
        (λ y. (ex, (live, own, y), refl))
        (λ n a (l, e, r).
          let here : a ≡ ex = only a l e in
          let yes = subst (λ z. is_route is_open is_compact c (t.conns z) ≡ true) here r in
          true≢false (sym yes ∙ n))

  route-IsRoute :
      (t : Entries) (c : Connection) (id : ℕ)
      → IsEntries space t
      → Returns (IsRoute t c id) (route is_open is_compact t c id)
  unfolding route
  route-IsRoute t c id h =
      Returns-bind (find_ext_connection_by_out_conn_id_lem space t h id)
        (λ found only. returns (led t c id found only))

  -- What an answer does: it goes to the one entry that it is for, or there is none and the server is told so.
  abbrev pub IsAnswered : Proxy → Connection → Bytes → Outcome → Type 0
  IsAnswered p c packet o =
      (o.proxy.entries ≡ p.entries)
      × (((a : ℕ) × IsClient p.entries c (packet_long 8 packet) a
            × (o.sent
                ≡ answer (p.entries.conns a).in_fd (p.entries.conns a).in_gen
                    (p.entries.conns a).in_conn_id (packet_int 4 packet) (drop 16 packet)
                  ∷ []))
          ⊎ (((a : ℕ) → IsClient p.entries c (packet_long 8 packet) a → ⊥)
              × (o.sent ≡ notify_remote_closed c (packet_long 8 packet) ∷ [])))

  found-IsAnswered :
      (p : Proxy) (c : Connection) (packet : Bytes) (found : Option ExtConnection)
      → IsRoute p.entries c (packet_long 8 packet) found
      → IsAnswered p c packet (elim found [
        | some e ↦ answered is_open is_compact p packet e
        | none ↦ unanswered is_open is_compact p c packet
      ])
  unfolding answered unanswered
  found-IsAnswered p c packet none r = (refl, inr (r, refl))
  found-IsAnswered p c packet (some e) (a, client, here) =
      subst (λ e. IsAnswered p c packet (answered is_open is_compact p packet e)) here
        (refl, inl (a, client, refl))

  proxy_answer-IsAnswered :
      (p : Proxy) (c : Connection) (packet : Bytes)
      → IsEntries space p.entries
      → Returns (IsAnswered p c packet) (proxy_answer is_open is_compact p c packet)
  unfolding proxy_answer
  proxy_answer-IsAnswered p c packet h =
      Returns-bind (route-IsRoute p.entries c (packet_long 8 packet) h)
        (λ found r. returns (found-IsAnswered p c packet found r))

  -- The table stays well formed, and its entries have the in_conn_id 0 as before. Any packet but an RPC_CLOSE_EXT leaves
  -- the whole table as it was; that one leaves all entries as they were but those with its id.
  pub record IsHandled (p : Proxy) (op id : ℕ) (o : Outcome) : Type 0 where
    pub entries : IsEntries space o.proxy.entries
    pub single : AllSingle o.proxy.entries
    pub others :
        (a : ℕ)
        → Live p.entries a
        → (p.entries.conns a).out_conn_id ≢ id
        → o.proxy.entries.conns a ≡ p.entries.conns a
    pub untouched : op ≢ rpc_close_ext → o.proxy.entries ≡ p.entries

  same-IsHandled :
      (p : Proxy) (op id : ℕ) (o : Outcome)
      → IsEntries space p.entries
      → AllSingle p.entries
      → o.proxy.entries ≡ p.entries
      → IsHandled p op id o
  same-IsHandled p op id o h single same = record {
    entries = subst (IsEntries space) (sym same) h;
    single = subst AllSingle (sym same) single;
    others = λ a l n. ap (λ t. t.conns a) same;
    untouched = λ n. same;
  }

  removed-AllSingle :
      (t : Entries) (ex : ℕ) {u : Entries} → IsDeleted space t ex u → AllSingle t → AllSingle u
  removed-AllSingle t ex {u} d single a l = elim (Bool-cases (a == ex)) [
    | inl e ↦
        let here : ex ≡ a = ground (arith, e) in
        absurd (l (subst (λ z. (u.conns z).out_conn_id ≡ 0) here d.gone))
    | inr n ↦
        let same = d.others a (ground (arith, n)) in
        ap (λ c. c.in_conn_id) same ∙ single a (subst (λ c. c.out_conn_id ≢ 0) same l)
  ]

  module _ (p : Proxy) (packet : Bytes) (h : IsEntries space p.entries)
      (single : AllSingle p.entries) where
    closed-IsHandled :
        (id : ℕ) (found : Option ℕ)
        → IsOnly p.entries (λ a. (p.entries.conns a).out_conn_id ≡ id) found
        → Returns (IsHandled p rpc_close_ext id) (elim found [
          | none ↦ ok (record { result = 1; proxy = p; sent = [] })
          | some ex ↦ (do
            r ← remove_ext_connection is_open p.entries ex 2
            ok (record { result = 1; proxy = record p { entries = r.0 }; sent = map told r.1 }))
        ])
    closed-IsHandled id none only = returns (same-IsHandled p rpc_close_ext id _ h single refl)
    closed-IsHandled id (some ex) (live, own, only) =
        Returns-bind
          (remove_ext_connection-IsDeleted space p.entries h ex live is_open 2
            (inl (single ex live)))
          (λ r d. returns (record {
            entries = d.entries;
            single = removed-AllSingle p.entries ex d single;
            others =
                λ a l n. d.others a (λ e. n (ap (λ z. (p.entries.conns z).out_conn_id) e ∙ own));
            untouched = λ n. absurd (n refl);
          }))

    close_ext-IsHandled :
        Returns
          (IsHandled p rpc_close_ext (packet_long 4 packet))
          (close_ext is_open is_compact p packet)
    unfolding close_ext
    close_ext-IsHandled =
        let id = packet_long 4 packet in
        Returns-bind (find_ext_connection_by_out_conn_id_lem space p.entries h id)
          (λ found only. closed-IsHandled id found only)

    acked-IsHandled :
        (c : Connection) (op id : ℕ) (found : Option ExtConnection)
        → IsRoute p.entries c id found
        → Returns (IsHandled p op id) (elim found [
          | some e ↦ (do
            assert (e.in_conn_id == 0)
            ok (acknowledged is_open is_compact p packet e))
          | none ↦ ok (unacknowledged is_open is_compact p c packet)
        ])
    unfolding acknowledged unacknowledged
    acked-IsHandled c op id none r = returns (same-IsHandled p op id _ h single refl)
    acked-IsHandled c op id (some e) (a, client, here) =
        let zero_id : e.in_conn_id ≡ 0 = subst (λ x. x.in_conn_id ≡ 0) here (single a client.0) in
        Returns-assert _ (ground (arith, zero_id))
          (returns (same-IsHandled p op id _ h single refl))

    simple_ack-IsHandled :
        (c : Connection) (op : ℕ)
        → Returns (IsHandled p op (packet_long 4 packet)) (simple_ack is_open is_compact p c packet)
    unfolding simple_ack
    simple_ack-IsHandled c op =
        let id = packet_long 4 packet in
        Returns-bind (route-IsRoute p.entries c id h) (λ found r. acked-IsHandled c op id found r)

    -- On a well-formed table all of whose live entries have the in_conn_id 0, process_client_packet fails no assertion for
    -- the operation that the packet starts with. The table stays as described; RPC_CLOSE_EXT leaves all entries but
    -- those with its id as they were, and any other packet leaves the whole table as it was.
    pub process_client_packet-IsHandled :
        (c : Connection)
        → Returns
            (IsHandled p (packet_int 0 packet) (packet_long 4 packet))
            (process_client_packet is_open is_compact p (packet_int 0 packet) c packet)
    unfolding process_client_packet
    process_client_packet-IsHandled c =
        let id = packet_long 4 packet in
        let op = packet_int 0 packet in
        let len = length packet in
        Returns-assert _ (ground arith) (
          Returns-if (op == rpc_pong) _ _ (λ e. returns (same-IsHandled p op id _ h single refl))
            (λ n1.
              Returns-if (op == rpc_proxy_ans) _ _
                (λ e.
                  Returns-if (leb 16 len) _ _
                    (λ l.
                      Returns-map (proxy_answer-IsAnswered p c packet h)
                        (λ o k. same-IsHandled p op id o h single k.0))
                    (λ s. returns (same-IsHandled p op id _ h single refl)))
                (λ n2.
                  Returns-if (op == rpc_simple_ack) _ _
                    (λ e.
                      Returns-if (len == 16) _ _ (λ l. simple_ack-IsHandled c op)
                        (λ s. returns (same-IsHandled p op id _ h single refl)))
                    (λ n3.
                      Returns-if (op == rpc_close_ext) _ _
                        (λ e.
                          Returns-if (len == 12) _ _
                            (λ l.
                              let is_close : rpc_close_ext ≡ op = ground (arith, e) in
                              subst
                                (λ x.
                                  Returns (IsHandled p x id)
                                    (close_ext is_open is_compact p packet))
                                is_close close_ext-IsHandled)
                            (λ s. returns (same-IsHandled p op id _ h single refl)))
                        (λ n4. returns (same-IsHandled p op id _ h single refl))))))

  -- An answer of at least 16 bytes, which comes from the connection c to a server: it is sent on, with its flags and its
  -- data, to the client of the one entry that has its id and c as its server, if the client is there; where there is
  -- no such entry, the server is told that the connection is closed. The table stays as it was.
  pub process_client_packet-IsAnswered :
      (p : Proxy) (c : Connection) (packet : Bytes)
      → IsEntries space p.entries
      → packet_int 0 packet ≡ rpc_proxy_ans
      → 16 ≤ length packet
      → Returns
          (IsAnswered p c packet)
          (process_client_packet is_open is_compact p rpc_proxy_ans c packet)
  unfolding process_client_packet
  process_client_packet-IsAnswered p c packet h op long = Returns-assert _ (ground (arith, op)) (
      Returns-if (leb 16 (length packet)) _ _ (λ l. proxy_answer-IsAnswered p c packet h)
        (λ s. absurd (ground (arith, s, long))))
