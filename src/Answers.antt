-- ===== src/Answers.antt =====
-- What c-original/mtproto/mtproto-proxy.c does with a packet from a server: process_client_packet, which sends
-- answers and acknowledgements on to the clients.
--
-- A packet is the list of its bytes, the operation first. What goes out to connections is a list of
-- messages; whether a connection is still there and whether its transport is the compact one are parameters.
mod Routing
mod Tests
use mtproxy.Prelude.{
  ℕ, ◌+◌, ◌-◌, ◌*◌, ◌/◌, ◌%◌, ◌^◌, Bool, true, false, Option, none, some, List, [], ◌∷◌, ◌++◌, map,
  ltb, leb, ◌==◌, ◌&&◌, not, if◌then◌else◌, take, drop, length,
}
use mtproxy.Prelude.Bytes.{Bytes, le_value, le_bytes}
use mtproxy.Prelude.Run.{Run, ok, abort, out_of_fuel, assert, ◌>>=◌, ◌>>◌}
use mtproxy.Externals.Entries.{
  Connection, Entries, ExtConnection, find_ext_connection_by_out_conn_id, remove_ext_connection,
  Notice,
}

abbrev pub rpc_pong : ℕ
rpc_pong = 0x8430eaa7

abbrev pub rpc_proxy_ans : ℕ
rpc_proxy_ans = 0x4403da0d

abbrev pub rpc_close_conn : ℕ
rpc_close_conn = 0x1fcf425d

abbrev pub rpc_close_ext : ℕ
rpc_close_ext = 0x5eb634a2

abbrev pub rpc_simple_ack : ℕ
rpc_simple_ack = 0x3bac409b

-- What is sent: an answer to a client with its in_conn_id and flags, an acknowledgement to a client, the bytes of
-- _notify_remote_closed to the server, and what remove_ext_connection tells.
pub data Message : Type 0 where
  answer : ℕ → ℕ → ℕ → ℕ → Bytes → Message
  confirmation : ℕ → ℕ → ℕ → Message
  to_server : Connection → Bytes → Message
  told : Notice → Message

-- _notify_remote_closed
abbrev pub notify_remote_closed : Connection → ℕ → Message
notify_remote_closed c out_conn_id =
    to_server c (le_bytes 4 rpc_close_conn ++ le_bytes 8 out_conn_id)

-- The counters of the file that are set here
pub record Counters : Type 0 where
  pub tot_forwarded_responses : ℕ
  pub dropped_responses : ℕ
  pub tot_forwarded_simple_acks : ℕ
  pub dropped_simple_acks : ℕ

pub record Proxy : Type 0 where
  pub entries : Entries
  pub counters : Counters

-- The result, what is left, and what is sent.
pub record Outcome : Type 0 where
  pub result : ℕ
  pub proxy : Proxy
  pub sent : List Message

-- __builtin_bswap32
abbrev pub bswap32 : ℕ → ℕ
bswap32 x = x % 256 * 2 ^ 24 + x / 256 % 256 * 2 ^ 16 + x / 2 ^ 16 % 256 * 2 ^ 8 + x / 2 ^ 24 % 256

-- tl_fetch_int, -1 at the end of the packet, and tl_fetch_long
unfoldable pub packet_int : ℕ → Bytes → ℕ
unfolding le_value
packet_int pos packet =
    if ltb (length packet) (pos + 4) then 2 ^ 32 - 1 else le_value (take 4 (drop pos packet))

unfoldable pub packet_long : ℕ → Bytes → ℕ
unfolding le_value
packet_long pos packet =
    if ltb (length packet) (pos + 8) then 2 ^ 64 - 1 else le_value (take 8 (drop pos packet))

module _ (is_open : ℕ → ℕ → Bool) (is_compact : ℕ → ℕ → Bool) where
  -- Ex && Ex->out_fd == CONN_INFO(C)->fd && Ex->out_gen == CONN_INFO(C)->generation, and the client is there
  abbrev pub is_route : Connection → ExtConnection → Bool
  is_route c e = e.out_fd == c.fd && (e.out_gen == c.generation && is_open e.in_fd e.in_gen)

  -- The entry that a packet of the connection c with this id goes to
  unfoldable pub route : Entries → Connection → ℕ → Run (Option ExtConnection)
  route t c out_conn_id = do
    found ← find_ext_connection_by_out_conn_id t out_conn_id
    ok (elim found [
      | none ↦ none
      | some ex ↦ if is_route c (t.conns ex) then some (t.conns ex) else none
    ])

  -- case RPC_PROXY_ANS, with a client and without one
  unfoldable pub answered : Proxy → Bytes → ExtConnection → Outcome
  answered p packet e =
      let n = p.counters in
      record {
        result = 1;
        proxy = record p {
          counters = record n { tot_forwarded_responses = n.tot_forwarded_responses + 1 };
        };
        sent = answer e.in_fd e.in_gen e.in_conn_id (packet_int 4 packet) (drop 16 packet) ∷ [];
      }

  unfoldable pub unanswered : Proxy → Connection → Bytes → Outcome
  unanswered p c packet =
      let n = p.counters in
      record {
        result = 1;
        proxy = record p { counters = record n { dropped_responses = n.dropped_responses + 1 } };
        sent = notify_remote_closed c (packet_long 8 packet) ∷ [];
      }

  unfoldable pub proxy_answer : Proxy → Connection → Bytes → Run Outcome
  unfolding route answered unanswered
  proxy_answer p c packet = do
    found ← route p.entries c (packet_long 8 packet)
    ok (elim found [ some e ↦ answered p packet e | none ↦ unanswered p c packet ])

  -- case RPC_SIMPLE_ACK, likewise
  unfoldable pub acknowledged : Proxy → Bytes → ExtConnection → Outcome
  acknowledged p packet e =
      let n = p.counters in
      let confirm = packet_int 12 packet in
      record {
        result = 1;
        proxy = record p {
          counters = record n { tot_forwarded_simple_acks = n.tot_forwarded_simple_acks + 1 };
        };
        sent =
            confirmation e.in_fd e.in_gen
              (if is_compact e.in_fd e.in_gen then bswap32 confirm else confirm)
            ∷ [];
      }

  unfoldable pub unacknowledged : Proxy → Connection → Bytes → Outcome
  unacknowledged p c packet =
      let n = p.counters in
      record {
        result = 1;
        proxy = record p {
          counters = record n { dropped_simple_acks = n.dropped_simple_acks + 1 };
        };
        sent = notify_remote_closed c (packet_long 4 packet) ∷ [];
      }

  unfoldable pub simple_ack : Proxy → Connection → Bytes → Run Outcome
  unfolding route acknowledged unacknowledged
  simple_ack p c packet = do
    found ← route p.entries c (packet_long 4 packet)
    (elim found [
      | some e ↦ (do assert (e.in_conn_id == 0); ok (acknowledged p packet e))
      | none ↦ ok (unacknowledged p c packet)
    ])

  -- case RPC_CLOSE_EXT
  unfoldable pub close_ext : Proxy → Bytes → Run Outcome
  unfolding packet_long
  close_ext p packet = do
    found ← find_ext_connection_by_out_conn_id p.entries (packet_long 4 packet)
    (elim found [
      | none ↦ ok (record { result = 1; proxy = p; sent = [] })
      | some ex ↦ (do
        r ← remove_ext_connection is_open p.entries ex 2
        ok (record { result = 1; proxy = record p { entries = r.0 }; sent = map told r.1 }))
    ])

  unfoldable pub process_client_packet : Proxy → ℕ → Connection → Bytes → Run Outcome
  unfolding proxy_answer simple_ack close_ext
  process_client_packet p op c packet =
      let len = length packet in
      let ignored = ok (record { result = 0; proxy = p; sent = [] }) in
      do
        assert (op == packet_int 0 packet)
        (if op == rpc_pong
            then ok (record { result = 1; proxy = p; sent = [] })
            else if op == rpc_proxy_ans
            then (if leb 16 len then proxy_answer p c packet else ignored)
            else if op == rpc_simple_ack
            then (if len == 16 then simple_ack p c packet else ignored)
            else if op == rpc_close_ext
            then (if len == 12 then close_ext p packet else ignored)
            else ignored)
