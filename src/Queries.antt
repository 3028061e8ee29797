-- ===== src/Queries.antt =====
-- forward_tcp_query of c-original/mtproto/mtproto-proxy.c, which sends a client's packet on to a server.
--
-- Whether a connection is still there and belongs to a target, what rpc_target_choose_random_connections
-- gives in the five attempts, what calloc and lrand48 give, and the address of the client that is counted
-- for its secret are arguments. What tl_store_* writes are the bytes of Tl/StringCode and Prelude/Bytes.
mod Keep
mod Room
mod Layout
mod Forward
mod Tests
use Prim.Native.Nat.{bit_or}
use mtproxy.Prelude.{
  ℕ, ◌+◌, ◌-◌, ◌*◌, ◌/◌, ◌%◌, ◌^◌, Bool, true, false, Option, none, some, List, [], ◌∷◌, ◌++◌, ltb,
  leb, ◌==◌, ◌&&◌, ◌||◌, not, if◌then◌else◌, length,
}
use mtproxy.Prelude.Bytes.{Bytes, le_bytes}
use mtproxy.Prelude.Run.{Run, ok, abort, out_of_fuel, assert, ◌>>=◌, ◌>>◌}
use mtproxy.Secrets.{Ext, mtfront_track_secret_auth_key, mtfront_track_secret_client}
use mtproxy.Secrets.Pool.{Pool, with_devices, with_clients}
use mtproxy.Tl.StringCode.{string_code}
use mtproxy.Externals.Rings.{put_at, max_connections}
use mtproxy.Externals.Entries.{
  Connection, Entries, ExtConnection, Notice, get_ext_connection_by_in_fd, create_ext_connection,
  remove_ext_connection,
}

abbrev pub rpc_proxy_req : ℕ
rpc_proxy_req = 0x36cef1ee

abbrev pub tl_http_query_info : ℕ
tl_http_query_info = 0xd45ab381

abbrev pub tl_proxy_tag : ℕ
tl_proxy_tag = 0xdb1e26ae

abbrev pub rpc_f_dropped : ℕ
rpc_f_dropped = 0x10000000

-- CONN_INFO(c)->type
pub data ConnectionType : Type 0 where
  ext_server http_server other_type : ConnectionType

-- An IP address and a port: the four bytes of an IPv4 address in the network's order, or an IPv6 address
pub data Address : Type 0 where
  ipv4 : Bytes → ℕ → Address
  ipv6 : Bytes → ℕ → Address

-- What is read of the connection c: dropped is RPC_F_DROPPED of its flags
pub record Client : Type 0 where
  pub conn : Connection
  pub conn_type : ConnectionType
  pub dropped : Bool
  pub extra_int2 : ℕ
  pub remote : Address
  pub our : Address
  pub pending_queries : ℕ

-- What the file keeps besides the table: the proxy tag, and the headers of the current HTTP query
pub record Settings : Type 0 where
  pub proxy_tag_set : Bool
  pub proxy_tag : Bytes
  pub cur_http_origin : Bytes
  pub cur_http_referer : Bytes
  pub cur_http_user_agent : Bytes

pub record Forwarder : Type 0 where
  pub entries : Entries
  pub dropped_queries : ℕ
  pub tot_forwarded_queries : ℕ

-- How the call ends: the packet is dropped and c is marked if it is an ext_server, c is failed, or the bytes go to a
-- server.
pub data Fate : Type 0 where
  nowhere : Fate
  failed : Fate
  sent_to : Connection → Bytes → Fate

-- flags & (1 << i)
abbrev pub has_bit : ℕ → ℕ → Bool
has_bit flags i = flags / 2 ^ i % 2 == 1

unfoldable pub forward_flags : Client → ℕ → ℕ
forward_flags c flags = elim c.conn_type [
  | ext_server ↦ bit_or (bit_or flags (if c.dropped then rpc_f_dropped else 0)) 0x1000
  | http_server ↦ bit_or flags 0x3005
  | other_type ↦ flags
]

-- secret_id; -1 is 2 ^ 32 - 1.
abbrev pub secret_of : Client → ℕ
secret_of c = elim c.conn_type [
  | ext_server ↦ (c.extra_int2 + (2 ^ 32 - 1)) % 2 ^ 32
  | _ ↦ 2 ^ 32 - 1
]

-- Ex->auth_key_id = auth_key_id, where it is another key
unfoldable pub set_auth_key : Entries → Option ℕ → ℕ → Entries
set_auth_key t none auth_key_id = t
set_auth_key t (some ex) auth_key_id =
    if not (auth_key_id == 0) && not ((t.conns ex).auth_key_id == auth_key_id)
    then record t { conns = put_at t.conns ex (record (t.conns ex) { auth_key_id = auth_key_id }) }
    else t

unfoldable pub address_bytes : Address → Bytes
address_bytes (ipv4 ip port) =
    le_bytes 8 0 ++ (le_bytes 4 (2 ^ 32 - 0x10000) ++ (ip ++ le_bytes 4 port))
address_bytes (ipv6 ip port) = ip ++ le_bytes 4 port

-- What follows extra_size_ptr
unfoldable pub extra_bytes : Settings → ℕ → Bytes
extra_bytes s flags =
    (if has_bit flags 3 then le_bytes 4 tl_proxy_tag ++ string_code s.proxy_tag else [])
    ++ (if has_bit flags 2
        then le_bytes 4 tl_http_query_info
          ++ (string_code s.cur_http_origin
              ++ (string_code s.cur_http_referer ++ string_code s.cur_http_user_agent))
        else [])

abbrev pub tagged : Settings → ℕ → ℕ
tagged s flags = if s.proxy_tag_set then bit_or flags 8 else flags

-- The whole query; an address that is given replaces that of the connection.
unfoldable pub query_bytes : Settings → Client → ℕ → ℕ → Option Bytes → Option Bytes → Bytes → Bytes
unfolding address_bytes extra_bytes
query_bytes s c flags out_conn_id remote_ip_port our_ip_port packet =
    let extra = extra_bytes s flags in
    le_bytes 4 rpc_proxy_req
    ++ (le_bytes 4 flags
        ++ (le_bytes 8 out_conn_id
            ++ ((elim remote_ip_port [ none ↦ address_bytes c.remote | some given ↦ given ])
                ++ ((elim our_ip_port [ none ↦ address_bytes c.our | some given ↦ given ])
                    ++ ((if has_bit flags 2 || has_bit flags 3
                          then le_bytes 4 (length extra) ++ extra
                          else [])
                        ++ packet)))))

-- tl_copy_through of len unread bytes behind those that were stored in a message, which has room for 2 ^ 27; -1 is
-- `none`. The unread bytes are as many as they should be, and tl_error tells whether tlio_in is at an error.
unfoldable pub tl_copy_through : Bool → ℕ → ℕ → Option ℕ
tl_copy_through tl_error stored len =
    if tl_error || ltb (2 ^ 27 - stored) len then none else some len

-- while (S && attempts --> 0): a connection whose extra_int is not its tag is let go.
unfoldable pub choose_server : List (Option (Connection × Bool)) → Option Connection
choose_server [] = none
choose_server (none ∷ more) = choose_server more
choose_server (some (d, ready) ∷ more) =
    let rest = choose_server more in if ready then some d else rest

-- Both track functions on the entry ex
unfoldable pub track : Bytes → Pool → ℕ → ℕ → ℕ → Run Pool
track client_ipv6 p ex secret_id auth_key_id = do
  r ← mtfront_track_secret_auth_key (p.exts ex) secret_id auth_key_id p.devices
  let q = with_devices p ex r
  s ← mtfront_track_secret_client client_ipv6 (q.exts ex) secret_id q.clients
  ok (with_clients q ex s)

-- The server of the entry; without one that belongs to a target the entry is removed.
module _ (server_of : ℕ → ℕ → Option Connection) (is_open : ℕ → ℕ → Bool) where
  unfoldable pub current_server :
      Entries → Option ℕ → Run (Entries × Option (ℕ × Connection) × List Notice)
  current_server t none = ok (t, none, [])
  current_server t (some ex) =
      let e = t.conns ex in
      do
        assert (ltb 0 e.out_fd && ltb e.out_fd max_connections)
        (elim (server_of e.out_fd e.out_gen) [
          | some d ↦ ok (t, some (ex, d), [])
          | none ↦ (do r ← remove_ext_connection is_open t ex 1; ok (r.0, none, r.1))
        ])

  module _ (st : Settings) (c : Client) (client_ipv6 : Bytes) (tl_error : Bool) where
    -- What follows assert (Ex).
    unfoldable pub send_query :
        Forwarder
        → ℕ
        → Connection
        → ℕ
        → Option Bytes
        → Option Bytes
        → Bytes
        → Run (Forwarder × Fate)
    unfolding track query_bytes tl_copy_through
    send_query f ex d flags remote_ip_port our_ip_port packet =
        let t = f.entries in
        let e = t.conns ex in
        let bytes = query_bytes st c (tagged st flags) e.out_conn_id remote_ip_port our_ip_port in
        let len = length packet in
        do
          pool ← track client_ipv6 t.pool ex (secret_of c) e.auth_key_id
          assert (elim (tl_copy_through tl_error (length (bytes [])) len) [
            | none ↦ false
            | some n ↦ n == len
          ])
          assert (elim c.conn_type [ http_server ↦ c.pending_queries == 1 | _ ↦ true ])
          ok (
            record f {
              entries = record t { pool = pool };
              tot_forwarded_queries = f.tot_forwarded_queries + 1;
            },
            sent_to d (bytes packet),
          )

    -- The attempts are empty where there is no target S.
    unfoldable pub forward_tcp_query :
        List ℕ
        → ℕ
        → List (Option (Connection × Bool))
        → Forwarder
        → ℕ
        → ℕ
        → Option Bytes
        → Option Bytes
        → Bytes
        → Run (Forwarder × Fate × List Notice)
    unfolding forward_flags set_auth_key current_server choose_server send_query
    forward_tcp_query draws fresh attempts f rpc_flags auth_key_id remote_ip_port our_ip_port
          packet =
        do
          found ← get_ext_connection_by_in_fd f.entries c.conn.fd
          let flags = forward_flags c rpc_flags
          r ← current_server (set_auth_key f.entries found auth_key_id) found
          let g = record f { entries = r.0 }
          (elim r.1 [
            | some (ex, d) ↦ (do
              q ← send_query g ex d flags remote_ip_port our_ip_port packet
              ok (q.0, q.1, r.2))
            | none ↦ elim (choose_server attempts) [
              | none ↦ ok (record g { dropped_queries = g.dropped_queries + 1 }, nowhere, r.2)
              | some d ↦ if has_bit flags 28 then ok (g, failed, r.2) else (do
                n ← create_ext_connection draws fresh g.entries c.conn 0 (some d) auth_key_id
                q ←
                    send_query (record g { entries = n.0 }) n.1 d flags remote_ip_port our_ip_port
                      packet
                ok (q.0, q.1, r.2))
            ]
          ])
