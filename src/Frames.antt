-- ===== src/Frames.antt =====
-- The packets of a connection with a client, in the compact, medium and padded framing:
-- tcp_rpc_write_packet_compact and tcp_rpc_write_packet of c-original/net/net-tcp-rpc-common.c write them, and
-- tcp_rpcs_compact_parse_execute of c-original/net/net-tcp-rpc-ext-server.c reads them once the connection's
-- type is known.
--
-- A message is the list of its bytes, and the bytes of a connection that are not yet read are a list. The
-- counters of packets are not cut to 32 bits. The connection's timer and the time of its last response are left
-- out. `x / 128 * 128 + 127` is x | 0x7f.
mod Prefixes
mod Stream
mod RoundTrip
mod Safety
mod Tests
use mtproxy.Prelude.{
  ℕ, zero, suc, ◌+◌, ◌-◌, ◌*◌, ◌/◌, ◌%◌, ◌^◌, Bool, true, false, ◌&&◌, ◌||◌, not, List, [], ◌∷◌,
  ◌++◌, ltb, leb, ◌==◌, if◌then◌else◌, length, take, drop, get_or,
}
use mtproxy.Prelude.Bytes.{Bytes, le_bytes, le_value}
use mtproxy.Prelude.Run.{Run, ok, out_of_fuel, assert, ◌>>=◌, ◌>>◌}
use mtproxy.Answers.{rpc_pong}

-- RPC_F_PAD, RPC_F_MEDIUM, RPC_F_COMPACT and RPC_F_QUICKACK
pub record Flags : Type 0 where
  pub pad : Bool
  pub medium : Bool
  pub compact : Bool
  pub quickack : Bool

-- Whether the connection is TLS with left_tls_packet_length == -1, and what has been written.
pub record Sender : Type 0 where
  pub flags : Flags
  pub is_uninited_tls : Bool
  pub out_packet_num : ℕ
  pub out : Bytes

-- The sum is custom_crc_partial, of all that stands before it.
unfoldable pub write_packet : (Bytes → ℕ) → Bytes → Sender → Sender
write_packet crc raw s =
    let head = le_bytes 4 (length raw + 12) ++ le_bytes 4 s.out_packet_num ++ raw in
    if s.flags.compact || s.flags.medium then s else record s {
      out_packet_num = s.out_packet_num + 1;
      out = s.out ++ head ++ le_bytes 4 (crc head);
    }

abbrev pub length_prefix : Flags → ℕ → Bytes
length_prefix flags len =
    if flags.medium
    then le_bytes 4 len
    else if leb len (0x7e * 4)
    then le_bytes 1 (len / 4)
    else le_bytes 4 (len * 2 ^ 6 / 128 * 128 + 127)

-- The first y bytes of x stand behind a message that is padded.
abbrev pub padded : Flags → ℕ → ℕ → Bytes → Bytes
padded flags x y raw = if flags.pad then raw ++ take (y % 4) (le_bytes 4 x) else raw

unfoldable pub write_packet_compact : (Bytes → ℕ) → ℕ → ℕ → Bytes → Sender → Run Sender
unfolding write_packet
write_packet_compact crc x y raw s =
    let whole = padded s.flags x y raw in
    let len = length whole in
    if length raw == 5
    then (do assert (get_or raw 0 0 == 0xdd); ok (record s { out = s.out ++ drop 1 raw }))
    else if s.is_uninited_tls
    then ok (record s { out = s.out ++ raw })
    else if not (s.flags.compact || s.flags.medium)
    then ok (write_packet crc raw s)
    else (do
      assert (ltb len (2 ^ 26))
      assert (s.flags.pad || len % 4 == 0)
      ok (record s { out = s.out ++ length_prefix s.flags len ++ whole }))

-- A connection: `stopped` is C_ERROR or C_STOPPARSE, and `user` what its handler keeps.
pub record Conn (U : Type 0) : Type 0 where
  pub flags : Flags
  pub stopped : Bool
  pub in_packet_num : ℕ
  pub input : Bytes
  pub replies : List Bytes
  pub user : U

-- What the parser returns: NEED_MORE_BYTES, the number of bytes it needs, or 0 after failed_with.
pub data Parsed : Type 0 where
  need_more_bytes failed : Parsed
  need : ℕ → Parsed

-- The length of a packet and that of its prefix, with RPC_F_QUICKACK.
pub data Prefix : Type 0 where
  overlong : Bool → Prefix
  prefix : Bool → ℕ → ℕ → Prefix

abbrev pub medium_prefix : ℕ → Prefix
medium_prefix word = prefix (leb (2 ^ 31) word) (word % 2 ^ 31) 4

abbrev pub compact_prefix : ℕ → Prefix
compact_prefix word =
    let quickack = leb 0x80 (word % 256) in
    let cleared = if quickack then word - 0x80 else word in
    if cleared % 256 == 0x7f
    then (if ltb (cleared / 2 ^ 8) 0x7f
        then overlong quickack
        else prefix quickack (cleared / 2 ^ 8 * 4) 4)
    else prefix quickack (cleared % 128 * 4) 1

abbrev pub prefix_of : Flags → Bytes → Prefix
prefix_of flags input =
    let word = le_value (take 4 input) in
    if flags.medium then medium_prefix word else compact_prefix word

abbrev pub rpc_ping : ℕ
rpc_ping = 0x5730a2df

-- tcp_rpcs_default_execute, with what it sends
unfoldable pub default_execute : ℕ → Bytes → List Bytes
default_execute op raw =
    if op == rpc_ping && length raw == 12 then (le_bytes 4 rpc_pong ++ drop 4 raw) ∷ [] else []

-- TCP_RPCS_FUNC(C): the handler, which may stop the connection, and max_packet_len, 0 for no limit.
module _ {U : Type 0} (execute : U → ℕ → Bytes → U × Bool) (max_packet_len : ℕ) where
  abbrev pub is_bad_length : Flags → ℕ → Bool
  is_bad_length flags len =
      len == 0
      || leb (2 ^ 30) len
      || (not flags.pad && not (len % 4 == 0))
      || (ltb max_packet_len len && ltb 0 max_packet_len)

  -- A packet is taken off, and the handler called.
  unfoldable pub execute_packet : Conn U → Bytes → Conn U
  unfolding default_execute
  execute_packet c msg =
      let packet_type = le_value (take 4 msg) in
      let (user, stops) = execute c.user packet_type msg in
      if packet_type == rpc_ping
      then record c {
        in_packet_num = c.in_packet_num + 1;
        replies = c.replies ++ default_execute packet_type msg;
      }
      else record c { in_packet_num = c.in_packet_num + 1; user = user; stopped = stops }

  abbrev pub failed_with : Conn U → Parsed × Conn U
  failed_with c = (failed, record c { stopped = true })

  abbrev pub receive : Prefix → Conn U → (Conn U → Run (Parsed × Conn U)) → Run (Parsed × Conn U)
  receive (overlong quickack) c more =
      ok (failed_with (record c { flags = record c.flags { quickack = quickack } }))
  receive (prefix quickack packet_len packet_len_bytes) c more =
      let d = record c { flags = record c.flags { quickack = quickack } } in
      let whole = take packet_len (drop packet_len_bytes c.input) in
      let msg = if c.flags.pad then take (packet_len - packet_len % 4) whole else whole in
      let left = record d { input = drop packet_len (drop packet_len_bytes c.input) } in
      if is_bad_length c.flags packet_len
      then ok (failed_with d)
      else if ltb (length c.input) (packet_len + packet_len_bytes)
      then ok (need (packet_len + packet_len_bytes - length c.input), d)
      else (do assert (leb 4 (length msg)); more (execute_packet left msg))

  -- while (1), from the point where in_packet_num is no more -3
  unfoldable pub parse_frames : ℕ → Conn U → Run (Parsed × Conn U)
  unfolding execute_packet
  parse_frames zero c = out_of_fuel
  parse_frames (suc fuel) c =
      let len = length c.input in
      let min_len = if c.flags.medium then 4 else 1 in
      if c.stopped
      then ok (need_more_bytes, c)
      else if len == 0
      then ok (need_more_bytes, c)
      else if ltb len (min_len + 8)
      then ok (need (min_len + 8 - len), c)
      else receive (prefix_of c.flags c.input) c (λ d. parse_frames fuel d)
