-- ===== src/Packets.antt =====
-- The checks of forward_mtproto_packet and forward_mtproto_enc_packet in
-- c-original/mtproto/mtproto-proxy.c, up to the call of forward_tcp_query.
--
-- An `int` is its bit pattern. The packet's length is that of the bytes that the reader holds, which
-- an assertion of the source says.
mod Checks
mod Tests
use mtproxy.Prelude.{
  ℕ, ◌+◌, ◌-◌, ◌*◌, ◌/◌, ◌%◌, ◌^◌, Bool, true, false, Option, none, some, ltb, leb, ◌==◌, ◌&&◌,
  ◌||◌, not, if◌then◌else◌, take, drop, length,
}
use mtproxy.Prelude.Bytes.{Bytes, le_value}
use mtproxy.Prelude.Int.{int_lt}
use mtproxy.Prelude.Run.{Run, ok, abort, out_of_fuel, ◌>>=◌, ◌>>◌}

-- The packet is dropped (the result 0), or handed to forward_tcp_query with the target S, the flags and
-- the auth_key_id.
pub data Forward : Type 0 where
  dropped : Forward
  forwarded : Option ℕ → ℕ → ℕ → Forward

-- The first function of a connection's key exchange.
abbrev pub req_pq : ℕ
req_pq = 0x60469778

abbrev pub req_pq_multi : ℕ
req_pq_multi = 0xbe7e8ef1

abbrev pub req_dh_params : ℕ
req_dh_params = 0xd712e4be

abbrev pub set_client_dh_params : ℕ
set_client_dh_params = 0xf5045f1f

-- offsetof (struct encrypted_message, message)
abbrev pub encrypted_header : ℕ
encrypted_header = 8 + 16 + 8 + 8 + 8 + 4 + 4

-- The word at index i of the header.
abbrev pub word : Bytes → ℕ → ℕ
word packet i = le_value (take 4 (drop (4 * i) packet))

-- The checks of the length and the function of an unencrypted packet; the sum wraps around.
unfoldable pub is_key_exchange : Bytes → Bool
unfolding le_value
is_key_exchange packet =
    let inner_len = word packet 4 in
    let function = word packet 5 in
    not (int_lt (length packet) ((inner_len + 20) % 2 ^ 32))
    && not (int_lt inner_len 20)
    && (function == req_pq
        || function == req_pq_multi
        || function == req_dh_params
        || function == set_client_dh_params)

-- 2 | flags
abbrev pub or_two : ℕ → ℕ
or_two flags = if flags / 2 % 2 == 0 then flags + 2 else flags

-- What choose_proxy_target gives for the connection's target_dc is an argument.
module _ (target : Run (Option ℕ)) where
  unfoldable pub forward_mtproto_enc_packet : ℕ → Bytes → ℕ → Run Forward
  forward_mtproto_enc_packet auth_key_id packet rpc_flags =
      if ltb (length packet) encrypted_header
      then ok dropped
      else (do s ← target; ok (forwarded s rpc_flags auth_key_id))

  unfoldable pub forward_mtproto_packet : Bytes → ℕ → Run Forward
  unfolding le_value
  forward_mtproto_packet packet rpc_flags =
      let auth_key_id = le_value (take 8 packet) in
      if ltb (length packet) 28 || not (length packet % 4 == 0)
      then ok dropped
      else if not (auth_key_id == 0)
      then forward_mtproto_enc_packet auth_key_id packet rpc_flags
      else if not (is_key_exchange packet)
      then ok dropped
      else (do s ← target; ok (forwarded s (or_two rpc_flags) 0))
