-- ===== src/Packets/Tests.antt =====
-- Concrete packets, and the theorems at inputs that meet their premises.
use mtproxy.Prelude.{ℕ, ◌-◌, ◌^◌, ◌≡◌, ◌↔◌, refl, true, some, ◌++◌, length, arith}
use mtproxy.Prelude.Bytes.{Bytes, le_bytes, le_value}
use mtproxy.Packets.{
  req_pq, word, is_key_exchange, forward_mtproto_enc_packet, forward_mtproto_packet,
}
use mtproxy.Packets.Checks.{
  IsExchangeFunction, IsInnerLength, IsForwardable, is_key_exchange_iff, forward_mtproto_packet_lem,
}

-- A request for a pq with this inner length.
abbrev request : ℕ → Bytes
request inner_len =
    le_bytes 8 0 ++ le_bytes 8 1 ++ le_bytes 4 inner_len ++ le_bytes 4 req_pq ++ le_bytes 16 7

-- The inner length 2 ^ 31 - 1 overflows the sum, and the packet of 40 bytes is let through.
overflow_accepted : is_key_exchange (request (2 ^ 31 - 1)) ≡ true
unfolding is_key_exchange le_bytes le_value
overflow_accepted = refl

is_key_exchange_iff_example : (is_key_exchange (request 20) ≡ true) ↔ (
    (IsInnerLength (length (request 20)) (word (request 20) 4))
    × (IsExchangeFunction (word (request 20) 5)))
unfolding le_bytes le_value
is_key_exchange_iff_example = is_key_exchange_iff (request 20) (omega arith) (omega arith)

forward_mtproto_packet_lem_example : IsForwardable (request 20) 4 6 0
unfolding forward_mtproto_packet forward_mtproto_enc_packet is_key_exchange le_bytes le_value
forward_mtproto_packet_lem_example =
    forward_mtproto_packet_lem (some 3) (some 3) (request 20) 4 6 0 refl
