-- ===== src/Packets/Checks.antt =====
-- Which packets forward_mtproto_packet of c-original/mtproto/mtproto-proxy.c lets through.
use mtproxy.Prelude.{
  ℕ, ◌+◌, ◌-◌, ◌%◌, ◌^◌, ◌<◌, ◌≤◌, ◌≡◌, ◌≢◌, ◌↔◌, ◌⊎◌, inl, inr, true, false, Option, ltb, ◌==◌,
  ◌||◌, not, take, length, arith, Bool-cases, ◌∙◌, sym,
}
use mtproxy.Prelude.Bytes.{Bytes, le_value}
use mtproxy.Prelude.Int.{int_lt}
use mtproxy.Prelude.Run.{ok}
use mtproxy.Packets.{
  forwarded, req_pq, req_pq_multi, req_dh_params, set_client_dh_params, encrypted_header, word,
  is_key_exchange, forward_mtproto_enc_packet, forward_mtproto_packet, or_two,
}

abbrev pub IsExchangeFunction : ℕ → Type 0
IsExchangeFunction f =
    (f ≡ req_pq) ⊎ ((f ≡ req_pq_multi) ⊎ ((f ≡ req_dh_params) ⊎ (f ≡ set_client_dh_params)))

-- The inner length holds a function and a nonce, and fits the packet; or it is so large that the
-- source's sum `inner_len + 20` overflows.
abbrev pub IsInnerLength : ℕ → ℕ → Type 0
IsInnerLength len inner =
    ((20 ≤ inner) × (inner + 20 ≤ len)) ⊎ ((2 ^ 31 - 20 ≤ inner) × (inner < 2 ^ 31))

function-cases :
    (f : ℕ)
    → (f == req_pq || f == req_pq_multi || f == req_dh_params || f == set_client_dh_params) ≡ true
    → IsExchangeFunction f
function-cases f e = ground arith

IsExchangeFunction-test :
    (f : ℕ)
    → IsExchangeFunction f
    → (f == req_pq || f == req_pq_multi || f == req_dh_params || f == set_client_dh_params) ≡ true
IsExchangeFunction-test f (inl e) = ground arith
IsExchangeFunction-test f (inr (inl e)) = ground arith
IsExchangeFunction-test f (inr (inr (inl e))) = ground arith
IsExchangeFunction-test f (inr (inr (inr e))) = ground arith

length-cases :
    (len inner : ℕ)
    → len < 2 ^ 31
    → inner < 2 ^ 32
    → int_lt len ((inner + 20) % 2 ^ 32) ≡ false
    → int_lt inner 20 ≡ false
    → IsInnerLength len inner
length-cases len inner l i e f = elim (Bool-cases (ltb inner (2 ^ 31 - 20))) [
  | inl small ↦ inl (ground arith)
  | inr large ↦ inr (ground arith)
]

IsInnerLength-tests :
    (len inner : ℕ)
    → len < 2 ^ 31
    → IsInnerLength len inner
    → (int_lt len ((inner + 20) % 2 ^ 32) ≡ false) × (int_lt inner 20 ≡ false)
IsInnerLength-tests len inner l (inl (a, b)) = ground arith
IsInnerLength-tests len inner l (inr (a, b)) = ground arith

-- For a packet of less than 2 ^ 31 bytes: the checks accept it as part of a key exchange just where its
-- inner length fits or overflows the sum of the check, and its function is one of the four.
pub is_key_exchange_iff :
    (packet : Bytes)
    → length packet < 2 ^ 31
    → word packet 4 < 2 ^ 32
    → (is_key_exchange packet ≡ true)
      ↔ ((IsInnerLength (length packet) (word packet 4)) × (IsExchangeFunction (word packet 5)))
unfolding is_key_exchange
is_key_exchange_iff packet l w = (
  (λ e. (
    length-cases (length packet) (word packet 4) l w (ground (arith, e)) (ground (arith, e)),
    function-cases (word packet 5) (ground (arith, e)),
  )),
  λ (a, b).
      let (first, second) = IsInnerLength-tests (length packet) (word packet 4) l a in
      ground (arith, first, second, IsExchangeFunction-test (word packet 5) b),
)

-- What a packet that is forwarded is like: it is encrypted and has a whole header, or it belongs to a
-- key exchange and is sent on with the flag 2.
abbrev pub IsForwardable : Bytes → ℕ → ℕ → ℕ → Type 0
IsForwardable packet rpc_flags flags auth_key_id =
    (28 ≤ length packet)
    × (length packet % 4 ≡ 0)
    × (auth_key_id ≡ le_value (take 8 packet))
    × (((auth_key_id ≢ 0) × (encrypted_header ≤ length packet) × (flags ≡ rpc_flags))
        ⊎ ((auth_key_id ≡ 0) × (is_key_exchange packet ≡ true) × (flags ≡ or_two rpc_flags)))

forwarded-eq :
    {s t : Option ℕ} {f g k l : ℕ} → ok (forwarded s f k) ≡ ok (forwarded t g l) → (f ≡ g) × (k ≡ l)
forwarded-eq e = (cc, cc)

-- A packet that is handed on is either encrypted with a whole header, under the key that its first
-- eight bytes name, or belongs to a key exchange; its length is a multiple of four in both cases.
pub forward_mtproto_packet_lem :
    (s t : Option ℕ) (packet : Bytes) (rpc_flags flags auth_key_id : ℕ)
    → forward_mtproto_packet (ok s) packet rpc_flags ≡ ok (forwarded t flags auth_key_id)
    → IsForwardable packet rpc_flags flags auth_key_id
unfolding forward_mtproto_packet forward_mtproto_enc_packet
forward_mtproto_packet_lem s t packet rpc_flags flags auth_key_id e =
    let key = le_value (take 8 packet) in
    elim (Bool-cases (ltb (length packet) 28 || not (length packet % 4 == 0))) [
      | inl bad ↦ absurd (ground (arith, bad, e))
      | inr good ↦ elim (Bool-cases (key == 0)) [
        | inr encrypted ↦ elim (Bool-cases (ltb (length packet) encrypted_header)) [
          | inl short ↦ absurd (ground (arith, good, encrypted, short, e))
          | inr whole ↦
              let (f, k) =
                forwarded-eq {s = s} {t = t} {f = rpc_flags} {k = key}
                  (ground (arith, good, encrypted, whole, e)) in
              (
                ground (arith, good),
                ground (arith, good),
                sym k,
                inl (ground (arith, encrypted, k), ground (arith, whole), sym f),
              )
        ]
        | inl plain ↦ elim (Bool-cases (is_key_exchange packet)) [
          | inr other ↦ absurd (ground (arith, good, plain, other, e))
          | inl exchange ↦
              let (f, k) =
                forwarded-eq {s = s} {t = t} {f = or_two rpc_flags} {k = 0}
                  (ground (arith, good, plain, exchange, e)) in
              let zero_key : key ≡ 0 = ground (arith, plain) in
              (
                ground (arith, good),
                ground (arith, good),
                sym k ∙ sym zero_key,
                inr (sym k, exchange, sym f),
              )
        ]
      ]
    ]
