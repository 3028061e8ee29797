-- ===== src/Hello.antt =====
-- The TLS-like client hello of c-original/net/net-tcp-rpc-ext-server.c: get_sni_domain_info, and the part of
-- tcp_rpcs_compact_parse_execute that accepts a hello or hands its connection to a proxy.
--
-- A read outside of the request stops the run, as a failed assertion does. sha256_hmac, and what is drawn for the
-- answer, are arguments. proxy_connection is modelled up to the look at the domain's address.
mod Sni
mod Handshake
mod Signed
mod Accept
mod Replay
mod Tests
use Prim.Native.Nat.{bit_xor}
use mtproxy.Prelude.{
  ℕ, zero, suc, ◌+◌, ◌-◌, ◌*◌, ◌/◌, ◌%◌, ◌^◌, Bool, true, false, ◌&&◌, ◌||◌, not, Option, none,
  some, List, [], ◌∷◌, ◌++◌, ltb, leb, ◌==◌, if◌then◌else◌, length, take, drop, replicate,
  get_elem?,
}
use mtproxy.Prelude.Bytes.{Bytes, le_value, same_bytes}
use mtproxy.Prelude.Run.{Run, ok, abort, out_of_fuel, ◌>>=◌}
use mtproxy.Randoms.{
  Cache, have_client_random, add_client_random, delete_old_client_randoms, is_allowed_timestamp,
}

-- struct domain_info, without the addresses
pub record DomainInfo : Type 0 where
  pub domain : Bytes
  pub server_hello_encrypted_size : ℕ
  pub use_random_encrypted_size : Bool
  pub is_reversed_extension_order : Bool

pub record Server : Type 0 where
  pub ext_secret : List Bytes
  pub domains : ℕ → List DomainInfo
  pub default_domain_info : Option DomainInfo

unfoldable pub hash_loop : Bytes → ℕ → ℕ
hash_loop [] hash = hash
hash_loop (c ∷ cs) hash = hash_loop cs ((hash * 239017 + c) % 2 ^ 32)

abbrev pub get_domain_info_bucket : Bytes → ℕ
get_domain_info_bucket domain = hash_loop domain 0 % 257

unfoldable pub named : Bytes → List DomainInfo → Option DomainInfo
named domain [] = none
named domain (info ∷ rest) =
    let later = named domain rest in if same_bytes domain info.domain then some info else later

abbrev pub get_domain_info : Server → Bytes → Option DomainInfo
get_domain_info server domain = named domain (server.domains (get_domain_info_bucket domain))

abbrev pub byte_at : Bytes → ℕ → Run ℕ
byte_at request pos = elim (get_elem? request pos) [ none ↦ abort | some b ↦ ok b ]

-- read_length, which then stands two bytes further
unfoldable pub read_length : Bytes → ℕ → Run ℕ
read_length request pos = do
  high ← byte_at request pos
  low ← byte_at request (pos + 1)
  ok (high * 256 + low)

-- Whether one of the bytes of the domain is 0.
unfoldable pub has_zero : ℕ → Bytes → ℕ → Run Bool
has_zero zero request pos = ok false
has_zero (suc n) request pos =
    let later = has_zero n request (pos + 1) in
    do b ← byte_at request pos; (if b == 0 then ok true else later)

-- The extension at pos, of the given length, is the SNI.
unfoldable pub sni_domain : Server → Bytes → ℕ → ℕ → Run (Option DomainInfo)
unfolding read_length has_zero
sni_domain server request pos extension_length =
    if ltb (length request) (pos + 5) then ok none else (do
      inner_length ← read_length request pos
      (if not (inner_length + 2 == extension_length) then ok none else (do
        kind ← byte_at request (pos + 2)
        (if not (kind == 0) then ok none else (do
          domain_length ← read_length request (pos + 3)
          (if not (domain_length + 5 == extension_length) then ok none else (do
            zeros ← has_zero domain_length request (pos + 5)
            (if zeros
                then ok none
                else ok
                    (get_domain_info server (take domain_length (drop (pos + 5) request)))))))))))

-- while (1): each round goes four bytes further at least.
unfoldable pub sni_loop : ℕ → Server → Bytes → ℕ → Run (Option DomainInfo)
unfolding sni_domain
sni_loop zero server request pos = out_of_fuel
sni_loop (suc fuel) server request pos =
    let further = λ (p : ℕ). sni_loop fuel server request p in
    if ltb (length request) (pos + 4) then ok none else (do
      extension_id ← read_length request pos
      extension_length ← read_length request (pos + 2)
      (if ltb (length request) (pos + 4 + extension_length)
          then ok none
          else if extension_id == 0
          then sni_domain server request (pos + 4) extension_length
          else further (pos + 4 + extension_length)))

unfoldable pub get_sni_domain_info : Server → Bytes → Run (Option DomainInfo)
unfolding sni_loop
get_sni_domain_info server request = if ltb (length request) 78 then ok none else (do
  cipher_suites_length ← read_length request 76
  (if ltb (length request) (78 + cipher_suites_length + 4)
      then ok none
      else sni_loop (length request) server request (78 + cipher_suites_length + 4)))

-- What becomes of the secrets' counters: mtfront_on_secret_connection_open and its kin
pub data Count : Type 0 where
  opened closed : ℕ → Count

-- extra_int2, whether extra_int3 is set, the cache of randoms, and the calls that count connections.
pub record HelloClient : Type 0 where
  pub secret_place : ℕ
  pub is_counted : Bool
  pub cache : Cache
  pub counts : List Count

pub data Verdict : Type 0 where
  wait : ℕ → Verdict
  proxied : Option DomainInfo → Verdict
  accepted : ℕ → Bytes → Verdict

-- RETURN_TLS_ERROR: proxy_connection gives up the place that the connection holds with its secret.
abbrev pub tls_error : Option DomainInfo → HelloClient → Run (Verdict × HelloClient)
tls_error info c = ok (
  proxied info,
  (if c.is_counted
      then record c { is_counted = false; counts = c.counts ++ closed (c.secret_place - 1) ∷ [] }
      else c),
)

-- The loop over the secrets, with what the hmac gives for the secret that fits.
unfoldable pub find_secret :
    (Bytes → Bytes → Bytes) → List Bytes → ℕ → Bytes → Bytes → Option (ℕ × Bytes)
unfolding same_bytes
find_secret hmac [] id hello random = none
find_secret hmac (secret ∷ rest) id hello random =
    let later = find_secret hmac rest (id + 1) hello random in
    if same_bytes (take 28 (hmac secret hello)) (take 28 random)
    then some (id, hmac secret hello)
    else later

abbrev pub timestamp_of : Bytes → Bytes → ℕ
timestamp_of expected random =
    bit_xor (le_value (drop 28 expected)) (le_value (drop 28 random)) % 2 ^ 32

-- while: skip grease. The place and the length that are left
unfoldable pub skip_grease : ℕ → Bytes → ℕ → ℕ → Run (ℕ × ℕ)
skip_grease zero hello pos len = ok (pos, len)
skip_grease (suc rounds) hello pos len =
    let further = skip_grease rounds hello (pos + 2) (len - 2) in
    if ltb len 2 then ok (pos, len) else (do
      first ← byte_at hello pos
      second ← byte_at hello (pos + 1)
      (if first % 16 == 10 && second % 16 == 10 then further else ok (pos, len)))
