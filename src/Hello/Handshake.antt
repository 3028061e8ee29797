-- ===== src/Hello/Handshake.antt =====
-- The checks of a client hello in tcp_rpcs_compact_parse_execute of
-- c-original/net/net-tcp-rpc-ext-server.c, and the answer to one that passes them.
use mtproxy.Prelude.{
  ℕ, ◌+◌, ◌-◌, ◌*◌, ◌/◌, ◌%◌, Bool, true, ◌||◌, not, Option, none, some, [], ◌∷◌, ◌++◌, ltb, leb,
  ◌==◌, if◌then◌else◌, length, take, drop, replicate, get_or,
}
use mtproxy.Prelude.Bytes.{Bytes}
use mtproxy.Prelude.Run.{Run, ok, ◌>>=◌}
use mtproxy.Randoms.{
  have_client_random, add_client_random, delete_old_client_randoms, is_allowed_timestamp,
}
use mtproxy.Hello.{
  DomainInfo, Server, HelloClient, Verdict, wait, accepted, opened, tls_error, byte_at, read_length,
  get_sni_domain_info, find_secret, timestamp_of, skip_grease,
}

-- What is drawn for an answer: rand, generate_public_key and RAND_bytes
pub record Draw : Type 0 where
  pub rand : ℕ
  pub public_key : Bytes
  pub encrypted : ℕ → Bytes

abbrev pub get_domain_server_hello_encrypted_size : DomainInfo → ℕ → ℕ
get_domain_server_hello_encrypted_size info r =
    if info.use_random_encrypted_size
    then info.server_hello_encrypted_size + r / 2 % 2 - r % 2
    else info.server_hello_encrypted_size

-- The id of the cipher suite that is taken
unfoldable pub cipher_suite : Bytes → Run (Option ℕ)
unfolding read_length skip_grease
cipher_suite hello = do
  cipher_suites_length ← read_length hello 76
  (if ltb (length hello) (78 + cipher_suites_length) then ok none else (do
    (pos, left) ← skip_grease cipher_suites_length hello 78 cipher_suites_length
    (if leb left 1 then ok none else (do
      first ← byte_at hello pos
      second ← byte_at hello (pos + 1)
      ok (if not (first == 0x13) || ltb second 1 || ltb 3 second then none else some second)))))

abbrev pub key_share : Draw → Bytes
key_share draw = 0x00 ∷ 0x33 ∷ 0x00 ∷ 0x24 ∷ 0x00 ∷ 0x1d ∷ 0x00 ∷ 0x20 ∷ draw.public_key

abbrev pub supported_versions : Bytes
supported_versions = 0x00 ∷ 0x2b ∷ 0x00 ∷ 0x02 ∷ 0x03 ∷ 0x04 ∷ []

abbrev pub extensions : DomainInfo → Draw → Bytes
extensions info draw =
    if info.is_reversed_extension_order
    then supported_versions ++ key_share draw
    else key_share draw ++ supported_versions

-- response_buffer, with these 32 bytes at place 11
unfoldable pub response : DomainInfo → Draw → Bytes → ℕ → Bytes → Bytes
response info draw hello cipher_suite_id random =
    let encrypted_size = get_domain_server_hello_encrypted_size info draw.rand in
    (0x16 ∷ 0x03 ∷ 0x03 ∷ 0x00 ∷ 0x7a ∷ 0x02 ∷ 0x00 ∷ 0x00 ∷ 0x76 ∷ 0x03 ∷ 0x03 ∷ [])
    ++ random
    ++ (0x20 ∷ take 32 (drop 44 hello))
    ++ (0x13 ∷ cipher_suite_id ∷ 0x00 ∷ 0x00 ∷ 0x2e ∷ extensions info draw)
    ++ (0x14
        ∷ 0x03
        ∷ 0x03
        ∷ 0x00
        ∷ 0x01
        ∷ 0x01
        ∷ 0x17
        ∷ 0x03
        ∷ 0x03
        ∷ encrypted_size / 256
        ∷ encrypted_size % 256
        ∷ [])
    ++ draw.encrypted encrypted_size

abbrev pub client_random_of : Bytes → Bytes
client_random_of request = take 32 (drop 11 request)

-- memset (client_hello + 11, '\0', 32)
abbrev pub zeroed : Bytes → Bytes
zeroed request = take 11 request ++ replicate 32 0 ++ drop 43 request

-- The connection is counted for the secret, once.
abbrev pub count_secret : ℕ → HelloClient → HelloClient
count_secret id c =
    if c.is_counted
    then record c { secret_place = id + 1 }
    else record c { secret_place = id + 1; is_counted = true; counts = c.counts ++ opened id ∷ [] }

module _ (hmac : Bytes → Bytes → Bytes) (server : Server) (draw : Draw) (now : ℕ) where
  -- The answer, where a cipher suite was found
  unfoldable pub send_answer :
      DomainInfo → Bytes → ℕ → Bytes → HelloClient → Option ℕ → Run (Verdict × HelloClient)
  unfolding response
  send_answer info request id secret c none = tls_error (some info) c
  send_answer info request id secret c (some suite) =
      let answer = response info draw (zeroed request) suite in
      let server_random = hmac secret (client_random_of request ++ answer (replicate 32 0)) in
      ok (accepted id (answer server_random), c)

  -- From the search for the secret on
  unfoldable pub match_secret :
      DomainInfo → Bytes → HelloClient → Option (ℕ × Bytes) → Run (Verdict × HelloClient)
  unfolding cipher_suite send_answer
  match_secret info request c none = tls_error (some info) c
  match_secret info request c (some (id, expected)) =
      let d = count_secret id c in
      if not (is_allowed_timestamp now (timestamp_of expected (client_random_of request)) d.cache)
      then tls_error (some info) d
      else (do
        suite ← cipher_suite (zeroed request)
        send_answer info request id (get_or server.ext_secret id []) d suite)

  -- A hello for a known domain: the domain, what has been read of the input, and the length of the record
  unfoldable pub check_hello :
      Bool → DomainInfo → Bytes → Bytes → ℕ → HelloClient → Run (Verdict × HelloClient)
  unfolding match_secret find_secret
  check_hello is_port_80 info input request min_len c =
      let random = client_random_of request in
      let added = add_client_random now (take 16 random) c.cache in
      if is_port_80
      then tls_error (some info) c
      else if ltb min_len (length input)
      then tls_error (some info) c
      else if not (length input == length request)
      then tls_error (some info) c
      else if have_client_random (take 16 random) c.cache
      then tls_error (some info) c
      else (do
        left ← delete_old_client_randoms now added
        match_secret info request (record c { cache = left })
            (find_secret hmac server.ext_secret 0 (zeroed request) random))

  -- The branch of a first packet that starts as a TLS record
  unfoldable pub receive_hello : Bool → Bytes → HelloClient → Run (Verdict × HelloClient)
  unfolding check_hello get_sni_domain_info
  receive_hello is_port_80 input c = do
    high ← byte_at input 3
    low ← byte_at input 4
    let min_len = 5 + 256 * high + low
    (if ltb (length input) min_len then ok (wait (min_len - length input), c) else (do
      known ← get_sni_domain_info server (take 4096 input)
      (elim known [
        | none ↦ tls_error server.default_domain_info c
        | some info ↦ check_hello is_port_80 info input (take 4096 input) min_len c
      ])))
