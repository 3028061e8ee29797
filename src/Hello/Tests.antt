-- ===== src/Hello/Tests.antt =====
-- A client hello of c-original/net/net-tcp-rpc-ext-server.c, with a hash that gives the same bytes for all texts.
use mtproxy.Prelude.{◌≡◌, refl, true, false, some, [], ◌∷◌, ◌++◌, arith, replicate}
use mtproxy.Prelude.Bytes.{Bytes, codes, le_value, same_bytes}
use mtproxy.Prelude.Run.{ok, Returns}
use mtproxy.Randoms.{
  Cache, no_client_randoms, have_client_random, add_client_random, delete_old_client_randoms,
  is_allowed_timestamp, bucket_loop, get_client_random_bucket, has_random, delete_loop,
}
use mtproxy.Randoms.Replay.{no_client_randoms-IsCache}
use mtproxy.Randoms.History.{at_once, added}
use mtproxy.Hello.{
  DomainInfo, Server, HelloClient, accepted, opened, find_secret, get_sni_domain_info, sni_loop,
  sni_domain, has_zero, read_length, named, skip_grease, hash_loop,
}
use mtproxy.Hello.Handshake.{
  Draw, response, receive_hello, check_hello, match_secret, send_answer, cipher_suite, zeroed,
}
use mtproxy.Hello.Accept.{IsHandled, receive_hello-IsHandled}
use mtproxy.Hello.Replay.{IsRefused, receive_hello-replay}

abbrev info : DomainInfo
info = record {
  domain = codes "a";
  server_hello_encrypted_size = 2;
  use_random_encrypted_size = false;
  is_reversed_extension_order = false;
}

abbrev server : Server
server = record {
  ext_secret = (1 ∷ []) ∷ [];
  domains = λ h. info ∷ [];
  default_domain_info = some info;
}

abbrev hash : Bytes → Bytes → Bytes
hash key text = replicate 32 5

abbrev draw : Draw
draw = record { rand = 0; public_key = replicate 32 7; encrypted = λ n. replicate n 8 }

abbrev fresh_client : Cache → HelloClient
fresh_client cache = record { secret_place = 0; is_counted = false; cache = cache; counts = [] }

-- The random is the hash, with the time 1000 in its last bytes.
abbrev hello : Bytes
hello =
    (0x16 ∷ 0x03 ∷ 0x01 ∷ 0 ∷ 89 ∷ 1 ∷ 0 ∷ 0 ∷ 85 ∷ 3 ∷ 3 ∷ [])
    ++ replicate 28 5
    ++ (0xed ∷ 6 ∷ 5 ∷ 5 ∷ 32 ∷ replicate 32 9)
    ++ (0 ∷ 2 ∷ 0x13 ∷ 1 ∷ 1 ∷ 0 ∷ 0 ∷ 10 ∷ [])
    ++ (0 ∷ 0 ∷ 0 ∷ 6 ∷ 0 ∷ 4 ∷ 0 ∷ 0 ∷ 1 ∷ 97 ∷ [])

abbrev cache_after : Cache
cache_after = add_client_random 1000 (replicate 16 5) no_client_randoms

abbrev client_after : HelloClient
client_after = record {
  secret_place = 1;
  is_counted = true;
  cache = cache_after;
  counts = opened 0 ∷ [];
}

abbrev answer : Bytes
answer = response info draw (zeroed hello) 1 (replicate 32 5)

accepted_test :
    receive_hello hash server draw 1000 false hello (fresh_client no_client_randoms)
    ≡ ok (accepted 0 answer, client_after)
unfolding receive_hello check_hello match_secret send_answer cipher_suite response
    get_sni_domain_info sni_loop sni_domain has_zero read_length named skip_grease hash_loop
    find_secret same_bytes have_client_random add_client_random delete_old_client_randoms
    is_allowed_timestamp bucket_loop get_client_random_bucket has_random delete_loop le_value
accepted_test = refl

receive_hello-IsHandled_example :
    Returns
      (IsHandled hash server draw 1000 hello (fresh_client no_client_randoms))
      (receive_hello hash server draw 1000 false hello (fresh_client no_client_randoms))
receive_hello-IsHandled_example =
    receive_hello-IsHandled hash server draw 1000 false hello (fresh_client no_client_randoms) refl
      no_client_randoms-IsCache (omega arith)

receive_hello-replay_example :
    Returns
      (λ r. IsRefused r.0)
      (receive_hello hash server draw 1005 false hello
        (fresh_client (add_client_random 1005 (replicate 16 3) cache_after)))
receive_hello-replay_example =
    receive_hello-replay hash server draw draw 1000 1005 false false hello
      (fresh_client no_client_randoms) client_after
      (fresh_client (add_client_random 1005 (replicate 16 3) cache_after)) 0 answer (omega arith)
      refl refl no_client_randoms-IsCache tt accepted_test
      (added 1000 1005 cache_after (replicate 16 3) at_once (omega arith)) (omega arith)
      (omega arith)
