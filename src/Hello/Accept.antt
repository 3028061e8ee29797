-- ===== src/Hello/Accept.antt =====
-- What becomes of a client hello in c-original/net/net-tcp-rpc-ext-server.c.
use mtproxy.Prelude.{
  ℕ, ◌+◌, ◌*◌, ◌<◌, ◌≤◌, ◌≡◌, refl, sym, Bool, true, false, not, Option, none, some, [], ◌∷◌, ◌++◌,
  ltb, ◌==◌, if◌then◌else◌, length, take, drop, replicate, get_or, by_test, subst, ap, arith, inl,
  inr, ◌⊎◌, length-append, length-take, length-drop,
}
use mtproxy.Prelude.Bytes.{Bytes}
use mtproxy.Prelude.Run.{ok, Returns, returns, ended, Returns-bind, Returns-if, ◌>>=◌}
use mtproxy.Randoms.{
  Cache, have_client_random, add_client_random, delete_old_client_randoms, is_allowed_timestamp,
}
use mtproxy.Randoms.Replay.{IsCache, add-IsCache, delete_old_client_randoms-IsCache}
use mtproxy.Hello.{
  DomainInfo, Server, HelloClient, Verdict, wait, proxied, accepted, opened, closed, tls_error,
  find_secret, timestamp_of,
}
use mtproxy.Hello.Handshake.{
  Draw, client_random_of, zeroed, response, count_secret, send_answer, cipher_suite, match_secret,
  check_hello, receive_hello,
}
use mtproxy.Hello.Signed.{Fits, IsSigned, find_secret-Fits, response-IsSigned}
use mtproxy.Hello.Sni.{IsKnown, byte_at-Ended, get_sni_domain_info-IsKnown, cipher_suite-Ended}

module _ (hmac : Bytes → Bytes → Bytes) (server : Server) (draw : Draw) (now : ℕ) where
  -- Why a hello was accepted for a secret, and how it was answered: the secret that it is counted for is known and fits
  -- it, and the answer carries the hmac by that secret.
  pub record IsAccepted (request : Bytes) (c : HelloClient) (id : ℕ) (answer : Bytes)
      (d : HelloClient) : Type 0 where
    pub expected : Bytes
    pub unseen : have_client_random (take 16 (client_random_of request)) c.cache ≡ false
    pub matched :
        find_secret hmac server.ext_secret 0 (zeroed request) (client_random_of request)
        ≡ some (id, expected)
    pub fitting :
        Fits hmac server.ext_secret id (zeroed request) (client_random_of request) expected
    pub cached :
        delete_old_client_randoms now
          (add_client_random now (take 16 (client_random_of request)) c.cache)
        ≡ ok d.cache
    pub allowed :
        is_allowed_timestamp now (timestamp_of expected (client_random_of request)) d.cache ≡ true
    pub counts : d.counts ≡ c.counts ++ opened id ∷ []
    pub placed : (d.is_counted ≡ true) × (d.secret_place ≡ id + 1)
    pub info : DomainInfo
    pub suite : ℕ
    pub signed :
        IsSigned hmac
          (get_or server.ext_secret id [])
          (client_random_of request)
          (take 32 (drop 44 (zeroed request)))
          answer
    pub built :
        answer
        ≡ response info draw (zeroed request) suite (
            hmac (get_or server.ext_secret id []) (
              client_random_of request
              ++ response info draw (zeroed request) suite (replicate 32 0)))

  -- The counters are left as they were, or opened and closed again.
  abbrev pub IsUncounted : HelloClient → HelloClient → Type 0
  IsUncounted c d =
      (d.is_counted ≡ false)
      × ((d.counts ≡ c.counts)
          ⊎ ((id : ℕ) × (d.counts ≡ c.counts ++ opened id ∷ [] ++ closed id ∷ [])))

  abbrev pub IsHandled : Bytes → HelloClient → Verdict × HelloClient → Type 0
  IsHandled request c (wait n, d) = (0 < n) × (d ≡ c)
  IsHandled request c (proxied info, d) = IsCache d.cache × IsUncounted c d
  IsHandled request c (accepted id answer, d) = IsCache d.cache × IsAccepted request c id answer d

  refused :
      (info : Option DomainInfo) (request : Bytes) (c d : HelloClient)
      → c.is_counted ≡ false
      → d.is_counted ≡ false
      → d.counts ≡ c.counts
      → IsCache d.cache
      → Returns (IsHandled request c) (tls_error info d)
  refused info request c d u v e k = returns (
      by_test (λ x. IsCache x.cache × IsUncounted c x) d.is_counted (λ y. cc)
        (λ n. (k, (n, inl e))))

  zeroed-length : (request : Bytes) → 78 ≤ length request → 78 ≤ length (zeroed request)
  zeroed-length request p =
      let a = length-append (take 11 request) (replicate 32 0) in
      let b = length-append (take 11 request ++ replicate 32 0) (drop 43 request) in
      let t = length-take 11 request in
      let d = length-drop 43 request in ground (arith, a, b, t, d, p)

  -- The connection that is counted for a secret
  abbrev counted : ℕ → HelloClient → Cache → HelloClient
  counted id c left = record c {
    secret_place = id + 1;
    is_counted = true;
    cache = left;
    counts = c.counts ++ opened id ∷ [];
  }

  count_secret-counted :
      (id : ℕ) (c : HelloClient) (left : Cache)
      → c.is_counted ≡ false
      → count_secret id (record c { cache = left }) ≡ counted id c left
  count_secret-counted id c left u =
      by_test (λ x. x ≡ counted id c left) c.is_counted (λ y. cc) (λ n. refl)

  given_up :
      (info : DomainInfo) (request : Bytes) (id : ℕ) (c : HelloClient) (left : Cache)
      → IsCache left
      → Returns (IsHandled request c) (tls_error (some info) (counted id c left))
  given_up info request id c left k =
      returns
        (k, (refl, inr (id, ap (λ n. c.counts ++ opened id ∷ [] ++ closed n ∷ []) (omega arith))))

  send_answer-IsHandled :
      (info : DomainInfo) (request : Bytes) (id : ℕ) (c : HelloClient) (left : Cache)
      (expected : Bytes) (suite : Option ℕ)
      → have_client_random (take 16 (client_random_of request)) c.cache ≡ false
      → delete_old_client_randoms now
          (add_client_random now (take 16 (client_random_of request)) c.cache)
        ≡ ok left
      → IsCache left
      → find_secret hmac server.ext_secret 0 (zeroed request) (client_random_of request)
        ≡ some (id, expected)
      → is_allowed_timestamp now (timestamp_of expected (client_random_of request)) left ≡ true
      → Returns (IsHandled request c) (
          send_answer hmac server draw now info request id
            (get_or server.ext_secret id [])
            (counted id c left)
            suite)
  unfolding send_answer
  send_answer-IsHandled info request id c left expected none unseen cached k m allowed =
      given_up info request id c left k
  send_answer-IsHandled info request id c left expected (some s) unseen cached k m allowed =
      returns (
        k,
        record {
          expected = expected;
          unseen = unseen;
          matched = m;
          cached = cached;
          allowed = allowed;
          counts = refl;
          placed = (refl, refl);
          info = info;
          suite = s;
          fitting =
              find_secret-Fits hmac server.ext_secret (zeroed request) (client_random_of request) id
                expected m;
          signed =
              response-IsSigned hmac info draw (zeroed request) s (get_or server.ext_secret id [])
                (client_random_of request);
          built = refl;
        },
      )

  match_secret-IsHandled :
      (info : DomainInfo) (request : Bytes) (c : HelloClient) (left : Cache)
      (found : Option (ℕ × Bytes))
      → c.is_counted ≡ false
      → have_client_random (take 16 (client_random_of request)) c.cache ≡ false
      → delete_old_client_randoms now
          (add_client_random now (take 16 (client_random_of request)) c.cache)
        ≡ ok left
      → IsCache left
      → find_secret hmac server.ext_secret 0 (zeroed request) (client_random_of request) ≡ found
      → 78 ≤ length request
      → Returns
          (IsHandled request c)
          (match_secret hmac server draw now info request (record c { cache = left }) found)
  unfolding match_secret
  match_secret-IsHandled info request c left none u unseen cached k m p =
      refused (some info) request c (record c { cache = left }) u u refl k
  match_secret-IsHandled info request c left (some (id, expected)) u unseen cached k m p =
      subst
        (λ d. Returns (IsHandled request c) (
          if not
            (is_allowed_timestamp now (timestamp_of expected (client_random_of request)) d.cache)
          then tls_error (some info) d
          else (cipher_suite (zeroed request) >>= λ suite.
              send_answer hmac server draw now info request id (get_or server.ext_secret id []) d
                suite)))
        (sym (count_secret-counted id c left u))
        (Returns-if
          (not (is_allowed_timestamp now (timestamp_of expected (client_random_of request)) left)) _
          _ (λ late. given_up info request id c left k)
          (λ allowed.
            Returns-bind (cipher_suite-Ended (zeroed request) (zeroed-length request p)) (λ suite v.
              send_answer-IsHandled info request id c left expected suite unseen cached k m
                (ground (arith, allowed)))))

  check_hello-IsHandled :
      (is_port_80 : Bool) (info : DomainInfo) (input request : Bytes) (min_len : ℕ)
      (c : HelloClient)
      → c.is_counted ≡ false
      → IsCache c.cache
      → 78 ≤ length request
      → Returns
          (IsHandled request c)
          (check_hello hmac server draw now is_port_80 info input request min_len c)
  unfolding check_hello
  check_hello-IsHandled is_port_80 info input request min_len c u k p =
      let refuse = refused (some info) request c c u u refl k in
      let random = take 16 (client_random_of request) in
      Returns-if is_port_80 _ _ (λ y. refuse)
        (λ a.
          Returns-if (ltb min_len (length input)) _ _ (λ y. refuse)
            (λ b.
              Returns-if (not (length input == length request)) _ _ (λ y. refuse)
                (λ e.
                  Returns-if (have_client_random random c.cache) _ _ (λ y. refuse)
                    (λ unseen.
                      elim (delete_old_client_randoms-IsCache now
                        (add_client_random now random c.cache) (add-IsCache now random c.cache k)) [
                          | ended left cached ordered ↦
                              subst
                                (λ r. Returns (IsHandled request c) (
                                  r >>= λ left.
                                  match_secret hmac server draw now info request
                                    (record c { cache = left })
                                    (find_secret hmac server.ext_secret 0 (zeroed request)
                                      (client_random_of request))))
                                (sym cached)
                                (match_secret-IsHandled info request c left _ u unseen cached
                                  ordered refl p)
                        ]))))

  -- A hello of at least 9 bytes, on a connection that is not counted yet and with a well-formed cache, fails no assertion
  -- and reads no byte outside of what has been read of the input. Where it is refused, the connection is not counted for
  -- any secret. Where it is accepted, its random was not in the cache; the connection is counted for one of the known
  -- secrets, whose hmac of the hello with a zeroed random has the random's first 28 bytes; the timestamp is allowed; and
  -- at its place 11 the answer carries the hmac, by that secret, of the hello's random and of the answer with zeros there.
  pub receive_hello-IsHandled :
      (is_port_80 : Bool) (input : Bytes) (c : HelloClient)
      → c.is_counted ≡ false
      → IsCache c.cache
      → 9 ≤ length input
      → Returns
          (IsHandled (take 4096 input) c)
          (receive_hello hmac server draw now is_port_80 input c)
  unfolding receive_hello
  receive_hello-IsHandled is_port_80 input c u k p =
      Returns-bind (byte_at-Ended input 3 (omega (arith, p))) (λ high v.
        Returns-bind (byte_at-Ended input 4 (omega (arith, p))) (λ low w.
          Returns-if (ltb (length input) (5 + 256 * high + low)) _ _
            (λ short. returns (ground (arith, short), refl))
            (λ there.
              Returns-bind (get_sni_domain_info-IsKnown server (take 4096 input)) (λ known s.
                elim known
                    as (λ known.
                      ((known ≡ none) ⊎ (IsKnown server known × (78 ≤ length (take 4096 input))))
                      → Returns (IsHandled (take 4096 input) c) (elim known [
                        | none ↦ tls_error server.default_domain_info c
                        | some info ↦
                            check_hello hmac server draw now is_port_80 info input (take 4096 input)
                              (5 + 256 * high + low) c
                      ])) [
                        | none ↦
                            λ s. refused server.default_domain_info (take 4096 input) c c u u refl k
                        | some info ↦ λ s.
                            check_hello-IsHandled is_port_80 info input (take 4096 input)
                              (5 + 256 * high + low) c u k (long s)
                      ]
                  s))))
    where
      long :
          {info : DomainInfo}
          → (some info ≡ none) ⊎ (IsKnown server (some info) × (78 ≤ length (take 4096 input)))
          → 78 ≤ length (take 4096 input)
      long (inl e) = cc
      long (inr (i, l)) = l
