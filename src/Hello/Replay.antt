-- ===== src/Hello/Replay.antt =====
-- A client hello that c-original/net/net-tcp-rpc-ext-server.c has accepted is not accepted again.
use mtproxy.Prelude.{
  ℕ, ◌+◌, ◌-◌, ◌%◌, ◌^◌, ◌<◌, ◌≤◌, ◌≡◌, sym, ◌∙◌, ap, subst, Bool, true, false, Option, some, take,
  length, arith, inl, inr,
}
use mtproxy.Prelude.Bytes.{Bytes}
use mtproxy.Prelude.Int.{int_lt}
use mtproxy.Prelude.Run.{ok, Returns, Returns-map, Returns-ok}
use mtproxy.Randoms.{ClientRandom, Cache, add_client_random, is_allowed_timestamp}
use mtproxy.Randoms.Replay.{IsCache, Sorted, have_client_random-Holds}
use mtproxy.Randoms.History.{
  Later, at_once, deleted, Later-trans, Later-Remembers, Remembers, Remembers-start,
  forgotten-refused, From-next,
}
use mtproxy.Hello.{Server, HelloClient, Verdict, wait, proxied, accepted, timestamp_of}
use mtproxy.Hello.Handshake.{Draw, client_random_of, receive_hello}
use mtproxy.Hello.Accept.{IsHandled, IsAccepted, receive_hello-IsHandled}

abbrev pub IsRefused : Verdict → Type 0
IsRefused (wait n) = Unit {0}
IsRefused (proxied info) = Unit {0}
IsRefused (accepted id answer) = ⊥

stamp-below : (expected random : Bytes) → timestamp_of expected random < 2 ^ 32
stamp-below expected random = omega arith

in_time :
    (t stamp : ℕ) (v : Cache)
    → is_allowed_timestamp t stamp v ≡ true
    → int_lt ((t + 3) % 2 ^ 32) stamp ≡ false
unfolding is_allowed_timestamp
in_time t stamp v e = ground (arith, e)

module _ (hmac : Bytes → Bytes → Bytes) (server : Server) where
  -- What the cache remembers of a hello that was accepted.
  abbrev entry_of : ℕ → Bytes → HelloClient → ClientRandom
  entry_of t request c = record {
    address = c.cache.allocated;
    random = take 16 (client_random_of request);
    time = t;
  }

  accepted-Remembers :
      (draw : Draw) (t n id : ℕ) (request answer : Bytes) (c d : HelloClient) (u : Cache)
      → IsCache c.cache
      → Sorted c.cache.by_time t
      → IsAccepted hmac server draw t request c id answer d
      → Later t d.cache n u
      → Remembers (entry_of t request c) n u
  accepted-Remembers draw t n id request answer c d u k sorted a later =
      let random = take 16 (client_random_of request) in
      let added = add_client_random t random c.cache in
      Later-Remembers (entry_of t request c) t added n u (Remembers-start t random c.cache k sorted)
        (Later-trans (deleted t t added d.cache at_once (omega arith) a.cached) later)

  twice :
      (draw redraw : Draw) (t n id again : ℕ) (request answer reply : Bytes) (c d e f : HelloClient)
      → IsAccepted hmac server draw t request c id answer d
      → Remembers (entry_of t request c) n e.cache
      → n < 2 ^ 31 - 3
      → t ≤ n
      → IsAccepted hmac server redraw n request e again reply f
      → ⊥
  twice draw redraw t n id again request answer reply c d e f a r bound le b =
      let stamp = timestamp_of a.expected (client_random_of request) in
      let same : a.expected ≡ b.expected = expected_same (sym a.matched ∙ b.matched) in
      elim r.kept [
        | inl here ↦
            clash (
              sym (have_client_random-Holds e.cache (entry_of t request c) r.cache here) ∙ b.unseen)
        | inr (after, old) ↦
            let (from, ordered) =
              From-next t n (take 16 (client_random_of request)) e.cache f.cache r.cache r.sorted
                after le b.cached in
            clash (
              sym (
                ap (λ x. is_allowed_timestamp n (timestamp_of x (client_random_of request)) f.cache)
                  same
                ∙ b.allowed)
              ∙ forgotten-refused (entry_of t request c) n stamp f.cache bound
                  (stamp-below a.expected (client_random_of request))
                  (in_time t stamp d.cache a.allowed) from ordered old)
      ]
    where
      clash : true ≡ false → ⊥
      clash e = cc

      expected_same :
          {i j : ℕ} {x y : Bytes} → ◌≡◌ {A = Option (ℕ × Bytes)} (some (i, x)) (some (j, y)) → x ≡ y
      expected_same e = cc

  -- A hello that was accepted at time t is not accepted on any other connection at a later time n before
  -- 2 ^ 31 - 3, whatever other hellos have come and gone in between, and however the answers are drawn: it waits for
  -- more or is handed to a proxy, and no assertion fails.
  pub receive_hello-replay :
      (draw redraw : Draw) (t n : ℕ) (port again_port : Bool) (input : Bytes) (c d e : HelloClient)
      (id : ℕ) (answer : Bytes)
      → 9 ≤ length input
      → c.is_counted ≡ false
      → e.is_counted ≡ false
      → IsCache c.cache
      → Sorted c.cache.by_time t
      → receive_hello hmac server draw t port input c ≡ ok (accepted id answer, d)
      → Later t d.cache n e.cache
      → t ≤ n
      → n < 2 ^ 31 - 3
      → Returns (λ r. IsRefused r.0) (receive_hello hmac server redraw n again_port input e)
  receive_hello-replay draw redraw t n port again_port input c d e id answer long u v k sorted was
        later le bound =
      let request = take 4096 input in
      let first : IsHandled hmac server draw t request c (accepted id answer, d) =
        Returns-ok (accepted id answer, d)
          (subst (Returns (IsHandled hmac server draw t request c)) was
            (receive_hello-IsHandled hmac server draw t port input c u k long)) in
      let r = accepted-Remembers draw t n id request answer c d e.cache k sorted first.1 later in
      Returns-map (receive_hello-IsHandled hmac server redraw n again_port input e v r.cache long)
        (refused r first.1)
    where
      refused :
          Remembers (entry_of t (take 4096 input) c) n e.cache
          → IsAccepted hmac server draw t (take 4096 input) c id answer d
          → (x : Verdict × HelloClient) → IsHandled hmac server redraw n (take 4096 input) e x
          → IsRefused x.0
      refused r a (wait m, f) h = tt
      refused r a (proxied info, f) h = tt
      refused r a (accepted again reply, f) (kept, b) =
          twice draw redraw t n id again (take 4096 input) answer reply c d e f a r bound le b
