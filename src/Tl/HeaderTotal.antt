-- ===== src/Tl/HeaderTotal.antt =====
-- The loop of tlf_query_header (c-original/common/tl-parse.c) ends, and its assertions hold.
use mtproxy.Prelude.{
  ℕ, zero, suc, ◌+◌, ◌-◌, ◌≤◌, ◌<◌, ◌≡◌, refl, Bool, true, false, Option, none, some, arith, inl,
  inr, ◌==◌, ◌⊎◌, if◌then◌else◌, not, ◌&&◌, not, ◌&&◌,
}
use mtproxy.Prelude.Run.{
  Returns, returns, Ensures, Returns-Ensures, Returns-bind, Returns-map, Returns-round, Returns-if,
}
use mtproxy.Tl.{InState, has_error, header}
use mtproxy.Tl.Fetch.{lookup_int, fetch_int, fetch_long}
use mtproxy.Tl.Header.{
  QueryHeader, query_switch, query_loop, query_header, rpc_invoke_req, rpc_invoke_kphp_req,
  zero_header,
}
use mtproxy.Tl.Frame.{
  fetch_int-Uses, fetch_long-Uses, lookup_int-Uses, query_flags-Uses, fetch_int-lookup_int,
  fetch_int-le, fetch_long-le, set_error-has_error,
}

-- One round: no assertion fails, and a round that goes on without an error uses eight bytes or more.
abbrev Progress : InState → Bool × InState × QueryHeader → Type 0
Progress s (more, t, g) =
    has_error t ≡ false
    → (has_error s ≡ false)
      × (t.in_remaining ≤ s.in_remaining)
      × (more ≡ true → t.in_remaining + 8 ≤ s.in_remaining)

query_switch-Progress : (s : InState) (h : QueryHeader) → Ensures (Progress s) (query_switch s h)
unfolding query_switch
query_switch-Progress s h =
    let t = (lookup_int s).1 in
    let u = (fetch_int t).1 in
    let v = (fetch_long u).1 in
    ground (
      arith,
      lookup_int-Uses s,
      fetch_int-Uses t,
      fetch_long-Uses u,
      query_flags-Uses u h,
      query_flags-Uses v (record h { actor_id = (fetch_long u).0 }),
      fetch_int-lookup_int s,
    )

abbrev pub Answered : ℕ → InState → Option ℕ × InState × QueryHeader → Type 0
Answered start s (r, t, g) =
    ((r ≡ none) × (has_error t ≡ true))
    ⊎ ((r ≡ some (start - t.in_remaining))
        × (has_error t ≡ false)
        × (t.in_remaining ≤ s.in_remaining))

pub query_loop-Returns :
    (fuel start : ℕ) (s : InState) (h : QueryHeader)
    → s.in_remaining < fuel
    → Returns (Answered start s) (query_loop fuel start s h)
unfolding query_loop
query_loop-Returns zero start s h l = absurd (omega arith)
query_loop-Returns (suc k) start s h l =
    Returns-bind {P = Progress s} (Returns-Ensures _ (query_switch-Progress s h)) λ (more, t, g) p.
      Returns-round (has_error t) more _ _ _ (λ e. inl (refl, e))
        (λ e m.
          Returns-map (query_loop-Returns k start t g (omega (arith, (p e).2 m)))
            λ (r, t', g') a. ground (arith, (p e).1))
        (λ e m. inr (refl, e, (p e).1))

ended :
    (s u : InState)
    → u.in_remaining ≤ s.in_remaining
    → ((if has_error u then none else some (s.in_remaining - u.in_remaining)) ≡ none)
        × (has_error u ≡ true)
      ⊎ ((if has_error u then none else some (s.in_remaining - u.in_remaining))
          ≡ some (s.in_remaining - u.in_remaining))
        × (has_error u ≡ false)
        × (u.in_remaining ≤ s.in_remaining)
ended s u h = ground arith

-- With as much fuel as there are unread bytes, reading a query header ends, and no assertion of it
-- fails: either with an error set, or with a result that is the number of bytes read.
pub query_header-Returns :
    (fuel : ℕ) (s : InState)
    → s.in_remaining < fuel
    → Returns (Answered s.in_remaining s) (query_header fuel s)
unfolding query_header
query_header-Returns fuel s l =
    let t = (fetch_int s).1 in
    let less : (fetch_long t).1.in_remaining ≤ s.in_remaining =
      omega (arith, fetch_int-le s, fetch_long-le t) in
    let u = (fetch_long t).1 in
    let op = (fetch_int s).0 in
    let h = record zero_header { op = op; real_op = op; ref_cnt = 1; qid = (fetch_long t).0 } in
    Returns-if (not (op == rpc_invoke_req) && not (op == rpc_invoke_kphp_req)) _ _
      (λ _. returns (inl (refl, set_error-has_error t header)))
      λ _.
        Returns-if (op == rpc_invoke_kphp_req) _ _ (λ _. returns (ended s u less))
          λ _.
            Returns-map (query_loop-Returns fuel s.in_remaining u h (omega arith))
              λ (r, v, g) a. ground (arith, a)
