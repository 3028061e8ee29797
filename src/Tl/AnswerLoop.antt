-- ===== src/Tl/AnswerLoop.antt =====
-- The loop of tlf_query_answer_header (c-original/common/tl-parse.c): where it does not end.
use mtproxy.Prelude.{ℕ, zero, suc, ◌≡◌, ◌≢◌, refl, true, false, arith}
use mtproxy.Prelude.Run.{ok, out_of_fuel}
use mtproxy.Tl.{InState, has_error, check, minus_one}
use mtproxy.Tl.Fetch.{lookup_int, fetch_int, fetch_long}
use mtproxy.Tl.Header.{
  QueryHeader, answer_switch, answer_loop, answer_header, rpc_req_error, rpc_req_error_wrapped,
  rpc_req_result, zero_header,
}

lookup_int_same :
    (s : InState) → (lookup_int s).0 ≢ minus_one → ((lookup_int s).1 ≡ s) × (has_error s ≡ false)
unfolding lookup_int check
lookup_int_same s h = ground arith

answer_switch_wrapped :
    (s : InState) (h : QueryHeader)
    → h.op ≢ rpc_req_error
    → (lookup_int s).0 ≡ rpc_req_error_wrapped
    → answer_switch s h ≡ ok (true, s, record h { op = rpc_req_error_wrapped })
unfolding answer_switch
answer_switch_wrapped s h n e = ground (arith, lookup_int_same s)

answer_loop_wrapped :
    (fuel start : ℕ) (s : InState) (h : QueryHeader)
    → h.op ≢ rpc_req_error
    → (lookup_int s).0 ≡ rpc_req_error_wrapped
    → answer_loop fuel start s h ≡ out_of_fuel
unfolding answer_loop
answer_loop_wrapped zero start s h n e = refl
answer_loop_wrapped (suc k) start s h n e =
    let g = record h { op = rpc_req_error_wrapped } in
    let clean = (lookup_int_same s (ground arith)).1 in
    ground (
      arith,
      answer_switch_wrapped s h n e,
      clean,
      answer_loop_wrapped k start s g (ground arith) e,
    )

-- An answer of kind RPC_REQ_RESULT whose next word is RPC_REQ_ERROR_WRAPPED is never done: the loop
-- sees that word again in every round, and no amount of fuel is enough.
pub answer_header_diverges :
    (fuel : ℕ) (s : InState)
    → (fetch_int s).0 ≡ rpc_req_result
    → (lookup_int (fetch_long (fetch_int s).1).1).0 ≡ rpc_req_error_wrapped
    → answer_header fuel s ≡ out_of_fuel
unfolding answer_header
answer_header_diverges fuel s kind next =
    let op = (fetch_int s).0 in
    let (qid, u) = fetch_long (fetch_int s).1 in
    let h = record zero_header { op = op; real_op = op; ref_cnt = 1; qid = qid } in
    ground (arith, answer_loop_wrapped fuel s.in_remaining u h (ground arith) next)
