-- ===== src/Tl/Header.antt =====
-- The query and answer headers of c-original/common/tl-parse.c, read and written. Both kinds of
-- reader have no `prepend_bytes`, so nothing is skipped in front. The counters of received queries
-- and answers are left out.
use Prim.Native.Nat.{bit_and, bit_or}
use mtproxy.Prelude.{
  ℕ, zero, suc, ◌-◌, Bool, true, false, Option, none, some, ◌==◌, ◌&&◌, not, if◌then◌else◌,
}
use mtproxy.Prelude.Run.{Run, ok, out_of_fuel, ◌>>=◌, ◌>>◌, assert}
use mtproxy.Tl.{InState, header, set_error, has_error}
use mtproxy.Tl.Fetch.{lookup_int, fetch_int, fetch_long}

abbrev pub rpc_invoke_req : ℕ
rpc_invoke_req = 0x2374df3d

abbrev pub rpc_invoke_kphp_req : ℕ
rpc_invoke_kphp_req = 0x99a37fda

abbrev pub rpc_req_error : ℕ
rpc_req_error = 0x7ae432f5

abbrev pub rpc_req_error_wrapped : ℕ
rpc_req_error_wrapped = 0x7ae432f6

abbrev pub rpc_req_result : ℕ
rpc_req_result = 0x63aeda4e

abbrev pub rpc_dest_actor : ℕ
rpc_dest_actor = 0x7568aabd

abbrev pub rpc_dest_actor_flags : ℕ
rpc_dest_actor_flags = 0xf0a5acf7

abbrev pub rpc_dest_flags : ℕ
rpc_dest_flags = 0xe352035e

abbrev pub rpc_req_result_flags : ℕ
rpc_req_result_flags = 0x8cc84ce1

pub record QueryHeader : Type 0 where
  pub qid : ℕ
  pub actor_id : ℕ
  pub flags : ℕ
  pub op : ℕ
  pub real_op : ℕ
  pub ref_cnt : ℕ

abbrev pub zero_header : QueryHeader
zero_header = record { qid = 0; actor_id = 0; flags = 0; op = 0; real_op = 0; ref_cnt = 0 }

-- tlf_query_flags and tlf_query_answer_flags, which are alike; no caller looks at their result.
unfoldable pub query_flags : InState → QueryHeader → InState × QueryHeader
query_flags s h =
    let (flags, t) = fetch_int s in
    if has_error t
    then (t, h)
    else if not (bit_and h.flags flags == 0)
    then (set_error t header, h)
    else if not (flags == 0)
    then (set_error t header, h)
    else (t, record h { flags = bit_or h.flags flags })

-- The switch in the loop of tlf_query_header; the flag is the source's `ok`.
unfoldable pub query_switch : InState → QueryHeader → Run (Bool × InState × QueryHeader)
query_switch s h =
    let (op, t) = lookup_int s in
    let (again, u) = fetch_int t in
    let (actor, v) = fetch_long u in
    if op == rpc_dest_actor
    then (do assert (again == rpc_dest_actor); ok (true, v, record h { actor_id = actor }))
    else if op == rpc_dest_actor_flags
    then (do
      assert (again == rpc_dest_actor_flags)
      let (w, g) = query_flags v (record h { actor_id = actor })
      ok (true, w, g))
    else if op == rpc_dest_flags
    then (do assert (again == rpc_dest_flags); let (w, g) = query_flags u h; ok (true, w, g))
    else ok (false, t, h)

-- The loop, with the number of unread bytes at the start; the result -1 is `none`.
unfoldable pub query_loop : ℕ → ℕ → InState → QueryHeader → Run (Option ℕ × InState × QueryHeader)
query_loop zero start s h = out_of_fuel
query_loop (suc k) start s h = query_switch s h >>= λ (more, t, g).
    if has_error t then ok (none, t, g) else (elim more [
      | true ↦ query_loop k start t g
      | false ↦ ok (some (start - t.in_remaining), t, g)
    ])

unfoldable pub query_header : ℕ → InState → Run (Option ℕ × InState × QueryHeader)
unfolding query_loop
query_header fuel s =
    let start = s.in_remaining in
    let (op, t) = fetch_int s in
    let h = record zero_header { op = op; real_op = op; ref_cnt = 1 } in
    let (qid, u) = fetch_long t in
    let g = record h { qid = qid } in
    if not (op == rpc_invoke_req) && not (op == rpc_invoke_kphp_req)
    then ok (none, set_error t header, h)
    else if op == rpc_invoke_kphp_req
    then ok (if has_error u then none else some (start - u.in_remaining), u, g)
    else query_loop fuel start u g

-- The loop body of tlf_query_answer_header up to the test for an error.
unfoldable pub answer_switch : InState → QueryHeader → Run (Bool × InState × QueryHeader)
answer_switch s h =
    let (op, t) = lookup_int s in
    let (again, u) = fetch_int t in
    if h.op == rpc_req_error
    then ok (false, s, h)
    else if op == rpc_req_error
    then (do
      assert (again == rpc_req_error)
      let (_, v) = fetch_long u
      ok (true, v, record h { op = rpc_req_error_wrapped }))
    else if op == rpc_req_error_wrapped
    then ok (true, t, record h { op = rpc_req_error_wrapped })
    else if op == rpc_req_result_flags
    then (do assert (again == rpc_req_result_flags); let (w, g) = query_flags u h; ok (true, w, g))
    else ok (false, t, h)

unfoldable pub answer_loop : ℕ → ℕ → InState → QueryHeader → Run (Option ℕ × InState × QueryHeader)
answer_loop zero start s h = out_of_fuel
answer_loop (suc k) start s h = answer_switch s h >>= λ (more, t, g).
    if has_error t then ok (none, t, g) else (elim more [
      | true ↦ answer_loop k start t g
      | false ↦ ok (some (start - t.in_remaining), t, g)
    ])

unfoldable pub answer_header : ℕ → InState → Run (Option ℕ × InState × QueryHeader)
unfolding answer_loop
answer_header fuel s =
    let start = s.in_remaining in
    let (op, t) = fetch_int s in
    let h = record zero_header { op = op; real_op = op; ref_cnt = 1 } in
    let (qid, u) = fetch_long t in
    if not (op == rpc_req_error) && not (op == rpc_req_result)
    then ok (none, set_error t header, h)
    else answer_loop fuel start u (record h { qid = qid })
