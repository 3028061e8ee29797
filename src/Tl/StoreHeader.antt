-- ===== src/Tl/StoreHeader.antt =====
-- tls_header of c-original/common/tl-parse.c. `none` is a failed assertion.
use mtproxy.Prelude.{Option, some, ◌==◌, ◌||◌, not, if◌then◌else◌, ◌>>=◌, ◌>>◌, verify}
use mtproxy.Tl.{OutState}
use mtproxy.Tl.Store.{store_check, store_int, store_long}
use mtproxy.Tl.Header.{
  QueryHeader, rpc_invoke_req, rpc_req_error, rpc_req_error_wrapped, rpc_req_result, rpc_dest_actor,
  rpc_dest_actor_flags, rpc_req_result_flags,
}

-- What is written of a query.
unfoldable pub store_query_fields : OutState → QueryHeader → Option OutState
store_query_fields s h =
    if not (h.flags == 0)
    then (do t ← store_int s rpc_dest_actor_flags; u ← store_long t h.actor_id; store_int u h.flags)
    else if not (h.actor_id == 0)
    then (do t ← store_int s rpc_dest_actor; store_long t h.actor_id)
    else some s

unfoldable pub store_header : OutState → QueryHeader → Option OutState
unfolding store_query_fields
store_header s h = do
  verify (store_check s 0)
  verify (
      h.op == rpc_req_error
      || h.op == rpc_req_result
      || h.op == rpc_invoke_req
      || h.op == rpc_req_error_wrapped)
  (if h.op == rpc_invoke_req
      then store_query_fields s h
      else if h.op == rpc_req_error_wrapped
      then (do t ← store_int s rpc_req_error; store_long t s.out_qid)
      else if h.op == rpc_req_result
      then (if not (h.flags == 0)
          then (do t ← store_int s rpc_req_result_flags; store_int t h.flags)
          else some s)
      else some s)
