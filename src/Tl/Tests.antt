-- ===== src/Tl/Tests.antt =====
-- Concrete runs of the TL readers and writers, and the theorems at inputs that meet their premises.
use mtproxy.Prelude.{ℕ, ◌+◌, ◌%◌, ◌≤◌, ◌≡◌, refl, none, some, [], ◌∷◌, ◌++◌, length, arith}
use mtproxy.Prelude.Bytes.{Bytes, le_bytes, le_value}
use mtproxy.Prelude.Run.{ok, out_of_fuel, Returns}
use mtproxy.Tl.{InState, OutState, type_str, check, advance}
use mtproxy.Tl.Fetch.{
  fetch_int, fetch_long, lookup_int, fetch_string, fetch_string_len, read_len, raw_bytes,
  fetch_string_data, fetch_pad,
}
use mtproxy.Tl.Store.{
  put, store_int, store_long, store_string, store_string_len, store_string_data, store_pad,
}
use mtproxy.Tl.Header.{QueryHeader, query_header, answer_header, rpc_invoke_req}
use mtproxy.Tl.StoreHeader.{store_header}
use mtproxy.Tl.Strings.{fetch_string-store_string}
use mtproxy.Tl.Bounds.{store_string_bounds}
use mtproxy.Tl.HeaderTotal.{Answered, query_header-Returns}
use mtproxy.Tl.HeaderLaws.{query_header-store_header}
use mtproxy.Tl.AnswerLoop.{answer_header_diverges}

abbrev reader : Bytes → InState
reader bytes = record {
  in_type = type_str;
  input = bytes;
  in_remaining = length bytes;
  in_pos = 0;
  in_flags = 0;
  in_mark = none;
  in_mark_pos = 0;
  error = none;
}

abbrev writer : ℕ → OutState
writer limit = record {
  out_type = type_str;
  output = [];
  out_pos = 0;
  out_limit = limit;
  out_qid = 0;
}

abbrev abc : Bytes
abc = 97 ∷ 98 ∷ 99 ∷ []

abbrev abc_code : Bytes
abc_code = 3 ∷ 97 ∷ 98 ∷ 99 ∷ []

abbrev written : OutState
written = record (writer 64) { output = abc_code; out_pos = 4 }

store_abc : store_string (writer 64) abc ≡ some written
unfolding store_string store_string_len store_string_data store_pad put le_bytes
store_abc = refl

-- A padding byte that is not zero is refused.
bad_padding : (fetch_string (reader (2 ∷ 97 ∷ 98 ∷ 1 ∷ [])) 8).0 ≡ none
unfolding fetch_string fetch_string_len fetch_string_data fetch_pad read_len raw_bytes check advance
    le_value
bad_padding = refl

fetch_string-store_string_example :
    fetch_string (reader (abc_code ++ 7 ∷ [])) 8
    ≡ (some abc, advance (reader (abc_code ++ 7 ∷ [])) 4)
fetch_string-store_string_example =
    fetch_string-store_string (writer 64) written (reader (abc_code ++ 7 ∷ [])) abc abc_code
      (7 ∷ []) 8 refl store_abc refl refl
      (record { typed = refl; clean = refl; aligned = refl; holds = omega arith }) (omega arith)

store_string_bounds_example : (64 ≡ (writer 64).out_limit) × (4 % 4 ≡ 0) × (4 ≤ 64 + 0)
store_string_bounds_example = store_string_bounds (writer 64) written abc store_abc

abbrev query : QueryHeader
query = record { qid = 5; actor_id = 9; flags = 0; op = rpc_invoke_req; real_op = 0; ref_cnt = 0 }

abbrev actor_bytes : Bytes
actor_bytes = 0xbd ∷ 0xaa ∷ 0x68 ∷ 0x75 ∷ 9 ∷ 0 ∷ 0 ∷ 0 ∷ 0 ∷ 0 ∷ 0 ∷ 0 ∷ []

abbrev header_bytes : Bytes
header_bytes =
    0x3d ∷ 0xdf ∷ 0x74 ∷ 0x23 ∷ 5 ∷ 0 ∷ 0 ∷ 0 ∷ 0 ∷ 0 ∷ 0 ∷ 0 ∷ (actor_bytes ++ 1 ∷ 0 ∷ 0 ∷ 0 ∷ [])

store_query :
    store_header (writer 64) query
    ≡ some (record (writer 64) { output = actor_bytes; out_pos = 12 })
unfolding store_header store_int store_long put le_bytes
store_query = refl

query_header-store_header_example :
    query_header 2 (reader header_bytes)
    ≡ ok (
      some 24,
      advance (reader header_bytes) 24,
      record {
        qid = 5;
        actor_id = 9;
        flags = 0;
        op = rpc_invoke_req;
        real_op = rpc_invoke_req;
        ref_cnt = 1;
      },
    )
unfolding le_bytes
query_header-store_header_example =
    query_header-store_header (writer 64)
      (record (writer 64) { output = actor_bytes; out_pos = 12 }) query (reader header_bytes)
      actor_bytes [] 0 0 1 refl refl (omega arith) (omega arith) store_query refl refl
      (record { typed = refl; clean = refl; aligned = refl; holds = omega arith }) (omega arith)
      (λ w. ground arith)

query_header-Returns_example :
    Returns (Answered 28 (reader header_bytes)) (query_header 29 (reader header_bytes))
query_header-Returns_example = query_header-Returns 29 (reader header_bytes) (omega arith)

abbrev wrapped_bytes : Bytes
wrapped_bytes =
    0x4e ∷ 0xda ∷ 0xae ∷ 0x63 ∷ 5 ∷ 0 ∷ 0 ∷ 0 ∷ 0 ∷ 0 ∷ 0 ∷ 0 ∷ 0xf6 ∷ 0x32 ∷ 0xe4 ∷ 0x7a ∷ []

answer_header_diverges_example : answer_header 1000 (reader wrapped_bytes) ≡ out_of_fuel
unfolding fetch_int fetch_long lookup_int raw_bytes check advance le_value
answer_header_diverges_example = answer_header_diverges 1000 (reader wrapped_bytes) refl refl
