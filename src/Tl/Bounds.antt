-- ===== src/Tl/Bounds.antt =====
-- Where a string's writer (tls_string of c-original/common/tl-parse.h) stops.
use mtproxy.Prelude.{ℕ, ◌+◌, ◌%◌, ◌≤◌, ◌≡◌, some, length, length-replicate, >>=-eq-some, arith}
use mtproxy.Prelude.Bytes.{Bytes}
use mtproxy.Tl.{OutState, pad_of}
use mtproxy.Tl.Store.{put, store_string_len, store_string_data, store_pad, store_string}

-- The check in front of the bytes covers them, and the padding is less than a word.
store_string_data_bounds :
    (s t : OutState) (bytes : Bytes)
    → store_string_data s bytes ≡ some t
    → (t.out_pos ≡ s.out_pos + length bytes + pad_of (s.out_pos + length bytes))
      × (s.out_pos + length bytes ≤ s.out_limit)
      × (t.out_limit ≡ s.out_limit)
unfolding store_string_data store_pad put
store_string_data_bounds s t bytes h =
    ground (arith, length-replicate {A = ℕ} (pad_of (s.out_pos + length bytes)) 0)

store_string_len_limit :
    (s t : OutState) (n : ℕ) → store_string_len s n ≡ some t → t.out_limit ≡ s.out_limit
unfolding store_string_len put
store_string_len_limit s t n h = ground arith

-- Writing a string never moves the limit and stops at an aligned position, which lies no further
-- than the limit rounded up to a multiple of four: only the padding may lie behind the limit.
pub store_string_bounds :
    (s t : OutState) (bytes : Bytes)
    → store_string s bytes ≡ some t
    → (t.out_limit ≡ s.out_limit)
      × (t.out_pos % 4 ≡ 0)
      × (t.out_pos ≤ s.out_limit + pad_of s.out_limit)
unfolding store_string
store_string_bounds s t bytes h =
    let (u, first, second) = >>=-eq-some (store_string_len s (length bytes)) _ h in
    let limit = store_string_len_limit s u (length bytes) first in
    let data_bounds = store_string_data_bounds u t bytes second in omega (arith, limit, data_bounds)
