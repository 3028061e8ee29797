-- ===== src/Tl/Store.antt =====
-- The writers of c-original/common/tl-parse.h (tls_...). `none` is a failed assertion.
use mtproxy.Prelude.{
  ℕ, ◌+◌, ◌*◌, ◌^◌, Bool, Option, some, ◌++◌, ltb, not, ◌&&◌, if◌then◌else◌, length, replicate,
  ◌>>=◌, ◌>>◌, verify,
}
use mtproxy.Prelude.Bytes.{Bytes, le_bytes}
use mtproxy.Tl.{OutState, is_none_type, pad_of}

-- tls_check: `true` is 0.
abbrev pub store_check : OutState → ℕ → Bool
store_check s n = not (is_none_type s.out_type) && not (ltb s.out_limit (s.out_pos + n))

-- __tls_raw_data
unfoldable pub put : OutState → Bytes → OutState
put s bytes = record s { output = s.output ++ bytes; out_pos = s.out_pos + length bytes }

unfoldable pub store_int : OutState → ℕ → Option OutState
store_int s x = do verify (store_check s 4); some (put s (le_bytes 4 x))

unfoldable pub store_long : OutState → ℕ → Option OutState
store_long s x = do verify (store_check s 8); some (put s (le_bytes 8 x))

unfoldable pub store_raw_data : OutState → Bytes → Option OutState
store_raw_data s bytes = do verify (store_check s (length bytes)); some (put s bytes)

unfoldable pub store_string_len : OutState → ℕ → Option OutState
store_string_len s len = do
  verify (store_check s 4)
  (if ltb len 254
      then some (put s (le_bytes 1 len))
      else (do verify (ltb len (2 ^ 24)); some (put s (le_bytes 4 (len * 2 ^ 8 + 0xfe)))))

-- Only room for 0 bytes is checked before the padding is stored.
unfoldable pub store_pad : OutState → Option OutState
store_pad s = do verify (store_check s 0); some (put s (replicate (pad_of s.out_pos) 0))

unfoldable pub store_string_data : OutState → Bytes → Option OutState
store_string_data s bytes = do verify (store_check s (length bytes)); store_pad (put s bytes)

unfoldable pub store_string : OutState → Bytes → Option OutState
store_string s bytes = do t ← store_string_len s (length bytes); store_string_data t bytes
