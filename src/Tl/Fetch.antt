-- ===== src/Tl/Fetch.antt =====
-- The readers of c-original/common/tl-parse.h (tlf_...). A 32- or 64-bit result is its bit pattern.
-- A length that the source returns as -1 is `none`. Lengths and `max_len` are not negative, as in
-- all calls.
use mtproxy.Prelude.{
  ℕ, ◌+◌, ◌-◌, Bool, true, false, Option, none, some, ltb, ◌==◌, ◌&&◌, ◌||◌, not, if◌then◌else◌,
  take, drop, ◌%◌, ◌^◌,
}
use mtproxy.Prelude.Int.{pos}
use mtproxy.Prelude.Bytes.{Bytes, le_value}
use mtproxy.Tl.{
  syntax, too_long_string, not_enough_data, extra_data, value_not_in_range, InState, set_error,
  check, advance, pad_of, minus_one,
}

-- __tlf_raw_data
unfoldable pub raw_bytes : InState → ℕ → Bytes × InState
raw_bytes s n = (take n s.input, advance s n)

unfoldable pub lookup_int : InState → ℕ × InState
lookup_int s =
    let (good, t) = check s (pos 4) in
    if good then (le_value (take 4 t.input), t) else (minus_one, t)

unfoldable pub lookup_second_int : InState → ℕ × InState
lookup_second_int s =
    let (good, t) = check s (pos 8) in
    if good then (le_value (take 4 (drop 4 t.input)), t) else (minus_one, t)

unfoldable pub lookup_long : InState → ℕ × InState
lookup_long s =
    let (good, t) = check s (pos 8) in
    if good then (le_value (take 8 t.input), t) else (2 ^ 64 - 1, t)

unfoldable pub fetch_int : InState → ℕ × InState
fetch_int s =
    let (good, t) = check s (pos 4) in
    let (bytes, u) = raw_bytes t 4 in if good then (le_value bytes, u) else (minus_one, t)

unfoldable pub fetch_long : InState → ℕ × InState
fetch_long s =
    let (good, t) = check s (pos 8) in
    let (bytes, u) = raw_bytes t 8 in if good then (le_value bytes, u) else (2 ^ 64 - 1, t)

-- The length byte is read, and the test of it against 255 and 254 made.
unfoldable pub read_len : InState → ℕ × InState
read_len s =
    let (first, t) = raw_bytes s 1 in
    let (more, u) = raw_bytes t 3 in
    if le_value first == 254 then (le_value more, u) else (le_value first, t)

unfoldable pub fetch_string_len : InState → ℕ → Option ℕ × InState
fetch_string_len s max_len =
    let (good, t) = check s (pos 4) in
    let (x, u) = read_len t in
    if not good
    then (none, t)
    else if le_value (raw_bytes t 1).0 == 255
    then (none, set_error (advance t 1) syntax)
    else if ltb max_len x
    then (none, set_error u too_long_string)
    else if ltb u.in_remaining x
    then (none, set_error u not_enough_data)
    else (some x, u)

unfoldable pub fetch_pad : InState → Option ℕ × InState
fetch_pad s =
    let pad = pad_of s.in_pos in
    let (good, t) = check s (pos pad) in
    let (bytes, u) = raw_bytes t pad in
    if not good
    then (none, t)
    else if not (le_value bytes == 0)
    then (none, set_error u syntax)
    else (some pad, u)

-- tlf_string_data; tlf_skip_string_data moves alike and stores nothing.
unfoldable pub fetch_string_data : InState → ℕ → Option Bytes × InState
fetch_string_data s len =
    let (good, t) = check s (pos len) in
    let (bytes, u) = raw_bytes t len in
    let (padded, v) = fetch_pad u in
    if not good then (none, t) else elim padded [ none ↦ (none, v) | some _ ↦ (some bytes, v) ]

unfoldable pub fetch_string : InState → ℕ → Option Bytes × InState
fetch_string s max_len =
    let (l, t) = fetch_string_len s max_len in
    elim l [ none ↦ (none, t) | some n ↦ fetch_string_data t n ]

unfoldable pub fetch_skip : InState → ℕ → Option ℕ × InState
fetch_skip s len =
    let (good, t) = check s (pos len) in if good then (some len, advance t len) else (none, t)

-- tlf_end: `true` is 1, and `false` is -1.
unfoldable pub fetch_end : InState → Bool × InState
fetch_end s =
    if not (s.in_remaining == 0) && not (s.in_flags % 2 == 1)
    then (false, set_error s extra_data)
    else (true, s)

-- tlf_check_str_end
unfoldable pub check_str_end : InState → ℕ → Bool × InState
check_str_end s size =
    if not (s.in_remaining == size + pad_of (size + s.in_pos))
    then (false, set_error s extra_data)
    else (true, s)

-- Signed comparison of 32-bit patterns: both sides are moved by 2 ^ 31.
abbrev pub signed_lt : ℕ → ℕ → Bool
signed_lt a b = ltb ((a + 2 ^ 31) % 2 ^ 32) ((b + 2 ^ 31) % 2 ^ 32)

-- tlf_int_range: an integer out of range sets the error and is returned all the same.
unfoldable pub fetch_int_range : InState → ℕ → ℕ → ℕ × InState
fetch_int_range s low high =
    let (x, t) = fetch_int s in
    if signed_lt x low || signed_lt high x then (x, set_error t value_not_in_range) else (x, t)

abbrev pub fetch_positive_int : InState → ℕ × InState
fetch_positive_int s = fetch_int_range s 1 0x7fffffff

abbrev pub fetch_nonnegative_int : InState → ℕ × InState
fetch_nonnegative_int s = fetch_int_range s 0 0x7fffffff

-- tlf_mark, tlf_mark_restore and tlf_mark_delete, for a string; `none` is a failed assertion.
unfoldable pub fetch_mark : InState → Option InState
fetch_mark s = elim s.in_mark [
  | none ↦ some (record s { in_mark = some s.input; in_mark_pos = s.in_pos })
  | some _ ↦ none
]

unfoldable pub fetch_mark_restore : InState → Option InState
fetch_mark_restore s = elim s.in_mark [
  | none ↦ none
  | some saved ↦
      let x = s.in_pos - s.in_mark_pos in
      some (record s {
        input = saved;
        in_mark = none;
        in_pos = s.in_pos - x;
        in_remaining = s.in_remaining + x;
      })
]

unfoldable pub fetch_mark_delete : InState → InState
fetch_mark_delete s = record s { in_mark = none }
