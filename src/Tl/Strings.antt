-- ===== src/Tl/Strings.antt =====
-- The readers of c-original/common/tl-parse.h take the TL string code apart.
use mathlib.Core.List.{append_assoc}
use mtproxy.Prelude.{
  ℕ, ◌+◌, ◌-◌, ◌^◌, ◌%◌, ◌<◌, ◌≤◌, ◌≡◌, ◌≢◌, refl, sym, ◌∙◌, ap, some, [], ◌∷◌, ◌++◌, ltb, length,
  replicate, length-replicate, Bool-cases, inl, inr, arith,
}
use mtproxy.Prelude.Bytes.{
  Bytes, le_bytes, le_value, length-le_bytes, le_value-le_bytes, le_value-replicate,
  append_left_inj,
}
use mtproxy.Tl.{InState, OutState, advance, pad_of}
use mtproxy.Tl.Fetch.{
  raw_bytes, read_len, fetch_string_len, fetch_pad, fetch_string_data, fetch_string,
}
use mtproxy.Tl.Store.{put, store_string}
use mtproxy.Tl.Ready.{
  IsReady, check-IsReady, advance-advance, raw_bytes-append, input-advance, IsReady-advance,
}
use mtproxy.Tl.StringCode.{
  len_code, string_code, length-len_code, length-string_code, store_string-code, store_string-lt,
}

le_value_one : (n : ℕ) → le_value (n ∷ []) ≡ n
unfolding le_value
le_value_one n = omega arith

read_len_short :
    (s : InState) (n : ℕ) (rest : Bytes)
    → n < 254
    → s.input ≡ n ∷ rest
    → (read_len s ≡ (n, advance s 1)) × (le_value (raw_bytes s 1).0 ≢ 255)
unfolding read_len
read_len_short s n rest h e = ground (arith, raw_bytes-append s (n ∷ []) rest e, le_value_one n)

read_len_long :
    (s : InState) (n : ℕ) (rest : Bytes)
    → n < 2 ^ 24
    → s.input ≡ 254 ∷ (le_bytes 3 n ++ rest)
    → (read_len s ≡ (n, advance s 4)) × (le_value (raw_bytes s 1).0 ≢ 255)
unfolding read_len
read_len_long s n rest h e =
    let first = raw_bytes-append s (254 ∷ []) (le_bytes 3 n ++ rest) e in
    let second =
      raw_bytes-append (advance s 1) (le_bytes 3 n) rest
        (input-advance s (254 ∷ []) (le_bytes 3 n ++ rest) e) in
    ground (
      arith,
      first,
      second,
      length-le_bytes 3 n,
      le_value_one 254,
      le_value-le_bytes 3 n h,
      advance-advance s 1 3,
    )

-- What the reader makes of the length.
read_len-len_code :
    (s : InState) (n : ℕ) (rest : Bytes)
    → n < 2 ^ 24
    → s.input ≡ len_code n ++ rest
    → (read_len s ≡ (n, advance s (length (len_code n)))) × (le_value (raw_bytes s 1).0 ≢ 255)
read_len-len_code s n rest h e = elim (Bool-cases (ltb n 254)) [
  | inl small ↦ ground (arith, read_len_short s n rest)
  | inr large ↦ ground (arith, read_len_long s n rest, length-le_bytes 3 n)
]

fetch_string_len-len_code :
    (s : InState) (n max_len m : ℕ) (rest : Bytes)
    → IsReady s 0 m
    → 4 ≤ m
    → length (len_code n) + n ≤ m
    → n < 2 ^ 24
    → n ≤ max_len
    → s.input ≡ len_code n ++ rest
    → fetch_string_len s max_len ≡ (some n, advance s (length (len_code n)))
unfolding fetch_string_len
fetch_string_len-len_code s n max_len m rest r four room h fits e =
    let left : (advance s (length (len_code n))).in_remaining
        ≡ s.in_remaining - length (len_code n) =
      unfold advance in refl in
    let holds = r.holds in
    ground (arith, check-IsReady s 0 m 4 r four, read_len-len_code s n rest h e, left)

fetch_pad-zeros :
    (s : InState) (p m : ℕ) (rest : Bytes)
    → IsReady s p m
    → pad_of s.in_pos ≤ m
    → s.input ≡ replicate (pad_of s.in_pos) 0 ++ rest
    → fetch_pad s ≡ (some (pad_of s.in_pos), advance s (pad_of s.in_pos))
unfolding fetch_pad
fetch_pad-zeros s p m rest r h e =
    let k = pad_of s.in_pos in
    let read : raw_bytes s k ≡ (replicate k 0, advance s k) =
      rw (length-replicate {A = ℕ} k 0) at (raw_bytes-append s (replicate k 0) rest e) in
    rw (check-IsReady s p m k r h, read, le_value-replicate k)

fetch_string_data-code :
    (s : InState) (p m q : ℕ) (bytes rest : Bytes)
    → IsReady s p m
    → q ≡ pad_of (p + length bytes)
    → length bytes + q ≤ m
    → s.input ≡ bytes ++ (replicate q 0 ++ rest)
    → fetch_string_data s (length bytes) ≡ (some bytes, advance s (length bytes + q))
unfolding fetch_string_data
fetch_string_data-code s p m q bytes rest r eq h e =
    let n = length bytes in
    let t = advance s n in
    let aligned = r.aligned in
    let same : pad_of t.in_pos ≡ q = unfold advance in omega arith in
    let zeros = input-advance s bytes (replicate q 0 ++ rest) e in
    let padded =
      fetch_pad-zeros t ((p + n) % 4) (m - n) rest (IsReady-advance s p m n r (omega arith))
        (omega arith) (rw same zeros) in
    ground (
      arith,
      check-IsReady s p m n r (omega arith),
      raw_bytes-append s bytes (replicate q 0 ++ rest) e,
      padded,
      same,
      advance-advance s n q,
    )

-- The reader takes the code of a string apart, and stops behind it.
pub fetch_string-code :
    (s : InState) (bytes rest : Bytes) (max_len : ℕ)
    → IsReady s 0 (length (string_code bytes))
    → length bytes < 2 ^ 24
    → length bytes ≤ max_len
    → s.input ≡ string_code bytes ++ rest
    → fetch_string s max_len ≡ (some bytes, advance s (length (string_code bytes)))
unfolding fetch_string
fetch_string-code s bytes rest max_len r h fits e =
    let n = length bytes in
    let m = length (string_code bytes) in
    let code = len_code n in
    let (size, whole, four) = length-string_code bytes in
    let zeros = replicate (pad_of (length code + n)) 0 in
    let split : s.input ≡ code ++ ((bytes ++ zeros) ++ rest) =
      e ∙ append_assoc code (bytes ++ zeros) rest in
    let first =
      fetch_string_len-len_code s n max_len m ((bytes ++ zeros) ++ rest) r four (omega arith) h fits
        split in
    let t = advance s (length code) in
    let small = length-len_code n in
    let second =
      fetch_string_data-code t ((0 + length code) % 4) (m - length code) (pad_of (length code + n))
        bytes rest (IsReady-advance s 0 m (length code) r (omega arith)) (omega arith) (omega arith)
        (input-advance s code ((bytes ++ zeros) ++ rest) split ∙ append_assoc bytes zeros rest) in
    let joined = advance-advance s (length code) (n + pad_of (length code + n)) in
    let sum : length code + (n + pad_of (length code + n)) ≡ m = omega arith in
    ground (arith, first, second, joined, sum)

-- What the writer of a string stores behind an aligned position, the reader reads back from any
-- aligned position that it can read that far from, and it stops right behind it.
pub fetch_string-store_string :
    (out out' : OutState) (s : InState) (bytes stored rest : Bytes) (max_len : ℕ)
    → out.out_pos % 4 ≡ 0
    → store_string out bytes ≡ some out'
    → out'.output ≡ out.output ++ stored
    → s.input ≡ stored ++ rest
    → IsReady s 0 (length stored)
    → length bytes ≤ max_len
    → fetch_string s max_len ≡ (some bytes, advance s (length stored))
fetch_string-store_string out out' s bytes stored rest max_len a h o e r fits =
    let written = ap (λ (x : OutState). x.output) (store_string-code out out' bytes a h) in
    let same : stored ≡ string_code bytes =
      append_left_inj out.output (sym o ∙ written ∙ unfold put in refl) in
    let ready : IsReady s 0 (length (string_code bytes)) = rw same at r in
    rw same (
      fetch_string-code s bytes rest max_len ready (store_string-lt out out' bytes h) fits
        (e ∙ ap (λ (x : Bytes). x ++ rest) same))
