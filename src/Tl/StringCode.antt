-- ===== src/Tl/StringCode.antt =====
-- The TL string code, and that the writer of c-original/common/tl-parse.h produces it.
use mtproxy.Prelude.{
  ℕ, ◌+◌, ◌*◌, ◌^◌, ◌%◌, ◌<◌, ◌≤◌, ◌≡◌, refl, sym, ◌∙◌, ap, some, [], ◌∷◌, ◌++◌, ltb, if◌then◌else◌,
  length, replicate, length-append, arith, length-replicate, ◌≤◌, verify-eq-some, >>=-eq-some,
  some-eq, ◌/◌,
}
use mathlib.Core.List.{append_assoc}
use mtproxy.Prelude.Bytes.{Bytes, le_bytes, length-le_bytes}
use mtproxy.Tl.{OutState, pad_of}
use mtproxy.Tl.Store.{
  put, store_check, store_string_len, store_pad, store_string_data, store_string,
}

-- A length below 254 takes one byte; another takes the byte 254 and three bytes.
abbrev pub len_code : ℕ → Bytes
len_code n = if ltb n 254 then n ∷ [] else 254 ∷ le_bytes 3 n

-- The length, the bytes, and zeros up to a multiple of four.
abbrev pub string_code : Bytes → Bytes
string_code bytes =
    len_code (length bytes)
    ++ (bytes ++ replicate (pad_of (length (len_code (length bytes)) + length bytes)) 0)

put-put : (s : OutState) (a b : Bytes) → put (put s a) b ≡ put s (a ++ b)
unfolding put
put-put s a b = ground (arith, append_assoc s.output a b, length-append a b)

le_bytes-len : (n : ℕ) → le_bytes 4 (n * 2 ^ 8 + 0xfe) ≡ 254 ∷ le_bytes 3 n
unfolding le_bytes
le_bytes-len n =
    let rest : (n * 2 ^ 8 + 0xfe) / 256 ≡ n = omega arith in
    let first : (n * 2 ^ 8 + 0xfe) % 256 ≡ 254 = omega arith in rw (rest, first)

le_bytes-one : (n : ℕ) → n < 254 → le_bytes 1 n ≡ n ∷ []
unfolding le_bytes
le_bytes-one n h = rw (let small : n % 256 ≡ n = omega arith in small)

pub store_string_len-code :
    (s t : OutState) (n : ℕ) → store_string_len s n ≡ some t → t ≡ put s (len_code n)
unfolding store_string_len
store_string_len-code s t n h = ground (arith, le_bytes-len n, le_bytes-one n)

pub store_string_data-code :
    (s t : OutState) (bytes : Bytes)
    → store_string_data s bytes ≡ some t
    → t ≡ put s (bytes ++ replicate (pad_of (s.out_pos + length bytes)) 0)
unfolding store_string_data store_pad
store_string_data-code s t bytes h =
    let (_, padded) = verify-eq-some (store_check s (length bytes)) _ h in
    let (_, stored) = verify-eq-some (store_check (put s bytes) 0) _ padded in
    sym (some-eq stored) ∙ put-put s bytes _ ∙ unfold put in refl

-- The writer stores the code of the string behind what it holds.
pub store_string-code :
    (s t : OutState) (bytes : Bytes)
    → s.out_pos % 4 ≡ 0
    → store_string s bytes ≡ some t
    → t ≡ put s (string_code bytes)
unfolding store_string put
store_string-code s t bytes a h =
    let (u, first, second) = >>=-eq-some (store_string_len s (length bytes)) _ h in
    let e = store_string_len-code s u (length bytes) first in
    let f = store_string_data-code u t bytes second in
    let position : u.out_pos ≡ s.out_pos + length (len_code (length bytes)) =
      ap (λ (o : OutState). o.out_pos) e in
    let same : pad_of (u.out_pos + length bytes)
        ≡ pad_of (length (len_code (length bytes)) + length bytes) =
      omega arith in
    f ∙ rw (same, e) (put-put s _ _)

pub length-len_code : (n : ℕ) → (1 ≤ length (len_code n)) × (length (len_code n) ≤ 4)
length-len_code n = ground (arith, length-le_bytes 3 n)

-- A code is at least four bytes long, and a multiple of four.
pub length-string_code :
    (bytes : Bytes)
    → (length (string_code bytes)
        ≡ length (len_code (length bytes))
          + length bytes
          + pad_of (length (len_code (length bytes)) + length bytes))
      × (length (string_code bytes) % 4 ≡ 0)
      × (4 ≤ length (string_code bytes))
length-string_code bytes = omega (
  arith,
  length-len_code (length bytes),
  length-append (len_code (length bytes))
      (bytes ++ replicate (pad_of (length (len_code (length bytes)) + length bytes)) 0),
  length-append bytes (replicate (pad_of (length (len_code (length bytes)) + length bytes)) 0),
  length-replicate {A = ℕ} (pad_of (length (len_code (length bytes)) + length bytes)) 0,
)

store_string_len-lt : (s t : OutState) (n : ℕ) → store_string_len s n ≡ some t → n < 2 ^ 24
unfolding store_string_len
store_string_len-lt s t n h = ground arith

-- Only a string shorter than 2 ^ 24 bytes is stored.
pub store_string-lt :
    (s t : OutState) (bytes : Bytes) → store_string s bytes ≡ some t → length bytes < 2 ^ 24
unfolding store_string
store_string-lt s t bytes h =
    let (u, first, _) = >>=-eq-some (store_string_len s (length bytes)) _ h in
    store_string_len-lt s u (length bytes) first
