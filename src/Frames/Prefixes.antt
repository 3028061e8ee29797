-- ===== src/Frames/Prefixes.antt =====
-- The length before a packet, of c-original/net/net-tcp-rpc-common.c and net-tcp-rpc-ext-server.c: it is read
-- as it was written.
use mtproxy.Prelude.{
  ℕ, ◌+◌, ◌*◌, ◌/◌, ◌%◌, ◌^◌, ◌<◌, ◌≤◌, ◌≡◌, refl, ◌∙◌, sym, ap, Bool, true, false, ◌++◌, leb,
  if◌then◌else◌, length, take, arith, Bool-cases, inl, inr, by_test, ◌⊎◌,
}
use mtproxy.Prelude.Bytes.{Bytes, le_bytes, le_value, length-le_bytes, le_value-le_bytes}
use mtproxy.Frames.{Flags, prefix, length_prefix, prefix_of, medium_prefix, compact_prefix}

take-le_bytes : (x : ℕ) (rest : Bytes) → take 4 (le_bytes 4 x ++ rest) ≡ le_bytes 4 x
unfolding le_bytes
take-le_bytes x rest = refl

-- The word that stands first
pub first_word : (x : ℕ) (rest : Bytes) → x < 2 ^ 32 → le_value (take 4 (le_bytes 4 x ++ rest)) ≡ x
first_word x rest p = ap le_value (take-le_bytes x rest) ∙ le_value-le_bytes 4 x p

first_byte : (b : ℕ) (rest : Bytes) → b < 256 → le_value (take 4 (le_bytes 1 b ++ rest)) % 256 ≡ b
unfolding le_bytes le_value
first_byte b rest p = omega (arith, p)

medium_lem : (word len : ℕ) → word ≡ len → len < 2 ^ 26 → medium_prefix word ≡ prefix false len 4
medium_lem word len e p = ground (arith, e, p)

short_lem : (word b : ℕ) → word % 256 ≡ b → b ≤ 0x7e → compact_prefix word ≡ prefix false (b * 4) 1
short_lem word b e p = ground (arith, e, p)

long_lem :
    (word n : ℕ) → word ≡ n * 256 + 127 → 0x7f ≤ n → compact_prefix word ≡ prefix false (n * 4) 4
long_lem word n e p = ground (arith, e, p)

-- The prefix of a length below 2 ^ 26, which is a multiple of four in the compact framing, is read as it.
IsRead : Bool → ℕ → Bytes → Bytes → Type 0
IsRead medium len rest pre =
    (if medium
      then medium_prefix (le_value (take 4 (pre ++ rest)))
      else compact_prefix (le_value (take 4 (pre ++ rest))))
    ≡ prefix false len (length pre)

compact-IsRead :
    (len : ℕ) (rest : Bytes)
    → len < 2 ^ 26
    → len % 4 ≡ 0
    → IsRead false len rest (
        if leb len (0x7e * 4)
        then le_bytes 1 (len / 4)
        else le_bytes 4 (len * 2 ^ 6 / 128 * 128 + 127))
unfolding IsRead
compact-IsRead len rest p m =
    by_test (IsRead false len rest) (leb len (0x7e * 4))
      (λ y.
        short_lem (le_value (take 4 (le_bytes 1 (len / 4) ++ rest))) (len / 4)
          (first_byte (len / 4) rest (ground (arith, y))) (ground (arith, y))
        ∙ size (len / 4 * 4) len 1 (length (le_bytes 1 (len / 4))) (omega (arith, m))
            (sym (length-le_bytes 1 (len / 4))))
      (λ n.
        let long = len * 2 ^ 6 / 128 * 128 + 127 in
        long_lem (le_value (take 4 (le_bytes 4 long ++ rest))) (len / 4)
          (first_word long rest (omega (arith, p)) ∙ omega (arith, m)) (ground (arith, n, m))
        ∙ size (len / 4 * 4) len 4 (length (le_bytes 4 long)) (omega (arith, m))
            (sym (length-le_bytes 4 long)))
  where
    size : (a b m n : ℕ) → a ≡ b → m ≡ n → prefix false a m ≡ prefix false b n
    size a b m n e f = cc

pub length_prefix-read :
    (flags : Flags) (len : ℕ) (rest : Bytes)
    → len < 2 ^ 26
    → (flags.medium ≡ true) ⊎ (len % 4 ≡ 0)
    → prefix_of flags (length_prefix flags len ++ rest)
      ≡ prefix false len (length (length_prefix flags len))
unfolding IsRead
length_prefix-read flags len rest p m = elim (Bool-cases flags.medium) [
  | inl medium ↦ rw medium (
      medium_lem (le_value (take 4 (le_bytes 4 len ++ rest))) len
        (first_word len rest (omega (arith, p))) p
      ∙ ap (prefix false len) (sym (length-le_bytes 4 len)))
  | inr compact ↦ rw compact (compact-IsRead len rest p (aligned compact m))
]
  where
    aligned : flags.medium ≡ false → (flags.medium ≡ true) ⊎ (len % 4 ≡ 0) → len % 4 ≡ 0
    aligned e (inl f) = cc
    aligned e (inr z) = z
