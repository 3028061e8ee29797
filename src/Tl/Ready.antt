-- ===== src/Tl/Ready.antt =====
-- A reader that has bytes to read, and what the readers of c-original/common/tl-parse.h then give.
use mtproxy.Prelude.{
  ℕ, ◌+◌, ◌-◌, ◌^◌, ◌%◌, ◌<◌, ◌≤◌, ◌≡◌, ◌∙◌, ap, none, ◌++◌, length, take, drop, true, false, arith,
}
use mtproxy.Prelude.Int.{pos}
use mtproxy.Prelude.Bytes.{
  Bytes, le_bytes, le_value, length-le_bytes, le_value-le_bytes, take-append, drop-append,
  drop-drop,
}
use mtproxy.Tl.{InState, is_none_type, check, advance}
use mtproxy.Tl.Fetch.{raw_bytes, lookup_int, fetch_int, fetch_long}

-- A reader without an error that holds at least n bytes, at a position p modulo 4.
pub record IsReady (s : InState) (p n : ℕ) : Type 0 where
  pub typed : is_none_type s.in_type ≡ false
  pub clean : s.error ≡ none
  pub aligned : s.in_pos % 4 ≡ p
  pub holds : n ≤ s.in_remaining

pub check-IsReady : (s : InState) (p n m : ℕ) → IsReady s p n → m ≤ n → check s (pos m) ≡ (true, s)
unfolding check
check-IsReady s p n m r h = ground arith

pub advance-advance : (s : InState) (m n : ℕ) → advance (advance s m) n ≡ advance s (m + n)
unfolding advance
advance-advance s m n = ground (arith, drop-drop m n s.input)

-- The reader meets these bytes next.
pub raw_bytes-append :
    (s : InState) (a rest : Bytes)
    → s.input ≡ a ++ rest
    → raw_bytes s (length a) ≡ (a, advance s (length a))
unfolding raw_bytes
raw_bytes-append s a rest h =
    ap (λ (x : Bytes). (x, advance s (length a))) (ap (take (length a)) h ∙ take-append a rest)

pub input-advance :
    (s : InState) (a rest : Bytes) → s.input ≡ a ++ rest → (advance s (length a)).input ≡ rest
unfolding advance
input-advance s a rest h = ap (drop (length a)) h ∙ drop-append a rest

pub IsReady-advance :
    (s : InState) (p m k : ℕ) → IsReady s p m → k ≤ m → IsReady (advance s k) ((p + k) % 4) (m - k)
unfolding advance
IsReady-advance s p m k r h = record {
  typed = r.typed;
  clean = r.clean;
  aligned = omega (arith, r);
  holds = omega (arith, r);
}

-- An integer that is next is read.
fetched :
    (s : InState) (n x : ℕ) (rest : Bytes)
    → x < 256 ^ n
    → s.input ≡ le_bytes n x ++ rest
    → (le_value (raw_bytes s n).0 ≡ x)
      × ((raw_bytes s n).1 ≡ advance s n)
      × ((advance s n).input ≡ rest)
fetched s n x rest h e =
    let read : raw_bytes s n ≡ (le_bytes n x, advance s n) =
      rw (length-le_bytes n x) at (raw_bytes-append s (le_bytes n x) rest e) in
    let next : (advance s n).input ≡ rest =
      rw (length-le_bytes n x) at (input-advance s (le_bytes n x) rest e) in
    (
      ap (λ (r : Bytes × InState). le_value r.0) read ∙ le_value-le_bytes n x h,
      ap (λ (r : Bytes × InState). r.1) read,
      next,
    )

module _ (s : InState) (p m x : ℕ) (rest : Bytes) (r : IsReady s p m) where
  pub fetch_int-le_bytes :
      4 ≤ m → x < 2 ^ 32 → s.input ≡ le_bytes 4 x ++ rest → fetch_int s ≡ (x, advance s 4)
  unfolding fetch_int
  fetch_int-le_bytes h l e = ground (arith, check-IsReady s p m 4 r h, fetched s 4 x rest l e)

  pub fetch_long-le_bytes :
      8 ≤ m → x < 2 ^ 64 → s.input ≡ le_bytes 8 x ++ rest → fetch_long s ≡ (x, advance s 8)
  unfolding fetch_long
  fetch_long-le_bytes h l e = ground (arith, check-IsReady s p m 8 r h, fetched s 8 x rest l e)

  pub lookup_int-le_bytes :
      4 ≤ m → x < 2 ^ 32 → s.input ≡ le_bytes 4 x ++ rest → lookup_int s ≡ (x, s)
  unfolding lookup_int raw_bytes
  lookup_int-le_bytes h l e = ground (arith, check-IsReady s p m 4 r h, fetched s 4 x rest l e)

  pub input-advance-le_bytes :
      (n : ℕ) → x < 256 ^ n → s.input ≡ le_bytes n x ++ rest → (advance s n).input ≡ rest
  input-advance-le_bytes n l e = (fetched s n x rest l e).2
