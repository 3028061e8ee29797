-- ===== src/Http/Shape.antt =====
-- What the fields of struct hts_data hold between two rounds of hts_parse_execute in
-- c-original/net/net-http-server.c.
use mtproxy.Prelude.{
  ℕ, ◌+◌, ◌^◌, ◌<◌, ◌≤◌, ◌≡◌, refl, ◌∙◌, Bool, true, false, [], ◌∷◌, ltb, leb, ◌&&◌, ◌||◌,
  if◌then◌else◌, length, length-set, arith, ◌⊎◌, subst,
}
use mtproxy.Prelude.Bytes.{Bytes}
use mtproxy.Prelude.Int.{ℤ, pos, negsuc}
use mtproxy.Http.{
  ParseState, start, readtospace, readtocolon, readint, skipspc, linestart, Hts,
  max_http_header_size,
}
use mtproxy.Http.Request.{push_char, read_word, skip_header}

-- What a state says of the number of words, and of the fields that wait for a value.
abbrev pub Shape : ParseState → ℕ → Bool → ℤ → Type 0
Shape readtospace words waits size = (words < 3) ⊎ ((8 ≤ words) × (waits ≡ true))
Shape skipspc words waits size = ((0 < words) × (words < 3)) ⊎ (8 ≤ words)
Shape readtocolon words waits size = 8 ≤ words
Shape linestart words waits size = 8 ≤ words
Shape readint words waits (pos n) = Unit {0}
Shape readint words waits (negsuc n) = ⊥
Shape start words waits size = ⊥
Shape _ words waits size = Unit {0}

-- -1, or the size that a query announces.
abbrev pub IsSize : ℤ → Type 0
IsSize (pos n) = n < 2 ^ 31
IsSize (negsuc n) = n ≡ 0

-- The bytes of a word that header_size does not count yet.
abbrev pub pending : ParseState → ℕ → ℕ
pending readtospace wlen = wlen
pending readtocolon wlen = wlen
pending _ wlen = 0

-- The state st with `used` bytes behind it.
pub record IsParsed (used : ℕ) (st : ParseState) (d : Hts) : Type 0 where
  pub shape : Shape st d.query_words (d.qf_host || d.qf_connection) d.data_size
  pub room : length d.word ≡ 16
  pub size : IsSize d.data_size
  pub in_uri : d.uri_offset + d.uri_size ≤ d.header_size
  pub in_host : d.host_offset + d.host_size ≤ d.header_size
  pub in_line : d.first_line_size ≤ d.header_size
  pub consumed : d.header_size + pending st d.wlen ≤ used

-- What a loop over the block bs leaves: all but the rest is behind it.
pub record IsKept (used : ℕ) (st : ParseState) (d : Hts) (bs : Bytes) (r : Hts × Bytes)
    : Type 0 where
  pub front : ℕ
  pub split : front + length r.1 ≡ length bs
  pub parsed : IsParsed (used + front) st r.0
  pub same_state : r.0.parse_state ≡ d.parse_state
  pub same_words : r.0.query_words ≡ d.query_words

-- The states whose loop reads a word.
abbrev pub Reads : ParseState → Type 0
Reads readtospace = Unit {0}
Reads readtocolon = Unit {0}
Reads _ = ⊥

push_char-IsParsed :
    (used : ℕ) (st : ParseState) (d : Hts) (b : ℕ)
    → Reads st
    → IsParsed used st d
    → IsParsed (used + 1) st (push_char d b)
push_char-IsParsed used readtospace d b r h = ground (arith, length-set d.word d.wlen b)
push_char-IsParsed used readtocolon d b r h = ground (arith, length-set d.word d.wlen b)
push_char-IsParsed used _ d b r h = absurd r

-- One byte more in front.
IsKept-step :
    {used : ℕ} {st : ParseState} {d e : Hts} {b : ℕ} {bs : Bytes} {r : Hts × Bytes}
    → e.parse_state ≡ d.parse_state
    → e.query_words ≡ d.query_words
    → IsKept (used + 1) st e bs r
    → IsKept used st d (b ∷ bs) r
IsKept-step {used} {st} {r} p q k = record {
  front = 1 + k.front;
  split = ground (arith, k.split);
  parsed = subst (λ n. IsParsed n st r.0) (omega arith) k.parsed;
  same_state = k.same_state ∙ p;
  same_words = k.same_words ∙ q;
}

IsKept-stop :
    {used : ℕ} {st : ParseState} {d : Hts} {bs : Bytes}
    → IsParsed used st d
    → IsKept used st d bs (d, bs)
IsKept-stop {used} {st} {d} h = record {
  front = 0;
  split = omega arith;
  parsed = subst (λ n. IsParsed n st d) (omega arith) h;
  same_state = refl;
  same_words = refl;
}

IsKept-if :
    {used : ℕ} {st : ParseState} {d : Hts} {bs : Bytes} {r s : Hts × Bytes} (test : Bool)
    → IsKept used st d bs r
    → IsKept used st d bs s
    → IsKept used st d bs (if test then r else s)
IsKept-if true k l = k
IsKept-if false k l = l

pub read_word-IsKept :
    (goes_on : ℕ → Bool) (used : ℕ) (st : ParseState) (d : Hts) (bs : Bytes)
    → Reads st
    → IsParsed used st d
    → IsKept used st d bs (read_word goes_on d bs)
unfolding read_word
read_word-IsKept goes_on used st d [] r h = IsKept-stop h
read_word-IsKept goes_on used st d (b ∷ bs) r h =
    let k =
      read_word-IsKept goes_on (used + 1) st (push_char d b) bs r
        (push_char-IsParsed used st d b r h) in
    IsKept-if (goes_on b) (IsKept-step refl refl k) (IsKept-stop h)

skip_header-IsParsed :
    (used : ℕ) (st : ParseState) (d : Hts)
    → pending st d.wlen ≡ 0
    → IsParsed used st d
    → IsParsed (used + 1) st (record d { header_size = d.header_size + 1 })
skip_header-IsParsed used st d p h = ground (arith, p, h)

pub skip_header-IsKept :
    (goes_on : ℕ → Bool) (used : ℕ) (st : ParseState) (d : Hts) (bs : Bytes)
    → pending st d.wlen ≡ 0
    → IsParsed used st d
    → IsKept used st d bs (skip_header goes_on d bs)
unfolding skip_header
skip_header-IsKept goes_on used st d [] p h = IsKept-stop h
skip_header-IsKept goes_on used st d (b ∷ bs) p h =
    let e : Hts = record d { header_size = d.header_size + 1 } in
    let k = skip_header-IsKept goes_on (used + 1) st e bs p (skip_header-IsParsed used st d p h) in
    IsKept-if (ltb d.header_size max_http_header_size && goes_on b) (IsKept-step refl refl k)
      (IsKept-stop h)

-- Where such a loop stands, unless the header is too large: at the end, or before a byte it stops at.
abbrev pub Stops : (ℕ → Bool) → Bytes → Type 0
Stops goes_on [] = Unit {0}
Stops goes_on (b ∷ bs) = goes_on b ≡ false

Stops-if :
    (goes_on : ℕ → Bool) (test : Bool) (r s : Hts × Bytes)
    → (test ≡ true → leb max_http_header_size r.0.header_size ≡ false → Stops goes_on r.1)
    → (test ≡ false → leb max_http_header_size s.0.header_size ≡ false → Stops goes_on s.1)
    → leb max_http_header_size (if test then r else s).0.header_size ≡ false
    → Stops goes_on (if test then r else s).1
Stops-if goes_on true r s p q small = p refl small
Stops-if goes_on false r s p q small = q refl small

pub skip_header-Stops :
    (goes_on : ℕ → Bool) (d : Hts) (bs : Bytes)
    → leb max_http_header_size (skip_header goes_on d bs).0.header_size ≡ false
    → Stops goes_on (skip_header goes_on d bs).1
unfolding skip_header
skip_header-Stops goes_on d [] small = tt
skip_header-Stops goes_on d (b ∷ bs) small =
    let e : Hts = record d { header_size = d.header_size + 1 } in
    Stops-if goes_on (ltb d.header_size max_http_header_size && goes_on b)
      (skip_header goes_on e bs) (d, b ∷ bs) (λ t. skip_header-Stops goes_on e bs)
      (λ f l. ground (arith, f, l)) small
