-- ===== src/Http/Fields.antt =====
-- The rounds of hts_parse_execute in c-original/net/net-http-server.c that read a field: the blanks, the
-- name, the number.
use mtproxy.Prelude.{
  by_cases, by_test, ℕ, ◌+◌, ◌≤◌, ◌≡◌, refl, Bool, true, false, [], ◌∷◌, ltb, leb, ◌==◌, ◌&&◌, ◌||◌,
  if◌then◌else◌, arith, subst,
}
use mtproxy.Prelude.Bytes.{Bytes, codes}
use mtproxy.Prelude.Int.{ℤ, pos, negsuc}
use mtproxy.Prelude.Run.{Returns, returns, Returns-bind, Returns-assert, Returns-if}
use mtproxy.Http.{
  readtospace, readtocolon, readint, skipspc, skiptoeoln, skipspctoeoln, Hts, max_http_header_size,
}
use mtproxy.Http.Request.{
  same_text, failed, field_value, is_blank, space_end, skip_space, field_name, name_end,
  read_to_colon, in_name,
}
use mtproxy.Http.Shape.{IsParsed, IsKept, read_word-IsKept, skip_header-IsKept}
use mtproxy.Http.Rounds.{
  rank, IsNext, Turned, Turned-IsNext, Taken-IsNext, fatal-Turned, ended-IsNext,
}

-- The value of Content-Length is asked for once.
size-Turned :
    (used : ℕ) (d : Hts)
    → IsParsed used skipspc d
    → (size : ℤ)
    → Turned used (rank skipspc d.query_words) (elim size [
      | pos n ↦ failed d
      | negsuc n ↦
          if n == 0 then record d { parse_state = readint; data_size = pos 0 } else failed d
    ])
size-Turned used d h (pos n) = ground (arith, h)
size-Turned used d h (negsuc n) =
    by_cases (Turned used (rank skipspc d.query_words)) (n == 0) (ground (arith, h))
      (ground (arith, h))

field_value-Turned :
    (used : ℕ) (d : Hts)
    → IsParsed used skipspc d
    → 3 ≤ d.query_words
    → Returns (Turned used (rank skipspc d.query_words)) (field_value d)
unfolding field_value
field_value-Turned used d h w =
    let P = Turned used (rank skipspc d.query_words) in
    let told : P (
        if d.qf_host || d.qf_connection
        then record d { wlen = 0; parse_state = readtospace }
        else record d { parse_state = skiptoeoln }) =
      by_test P (d.qf_host || d.qf_connection) (λ t. ground (arith, h, w, t))
        (λ f. ground (arith, h, w)) in
    Returns-assert (leb 4 d.query_words) (ground (arith, h.shape, w))
      (returns (by_cases P d.qf_datasize (size-Turned used d h d.data_size) told))

space_end-IsNext :
    (used : ℕ) (s d : Hts) (bs rest : Bytes)
    → s.parse_state ≡ skipspc
    → IsKept used skipspc s bs (d, rest)
    → Returns (IsNext used (rank skipspc s.query_words) bs) (space_end false d rest)
unfolding space_end
space_end-IsNext used s d bs [] e k =
    Returns-if (leb max_http_header_size d.header_size) _ _
      (λ t. returns (Turned-IsNext k (fatal-Turned k.parsed (omega arith))))
      (λ f. returns (ended-IsNext e k))
space_end-IsNext used s d bs (b ∷ rest) e k =
    let P = Turned (used + k.front) (rank skipspc s.query_words) in
    Returns-if (leb max_http_header_size d.header_size) _ _
      (λ t. returns (Turned-IsNext k (fatal-Turned k.parsed (omega arith))))
      (λ f.
        Returns-if (ltb d.query_words 3) _ _
          (λ t. returns (Turned-IsNext k (ground (arith, k.parsed, k.same_words, t))))
          (λ f.
            Returns-bind (field_value-Turned (used + k.front) d k.parsed (ground (arith, f)))
              (λ v t. returns (
                Turned-IsNext k
                  (subst (λ w. Turned (used + k.front) (rank skipspc w) v) k.same_words t)))))

-- Likewise before the end of the line.
trail_end-IsNext :
    (used : ℕ) (s d : Hts) (bs rest : Bytes)
    → s.parse_state ≡ skipspctoeoln
    → IsKept used skipspctoeoln s bs (d, rest)
    → Returns (IsNext used 20 bs) (space_end true d rest)
unfolding space_end
trail_end-IsNext used s d bs [] e k =
    Returns-if (leb max_http_header_size d.header_size) _ _
      (λ t. returns (Turned-IsNext k (fatal-Turned k.parsed (omega arith))))
      (λ f. returns (ended-IsNext e k))
trail_end-IsNext used s d bs (b ∷ rest) e k =
    Returns-if (leb max_http_header_size d.header_size) _ _
      (λ t. returns (Turned-IsNext k (fatal-Turned k.parsed (omega arith))))
      (λ f. returns (Turned-IsNext k (ground (arith, k.parsed))))

pub skip_space-IsNext :
    (used : ℕ) (s : Hts) (bs : Bytes)
    → s.parse_state ≡ skipspc
    → IsParsed used skipspc s
    → Returns (IsNext used (rank skipspc s.query_words) bs) (skip_space false s bs)
unfolding skip_space
skip_space-IsNext used s bs e h =
    space_end-IsNext used s _ bs _ e (skip_header-IsKept (is_blank s) used skipspc s bs refl h)

pub skip_trail-IsNext :
    (used : ℕ) (s : Hts) (bs : Bytes)
    → s.parse_state ≡ skipspctoeoln
    → IsParsed used skipspctoeoln s
    → Returns (IsNext used 20 bs) (skip_space true s bs)
unfolding skip_space
skip_trail-IsNext used s bs e h =
    trail_end-IsNext used s _ bs _ e
      (skip_header-IsKept (is_blank s) used skipspctoeoln s bs refl h)

-- The colon is taken with the name.
field_name-Turned :
    (used : ℕ) (d : Hts) → IsParsed used readtocolon d → Turned (used + 1) 28 (field_name d)
unfolding field_name
field_name-Turned used d h =
    let P : Hts → Type 0 = λ named.
      Turned (used + 1) 28
        (record named { header_size = d.header_size + (d.wlen + 1); parse_state = skipspc }) in
    let named : (x y z : Bool) → P (record d { qf_host = x; qf_connection = y; qf_datasize = z }) =
      λ x y z. ground (arith, h) in
    by_cases P (d.wlen == 4 && same_text d.word (codes "host"))
      (named true d.qf_connection d.qf_datasize)
      (by_cases P (d.wlen == 10 && same_text d.word (codes "connection"))
        (named d.qf_host true d.qf_datasize)
        (by_cases P (d.wlen == 14 && same_text d.word (codes "content-length"))
          (named d.qf_host d.qf_connection true) (named false false false)))

name_end-IsNext :
    (used : ℕ) (s d : Hts) (bs rest : Bytes)
    → s.parse_state ≡ readtocolon
    → IsKept used readtocolon s bs (d, rest)
    → IsNext used 28 bs (name_end d rest)
unfolding name_end
name_end-IsNext used s d bs [] e k =
    by_cases (IsNext used 28 bs) (ltb 4096 d.wlen)
      (Turned-IsNext k (fatal-Turned k.parsed (omega arith))) (ended-IsNext e k)
name_end-IsNext used s d bs (b ∷ rest) e k =
    by_cases (IsNext used 28 bs) (ltb 4096 d.wlen)
      (Turned-IsNext k (fatal-Turned k.parsed (omega arith)))
      (by_cases (IsNext used 28 bs) (b == b':')
        (Taken-IsNext k (field_name-Turned (used + k.front) d k.parsed))
        (Turned-IsNext k (ground (arith, k.parsed))))

pub read_to_colon-IsNext :
    (used : ℕ) (s : Hts) (bs : Bytes)
    → s.parse_state ≡ readtocolon
    → IsParsed used readtocolon s
    → IsNext used 28 bs (read_to_colon s bs)
unfolding read_to_colon
read_to_colon-IsNext used s bs e h =
    name_end-IsNext used s _ bs _ e (read_word-IsKept in_name used readtocolon s bs tt h)
