-- ===== src/Http/Lines.antt =====
-- The rounds of hts_parse_execute in c-original/net/net-http-server.c at the end and at the start of a
-- line.
use mtproxy.Prelude.{
  by_cases, by_test, ℕ, ◌+◌, ◌<◌, ◌≤◌, ◌≡◌, refl, false, [], ◌∷◌, ltb, leb, ◌==◌, ◌&&◌, not,
  if◌then◌else◌, arith, inl, inr, ◌⊎◌, sym, subst,
}
use mtproxy.Prelude.Bytes.{Bytes}
use mtproxy.Http.{
  ParseState, skiptoeoln, eoln, wantlf, wantlastlf, linestart, Hts, max_http_header_size, http_v09,
}
use mtproxy.Http.Request.{
  line_start, want_lf, end_of_line, in_line, line_end, skip_to_eoln, want_last_lf,
}
use mtproxy.Http.Shape.{IsParsed, IsKept, skip_header-IsKept, skip_header-Stops, Stops}
use mtproxy.Http.Rounds.{IsNext, Turned, Turned-IsNext, fatal-Turned, ended-IsNext}

-- A round at whose start nothing was read.
pub here-IsNext :
    {used before : ℕ} {e : Hts} {bs : Bytes} → Turned used before e → IsNext used before bs (e, bs)
here-IsNext {used} {e} t = record {
  front = 0;
  split = omega arith;
  parsed = subst (λ n. IsParsed n e.parse_state e) (omega arith) t.0;
  falls = inr (ground (arith, t.1));
}

-- A round that took a byte, whatever it did before it.
pub step-IsNext :
    {used before later : ℕ} {b : ℕ} {bs : Bytes} {r : Hts × Bytes}
    → later ≤ before + 40
    → IsNext (used + 1) later bs r
    → IsNext used before (b ∷ bs) r
step-IsNext {used} {r} l k = record {
  front = k.front + 1;
  split = ground (arith, k.split);
  parsed = subst (λ n. IsParsed n r.0.parse_state r.0) (omega arith) k.parsed;
  falls = ground (arith, k.falls, l);
}

-- A round that goes on behind what a loop read.
pub kept-IsNext :
    {used before : ℕ} {st : ParseState} {s d : Hts} {bs rest : Bytes} {r : Hts × Bytes}
    → (k : IsKept used st s bs (d, rest)) → IsNext (used + k.front) before rest r
    → IsNext used before bs r
kept-IsNext {used} {r} k n = record {
  front = k.front + n.front;
  split = ground (arith, k.split, n.split);
  parsed = subst (λ n. IsParsed n r.0.parse_state r.0) (omega arith) n.parsed;
  falls = ground (arith, n.falls);
}

pub empty-IsNext :
    {used before : ℕ} {e : Hts} → IsParsed used e.parse_state e → IsNext used before [] (e, [])
empty-IsNext {used} {e} h = record {
  front = 0;
  split = refl;
  parsed = subst (λ n. IsParsed n e.parse_state e) (omega arith) h;
  falls = inl refl;
}

taken-IsNext :
    {used before : ℕ} {e : Hts} {b : ℕ} {bs : Bytes}
    → Turned (used + 1) before e
    → IsNext used before (b ∷ bs) (e, bs)
taken-IsNext {used} {e} t = record {
  front = 1;
  split = omega arith;
  parsed = t.0;
  falls = inr (ground (arith, t.1));
}

pub line_start-IsNext :
    (used : ℕ) (s : Hts) (bs : Bytes)
    → s.parse_state ≡ linestart
    → IsParsed used linestart s
    → IsNext used 29 bs (line_start s bs)
unfolding line_start
line_start-IsNext used s [] e h = empty-IsNext (subst (λ x. IsParsed used x s) (sym e) h)
line_start-IsNext used s (b ∷ bs) e h =
    let P = IsNext used 29 (b ∷ bs) in
    by_cases P (b == 13) (taken-IsNext (ground (arith, h))) (
      by_cases P (b == 10) (here-IsNext (ground (arith, h)))
        (by_cases P s.qf_error (here-IsNext (ground (arith, h))) (here-IsNext (ground (arith, h)))))

want_lf-IsNext :
    (used before : ℕ) (s : Hts) (b : ℕ) (bs : Bytes)
    → (b ≡ 10) ⊎ (10 < before)
    → 6 < before
    → IsParsed used wantlf s
    → IsNext used before (b ∷ bs) (want_lf s (b ∷ bs))
unfolding want_lf
want_lf-IsNext used before s b bs t l h =
    let P = IsNext used before (b ∷ bs) in
    let words = if ltb (s.query_words + 1) 8 then 8 else s.query_words + 1 in
    let g : IsParsed (used + 1) linestart (record s {
      query_words = words;
      header_size = s.header_size + 1;
      parse_state = linestart;
    }) =
      ground (arith, h) in
    by_cases P (ltb (s.query_words + 1) 8 && s.qf_error) (here-IsNext (ground (arith, h, l))) (
      by_cases P (leb s.http_ver http_v09) (here-IsNext (ground (arith, h, l))) (
        by_test P (not (b == 10)) (λ n. here-IsNext (ground (arith, h, t, n)))
          (λ y. step-IsNext (ground (arith, l)) (line_start-IsNext (used + 1) _ bs refl g))))

want_lf_empty-IsNext :
    (used before : ℕ) (s : Hts)
    → s.parse_state ≡ wantlf
    → IsParsed used wantlf s
    → IsNext used before [] (want_lf s [])
unfolding want_lf
want_lf_empty-IsNext used before s e h = empty-IsNext (subst (λ x. IsParsed used x s) (sym e) h)

pub want_lf_any-IsNext :
    (used before : ℕ) (s : Hts) (bs : Bytes)
    → s.parse_state ≡ wantlf
    → 10 < before
    → IsParsed used wantlf s
    → IsNext used before bs (want_lf s bs)
want_lf_any-IsNext used before s [] e l h = want_lf_empty-IsNext used before s e h
want_lf_any-IsNext used before s (b ∷ bs) e l h =
    want_lf-IsNext used before s b bs (inr l) (ground (arith, l)) h

pub end_of_line-IsNext :
    (used before : ℕ) (s : Hts) (b : ℕ) (bs : Bytes)
    → ((b ≡ 13) ⊎ (b ≡ 10)) ⊎ (10 < before)
    → 6 < before
    → IsParsed used eoln s
    → IsNext used before (b ∷ bs) (end_of_line s (b ∷ bs))
unfolding end_of_line
end_of_line-IsNext used before s b bs t l h =
    let skipped : IsParsed (used + 1) wantlf
        (record s { header_size = s.header_size + 1; parse_state = wantlf }) =
      ground (arith, h) in
    by_test (IsNext used before (b ∷ bs)) (b == 13)
      (λ y.
        step-IsNext (ground (arith, l))
          (want_lf_any-IsNext (used + 1) 16 _ bs refl (omega arith) skipped))
      (λ n.
        want_lf-IsNext used before (record s { parse_state = wantlf }) b bs (ground (arith, t, n)) l
          (ground (arith, h)))

pub end_of_line_any-IsNext :
    (used : ℕ) (s : Hts) (bs : Bytes)
    → s.parse_state ≡ eoln
    → IsParsed used eoln s
    → IsNext used 18 bs (end_of_line s bs)
unfolding end_of_line
end_of_line_any-IsNext used s [] e h = empty-IsNext (subst (λ x. IsParsed used x s) (sym e) h)
end_of_line_any-IsNext used s (b ∷ bs) e h =
    end_of_line-IsNext used 18 s b bs (inr (omega arith)) (omega arith) h

line_end-IsNext :
    (used : ℕ) (s d : Hts) (bs rest : Bytes)
    → s.parse_state ≡ skiptoeoln
    → IsKept used skiptoeoln s bs (d, rest)
    → (leb max_http_header_size d.header_size ≡ false → Stops in_line rest)
    → IsNext used 10 bs (line_end d rest)
unfolding line_end
line_end-IsNext used s d bs [] e k stops =
    by_cases (IsNext used 10 bs) (leb max_http_header_size d.header_size)
      (Turned-IsNext k (fatal-Turned k.parsed (omega arith))) (ended-IsNext e k)
line_end-IsNext used s d bs (b ∷ rest) e k stops =
    by_test (IsNext used 10 bs) (leb max_http_header_size d.header_size)
      (λ t. Turned-IsNext k (fatal-Turned k.parsed (omega arith)))
      (λ f. kept-IsNext k (
        end_of_line-IsNext (used + k.front) 10 (record d { parse_state = eoln }) b rest
          (inl (ground (arith, stops f))) (omega arith) (ground (arith, k.parsed))))

pub skip_to_eoln-IsNext :
    (used : ℕ) (s : Hts) (bs : Bytes)
    → s.parse_state ≡ skiptoeoln
    → IsParsed used skiptoeoln s
    → IsNext used 10 bs (skip_to_eoln s bs)
unfolding skip_to_eoln
skip_to_eoln-IsNext used s bs e h =
    line_end-IsNext used s _ bs _ e (skip_header-IsKept in_line used skiptoeoln s bs refl h)
      (skip_header-Stops in_line s bs)

pub want_last_lf-IsNext :
    (used : ℕ) (s : Hts) (bs : Bytes)
    → s.parse_state ≡ wantlastlf
    → IsParsed used wantlastlf s
    → IsNext used 6 bs (want_last_lf s bs)
unfolding want_last_lf
want_last_lf-IsNext used s [] e h = empty-IsNext (subst (λ x. IsParsed used x s) (sym e) h)
want_last_lf-IsNext used s (b ∷ bs) e h =
    by_cases (IsNext used 6 (b ∷ bs)) (not (b == 10)) (here-IsNext (ground (arith, h)))
      (taken-IsNext (ground (arith, h)))
