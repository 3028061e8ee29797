-- ===== src/Http/Progress.antt =====
-- hts_parse_execute in c-original/net/net-http-server.c comes to the end of every block, and no assertion
-- of it fails.
use mtproxy.Prelude.{
  ℕ, zero, suc, ◌+◌, ◌*◌, ◌<◌, ◌≡◌, refl, true, false, [], ◌∷◌, ◌||◌, length, length-replicate,
  arith, inl, inr, ◌⊎◌, sym, subst,
}
use mtproxy.Prelude.Bytes.{Bytes}
use mtproxy.Prelude.Run.{Run, ok, Returns, returns, Returns-map, Returns-bind, Returns-if}
use mtproxy.Http.{
  ParseState, start, readtospace, readtocolon, readint, skipspc, skiptoeoln, skipspctoeoln, eoln,
  wantlf, wantlastlf, linestart, fatal, done, Hts,
}
use mtproxy.Http.Request.{fresh, parse_case, is_done, at_end, parse_block}
use mtproxy.Http.Shape.{IsParsed}
use mtproxy.Http.Rounds.{rank, IsNext, read_to_space-IsNext}
use mtproxy.Http.Fields.{skip_space-IsNext, skip_trail-IsNext, read_to_colon-IsNext}
use mtproxy.Http.Numbers.{read_int-IsNext}
use mtproxy.Http.Lines.{
  here-IsNext, line_start-IsNext, want_lf_any-IsNext, end_of_line_any-IsNext, skip_to_eoln-IsNext,
  want_last_lf-IsNext,
}

-- The fields are in order with `used` bytes of the query taken; before a query they are not used.
abbrev pub IsReady : ℕ → Hts → Type 0
IsReady used d = (d.parse_state ≡ start) × (used ≡ 0) ⊎ IsParsed used d.parse_state d

pub fresh-IsParsed : (d : Hts) → IsParsed 0 readtospace (fresh d)
fresh-IsParsed d = record {
  shape = inl (omega arith);
  room = length-replicate {A = ℕ} 16 0;
  size = refl;
  in_uri = omega arith;
  in_host = omega arith;
  in_line = omega arith;
  consumed = omega arith;
}

-- A round that started with the fields of a query.
abbrev Goes : ℕ → ℕ → Bytes → Run (Hts × Bytes) → Type 0
Goes used before bs r = Returns (IsNext used before bs) r

begun-Goes :
    (used : ℕ) (d : Hts) (bs : Bytes) (st : ParseState)
    → d.parse_state ≡ st
    → is_done st ≡ false
    → IsParsed used st d
    → Goes used (rank st d.query_words) bs (parse_case st d bs)
unfolding parse_case
begun-Goes used d bs start e f h = absurd h.shape
begun-Goes used d bs readtospace e f h = read_to_space-IsNext used d bs e h
begun-Goes used d bs skipspc e f h = skip_space-IsNext used d bs e h
begun-Goes used d bs skipspctoeoln e f h = skip_trail-IsNext used d bs e h
begun-Goes used d bs readtocolon e f h = returns (read_to_colon-IsNext used d bs e h)
begun-Goes used d bs readint e f h = returns (read_int-IsNext used d bs e h)
begun-Goes used d bs skiptoeoln e f h = returns (skip_to_eoln-IsNext used d bs e h)
begun-Goes used d bs eoln e f h = returns (end_of_line_any-IsNext used d bs e h)
begun-Goes used d bs wantlf e f h = returns (want_lf_any-IsNext used 16 d bs e (omega arith) h)
begun-Goes used d bs linestart e f h = returns (line_start-IsNext used d bs e h)
begun-Goes used d bs wantlastlf e f h = returns (want_last_lf-IsNext used d bs e h)
begun-Goes used d bs fatal e f h = returns (here-IsNext (ground (arith, h)))
begun-Goes used d bs done e f h = cc

start-Goes : (d : Hts) (bs : Bytes) → Goes 0 45 bs (parse_case start d bs)
unfolding parse_case
start-Goes d bs = Returns-map (read_to_space-IsNext 0 (fresh d) bs refl (fresh-IsParsed d)) (λ r n.
    record { front = n.front; split = n.split; parsed = n.parsed; falls = ground (arith, n.falls) })

ready-Goes :
    (used : ℕ) (d : Hts) (bs : Bytes)
    → IsReady used d
    → is_done d.parse_state ≡ false
    → Goes used (rank d.parse_state d.query_words) bs (parse_case d.parse_state d bs)
ready-Goes used d bs (inl (e, u)) f =
    subst (λ n. Goes n (rank d.parse_state d.query_words) bs (parse_case d.parse_state d bs))
      (sym u)
      (subst (λ st. Goes 0 (rank st d.query_words) bs (parse_case st d bs)) (sym e)
        (start-Goes d bs))
ready-Goes used d bs (inr h) f = begun-Goes used d bs d.parse_state refl f h

is_stopped :
    (bs : Bytes) (st : ParseState) → (at_end bs || is_done st) ≡ true → (bs ≡ []) ⊎ (st ≡ done)
is_stopped [] st t = inl refl
is_stopped (b ∷ bs) done t = inr refl
is_stopped (b ∷ bs) _ t = cc

-- What a block leaves: the fields of a query in order, with all it took counted, and the block at its end or
-- the query read.
pub record IsBlock (used : ℕ) (bs : Bytes) (r : Hts × Bytes) : Type 0 where
  pub front : ℕ
  pub split : front + length r.1 ≡ length bs
  pub ready : IsReady (used + front) r.0
  pub stopped : (r.1 ≡ []) ⊎ (r.0.parse_state ≡ done)

-- At the end of the block or of the query.
stopped-IsBlock :
    (used : ℕ) (d : Hts) (bs : Bytes)
    → IsReady used d
    → (at_end bs || is_done d.parse_state) ≡ true
    → IsBlock used bs (d, bs)
stopped-IsBlock used d bs h t = record {
  front = 0;
  split = omega arith;
  ready = subst (λ n. IsReady n d) (omega arith) h;
  stopped = is_stopped bs d.parse_state t;
}

parse_block-nil : (k : ℕ) (d : Hts) (bs : Bytes) → bs ≡ [] → 0 < k → parse_block k d bs ≡ ok (d, bs)
unfolding parse_block
parse_block-nil zero d bs e l = absurd (omega (arith, l))
parse_block-nil (suc k) d [] e l = refl
parse_block-nil (suc k) d (b ∷ bs) e l = cc

after-IsBlock :
    {used : ℕ} {before : ℕ} {bs : Bytes} {r s : Hts × Bytes}
    → (n : IsNext used before bs r) → IsBlock (used + n.front) r.1 s
    → IsBlock used bs s
after-IsBlock {used} {s} n b = record {
  front = n.front + b.front;
  split = ground (arith, n.split, b.split);
  ready = subst (λ x. IsReady x s.0) (omega arith) b.ready;
  stopped = b.stopped;
}

left_IsBlock :
    (used k : ℕ) (d : Hts) (bs : Bytes)
    → bs ≡ []
    → 0 < k
    → IsReady used d
    → Returns (IsBlock used bs) (parse_block k d bs)
left_IsBlock used k d bs e l h =
    subst (Returns (IsBlock used bs)) (sym (parse_block-nil k d bs e l))
      (returns (stopped-IsBlock used d bs h (ground (arith, e))))

-- From a state in which the fields are in order, and with fuel for 40 rounds a byte, the parser ends on any block, and
-- no assertion of it fails: it stops at the block's end or where the query is read, and then every offset and size lies
-- within the header, the header within what was read, and the size of the data is -1 or below 2 ^ 31.
pub parse_block-IsBlock :
    (used fuel : ℕ) (d : Hts) (bs : Bytes)
    → IsReady used d
    → rank d.parse_state d.query_words + 40 * length bs < fuel
    → Returns (IsBlock used bs) (parse_block fuel d bs)
unfolding parse_block
parse_block-IsBlock used zero d bs h l = absurd (omega (arith, l))
parse_block-IsBlock used (suc k) d bs h l =
    Returns-if (at_end bs || is_done d.parse_state) _ _
      (λ t. returns (stopped-IsBlock used d bs h t))
      (λ f. Returns-bind (ready-Goes used d bs h (ground (arith, f))) (λ r n.
        Returns-map
          (elim n.falls [
            | inl e ↦
                left_IsBlock (used + n.front) k r.0 r.1 e (ground (arith, l, f)) (inr n.parsed)
            | inr m ↦
                parse_block-IsBlock (used + n.front) k r.0 r.1 (inr n.parsed)
                  (omega (arith, m, l, n.split))
          ])
          (λ s b. after-IsBlock n b)))
