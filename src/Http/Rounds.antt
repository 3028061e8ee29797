-- ===== src/Http/Rounds.antt =====
-- What one round of hts_parse_execute in c-original/net/net-http-server.c does, for each state.
use mtproxy.Prelude.{
  by_cases, ℕ, ◌+◌, ◌-◌, ◌*◌, ◌<◌, ◌≡◌, refl, ◌∙◌, Bool, true, false, [], ◌∷◌, ltb, ◌==◌, ◌&&◌,
  ◌||◌, not, length, arith, inl, inr, ◌⊎◌, sym, subst,
}
use mtproxy.Prelude.Bytes.{Bytes, codes}
use mtproxy.Prelude.Run.{Returns, returns, Returns-bind, Returns-assert, Returns-if}
use mtproxy.Http.{
  QueryType, error_type, get, head, post, options, http_v09, http_v10, http_v11, ParseState, start,
  readtospace, readtocolon, readint, skipspc, skiptoeoln, skipspctoeoln, eoln, wantlf, wantlastlf,
  linestart, fatal, done, Hts,
}
use mtproxy.Http.Request.{
  word_is, same_text, failed, method, uri, version, value, word_read, word_end, read_to_space,
  above_space,
}
use mtproxy.Http.Shape.{IsParsed, IsKept, read_word-IsKept}

-- How many rounds may follow before a byte is taken.
abbrev pub rank : ParseState → ℕ → ℕ
rank start words = 45
rank readtospace words = 26 + 6 * (3 - words)
rank skipspc words = 27 + 6 * (3 - words)
rank linestart words = 29
rank readtocolon words = 28
rank readint words = 26
rank skipspctoeoln words = 20
rank eoln words = 18
rank wantlf words = 16
rank skiptoeoln words = 10
rank wantlastlf words = 6
rank fatal words = 3
rank done words = 0

-- The state d once the round has read all but `rest`: its words are in order, and it took a byte or came nearer to the end.
pub record IsNext (used : ℕ) (before : ℕ) (bs : Bytes) (r : Hts × Bytes) : Type 0 where
  pub front : ℕ
  pub split : front + length r.1 ≡ length bs
  pub parsed : IsParsed (used + front) r.0.parse_state r.0
  pub falls : (r.1 ≡ []) ⊎ (rank r.0.parse_state r.0.query_words < before + 40 * front)

-- Where the round takes no byte.
abbrev pub Turned : ℕ → ℕ → Hts → Type 0
Turned used before e = IsParsed used e.parse_state e × (rank e.parse_state e.query_words < before)

abbrev Counted : ℕ → ℕ → Hts → Type 0
Counted used before e = Turned used before (record e { header_size = e.header_size + e.wlen })

-- The state at the end of a word.
abbrev next_word : Hts → Hts
next_word s = record s { parse_state = skipspc; query_words = s.query_words + 1 }

method-Counted :
    (used : ℕ) (s : Hts)
    → IsParsed used readtospace s
    → s.query_words ≡ 0
    → Counted used (rank readtospace s.query_words) (method (next_word s))
unfolding method
method-Counted used s h w =
    let P = Counted used (rank readtospace s.query_words) in
    let d = next_word s in
    let named : (t : QueryType) → P (record d { query_type = t; parse_state = skipspc }) =
      λ t. ground (arith, h, w) in
    let refused : P (failed (record d { query_type = error_type; parse_state = skipspc })) =
      ground (arith, h, w) in
    by_cases P (d.wlen == 3 && word_is d (codes "GET")) (named get) (
      by_cases P (d.wlen == 4 && word_is d (codes "HEAD")) (named head) (
        by_cases P (d.wlen == 4 && word_is d (codes "POST")) (named post)
          (by_cases P (d.wlen == 7 && word_is d (codes "OPTIONS")) (named options) refused)))

uri-Counted :
    (used : ℕ) (s : Hts)
    → IsParsed used readtospace s
    → s.query_words ≡ 1
    → Counted used (rank readtospace s.query_words) (uri (next_word s))
unfolding uri
uri-Counted used s h w =
    by_cases (Counted used (rank readtospace s.query_words)) (s.wlen == 0) (ground (arith, h, w))
      (ground (arith, h, w))

version-Counted :
    (used : ℕ) (s : Hts)
    → IsParsed used readtospace s
    → Counted used (rank readtospace s.query_words) (version (next_word s))
unfolding version
version-Counted used s h =
    let P = Counted used (rank readtospace s.query_words) in
    let d = next_word s in
    let spoken : (v : ℕ) → P (record d { http_ver = v; parse_state = skipspctoeoln }) =
      λ v. ground (arith, h) in
    let refused : P (failed d) = ground (arith, h) in
    by_cases P (d.wlen == 0) (spoken http_v09) (
      by_cases P (not (d.wlen == 8)) refused (
        by_cases P (word_is d (codes "HTTP/1.0")) (spoken http_v10)
          (by_cases P (word_is d (codes "HTTP/1.1")) (spoken http_v11) refused)))

abbrev answered : Hts → Hts
answered d = record d { qf_host = false; qf_connection = false; parse_state = skipspctoeoln }

value-Counted :
    (used : ℕ) (s : Hts)
    → IsParsed used readtospace s
    → (s.qf_host || s.qf_connection) ≡ true
    → Returns (Counted used (rank readtospace s.query_words)) (value (next_word s))
unfolding value
value-Counted used s h waits =
    let P : Hts → Type 0 = λ read. Counted used (rank readtospace s.query_words) (answered read) in
    let d = next_word s in
    let host : P (record d { host_offset = d.header_size; host_size = d.wlen }) =
      ground (arith, h) in
    let alive : (b : Bool) → P (record d { qf_keepalive = b }) = λ b. ground (arith, h) in
    let read = by_cases P (d.wlen == 0) (ground (arith, h)) (
      by_cases P d.qf_host host
        (alive ((d.wlen == 10 && same_text d.word (codes "keep-alive")) || d.qf_keepalive))) in
    Returns-assert (d.qf_host || d.qf_connection) waits (returns read)

pub word_read-Turned :
    (used : ℕ) (d : Hts)
    → IsParsed used readtospace d
    → Returns (Turned used (rank readtospace d.query_words)) (word_read d)
unfolding word_read
word_read-Turned used s h =
    let words = s.query_words + 1 in
    Returns-if (words == 1) _ _ (λ one. returns (method-Counted used s h (ground (arith, one))))
      (λ n1.
        Returns-if (words == 2) _ _ (λ two. returns (uri-Counted used s h (ground (arith, two))))
          (λ n2.
            Returns-if (words == 3) _ _ (λ three. returns (version-Counted used s h))
              (λ n3.
                Returns-bind (value-Counted used s h (ground (arith, n1, n2, n3, h.shape)))
                  (λ e c. returns c))))

-- A round that leaves the block as the loop did.
pub Turned-IsNext :
    {used before : ℕ} {st : ParseState} {s d e : Hts} {bs rest : Bytes}
    → (k : IsKept used st s bs (d, rest)) → Turned (used + k.front) before e
    → IsNext used before bs (e, rest)
Turned-IsNext k t = record {
  front = k.front;
  split = k.split;
  parsed = t.0;
  falls = inr (ground (arith, t.1));
}

-- A round that takes the byte at which the loop stands, too.
pub Taken-IsNext :
    {used before : ℕ} {st : ParseState} {s d e : Hts} {bs rest : Bytes} {b : ℕ}
    → (k : IsKept used st s bs (d, b ∷ rest)) → Turned (used + k.front + 1) before e
    → IsNext used before bs (e, rest)
Taken-IsNext {used} {e} {rest} k t = record {
  front = k.front + 1;
  split = ground (arith, k.split);
  parsed = subst (λ n. IsParsed n e.parse_state e) (omega arith) t.0;
  falls = inr (ground (arith, t.1));
}

pub fatal-Turned :
    {used before : ℕ} {st : ParseState} {d : Hts}
    → IsParsed used st d
    → 3 < before
    → Turned used before (record d { parse_state = fatal })
fatal-Turned h p = ground (arith, h, p)

-- The block is at its end.
pub ended-IsNext :
    {used before : ℕ} {st : ParseState} {s d : Hts} {bs : Bytes}
    → s.parse_state ≡ st
    → IsKept used st s bs (d, [])
    → IsNext used before bs (d, [])
ended-IsNext {used} {d} e k = record {
  front = k.front;
  split = k.split;
  parsed = subst (λ x. IsParsed (used + k.front) x d) (sym (k.same_state ∙ e)) k.parsed;
  falls = inl refl;
}

word_end-IsNext :
    (used : ℕ) (s d : Hts) (bs rest : Bytes)
    → s.parse_state ≡ readtospace
    → IsKept used readtospace s bs (d, rest)
    → Returns (IsNext used (rank readtospace s.query_words) bs) (word_end d rest)
unfolding word_end
word_end-IsNext used s d bs [] e k =
    Returns-if (ltb 4096 d.wlen) _ _
      (λ t. returns (Turned-IsNext k (fatal-Turned k.parsed (omega arith))))
      (λ f. returns (ended-IsNext e k))
word_end-IsNext used s d bs (b ∷ rest) e k =
    Returns-if (ltb 4096 d.wlen) _ _
      (λ t. returns (Turned-IsNext k (fatal-Turned k.parsed (omega arith))))
      (λ f. Returns-bind (word_read-Turned (used + k.front) d k.parsed) (λ v t. returns (
        Turned-IsNext k
          (subst (λ w. Turned (used + k.front) (rank readtospace w) v) k.same_words t))))

pub read_to_space-IsNext :
    (used : ℕ) (s : Hts) (bs : Bytes)
    → s.parse_state ≡ readtospace
    → IsParsed used readtospace s
    → Returns (IsNext used (rank readtospace s.query_words) bs) (read_to_space s bs)
unfolding read_to_space
read_to_space-IsNext used s bs e h =
    word_end-IsNext used s _ bs _ e (read_word-IsKept above_space used readtospace s bs tt h)
