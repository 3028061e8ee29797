-- ===== src/Config/Progress.antt =====
-- The lexer of c-original/common/parse-config.c only moves forward, so that parse_config of
-- c-original/mtproto/mtproto-config.c ends.
use mtproxy.Prelude.{
  ℕ, zero, suc, ◌+◌, ◌^◌, ◌%◌, ◌<◌, ◌≤◌, ◌≡◌, ◌≢◌, refl, ◌∙◌, Bool, true, false, Option, none, some,
  [], ◌∷◌, ◌==◌, not, if◌then◌else◌, drop, length, length-drop, arith, >>=-eq-some, verify-eq-some,
  Bool-cases, inl, inr, Option-cases, some-eq, ap, sym,
}
use mtproxy.Prelude.Bytes.{Bytes}
use mtproxy.Prelude.Run.{ok, Returns, returns}
use mtproxy.Config.{Host}
use mtproxy.Config.Lexer.{
  Lex, peek, skip_spaces, skip_blanks, read_digits, add_digit, cfg_skipspc, cfg_skspc,
  cfg_getlex_ext, cfg_getword, cfg_getint, cfg_getint_signed_zero, lexeme_ext,
}
use mtproxy.Config.Parse.{
  is_internet, Parser, expect, cfg_gethost, read_host_port, cfg_parse_server_port, proxy_directive,
  timeout_directive, target_directive, max_directive, min_directive, directive, statement,
  parse_round, Round, finished, again, failed, parse_loop,
}

-- How many bytes are left.
abbrev pub left : Lex → ℕ
left l = length l.cur

skip_spaces-le :
    (comment : Bool) (text : Bytes) (lno : ℕ)
    → length (skip_spaces comment text lno).0 ≤ length text
unfolding skip_spaces
skip_spaces-le comment [] lno = omega arith
skip_spaces-le comment (c ∷ cs) lno = ground (
  arith,
  skip_spaces-le (if comment then not (c == 10) else c == b'#') cs
      (if c == 10 then lno + 1 else lno),
)

skip_blanks-le : (text : Bytes) → length (skip_blanks text) ≤ length text
unfolding skip_blanks
skip_blanks-le [] = omega arith
skip_blanks-le (c ∷ cs) = ground (arith, skip_blanks-le cs)

read_digits-le :
    (negative : Bool) (x : ℕ) (text : Bytes) → length (read_digits negative x text).1 ≤ length text
unfolding read_digits
read_digits-le negative x [] = omega arith
read_digits-le negative x (c ∷ cs) =
    ground (arith, read_digits-le negative (add_digit negative x c) cs)

cfg_skipspc-le :
    (l : Lex) → (left (cfg_skipspc l).1 ≤ left l) × ((cfg_skipspc l).0 ≡ peek (cfg_skipspc l).1.cur)
unfolding cfg_skipspc
cfg_skipspc-le l = (skip_spaces-le false l.cur l.lno, refl)

cfg_skspc-le : (l : Lex) → left (cfg_skspc l).1 ≤ left l
unfolding cfg_skspc
cfg_skspc-le l = skip_blanks-le l.cur

cfg_getword-le : (l : Lex) → left (cfg_getword l).1 ≤ left l
unfolding cfg_getword
cfg_getword-le l = ground (arith, cfg_skspc-le l)

cfg_getint-le : (l : Lex) → left (cfg_getint l).1 ≤ left l
unfolding cfg_getint
cfg_getint-le l = omega (arith, cfg_skspc-le l, read_digits-le false 0 (cfg_skspc l).1.cur)

cfg_getint_signed_zero-le : (l : Lex) → left (cfg_getint_signed_zero l).1 ≤ left l
unfolding cfg_getint_signed_zero
cfg_getint_signed_zero-le l =
    let m = (cfg_skspc l).1 in
    ground (
      arith,
      cfg_skspc-le l,
      length-drop 1 m.cur,
      read_digits-le true 0 (drop 1 m.cur),
      read_digits-le false 0 m.cur,
    )

length-peek : (text : Bytes) → peek text ≢ 0 → 1 ≤ length text
length-peek [] h = absurd (h refl)
length-peek (c ∷ cs) h = omega arith

-- Every lexeme but the end of the text is at least a byte long.
lexeme_ext-lt :
    (c d : ℕ) (text : Bytes)
    → (lexeme_ext c text).0 ≡ some d
    → d ≢ 0
    → (c ≢ 0) × (1 ≤ (lexeme_ext c text).1)
unfolding lexeme_ext
lexeme_ext-lt c d text e n = ground arith

cfg_getlex_ext-le : (l : Lex) → left (cfg_getlex_ext l).1 ≤ left l
unfolding cfg_getlex_ext
cfg_getlex_ext-le l =
    let (c, m) = cfg_skipspc l in
    omega (arith, cfg_skipspc-le l, length-drop (lexeme_ext c m.cur).1 m.cur)

cfg_getlex_ext-lt :
    (l : Lex) (d : ℕ) → (cfg_getlex_ext l).0 ≡ some d → d ≢ 0 → left (cfg_getlex_ext l).1 < left l
unfolding cfg_getlex_ext
cfg_getlex_ext-lt l d e n =
    let (c, m) = cfg_skipspc l in
    let (some_byte, long) = lexeme_ext-lt c d m.cur e n in
    let (less, at) = cfg_skipspc-le l in
    let full = length-peek m.cur (λ z. some_byte (at ∙ z)) in
    omega (arith, length-drop (lexeme_ext c m.cur).1 m.cur)

expect-le : (l m : Lex) (c : ℕ) → expect l c ≡ some m → left m ≤ left l
unfolding expect
expect-le l m c e = ground (arith, cfg_getlex_ext-le l)

-- The parser of a directive only moves the lexer forward.
abbrev Forward : Parser → Option Parser → Type 0
Forward p none = Unit {0}
Forward p (some q) = left q.lexer ≤ left p.lexer

timeout_directive-Forward : (p : Parser) → Forward p (timeout_directive p)
unfolding timeout_directive
timeout_directive-Forward p = ground (arith, cfg_getint-le p.lexer)

max_directive-Forward : (p : Parser) → Forward p (max_directive p)
unfolding max_directive
max_directive-Forward p = ground (arith, cfg_getint-le p.lexer)

min_directive-Forward : (p : Parser) → Forward p (min_directive p)
unfolding min_directive
min_directive-Forward p = ground (arith, cfg_getint-le p.lexer)

module _ (resolve : Bytes → Bytes → Option Host) where
  cfg_gethost-le : (l : Lex) (r : Host × Lex) → cfg_gethost resolve l ≡ some r → left r.1 ≤ left l
  unfolding cfg_gethost
  cfg_gethost-le l r e =
      let (n, m) = cfg_getword l in ground (arith, cfg_getword-le l, length-drop n m.cur)

  read_host_port-le :
      (l : Lex) (r : Host × ℕ × Lex) → read_host_port resolve l ≡ some r → left r.2 ≤ left l
  unfolding read_host_port
  read_host_port-le l r e =
      let ((h, k), got, e1) = >>=-eq-some (cfg_gethost resolve l) _ e in
      let (_, e2) = verify-eq-some (is_internet h) _ e1 in
      let (m, colon, e3) = >>=-eq-some (expect k b':') _ e2 in
      let (_, e4) = verify-eq-some _ _ e3 in
      let (_, e5) = verify-eq-some _ _ e4 in
      let last : left r.2 ≡ left (cfg_getint m).1 =
        ap (λ (x : Host × ℕ × Lex). left x.2) (sym (some-eq e5)) in
      omega (arith, cfg_gethost-le l (h, k) got, expect-le k m b':' colon, cfg_getint-le m)

  proxy_directive-Forward :
      (create : Bool) (target_dc : ℕ) (p : Parser)
      → Forward p (proxy_directive resolve create target_dc p)
  unfolding proxy_directive cfg_parse_server_port
  proxy_directive-Forward create target_dc p =
      elim (Option-cases (read_host_port resolve p.lexer)) [
        | inl bad ↦ ground arith
        | inr (r, got) ↦ ground (arith, read_host_port-le p.lexer r got)
      ]

  target_directive-Forward :
      (create is_default : Bool) (p : Parser)
      → Forward p (target_directive resolve create is_default p)
  unfolding target_directive
  target_directive-Forward create is_default p =
      let (dc, l) = cfg_getint_signed_zero p.lexer in
      ground (
        arith,
        cfg_getint_signed_zero-le p.lexer,
        cfg_skspc-le l,
        proxy_directive-Forward create (dc % 2 ^ 32) (record p { lexer = (cfg_skspc l).1 }),
      )

  directive-Forward :
      (create : Bool) (t : ℕ) (p : Parser) → Forward p (directive resolve create t p)
  unfolding directive
  directive-Forward create t p = ground (
    arith,
    timeout_directive-Forward p,
    max_directive-Forward p,
    min_directive-Forward p,
    proxy_directive-Forward create 0 p,
    target_directive-Forward create (t == b'D') p,
  )

  -- A round that goes on has moved the lexer.
  abbrev Moves : ℕ → Round → Type 0
  Moves n (finished q) = Unit {0}
  Moves n (again q) = left q.lexer < n
  Moves n failed = Unit {0}

  statement-Moves :
      (create : Bool) (t : ℕ) (p : Parser) → Moves (left p.lexer + 1) (statement resolve create t p)
  unfolding statement
  statement-Moves create t p = elim (Option-cases (directive resolve create t p)) [
    | inl bad ↦ ground arith
    | inr (q, done) ↦
        let moved : Forward p (some q) = rw done at (directive-Forward create t p) in
        elim (Option-cases (expect q.lexer b';')) [
          | inl bad ↦ ground arith
          | inr (l, found) ↦ ground (arith, moved, expect-le q.lexer l b';' found)
        ]
  ]

  Moves-le : (m n : ℕ) (r : Round) → m ≤ n → Moves m r → Moves n r
  Moves-le m n (finished q) h x = tt
  Moves-le m n failed h x = tt
  Moves-le m n (again q) h x = omega arith

  parse_round-Moves :
      (create : Bool) (p : Parser) → Moves (left p.lexer) (parse_round resolve create p)
  unfolding parse_round
  parse_round-Moves create p =
      let l = (cfg_skipspc p.lexer).1 in
      let (less, _) = cfg_skipspc-le p.lexer in
      elim (Option-cases (cfg_getlex_ext l).0) [
        | inl bad ↦ ground arith
        | inr (d, e) ↦
            let q = record p { lexer = (cfg_getlex_ext l).1 } in
            elim (Bool-cases (d == 0)) [
              | inl end ↦ ground arith
              | inr word ↦
                  let shorter = cfg_getlex_ext-lt l d e (ground arith) in
                  let moves =
                    Moves-le (left q.lexer + 1) (left p.lexer) _ (omega arith)
                      (statement-Moves create d q) in
                  ground (arith, moves)
            ]
      ]

  -- With more fuel than there are bytes the loop ends.
  pub parse_loop-Returns :
      (fuel : ℕ) (create : Bool) (p : Parser)
      → left p.lexer < fuel
      → Returns (λ r. Unit {0}) (parse_loop resolve fuel create p)
  unfolding parse_loop
  parse_loop-Returns zero create p h = absurd (omega arith)
  parse_loop-Returns (suc k) create p h =
      next (parse_round resolve create p) (parse_round-Moves create p) (parse_loop-Returns k create)
    where
      next :
          (r : Round)
          → Moves (left p.lexer) r
          → ((q : Parser)
              → left q.lexer < k
              → Returns (λ x. Unit {0}) (parse_loop resolve k create q))
          → Returns
              (λ x. Unit {0})
              (elim r [
                | finished q ↦ ok (some q)
                | failed ↦ ok none
                | again q ↦ parse_loop resolve k create q
              ])
      next (finished q) m ih = returns tt
      next failed m ih = returns tt
      next (again q) m ih = ih q (omega arith)
