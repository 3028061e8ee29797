-- ===== src/Config/Lexer.antt =====
-- The lexer of c-original/common/parse-config.c, and cfg_getlex_ext of
-- c-original/mtproto/mtproto-config.c. The text from `cfg_cur` on is a list of bytes, behind which the
-- lexer sees the terminating zero. The printed messages are left out.
use mtproxy.Prelude.{
  ℕ, suc, ◌+◌, ◌-◌, ◌*◌, ◌^◌, ◌%◌, Bool, true, false, Option, none, some, [], ◌∷◌, ltb, leb, ◌==◌,
  ◌&&◌, ◌||◌, not, if◌then◌else◌, drop,
}
use mtproxy.Prelude.Bytes.{Bytes, codes}

-- cfg_cur, cfg_lno and cfg_lex; the lexeme -1 is `none`.
pub record Lex : Type 0 where
  pub cur : Bytes
  pub lno : ℕ
  pub lex : Option ℕ

-- *cfg_cur
abbrev pub peek : Bytes → ℕ
peek [] = 0
peek (c ∷ cs) = c

-- The loop of cfg_skipspc stops at this byte; the flag tells that it is inside a comment.
unfoldable pub stops_at : Bool → ℕ → Bool
stops_at comment c =
    if comment then c == 0 else not (c == b' ' || c == 9 || c == 13 || c == 10 || c == b'#')

unfoldable pub skip_spaces : Bool → Bytes → ℕ → Bytes × ℕ
skip_spaces comment [] lno = ([], lno)
skip_spaces comment (c ∷ cs) lno =
    let rest =
      skip_spaces (if comment then not (c == 10) else c == b'#') cs
        (if c == 10 then lno + 1 else lno) in
    if stops_at comment c then (c ∷ cs, lno) else rest

unfoldable pub cfg_skipspc : Lex → ℕ × Lex
unfolding skip_spaces stops_at
cfg_skipspc l =
    let (cur, lno) = skip_spaces false l.cur l.lno in (peek cur, record l { cur = cur; lno = lno })

unfoldable pub skip_blanks : Bytes → Bytes
skip_blanks [] = []
skip_blanks (c ∷ cs) = let rest = skip_blanks cs in if c == b' ' || c == 9 then rest else c ∷ cs

unfoldable pub cfg_skspc : Lex → ℕ × Lex
unfolding skip_blanks
cfg_skspc l = let cur = skip_blanks l.cur in (peek cur, record l { cur = cur })

-- memcmp (cfg_cur, word, strlen (word)) is 0
unfoldable pub starts_with : Bytes → Bytes → Bool
starts_with [] text = true
starts_with (w ∷ ws) [] = false
starts_with (w ∷ ws) (c ∷ cs) = w == c && starts_with ws cs

-- cfg_lex = c, with the lexer moved by n bytes
abbrev pub lexeme : Lex → Option ℕ → ℕ → Option ℕ × Lex
lexeme l c n = (c, record l { cur = drop n l.cur; lex = c })

abbrev is_punctuation : ℕ → Bool
is_punctuation c = c == b';' || c == b':' || c == b'{' || c == b'}'

unfoldable pub cfg_getlex : Lex → Option ℕ × Lex
cfg_getlex s =
    let (c, l) = cfg_skipspc s in
    if is_punctuation c
    then lexeme l (some c) 1
    else if c == 0
    then lexeme l (some 0) 0
    else lexeme l none 0

-- The lexeme that begins with the byte c, and its length.
unfoldable pub lexeme_ext : ℕ → Bytes → Option ℕ × ℕ
lexeme_ext c text =
    if is_punctuation c
    then (some c, 1)
    else if c == b'm' && starts_with (codes "min_connections") text
    then (some b'x', 15)
    else if c == b'm' && starts_with (codes "max_connections") text
    then (some b'X', 15)
    else if c == b'p' && starts_with (codes "proxy_for") text
    then (some b'Y', 9)
    else if c == b'p' && starts_with (codes "proxy") text
    then (some b'y', 5)
    else if c == b't' && starts_with (codes "timeout") text
    then (some b't', 7)
    else if c == b'd' && starts_with (codes "default") text
    then (some b'D', 7)
    else if c == 0
    then (some 0, 0)
    else (none, 0)

unfoldable pub cfg_getlex_ext : Lex → Option ℕ × Lex
cfg_getlex_ext s = let (c, l) = cfg_skipspc s in let (d, n) = lexeme_ext c l.cur in lexeme l d n

abbrev is_digit : ℕ → Bool
is_digit c = leb b'0' c && leb c b'9'

is_word : ℕ → Bool
is_word c =
    leb b'a' c && leb c b'z'
    || leb b'A' c && leb c b'Z'
    || is_digit c
    || c == b'.'
    || c == b'-'
    || c == b'_'

-- How many bytes from here on pass the test.
pub count_while : (ℕ → Bool) → Bytes → ℕ
count_while p [] = 0
count_while p (c ∷ cs) = let rest = count_while p cs in if p c then suc rest else 0

-- The length of the word, from the place that cfg_skspc reaches.
unfoldable pub cfg_getword : Lex → ℕ × Lex
unfolding count_while is_word
cfg_getword s =
    let (c, l) = cfg_skspc s in
    if not (c == b'[')
    then (count_while is_word l.cur, l)
    else let n = count_while (λ b. is_word b || b == b':') (drop 1 l.cur) in
      (if peek (drop (1 + n) l.cur) == b']' then 2 + n else 1 + n, l)

-- A char is signed: bytes from 128 on are below the space.
unfoldable pub cfg_getstr : Lex → ℕ × Lex
unfolding count_while
cfg_getstr s =
    let (c, l) = cfg_skspc s in
    (
      if c == b'"' then 1 else count_while (λ b. ltb b' ' b && ltb b 128 && not (b == b';')) l.cur,
      l,
    )

-- x = x * 10 + sgn * (*s - '0') in 64 bits
abbrev pub add_digit : Bool → ℕ → ℕ → ℕ
add_digit negative x c = (x * 10 + (if negative then 2 ^ 64 - (c - b'0') else c - b'0')) % 2 ^ 64

unfoldable pub read_digits : Bool → ℕ → Bytes → ℕ × Bytes
read_digits negative x [] = (x, [])
read_digits negative x (c ∷ cs) =
    let rest = read_digits negative (add_digit negative x c) cs in
    if is_digit c then rest else (x, c ∷ cs)

unfoldable pub cfg_getint : Lex → ℕ × Lex
unfolding read_digits
cfg_getint s =
    let (_, l) = cfg_skspc s in
    let (x, cur) = read_digits false 0 l.cur in (x, record l { cur = cur })

-- The result -1 of no digits is the pattern 2 ^ 64 - 1.
unfoldable pub cfg_getint_zero : Lex → ℕ × Lex
unfolding read_digits
cfg_getint_zero s =
    let (c, l) = cfg_skspc s in
    let (x, cur) = read_digits false 0 l.cur in
    if not (is_digit c) then (2 ^ 64 - 1, l) else (x, record l { cur = cur })

-- The result of no digits is the pattern of -1LL << 63.
unfoldable pub cfg_getint_signed_zero : Lex → ℕ × Lex
unfolding read_digits
cfg_getint_signed_zero s =
    let (c, l) = cfg_skspc s in
    let negative = c == b'-' in
    let text = if negative then drop 1 l.cur else l.cur in
    let (x, cur) = read_digits negative 0 text in
    if not (is_digit (peek text)) then (2 ^ 63, l) else (x, record l { cur = cur })

-- expect_lexem: `true` is 0
abbrev pub is_lexeme : Lex → ℕ → Bool
is_lexeme l c = elim l.lex [ none ↦ false | some d ↦ d == c ]
