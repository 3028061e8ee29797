-- ===== src/Http/HeaderLines.antt =====
-- The headers of a request as lines: what get_http_header of c-original/net/net-http-server.c looks for in
-- them, and how its pointers stand to them.
use mtproxy.Prelude.{
  ℕ, ◌≤◌, ◌≡◌, refl, Bool, List, [], ◌∷◌, Option, none, some, ◌==◌, not, if◌then◌else◌, length,
  arith,
}
use mtproxy.Prelude.Bytes.{Bytes}
use mtproxy.Http.Header.{
  skip_while, pass_while, in_key, in_text, before_newline, is_tab_or_space, cut_blanks, is_named,
}

-- The lines of a text, without the newlines between them.
abbrev onto_first : ℕ → List Bytes → List Bytes
onto_first c [] = (c ∷ []) ∷ []
onto_first c (l ∷ ls) = (c ∷ l) ∷ ls

unfoldable pub lines : Bytes → List Bytes
lines [] = [] ∷ []
lines (c ∷ cs) = let rest = lines cs in if c == 10 then [] ∷ rest else onto_first c rest

abbrev pub before_colon : ℕ → Bool
before_colon c = not (c == 58)

abbrev pub before_return : ℕ → Bool
before_return c = not (c == 13)

-- What a line says of a name: the text behind its first colon, where what stands before it is the name.
abbrev pub behind_colon : Bytes → Bytes → Bytes → Option Bytes
behind_colon name key [] = none
behind_colon name key (c ∷ cs) =
    if is_named name key
    then some (cut_blanks (pass_while before_return (skip_while is_tab_or_space cs)))
    else none

abbrev pub line_value : Bytes → Bytes → Option Bytes
line_value name line =
    behind_colon name (pass_while before_colon line) (skip_while before_colon line)

abbrev pub first_of : Option Bytes → Option Bytes → Option Bytes
first_of none rest = rest
first_of (some v) rest = some v

-- The first line that says something of it.
unfoldable pub field_of : Bytes → List Bytes → Option Bytes
field_of name [] = none
field_of name (l ∷ ls) = first_of (line_value name l) (field_of name ls)

abbrev pub lines_left : Bytes → List Bytes
lines_left [] = []
lines_left (c ∷ cs) = lines cs

pub lines_split :
    (text : Bytes)
    → lines text ≡ pass_while before_newline text ∷ lines_left (skip_while before_newline text)
unfolding lines skip_while pass_while
lines_split [] = refl
lines_split (c ∷ cs) = let rest = lines_split cs in ground (arith, rest)

-- The name ends in the line.
pub key_same :
    (text : Bytes)
    → pass_while in_key text ≡ pass_while before_colon (pass_while before_newline text)
unfolding pass_while
key_same [] = refl
key_same (c ∷ cs) = let rest = key_same cs in ground (arith, rest)

pub key_rest :
    (text : Bytes)
    → pass_while before_newline (skip_while in_key text)
      ≡ skip_while before_colon (pass_while before_newline text)
unfolding pass_while skip_while
key_rest [] = refl
key_rest (c ∷ cs) = let rest = key_rest cs in ground (arith, rest)

pub key_over :
    (text : Bytes)
    → skip_while before_newline (skip_while in_key text) ≡ skip_while before_newline text
unfolding skip_while
key_over [] = refl
key_over (c ∷ cs) = let rest = key_over cs in ground (arith, rest)

pub text_same :
    (text : Bytes)
    → pass_while in_text text ≡ pass_while before_return (pass_while before_newline text)
unfolding pass_while
text_same [] = refl
text_same (c ∷ cs) = let rest = text_same cs in ground (arith, rest)

pub blanks_same :
    (text : Bytes)
    → pass_while before_newline (skip_while is_tab_or_space text)
      ≡ skip_while is_tab_or_space (pass_while before_newline text)
unfolding pass_while skip_while
blanks_same [] = refl
blanks_same (c ∷ cs) = let rest = blanks_same cs in ground (arith, rest)

pub skip_while-length :
    (test : ℕ → Bool) (text : Bytes) → length (skip_while test text) ≤ length text
unfolding skip_while
skip_while-length test [] = omega arith
skip_while-length test (c ∷ cs) = let rest = skip_while-length test cs in ground (arith, rest)
