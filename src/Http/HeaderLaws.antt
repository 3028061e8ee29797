-- ===== src/Http/HeaderLaws.antt =====
-- get_http_header of c-original/net/net-http-server.c against the list of the lines.
use mtproxy.Prelude.{
  ℕ, zero, suc, ◌-◌, ◌≤◌, ◌≡◌, refl, ◌∙◌, sym, ap, subst, Bool, true, false, [], ◌∷◌, Option, none,
  some, ◌==◌, if◌then◌else◌, length, take, arith, Bool-cases, inl, inr, by_test,
}
use mtproxy.Prelude.Bytes.{Bytes}
use mtproxy.Prelude.Run.{Run, ok}
use mtproxy.Http.Header.{
  skip_while, pass_while, in_key, before_newline, is_tab_or_space, cut_blanks, header_value,
  over_byte, next_line, is_named, at_key_end, get_http_header,
}
use mtproxy.Http.HeaderLines.{
  before_return, before_colon, behind_colon, first_of, field_of, lines, lines_left, lines_split,
  key_same, key_rest, key_over, text_same, blanks_same, skip_while-length,
}

-- Where the name ends there is a colon, a newline, or nothing more.
abbrev IsKeyEnd : Bytes → Type 0
IsKeyEnd [] = true ≡ true
IsKeyEnd (c ∷ cs) = in_key c ≡ false

skip_while-IsKeyEnd : (text : Bytes) → IsKeyEnd (skip_while in_key text)
unfolding skip_while
skip_while-IsKeyEnd [] = refl
skip_while-IsKeyEnd (c ∷ cs) =
    let rest = skip_while-IsKeyEnd cs in by_test IsKeyEnd (in_key c) (λ y. rest) (λ n. n)

-- A round that goes on takes at least one byte.
over_byte-length : (text : Bytes) → length (over_byte text) ≤ length text
over_byte-length [] = omega arith
over_byte-length (c ∷ cs) = omega arith

next_line-shorter : (text : Bytes) (n : ℕ) → length text ≤ suc n → length (next_line text) ≤ n
unfolding skip_while
next_line-shorter [] n p = omega arith
next_line-shorter (c ∷ cs) n p =
    let a = over_byte-length (skip_while before_newline cs) in
    let b = skip_while-length before_newline cs in
    by_test (λ r. length (over_byte r) ≤ n) (before_newline c) (λ y. omega (arith, a, b, p))
      (λ k. omega (arith, p))

value_lem :
    (text : Bytes)
    → header_value text
      ≡ cut_blanks
          (pass_while before_return (skip_while is_tab_or_space (pass_while before_newline text)))
value_lem text =
    ap cut_blanks (
      text_same (skip_while is_tab_or_space text)
      ∙ ap (pass_while before_return) (blanks_same text))

left_lem :
    (name rest : Bytes) → field_of name (lines_left rest) ≡ field_of name (lines (over_byte rest))
unfolding field_of lines pass_while skip_while
left_lem name [] = refl
left_lem name (c ∷ cs) = refl

abbrev or_next : Bytes → Bytes → Bytes → Bytes → Option Bytes
or_next name key behind rest =
    first_of (behind_colon name key behind) (field_of name (lines_left rest))

-- A text says what its first line says, or what the others say.
field_of-lines :
    (name text : Bytes)
    → let key = pass_while in_key text in
      let where_ends = skip_while in_key text in
      field_of name (lines text)
      ≡ first_of
          (behind_colon name key (pass_while before_newline where_ends))
          (field_of name (lines (next_line where_ends)))
unfolding field_of
field_of-lines name text =
    let line = pass_while before_newline text in
    let rest = skip_while before_newline text in
    let key = pass_while in_key text in
    let end = skip_while in_key text in
    ap (field_of name) (lines_split text)
    ∙ ap (λ k. or_next name k (skip_while before_colon line) rest) (sym (key_same text))
    ∙ ap (λ b. or_next name key b rest) (sym (key_rest text))
    ∙ ap (or_next name key (pass_while before_newline end)) (sym (key_over text))
    ∙ ap (first_of (behind_colon name key (pass_while before_newline end)))
        (left_lem name (skip_while before_newline end))

-- What fits into a buffer of b_len bytes.
abbrev pub cut_to : ℕ → Option Bytes → Option Bytes
cut_to b_len none = none
cut_to b_len (some v) = some (take (b_len - 1) v)

at_colon :
    (named : Bool) (b_len : ℕ) (v w : Bytes) (run : Run (Option Bytes)) (rest : Option Bytes)
    → v ≡ w
    → run ≡ ok (cut_to b_len rest)
    → (if named then ok (some (take (b_len - 1) v)) else run)
      ≡ ok (cut_to b_len (first_of (if named then some w else none) rest))
at_colon true b_len v w run rest e h = ap (λ x. ok (some (take (b_len - 1) x))) e
at_colon false b_len v w run rest e h = h

is_colon : (c : ℕ) → c == 58 ≡ true → 58 ≡ c
is_colon c e = ground (arith, e)

is_newline : (c : ℕ) → in_key c ≡ false → c == 58 ≡ false → 10 ≡ c
is_newline c k o = ground (arith, k, o)

module _ (b_len : ℕ) (name key : Bytes) (more : Bytes → Run (Option Bytes)) where
  -- Where the rest of the text is read right, so is all of it from the end of a name on.
  abbrev ReadsOn : Bytes → Type 0
  ReadsOn end =
      more (next_line end) ≡ ok (cut_to b_len (field_of name (lines (next_line end))))
      → at_key_end b_len name key end more
        ≡ ok (
            cut_to b_len (
              first_of (behind_colon name key (pass_while before_newline end))
                (field_of name (lines (next_line end)))))

  colon-ReadsOn : (cs : Bytes) → ReadsOn (58 ∷ cs)
  unfolding pass_while skip_while
  colon-ReadsOn cs h =
      at_colon (is_named name key) b_len (header_value cs)
        (cut_blanks
          (pass_while before_return (skip_while is_tab_or_space (pass_while before_newline cs))))
        (more (next_line cs)) (field_of name (lines (next_line cs))) (value_lem cs) h

  newline-ReadsOn : (cs : Bytes) → ReadsOn (10 ∷ cs)
  unfolding pass_while skip_while
  newline-ReadsOn cs h = h

  key_end-ReadsOn : (end : Bytes) → IsKeyEnd end → ReadsOn end
  unfolding pass_while skip_while lines field_of
  key_end-ReadsOn [] k = λ h. refl
  key_end-ReadsOn (c ∷ cs) k = elim (Bool-cases (c == 58)) [
    | inl colon ↦ subst (λ x. ReadsOn (x ∷ cs)) (is_colon c colon) (colon-ReadsOn cs)
    | inr other ↦ subst (λ x. ReadsOn (x ∷ cs)) (is_newline c k other) (newline-ReadsOn cs)
  ]

-- With as much fuel as there are bytes, get_http_header ends, and finds what the first line with the name before its
-- colon says, without the blanks around it and cut to the buffer; it finds nothing where there is no such line.
pub get_http_header_lem :
    (fuel : ℕ) (text : Bytes) (b_len : ℕ) (name : Bytes)
    → length text ≤ fuel
    → get_http_header fuel text b_len name ≡ ok (cut_to b_len (field_of name (lines text)))
unfolding get_http_header field_of lines pass_while skip_while
get_http_header_lem fuel [] b_len name p = refl
get_http_header_lem zero (c ∷ cs) b_len name p = absurd (omega (arith, p))
get_http_header_lem (suc fuel) (c ∷ cs) b_len name p =
    let text = c ∷ cs in
    let end = skip_while in_key text in
    key_end-ReadsOn b_len name (pass_while in_key text)
      (λ rest. get_http_header fuel rest b_len name) end (skip_while-IsKeyEnd text)
      (get_http_header_lem fuel (next_line end) b_len name
        (next_line-shorter end fuel (omega (arith, skip_while-length in_key text, p))))
    ∙ ap (λ v. ok (cut_to b_len v)) (sym (field_of-lines name text))
