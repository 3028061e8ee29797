-- ===== src/Http/Header.antt =====
-- get_http_header of c-original/net/net-http-server.c, which finds a field in the text of the headers.
--
-- A pointer into the text is what is left of it from there on. What is copied into the buffer is the
-- result, which has no value where the source returns -1. The buffer has room for at least the zero byte.
use mtproxy.Prelude.{
  ℕ, zero, suc, ◌-◌, Bool, true, [], ◌∷◌, Option, none, some, ◌==◌, ◌&&◌, ◌||◌, not, if◌then◌else◌,
  length, take,
}
use mtproxy.Prelude.Bytes.{Bytes}
use mtproxy.Prelude.Run.{Run, ok, out_of_fuel}
use mtproxy.Http.Request.{lower}

-- while (where < where_end && test (*where)) ++where: where it ends
unfoldable pub skip_while : (ℕ → Bool) → Bytes → Bytes
skip_while test [] = []
skip_while test (c ∷ cs) = let rest = skip_while test cs in if test c then rest else c ∷ cs

-- and the bytes it goes over
unfoldable pub pass_while : (ℕ → Bool) → Bytes → Bytes
pass_while test [] = []
pass_while test (c ∷ cs) = let rest = pass_while test cs in if test c then c ∷ rest else []

abbrev pub in_key : ℕ → Bool
in_key c = not (c == 58) && not (c == 10)

abbrev pub in_text : ℕ → Bool
in_text c = not (c == 13) && not (c == 10)

abbrev pub before_newline : ℕ → Bool
before_newline c = not (c == 10)

abbrev pub is_tab_or_space : ℕ → Bool
is_tab_or_space c = c == 9 || c == 32

-- strncasecmp (a, b, n) is 0, for two texts of n bytes
unfoldable pub same_name : Bytes → Bytes → Bool
same_name (a ∷ more) (b ∷ bs) =
    let rest = same_name more bs in lower a == lower b && (a == 0 || rest)
same_name _ _ = true

-- while (where > start && (where[-1] == ' ' || where[-1] == 9)) where--
unfoldable pub cut_blanks : Bytes → Bytes
cut_blanks [] = []
cut_blanks (c ∷ cs) = cut_byte c (cut_blanks cs)
  where
    cut_byte : ℕ → Bytes → Bytes
    cut_byte c [] = if is_tab_or_space c then [] else c ∷ []
    cut_byte c (d ∷ ds) = c ∷ d ∷ ds

-- The value behind the colon: the blanks before and behind it are left out.
abbrev pub header_value : Bytes → Bytes
header_value text = cut_blanks (pass_while in_text (skip_while is_tab_or_space text))

abbrev pub over_byte : Bytes → Bytes
over_byte [] = []
over_byte (c ∷ cs) = cs

-- To the end of the line, and over it.
abbrev pub next_line : Bytes → Bytes
next_line text = over_byte (skip_while before_newline text)

abbrev pub is_named : Bytes → Bytes → Bool
is_named name key = length name == length key && same_name name key

-- At the end of a name: a line of its own without a colon, or a field.
abbrev pub at_key_end :
    ℕ → Bytes → Bytes → Bytes → (Bytes → Run (Option Bytes)) → Run (Option Bytes)
at_key_end b_len name key [] more = ok none
at_key_end b_len name key (c ∷ cs) more =
    let found = ok (some (take (b_len - 1) (header_value cs))) in
    if c == 58
    then (if is_named name key then found else more (next_line cs))
    else more (next_line (c ∷ cs))

unfoldable pub get_http_header : ℕ → Bytes → ℕ → Bytes → Run (Option Bytes)
get_http_header fuel [] b_len name = ok none
get_http_header zero (c ∷ cs) b_len name = out_of_fuel
get_http_header (suc fuel) (c ∷ cs) b_len name =
    at_key_end b_len name (pass_while in_key (c ∷ cs)) (skip_while in_key (c ∷ cs))
      (λ rest. get_http_header fuel rest b_len name)
