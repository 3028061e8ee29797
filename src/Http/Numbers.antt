-- ===== src/Http/Numbers.antt =====
-- The round of hts_parse_execute in c-original/net/net-http-server.c that reads a number.
use mtproxy.Prelude.{
  ℕ, ◌+◌, ◌-◌, ◌≡◌, refl, ◌∙◌, Bool, true, false, [], ◌∷◌, not, if◌then◌else◌, length, arith, inl,
  sym, subst,
}
use mtproxy.Prelude.Bytes.{Bytes}
use mtproxy.Prelude.Int.{ℤ, pos, negsuc}
use mtproxy.Http.{readint, Hts}
use mtproxy.Http.Request.{
  failed, too_large, add_digit_size, in_number, read_number, int_end, read_int,
}
use mtproxy.Http.Shape.{IsParsed}
use mtproxy.Http.Rounds.{IsNext}

-- The header with the number read so far.
abbrev sized : Hts → ℤ → Hts
sized d size = record d { data_size = size }

-- What the loop of htqp_readint leaves.
record IsRead (used : ℕ) (d : Hts) (bs : Bytes) (e : Hts) (size : ℤ) (rest : Bytes) : Type 0 where
  front : ℕ
  split : front + length rest ≡ length bs
  parsed : IsParsed (used + front) readint (sized e size)
  same_state : (rest ≡ []) → e.parse_state ≡ d.parse_state

IsRead-if :
    {used : ℕ} {d : Hts} {bs : Bytes} {r s : Hts × ℤ × Bytes} (test : Bool)
    → (test ≡ true → IsRead used d bs r.0 r.1 r.2)
    → (test ≡ false → IsRead used d bs s.0 s.1 s.2)
    → IsRead used d bs (if test then r else s).0 (if test then r else s).1 (if test then r else s).2
IsRead-if true k l = k refl
IsRead-if false k l = l refl

digit-IsParsed :
    (used : ℕ) (d : Hts) (size : ℤ) (b : ℕ)
    → in_number b ≡ true
    → too_large size ≡ false
    → IsParsed used readint (sized d size)
    → IsParsed (used + 1) readint (
        sized
          (record d { header_size = d.header_size + 1; qf_datasize = false })
          (add_digit_size size (b - b'0')))
digit-IsParsed used d (pos n) b i t h = ground (arith, i, t, h)
digit-IsParsed used d (negsuc n) b i t h = absurd h.shape

IsRead-step :
    {used : ℕ} {d e x : Hts} {b : ℕ} {bs : Bytes} {size : ℤ} {rest : Bytes}
    → e.parse_state ≡ d.parse_state
    → IsRead (used + 1) e bs x size rest
    → IsRead used d (b ∷ bs) x size rest
IsRead-step {x} {size} p k = record {
  front = 1 + k.front;
  split = ground (arith, k.split);
  parsed = subst (λ n. IsParsed n readint (sized x size)) (omega arith) k.parsed;
  same_state = λ e. k.same_state e ∙ p;
}

read_number-IsRead :
    (used : ℕ) (d : Hts) (size : ℤ) (bs : Bytes)
    → IsParsed used readint (sized d size)
    → let r = read_number d size bs in IsRead used d bs r.0 r.1 r.2
unfolding read_number
read_number-IsRead used d size [] h = record {
  front = 0;
  split = refl;
  parsed = subst (λ n. IsParsed n readint (sized d size)) (omega arith) h;
  same_state = λ e. refl;
}
read_number-IsRead used d size (b ∷ bs) h =
    let e : Hts = record d { header_size = d.header_size + 1; qf_datasize = false } in
    let more = read_number-IsRead (used + 1) e (add_digit_size size (b - b'0')) bs in
    let here : (x : Hts)
        → IsParsed used readint (sized x size)
        → IsRead used d (b ∷ bs) x size (b ∷ bs) =
      λ x g. record {
        front = 0;
        split = omega arith;
        parsed = subst (λ n. IsParsed n readint (sized x size)) (omega arith) g;
        same_state = λ e. absurd (ground (arith, e));
      } in
    IsRead-if (not (in_number b)) (λ n. here d h)
      (λ y.
        IsRead-if (too_large size) (λ t. here (failed d) (ground (arith, h)))
          (λ f. IsRead-step refl (more (digit-IsParsed used d size b (ground (arith, y)) f h))))

int_end-IsNext :
    (used : ℕ) (s d : Hts) (size : ℤ) (bs rest : Bytes)
    → s.parse_state ≡ readint
    → IsRead used s bs d size rest
    → IsNext used 26 bs (int_end (sized d size) rest)
int_end-IsNext used s d size bs [] e k = record {
  front = k.front;
  split = k.split;
  parsed =
      subst (λ x. IsParsed (used + k.front) x (sized d size)) (sym (k.same_state refl ∙ e))
        k.parsed;
  falls = inl refl;
}
int_end-IsNext used s d size bs (b ∷ rest) e k = record {
  front = k.front;
  split = k.split;
  parsed = ground (arith, k.parsed);
  falls = ground arith;
}

pub read_int-IsNext :
    (used : ℕ) (s : Hts) (bs : Bytes)
    → s.parse_state ≡ readint
    → IsParsed used readint s
    → IsNext used 26 bs (read_int s bs)
unfolding read_int
read_int-IsNext used s bs e h =
    int_end-IsNext used s _ _ bs _ e (read_number-IsRead used s s.data_size bs h)
