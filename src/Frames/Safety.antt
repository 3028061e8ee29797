-- ===== src/Frames/Safety.antt =====
-- tcp_rpcs_compact_parse_execute on any bytes, once the connection's type is known.
use mtproxy.Prelude.{
  ℕ, zero, suc, ◌+◌, ◌-◌, ◌%◌, ◌<◌, ◌≡◌, refl, ◌∙◌, sym, ap, subst, Bool, true, false, [], ◌∷◌,
  ◌++◌, ltb, leb, ◌==◌, if◌then◌else◌, length, take, drop, arith, length-take, length-drop,
  take-append-drop, inl, inr, by_test, ◌⊎◌,
}
use mathlib.Core.List.{append_assoc}
use mtproxy.Prelude.Bytes.{Bytes}
use mtproxy.Prelude.Run.{Run, abort, assert, Returns, returns, ◌>>◌}
use mtproxy.Frames.{
  Flags, Conn, Parsed, need_more_bytes, need, failed, Prefix, prefix, overlong, prefix_of,
  is_bad_length, execute_packet, receive, parse_frames,
}
use mtproxy.Frames.RoundTrip.{execute_packet-Kept}

-- The bytes of ys are the last ones of xs.
abbrev pub EndsIn : Bytes → Bytes → Type 0
EndsIn xs ys = (read : Bytes) × (xs ≡ read ++ ys)

EndsIn-trans : {xs ys zs : Bytes} → EndsIn xs ys → EndsIn ys zs → EndsIn xs zs
EndsIn-trans {zs} (a, p) (b, q) = (a ++ b, p ∙ ap (◌++◌ a) q ∙ sym (append_assoc a b zs))

EndsIn-drop : (n : ℕ) (xs : Bytes) → EndsIn xs (drop n xs)
EndsIn-drop n xs = (take n xs, sym (take-append-drop n xs))

module _ {U : Type 0} where
  -- Why the parser stops.
  abbrev pub IsReason : Parsed → Conn U → Type 0
  IsReason need_more_bytes c = (c.stopped ≡ true) ⊎ (c.input ≡ [])
  IsReason failed c = c.stopped ≡ true
  IsReason (need n) c = 0 < n

  abbrev pub IsParsed : Bytes → Parsed × Conn U → Type 0
  IsParsed input (outcome, c) = IsReason outcome c × EndsIn input c.input

  -- An assertion may fail in the padded framing only.
  abbrev pub Ends : Bool → Bytes → Run (Parsed × Conn U) → Type 0
  Ends pad input r = Returns (IsParsed input) r ⊎ ((pad ≡ true) × (r ≡ abort))

  Ends-further :
      {pad : Bool} {xs ys : Bytes} (r : Run (Parsed × Conn U))
      → EndsIn xs ys
      → Ends pad ys r
      → Ends pad xs r
  Ends-further r e (inl (Returns.ended (o, c) p (why, rest))) =
      inl (Returns.ended (o, c) p (why, EndsIn-trans e rest))
  Ends-further r e (inr a) = inr a

  Ends-assert :
      {pad : Bool} {xs : Bytes} (test : Bool) (r : Run (Parsed × Conn U))
      → (test ≡ false → pad ≡ true)
      → Ends pad xs r
      → Ends pad xs (assert test >> r)
  Ends-assert true r p e = e
  Ends-assert false r p e = inr (p refl, refl)

module _ {U : Type 0} (execute : U → ℕ → Bytes → U × Bool) (max_packet_len : ℕ) where
  message_length :
      (pad : Bool) (n : ℕ) (whole : Bytes)
      → length whole ≡ n
      → 0 < n
      → (pad ≡ false → n % 4 ≡ 0)
      → leb 4 (length (if pad then take (n - n % 4) whole else whole)) ≡ false
      → pad ≡ true
  message_length true n whole e p a t = refl
  message_length false n whole e p a t =
      absurd (omega (arith, e, p, a refl, leb-false 4 (length whole) t))
    where
      leb-false : (x y : ℕ) → leb x y ≡ false → y < x
      leb-false x y h = ground (arith, h)

  good_length :
      (flags : Flags) (n : ℕ)
      → is_bad_length execute max_packet_len flags n ≡ false
      → (0 < n) × (flags.pad ≡ false → n % 4 ≡ 0)
  good_length flags n e = (ground (arith, e), λ p. ground (arith, e, p))

  whole_length :
      (n b : ℕ) (input : Bytes)
      → ltb (length input) (n + b) ≡ false
      → length (take n (drop b input)) ≡ n
  whole_length n b input t =
      let a = length-take n (drop b input) in let d = length-drop b input in ground (arith, a, d, t)

  shorter :
      (n b : ℕ) (input left : Bytes)
      → left ≡ drop n (drop b input)
      → 0 < n
      → ltb (length input) (n + b) ≡ false
      → length left < length input
  shorter n b input left e p t =
      let a = length-drop n (drop b input) in
      let d = length-drop b input in let l = ap length e in ground (arith, a, d, t, p, l)

  receive-Ends :
      (q : Prefix) (c : Conn U) (more : Conn U → Run (Parsed × Conn U))
      → ((d : Conn U)
          → d.flags.pad ≡ c.flags.pad
          → length d.input < length c.input
          → Ends d.flags.pad d.input (more d))
      → Ends c.flags.pad c.input (receive execute max_packet_len q c more)
  receive-Ends (overlong quickack) c more h = inl (returns (refl, ([], refl)))
  receive-Ends (prefix quickack n b) c more h =
      by_test (Ends c.flags.pad c.input) (is_bad_length execute max_packet_len c.flags n)
        (λ bad. inl (returns (refl, ([], refl))))
        (λ good.
          by_test (Ends c.flags.pad c.input) (ltb (length c.input) (n + b))
            (λ short. inl (returns (ground (arith, short), ([], refl))))
            (λ there.
              let (pos, aligned) = good_length c.flags n good in
              let whole = take n (drop b c.input) in
              let rest = drop n (drop b c.input) in
              let msg = if c.flags.pad then take (n - n % 4) whole else whole in
              let left : Conn U = record c {
                flags = record c.flags { quickack = quickack };
                input = rest;
              } in
              let d = execute_packet execute max_packet_len left msg in
              let k = execute_packet-Kept execute max_packet_len left msg in
              Ends-assert (leb 4 (length msg)) (more d)
                (message_length c.flags.pad n whole (whole_length n b c.input there) pos aligned)
                (Ends-further (more d)
                  (EndsIn-trans (EndsIn-drop b c.input) (EndsIn-drop n (drop b c.input)))
                  (subst (λ x. Ends c.flags.pad x (more d)) k.1
                    (subst (λ x. Ends x d.input (more d)) (ap (λ g. g.pad) k.0)
                      (h d (ap (λ g. g.pad) k.0) (shorter n b c.input d.input k.1 pos there)))))))

  -- With more fuel than there are bytes the parser of packets ends, whatever has come: it leaves the last part of the
  -- bytes, having stopped the connection, read all, or with a positive number of bytes that it waits for. In the
  -- framings without padding no assertion fails.
  pub parse_frames-Ends :
      (fuel : ℕ) (c : Conn U)
      → length c.input < fuel
      → Ends c.flags.pad c.input (parse_frames execute max_packet_len fuel c)
  unfolding parse_frames
  parse_frames-Ends zero c p = absurd (omega (arith, p))
  parse_frames-Ends (suc fuel) c p =
      by_test (Ends c.flags.pad c.input) c.stopped
        (λ stopped. inl (returns (inl stopped, ([], refl))))
        (λ runs.
          by_test (Ends c.flags.pad c.input) (length c.input == 0)
            (λ none. inl (returns (inr (empty c.input none), ([], refl))))
            (λ some.
              by_test (Ends c.flags.pad c.input)
                (ltb (length c.input) ((if c.flags.medium then 4 else 1) + 8))
                (λ short. inl (returns (ground (arith, short), ([], refl))))
                (λ there.
                  receive-Ends (prefix_of c.flags c.input) c
                    (λ d. parse_frames execute max_packet_len fuel d)
                    (λ d same less. parse_frames-Ends fuel d (omega (arith, less, p))))))
    where
      empty : (xs : Bytes) → length xs == 0 ≡ true → xs ≡ []
      empty [] e = refl
      empty (x ∷ xs) e = ground (arith, e)
