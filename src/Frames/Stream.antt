-- ===== src/Frames/Stream.antt =====
-- A stream of packets that tcp_rpc_write_packet_compact writes, read by tcp_rpcs_compact_parse_execute.
use mtproxy.Prelude.{
  ℕ, suc, ◌+◌, ◌-◌, ◌*◌, ◌/◌, ◌%◌, ◌^◌, ◌<◌, ◌≤◌, ◌≡◌, refl, ◌∙◌, ap, Bool, true, false, ◌||◌, List,
  [], ◌∷◌, ◌++◌, ltb, leb, ◌==◌, if◌then◌else◌, length, take, drop, arith, length-append,
  length-take, inl, inr, by_cases, ◌⊎◌,
}
use mathlib.Core.List.{append_assoc}
use mtproxy.Prelude.Bytes.{Bytes, le_bytes, length-le_bytes, take-append, drop-append}
use mtproxy.Prelude.Run.{Run, assert, ◌>>◌}
use mtproxy.Frames.{
  Flags, Conn, Parsed, prefix, length_prefix, prefix_of, padded, is_bad_length, execute_packet,
  receive, parse_frames,
}
use mtproxy.Frames.Prefixes.{length_prefix-read}

-- A message and the random numbers that are drawn for its padding.
pub record Packet : Type 0 where
  pub raw : Bytes
  pub x : ℕ
  pub y : ℕ

abbrev pub whole_of : Flags → Packet → Bytes
whole_of flags m = padded flags m.x m.y m.raw

abbrev pub frame_of : Flags → Packet → Bytes
frame_of flags m = length_prefix flags (length (whole_of flags m)) ++ whole_of flags m

abbrev pub frames_of : Flags → List Packet → Bytes
frames_of flags [] = []
frames_of flags (m ∷ ms) = frame_of flags m ++ frames_of flags ms

-- A message that a packet can hold.
pub record IsPacket (max_packet_len : ℕ) (m : Packet) : Type 0 where
  pub aligned : length m.raw % 4 ≡ 0
  pub low : 8 ≤ length m.raw
  pub high : length m.raw + 3 < 2 ^ 26
  pub limit : (max_packet_len ≡ 0) ⊎ (length m.raw + 3 ≤ max_packet_len)

abbrev pub AllPackets : ℕ → List Packet → Type 0
AllPackets max_packet_len [] = Unit {0}
AllPackets max_packet_len (m ∷ ms) = IsPacket max_packet_len m × AllPackets max_packet_len ms

-- One of the framings: padding comes with the medium one only.
pub record IsFraming (flags : Flags) : Type 0 where
  pub framed : (flags.compact || flags.medium) ≡ true
  pub pads_medium : flags.pad ≡ true → flags.medium ≡ true

-- What is sent of a message, and what the reader cuts it to.
pub record IsWhole (pad medium : Bool) (raw whole : Bytes) : Type 0 where
  pub low : length raw ≤ length whole
  pub high : length whole ≤ length raw + 3
  pub form : (medium ≡ true) ⊎ (length whole % 4 ≡ 0)
  pub cut : (if pad then take (length whole - length whole % 4) whole else whole) ≡ raw
  pub tested : (pad || length whole % 4 == 0) ≡ true

pad_length : (x y : ℕ) → length (take (y % 4) (le_bytes 4 x)) ≡ y % 4
pad_length x y =
    let a = length-take (y % 4) (le_bytes 4 x) in let b = length-le_bytes 4 x in omega (arith, a, b)

take_front : (n : ℕ) (xs ys : Bytes) → n ≡ length xs → take n (xs ++ ys) ≡ xs
take_front n xs ys e = rw e (take-append xs ys)

drop_front : (n : ℕ) (xs ys : Bytes) → n ≡ length xs → drop n (xs ++ ys) ≡ ys
drop_front n xs ys e = rw e (drop-append xs ys)

pub padded-IsWhole :
    (pad medium : Bool) (raw : Bytes) (x y : ℕ)
    → (pad ≡ true → medium ≡ true)
    → length raw % 4 ≡ 0
    → IsWhole pad medium raw (if pad then raw ++ take (y % 4) (le_bytes 4 x) else raw)
padded-IsWhole true medium raw x y f a =
    let whole = raw ++ take (y % 4) (le_bytes 4 x) in
    let n = length-append raw (take (y % 4) (le_bytes 4 x)) in
    let p = pad_length x y in
    record {
      low = omega (arith, n);
      high = omega (arith, n, p);
      form = inl (f refl);
      cut =
          take_front (length whole - length whole % 4) raw (take (y % 4) (le_bytes 4 x))
            (omega (arith, n, p, a));
      tested = refl;
    }
padded-IsWhole false medium raw x y f a = record {
  low = omega arith;
  high = omega arith;
  form = inr a;
  cut = refl;
  tested = ground (arith, a);
}

pub past : {A : Type 0} (test : Bool) (x y : A) → test ≡ false → (if test then x else y) ≡ y
past true x y e = cc
past false x y e = refl

pub holds : {A : Type 0} (test : Bool) (next : Run A) → test ≡ true → (assert test >> next) ≡ next
holds true next e = refl
holds false next e = cc

pub ltb-false : (a b : ℕ) → b ≤ a → ltb a b ≡ false
ltb-false a b p = ground (arith, p)

eq-false : (a b : ℕ) → b < a → (a == b) ≡ false
eq-false a b p = ground (arith, p)

leb-true : (a b : ℕ) → a ≤ b → leb a b ≡ true
leb-true a b p = ground (arith, p)

pre_bound :
    (flags : Flags) (len : ℕ) → (if flags.medium then 4 else 1) ≤ length (length_prefix flags len)
pre_bound flags len = shown flags.medium
  where
    shown :
        (medium : Bool)
        → (if medium then 4 else 1)
          ≤ length (
              if medium
              then le_bytes 4 len
              else (if leb len (0x7e * 4)
                  then le_bytes 1 (len / 4)
                  else le_bytes 4 (len * 2 ^ 6 / 128 * 128 + 127)))
    shown true = omega (arith, length-le_bytes 4 len)
    shown false =
        by_cases (λ bs. 1 ≤ length bs) (leb len (0x7e * 4))
          (omega (arith, length-le_bytes 1 (len / 4)))
          (omega (arith, length-le_bytes 4 (len * 2 ^ 6 / 128 * 128 + 127)))

module _ {U : Type 0} (execute : U → ℕ → Bytes → U × Bool) (max_packet_len : ℕ) where
  -- A packet that stands in front is taken off and executed.
  receive-packet :
      (c : Conn U) (more : Conn U → Run (Parsed × Conn U)) (pre whole rest raw : Bytes)
      → c.input ≡ pre ++ (whole ++ rest)
      → is_bad_length execute max_packet_len c.flags (length whole) ≡ false
      → 4 ≤ length raw
      → (if c.flags.pad then take (length whole - length whole % 4) whole else whole) ≡ raw
      → receive execute max_packet_len (prefix false (length whole) (length pre)) c more
        ≡ more (
            execute_packet execute max_packet_len
              (record c { flags = record c.flags { quickack = false }; input = rest })
              raw)
  receive-packet c more pre whole rest raw e good long cut =
      let n = length whole in
      let opened = λ (input : Bytes). record c {
        flags = record c.flags { quickack = false };
        input = input;
      } in
      let message = λ (w : Bytes). if c.flags.pad then take (n - n % 4) w else w in
      let deliver = λ (msg input : Bytes).
        assert (leb 4 (length msg))
        >> more (execute_packet execute max_packet_len (opened input) msg) in
      let after : drop (length pre) c.input ≡ whole ++ rest =
        ap (drop (length pre)) e ∙ drop_front (length pre) pre (whole ++ rest) refl in
      let taken : take n (drop (length pre) c.input) ≡ whole =
        ap (take n) after ∙ take_front n whole rest refl in
      let left : drop n (drop (length pre) c.input) ≡ rest =
        ap (drop n) after ∙ drop_front n whole rest refl in
      past (is_bad_length execute max_packet_len c.flags n) _ _ good
      ∙ past (ltb (length c.input) (n + length pre)) _ _ (
          ltb-false (length c.input) (n + length pre) (
            omega
              (arith, ap length e, length-append pre (whole ++ rest), length-append whole rest)))
      ∙ ap (λ w. deliver (message w) (drop n (drop (length pre) c.input))) taken
      ∙ ap (λ w. deliver w (drop n (drop (length pre) c.input))) cut
      ∙ ap (deliver raw) left
      ∙ holds (leb 4 (length raw)) _ (leb-true 4 (length raw) long)

  good_length :
      (flags : Flags) (len : ℕ)
      → 0 < len
      → len < 2 ^ 26
      → (flags.pad || len % 4 == 0) ≡ true
      → (max_packet_len ≡ 0) ⊎ (len ≤ max_packet_len)
      → is_bad_length execute max_packet_len flags len ≡ false
  good_length flags len p q t m = ground (arith, p, q, t, m)

  -- A frame in front of a running connection's input
  pub frame-read :
      (fuel : ℕ) (c : Conn U) (m : Packet) (rest : Bytes)
      → c.stopped ≡ false
      → c.input ≡ frame_of c.flags m ++ rest
      → IsFraming c.flags
      → IsPacket max_packet_len m
      → parse_frames execute max_packet_len (suc fuel) c
        ≡ parse_frames execute max_packet_len fuel (
            execute_packet execute max_packet_len
              (record c { flags = record c.flags { quickack = false }; input = rest })
              m.raw)
  unfolding parse_frames
  frame-read fuel c m rest runs e f p =
      let whole = whole_of c.flags m in
      let pre = length_prefix c.flags (length whole) in
      let w = padded-IsWhole c.flags.pad c.flags.medium m.raw m.x m.y f.pads_medium p.aligned in
      let parts = e ∙ append_assoc pre whole rest in
      let size = ap length parts ∙ length-append pre (whole ++ rest) in
      let least = pre_bound c.flags (length whole) in
      let more : Conn U → Run (Parsed × Conn U) = λ d. parse_frames execute max_packet_len fuel d in
      past c.stopped _ _ runs
      ∙ past (length c.input == 0) _ _ (
          eq-false (length c.input) 0 (omega (arith, size, w.low, p.low, length-append whole rest)))
      ∙ past (ltb (length c.input) ((if c.flags.medium then 4 else 1) + 8)) _ _ (
          ltb-false (length c.input) ((if c.flags.medium then 4 else 1) + 8)
            (omega (arith, size, w.low, p.low, least, length-append whole rest)))
      ∙ ap (λ q. receive execute max_packet_len q c more)
          (ap (prefix_of c.flags) parts
            ∙ length_prefix-read c.flags (length whole) (whole ++ rest)
                (omega (arith, w.high, p.high)) w.form)
      ∙ receive-packet c more pre whole rest m.raw parts
          (good_length c.flags (length whole) (omega (arith, w.low, p.low))
            (omega (arith, w.high, p.high)) w.tested (within (length whole) p.limit w.high))
          (omega (arith, p.low)) w.cut
    where
      within :
          (n : ℕ)
          → (max_packet_len ≡ 0) ⊎ (length m.raw + 3 ≤ max_packet_len)
          → n ≤ length m.raw + 3
          → (max_packet_len ≡ 0) ⊎ (n ≤ max_packet_len)
      within n (inl z) h = inl z
      within n (inr l) h = inr (omega (arith, l, h))
