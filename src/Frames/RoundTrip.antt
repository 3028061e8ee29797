-- ===== src/Frames/RoundTrip.antt =====
-- All packets of a stream: what tcp_rpc_write_packet_compact writes one after the other,
-- tcp_rpcs_compact_parse_execute hands to the connection's handler.
use mtproxy.Prelude.{
  ℕ, zero, suc, ◌%◌, ◌^◌, ◌<◌, ◌≡◌, refl, ◌∙◌, sym, ap, subst, Bool, true, false, ◌||◌, not, List,
  [], ◌∷◌, ◌++◌, ltb, ◌==◌, if◌then◌else◌, length, take, arith, Bool-cases, inl, inr, by_cases,
}
use mathlib.Core.List.{append-nil, append_assoc}
use mtproxy.Prelude.Bytes.{Bytes, le_value}
use mtproxy.Prelude.Run.{Run, ok, Returns, ◌>>=◌}
use mtproxy.Frames.{
  Flags, Sender, Conn, need_more_bytes, length_prefix, write_packet_compact, execute_packet,
  parse_frames,
}
use mtproxy.Frames.Stream.{
  Packet, whole_of, frame_of, frames_of, IsPacket, AllPackets, IsFraming, padded-IsWhole, past,
  holds, frame-read,
}

-- The messages are written in their order.
unfoldable pub send_all : (Bytes → ℕ) → List Packet → Sender → Run Sender
send_all crc [] s = ok s
send_all crc (m ∷ ms) s = do t ← write_packet_compact crc m.x m.y m.raw s; send_all crc ms t

stops : {A : Type 0} (test : Bool) (x y : A) → test ≡ true → (if test then x else y) ≡ x
stops true x y e = refl
stops false x y e = cc

-- The writer does not look at RPC_F_QUICKACK.
frames_of-quickack :
    (flags : Flags) (ms : List Packet)
    → frames_of (record flags { quickack = false }) ms ≡ frames_of flags ms
frames_of-quickack flags [] = refl
frames_of-quickack flags (m ∷ ms) = ap (◌++◌ (frame_of flags m)) (frames_of-quickack flags ms)

-- A message is written as its frame.
write_frame :
    (crc : Bytes → ℕ) (max_packet_len : ℕ) (m : Packet) (s : Sender)
    → s.is_uninited_tls ≡ false
    → IsFraming s.flags
    → IsPacket max_packet_len m
    → write_packet_compact crc m.x m.y m.raw s ≡ ok (record s { out = s.out ++ frame_of s.flags m })
unfolding write_packet_compact
write_frame crc max_packet_len m s u f p =
    let whole = whole_of s.flags m in
    let w = padded-IsWhole s.flags.pad s.flags.medium m.raw m.x m.y f.pads_medium p.aligned in
    past (length m.raw == 5) _ _ (ground (arith, p.aligned))
    ∙ past s.is_uninited_tls _ _ u
    ∙ past (not (s.flags.compact || s.flags.medium)) _ _ (ap not f.framed)
    ∙ holds (ltb (length whole) (2 ^ 26)) _ (ground (arith, w.high, p.high))
    ∙ holds (s.flags.pad || length whole % 4 == 0) _ w.tested
    ∙ ap (λ o. ok (record s { out = o }))
        (append_assoc s.out (length_prefix s.flags (length whole)) whole)

send_all-frames :
    (crc : Bytes → ℕ) (max_packet_len : ℕ) (ms : List Packet) (s : Sender)
    → s.is_uninited_tls ≡ false
    → IsFraming s.flags
    → AllPackets max_packet_len ms
    → send_all crc ms s ≡ ok (record s { out = s.out ++ frames_of s.flags ms })
unfolding send_all
send_all-frames crc max_packet_len [] s u f a =
    ap (λ o. ok (record s { out = o })) (sym (append-nil s.out))
send_all-frames crc max_packet_len (m ∷ ms) s u f a =
    let t : Sender = record s { out = s.out ++ frame_of s.flags m } in
    ap (λ r. r >>= λ x. send_all crc ms x) (write_frame crc max_packet_len m s u f a.0)
    ∙ send_all-frames crc max_packet_len ms t u f a.1
    ∙ ap (λ o. ok (record s { out = o }))
        (append_assoc s.out (frame_of s.flags m) (frames_of s.flags ms))

module _ {U : Type 0} (execute : U → ℕ → Bytes → U × Bool) (max_packet_len : ℕ) where
  -- What the handler is called with, one message after the other, until it stops the connection: then the
  -- other packets stay in the input.
  unfoldable pub receive_all : Conn U → List Packet → Conn U
  receive_all c [] = c
  receive_all c (m ∷ ms) =
      let rest = frames_of c.flags ms in
      let next = record c { flags = record c.flags { quickack = false }; input = rest } in
      let later = receive_all (execute_packet execute max_packet_len next m.raw) ms in
      if c.stopped then c else later

  abbrev pub Kept : Conn U → Conn U → Type 0
  Kept c d = (d.flags ≡ c.flags) × (d.input ≡ c.input)

  pub execute_packet-Kept :
      (c : Conn U) (msg : Bytes) → Kept c (execute_packet execute max_packet_len c msg)
  unfolding execute_packet
  execute_packet-Kept c msg =
      by_cases (Kept c) (le_value (take 4 msg) == 0x5730a2df) (refl, refl) (refl, refl)

  parse_frames-receive_all :
      (fuel : ℕ) (c : Conn U) (ms : List Packet)
      → length ms < fuel
      → c.input ≡ frames_of c.flags ms
      → IsFraming c.flags
      → AllPackets max_packet_len ms
      → parse_frames execute max_packet_len fuel c ≡ ok (need_more_bytes, receive_all c ms)
  unfolding parse_frames receive_all
  parse_frames-receive_all zero c ms p e f a = absurd (omega (arith, p))
  parse_frames-receive_all (suc fuel) c [] p e f a =
      by_cases (λ r. r ≡ ok (need_more_bytes, c)) c.stopped refl
        (stops (length c.input == 0) _ _ (ap (λ i. length i == 0) e))
  parse_frames-receive_all (suc fuel) c (m ∷ ms) p e f a = elim (Bool-cases c.stopped) [
    | inl stopped ↦ rw stopped refl
    | inr runs ↦
        let next : Conn U = record c {
          flags = record c.flags { quickack = false };
          input = frames_of c.flags ms;
        } in
        let d = execute_packet execute max_packet_len next m.raw in
        let k = execute_packet-Kept next m.raw in
        frame-read execute max_packet_len fuel c m (frames_of c.flags ms) runs e f a.0
        ∙ parse_frames-receive_all fuel d ms (omega (arith, p))
            (k.1 ∙ sym (ap (λ g. frames_of g ms) k.0 ∙ frames_of-quickack c.flags ms))
            (subst IsFraming (sym k.0) (record { framed = f.framed; pads_medium = f.pads_medium }))
            a.1
        ∙ ap (λ x. ok (need_more_bytes, x)) (sym (past c.stopped _ _ runs))
  ]

  -- With more fuel than there are messages, all that tcp_rpc_write_packet_compact writes of messages of at least
  -- eight bytes, a multiple of four, no longer than the reader takes, the reader takes off again: it hands each
  -- message, without its padding, to its handler, in order, until the handler stops the connection, and no
  -- assertion fails on either side.
  pub send_all-read :
      (crc : Bytes → ℕ) (fuel : ℕ) (c : Conn U) (ms : List Packet) (s : Sender)
      → s.flags ≡ c.flags
      → s.out ≡ []
      → s.is_uninited_tls ≡ false
      → IsFraming c.flags
      → AllPackets max_packet_len ms
      → length ms < fuel
      → Returns
          (λ t.
            parse_frames execute max_packet_len fuel (record c { input = t.out })
            ≡ ok (need_more_bytes, receive_all (record c { input = t.out }) ms))
          (send_all crc ms s)
  send_all-read crc fuel c ms s g o u f a p =
      let framing = subst IsFraming (sym g) f in
      let sent = send_all-frames crc max_packet_len ms s u framing a in
      let read : s.out ++ frames_of s.flags ms ≡ frames_of c.flags ms =
        ap (λ b. b ++ frames_of s.flags ms) o ∙ ap (λ h. frames_of h ms) g in
      Returns.ended _ sent (
        parse_frames-receive_all fuel (record c { input = s.out ++ frames_of s.flags ms }) ms p read
          f a)
