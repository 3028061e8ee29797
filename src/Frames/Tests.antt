-- ===== src/Frames/Tests.antt =====
-- The framing of c-original/net/net-tcp-rpc-common.c and net-tcp-rpc-ext-server.c on small packets.
use mtproxy.Prelude.{ℕ, ◌≡◌, refl, Bool, true, false, List, [], ◌∷◌, ◌++◌, inl, arith, replicate}
use mtproxy.Prelude.Bytes.{Bytes, le_bytes, le_value}
use mtproxy.Prelude.Run.{ok, abort, Returns}
use mtproxy.Frames.{Flags, Sender, Conn, need_more_bytes, need, execute_packet, parse_frames}
use mtproxy.Frames.Stream.{Packet, AllPackets}
use mtproxy.Frames.RoundTrip.{send_all, receive_all, send_all-read}
use mtproxy.Frames.Safety.{Ends, parse_frames-Ends}

abbrev padded_flags : Flags
padded_flags = record { pad = true; medium = true; compact = false; quickack = false }

abbrev compact_flags : Flags
compact_flags = record { pad = false; medium = false; compact = true; quickack = false }

-- A handler that keeps all messages and goes on.
abbrev log : List Bytes → ℕ → Bytes → List Bytes × Bool
log kept op msg = (kept ++ msg ∷ [], false)

abbrev conn : Flags → Bytes → Conn (List Bytes)
conn flags input = record {
  flags = flags;
  stopped = false;
  in_packet_num = 0;
  input = input;
  replies = [];
  user = [];
}

abbrev sender : Flags → Sender
sender flags = record { flags = flags; is_uninited_tls = false; out_packet_num = 0; out = [] }

abbrev two : List Packet
two =
    record { raw = replicate 8 7; x = 0x01020304; y = 3 }
    ∷ record { raw = replicate 12 9; x = 5; y = 0 }
    ∷ []

abbrev no_crc : Bytes → ℕ
no_crc bytes = 0

two-AllPackets : AllPackets 0 two
two-AllPackets = (
  record { aligned = refl; low = omega arith; high = omega arith; limit = inl refl },
  (record { aligned = refl; low = omega arith; high = omega arith; limit = inl refl }, tt),
)

send_all-read_example :
    Returns
      (λ t.
        parse_frames log 0 3 (conn padded_flags t.out)
        ≡ ok (need_more_bytes, receive_all log 0 (conn padded_flags t.out) two))
      (send_all no_crc two (sender padded_flags))
send_all-read_example =
    send_all-read log 0 no_crc 3 (conn padded_flags []) two (sender padded_flags) refl refl refl
      (record { framed = refl; pads_medium = λ p. refl }) two-AllPackets (omega arith)

parse_frames-Ends_example :
    Ends false (replicate 9 1) (parse_frames log 0 10 (conn compact_flags (replicate 9 1)))
parse_frames-Ends_example =
    parse_frames-Ends log 0 10 (conn compact_flags (replicate 9 1)) (omega arith)

-- A packet of one byte in the padded framing: no type can be read, and the assertion fails.
short_padded_packet_test :
    parse_frames log 0 20 (conn padded_flags (le_bytes 4 1 ++ replicate 8 0)) ≡ abort
unfolding parse_frames execute_packet le_bytes le_value
short_padded_packet_test = refl

-- A packet of four bytes that has come whole waits for more in the compact framing.
short_compact_packet_test :
    parse_frames log 0 20 (conn compact_flags (1 ∷ replicate 4 0))
    ≡ ok (need 4, conn compact_flags (1 ∷ replicate 4 0))
unfolding parse_frames
short_compact_packet_test = refl
