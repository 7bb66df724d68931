-- ===== src/Framing/Tests.antt =====
-- The framing on concrete bytes, and its theorems there.
use meshpigeon_firmware.Prelude.{
  ℕ, ◌+◌, ◌≡◌, refl, List, [], ◌∷◌, ◌++◌, true, false, arith, length, ltb, if◌then◌else◌,
}
use meshpigeon_firmware.Framing.Crc.{frame_crc16, frame_crc, join_bytes}
use meshpigeon_firmware.Framing.Cobs.{cobs_encode, cobs_decode}
use meshpigeon_firmware.Framing.Cobs.RoundTrip.{cobs_decode-cobs_encode}
use meshpigeon_firmware.Framing.Frame.{
  max_frame_payload, frame_build, frame_encode_wire, frame_encode_envelope,
  frame_encode_envelope-eq-frame_encode_wire,
}
use meshpigeon_firmware.Framing.Reader.{FrameReader, reset, feed, check_frame}
use meshpigeon_firmware.Framing.Reader.Deliver.{
  read_stream, frames, read_stream-frames, read_stream_recovers,
}
use meshpigeon_firmware.Framing.Reader.Drain.{
  IsChecked, feed_hands_over, serve, pumps, pumps_complete,
}

abbrev sample : List ℕ
sample = 17 ∷ 0 ∷ 34 ∷ 0 ∷ 0 ∷ 51 ∷ []

-- The example of the COBS paper: "11 22 00 33" is "03 11 22 02 33".
cobs_encode-known : cobs_encode (0x11 ∷ 0x22 ∷ 0 ∷ 0x33 ∷ []) ≡ 3 ∷ 0x11 ∷ 0x22 ∷ 2 ∷ 0x33 ∷ []
unfolding cobs_encode
cobs_encode-known = refl

-- A zero inside a body, and a code byte that points past its end, are malformed.
cobs_decode-malformed : (cobs_decode (2 ∷ 1 ∷ 0 ∷ []) 10 ≡ []) × (cobs_decode (5 ∷ 1 ∷ []) 10 ≡ [])
unfolding cobs_decode
cobs_decode-malformed = (refl, refl)

cobs_decode-cobs_encode_example : cobs_decode (cobs_encode sample) 6 ≡ sample
cobs_decode-cobs_encode_example = cobs_decode-cobs_encode sample 6 (omega arith) (omega arith)

frame_encode_envelope-eq-frame_encode_wire_example :
    frame_encode_envelope sample
    ≡ (if ltb max_frame_payload (length sample) then [] else frame_encode_wire (frame_build sample))
frame_encode_envelope-eq-frame_encode_wire_example =
    frame_encode_envelope-eq-frame_encode_wire sample

abbrev two_envelopes : List (List ℕ)
two_envelopes = sample ∷ (8 ∷ 9 ∷ []) ∷ []

read_stream-frames_example : read_stream reset (frames two_envelopes) ≡ (reset, two_envelopes)
read_stream-frames_example = read_stream-frames two_envelopes (omega arith)

-- A reader in the middle of an oversized frame, and noise.
abbrev drowned : FrameReader
drowned = record { wire = 9 ∷ 9 ∷ []; overflow = true }

read_stream_recovers_example :
    read_stream drowned (((5 ∷ 6 ∷ []) ++ 0 ∷ []) ++ frames two_envelopes)
    ≡ (reset, (read_stream drowned ((5 ∷ 6 ∷ []) ++ 0 ∷ [])).1 ++ two_envelopes)
read_stream_recovers_example = read_stream_recovers drowned (5 ∷ 6 ∷ []) two_envelopes (omega arith)

-- A reader that holds the body of a whole frame.
abbrev full_reader : FrameReader
full_reader = record { wire = cobs_encode (frame_build (8 ∷ 9 ∷ [])); overflow = false }

feed_hands_over_example :
    (◌≡◌ {A = ℕ} 0 0)
    × ((feed full_reader 0).reader ≡ reset)
    × IsChecked (feed full_reader 0).frame_out (feed full_reader 0).ret
unfolding feed check_frame frame_crc frame_crc16 frame_build cobs_encode cobs_decode join_bytes
feed_hands_over_example = feed_hands_over full_reader 0 refl

-- A processor that counts the payload bytes it was handed.
abbrev tally : ℕ → List ℕ → ℕ
tally n e = n + length e

pumps_complete_example : pumps tally 2 0 reset (7 ∷ 0 ∷ 3 ∷ []) ≡ (
  serve tally 0 (read_stream reset (7 ∷ 0 ∷ 3 ∷ [])).1,
  (read_stream reset (7 ∷ 0 ∷ 3 ∷ [])).0,
  [],
)
pumps_complete_example = pumps_complete tally 2 0 reset (7 ∷ 0 ∷ 3 ∷ []) (omega arith)
