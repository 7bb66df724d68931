-- ===== src/Framing/Frame.antt =====
-- `frame_build`, `frame_encode_wire` and `frame_encode_envelope` of framing.cpp, and the limits of
-- protocol.h and framing.h.
use meshpigeon_firmware.Prelude.{
  ℕ, ◌+◌, ◌/◌, ◌≤◌, ◌≡◌, refl, ap, sym, List, [], ◌∷◌, ◌++◌, arith, ltb, if◌then◌else◌, length,
  length-append, All-append, IsByte, IsBytes, le→ltb, lt→ltb, dec_lt,
}
use meshpigeon_firmware.Framing.Crc.{frame_crc16, low_byte, high_byte}
use meshpigeon_firmware.Framing.Cobs.{CobsEncoder, start, put, put_all, finish, cobs_encode}
use meshpigeon_firmware.Framing.Cobs.Shape.{cobs_encode-IsData}

-- MESHPIGEON_MAX_FRAME_PAYLOAD, FRAME_MAX_DECODED, FRAME_MAX_WIRE
abbrev pub max_frame_payload : ℕ
max_frame_payload = 512

abbrev pub frame_max_decoded : ℕ
frame_max_decoded = max_frame_payload + 2

abbrev pub frame_max_wire : ℕ
frame_max_wire = frame_max_decoded + (frame_max_decoded + 253) / 254 + 1

-- The envelope with its checksum behind it, little-endian.
unfoldable pub frame_build : List ℕ → List ℕ
frame_build envelope =
    let crc = frame_crc16 envelope in envelope ++ low_byte crc ∷ high_byte crc ∷ []

unfoldable pub frame_encode_wire : List ℕ → List ℕ
frame_encode_wire decoded = cobs_encode decoded ++ 0 ∷ []

-- Straight into one encoder; nothing is written for an envelope over the limit.
unfoldable pub frame_encode_envelope : List ℕ → List ℕ
frame_encode_envelope envelope =
    let crc = frame_crc16 envelope in
    let filled = put (put (put_all start envelope) (low_byte crc)) (high_byte crc) in
    if ltb frame_max_decoded (length envelope + 2) then [] else finish filled ++ 0 ∷ []

put_all-append :
    (e : CobsEncoder) (xs ys : List ℕ) → put_all e (xs ++ ys) ≡ put_all (put_all e xs) ys
unfolding put_all
put_all-append e [] ys = refl
put_all-append e (x ∷ xs) ys = put_all-append (put e x) xs ys

finish_filled :
    (envelope : List ℕ) (a b : ℕ)
    → finish (put (put (put_all start envelope) a) b) ≡ cobs_encode (envelope ++ a ∷ b ∷ [])
unfolding cobs_encode
finish_filled envelope a b =
    ap finish (unfold put_all in sym (put_all-append start envelope (a ∷ b ∷ [])))

-- The two ways to frame an envelope agree byte for byte: encoding the envelope and its checksum
-- in one pass is encoding the frame that `frame_build` makes. Up to 512 bytes; over that, nothing.
pub frame_encode_envelope-eq-frame_encode_wire :
    (envelope : List ℕ)
    → frame_encode_envelope envelope ≡ (
        if ltb max_frame_payload (length envelope)
        then []
        else frame_encode_wire (frame_build envelope))
unfolding frame_encode_envelope frame_encode_wire frame_build
frame_encode_envelope-eq-frame_encode_wire envelope =
    elim (dec_lt max_frame_payload (length envelope)) [
      | yes p ↦ rw (
        lt→ltb max_frame_payload (length envelope) p,
        lt→ltb frame_max_decoded (length envelope + 2) (omega arith),
      )
      | no p ↦
          rw
            (
              le→ltb max_frame_payload (length envelope) (omega arith),
              le→ltb frame_max_decoded (length envelope + 2) (omega arith),
            )
            (ap (λ (body : List ℕ). body ++ 0 ∷ []) (finish_filled envelope _ _))
    ]

pub frame_build-IsBytes : (envelope : List ℕ) → IsBytes envelope → IsBytes (frame_build envelope)
unfolding frame_build
frame_build-IsBytes envelope b = All-append IsByte envelope _ b (omega arith)

pub length-frame_build : (envelope : List ℕ) → length (frame_build envelope) ≡ length envelope + 2
unfolding frame_build
length-frame_build envelope = length-append envelope _

-- A frame of a legal envelope fits the reader's wire buffer: the body leaves room for the delimiter.
pub frame_encode_wire-fits :
    (envelope : List ℕ)
    → IsBytes envelope
    → length envelope ≤ max_frame_payload
    → length (frame_encode_wire (frame_build envelope)) ≤ frame_max_wire
unfolding frame_encode_wire
frame_encode_wire-fits envelope b h = omega (
  arith,
  length-append {0} (cobs_encode (frame_build envelope)) (0 ∷ []),
  (cobs_encode-IsData (frame_build envelope) (frame_build-IsBytes envelope b)).2,
  length-frame_build envelope,
)
