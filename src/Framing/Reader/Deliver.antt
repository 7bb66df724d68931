-- ===== src/Framing/Reader/Deliver.antt =====
-- What a stream of bytes delivers: framed envelopes come out as they went in, after any garbage.
use meshpigeon_firmware.Prelude.{
  ℕ, suc, ◌+◌, ◌-◌, ◌≤◌, ◌<◌, ◌≡◌, refl, ap, ◌∙◌, List, [], ◌∷◌, ◌++◌, append_assoc, append-nil,
  true, false, arith, if◌then◌else◌, length, length-append, take, take-append, get_or, All, IsBytes,
  le→ltb, lt→leb, ne→==, ==_refl, Bool-cases, inl, inr,
}
use meshpigeon_firmware.Framing.Crc.{
  frame_crc, frame_crc16, frame_crc16-lt, join_bytes, join_bytes-split,
}
use meshpigeon_firmware.Framing.Cobs.{cobs_encode, cobs_decode}
use meshpigeon_firmware.Framing.Cobs.Runs.{IsData}
use meshpigeon_firmware.Framing.Cobs.RoundTrip.{cobs_decode-cobs_encode}
use meshpigeon_firmware.Framing.Cobs.Shape.{cobs_encode-IsData}
use meshpigeon_firmware.Framing.Frame.{
  max_frame_payload, frame_max_decoded, frame_max_wire, frame_build, frame_encode_wire,
  frame_encode_envelope, frame_build-IsBytes, length-frame_build,
  frame_encode_envelope-eq-frame_encode_wire,
}
use meshpigeon_firmware.Framing.Reader.{FrameReader, reset, size_max, check_frame, feed, has_frame}

get_or_second_last : (xs : List ℕ) (a b : ℕ) → get_or (xs ++ a ∷ b ∷ []) (length xs) 0 ≡ a
get_or_second_last [] a b = refl
get_or_second_last (x ∷ xs) a b = get_or_second_last xs a b

get_or_last : (xs : List ℕ) (a b : ℕ) → get_or (xs ++ a ∷ b ∷ []) (suc (length xs)) 0 ≡ b
get_or_last [] a b = refl
get_or_last (x ∷ xs) a b = get_or_last xs a b

take_payload : (envelope : List ℕ) → take (length envelope) (frame_build envelope) ≡ envelope
unfolding frame_build
take_payload envelope = take-append envelope _

frame_crc-frame_build :
    (envelope : List ℕ) → frame_crc (frame_build envelope) ≡ frame_crc16 envelope
unfolding frame_crc
frame_crc-frame_build envelope =
    let n : length (frame_build envelope) - 2 ≡ length envelope =
      omega (arith, length-frame_build envelope) in
    rw (le→ltb (length (frame_build envelope)) 2 (omega (arith, length-frame_build envelope)), n)
      (ap frame_crc16 (take_payload envelope))

-- A frame that `frame_build` made passes the reader's checks.
check_frame-frame_build : (envelope : List ℕ) → check_frame (frame_build envelope) ≡ length envelope
unfolding check_frame
check_frame-frame_build envelope =
    let n2 : length (frame_build envelope) - 2 ≡ length envelope =
      omega (arith, length-frame_build envelope) in
    let n1 : length (frame_build envelope) - 1 ≡ suc (length envelope) =
      omega (arith, length-frame_build envelope) in
    let same : join_bytes (get_or (frame_build envelope) (length envelope) 0)
          (get_or (frame_build envelope) (suc (length envelope)) 0)
        ≡ frame_crc16 envelope =
      unfold frame_build in
      rw (get_or_second_last envelope, get_or_last envelope)
        (join_bytes-split (frame_crc16 envelope) (frame_crc16-lt envelope)) in
    rw (
      le→ltb (length (frame_build envelope)) 2 (omega (arith, length-frame_build envelope)),
      n2,
      n1,
      frame_crc-frame_build envelope,
      same,
      ==_refl (frame_crc16 envelope),
    )

-- The envelopes that a stream hands over, in order, and the reader after it.
unfoldable pub read_stream : FrameReader → List ℕ → FrameReader × List (List ℕ)
read_stream r [] = (r, [])
read_stream r (b ∷ bs) =
    let fed = feed r b in
    let (r', rest) = read_stream fed.reader bs in
    (r', if has_frame fed.ret then take fed.ret fed.frame_out ∷ rest else rest)

feed_data :
    (r : FrameReader) (b : ℕ)
    → 0 < b
    → length r.wire < frame_max_wire
    → feed r b ≡ record { reader = record r { wire = r.wire ++ b ∷ [] }; ret = 0; frame_out = [] }
unfolding feed
feed_data r b h room = rw (ne→== b 0 (omega arith), lt→leb frame_max_wire (length r.wire) room)

-- A call that hands nothing over only moves the reader on.
read_silent :
    (r r' : FrameReader) (b : ℕ) (out bs : List ℕ)
    → feed r b ≡ record { reader = r'; ret = 0; frame_out = out }
    → read_stream r (b ∷ bs) ≡ read_stream r' bs
unfolding read_stream
read_silent r r' b out bs e = rw e

-- Bytes of a body are stored one after another while they fit.
read_body :
    (body tail wire : List ℕ)
    → All IsData body
    → length wire + length body ≤ frame_max_wire
    → read_stream (record { wire = wire; overflow = false }) (body ++ tail)
      ≡ read_stream (record { wire = wire ++ body; overflow = false }) tail
read_body [] tail wire d fits = rw (append-nil wire)
read_body (b ∷ body) tail wire d fits =
    read_silent (record { wire = wire; overflow = false })
      (record { wire = wire ++ b ∷ []; overflow = false }) b [] (body ++ tail)
      (feed_data (record { wire = wire; overflow = false }) b d.0.0 (omega arith))
    ∙ read_body body tail (wire ++ b ∷ []) d.1
        (omega (arith, fits, length-append {0} wire (b ∷ [])))
    ∙ ap (λ (w : List ℕ). read_stream (record { wire = w; overflow = false }) tail)
        (append_assoc wire (b ∷ []) body)

-- The delimiter after a complete body hands its frame to the checks.
feed_delimiter :
    (wire : List ℕ)
    → 0 < length wire
    → feed (record { wire = wire; overflow = false }) 0 ≡ record {
      reader = reset;
      ret = check_frame (cobs_decode wire frame_max_decoded);
      frame_out = cobs_decode wire frame_max_decoded;
    }
unfolding feed
feed_delimiter wire h = rw (ne→== (length wire) 0 (omega arith))

has_frame_payload : (n : ℕ) → 0 < n → n ≤ max_frame_payload → has_frame n ≡ true
has_frame_payload n h k = rw (ne→== n 0 (omega arith), ne→== n size_max (omega arith))

read_delimiter :
    (r r' : FrameReader) (b n : ℕ) (out bs : List ℕ)
    → feed r b ≡ record { reader = r'; ret = n; frame_out = out }
    → has_frame n ≡ true
    → read_stream r (b ∷ bs) ≡ ((read_stream r' bs).0, take n out ∷ (read_stream r' bs).1)
unfolding read_stream
read_delimiter r r' b n out bs e h = rw (e, h)

-- An envelope that a frame can carry, and that is not empty.
abbrev pub IsEnvelope : List ℕ → Type 0
IsEnvelope envelope =
    IsBytes envelope × (0 < length envelope) × (length envelope ≤ max_frame_payload)

encoded_frame :
    (envelope : List ℕ)
    → length envelope ≤ max_frame_payload
    → frame_encode_envelope envelope ≡ cobs_encode (frame_build envelope) ++ 0 ∷ []
encoded_frame envelope h =
    frame_encode_envelope-eq-frame_encode_wire envelope
    ∙ rw (le→ltb max_frame_payload (length envelope) h) (unfold frame_encode_wire in refl)

read_frame :
    (envelope tail : List ℕ)
    → IsEnvelope envelope
    → read_stream reset (frame_encode_envelope envelope ++ tail)
      ≡ ((read_stream reset tail).0, envelope ∷ (read_stream reset tail).1)
read_frame envelope tail h =
    let b = frame_build-IsBytes envelope h.0 in
    let shape = cobs_encode-IsData (frame_build envelope) b in
    let body = cobs_encode (frame_build envelope) in
    let back : cobs_decode body frame_max_decoded ≡ frame_build envelope =
      cobs_decode-cobs_encode (frame_build envelope) frame_max_decoded b
        (omega (arith, length-frame_build envelope)) in
    let ends : feed (record { wire = body; overflow = false }) 0
        ≡ record { reader = reset; ret = length envelope; frame_out = frame_build envelope } =
      feed_delimiter body shape.1 ∙ rw back (rw (check_frame-frame_build envelope)) in
    ap (λ (s : List ℕ). read_stream reset (s ++ tail)) (encoded_frame envelope h.2)
    ∙ ap (read_stream reset) (append_assoc body (0 ∷ []) tail)
    ∙ read_body body (0 ∷ tail) [] shape.0 (omega (arith, shape.2, length-frame_build envelope))
    ∙ read_delimiter (record { wire = body; overflow = false }) reset 0 (length envelope)
        (frame_build envelope) tail ends (has_frame_payload (length envelope) h.1 h.2)
    ∙ ap (λ (p : List ℕ). ((read_stream reset tail).0, p ∷ (read_stream reset tail).1))
        (take_payload envelope)

-- The wire bytes of several envelopes, framed one after another.
abbrev pub frames : List (List ℕ) → List ℕ
frames [] = []
frames (e ∷ es) = frame_encode_envelope e ++ frames es

pub read_stream-append :
    (xs ys : List ℕ) (r : FrameReader)
    → let (r', got) = read_stream r xs in
      let (r'', more) = read_stream r' ys in read_stream r (xs ++ ys) ≡ (r'', got ++ more)
unfolding read_stream
read_stream-append [] ys r = refl
read_stream-append (b ∷ xs) ys r = elim (Bool-cases (has_frame (feed r b).ret)) [
  | inl e ↦ rw (e, read_stream-append xs ys (feed r b).reader)
  | inr e ↦ rw (e, read_stream-append xs ys (feed r b).reader)
]

-- Whatever was fed before it, a delimiter leaves the reader as it began.
feed_zero-reset : (r : FrameReader) → (feed r 0).reader ≡ reset
unfolding feed
feed_zero-reset r = ground arith

read_stream-reset : (r : FrameReader) (xs : List ℕ) → (read_stream r (xs ++ 0 ∷ [])).0 ≡ reset
unfolding read_stream
read_stream-reset r [] = feed_zero-reset r
read_stream-reset r (b ∷ xs) = read_stream-reset (feed r b).reader xs

-- Every framed envelope of 1 to 512 bytes is handed over as it was framed, in order, and the
-- reader ends as it began.
pub read_stream-frames :
    (es : List (List ℕ)) → All IsEnvelope es → read_stream reset (frames es) ≡ (reset, es)
read_stream-frames [] h = unfold read_stream in refl
read_stream-frames (e ∷ es) h = read_frame e (frames es) h.0 ∙ rw (read_stream-frames es h.1)

-- From any state of the reader and after any garbage, the first delimiter restores it: all frames
-- behind that delimiter are handed over in order, after whatever the garbage itself gave.
pub read_stream_recovers :
    (r : FrameReader) (garbage : List ℕ) (es : List (List ℕ))
    → All IsEnvelope es
    → read_stream r ((garbage ++ 0 ∷ []) ++ frames es)
      ≡ (reset, (read_stream r (garbage ++ 0 ∷ [])).1 ++ es)
read_stream_recovers r garbage es h =
    read_stream-append (garbage ++ 0 ∷ []) (frames es) r
    ∙ rw (read_stream-reset r garbage, read_stream-frames es h)
