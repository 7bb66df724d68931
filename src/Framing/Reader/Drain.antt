-- ===== src/Framing/Reader/Drain.antt =====
-- What a call of `feed` may hand over, the bound of the wire buffer, and `drain_frames` against
-- the whole stream.
use meshpigeon_firmware.Prelude.{
  ℕ, zero, suc, ◌+◌, ◌*◌, ◌≤◌, ◌≡◌, refl, ap, ◌∙◌, sym, List, [], ◌∷◌, ◌++◌, true, ◌||◌, arith,
  ◌==◌, length, length-append, take, drop, length-drop, take-append-drop, get_or, Bool-cases,
  ==_iff, inl, inr,
}
use mathlib.Core.Bool.{false≢true}
use meshpigeon_firmware.Framing.Crc.{frame_crc, frame_crc16, join_bytes}
use meshpigeon_firmware.Framing.Cobs.{cobs_decode}
use meshpigeon_firmware.Framing.Cobs.Shape.{length-cobs_decode}
use meshpigeon_firmware.Framing.Frame.{max_frame_payload, frame_max_decoded, frame_max_wire}
use meshpigeon_firmware.Framing.Reader.{
  FrameReader, reset, check_frame, feed, has_frame, frame_max_drain, drain_loop, drain_frames,
}
use meshpigeon_firmware.Framing.Reader.Deliver.{read_stream, read_stream-append}

-- The array `wire_` is never overrun.
abbrev pub IsValid : FrameReader → Type 0
IsValid r = length r.wire ≤ frame_max_wire

-- The wire buffer is never overrun: it holds at most its 518 bytes after each byte, as before.
pub feed-IsValid : (r : FrameReader) (b : ℕ) → IsValid r → IsValid (feed r b).reader
unfolding feed
feed-IsValid r b h = ground (arith, length-append {0} r.wire (b ∷ []))

-- A frame that was decoded whole: a payload of at most 512 bytes and its own checksum.
pub record IsChecked (out : List ℕ) (n : ℕ) : Type 0 where
  pub size : length out ≡ n + 2
  pub bound : n ≤ max_frame_payload
  pub checksum : frame_crc16 (take n out) ≡ join_bytes (get_or out n 0) (get_or out (n + 1) 0)

check_frame-IsChecked :
    (out : List ℕ)
    → length out ≤ frame_max_decoded
    → has_frame (check_frame out) ≡ true
    → IsChecked out (check_frame out)
unfolding check_frame frame_crc
check_frame-IsChecked out h k = ground arith

-- The whole stream folded into the processor, with no budget.
unfoldable pub serve {ℓ} : {P : Type ℓ} → (P → List ℕ → P) → P → List (List ℕ) → P
serve f proc [] = proc
serve f proc (e ∷ es) = serve f (f proc e) es

-- What `feed` hands over: only at a delimiter, only a frame of at most 512 payload bytes whose
-- checksum is right, and the reader is as it began.
pub feed_hands_over :
    (r : FrameReader) (b : ℕ)
    → has_frame (feed r b).ret ≡ true
    → (b ≡ 0) × ((feed r b).reader ≡ reset) × IsChecked (feed r b).frame_out (feed r b).ret
unfolding feed
feed_hands_over r b h = elim (Bool-cases (b == 0)) [
  | inl ends ↦ elim (Bool-cases (r.overflow || length r.wire == 0)) [
    | inl dropped ↦
        let none_handed : has_frame 0 ≡ true = rw (ends, dropped) at h in
        absurd (false≢true none_handed)
    | inr complete ↦
        let accepted : has_frame (check_frame (cobs_decode r.wire frame_max_decoded)) ≡ true =
          rw (ends, complete) at h in
        rw (ends, complete)
          (
            (==_iff b 0).0 ends,
            refl,
            check_frame-IsChecked _ (length-cobs_decode r.wire frame_max_decoded) accepted,
          )
  ]
  | inr more ↦
      let stored : has_frame 0 ≡ true = ground (arith, h, more) in absurd (false≢true stored)
]

module _ {ℓ} {P : Type ℓ} (on_envelope : P → List ℕ → P) where
  pub drain_loop_lem :
      (budget : ℕ) (proc : P) (r : FrameReader) (src : List ℕ)
      → drain_loop on_envelope budget proc r src ≡ (
        serve on_envelope proc (read_stream r (take budget src)).1,
        (read_stream r (take budget src)).0,
        drop budget src,
      )
  unfolding drain_loop read_stream serve
  drain_loop_lem zero proc r [] = refl
  drain_loop_lem zero proc r (b ∷ src) = refl
  drain_loop_lem (suc budget) proc r [] = refl
  drain_loop_lem (suc budget) proc r (b ∷ src) = elim (Bool-cases (has_frame (feed r b).ret)) [
    | inl e ↦ rw e (drain_loop_lem budget _ (feed r b).reader src)
    | inr e ↦ rw e (drain_loop_lem budget _ (feed r b).reader src)
  ]

  serve-append :
      (xs ys : List (List ℕ)) (proc : P)
      → serve on_envelope proc (xs ++ ys) ≡ serve on_envelope (serve on_envelope proc xs) ys
  unfolding serve
  serve-append [] ys proc = refl
  serve-append (x ∷ xs) ys proc = serve-append xs ys (on_envelope proc x)

  -- Serving a stream in two parts.
  serve_split :
      (k : ℕ) (proc : P) (r : FrameReader) (src : List ℕ)
      → let (r', got) = read_stream r (take k src) in
        let (r'', more) = read_stream r' (drop k src) in
        ◌≡◌ {A = P × FrameReader}
          (serve on_envelope (serve on_envelope proc got) more, r'')
          (serve on_envelope proc (read_stream r src).1, (read_stream r src).0)
  serve_split k proc r src =
      let whole =
        sym (read_stream-append (take k src) (drop k src) r)
        ∙ ap (read_stream r) (take-append-drop k src) in
      ap (λ (p : P). (p, (read_stream (read_stream r (take k src)).0 (drop k src)).0))
        (sym (serve-append _ _ proc))
      ∙ ap (λ (t : FrameReader × List (List ℕ)). (serve on_envelope proc t.1, t.0)) whole

  -- One pump takes at most 16 maximum-size frames' worth of bytes. On those it acts as the whole
  -- stream would: each envelope that they complete is dispatched in order, the reader keeps what
  -- is begun, and every byte over the budget stays in the source.
  pub drain_frames_lem :
      (proc : P) (r : FrameReader) (src : List ℕ)
      → let seen = take frame_max_drain src in
        drain_frames on_envelope proc r src ≡ (
          serve on_envelope proc (read_stream r seen).1,
          (read_stream r seen).0,
          drop frame_max_drain src,
        )
  unfolding drain_frames
  drain_frames_lem proc r src = drain_loop_lem frame_max_drain proc r src

  -- `n` ticks of the board loop over a source that nothing is added to.
  unfoldable pub pumps : ℕ → P → FrameReader → List ℕ → P × FrameReader × List ℕ
  pumps zero proc r src = (proc, r, src)
  pumps (suc n) proc r src =
      let (proc', r', src') = drain_frames on_envelope proc r src in pumps n proc' r' src'

  -- Cutting the stream into pumps loses and reorders nothing: with enough ticks for the bytes
  -- the result is that of the whole stream at once, and the source is empty.
  pub pumps_complete :
      (n : ℕ) (proc : P) (r : FrameReader) (src : List ℕ)
      → length src ≤ n * frame_max_drain
      → pumps n proc r src
        ≡ (serve on_envelope proc (read_stream r src).1, (read_stream r src).0, [])
  unfolding pumps
  pumps_complete zero proc r [] h = unfold serve read_stream in refl
  pumps_complete zero proc r (b ∷ src) h = absurd (omega arith)
  pumps_complete (suc n) proc r src h =
      rw
        (
          drain_frames_lem proc r src,
          pumps_complete n _ _ (drop frame_max_drain src)
              (omega (arith, h, length-drop {0} frame_max_drain src)),
        )
        (ap (λ (t : P × FrameReader). (t.0, t.1, [])) (serve_split frame_max_drain proc r src))
