-- ===== src/Framing/Reader.antt =====
-- `FrameReader` of framing.h and framing.cpp, and `drain_frames` of frame_drain.h.
pub mod Deliver
pub mod Drain
use meshpigeon_firmware.Prelude.{
  ℕ, zero, suc, ◌+◌, ◌-◌, ◌*◌, ◌^◌, ◌≤◌, List, [], ◌∷◌, ◌++◌, Bool, true, false, ◌&&◌, ◌||◌, not,
  ltb, leb, ◌==◌, if◌then◌else◌, length, take, get_or,
}
use meshpigeon_firmware.Framing.Crc.{frame_crc, join_bytes}
use meshpigeon_firmware.Framing.Cobs.{cobs_decode}
use meshpigeon_firmware.Framing.Frame.{frame_max_decoded, frame_max_wire}

-- `wire` holds the first `wire_len_` bytes of the array `wire_`.
pub record FrameReader : Type 0 where
  pub wire : List ℕ
  pub overflow : Bool

abbrev pub reset : FrameReader
reset = record { wire = []; overflow = false }

-- `(size_t)-1` on the boards, where `size_t` has 32 bits.
abbrev pub size_max : ℕ
size_max = 2 ^ 32 - 1

-- What a call returns, with the decoded bytes that it left in `frame_out`.
pub record Fed : Type 0 where
  pub reader : FrameReader
  pub ret : ℕ
  pub frame_out : List ℕ

-- The decoded frame judged: too short, a wrong checksum, or the length of the payload.
unfoldable pub check_frame : List ℕ → ℕ
check_frame out =
    let n = length out in
    if ltb n 2
    then size_max
    else if frame_crc out == join_bytes (get_or out (n - 2) 0) (get_or out (n - 1) 0)
    then n - 2
    else size_max

unfoldable pub feed : FrameReader → ℕ → Fed
feed r byte =
    let out = cobs_decode r.wire frame_max_decoded in
    if byte == 0
    then (if r.overflow || length r.wire == 0
        then record { reader = reset; ret = 0; frame_out = [] }
        else record { reader = reset; ret = check_frame out; frame_out = out })
    else if leb frame_max_wire (length r.wire)
    then record { reader = record r { overflow = true }; ret = 0; frame_out = [] }
    else record { reader = record r { wire = r.wire ++ byte ∷ [] }; ret = 0; frame_out = [] }

-- The test of `drain_frames`: does a call hand a frame over?
abbrev pub has_frame : ℕ → Bool
has_frame res = not (res == 0) && not (res == size_max)

-- FRAME_MAX_DRAIN_PER_PUMP maximum-size frames, in bytes.
abbrev pub frame_max_drain : ℕ
frame_max_drain = 16 * frame_max_wire

-- The loop of `drain_frames`. The source is the list of bytes that it has available, `proc` is
-- the state that `on_envelope` changes, and the budget is the bytes left to this pump.
module _ {ℓ} {P : Type ℓ} (on_envelope : P → List ℕ → P) where
  unfoldable pub dispatch : P → Fed → P
  dispatch proc fed =
      if has_frame fed.ret then on_envelope proc (take fed.ret fed.frame_out) else proc

  unfoldable pub drain_loop : ℕ → P → FrameReader → List ℕ → P × FrameReader × List ℕ
  unfolding dispatch
  drain_loop budget proc r [] = (proc, r, [])
  drain_loop zero proc r (b ∷ src) = (proc, r, b ∷ src)
  drain_loop (suc budget) proc r (b ∷ src) =
      let fed = feed r b in drain_loop budget (dispatch proc fed) fed.reader src

  unfoldable pub drain_frames : P → FrameReader → List ℕ → P × FrameReader × List ℕ
  drain_frames proc r src = drain_loop frame_max_drain proc r src
