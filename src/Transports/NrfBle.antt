-- ===== src/Transports/NrfBle.antt =====
-- `BleSink` of src/transports.h on the nRF52: one central, a ring of 16 frames that wait for the
-- SoftDevice to take them, 20 bytes at a time. Bluefruit is a parameter.
pub mod Ring
pub mod Stream
pub mod Send
pub mod Backlog
pub mod Pump
use meshpigeon_firmware.Prelude.{
  ℕ, zero, suc, ◌+◌, ◌-◌, ◌%◌, List, [], ◌∷◌, Bool, true, false, ◌&&◌, ◌||◌, not, Option, none,
  some, ltb, ◌==◌, if◌then◌else◌, length, take, drop, set, get_or, min, replicate,
}
use meshpigeon_firmware.Framing.Frame.{frame_encode_envelope}
use meshpigeon_firmware.Framing.Reader.{FrameReader, reset, drain_frames}

-- The calls of the stack, with states in `U`. `write` says how many bytes it took; `connected`
-- whether Bluefruit has a central. While the loop waits for a millisecond, `delay` may report a
-- central that came (true) or went (false).
pub record Uart (U : Type 0) : Type 0 where
  pub write : U → List ℕ → U × ℕ
  pub connected : U → Bool
  pub delay : U → U × Option Bool

pub record Queued : Type 0 where
  pub len : ℕ
  pub off : ℕ
  pub buf : List ℕ

-- `queue` is the array, of which `count` items from `head` on are in use. `rx` are the bytes that
-- wait in the receive buffer of the stack.
pub record NrfBle (U : Type 0) : Type 0 where
  pub uart : U
  pub queue : List Queued
  pub head : ℕ
  pub count : ℕ
  pub is_connected : Bool
  pub drop_pending : Bool
  pub reader : FrameReader
  pub rx : List ℕ

-- kQueueDepth, kChunk, kDrainWaitMs
abbrev pub queue_depth : ℕ
queue_depth = 16

abbrev pub chunk_max : ℕ
chunk_max = 20

abbrev pub drain_wait_ms : ℕ
drain_wait_ms = 50

abbrev pub empty_slot : Queued
empty_slot = record { len = 0; off = 0; buf = [] }

module _ {U : Type 0} where
  unfoldable pub on_connect : NrfBle U → NrfBle U
  on_connect s = record s { is_connected = true }

  unfoldable pub on_disconnect : NrfBle U → NrfBle U
  on_disconnect s = record s { is_connected = false; drop_pending = true }

  -- The callback that the stack made while the loop waited, if it made one.
  unfoldable pub called_back : NrfBle U → Option Bool → NrfBle U
  called_back s none = s
  called_back s (some true) = on_connect s
  called_back s (some false) = on_disconnect s

-- The bytes of `n` frames from slot `i` on that are not out.
unfoldable pub left_over : List Queued → ℕ → ℕ → ℕ
left_over queue i zero = 0
left_over queue i (suc n) =
    let q = get_or queue i empty_slot in (q.len - q.off) + left_over queue ((i + 1) % queue_depth) n

module _ {U : Type 0} (uart : Uart U) where
  unfoldable pub connected : NrfBle U → Bool
  connected s = s.is_connected && uart.connected s.uart

  unfoldable pub ble_clients : NrfBle U → ℕ
  ble_clients s = if connected s then 1 else 0

  unfoldable pub delay : NrfBle U → NrfBle U
  delay s = let (u, event) = uart.delay s.uart in called_back (record s { uart = u }) event

  -- The front frame, `written` bytes further; a frame that is out leaves the ring.
  unfoldable pub advance : NrfBle U → ℕ → NrfBle U
  advance s written =
      let q = get_or s.queue s.head empty_slot in
      let moved = record q { off = q.off + written } in
      let put = record s { queue = set s.queue s.head moved } in
      if moved.off == moved.len
      then record put { head = (s.head + 1) % queue_depth; count = s.count - 1 }
      else put

  -- Did anything drain?
  unfoldable pub drain_step : NrfBle U → NrfBle U × Bool
  drain_step s =
      let q = get_or s.queue s.head empty_slot in
      let chunk = min (q.len - q.off) chunk_max in
      let (u, written) = uart.write s.uart (take chunk (drop q.off q.buf)) in
      let asked = record s { uart = u } in
      if not (connected s) || s.count == 0
      then (s, false)
      else if written == 0
      then (asked, false)
      else (advance asked written, true)

  -- The wait, with `left` milliseconds of it left.
  unfoldable pub room_loop : ℕ → NrfBle U → NrfBle U
  room_loop zero s = if s.count == 0 then s else (drain_step s).0
  room_loop (suc left) s =
      let (tried, drained) = drain_step s in
      let rest = room_loop left (delay tried) in
      if s.count == 0
      then s
      else if drained
      then tried
      else if not (connected tried)
      then record tried { head = 0; count = 0 }
      else rest

  unfoldable pub make_room : NrfBle U → NrfBle U
  make_room s =
      let waited = room_loop drain_wait_ms s in
      if waited.count == queue_depth then record waited { count = 0 } else waited

  unfoldable pub send_frame : NrfBle U → List ℕ → NrfBle U
  send_frame s decoded =
      let wire = frame_encode_envelope decoded in
      let ready = make_room s in
      let slot = (ready.head + ready.count) % queue_depth in
      let queued : Queued = record { len = length wire; off = 0; buf = wire } in
      if not (connected s)
      then s
      else if ready.count == queue_depth
      then ready
      else record ready { queue = set ready.queue slot queued; count = ready.count + 1 }

  -- `flush`: each round sends a byte at least or waits for a millisecond.
  unfoldable pub flush_loop : ℕ → ℕ → NrfBle U → NrfBle U
  flush_loop zero waiting s = s
  flush_loop (suc fuel) waiting s =
      let (tried, drained) = drain_step s in
      let rest = flush_loop fuel waiting tried in
      let waited = flush_loop fuel (waiting - 1) (delay tried) in
      if s.count == 0 || waiting == 0 then s else if drained then rest else waited

  unfoldable pub flush : ℕ → NrfBle U → NrfBle U
  flush timeout_ms s = flush_loop (left_over s.queue s.head s.count + timeout_ms) timeout_ms s
