-- ===== src/Transports/EspBle.antt =====
-- `BleSink` of src/transports.h on the ESP32: three slots for centrals. The callbacks run in the
-- Bluetooth host's task and only flag a slot or queue bytes; `pump` runs in the board loop, and is
-- the only one that touches the processor. NimBLE is a parameter.
pub mod Slots
pub mod Notify
use meshpigeon_firmware.Prelude.{
  ℕ, zero, suc, ◌+◌, ◌-◌, ◌%◌, ◌^◌, List, [], ◌∷◌, ◌++◌, Bool, true, false, ◌&&◌, not, Option, none,
  some, ltb, ◌==◌, if◌then◌else◌, length, take, drop, set, get_or, min,
}
use meshpigeon_firmware.Framing.Frame.{frame_encode_envelope}
use meshpigeon_firmware.Framing.Reader.{FrameReader, reset, drain_frames}
use meshpigeon_firmware.Processor.Message.{Ports}
use meshpigeon_firmware.Processor.State.{Processor, add_sink, remove_sink}
use meshpigeon_firmware.Processor.Handle.{on_envelope}
use meshpigeon_firmware.Transports.RxFifo
use meshpigeon_firmware.Transports.RxFifo.{RxFifo, available}
use meshpigeon_firmware.Transports.RxFifo.Fifo.{bytes_at}

-- The flag `authenticated` of a slot is the processor's, under the slot's number as a connection.
pub record Connection : Type 0 where
  pub handle : ℕ
  pub in_use : Bool
  pub subscribed : Bool
  pub registered : Bool
  pub pending_disconnect : Bool
  pub rx : RxFifo
  pub reader : FrameReader

-- What the loop asks of the Bluetooth server.
pub data ServerCall : Type 0 where
  disconnect : ℕ → ServerCall
  advertise : ServerCall

pub record EspBle (R S : Type 0) : Type 0 where
  pub proc : Processor R S
  pub conns : List Connection
  pub calls : List ServerCall

-- kMaxCentrals
abbrev pub max_centrals : ℕ
max_centrals = 3

abbrev pub empty_rx : RxFifo
empty_rx = record { buf = []; head = 0; tail = 0 }

abbrev pub no_connection : Connection
no_connection = record {
  handle = 0;
  in_use = false;
  subscribed = false;
  registered = false;
  pending_disconnect = false;
  rx = empty_rx;
  reader = reset;
}

-- The first slot from `i` on that a central of this handle has.
unfoldable pub find : ℕ → List Connection → ℕ → Option ℕ
find i [] handle = none
find i (c ∷ conns) handle =
    let rest = find (i + 1) conns handle in
    if c.in_use && (c.handle == handle) then some i else rest

-- The first slot that is free.
unfoldable pub first_free : ℕ → List Connection → Option ℕ
first_free i [] = none
first_free i (c ∷ conns) = let rest = first_free (i + 1) conns in if c.in_use then rest else some i

unfoldable pub ble_clients : List Connection → ℕ
ble_clients [] = 0
ble_clients (c ∷ conns) = let n = ble_clients conns in if c.in_use then n + 1 else n

module _ {R S : Type 0} (ports : Ports R S) (first_sink : ℕ) where
  abbrev pub slot : EspBle R S → ℕ → Connection
  slot st i = get_or st.conns i no_connection

  abbrev pub put_slot : EspBle R S → ℕ → Connection → EspBle R S
  put_slot st i c = record st { conns = set st.conns i c }

  -- A free slot for a central: nothing of the slot's last one is left in it.
  unfoldable pub claim : EspBle R S → ℕ → ℕ → EspBle R S
  claim st i handle =
      let c = slot st i in
      let fresh = record c {
        handle = handle;
        in_use = true;
        pending_disconnect = false;
        subscribed = false;
        rx = RxFifo.clear c.rx;
        reader = reset;
      } in
      let closed = record st.proc {
        authenticated = λ s. if s == first_sink + i then false else st.proc.authenticated s;
      } in
      put_slot (record st { proc = closed }) i fresh

  unfoldable pub on_connect : EspBle R S → ℕ → EspBle R S
  on_connect st handle = elim (first_free 0 st.conns) [
    | none ↦ record st { calls = st.calls ++ ServerCall.disconnect handle ∷ [] }
    | some i ↦ claim st i handle
  ]

  unfoldable pub on_disconnect : EspBle R S → ℕ → EspBle R S
  on_disconnect st handle = elim (find 0 st.conns handle) [
    | none ↦ st
    | some i ↦ put_slot st i (record (slot st i) { pending_disconnect = true })
  ]

  unfoldable pub on_subscribe : EspBle R S → ℕ → ℕ → EspBle R S
  on_subscribe st handle sub_value = elim (find 0 st.conns handle) [
    | none ↦ st
    | some i ↦ put_slot st i (record (slot st i) { subscribed = not (sub_value == 0) })
  ]

  unfoldable pub on_write : EspBle R S → ℕ → List ℕ → EspBle R S
  on_write st handle bytes = elim (find 0 st.conns handle) [
    | none ↦ st
    | some i ↦ put_slot st i (record (slot st i) { rx = RxFifo.write (slot st i).rx bytes })
  ]

  -- The slot of a central that is gone: the registration first, and `in_use` with the rest.
  unfoldable pub release : EspBle R S → ℕ → EspBle R S
  release st i =
      let c = slot st i in
      let left = if c.registered then remove_sink st.proc (first_sink + i) else st.proc in
      let freed = record c {
        pending_disconnect = false;
        registered = false;
        rx = RxFifo.clear c.rx;
        reader = reset;
        in_use = false;
      } in
      let told = record st { proc = left; calls = st.calls ++ ServerCall.advertise ∷ [] } in
      put_slot told i freed

  -- The bytes that wait go through the slot's reader; those that are taken leave the ring.
  unfoldable pub drain_slot : EspBle R S → ℕ → EspBle R S
  drain_slot st i =
      let c = slot st i in
      let waiting = bytes_at c.rx.buf c.rx.tail (available c.rx) in
      let (proc, reader, rest) =
        drain_frames (λ p bytes. on_envelope ports p bytes (first_sink + i)) st.proc c.reader
          waiting in
      let taken = available c.rx - length rest in
      put_slot (record st { proc = proc }) i
        (record c { reader = reader; rx = record (c.rx) { tail = (c.rx.tail + taken) % 2 ^ 32 } })

  -- A central that has no place in the registry yet: it gets one, or is turned away.
  unfoldable pub register : EspBle R S → ℕ → EspBle R S
  register st i =
      let c = slot st i in
      let (added, proc) = add_sink st.proc (first_sink + i) in
      let refused = put_slot st i (record c { pending_disconnect = true }) in
      let joined = put_slot (record st { proc = proc }) i (record c { registered = true }) in
      if not added
      then record refused { calls = st.calls ++ ServerCall.disconnect c.handle ∷ [] }
      else drain_slot (record joined { calls = st.calls ++ ServerCall.advertise ∷ [] }) i

  unfoldable pub pump_slot : EspBle R S → ℕ → EspBle R S
  pump_slot st i =
      let c = slot st i in
      if c.pending_disconnect
      then release st i
      else if not c.in_use
      then st
      else if not c.registered
      then register st i
      else drain_slot st i

  unfoldable pub pump : EspBle R S → EspBle R S
  pump st = pump_slot (pump_slot (pump_slot st 0) 1) 2
