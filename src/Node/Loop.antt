-- ===== src/Node/Loop.antt =====
-- The board loop of src/main.cpp over the LoRa driver: the USB console (`UsbCdcSink` of
-- src/transports.h) and `radio_loop`. The Bluetooth and Wi-Fi transports have modules of their own.
use meshpigeon_firmware.Prelude.{
  ℕ, ◌≡◌, refl, sym, ◌∙◌, ap, List, [], ◌∷◌, ◌++◌, Option, none, some, take, Option-cases, map, inl,
  inr,
}
use meshpigeon_firmware.Lora
use meshpigeon_firmware.Lora.{Chip, LoraRadio, Received}
use meshpigeon_firmware.Framing.Reader.{FrameReader, drain_frames, frame_max_drain}
use meshpigeon_firmware.Framing.Reader.Deliver.{read_stream}
use meshpigeon_firmware.Framing.Reader.Drain.{serve, drain_loop_lem}
use meshpigeon_firmware.Processor.Message.{Ports}
use meshpigeon_firmware.Processor.State.{Processor, add_sink}
use meshpigeon_firmware.Processor.Handle.{on_envelope, on_packet_received, poll}
use meshpigeon_firmware.Processor.Life.{Action, act, run}
use meshpigeon_firmware.Node.OnLora.{over_lora, listen}

module _ {C S : Type 0} (chip : Chip C) (ports : Ports (LoraRadio C) S) where
  abbrev pub board : Ports (LoraRadio C) S
  board = over_lora chip ports

  -- A tick of the processor at the time `now`, then what the radio has caught.
  unfoldable pub radio_loop : Processor (LoraRadio C) S → ℕ → Processor (LoraRadio C) S
  radio_loop p now =
      let polled = poll board p now in
      let (radio, got) = Lora.receive chip polled.radio in
      let asked = record polled { radio = radio } in
      elim got [ none ↦ asked | some r ↦ (on_packet_received board asked r.rssi r.snr r.raw).1 ]

  -- The USB console is the connection `usb`; `serial` are the bytes that wait at its port.
  unfoldable pub usb_begin : Processor (LoraRadio C) S → ℕ → Processor (LoraRadio C) S
  usb_begin p usb = (add_sink p usb).1

  unfoldable pub usb_pump :
      Processor (LoraRadio C) S
      → FrameReader
      → ℕ
      → List ℕ
      → Processor (LoraRadio C) S × FrameReader × List ℕ
  usb_pump p reader usb serial =
      drain_frames (λ q bytes. on_envelope board q bytes usb) p reader serial

  -- The part of a turn of the loop that is the USB console's and the radio's, with the bytes that
  -- came over USB: the processor and the console's reader.
  unfoldable pub turn :
      Processor (LoraRadio C) S
      → FrameReader
      → ℕ
      → List ℕ
      → ℕ
      → Processor (LoraRadio C) S × FrameReader
  turn p reader usb serial now =
      let (pumped, left, rest) = usb_pump p reader usb serial in (radio_loop pumped now, left)

  -- What the radio has caught, as an action.
  abbrev pub caught : Option Received → List Action
  caught none = []
  caught (some r) = Action.heard r.rssi r.snr r.raw ∷ []

  radio_loop-run :
      (p : Processor (LoraRadio C) S) (now : ℕ)
      → radio_loop p now
        ≡ run board (listen chip ports) p (
            Action.tick now
            ∷ Action.listened
            ∷ caught (Lora.receive chip (poll board p now).radio).1)
  unfolding radio_loop run act
  radio_loop-run p now = elim (Option-cases (Lora.receive chip (poll board p now).radio).1) [
    | inl e ↦ rw (e, radio_loop) refl
    | inr (r, e) ↦ rw (e, radio_loop) refl
  ]

  run-append :
      (p : Processor (LoraRadio C) S) (xs ys : List Action)
      → run board (listen chip ports) p (xs ++ ys)
        ≡ run board (listen chip ports) (run board (listen chip ports) p xs) ys
  unfolding run
  run-append p [] ys = refl
  run-append p (x ∷ xs) ys = run-append (act board (listen chip ports) p x) xs ys

  -- Frames of one connection, as actions.
  abbrev pub envelopes : ℕ → List (List ℕ) → List Action
  envelopes usb frames = map (λ bytes. Action.envelope bytes usb) frames

  serve-run :
      (usb : ℕ) (p : Processor (LoraRadio C) S) (frames : List (List ℕ))
      → serve (λ q bytes. on_envelope board q bytes usb) p frames
        ≡ run board (listen chip ports) p (envelopes usb frames)
  unfolding serve run act
  serve-run usb p [] = refl
  serve-run usb p (f ∷ frames) = serve-run usb (on_envelope board p f usb) frames

  -- What the USB console and the radio do in a turn of the board loop is this run of the processor:
  -- the envelopes that are whole in the bytes of the turn's budget, in their order and all of them,
  -- a tick at the time of the turn, a look at the receiver and, exactly where that gives a packet,
  -- this packet as it was received. What the budget cuts off in the middle stays in the reader.
  pub turn-run :
      (p : Processor (LoraRadio C) S) (reader : FrameReader) (usb : ℕ) (serial : List ℕ) (now : ℕ)
      → let (left, frames) = read_stream reader (take frame_max_drain serial) in
        let served = run board (listen chip ports) p (envelopes usb frames) in
        let got = (Lora.receive chip (poll board served now).radio).1 in
        ((turn p reader usb serial now).0
          ≡ run board
              (listen chip ports)
              p
              (envelopes usb frames ++ Action.tick now ∷ Action.listened ∷ caught got))
        × ((turn p reader usb serial now).1 ≡ left)
  unfolding turn usb_pump drain_frames
  turn-run p reader usb serial now =
      let (left, frames) = read_stream reader (take frame_max_drain serial) in
      let served = run board (listen chip ports) p (envelopes usb frames) in
      let got = (Lora.receive chip (poll board served now).radio).1 in
      let drained =
        drain_loop_lem (λ q bytes. on_envelope board q bytes usb) frame_max_drain p reader serial in
      (
        ap (λ (t : Processor (LoraRadio C) S × FrameReader × List ℕ). radio_loop t.0 now) drained
            ∙ ap (λ (q : Processor (LoraRadio C) S). radio_loop q now) (serve-run usb p frames)
            ∙ radio_loop-run served now
            ∙ sym (
                run-append p (envelopes usb frames)
                  (Action.tick now ∷ Action.listened ∷ caught got)),
        ap (λ (t : Processor (LoraRadio C) S × FrameReader × List ℕ). t.1) drained,
      )
