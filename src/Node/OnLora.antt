-- ===== src/Node/OnLora.antt =====
-- The command processor over `LoraRadioBase`, as src/main.cpp puts them together.
use meshpigeon_firmware.Prelude.{
  ℕ, ◌≤◌, ◌≡◌, refl, List, true, false, not, length, Bool-cases, inl, inr, bit_and, ◌==◌,
  Option-cases, ◌&&◌, bit_or,
}
use meshpigeon_firmware.Settings.Radio.{RadioSettings}
use meshpigeon_firmware.Lora
use meshpigeon_firmware.Lora.{Chip, LoraRadio, read_packet}
use meshpigeon_firmware.Processor.Message.{Ports}
use meshpigeon_firmware.Processor.State.{Processor, max_sinks}
use meshpigeon_firmware.Processor.Life.{Action, run, IsTransmitter}
use meshpigeon_firmware.Processor.Life.Live.{run-IsLive}

module _ {C S : Type 0} (chip : Chip C) (ports : Ports (LoraRadio C) S) where
  -- The driver as the processor's radio. Its `begin` depends on the chip.
  abbrev pub over_lora : Ports (LoraRadio C) S
  over_lora = record ports {
    apply = Lora.apply chip;
    transmit = Lora.transmit chip;
    tx_done = Lora.tx_done chip;
  }

  abbrev pub listen : LoraRadio C → LoraRadio C
  listen r = (Lora.receive chip r).0

  listen-started : (r : LoraRadio C) → (Lora.receive chip r).0.tx_started ≡ r.tx_started
  unfolding Lora.receive
  listen-started r =
      let asked = (chip.irq_flags r.chip).0 in
      let irq = (chip.irq_flags r.chip).1 in
      let header_err = not (bit_and irq chip.irq_header_err == 0) in
      let quirk = chip.header_err_quirk && (header_err && chip.packet_length asked == 0) in
      let crc_ok = bit_and irq (bit_or chip.irq_crc_err chip.irq_header_err) == 0 in
      elim (Bool-cases (bit_and irq chip.irq_rx_done == 0)) [
        | inl none_here ↦ rw none_here refl
        | inr here ↦ elim (Bool-cases quirk) [
          | inl e ↦ rw (here, e) refl
          | inr e ↦ elim (Option-cases (read_packet chip asked crc_ok).1) [
            | inl g ↦ rw (here, e, g, Lora.receive) refl
            | inr (raw, g) ↦ rw (here, e, g, Lora.receive) refl
          ]
        ]
      ]

  apply-started :
      (r : LoraRadio C) (s : RadioSettings) → (Lora.apply chip r s).0.tx_started ≡ r.tx_started
  unfolding Lora.apply
  apply-started r s = elim (Bool-cases r.tx_started) [ inl e ↦ rw e refl | inr e ↦ rw e refl ]

  transmit-started :
      (r : LoraRadio C) (raw : List ℕ)
      → r.tx_started ≡ false
      → (Lora.transmit chip r raw).0.tx_started ≡ (Lora.transmit chip r raw).1
  unfolding Lora.transmit
  transmit-started r raw idle =
      elim (Bool-cases (chip.start_transmit (chip.standby r.chip).0 raw).1) [
        | inl e ↦ rw (idle, e) refl
        | inr e ↦ rw (idle, e) refl
      ]

  tx_done-started :
      (r : LoraRadio C)
      → r.tx_started ≡ true
      → (Lora.tx_done chip r).0.tx_started ≡ not (Lora.tx_done chip r).1
  unfolding Lora.tx_done
  tx_done-started r out =
      elim (Bool-cases (bit_and (chip.irq_flags r.chip).1 chip.irq_tx_done == 0)) [
        | inl e ↦ rw (out, e) refl
        | inr e ↦ rw (out, e) refl
      ]

  over_lora-IsTransmitter : IsTransmitter (LoraRadio C) S over_lora listen (λ r. r.tx_started)
  over_lora-IsTransmitter = record {
    apply_keeps = apply-started;
    transmit_starts = transmit-started;
    tx_done_ends = tx_done-started;
    listen_keeps = listen-started;
  }

  -- Over the LoRa driver, and whatever the chip answers: any sequence of envelopes, packets off the
  -- air, ticks, connections that come and go, changes of the Wi-Fi and looks at the receiver keeps
  -- the processor's pending flag equal to the driver's, and at most eight connections registered.
  pub run-tx_started :
      (p : Processor (LoraRadio C) S) (actions : List Action)
      → p.tx_pending ≡ p.radio.tx_started
      → length p.sinks ≤ max_sinks
      → let q = run over_lora listen p actions in
        (q.tx_pending ≡ q.radio.tx_started) × (length q.sinks ≤ max_sinks)
  run-tx_started p actions in_step fits =
      let live =
        run-IsLive over_lora listen (λ r. r.tx_started) over_lora-IsTransmitter p actions
          (record { in_step = in_step; fits = fits }) in
      (live.in_step, live.fits)
