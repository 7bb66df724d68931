-- ===== src/Lora.antt =====
-- `LoraRadioBase` of src/radio_lora.h: the transmit and receive state over a LoRa chip. The chip's
-- driver library is a parameter; the conversions to its floating-point units are part of it.
pub mod Listen
use meshpigeon_firmware.Prelude.{
  ℕ, List, Bool, true, false, ◌&&◌, ◌||◌, not, Option, none, some, ltb, leb, ◌==◌, if◌then◌else◌,
  bit_and, bit_or,
}
use meshpigeon_firmware.Settings.Radio.{RadioSettings}

-- The calls of the chip's driver, with states in `C`: whether each was answered with no error. The
-- flags change by themselves: a reading of them leads to a state of its own. The
-- masks are those of the chip's traits. `rssi` and `snr` are `int8_t` bit patterns.
pub record Chip (C : Type 0) : Type 0 where
  pub standby : C → C × Bool
  pub set_frequency : C → ℕ → C × Bool
  pub set_bandwidth : C → ℕ → C × Bool
  pub set_spreading_factor : C → ℕ → C × Bool
  pub set_coding_rate : C → ℕ → C × Bool
  pub set_preamble_length : C → ℕ → C × Bool
  pub set_output_power : C → ℕ → C × Bool
  pub set_crc : C → ℕ → C × Bool
  pub start_receive : C → C × Bool
  pub start_transmit : C → List ℕ → C × Bool
  pub finish_transmit : C → C
  pub irq_flags : C → C × ℕ
  pub packet_length : C → ℕ
  pub read_data : C → ℕ → C × Option (List ℕ)
  pub rssi : C → ℕ
  pub snr : C → ℕ
  pub crc_len : ℕ
  pub irq_tx_done : ℕ
  pub irq_rx_done : ℕ
  pub irq_crc_err : ℕ
  pub irq_header_err : ℕ
  pub header_err_quirk : Bool

pub record LoraRadio (C : Type 0) : Type 0 where
  pub chip : C
  pub tx_started : Bool

pub record Received : Type 0 where
  pub raw : List ℕ
  pub rssi : ℕ
  pub snr : ℕ

module _ {C : Type 0} (chip : Chip C) where
  -- The next call, unless the one before failed.
  abbrev pub next : C × Bool → (C → C × Bool) → C × Bool
  next (c, true) call = call c
  next (c, false) call = (c, false)

  unfoldable pub start_rx : C → C × Bool
  start_rx c = chip.start_receive c

  -- Everything of `apply` in front of the receiver's start.
  unfoldable pub tune : C → RadioSettings → C × Bool
  tune c s =
      let frequency = next (chip.standby c) (λ c. chip.set_frequency c s.freq_hz) in
      let bandwidth = next frequency (λ c. chip.set_bandwidth c s.bw_x100khz) in
      let spreading = next bandwidth (λ c. chip.set_spreading_factor c s.sf) in
      let coding = next spreading (λ c. chip.set_coding_rate c s.cr) in
      let preamble =
        next coding (λ c. chip.set_preamble_length c (if leb s.sf 8 then 32 else 16)) in
      let power = next preamble (λ c. chip.set_output_power c s.power_dbm) in
      next power (λ c. chip.set_crc c chip.crc_len)

  unfoldable pub apply : LoraRadio C → RadioSettings → LoraRadio C × Bool
  apply r s =
      let (c, tuned) = next (tune r.chip s) start_rx in
      if r.tx_started then (r, false) else (record r { chip = c }, tuned)

  -- The answer is whether the transmission was started.
  unfoldable pub transmit : LoraRadio C → List ℕ → LoraRadio C × Bool
  transmit r raw =
      let (c, started) = chip.start_transmit (chip.standby r.chip).0 raw in
      if r.tx_started
      then (r, false)
      else if not started
      then (record r { chip = (start_rx c).0 }, false)
      else (record { chip = c; tx_started = true }, true)

  unfoldable pub tx_done : LoraRadio C → LoraRadio C × Bool
  tx_done r =
      let (asked, irq) = chip.irq_flags r.chip in
      if not r.tx_started
      then (r, true)
      else if not (bit_and irq chip.irq_tx_done == 0)
      then (record { chip = (start_rx (chip.finish_transmit asked)).0; tx_started = false }, true)
      else (record r { chip = asked }, false)

  -- The data are read only where the checksum was right and the length fits the caller's buffer.
  unfoldable pub read_packet : C → Bool → C × Option (List ℕ)
  read_packet c crc_ok =
      let plen = chip.packet_length c in
      if crc_ok && (ltb 0 plen && leb plen 255) then chip.read_data c plen else (c, none)

  unfoldable pub receive : LoraRadio C → LoraRadio C × Option Received
  receive r =
      let (asked, irq) = chip.irq_flags r.chip in
      let header_err = not (bit_and irq chip.irq_header_err == 0) in
      let crc_ok = bit_and irq (bit_or chip.irq_crc_err chip.irq_header_err) == 0 in
      let (c, got) = read_packet asked crc_ok in
      let listening = (start_rx c).0 in
      let here = record r { chip = listening } in
      if bit_and irq chip.irq_rx_done == 0
      then (record r { chip = asked }, none)
      else if chip.header_err_quirk && (header_err && chip.packet_length asked == 0)
      then (record r { chip = (start_rx (chip.standby asked).0).0 }, none)
      else elim got [
        | none ↦ (here, none)
        | some raw ↦ (
          here,
          some (record { raw = raw; rssi = chip.rssi listening; snr = chip.snr listening }),
        )
      ]
