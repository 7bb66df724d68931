-- ===== src/Lora/Listen.antt =====
-- The radio is either sending or listening.
use meshpigeon_firmware.Prelude.{
  ℕ, ◌≡◌, refl, List, Bool, true, false, ◌==◌, bit_and, Bool-cases, ◌⊎◌, inl, inr,
}
use mathlib.Core.Bool.{false≢true}
use meshpigeon_firmware.Settings.Radio.{RadioSettings}
use meshpigeon_firmware.Lora.{Chip, LoraRadio, next, start_rx, tune, apply, transmit, tx_done}

module _ {C : Type 0} (chip : Chip C) where
  -- The last call to the chip was the one that starts the receiver.
  abbrev pub IsListening : LoraRadio C → Type 0
  IsListening r = (c : C) × (r.chip ≡ (chip.start_receive c).0)

  -- What `transmit` and `tx_done` leave: the radio as it was, a transmission under way that was
  -- just begun and reported as begun, or the receiver started, with no transmission under way.
  pub transmit_lem :
      (r : LoraRadio C) (raw : List ℕ)
      → let (q, started) = transmit chip r raw in
        ((r.tx_started ≡ true) × (started ≡ false) × (q ≡ r))
        ⊎ (((r.tx_started ≡ false) × (started ≡ true) × (q.tx_started ≡ true))
            ⊎ ((started ≡ false) × (q.tx_started ≡ false) × IsListening q))
  unfolding transmit start_rx
  transmit_lem r raw =
      let begun = chip.start_transmit (chip.standby r.chip).0 raw in
      elim (Bool-cases r.tx_started) [
        | inl busy ↦ rw busy (inl (refl, refl, refl))
        | inr free ↦ elim (Bool-cases begun.1) [
          | inl started ↦ rw (free, started) (inr (inl (refl, refl, refl)))
          | inr refused ↦ rw (free, refused) (inr (inr (refl, refl, (begun.0, refl))))
        ]
      ]

  -- A transmission that `tx_done` reports as finished has left the receiver started, and until then
  -- the chip is only asked for its flags; with none under way there is nothing to wait for.
  pub tx_done_lem :
      (r : LoraRadio C)
      → let (q, done) = tx_done chip r in
        ((r.tx_started ≡ false) × (done ≡ true) × (q ≡ r))
        ⊎ (((r.tx_started ≡ true)
              × (done ≡ false)
              × (q ≡ record r { chip = (chip.irq_flags r.chip).0 }))
            ⊎ ((r.tx_started ≡ true) × (done ≡ true) × (q.tx_started ≡ false) × IsListening q))
  unfolding tx_done start_rx
  tx_done_lem r = elim (Bool-cases r.tx_started) [
    | inr free ↦ rw free (inl (refl, refl, refl))
    | inl busy ↦ elim (Bool-cases (bit_and (chip.irq_flags r.chip).1 chip.irq_tx_done == 0)) [
      | inl waiting ↦ rw (busy, waiting) (inr (inl (refl, refl, refl)))
      | inr finished ↦
          rw (busy, finished)
            (inr (inr (refl, refl, refl, (chip.finish_transmit (chip.irq_flags r.chip).0, refl))))
    ]
  ]

  next_listens :
      (x : C × Bool)
      → (next chip x (start_rx chip)).1 ≡ true
      → (c : C) × ((next chip x (start_rx chip)).0 ≡ (chip.start_receive c).0)
  unfolding start_rx
  next_listens (c, true) ok = (c, refl)
  next_listens (c, false) ok = absurd (false≢true ok)

  -- While a transmission is under way a new tuning is refused, and the chip is not even asked. A
  -- tuning that is accepted leaves the receiver started; one that is refused begins no transmission.
  pub apply_lem :
      (r : LoraRadio C) (s : RadioSettings)
      → let (q, accepted) = apply chip r s in
        ((r.tx_started ≡ true) × (accepted ≡ false) × (q ≡ r))
        ⊎ (((r.tx_started ≡ false) × (accepted ≡ false) × (q.tx_started ≡ false))
            ⊎ ((r.tx_started ≡ false) × (accepted ≡ true) × (q.tx_started ≡ false) × IsListening q))
  unfolding apply start_rx
  apply_lem r s =
      let last = next chip (tune chip r.chip s) (start_rx chip) in
      elim (Bool-cases r.tx_started) [
        | inl busy ↦ rw busy (inl (refl, refl, refl))
        | inr free ↦ elim (Bool-cases last.1) [
          | inr refused ↦ rw free (inr (inl (refl, refused, refl)))
          | inl tuned ↦
              rw free (inr (inr (refl, tuned, refl, next_listens (tune chip r.chip s) tuned)))
        ]
      ]
