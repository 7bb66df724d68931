-- ===== src/Sim/Send.antt =====
-- How a simulated transmission ends.
use meshpigeon_firmware.Prelude.{
  ℕ, ◌≤◌, ◌≡◌, refl, sym, List, [], ◌∷◌, ◌++◌, append-nil, append_assoc, replicate, true, false,
  arith, ltb, Bool-cases, inl, inr,
}
use mathlib.Core.Bool.{false≢true}
use meshpigeon_firmware.Sim.{SimRadio, loss, next_rng, tx_ticks, transmit, release, tx_done}

-- What a packet's release adds to the air: no copy of it, one, or two, and nothing else.
release_air :
    (r : SimRadio) → (n : ℕ) × (n ≤ 2) × ((release r).air ≡ r.air ++ replicate n r.last_tx)
unfolding release
release_air r = elim (Bool-cases (ltb (loss r.rng) r.loss_pct)) [
  | inl lost ↦ rw lost (0, omega arith, sym (append-nil r.air))
  | inr kept ↦ elim (Bool-cases (ltb (loss (next_rng r.rng)) r.dup_pct)) [
    | inl twice ↦
        rw (kept, twice) (2, omega arith, append_assoc r.air (r.last_tx ∷ []) (r.last_tx ∷ []))
    | inr once ↦ rw (kept, once) (1, omega arith, refl)
  ]
]

release_idle : (r : SimRadio) → (release r).tx_active ≡ r.tx_active
unfolding release
release_idle r = elim (Bool-cases (ltb (loss r.rng) r.loss_pct)) [
  | inl lost ↦ rw lost
  | inr kept ↦ elim (Bool-cases (ltb (loss (next_rng r.rng)) r.dup_pct)) [
    | inl twice ↦ rw (kept, twice)
    | inr once ↦ rw (kept, once)
  ]
]

-- A transmission that was started is reported as finished by the third question about it, not
-- before, and has then put at most two copies of its packet on the air, behind what was there.
pub tx_done-transmit :
    (r : SimRadio) (raw : List ℕ)
    → r.tx_ticks_left ≡ tx_ticks
    → (transmit r raw).1 ≡ true
    → let first = tx_done (transmit r raw).0 in
      let second = tx_done first.0 in
      let third = tx_done second.0 in
      (first.1 ≡ false)
      × (second.1 ≡ false)
      × (third.1 ≡ true)
      × (third.0.tx_active ≡ false)
      × (third.0.tx_ticks_left ≡ tx_ticks)
      × ((n : ℕ) × (n ≤ 2) × (third.0.air ≡ r.air ++ replicate n raw))
unfolding transmit tx_done
tx_done-transmit r raw ticks started = elim (Bool-cases (ltb (loss r.rng) r.loss_pct)) [
  | inl lost ↦ let refused : false ≡ true = rw lost at started in absurd (false≢true refused)
  | inr kept ↦ rw (kept, ticks) (refl, refl, refl, release_idle _, refl, release_air _)
]
