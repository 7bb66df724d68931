-- ===== src/Sim.antt =====
-- `SimRadio` of include/meshpigeon/sim_radio.h: a radio without silicon, for the simulator. `unsigned`
-- has 32 bits; a packet is its bytes, of which there are at most 255.
pub mod Send
use meshpigeon_firmware.Prelude.{
  ℕ, ◌+◌, ◌-◌, ◌*◌, ◌/◌, ◌%◌, ◌^◌, List, [], ◌∷◌, ◌++◌, Bool, true, false, ◌&&◌, not, Option, none,
  some, ltb, leb, ◌==◌, if◌then◌else◌,
}
use meshpigeon_firmware.Settings.Radio.{RadioSettings}

-- `applied` is what `apply` was last called with, if it was.
pub record SimRadio : Type 0 where
  pub rng : ℕ
  pub loss_pct : ℕ
  pub dup_pct : ℕ
  pub applied : Option RadioSettings
  pub last_tx : List ℕ
  pub tx_count : ℕ
  pub tx_active : Bool
  pub tx_ticks_left : ℕ
  pub air : List (List ℕ)

-- kTxTicks
abbrev pub tx_ticks : ℕ
tx_ticks = 3

unfoldable pub create : ℕ → SimRadio
create seed = record {
  rng = seed;
  loss_pct = 0;
  dup_pct = 0;
  applied = none;
  last_tx = [];
  tx_count = 0;
  tx_active = false;
  tx_ticks_left = tx_ticks;
  air = [];
}

-- The next state of the generator, and the draw from it.
unfoldable pub next_rng : ℕ → ℕ
next_rng rng = (rng * 1103515245 + 12345) % 2 ^ 32

unfoldable pub draw : ℕ → ℕ
draw rng = next_rng rng / 2 ^ 16 % 2 ^ 15

unfoldable pub loss : ℕ → ℕ
loss rng = draw rng % 100

unfoldable pub apply : SimRadio → RadioSettings → SimRadio × Bool
apply r s = (record r { applied = some s }, leb 150000000 s.freq_hz && (leb 5 s.sf && leb s.sf 12))

-- The answer is whether the transmission was started.
unfoldable pub transmit : SimRadio → List ℕ → SimRadio × Bool
transmit r raw =
    let drawn = record r { rng = next_rng r.rng } in
    if ltb (loss r.rng) r.loss_pct
    then (drawn, false)
    else (record drawn { last_tx = raw; tx_count = r.tx_count + 1; tx_active = true }, true)

-- The last packet goes to the air: lost, once, or twice.
unfoldable pub release : SimRadio → SimRadio
release r =
    let first = next_rng r.rng in
    let once = record r { rng = next_rng first; air = r.air ++ r.last_tx ∷ [] } in
    let twice = record once { air = once.air ++ r.last_tx ∷ [] } in
    if ltb (loss r.rng) r.loss_pct
    then record r { rng = first }
    else if ltb (loss first) r.dup_pct
    then twice
    else once

-- The counter is at least 1 in front of the decrement.
unfoldable pub tx_done : SimRadio → SimRadio × Bool
tx_done r =
    let left = r.tx_ticks_left - 1 in
    let ended = record (release (record r { tx_active = false })) { tx_ticks_left = tx_ticks } in
    if not r.tx_active
    then (r, true)
    else if left == 0
    then (ended, true)
    else (record r { tx_ticks_left = left }, false)

-- The bytes of the oldest packet on the air, and made-up readings as `int8_t` bit patterns.
unfoldable pub receive : SimRadio → SimRadio × Option (List ℕ × ℕ × ℕ)
receive r =
    let second = next_rng r.rng in
    elim r.air [
      | [] ↦ (r, none)
      | p ∷ rest ↦ (
        record r { rng = next_rng second; air = rest },
        some (p, 256 - 60 - draw r.rng % 40, draw second % 12),
      )
    ]

unfoldable pub inject : SimRadio → List ℕ → SimRadio
inject r raw = record r { air = r.air ++ raw ∷ [] }

unfoldable pub set_loss : SimRadio → ℕ → SimRadio
set_loss r pct = record r { loss_pct = pct }

unfoldable pub set_dup : SimRadio → ℕ → SimRadio
set_dup r pct = record r { dup_pct = pct }
