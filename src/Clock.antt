-- ===== src/Clock.antt =====
-- `UptimeClock` and `ManualClock` of lib/meshpigeon-core (uptime_clock.h).
mod Tests
pub mod Tracking
use meshpigeon_firmware.Prelude.{ℕ, ◌+◌, ◌*◌, ◌%◌, ◌^◌, bit_or, ltb, if◌then◌else◌}

-- The clock without its source: a reading of the source is an argument of `poll`.
pub record UptimeClock : Type 0 where
  pub last_ms : ℕ
  pub rollovers : ℕ
  pub boot_count : ℕ

abbrev pub start : UptimeClock
start = record { last_ms = 0; rollovers = 0; boot_count = 0 }

unfoldable pub poll : UptimeClock → ℕ → UptimeClock
poll c now = record c {
  rollovers = if ltb now c.last_ms then (c.rollovers + 1) % 2 ^ 32 else c.rollovers;
  last_ms = now;
}

unfoldable pub uptime_ms64 : UptimeClock → ℕ
uptime_ms64 c = bit_or (c.rollovers * 2 ^ 32 % 2 ^ 64) c.last_ms

unfoldable pub set_boot_count : UptimeClock → ℕ → UptimeClock
set_boot_count c n = record c { boot_count = n }

-- `ManualClock::advance` on the reading that the clock holds.
unfoldable pub advance : ℕ → ℕ → ℕ
advance now ms = (now + ms) % 2 ^ 32
