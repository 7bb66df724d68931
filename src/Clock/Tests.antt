-- ===== src/Clock/Tests.antt =====
-- The clock's theorems at times on both sides of a wrap.
use meshpigeon_firmware.Prelude.{ℕ, ◌+◌, ◌-◌, ◌^◌, ◌≡◌, List, [], ◌∷◌, arith}
use meshpigeon_firmware.Clock.{UptimeClock, start, uptime_ms64}
use meshpigeon_firmware.Clock.Tracking.{poll_at, last_time, uptime_ms64-poll_at}

abbrev times : List ℕ
times = 1000 ∷ (2 ^ 32 - 1) ∷ (2 ^ 32 + 5) ∷ (2 ^ 33 + 1) ∷ []

uptime_ms64-poll_at_example : uptime_ms64 (poll_at start times) ≡ last_time 0 times
uptime_ms64-poll_at_example = uptime_ms64-poll_at times (omega arith)

abbrev near_wrap : UptimeClock
near_wrap = record { last_ms = 2 ^ 32 - 10; rollovers = 3; boot_count = 0 }
