-- ===== src/Clock/Tracking.antt =====
-- The 64-bit view follows the true time, as long as the clock is polled across each wrap.
use meshpigeon_firmware.Prelude.{
  ℕ, ◌+◌, ◌*◌, ◌/◌, ◌%◌, ◌^◌, ◌≤◌, ◌<◌, ◌≡◌, refl, ap, ◌∙◌, sym, List, [], ◌∷◌, arith, bit_or_high,
}
use meshpigeon_firmware.Clock.{UptimeClock, start, poll, uptime_ms64, advance}

-- The clock last read the true time `t`, in milliseconds since boot.
pub record Tracks (c : UptimeClock) (t : ℕ) : Type 0 where
  pub low : c.last_ms ≡ t % 2 ^ 32
  pub high : c.rollovers ≡ t / 2 ^ 32
  pub fits : t < 2 ^ 64

pub uptime_ms64_of_Tracks : (c : UptimeClock) (t : ℕ) → Tracks c t → uptime_ms64 c ≡ t
unfolding uptime_ms64
uptime_ms64_of_Tracks c t h =
    let whole : c.rollovers * 2 ^ 32 % 2 ^ 64 ≡ c.rollovers * 2 ^ 32 =
      omega (arith, h.high, h.fits) in
    rw whole
      (omega (arith, bit_or_high 32 c.rollovers c.last_ms (omega (arith, h.low)), h.low, h.high))

poll-Tracks :
    (c : UptimeClock) (t t' : ℕ)
    → Tracks c t
    → t ≤ t'
    → t' < t + 2 ^ 32
    → t' < 2 ^ 64
    → Tracks (poll c (t' % 2 ^ 32)) t'
unfolding poll
poll-Tracks c t t' h later soon fits = record {
  low = refl;
  high = ground (arith, h.low, h.high, later, soon, fits);
  fits = fits;
}

-- Polls at the true times of a list: the source shows the low 32 bits of each.
unfoldable pub poll_at : UptimeClock → List ℕ → UptimeClock
poll_at c [] = c
poll_at c (t ∷ ts) = poll_at (poll c (t % 2 ^ 32)) ts

-- Times in order, each less than one wrap of the source after the one before.
abbrev pub Polled : ℕ → List ℕ → Type 0
Polled t [] = Unit
Polled t (t' ∷ ts) = ((t ≤ t') × (t' < t + 2 ^ 32) × (t' < 2 ^ 64)) × Polled t' ts

abbrev pub last_time : ℕ → List ℕ → ℕ
last_time t [] = t
last_time t (t' ∷ ts) = last_time t' ts

poll_at-Tracks :
    (ts : List ℕ) (c : UptimeClock) (t : ℕ)
    → Tracks c t
    → Polled t ts
    → Tracks (poll_at c ts) (last_time t ts)
unfolding poll_at
poll_at-Tracks [] c t h p = h
poll_at-Tracks (t' ∷ ts) c t h p =
    poll_at-Tracks ts (poll c (t' % 2 ^ 32)) t' (poll-Tracks c t t' h p.0.0 p.0.1 p.0.2) p.1

-- A clock that is polled at least once in every 2 ^ 32 ms since boot shows the true 64-bit time of
-- the last poll, over any number of wraps of the 32-bit source.
pub uptime_ms64-poll_at :
    (ts : List ℕ) → Polled 0 ts → uptime_ms64 (poll_at start ts) ≡ last_time 0 ts
uptime_ms64-poll_at ts p =
    uptime_ms64_of_Tracks (poll_at start ts) (last_time 0 ts)
      (poll_at-Tracks ts start 0 (record { low = refl; high = refl; fits = omega arith }) p)

-- Advancing a manual clock by less than a wrap and polling moves the uptime on by just that.
pub uptime_ms64-poll-advance :
    (c : UptimeClock) (ms : ℕ)
    → c.last_ms < 2 ^ 32
    → ms < 2 ^ 32
    → c.rollovers + 1 < 2 ^ 32
    → uptime_ms64 (poll c (advance c.last_ms ms)) ≡ uptime_ms64 c + ms
unfolding advance
uptime_ms64-poll-advance c ms low h room =
    let t = c.rollovers * 2 ^ 32 + c.last_ms in
    let now : (c.last_ms + ms) % 2 ^ 32 ≡ (t + ms) % 2 ^ 32 = omega arith in
    let before : Tracks c t = record {
      low = omega arith;
      high = omega arith;
      fits = omega arith;
    } in
    ap (λ (n : ℕ). uptime_ms64 (poll c n)) now
    ∙ uptime_ms64_of_Tracks _ (t + ms)
        (poll-Tracks c t (t + ms) before (omega arith) (omega arith) (omega arith))
    ∙ ap (λ (n : ℕ). n + ms) (sym (uptime_ms64_of_Tracks c t before))
