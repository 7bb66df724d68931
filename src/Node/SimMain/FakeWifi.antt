-- ===== src/Node/SimMain/FakeWifi.antt =====
-- The scripted Wi-Fi of the simulator over its ticks.
use meshpigeon_firmware.Prelude.{
  if_true, if_false, ℕ, zero, suc, ◌+◌, ◌-◌, ◌%◌, ◌^◌, ◌≤◌, ◌<◌, ◌≡◌, refl, ap, ◌∙◌, Bool, true,
  ◌&&◌, arith, ltb, leb, if◌then◌else◌, Bool-cases, Option-cases, inl, inr, ◌⊎◌, if_holds,
}
use meshpigeon_firmware.Clock
use meshpigeon_firmware.Sim
use meshpigeon_firmware.Sim.{SimRadio}
use meshpigeon_firmware.Settings.Memory.{MemorySettings}
use meshpigeon_firmware.Processor.Message.{Ports}
use meshpigeon_firmware.Processor.Handle.{poll}
use meshpigeon_firmware.Node.SimMain.{
  FakeState, SimMain, sim_ports, enter, fake_wifi_tick, make_traffic, hear, sim_loop_tick,
}

-- The link, when it came to be so, and the clock.
abbrev Script : Type 0
Script = Bool × FakeState × ℕ × ℕ

abbrev script : SimMain → Script
script m = (m.fake_wifi, m.fake_state, m.fake_changed_ms, m.now)

script_of :
    (b : Bool) (state wanted : FakeState) (changed now : ℕ)
    → b ≡ true
    → state ≡ wanted
    → ◌≡◌ {A = Script} (b, state, changed, now) (true, wanted, changed, now)
script_of b state wanted changed now e f = rw (e, f) refl

module _ (codec : Ports SimRadio MemorySettings) (traffic_ms : ℕ) where
  traffic-script : (m : SimMain) → script (make_traffic codec traffic_ms m) ≡ script m
  unfolding make_traffic
  traffic-script m =
      if_holds (λ (q : SimMain). script q ≡ script m)
        (ltb 0 traffic_ms && leb traffic_ms ((m.now + 2 ^ 32 - m.last_traffic) % 2 ^ 32)) _ _ refl
        refl

  hear-script : (m : SimMain) → script (hear codec m) ≡ script m
  unfolding hear
  hear-script m = elim (Option-cases (Sim.receive m.proc.radio).1) [
    | inl e ↦ rw (e, hear) refl
    | inr (r, e) ↦ rw (e, hear) refl
  ]

  -- A tick is a millisecond of the clock and a step of the script.
  tick-script :
      (m : SimMain)
      → script (sim_loop_tick codec traffic_ms m)
        ≡ script (
            fake_wifi_tick codec (record m {
              now = (m.now + 1) % 2 ^ 32;
              proc = poll (sim_ports codec) m.proc ((m.now + 1) % 2 ^ 32);
            }))
  unfolding sim_loop_tick Clock.advance
  tick-script m = hear-script _ ∙ traffic-script _

  off_tick :
      (m : SimMain)
      → m.fake_wifi ≡ true
      → m.fake_state ≡ FakeState.off
      → script (sim_loop_tick codec traffic_ms m)
        ≡ (true, FakeState.connecting, (m.now + 1) % 2 ^ 32, (m.now + 1) % 2 ^ 32)
  unfolding fake_wifi_tick enter
  off_tick m on state = tick-script m ∙ rw (on, state, fake_wifi_tick) (script_of _ _ _ _ _ on refl)

  connecting_tick :
      (m : SimMain)
      → m.fake_wifi ≡ true
      → m.fake_state ≡ FakeState.connecting
      → let now = (m.now + 1) % 2 ^ 32 in
        let waited = leb 2000 ((now + 2 ^ 32 - m.fake_changed_ms) % 2 ^ 32) in
        script (sim_loop_tick codec traffic_ms m) ≡ (
          if waited
          then (true, FakeState.connected, now, now)
          else (true, FakeState.connecting, m.fake_changed_ms, now))
  unfolding fake_wifi_tick enter
  connecting_tick m on state =
      let now = (m.now + 1) % 2 ^ 32 in
      elim (Bool-cases (leb 2000 ((now + 2 ^ 32 - m.fake_changed_ms) % 2 ^ 32))) [
        | inl over ↦
            tick-script m ∙ rw (on, state, over, fake_wifi_tick) (script_of _ _ _ _ _ on refl)
        | inr early ↦
            tick-script m ∙ rw (on, state, early, fake_wifi_tick) (script_of _ _ _ _ _ on state)
      ]

  connected_tick :
      (m : SimMain)
      → m.fake_wifi ≡ true
      → m.fake_state ≡ FakeState.connected
      → script (sim_loop_tick codec traffic_ms m)
        ≡ (true, FakeState.connected, m.fake_changed_ms, (m.now + 1) % 2 ^ 32)
  unfolding fake_wifi_tick
  connected_tick m on state =
      tick-script m ∙ rw (on, state, fake_wifi_tick) (script_of _ _ _ _ _ on state)

  -- So many ticks of the loop.
  unfoldable pub ticks : ℕ → SimMain → SimMain
  ticks zero m = m
  ticks (suc k) m = sim_loop_tick codec traffic_ms (ticks k m)

  -- Where the script is `k` ticks behind the first one, which was at `t`.
  abbrev IsAt : ℕ → ℕ → SimMain → Type 0
  IsAt k t m =
      (m.fake_wifi ≡ true)
      × (m.now ≡ (t + k) % 2 ^ 32)
      × (((k < 2000) × (m.fake_state ≡ FakeState.connecting) × (m.fake_changed_ms ≡ t))
          ⊎ ((2000 ≤ k) × (m.fake_state ≡ FakeState.connected)))

  tick-IsAt :
      (k t : ℕ) (m : SimMain)
      → t < 2 ^ 32
      → IsAt k t m
      → IsAt (suc k) t (sim_loop_tick codec traffic_ms m)
  tick-IsAt k t m small (on, clock, inr (over, up)) =
      let e = connected_tick m on up in
      (
        ap (λ (s : Script). s.0) e,
        ap (λ (s : Script). s.3) e ∙ omega (arith, clock),
        inr (omega arith, ap (λ (s : Script). s.1) e),
      )
  tick-IsAt k t m small (on, clock, inl (early, waiting, since)) =
      let e = connecting_tick m on waiting in
      let now = (m.now + 1) % 2 ^ 32 in
      let next : now ≡ (t + suc k) % 2 ^ 32 = omega (arith, clock) in
      let elapsed : (now + 2 ^ 32 - m.fake_changed_ms) % 2 ^ 32 ≡ suc k =
        omega (arith, next, since) in
      let waited = leb 2000 ((now + 2 ^ 32 - m.fake_changed_ms) % 2 ^ 32) in
      elim (Bool-cases (leb 2000 (suc k))) [
        | inl done ↦
            let f = e ∙ if_true _ _ _ (ap (leb 2000) elapsed ∙ done) in
            (
              ap (λ (s : Script). s.0) f,
              ap (λ (s : Script). s.3) f ∙ next,
              inr (ground (arith, done), ap (λ (s : Script). s.1) f),
            )
        | inr still ↦
            let f = e ∙ if_false _ _ _ (ap (leb 2000) elapsed ∙ still) in
            (
              ap (λ (s : Script). s.0) f,
              ap (λ (s : Script). s.3) f ∙ next,
              inl (
                ground (arith, still),
                ap (λ (s : Script). s.1) f,
                ap (λ (s : Script). s.2) f ∙ since,
              ),
            )
      ]

  ticks-IsAt :
      (k : ℕ) (m : SimMain)
      → m.fake_wifi ≡ true
      → m.fake_state ≡ FakeState.off
      → IsAt k ((m.now + 1) % 2 ^ 32) (ticks (suc k) m)
  unfolding ticks
  ticks-IsAt zero m on state =
      let e = off_tick m on state in
      (
        ap (λ (s : Script). s.0) e,
        ap (λ (s : Script). s.3) e ∙ omega arith,
        inl (omega arith, ap (λ (s : Script). s.1) e, ap (λ (s : Script). s.2) e),
      )
  ticks-IsAt (suc k) m on state =
      tick-IsAt k ((m.now + 1) % 2 ^ 32) (ticks (suc k) m) (omega arith) (ticks-IsAt k m on state)

  -- With `--fake-wifi` and from the state off, whatever the radio and the made-up traffic do: the
  -- first tick shows CONNECTING, the next 1999 do too, and from 2000 ticks behind the first on it is
  -- CONNECTED for good, also where the 32-bit clock wraps in between.
  pub ticks_connect :
      (k : ℕ) (m : SimMain)
      → m.fake_wifi ≡ true
      → m.fake_state ≡ FakeState.off
      → ((k < 2000) × ((ticks (suc k) m).fake_state ≡ FakeState.connecting))
        ⊎ ((2000 ≤ k) × ((ticks (suc k) m).fake_state ≡ FakeState.connected))
  ticks_connect k m on state =
      let (still_on, clock, how) = ticks-IsAt k m on state in
      elim how [
        | inl (early, waiting, since) ↦ inl (early, waiting)
        | inr (over, up) ↦ inr (over, up)
      ]
