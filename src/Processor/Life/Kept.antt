-- ===== src/Processor/Life/Kept.antt =====
-- The retained packets over a run of the processor, whatever it is given.
use meshpigeon_firmware.Prelude.{
  ℕ, suc, ◌+◌, ◌-◌, ◌%◌, ◌^◌, ◌<◌, ◌≤◌, ◌≡◌, refl, sym, subst, inl, inr, List, [], ◌∷◌, true, false,
  not, none, arith, ◌==◌, leb, ◌||◌, length, All, Bool-cases, Option-cases, if_holds,
}
use meshpigeon_firmware.Store.{StoredPacket, append}
use meshpigeon_firmware.Clock
use meshpigeon_firmware.Clock.{uptime_ms64}
use meshpigeon_firmware.Processor.Message.{Ports, sign_extend}
use meshpigeon_firmware.Processor.State.{Processor, max_sinks, add_sink, remove_sink}
use meshpigeon_firmware.Processor.Reply.{emit_tx_result, on_wifi_state_changed}
use meshpigeon_firmware.Processor.Checks.{max_raw_packet, flag_received}
use meshpigeon_firmware.Processor.Handle.{on_packet_received, on_tx_result, poll}
use meshpigeon_firmware.Processor.Bystander.{push_keeps}
use meshpigeon_firmware.Processor.Life.{Action, act, run}
use meshpigeon_firmware.Processor.Life.Untouched.{Shelf, shelf, Same, Same-IsBystander}
use meshpigeon_firmware.Processor.Life.Stored.{appended}
use meshpigeon_firmware.Processor.Life.Retained.{
  Fits, Keeps, Because, Step, append-Keeps, stays, envelope_step,
}

module _ {R S : Type 0} (ports : Ports R S) (listen : R → R) where
  heard-shelf :
      (p : Processor R S) (rssi snr : ℕ) (raw : List ℕ)
      → shelf ports (p.store, p.clock) (on_packet_received ports p rssi snr raw).1
        ≡ (appended ports p rssi snr flag_received raw, p.clock)
  unfolding on_packet_received
  heard-shelf p rssi snr raw =
      let kept = append p.store (uptime_ms64 p.clock) rssi snr flag_received raw in
      let heard = record p {
        noise_floor_dbm = (sign_extend rssi + 2 ^ 32 - sign_extend snr) % 2 ^ 32;
        store = kept.store;
      } in
      let now : Shelf = (kept.store, p.clock) in
      elim (Bool-cases (kept.seq == 0)) [
        | inl e ↦ rw e refl
        | inr e ↦ elim (Option-cases kept.stored) [
          | inl none_stored ↦ rw (e, none_stored) refl
          | inr (entry, stored) ↦
              rw (e, stored)
                (push_keeps ports (Same ports now) (Same-IsBystander ports now) heard none true _
                  refl)
        ]
      ]

  heard_step :
      (p : Processor R S) (rssi snr : ℕ) (raw : List ℕ) (n : ℕ) (es : List StoredPacket)
      → length raw ≤ max_raw_packet
      → Keeps (p.store, p.clock) (suc n) es
      → Step ports listen p
          (Action.heard rssi snr raw)
          n
          es
          (on_packet_received ports p rssi snr raw).1
  heard_step p rssi snr raw n es fits h =
      let (fs, kept, how) = append-Keeps p.store p.clock n rssi snr flag_received raw es h fits in
      (
        fs,
        subst (λ (s : Shelf). Keeps s n fs) (sym (heard-shelf p rssi snr raw)) kept,
        elim how [
          | inl same ↦ inl same
          | inr added ↦ inr (inr (raw, added, inl (rssi, snr, refl)))
        ],
      )

  poll-shelf :
      (p : Processor R S) (now : ℕ)
      → shelf ports (p.store, p.clock) (poll ports p now) ≡ (p.store, Clock.poll p.clock now)
  unfolding poll on_tx_result emit_tx_result
  poll-shelf p now =
      let ticked = record p { clock = Clock.poll p.clock now } in
      let asked = record ticked { radio = (ports.tx_done p.radio).0 } in
      let later : Shelf = (p.store, Clock.poll p.clock now) in
      let Fine = Same ports later in
      if_holds Fine (not p.tx_pending) ticked _ refl (
        if_holds Fine (ports.tx_done p.radio).1 _ asked
          (if_holds Fine (not p.tx_pending || not (p.tx_pending_seq == p.tx_pending_seq)) asked _
            refl
            (push_keeps ports Fine (Same-IsBystander ports later)
              (record asked { tx_pending = false }) none false _ refl))
          refl)

  reading_is : (s : Clock.UptimeClock) (now : ℕ) → (Clock.poll s now).last_ms ≡ now
  unfolding Clock.poll
  reading_is s now = refl

  tick_step :
      (p : Processor R S) (now n : ℕ) (es : List StoredPacket)
      → now < 2 ^ 32
      → Keeps (p.store, p.clock) (suc n) es
      → Step ports listen p (Action.tick now) n es (poll ports p now)
  tick_step p now n es fits h =
      let room = h.numbers in
      let later : Keeps (p.store, Clock.poll p.clock now) n es = record {
        retains = h.retains;
        reading = subst (λ (t : ℕ). t < 2 ^ 32) (sym (reading_is p.clock now)) fits;
        numbers = omega (arith, room);
      } in
      (es, subst (λ (s : Shelf). Keeps s n es) (sym (poll-shelf p now)) later, inl refl)

  join-shelf :
      (p : Processor R S) (sink : ℕ)
      → shelf ports (p.store, p.clock) (add_sink p sink).1 ≡ (p.store, p.clock)
  unfolding add_sink
  join-shelf p sink = elim (Bool-cases (leb max_sinks (length p.sinks))) [
    | inl e ↦ rw e refl
    | inr e ↦ rw e refl
  ]

  wifi-shelf :
      (p : Processor R S)
      → shelf ports (p.store, p.clock) (on_wifi_state_changed ports p) ≡ (p.store, p.clock)
  unfolding on_wifi_state_changed
  wifi-shelf p =
      let now : Shelf = (p.store, p.clock) in
      push_keeps ports (Same ports now) (Same-IsBystander ports now) p none false _ refl

  act_step :
      (p : Processor R S) (a : Action) (n : ℕ) (es : List StoredPacket)
      → Fits a
      → Keeps (p.store, p.clock) (suc n) es
      → Step ports listen p a n es (act ports listen p a)
  unfolding act remove_sink
  act_step p (Action.envelope bytes from) n es fits h =
      envelope_step ports listen p bytes from n es h
  act_step p (Action.heard rssi snr raw) n es fits h = heard_step p rssi snr raw n es fits h
  act_step p (Action.tick now) n es fits h = tick_step p now n es fits h
  act_step p (Action.join sink) n es fits h =
      stays ports listen p (add_sink p sink).1 (Action.join sink) n es h (join-shelf p sink)
  act_step p (Action.leave sink) n es fits h =
      stays ports listen p (remove_sink p sink) (Action.leave sink) n es h refl
  act_step p Action.wifi_changed n es fits h =
      stays ports listen p (on_wifi_state_changed ports p) Action.wifi_changed n es h (wifi-shelf p)
  act_step p Action.listened n es fits h =
      stays ports listen p (record p { radio = listen p.radio }) Action.listened n es h refl

  -- The packets go from `es` to `fs` over the actions, each step with its reason.
  abbrev pub History : Processor R S → List Action → List StoredPacket → List StoredPacket → Type 0
  History p [] es fs = fs ≡ es
  History p (a ∷ actions) es fs =
      (ds : List StoredPacket) × Because ports p a es ds
      × History (act ports listen p a) actions ds fs

  -- From a processor whose store retains the packets `es` and has a sequence number left for every
  -- action, whatever actions it is given, of packets of at most 255 bytes and of times of 32 bits,
  -- the store retains some packets `fs` in the end, and the way from `es` to `fs` is known step by
  -- step: a step changes the packets only when a packet is heard, or an authorized connection
  -- sends one, which puts it at the end under the next number and may discard some of the oldest;
  -- or when an authorized connection purges the store or resets the device, which discards all.
  pub run-History :
      (p : Processor R S) (actions : List Action) (n : ℕ) (es : List StoredPacket)
      → All Fits actions
      → Keeps (p.store, p.clock) (length actions + n) es
      → let q = run ports listen p actions in
        (fs : List StoredPacket) × Keeps (q.store, q.clock) n fs × History p actions es fs
  unfolding run
  run-History p [] n es fit h =
      let room = h.numbers in
      (es, record { retains = h.retains; reading = h.reading; numbers = omega (arith, room) }, refl)
  run-History p (a ∷ actions) n es fit h =
      let room = h.numbers in
      let one_more : Keeps (p.store, p.clock) (suc (length actions + n)) es = record {
        retains = h.retains;
        reading = h.reading;
        numbers = omega (arith, room);
      } in
      let (ds, kept, why) = act_step p a (length actions + n) es fit.0 one_more in
      let (fs, last, story) = run-History (act ports listen p a) actions n ds fit.1 kept in
      (fs, last, (ds, why, story))
