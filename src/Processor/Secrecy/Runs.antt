-- ===== src/Processor/Secrecy/Runs.antt =====
-- What a connection that is not authorized is sent over whole runs.
use meshpigeon_firmware.Prelude.{
  ℕ, ◌+◌, ◌-◌, ◌%◌, ◌^◌, ◌≡◌, refl, List, [], ◌∷◌, Bool, false, not, ◌||◌, none, ◌==◌, leb, length,
  Bool-cases, Option-cases, if_holds, inl, inr,
}
use meshpigeon_firmware.Store.{append}
use meshpigeon_firmware.Clock
use meshpigeon_firmware.Clock.{uptime_ms64}
use meshpigeon_firmware.Processor.Message.{Ports, sign_extend}
use meshpigeon_firmware.Processor.State.{Processor, max_sinks, is_authorized, add_sink, remove_sink}
use meshpigeon_firmware.Processor.Reply.{emit_tx_result, on_wifi_state_changed}
use meshpigeon_firmware.Processor.Checks.{flag_received}
use meshpigeon_firmware.Processor.Handle.{on_envelope, on_packet_received, on_tx_result, poll}
use meshpigeon_firmware.Processor.Life.{Action, act, run}
use meshpigeon_firmware.Processor.Secrecy.{
  is_public, Quiet, Quiet-refl, Adds-trans, push-public, push-authorized,
}
use meshpigeon_firmware.Processor.Secrecy.Requests.{request-Quiet}

module _ {R S : Type 0} (ports : Ports R S) (listen : R → R) (c : ℕ) where
  envelope-Quiet :
      (p : Processor R S) (bytes : List ℕ) (from : ℕ)
      → is_authorized p c ≡ false
      → is_authorized (on_envelope ports p bytes from) c ≡ false
      → Quiet ports c p (on_envelope ports p bytes from)
  unfolding on_envelope
  envelope-Quiet p bytes from h =
      let Safe : Processor R S → Type 0 = λ q. is_authorized q c ≡ false → Quiet ports c p q in
      elim (Option-cases (ports.decode bytes)) [
        | inl e ↦ rw (e, on_envelope) (λ (after : is_authorized p c ≡ false). Quiet-refl ports c p)
        | inr (r, e) ↦
            rw (e, on_envelope)
              (if_holds Safe (r.id == 0) _ _ (λ _. Quiet-refl ports c p)
                (request-Quiet ports c p r.id from r.op h))
      ]

  heard-Quiet :
      (p : Processor R S) (rssi snr : ℕ) (raw : List ℕ)
      → is_authorized p c ≡ false
      → Quiet ports c p (on_packet_received ports p rssi snr raw).1
  unfolding on_packet_received is_authorized
  heard-Quiet p rssi snr raw h =
      let appended = append p.store (uptime_ms64 p.clock) rssi snr flag_received raw in
      let heard = record p {
        noise_floor_dbm = (sign_extend rssi + 2 ^ 32 - sign_extend snr) % 2 ^ 32;
        store = appended.store;
      } in
      elim (Bool-cases (appended.seq == 0)) [
        | inl e ↦ rw e (Quiet-refl ports c p)
        | inr e ↦ elim (Option-cases appended.stored) [
          | inl none_stored ↦ rw (e, none_stored) (Quiet-refl ports c p)
          | inr (entry, stored) ↦ rw (e, stored) (push-authorized ports c heard none _ h)
        ]
      ]

  tick-Quiet : (p : Processor R S) (now : ℕ) → Quiet ports c p (poll ports p now)
  unfolding poll on_tx_result emit_tx_result is_public
  tick-Quiet p now =
      let asked = record p { clock = Clock.poll p.clock now; radio = (ports.tx_done p.radio).0 } in
      if_holds (Quiet ports c p) (not p.tx_pending) _ _ (Quiet-refl ports c p) (
        if_holds (Quiet ports c p) (ports.tx_done p.radio).1 _ _
          (if_holds (Quiet ports c p)
            (not p.tx_pending || not (p.tx_pending_seq == p.tx_pending_seq)) _ _
            (Quiet-refl ports c p)
            (push-public ports c (record asked { tx_pending = false }) none false _ refl))
          (Quiet-refl ports c p))

  act-Quiet :
      (p : Processor R S) (a : Action)
      → is_authorized p c ≡ false
      → is_authorized (act ports listen p a) c ≡ false
      → Quiet ports c p (act ports listen p a)
  unfolding act
  act-Quiet p (Action.envelope bytes from) h after = envelope-Quiet p bytes from h after
  act-Quiet p (Action.heard rssi snr raw) h after = heard-Quiet p rssi snr raw h
  act-Quiet p (Action.tick now) h after = tick-Quiet p now
  act-Quiet p (Action.join sink) h after =
      unfold add_sink in
      if_holds (λ (r : Bool × Processor R S). Quiet ports c p r.1) (leb max_sinks (length p.sinks))
        _ _ (Quiet-refl ports c p) (Quiet-refl ports c p)
  act-Quiet p (Action.leave sink) h after = unfold remove_sink in Quiet-refl ports c p
  act-Quiet p Action.wifi_changed h after =
      unfold on_wifi_state_changed is_public in push-public ports c p none false _ refl
  act-Quiet p Action.listened h after = Quiet-refl ports c p

  -- `c` is not authorized at any time of the run.
  abbrev pub Outside : Processor R S → List Action → Type 0
  Outside p [] = is_authorized p c ≡ false
  Outside p (a ∷ actions) = (is_authorized p c ≡ false) × Outside (act ports listen p a) actions

  Outside-now :
      (p : Processor R S) (actions : List Action) → Outside p actions → is_authorized p c ≡ false
  Outside-now p [] h = h
  Outside-now p (a ∷ actions) h = h.0

  -- Whatever other connections, the radio and the board do: a connection that is not authorized at
  -- any time of a run is sent no packet, no radio or device settings and no end of a fetch in it.
  -- Each frame to it is a pong, an `ok`, an error, the device information, the status, or the result
  -- of a transmission.
  pub run-Quiet :
      (p : Processor R S) (actions : List Action)
      → Outside p actions
      → Quiet ports c p (run ports listen p actions)
  unfolding run
  run-Quiet p [] h = Quiet-refl ports c p
  run-Quiet p (a ∷ actions) (h, rest) =
      Adds-trans ports c _ _ _ (act-Quiet p a h (Outside-now (act ports listen p a) actions rest))
        (run-Quiet (act ports listen p a) actions rest)
