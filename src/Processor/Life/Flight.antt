-- ===== src/Processor/Life/Flight.antt =====
-- A transmission under way: what happens to it between the ticks of the loop, and at a tick.
use meshpigeon_firmware.Prelude.{
  ℕ, ◌+◌, ◌≡◌, refl, ap, List, [], ◌∷◌, Bool, true, false, ◌||◌, not, none, ◌==◌, if◌then◌else◌,
  length, Bool-cases, inl, inr, ==_refl, Option-cases, if_false_holds, leb, ◌-◌, ◌%◌, ◌^◌,
}
use meshpigeon_firmware.Store.{append}
use meshpigeon_firmware.Clock
use meshpigeon_firmware.Clock.{uptime_ms64}
use meshpigeon_firmware.Processor.Message.{Ports, sign_extend}
use meshpigeon_firmware.Processor.State.{Processor, max_sinks, add_sink}
use meshpigeon_firmware.Processor.Reply.{emit_tx_result, on_wifi_state_changed}
use meshpigeon_firmware.Processor.Checks.{flag_received}
use meshpigeon_firmware.Processor.Handle.{on_envelope, on_packet_received, on_tx_result, poll}
use meshpigeon_firmware.Processor.Radio.{Air, pending-air, broadcast-air}
use meshpigeon_firmware.Processor.Life.{Action}

unfoldable pub ticks : List Action → ℕ
ticks [] = 0
ticks (Action.tick now ∷ actions) = ticks actions + 1
ticks (Action.envelope bytes from ∷ actions) = ticks actions
ticks (Action.heard rssi snr raw ∷ actions) = ticks actions
ticks (Action.join sink ∷ actions) = ticks actions
ticks (Action.leave sink ∷ actions) = ticks actions
ticks (Action.wifi_changed ∷ actions) = ticks actions
ticks (Action.listened ∷ actions) = ticks actions

abbrev pub Flight : Type 0 → Type 0
Flight R = R × Bool × ℕ

module _ {R S : Type 0} (ports : Ports R S) where
  abbrev pub flight : Processor R S → Flight R
  flight p = (p.radio, p.tx_pending, p.tx_pending_seq)

  air-flight : {a b : Air R} → a ≡ b → ◌≡◌ {A = Flight R} (a.0, a.2, a.3) (b.0, b.2, b.3)
  air-flight e = ap (λ (a : Air R). (a.0, a.2, a.3)) e

  pub envelope-flight :
      (p : Processor R S) (bytes : List ℕ) (from : ℕ)
      → p.tx_pending ≡ true
      → flight (on_envelope ports p bytes from) ≡ flight p
  unfolding on_envelope
  envelope-flight p bytes from h = elim (Option-cases (ports.decode bytes)) [
    | inl e ↦ rw (e, on_envelope) refl
    | inr (r, e) ↦ elim (Bool-cases (r.id == 0)) [
      | inl z ↦ rw (e, on_envelope, z) refl
      | inr nz ↦ rw (e, on_envelope, nz) (air-flight (pending-air ports p r.id r.op from h))
    ]
  ]

  pub heard-flight :
      (p : Processor R S) (rssi snr : ℕ) (raw : List ℕ)
      → flight (on_packet_received ports p rssi snr raw).1 ≡ flight p
  unfolding on_packet_received
  heard-flight p rssi snr raw =
      let appended = append p.store (uptime_ms64 p.clock) rssi snr flag_received raw in
      let heard = record p {
        noise_floor_dbm = (sign_extend rssi + 2 ^ 32 - sign_extend snr) % 2 ^ 32;
        store = appended.store;
      } in
      elim (Bool-cases (appended.seq == 0)) [
        | inl e ↦ rw e refl
        | inr e ↦ elim (Option-cases appended.stored) [
          | inl none_stored ↦ rw (e, none_stored) refl
          | inr (entry, stored) ↦
              rw (e, stored) (air-flight (broadcast-air ports heard none true _))
        ]
      ]

  pub join-flight : (p : Processor R S) (sink : ℕ) → flight (add_sink p sink).1 ≡ flight p
  unfolding add_sink
  join-flight p sink = elim (Bool-cases (leb max_sinks (length p.sinks))) [
    | inl e ↦ rw e
    | inr e ↦ rw e
  ]

  pub wifi-flight : (p : Processor R S) → flight (on_wifi_state_changed ports p) ≡ flight p
  unfolding on_wifi_state_changed
  wifi-flight p = air-flight (broadcast-air ports p none false _)

  -- A tick asks the radio: if it is done, the flag falls and the result is pushed to everyone.
  pub poll-flight :
      (p : Processor R S) (now : ℕ)
      → p.tx_pending ≡ true
      → let asked = record p {
        clock = Clock.poll p.clock now;
        radio = (ports.tx_done p.radio).0;
      } in
        poll ports p now ≡ (
          if (ports.tx_done p.radio).1
          then emit_tx_result ports (record asked { tx_pending = false }) p.tx_pending_seq true
          else asked)
  unfolding poll on_tx_result
  poll-flight p now h =
      let asked = record p { clock = Clock.poll p.clock now; radio = (ports.tx_done p.radio).0 } in
      let ended =
        emit_tx_result ports (record asked { tx_pending = false }) p.tx_pending_seq true in
      let result = if (ports.tx_done p.radio).1 then ended else asked in
      if_false_holds (λ (q : Processor R S). q ≡ result) (not p.tx_pending) _ _ (ap not h)
        (elim (Bool-cases (ports.tx_done p.radio).1) [
          | inr still ↦ rw still refl
          | inl done ↦ rw done (
              if_false_holds (λ (q : Processor R S). q ≡ ended)
                (not p.tx_pending || not (p.tx_pending_seq == p.tx_pending_seq)) _ _
                (rw (h, ==_refl p.tx_pending_seq) refl) refl)
        ])
