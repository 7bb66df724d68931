-- ===== src/Processor/Secrecy/Pin.antt =====
-- The only ways in.
use meshpigeon_firmware.Prelude.{
  ℕ, ◌+◌, ◌-◌, ◌%◌, ◌^◌, ◌≡◌, refl, sym, ap, subst, ◌∙◌, ◌⊎◌, inl, inr, List, Bool, true, false,
  not, ◌||◌, none, some, ◌==◌, leb, length, Bool-cases, Option-cases, if_holds, if_true_holds,
  if_false_holds, ==_iff, arith,
}
use meshpigeon_firmware.Store.{append}
use meshpigeon_firmware.Clock
use meshpigeon_firmware.Clock.{uptime_ms64}
use meshpigeon_firmware.Settings.Text.{strlen}
use meshpigeon_firmware.Settings.Device.{pin_is_default}
use meshpigeon_firmware.Processor.Message.{Ports, Op, ErrorCode, sign_extend}
use meshpigeon_firmware.Processor.State.{
  Processor, max_sinks, is_authorized, add_sink, remove_sink, pin_matches, auth_backoff_active,
  note_auth_failure,
}
use meshpigeon_firmware.Processor.Reply.{send_pong, emit_tx_result, on_wifi_state_changed}
use meshpigeon_firmware.Processor.Checks.{flag_received}
use meshpigeon_firmware.Processor.Handle.{
  handle_auth, handle_request, on_envelope, on_packet_received, on_tx_result, poll,
}
use meshpigeon_firmware.Processor.Gate.{is_gated, handle_request-is_gated}
use meshpigeon_firmware.Processor.Life.{Action, act}
use meshpigeon_firmware.Processor.Secrecy.Entry.{Shut, Shut-IsBystander, request-Shut}
use meshpigeon_firmware.Processor.Bystander.{reply_keeps, error_keeps, push_keeps}

or_false : (a b : Bool) → (a || b) ≡ false → (a ≡ false) × (b ≡ false)
or_false a b h = ground arith

module _ {R S : Type 0} (ports : Ports R S) (c : ℕ) where
  -- The PIN was right, and was read.
  abbrev RightPin : Processor R S → List ℕ → Type 0
  RightPin p pin = (pin_matches p pin (strlen pin) ≡ true) × (auth_backoff_active p ≡ false)

  own_auth :
      (p : Processor R S) (id : ℕ) (pin : List ℕ) (from : ℕ)
      → (p.authenticated from || pin_is_default p.device) ≡ false
      → Shut ports c p
      → Shut ports c (handle_auth ports p id pin from) ⊎ RightPin p pin
  unfolding handle_auth note_auth_failure
  own_auth p id pin from out h = elim (Bool-cases (auth_backoff_active p)) [
    | inl active ↦ inl (
        if_true_holds (Shut ports c) (auth_backoff_active p) _ _ active (
          error_keeps ports (Shut ports c) (Shut-IsBystander ports c) p id ErrorCode.auth_required
            from h))
    | inr idle ↦ elim (Bool-cases (pin_matches p pin (strlen pin))) [
      | inl right ↦ inr (right, idle)
      | inr wrong ↦
          let (flag, default) = or_false (p.authenticated from) (pin_is_default p.device) out in
          inl (
            if_false_holds (Shut ports c) (auth_backoff_active p) _ _ idle (
              if_false_holds (Shut ports c)
                (p.authenticated from || pin_is_default p.device || pin_matches p pin (strlen pin))
                _ _ (ground (arith, flag, default, wrong))
                (error_keeps ports (Shut ports c) (Shut-IsBystander ports c) (note_auth_failure p)
                  id ErrorCode.auth_required from h)))
    ]
  ]

  own_request :
      (p : Processor R S) (id : ℕ) (op : Op) (from : ℕ)
      → is_authorized p from ≡ false
      → Shut ports c p
      → Shut ports c (handle_request ports p id op from)
        ⊎ ((pin : List ℕ) × (op ≡ Op.auth pin) × RightPin p pin)
  unfolding handle_request is_gated send_pong is_authorized
  own_request p id (Op.ping payload) from out h =
      inl (reply_keeps ports (Shut ports c) (Shut-IsBystander ports c) p id from _ h)
  own_request p id Op.get_device_info from out h =
      inl (reply_keeps ports (Shut ports c) (Shut-IsBystander ports c) p id from _ h)
  own_request p id Op.get_status from out h =
      inl (reply_keeps ports (Shut ports c) (Shut-IsBystander ports c) p id from _ h)
  own_request p id Op.unknown from out h = inl (
      error_keeps ports (Shut ports c) (Shut-IsBystander ports c) p id ErrorCode.bad_command from h)
  own_request p id (Op.auth pin) from out h = elim (own_auth p id pin from out h) [
    | inl shut ↦ inl shut
    | inr right ↦ inr (pin, refl, right)
  ]
  own_request p id op from out h = inl (
      subst (Shut ports c) (sym (handle_request-is_gated ports p id op from out refl)) (
        error_keeps ports (Shut ports c) (Shut-IsBystander ports c) p id ErrorCode.auth_required
          from h))

  -- The bytes are an attempt of `c` with the right PIN.
  abbrev pub Attempt : Processor R S → List ℕ → Type 0
  Attempt p bytes =
      (id : ℕ) × (pin : List ℕ) × (ports.decode bytes ≡ some (record { id = id; op = Op.auth pin }))
      × (pin_matches p pin (strlen pin) ≡ true)
      × (auth_backoff_active p ≡ false)

  envelope_entry :
      (p : Processor R S) (bytes : List ℕ) (from : ℕ)
      → is_authorized p c ≡ false
      → Shut ports c p
      → Shut ports c (on_envelope ports p bytes from) ⊎ ((from ≡ c) × Attempt p bytes)
  unfolding on_envelope
  envelope_entry p bytes from out h = elim (Option-cases (ports.decode bytes)) [
    | inl e ↦ rw (e, on_envelope) (inl h)
    | inr (r, e) ↦ elim (Bool-cases (from == c)) [
      | inr other ↦
          let apart : (c == from) ≡ false = ground (arith, other) in
          rw (e, on_envelope)
            (inl (
              if_holds (Shut ports c) (r.id == 0) _ _ h
                (request-Shut ports c p r.id r.op from apart h)))
      | inl same ↦
          let own : from ≡ c = (==_iff from c).0 same in
          elim (own_request p r.id r.op from (ap (is_authorized p) own ∙ out) h) [
            | inl shut ↦ rw (e, on_envelope) (inl (if_holds (Shut ports c) (r.id == 0) _ _ h shut))
            | inr (pin, auth, right) ↦ inr (
              own,
              (r.id, pin, e ∙ ap (λ (op : Op). some (record r { op = op })) auth, right.0, right.1),
            )
          ]
    ]
  ]

  heard-Shut :
      (p : Processor R S) (rssi snr : ℕ) (raw : List ℕ)
      → Shut ports c p
      → Shut ports c (on_packet_received ports p rssi snr raw).1
  unfolding on_packet_received
  heard-Shut p rssi snr raw h =
      let appended = append p.store (uptime_ms64 p.clock) rssi snr flag_received raw in
      let heard = record p {
        noise_floor_dbm = (sign_extend rssi + 2 ^ 32 - sign_extend snr) % 2 ^ 32;
        store = appended.store;
      } in
      elim (Bool-cases (appended.seq == 0)) [
        | inl e ↦ rw e h
        | inr e ↦ elim (Option-cases appended.stored) [
          | inl none_stored ↦ rw (e, none_stored) h
          | inr (entry, stored) ↦
              rw (e, stored)
                (push_keeps ports (Shut ports c) (Shut-IsBystander ports c) heard none true _ h)
        ]
      ]

  tick-Shut : (p : Processor R S) (now : ℕ) → Shut ports c p → Shut ports c (poll ports p now)
  unfolding poll on_tx_result emit_tx_result
  tick-Shut p now h =
      let asked = record p { clock = Clock.poll p.clock now; radio = (ports.tx_done p.radio).0 } in
      if_holds (Shut ports c) (not p.tx_pending) _ _ h (
        if_holds (Shut ports c) (ports.tx_done p.radio).1 _ _
          (if_holds (Shut ports c) (not p.tx_pending || not (p.tx_pending_seq == p.tx_pending_seq))
            _ _ h
            (push_keeps ports (Shut ports c) (Shut-IsBystander ports c)
              (record asked { tx_pending = false }) none false _ h))
          h)

  act_entry :
      (listen : R → R) (p : Processor R S) (a : Action)
      → is_authorized p c ≡ false
      → Shut ports c p
      → Shut ports c (act ports listen p a)
        ⊎ ((bytes : List ℕ) × (a ≡ Action.envelope bytes c) × Attempt p bytes)
  unfolding act
  act_entry listen p (Action.envelope bytes from) out h = elim (envelope_entry p bytes from out h) [
    | inl shut ↦ inl shut
    | inr (own, attempt) ↦ inr (bytes, ap (Action.envelope bytes) own, attempt)
  ]
  act_entry listen p (Action.heard rssi snr raw) out h = inl (heard-Shut p rssi snr raw h)
  act_entry listen p (Action.tick now) out h = inl (tick-Shut p now h)
  act_entry listen p (Action.join sink) out h =
      unfold add_sink in
      inl (
        if_holds (λ (r : Bool × Processor R S). Shut ports c r.1) (leb max_sinks (length p.sinks)) _
          _ h h)
  act_entry listen p (Action.leave sink) out h = unfold remove_sink in inl h
  act_entry listen p Action.wifi_changed out h =
      unfold on_wifi_state_changed in
      inl (push_keeps ports (Shut ports c) (Shut-IsBystander ports c) p none false _ h)
  act_entry listen p Action.listened out h = inl h

  -- There is no way in but the PIN. Where a connection is not authorized before an action, of
  -- whatever kind and whoever acts, and is behind it, the action was its own `auth` request with
  -- the PIN in force, outside the back-off, or the PIN is now the factory default.
  pub act-is_authorized :
      (listen : R → R) (p : Processor R S) (a : Action)
      → is_authorized p c ≡ false
      → is_authorized (act ports listen p a) c ≡ true
      → ((bytes : List ℕ) × (a ≡ Action.envelope bytes c) × Attempt p bytes)
        ⊎ (pin_is_default (act ports listen p a).device ≡ true)
  unfolding is_authorized
  act-is_authorized listen p a out inside =
      elim (act_entry listen p a out
        (or_false (p.authenticated c) (pin_is_default p.device) out).0) [
          | inr attempt ↦ inl attempt
          | inl shut ↦ inr (ground (arith, shut, inside))
        ]
