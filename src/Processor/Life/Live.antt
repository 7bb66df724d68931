-- ===== src/Processor/Life/Live.antt =====
-- The pending flag and the radio agree, and the registry fits, whatever happens to the processor.
use meshpigeon_firmware.Prelude.{
  ℕ, ◌+◌, ◌≤◌, ◌≡◌, refl, ap, sym, subst, ◌∙◌, ◌-◌, ◌%◌, ◌^◌, lt→leb, le→leb, dec_lt, List, [], ◌∷◌,
  Bool, true, false, ◌||◌, not, Option, none, some, arith, ltb, ◌==◌, if◌then◌else◌, length,
  length-append, Bool-cases, ==_refl, if_holds, if_true_holds, if_false_holds, Option-cases, inl,
  inr,
}
use meshpigeon_firmware.Store.{append, u32}
use meshpigeon_firmware.Clock
use meshpigeon_firmware.Clock.{uptime_ms64}
use meshpigeon_firmware.Settings.Radio.{RadioSettings}
use meshpigeon_firmware.Processor.Message.{
  Ports, Op, ErrorCode, Answer, RadioSettingsMessage, sign_extend,
}
use meshpigeon_firmware.Processor.State.{
  Processor, max_sinks, is_authorized, first_owner_lock_active, add_sink, remove_sink, remove_first,
}
use meshpigeon_firmware.Processor.Reply.{
  reply, emit_tx_result, notify_radio_changed, on_wifi_state_changed,
}
use meshpigeon_firmware.Processor.Checks.{
  bad_tuning, tuning_of, max_raw_packet, flag_sent, flag_received,
}
use meshpigeon_firmware.Processor.Handle.{
  guarded, accept_tuning, handle_set_radio_settings, start_transmission, handle_send_packet,
  handle_request, on_envelope, on_packet_received, on_tx_result, poll,
}
use meshpigeon_firmware.Processor.Radio.{
  Air, air, Op-cases, request-air, reply-air, error-air, broadcast-air, send_packet-air,
}
use meshpigeon_firmware.Processor.Life.{Action, act, run, IsTransmitter, IsLiveAir}

length-remove_first : (x : ℕ) (ys : List ℕ) → length (remove_first x ys) ≤ length ys
unfolding remove_first
length-remove_first x [] = omega arith
length-remove_first x (y ∷ ys) = elim (Bool-cases (y == x)) [
  | inl e ↦ rw e (omega arith)
  | inr e ↦ rw e (omega (arith, length-remove_first x ys))
]

module _ {R S : Type 0} (ports : Ports R S) (listen : R → R) (busy : R → Bool) where
  -- The pending flag says whether the radio is transmitting, and the registry fits its array.
  abbrev pub IsLive : Processor R S → Type 0
  IsLive p = IsLiveAir R busy (air ports p)

  air-IsLive : {a b : Air R} → b ≡ a → IsLiveAir R busy a → IsLiveAir R busy b
  air-IsLive e h = subst (IsLiveAir R busy) (sym e) h

  guarded-IsLive :
      (p q : Processor R S) (id from : ℕ) → IsLive p → IsLive q → IsLive (guarded ports p id from q)
  guarded-IsLive p q id from h k =
      if_holds IsLive (is_authorized p from) q _ k
        (air-IsLive (error-air ports p id ErrorCode.auth_required from) h)

  module _ (radio : IsTransmitter R S ports listen busy) where
    accept-IsLive :
        (p : Processor R S) (id : ℕ) (s : RadioSettings) (from : ℕ)
        → IsLive p
        → IsLive (accept_tuning ports p id s from)
    unfolding accept_tuning notify_radio_changed
    accept-IsLive p id s from h =
        let changed = record p {
          radio_ok = true;
          settings = record s { config_epoch = u32 (p.settings.config_epoch + 1) };
          settings_store =
              ports.save p.settings_store
                (record s { config_epoch = u32 (p.settings.config_epoch + 1) });
          set_count_since_boot = u32 (p.set_count_since_boot + 1);
        } in
        let k : IsLive changed = record { in_step = h.in_step; fits = h.fits } in
        let told = notify_radio_changed ports changed (some from) in
        air-IsLive (reply-air ports told id from _ ∙ broadcast-air ports changed (some from) true _)
          k

    set_radio_settings-IsLive :
        (p : Processor R S) (id : ℕ) (m : Option RadioSettingsMessage) (from : ℕ)
        → IsLive p
        → IsLive (handle_set_radio_settings ports p id m from)
    unfolding handle_set_radio_settings
    set_radio_settings-IsLive p id none from h =
        guarded-IsLive p _ id from h
          (air-IsLive (error-air ports p id ErrorCode.bad_payload from) h)
    set_radio_settings-IsLive p id (some m) from h =
        let applied = record p { radio = (ports.apply p.radio (tuning_of m)).0 } in
        let k : IsLive applied = record {
          in_step = h.in_step ∙ sym (radio.apply_keeps p.radio (tuning_of m));
          fits = h.fits;
        } in
        guarded-IsLive p _ id from h (
          if_holds IsLive (bad_tuning m) _ _
            (air-IsLive (error-air ports p id ErrorCode.bad_payload from) h)
            (if_holds IsLive (first_owner_lock_active p || p.tx_pending) _ _
              (air-IsLive (error-air ports p id ErrorCode.busy from) h)
              (if_holds IsLive (not (ports.apply p.radio (tuning_of m)).1) _ _
                (air-IsLive (error-air ports applied id ErrorCode.tx_failed from) k)
                (accept-IsLive applied id (tuning_of m) from k))))

    -- Behind a start that was refused the radio is idle, behind one that was not it is busy.
    try-IsLive :
        (q : Processor R S) (seq : ℕ) (raw : List ℕ)
        → IsLive q
        → q.tx_pending ≡ false
        → let (r, started) = ports.transmit q.radio raw in
          let tried = record q { radio = r } in
          IsLive (
            if not started
            then emit_tx_result ports tried seq false
            else record tried { tx_pending = true; tx_pending_seq = seq })
    unfolding emit_tx_result
    try-IsLive q seq raw h idle =
        let starts = radio.transmit_starts q.radio raw (sym h.in_step ∙ idle) in
        let tried = record q { radio = (ports.transmit q.radio raw).0 } in
        elim (Bool-cases (ports.transmit q.radio raw).1) [
          | inl up ↦ rw up (record { in_step = sym (starts ∙ up); fits = h.fits })
          | inr down ↦
              let k : IsLive tried = record {
                in_step = idle ∙ sym (starts ∙ down);
                fits = h.fits;
              } in
              rw down (air-IsLive (broadcast-air ports tried none false _) k)
        ]

    send_packet-IsLive :
        (p : Processor R S) (id : ℕ) (raw : List ℕ) (from : ℕ)
        → IsLive p
        → IsLive (handle_send_packet ports p id raw from)
    unfolding handle_send_packet start_transmission
    send_packet-IsLive p id raw from h =
        let appended = append p.store (uptime_ms64 p.clock) 0 0 flag_sent raw in
        let stored = record p { store = appended.store } in
        let k : IsLive stored = record { in_step = h.in_step; fits = h.fits } in
        let told = reply ports stored id from (Answer.packet_accepted appended.seq) in
        let same : air ports told ≡ air ports p = reply-air ports stored id from _ in
        elim (Bool-cases p.tx_pending) [
          | inl out ↦ air-IsLive (send_packet-air ports p id raw from out) h
          | inr idle ↦
              (guarded-IsLive p _ id from h (
                if_holds IsLive (length raw == 0 || ltb max_raw_packet (length raw)) _ _
                  (air-IsLive (error-air ports p id ErrorCode.bad_payload from) h)
                  (if_holds IsLive (not p.radio_ok) _ _
                    (air-IsLive (error-air ports p id ErrorCode.no_radio from) h)
                    (if_false_holds IsLive p.tx_pending _ _ idle (
                      if_holds IsLive (appended.seq == 0) _ _
                        (air-IsLive (error-air ports stored id ErrorCode.busy from) k)
                        (try-IsLive told appended.seq raw (air-IsLive same h)
                          (ap (λ (a : Air R). a.2) same ∙ idle)))))))
        ]

    request-IsLive :
        (p : Processor R S) (id : ℕ) (op : Op) (from : ℕ)
        → IsLive p
        → IsLive (handle_request ports p id op from)
    unfolding handle_request
    request-IsLive p id op from h = elim (Op-cases op) [
      | inl e ↦ air-IsLive (request-air ports p id op from e) h
      | inr (inl (m, e)) ↦ rw e (set_radio_settings-IsLive p id m from h)
      | inr (inr (raw, e)) ↦ rw e (send_packet-IsLive p id raw from h)
    ]

    envelope-IsLive :
        (p : Processor R S) (bytes : List ℕ) (from : ℕ)
        → IsLive p
        → IsLive (on_envelope ports p bytes from)
    unfolding on_envelope
    envelope-IsLive p bytes from h = elim (Option-cases (ports.decode bytes)) [
      | inl e ↦ rw (e, on_envelope) h
      | inr (r, e) ↦
          rw (e, on_envelope)
            (if_holds IsLive (r.id == 0) _ _ h (request-IsLive p r.id r.op from h))
    ]

    heard-IsLive :
        (p : Processor R S) (rssi snr : ℕ) (raw : List ℕ)
        → IsLive p
        → IsLive (on_packet_received ports p rssi snr raw).1
    unfolding on_packet_received
    heard-IsLive p rssi snr raw h =
        let appended = append p.store (uptime_ms64 p.clock) rssi snr flag_received raw in
        let heard = record p {
          noise_floor_dbm = (sign_extend rssi + 2 ^ 32 - sign_extend snr) % 2 ^ 32;
          store = appended.store;
        } in
        let k : IsLive heard = record { in_step = h.in_step; fits = h.fits } in
        elim (Bool-cases (appended.seq == 0)) [
          | inl e ↦ rw e k
          | inr e ↦ elim (Option-cases appended.stored) [
            | inl none_stored ↦ rw (e, none_stored) k
            | inr (entry, stored) ↦
                rw (e, stored) (air-IsLive (broadcast-air ports heard none true _) k)
          ]
        ]

    poll-IsLive : (p : Processor R S) (now : ℕ) → IsLive p → IsLive (poll ports p now)
    unfolding poll on_tx_result emit_tx_result
    poll-IsLive p now h = elim (Bool-cases p.tx_pending) [
      | inr idle ↦
          if_true_holds IsLive (not p.tx_pending) _ _ (ap not idle)
            (record { in_step = h.in_step; fits = h.fits })
      | inl out ↦
          let ends = radio.tx_done_ends p.radio (sym h.in_step ∙ out) in
          let asked = record p {
            clock = Clock.poll p.clock now;
            radio = (ports.tx_done p.radio).0;
          } in
          if_false_holds IsLive (not p.tx_pending) _ _ (ap not out)
            (elim (Bool-cases (ports.tx_done p.radio).1) [
              | inr still ↦
                  rw still (record { in_step = out ∙ sym (ends ∙ ap not still); fits = h.fits })
              | inl done ↦
                  let ended = record asked { tx_pending = false } in
                  let k : IsLive ended = record {
                    in_step = sym (ends ∙ ap not done);
                    fits = h.fits;
                  } in
                  rw done (
                    if_false_holds IsLive
                      (not p.tx_pending || not (p.tx_pending_seq == p.tx_pending_seq)) _ _
                      (rw (out, ==_refl p.tx_pending_seq) refl)
                      (air-IsLive (broadcast-air ports ended none false _) k))
            ])
    ]

    join-IsLive : (p : Processor R S) (sink : ℕ) → IsLive p → IsLive (add_sink p sink).1
    unfolding add_sink
    join-IsLive p sink h = elim (dec_lt (length p.sinks) max_sinks) [
      | yes room ↦ rw (lt→leb max_sinks (length p.sinks) room) (record {
        in_step = h.in_step;
        fits = omega (arith, length-append {0} p.sinks (sink ∷ []));
      })
      | no full ↦ rw (le→leb max_sinks (length p.sinks) (omega arith)) h
    ]

    act-IsLive : (p : Processor R S) (a : Action) → IsLive p → IsLive (act ports listen p a)
    unfolding act
    act-IsLive p (Action.envelope bytes from) h = envelope-IsLive p bytes from h
    act-IsLive p (Action.heard rssi snr raw) h = heard-IsLive p rssi snr raw h
    act-IsLive p (Action.tick now) h = poll-IsLive p now h
    act-IsLive p (Action.join sink) h = join-IsLive p sink h
    act-IsLive p (Action.leave sink) h =
        unfold remove_sink in
        record {
          in_step = h.in_step;
          fits = omega (arith, h.fits, length-remove_first sink p.sinks);
        }
    act-IsLive p Action.wifi_changed h =
        unfold on_wifi_state_changed in air-IsLive (broadcast-air ports p none false _) h
    act-IsLive p Action.listened h = record {
      in_step = h.in_step ∙ sym (radio.listen_keeps p.radio);
      fits = h.fits;
    }

    pub run-IsLive :
        (p : Processor R S) (actions : List Action) → IsLive p → IsLive (run ports listen p actions)
    unfolding run
    run-IsLive p [] h = h
    run-IsLive p (a ∷ actions) h = run-IsLive (act ports listen p a) actions (act-IsLive p a h)
