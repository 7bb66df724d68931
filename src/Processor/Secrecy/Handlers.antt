-- ===== src/Processor/Secrecy/Handlers.antt =====
-- What the handlers send to a connection that is not authorized, when another one asks.
use meshpigeon_firmware.Prelude.{
  ℕ, [], ◌∷◌, is_empty, ◌+◌, ◌≡◌, ◌≢◌, refl, sym, ◌∙◌, List, Bool, true, false, not, ◌&&◌, ◌||◌,
  Option, none, some, if◌then◌else◌, ◌==◌, ltb, length, Bool-cases, if_holds, inl, inr,
}
use meshpigeon_firmware.Store
use meshpigeon_firmware.Store.{append, fetch_since, u32, StoredPacket}
use meshpigeon_firmware.Store.Visit.{fetch_since_keeps}
use meshpigeon_firmware.Clock.{uptime_ms64}
use meshpigeon_firmware.Settings.Radio.{RadioSettings}
use meshpigeon_firmware.Settings.Text.{str_of}
use meshpigeon_firmware.Settings.Device.{DeviceSettings, defaults, device_eq}
use meshpigeon_firmware.Processor.Message.{
  Ports, ErrorCode, Response, Answer, Event, RadioSettingsMessage, SetDeviceSettings,
}
use meshpigeon_firmware.Processor.State.{
  Processor, is_authorized, first_owner_lock_active, effective_name,
}
use meshpigeon_firmware.Processor.Reply.{
  emit, deliver, broadcast_response, reply, send_error, emit_tx_result, notify_radio_changed,
  notify_device_settings_changed,
}
use meshpigeon_firmware.Processor.Checks.{
  bad_tuning, tuning_of, is_some, fails, updated, bad_device_settings, wifi_touched, max_raw_packet,
  flag_sent, fetch_bound,
}
use meshpigeon_firmware.Processor.Handle.{
  guarded, accept_tuning, handle_set_radio_settings, start_transmission, handle_send_packet,
  deliver_entry, handle_fetch_packets, rotate_pin, save_change, call_change_hooks, change_device,
  handle_set_device_settings, call_hook, handle_factory_reset,
}
use meshpigeon_firmware.Processor.Secrecy.{
  is_public, Quiet, Quiet-refl, Adds-trans, Quiet-emit, reply-other, reply-public, push-public,
  push-authorized,
}

module _ {R S : Type 0} (ports : Ports R S) (c : ℕ) where
  pub error-Quiet :
      (p : Processor R S) (id : ℕ) (code : ErrorCode) (to : ℕ)
      → Quiet ports c p (send_error ports p id code to)
  unfolding send_error is_public
  error-Quiet p id code to = reply-public ports c p id to (Answer.error code) refl

  pub guarded-Quiet :
      (p q : Processor R S) (id from : ℕ)
      → Quiet ports c p q
      → Quiet ports c p (guarded ports p id from q)
  guarded-Quiet p q id from h =
      if_holds (Quiet ports c p) (is_authorized p from) q _ h
        (error-Quiet p id ErrorCode.auth_required from)

  -- The delivery of a response changes nobody's authorization.
  pub deliver-is_authorized :
      (p : Processor R S) (to : ℕ) (r : Response)
      → is_authorized (deliver ports p to r) c ≡ is_authorized p c
  unfolding deliver emit is_authorized
  deliver-is_authorized p to r = elim (Bool-cases (is_empty (ports.encode r))) [
    | inl e ↦ rw e refl
    | inr e ↦ rw e refl
  ]

  pub push-is_authorized :
      (p : Processor R S) (except : Option ℕ) (authorized_only : Bool) (r : Response)
      → is_authorized (broadcast_response ports p except authorized_only r) c ≡ is_authorized p c
  unfolding broadcast_response emit is_authorized
  push-is_authorized p except authorized_only r = elim (Bool-cases (is_empty (ports.encode r))) [
    | inl e ↦ rw e refl
    | inr e ↦ rw e refl
  ]

  pub call_hook-Quiet :
      (p q : Processor R S) (event : Event)
      → ((t : Processor R S) → Quiet ports c t (emit t (event ∷ [])))
      → Quiet ports c p q
      → Quiet ports c p (call_hook ports q event)
  unfolding call_hook
  call_hook-Quiet p q event fine h =
      if_holds (Quiet ports c p) (is_some q.hooks) _ _ (Adds-trans ports c _ _ _ h (fine q)) h

  change_hooks-Quiet :
      (p : Processor R S) (m : SetDeviceSettings) → Quiet ports c p (call_change_hooks ports p m)
  unfolding call_change_hooks
  change_hooks-Quiet p m =
      let renamed =
        if is_some m.name && is_some p.hooks
        then emit p (Event.named (str_of (effective_name p)) ∷ [])
        else p in
      let h : Quiet ports c p renamed =
        if_holds (Quiet ports c p) (is_some m.name && is_some p.hooks) _ _
          (Quiet-emit ports c p _ (tt, tt)) (Quiet-refl ports c p) in
      if_holds (Quiet ports c p) (wifi_touched m && is_some p.hooks) _ _
        (Adds-trans ports c _ _ _ h (Quiet-emit ports c renamed _ (tt, tt))) h

  -- The requests of another connection.
  module _ (id from : ℕ) (other : from ≢ c) where
    pub fetch-Quiet :
        (p : Processor R S) (since_seq max_count : ℕ)
        → Quiet ports c p (handle_fetch_packets ports p id since_seq max_count from)
    unfolding handle_fetch_packets deliver_entry
    fetch-Quiet p since_seq max_count =
        let (delivered, given) =
          fetch_since (deliver_entry ports id from) p.store since_seq (fetch_bound max_count) p in
        let h : Quiet ports c p given =
          fetch_since_keeps (deliver_entry ports id from) (Quiet ports c p)
            (λ (q : Processor R S) (e : StoredPacket) (k : Quiet ports c p q).
              Adds-trans ports c _ _ _ k (reply-other ports c q id from _ other))
            p.store since_seq (fetch_bound max_count) p (Quiet-refl ports c p) in
        guarded-Quiet p _ id from
          (Adds-trans ports c _ _ _ h (reply-other ports c given id from _ other))

    accept-Quiet :
        (p : Processor R S) (tuning : RadioSettings)
        → is_authorized p c ≡ false
        → Quiet ports c p (accept_tuning ports p id tuning from)
    unfolding accept_tuning notify_radio_changed is_authorized
    accept-Quiet p tuning h =
        let s = record tuning { config_epoch = u32 (p.settings.config_epoch + 1) } in
        let changed = record p {
          radio_ok = true;
          settings = s;
          settings_store = ports.save p.settings_store s;
          set_count_since_boot = u32 (p.set_count_since_boot + 1);
        } in
        let told = notify_radio_changed ports changed (some from) in
        Adds-trans ports c _ _ _ (push-authorized ports c changed (some from) _ h)
          (reply-other ports c told id from _ other)

    pub set_radio-Quiet :
        (p : Processor R S) (m : Option RadioSettingsMessage)
        → is_authorized p c ≡ false
        → Quiet ports c p (handle_set_radio_settings ports p id m from)
    unfolding handle_set_radio_settings is_authorized
    set_radio-Quiet p none h =
        guarded-Quiet p _ id from (error-Quiet p id ErrorCode.bad_payload from)
    set_radio-Quiet p (some m) h =
        let applied = record p { radio = (ports.apply p.radio (tuning_of m)).0 } in
        guarded-Quiet p _ id from (
          if_holds (Quiet ports c p) (bad_tuning m) _ _
            (error-Quiet p id ErrorCode.bad_payload from)
            (if_holds (Quiet ports c p) (first_owner_lock_active p || p.tx_pending) _ _
              (error-Quiet p id ErrorCode.busy from)
              (if_holds (Quiet ports c p) (not (ports.apply p.radio (tuning_of m)).1) _ _
                (error-Quiet applied id ErrorCode.tx_failed from)
                (accept-Quiet applied (tuning_of m) h))))

    start-Quiet :
        (p : Processor R S) (seq : ℕ) (raw : List ℕ)
        → Quiet ports c p (start_transmission ports p id seq raw from)
    unfolding start_transmission emit_tx_result is_public
    start-Quiet p seq raw =
        let told = reply ports p id from (Answer.packet_accepted seq) in
        let tried = record told { radio = (ports.transmit told.radio raw).0 } in
        let h : Quiet ports c p told = reply-other ports c p id from _ other in
        if_holds (Quiet ports c p) (not (ports.transmit told.radio raw).1) _ _
          (Adds-trans ports c _ _ _ h (push-public ports c tried none false _ refl)) h

    pub send_packet-Quiet :
        (p : Processor R S) (raw : List ℕ)
        → Quiet ports c p (handle_send_packet ports p id raw from)
    unfolding handle_send_packet
    send_packet-Quiet p raw =
        let appended = append p.store (uptime_ms64 p.clock) 0 0 flag_sent raw in
        let stored = record p { store = appended.store } in
        guarded-Quiet p _ id from (
          if_holds (Quiet ports c p) (length raw == 0 || ltb max_raw_packet (length raw)) _ _
            (error-Quiet p id ErrorCode.bad_payload from)
            (if_holds (Quiet ports c p) (not p.radio_ok) _ _
              (error-Quiet p id ErrorCode.no_radio from)
              (if_holds (Quiet ports c p) p.tx_pending _ _ (error-Quiet p id ErrorCode.busy from) (
                if_holds (Quiet ports c p) (appended.seq == 0) _ _
                  (error-Quiet stored id ErrorCode.busy from)
                  (start-Quiet stored appended.seq raw)))))

    -- The settings are pushed when the new PIN is in force already.
    change-Quiet :
        (p : Processor R S) (m : SetDeviceSettings) (next : DeviceSettings)
        → is_authorized (change_device ports p id m next from) c ≡ false
        → Quiet ports c p (change_device ports p id m next from)
    unfolding change_device notify_device_settings_changed reply save_change rotate_pin
    change-Quiet p m next after =
        let saved = save_change ports p m next from in
        let called = call_change_hooks ports saved m in
        let told = notify_device_settings_changed ports called (some from) in
        let outside : is_authorized called c ≡ false =
          sym (push-is_authorized called (some from) true _)
          ∙ sym (deliver-is_authorized told from _)
          ∙ after in
        let h : Quiet ports c p saved =
          if_holds (Quiet ports c p) (is_some m.pin) _ _ (Quiet-refl ports c p)
            (Quiet-refl ports c p) in
        Adds-trans ports c _ _ _
          (Adds-trans ports c _ _ _ (Adds-trans ports c _ _ _ h (change_hooks-Quiet saved m))
            (push-authorized ports c called (some from) _ outside))
          (reply-other ports c told id from _ other)

    pub set_device-Quiet :
        (p : Processor R S) (m : SetDeviceSettings)
        → is_authorized (handle_set_device_settings ports p id m from) c ≡ false
        → Quiet ports c p (handle_set_device_settings ports p id m from)
    unfolding handle_set_device_settings
    set_device-Quiet p m =
        let Safe : Processor R S → Type 0 = λ q. is_authorized q c ≡ false → Quiet ports c p q in
        let next = updated p.device m in
        if_holds Safe (is_authorized p from) _ _
          (if_holds Safe (bad_device_settings m) _ _
            (λ _. error-Quiet p id ErrorCode.bad_payload from)
            (if_holds Safe (wifi_touched m && fails p.hooks (λ h. h.wifi_supported)) _ _
              (λ _. error-Quiet p id ErrorCode.not_supported from)
              (if_holds Safe (device_eq next p.device) _ _
                (λ _. reply-other ports c p id from _ other) (change-Quiet p m next))))
          (λ _. error-Quiet p id ErrorCode.auth_required from)

    pub factory_reset-Quiet :
        (p : Processor R S) → Quiet ports c p (handle_factory_reset ports p id from)
    unfolding handle_factory_reset
    factory_reset-Quiet p =
        let wiped = record p {
          device = defaults;
          settings_store = ports.clear_device p.settings_store;
          store = Store.clear p.store;
        } in
        call_hook-Quiet p (reply ports wiped id from Answer.ok) Event.reset_to_factory
          (λ t. Quiet-emit ports c t _ (tt, tt)) (reply-other ports c wiped id from Answer.ok other)
