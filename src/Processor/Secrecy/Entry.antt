-- ===== src/Processor/Secrecy/Entry.antt =====
-- How a connection becomes authenticated: what keeps its flag down.
use meshpigeon_firmware.Prelude.{
  ℕ, ◌≡◌, refl, List, Bool, true, false, not, ◌&&◌, ◌||◌, none, some, if◌then◌else◌, ◌==◌, ltb,
  length, if_holds, if_false_holds,
}
use meshpigeon_firmware.Store.{append}
use meshpigeon_firmware.Clock.{uptime_ms64}
use meshpigeon_firmware.Settings.Text.{strlen}
use meshpigeon_firmware.Settings.Device.{pin_is_default, device_eq}
use meshpigeon_firmware.Processor.Message.{Ports, Op, ErrorCode, Answer, SetDeviceSettings}
use meshpigeon_firmware.Processor.State.{
  Processor, pin_matches, auth_backoff_active, note_auth_failure,
}
use meshpigeon_firmware.Processor.Reply.{
  reply, send_pong, emit_tx_result, notify_device_settings_changed,
}
use meshpigeon_firmware.Processor.Checks.{
  is_some, fails, updated, bad_device_settings, wifi_touched, max_raw_packet, flag_sent, mem,
}
use meshpigeon_firmware.Processor.Handle.{
  start_transmission, handle_send_packet, rotate_pin, save_change, change_device,
  handle_set_device_settings, handle_auth, handle_factory_reset, handle_request,
}
use meshpigeon_firmware.Processor.Bystander.{
  IsBystander, reply_keeps, error_keeps, push_keeps, guarded_keeps, call_hook_keeps, fetch_keeps,
  set_radio_keeps, change_hooks_keeps,
}

module _ {R S : Type 0} (ports : Ports R S) (c : ℕ) where
  abbrev pub Shut : Processor R S → Type 0
  Shut p = p.authenticated c ≡ false

  pub Shut-IsBystander : IsBystander Shut
  Shut-IsBystander = record {
    emits = λ p events h. h;
    retuned = λ p radio ok settings store count h. h;
  }

  factory_reset-Shut :
      (p : Processor R S) (id from : ℕ) → Shut p → Shut (handle_factory_reset ports p id from)
  unfolding handle_factory_reset
  factory_reset-Shut p id from h =
      call_hook_keeps ports Shut Shut-IsBystander _ _
        (reply_keeps ports Shut Shut-IsBystander _ id from Answer.ok h)

  send_packet-Shut :
      (p : Processor R S) (id : ℕ) (raw : List ℕ) (from : ℕ)
      → Shut p
      → Shut (handle_send_packet ports p id raw from)
  unfolding handle_send_packet start_transmission emit_tx_result
  send_packet-Shut p id raw from h =
      let error = error_keeps ports Shut Shut-IsBystander in
      let appended = append p.store (uptime_ms64 p.clock) 0 0 flag_sent raw in
      let stored = record p { store = appended.store } in
      let told = reply ports stored id from (Answer.packet_accepted appended.seq) in
      let tried = record told { radio = (ports.transmit told.radio raw).0 } in
      let k : Shut told = reply_keeps ports Shut Shut-IsBystander stored id from _ h in
      guarded_keeps ports Shut Shut-IsBystander p _ id from h (
        if_holds Shut (length raw == 0 || ltb max_raw_packet (length raw)) _ _
          (error p id ErrorCode.bad_payload from h)
          (if_holds Shut (not p.radio_ok) _ _ (error p id ErrorCode.no_radio from h) (
            if_holds Shut p.tx_pending _ _ (error p id ErrorCode.busy from h) (
              if_holds Shut (appended.seq == 0) _ _ (error stored id ErrorCode.busy from h) (
                if_holds Shut (not (ports.transmit told.radio raw).1) _ _
                  (push_keeps ports Shut Shut-IsBystander tried none false _ k) k)))))

  -- A new PIN of another connection lets nobody in but its writer.
  set_device-Shut :
      (p : Processor R S) (id : ℕ) (m : SetDeviceSettings) (from : ℕ)
      → (c == from) ≡ false
      → Shut p
      → Shut (handle_set_device_settings ports p id m from)
  unfolding handle_set_device_settings change_device notify_device_settings_changed save_change
      rotate_pin
  set_device-Shut p id m from other h =
      let next = updated p.device m in
      let set = record p { device = next } in
      let saved = save_change ports p m next from in
      let k : Shut saved =
        if_holds Shut (is_some m.pin) (rotate_pin ports set from) set
          (if_false_holds (λ (b : Bool). b ≡ false) (c == from) _ _ other
            (if_holds (λ (b : Bool). b ≡ false) (mem c p.sinks) _ _ refl h))
          h in
      guarded_keeps ports Shut Shut-IsBystander p _ id from h (
        if_holds Shut (bad_device_settings m) _ _
          (error_keeps ports Shut Shut-IsBystander p id ErrorCode.bad_payload from h)
          (if_holds Shut (wifi_touched m && fails p.hooks (λ h. h.wifi_supported)) _ _
            (error_keeps ports Shut Shut-IsBystander p id ErrorCode.not_supported from h)
            (if_holds Shut (device_eq next p.device) _ _
              (reply_keeps ports Shut Shut-IsBystander p id from _ h)
              (reply_keeps ports Shut Shut-IsBystander _ id from _ (
                push_keeps ports Shut Shut-IsBystander _ (some from) true _
                  (change_hooks_keeps ports Shut Shut-IsBystander saved m k))))))

  -- An attempt of another connection.
  auth-Shut :
      (p : Processor R S) (id : ℕ) (pin : List ℕ) (from : ℕ)
      → (c == from) ≡ false
      → Shut p
      → Shut (handle_auth ports p id pin from)
  unfolding handle_auth note_auth_failure
  auth-Shut p id pin from other h =
      let opened = record p {
        authenticated = λ s. if s == from then true else p.authenticated s;
        auth_fails = 0;
      } in
      if_holds Shut (auth_backoff_active p) _ _
        (error_keeps ports Shut Shut-IsBystander p id ErrorCode.auth_required from h)
        (if_holds Shut
          (p.authenticated from || pin_is_default p.device || pin_matches p pin (strlen pin)) _ _
          (reply_keeps ports Shut Shut-IsBystander opened id from Answer.ok
            (if_false_holds (λ (b : Bool). b ≡ false) (c == from) _ _ other h))
          (error_keeps ports Shut Shut-IsBystander (note_auth_failure p) id ErrorCode.auth_required
            from h))

  -- No request of another connection raises the flag.
  pub request-Shut :
      (p : Processor R S) (id : ℕ) (op : Op) (from : ℕ)
      → (c == from) ≡ false
      → Shut p
      → Shut (handle_request ports p id op from)
  unfolding handle_request send_pong
  request-Shut p id (Op.ping payload) from other h =
      reply_keeps ports Shut Shut-IsBystander p id from _ h
  request-Shut p id Op.get_device_info from other h =
      reply_keeps ports Shut Shut-IsBystander p id from _ h
  request-Shut p id Op.get_radio_settings from other h =
      guarded_keeps ports Shut Shut-IsBystander p _ id from h
        (reply_keeps ports Shut Shut-IsBystander p id from _ h)
  request-Shut p id (Op.set_radio_settings m) from other h =
      set_radio_keeps ports Shut Shut-IsBystander p id m from h
  request-Shut p id (Op.send_packet raw) from other h = send_packet-Shut p id raw from h
  request-Shut p id (Op.fetch_packets since_seq max_count) from other h =
      fetch_keeps ports Shut Shut-IsBystander p id since_seq max_count from h
  request-Shut p id Op.purge_store from other h =
      guarded_keeps ports Shut Shut-IsBystander p _ id from h
        (reply_keeps ports Shut Shut-IsBystander _ id from Answer.ok h)
  request-Shut p id Op.bootloader from other h =
      guarded_keeps ports Shut Shut-IsBystander p _ id from h (
        call_hook_keeps ports Shut Shut-IsBystander _ _
          (reply_keeps ports Shut Shut-IsBystander p id from Answer.ok h))
  request-Shut p id Op.get_device_settings from other h =
      guarded_keeps ports Shut Shut-IsBystander p _ id from h
        (reply_keeps ports Shut Shut-IsBystander p id from _ h)
  request-Shut p id (Op.set_device_settings m) from other h = set_device-Shut p id m from other h
  request-Shut p id Op.get_status from other h =
      reply_keeps ports Shut Shut-IsBystander p id from _ h
  request-Shut p id (Op.auth pin) from other h = auth-Shut p id pin from other h
  request-Shut p id Op.reboot from other h =
      guarded_keeps ports Shut Shut-IsBystander p _ id from h (
        call_hook_keeps ports Shut Shut-IsBystander _ _
          (reply_keeps ports Shut Shut-IsBystander p id from Answer.ok h))
  request-Shut p id Op.factory_reset from other h =
      guarded_keeps ports Shut Shut-IsBystander p _ id from h (factory_reset-Shut p id from h)
  request-Shut p id Op.unknown from other h =
      error_keeps ports Shut Shut-IsBystander p id ErrorCode.bad_command from h
