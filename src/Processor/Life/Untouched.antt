-- ===== src/Processor/Life/Untouched.antt =====
-- The requests that leave the packet store and the clock alone.
use meshpigeon_firmware.Prelude.{ℕ, ◌≡◌, sym, List, Bool, true, false, ◌&&◌, ◌||◌, some, if_holds}
use mathlib.Core.Bool.{false≢true}
use meshpigeon_firmware.Store.{PacketStore}
use meshpigeon_firmware.Clock.{UptimeClock}
use meshpigeon_firmware.Settings.Text.{strlen}
use meshpigeon_firmware.Settings.Device.{pin_is_default, device_eq}
use meshpigeon_firmware.Processor.Message.{Ports, Op, ErrorCode, Answer, SetDeviceSettings}
use meshpigeon_firmware.Processor.State.{
  Processor, pin_matches, auth_backoff_active, note_auth_failure,
}
use meshpigeon_firmware.Processor.Reply.{send_pong, notify_device_settings_changed}
use meshpigeon_firmware.Processor.Checks.{
  is_some, fails, updated, bad_device_settings, wifi_touched,
}
use meshpigeon_firmware.Processor.Handle.{
  rotate_pin, save_change, change_device, handle_set_device_settings, handle_auth, handle_request,
}
use meshpigeon_firmware.Processor.Bystander.{
  IsBystander, reply_keeps, error_keeps, push_keeps, guarded_keeps, call_hook_keeps, fetch_keeps,
  set_radio_keeps, change_hooks_keeps,
}

-- The requests that write to the store.
abbrev pub writes_store : Op → Bool
writes_store (Op.send_packet raw) = true
writes_store Op.purge_store = true
writes_store Op.factory_reset = true
writes_store (Op.ping payload) = false
writes_store Op.get_device_info = false
writes_store Op.get_radio_settings = false
writes_store (Op.set_radio_settings m) = false
writes_store (Op.fetch_packets since_seq max_count) = false
writes_store Op.bootloader = false
writes_store Op.get_device_settings = false
writes_store (Op.set_device_settings m) = false
writes_store Op.get_status = false
writes_store (Op.auth pin) = false
writes_store Op.reboot = false
writes_store Op.unknown = false

abbrev pub Shelf : Type 0
Shelf = PacketStore × UptimeClock

module _ {R S : Type 0} (ports : Ports R S) (before : Shelf) where
  abbrev pub shelf : Processor R S → Shelf
  shelf p = (p.store, p.clock)

  -- The store and the clock are as they were before.
  abbrev pub Same : Processor R S → Type 0
  Same p = shelf p ≡ before

  pub Same-IsBystander : IsBystander Same
  Same-IsBystander = record {
    emits = λ p events h. h;
    retuned = λ p radio ok settings store count h. h;
  }

  set_device-Same :
      (p : Processor R S) (id : ℕ) (m : SetDeviceSettings) (from : ℕ)
      → Same p
      → Same (handle_set_device_settings ports p id m from)
  unfolding handle_set_device_settings change_device notify_device_settings_changed save_change
      rotate_pin
  set_device-Same p id m from h =
      let next = updated p.device m in
      let set = record p { device = next } in
      let saved = save_change ports p m next from in
      let k : Same saved = if_holds Same (is_some m.pin) (rotate_pin ports set from) set h h in
      guarded_keeps ports Same Same-IsBystander p _ id from h (
        if_holds Same (bad_device_settings m) _ _
          (error_keeps ports Same Same-IsBystander p id ErrorCode.bad_payload from h)
          (if_holds Same (wifi_touched m && fails p.hooks (λ h. h.wifi_supported)) _ _
            (error_keeps ports Same Same-IsBystander p id ErrorCode.not_supported from h)
            (if_holds Same (device_eq next p.device) _ _
              (reply_keeps ports Same Same-IsBystander p id from _ h)
              (reply_keeps ports Same Same-IsBystander _ id from _ (
                push_keeps ports Same Same-IsBystander _ (some from) true _
                  (change_hooks_keeps ports Same Same-IsBystander saved m k))))))

  auth-Same :
      (p : Processor R S) (id : ℕ) (pin : List ℕ) (from : ℕ)
      → Same p
      → Same (handle_auth ports p id pin from)
  unfolding handle_auth note_auth_failure
  auth-Same p id pin from h =
      if_holds Same (auth_backoff_active p) _ _
        (error_keeps ports Same Same-IsBystander p id ErrorCode.auth_required from h)
        (if_holds Same
          (p.authenticated from || pin_is_default p.device || pin_matches p pin (strlen pin)) _ _
          (reply_keeps ports Same Same-IsBystander _ id from Answer.ok h)
          (error_keeps ports Same Same-IsBystander (note_auth_failure p) id ErrorCode.auth_required
            from h))

  pub request-Same :
      (p : Processor R S) (id : ℕ) (op : Op) (from : ℕ)
      → writes_store op ≡ false
      → Same p
      → Same (handle_request ports p id op from)
  unfolding handle_request send_pong
  request-Same p id (Op.ping payload) from w h =
      reply_keeps ports Same Same-IsBystander p id from _ h
  request-Same p id Op.get_device_info from w h =
      reply_keeps ports Same Same-IsBystander p id from _ h
  request-Same p id Op.get_radio_settings from w h =
      guarded_keeps ports Same Same-IsBystander p _ id from h
        (reply_keeps ports Same Same-IsBystander p id from _ h)
  request-Same p id (Op.set_radio_settings m) from w h =
      set_radio_keeps ports Same Same-IsBystander p id m from h
  request-Same p id (Op.fetch_packets since_seq max_count) from w h =
      fetch_keeps ports Same Same-IsBystander p id since_seq max_count from h
  request-Same p id Op.bootloader from w h =
      guarded_keeps ports Same Same-IsBystander p _ id from h (
        call_hook_keeps ports Same Same-IsBystander _ _
          (reply_keeps ports Same Same-IsBystander p id from Answer.ok h))
  request-Same p id Op.get_device_settings from w h =
      guarded_keeps ports Same Same-IsBystander p _ id from h
        (reply_keeps ports Same Same-IsBystander p id from _ h)
  request-Same p id (Op.set_device_settings m) from w h = set_device-Same p id m from h
  request-Same p id Op.get_status from w h = reply_keeps ports Same Same-IsBystander p id from _ h
  request-Same p id (Op.auth pin) from w h = auth-Same p id pin from h
  request-Same p id Op.reboot from w h = guarded_keeps ports Same Same-IsBystander p _ id from h (
      call_hook_keeps ports Same Same-IsBystander _ _
        (reply_keeps ports Same Same-IsBystander p id from Answer.ok h))
  request-Same p id Op.unknown from w h =
      error_keeps ports Same Same-IsBystander p id ErrorCode.bad_command from h
  request-Same p id (Op.send_packet raw) from w h = absurd (false≢true (sym w))
  request-Same p id Op.purge_store from w h = absurd (false≢true (sym w))
  request-Same p id Op.factory_reset from w h = absurd (false≢true (sym w))
