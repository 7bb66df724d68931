-- ===== src/Processor/Handle.antt =====
-- The dispatcher and its handlers, the packets off the air, the end of a transmission, and boot.
use meshpigeon_firmware.Prelude.{
  ℕ, ◌+◌, ◌-◌, ◌%◌, ◌^◌, List, [], ◌∷◌, Bool, true, false, ◌&&◌, ◌||◌, not, Option, none, some, ltb,
  ◌==◌, if◌then◌else◌, length,
}
use meshpigeon_firmware.Store
use meshpigeon_firmware.Store.{StoredPacket, append, fetch_since, u32}
use meshpigeon_firmware.Clock
use meshpigeon_firmware.Clock.{uptime_ms64}
use meshpigeon_firmware.Settings.Radio.{RadioSettings, unset}
use meshpigeon_firmware.Settings.Text.{str_of, strlen}
use meshpigeon_firmware.Settings.Device.{
  DeviceSettings, defaults, pin_is_default, device_eq, wifi_port_default,
}
use meshpigeon_firmware.Processor.Message.{
  Ports, Op, ErrorCode, Answer, Event, RadioSettingsMessage, SetDeviceSettings, sign_extend,
}
use meshpigeon_firmware.Processor.State.{
  Processor, effective_name, first_owner_lock_active, is_authorized, pin_matches,
  auth_backoff_active, note_auth_failure,
}
use meshpigeon_firmware.Processor.Reply.{
  emit, broadcast_response, reply, send_error, send_pong, emit_tx_result, notify_radio_changed,
  notify_device_settings_changed, radio_settings_message, device_settings_message, status_message,
  device_info_message, packet_entry_message,
}
use meshpigeon_firmware.Processor.Checks.{
  max_raw_packet, flag_sent, flag_received, bad_tuning, tuning_of, is_some, fails, or_else,
  bad_device_settings, wifi_touched, updated, mem, fetch_bound,
}

module _ {R S : Type 0} (ports : Ports R S) where
  abbrev pub guarded : Processor R S → ℕ → ℕ → Processor R S → Processor R S
  guarded p id from go =
      if is_authorized p from then go else send_error ports p id ErrorCode.auth_required from

  unfoldable pub accept_tuning : Processor R S → ℕ → RadioSettings → ℕ → Processor R S
  accept_tuning p id tuning from =
      let s = record tuning { config_epoch = u32 (p.settings.config_epoch + 1) } in
      let changed = record p {
        radio_ok = true;
        settings = s;
        settings_store = ports.save p.settings_store s;
        set_count_since_boot = u32 (p.set_count_since_boot + 1);
      } in
      let told = notify_radio_changed ports changed (some from) in
      reply ports told id from (Answer.radio_settings (radio_settings_message told))

  unfoldable pub handle_set_radio_settings :
      Processor R S → ℕ → Option RadioSettingsMessage → ℕ → Processor R S
  handle_set_radio_settings p id none from =
      guarded p id from (send_error ports p id ErrorCode.bad_payload from)
  handle_set_radio_settings p id (some m) from =
      let (radio, accepted) = ports.apply p.radio (tuning_of m) in
      let applied = record p { radio = radio } in
      guarded p id from (
        if bad_tuning m
        then send_error ports p id ErrorCode.bad_payload from
        else if first_owner_lock_active p || p.tx_pending
        then send_error ports p id ErrorCode.busy from
        else if not accepted
        then send_error ports applied id ErrorCode.tx_failed from
        else accept_tuning applied id (tuning_of m) from)

  unfoldable pub start_transmission : Processor R S → ℕ → ℕ → List ℕ → ℕ → Processor R S
  start_transmission p id seq raw from =
      let told = reply ports p id from (Answer.packet_accepted seq) in
      let (radio, started) = ports.transmit told.radio raw in
      let tried = record told { radio = radio } in
      if not started
      then emit_tx_result ports tried seq false
      else record tried { tx_pending = true; tx_pending_seq = seq }

  unfoldable pub handle_send_packet : Processor R S → ℕ → List ℕ → ℕ → Processor R S
  handle_send_packet p id raw from =
      let n = length raw in
      let appended = append p.store (uptime_ms64 p.clock) 0 0 flag_sent raw in
      let stored = record p { store = appended.store } in
      guarded p id from (
        if n == 0 || ltb max_raw_packet n
        then send_error ports p id ErrorCode.bad_payload from
        else if not p.radio_ok
        then send_error ports p id ErrorCode.no_radio from
        else if p.tx_pending
        then send_error ports p id ErrorCode.busy from
        else if appended.seq == 0
        then send_error ports stored id ErrorCode.busy from
        else start_transmission stored id appended.seq raw from)

  -- The callback of the fetch: it never stops the loop.
  unfoldable pub deliver_entry : ℕ → ℕ → Processor R S → StoredPacket → Processor R S × Bool
  deliver_entry id from p e =
      (reply ports p id from (Answer.packet_entry (packet_entry_message e)), true)

  unfoldable pub handle_fetch_packets : Processor R S → ℕ → ℕ → ℕ → ℕ → Processor R S
  handle_fetch_packets p id since_seq max_count from =
      let bound = fetch_bound max_count in
      let (delivered, given) = fetch_since (deliver_entry id from) p.store since_seq bound p in
      guarded p id from (reply ports given id from (Answer.fetch_end delivered))

  -- A new PIN: the writer is in, every other registered connection is out, and no failure counts.
  unfoldable pub rotate_pin : Processor R S → ℕ → Processor R S
  rotate_pin p from = record p {
    authenticated =
        λ s. if s == from then true else if mem s p.sinks then false else p.authenticated s;
    auth_fails = 0;
    auth_backoff_until = 0;
  }

  unfoldable pub save_change :
      Processor R S → SetDeviceSettings → DeviceSettings → ℕ → Processor R S
  save_change p m next from =
      let set = record p { device = next } in
      let rotated = if is_some m.pin then rotate_pin set from else set in
      record rotated { settings_store = ports.save_device rotated.settings_store next }

  unfoldable pub call_change_hooks : Processor R S → SetDeviceSettings → Processor R S
  call_change_hooks p m =
      let renamed =
        if is_some m.name && is_some p.hooks
        then emit p (Event.named (str_of (effective_name p)) ∷ [])
        else p in
      if wifi_touched m && is_some p.hooks
      then emit renamed (Event.wifi_applied p.device ∷ [])
      else renamed

  unfoldable pub change_device :
      Processor R S → ℕ → SetDeviceSettings → DeviceSettings → ℕ → Processor R S
  change_device p id m next from =
      let told =
        notify_device_settings_changed ports (call_change_hooks (save_change p m next from) m)
          (some from) in
      reply ports told id from (Answer.device_settings (device_settings_message told))

  unfoldable pub handle_set_device_settings :
      Processor R S → ℕ → SetDeviceSettings → ℕ → Processor R S
  handle_set_device_settings p id m from =
      let next = updated p.device m in
      guarded p id from (
        if bad_device_settings m
        then send_error ports p id ErrorCode.bad_payload from
        else if wifi_touched m && fails p.hooks (λ h. h.wifi_supported)
        then send_error ports p id ErrorCode.not_supported from
        else if device_eq next p.device
        then reply ports p id from (Answer.device_settings (device_settings_message p))
        else change_device p id m next from)

  unfoldable pub handle_auth : Processor R S → ℕ → List ℕ → ℕ → Processor R S
  handle_auth p id pin from =
      let opened = record p {
        authenticated = λ s. if s == from then true else p.authenticated s;
        auth_fails = 0;
      } in
      if auth_backoff_active p
      then send_error ports p id ErrorCode.auth_required from
      else if p.authenticated from || pin_is_default p.device || pin_matches p pin (strlen pin)
      then reply ports opened id from Answer.ok
      else send_error ports (note_auth_failure p) id ErrorCode.auth_required from

  -- A hook that acts, where there are hooks.
  unfoldable pub call_hook : Processor R S → Event → Processor R S
  call_hook p event = if is_some p.hooks then emit p (event ∷ []) else p

  unfoldable pub handle_factory_reset : Processor R S → ℕ → ℕ → Processor R S
  handle_factory_reset p id from =
      let wiped = record p {
        device = defaults;
        settings_store = ports.clear_device p.settings_store;
        store = Store.clear p.store;
      } in
      call_hook (reply ports wiped id from Answer.ok) Event.reset_to_factory

  unfoldable pub handle_request : Processor R S → ℕ → Op → ℕ → Processor R S
  handle_request p id (Op.ping payload) from = send_pong ports p id payload from
  handle_request p id Op.get_device_info from =
      reply ports p id from (Answer.device_info (device_info_message p from))
  handle_request p id Op.get_radio_settings from =
      guarded p id from (reply ports p id from (Answer.radio_settings (radio_settings_message p)))
  handle_request p id (Op.set_radio_settings m) from = handle_set_radio_settings p id m from
  handle_request p id (Op.send_packet raw) from = handle_send_packet p id raw from
  handle_request p id (Op.fetch_packets since_seq max_count) from =
      handle_fetch_packets p id since_seq max_count from
  handle_request p id Op.purge_store from =
      guarded p id from (reply ports (record p { store = Store.clear p.store }) id from Answer.ok)
  handle_request p id Op.bootloader from =
      guarded p id from (call_hook (reply ports p id from Answer.ok) Event.rebooted_to_bootloader)
  handle_request p id Op.get_device_settings from =
      guarded p id from (reply ports p id from (Answer.device_settings (device_settings_message p)))
  handle_request p id (Op.set_device_settings m) from = handle_set_device_settings p id m from
  handle_request p id Op.get_status from = reply ports p id from (Answer.status (status_message p))
  handle_request p id (Op.auth pin) from = handle_auth p id pin from
  handle_request p id Op.reboot from =
      guarded p id from (call_hook (reply ports p id from Answer.ok) Event.rebooted)
  handle_request p id Op.factory_reset from = guarded p id from (handle_factory_reset p id from)
  handle_request p id Op.unknown from = send_error ports p id ErrorCode.bad_command from

  -- An envelope that cannot be decoded, or has no correlation id, is dropped.
  unfoldable pub on_envelope : Processor R S → List ℕ → ℕ → Processor R S
  on_envelope p bytes from = elim (ports.decode bytes) [
    | none ↦ p
    | some r ↦ if r.id == 0 then p else handle_request p r.id r.op from
  ]

  unfoldable pub on_packet_received : Processor R S → ℕ → ℕ → List ℕ → ℕ × Processor R S
  on_packet_received p rssi snr raw =
      let noise = (sign_extend rssi + 2 ^ 32 - sign_extend snr) % 2 ^ 32 in
      let appended = append p.store (uptime_ms64 p.clock) rssi snr flag_received raw in
      let heard = record p { noise_floor_dbm = noise; store = appended.store } in
      let pushed =
        or_else appended.stored
          (λ (e : StoredPacket).
            broadcast_response ports heard none true
              (record { id = 0; answer = Answer.packet_entry (packet_entry_message e) }))
          heard in
      if appended.seq == 0 then (0, heard) else (appended.seq, pushed)

  unfoldable pub on_tx_result : Processor R S → ℕ → Bool → Processor R S
  on_tx_result p seq success =
      if not p.tx_pending || not (seq == p.tx_pending_seq)
      then p
      else emit_tx_result ports (record p { tx_pending = false }) seq success

  -- A tick of the board loop at the time `now`; the radio is only asked while a packet is out.
  unfoldable pub poll : Processor R S → ℕ → Processor R S
  poll p now =
      let ticked = record p { clock = Clock.poll p.clock now } in
      let (radio, done) = ports.tx_done p.radio in
      let asked = record ticked { radio = radio } in
      if not p.tx_pending
      then ticked
      else if done
      then on_tx_result asked asked.tx_pending_seq true
      else asked

  unfoldable pub boot : Processor R S → Bool × Processor R S
  boot p =
      let settings = or_else (ports.load p.settings_store) (λ (s : RadioSettings). s) unset in
      let device = ports.load_device p.settings_store in
      let ported = record device {
        wifi_port = if device.wifi_port == 0 then wifi_port_default else device.wifi_port;
      } in
      let (radio, up) = ports.begin p.radio in
      let (radio', applied) = ports.apply radio settings in
      let booted = record p { settings = settings; set_count_since_boot = 0; device = ported } in
      if up
      then (applied, record booted { radio = radio'; radio_ok = applied })
      else (false, record booted { radio = radio; radio_ok = false })
