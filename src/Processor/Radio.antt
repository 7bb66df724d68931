-- ===== src/Processor/Radio.antt =====
-- The radio under the processor: one transmission at a time, and tunings that were checked.
use meshpigeon_firmware.Prelude.{
  ℕ, ◌≡◌, refl, ap, ◌∙◌, ◌⊎◌, List, [], ◌∷◌, Bool, true, false, ◌&&◌, ◌||◌, not, Option, none, some,
  if◌then◌else◌, is_empty, Bool-cases, inl, inr,
}
use mathlib.Core.Bool.{false≢true}
use meshpigeon_firmware.Store.Visit.{fetch_since_keeps}
use meshpigeon_firmware.Settings.Radio.{RadioSettings}
use meshpigeon_firmware.Settings.Device.{DeviceSettings, device_eq}
use meshpigeon_firmware.Processor.Message.{
  Ports, Op, Response, Answer, ErrorCode, Event, RadioSettingsMessage, SetDeviceSettings,
}
use meshpigeon_firmware.Processor.State.{
  Processor, is_authorized, first_owner_lock_active, note_auth_failure, auth_backoff_active,
}
use meshpigeon_firmware.Processor.Reply.{
  emit, deliver, broadcast_response, reply, send_error, send_pong, notify_device_settings_changed,
}
use meshpigeon_firmware.Processor.Checks.{
  updated, bad_device_settings, wifi_touched, bad_tuning, is_some,
}
use meshpigeon_firmware.Processor.Handle.{
  handle_request, guarded, handle_set_radio_settings, handle_send_packet, deliver_entry,
  handle_fetch_packets, rotate_pin, save_change, call_change_hooks, change_device,
  handle_set_device_settings, handle_auth, call_hook, handle_factory_reset,
}

-- What the radio, its tuning, the transmission under way and the registry look like.
abbrev pub Air : Type 0 → Type 0
Air R = R × RadioSettings × Bool × ℕ × List ℕ

-- The requests that have no business with the radio.
abbrev pub leaves_radio : Op → Bool
leaves_radio (Op.set_radio_settings m) = false
leaves_radio (Op.send_packet raw) = false
leaves_radio (Op.ping payload) = true
leaves_radio Op.get_device_info = true
leaves_radio Op.get_status = true
leaves_radio (Op.auth pin) = true
leaves_radio Op.unknown = true
leaves_radio Op.get_radio_settings = true
leaves_radio (Op.fetch_packets since_seq max_count) = true
leaves_radio Op.purge_store = true
leaves_radio Op.bootloader = true
leaves_radio Op.get_device_settings = true
leaves_radio (Op.set_device_settings m) = true
leaves_radio Op.reboot = true
leaves_radio Op.factory_reset = true

pub Op-cases :
    (op : Op)
    → (leaves_radio op ≡ true)
      ⊎ (((m : Option RadioSettingsMessage) × (op ≡ Op.set_radio_settings m))
          ⊎ ((raw : List ℕ) × (op ≡ Op.send_packet raw)))
Op-cases (Op.set_radio_settings m) = inr (inl (m, refl))
Op-cases (Op.send_packet raw) = inr (inr (raw, refl))
Op-cases (Op.ping payload) = inl refl
Op-cases Op.get_device_info = inl refl
Op-cases Op.get_status = inl refl
Op-cases (Op.auth pin) = inl refl
Op-cases Op.unknown = inl refl
Op-cases Op.get_radio_settings = inl refl
Op-cases (Op.fetch_packets since_seq max_count) = inl refl
Op-cases Op.purge_store = inl refl
Op-cases Op.bootloader = inl refl
Op-cases Op.get_device_settings = inl refl
Op-cases (Op.set_device_settings m) = inl refl
Op-cases Op.reboot = inl refl
Op-cases Op.factory_reset = inl refl

module _ {R S : Type 0} (ports : Ports R S) where
  abbrev pub air : Processor R S → Air R
  air p = (p.radio, p.settings, p.tx_pending, p.tx_pending_seq, p.sinks)

  pub deliver-air : (p : Processor R S) (to : ℕ) (r : Response) → air (deliver ports p to r) ≡ air p
  unfolding deliver emit
  deliver-air p to r = elim (Bool-cases (is_empty (ports.encode r))) [ inl e ↦ rw e | inr e ↦ rw e ]

  pub broadcast-air :
      (p : Processor R S) (x : Option ℕ) (only : Bool) (r : Response)
      → air (broadcast_response ports p x only r) ≡ air p
  unfolding broadcast_response emit
  broadcast-air p x only r = elim (Bool-cases (is_empty (ports.encode r))) [
    | inl e ↦ rw e
    | inr e ↦ rw e
  ]

  pub reply-air : (p : Processor R S) (id to : ℕ) (a : Answer) → air (reply ports p id to a) ≡ air p
  unfolding reply
  reply-air p id to a = deliver-air p to _

  pub error-air :
      (p : Processor R S) (id : ℕ) (code : ErrorCode) (to : ℕ)
      → air (send_error ports p id code to) ≡ air p
  unfolding send_error
  error-air p id code to = reply-air p id to _

  hook-air : (p : Processor R S) (event : Event) → air (call_hook ports p event) ≡ air p
  unfolding call_hook emit
  hook-air p event = elim (Bool-cases (is_some p.hooks)) [ inl e ↦ rw e | inr e ↦ rw e ]

  -- A guarded action keeps what the action keeps.
  pub guarded-air :
      (p q : Processor R S) (id from : ℕ) → air q ≡ air p → air (guarded ports p id from q) ≡ air p
  guarded-air p q id from h = elim (Bool-cases (is_authorized p from)) [
    | inl e ↦ rw e h
    | inr e ↦ rw e (error-air p id ErrorCode.auth_required from)
  ]

  if-air :
      (p q r : Processor R S) (b : Bool)
      → air q ≡ air p
      → air r ≡ air p
      → air (if b then q else r) ≡ air p
  if-air p q r true h k = h
  if-air p q r false h k = k

  if_true-air :
      (p q r : Processor R S) (b : Bool)
      → b ≡ true
      → air q ≡ air p
      → air (if b then q else r) ≡ air p
  if_true-air p q r b h k = rw h k

  event-air :
      (q : Processor R S) (b : Bool) (event : Event)
      → air (if b then emit q (event ∷ []) else q) ≡ air q
  unfolding emit
  event-air q true event = refl
  event-air q false event = refl

  or_true : (a b : Bool) → b ≡ true → (a || b) ≡ true
  or_true true b h = refl
  or_true false b h = h

  -- A tuning while a packet is out is refused at the latest by the test of `tx_pending_`.
  set_radio_settings-air :
      (p : Processor R S) (id : ℕ) (m : Option RadioSettingsMessage) (from : ℕ)
      → p.tx_pending ≡ true
      → air (handle_set_radio_settings ports p id m from) ≡ air p
  unfolding handle_set_radio_settings
  set_radio_settings-air p id none from h =
      guarded-air p _ id from (error-air p id ErrorCode.bad_payload from)
  set_radio_settings-air p id (some m) from h = guarded-air p _ id from (
      if-air p _ _ (bad_tuning m) (error-air p id ErrorCode.bad_payload from) (
        if_true-air p _ _ _ (or_true (first_owner_lock_active p) p.tx_pending h)
          (error-air p id ErrorCode.busy from)))

  pub send_packet-air :
      (p : Processor R S) (id : ℕ) (raw : List ℕ) (from : ℕ)
      → p.tx_pending ≡ true
      → air (handle_send_packet ports p id raw from) ≡ air p
  unfolding handle_send_packet
  send_packet-air p id raw from h = guarded-air p _ id from (
      if-air p _ _ _ (error-air p id ErrorCode.bad_payload from) (
        if-air p _ _ (not p.radio_ok) (error-air p id ErrorCode.no_radio from)
          (if_true-air p _ _ p.tx_pending h (error-air p id ErrorCode.busy from))))

  fetch_packets-air :
      (p : Processor R S) (id since_seq max_count from : ℕ)
      → air (handle_fetch_packets ports p id since_seq max_count from) ≡ air p
  unfolding handle_fetch_packets
  fetch_packets-air p id since_seq max_count from = guarded-air p _ id from (
      reply-air _ id from _
      ∙ fetch_since_keeps (deliver_entry ports id from) (λ (q : Processor R S). air q ≡ air p)
          (λ q e h. unfold deliver_entry in reply-air q id from _ ∙ h) p.store since_seq _ p refl)

  save_change-air :
      (p : Processor R S) (m : SetDeviceSettings) (next : DeviceSettings) (from : ℕ)
      → air (save_change ports p m next from) ≡ air p
  unfolding save_change rotate_pin
  save_change-air p m next from = elim (Bool-cases (is_some m.pin)) [ inl e ↦ rw e | inr e ↦ rw e ]

  change_hooks-air :
      (p : Processor R S) (m : SetDeviceSettings) → air (call_change_hooks ports p m) ≡ air p
  unfolding call_change_hooks
  change_hooks-air p m =
      event-air _ (wifi_touched m && is_some p.hooks) _
      ∙ event-air p (is_some m.name && is_some p.hooks) _

  change_device-air :
      (p : Processor R S) (id : ℕ) (m : SetDeviceSettings) (next : DeviceSettings) (from : ℕ)
      → air (change_device ports p id m next from) ≡ air p
  unfolding change_device notify_device_settings_changed
  change_device-air p id m next from =
      reply-air _ id from _
      ∙ broadcast-air (call_change_hooks ports (save_change ports p m next from) m) (some from) true
          _
      ∙ change_hooks-air (save_change ports p m next from) m
      ∙ save_change-air p m next from

  set_device_settings-air :
      (p : Processor R S) (id : ℕ) (m : SetDeviceSettings) (from : ℕ)
      → air (handle_set_device_settings ports p id m from) ≡ air p
  unfolding handle_set_device_settings
  set_device_settings-air p id m from = guarded-air p _ id from (
      if-air p _ _ (bad_device_settings m) (error-air p id ErrorCode.bad_payload from) (
        if-air p _ _ _ (error-air p id ErrorCode.not_supported from) (
          if-air p _ _ (device_eq (updated p.device m) p.device) (reply-air p id from _)
            (change_device-air p id m _ from))))

  auth-air :
      (p : Processor R S) (id : ℕ) (pin : List ℕ) (from : ℕ)
      → air (handle_auth ports p id pin from) ≡ air p
  unfolding handle_auth note_auth_failure
  auth-air p id pin from =
      if-air p _ _ (auth_backoff_active p) (error-air p id ErrorCode.auth_required from) (
        if-air p _ _ _ (reply-air _ id from Answer.ok)
          (error-air (note_auth_failure p) id ErrorCode.auth_required from))

  pub request-air :
      (p : Processor R S) (id : ℕ) (op : Op) (from : ℕ)
      → leaves_radio op ≡ true
      → air (handle_request ports p id op from) ≡ air p
  unfolding handle_request handle_factory_reset send_pong
  request-air p id (Op.ping payload) from h = reply-air p id from _
  request-air p id Op.get_device_info from h = reply-air p id from _
  request-air p id Op.get_status from h = reply-air p id from _
  request-air p id (Op.auth pin) from h = auth-air p id pin from
  request-air p id Op.unknown from h = error-air p id ErrorCode.bad_command from
  request-air p id Op.get_radio_settings from h = guarded-air p _ id from (reply-air p id from _)
  request-air p id (Op.set_radio_settings m) from h = absurd (false≢true h)
  request-air p id (Op.send_packet raw) from h = absurd (false≢true h)
  request-air p id (Op.fetch_packets since_seq max_count) from h =
      fetch_packets-air p id since_seq max_count from
  request-air p id Op.purge_store from h = guarded-air p _ id from (reply-air _ id from Answer.ok)
  request-air p id Op.bootloader from h =
      guarded-air p _ id from (hook-air _ _ ∙ reply-air p id from Answer.ok)
  request-air p id Op.get_device_settings from h = guarded-air p _ id from (reply-air p id from _)
  request-air p id (Op.set_device_settings m) from h = set_device_settings-air p id m from
  request-air p id Op.reboot from h =
      guarded-air p _ id from (hook-air _ _ ∙ reply-air p id from Answer.ok)
  request-air p id Op.factory_reset from h =
      guarded-air p _ id from (hook-air _ _ ∙ reply-air _ id from Answer.ok)

  pub pending-air :
      (p : Processor R S) (id : ℕ) (op : Op) (from : ℕ)
      → p.tx_pending ≡ true
      → air (handle_request ports p id op from) ≡ air p
  unfolding handle_request
  pending-air p id op from h = elim (Op-cases op) [
    | inl e ↦ request-air p id op from e
    | inr (inl (m, e)) ↦ rw e (set_radio_settings-air p id m from h)
    | inr (inr (raw, e)) ↦ rw e (send_packet-air p id raw from h)
  ]

  -- While a packet is on the air, no request of any client touches the radio, the tuning in force
  -- or the pending transmission: a second packet and a retune wait.
  pub handle_request-tx_pending :
      (p : Processor R S) (id : ℕ) (op : Op) (from : ℕ)
      → p.tx_pending ≡ true
      → let q = handle_request ports p id op from in
        (q.radio ≡ p.radio)
        × (q.settings ≡ p.settings)
        × (q.tx_pending ≡ true)
        × (q.tx_pending_seq ≡ p.tx_pending_seq)
  handle_request-tx_pending p id op from h =
      let same = pending-air p id op from h in
      (
        ap (λ (a : Air R). a.0) same,
        ap (λ (a : Air R). a.1) same,
        ap (λ (a : Air R). a.2) same ∙ h,
        ap (λ (a : Air R). a.3) same,
      )
