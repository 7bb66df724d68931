-- ===== src/Processor/Bystander.antt =====
-- What the deliveries and most handlers keep: every property that looks neither at the log nor at the
-- radio and its tuning.
use meshpigeon_firmware.Prelude.{
  ℕ, ◌++◌, ◌+◌, List, [], ◌∷◌, Bool, true, not, ◌&&◌, ◌||◌, Option, none, some, if_holds, is_empty,
}
use meshpigeon_firmware.Store.{fetch_since, u32, StoredPacket}
use meshpigeon_firmware.Store.Visit.{fetch_since_keeps}
use meshpigeon_firmware.Settings.Radio.{RadioSettings}
use meshpigeon_firmware.Settings.Text.{str_of}
use meshpigeon_firmware.Processor.Message.{
  Ports, ErrorCode, Response, Answer, Event, RadioSettingsMessage, SetDeviceSettings,
}
use meshpigeon_firmware.Processor.State.{
  Processor, is_authorized, first_owner_lock_active, effective_name,
}
use meshpigeon_firmware.Processor.Reply.{
  emit, deliver, broadcast_response, reply, send_error, notify_radio_changed,
}
use meshpigeon_firmware.Processor.Checks.{bad_tuning, tuning_of, is_some, wifi_touched, fetch_bound}
use meshpigeon_firmware.Processor.Handle.{
  guarded, accept_tuning, handle_set_radio_settings, deliver_entry, handle_fetch_packets,
  call_change_hooks, call_hook,
}

pub record IsBystander {R S : Type 0} (Q : Processor R S → Type 0) : Type 0 where
  pub emits :
      (p : Processor R S) (events : List Event) → Q p → Q (record p { out = p.out ++ events })
  pub retuned :
      (p : Processor R S) (radio : R) (ok : Bool) (settings : RadioSettings) (store : S) (count : ℕ)
      → Q p
      → Q (record p {
        radio = radio;
        radio_ok = ok;
        settings = settings;
        settings_store = store;
        set_count_since_boot = count;
      })

module _ {R S : Type 0} (ports : Ports R S) (Q : Processor R S → Type 0) (law : IsBystander Q) where
  pub reply_keeps :
      (p : Processor R S) (id to : ℕ) (answer : Answer) → Q p → Q (reply ports p id to answer)
  unfolding reply deliver emit
  reply_keeps p id to answer h =
      if_holds Q (is_empty (ports.encode (record { id = id; answer = answer }))) _ _ h
        (law.emits p _ h)

  pub error_keeps :
      (p : Processor R S) (id : ℕ) (code : ErrorCode) (to : ℕ)
      → Q p
      → Q (send_error ports p id code to)
  unfolding send_error
  error_keeps p id code to h = reply_keeps p id to (Answer.error code) h

  pub push_keeps :
      (p : Processor R S) (except : Option ℕ) (authorized_only : Bool) (r : Response)
      → Q p
      → Q (broadcast_response ports p except authorized_only r)
  unfolding broadcast_response emit
  push_keeps p except authorized_only r h =
      if_holds Q (is_empty (ports.encode r)) _ _ h (law.emits p _ h)

  pub guarded_keeps :
      (p q : Processor R S) (id from : ℕ) → Q p → Q q → Q (guarded ports p id from q)
  guarded_keeps p q id from h k =
      if_holds Q (is_authorized p from) q _ k (error_keeps p id ErrorCode.auth_required from h)

  pub call_hook_keeps : (p : Processor R S) (event : Event) → Q p → Q (call_hook ports p event)
  unfolding call_hook emit
  call_hook_keeps p event h = if_holds Q (is_some p.hooks) _ _ (law.emits p _ h) h

  pub fetch_keeps :
      (p : Processor R S) (id since_seq max_count from : ℕ)
      → Q p
      → Q (handle_fetch_packets ports p id since_seq max_count from)
  unfolding handle_fetch_packets deliver_entry
  fetch_keeps p id since_seq max_count from h =
      let given =
        (fetch_since (deliver_entry ports id from) p.store since_seq (fetch_bound max_count) p).1 in
      guarded_keeps p _ id from h (
        reply_keeps given id from _ (
          fetch_since_keeps (deliver_entry ports id from) Q
            (λ (q : Processor R S) (e : StoredPacket) (k : Q q). reply_keeps q id from _ k) p.store
            since_seq (fetch_bound max_count) p h))

  pub set_radio_keeps :
      (p : Processor R S) (id : ℕ) (m : Option RadioSettingsMessage) (from : ℕ)
      → Q p
      → Q (handle_set_radio_settings ports p id m from)
  unfolding handle_set_radio_settings accept_tuning notify_radio_changed
  set_radio_keeps p id none from h =
      guarded_keeps p _ id from h (error_keeps p id ErrorCode.bad_payload from h)
  set_radio_keeps p id (some m) from h =
      let applied = record p { radio = (ports.apply p.radio (tuning_of m)).0 } in
      let s = record (tuning_of m) { config_epoch = u32 (p.settings.config_epoch + 1) } in
      let changed = record applied {
        radio_ok = true;
        settings = s;
        settings_store = ports.save p.settings_store s;
        set_count_since_boot = u32 (p.set_count_since_boot + 1);
      } in
      guarded_keeps p _ id from h (
        if_holds Q (bad_tuning m) _ _ (error_keeps p id ErrorCode.bad_payload from h) (
          if_holds Q (first_owner_lock_active p || p.tx_pending) _ _
            (error_keeps p id ErrorCode.busy from h)
            (if_holds Q (not (ports.apply p.radio (tuning_of m)).1) _ _
              (error_keeps applied id ErrorCode.tx_failed from (law.retuned p _ _ _ _ _ h))
              (reply_keeps _ id from _
                (push_keeps changed (some from) true _ (law.retuned p _ _ _ _ _ h))))))

  pub change_hooks_keeps :
      (p : Processor R S) (m : SetDeviceSettings) → Q p → Q (call_change_hooks ports p m)
  unfolding call_change_hooks emit
  change_hooks_keeps p m h =
      let k =
        if_holds Q (is_some m.name && is_some p.hooks)
          (emit p (Event.named (str_of (effective_name p)) ∷ [])) p (law.emits p _ h) h in
      if_holds Q (wifi_touched m && is_some p.hooks) _ _ (law.emits _ _ k) k
