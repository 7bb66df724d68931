-- ===== src/Processor/Change.antt =====
-- `handle_set_device_settings`: what is refused or changes nothing, and what a new PIN does.
use meshpigeon_firmware.Prelude.{
  ℕ, ◌≡◌, refl, ap, ◌∙◌, sym, List, [], ◌∷◌, ◌++◌, Bool, true, false, ◌&&◌, ◌||◌, not, Option, some,
  ◌==◌, if◌then◌else◌, is_empty, Bool-cases, inl, inr, ◌⊎◌,
}
use meshpigeon_firmware.Settings.Text.{set_pin}
use meshpigeon_firmware.Settings.Device.{DeviceSettings, device_eq, pin_is_default}
use meshpigeon_firmware.Processor.Message.{Ports, SetDeviceSettings, Response, Answer, Event}
use meshpigeon_firmware.Processor.State.{Processor, is_authorized, auth_backoff_active}
use meshpigeon_firmware.Processor.Reply.{
  emit, deliver, broadcast_response, reply, send_error, notify_device_settings_changed,
}
use meshpigeon_firmware.Processor.Checks.{
  updated, bad_device_settings, wifi_touched, fails, is_some, or_else, mem,
}
use meshpigeon_firmware.Processor.Handle.{
  handle_set_device_settings, change_device, save_change, call_change_hooks, rotate_pin,
}

-- The settings, what is stored of them, and the state of authorization.
abbrev pub Lock : Type 0 → Type 0
Lock S = DeviceSettings × S × (ℕ → Bool) × ℕ × ℕ

module _ {R S : Type 0} (ports : Ports R S) where
  abbrev pub lock : Processor R S → Lock S
  lock p = (p.device, p.settings_store, p.authenticated, p.auth_fails, p.auth_backoff_until)

  deliver-lock : (p : Processor R S) (to : ℕ) (r : Response) → lock (deliver ports p to r) ≡ lock p
  unfolding deliver emit
  deliver-lock p to r = elim (Bool-cases (is_empty (ports.encode r))) [
    | inl e ↦ rw e
    | inr e ↦ rw e
  ]

  broadcast-lock :
      (p : Processor R S) (x : Option ℕ) (only : Bool) (r : Response)
      → lock (broadcast_response ports p x only r) ≡ lock p
  unfolding broadcast_response emit
  broadcast-lock p x only r = elim (Bool-cases (is_empty (ports.encode r))) [
    | inl e ↦ rw e
    | inr e ↦ rw e
  ]

  event-lock :
      (q : Processor R S) (b : Bool) (event : Event)
      → lock (if b then emit q (event ∷ []) else q) ≡ lock q
  unfolding emit
  event-lock q true event = refl
  event-lock q false event = refl

  change_hooks-lock :
      (p : Processor R S) (m : SetDeviceSettings) → lock (call_change_hooks ports p m) ≡ lock p
  unfolding call_change_hooks
  change_hooks-lock p m =
      event-lock _ (wifi_touched m && is_some p.hooks) _
      ∙ event-lock p (is_some m.name && is_some p.hooks) _

  change_device-lock :
      (p : Processor R S) (id : ℕ) (m : SetDeviceSettings) (next : DeviceSettings) (from : ℕ)
      → lock (change_device ports p id m next from) ≡ lock (save_change ports p m next from)
  unfolding change_device notify_device_settings_changed reply
  change_device-lock p id m next from =
      deliver-lock _ from _
      ∙ broadcast-lock (call_change_hooks ports (save_change ports p m next from) m) (some from)
          true _
      ∙ change_hooks-lock (save_change ports p m next from) m

  -- At most one frame, to the connection `from`; nothing of the settings or sessions has changed.
  abbrev pub AnsweredOnly : Processor R S → Processor R S → ℕ → Type 0
  AnsweredOnly p q from =
      (lock q ≡ lock p)
      × ((q.out ≡ p.out) ⊎ ((bytes : List ℕ) × (q.out ≡ p.out ++ Event.frame from bytes ∷ [])))

  reply-AnsweredOnly :
      (p : Processor R S) (id from : ℕ) (a : Answer) → AnsweredOnly p (reply ports p id from a) from
  unfolding reply deliver emit
  reply-AnsweredOnly p id from a =
      elim (Bool-cases (is_empty (ports.encode (record { id = id; answer = a })))) [
        | inl e ↦ rw e (refl, inl refl)
        | inr e ↦ rw e (refl, inr (ports.encode (record { id = id; answer = a }), refl))
      ]

  if-AnsweredOnly :
      (p q r : Processor R S) (from : ℕ) (b : Bool)
      → AnsweredOnly p q from
      → AnsweredOnly p r from
      → AnsweredOnly p (if b then q else r) from
  if-AnsweredOnly p q r from true h k = h
  if-AnsweredOnly p q r from false h k = k

  -- The three reasons for which a request changes nothing: a bad field, Wi-Fi settings on a board
  -- that has none, and values that are all in force already.
  abbrev pub IsIdle : Processor R S → SetDeviceSettings → Type 0
  IsIdle p m =
      (bad_device_settings m ≡ true)
      ⊎ (((wifi_touched m && fails p.hooks (λ h. h.wifi_supported)) ≡ true)
          ⊎ (device_eq (updated p.device m) p.device ≡ true))

  -- A request with a bad field, one for Wi-Fi that the board does not have, and one that sets what is
  -- set already are answered to their sender at most: no setting, no stored record, no session and no
  -- failure count changes, no hook is called, and no other client is told. So with a sender that is
  -- not authorized.
  pub handle_set_device_settings_idle :
      (p : Processor R S) (id : ℕ) (m : SetDeviceSettings) (from : ℕ)
      → IsIdle p m
      → AnsweredOnly p (handle_set_device_settings ports p id m from) from
  unfolding handle_set_device_settings send_error
  handle_set_device_settings_idle p id m from why =
      if-AnsweredOnly p _ _ from (is_authorized p from)
        (elim why [
          | inl bad ↦ rw bad (reply-AnsweredOnly p id from _)
          | inr (inl dead) ↦
              if-AnsweredOnly p _ _ from (bad_device_settings m) (reply-AnsweredOnly p id from _)
                (rw dead (reply-AnsweredOnly p id from _))
          | inr (inr same) ↦
              if-AnsweredOnly p _ _ from (bad_device_settings m) (reply-AnsweredOnly p id from _) (
                if-AnsweredOnly p _ _ from (wifi_touched m && fails p.hooks (λ h. h.wifi_supported))
                  (reply-AnsweredOnly p id from _) (rw same (reply-AnsweredOnly p id from _)))
        ])
        (reply-AnsweredOnly p id from _)

  authorized_is :
      (q : Processor R S) (s from : ℕ) (sinks : List ℕ) (before : ℕ → Bool) (d : DeviceSettings)
      → q.authenticated s ≡ (if s == from then true else if mem s sinks then false else before s)
      → q.device ≡ d
      → is_authorized q s ≡ (s == from || (not (mem s sinks) && before s) || pin_is_default d)
  unfolding is_authorized
  authorized_is q s from sinks before d session device =
      ap (λ (b : Bool). b || pin_is_default q.device) session
      ∙ ap
          (λ (e : DeviceSettings).
            (if s == from then true else if mem s sinks then false else before s)
            || pin_is_default e)
          device
      ∙ elim (Bool-cases (s == from)) [
        | inl e ↦ rw e refl
        | inr e ↦ elim (Bool-cases (mem s sinks)) [
          | inl k ↦ rw (e, k) refl
          | inr k ↦ rw (e, k) refl
        ]
      ]

  no_penalty : (q : Processor R S) → q.auth_backoff_until ≡ 0 → auth_backoff_active q ≡ false
  unfolding auth_backoff_active
  no_penalty q h = rw h refl

  save_change-pin :
      (p : Processor R S) (m : SetDeviceSettings) (next : DeviceSettings) (from : ℕ)
      → is_some m.pin ≡ true
      → lock (save_change ports p m next from) ≡ (
        next,
        ports.save_device p.settings_store next,
        (λ s. if s == from then true else if mem s p.sinks then false else p.authenticated s),
        0,
        0,
      )
  unfolding save_change rotate_pin
  save_change-pin p m next from h = rw h

  -- A request with a PIN that changes something takes effect for every connection at once: the new
  -- settings are in force and stored; its writer is authenticated, every other registered connection
  -- is not, and one that is not registered keeps its state, so that `s` is authorized exactly if it is
  -- the writer, or has a session from outside the registry, or the PIN is now the factory default;
  -- and no attempt that follows meets a back-off. So too where the PIN is the one in force already and
  -- another field changes.
  pub handle_set_device_settings-pin :
      (p : Processor R S) (id : ℕ) (m : SetDeviceSettings) (from : ℕ) (pin : List ℕ) (s : ℕ)
      → is_authorized p from ≡ true
      → m.pin ≡ some pin
      → bad_device_settings m ≡ false
      → (wifi_touched m && fails p.hooks (λ h. h.wifi_supported)) ≡ false
      → device_eq (updated p.device m) p.device ≡ false
      → let q = handle_set_device_settings ports p id m from in
        (q.device ≡ updated p.device m)
        × (q.device.pin ≡ set_pin pin)
        × (q.settings_store ≡ ports.save_device p.settings_store q.device)
        × (q.authenticated s
            ≡ (if s == from then true else if mem s p.sinks then false else p.authenticated s))
        × (is_authorized q s ≡ (
            s == from
            || (not (mem s p.sinks) && p.authenticated s)
            || pin_is_default (updated p.device m)))
        × (auth_backoff_active q ≡ false)
        × (q.auth_fails ≡ 0)
        × (q.auth_backoff_until ≡ 0)
  handle_set_device_settings-pin p id m from pin s a new good live differs =
      let q = handle_set_device_settings ports p id m from in
      let next = updated p.device m in
      let done : handle_set_device_settings ports p id m from
          ≡ change_device ports p id m next from =
        unfold handle_set_device_settings in rw (a, good, live, differs) in
      let l =
        ap lock done
        ∙ change_device-lock p id m next from
        ∙ save_change-pin p m next from (ap is_some new) in
      let device = ap (λ (k : Lock S). k.0) l in
      let session = ap (λ (k : Lock S). k.2 s) l in
      let penalty : q.auth_backoff_until ≡ 0 = ap (λ (k : Lock S). k.4) l in
      (
        device,
        ap (λ (k : Lock S). k.0.pin) l
            ∙ unfold updated in ap (λ (o : Option (List ℕ)). or_else o set_pin p.device.pin) new,
        ap (λ (k : Lock S). k.1) l ∙ ap (ports.save_device p.settings_store) (sym device),
        session,
        authorized_is q s from p.sinks p.authenticated next session device,
        no_penalty q penalty,
        ap (λ (k : Lock S). k.3) l,
        penalty,
      )
