-- ===== src/Processor/Secrecy/Requests.antt =====
-- What a request sends to a connection that is not authorized, whoever asks.
use meshpigeon_firmware.Prelude.{
  ℕ, ◌≡◌, ◌≢◌, refl, sym, ap, subst, List, [], ◌∷◌, true, false, ◌||◌, if◌then◌else◌, ◌==◌,
  Bool-cases, if_holds, inl, inr, ==_iff, ◌∙◌,
}
use mathlib.Core.Bool.{false≢true}
use meshpigeon_firmware.Store
use meshpigeon_firmware.Settings.Text.{strlen}
use meshpigeon_firmware.Settings.Device.{pin_is_default}
use meshpigeon_firmware.Processor.Message.{Ports, Op, ErrorCode, Answer, Event}
use meshpigeon_firmware.Processor.State.{
  Processor, is_authorized, pin_matches, auth_backoff_active, note_auth_failure,
}
use meshpigeon_firmware.Processor.Reply.{emit, reply, send_error, send_pong}
use meshpigeon_firmware.Processor.Handle.{handle_auth, handle_request, guarded, call_hook}
use meshpigeon_firmware.Processor.Gate.{is_gated, handle_request-is_gated}
use meshpigeon_firmware.Processor.Secrecy.{is_public, Quiet, Quiet-emit, reply-other, reply-public}
use meshpigeon_firmware.Processor.Secrecy.Handlers.{
  error-Quiet, guarded-Quiet, call_hook-Quiet, fetch-Quiet, set_radio-Quiet, send_packet-Quiet,
  set_device-Quiet, factory_reset-Quiet,
}

module _ {R S : Type 0} (ports : Ports R S) (c : ℕ) (p : Processor R S) (id from : ℕ) where
  -- An attempt to authenticate is answered with `ok` or an error.
  auth-Quiet : (pin : List ℕ) → Quiet ports c p (handle_auth ports p id pin from)
  unfolding handle_auth is_public note_auth_failure
  auth-Quiet pin =
      let opened = record p {
        authenticated = λ s. if s == from then true else p.authenticated s;
        auth_fails = 0;
      } in
      if_holds (Quiet ports c p) (auth_backoff_active p) _ _
        (error-Quiet ports c p id ErrorCode.auth_required from)
        (if_holds (Quiet ports c p)
          (p.authenticated from || pin_is_default p.device || pin_matches p pin (strlen pin)) _ _
          (reply-public ports c opened id from Answer.ok refl)
          (error-Quiet ports c (note_auth_failure p) id ErrorCode.auth_required from))

  -- A reboot, or the like, by another connection.
  hook-Quiet :
      (event : Event)
      → from ≢ c
      → ((t : Processor R S) → Quiet ports c t (emit t (event ∷ [])))
      → Quiet ports c p
          (guarded ports p id from (call_hook ports (reply ports p id from Answer.ok) event))
  hook-Quiet event other fine =
      guarded-Quiet ports c p _ id from
        (call_hook-Quiet ports c p _ event fine (reply-other ports c p id from Answer.ok other))

  other-Quiet :
      (op : Op)
      → from ≢ c
      → is_authorized p c ≡ false
      → is_authorized (handle_request ports p id op from) c ≡ false
      → Quiet ports c p (handle_request ports p id op from)
  unfolding handle_request send_pong send_error
  other-Quiet (Op.ping payload) other h after = reply-other ports c p id from _ other
  other-Quiet Op.get_device_info other h after = reply-other ports c p id from _ other
  other-Quiet Op.get_radio_settings other h after =
      guarded-Quiet ports c p _ id from (reply-other ports c p id from _ other)
  other-Quiet (Op.set_radio_settings m) other h after = set_radio-Quiet ports c id from other p m h
  other-Quiet (Op.send_packet raw) other h after = send_packet-Quiet ports c id from other p raw
  other-Quiet (Op.fetch_packets since_seq max_count) other h after =
      fetch-Quiet ports c id from other p since_seq max_count
  other-Quiet Op.purge_store other h after =
      guarded-Quiet ports c p _ id from
        (reply-other ports c (record p { store = Store.clear p.store }) id from Answer.ok other)
  other-Quiet Op.bootloader other h after =
      hook-Quiet Event.rebooted_to_bootloader other (λ t. Quiet-emit ports c t _ (tt, tt))
  other-Quiet Op.get_device_settings other h after =
      guarded-Quiet ports c p _ id from (reply-other ports c p id from _ other)
  other-Quiet (Op.set_device_settings m) other h after =
      set_device-Quiet ports c id from other p m after
  other-Quiet Op.get_status other h after = reply-other ports c p id from _ other
  other-Quiet (Op.auth pin) other h after = auth-Quiet pin
  other-Quiet Op.reboot other h after =
      hook-Quiet Event.rebooted other (λ t. Quiet-emit ports c t _ (tt, tt))
  other-Quiet Op.factory_reset other h after =
      guarded-Quiet ports c p _ id from (factory_reset-Quiet ports c id from other p)
  other-Quiet Op.unknown other h after = reply-other ports c p id from _ other

  -- The requests that need no authorization are answered with what is public.
  open-Quiet : (op : Op) → is_gated op ≡ false → Quiet ports c p (handle_request ports p id op from)
  unfolding handle_request is_gated send_pong send_error is_public
  open-Quiet (Op.ping payload) g = reply-public ports c p id from _ refl
  open-Quiet Op.get_device_info g = reply-public ports c p id from _ refl
  open-Quiet Op.get_status g = reply-public ports c p id from _ refl
  open-Quiet (Op.auth pin) g = auth-Quiet pin
  open-Quiet Op.unknown g = reply-public ports c p id from _ refl
  open-Quiet Op.get_radio_settings g = absurd (false≢true (sym g))
  open-Quiet (Op.set_radio_settings m) g = absurd (false≢true (sym g))
  open-Quiet (Op.send_packet raw) g = absurd (false≢true (sym g))
  open-Quiet (Op.fetch_packets since_seq max_count) g = absurd (false≢true (sym g))
  open-Quiet Op.purge_store g = absurd (false≢true (sym g))
  open-Quiet Op.bootloader g = absurd (false≢true (sym g))
  open-Quiet Op.get_device_settings g = absurd (false≢true (sym g))
  open-Quiet (Op.set_device_settings m) g = absurd (false≢true (sym g))
  open-Quiet Op.reboot g = absurd (false≢true (sym g))
  open-Quiet Op.factory_reset g = absurd (false≢true (sym g))

  pub request-Quiet :
      (op : Op)
      → is_authorized p c ≡ false
      → is_authorized (handle_request ports p id op from) c ≡ false
      → Quiet ports c p (handle_request ports p id op from)
  request-Quiet op h after = elim (Bool-cases (from == c)) [
    | inr other ↦
        other-Quiet op (λ (e : from ≡ c). false≢true (sym other ∙ (==_iff from c).1 e)) h after
    | inl same ↦ elim (Bool-cases (is_gated op)) [
      | inr g ↦ open-Quiet op g
      | inl g ↦
          let out : is_authorized p from ≡ false =
            ap (is_authorized p) ((==_iff from c).0 same) ∙ h in
          subst (Quiet ports c p) (sym (handle_request-is_gated ports p id op from out g))
            (error-Quiet ports c p id ErrorCode.auth_required from)
    ]
  ]
