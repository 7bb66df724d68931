-- ===== src/Processor/Gate.antt =====
-- Who may do what, and who is told what.
use meshpigeon_firmware.Prelude.{
  arith, ℕ, ◌+◌, ◌++◌, ◌⊎◌, map, All, is_empty, sym, ◌≡◌, refl, ap, ◌∙◌, List, [], ◌∷◌, Bool, true,
  false, ◌&&◌, ◌||◌, not, Option, none, some, ◌==◌, if◌then◌else◌, Bool-cases, inl, inr, ==_iff,
}
use mathlib.Core.Bool.{false≢true}
use meshpigeon_firmware.Processor.Message.{Ports, Op, ErrorCode, Response, Event}
use meshpigeon_firmware.Processor.State.{Processor, is_authorized}
use meshpigeon_firmware.Processor.Reply.{recipients, send_error, is_same, emit, broadcast_response}
use meshpigeon_firmware.Processor.Handle.{
  handle_request, handle_set_radio_settings, handle_send_packet, handle_fetch_packets,
  handle_set_device_settings,
}

-- The operations that need authorization.
unfoldable pub is_gated : Op → Bool
is_gated (Op.ping payload) = false
is_gated Op.get_device_info = false
is_gated Op.get_status = false
is_gated (Op.auth pin) = false
is_gated Op.unknown = false
is_gated Op.get_radio_settings = true
is_gated (Op.set_radio_settings m) = true
is_gated (Op.send_packet raw) = true
is_gated (Op.fetch_packets since_seq max_count) = true
is_gated Op.purge_store = true
is_gated Op.bootloader = true
is_gated Op.get_device_settings = true
is_gated (Op.set_device_settings m) = true
is_gated Op.reboot = true
is_gated Op.factory_reset = true

-- How often a connection is in a list of them.
abbrev pub times : ℕ → List ℕ → ℕ
times s [] = 0
times s (t ∷ ss) = (if s == t then 1 else 0) + times s ss

-- How many of the events are frames to `s`.
abbrev pub copies : ℕ → List Event → ℕ
copies s [] = 0
copies s (Event.frame to bytes ∷ events) = (if s == to then 1 else 0) + copies s events
copies s (Event.named name ∷ events) = copies s events
copies s (Event.wifi_applied d ∷ events) = copies s events
copies s (Event.rebooted ∷ events) = copies s events
copies s (Event.rebooted_to_bootloader ∷ events) = copies s events
copies s (Event.reset_to_factory ∷ events) = copies s events

-- A frame of these bytes, to someone.
abbrev pub IsFrame : List ℕ → Event → Type 0
IsFrame buf event = (to : ℕ) × (event ≡ Event.frame to buf)

none_left : (xs : List ℕ) → is_empty xs ≡ true → xs ≡ []
none_left [] h = refl
none_left (x ∷ xs) h = absurd (false≢true h)

module _ {R S : Type 0} (ports : Ports R S) (p : Processor R S) where
  -- A connection that is not authorized gets AUTH_REQUIRED for every gated operation, whatever its
  -- arguments, and nothing else happens: no state changes, no radio, store or hook is touched, and
  -- no other connection hears of it.
  pub handle_request-is_gated :
      (id : ℕ) (op : Op) (from : ℕ)
      → is_authorized p from ≡ false
      → is_gated op ≡ true
      → handle_request ports p id op from ≡ send_error ports p id ErrorCode.auth_required from
  unfolding handle_request is_gated handle_set_radio_settings handle_send_packet
      handle_fetch_packets handle_set_device_settings
  handle_request-is_gated id (Op.ping payload) from h g = absurd (false≢true g)
  handle_request-is_gated id Op.get_device_info from h g = absurd (false≢true g)
  handle_request-is_gated id Op.get_status from h g = absurd (false≢true g)
  handle_request-is_gated id (Op.auth pin) from h g = absurd (false≢true g)
  handle_request-is_gated id Op.unknown from h g = absurd (false≢true g)
  handle_request-is_gated id Op.get_radio_settings from h g = rw h
  handle_request-is_gated id (Op.set_radio_settings none) from h g = rw h
  handle_request-is_gated id (Op.set_radio_settings (some m)) from h g = rw h
  handle_request-is_gated id (Op.send_packet raw) from h g = rw h
  handle_request-is_gated id (Op.fetch_packets since_seq max_count) from h g = rw h
  handle_request-is_gated id Op.purge_store from h g = rw h
  handle_request-is_gated id Op.bootloader from h g = rw h
  handle_request-is_gated id Op.get_device_settings from h g = rw h
  handle_request-is_gated id (Op.set_device_settings m) from h g = rw h
  handle_request-is_gated id Op.reboot from h g = rw h
  handle_request-is_gated id Op.factory_reset from h g = rw h

  -- Is `s` one of those that a broadcast is for?
  abbrev pub told : Option ℕ → Bool → ℕ → Bool
  told except authorized_only s =
      not (is_same s except) && (not authorized_only || is_authorized p s)

  recipients_step :
      (except : Option ℕ) (authorized_only : Bool) (t : ℕ) (ss : List ℕ)
      → recipients p except authorized_only (t ∷ ss) ≡ (
          if told except authorized_only t
          then t ∷ recipients p except authorized_only ss
          else recipients p except authorized_only ss)
  unfolding recipients
  recipients_step except false t ss = elim (Bool-cases (is_same t except)) [
    | inl e ↦ rw e
    | inr e ↦ rw e
  ]
  recipients_step except true t ss = elim (Bool-cases (is_same t except)) [
    | inl e ↦ rw e
    | inr e ↦ elim (Bool-cases (is_authorized p t)) [ inl a ↦ rw (e, a) | inr a ↦ rw (e, a) ]
  ]

  times-recipients :
      (except : Option ℕ) (authorized_only : Bool) (s : ℕ) (ss : List ℕ)
      → times s (recipients p except authorized_only ss)
        ≡ (if told except authorized_only s then times s ss else 0)
  times-recipients except authorized_only s [] =
      unfold recipients in
      elim (Bool-cases (told except authorized_only s)) [ inl k ↦ rw k refl | inr k ↦ rw k refl ]
  times-recipients except authorized_only s (t ∷ ss) =
      let ih = times-recipients except authorized_only s ss in
      ap (times s) (recipients_step except authorized_only t ss) ∙ elim (Bool-cases (s == t)) [
        | inl e ↦
            let same : told except authorized_only t ≡ told except authorized_only s =
              ap (told except authorized_only) (sym ((==_iff s t).0 e)) in
            elim (Bool-cases (told except authorized_only s)) [
              | inl k ↦ rw (same, k, e, ih, k) refl
              | inr k ↦ rw (same, k, ih, k) refl
            ]
        | inr e ↦ elim (Bool-cases (told except authorized_only t)) [
          | inl k ↦
              rw (k, e, ih)
                (elim (Bool-cases (told except authorized_only s)) [
                  | inl m ↦ rw m refl
                  | inr m ↦ rw m refl
                ])
          | inr k ↦
              rw (k, e, ih)
                (elim (Bool-cases (told except authorized_only s)) [
                  | inl m ↦ rw m (omega arith)
                  | inr m ↦ rw m refl
                ])
        ]
      ]

  copies-map :
      (s : ℕ) (buf : List ℕ) (ss : List ℕ) → copies s (map (λ t. Event.frame t buf) ss) ≡ times s ss
  copies-map s buf [] = refl
  copies-map s buf (t ∷ ss) = ap (◌+◌ (if s == t then 1 else 0)) (copies-map s buf ss)

  only_frames : (buf : List ℕ) (ss : List ℕ) → All (IsFrame buf) (map (λ t. Event.frame t buf) ss)
  only_frames buf [] = tt
  only_frames buf (t ∷ ss) = ((t, refl), only_frames buf ss)

  -- A push of a response that cannot be encoded does nothing. Any other adds frames of that response
  -- to what is sent, and nothing else, and of these each connection `s` gets as many as it has entries
  -- in the registry, if it is not the excepted one and, where the response is protected, is
  -- authorized; and none otherwise, or where it is not registered.
  pub broadcast_response-copies :
      (except : Option ℕ) (authorized_only : Bool) (r : Response) (s : ℕ)
      → let q = broadcast_response ports p except authorized_only r in
        ((ports.encode r ≡ []) × (q ≡ p))
        ⊎ ((events : List Event) × (q ≡ record p { out = p.out ++ events })
            × All (IsFrame (ports.encode r)) events
            × (copies s events ≡ (
                if not (is_same s except) && (not authorized_only || is_authorized p s)
                then times s p.sinks
                else 0)))
  unfolding broadcast_response emit
  broadcast_response-copies except authorized_only r s =
      let buf = ports.encode r in
      let to = recipients p except authorized_only p.sinks in
      elim (Bool-cases (is_empty buf)) [
        | inl e ↦ rw e (inl (none_left buf e, refl))
        | inr e ↦ rw e (
            inr (
              map (λ t. Event.frame t buf) to,
              refl,
              only_frames buf to,
              copies-map s buf to ∙ times-recipients except authorized_only s p.sinks,
            ))
      ]
