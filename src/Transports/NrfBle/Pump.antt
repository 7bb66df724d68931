-- ===== src/Transports/NrfBle/Pump.antt =====
-- The board loop's turn at the nRF52 transport, with the command processor behind it.
use mathlib.Core.List.{foldl}
use meshpigeon_firmware.Prelude.{
  ℕ, ◌≡◌, refl, sym, subst, ap, Bool-cases, inl, inr, List, [], true, false, ◌==◌, if◌then◌else◌,
  length, drop, ==_refl,
}
use meshpigeon_firmware.Framing.Reader.{reset, drain_loop, drain_frames}
use meshpigeon_firmware.Settings.Device.{pin_is_default}
use meshpigeon_firmware.Processor.Message.{Ports, Op, ErrorCode, Event}
use meshpigeon_firmware.Processor.State.{Processor, is_authorized}
use meshpigeon_firmware.Processor.Reply.{send_error}
use meshpigeon_firmware.Processor.Handle.{handle_request, on_envelope}
use meshpigeon_firmware.Processor.Gate.{is_gated, handle_request-is_gated}
use meshpigeon_firmware.Transports.NrfBle.{Uart, NrfBle, connected, drain_step, send_frame}

module _ {R S U : Type 0} (ports : Ports R S) (uart : Uart U) (this : ℕ) where
  -- The frames for this connection go to its `send_frame`.
  unfoldable pub pass_on : NrfBle U → Event → NrfBle U
  pass_on s (Event.frame to decoded) = if to == this then send_frame uart s decoded else s
  pass_on s (Event.named name) = s
  pass_on s (Event.wifi_applied device) = s
  pass_on s Event.rebooted = s
  pass_on s Event.rebooted_to_bootloader = s
  pass_on s Event.reset_to_factory = s

  unfoldable pub take_envelope : Processor R S × NrfBle U → List ℕ → Processor R S × NrfBle U
  take_envelope (p, s) bytes =
      let q = on_envelope ports p bytes this in (q, foldl pass_on s (drop (length p.out) q.out))

  -- The link went away: all that was the last central's goes.
  unfoldable pub forget_central : Processor R S × NrfBle U → Processor R S × NrfBle U
  forget_central (p, s) = (
    record p { authenticated = λ t. if t == this then false else p.authenticated t },
    record s { drop_pending = false; head = 0; count = 0; rx = []; reader = reset },
  )

  unfoldable pub pump : Processor R S × NrfBle U → Processor R S × NrfBle U
  pump (p, s) =
      let start = if s.drop_pending then forget_central (p, s) else (p, s) in
      let (served, reader, rest) = drain_frames take_envelope start start.1.reader start.1.rx in
      (served.0, (drain_step uart (record served.1 { reader = reader; rx = rest })).0)

  drain_step_idle : (s : NrfBle U) → s.count ≡ 0 → (drain_step uart s).0 ≡ s
  unfolding drain_step
  drain_step_idle s h = elim (Bool-cases (connected uart s)) [
    | inl e ↦ rw (e, h) refl
    | inr e ↦ rw e refl
  ]

  pump-forget_central :
      (p : Processor R S) (s : NrfBle U)
      → s.drop_pending ≡ true
      → pump (p, s) ≡ forget_central (p, s)
  unfolding pump forget_central drain_frames drain_loop
  pump-forget_central p s lost =
      let cleared = (forget_central (p, s)).1 in
      rw lost (ap (λ (t : NrfBle U). ((forget_central (p, s)).0, t)) (drain_step_idle cleared refl))

  -- A session does not outlive its link: once the link was lost, the next turn of the loop
  -- dispatches nothing that was received before it, and behind it no operation that needs
  -- authorization is done for this connection, on a device with a PIN of its own, until it has
  -- authenticated again.
  pub pump-drop_pending :
      (p : Processor R S) (s : NrfBle U) (id : ℕ) (op : Op)
      → s.drop_pending ≡ true
      → pin_is_default p.device ≡ false
      → is_gated op ≡ true
      → let (q, t) = pump (p, s) in
        (q ≡ (forget_central (p, s)).0)
        × (t.rx ≡ [])
        × (t.reader ≡ reset)
        × (t.count ≡ 0)
        × (t.drop_pending ≡ false)
        × (handle_request ports q id op this ≡ send_error ports q id ErrorCode.auth_required this)
  unfolding forget_central is_authorized
  pump-drop_pending p s id op lost pin gated =
      let fresh = (forget_central (p, s)).0 in
      let closed : is_authorized fresh this ≡ false = rw (==_refl this, pin) refl in
      subst
        (λ (w : Processor R S × NrfBle U).
          (w.0 ≡ (forget_central (p, s)).0)
          × (w.1.rx ≡ [])
          × (w.1.reader ≡ reset)
          × (w.1.count ≡ 0)
          × (w.1.drop_pending ≡ false)
          × (handle_request ports w.0 id op this
              ≡ send_error ports w.0 id ErrorCode.auth_required this))
        (sym (pump-forget_central p s lost))
        (refl, refl, refl, refl, refl, handle_request-is_gated ports fresh id op this closed gated)
