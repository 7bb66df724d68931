-- ===== src/Transports/Wifi/Rules.antt =====
-- The link under every sequence of settings changes and turns of the board loop.
use meshpigeon_firmware.Prelude.{
  ℕ, ◌≤◌, ◌≡◌, refl, sym, subst, ap, ◌∙◌, inl, inr, true, false, ◌&&◌, ◌||◌, not, arith, ◌==◌,
  if◌then◌else◌, Bool-cases, if_holds, if_true_holds, if_false_holds,
}
use mathlib.Core.Bool.{false≢true}
use meshpigeon_firmware.Settings.Text.{strcmp_eq}
use meshpigeon_firmware.Settings.Device.{DeviceSettings, wifi_port_default}
use meshpigeon_firmware.Processor.Message.{Ports}
use meshpigeon_firmware.Transports.Wifi.{
  LinkState, LinkStatus, Stack, Wifi, backoff_start_ms, backoff_max_ms, state_eq, is_trying,
  shown_as, has_link, next_backoff, usable, set_state, stop_server, disconnect, apply, retry_link,
  drive_link,
}
use meshpigeon_firmware.Transports.Wifi.Facts.{
  next_backoff_bounds, Link, can_serve, IsRuled, disabled, second, kept_network, not_connected,
  shown_trying,
}
use meshpigeon_firmware.Transports.Wifi.Calls.{
  link, set_state-link, disconnect-link, connect_start-link, start_server-link, stop_server-link,
  lose_link-link, gain_link-link,
}

module _ {R S W : Type 0} (ports : Ports R S) (stack : Stack W) (first_sink : ℕ) where
  rule : {k l : Link} → k ≡ l → IsRuled l → IsRuled k
  rule e h = subst IsRuled (sym e) h

  -- Torn down, and the settings cannot serve.
  torn_down :
      (d : DeviceSettings) (backoff : ℕ)
      → can_serve d ≡ false
      → IsRuled (d, LinkState.off, false, backoff)
  torn_down d backoff h = record { off_iff = sym (ap not h); served_iff = refl; waits = inl refl }

  pub apply-IsRuled :
      (w : Wifi R S W) (d : DeviceSettings) (now : ℕ)
      → IsRuled (link ports stack first_sink w)
      → IsRuled (link ports stack first_sink (apply ports stack first_sink w d now))
  unfolding apply usable
  apply-IsRuled w d now h =
      let new_port = if d.wifi_port == 0 then wifi_port_default else d.wifi_port in
      let next = record d { wifi_port = new_port } in
      let taken = record w { settings = next; port = new_port } in
      let stopped = stop_server ports stack first_sink taken in
      let gone = disconnect ports stack first_sink stopped in
      let down =
        disconnect-link ports stack first_sink stopped
        ∙ ap (λ (l : Link). (l.0, LinkState.off, l.2, l.3))
            (stop_server-link ports stack first_sink taken) in
      let Good : Wifi R S W → Type 0 = λ q. IsRuled (link ports stack first_sink q) in
      let fresh =
        (not w.settings.wifi_enabled
          || (not (strcmp_eq w.settings.wifi_ssid d.wifi_ssid)
              || not (strcmp_eq w.settings.wifi_password d.wifi_password))) in
      elim (Bool-cases (can_serve d)) [
        | inr cannot ↦
            if_true_holds Good (not (can_serve d)) _ _ (ap not cannot)
              (elim (Bool-cases w.settings.wifi_enabled) [
                | inl was ↦
                    if_true_holds Good w.settings.wifi_enabled _ _ was
                      (rule down (torn_down next w.backoff_ms cannot))
                | inr was_not ↦ if_false_holds Good w.settings.wifi_enabled _ _ was_not (record {
                  off_iff = h.off_iff ∙ ap not (disabled w.settings was_not) ∙ sym (ap not cannot);
                  served_iff = h.served_iff;
                  waits = h.waits;
                })
              ])
        | inl can ↦
            if_false_holds Good (not (can_serve d)) _ _ (ap not can) (elim (Bool-cases fresh) [
              | inl changed ↦ if_true_holds Good fresh _ _ changed (
                  rule
                    (connect_start-link ports stack first_sink gone now
                      ∙ ap (λ (l : Link). (l.0, LinkState.connecting, l.2, backoff_start_ms)) down)
                    (record {
                      off_iff = sym (ap not can);
                      served_iff = refl;
                      waits = inr (omega arith, omega arith);
                    }))
              | inr same ↦
                  let still =
                    h.off_iff ∙ ap not (kept_network w.settings d same can) ∙ sym (ap not can) in
                  let served : IsRuled (link ports stack first_sink taken) = record {
                    off_iff = still;
                    served_iff = h.served_iff;
                    waits = h.waits;
                  } in
                  if_false_holds Good fresh _ _ same
                    (elim (Bool-cases (not (new_port == w.port) && w.server_up)) [
                      | inr calm ↦
                          if_false_holds Good (not (new_port == w.port) && w.server_up) _ _ calm
                            served
                      | inl moved ↦
                          if_true_holds Good (not (new_port == w.port) && w.server_up) _ _ moved (
                            rule (start_server-link ports stack first_sink taken) (record {
                              off_iff = still;
                              served_iff =
                                  sym (second (not (new_port == w.port)) w.server_up moved)
                                  ∙ h.served_iff;
                              waits = h.waits;
                            }))
                    ])
            ])
      ]

  retry_link-IsRuled :
      (w : Wifi R S W) (status : LinkStatus) (now : ℕ)
      → can_serve w.settings ≡ true
      → is_trying w.state ≡ true
      → IsRuled (link ports stack first_sink w)
      → IsRuled (link ports stack first_sink (retry_link ports stack first_sink w status now))
  unfolding retry_link
  retry_link-IsRuled w status now can trying h =
      let told = set_state ports stack first_sink w (shown_as status) in
      let same : link ports stack first_sink told
          ≡ (w.settings, shown_as status, w.server_up, w.backoff_ms) =
        set_state-link ports stack first_sink w (shown_as status) in
      let (still, on) = shown_trying status in
      let served =
        h.served_iff ∙ not_connected w.state trying ∙ sym (not_connected (shown_as status) still) in
      let bounds : (backoff_start_ms ≤ w.backoff_ms) × (w.backoff_ms ≤ backoff_max_ms) =
        elim h.waits [ inl calm ↦ absurd (false≢true (sym calm ∙ trying)) | inr b ↦ b ] in
      if_holds (λ (q : Wifi R S W). IsRuled (link ports stack first_sink q)) _ _ _
        (rule (ap (λ (l : Link). (l.0, l.1, l.2, next_backoff l.3)) same) (record {
          off_iff = on ∙ sym (ap not can);
          served_iff = served;
          waits = inr (next_backoff_bounds w.backoff_ms bounds.0 bounds.1);
        }))
        (rule same
          (record { off_iff = on ∙ sym (ap not can); served_iff = served; waits = inr bounds }))

  pub drive_link-IsRuled :
      (w : Wifi R S W) (now : ℕ)
      → IsRuled (link ports stack first_sink w)
      → IsRuled (link ports stack first_sink (drive_link ports stack first_sink w now))
  unfolding drive_link usable
  drive_link-IsRuled w now h =
      let Good : Wifi R S W → Type 0 = λ q. IsRuled (link ports stack first_sink q) in
      let asked = record w { stack = (stack.status w.stack).0 } in
      let status = (stack.status w.stack).1 in
      let again : IsRuled (link ports stack first_sink asked) = record {
        off_iff = h.off_iff;
        served_iff = h.served_iff;
        waits = h.waits;
      } in
      elim (Bool-cases (can_serve w.settings)) [
        | inr cannot ↦ if_true_holds Good (not (can_serve w.settings)) _ _ (ap not cannot) h
        | inl can ↦ if_false_holds Good (not (can_serve w.settings)) _ _ (ap not can) (
            if_holds Good (state_eq w.state LinkState.connected && not (has_link status)) _ _
              (rule (lose_link-link ports stack first_sink asked now) (record {
                off_iff = sym (ap not can);
                served_iff = refl;
                waits = inr (omega arith, omega arith);
              }))
              (elim (Bool-cases (is_trying w.state)) [
                | inr calm ↦ if_true_holds Good (not (is_trying w.state)) _ _ (ap not calm) again
                | inl trying ↦ if_false_holds Good (not (is_trying w.state)) _ _ (ap not trying) (
                    if_holds Good (has_link status) _ _
                      (rule (gain_link-link ports stack first_sink asked) (record {
                        off_iff = sym (ap not can);
                        served_iff = refl;
                        waits = inl refl;
                      }))
                      (retry_link-IsRuled asked status now can trying again))
              ]))
      ]

  -- A change of the settings, or a turn of the board loop, at some time.
  pub data Step : Wifi R S W → Wifi R S W → Type 0 where
    applied :
        (w : Wifi R S W) (d : DeviceSettings) (now : ℕ)
        → Step w (apply ports stack first_sink w d now)
    driven : (w : Wifi R S W) (now : ℕ) → Step w (drive_link ports stack first_sink w now)

  -- Any number of them.
  pub data Run (w : Wifi R S W) : Wifi R S W → Type 0 where
    none_yet : Run w w
    one_more : {u v : Wifi R S W} → Run w u → Step u v → Run w v

  -- Whatever the settings and the network do, in any order: the link is off exactly where the
  -- settings cannot serve, the server is up exactly while the link is connected, and while it is
  -- tried again the wait is between five seconds and two minutes.
  pub Run-IsRuled :
      (w v : Wifi R S W)
      → IsRuled (link ports stack first_sink w)
      → Run w v
      → IsRuled (link ports stack first_sink v)
  Run-IsRuled w v h none_yet = h
  Run-IsRuled w v h (one_more run (applied u d now)) = apply-IsRuled u d now (Run-IsRuled w u h run)
  Run-IsRuled w v h (one_more run (driven u now)) = drive_link-IsRuled u now (Run-IsRuled w u h run)
