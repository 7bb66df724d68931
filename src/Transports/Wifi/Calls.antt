-- ===== src/Transports/Wifi/Calls.antt =====
-- What each call of the Wi-Fi transport leaves of its link.
use meshpigeon_firmware.Prelude.{
  ℕ, ◌≡◌, refl, ap, ◌∙◌, inl, inr, Bool, true, false, Bool-cases, if_true_holds, if_false_holds,
}
use meshpigeon_firmware.Processor.Message.{Ports}
use meshpigeon_firmware.Transports.Wifi.{
  LinkState, Stack, Wifi, backoff_start_ms, state_eq, set_state, drop_client, stop_server,
  start_server, connect_start, disconnect, lose_link, gain_link, client_at,
}
use meshpigeon_firmware.Transports.Wifi.Facts.{state_eq_sound, Link}

module _ {R S W : Type 0} (ports : Ports R S) (stack : Stack W) (first_sink : ℕ) where
  abbrev pub link : Wifi R S W → Link
  link w = (w.settings, w.state, w.server_up, w.backoff_ms)

  pub drop_client-link :
      (w : Wifi R S W) (i : ℕ) → link (drop_client ports stack first_sink w i) ≡ link w
  unfolding drop_client
  drop_client-link w i = elim (Bool-cases (client_at ports stack first_sink w i).in_use) [
    | inl e ↦ rw e refl
    | inr e ↦ rw e refl
  ]

  pub stop_server-link :
      (w : Wifi R S W)
      → link (stop_server ports stack first_sink w) ≡ (w.settings, w.state, false, w.backoff_ms)
  unfolding stop_server
  stop_server-link w =
      let d = drop_client ports stack first_sink in
      let same =
        drop_client-link (d (d (d w 0) 1) 2) 3
        ∙ drop_client-link (d (d w 0) 1) 2
        ∙ drop_client-link (d w 0) 1
        ∙ drop_client-link w 0 in
      ap (λ (l : Link). (l.0, l.1, false, l.3)) same

  pub set_state-link :
      (w : Wifi R S W) (s : LinkState)
      → link (set_state ports stack first_sink w s) ≡ (w.settings, s, w.server_up, w.backoff_ms)
  unfolding set_state
  set_state-link w s = elim (Bool-cases (state_eq w.state s)) [
    | inl e ↦ rw e (
        ap (λ (t : LinkState). (w.settings, t, w.server_up, w.backoff_ms))
          (state_eq_sound w.state s e))
    | inr e ↦ rw e refl
  ]

  pub disconnect-link :
      (w : Wifi R S W)
      → link (disconnect ports stack first_sink w)
        ≡ (w.settings, LinkState.off, w.server_up, w.backoff_ms)
  unfolding disconnect
  disconnect-link w = set_state-link (record w { stack = stack.leave w.stack }) LinkState.off

  pub connect_start-link :
      (w : Wifi R S W) (now : ℕ)
      → link (connect_start ports stack first_sink w now)
        ≡ (w.settings, LinkState.connecting, w.server_up, backoff_start_ms)
  unfolding connect_start
  connect_start-link w now =
      ap (λ (l : Link). (l.0, l.1, l.2, backoff_start_ms)) (set_state-link w LinkState.connecting)

  pub start_server-link :
      (w : Wifi R S W)
      → link (start_server ports stack first_sink w) ≡ (w.settings, w.state, true, w.backoff_ms)
  unfolding start_server
  start_server-link w = ap (λ (l : Link). (l.0, l.1, true, l.3)) (stop_server-link w)

  pub lose_link-link :
      (w : Wifi R S W) (now : ℕ)
      → link (lose_link ports stack first_sink w now)
        ≡ (w.settings, LinkState.connecting, false, backoff_start_ms)
  unfolding lose_link
  lose_link-link w now =
      ap (λ (l : Link). (l.0, l.1, l.2, backoff_start_ms))
        (set_state-link (stop_server ports stack first_sink w) LinkState.connecting
          ∙ ap (λ (l : Link). (l.0, LinkState.connecting, l.2, l.3)) (stop_server-link w))

  pub gain_link-link :
      (w : Wifi R S W)
      → link (gain_link ports stack first_sink w) ≡ (w.settings, LinkState.connected, true, 0)
  unfolding gain_link
  gain_link-link w = elim (Bool-cases w.server_up) [
    | inl up ↦
        let same : w.server_up ≡ true = up in
        if_true_holds
          (λ (q : Wifi R S W).
            link
              (set_state ports stack first_sink (record q { backoff_ms = 0 }) LinkState.connected)
            ≡ (w.settings, LinkState.connected, true, 0))
          w.server_up _ _ up
          (set_state-link (record w { backoff_ms = 0 }) LinkState.connected
            ∙ ap (λ (b : Bool). (w.settings, LinkState.connected, b, 0)) same)
    | inr down ↦
        let started = start_server ports stack first_sink w in
        if_false_holds
          (λ (q : Wifi R S W).
            link
              (set_state ports stack first_sink (record q { backoff_ms = 0 }) LinkState.connected)
            ≡ (w.settings, LinkState.connected, true, 0))
          w.server_up _ _ down
          (set_state-link (record started { backoff_ms = 0 }) LinkState.connected
            ∙ ap (λ (l : Link). (l.0, LinkState.connected, l.2, 0)) (start_server-link w))
  ]
