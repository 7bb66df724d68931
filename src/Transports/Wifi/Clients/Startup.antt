-- ===== src/Transports/Wifi/Clients/Startup.antt =====
-- The Wi-Fi transport from `setup` on: `begin` (src/wifi_transport.cpp), and the settings that are
-- applied there (src/main.cpp).
use meshpigeon_firmware.Prelude.{ℕ, refl, sym, ap, subst, ◌∙◌, inl, inr, replicate, false}
use meshpigeon_firmware.Settings.Device.{defaults, wifi_port_default}
use meshpigeon_firmware.Processor.Message.{Ports}
use meshpigeon_firmware.Processor.State.{Processor}
use meshpigeon_firmware.Transports.Wifi.{
  LinkState, Stack, Wifi, max_clients, no_client, set_state, stop_server, apply,
}
use meshpigeon_firmware.Transports.Wifi.Facts.{Link, IsRuled}
use meshpigeon_firmware.Transports.Wifi.Calls.{
  link, set_state-link, stop_server-link, drop_client-link,
}
use meshpigeon_firmware.Transports.Wifi.Rules.{apply-IsRuled, drive_link-IsRuled}
use meshpigeon_firmware.Transports.Wifi.Clients.{Tcp}
use meshpigeon_firmware.Transports.Wifi.Clients.Slots.{IsBook, book, stop_server_empties}
use meshpigeon_firmware.Transports.Wifi.Clients.Kept.{set_state-IsKept, apply-IsKept}
use meshpigeon_firmware.Transports.Wifi.Clients.Lasting.{Turns, IsLasting, Turns_last}
use meshpigeon_firmware.Transports.Wifi.Clients.Turns.{Turns-IsBook}

module _ {R S W : Type 0} (ports : Ports R S) (stack : Stack W) (first_sink : ℕ) where
  -- A transport that was just made, over the processor and the stack.
  unfoldable pub create : Processor R S → W → Wifi R S W
  create proc w = record {
    proc = proc;
    stack = w;
    settings = defaults;
    state = LinkState.off;
    server_up = false;
    port = wifi_port_default;
    last_attempt_ms = 0;
    backoff_ms = 0;
    clients = replicate max_clients no_client;
    num_clients = 0;
  }

  -- The host name goes to mDNS only.
  unfoldable pub begin : Wifi R S W → Wifi R S W
  begin w =
      let stopped = stop_server ports stack first_sink (record w { settings = defaults }) in
      set_state ports stack first_sink (record stopped { stack = stack.power_off stopped.stack })
        LinkState.off

  -- What `setup` does of the Wi-Fi, at the time `now`.
  unfoldable pub setup_wifi : Processor R S → W → ℕ → Wifi R S W
  setup_wifi proc w now = apply ports stack first_sink (begin (create proc w)) proc.device now

  begin-IsRuled : (w : Wifi R S W) → IsRuled (link ports stack first_sink (begin w))
  unfolding begin
  begin-IsRuled w =
      let cleared = record w { settings = defaults } in
      let stopped = stop_server ports stack first_sink cleared in
      let e =
        set_state-link ports stack first_sink
          (record stopped { stack = stack.power_off stopped.stack }) LinkState.off in
      let f =
        ap (λ (l : Link). (l.0, LinkState.off, l.2, l.3))
          (stop_server-link ports stack first_sink cleared) in
      subst IsRuled (sym (e ∙ f)) (record { off_iff = refl; served_iff = refl; waits = inl refl })

  create-IsBook :
      (proc : Processor R S) (w : W) → IsBook (book ports stack first_sink (create proc w))
  unfolding create
  create-IsBook proc w = record { slots = refl; counted = refl; closed = inr refl }

  begin-IsBook :
      (w : Wifi R S W)
      → IsBook (book ports stack first_sink w)
      → IsBook (book ports stack first_sink (begin w))
  unfolding begin
  begin-IsBook w h =
      set_state-IsKept ports stack first_sink _ LinkState.off
        (stop_server_empties ports stack first_sink (record w { settings = defaults }) h).0

  module _ (tcp : Tcp W) where
    IsRuled-IsLasting :
        IsLasting ports stack first_sink tcp (λ w. IsRuled (link ports stack first_sink w))
    IsRuled-IsLasting = record {
      applied = apply-IsRuled ports stack first_sink;
      driven = drive_link-IsRuled ports stack first_sink;
      dropped = λ w i h. subst IsRuled (sym (drop_client-link ports stack first_sink w i)) h;
      moved = λ w proc v h. h;
      slot_kept = λ w proc v i c same h. h;
      admitted = λ w proc v i c inside free taken up h. h;
    }

    -- From `setup` on, whatever the stored settings are and whatever the network, the clients and
    -- their requests do: the link is off exactly where the settings cannot serve, the server is up
    -- exactly while the link is connected, a wait for the next attempt is between five seconds and
    -- two minutes, and the book of the four slots is right, with no client while there is no server.
    pub setup_wifi_lasts :
        (proc : Processor R S) (w : W) (now : ℕ) (v : Wifi R S W)
        → Turns ports stack first_sink tcp (setup_wifi proc w now) v
        → IsRuled (link ports stack first_sink v) × IsBook (book ports stack first_sink v)
    unfolding setup_wifi
    setup_wifi_lasts proc w now v turns =
        let made = create proc w in
        (
          Turns_last ports stack first_sink tcp (λ u. IsRuled (link ports stack first_sink u))
              IsRuled-IsLasting (setup_wifi proc w now) v
              (apply-IsRuled ports stack first_sink (begin made) proc.device now
                (begin-IsRuled made))
              turns,
          Turns-IsBook ports stack first_sink tcp (setup_wifi proc w now) v
              (apply-IsKept ports stack first_sink (begin made) proc.device now
                (begin-IsBook made (create-IsBook proc w)))
              turns,
        )
