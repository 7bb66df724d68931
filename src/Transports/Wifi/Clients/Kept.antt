-- ===== src/Transports/Wifi/Clients/Kept.antt =====
-- The slots under the calls of the link, and the search for a free one.
use meshpigeon_firmware.Prelude.{
  ℕ, suc, ◌+◌, ◌<◌, ◌≡◌, refl, sym, subst, inl, inr, List, [], ◌∷◌, false, not, ◌&&◌, ◌||◌, some,
  arith, ◌==◌, if◌then◌else◌, length, get_or, Bool-cases, if_holds,
}
use meshpigeon_firmware.Settings.Text.{strcmp_eq}
use meshpigeon_firmware.Settings.Device.{DeviceSettings, wifi_port_default}
use meshpigeon_firmware.Processor.Message.{Ports}
use meshpigeon_firmware.Transports.Wifi.{
  LinkState, Stack, Client, Wifi, no_client, state_eq, is_trying, shown_as, has_link, usable,
  set_state, stop_server, start_server, connect_start, disconnect, apply, lose_link, gain_link,
  retry_link, drive_link,
}
use meshpigeon_firmware.Transports.Wifi.Clients.{first_hole}
use meshpigeon_firmware.Transports.Wifi.Clients.Slots.{IsBook, book, stop_server_empties}

pub first_hole_sound :
    (k : ℕ) (cs : List Client) (j : ℕ)
    → first_hole k cs ≡ some j
    → (n : ℕ) × (j ≡ k + n) × (n < length cs) × ((get_or cs n no_client).in_use ≡ false)
unfolding first_hole
first_hole_sound k [] j h = absurd (cc)
first_hole_sound k (c ∷ cs) j h = elim (Bool-cases c.in_use) [
  | inr free ↦
      let same : some k ≡ some j = rw free at h in (0, ground (arith, same), omega arith, free)
  | inl used ↦
      let later : first_hole (k + 1) cs ≡ some j = rw used at h in
      let (n, e, inside, free) = first_hole_sound (k + 1) cs j later in
      (suc n, omega (arith, e), omega (arith, inside), free)
]

module _ {R S W : Type 0} (ports : Ports R S) (stack : Stack W) (first_sink : ℕ) where
  abbrev pub IsKept : Wifi R S W → Type 0
  IsKept w = IsBook (book ports stack first_sink w)

  set_state-book :
      (w : Wifi R S W) (s : LinkState)
      → book ports stack first_sink (set_state ports stack first_sink w s)
        ≡ book ports stack first_sink w
  unfolding set_state
  set_state-book w s = elim (Bool-cases (state_eq w.state s)) [
    | inl e ↦ rw e refl
    | inr e ↦ rw e refl
  ]

  pub set_state-IsKept :
      (w : Wifi R S W) (s : LinkState) → IsKept w → IsKept (set_state ports stack first_sink w s)
  set_state-IsKept w s h = subst IsBook (sym (set_state-book w s)) h

  start_server-IsKept : (w : Wifi R S W) → IsKept w → IsKept (start_server ports stack first_sink w)
  unfolding start_server
  start_server-IsKept w h =
      let stopped = (stop_server_empties ports stack first_sink w h).0 in
      record { slots = stopped.slots; counted = stopped.counted; closed = inl refl }

  pub apply-IsKept :
      (w : Wifi R S W) (d : DeviceSettings) (now : ℕ)
      → IsKept w
      → IsKept (apply ports stack first_sink w d now)
  unfolding apply disconnect connect_start
  apply-IsKept w d now h =
      let new_port = if d.wifi_port == 0 then wifi_port_default else d.wifi_port in
      let taken = record w { settings = record d { wifi_port = new_port }; port = new_port } in
      let gone : IsKept
          (disconnect ports stack first_sink (stop_server ports stack first_sink taken)) =
        set_state-IsKept _ LinkState.off (stop_server_empties ports stack first_sink taken h).0 in
      let fresh =
        (not w.settings.wifi_enabled
          || (not (strcmp_eq w.settings.wifi_ssid d.wifi_ssid)
              || not (strcmp_eq w.settings.wifi_password d.wifi_password))) in
      if_holds IsKept (not (usable ports stack first_sink taken)) _ _
        (if_holds IsKept w.settings.wifi_enabled _ _ gone h)
        (if_holds IsKept fresh _ _ (set_state-IsKept _ LinkState.connecting gone) (
          if_holds IsKept (not (new_port == w.port) && w.server_up) _ _
            (start_server-IsKept taken h) h))

  pub drive_link-IsKept :
      (w : Wifi R S W) (now : ℕ) → IsKept w → IsKept (drive_link ports stack first_sink w now)
  unfolding drive_link lose_link gain_link retry_link
  drive_link-IsKept w now h =
      let asked = record w { stack = (stack.status w.stack).0 } in
      let status = (stack.status w.stack).1 in
      let served = if asked.server_up then asked else start_server ports stack first_sink asked in
      let up : IsKept served =
        if_holds IsKept asked.server_up _ _ h (start_server-IsKept asked h) in
      let told : IsKept (set_state ports stack first_sink asked (shown_as status)) =
        set_state-IsKept asked (shown_as status) h in
      if_holds IsKept (not (usable ports stack first_sink w)) _ _ h (
        if_holds IsKept (state_eq w.state LinkState.connected && not (has_link status)) _ _
          (set_state-IsKept _ LinkState.connecting
            (stop_server_empties ports stack first_sink asked h).0)
          (if_holds IsKept (not (is_trying w.state)) _ _ h (
            if_holds IsKept (has_link status) _ _
              (set_state-IsKept (record served { backoff_ms = 0 }) LinkState.connected up)
              (if_holds IsKept _ _ _ told told))))
