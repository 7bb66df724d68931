-- ===== src/Transports/Wifi/Facts.antt =====
-- Facts about the link's states, its settings and its back-off, and the rules that relate them.
use meshpigeon_firmware.Prelude.{
  ℕ, ◌≤◌, ◌≡◌, refl, sym, ap, ◌∙◌, ◌⊎◌, inl, inr, List, [], ◌∷◌, Bool, true, false, ◌&&◌, ◌||◌, not,
  arith, ◌==◌, get_or, Bool-cases, ==_iff,
}
use mathlib.Core.Bool.{false≢true}
use meshpigeon_firmware.Settings.Text.{strcmp_eq}
use meshpigeon_firmware.Settings.Device.{DeviceSettings}
use meshpigeon_firmware.Transports.Wifi.{
  LinkState, LinkStatus, backoff_start_ms, backoff_max_ms, state_eq, is_trying, shown_as,
  next_backoff,
}

pub state_eq_sound : (s t : LinkState) → state_eq s t ≡ true → s ≡ t
state_eq_sound LinkState.off LinkState.off h = refl
state_eq_sound LinkState.off LinkState.connecting h = absurd (false≢true h)
state_eq_sound LinkState.off LinkState.connected h = absurd (false≢true h)
state_eq_sound LinkState.off LinkState.auth_fail h = absurd (false≢true h)
state_eq_sound LinkState.off LinkState.link_error h = absurd (false≢true h)
state_eq_sound LinkState.connecting LinkState.off h = absurd (false≢true h)
state_eq_sound LinkState.connecting LinkState.connecting h = refl
state_eq_sound LinkState.connecting LinkState.connected h = absurd (false≢true h)
state_eq_sound LinkState.connecting LinkState.auth_fail h = absurd (false≢true h)
state_eq_sound LinkState.connecting LinkState.link_error h = absurd (false≢true h)
state_eq_sound LinkState.connected LinkState.off h = absurd (false≢true h)
state_eq_sound LinkState.connected LinkState.connecting h = absurd (false≢true h)
state_eq_sound LinkState.connected LinkState.connected h = refl
state_eq_sound LinkState.connected LinkState.auth_fail h = absurd (false≢true h)
state_eq_sound LinkState.connected LinkState.link_error h = absurd (false≢true h)
state_eq_sound LinkState.auth_fail LinkState.off h = absurd (false≢true h)
state_eq_sound LinkState.auth_fail LinkState.connecting h = absurd (false≢true h)
state_eq_sound LinkState.auth_fail LinkState.connected h = absurd (false≢true h)
state_eq_sound LinkState.auth_fail LinkState.auth_fail h = refl
state_eq_sound LinkState.auth_fail LinkState.link_error h = absurd (false≢true h)
state_eq_sound LinkState.link_error LinkState.off h = absurd (false≢true h)
state_eq_sound LinkState.link_error LinkState.connecting h = absurd (false≢true h)
state_eq_sound LinkState.link_error LinkState.connected h = absurd (false≢true h)
state_eq_sound LinkState.link_error LinkState.auth_fail h = absurd (false≢true h)
state_eq_sound LinkState.link_error LinkState.link_error h = refl

-- Strings that are the same are both empty or both not.
first_nul-strcmp_eq :
    (a b : List ℕ) → strcmp_eq a b ≡ true → (get_or a 0 0 == 0) ≡ (get_or b 0 0 == 0)
unfolding strcmp_eq
first_nul-strcmp_eq [] [] h = refl
first_nul-strcmp_eq [] (b ∷ ys) h = sym h
first_nul-strcmp_eq (a ∷ xs) [] h = h
first_nul-strcmp_eq (a ∷ xs) (b ∷ ys) h = elim (Bool-cases (a == b)) [
  | inl e ↦ ap (λ (n : ℕ). n == 0) ((==_iff a b).0 e)
  | inr e ↦ let differ : false ≡ true = rw e at h in absurd (false≢true differ)
]

-- Doubling stays between the first wait and the longest.
pub next_backoff_bounds :
    (backoff : ℕ)
    → backoff_start_ms ≤ backoff
    → backoff ≤ backoff_max_ms
    → (backoff_start_ms ≤ next_backoff backoff) × (next_backoff backoff ≤ backoff_max_ms)
unfolding next_backoff
next_backoff_bounds backoff low high = ground arith

-- What the rules of the link are about.
abbrev pub Link : Type 0
Link = DeviceSettings × LinkState × Bool × ℕ

abbrev pub can_serve : DeviceSettings → Bool
can_serve d = d.wifi_enabled && not (get_or d.wifi_ssid 0 0 == 0)

pub disabled : (d : DeviceSettings) → d.wifi_enabled ≡ false → can_serve d ≡ false
disabled d h = rw h refl

pub second : (a b : Bool) → (a && b) ≡ true → b ≡ true
second true b h = h
second false b h = absurd (false≢true h)

-- Enabled before, and the network's name is the same.
pub kept_network :
    (old new : DeviceSettings)
    → (not old.wifi_enabled
        || (not (strcmp_eq old.wifi_ssid new.wifi_ssid)
            || not (strcmp_eq old.wifi_password new.wifi_password)))
      ≡ false
    → can_serve new ≡ true
    → can_serve old ≡ true
kept_network old new same can = elim (Bool-cases old.wifi_enabled) [
  | inr e ↦ let changed : true ≡ false = rw e at same in absurd (false≢true (sym changed))
  | inl e ↦ elim (Bool-cases (strcmp_eq old.wifi_ssid new.wifi_ssid)) [
    | inr f ↦ let changed : true ≡ false = rw (e, f) at same in absurd (false≢true (sym changed))
    | inl f ↦ rw e (
        ap not (first_nul-strcmp_eq old.wifi_ssid new.wifi_ssid f)
        ∙ second new.wifi_enabled (not (get_or new.wifi_ssid 0 0 == 0)) can)
  ]
]

pub not_connected : (s : LinkState) → is_trying s ≡ true → state_eq s LinkState.connected ≡ false
not_connected LinkState.off h = refl
not_connected LinkState.connecting h = refl
not_connected LinkState.connected h = sym h
not_connected LinkState.auth_fail h = refl
not_connected LinkState.link_error h = refl

pub shown_trying :
    (status : LinkStatus)
    → (is_trying (shown_as status) ≡ true) × (state_eq (shown_as status) LinkState.off ≡ false)
shown_trying LinkStatus.no_ssid_avail = (refl, refl)
shown_trying LinkStatus.connect_failed = (refl, refl)
shown_trying LinkStatus.is_connected = (refl, refl)
shown_trying LinkStatus.other_status = (refl, refl)

pub record IsRuled (l : Link) : Type 0 where
  pub off_iff : state_eq l.1 LinkState.off ≡ not (can_serve l.0)
  pub served_iff : l.2 ≡ state_eq l.1 LinkState.connected
  pub waits : (is_trying l.1 ≡ false) ⊎ ((backoff_start_ms ≤ l.3) × (l.3 ≤ backoff_max_ms))
