-- ===== src/Processor/Checks.antt =====
-- The limits of a request, its checks, and the values that a handler takes from it.
use meshpigeon_firmware.Prelude.{
  ℕ, ◌+◌, ◌/◌, ◌%◌, ◌^◌, List, [], ◌∷◌, Bool, true, false, ◌||◌, not, Option, none, some, ltb, ◌==◌,
  if◌then◌else◌,
}
use meshpigeon_firmware.Settings.Radio.{RadioSettings, unset}
use meshpigeon_firmware.Settings.Text.{
  name_max, ssid_max, pass_max, strlen, copy_str, valid_name, valid_pin_set, valid_ssid,
  valid_password, valid_port, set_pin,
}
use meshpigeon_firmware.Settings.Device.{DeviceSettings}
use meshpigeon_firmware.Processor.Message.{RadioSettingsMessage, SetDeviceSettings}
use meshpigeon_firmware.Processor.State.{max_fetch_per_request}

-- MESHPIGEON_TX_POWER_MAX, MESHPIGEON_MAX_RAW_PACKET, kFlagSent, kFlagReceived
abbrev pub tx_power_max : ℕ
tx_power_max = 22

abbrev pub max_raw_packet : ℕ
max_raw_packet = 255

abbrev pub flag_sent : ℕ
flag_sent = 1

abbrev pub flag_received : ℕ
flag_received = 2

-- The wire values that a tuning is refused for.
unfoldable pub bad_tuning : RadioSettingsMessage → Bool
bad_tuning m =
    m.bandwidth_hz == 0
    || not (m.bandwidth_hz % 10 == 0)
    || ltb 65535 (m.bandwidth_hz / 10)
    || m.freq_hz == 0
    || ltb m.sf 5
    || ltb 12 m.sf
    || ltb m.cr 5
    || ltb 8 m.cr
    || ltb tx_power_max m.power_dbm

-- The tuning of a request, each field cast to its type, in a fresh record.
unfoldable pub tuning_of : RadioSettingsMessage → RadioSettings
tuning_of m = record unset {
  freq_hz = m.freq_hz;
  bw_x100khz = m.bandwidth_hz / 10 % 2 ^ 16;
  sf = m.sf % 2 ^ 8;
  cr = m.cr % 2 ^ 8;
  power_dbm = m.power_dbm % 2 ^ 8;
}

abbrev pub is_some {ℓ} : {A : Type ℓ} → Option A → Bool
is_some none = false
is_some (some x) = true

-- `m.has_x && !test(m.x)`, `if (m.has_x) ...`
abbrev pub fails {ℓ} : {A : Type ℓ} → Option A → (A → Bool) → Bool
fails none test = false
fails (some x) test = not (test x)

abbrev pub or_else {ℓ κ} : {A : Type ℓ} {B : Type κ} → Option A → (A → B) → B → B
or_else none f d = d
or_else (some x) f d = f x

unfoldable pub bad_device_settings : SetDeviceSettings → Bool
bad_device_settings m =
    fails m.name (λ s. valid_name s (strlen s))
    || fails m.pin (λ s. valid_pin_set s (strlen s))
    || fails m.wifi_ssid (λ s. valid_ssid s (strlen s))
    || fails m.wifi_password (λ s. valid_password s (strlen s))
    || fails m.wifi_port valid_port

unfoldable pub wifi_touched : SetDeviceSettings → Bool
wifi_touched m =
    is_some m.wifi_enabled || is_some m.wifi_ssid || is_some m.wifi_password || is_some m.wifi_port

-- The candidate: the settings in force with the fields of the request.
unfoldable pub updated : DeviceSettings → SetDeviceSettings → DeviceSettings
updated d m = record {
  name = or_else m.name (copy_str (name_max + 1)) d.name;
  pin = or_else m.pin set_pin d.pin;
  wifi_enabled = or_else m.wifi_enabled (λ b. b) d.wifi_enabled;
  wifi_ssid = or_else m.wifi_ssid (copy_str (ssid_max + 1)) d.wifi_ssid;
  wifi_password = or_else m.wifi_password (copy_str (pass_max + 1)) d.wifi_password;
  wifi_port = or_else m.wifi_port (λ n. n % 2 ^ 16) d.wifi_port;
}

abbrev pub mem : ℕ → List ℕ → Bool
mem x [] = false
mem x (y ∷ ys) = (x == y) || mem x ys

-- How many packets a fetch may deliver: 0 asks for all, and all is 64 at a time.
unfoldable pub fetch_bound : ℕ → ℕ
fetch_bound max_count =
    if max_count == 0 || ltb max_fetch_per_request max_count
    then max_fetch_per_request
    else max_count
