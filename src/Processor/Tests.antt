-- ===== src/Processor/Tests.antt =====
-- The processor on a node with a PIN of its own, with small stand-ins for radio, store and codec.
use meshpigeon_firmware.Prelude.{
  ℕ, ◌+◌, ◌++◌, ◌⊎◌, All, false, ◌≡◌, refl, List, [], ◌∷◌, true, false, ◌&&◌, ◌||◌, not, none, some,
  arith, replicate, ◌==◌, if◌then◌else◌,
}
use meshpigeon_firmware.Store.{u32, create}
use meshpigeon_firmware.Store.Tests.{one_stored}
use meshpigeon_firmware.Clock.{UptimeClock, uptime_ms64}
use meshpigeon_firmware.Settings.Radio.{unset}
use meshpigeon_firmware.Settings.Text.{
  str_of, strlen, strcmp_eq, all_chars, valid_pin, valid_pin_set, set_pin,
}
use meshpigeon_firmware.Settings.Device.{defaults, pin_is_default, device_eq}
use meshpigeon_firmware.Processor.Message.{
  Ports, Op, ErrorCode, Response, Event, Answer, RadioSettingsMessage, SetDeviceSettings,
}
use meshpigeon_firmware.Processor.State.{
  Processor, is_authorized, pin_matches, auth_backoff_active, first_owner_lock_active,
}
use meshpigeon_firmware.Processor.Reply.{broadcast_response, is_same, send_error}
use meshpigeon_firmware.Processor.Checks.{
  bad_tuning, updated, bad_device_settings, wifi_touched, mem,
}
use meshpigeon_firmware.Processor.Handle.{
  handle_request, handle_auth, handle_set_radio_settings, handle_set_device_settings,
}
use meshpigeon_firmware.Processor.Gate.{
  is_gated, handle_request-is_gated, times, copies, IsFrame, broadcast_response-copies,
}
use meshpigeon_firmware.Processor.Radio.{handle_request-tx_pending}
use meshpigeon_firmware.Processor.Tuning.{IsTuning, handle_set_radio_settings-IsTuning}
use meshpigeon_firmware.Processor.Auth.{handle_auth_backoff}
use meshpigeon_firmware.Processor.Change.{handle_set_device_settings-pin}

-- A radio that counts what it is asked, and a settings store that counts its writes.
abbrev pub counting : Ports ℕ ℕ
counting = record {
  begin = λ r. (r + 1, true);
  apply = λ r s. (r + 1, true);
  transmit = λ r raw. (r + 1, true);
  tx_done = λ r. (r, true);
  save = λ s t. s + 1;
  load = λ s. none;
  save_device = λ s d. s + 1;
  load_device = λ s. defaults;
  clear_device = λ s. s + 1;
  encode = λ r. r.id ∷ 1 ∷ [];
  decode = λ bytes. none;
}

-- The PIN is "4321"; connection 1 is authenticated, connection 2 is not.
abbrev pub node : Processor ℕ ℕ
node = record {
  store = create 40;
  clock = record { last_ms = 400000; rollovers = 0; boot_count = 7 };
  settings_store = 0;
  radio = 0;
  hooks = none;
  board_name = replicate 17 0;
  fw_version = replicate 16 0;
  settings = unset;
  set_count_since_boot = 0;
  device = record defaults { pin = 52 ∷ 51 ∷ 50 ∷ 49 ∷ replicate 5 0 };
  radio_ok = true;
  noise_floor_dbm = 0;
  auth_fails = 3;
  auth_backoff_until = 0;
  tx_pending = false;
  tx_pending_seq = 0;
  sinks = 1 ∷ 2 ∷ [];
  authenticated = λ s. s == 1;
  out = [];
}

abbrev wrong : List ℕ
wrong = 49 ∷ 49 ∷ 49 ∷ 49 ∷ []

handle_request-is_gated_example :
    handle_request counting node 9 Op.purge_store 2
    ≡ send_error counting node 9 ErrorCode.auth_required 2
unfolding is_authorized is_gated pin_is_default strcmp_eq
handle_request-is_gated_example = handle_request-is_gated counting node 9 Op.purge_store 2 refl refl

broadcast_response-copies_example :
    let r : Response = record { id = 0; answer = Answer.tx_result 5 true } in
    let q = broadcast_response counting node (some 1) true r in
    ((counting.encode r ≡ []) × (q ≡ node))
    ⊎ ((events : List Event) × (q ≡ record node { out = node.out ++ events })
        × All (IsFrame (counting.encode r)) events
        × (copies 2 events ≡ (
            if not (is_same 2 (some 1)) && (not true || is_authorized node 2)
            then times 2 node.sinks
            else 0)))
broadcast_response-copies_example =
    broadcast_response-copies counting node (some 1) true
      (record { id = 0; answer = Answer.tx_result 5 true }) 2

abbrev on_air : Processor ℕ ℕ
on_air = record node { tx_pending = true; tx_pending_seq = 5 }

handle_request-tx_pending_example :
    let q = handle_request counting on_air 9 (Op.send_packet (1 ∷ 2 ∷ [])) 1 in
    (q.radio ≡ 0) × (q.settings ≡ unset) × (q.tx_pending ≡ true) × (q.tx_pending_seq ≡ 5)
handle_request-tx_pending_example =
    handle_request-tx_pending counting on_air 9 (Op.send_packet (1 ∷ 2 ∷ [])) 1 refl

abbrev wish : RadioSettingsMessage
wish = record {
  freq_hz = 868100000;
  bandwidth_hz = 250000;
  sf = 12;
  cr = 5;
  power_dbm = 22;
  config_epoch = 0;
}

handle_set_radio_settings-IsTuning_example :
    let q = handle_set_radio_settings counting node 9 (some wish) 1 in
    IsTuning wish q.settings
    × (q.settings.config_epoch ≡ u32 (0 + 1))
    × (q.settings_store ≡ 0 + 1)
    × (q.radio_ok ≡ true)
    × (q.radio ≡ 0 + 1)
unfolding is_authorized pin_is_default strcmp_eq bad_tuning first_owner_lock_active
handle_set_radio_settings-IsTuning_example =
    handle_set_radio_settings-IsTuning counting node 9 wish 1 refl refl refl refl refl

abbrev soon : UptimeClock
soon = record { last_ms = 400500; rollovers = 0; boot_count = 7 }

handle_auth_backoff_example :
    let later = record (handle_auth counting node 9 wrong 2) { clock = soon } in
    handle_auth counting later 10 (52 ∷ 51 ∷ 50 ∷ 49 ∷ []) 3
    ≡ send_error counting later 10 ErrorCode.auth_required 3
unfolding auth_backoff_active is_authorized pin_is_default strcmp_eq pin_matches strlen str_of
    uptime_ms64
handle_auth_backoff_example =
    handle_auth_backoff counting node 9 wrong 2 10 (52 ∷ 51 ∷ 50 ∷ 49 ∷ []) 3 soon refl refl refl
      (omega arith) (omega arith) (omega arith) (omega arith)

-- The node with a packet in its store.
abbrev stocked : Processor ℕ ℕ
stocked = record node { store = one_stored }

abbrev pin_change : SetDeviceSettings
pin_change = record {
  name = none;
  pin = some (53 ∷ 53 ∷ 53 ∷ 53 ∷ []);
  wifi_enabled = none;
  wifi_ssid = none;
  wifi_password = none;
  wifi_port = none;
}

handle_set_device_settings-pin_example :
    let q = handle_set_device_settings counting node 9 pin_change 1 in
    (q.device ≡ updated node.device pin_change)
    × (q.device.pin ≡ set_pin (53 ∷ 53 ∷ 53 ∷ 53 ∷ []))
    × (q.settings_store ≡ 0 + 1)
    × (q.authenticated 2
        ≡ (if 2 == 1 then true else if mem 2 (1 ∷ 2 ∷ []) then false else node.authenticated 2))
    × (is_authorized q 2 ≡ (
        2 == 1
        || (not (mem 2 (1 ∷ 2 ∷ [])) && node.authenticated 2)
        || pin_is_default (updated node.device pin_change)))
    × (auth_backoff_active q ≡ false)
    × (q.auth_fails ≡ 0)
    × (q.auth_backoff_until ≡ 0)
unfolding is_authorized pin_is_default strcmp_eq bad_device_settings valid_pin_set valid_pin strlen
    str_of all_chars wifi_touched device_eq updated set_pin
handle_set_device_settings-pin_example =
    handle_set_device_settings-pin counting node 9 pin_change 1 (53 ∷ 53 ∷ 53 ∷ 53 ∷ []) 2 refl refl
      refl refl refl

-- A new PIN together with the port 0, which is none.
abbrev bad_port : SetDeviceSettings
bad_port = record pin_change { wifi_port = some 0 }
