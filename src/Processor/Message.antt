-- ===== src/Processor/Message.antt =====
-- The envelopes between a client and the node, as the processor sees them decoded, and the
-- interfaces behind it. An `int8_t` or `int32_t` is its bit pattern.
use meshpigeon_firmware.Prelude.{ℕ, ◌+◌, ◌-◌, ◌^◌, List, Bool, Option, ltb, if◌then◌else◌}
use meshpigeon_firmware.Settings.Radio.{RadioSettings}
use meshpigeon_firmware.Settings.Device.{DeviceSettings}

pub record RadioSettingsMessage : Type 0 where
  pub freq_hz : ℕ
  pub bandwidth_hz : ℕ
  pub sf : ℕ
  pub cr : ℕ
  pub power_dbm : ℕ
  pub config_epoch : ℕ

-- A field that the request does not have is `none`.
pub record SetDeviceSettings : Type 0 where
  pub name : Option (List ℕ)
  pub pin : Option (List ℕ)
  pub wifi_enabled : Option Bool
  pub wifi_ssid : Option (List ℕ)
  pub wifi_password : Option (List ℕ)
  pub wifi_port : Option ℕ

pub data Op : Type 0 where
  ping : List ℕ → Op
  get_device_info : Op
  get_radio_settings : Op
  set_radio_settings : Option RadioSettingsMessage → Op
  send_packet : List ℕ → Op
  fetch_packets : ℕ → ℕ → Op
  purge_store : Op
  bootloader : Op
  get_device_settings : Op
  set_device_settings : SetDeviceSettings → Op
  get_status : Op
  auth : List ℕ → Op
  reboot : Op
  factory_reset : Op
  unknown : Op

pub record Request : Type 0 where
  pub id : ℕ
  pub op : Op

pub data ErrorCode : Type 0 where
  bad_payload : ErrorCode
  bad_command : ErrorCode
  busy : ErrorCode
  tx_failed : ErrorCode
  no_radio : ErrorCode
  auth_required : ErrorCode
  not_supported : ErrorCode

pub record DeviceSettingsMessage : Type 0 where
  pub name : List ℕ
  pub wifi_enabled : Bool
  pub wifi_ssid : List ℕ
  pub wifi_password : List ℕ
  pub wifi_port : ℕ

pub record Status : Type 0 where
  pub wifi_state : ℕ
  pub wifi_ssid : List ℕ
  pub wifi_ipv4 : List ℕ
  pub wifi_port : ℕ
  pub wifi_rssi : ℕ
  pub ble_clients : ℕ
  pub usb_cdc_clients : ℕ
  pub wifi_tcp_clients : ℕ

pub record StoreInfo : Type 0 where
  pub count : ℕ
  pub capacity_bytes : ℕ
  pub dropped : ℕ
  pub oldest_seq : ℕ

pub record DeviceInfo : Type 0 where
  pub spec_version : ℕ
  pub fw_version : List ℕ
  pub board_name : List ℕ
  pub capabilities : List ℕ
  pub uptime_ms : ℕ
  pub boot_count : ℕ
  pub store : StoreInfo
  pub radio_config_epoch : ℕ
  pub battery_mv : ℕ
  pub radio_ok : Bool
  pub noise_floor_dbm : ℕ
  pub auth_required : Bool

pub data Origin : Type 0 where
  sent : Origin
  received : Origin

pub record PacketEntry : Type 0 where
  pub seq : ℕ
  pub raw : List ℕ
  pub uptime_ms : ℕ
  pub rssi : ℕ
  pub snr : ℕ
  pub origin : Origin

pub data Answer : Type 0 where
  pong : List ℕ → Answer
  ok : Answer
  error : ErrorCode → Answer
  device_info : DeviceInfo → Answer
  radio_settings : RadioSettingsMessage → Answer
  device_settings : DeviceSettingsMessage → Answer
  status : Status → Answer
  packet_entry : PacketEntry → Answer
  packet_accepted : ℕ → Answer
  tx_result : ℕ → Bool → Answer
  fetch_end : ℕ → Answer

-- `id` 0 marks a push. A response is always built from a zeroed one.
pub record Response : Type 0 where
  pub id : ℕ
  pub answer : Answer

-- The board's hooks, as they answer at the moment. `mac_suffix` and `fill_status` change what they
-- are given.
pub record Hooks : Type 0 where
  pub battery_mv : ℕ
  pub mac_suffix : List ℕ → List ℕ
  pub ble_clients : ℕ
  pub usb_cdc_clients : ℕ
  pub wifi_tcp_clients : ℕ
  pub fill_status : Status → Status
  pub wifi_supported : Bool
  pub capabilities : ℕ → List ℕ

-- The radio, with states in `R`, the settings store, with states in `S`, and the codec.
-- `transmit` says whether the transmission was started. `encode` gives no bytes where `pb_encode`
-- fails; `decode` fails where `pb_decode` does.
pub record Ports (R S : Type 0) : Type 0 where
  pub begin : R → R × Bool
  pub apply : R → RadioSettings → R × Bool
  pub transmit : R → List ℕ → R × Bool
  pub tx_done : R → R × Bool
  pub save : S → RadioSettings → S
  pub load : S → Option RadioSettings
  pub save_device : S → DeviceSettings → S
  pub load_device : S → DeviceSettings
  pub clear_device : S → S
  pub encode : Response → List ℕ
  pub decode : List ℕ → Option Request

-- What the outside sees: frames to connections, and calls of hooks that act.
pub data Event : Type 0 where
  frame : ℕ → List ℕ → Event
  named : List ℕ → Event
  wifi_applied : DeviceSettings → Event
  rebooted : Event
  rebooted_to_bootloader : Event
  reset_to_factory : Event

-- The cast of an `int8_t` to `int32_t`.
unfoldable pub sign_extend : ℕ → ℕ
sign_extend v = if ltb v 128 then v else v + (2 ^ 32 - 256)
