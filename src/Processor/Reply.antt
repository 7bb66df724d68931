-- ===== src/Processor/Reply.antt =====
-- Building responses and delivering them: to one connection, or to all that may see them.
use meshpigeon_firmware.Prelude.{
  ℕ, ◌+◌, ◌*◌, List, [], ◌∷◌, ◌++◌, map, Bool, true, false, ◌&&◌, not, Option, none, some, ◌==◌,
  if◌then◌else◌, take, is_empty, replicate, bit_and,
}
use meshpigeon_firmware.Store.{StoredPacket, oldest_seq}
use meshpigeon_firmware.Clock.{uptime_ms64}
use meshpigeon_firmware.Settings.Text.{ssid_max, pass_max, copy_str}
use meshpigeon_firmware.Processor.Message.{
  ErrorCode, Ports, Response, Answer, Event, RadioSettingsMessage, DeviceSettingsMessage, Status,
  PacketEntry, DeviceInfo, Origin, sign_extend,
}
use meshpigeon_firmware.Processor.State.{Processor, is_authorized, effective_name}

abbrev pub is_same : ℕ → Option ℕ → Bool
is_same s none = false
is_same s (some t) = s == t

module _ {R S : Type 0} where
  -- The registered connections that a broadcast reaches.
  unfoldable pub recipients : Processor R S → Option ℕ → Bool → List ℕ → List ℕ
  recipients p except authorized_only [] = []
  recipients p except authorized_only (s ∷ ss) =
      let rest = recipients p except authorized_only ss in
      if is_same s except
      then rest
      else if authorized_only && not (is_authorized p s)
      then rest
      else s ∷ rest

  unfoldable pub emit : Processor R S → List Event → Processor R S
  emit p events = record p { out = p.out ++ events }

  unfoldable pub radio_settings_message : Processor R S → RadioSettingsMessage
  radio_settings_message p = record {
    freq_hz = p.settings.freq_hz;
    bandwidth_hz = p.settings.bw_x100khz * 10;
    sf = p.settings.sf;
    cr = p.settings.cr;
    power_dbm = p.settings.power_dbm;
    config_epoch = p.settings.config_epoch;
  }

  unfoldable pub device_settings_message : Processor R S → DeviceSettingsMessage
  device_settings_message p = record {
    name = effective_name p;
    wifi_enabled = p.device.wifi_enabled;
    wifi_ssid = copy_str (ssid_max + 1) p.device.wifi_ssid;
    wifi_password = copy_str (pass_max + 1) p.device.wifi_password;
    wifi_port = p.device.wifi_port;
  }

  -- The counts are the core's: they overwrite whatever the hook filled in.
  unfoldable pub status_message : Processor R S → Status
  status_message p =
      let zeroed : Status = record {
        wifi_state = 0;
        wifi_ssid = replicate (ssid_max + 1) 0;
        wifi_ipv4 = [];
        wifi_port = 0;
        wifi_rssi = 0;
        ble_clients = 0;
        usb_cdc_clients = 0;
        wifi_tcp_clients = 0;
      } in
      elim p.hooks [
        | none ↦ zeroed
        | some h ↦ record (h.fill_status zeroed) {
          ble_clients = h.ble_clients;
          usb_cdc_clients = h.usb_cdc_clients;
          wifi_tcp_clients = h.wifi_tcp_clients;
        }
      ]

  unfoldable pub device_info_message : Processor R S → ℕ → DeviceInfo
  device_info_message p from = record {
    spec_version = 2;
    fw_version = copy_str 16 p.fw_version;
    board_name = copy_str 17 p.board_name;
    capabilities = elim p.hooks [ none ↦ [] | some h ↦ take 16 (h.capabilities 16) ];
    uptime_ms = uptime_ms64 p.clock;
    boot_count = p.clock.boot_count;
    store = record {
      count = p.store.count;
      capacity_bytes = p.store.capacity;
      dropped = p.store.dropped;
      oldest_seq = oldest_seq p.store;
    };
    radio_config_epoch = p.settings.config_epoch;
    battery_mv = elim p.hooks [ none ↦ 0xFFFF | some h ↦ h.battery_mv ];
    radio_ok = p.radio_ok;
    noise_floor_dbm = p.noise_floor_dbm;
    auth_required = not (is_authorized p from);
  }

unfoldable pub packet_entry_message : StoredPacket → PacketEntry
packet_entry_message e = record {
  seq = e.seq;
  raw = e.raw;
  uptime_ms = e.uptime_ms;
  rssi = sign_extend e.rssi;
  snr = sign_extend e.snr;
  origin = if bit_and e.flags 1 == 0 then Origin.received else Origin.sent;
}

module _ {R S : Type 0} (ports : Ports R S) where
  -- `dispatch` with a recipient, and without one. A response that cannot be encoded goes nowhere.
  unfoldable pub deliver : Processor R S → ℕ → Response → Processor R S
  deliver p to response =
      let buf = ports.encode response in
      if is_empty buf then p else emit p (Event.frame to buf ∷ [])

  unfoldable pub broadcast_response : Processor R S → Option ℕ → Bool → Response → Processor R S
  broadcast_response p except authorized_only response =
      let buf = ports.encode response in
      if is_empty buf
      then p
      else emit p (map (λ s. Event.frame s buf) (recipients p except authorized_only p.sinks))

  unfoldable pub reply : Processor R S → ℕ → ℕ → Answer → Processor R S
  reply p id to answer = deliver p to (record { id = id; answer = answer })

  unfoldable pub send_error : Processor R S → ℕ → ErrorCode → ℕ → Processor R S
  send_error p id code to = reply p id to (Answer.error code)

  -- At most the 500 bytes that a pong can carry.
  unfoldable pub send_pong : Processor R S → ℕ → List ℕ → ℕ → Processor R S
  send_pong p id payload to = reply p id to (Answer.pong (take 500 payload))

  unfoldable pub emit_tx_result : Processor R S → ℕ → Bool → Processor R S
  emit_tx_result p seq success =
      broadcast_response p none false (record { id = 0; answer = Answer.tx_result seq success })

  unfoldable pub notify_radio_changed : Processor R S → Option ℕ → Processor R S
  notify_radio_changed p except =
      broadcast_response p except true
        (record { id = 0; answer = Answer.radio_settings (radio_settings_message p) })

  unfoldable pub notify_device_settings_changed : Processor R S → Option ℕ → Processor R S
  notify_device_settings_changed p except =
      broadcast_response p except true
        (record { id = 0; answer = Answer.device_settings (device_settings_message p) })

  unfoldable pub on_wifi_state_changed : Processor R S → Processor R S
  on_wifi_state_changed p =
      broadcast_response p none false (record { id = 0; answer = Answer.status (status_message p) })
