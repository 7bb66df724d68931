-- ===== src/Node/SimMain.antt =====
-- The simulator of src/sim_main.cpp: its hooks, the scripted Wi-Fi, and a tick of its loop. The
-- sockets and the command line are not modelled.
pub mod FakeWifi
use meshpigeon_firmware.Prelude.{
  ℕ, ◌+◌, ◌-◌, ◌/◌, ◌%◌, ◌^◌, List, [], ◌∷◌, ◌++◌, Bool, true, false, ◌&&◌, not, Option, none, some,
  ltb, leb, if◌then◌else◌, set,
}
use meshpigeon_firmware.Clock
use meshpigeon_firmware.Settings.Text.{ssid_max, copy_str}
use meshpigeon_firmware.Settings.Memory
use meshpigeon_firmware.Settings.Memory.{MemorySettings}
use meshpigeon_firmware.Sim
use meshpigeon_firmware.Sim.{SimRadio}
use meshpigeon_firmware.Processor.Message.{Ports, Hooks, Status}
use meshpigeon_firmware.Processor.State.{Processor, set_hooks}
use meshpigeon_firmware.Processor.Reply.{on_wifi_state_changed}
use meshpigeon_firmware.Processor.Handle.{on_packet_received, poll}
use meshpigeon_firmware.Node.OnSim.{over_sim}

pub data FakeState : Type 0 where
  off : FakeState
  connecting : FakeState
  connected : FakeState

-- "A3F2" with its NUL, "sim-net", and "sim: hello from the desktop mesh" with its NUL.
abbrev pub sim_suffix : List ℕ
sim_suffix = 65 ∷ 51 ∷ 70 ∷ 50 ∷ 0 ∷ []

abbrev pub sim_ssid : List ℕ
sim_ssid = 115 ∷ 105 ∷ 109 ∷ 45 ∷ 110 ∷ 101 ∷ 116 ∷ []

abbrev pub hello : List ℕ
hello =
    115 ∷ 105 ∷ 109 ∷ 58 ∷ 32 ∷ 104 ∷ 101 ∷ 108 ∷ 108 ∷ 111 ∷ 32 ∷ 102 ∷ 114 ∷ 111 ∷ 109 ∷ 32 ∷ 116
    ∷ 104 ∷ 101 ∷ 32 ∷ 100 ∷ 101 ∷ 115 ∷ 107 ∷ 116 ∷ 111 ∷ 112 ∷ 32 ∷ 109 ∷ 101 ∷ 115 ∷ 104 ∷ 0 ∷ []

-- The Wi-Fi part of `SimHooks::fill_status`.
unfoldable pub fill_status : FakeState → Status → Status
fill_status FakeState.off status = record status { wifi_state = 1 }
fill_status FakeState.connecting status = record status { wifi_state = 2 }
fill_status FakeState.connected status = record status {
  wifi_state = 3;
  wifi_ssid = copy_str (ssid_max + 1) sim_ssid;
  wifi_ipv4 = 192 ∷ 168 ∷ 1 ∷ 50 ∷ [];
  wifi_port = 5000;
  wifi_rssi = 2 ^ 32 - 55;
}

-- What `SimHooks` answers while the link is in that state and `clients` sockets are open. Its one
-- capability, CAPABILITY_WIFI_STA, is 1.
unfoldable pub sim_hooks : FakeState → ℕ → Hooks
sim_hooks state clients = record {
  battery_mv = 0xFFFF;
  mac_suffix = λ out. sim_suffix;
  ble_clients = 0;
  usb_cdc_clients = 0;
  wifi_tcp_clients = clients % 2 ^ 8;
  fill_status = fill_status state;
  wifi_supported = true;
  capabilities = λ max. 1 ∷ [];
}

-- The globals of the program: `now` is the reading of `sim_clock`, `tcp_clients` the sockets.
pub record SimMain : Type 0 where
  pub proc : Processor SimRadio MemorySettings
  pub now : ℕ
  pub fake_wifi : Bool
  pub fake_state : FakeState
  pub fake_changed_ms : ℕ
  pub tcp_clients : ℕ
  pub last_traffic : ℕ

module _ (codec : Ports SimRadio MemorySettings) where
  -- The processor over `SimRadio` and `MemorySettingsStore`; the rest is the codec.
  abbrev pub sim_ports : Ports SimRadio MemorySettings
  sim_ports = record (over_sim codec) {
    save = Memory.save;
    load = Memory.load;
    save_device = Memory.save_device;
    load_device = Memory.load_device;
    clear_device = Memory.clear_device;
  }

  -- A transition of the scripted link, and its push.
  unfoldable pub enter : SimMain → FakeState → SimMain
  enter m state =
      let answering = set_hooks m.proc (some (sim_hooks state m.tcp_clients)) in
      record m {
        fake_state = state;
        fake_changed_ms = m.now;
        proc = on_wifi_state_changed sim_ports answering;
      }

  unfoldable pub fake_wifi_tick : SimMain → SimMain
  fake_wifi_tick m =
      let waited = leb 2000 ((m.now + 2 ^ 32 - m.fake_changed_ms) % 2 ^ 32) in
      if not m.fake_wifi then m else elim m.fake_state [
        | FakeState.off ↦ enter m FakeState.connecting
        | FakeState.connecting ↦ if waited then enter m FakeState.connected else m
        | FakeState.connected ↦ m
      ]

  -- A packet of made-up traffic: a header byte, the time, and a greeting.
  unfoldable pub traffic_packet : ℕ → List ℕ
  traffic_packet now =
      0x45 ∷ now % 256 ∷ now / 256 % 256 ∷ now / 65536 % 256 ∷ now / 16777216 % 256 ∷ hello

  unfoldable pub make_traffic : ℕ → SimMain → SimMain
  make_traffic traffic_ms m =
      let due = leb traffic_ms ((m.now + 2 ^ 32 - m.last_traffic) % 2 ^ 32) in
      if ltb 0 traffic_ms && due
      then record m {
        last_traffic = m.now;
        proc = record m.proc { radio = Sim.inject m.proc.radio (traffic_packet m.now) };
      }
      else m

  unfoldable pub hear : SimMain → SimMain
  hear m =
      let (radio, got) = Sim.receive m.proc.radio in
      let asked = record m.proc { radio = radio } in
      elim got [
        | none ↦ record m { proc = asked }
        | some (raw, rssi, snr) ↦ record m {
          proc = (on_packet_received sim_ports asked rssi snr raw).1;
        }
      ]

  unfoldable pub sim_loop_tick : ℕ → SimMain → SimMain
  sim_loop_tick traffic_ms m =
      let now = Clock.advance m.now 1 in
      let polled = record m { now = now; proc = poll sim_ports m.proc now } in
      hear (make_traffic traffic_ms (fake_wifi_tick polled))
