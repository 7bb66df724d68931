-- ===== src/Node/Tests.antt =====
-- A node that sends, over each radio. The store, the settings store and the codec are small.
use meshpigeon_firmware.Prelude.{
  ℕ, ltb, if◌then◌else◌, take, ◌-◌, ◌^◌, ◌<◌, ◌⊎◌, ◌++◌, All, ◌+◌, ◌≤◌, ◌≡◌, refl, List, [], ◌∷◌,
  Bool, true, false, none, some, arith, length, replicate,
}
use meshpigeon_firmware.Store.{create}
use meshpigeon_firmware.Settings.Radio.{unset}
use meshpigeon_firmware.Settings.Device.{DeviceSettings, IsDevice, defaults}
use meshpigeon_firmware.Lora.{Chip}
use meshpigeon_firmware.Sim
use meshpigeon_firmware.Sim.{SimRadio}
use meshpigeon_firmware.Processor.Message.{Ports}
use meshpigeon_firmware.Processor.State.{Processor, max_sinks, effective_name}
use meshpigeon_firmware.Processor.Life.{Action, run}
use meshpigeon_firmware.Processor.Life.Flight.{ticks}
use meshpigeon_firmware.Node.OnLora.{over_lora, listen, run-tx_started}
use meshpigeon_firmware.Node.OnSim.{EndsAfter, run_completes}
use meshpigeon_firmware.Framing.Frame.{frame_encode_envelope}
use meshpigeon_firmware.Framing.Reader.{reset, frame_max_drain}
use meshpigeon_firmware.Framing.Reader.Deliver.{read_stream}
use meshpigeon_firmware.Settings.Memory.{nothing_saved}
use meshpigeon_firmware.Processor.Handle.{poll}
use meshpigeon_firmware.Lora
use meshpigeon_firmware.Lora.{LoraRadio, Received}
use meshpigeon_firmware.Node.Loop.{board, caught, envelopes, turn, turn-run}
use meshpigeon_firmware.Node.SimMain.{FakeState, SimMain, sim_hooks}
use meshpigeon_firmware.Settings.Device.{serialize_device}
use meshpigeon_firmware.Board.{FilePath, save_device_file, load_device_file}
use meshpigeon_firmware.Board.Crash.{stages}
use meshpigeon_firmware.Board.Disk.{Disk, disk, disk-IsFileSystem, blank}
use meshpigeon_firmware.Node.BoardHooks.{Facts, board_hooks, mac_suffix, effective_name-board_hooks}
use meshpigeon_firmware.Node.Setup.{Build, CameUp, setup, setup_restores}
use meshpigeon_firmware.Node.SimMain.FakeWifi.{ticks_connect}
use meshpigeon_firmware.Node.SimMain.FakeWifi

-- What is not the radio's own.
abbrev parts : {R : Type 0} → Ports R ℕ
parts = record {
  begin = λ r. (r, true);
  apply = λ r s. (r, true);
  transmit = λ r raw. (r, true);
  tx_done = λ r. (r, true);
  save = λ s t. s + 1;
  load = λ s. none;
  save_device = λ s d. s + 1;
  load_device = λ s. defaults;
  clear_device = λ s. s + 1;
  encode = λ r. r.id ∷ 1 ∷ [];
  decode = λ bytes. none;
}

abbrev with_store : {R S : Type 0} → R → S → Processor R S
with_store radio settings_store = record {
  store = create 40;
  clock = record { last_ms = 400000; rollovers = 0; boot_count = 7 };
  settings_store = settings_store;
  radio = radio;
  hooks = none;
  board_name = replicate 17 0;
  fw_version = replicate 16 0;
  settings = unset;
  set_count_since_boot = 0;
  device = defaults;
  radio_ok = true;
  noise_floor_dbm = 0;
  auth_fails = 0;
  auth_backoff_until = 0;
  tx_pending = true;
  tx_pending_seq = 1;
  sinks = 1 ∷ 2 ∷ [];
  authenticated = λ s. false;
  out = [];
}

abbrev over : {R : Type 0} → R → Processor R ℕ
over radio = with_store radio 0

abbrev busy : SimRadio
busy = record (Sim.create 1234) { tx_active = true; last_tx = 7 ∷ [] }

-- A connection comes, an envelope arrives, a packet is heard, and three ticks go by.
abbrev traffic : List Action
traffic =
    Action.tick 400001
    ∷ Action.join 3
    ∷ Action.tick 400002
    ∷ Action.envelope (1 ∷ 2 ∷ []) 1
    ∷ Action.heard 200 5 (8 ∷ 9 ∷ [])
    ∷ Action.tick 400003
    ∷ Action.leave 3
    ∷ []

run_completes_example : EndsAfter parts 2 (over busy) traffic
unfolding ticks Sim.create
run_completes_example = run_completes parts traffic (over busy) 2 refl refl refl (omega arith)

abbrev call : ℕ → ℕ × Bool
call c = (c + 1, true)

-- A chip that counts its calls, and says from the ninth on that it has sent.
abbrev counter : Chip ℕ
counter = record {
  standby = call;
  set_frequency = λ c v. call c;
  set_bandwidth = λ c v. call c;
  set_spreading_factor = λ c v. call c;
  set_coding_rate = λ c v. call c;
  set_preamble_length = λ c v. call c;
  set_output_power = λ c v. call c;
  set_crc = λ c v. call c;
  start_receive = call;
  start_transmit = λ c raw. call c;
  finish_transmit = λ c. c + 1;
  irq_flags = λ c. (c + 1, if ltb c 9 then 0 else 1);
  packet_length = λ c. 3;
  read_data = λ c n. (c, some (1 ∷ 2 ∷ 3 ∷ []));
  rssi = λ c. 200;
  snr = λ c. 5;
  crc_len = 1;
  irq_tx_done = 1;
  irq_rx_done = 2;
  irq_crc_err = 64;
  irq_header_err = 32;
  header_err_quirk = false;
}

run-tx_started_example :
    let q =
      run
        (over_lora counter parts)
        (listen {S = ℕ} counter parts)
        (over (record { chip = 7; tx_started = true }))
        traffic in
    (q.tx_pending ≡ q.radio.tx_started) × (length q.sinks ≤ max_sinks)
run-tx_started_example =
    run-tx_started counter parts (over (record { chip = 7; tx_started = true })) traffic refl
      (omega arith)

abbrev at_rest : LoraRadio ℕ
at_rest = record { chip = 7; tx_started = false }

-- A whole frame waits at the console.
turn-run_example :
    let p : Processor (LoraRadio ℕ) ℕ = over at_rest in
    let serial = frame_encode_envelope (1 ∷ 2 ∷ []) in
    let (left, frames) = read_stream reset (take frame_max_drain serial) in
    let actions = envelopes counter parts 1 frames in
    let served = run (board counter parts) (listen {S = ℕ} counter parts) p actions in
    let got = (Lora.receive counter (poll (board counter parts) served 400001).radio).1 in
    ((turn counter parts p reset 1 serial 400001).0
      ≡ run
          (board counter parts)
          (listen {S = ℕ} counter parts)
          p
          (actions ++ Action.tick 400001 ∷ Action.listened ∷ caught counter parts got))
    × ((turn counter parts p reset 1 serial 400001).1 ≡ left)
turn-run_example =
    turn-run counter parts (over at_rest) reset 1 (frame_encode_envelope (1 ∷ 2 ∷ [])) 400001

-- Only the codec of it is used.
abbrev plain : {R S : Type 0} → Ports R S
plain = record {
  begin = λ r. (r, true);
  apply = λ r s. (r, true);
  transmit = λ r raw. (r, true);
  tx_done = λ r. (r, true);
  save = λ s t. s;
  load = λ s. none;
  save_device = λ s d. s;
  load_device = λ s. defaults;
  clear_device = λ s. s;
  encode = λ r. r.id ∷ 1 ∷ [];
  decode = λ bytes. none;
}

abbrev started : SimMain
started = record {
  proc = with_store busy nothing_saved;
  now = 2 ^ 32 - 50;
  fake_wifi = true;
  fake_state = FakeState.off;
  fake_changed_ms = 0;
  tcp_clients = 0;
  last_traffic = 0;
}

ticks_connect_example :
    ((2500 < 2000) × ((FakeWifi.ticks plain 30 2501 started).fake_state ≡ FakeState.connecting))
    ⊎ ((2000 ≤ 2500) × ((FakeWifi.ticks plain 30 2501 started).fake_state ≡ FakeState.connected))
ticks_connect_example = ticks_connect plain 30 2500 started refl refl

abbrev build : Build
build = record {
  store_bytes = 65536;
  board_name = 84 ∷ 49 ∷ 49 ∷ 52 ∷ [];
  fw_version = 48 ∷ 46 ∷ 49 ∷ 46 ∷ 48 ∷ [];
  hooks = sim_hooks FakeState.off 0;
  usb = 1;
  ble = 2;
}

-- The PIN "4321" is saved over the one of the factory.
abbrev secured : DeviceSettings
secured = record defaults { pin = 52 ∷ 51 ∷ 50 ∷ 49 ∷ replicate 5 0 }

secured-IsDevice : IsDevice secured
secured-IsDevice = record {
  name_size = refl;
  pin_size = refl;
  ssid_size = refl;
  password_size = refl;
  name_ends = refl;
  pin_ends = refl;
  ssid_ends = refl;
  password_ends = refl;
  port_fits = omega arith;
}

setup_restores_example :
    let node = λ (g : Disk). (setup counter plain disk build at_rest g).0 in
    let old = (load_device_file disk blank).1 in
    let (g, done) = save_device_file disk blank secured in
    (((done ≡ true) × CameUp counter plain disk build secured (node g) 2)
      ⊎ ((done ≡ false) × CameUp counter plain disk build old (node g) 2))
    × All
        (λ g.
          CameUp counter plain disk build old (node g) 2
          ⊎ CameUp counter plain disk build secured (node g) 2)
        (stages disk blank FilePath.dev_bin (serialize_device secured))
setup_restores_example =
    setup_restores counter plain disk disk-IsFileSystem build at_rest blank secured 2 (omega arith)
      secured-IsDevice refl

abbrev facts : ℕ → Facts
facts battery = record {
  address = some (0xA3, 0xF2);
  battery_mv = battery;
  has_battery = true;
  ble_clients = 1;
  usb_open = true;
  wifi = none;
}

-- The same board with a full and an empty battery.
abbrev board_at : ℕ → Processor (LoraRadio ℕ) ℕ
board_at battery = record (over at_rest) { hooks = some (board_hooks (facts battery)) }

effective_name-board_hooks_example : (◌≡◌ {A = ℕ} 0xA3 0xA3) × (◌≡◌ {A = ℕ} 0xF2 0xF2)
unfolding effective_name board_hooks mac_suffix
effective_name-board_hooks_example =
    effective_name-board_hooks (board_at 4100) (board_at 3300) (facts 4100) (facts 3300) 0xA3 0xF2
      0xA3 0xF2 refl refl refl refl (omega arith, omega arith, omega arith, omega arith) refl refl
      refl
