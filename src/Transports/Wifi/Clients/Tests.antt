-- ===== src/Transports/Wifi/Clients/Tests.antt =====
-- The TCP clients on a small network.
use meshpigeon_firmware.Prelude.{
  ℕ, ◌+◌, ◌-◌, ◌%◌, ◌^◌, ◌<◌, ◌≤◌, ◌≡◌, refl, sym, ap, ◌⊎◌, List, [], ◌∷◌, ◌++◌, true, false, none,
  some, arith, length, take-length, replicate,
}
use meshpigeon_firmware.Framing.Frame.{frame_encode_envelope}
use meshpigeon_firmware.Framing.Reader.{reset}
use meshpigeon_firmware.Settings.Device.{defaults}
use meshpigeon_firmware.Transports.Tests.{parts, node}
use meshpigeon_firmware.Transports.Wifi.{LinkState, LinkStatus, Stack, Wifi, no_client, client_at}
use meshpigeon_firmware.Transports.Wifi.Clients.{
  Tcp, Sent, send_frame, apply_told, pump, write_budget_ms,
}
use meshpigeon_firmware.Transports.Wifi.Clients.Sending.{IsTcp, send_frame-Ended}
use meshpigeon_firmware.Transports.Wifi.Clients.Slots.{IsBook, book}
use meshpigeon_firmware.Transports.Wifi.Clients.Startup.{setup_wifi, setup_wifi_lasts}
use meshpigeon_firmware.Transports.Wifi.Facts.{IsRuled}
use meshpigeon_firmware.Transports.Wifi.Calls.{link}
use meshpigeon_firmware.Processor.State.{Processor}
use meshpigeon_firmware.Transports.Wifi.Clients.Lasting.{Turn, Turns}

-- What the window has taken, and the milliseconds since the start.
abbrev Net : Type 0
Net = List ℕ × ℕ

-- The network is there, one client waits at the server, and its window takes all.
abbrev here : Stack Net
here = record {
  status = λ w. (w, LinkStatus.is_connected);
  start_station = λ w. w;
  join = λ w ssid password. w;
  leave = λ w. w;
  power_off = λ w. w;
  listen = λ w port. w;
  unlisten = λ w. w;
  announce = λ w port. w;
  silence = λ w. w;
  close = λ w socket. w;
}

abbrev open_window : Tcp Net
open_window = record {
  accept = λ w. (w, some 60);
  keep_alive = λ w socket. w;
  read = λ w socket. none;
  connected = λ w socket. true;
  send = λ w socket bytes. ((w.0 ++ bytes, w.1), Sent.took (length bytes));
  delay = λ w. (w.0, w.1 + 1);
  millis = λ w. w.1 % 2 ^ 32;
  ssid = λ w. 65 ∷ [];
  local_ip = λ w. 192 ∷ 168 ∷ 1 ∷ 50 ∷ [];
  rssi = λ w. 200;
}

open_window-IsTcp : IsTcp Net open_window 60 (λ w. w.0) (λ w. w.1) 1
open_window-IsTcp = record {
  takes = λ w bytes. omega arith;
  sends = λ w bytes. ap (◌++◌ w.0) (sym (take-length bytes));
  at_once = λ w bytes. refl;
  shown = λ w. refl;
  silent = λ w. refl;
  passes = λ w. omega arith;
  soon = λ w. omega arith;
  bounded = omega arith;
}

-- The node, with the network "A" in its settings.
abbrev wired : Processor ℕ ℕ
wired = record node {
  device = record defaults { wifi_enabled = true; wifi_ssid = 65 ∷ replicate 32 0 };
}

-- One client on four slots, a little before the clock wraps.
abbrev one_client : Wifi ℕ ℕ Net
one_client = record {
  proc = node;
  stack = ([], 2 ^ 32 - 100);
  settings = record defaults { wifi_enabled = true; wifi_ssid = 65 ∷ replicate 32 0 };
  state = LinkState.connected;
  server_up = true;
  port = 5000;
  last_attempt_ms = 0;
  backoff_ms = 0;
  clients =
      record { socket = 60; reader = reset; in_use = true; broken = false } ∷ replicate 3 no_client;
  num_clients = 1;
}

send_frame-Ended_example :
    let c = client_at parts here 4 one_client 0 in
    let q = send_frame parts here open_window 4 one_client 0 (5 ∷ 6 ∷ []) in
    let wire = frame_encode_envelope (5 ∷ 6 ∷ []) in
    (q.stack.1 < one_client.stack.1 + write_budget_ms + 1)
    × (((q.stack.0 ≡ one_client.stack.0 ++ wire) × ((client_at parts here 4 q 0).broken ≡ c.broken))
        ⊎ (((left : List ℕ) × (q.stack.0 ++ left ≡ one_client.stack.0 ++ wire)
              × (((u : Net) × (open_window.send u c.socket left ≡ (q.stack, Sent.failed)))
                  ⊎ (one_client.stack.1 + write_budget_ms ≤ q.stack.1)))
            × ((client_at parts here 4 q 0).broken ≡ true)))
send_frame-Ended_example =
    send_frame-Ended parts here open_window 4 one_client 0 (5 ∷ 6 ∷ []) (λ w. w.0) (λ w. w.1) 1
      (omega arith) open_window-IsTcp

-- The Wi-Fi comes up and serves, a turn of the board loop lets a client in, then it is switched off.
abbrev used : Wifi ℕ ℕ Net
used =
    let first = pump parts here open_window 4 (setup_wifi parts here 4 wired ([], 0) 3) 7 in
    apply_told parts here open_window 4 (pump parts here open_window 4 first 8) defaults 9

setup_wifi_lasts_example : IsRuled (link parts here 4 used) × IsBook (book parts here 4 used)
setup_wifi_lasts_example =
    let begun = setup_wifi parts here 4 wired ([], 0) 3 in
    let first = pump parts here open_window 4 begun 7 in
    let second = pump parts here open_window 4 first 8 in
    setup_wifi_lasts parts here 4 open_window wired ([], 0) 3 used
      (Turns.one_turn
        (Turns.one_turn (Turns.one_turn Turns.no_turn (Turn.pumped begun 7)) (Turn.pumped first 8))
        (Turn.applied second defaults 9))
