-- ===== src/Transports/Wifi.antt =====
-- `WifiTransport` of src/wifi_transport.h and src/wifi_transport.cpp: the link to the network with
-- its back-off, the server, and four slots for clients. The Wi-Fi and TCP stack is a parameter, and
-- the readings of the millisecond clock are arguments. `uint32_t` has 32 bits.
pub mod Facts
pub mod Calls
pub mod Rules
pub mod Clients
use mathlib.Core.List.{foldl}
use meshpigeon_firmware.Prelude.{
  ℕ, ◌+◌, ◌-◌, ◌*◌, ◌%◌, ◌^◌, List, [], ◌∷◌, ◌++◌, Bool, true, false, ◌&&◌, ◌||◌, not, Option, none,
  some, ltb, leb, ◌==◌, if◌then◌else◌, set, get_or,
}
use meshpigeon_firmware.Framing.Reader.{FrameReader, reset}
use meshpigeon_firmware.Settings.Text.{strcmp_eq}
use meshpigeon_firmware.Settings.Device.{DeviceSettings, wifi_port_default}
use meshpigeon_firmware.Processor.Message.{Ports}
use meshpigeon_firmware.Processor.State.{Processor, remove_sink}
use meshpigeon_firmware.Processor.Reply.{on_wifi_state_changed}

pub data LinkState : Type 0 where
  off : LinkState
  connecting : LinkState
  connected : LinkState
  auth_fail : LinkState
  link_error : LinkState

-- What one reading of the status says: WL_CONNECTED, WL_NO_SSID_AVAIL, WL_CONNECT_FAILED, or any
-- other.
pub data LinkStatus : Type 0 where
  is_connected : LinkStatus
  no_ssid_avail : LinkStatus
  connect_failed : LinkStatus
  other_status : LinkStatus

-- The stack, with states in `W`. `start_station` is the mode, the modem sleep and no reconnection of
-- its own, `join` the association with a network, `leave` the end of it, `power_off`
-- WIFI_OFF, `listen` and `unlisten` the
-- server's begin and end, `announce` and `silence` those of mDNS, `close` the end of a socket.
pub record Stack (W : Type 0) : Type 0 where
  pub status : W → W × LinkStatus
  pub start_station : W → W
  pub join : W → List ℕ → List ℕ → W
  pub leave : W → W
  pub power_off : W → W
  pub listen : W → ℕ → W
  pub unlisten : W → W
  pub announce : W → ℕ → W
  pub silence : W → W
  pub close : W → ℕ → W

pub record Client : Type 0 where
  pub socket : ℕ
  pub reader : FrameReader
  pub in_use : Bool
  pub broken : Bool

pub record Wifi (R S W : Type 0) : Type 0 where
  pub proc : Processor R S
  pub stack : W
  pub settings : DeviceSettings
  pub state : LinkState
  pub server_up : Bool
  pub port : ℕ
  pub last_attempt_ms : ℕ
  pub backoff_ms : ℕ
  pub clients : List Client
  pub num_clients : ℕ

-- kBackoffStartMs, kBackoffMaxMs, kMaxClients
abbrev pub backoff_start_ms : ℕ
backoff_start_ms = 5000

abbrev pub backoff_max_ms : ℕ
backoff_max_ms = 120000

abbrev pub max_clients : ℕ
max_clients = 4

abbrev pub no_client : Client
no_client = record { socket = 0; reader = reset; in_use = false; broken = false }

abbrev pub state_eq : LinkState → LinkState → Bool
state_eq LinkState.off LinkState.off = true
state_eq LinkState.off LinkState.connecting = false
state_eq LinkState.off LinkState.connected = false
state_eq LinkState.off LinkState.auth_fail = false
state_eq LinkState.off LinkState.link_error = false
state_eq LinkState.connecting LinkState.off = false
state_eq LinkState.connecting LinkState.connecting = true
state_eq LinkState.connecting LinkState.connected = false
state_eq LinkState.connecting LinkState.auth_fail = false
state_eq LinkState.connecting LinkState.link_error = false
state_eq LinkState.connected LinkState.off = false
state_eq LinkState.connected LinkState.connecting = false
state_eq LinkState.connected LinkState.connected = true
state_eq LinkState.connected LinkState.auth_fail = false
state_eq LinkState.connected LinkState.link_error = false
state_eq LinkState.auth_fail LinkState.off = false
state_eq LinkState.auth_fail LinkState.connecting = false
state_eq LinkState.auth_fail LinkState.connected = false
state_eq LinkState.auth_fail LinkState.auth_fail = true
state_eq LinkState.auth_fail LinkState.link_error = false
state_eq LinkState.link_error LinkState.off = false
state_eq LinkState.link_error LinkState.connecting = false
state_eq LinkState.link_error LinkState.connected = false
state_eq LinkState.link_error LinkState.auth_fail = false
state_eq LinkState.link_error LinkState.link_error = true

-- Connecting, or waiting behind a failure.
abbrev pub is_trying : LinkState → Bool
is_trying LinkState.off = false
is_trying LinkState.connecting = true
is_trying LinkState.connected = false
is_trying LinkState.auth_fail = true
is_trying LinkState.link_error = true

-- The state that a status other than connected is shown as.
abbrev pub shown_as : LinkStatus → LinkState
shown_as LinkStatus.no_ssid_avail = LinkState.link_error
shown_as LinkStatus.connect_failed = LinkState.auth_fail
shown_as LinkStatus.is_connected = LinkState.connecting
shown_as LinkStatus.other_status = LinkState.connecting

abbrev pub has_link : LinkStatus → Bool
has_link LinkStatus.is_connected = true
has_link LinkStatus.no_ssid_avail = false
has_link LinkStatus.connect_failed = false
has_link LinkStatus.other_status = false

-- Doubled up to the cap; zero is floored.
unfoldable pub next_backoff : ℕ → ℕ
next_backoff backoff =
    let doubled = if backoff == 0 then backoff_start_ms else backoff * 2 % 2 ^ 32 in
    let grown = if ltb backoff backoff_max_ms then doubled else backoff in
    if ltb backoff_max_ms grown then backoff_max_ms else grown

module _ {R S W : Type 0} (ports : Ports R S) (stack : Stack W) (first_sink : ℕ) where
  abbrev pub client_at : Wifi R S W → ℕ → Client
  client_at w i = get_or w.clients i no_client

  unfoldable pub usable : Wifi R S W → Bool
  usable w = w.settings.wifi_enabled && not (get_or w.settings.wifi_ssid 0 0 == 0)

  -- Only transitions push.
  unfoldable pub set_state : Wifi R S W → LinkState → Wifi R S W
  set_state w s =
      if state_eq w.state s
      then w
      else record w { state = s; proc = on_wifi_state_changed ports w.proc }

  unfoldable pub drop_client : Wifi R S W → ℕ → Wifi R S W
  drop_client w i =
      let c = client_at w i in
      if not c.in_use then w else record w {
        proc = remove_sink w.proc (first_sink + i);
        stack = stack.close w.stack c.socket;
        clients = set w.clients i (record c { in_use = false });
        num_clients = w.num_clients - 1;
      }

  -- There is a server object exactly while `server_up`.
  unfoldable pub stop_server : Wifi R S W → Wifi R S W
  stop_server w =
      let dropped = foldl drop_client w (0 ∷ 1 ∷ 2 ∷ 3 ∷ []) in
      record dropped {
        stack = stack.silence (if w.server_up then stack.unlisten dropped.stack else dropped.stack);
        server_up = false;
      }

  unfoldable pub start_server : Wifi R S W → Wifi R S W
  start_server w =
      let stopped = stop_server w in
      record stopped {
        stack = stack.announce (stack.listen stopped.stack stopped.port) stopped.port;
        server_up = true;
      }

  unfoldable pub connect_start : Wifi R S W → ℕ → Wifi R S W
  connect_start w now =
      let told = set_state w LinkState.connecting in
      let started = stack.start_station told.stack in
      record told {
        stack = stack.join started w.settings.wifi_ssid w.settings.wifi_password;
        last_attempt_ms = now;
        backoff_ms = backoff_start_ms;
      }

  unfoldable pub disconnect : Wifi R S W → Wifi R S W
  disconnect w = set_state (record w { stack = stack.leave w.stack }) LinkState.off

  unfoldable pub apply : Wifi R S W → DeviceSettings → ℕ → Wifi R S W
  apply w settings now =
      let credentials_changed =
        not (strcmp_eq w.settings.wifi_ssid settings.wifi_ssid)
        || not (strcmp_eq w.settings.wifi_password settings.wifi_password) in
      let new_port = if settings.wifi_port == 0 then wifi_port_default else settings.wifi_port in
      let port_changed = not (new_port == w.port) in
      let taken = record w {
        settings = record settings { wifi_port = new_port };
        port = new_port;
      } in
      if not (usable taken)
      then (if w.settings.wifi_enabled then disconnect (stop_server taken) else taken)
      else if not w.settings.wifi_enabled || credentials_changed
      then connect_start (disconnect (stop_server taken)) now
      else if port_changed && w.server_up
      then start_server taken
      else taken

  -- The link was lost while it was up.
  unfoldable pub lose_link : Wifi R S W → ℕ → Wifi R S W
  lose_link w now = record (set_state (stop_server w) LinkState.connecting) {
    last_attempt_ms = now;
    backoff_ms = backoff_start_ms;
  }

  unfoldable pub gain_link : Wifi R S W → Wifi R S W
  gain_link w =
      let served = if w.server_up then w else start_server w in
      set_state (record served { backoff_ms = 0 }) LinkState.connected

  -- Still no link: another attempt when the back-off is over.
  unfoldable pub retry_link : Wifi R S W → LinkStatus → ℕ → Wifi R S W
  retry_link w status now =
      let told = set_state w (shown_as status) in
      let again = record told {
        last_attempt_ms = now;
        backoff_ms = next_backoff told.backoff_ms;
        stack = stack.join told.stack told.settings.wifi_ssid told.settings.wifi_password;
      } in
      if leb told.backoff_ms ((now + 2 ^ 32 - told.last_attempt_ms) % 2 ^ 32) then again else told

  -- The part of `pump` in front of the clients: one reading of the status.
  unfoldable pub drive_link : Wifi R S W → ℕ → Wifi R S W
  drive_link w now =
      let (next, status) = stack.status w.stack in
      let asked = record w { stack = next } in
      if not (usable w)
      then w
      else if state_eq w.state LinkState.connected && not (has_link status)
      then lose_link asked now
      else if not (is_trying w.state)
      then asked
      else if has_link status
      then gain_link asked
      else retry_link asked status now
