-- ===== src/Transports/Wifi/Clients.antt =====
-- The TCP clients of `WifiTransport` (src/wifi_transport.cpp): `Client::send_frame`,
-- `accept_clients`, `pump_clients` and `fill_status`. A client's socket is a number that stands for
-- its `WiFiClient`.
pub mod Sending
pub mod Slots
mod Tests
pub mod Kept
pub mod Lasting
pub mod Turns
pub mod Startup
use meshpigeon_firmware.Prelude.{
  ℕ, zero, suc, ◌+◌, ◌-◌, ◌%◌, ◌^◌, List, [], ◌∷◌, Bool, true, false, ◌&&◌, ◌||◌, not, Option, none,
  some, ltb, leb, ◌==◌, if◌then◌else◌, length, take, drop, set, is_empty,
}
use meshpigeon_firmware.Framing.Frame.{frame_encode_envelope}
use meshpigeon_firmware.Framing.Reader.{Fed, reset, feed, has_frame, frame_max_drain}
use meshpigeon_firmware.Settings.Text.{ssid_max, copy_str}
use meshpigeon_firmware.Settings.Device.{DeviceSettings}
use meshpigeon_firmware.Processor.Message.{Ports, Event, Status}
use meshpigeon_firmware.Processor.State.{Processor, max_sinks, add_sink}
use meshpigeon_firmware.Processor.Handle.{on_envelope}
use meshpigeon_firmware.Transports.Wifi.{
  LinkState, Stack, Client, Wifi, max_clients, usable, client_at, drop_client, apply, drive_link,
}

-- The answer of a send that does not block: `took` says how many bytes went into the window,
-- `again` is EAGAIN or EWOULDBLOCK, `failed` any other error.
pub data Sent : Type 0 where
  took : ℕ → Sent
  again : Sent
  failed : Sent

-- The TCP calls of the stack, with states in `W`. `accept` gives the socket of a client that waits;
-- `read` a byte, where one is available.
pub record Tcp (W : Type 0) : Type 0 where
  pub accept : W → W × Option ℕ
  pub keep_alive : W → ℕ → W
  pub read : W → ℕ → Option (ℕ × W)
  pub connected : W → ℕ → Bool
  pub send : W → ℕ → List ℕ → W × Sent
  pub delay : W → W
  pub millis : W → ℕ
  pub ssid : W → List ℕ
  pub local_ip : W → List ℕ
  pub rssi : W → ℕ

-- kWriteBudgetMs
abbrev pub write_budget_ms : ℕ
write_budget_ms = 250

abbrev pub bytes_taken : Sent → ℕ
bytes_taken (Sent.took n) = n
bytes_taken Sent.again = 0
bytes_taken Sent.failed = 0

abbrev pub is_failed : Sent → Bool
is_failed (Sent.took n) = false
is_failed Sent.again = false
is_failed Sent.failed = true

-- The first slot that no client has.
unfoldable pub first_hole : ℕ → List Client → Option ℕ
first_hole i [] = none
first_hole i (c ∷ cs) = let rest = first_hole (i + 1) cs in if c.in_use then rest else some i

-- The value of Status.wifi_state (protobufs/meshpigeon/device.proto).
abbrev pub wifi_state_of : LinkState → ℕ
wifi_state_of LinkState.off = 1
wifi_state_of LinkState.connecting = 2
wifi_state_of LinkState.connected = 3
wifi_state_of LinkState.auth_fail = 4
wifi_state_of LinkState.link_error = 5

module _ {W : Type 0} (tcp : Tcp W) where
  -- Has the frame that began at `start` used up its time?
  unfoldable pub out_of_time : W → ℕ → Bool
  out_of_time w start = leb write_budget_ms ((tcp.millis w + 2 ^ 32 - start) % 2 ^ 32)

  -- The rest of a frame, and what of it did not go out. The fuel is the bytes and the milliseconds
  -- that are left.
  unfoldable pub write_loop : ℕ → W → ℕ → ℕ → List ℕ → W × List ℕ
  write_loop zero w socket start rest = (w, rest)
  write_loop (suc fuel) w socket start rest =
      let (v, answer) = tcp.send w socket rest in
      let n = bytes_taken answer in
      let advanced = write_loop fuel v socket start (drop n rest) in
      let waited = write_loop fuel (tcp.delay v) socket start rest in
      if is_empty rest
      then (w, rest)
      else if leb 1 n
      then advanced
      else if is_failed answer || out_of_time v start
      then (v, rest)
      else waited

  unfoldable pub write_wire : W → ℕ → List ℕ → W × List ℕ
  write_wire w socket wire =
      write_loop (length wire + write_budget_ms + 1) w socket (tcp.millis w) wire

module _ {R S W : Type 0} (ports : Ports R S) (stack : Stack W) (tcp : Tcp W) (first_sink : ℕ) where
  -- A client whose frame did not go out whole is flagged.
  unfoldable pub send_frame : Wifi R S W → ℕ → List ℕ → Wifi R S W
  send_frame w i decoded =
      let c = client_at ports stack first_sink w i in
      let (v, rest) = write_wire tcp w.stack c.socket (frame_encode_envelope decoded) in
      record w {
        stack = v;
        clients = set w.clients i (record c { broken = if is_empty rest then c.broken else true });
      }

  abbrev pub close : Wifi R S W → ℕ → Wifi R S W
  close w socket = record w { stack = stack.close w.stack socket }

  -- A free slot for a client: nothing of the slot's last one is left in it.
  unfoldable pub admit : Wifi R S W → ℕ → ℕ → Wifi R S W
  admit w i socket =
      let sink = first_sink + i in
      let old = client_at ports stack first_sink w i in
      let closed = record w.proc {
        authenticated = λ s. if s == sink then false else w.proc.authenticated s;
      } in
      let (added, joined) = add_sink closed sink in
      let fresh : Client = record {
        socket = socket;
        reader = reset;
        in_use = true;
        broken = false;
      } in
      let kept = stack.close (tcp.keep_alive w.stack socket) old.socket in
      if added
      then record w {
        proc = joined;
        stack = kept;
        clients = set w.clients i fresh;
        num_clients = w.num_clients + 1;
      }
      else record w {
        proc = joined;
        stack = stack.close kept socket;
        clients = set w.clients i (record fresh { in_use = false });
      }

  -- A client is turned away where the registry or the slots are full.
  unfoldable pub accept_clients : Wifi R S W → Wifi R S W
  accept_clients w =
      let (v, came) = tcp.accept w.stack in
      let asked = record w { stack = v } in
      if not w.server_up then w else elim came [
        | none ↦ asked
        | some socket ↦ elim (first_hole 0 w.clients) [
          | none ↦ close asked socket
          | some i ↦
              if leb max_sinks (length w.proc.sinks)
              then close asked socket
              else admit asked i socket
        ]
      ]

  -- The frames of a log that are for the clients, in order, on their sockets.
  unfoldable pub write_frames : Wifi R S W → List Event → Wifi R S W
  write_frames w [] = w
  write_frames w (Event.frame to buf ∷ events) =
      write_frames
        (if leb first_sink to && ltb to (first_sink + max_clients)
          then send_frame w (to - first_sink) buf
          else w)
        events
  write_frames w (Event.wifi_applied d ∷ events) = write_frames w events
  write_frames w (Event.named name ∷ events) = write_frames w events
  write_frames w (Event.rebooted ∷ events) = write_frames w events
  write_frames w (Event.rebooted_to_bootloader ∷ events) = write_frames w events
  write_frames w (Event.reset_to_factory ∷ events) = write_frames w events

  -- The pushes that a call on the link made while it went from `before` to `after`. They are written
  -- behind the call, to the clients that it left.
  unfoldable pub tell : Wifi R S W → Wifi R S W → Wifi R S W
  tell before after = write_frames after (drop (length before.proc.out) after.proc.out)

  abbrev pub apply_told : Wifi R S W → DeviceSettings → ℕ → Wifi R S W
  apply_told w d now = tell w (apply ports stack first_sink w d now)

  -- What a handler has asked for, in the order of its calls: a frame goes out on the socket of its
  -- client, new Wi-Fi settings are applied. A frame behind these finds the socket closed, where the
  -- change ended the client. What is not this transport's stays in the log.
  unfoldable pub carry_out : Wifi R S W → List Event → Wifi R S W
  carry_out w [] = w
  carry_out w (Event.frame to buf ∷ events) =
      carry_out
        (if leb first_sink to && ltb to (first_sink + max_clients)
          then send_frame w (to - first_sink) buf
          else w)
        events
  carry_out w (Event.wifi_applied d ∷ events) =
      carry_out (apply_told w d (tcp.millis w.stack)) events
  carry_out w (Event.named name ∷ events) = carry_out w events
  carry_out w (Event.rebooted ∷ events) = carry_out w events
  carry_out w (Event.rebooted_to_bootloader ∷ events) = carry_out w events
  carry_out w (Event.reset_to_factory ∷ events) = carry_out w events

  unfoldable pub take_envelope : Wifi R S W → ℕ → List ℕ → Wifi R S W
  take_envelope w i bytes =
      let handled = on_envelope ports w.proc bytes (first_sink + i) in
      carry_out (record w { proc = handled }) (drop (length w.proc.out) handled.out)

  abbrev pub put_client : Wifi R S W → ℕ → Client → Wifi R S W
  put_client w i c = record w { clients = set w.clients i c }

  -- `drain_frames` on a socket: an envelope may close it.
  unfoldable pub drain_socket : ℕ → Wifi R S W → ℕ → Wifi R S W
  drain_socket zero w i = w
  drain_socket (suc budget) w i =
      let c = client_at ports stack first_sink w i in
      elim (tcp.read w.stack c.socket) [
        | none ↦ w
        | some (byte, v) ↦
            let fed = feed c.reader byte in
            let read = put_client (record w { stack = v }) i (record c { reader = fed.reader }) in
            drain_socket budget
              (if has_frame fed.ret
                then take_envelope read i (take fed.ret fed.frame_out)
                else read)
              i
      ]

  unfoldable pub pump_client : Wifi R S W → ℕ → Wifi R S W
  pump_client w i =
      let c = client_at ports stack first_sink w i in
      let drained = if c.broken then w else drain_socket frame_max_drain w i in
      let after = client_at ports stack first_sink drained i in
      if not c.in_use
      then w
      else if after.broken || not (tcp.connected drained.stack after.socket)
      then drop_client ports stack first_sink drained i
      else drained

  unfoldable pub pump_clients : Wifi R S W → Wifi R S W
  pump_clients w = pump_client (pump_client (pump_client (pump_client w 0) 1) 2) 3

  unfoldable pub pump : Wifi R S W → ℕ → Wifi R S W
  pump w now =
      if not (usable ports stack first_sink w)
      then w
      else pump_clients (accept_clients (tell w (drive_link ports stack first_sink w now)))

  -- The fields that the transport has of Status.
  unfoldable pub fill_status : Wifi R S W → Status → Status
  fill_status w status =
      let up = record status {
        wifi_state = wifi_state_of w.state;
        wifi_ssid = copy_str (ssid_max + 1) (tcp.ssid w.stack);
        wifi_ipv4 = take 4 (tcp.local_ip w.stack);
        wifi_port = w.port;
        wifi_rssi = tcp.rssi w.stack;
      } in
      let down = record status {
        wifi_state = wifi_state_of w.state;
        wifi_ssid = set status.wifi_ssid 0 0;
        wifi_ipv4 = [];
        wifi_port = w.port;
        wifi_rssi = 0;
      } in
      elim w.state [
        | LinkState.connected ↦ up
        | LinkState.off ↦ down
        | LinkState.connecting ↦ down
        | LinkState.auth_fail ↦ down
        | LinkState.link_error ↦ down
      ]
