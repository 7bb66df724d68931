-- ===== src/Transports/Wifi/Clients/Lasting.antt =====
-- What lasts over every sequence of settings changes, turns of the board loop and pushes.
use meshpigeon_firmware.Prelude.{
  ℕ, zero, suc, ◌+◌, ◌-◌, ◌<◌, ◌≡◌, refl, sym, ap, ◌∙◌, inl, inr, List, [], ◌∷◌, true, false, not,
  ◌&&◌, ◌||◌, arith, ltb, leb, ◌==◌, if◌then◌else◌, length, get_or, set, is_empty, Bool-cases,
  Option-cases, if_holds, if_false_holds, if_true_holds,
}
use meshpigeon_firmware.Framing.Frame.{frame_encode_envelope}
use meshpigeon_firmware.Framing.Reader.{reset, feed, has_frame, frame_max_drain}
use meshpigeon_firmware.Settings.Device.{DeviceSettings}
use meshpigeon_firmware.Processor.Message.{Ports, Event}
use meshpigeon_firmware.Processor.State.{Processor, max_sinks, add_sink}
use meshpigeon_firmware.Transports.Wifi.{
  Stack, Client, Wifi, max_clients, usable, no_client, client_at, drop_client, apply, drive_link,
}
use meshpigeon_firmware.Transports.Wifi.Clients.{
  Tcp, first_hole, write_wire, send_frame, admit, accept_clients, write_frames, tell, apply_told,
  carry_out, take_envelope, drain_socket, pump_client, pump_clients, pump,
}
use meshpigeon_firmware.Transports.Wifi.Clients.Kept.{first_hole_sound}

module _ {R S W : Type 0} (ports : Ports R S) (stack : Stack W) (first_sink : ℕ) (tcp : Tcp W) where
  -- The board applies new settings, pumps at some time, or pushes a frame to a client.
  pub data Turn : Wifi R S W → Wifi R S W → Type 0 where
    applied :
        (w : Wifi R S W) (d : DeviceSettings) (now : ℕ)
        → Turn w (apply_told ports stack tcp first_sink w d now)
    pumped : (w : Wifi R S W) (now : ℕ) → Turn w (pump ports stack tcp first_sink w now)
    pushed :
        (w : Wifi R S W) (i : ℕ) (decoded : List ℕ)
        → Turn w (send_frame ports stack tcp first_sink w i decoded)

  pub data Turns (w : Wifi R S W) : Wifi R S W → Type 0 where
    no_turn : Turns w w
    one_turn : {u v : Wifi R S W} → Turns w u → Turn u v → Turns w v

  -- A predicate on the transport that each of its calls keeps.
  pub record IsLasting (Q : Wifi R S W → Type 0) : Type 0 where
    pub applied :
        (w : Wifi R S W) (d : DeviceSettings) (now : ℕ)
        → Q w
        → Q (apply ports stack first_sink w d now)
    pub driven : (w : Wifi R S W) (now : ℕ) → Q w → Q (drive_link ports stack first_sink w now)
    pub dropped : (w : Wifi R S W) (i : ℕ) → Q w → Q (drop_client ports stack first_sink w i)
    pub moved :
        (w : Wifi R S W) (proc : Processor R S) (v : W)
        → Q w
        → Q (record w { proc = proc; stack = v })
    pub slot_kept :
        (w : Wifi R S W) (proc : Processor R S) (v : W) (i : ℕ) (c : Client)
        → c.in_use ≡ (client_at ports stack first_sink w i).in_use
        → Q w
        → Q (record w { proc = proc; stack = v; clients = set w.clients i c })
    pub admitted :
        (w : Wifi R S W) (proc : Processor R S) (v : W) (i : ℕ) (c : Client)
        → i < length w.clients
        → (client_at ports stack first_sink w i).in_use ≡ false
        → c.in_use ≡ true
        → w.server_up ≡ true
        → Q w
        → Q (record w {
          proc = proc;
          stack = v;
          clients = set w.clients i c;
          num_clients = w.num_clients + 1;
        })

module _ {R S W : Type 0} (ports : Ports R S) (stack : Stack W) (first_sink : ℕ) (tcp : Tcp W)
    (Q : Wifi R S W → Type 0) (law : IsLasting ports stack first_sink tcp Q) where
  send_frame_lasts :
      (w : Wifi R S W) (i : ℕ) (decoded : List ℕ)
      → Q w
      → Q (send_frame ports stack tcp first_sink w i decoded)
  unfolding send_frame
  send_frame_lasts w i decoded h =
      let c = client_at ports stack first_sink w i in
      let rest = (write_wire tcp w.stack c.socket (frame_encode_envelope decoded)).1 in
      law.slot_kept w w.proc (write_wire tcp w.stack c.socket (frame_encode_envelope decoded)).0 i
        (record c { broken = if is_empty rest then c.broken else true }) refl h

  admit_lasts :
      (w : Wifi R S W) (i socket : ℕ)
      → i < length w.clients
      → (client_at ports stack first_sink w i).in_use ≡ false
      → w.server_up ≡ true
      → Q w
      → Q (admit ports stack tcp first_sink w i socket)
  unfolding admit
  admit_lasts w i socket inside free up h =
      let fresh : Client = record {
        socket = socket;
        reader = reset;
        in_use = true;
        broken = false;
      } in
      let turned_away = record fresh { in_use = false } in
      let closed = record w.proc {
        authenticated = λ s. if s == first_sink + i then false else w.proc.authenticated s;
      } in
      let added = add_sink closed (first_sink + i) in
      let old = client_at ports stack first_sink w i in
      let kept = stack.close (tcp.keep_alive w.stack socket) old.socket in
      if_holds Q added.0 _ _ (law.admitted w added.1 kept i fresh inside free refl up h)
        (law.slot_kept w added.1 (stack.close kept socket) i turned_away (sym free) h)

  accept_lasts : (w : Wifi R S W) → Q w → Q (accept_clients ports stack tcp first_sink w)
  unfolding accept_clients
  accept_lasts w h =
      let asked = record w { stack = (tcp.accept w.stack).0 } in
      let looked : Q asked = law.moved w w.proc (tcp.accept w.stack).0 h in
      elim (Bool-cases w.server_up) [
        | inr down ↦ if_true_holds Q (not w.server_up) _ _ (ap not down) h
        | inl up ↦
            if_false_holds Q (not w.server_up) _ _ (ap not up)
              (elim (Option-cases (tcp.accept w.stack).1) [
                | inl nobody ↦ rw nobody looked
                | inr (socket, came) ↦ elim (Option-cases (first_hole 0 w.clients)) [
                  | inl full ↦ rw (came, full) (law.moved asked _ _ looked)
                  | inr (i, hole) ↦
                      let (n, same, inside, free) = first_hole_sound 0 w.clients i hole in
                      let at : n ≡ i = omega (arith, same) in
                      rw (came, hole)
                        (if_holds Q (leb max_sinks (length w.proc.sinks)) _ _
                          (law.moved asked _ _ looked)
                          (admit_lasts asked i socket (omega (arith, inside, at))
                            (ap (λ (j : ℕ). (get_or w.clients j no_client).in_use) (sym at) ∙ free)
                            up looked))
                ]
              ])
      ]

  write_frames_lasts :
      (events : List Event) (w : Wifi R S W)
      → Q w
      → Q (write_frames ports stack tcp first_sink w events)
  unfolding write_frames
  write_frames_lasts [] w h = h
  write_frames_lasts (Event.frame to buf ∷ events) w h = write_frames_lasts events _ (
      if_holds Q (leb first_sink to && ltb to (first_sink + max_clients)) _ _
        (send_frame_lasts w (to - first_sink) buf h) h)
  write_frames_lasts (Event.wifi_applied d ∷ events) w h = write_frames_lasts events w h
  write_frames_lasts (Event.named name ∷ events) w h = write_frames_lasts events w h
  write_frames_lasts (Event.rebooted ∷ events) w h = write_frames_lasts events w h
  write_frames_lasts (Event.rebooted_to_bootloader ∷ events) w h = write_frames_lasts events w h
  write_frames_lasts (Event.reset_to_factory ∷ events) w h = write_frames_lasts events w h

  tell_lasts : (w v : Wifi R S W) → Q v → Q (tell ports stack tcp first_sink w v)
  unfolding tell
  tell_lasts w v h = write_frames_lasts _ v h

  apply_lasts :
      (w : Wifi R S W) (d : DeviceSettings) (now : ℕ)
      → Q w
      → Q (apply_told ports stack tcp first_sink w d now)
  apply_lasts w d now h = tell_lasts w _ (law.applied w d now h)

  carry_out_lasts :
      (events : List Event) (w : Wifi R S W)
      → Q w
      → Q (carry_out ports stack tcp first_sink w events)
  unfolding carry_out
  carry_out_lasts [] w h = h
  carry_out_lasts (Event.frame to buf ∷ events) w h = carry_out_lasts events _ (
      if_holds Q (leb first_sink to && ltb to (first_sink + max_clients)) _ _
        (send_frame_lasts w (to - first_sink) buf h) h)
  carry_out_lasts (Event.wifi_applied d ∷ events) w h =
      carry_out_lasts events _ (apply_lasts w d (tcp.millis w.stack) h)
  carry_out_lasts (Event.named name ∷ events) w h = carry_out_lasts events w h
  carry_out_lasts (Event.rebooted ∷ events) w h = carry_out_lasts events w h
  carry_out_lasts (Event.rebooted_to_bootloader ∷ events) w h = carry_out_lasts events w h
  carry_out_lasts (Event.reset_to_factory ∷ events) w h = carry_out_lasts events w h

  drain_lasts :
      (budget : ℕ) (w : Wifi R S W) (i : ℕ)
      → Q w
      → Q (drain_socket ports stack tcp first_sink budget w i)
  unfolding drain_socket take_envelope
  drain_lasts zero w i h = h
  drain_lasts (suc budget) w i h =
      let c = client_at ports stack first_sink w i in
      elim (Option-cases (tcp.read w.stack c.socket)) [
        | inl dry ↦ rw (dry, drain_socket) h
        | inr ((byte, v), read) ↦
            let fed = feed c.reader byte in
            let k = law.slot_kept w w.proc v i (record c { reader = fed.reader }) refl h in
            rw (read, drain_socket)
              (drain_lasts budget _ i
                (if_holds Q (has_frame fed.ret) _ _ (carry_out_lasts _ _ (law.moved _ _ _ k)) k))
      ]

  pump_client_lasts :
      (w : Wifi R S W) (i : ℕ) → Q w → Q (pump_client ports stack tcp first_sink w i)
  unfolding pump_client
  pump_client_lasts w i h =
      let c = client_at ports stack first_sink w i in
      let drained =
        if c.broken then w else drain_socket ports stack tcp first_sink frame_max_drain w i in
      let k : Q drained = if_holds Q c.broken _ _ h (drain_lasts frame_max_drain w i h) in
      let after = client_at ports stack first_sink drained i in
      if_holds Q (not c.in_use) _ _ h (
        if_holds Q (after.broken || not (tcp.connected drained.stack after.socket)) _ _
          (law.dropped drained i k) k)

  pump_lasts : (w : Wifi R S W) (now : ℕ) → Q w → Q (pump ports stack tcp first_sink w now)
  unfolding pump pump_clients
  pump_lasts w now h =
      let told = tell_lasts w _ (law.driven w now h) in
      let first = pump_client_lasts _ 1 (pump_client_lasts _ 0 (accept_lasts _ told)) in
      if_holds Q (not (usable ports stack first_sink w)) _ _ h
        (pump_client_lasts _ 3 (pump_client_lasts _ 2 first))

  pub Turns_last : (w v : Wifi R S W) → Q w → Turns ports stack first_sink tcp w v → Q v
  Turns_last w v h no_turn = h
  Turns_last w v h (one_turn run (applied u d now)) = apply_lasts u d now (Turns_last w u h run)
  Turns_last w v h (one_turn run (pumped u now)) = pump_lasts u now (Turns_last w u h run)
  Turns_last w v h (one_turn run (pushed u i decoded)) =
      send_frame_lasts u i decoded (Turns_last w u h run)
