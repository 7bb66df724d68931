-- ===== src/Transports/Tests.antt =====
-- The transports on concrete links.
use meshpigeon_firmware.Prelude.{
  ℕ, zero, suc, ◌+◌, ◌-◌, ◌^◌, ◌≤◌, ◌<◌, ◌≡◌, refl, sym, ap, ◌⊎◌, inl, List, [], ◌∷◌, ◌++◌, true,
  false, none, some, arith, length, take-length, replicate, All, ◌==◌,
}
use meshpigeon_firmware.Store.{create}
use meshpigeon_firmware.Settings.Radio.{unset}
use meshpigeon_firmware.Settings.Text.{strcmp_eq}
use meshpigeon_firmware.Settings.Device.{defaults, pin_is_default}
use meshpigeon_firmware.Framing.Frame.{frame_encode_envelope}
use meshpigeon_firmware.Framing.Reader.{reset}
use meshpigeon_firmware.Processor.Message.{Ports, Op, ErrorCode}
use meshpigeon_firmware.Processor.State.{Processor}
use meshpigeon_firmware.Processor.Reply.{send_error}
use meshpigeon_firmware.Processor.Handle.{handle_request}
use meshpigeon_firmware.Processor.Gate.{is_gated}
use meshpigeon_firmware.Transports.NrfBle.{
  Uart, Queued, NrfBle, queue_depth, drain_wait_ms, connected, room_loop, make_room, send_frame,
  left_over, flush_loop, flush,
}
use meshpigeon_firmware.Transports.NrfBle.Ring.{IsQueued, IsRing, pending}
use meshpigeon_firmware.Transports.NrfBle.Stream.{IsUart, stream}
use meshpigeon_firmware.Transports.NrfBle.Send.{send_frame-stream}
use meshpigeon_firmware.Transports.NrfBle.Backlog.{make_room_discards, flush_ends}
use meshpigeon_firmware.Transports.NrfBle.Pump.{forget_central, pump, pump-drop_pending}
use meshpigeon_firmware.Transports.RxFifo.{RxFifo, available}
use meshpigeon_firmware.Transports.RxFifo.Fifo.{
  bytes_at, Represents, Call, run_ring, run_queue, run_ring-run_queue,
}
use meshpigeon_firmware.Transports.EspBle.{
  EspBle, max_centrals, no_connection, slot, first_free, claim, on_connect,
}
use meshpigeon_firmware.Transports.EspBle.Slots
use meshpigeon_firmware.Transports.EspBle.Slots.{Reach, on_connect_fresh}
use meshpigeon_firmware.Transports.EspBle.Notify
use meshpigeon_firmware.Transports.EspBle.Notify.{
  Notified, Host, max_chunk, IsHost, FrontOf, send_frame-FrontOf,
}

-- A link that takes all that it is given, and remembers it.
abbrev eager : Uart (List ℕ)
eager = record {
  write = λ u bytes. (u ++ bytes, length bytes);
  connected = λ u. true;
  delay = λ u. (u, none);
}

eager-IsUart : IsUart (List ℕ) eager (λ u. u)
eager-IsUart = record {
  takes = λ u bytes. omega arith;
  sends = λ u bytes. ap (◌++◌ u) (sym (take-length bytes));
  waits = λ u. refl;
}

abbrev long_frame : Queued
long_frame = record { len = 30; off = 0; buf = replicate 30 7 }

abbrev ring_of : Queued → ℕ → NrfBle (List ℕ)
ring_of q count = record {
  uart = [];
  queue = replicate 16 q;
  head = 3;
  count = count;
  is_connected = true;
  drop_pending = false;
  reader = reset;
  rx = [];
}

All-replicate : (n : ℕ) (q : Queued) → IsQueued q → All IsQueued (replicate n q)
All-replicate zero q h = tt
All-replicate (suc n) q h = (h, All-replicate n q h)

ring_of-IsRing :
    (q : Queued) (count : ℕ) → IsQueued q → count ≤ 16 → IsRing (List ℕ) (ring_of q count)
ring_of-IsRing q count h k = record {
  slots = refl;
  head_in = omega arith;
  fits = k;
  queued = All-replicate 16 q h;
}

make_room_discards_example : (make_room eager (ring_of long_frame 16)).count ≡ 0
unfolding connected
make_room_discards_example =
    make_room_discards eager (ring_of long_frame 16) refl refl (omega arith) (omega arith)

send_frame-stream_example :
    let s = ring_of long_frame 2 in
    let waited = room_loop eager drain_wait_ms s in
    let q = send_frame eager s (5 ∷ 6 ∷ []) in
    let wire = frame_encode_envelope (5 ∷ 6 ∷ []) in
    IsRing (List ℕ) q
    × (((connected eager s ≡ false) × (q ≡ s))
        ⊎ (((waited.count < queue_depth)
              × (stream eager (λ u. u) eager-IsUart q
                  ≡ stream eager (λ u. u) eager-IsUart s ++ wire))
            ⊎ (((waited.count ≡ queue_depth) ⊎ (connected eager waited ≡ false))
                × (pending q ≡ wire))))
send_frame-stream_example =
    send_frame-stream eager (λ u. u) eager-IsUart (ring_of long_frame 2) (5 ∷ 6 ∷ [])
      (ring_of-IsRing long_frame 2 (record { whole = refl; inside = omega arith }) (omega arith))

flush_ends_example :
    let s = ring_of long_frame 2 in
    flush_loop eager (left_over s.queue s.head s.count + 100 + 7) 100 s ≡ flush eager 100 s
flush_ends_example =
    flush_ends eager (λ u. u) eager-IsUart 100 7 (ring_of long_frame 2)
      (ring_of-IsRing long_frame 2 (record { whole = refl; inside = omega arith }) (omega arith))

abbrev pub parts : Ports ℕ ℕ
parts = record {
  begin = λ r. (r, true);
  apply = λ r s. (r, true);
  transmit = λ r raw. (r, true);
  tx_done = λ r. (r, true);
  save = λ s t. s + 1;
  load = λ s. none;
  save_device = λ s d. s + 1;
  load_device = λ s. defaults;
  clear_device = λ s. s + 1;
  encode = λ r. r.id ∷ 1 ∷ [];
  decode = λ bytes. some (record { id = 4; op = Op.purge_store });
}

-- The PIN is "4321", and connection 1 has authenticated.
abbrev pub node : Processor ℕ ℕ
node = record {
  store = create 40;
  clock = record { last_ms = 400000; rollovers = 0; boot_count = 7 };
  settings_store = 0;
  radio = 0;
  hooks = none;
  board_name = replicate 17 0;
  fw_version = replicate 16 0;
  settings = unset;
  set_count_since_boot = 0;
  device = record defaults { pin = 52 ∷ 51 ∷ 50 ∷ 49 ∷ replicate 5 0 };
  radio_ok = true;
  noise_floor_dbm = 0;
  auth_fails = 0;
  auth_backoff_until = 0;
  tx_pending = false;
  tx_pending_seq = 0;
  sinks = 1 ∷ 2 ∷ [];
  authenticated = λ s. s == 1;
  out = [];
}

-- The link was lost with frames in the ring and a request in the receive buffer.
abbrev lost : NrfBle (List ℕ)
lost = record (ring_of long_frame 2) {
  drop_pending = true;
  rx = frame_encode_envelope (5 ∷ 6 ∷ []);
}

pump-drop_pending_example :
    let (q, t) = pump parts eager 1 (node, lost) in
    (q ≡ (forget_central parts eager 1 (node, lost)).0)
    × (t.rx ≡ [])
    × (t.reader ≡ reset)
    × (t.count ≡ 0)
    × (t.drop_pending ≡ false)
    × (handle_request parts q 9 Op.purge_store 1 ≡ send_error parts q 9 ErrorCode.auth_required 1)
unfolding pin_is_default strcmp_eq is_gated
pump-drop_pending_example =
    pump-drop_pending parts eager 1 node lost 9 Op.purge_store refl refl refl

-- The indices are about to wrap.
abbrev near_wrap : RxFifo
near_wrap = record { buf = replicate 512 0; head = 2 ^ 32 - 1; tail = 2 ^ 32 - 1 }

near_wrap-Represents : Represents near_wrap []
unfolding bytes_at
near_wrap-Represents = record {
  slots = refl;
  head_in = omega arith;
  tail_in = omega arith;
  size = omega arith;
  fits = omega arith;
  holds = refl;
}

run_ring-run_queue_example :
    let calls =
      Call.write_bytes (1 ∷ 2 ∷ 3 ∷ [])
      ∷ Call.read_byte
      ∷ Call.read_byte
      ∷ Call.clear_all
      ∷ Call.read_byte
      ∷ [] in
    ((run_ring calls near_wrap).0 ≡ (run_queue calls []).0)
    × Represents (run_ring calls near_wrap).1 (run_queue calls []).1
run_ring-run_queue_example =
    run_ring-run_queue
      (Call.write_bytes (1 ∷ 2 ∷ 3 ∷ [])
        ∷ Call.read_byte
        ∷ Call.read_byte
        ∷ Call.clear_all
        ∷ Call.read_byte
        ∷ [])
      near_wrap [] near_wrap-Represents

-- A host that takes every notification.
abbrev willing : Host (List ℕ)
willing = record {
  notify = λ u bytes. (u ++ bytes, Notified.taken);
  delay = λ u. u;
  mtu = λ u. 185;
}

willing-IsHost : IsHost (List ℕ) willing (λ u. u)
willing-IsHost = record { takes = λ u bytes. inl (refl, refl); waits = λ u. refl }

send_frame-FrontOf_example :
    ((true ≡ false) × (Notify.send_frame willing [] true (5 ∷ 6 ∷ []) ≡ []))
    ⊎ ((true ≡ true)
        × FrontOf willing
            (λ u. u)
            willing-IsHost
            []
            (max_chunk willing [])
            (frame_encode_envelope (5 ∷ 6 ∷ []))
            (Notify.send_frame willing [] true (5 ∷ 6 ∷ [])))
send_frame-FrontOf_example = send_frame-FrontOf willing (λ u. u) willing-IsHost [] true (5 ∷ 6 ∷ [])

abbrev three_free : EspBle ℕ ℕ
three_free = record { proc = node; conns = replicate 3 no_connection; calls = [] }

-- A central has come and authenticated before this one.
abbrev one_taken : EspBle ℕ ℕ
one_taken = on_connect parts 1 three_free 64

on_connect_fresh_example :
    let q = on_connect parts 1 one_taken 65 in
    let c = slot parts 1 q 1 in
    (1 < max_centrals)
    × (c.handle ≡ 65)
    × (c.in_use ≡ true)
    × (c.registered ≡ false)
    × (c.subscribed ≡ false)
    × (available c.rx ≡ 0)
    × (c.reader ≡ reset)
    × (q.proc.authenticated (1 + 1) ≡ false)
unfolding on_connect claim first_free
on_connect_fresh_example =
    on_connect_fresh parts 1 three_free one_taken 65 1
      (refl, (inl refl, (inl refl, (inl refl, tt))))
      (Reach.next Reach.here (Slots.Step.connected three_free 64)) refl
