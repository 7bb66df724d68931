-- ===== src/Transports/NrfBle/Backlog.antt =====
-- How long the transport waits, and what becomes of a backlog.
use meshpigeon_firmware.Prelude.{
  All-get_or, ℕ, zero, suc, ◌+◌, ◌-◌, ◌%◌, ◌≤◌, ◌<◌, ◌≡◌, refl, ap, ◌∙◌, List, true, false, ◌||◌,
  not, arith, ◌==◌, length, length-append, length-take, take, drop, length-drop, get_or, min, All,
  Bool-cases, inl, inr, ◌⊎◌,
}
use meshpigeon_firmware.Transports.NrfBle.{
  Uart, Queued, NrfBle, queue_depth, chunk_max, empty_slot, connected, delay, advance, drain_step,
  room_loop, make_room, left_over, flush_loop, flush,
}
use meshpigeon_firmware.Transports.NrfBle.Ring.{
  IsQueued, IsRing, bytes_from, pending, advance-pending,
}
use meshpigeon_firmware.Transports.NrfBle.Stream.{
  IsUart, next_bytes, write_fits, drain_step-stream, delay-pending,
}

module _ {U : Type 0} (uart : Uart U) where
  -- The first write of the wait.
  abbrev pub first_write : NrfBle U → ℕ
  first_write s =
      let q = get_or s.queue s.head empty_slot in
      (uart.write s.uart (take (min (q.len - q.off) chunk_max) (drop q.off q.buf))).1

  -- A full ring whose front frame does not fit one write: the link takes some of it, and the whole
  -- backlog is thrown away, the frame that was begun included.
  pub make_room_discards :
      (s : NrfBle U)
      → connected uart s ≡ true
      → s.count ≡ queue_depth
      → 1 ≤ first_write s
      → (get_or s.queue s.head empty_slot).off + first_write s
        < (get_or s.queue s.head empty_slot).len
      → (make_room uart s).count ≡ 0
  unfolding make_room room_loop drain_step advance
  make_room_discards s here full taken more =
      let q = get_or s.queue s.head empty_slot in
      let some_taken : (first_write s == 0) ≡ false = ground (arith, taken) in
      let not_out : (q.off + first_write s == q.len) ≡ false = ground (arith, more) in
      rw (here, full, some_taken, not_out) refl

module _ {U : Type 0} (uart : Uart U) (sent : U → List ℕ) (law : IsUart U uart sent) where
  -- A step that drained something leaves less to send, and one that did not, as much.
  drain_step-pending :
      (s : NrfBle U)
      → IsRing U s
      → (((drain_step uart s).1 ≡ true)
          × (length (pending (drain_step uart s).0) < length (pending s)))
        ⊎ (((drain_step uart s).1 ≡ false) × (pending (drain_step uart s).0 ≡ pending s))
  unfolding drain_step
  drain_step-pending s ring =
      let q = get_or s.queue s.head empty_slot in
      let bytes = next_bytes uart sent law s in
      let w = (uart.write s.uart bytes).1 in
      let asked = record s { uart = (uart.write s.uart bytes).0 } in
      let (below, fits, most) = write_fits uart sent law s ring in
      elim (Bool-cases (not (connected uart s) || s.count == 0)) [
        | inl idle ↦ rw idle (inr (refl, refl))
        | inr ready ↦ elim (Bool-cases (w == 0)) [
          | inl none_taken ↦ rw (ready, none_taken) (inr (refl, refl))
          | inr taken ↦
              let some_left : 1 ≤ s.count = ground (arith, ready) in
              let ring' : IsRing U asked = record {
                slots = ring.slots;
                head_in = ring.head_in;
                fits = ring.fits;
                queued = ring.queued;
              } in
              let (kept, cut, same) = advance-pending uart asked w ring' some_left fits in
              let sizes : length (pending s)
                  ≡ length (take w (drop q.off q.buf)) + length (pending (advance uart asked w)) =
                ap length cut ∙ length-append (take w (drop q.off q.buf)) _ in
              let some_taken : 1 ≤ w = ground (arith, taken) in
              rw (ready, taken)
                (inl (
                  refl,
                  omega (arith, sizes, length-take {0} w (drop q.off q.buf), most, some_taken),
                ))
        ]
      ]

  flush_loop_idle :
      (fuel waiting : ℕ) (s : NrfBle U) → waiting ≡ 0 → flush_loop uart fuel waiting s ≡ s
  unfolding flush_loop
  flush_loop_idle zero waiting s h = refl
  flush_loop_idle (suc fuel) waiting s h = elim (Bool-cases (s.count == 0)) [
    | inl e ↦ rw e refl
    | inr e ↦ rw (e, h) refl
  ]

  flush_loop_fuel :
      (fuel more waiting : ℕ) (s : NrfBle U)
      → IsRing U s
      → length (pending s) + waiting ≤ fuel
      → flush_loop uart (fuel + more) waiting s ≡ flush_loop uart fuel waiting s
  unfolding flush_loop
  flush_loop_fuel zero more waiting s ring enough =
      let none_left : waiting ≡ 0 = omega arith in flush_loop_idle (0 + more) waiting s none_left
  flush_loop_fuel (suc fuel) more waiting s ring enough =
      let tried = (drain_step uart s).0 in
      let one : suc fuel + more ≡ suc (fuel + more) = omega arith in
      let kept = (drain_step-stream uart sent law s ring).0 in
      let (later, same, _) = delay-pending uart sent law tried kept in
      ap (λ (n : ℕ). flush_loop uart n waiting s) one
      ∙ elim (Bool-cases (s.count == 0 || waiting == 0)) [
        | inl done ↦ rw done refl
        | inr going ↦ elim (drain_step-pending s ring) [
          | inl (drained, fewer) ↦
              rw (going, drained)
                (flush_loop_fuel fuel more waiting tried kept (omega (arith, enough, fewer)))
          | inr (stuck, as_many) ↦
              let some_wait : 1 ≤ waiting = ground (arith, going) in
              rw (going, stuck)
                (flush_loop_fuel fuel more (waiting - 1) (delay uart tried) later
                  (omega (arith, enough, some_wait, ap (length {A = ℕ}) (same ∙ as_many))))
        ]
      ]

  length-bytes_from :
      (queue : List Queued) (i n : ℕ)
      → All IsQueued queue
      → left_over queue i n ≡ length (bytes_from queue i n)
  unfolding left_over bytes_from
  length-bytes_from queue i zero h = refl
  length-bytes_from queue i (suc n) h =
      let q = get_or queue i empty_slot in
      let sound =
        All-get_or IsQueued queue i empty_slot h (record { whole = refl; inside = omega arith }) in
      omega (
        arith,
        length-bytes_from queue ((i + 1) % queue_depth) n h,
        length-append (drop q.off q.buf) (bytes_from queue ((i + 1) % queue_depth) n),
        length-drop {0} q.off q.buf,
        sound.whole,
      )

  -- `flush` ends: each round sends a byte or uses up a millisecond, so the bytes that wait and the
  -- milliseconds are enough fuel, and more changes nothing.
  pub flush_ends :
      (timeout_ms more : ℕ) (s : NrfBle U)
      → IsRing U s
      → flush_loop uart (left_over s.queue s.head s.count + timeout_ms + more) timeout_ms s
        ≡ flush uart timeout_ms s
  unfolding flush
  flush_ends timeout_ms more s ring =
      flush_loop_fuel (left_over s.queue s.head s.count + timeout_ms) more timeout_ms s ring
        (omega (arith, length-bytes_from s.queue s.head s.count ring.queued))
