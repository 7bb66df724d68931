-- ===== src/Transports/NrfBle/Send.antt =====
-- What `make_room` and `send_frame` of the nRF52 transport do to the stream of bytes to the central.
use meshpigeon_firmware.Prelude.{
  All-set, get_or-set_same, ℕ, suc, ◌+◌, ◌%◌, ◌<◌, ◌≡◌, refl, sym, subst, ap, ap₂, ◌∙◌, List, ◌++◌,
  append_assoc, true, false, not, arith, ◌==◌, if◌then◌else◌, length, length-set, drop, set, get_or,
  Bool-cases, ==_iff, inl, inr, ◌⊎◌,
}
use meshpigeon_firmware.Framing.Frame.{frame_encode_envelope}
use meshpigeon_firmware.Transports.NrfBle.{
  Uart, Queued, NrfBle, queue_depth, drain_wait_ms, empty_slot, connected, room_loop, make_room,
  send_frame,
}
use meshpigeon_firmware.Transports.NrfBle.Ring.{
  IsQueued, IsRing, bytes_from, pending, bytes_from-set, bytes_from_last,
}
use meshpigeon_firmware.Transports.NrfBle.Stream.{IsUart, stream, unnot, room_loop-stream}

module _ {U : Type 0} (uart : Uart U) (sent : U → List ℕ) (law : IsUart U uart sent) where
  -- The frame behind all that waits.
  abbrev behind : NrfBle U → List ℕ → NrfBle U
  behind r wire =
      let queued : Queued = record { len = length wire; off = 0; buf = wire } in
      record r {
        queue = set r.queue ((r.head + r.count) % queue_depth) queued;
        count = r.count + 1;
      }

  behind-pending :
      (r : NrfBle U) (wire : List ℕ)
      → IsRing U r
      → r.count < queue_depth
      → IsRing U (behind r wire) × (pending (behind r wire) ≡ pending r ++ wire)
  behind-pending r wire ring room =
      let queued : Queued = record { len = length wire; off = 0; buf = wire } in
      let slot = (r.head + r.count) % queue_depth in
      let one_more : r.count + 1 ≡ suc r.count = omega arith in
      let there : get_or (set r.queue slot queued) slot empty_slot ≡ queued =
        get_or-set_same r.queue slot queued empty_slot (omega (arith, ring.slots)) in
      (
        record {
          slots = length-set r.queue slot queued ∙ ring.slots;
          head_in = ring.head_in;
          fits = omega arith;
          queued =
              All-set IsQueued r.queue slot queued ring.queued
                (record { whole = refl; inside = omega arith });
        },
        ap (bytes_from (set r.queue slot queued) r.head) one_more
            ∙ bytes_from_last r.count r.head (set r.queue slot queued) ring.head_in
            ∙ ap₂ (λ (t : List ℕ) (g : Queued). t ++ drop g.off g.buf)
                (bytes_from-set r.count r.head r.count r.queue queued (omega arith) room
                  ring.head_in)
                there,
      )

  make_room_full :
      (s : NrfBle U)
      → ((room_loop uart drain_wait_ms s).count == queue_depth) ≡ true
      → make_room uart s ≡ record (room_loop uart drain_wait_ms s) { count = 0 }
  unfolding make_room
  make_room_full s full = rw full refl

  make_room_free :
      (s : NrfBle U)
      → ((room_loop uart drain_wait_ms s).count == queue_depth) ≡ false
      → make_room uart s ≡ room_loop uart drain_wait_ms s
  unfolding make_room
  make_room_free s room = rw room refl

  send_frame-make_room :
      (s r : NrfBle U) (decoded : List ℕ)
      → not (connected uart s) ≡ false
      → make_room uart s ≡ r
      → (r.count == queue_depth) ≡ false
      → send_frame uart s decoded ≡ behind r (frame_encode_envelope decoded)
  unfolding send_frame
  send_frame-make_room s r decoded here ready room =
      let wire = frame_encode_envelope decoded in
      let tail : NrfBle U → NrfBle U = λ x. if x.count == queue_depth then x else behind x wire in
      let last : tail r ≡ behind r wire = rw room refl in rw here (ap tail ready ∙ last)

  -- What a send does: with no central the frame is dropped; where the wait left room it goes behind
  -- all that waits; where the central went, or the ring is still full after the wait, all that
  -- waited is gone and the frame waits alone. The ring stays well-formed.
  pub send_frame-stream :
      (s : NrfBle U) (decoded : List ℕ)
      → IsRing U s
      → let waited = room_loop uart drain_wait_ms s in
        let q = send_frame uart s decoded in
        let wire = frame_encode_envelope decoded in
        IsRing U q
        × (((connected uart s ≡ false) × (q ≡ s))
            ⊎ (((waited.count < queue_depth)
                  × (stream uart sent law q ≡ stream uart sent law s ++ wire))
                ⊎ (((waited.count ≡ queue_depth) ⊎ (connected uart waited ≡ false))
                    × (pending q ≡ wire))))
  unfolding send_frame bytes_from
  send_frame-stream s decoded ring =
      let waited = room_loop uart drain_wait_ms s in
      let wire = frame_encode_envelope decoded in
      let (kept, how) = room_loop-stream uart sent law drain_wait_ms s ring in
      let Outcome : NrfBle U → Type 0 = λ q.
        IsRing U q
        × (((connected uart s ≡ false) × (q ≡ s))
            ⊎ (((waited.count < queue_depth)
                  × (stream uart sent law q ≡ stream uart sent law s ++ wire))
                ⊎ (((waited.count ≡ queue_depth) ⊎ (connected uart waited ≡ false))
                    × (pending q ≡ wire)))) in
      elim (Bool-cases (not (connected uart s))) [
        | inl e ↦ rw e (ring, inl (unnot (connected uart s) e, refl))
        | inr e ↦ elim (Bool-cases (waited.count == queue_depth)) [
          | inl full ↦
              let emptied = record waited { count = 0 } in
              let (sound, more) =
                behind-pending emptied wire
                  (record {
                    slots = kept.slots;
                    head_in = kept.head_in;
                    fits = omega arith;
                    queued = kept.queued;
                  })
                  (omega arith) in
              let sent_so = send_frame-make_room s emptied decoded e (make_room_full s full) refl in
              subst Outcome (sym sent_so)
                (sound, inr (inr (inl ((==_iff waited.count queue_depth).0 full), more)))
          | inr room ↦
              let below : waited.count < queue_depth = ground (arith, room, kept.fits) in
              let (sound, more) = behind-pending waited wire kept below in
              let sent_so = send_frame-make_room s waited decoded e (make_room_free s room) room in
              subst Outcome (sym sent_so) (
                sound,
                elim how [
                  | inl same ↦ inr (
                      inl (
                        below,
                        ap (◌++◌ (sent waited.uart)) more
                            ∙ sym (append_assoc (sent waited.uart) (pending waited) wire)
                            ∙ ap (λ (t : List ℕ). t ++ wire) same,
                      ))
                  | inr (gone, emptied) ↦ inr (
                      inr (
                        inr gone,
                        more
                            ∙ ap (λ (n : ℕ). bytes_from waited.queue waited.head n ++ wire) emptied,
                      ))
                ],
              )
        ]
      ]
