-- ===== src/Transports/NrfBle/Stream.antt =====
-- What `drain_step`, and the wait of `make_room`, do to the stream of bytes to the central.
use meshpigeon_firmware.Prelude.{
  All-get_or, ℕ, zero, suc, ◌+◌, ◌-◌, ◌≤◌, ◌≡◌, refl, sym, ap, ap₂, ◌∙◌, List, [], ◌∷◌, ◌++◌,
  append-nil, append_assoc, Bool, true, false, ◌||◌, not, Option, none, some, arith, ◌==◌, length,
  length-take, take, drop, length-drop, get_or, min, Bool-cases, ==_iff, inl, inr, ◌⊎◌,
}
use meshpigeon_firmware.Transports.NrfBle.{
  Uart, NrfBle, chunk_max, empty_slot, on_connect, on_disconnect, called_back, connected, delay,
  advance, drain_step, room_loop,
}
use meshpigeon_firmware.Transports.NrfBle.Ring.{IsQueued, IsRing, pending, advance-pending}

-- What is documented of the stack: `sent` are the bytes that it took. A write takes a part of what
-- it is given from the front, a wait takes nothing.
pub record IsUart (U : Type 0) (uart : Uart U) (sent : U → List ℕ) : Type 0 where
  pub takes : (u : U) (bytes : List ℕ) → (uart.write u bytes).1 ≤ length bytes
  pub sends :
      (u : U) (bytes : List ℕ)
      → sent (uart.write u bytes).0 ≡ sent u ++ take (uart.write u bytes).1 bytes
  pub waits : (u : U) → sent (uart.delay u).0 ≡ sent u

take-take {ℓ} : {A : Type ℓ} (n m : ℕ) (xs : List A) → n ≤ m → take n (take m xs) ≡ take n xs
take-take zero m xs h = refl
take-take (suc n) zero xs h = absurd (omega arith)
take-take (suc n) (suc m) [] h = refl
take-take (suc n) (suc m) (x ∷ xs) h = ap (◌∷◌ x) (take-take n m xs (omega arith))

pub unnot : (b : Bool) → not b ≡ true → b ≡ false
unnot true h = sym h
unnot false h = refl

module _ {U : Type 0} (uart : Uart U) (sent : U → List ℕ) (law : IsUart U uart sent) where
  -- All that is out, and all that will be.
  abbrev pub stream : NrfBle U → List ℕ
  stream s = sent s.uart ++ pending s

  -- The next write, and that it stays within the front frame.
  abbrev pub next_bytes : NrfBle U → List ℕ
  next_bytes s =
      let q = get_or s.queue s.head empty_slot in
      take (min (q.len - q.off) chunk_max) (drop q.off q.buf)

  pub write_fits :
      (s : NrfBle U)
      → IsRing U s
      → let q = get_or s.queue s.head empty_slot in
        let w = (uart.write s.uart (next_bytes s)).1 in
        (w ≤ min (q.len - q.off) chunk_max) × (q.off + w ≤ q.len) × (w ≤ length (drop q.off q.buf))
  write_fits s ring =
      let q = get_or s.queue s.head empty_slot in
      let sound =
        All-get_or IsQueued s.queue s.head empty_slot ring.queued
          (record { whole = refl; inside = omega arith }) in
      let chunk = min (q.len - q.off) chunk_max in
      let taken = law.takes s.uart (next_bytes s) in
      let cut = length-take {0} chunk (drop q.off q.buf) in
      let rest = length-drop {0} q.off q.buf in
      (
        omega (arith, taken, cut),
        omega (arith, taken, cut, rest, sound.whole, sound.inside),
        omega (arith, taken, cut),
      )

  -- Sending a part of what is pending changes who has it, not the stream.
  pub drain_step-stream :
      (s : NrfBle U)
      → IsRing U s
      → IsRing U (drain_step uart s).0 × (stream (drain_step uart s).0 ≡ stream s)
  unfolding drain_step
  drain_step-stream s ring =
      let q = get_or s.queue s.head empty_slot in
      let chunk = min (q.len - q.off) chunk_max in
      let w = (uart.write s.uart (take chunk (drop q.off q.buf))).1 in
      let bytes = take chunk (drop q.off q.buf) in
      let asked = record s { uart = (uart.write s.uart bytes).0 } in
      let ring' : IsRing U asked = record {
        slots = ring.slots;
        head_in = ring.head_in;
        fits = ring.fits;
        queued = ring.queued;
      } in
      let (below, fits, most) = write_fits s ring in
      elim (Bool-cases (not (connected uart s) || s.count == 0)) [
        | inl idle ↦ rw idle (ring, refl)
        | inr ready ↦ elim (Bool-cases (w == 0)) [
          | inl none_taken ↦
              rw (ready, none_taken)
                (
                  ring',
                  ap (λ (t : List ℕ). t ++ pending s)
                      (law.sends s.uart bytes
                        ∙ ap (λ (n : ℕ). sent s.uart ++ take n bytes) ((==_iff w 0).0 none_taken)
                        ∙ append-nil (sent s.uart)),
                )
          | inr taken ↦
              let some_left : 1 ≤ s.count = ground (arith, ready) in
              let (kept, cut, same) = advance-pending uart asked w ring' some_left fits in
              let out : sent asked.uart ≡ sent s.uart ++ take w (drop q.off q.buf) =
                law.sends s.uart bytes
                ∙ ap (◌++◌ (sent s.uart)) (take-take w chunk (drop q.off q.buf) below) in
              rw (ready, taken)
                (
                  kept,
                  ap (λ (u : U). sent u ++ pending (advance uart asked w)) same
                      ∙ ap (λ (t : List ℕ). t ++ pending (advance uart asked w)) out
                      ∙ append_assoc (sent s.uart) _ _
                      ∙ ap (◌++◌ (sent s.uart)) (sym cut),
                )
        ]
      ]

  called_back-pending :
      (s : NrfBle U) (event : Option Bool)
      → IsRing U s
      → IsRing U (called_back s event)
        × (pending (called_back s event) ≡ pending s)
        × ((called_back s event).uart ≡ s.uart)
  unfolding called_back on_connect on_disconnect
  called_back-pending s none ring = (ring, refl, refl)
  called_back-pending s (some true) ring = (
    record { slots = ring.slots; head_in = ring.head_in; fits = ring.fits; queued = ring.queued },
    refl,
    refl,
  )
  called_back-pending s (some false) ring = (
    record { slots = ring.slots; head_in = ring.head_in; fits = ring.fits; queued = ring.queued },
    refl,
    refl,
  )

  pub delay-pending :
      (s : NrfBle U)
      → IsRing U s
      → IsRing U (delay uart s)
        × (pending (delay uart s) ≡ pending s)
        × ((delay uart s).uart ≡ (uart.delay s.uart).0)
  unfolding delay
  delay-pending s ring =
      let later = record s { uart = (uart.delay s.uart).0 } in
      called_back-pending later (uart.delay s.uart).1 (record {
        slots = ring.slots;
        head_in = ring.head_in;
        fits = ring.fits;
        queued = ring.queued;
      })

  delay-stream :
      (s : NrfBle U) → IsRing U s → IsRing U (delay uart s) × (stream (delay uart s) ≡ stream s)
  delay-stream s ring =
      let (kept, same, later) = delay-pending s ring in
      (
        kept,
        ap₂ (λ (u : U) (t : List ℕ). sent u ++ t) later same
            ∙ ap (λ (t : List ℕ). t ++ pending s) (law.waits s.uart),
      )

  cleared-connected :
      (s : NrfBle U) → connected uart (record s { head = 0; count = 0 }) ≡ connected uart s
  unfolding connected
  cleared-connected s = refl

  -- Nothing is lost, or the central is gone and with it all that waited.
  abbrev pub KeptOrGone : NrfBle U → NrfBle U → Type 0
  KeptOrGone s r =
      IsRing U r × ((stream r ≡ stream s) ⊎ ((connected uart r ≡ false) × (r.count ≡ 0)))

  pub room_loop-stream :
      (left : ℕ) (s : NrfBle U) → IsRing U s → KeptOrGone s (room_loop uart left s)
  unfolding room_loop
  room_loop-stream zero s ring =
      let (kept, same) = drain_step-stream s ring in
      elim (Bool-cases (s.count == 0)) [
        | inl e ↦ rw e (ring, inl refl)
        | inr e ↦ rw e (kept, inl same)
      ]
  room_loop-stream (suc left) s ring =
      let tried = (drain_step uart s).0 in
      let (kept, same) = drain_step-stream s ring in
      let (ring', same') = delay-stream tried kept in
      let (rest, how) = room_loop-stream left (delay uart tried) ring' in
      elim (Bool-cases (s.count == 0)) [
        | inl e ↦ rw e (ring, inl refl)
        | inr e ↦ elim (Bool-cases (drain_step uart s).1) [
          | inl d ↦ rw (e, d) (kept, inl same)
          | inr d ↦ elim (Bool-cases (not (connected uart tried))) [
            | inl gone ↦
                rw (e, d, gone)
                  (
                    record {
                      slots = kept.slots;
                      head_in = omega arith;
                      fits = omega arith;
                      queued = kept.queued;
                    },
                    inr (cleared-connected tried ∙ unnot (connected uart tried) gone, refl),
                  )
            | inr here ↦
                rw (e, d, here) (rest, elim how [ inl k ↦ inl (k ∙ same' ∙ same) | inr g ↦ inr g ])
          ]
        ]
      ]
