-- ===== src/Transports/Wifi/Clients/Sending.antt =====
-- What `Client::send_frame` of the Wi-Fi transport sends, and how long it takes.
use meshpigeon_firmware.Prelude.{
  get_or-set_same, subst, ℕ, zero, suc, ◌+◌, ◌-◌, ◌%◌, ◌^◌, ◌≤◌, ◌<◌, ◌≡◌, refl, sym, ap, ◌∙◌, ◌⊎◌,
  inl, inr, List, [], ◌∷◌, ◌++◌, append-nil, append_assoc, Bool, true, arith, leb, length, take,
  drop, length-drop, take-append-drop, is_empty, Bool-cases,
}
use mathlib.Core.Bool.{false≢true}
use meshpigeon_firmware.Framing.Frame.{frame_encode_envelope}
use meshpigeon_firmware.Processor.Message.{Ports}
use meshpigeon_firmware.Transports.Wifi.{Stack, Client, Wifi, client_at, no_client}
use meshpigeon_firmware.Transports.Wifi.Clients.{
  send_frame, Sent, Tcp, write_budget_ms, bytes_taken, is_failed, out_of_time, write_loop,
  write_wire,
}

-- What is documented of the calls, for one socket: `sent` is what its window took, `time` the
-- milliseconds since the board started, of which `millis` shows 32 bits. A send takes a part from
-- the front of what it is given and does not wait; `delay(1)` takes at least a millisecond, and at
-- most `slack`.
pub record IsTcp (W : Type 0) (tcp : Tcp W) (socket : ℕ) (sent : W → List ℕ) (time : W → ℕ)
    (slack : ℕ) : Type 0 where
  pub takes : (w : W) (bytes : List ℕ) → bytes_taken (tcp.send w socket bytes).1 ≤ length bytes
  pub sends :
      (w : W) (bytes : List ℕ)
      → sent (tcp.send w socket bytes).0
        ≡ sent w ++ take (bytes_taken (tcp.send w socket bytes).1) bytes
  pub at_once : (w : W) (bytes : List ℕ) → time (tcp.send w socket bytes).0 ≡ time w
  pub shown : (w : W) → tcp.millis w ≡ time w % 2 ^ 32
  pub silent : (w : W) → sent (tcp.delay w) ≡ sent w
  pub passes : (w : W) → time w + 1 ≤ time (tcp.delay w)
  pub soon : (w : W) → time (tcp.delay w) ≤ time w + slack
  pub bounded : slack + write_budget_ms < 2 ^ 32

module _ {W : Type 0} (tcp : Tcp W) (socket : ℕ) (sent : W → List ℕ) (time : W → ℕ) (slack : ℕ)
    (law : IsTcp W tcp socket sent time slack) where
  -- The budget is read rightly, across a wrap of the clock too.
  out_of_time_iff :
      (w : W) (begun : ℕ)
      → begun ≤ time w
      → time w < begun + write_budget_ms + slack
      → out_of_time tcp w (begun % 2 ^ 32) ≡ leb write_budget_ms (time w - begun)
  unfolding out_of_time
  out_of_time_iff w begun after near =
      let room = law.bounded in
      let elapsed : (time w % 2 ^ 32 + 2 ^ 32 - begun % 2 ^ 32) % 2 ^ 32 ≡ time w - begun =
        omega arith in
      rw (law.shown w, elapsed) refl

  -- Where the loop ends, behind what it was given.
  abbrev pub Ended : ℕ → W → List ℕ → W × List ℕ → Type 0
  Ended begun w rest r =
      (sent r.0 ++ r.1 ≡ sent w ++ rest)
      × (time r.0 < begun + write_budget_ms + slack)
      × ((r.1 ≡ [])
          ⊎ (((u : W) × (tcp.send u socket r.1 ≡ (r.0, Sent.failed)))
              ⊎ (begun + write_budget_ms ≤ time r.0)))

  failed_is : (answer : Sent) → is_failed answer ≡ true → answer ≡ Sent.failed
  failed_is (Sent.took n) h = absurd (false≢true h)
  failed_is Sent.again h = absurd (false≢true h)
  failed_is Sent.failed h = refl

  write_loop-Ended :
      (fuel : ℕ) (w : W) (begun : ℕ) (rest : List ℕ)
      → length rest + (write_budget_ms - (time w - begun)) < fuel
      → begun ≤ time w
      → time w < begun + write_budget_ms + slack
      → Ended begun w rest (write_loop tcp fuel w socket (begun % 2 ^ 32) rest)
  unfolding write_loop
  write_loop-Ended zero w begun rest enough after near = absurd (omega arith)
  write_loop-Ended (suc fuel) w begun [] enough after near = (refl, near, inl refl)
  write_loop-Ended (suc fuel) w begun (b ∷ bytes) enough after near =
      let rest = b ∷ bytes in
      let v = (tcp.send w socket rest).0 in
      let answer = (tcp.send w socket rest).1 in
      let n = bytes_taken answer in
      let same = law.at_once w rest in
      let fits = law.takes w rest in
      let all : sent v ++ drop n rest ≡ sent w ++ rest =
        ap (λ (t : List ℕ). t ++ drop n rest) (law.sends w rest)
        ∙ append_assoc (sent w) (take n rest) (drop n rest)
        ∙ ap (◌++◌ (sent w)) (take-append-drop n rest) in
      elim (Bool-cases (leb 1 n)) [
        | inl some_taken ↦
            let shorter = length-drop {0} n rest in
            let (kept, soon, how) =
              write_loop-Ended fuel v begun (drop n rest)
                (ground (arith, some_taken, shorter, fits, same, enough)) (omega (arith, same))
                (omega (arith, same)) in
            rw some_taken (kept ∙ all, soon, how)
        | inr none_taken ↦
            let nothing : n ≡ 0 = ground (arith, none_taken) in
            let unsent : sent v ++ rest ≡ sent w ++ rest =
              ap (λ (k : ℕ). sent v ++ drop k rest) (sym nothing) ∙ all in
            elim (Bool-cases (is_failed answer)) [
              | inl failed ↦
                  rw (none_taken, failed)
                    (
                      unsent,
                      omega (arith, same),
                      inr (inl (w, ap (λ (a : Sent). (v, a)) (failed_is answer failed))),
                    )
              | inr alive ↦
                  let read = out_of_time_iff v begun (omega (arith, same)) (omega (arith, same)) in
                  elim (Bool-cases (leb write_budget_ms (time v - begun))) [
                    | inl late ↦
                        rw (none_taken, alive, read, late)
                          (unsent, omega (arith, same), inr (inr (ground (arith, late))))
                    | inr early ↦
                        let passes = law.passes v in
                        let near_end = law.soon v in
                        let below : time v - begun < write_budget_ms = ground (arith, early) in
                        let (kept, soon, how) =
                          write_loop-Ended fuel (tcp.delay v) begun rest
                            (omega (arith, same, passes, below, enough))
                            (omega (arith, same, passes)) (omega (arith, same, near_end, below)) in
                        rw (none_taken, alive, read, early)
                          (kept ∙ ap (λ (t : List ℕ). t ++ rest) (law.silent v) ∙ unsent, soon, how)
                  ]
            ]
      ]

  pub write_wire-Ended :
      (w : W) (wire : List ℕ) → Ended (time w) w wire (write_wire tcp w socket wire)
  unfolding write_wire
  write_wire-Ended w wire =
      let fuel = length wire + write_budget_ms + 1 in
      subst (λ (start : ℕ). Ended (time w) w wire (write_loop tcp fuel w socket start wire))
        (sym (law.shown w))
        (write_loop-Ended fuel w (time w) wire (omega arith) (omega arith) (omega arith))

nothing_left : (xs : List ℕ) → is_empty xs ≡ true → xs ≡ []
nothing_left [] h = refl
nothing_left (x ∷ xs) h = absurd (false≢true h)

module _ {R S W : Type 0} (ports : Ports R S) (stack : Stack W) (tcp : Tcp W) (first_sink : ℕ) where
  -- One send of a frame to a client, over any window and any clock: it holds the board loop for
  -- 250 ms and one delay at most; and either the whole wire form of the frame is in the socket's
  -- stream, behind all that was there, and the flag of the client is as it was, or what is missing is
  -- some end of it, because a send failed or the time was used up, and the client is flagged.
  pub send_frame-Ended :
      (w : Wifi R S W) (i : ℕ) (decoded : List ℕ) (sent : W → List ℕ) (time : W → ℕ) (slack : ℕ)
      → i < length w.clients
      → IsTcp W tcp (client_at ports stack first_sink w i).socket sent time slack
      → let c = client_at ports stack first_sink w i in
        let q = send_frame ports stack tcp first_sink w i decoded in
        let wire = frame_encode_envelope decoded in
        (time q.stack < time w.stack + write_budget_ms + slack)
        × (((sent q.stack ≡ sent w.stack ++ wire)
              × ((client_at ports stack first_sink q i).broken ≡ c.broken))
            ⊎ (((left : List ℕ) × (sent q.stack ++ left ≡ sent w.stack ++ wire)
                  × (((u : W) × (tcp.send u c.socket left ≡ (q.stack, Sent.failed)))
                      ⊎ (time w.stack + write_budget_ms ≤ time q.stack)))
                × ((client_at ports stack first_sink q i).broken ≡ true)))
  unfolding send_frame write_wire
  send_frame-Ended w i decoded sent time slack there law =
      let c = client_at ports stack first_sink w i in
      let wire = frame_encode_envelope decoded in
      let rest = (write_wire tcp w.stack c.socket wire).1 in
      let (kept, soon, how) = write_wire-Ended tcp c.socket sent time slack law w.stack wire in
      let put =
        λ (b : Bool). get_or-set_same w.clients i (record c { broken = b }) no_client there in
      (
        soon,
        elim (Bool-cases (is_empty rest)) [
          | inl whole ↦
              let done = nothing_left rest whole in
              inl (
                sym (append-nil _)
                    ∙ ap (λ (t : List ℕ). sent (write_wire tcp w.stack c.socket wire).0 ++ t)
                        (sym done)
                    ∙ kept,
                rw whole (ap (λ (d : Client). d.broken) (put c.broken)),
              )
          | inr cut ↦ inr (
            (
              rest,
              kept,
              elim how [
                | inl done ↦ absurd (false≢true (sym cut ∙ ap is_empty done))
                | inr why ↦ why
              ],
            ),
            rw cut (ap (λ (d : Client). d.broken) (put true)),
          )
        ],
      )
