-- ===== src/Node/OnSim.antt =====
-- The command processor over `SimRadio`, as src/sim_main.cpp puts them together: every transmission
-- ends.
use meshpigeon_firmware.Prelude.{
  if_true, if_false, ℕ, zero, suc, ◌+◌, ◌≤◌, ◌≡◌, refl, subst, ap, ◌∙◌, List, [], ◌∷◌, ◌++◌, Bool,
  true, false, arith, inl, inr, ◌⊎◌,
}
use meshpigeon_firmware.Clock
use meshpigeon_firmware.Sim
use meshpigeon_firmware.Sim.{SimRadio}
use meshpigeon_firmware.Processor.Message.{Ports}
use meshpigeon_firmware.Processor.State.{Processor, remove_sink}
use meshpigeon_firmware.Processor.Reply.{emit_tx_result}
use meshpigeon_firmware.Processor.Life.{Action, act, run}
use meshpigeon_firmware.Processor.Life.Flight.{
  ticks, envelope-flight, heard-flight, join-flight, wifi-flight, poll-flight,
}

-- The transmission as the processor and the radio see it.
abbrev pub Outgoing : Type 0
Outgoing = Bool × ℕ × Bool × ℕ

List-cases {ℓ} : {A : Type ℓ} (l : List A) → (l ≡ []) ⊎ ((x : A) × (xs : List A) × (l ≡ x ∷ xs))
List-cases [] = inl refl
List-cases (x ∷ xs) = inr (x, xs, refl)

tx_done_last : (r : SimRadio) → r.tx_active ≡ true → r.tx_ticks_left ≡ 1 → (Sim.tx_done r).1 ≡ true
unfolding Sim.tx_done
tx_done_last r active left = rw (active, left) refl

tx_done_more :
    (r : SimRadio) (k : ℕ)
    → r.tx_active ≡ true
    → r.tx_ticks_left ≡ suc (suc k)
    → ((Sim.tx_done r).1 ≡ false)
      × ((Sim.tx_done r).0.tx_active ≡ true)
      × ((Sim.tx_done r).0.tx_ticks_left ≡ suc k)
unfolding Sim.tx_done
tx_done_more r k active left = ground arith

module _ {S : Type 0} (ports : Ports SimRadio S) where
  abbrev pub over_sim : Ports SimRadio S
  over_sim = record ports {
    begin = λ r. (r, true);
    apply = Sim.apply;
    transmit = Sim.transmit;
    tx_done = Sim.tx_done;
  }

  abbrev pub listen : SimRadio → SimRadio
  listen r = (Sim.receive r).0

  abbrev pub outgoing : Processor SimRadio S → Outgoing
  outgoing p = (p.tx_pending, p.tx_pending_seq, p.radio.tx_active, p.radio.tx_ticks_left)

  flight-outgoing :
      {a b : SimRadio × Bool × ℕ}
      → a ≡ b
      → ◌≡◌ {A = Outgoing}
          (a.1, a.2, a.0.tx_active, a.0.tx_ticks_left)
          (b.1, b.2, b.0.tx_active, b.0.tx_ticks_left)
  flight-outgoing e =
      ap (λ (t : SimRadio × Bool × ℕ). (t.1, t.2, t.0.tx_active, t.0.tx_ticks_left)) e

  listen-outgoing :
      (r : SimRadio)
      → ◌≡◌ {A = Bool × ℕ}
          ((Sim.receive r).0.tx_active, (Sim.receive r).0.tx_ticks_left)
          (r.tx_active, r.tx_ticks_left)
  unfolding Sim.receive
  listen-outgoing r = elim (List-cases r.air) [
    | inl e ↦ rw (e, Sim.receive) refl
    | inr (x, xs, e) ↦ rw (e, Sim.receive) refl
  ]

  -- Anything but a tick leaves a transmission under way as it is.
  act-outgoing :
      (p : Processor SimRadio S) (a : Action)
      → p.tx_pending ≡ true
      → ((now : ℕ) × (a ≡ Action.tick now))
        ⊎ (((actions : List Action) → ticks (a ∷ actions) ≡ ticks actions)
            × (outgoing (act over_sim listen p a) ≡ outgoing p))
  unfolding act ticks remove_sink
  act-outgoing p (Action.tick now) h = inl (now, refl)
  act-outgoing p (Action.envelope bytes from) h =
      inr (λ actions. refl, flight-outgoing (envelope-flight over_sim p bytes from h))
  act-outgoing p (Action.heard rssi snr raw) h =
      inr (λ actions. refl, flight-outgoing (heard-flight over_sim p rssi snr raw))
  act-outgoing p (Action.join sink) h =
      inr (λ actions. refl, flight-outgoing (join-flight over_sim p sink))
  act-outgoing p (Action.leave sink) h = inr (λ actions. refl, refl)
  act-outgoing p Action.wifi_changed h =
      inr (λ actions. refl, flight-outgoing (wifi-flight over_sim p))
  act-outgoing p Action.listened h = inr (
    λ actions. refl,
    ap (λ (t : Bool × ℕ). (p.tx_pending, p.tx_pending_seq, t.0, t.1)) (listen-outgoing p.radio),
  )

  -- What the tick that ends a transmission makes of the processor.
  abbrev pub ended_at : Processor SimRadio S → ℕ → Processor SimRadio S
  ended_at p now =
      emit_tx_result over_sim
        (record p {
          clock = Clock.poll p.clock now;
          radio = (Sim.tx_done p.radio).0;
          tx_pending = false;
        })
        p.tx_pending_seq true

  last_tick :
      (p : Processor SimRadio S) (now : ℕ)
      → p.tx_pending ≡ true
      → p.radio.tx_active ≡ true
      → p.radio.tx_ticks_left ≡ 1
      → act over_sim listen p (Action.tick now) ≡ ended_at p now
  unfolding act
  last_tick p now h active left =
      poll-flight over_sim p now h ∙ if_true _ _ _ (tx_done_last p.radio active left)

  -- A tick before the last: one question less.
  early_tick :
      (p : Processor SimRadio S) (now k : ℕ)
      → p.tx_pending ≡ true
      → p.radio.tx_active ≡ true
      → p.radio.tx_ticks_left ≡ suc (suc k)
      → outgoing (act over_sim listen p (Action.tick now)) ≡ (true, p.tx_pending_seq, true, suc k)
  unfolding act
  early_tick p now k h active left =
      let (more, still, fewer) = tx_done_more p.radio k active left in
      ap outgoing (poll-flight over_sim p now h ∙ if_false _ _ _ more) ∙ rw (h, still, fewer) refl

  -- The tick at which a transmission ends, `k` ticks from here.
  abbrev pub EndsAfter : ℕ → Processor SimRadio S → List Action → Type 0
  EndsAfter k p actions =
      (before : List Action) × (now : ℕ) × (after : List Action) × (actions
        ≡ before ++ Action.tick now ∷ after)
      × (ticks before ≡ k)
      × ((run over_sim listen p before).tx_pending_seq ≡ p.tx_pending_seq)
      × (act over_sim listen (run over_sim listen p before) (Action.tick now)
          ≡ ended_at (run over_sim listen p before) now)

  later :
      (p : Processor SimRadio S) (a : Action) (actions : List Action) (j d : ℕ)
      → (act over_sim listen p a).tx_pending_seq ≡ p.tx_pending_seq
      → ((actions : List Action) → ticks (a ∷ actions) ≡ ticks actions + d)
      → EndsAfter j (act over_sim listen p a) actions
      → EndsAfter (j + d) p (a ∷ actions)
  unfolding run
  later p a actions j d same_seq counts (before, now, after, split, many, seq, ends) = (
    a ∷ before,
    now,
    after,
    ap (λ (t : List Action). a ∷ t) split,
    counts before ∙ ap (λ (n : ℕ). n + d) many,
    seq ∙ same_seq,
    ends,
  )

  abbrev Completes : List Action → Type 0
  Completes actions =
      (p : Processor SimRadio S) (k : ℕ)
      → p.tx_pending ≡ true
      → p.radio.tx_active ≡ true
      → p.radio.tx_ticks_left ≡ suc k
      → suc k ≤ ticks actions
      → EndsAfter k p actions

  after_quiet :
      (a : Action) (actions : List Action)
      → Completes actions
      → (p : Processor SimRadio S) (k : ℕ) → p.tx_pending ≡ true
      → p.radio.tx_active ≡ true
      → p.radio.tx_ticks_left ≡ suc k
      → suc k ≤ ticks (a ∷ actions)
      → ((actions : List Action) → ticks (a ∷ actions) ≡ ticks actions)
      → outgoing (act over_sim listen p a) ≡ outgoing p
      → EndsAfter k p (a ∷ actions)
  after_quiet a actions completes p k h active left enough idle same =
      let rest =
        completes (act over_sim listen p a) k (ap (λ (t : Outgoing). t.0) same ∙ h)
          (ap (λ (t : Outgoing). t.2) same ∙ active) (ap (λ (t : Outgoing). t.3) same ∙ left)
          (omega (arith, idle actions)) in
      subst (λ (j : ℕ). EndsAfter j p (a ∷ actions)) (omega arith)
        (later p a actions k 0 (ap (λ (t : Outgoing). t.1) same) (λ rest. omega (arith, idle rest))
          rest)

  after_tick :
      (now : ℕ) (actions : List Action)
      → Completes actions
      → (p : Processor SimRadio S) (k : ℕ) → p.tx_pending ≡ true
      → p.radio.tx_active ≡ true
      → p.radio.tx_ticks_left ≡ suc k
      → suc k ≤ ticks (Action.tick now ∷ actions)
      → EndsAfter k p (Action.tick now ∷ actions)
  unfolding ticks run
  after_tick now actions completes p zero h active left enough =
      ([], now, actions, refl, refl, refl, last_tick p now h active left)
  after_tick now actions completes p (suc k) h active left enough =
      let o = early_tick p now k h active left in
      let rest =
        completes (act over_sim listen p (Action.tick now)) k (ap (λ (t : Outgoing). t.0) o)
          (ap (λ (t : Outgoing). t.2) o) (ap (λ (t : Outgoing). t.3) o) (omega (arith, enough)) in
      subst (λ (j : ℕ). EndsAfter j p (Action.tick now ∷ actions)) (omega arith)
        (later p (Action.tick now) actions k 1 (ap (λ (t : Outgoing). t.1) o) (λ rest. refl) rest)

  -- Every transmission under way ends: in any sequence of actions with as many ticks as the radio
  -- takes, the tick that makes up the number lowers the flag and pushes the result, with the number
  -- of the packet, to all, whatever the clients ask and the air brings in between.
  pub run_completes :
      (actions : List Action) (p : Processor SimRadio S) (k : ℕ)
      → p.tx_pending ≡ true
      → p.radio.tx_active ≡ true
      → p.radio.tx_ticks_left ≡ suc k
      → suc k ≤ ticks actions
      → EndsAfter k p actions
  unfolding ticks
  run_completes [] p k h active left enough = absurd (omega arith)
  run_completes (a ∷ actions) p k h active left enough = elim (act-outgoing p a h) [
    | inr (idle, same) ↦
        after_quiet a actions (run_completes actions) p k h active left enough idle same
    | inl (now, e) ↦
        rw e (after_tick now actions (run_completes actions) p k h active left (rw e at enough))
  ]
