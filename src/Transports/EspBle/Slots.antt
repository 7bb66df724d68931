-- ===== src/Transports/EspBle/Slots.antt =====
-- The slots under every interleaving of the host's callbacks with the turns of the board loop.
use meshpigeon_firmware.Prelude.{
  All-get_or, All-set, get_or-set_same, ℕ, suc, ◌+◌, ◌-◌, ◌≤◌, ◌<◌, ◌≡◌, refl, sym, ap, ◌∙◌, ◌⊎◌,
  inl, inr, List, [], ◌∷◌, true, false, not, some, arith, length, length-set, set, get_or, All,
  Bool-cases, Option-cases, if_holds, ==_refl,
}
use mathlib.Core.Bool.{false≢true}
use mathlib.Core.Option.{some_inj, none-ne-some}
use meshpigeon_firmware.Framing.Reader.{reset}
use meshpigeon_firmware.Processor.Message.{Ports}
use meshpigeon_firmware.Processor.State.{add_sink}
use meshpigeon_firmware.Transports.RxFifo
use meshpigeon_firmware.Transports.RxFifo.{available}
use meshpigeon_firmware.Transports.EspBle.{
  Connection, EspBle, max_centrals, no_connection, find, first_free, slot, put_slot, claim,
  on_connect, on_disconnect, on_subscribe, on_write, release, drain_slot, register, pump_slot,
}

-- A slot that is registered is in use: a free one is in nobody's registry.
abbrev pub IsHeld : Connection → Type 0
IsHeld c = (c.registered ≡ false) ⊎ (c.in_use ≡ true)

first_free_lem :
    (conns : List Connection) (j i : ℕ)
    → first_free j conns ≡ some i
    → (j ≤ i) × (i < j + length conns) × ((get_or conns (i - j) no_connection).in_use ≡ false)
unfolding first_free
first_free_lem [] j i h = absurd (none-ne-some i h)
first_free_lem (c ∷ conns) j i h = elim (Bool-cases c.in_use) [
  | inl used ↦
      let later : first_free (j + 1) conns ≡ some i = rw used at h in
      let (above, below, free) = first_free_lem conns (j + 1) i later in
      let further : i - j ≡ suc (i - (j + 1)) = omega arith in
      (
        omega arith,
        omega arith,
        ap (λ (n : ℕ). (get_or (c ∷ conns) n no_connection).in_use) further ∙ free,
      )
  | inr unused ↦
      let this : some j ≡ some i = rw unused at h in
      let first : j ≡ i = some_inj.0 this in
      let at_front : i - j ≡ 0 = omega arith in
      (
        omega arith,
        omega arith,
        ap (λ (n : ℕ). (get_or (c ∷ conns) n no_connection).in_use) at_front ∙ unused,
      )
]

module _ {R S : Type 0} (ports : Ports R S) (first_sink : ℕ) where
  -- A callback of the host, or the loop's turn at one slot.
  pub data Step : EspBle R S → EspBle R S → Type 0 where
    connected : (st : EspBle R S) (handle : ℕ) → Step st (on_connect ports first_sink st handle)
    disconnected :
        (st : EspBle R S) (handle : ℕ) → Step st (on_disconnect ports first_sink st handle)
    subscribed :
        (st : EspBle R S) (handle sub_value : ℕ)
        → Step st (on_subscribe ports first_sink st handle sub_value)
    written :
        (st : EspBle R S) (handle : ℕ) (bytes : List ℕ)
        → Step st (on_write ports first_sink st handle bytes)
    pumped : (st : EspBle R S) (i : ℕ) → Step st (pump_slot ports first_sink st i)

  pub data Reach (start : EspBle R S) : EspBle R S → Type 0 where
    here : Reach start start
    next : {st st' : EspBle R S} → Reach start st → Step st st' → Reach start st'

  abbrev pub IsSound : EspBle R S → Type 0
  IsSound st = (length st.conns ≡ max_centrals) × All IsHeld st.conns

  held : (st : EspBle R S) (i : ℕ) → IsSound st → IsHeld (slot ports first_sink st i)
  held st i h = All-get_or IsHeld st.conns i no_connection h.1 (inl refl)

  put_slot-IsSound :
      (st : EspBle R S) (i : ℕ) (c : Connection)
      → IsSound st
      → IsHeld c
      → IsSound (put_slot ports first_sink st i c)
  put_slot-IsSound st i c h k = (length-set st.conns i c ∙ h.0, All-set IsHeld st.conns i c h.1 k)

  drain_slot-IsSound :
      (st : EspBle R S) (i : ℕ) → IsSound st → IsSound (drain_slot ports first_sink st i)
  unfolding drain_slot
  drain_slot-IsSound st i h = put_slot-IsSound st i _ h (held st i h)

  register-IsSound :
      (st : EspBle R S) (i : ℕ)
      → IsSound st
      → (slot ports first_sink st i).in_use ≡ true
      → IsSound (register ports first_sink st i)
  unfolding register
  register-IsSound st i h used =
      if_holds IsSound (not (add_sink st.proc (first_sink + i)).0) _ _
        (put_slot-IsSound st i _ h (inr used))
        (drain_slot-IsSound _ i (put_slot-IsSound st i _ h (inr used)))

  pump_slot-IsSound :
      (st : EspBle R S) (i : ℕ) → IsSound st → IsSound (pump_slot ports first_sink st i)
  unfolding pump_slot release
  pump_slot-IsSound st i h =
      let c = slot ports first_sink st i in
      if_holds IsSound c.pending_disconnect _ _ (put_slot-IsSound st i _ h (inl refl))
        (elim (Bool-cases c.in_use) [
          | inr free ↦ rw free h
          | inl used ↦ rw used (
              if_holds IsSound (not c.registered) _ _ (register-IsSound st i h used)
                (drain_slot-IsSound st i h))
        ])

  Step-IsSound : {st st' : EspBle R S} → Step st st' → IsSound st → IsSound st'
  unfolding on_connect on_disconnect on_subscribe on_write claim
  Step-IsSound (connected st handle) h = elim (Option-cases (first_free 0 st.conns)) [
    | inl e ↦ rw (e, on_connect) h
    | inr (i, e) ↦ rw (e, on_connect) (put_slot-IsSound st i _ h (inr refl))
  ]
  Step-IsSound (disconnected st handle) h = elim (Option-cases (find 0 st.conns handle)) [
    | inl e ↦ rw (e, on_disconnect) h
    | inr (i, e) ↦ rw (e, on_disconnect) (put_slot-IsSound st i _ h (held st i h))
  ]
  Step-IsSound (subscribed st handle sub_value) h = elim (Option-cases (find 0 st.conns handle)) [
    | inl e ↦ rw (e, on_subscribe) h
    | inr (i, e) ↦ rw (e, on_subscribe) (put_slot-IsSound st i _ h (held st i h))
  ]
  Step-IsSound (written st handle bytes) h = elim (Option-cases (find 0 st.conns handle)) [
    | inl e ↦ rw (e, on_write) h
    | inr (i, e) ↦ rw (e, on_write) (put_slot-IsSound st i _ h (held st i h))
  ]
  Step-IsSound (pumped st i) h = pump_slot-IsSound st i h

  Reach-IsSound : {start st : EspBle R S} → IsSound start → Reach start st → IsSound st
  Reach-IsSound h here = h
  Reach-IsSound h (next path step) = Step-IsSound step (Reach-IsSound h path)

  -- A central inherits nothing. In any state that callbacks and turns of the loop can lead to, in
  -- any order, a central that connects while a slot is free has that slot, and the slot is not
  -- registered, not authenticated, not subscribed, with no byte waiting and no frame begun.
  pub on_connect_fresh :
      (start st : EspBle R S) (handle i : ℕ)
      → IsSound start
      → Reach start st
      → first_free 0 st.conns ≡ some i
      → let q = on_connect ports first_sink st handle in
        let c = slot ports first_sink q i in
        (i < max_centrals)
        × (c.handle ≡ handle)
        × (c.in_use ≡ true)
        × (c.registered ≡ false)
        × (c.subscribed ≡ false)
        × (available c.rx ≡ 0)
        × (c.reader ≡ reset)
        × (q.proc.authenticated (first_sink + i) ≡ false)
  unfolding on_connect claim available RxFifo.clear
  on_connect_fresh start st handle i sound path free =
      let h = Reach-IsSound sound path in
      let (_, below, unused) = first_free_lem st.conns 0 i free in
      let inside : i < length st.conns = omega (arith, below) in
      let c = slot ports first_sink st i in
      let same : i - 0 ≡ i = omega arith in
      let was_free : c.in_use ≡ false =
        ap (λ (n : ℕ). (get_or st.conns n no_connection).in_use) (sym same) ∙ unused in
      let unregistered : c.registered ≡ false = elim (held st i h) [
        | inl e ↦ e
        | inr used ↦ absurd (false≢true (sym was_free ∙ used))
      ] in
      let fresh : Connection = record c {
        handle = handle;
        in_use = true;
        pending_disconnect = false;
        subscribed = false;
        rx = RxFifo.clear c.rx;
        reader = reset;
      } in
      let there : get_or (set st.conns i fresh) i no_connection ≡ fresh =
        get_or-set_same st.conns i fresh no_connection inside in
      rw (free, on_connect)
        (
          omega (arith, h.0),
          ap (λ (d : Connection). d.handle) there,
          ap (λ (d : Connection). d.in_use) there,
          ap (λ (d : Connection). d.registered) there ∙ unregistered,
          ap (λ (d : Connection). d.subscribed) there,
          ap (λ (d : Connection). available d.rx) there ∙ omega arith,
          ap (λ (d : Connection). d.reader) there,
          rw (==_refl (first_sink + i)) refl,
        )
