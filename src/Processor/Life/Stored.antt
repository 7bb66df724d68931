-- ===== src/Processor/Life/Stored.antt =====
-- What a request does to the packet store.
use meshpigeon_firmware.Prelude.{
  ℕ, ◌*◌, ◌%◌, ◌^◌, ◌≤◌, ◌<◌, ◌≡◌, refl, ◌⊎◌, inl, inr, List, true, false, not, ◌||◌, none, arith,
  ltb, ◌==◌, length, Bool-cases, if_holds, if_true_holds, if_false_holds, bit_or_high,
}
use meshpigeon_firmware.Store
use meshpigeon_firmware.Store.{PacketStore, StoredPacket, append}
use meshpigeon_firmware.Clock.{UptimeClock, uptime_ms64}
use meshpigeon_firmware.Processor.Message.{Ports, Op, ErrorCode, Answer, Event}
use meshpigeon_firmware.Processor.State.{Processor, is_authorized}
use meshpigeon_firmware.Processor.Reply.{reply, emit_tx_result}
use meshpigeon_firmware.Processor.Checks.{max_raw_packet, flag_sent}
use meshpigeon_firmware.Processor.Handle.{
  guarded, start_transmission, handle_send_packet, handle_factory_reset, handle_request,
}
use meshpigeon_firmware.Processor.Bystander.{reply_keeps, error_keeps, push_keeps, call_hook_keeps}
use meshpigeon_firmware.Processor.Life.Untouched.{
  Shelf, shelf, Same, Same-IsBystander, request-Same,
}

-- An uptime is 64 bits wide where the source of the clock is 32 bits wide.
pub uptime_fits : (c : UptimeClock) → c.last_ms < 2 ^ 32 → uptime_ms64 c < 2 ^ 64
unfolding uptime_ms64
uptime_fits c h =
    let high = c.rollovers % 2 ^ 32 in
    let split : c.rollovers * 2 ^ 32 % 2 ^ 64 ≡ high * 2 ^ 32 = omega arith in
    rw split (omega (arith, bit_or_high 32 high c.last_ms h))

module _ {R S : Type 0} (ports : Ports R S) where
  abbrev pub appended : Processor R S → ℕ → ℕ → ℕ → List ℕ → PacketStore
  appended p rssi snr flags raw = (append p.store (uptime_ms64 p.clock) rssi snr flags raw).store

  -- What a request of `from` does to the store.
  abbrev pub Moved : Processor R S → Op → ℕ → Shelf → Type 0
  Moved p op from s =
      (s ≡ (p.store, p.clock))
      ⊎ (((is_authorized p from ≡ true)
            × ((op ≡ Op.purge_store) ⊎ (op ≡ Op.factory_reset))
            × (s ≡ (Store.clear p.store, p.clock)))
          ⊎ ((is_authorized p from ≡ true)
              × ((raw : List ℕ) × (op ≡ Op.send_packet raw)
                  × (length raw ≤ max_raw_packet)
                  × (s ≡ (appended p 0 0 flag_sent raw, p.clock)))))

  send_packet-Moved :
      (p : Processor R S) (id : ℕ) (raw : List ℕ) (from : ℕ)
      → Moved p
          (Op.send_packet raw)
          from
          (shelf ports (p.store, p.clock) (handle_send_packet ports p id raw from))
  unfolding handle_send_packet start_transmission emit_tx_result
  send_packet-Moved p id raw from =
      let now : Shelf = (p.store, p.clock) in
      let then_stored : Shelf = (appended p 0 0 flag_sent raw, p.clock) in
      let Fine : Processor R S → Type 0 =
        λ q. Moved p (Op.send_packet raw) from (q.store, q.clock) in
      let stored = record p { store = appended p 0 0 flag_sent raw } in
      let told =
        reply ports stored id from
          (Answer.packet_accepted (append p.store (uptime_ms64 p.clock) 0 0 flag_sent raw).seq) in
      let tried = record told { radio = (ports.transmit told.radio raw).0 } in
      let law = Same-IsBystander ports now in
      let law' = Same-IsBystander ports then_stored in
      let k = reply_keeps ports (Same ports then_stored) law' stored id from _ refl in
      elim (Bool-cases (is_authorized p from)) [
        | inr outside ↦
            if_false_holds Fine (is_authorized p from) _ _ outside
              (inl (error_keeps ports (Same ports now) law p id ErrorCode.auth_required from refl))
        | inl inside ↦
            if_true_holds Fine (is_authorized p from) _ _ inside
              (elim (Bool-cases (length raw == 0 || ltb max_raw_packet (length raw))) [
                | inl bad ↦
                    if_true_holds Fine (length raw == 0 || ltb max_raw_packet (length raw)) _ _ bad
                      (inl (
                        error_keeps ports (Same ports now) law p id ErrorCode.bad_payload from
                          refl))
                | inr good ↦
                    let fits : length raw ≤ max_raw_packet = ground (arith, good) in
                    let done : (s : Shelf) → s ≡ then_stored → Moved p (Op.send_packet raw) from s =
                      λ s e. inr (inr (inside, (raw, refl, fits, e))) in
                    if_false_holds Fine (length raw == 0 || ltb max_raw_packet (length raw)) _ _
                      good
                      (if_holds Fine (not p.radio_ok) _ _
                        (inl (
                          error_keeps ports (Same ports now) law p id ErrorCode.no_radio from refl))
                        (if_holds Fine p.tx_pending _ _
                          (inl
                            (error_keeps ports (Same ports now) law p id ErrorCode.busy from refl))
                          (if_holds Fine
                            ((append p.store (uptime_ms64 p.clock) 0 0 flag_sent raw).seq == 0) _ _
                            (done _ (
                              error_keeps ports (Same ports then_stored) law' stored id
                                ErrorCode.busy from refl))
                            (if_holds Fine (not (ports.transmit told.radio raw).1) _ _
                              (done _ (
                                push_keeps ports (Same ports then_stored) law' tried none false _
                                  k))
                              (done _ k)))))
              ])
      ]

  -- A gated request that empties the store.
  emptied_holds :
      (p q : Processor R S) (id from : ℕ) (op : Op)
      → ((op ≡ Op.purge_store) ⊎ (op ≡ Op.factory_reset))
      → shelf ports (p.store, p.clock) q ≡ (Store.clear p.store, p.clock)
      → Moved p op from (shelf ports (p.store, p.clock) (guarded ports p id from q))
  emptied_holds p q id from op which k =
      let now : Shelf = (p.store, p.clock) in
      let Fine : Processor R S → Type 0 = λ q. Moved p op from (q.store, q.clock) in
      elim (Bool-cases (is_authorized p from)) [
        | inr outside ↦ if_false_holds Fine (is_authorized p from) _ _ outside (
            inl (
              error_keeps ports (Same ports now) (Same-IsBystander ports now) p id
                ErrorCode.auth_required from refl))
        | inl inside ↦
            if_true_holds Fine (is_authorized p from) _ _ inside (inr (inl (inside, which, k)))
      ]

  pub request-Moved :
      (p : Processor R S) (id : ℕ) (op : Op) (from : ℕ)
      → Moved p op from (shelf ports (p.store, p.clock) (handle_request ports p id op from))
  unfolding handle_request handle_factory_reset
  request-Moved p id (Op.send_packet raw) from = send_packet-Moved p id raw from
  request-Moved p id Op.purge_store from =
      let cleared : Shelf = (Store.clear p.store, p.clock) in
      emptied_holds p _ id from Op.purge_store (inl refl) (
        reply_keeps ports (Same ports cleared) (Same-IsBystander ports cleared) _ id from Answer.ok
          refl)
  request-Moved p id Op.factory_reset from =
      let cleared : Shelf = (Store.clear p.store, p.clock) in
      let law = Same-IsBystander ports cleared in
      emptied_holds p _ id from Op.factory_reset (inr refl) (
        call_hook_keeps ports (Same ports cleared) law _ Event.reset_to_factory
          (reply_keeps ports (Same ports cleared) law _ id from Answer.ok refl))
  request-Moved p id op from = inl (request-Same ports (p.store, p.clock) p id op from refl refl)
