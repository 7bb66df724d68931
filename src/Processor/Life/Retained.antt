-- ===== src/Processor/Life/Retained.antt =====
-- The retained packets while the processor runs.
use meshpigeon_firmware.Prelude.{
  ℕ, suc, ◌+◌, ◌^◌, ◌≤◌, ◌<◌, ◌≡◌, refl, sym, subst, ◌⊎◌, inl, inr, List, [], ◌∷◌, ◌++◌, true, none,
  some, arith, ◌==◌, if◌then◌else◌, length, length-append, drop, Option-cases, if_holds,
}
use meshpigeon_firmware.Store
use meshpigeon_firmware.Store.{PacketStore, StoredPacket, append}
use meshpigeon_firmware.Store.Layout.{Seqs, Retains}
use meshpigeon_firmware.Store.Append.{new_header, append_lem, clear-Retains}
use meshpigeon_firmware.Store.Write.{packet}
use meshpigeon_firmware.Clock.{UptimeClock, uptime_ms64}
use meshpigeon_firmware.Processor.Message.{Ports, Op, Request}
use meshpigeon_firmware.Processor.State.{Processor, is_authorized}
use meshpigeon_firmware.Processor.Checks.{max_raw_packet, flag_sent}
use meshpigeon_firmware.Processor.Handle.{handle_request, on_envelope}
use meshpigeon_firmware.Processor.Life.{Action}
use meshpigeon_firmware.Processor.Life.Untouched.{Shelf, shelf}
use meshpigeon_firmware.Processor.Life.Stored.{uptime_fits, request-Moved}

-- The widths of the source: a packet has at most 255 bytes, a reading of the clock 32 bits.
abbrev pub Fits : Action → Type 0
Fits (Action.heard rssi snr raw) = length raw ≤ max_raw_packet
Fits (Action.tick now) = now < 2 ^ 32
Fits (Action.envelope bytes from) = Unit
Fits (Action.join sink) = Unit
Fits (Action.leave sink) = Unit
Fits Action.wifi_changed = Unit
Fits Action.listened = Unit

-- The store retains `es`, the clock reads 32 bits, and there are `n` sequence numbers left.
pub record Keeps (s : Shelf) (n : ℕ) (es : List StoredPacket) : Type 0 where
  pub retains : Retains s.0 es
  pub reading : s.1.last_ms < 2 ^ 32
  pub numbers : s.0.next_seq + n < 2 ^ 32

last_seq :
    (n : ℕ) (xs : List StoredPacket) (e : StoredPacket)
    → Seqs n (xs ++ e ∷ [])
    → e.seq ≡ n + length xs
last_seq n [] e h = omega (arith, h.0)
last_seq n (x ∷ xs) e h = omega (arith, last_seq (n + 1) xs e h.1)

-- Some of the oldest packets are gone, and `raw` is behind the rest under the next number.
abbrev pub Added : PacketStore → List StoredPacket → List ℕ → List StoredPacket → Type 0
Added s es raw fs =
    (k : ℕ) × (e : StoredPacket) × (k ≤ length es)
    × (fs ≡ drop k es ++ e ∷ [])
    × (e.raw ≡ raw)
    × (e.seq ≡ s.next_seq)

pub append-Keeps :
    (s : PacketStore) (c : UptimeClock) (n rssi snr flags : ℕ) (raw : List ℕ)
    (es : List StoredPacket)
    → Keeps (s, c) (suc n) es
    → length raw ≤ max_raw_packet
    → (fs : List StoredPacket) × Keeps ((append s (uptime_ms64 c) rssi snr flags raw).store, c) n fs
      × ((fs ≡ es) ⊎ Added s es raw fs)
append-Keeps s c n rssi snr flags raw es h fits =
    let room = h.numbers in
    elim (append_lem s es (uptime_ms64 c) rssi snr flags raw h.retains (uptime_fits c h.reading)
      (omega (arith, fits)) (omega (arith, room))) [
        | inl (big, no_room) ↦ (
          es,
          record {
            retains = no_room.retains;
            reading = h.reading;
            numbers = omega (arith, room, no_room.same_next);
          },
          inl refl,
        )
        | inr (small, done) ↦
            let e = packet (new_header s (uptime_ms64 c) rssi snr flags raw) raw in
            let r = append s (uptime_ms64 c) rssi snr flags raw in
            let next : r.store.next_seq ≡ s.next_seq + 1 = omega (
              arith,
              last_seq r.store.head_seq (drop done.evicted es) e done.retains.seqs,
              done.retains.last,
              length-append {0} (drop done.evicted es) (e ∷ []),
            ) in
            (
              drop done.evicted es ++ e ∷ [],
              record {
                retains = done.retains;
                reading = h.reading;
                numbers = omega (arith, room, next);
              },
              inr (done.evicted, e, done.some_of, refl, refl, refl),
            )
      ]

-- A step of the processor that leads from the packets `es` to `fs`, and the reason for each change.
abbrev pub Because :
    {R S : Type 0}
    → Ports R S
    → Processor R S
    → Action
    → List StoredPacket
    → List StoredPacket
    → Type 0
Because ports p a es fs =
    (fs ≡ es)
    ⊎ (((fs ≡ [])
          × ((bytes : List ℕ) × (from : ℕ) × (r : Request) × (a ≡ Action.envelope bytes from)
              × (ports.decode bytes ≡ some r)
              × ((r.op ≡ Op.purge_store) ⊎ (r.op ≡ Op.factory_reset))
              × (is_authorized p from ≡ true)))
        ⊎ ((raw : List ℕ) × Added p.store es raw fs
            × (((rssi : ℕ) × (snr : ℕ) × (a ≡ Action.heard rssi snr raw))
                ⊎ ((bytes : List ℕ) × (from : ℕ) × (r : Request) × (a ≡ Action.envelope bytes from)
                    × (ports.decode bytes ≡ some r)
                    × (r.op ≡ Op.send_packet raw)
                    × (is_authorized p from ≡ true)))))

module _ {R S : Type 0} (ports : Ports R S) (listen : R → R) where
  -- What a step makes of the packets.
  abbrev pub Step : Processor R S → Action → ℕ → List StoredPacket → Processor R S → Type 0
  Step p a n es q =
      (fs : List StoredPacket) × Keeps (q.store, q.clock) n fs × Because ports p a es fs

  fewer : (s : Shelf) (n : ℕ) (es : List StoredPacket) → Keeps s (suc n) es → Keeps s n es
  fewer s n es h = record {
    retains = h.retains;
    reading = h.reading;
    numbers = let room = h.numbers in omega (arith, room);
  }

  pub stays :
      (p q : Processor R S) (a : Action) (n : ℕ) (es : List StoredPacket)
      → Keeps (p.store, p.clock) (suc n) es
      → shelf ports (p.store, p.clock) q ≡ (p.store, p.clock)
      → Step p a n es q
  stays p q a n es h e =
      (es, subst (λ (s : Shelf). Keeps s n es) (sym e) (fewer (p.store, p.clock) n es h), inl refl)

  request_step :
      (p : Processor R S) (bytes : List ℕ) (from : ℕ) (r : Request) (n : ℕ) (es : List StoredPacket)
      → ports.decode bytes ≡ some r
      → Keeps (p.store, p.clock) (suc n) es
      → Step p (Action.envelope bytes from) n es (handle_request ports p r.id r.op from)
  request_step p bytes from r n es decoded h = elim (request-Moved ports p r.id r.op from) [
    | inl same ↦
        stays p (handle_request ports p r.id r.op from) (Action.envelope bytes from) n es h same
    | inr (inl (inside, which, cleared)) ↦
        let wiped = clear-Retains p.store es h.retains in
        let room = h.numbers in
        let kept : Keeps (Store.clear p.store, p.clock) n [] = record {
          retains = wiped.0;
          reading = h.reading;
          numbers = omega (arith, room, wiped.1);
        } in
        (
          [],
          subst (λ (s : Shelf). Keeps s n []) (sym cleared) kept,
          inr (inl (refl, (bytes, from, r, refl, decoded, which, inside))),
        )
    | inr (inr (inside, (raw, sends, fits, stored))) ↦
        let (fs, kept, how) = append-Keeps p.store p.clock n 0 0 flag_sent raw es h fits in
        (
          fs,
          subst (λ (s : Shelf). Keeps s n fs) (sym stored) kept,
          elim how [
            | inl same ↦ inl same
            | inr added ↦ inr (inr (raw, added, inr (bytes, from, r, refl, decoded, sends, inside)))
          ],
        )
  ]

  decoded_envelope :
      (p : Processor R S) (bytes : List ℕ) (from : ℕ) (r : Request)
      → ports.decode bytes ≡ some r
      → on_envelope ports p bytes from
        ≡ (if r.id == 0 then p else handle_request ports p r.id r.op from)
  unfolding on_envelope
  decoded_envelope p bytes from r e = rw (e, on_envelope) refl

  silent_envelope :
      (p : Processor R S) (bytes : List ℕ) (from : ℕ)
      → ports.decode bytes ≡ none
      → on_envelope ports p bytes from ≡ p
  unfolding on_envelope
  silent_envelope p bytes from e = rw (e, on_envelope) refl

  pub envelope_step :
      (p : Processor R S) (bytes : List ℕ) (from n : ℕ) (es : List StoredPacket)
      → Keeps (p.store, p.clock) (suc n) es
      → Step p (Action.envelope bytes from) n es (on_envelope ports p bytes from)
  envelope_step p bytes from n es h = elim (Option-cases (ports.decode bytes)) [
    | inl e ↦
        subst (Step p (Action.envelope bytes from) n es) (sym (silent_envelope p bytes from e))
          (stays p p (Action.envelope bytes from) n es h refl)
    | inr (r, e) ↦
        let stopped = stays p p (Action.envelope bytes from) n es h refl in
        let handled = request_step p bytes from r n es e h in
        let Fine = Step p (Action.envelope bytes from) n es in
        subst Fine (sym (decoded_envelope p bytes from r e))
          (if_holds Fine (r.id == 0) p (handle_request ports p r.id r.op from) stopped handled)
  ]
