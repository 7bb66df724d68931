-- ===== src/Processor/Auth.antt =====
-- `handle_auth`: the PIN, the count of failures, and the back-off.
use meshpigeon_firmware.Prelude.{
  ℕ, ◌+◌, ◌-◌, ◌%◌, ◌^◌, ◌≤◌, ◌<◌, ◌≡◌, refl, ap, ◌∙◌, ap₂, List, Bool, true, false, ◌&&◌, ◌||◌,
  not, arith, leb, ◌==◌, Bool-cases, inl, inr, is_empty, ne→==, le→leb,
}
use meshpigeon_firmware.Clock.{UptimeClock, uptime_ms64}
use meshpigeon_firmware.Settings.Text.{strlen}
use meshpigeon_firmware.Processor.Message.{Ports, ErrorCode, Answer}
use meshpigeon_firmware.Processor.State.{
  Processor, is_authorized, pin_matches, auth_backoff_active, note_auth_failure,
}
use meshpigeon_firmware.Processor.Reply.{emit, deliver, reply, send_error}
use meshpigeon_firmware.Processor.Handle.{handle_auth}

none_fits : (a b c : Bool) → (a || b) ≡ false → c ≡ false → (a || b || c) ≡ false
none_fits true b c h k = h
none_fits false true c h k = h
none_fits false false c h k = k

backoff_runs :
    {R S : Type 0}
    → (r : Processor R S) (t : ℕ) → r.auth_backoff_until ≡ t + 1000
    → t + 1000 < 2 ^ 64
    → t ≤ uptime_ms64 r.clock
    → uptime_ms64 r.clock < t + 1000
    → auth_backoff_active r ≡ true
unfolding auth_backoff_active
backoff_runs r t until fits after soon =
    let set : (r.auth_backoff_until == 0) ≡ false =
      ne→== r.auth_backoff_until 0 (omega (arith, until)) in
    let negative : leb (2 ^ 63) ((uptime_ms64 r.clock + 2 ^ 64 - r.auth_backoff_until) % 2 ^ 64)
        ≡ true =
      le→leb (2 ^ 63) ((uptime_ms64 r.clock + 2 ^ 64 - r.auth_backoff_until) % 2 ^ 64)
        (omega (arith, until, fits, after, soon)) in
    ap₂ (λ (a b : Bool). not a && b) set negative

armed :
    {R S : Type 0}
    → (p : Processor R S) → 3 ≤ p.auth_fails
    → uptime_ms64 p.clock + 1000 < 2 ^ 64
    → (note_auth_failure p).auth_backoff_until ≡ uptime_ms64 p.clock + 1000
unfolding note_auth_failure
armed p many fits = ground (arith, many, fits)

module _ {R S : Type 0} (ports : Ports R S) where
  -- What an answer leaves as it was, of what authorization depends on.
  answered :
      (p : Processor R S) (id : ℕ) (code : ErrorCode) (to : ℕ)
      → let q = send_error ports p id code to in
        (q.clock ≡ p.clock)
        × (q.auth_fails ≡ p.auth_fails)
        × (q.auth_backoff_until ≡ p.auth_backoff_until)
        × (q.authenticated ≡ p.authenticated)
        × (q.device ≡ p.device)
  unfolding send_error reply deliver emit
  answered p id code to =
      elim (Bool-cases (is_empty (ports.encode (record { id = id; answer = Answer.error code })))) [
        | inl e ↦ rw e (refl, refl, refl, refl, refl)
        | inr e ↦ rw e (refl, refl, refl, refl, refl)
      ]

  -- A wrong PIN from a connection that is not authorized, with no penalty running.
  wrong_pin :
      (p : Processor R S) (id : ℕ) (pin : List ℕ) (from : ℕ)
      → auth_backoff_active p ≡ false
      → is_authorized p from ≡ false
      → pin_matches p pin (strlen pin) ≡ false
      → handle_auth ports p id pin from
        ≡ send_error ports (note_auth_failure p) id ErrorCode.auth_required from
  unfolding handle_auth is_authorized
  wrong_pin p id pin from idle out wrong = rw (idle, none_fits (p.authenticated from) _ _ out wrong)

  refused_unread :
      (p : Processor R S) (id : ℕ) (pin : List ℕ) (from : ℕ)
      → auth_backoff_active p ≡ true
      → handle_auth ports p id pin from ≡ send_error ports p id ErrorCode.auth_required from
  unfolding handle_auth
  refused_unread p id pin from active = rw active

  -- A wrong PIN that is read when three or more have failed already makes every attempt of any
  -- connection in the next second be refused unread, the right PIN too, which leaves the processor as
  -- it is. The clock must be more than a second short of the end of its 64 bits.
  pub handle_auth_backoff :
      (p : Processor R S) (id : ℕ) (pin : List ℕ) (from : ℕ) (id' : ℕ) (pin' : List ℕ) (from' : ℕ)
      (clock' : UptimeClock)
      → auth_backoff_active p ≡ false
      → is_authorized p from ≡ false
      → pin_matches p pin (strlen pin) ≡ false
      → 3 ≤ p.auth_fails
      → uptime_ms64 p.clock + 1000 < 2 ^ 64
      → uptime_ms64 p.clock ≤ uptime_ms64 clock'
      → uptime_ms64 clock' < uptime_ms64 p.clock + 1000
      → let later = record (handle_auth ports p id pin from) { clock = clock' } in
        handle_auth ports later id' pin' from'
        ≡ send_error ports later id' ErrorCode.auth_required from'
  handle_auth_backoff p id pin from id' pin' from' clock' idle out wrong many fits after soon =
      let refused = wrong_pin p id pin from idle out wrong in
      let until : (handle_auth ports p id pin from).auth_backoff_until
          ≡ uptime_ms64 p.clock + 1000 =
        ap (λ (q : Processor R S). q.auth_backoff_until) refused
        ∙ (answered (note_auth_failure p) id ErrorCode.auth_required from).2
        ∙ armed p many fits in
      let active =
        backoff_runs (record (handle_auth ports p id pin from) { clock = clock' })
          (uptime_ms64 p.clock) until fits after soon in
      refused_unread (record (handle_auth ports p id pin from) { clock = clock' }) id' pin' from'
        active

  -- The count of failures saturates: it never leaves its byte, and no number of failures brings it
  -- back under the threshold.
  pub note_auth_failure-saturates :
      (p : Processor R S)
      → p.auth_fails < 256
      → let q = note_auth_failure p in
        (q.auth_fails < 256) × (p.auth_fails ≤ q.auth_fails) × (0 < q.auth_fails)
  unfolding note_auth_failure
  note_auth_failure-saturates p h = ground (arith, h)
