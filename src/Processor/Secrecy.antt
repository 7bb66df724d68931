-- ===== src/Processor/Secrecy.antt =====
-- What a connection that is not authorized is sent, one call at a time.
mod Tests
pub mod Handlers
pub mod Requests
pub mod Runs
pub mod Entry
pub mod Pin
use meshpigeon_firmware.Prelude.{
  ℕ, ◌≡◌, ◌≢◌, refl, ap, sym, ◌∙◌, List, [], ◌∷◌, ◌++◌, append-nil, append_assoc, map, Bool, true,
  false, not, ◌&&◌, Option, if◌then◌else◌, ◌==◌, Bool-cases, if_holds, ==_iff, All, All-append,
  is_empty, ◌⊎◌, inl, inr, ℕ_discrete,
}
use mathlib.Core.Bool.{false≢true}
use meshpigeon_firmware.Processor.Message.{Ports, Response, Answer, Event}
use meshpigeon_firmware.Processor.State.{Processor, is_authorized}
use meshpigeon_firmware.Processor.Reply.{
  recipients, emit, deliver, broadcast_response, reply, is_same,
}

-- The answers that anyone may have.
unfoldable pub is_public : Answer → Bool
is_public (Answer.pong payload) = true
is_public Answer.ok = true
is_public (Answer.error code) = true
is_public (Answer.device_info m) = true
is_public (Answer.status m) = true
is_public (Answer.tx_result seq success) = true
is_public (Answer.radio_settings m) = false
is_public (Answer.device_settings m) = false
is_public (Answer.packet_entry e) = false
is_public (Answer.packet_accepted seq) = false
is_public (Answer.fetch_end n) = false

module _ {R S : Type 0} (ports : Ports R S) (c : ℕ) where
  -- No frame to `c`, or one with a public answer.
  abbrev pub IsOpen : Event → Type 0
  IsOpen (Event.frame to buf) =
      (to ≢ c) ⊎ ((r : Response) × (buf ≡ ports.encode r) × (is_public r.answer ≡ true))
  IsOpen (Event.named name) = Unit
  IsOpen (Event.wifi_applied d) = Unit
  IsOpen Event.rebooted = Unit
  IsOpen Event.rebooted_to_bootloader = Unit
  IsOpen Event.reset_to_factory = Unit

  -- Behind `xs`, `zs` holds nothing for `c` but public answers.
  abbrev pub Adds : List Event → List Event → Type 0
  Adds xs zs = (events : List Event) × (zs ≡ xs ++ events) × All IsOpen events

  -- From `p` to `q` nothing was sent to `c` but public answers.
  abbrev pub Quiet : Processor R S → Processor R S → Type 0
  Quiet p q = Adds p.out q.out

  pub Quiet-refl : (p : Processor R S) → Quiet p p
  Quiet-refl p = ([], sym (append-nil p.out), tt)

  pub Adds-trans : (xs ys zs : List Event) → Adds xs ys → Adds ys zs → Adds xs zs
  Adds-trans xs ys zs (es, e, h) (fs, f, k) = (
    es ++ fs,
    f ∙ ap (λ (t : List Event). t ++ fs) e ∙ append_assoc xs es fs,
    All-append IsOpen es fs h k,
  )

  pub Quiet-emit :
      (p : Processor R S) (events : List Event) → All IsOpen events → Quiet p (emit p events)
  unfolding emit
  Quiet-emit p events h = (events, refl, h)

  pub reply-other :
      (p : Processor R S) (id to : ℕ) (answer : Answer)
      → to ≢ c
      → Quiet p (reply ports p id to answer)
  unfolding reply deliver
  reply-other p id to answer other =
      if_holds (Quiet p) (is_empty (ports.encode (record { id = id; answer = answer }))) _ _
        (Quiet-refl p) (Quiet-emit p _ (inl other, tt))

  pub reply-public :
      (p : Processor R S) (id to : ℕ) (answer : Answer)
      → is_public answer ≡ true
      → Quiet p (reply ports p id to answer)
  unfolding reply deliver
  reply-public p id to answer open_to_all =
      let r : Response = record { id = id; answer = answer } in
      if_holds (Quiet p) (is_empty (ports.encode r)) _ _ (Quiet-refl p)
        (Quiet-emit p _ (inr (r, refl, open_to_all), tt))

  frames_public :
      (ss : List ℕ) (r : Response)
      → is_public r.answer ≡ true
      → All IsOpen (map (λ s. Event.frame s (ports.encode r)) ss)
  frames_public [] r h = tt
  frames_public (s ∷ ss) r h = (inr (r, refl, h), frames_public ss r h)

  frames_authorized :
      (p : Processor R S) (except : Option ℕ) (ss : List ℕ) (buf : List ℕ)
      → is_authorized p c ≡ false
      → All IsOpen (map (λ s. Event.frame s buf) (recipients p except true ss))
  unfolding recipients
  frames_authorized p except [] buf h = tt
  frames_authorized p except (s ∷ ss) buf h =
      let rest = frames_authorized p except ss buf h in
      elim (Bool-cases (is_same s except)) [
        | inl e ↦ rw e rest
        | inr e ↦ elim (Bool-cases (is_authorized p s)) [
          | inr out ↦ rw (e, out) rest
          | inl inside ↦
              let other : s ≢ c =
                λ (same : s ≡ c). false≢true (sym h ∙ ap (is_authorized p) (sym same) ∙ inside) in
              rw (e, inside) (inl other, rest)
        ]
      ]

  pub push-public :
      (p : Processor R S) (except : Option ℕ) (authorized_only : Bool) (r : Response)
      → is_public r.answer ≡ true
      → Quiet p (broadcast_response ports p except authorized_only r)
  unfolding broadcast_response
  push-public p except authorized_only r h =
      if_holds (Quiet p) (is_empty (ports.encode r)) _ _ (Quiet-refl p)
        (Quiet-emit p _ (frames_public (recipients p except authorized_only p.sinks) r h))

  pub push-authorized :
      (p : Processor R S) (except : Option ℕ) (r : Response)
      → is_authorized p c ≡ false
      → Quiet p (broadcast_response ports p except true r)
  unfolding broadcast_response
  push-authorized p except r h =
      if_holds (Quiet p) (is_empty (ports.encode r)) _ _ (Quiet-refl p)
        (Quiet-emit p _ (frames_authorized p except p.sinks (ports.encode r) h))
