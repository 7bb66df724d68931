-- ===== src/Transports/NrfBle/Ring.antt =====
-- The ring of frames as one stream of bytes: what is out, and what is still to go.
use meshpigeon_firmware.Prelude.{
  All-get_or, All-set, get_or-set_other, get_or-set_same, ℕ, zero, suc, ◌+◌, ◌-◌, ◌%◌, ◌≤◌, ◌<◌,
  ◌≡◌, ◌≢◌, refl, sym, subst, ap, ap₂, ◌∙◌, List, [], ◌∷◌, ◌++◌, append-nil, append_assoc, arith,
  ◌==◌, length, length-set, take, drop, drop-drop, take-append-drop, set, get_or, All, Bool-cases,
  ==_iff, inl, inr,
}
use meshpigeon_firmware.Transports.NrfBle.{Uart, Queued, NrfBle, queue_depth, empty_slot, advance}

-- A slot's frame is its buffer, of which some bytes are out.
pub record IsQueued (q : Queued) : Type 0 where
  pub whole : length q.buf ≡ q.len
  pub inside : q.off ≤ q.len

pub record IsRing (U : Type 0) (s : NrfBle U) : Type 0 where
  pub slots : length s.queue ≡ queue_depth
  pub head_in : s.head < queue_depth
  pub fits : s.count ≤ queue_depth
  pub queued : All IsQueued s.queue

-- What is still to go of `n` frames from slot `i` on.
unfoldable pub bytes_from : List Queued → ℕ → ℕ → List ℕ
bytes_from queue i zero = []
bytes_from queue i (suc n) =
    let q = get_or queue i empty_slot in
    drop q.off q.buf ++ bytes_from queue ((i + 1) % queue_depth) n

-- A slot that is `far` behind the first of `n` is not one of them.
pub bytes_from-set :
    (n i far : ℕ) (queue : List Queued) (v : Queued)
    → n ≤ far
    → far < queue_depth
    → i < queue_depth
    → bytes_from (set queue ((i + far) % queue_depth) v) i n ≡ bytes_from queue i n
unfolding bytes_from
bytes_from-set zero i far queue v h k l = refl
bytes_from-set (suc n) i zero queue v h k l = absurd (omega arith)
bytes_from-set (suc n) i (suc far) queue v h k l =
    let apart : i ≢ (i + suc far) % queue_depth = λ e. omega arith in
    let same : (i + suc far) % queue_depth ≡ ((i + 1) % queue_depth + far) % queue_depth =
      omega arith in
    let rest =
      bytes_from-set n ((i + 1) % queue_depth) far queue v (omega arith) (omega arith)
        (omega arith) in
    ap₂ (λ (q : Queued) (t : List ℕ). drop q.off q.buf ++ t)
      (get_or-set_other queue i ((i + suc far) % queue_depth) v empty_slot apart)
      (ap (λ (j : ℕ). bytes_from (set queue j v) ((i + 1) % queue_depth) n) same ∙ rest)

pub bytes_from_last :
    (n i : ℕ) (queue : List Queued)
    → i < queue_depth
    → let last = get_or queue ((i + n) % queue_depth) empty_slot in
      bytes_from queue i (suc n) ≡ bytes_from queue i n ++ drop last.off last.buf
unfolding bytes_from
bytes_from_last zero i queue h =
    let here : (i + 0) % queue_depth ≡ i = omega arith in rw here (append-nil _)
bytes_from_last (suc n) i queue h =
    let q = get_or queue i empty_slot in
    let same : ((i + 1) % queue_depth + n) % queue_depth ≡ (i + suc n) % queue_depth =
      omega arith in
    ap (◌++◌ (drop q.off q.buf)) (
      bytes_from_last n ((i + 1) % queue_depth) queue (omega arith)
      ∙ ap
          (λ (j : ℕ).
            bytes_from queue ((i + 1) % queue_depth) n
            ++ drop (get_or queue j empty_slot).off (get_or queue j empty_slot).buf)
          same)
    ∙ sym (append_assoc (drop q.off q.buf) _ _)

-- The front frame at slot `i`, cut at `w` bytes: these go out, and the others stay.
front_cut :
    (queue : List Queued) (i n w : ℕ)
    → i < queue_depth
    → length queue ≡ queue_depth
    → n < queue_depth
    → let q = get_or queue i empty_slot in
      let moved = record q { off = q.off + w } in
      bytes_from queue i (suc n)
      ≡ take w (drop q.off q.buf) ++ bytes_from (set queue i moved) i (suc n)
unfolding bytes_from
front_cut queue i n w h k l =
    let q = get_or queue i empty_slot in
    let moved = record q { off = q.off + w } in
    let next = (i + 1) % queue_depth in
    let back : (next + 15) % queue_depth ≡ i = omega arith in
    let others : bytes_from (set queue i moved) next n ≡ bytes_from queue next n =
      ap (λ (j : ℕ). bytes_from (set queue j moved) next n) (sym back)
      ∙ bytes_from-set n next 15 queue moved (omega arith) (omega arith) (omega arith) in
    let front : get_or (set queue i moved) i empty_slot ≡ moved =
      get_or-set_same queue i moved empty_slot (omega arith) in
    let cut : drop q.off q.buf ≡ take w (drop q.off q.buf) ++ drop (q.off + w) q.buf =
      sym (take-append-drop w (drop q.off q.buf))
      ∙ ap (◌++◌ (take w (drop q.off q.buf))) (drop-drop q.off w q.buf) in
    ap (λ (t : List ℕ). t ++ bytes_from queue next n) cut
    ∙ append_assoc (take w (drop q.off q.buf)) (drop (q.off + w) q.buf) (bytes_from queue next n)
    ∙ ap₂ (λ (g : Queued) (t : List ℕ). take w (drop q.off q.buf) ++ (drop g.off g.buf ++ t))
        (sym front) (sym others)

drop-all {ℓ} : {A : Type ℓ} (n : ℕ) (xs : List A) → length xs ≤ n → drop n xs ≡ []
drop-all zero [] h = refl
drop-all zero (x ∷ xs) h = absurd (omega arith)
drop-all (suc n) [] h = refl
drop-all (suc n) (x ∷ xs) h = drop-all n xs (omega arith)

-- A frame that is out adds nothing.
front_out :
    (queue : List Queued) (i n : ℕ)
    → let q = get_or queue i empty_slot in
      length q.buf ≤ q.off → bytes_from queue i (suc n) ≡ bytes_from queue ((i + 1) % queue_depth) n
unfolding bytes_from
front_out queue i n out =
    ap (λ (t : List ℕ). t ++ bytes_from queue ((i + 1) % queue_depth) n)
      (drop-all (get_or queue i empty_slot).off (get_or queue i empty_slot).buf out)

module _ {U : Type 0} where
  -- What the ring still has to send.
  abbrev pub pending : NrfBle U → List ℕ
  pending s = bytes_from s.queue s.head s.count

module _ {U : Type 0} (uart : Uart U) where
  pub advance-pending :
      (s : NrfBle U) (w : ℕ)
      → IsRing U s
      → 1 ≤ s.count
      → (get_or s.queue s.head empty_slot).off + w ≤ (get_or s.queue s.head empty_slot).len
      → let q = get_or s.queue s.head empty_slot in
        IsRing U (advance uart s w)
        × (pending s ≡ take w (drop q.off q.buf) ++ pending (advance uart s w))
        × ((advance uart s w).uart ≡ s.uart)
  unfolding advance
  advance-pending s w ring some_left fits =
      let q = get_or s.queue s.head empty_slot in
      let sound =
        All-get_or IsQueued s.queue s.head empty_slot ring.queued
          (record { whole = refl; inside = omega arith }) in
      let moved = record q { off = q.off + w } in
      let moved_queue = set s.queue s.head moved in
      let still : All IsQueued moved_queue =
        All-set IsQueued s.queue s.head moved ring.queued
          (record { whole = sound.whole; inside = fits }) in
      let same_length = length-set s.queue s.head moved ∙ ring.slots in
      let counted : s.count ≡ suc (s.count - 1) = omega arith in
      let cut =
        ap (bytes_from s.queue s.head) counted
        ∙ front_cut s.queue s.head (s.count - 1) w ring.head_in ring.slots
            (omega (arith, ring.fits)) in
      let front : get_or moved_queue s.head empty_slot ≡ moved =
        get_or-set_same s.queue s.head moved empty_slot (omega (arith, ring.head_in, ring.slots)) in
      elim (Bool-cases (q.off + w == q.len)) [
        | inl out ↦
            let all_out : length (get_or moved_queue s.head empty_slot).buf
                ≤ (get_or moved_queue s.head empty_slot).off =
              subst (λ (g : Queued). length g.buf ≤ g.off) (sym front)
                (omega (arith, sound.whole, (==_iff (q.off + w) q.len).0 out)) in
            rw out (
              record {
                slots = same_length;
                head_in = omega arith;
                fits = omega (arith, ring.fits);
                queued = still;
              },
              cut
                  ∙ ap (◌++◌ (take w (drop q.off q.buf)))
                      (front_out moved_queue s.head (s.count - 1) all_out),
              refl,
            )
        | inr more ↦ rw more (
          record { slots = same_length; head_in = ring.head_in; fits = ring.fits; queued = still },
          cut
              ∙ ap (λ (n : ℕ). take w (drop q.off q.buf) ++ bytes_from moved_queue s.head n)
                  (sym counted),
          refl,
        )
      ]
