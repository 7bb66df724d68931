-- ===== src/Store/Since.antt =====
-- `fetch_since` and `count_since` against the list of retained packets.
use mathlib.Core.List.{foldl}
use meshpigeon_firmware.Prelude.{
  ℕ, zero, suc, ◌+◌, ◌-◌, ◌^◌, ◌≤◌, ◌<◌, ◌≡◌, refl, ap, ◌∙◌, sym, ◌⊎◌, inl, inr, List, [], ◌∷◌,
  Bool, true, false, not, arith, length, take, ltb, if◌then◌else◌, min, lt→ltb, le→ltb, dec_lt,
  Bool-cases,
}
use meshpigeon_firmware.Store.{
  StoredPacket, PacketStore, next_offset, count_since, fetch_loop, fetch_since,
}
use meshpigeon_firmware.Store.Layout.{Seqs, Retains, read_header-Holds, read_entry-Holds}
use meshpigeon_firmware.Store.Walk.{From, From-head, From-Step, wrap_small}

-- The retained packets behind a cursor.
unfoldable pub newer : ℕ → List StoredPacket → List StoredPacket
newer since_seq [] = []
newer since_seq (e ∷ es) =
    if ltb since_seq e.seq then e ∷ newer since_seq es else newer since_seq es

module _ {ℓ} {C : Type ℓ} (cb : C → StoredPacket → C × Bool) where
  -- The callbacks in order over a list, until there are enough or one of them stops.
  unfoldable pub deliver : List StoredPacket → ℕ → ℕ → C → ℕ × C
  deliver [] max_count delivered c = (delivered, c)
  deliver (e ∷ es) max_count delivered c =
      let (c', more) = cb c e in
      let rest = deliver es max_count (delivered + 1) c' in
      if not (ltb delivered max_count)
      then (delivered, c)
      else if more
      then rest
      else (delivered, c')

  deliver_full :
      (es : List StoredPacket) (max_count delivered : ℕ) (c : C)
      → ltb delivered max_count ≡ false
      → deliver es max_count delivered c ≡ (delivered, c)
  unfolding deliver
  deliver_full [] max_count delivered c h = refl
  deliver_full (e ∷ es) max_count delivered c h = rw h

  fetch_loop-deliver :
      (s : PacketStore) (es : List StoredPacket) (since_seq max_count off delivered : ℕ) (c : C)
      → s.wrap ≤ 2 ^ 31
      → From s off es
      → fetch_loop cb (length es) s since_seq max_count off delivered c
        ≡ deliver (newer since_seq es) max_count delivered c
  unfolding fetch_loop newer deliver
  fetch_loop-deliver s [] since_seq max_count off delivered c small f = refl
  fetch_loop-deliver s (e ∷ es) since_seq max_count off delivered c small f =
      let step = From-Step s small off (e ∷ es) f in
      rw (read_header-Holds s off e step.0, read_entry-Holds s off e step.0)
        (elim (Bool-cases (ltb since_seq e.seq)) [
          | inl new ↦ rw (
            new,
            fetch_loop-deliver s es since_seq max_count (next_offset s off e.len) (delivered + 1)
                (cb c e).0 small step.1,
          )
          | inr old ↦ elim (Bool-cases (ltb delivered max_count)) [
            | inl more ↦
                rw (old, more)
                  (fetch_loop-deliver s es since_seq max_count (next_offset s off e.len) delivered c
                    small step.1)
            | inr full ↦
                rw (old, full) (sym (deliver_full (newer since_seq es) max_count delivered c full))
          ]
        ])

  fetch_counted :
      (s : PacketStore) (es : List StoredPacket) (since_seq max_count : ℕ) (c : C)
      → Retains s es
      → (es ≡ []) ⊎ (s.wrap ≤ 2 ^ 31)
      → fetch_since cb s since_seq max_count c ≡ deliver (newer since_seq es) max_count 0 c
  unfolding fetch_since
  fetch_counted s [] since_seq max_count c v (inr small) =
      rw v.counted (unfold fetch_loop newer deliver in refl)
  fetch_counted s (e ∷ es) since_seq max_count c v (inl q) = absurd (cc)
  fetch_counted s [] since_seq max_count c v (inl q) =
      rw v.counted (unfold fetch_loop newer deliver in refl)
  fetch_counted s (e ∷ es) since_seq max_count c v (inr small) =
      ap (λ (k : ℕ). fetch_loop cb k s since_seq max_count s.head_off 0 c) v.counted
      ∙ fetch_loop-deliver s (e ∷ es) since_seq max_count s.head_off 0 c small
          (From-head s (e ∷ es) v.layout)

  deliver_all :
      ((c : C) (e : StoredPacket) → (cb c e).1 ≡ true)
      → (es : List StoredPacket) (room delivered max_count : ℕ) (c : C)
      → delivered + room ≡ max_count
      → deliver es max_count delivered c
        ≡ (delivered + min room (length es), foldl (λ a e. (cb a e).0) c (take room es))
  unfolding deliver
  deliver_all go [] zero delivered max_count c h =
      let none_left : delivered ≡ delivered + min 0 0 = omega arith in
      ap (λ (k : ℕ). (k, c)) none_left
  deliver_all go [] (suc room) delivered max_count c h =
      let none_left : delivered ≡ delivered + min (suc room) 0 = omega arith in
      ap (λ (k : ℕ). (k, c)) none_left
  deliver_all go (e ∷ es) zero delivered max_count c h =
      let full : delivered ≡ delivered + min 0 (suc (length es)) = omega arith in
      rw (le→ltb delivered max_count (omega arith)) (ap (λ (k : ℕ). (k, c)) full)
  deliver_all go (e ∷ es) (suc room) delivered max_count c h =
      let one_more : delivered + 1 + min room (length es)
          ≡ delivered + min (suc room) (suc (length es)) =
        omega arith in
      rw
        (
          lt→ltb delivered max_count (omega arith),
          go c e,
          deliver_all go es room (delivered + 1) max_count (cb c e).0 (omega arith),
        )
        (ap (λ (k : ℕ). (k, foldl (λ a e. (cb a e).0) (cb c e).0 (take room es))) one_more)

  -- A callback that never stops gets the retained packets behind the cursor, oldest first, as many
  -- as were asked for, each as it was stored; the number of them is returned.
  pub fetch_since_lem :
      (s : PacketStore) (es : List StoredPacket) (since_seq max_count : ℕ) (c : C)
      → Retains s es
      → ((c : C) (e : StoredPacket) → (cb c e).1 ≡ true)
      → let behind = newer since_seq es in
        fetch_since cb s since_seq max_count c
        ≡ (min max_count (length behind), foldl (λ a e. (cb a e).0) c (take max_count behind))
  fetch_since_lem s es since_seq max_count c v go =
      fetch_counted s es since_seq max_count c v (wrap_small s es v v.layout)
      ∙ deliver_all go (newer since_seq es) max_count 0 max_count c (omega arith)
      ∙ ap (λ (k : ℕ). (k, foldl (λ a e. (cb a e).0) c (take max_count (newer since_seq es))))
          from_zero
    where
      from_zero :
          0 + min max_count (length (newer since_seq es))
          ≡ min max_count (length (newer since_seq es))
      from_zero = omega arith

newer_of_lt :
    (n since_seq : ℕ) (es : List StoredPacket)
    → Seqs n es
    → since_seq < n
    → length (newer since_seq es) ≡ length es
unfolding newer
newer_of_lt n since_seq [] h k = refl
newer_of_lt n since_seq (e ∷ es) h k =
    rw (lt→ltb since_seq e.seq (omega (arith, h.0)))
      (ap suc (newer_of_lt (n + 1) since_seq es h.1 (omega arith)))

newer_of_le :
    (n since_seq : ℕ) (es : List StoredPacket)
    → Seqs n es
    → n ≤ since_seq
    → length (newer since_seq es) ≡ n + length es - (since_seq + 1)
unfolding newer
newer_of_le n since_seq [] h k = omega arith
newer_of_le n since_seq (e ∷ es) h k =
    rw (le→ltb since_seq e.seq (omega (arith, h.0))) (elim (dec_lt n since_seq) [
      | yes below ↦ omega (arith, newer_of_le (n + 1) since_seq es h.1 (omega arith))
      | no at ↦ omega (arith, newer_of_lt (n + 1) since_seq es h.1 (omega arith))
    ])

-- `count_since` is the number of packets behind the cursor, for every cursor but the largest.
pub count_since-eq-length :
    (s : PacketStore) (es : List StoredPacket) (since_seq : ℕ)
    → Retains s es
    → since_seq + 1 < 2 ^ 32
    → count_since s since_seq ≡ length (newer since_seq es)
unfolding count_since
count_since-eq-length s es since_seq v h = elim (dec_lt since_seq s.head_seq) [
  | yes below ↦ rw (lt→ltb since_seq s.head_seq below) (
      ground
        (arith, v.counted, v.last, v.seq_fits, newer_of_lt s.head_seq since_seq es v.seqs below))
  | no from ↦ rw (le→ltb since_seq s.head_seq (omega arith)) (
      ground (
        arith,
        v.counted,
        v.last,
        v.seq_fits,
        newer_of_le s.head_seq since_seq es v.seqs (omega arith),
      ))
]

newer_none :
    (n since_seq : ℕ) (es : List StoredPacket)
    → Seqs n es
    → n + length es ≤ since_seq + 1
    → newer since_seq es ≡ []
unfolding newer
newer_none n since_seq [] h k = refl
newer_none n since_seq (e ∷ es) h k =
    rw (le→ltb since_seq e.seq (omega (arith, h.0)))
      (newer_none (n + 1) since_seq es h.1 (omega arith))

-- For the largest cursor `since_seq + 1` wraps to 0: every sequence number ever given out is
-- counted, where no packet is behind the cursor.
pub count_since_wraps :
    (s : PacketStore) (e : StoredPacket) (es : List StoredPacket)
    → Retains s (e ∷ es)
    → (count_since s (2 ^ 32 - 1) ≡ s.next_seq) × (newer (2 ^ 32 - 1) (e ∷ es) ≡ [])
count_since_wraps s e es v = (
  unfold count_since in ground (arith, v.counted, v.last, v.seq_fits),
  newer_none s.head_seq (2 ^ 32 - 1) (e ∷ es) v.seqs (omega (arith, v.last, v.seq_fits)),
)
