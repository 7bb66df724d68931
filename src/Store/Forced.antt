-- ===== src/Store/Forced.antt =====
-- `make_room` evicts no more than it has to: each eviction is from a ring that has no room.
use meshpigeon_firmware.Prelude.{
  ℕ, zero, suc, ◌+◌, ◌-◌, ◌≤◌, ◌<◌, ◌≡◌, ◌≢◌, refl, ap, sym, subst, ◌∙◌, List, [], ◌∷◌, Bool, true,
  false, arith, length, drop, ◌⊎◌, inl, inr, ◌==◌, ltb, ne→==, ==_iff, Bool-cases, ℕ_discrete,
}
use meshpigeon_firmware.Store.{
  StoredPacket, PacketStore, free_bytes, pop_oldest, pop_while, wrap_tail, make_room, sub32,
}
use meshpigeon_firmware.Store.Layout.{Layout, vacant, linear, wrapped, Retains}
use meshpigeon_firmware.Store.Pop.{pop_while-Evicted, pop_oldest-Retains, Straight, pop-Straight}

-- `need` bytes fit in one piece neither behind the packets nor in front of them.
abbrev pub NoRoom : PacketStore → ℕ → Type 0
NoRoom s need =
    ((s.head_off < s.tail_off) × (s.capacity < s.tail_off + need) × (s.head_off < need))
    ⊎ ((s.tail_off ≤ s.head_off) × (s.head_off < s.tail_off + need))

-- Each of `k` evictions from `s` on is from a ring without room.
abbrev pub Forced : PacketStore → ℕ → ℕ → Type 0
Forced s need zero = Unit
Forced s need (suc k) = NoRoom s need × Forced (pop_oldest s) need k

pops : ℕ → PacketStore → PacketStore
pops zero s = s
pops (suc k) s = pops k (pop_oldest s)

pop-count : (s : PacketStore) → (pop_oldest s).count ≡ s.count - 1
unfolding pop_oldest
pop-count s = refl

pops-count : (k : ℕ) (s : PacketStore) → (pops k s).count ≡ s.count - k
unfolding pops pop_oldest
pops-count zero s = omega arith
pops-count (suc k) s = omega (arith, pops-count k (pop_oldest s))

pops-pops : (j k : ℕ) (s : PacketStore) → pops k (pops j s) ≡ pops (j + k) s
unfolding pops
pops-pops zero k s = let same : k ≡ 0 + k = omega arith in ap (λ (n : ℕ). pops n s) same
pops-pops (suc j) k s =
    let same : suc (j + k) ≡ suc j + k = omega arith in
    pops-pops j k (pop_oldest s) ∙ ap (λ (n : ℕ). pops n s) same

Forced-append :
    (j k need : ℕ) (s : PacketStore)
    → Forced s need j
    → Forced (pops j s) need k
    → Forced s need (j + k)
unfolding pops
Forced-append zero k need s f g = let same : k ≡ 0 + k = omega arith in subst (Forced s need) same g
Forced-append (suc j) k need s f g =
    let same : suc (j + k) ≡ suc j + k = omega arith in
    subst (Forced s need) same (f.0, Forced-append j k need (pop_oldest s) f.1 g)

-- A number of evictions that were forced, and led from `s` to `t`.
abbrev Driven : PacketStore → ℕ → PacketStore → Type 0
Driven s need t = (k : ℕ) × (k ≤ s.count) × Forced s need k × (pops k s ≡ t)

Driven-trans :
    (s t u : PacketStore) (need : ℕ) → Driven s need t → Driven t need u → Driven s need u
Driven-trans s t u need (j, a, f, e) (k, b, g, e') =
    let fewer : (pops j s).count ≡ t.count = ap (λ (r : PacketStore). r.count) e in
    (
      j + k,
      omega (arith, a, b, fewer, pops-count j s),
      Forced-append j k need s f (subst (λ (r : PacketStore). Forced r need k) (sym e) g),
      sym (pops-pops j k s) ∙ ap (pops k) e ∙ e',
    )

module _ (need : ℕ) (test : PacketStore → Bool) (Inv : PacketStore → List StoredPacket → Type 0)
    (keep : (s : PacketStore) (e : StoredPacket) (es : List StoredPacket)
      → Retains s (e ∷ es)
      → Inv s (e ∷ es)
      → Inv (pop_oldest s) es)
    (full : (s : PacketStore) (e : StoredPacket) (es : List StoredPacket)
      → Retains s (e ∷ es)
      → Inv s (e ∷ es)
      → test s ≡ true
      → NoRoom s need) where
  pop_while-Driven :
      (fuel : ℕ) (s : PacketStore) (es : List StoredPacket)
      → Retains s es
      → Inv s es
      → Driven s need (pop_while fuel test s)
  unfolding pop_while pops
  pop_while-Driven zero s es v i = (0, omega arith, tt, refl)
  pop_while-Driven (suc fuel) s [] v i =
      let idle : (s.count == 0) ≡ true = (==_iff s.count 0).1 v.counted in
      rw idle (0, omega arith, tt, refl)
  pop_while-Driven (suc fuel) s (e ∷ es) v i = elim (Bool-cases (test s)) [
    | inr done ↦ rw (ne→== s.count 0 (omega (arith, v.counted)), done) (0, omega arith, tt, refl)
    | inl again ↦
        let (k, some_of, forced, same) =
          pop_while-Driven fuel (pop_oldest s) es (pop_oldest-Retains s e es v) (keep s e es v i) in
        rw (ne→== s.count 0 (omega (arith, v.counted)), again)
          (
            suc k,
            omega (arith, some_of, pop-count s, v.counted),
            (full s e es v i again, forced),
            same,
          )
  ]

-- A ring whose free bytes are too few has no room.
full_ring :
    (s : PacketStore) (e : StoredPacket) (es : List StoredPacket) (need : ℕ)
    → 0 < need
    → Retains s (e ∷ es)
    → Layout s (e ∷ es)
    → ltb (free_bytes s) need ≡ true
    → NoRoom s need
unfolding free_bytes
full_ring s e es need pos v (vacant q) h = absurd (cc)
full_ring s e es need pos v (linear c o i w) h =
    inl (ground (arith, h, o, i, w, v.small, v.counted))
full_ring s e es need pos v (wrapped xs ys q c d o b w) h =
    inr (o, ground (arith, h, o, b, w, v.small, v.counted))

-- In one piece, and too near to the end of the pool.
abbrev Short : ℕ → PacketStore → List StoredPacket → Type 0
Short need s es = ((es ≡ []) ⊎ Straight s es) × (s.capacity < s.tail_off + need)

Short-pop :
    (need : ℕ) (s : PacketStore) (e : StoredPacket) (es : List StoredPacket)
    → Retains s (e ∷ es)
    → Short need s (e ∷ es)
    → Short need (pop_oldest s) es
Short-pop need s e es v (g, short) = (pop-Straight s e es v g, unfold pop_oldest in short)

full_front :
    (need : ℕ) (s : PacketStore) (e : StoredPacket) (es : List StoredPacket)
    → Retains s (e ∷ es)
    → Short need s (e ∷ es)
    → ltb s.head_off need ≡ true
    → NoRoom s need
full_front need s e es v (inl q, short) h = absurd (cc)
full_front need s e es v (inr g, short) h = inl (g.order, short, ground (arith, h))

-- What the loop of `wrap_tail` leaves, behind the loop of `make_room`.
wrap_tail-Driven :
    (s : PacketStore) (es : List StoredPacket) (need : ℕ)
    → Retains s es
    → Straight s es
    → s.capacity < s.tail_off + need
    → (t : PacketStore) × Driven s need t × (t.count ≡ (wrap_tail s need).count)
unfolding wrap_tail
wrap_tail-Driven s es need v g short =
    let c = pop_while s.count (λ t. ltb t.head_off need) s in
    (
      c,
      pop_while-Driven need (λ t. ltb t.head_off need) (Short need) (Short-pop need)
          (full_front need) s.count s es v (inr g, short),
      elim (Bool-cases (c.count == 0)) [ inl z ↦ rw z refl | inr z ↦ rw z refl ],
    )

settled :
    (t : PacketStore) (fs : List StoredPacket) (need : ℕ)
    → 0 < need
    → Retains t fs
    → Layout t fs
    → t.count ≢ 0
    → ltb (free_bytes t) need ≡ false
    → ltb t.tail_off t.head_off ≡ false
    → Straight t fs
unfolding free_bytes
settled t fs need pos v (vacant q) some stop order =
    absurd (some (v.counted ∙ ap (λ (es : List StoredPacket). length es) q))
settled t fs need pos v (linear c o i w) some stop order = record {
  chain = c;
  order = o;
  inside = i;
  whole = w;
}
settled t fs need pos v (wrapped xs ys q c d o b w) some stop order =
    absurd (ground (arith, stop, order, some, o, pos))

-- What `make_room` evicts, it evicts from a ring without room.
pub make_room-Forced :
    (s : PacketStore) (es : List StoredPacket) (need : ℕ)
    → 0 < need
    → Retains s es
    → (k : ℕ) × (k ≤ s.count) × Forced s need k × ((make_room s need).count ≡ s.count - k)
unfolding make_room
make_room-Forced s es need pos v =
    let test : PacketStore → Bool = λ t. ltb (free_bytes t) need in
    let t = pop_while s.count test s in
    let first : Driven s need t =
      pop_while-Driven need test (λ t fs. Unit {0}) (λ t f fs w i. tt)
        (λ t f fs w i h. full_ring t f fs need pos w w.layout h) s.count s es v tt in
    let done : (u : PacketStore)
        → Driven s need u
        → (n : ℕ) → u.count ≡ n
        → (k : ℕ) × (k ≤ s.count) × Forced s need k × (n ≡ s.count - k) =
      λ u d n same. (
        d.0,
        d.1,
        d.2,
        sym same ∙ sym (ap (λ (r : PacketStore). r.count) d.3) ∙ pops-count d.0 s,
      ) in
    let (ev, kept, stop) =
      pop_while-Evicted (λ t fs. Unit {0}) (λ t f fs w i. tt) s.count test s es v
        (omega (arith, v.counted)) tt in
    elim (ℕ_discrete t.count 0) [
      | yes z ↦ rw ((==_iff t.count 0).1 z) (done t first t.count refl)
      | no some ↦ elim (Bool-cases (ltb t.tail_off t.head_off)) [
        | inl wrap ↦ rw (ne→== t.count 0 some, wrap) (done t first t.count refl)
        | inr straight ↦ elim (Bool-cases (ltb (sub32 t.wrap t.tail_off) need)) [
          | inr long ↦ rw (ne→== t.count 0 some, straight, long) (done t first t.count refl)
          | inl short ↦
              let enough : ltb (free_bytes t) need ≡ false = elim stop [
                | inl z ↦ absurd (some z)
                | inr b ↦ b
              ] in
              let g =
                settled t (drop ev.k es) need pos ev.retains ev.retains.layout some enough
                  straight in
              let near : t.capacity < t.tail_off + need =
                ground (arith, short, g.inside, g.whole, ev.retains.small) in
              let (u, second, same) = wrap_tail-Driven t (drop ev.k es) need ev.retains g near in
              rw (ne→== t.count 0 some, straight, short)
                (done u (Driven-trans s t u need first second) _ same)
        ]
      ]
    ]
