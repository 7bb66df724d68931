-- ===== src/Store/Room.antt =====
-- `make_room`: what `append` evicts, and where it may then write.
use meshpigeon_firmware.Prelude.{
  ℕ, ◌+◌, ◌≤◌, ◌<◌, ◌≡◌, ◌≢◌, refl, ap, ◌∙◌, sym, subst, ◌⊎◌, inl, inr, List, [], ◌∷◌, ◌++◌, false,
  arith, length, drop, drop-drop, append-nil, ◌==◌, ltb, if◌then◌else◌, ne→==, ==_iff, lt→ltb,
  le→ltb, Bool-cases, ℕ_discrete,
}
use meshpigeon_firmware.Store.{
  StoredPacket, PacketStore, free_bytes, pop_while, rewound, wrap_tail, make_room, sub32,
}
use meshpigeon_firmware.Store.Layout.{Chain, Layout, vacant, linear, wrapped, Retains}
use meshpigeon_firmware.Store.Pop.{
  Evicted, Evicted_none, Evicted_trans, pop_while-Evicted, Straight, pop-Straight,
}

-- `need` bytes are free from `tail_off` on, and clear of the packets.
pub data Ready (s : PacketStore) (es : List StoredPacket) (need : ℕ) : Type 0 where
  front :
      es ≡ []
      → s.head_off ≡ 0
      → s.tail_off ≡ 0
      → s.wrap ≡ s.capacity
      → need ≤ s.capacity
      → Ready s es need
  after : Straight s es → s.tail_off + need ≤ s.capacity → Ready s es need
  between :
      (xs ys : List StoredPacket)
      → es ≡ xs ++ ys
      → Chain s.buf s.head_off xs s.wrap
      → Chain s.buf 0 ys s.tail_off
      → s.tail_off + need ≤ s.head_off
      → s.head_off < s.wrap
      → s.wrap ≤ s.capacity
      → Ready s es need

-- The new tail is `need` bytes on, so the store can take a record there.
pub record Room (s : PacketStore) (es : List StoredPacket) (need : ℕ) (s' : PacketStore)
    : Type 0 where
  pub evicted : Evicted s es s'
  pub ready : Ready s' (drop evicted.k es) need

empty_of : (s : PacketStore) (es : List StoredPacket) → Retains s es → s.count ≡ 0 → es ≡ []
empty_of s [] v h = refl
empty_of s (e ∷ es) v h = absurd (omega (arith, v.counted))

-- An empty store starts again at the front of the pool.
rewound-Retains :
    (s : PacketStore) (es : List StoredPacket) → Retains s es → es ≡ [] → Retains (rewound s) es
rewound-Retains s es v q = record {
  small = v.small;
  pool = v.pool;
  counted = v.counted;
  seqs = v.seqs;
  last = v.last;
  first = v.first;
  seq_fits = v.seq_fits;
  dropped_fits = v.dropped_fits;
  layout = vacant q;
}

rewound-Room :
    (s : PacketStore) (es : List StoredPacket) (s' : PacketStore) (need : ℕ)
    → Evicted s es s'
    → s'.count ≡ 0
    → need ≤ s.capacity
    → Room s es need (rewound s')
rewound-Room s es s' need ev z fits =
    let q = empty_of s' (drop ev.k es) ev.retains z in
    record {
      evicted = record {
        k = ev.k;
        some_of = ev.some_of;
        retains = rewound-Retains s' (drop ev.k es) ev.retains q;
        counted = ev.counted;
        same_capacity = ev.same_capacity;
        same_next = ev.same_next;
      };
      ready = front q refl refl refl (omega (arith, ev.same_capacity));
    }

-- Moving the tail to the front of a pool in one piece, clear up to `need`.
abbrev turned : PacketStore → PacketStore
turned s = record s { wrap = s.tail_off; tail_off = 0 }

turned-Retains :
    (s : PacketStore) (es : List StoredPacket)
    → Retains s es
    → Straight s es
    → Retains (turned s) es
turned-Retains s es v g = record {
  small = v.small;
  pool = v.pool;
  counted = v.counted;
  seqs = v.seqs;
  last = v.last;
  first = v.first;
  seq_fits = v.seq_fits;
  dropped_fits = v.dropped_fits;
  layout =
      wrapped es [] (sym (append-nil es)) g.chain refl (omega arith) g.order
        (omega (arith, g.inside));
}

turned-Room :
    (s : PacketStore) (es : List StoredPacket) (c : PacketStore) (need : ℕ)
    → (ev : Evicted s es c) → c.count ≢ 0
    → (drop ev.k es ≡ []) ⊎ Straight c (drop ev.k es)
    → need ≤ c.head_off
    → Room s es need (turned c)
turned-Room s es c need ev some (inl q) room =
    absurd (some (ev.retains.counted ∙ ap (λ (fs : List StoredPacket). length fs) q))
turned-Room s es c need ev some (inr g) room = record {
  evicted = record {
    k = ev.k;
    some_of = ev.some_of;
    retains = turned-Retains c (drop ev.k es) ev.retains g;
    counted = ev.counted;
    same_capacity = ev.same_capacity;
    same_next = ev.same_next;
  };
  ready =
      between (drop ev.k es) [] (sym (append-nil (drop ev.k es))) g.chain refl (omega arith) g.order
        (omega (arith, g.inside));
}

-- The end of `wrap_tail`, once the loop has cleared the front.
settle-Room :
    (s : PacketStore) (es : List StoredPacket) (c : PacketStore) (need : ℕ)
    → need ≤ s.capacity
    → (ev : Evicted s es c) → (drop ev.k es ≡ []) ⊎ Straight c (drop ev.k es)
    → (c.count ≡ 0) ⊎ (ltb c.head_off need ≡ false)
    → Room s es need (if c.count == 0 then rewound c else turned c)
settle-Room s es c need fits ev kept stop = elim (ℕ_discrete c.count 0) [
  | yes z ↦ rw ((==_iff c.count 0).1 z) (rewound-Room s es c need ev z fits)
  | no some ↦
      rw (ne→== c.count 0 some) (turned-Room s es c need ev some kept (ground (arith, stop, some)))
]

wrap_tail-Room :
    (s : PacketStore) (es : List StoredPacket) (need : ℕ)
    → Retains s es
    → Straight s es
    → need ≤ s.capacity
    → Room s es need (wrap_tail s need)
unfolding wrap_tail
wrap_tail-Room s es need v g fits =
    let (ev, kept, stop) =
      pop_while-Evicted (λ t fs. (fs ≡ []) ⊎ Straight t fs) pop-Straight s.count
        (λ t. ltb t.head_off need) s es v (omega (arith, v.counted)) (inr g) in
    settle-Room s es (pop_while s.count (λ t. ltb t.head_off need) s) need fits ev kept stop

Room-after :
    (s : PacketStore) (es : List StoredPacket) (t : PacketStore) (need : ℕ) (u : PacketStore)
    → (ev : Evicted s es t) → Room t (drop ev.k es) need u
    → Room s es need u
unfolding Evicted_trans
Room-after s es t need u ev r = record {
  evicted = Evicted_trans s es t u ev r.evicted;
  ready = subst (λ fs. Ready u fs need) (drop-drop ev.k r.evicted.k es) r.ready;
}

-- The end of `make_room`, once the loop has freed enough bytes, by the layout that is left.
place : PacketStore → ℕ → PacketStore
place t need =
    if t.count == 0
    then rewound t
    else if ltb t.tail_off t.head_off
    then t
    else if ltb (sub32 t.wrap t.tail_off) need
    then wrap_tail t need
    else t

stays-Room :
    (t : PacketStore) (fs : List StoredPacket) (need : ℕ)
    → Retains t fs
    → Ready t fs need
    → Room t fs need t
unfolding Evicted_none
stays-Room t fs need v r = record { evicted = Evicted_none t fs v; ready = r }

place_filled-Room :
    (t : PacketStore) (fs : List StoredPacket) (need : ℕ)
    → Retains t fs
    → Layout t fs
    → need ≤ t.capacity
    → 0 < need
    → t.count ≢ 0
    → ltb (free_bytes t) need ≡ false
    → Room t fs need (place t need)
unfolding place
place_filled-Room t fs need v (vacant q) fits pos some stop =
    absurd (some (v.counted ∙ ap (λ (es : List StoredPacket). length es) q))
place_filled-Room t fs need v (linear c o i w) fits pos some stop =
    let straight : Straight t fs = record { chain = c; order = o; inside = i; whole = w } in
    elim (Bool-cases (ltb (sub32 t.wrap t.tail_off) need)) [
      | inl short ↦
          rw (ne→== t.count 0 some, le→ltb t.tail_off t.head_off (omega arith), short)
            (wrap_tail-Room t fs need v straight fits)
      | inr long ↦
          rw (ne→== t.count 0 some, le→ltb t.tail_off t.head_off (omega arith), long)
            (stays-Room t fs need v (after straight (ground (arith, long, w, v.small))))
    ]
place_filled-Room t fs need v (wrapped xs ys q c d o h w) fits pos some stop =
    let gap : t.tail_off + need ≤ t.head_off =
      unfold free_bytes in ground (arith, stop, some, o, h, w, v.small) in
    rw (ne→== t.count 0 some, lt→ltb t.tail_off t.head_off (omega arith))
      (stays-Room t fs need v (between xs ys q c d gap h w))

place-Room :
    (t : PacketStore) (fs : List StoredPacket) (need : ℕ)
    → Retains t fs
    → need ≤ t.capacity
    → 0 < need
    → (t.count ≡ 0) ⊎ (ltb (free_bytes t) need ≡ false)
    → Room t fs need (place t need)
place-Room t fs need v fits pos stop = elim (ℕ_discrete t.count 0) [
  | yes z ↦
      unfold place Evicted_none in
      rw ((==_iff t.count 0).1 z) (rewound-Room t fs t need (Evicted_none t fs v) z fits)
  | no some ↦ place_filled-Room t fs need v v.layout fits pos some (ground (arith, stop, some))
]

-- After `make_room` there is room: some of the oldest packets are gone, and no other.
pub make_room-Room :
    (s : PacketStore) (es : List StoredPacket) (need : ℕ)
    → Retains s es
    → need ≤ s.capacity
    → 0 < need
    → Room s es need (make_room s need)
unfolding make_room place
make_room-Room s es need v fits pos =
    let (ev, kept, stop) =
      pop_while-Evicted (λ t fs. Unit {0}) (λ t f fs w i. tt) s.count (λ t. ltb (free_bytes t) need)
        s es v (omega (arith, v.counted)) tt in
    Room-after s es (pop_while s.count (λ t. ltb (free_bytes t) need) s) need _ ev
      (place-Room _ (drop ev.k es) need ev.retains (omega (arith, ev.same_capacity)) pos stop)
