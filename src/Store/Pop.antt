-- ===== src/Store/Pop.antt =====
-- `pop_oldest` and the eviction loops.
use meshpigeon_firmware.Prelude.{
  ℕ, zero, suc, ◌+◌, ◌-◌, ◌^◌, ◌≤◌, ◌<◌, ◌≡◌, refl, ◌∙◌, sym, subst, inl, inr, List, [], ◌∷◌, ◌++◌,
  Bool, true, false, arith, length, length-drop, drop, drop-drop, ◌⊎◌, ◌==◌, ne→==, ==_iff,
  Bool-cases,
}
use meshpigeon_firmware.Store.{
  StoredPacket, PacketStore, next_offset, pop_oldest, pop_while, u32, record_overhead,
}
use meshpigeon_firmware.Store.Layout.{
  entry_size, Holds, Chain, Chain-le, Seqs, Layout, vacant, linear, wrapped, Retains,
  read_header-Holds,
}

pub next_offset_inside :
    (s : PacketStore) (off len : ℕ)
    → off + record_overhead + len < s.wrap
    → s.wrap ≤ 2 ^ 31
    → next_offset s off len ≡ off + record_overhead + len
unfolding next_offset
next_offset_inside s off len h k = ground arith

pub next_offset_wraps :
    (s : PacketStore) (off len : ℕ)
    → off + record_overhead + len ≡ s.wrap
    → s.wrap ≤ 2 ^ 31
    → next_offset s off len ≡ 0
unfolding next_offset
next_offset_wraps s off len h k = ground arith

abbrev popped_to : PacketStore → ℕ → ℕ → PacketStore
popped_to s head wrap = record s {
  head_off = head;
  wrap = wrap;
  count = s.count - 1;
  head_seq = u32 (s.head_seq + 1);
  dropped = u32 (s.dropped + 1);
}

pop_inside :
    (s : PacketStore) (e : StoredPacket)
    → Holds s.buf s.head_off e
    → s.head_off + entry_size e < s.wrap
    → s.wrap ≤ 2 ^ 31
    → pop_oldest s ≡ popped_to s (s.head_off + entry_size e) s.wrap
unfolding pop_oldest
pop_inside s e h room small =
    let next : next_offset s s.head_off e.len ≡ s.head_off + entry_size e =
      next_offset_inside s s.head_off e.len (omega arith) small ∙ omega arith in
    rw (read_header-Holds s s.head_off e h, next, ne→== (s.head_off + entry_size e) 0 (omega arith))

pop_wraps :
    (s : PacketStore) (e : StoredPacket)
    → Holds s.buf s.head_off e
    → s.head_off + entry_size e ≡ s.wrap
    → s.wrap ≤ 2 ^ 31
    → pop_oldest s ≡ popped_to s 0 s.capacity
unfolding pop_oldest
pop_wraps s e h room small =
    rw
      (read_header-Holds s s.head_off e h, next_offset_wraps s s.head_off e.len (omega arith) small)

pop_linear :
    (s : PacketStore) (e : StoredPacket) (es : List StoredPacket)
    → s.capacity ≤ 2 ^ 31
    → Chain s.buf s.head_off (e ∷ es) s.tail_off
    → s.tail_off < s.capacity
    → s.wrap ≡ s.capacity
    → Layout (pop_oldest s) es
pop_linear s e [] small c h w = vacant refl
pop_linear s e (e' ∷ es) small c h w =
    let rest = Chain-le s.buf es (s.head_off + entry_size e + entry_size e') s.tail_off c.1.1 in
    subst (λ t. Layout t (e' ∷ es)) (sym (pop_inside s e c.0 (omega (arith, rest)) (omega arith)))
      (linear c.1 (omega (arith, rest)) h w)

pop_wrapped :
    (s : PacketStore) (x : StoredPacket) (xs ys : List StoredPacket)
    → s.capacity ≤ 2 ^ 31
    → Chain s.buf s.head_off (x ∷ xs) s.wrap
    → Chain s.buf 0 ys s.tail_off
    → s.tail_off ≤ s.head_off
    → s.head_off < s.wrap
    → s.wrap ≤ s.capacity
    → Layout (pop_oldest s) (xs ++ ys)
pop_wrapped s x [] [] small c d t h w = vacant refl
pop_wrapped s x [] (y ∷ ys) small c d t h w =
    let rest = Chain-le s.buf ys (0 + entry_size y) s.tail_off d.1 in
    subst (λ t. Layout t (y ∷ ys)) (sym (pop_wraps s x c.0 c.1 (omega arith)))
      (linear d (omega (arith, rest)) (omega arith) refl)
pop_wrapped s x (x' ∷ xs) ys small c d t h w =
    let rest = Chain-le s.buf xs (s.head_off + entry_size x + entry_size x') s.wrap c.1.1 in
    subst (λ t. Layout t ((x' ∷ xs) ++ ys))
      (sym (pop_inside s x c.0 (omega (arith, rest)) (omega arith)))
      (wrapped (x' ∷ xs) ys refl c.1 d (omega arith) (omega (arith, rest)) w)

pop-Layout :
    (s : PacketStore) (e : StoredPacket) (es : List StoredPacket)
    → s.capacity ≤ 2 ^ 31
    → Layout s (e ∷ es)
    → Layout (pop_oldest s) es
pop-Layout s e es small (vacant q) = absurd (cc)
pop-Layout s e es small (linear c h t w) = pop_linear s e es small c t w
pop-Layout s e es small (wrapped [] ys q c d t h w) = absurd (omega arith)
pop-Layout s e es small (wrapped (x ∷ xs) ys q c d t h w) =
    let tails : xs ++ ys ≡ es = cc in
    subst (Layout (pop_oldest s)) tails (pop_wrapped s x xs ys small c d t h w)

-- Evicting the oldest packet keeps the store well formed, without that packet.
pub pop_oldest-Retains :
    (s : PacketStore) (e : StoredPacket) (es : List StoredPacket)
    → Retains s (e ∷ es)
    → Retains (pop_oldest s) es
unfolding pop_oldest
pop_oldest-Retains s e es v = record {
  small = v.small;
  pool = v.pool;
  counted = omega (arith, v.counted);
  seqs =
      let fits : s.head_seq + 1 ≡ u32 (s.head_seq + 1) = omega (arith, v.last, v.seq_fits) in
      subst (λ n. Seqs n es) fits v.seqs.1;
  last = omega (arith, v.last, v.seq_fits);
  first = v.first;
  seq_fits = v.seq_fits;
  dropped_fits = omega arith;
  layout = pop-Layout s e es v.small v.layout;
}

-- `s'` is `s` with its `k` oldest packets evicted, and each of them counted.
pub record Evicted (s : PacketStore) (es : List StoredPacket) (s' : PacketStore) : Type 0 where
  pub k : ℕ
  pub some_of : k ≤ length es
  pub retains : Retains s' (drop k es)
  pub counted : s'.dropped ≡ u32 (s.dropped + k)
  pub same_capacity : s'.capacity ≡ s.capacity
  pub same_next : s'.next_seq ≡ s.next_seq

unfoldable pub Evicted_none :
    (s : PacketStore) (es : List StoredPacket) → Retains s es → Evicted s es s
Evicted_none s es v = record {
  k = 0;
  some_of = omega arith;
  retains = v;
  counted = omega (arith, v.dropped_fits);
  same_capacity = refl;
  same_next = refl;
}

unfoldable pub Evicted_trans :
    (s : PacketStore) (es : List StoredPacket) (t u : PacketStore)
    → (a : Evicted s es t) → Evicted t (drop a.k es) u
    → Evicted s es u
Evicted_trans s es t u a b = record {
  k = a.k + b.k;
  some_of = omega (arith, a.some_of, b.some_of, length-drop {0} a.k es);
  retains = subst (Retains u) (drop-drop a.k b.k es) b.retains;
  counted = omega (arith, a.counted, b.counted);
  same_capacity = b.same_capacity ∙ a.same_capacity;
  same_next = b.same_next ∙ a.same_next;
}

pop-Evicted :
    (s : PacketStore) (e : StoredPacket) (es : List StoredPacket)
    → Retains s (e ∷ es)
    → Evicted s (e ∷ es) (pop_oldest s)
pop-Evicted s e es v = record {
  k = 1;
  some_of = omega arith;
  retains = pop_oldest-Retains s e es v;
  counted = unfold pop_oldest in refl;
  same_capacity = unfold pop_oldest in refl;
  same_next = unfold pop_oldest in refl;
}

-- With as much fuel as there are packets, the loop ends by its own test. What each eviction
-- keeps, the loop keeps.
module _ (Inv : PacketStore → List StoredPacket → Type 0)
    (keep : (s : PacketStore) (e : StoredPacket) (es : List StoredPacket)
      → Retains s (e ∷ es)
      → Inv s (e ∷ es)
      → Inv (pop_oldest s) es) where
  pub pop_while-Evicted :
      (fuel : ℕ) (test : PacketStore → Bool) (s : PacketStore) (es : List StoredPacket)
      → Retains s es
      → length es ≤ fuel
      → Inv s es
      → let s' = pop_while fuel test s in
        (ev : Evicted s es s') × Inv s' (drop ev.k es) × ((s'.count ≡ 0) ⊎ (test s' ≡ false))
  unfolding pop_while pop-Evicted Evicted_none Evicted_trans
  pop_while-Evicted zero test s [] v h i = (Evicted_none s [] v, i, inl v.counted)
  pop_while-Evicted zero test s (e ∷ es) v h i = absurd (omega arith)
  pop_while-Evicted (suc fuel) test s [] v h i =
      let idle : (s.count == 0) ≡ true = (==_iff s.count 0).1 v.counted in
      rw idle (Evicted_none s [] v, i, inl v.counted)
  pop_while-Evicted (suc fuel) test s (e ∷ es) v h i = elim (Bool-cases (test s)) [
    | inl again ↦
        let (ev, i', stop) =
          pop_while-Evicted fuel test (pop_oldest s) es (pop_oldest-Retains s e es v) (omega arith)
            (keep s e es v i) in
        rw (ne→== s.count 0 (omega (arith, v.counted)), again)
          (
            Evicted_trans s (e ∷ es) (pop_oldest s) _ (pop-Evicted s e es v) ev,
            subst (Inv _) (drop-drop 1 ev.k (e ∷ es)) i',
            stop,
          )
    | inr done ↦
        rw (ne→== s.count 0 (omega (arith, v.counted)), done)
          (Evicted_none s (e ∷ es) v, i, inr done)
  ]

-- The packets lie in one piece that does not reach the end of the pool.
pub record Straight (s : PacketStore) (es : List StoredPacket) : Type 0 where
  pub chain : Chain s.buf s.head_off es s.tail_off
  pub order : s.head_off < s.tail_off
  pub inside : s.tail_off < s.capacity
  pub whole : s.wrap ≡ s.capacity

pub pop-Straight :
    (s : PacketStore) (e : StoredPacket) (es : List StoredPacket)
    → Retains s (e ∷ es)
    → ((e ∷ es) ≡ []) ⊎ Straight s (e ∷ es)
    → (es ≡ []) ⊎ Straight (pop_oldest s) es
pop-Straight s e es v (inl q) = absurd (cc)
pop-Straight s e [] v (inr g) = inl refl
pop-Straight s e (e' ∷ es) v (inr g) =
    let rest =
      Chain-le s.buf es (s.head_off + entry_size e + entry_size e') s.tail_off g.chain.1.1 in
    inr (
      subst (λ t. Straight t (e' ∷ es))
        (sym (
          pop_inside s e g.chain.0 (omega (arith, rest, g.inside, g.whole))
            (omega (arith, v.small, g.whole))))
        (record {
          chain = g.chain.1;
          order = omega (arith, rest);
          inside = g.inside;
          whole = g.whole;
        }))
