-- ===== src/Store/Walk.antt =====
-- Walking the ring from the oldest packet.
use meshpigeon_firmware.Prelude.{
  ℕ, zero, suc, ◌+◌, ◌^◌, ◌≤◌, ◌<◌, ◌≡◌, refl, ap, ◌∙◌, sym, subst, ◌⊎◌, inl, inr, List, [], ◌∷◌,
  ◌++◌, some, arith, get_elem?,
}
use meshpigeon_firmware.Store.{Header, StoredPacket, PacketStore, read_header, next_offset, walk}
use meshpigeon_firmware.Store.Layout.{
  entry_size, Holds, Chain, Chain-le, Layout, vacant, linear, wrapped, Retains, read_header-Holds,
}
use meshpigeon_firmware.Store.Pop.{next_offset_inside, next_offset_wraps}

-- A walk at `off` has the packets `es` in front of it: in the last piece, or before the wrap.
pub data From (s : PacketStore) (off : ℕ) (es : List StoredPacket) : Type 0 where
  done : es ≡ [] → From s off es
  last : (end : ℕ) → Chain s.buf off es end → end < s.wrap → From s off es
  first :
      (xs ys : List StoredPacket) (end : ℕ)
      → es ≡ xs ++ ys
      → Chain s.buf off xs s.wrap
      → off < s.wrap
      → Chain s.buf 0 ys end
      → end < s.wrap
      → From s off es

pub From-head : (s : PacketStore) (es : List StoredPacket) → Layout s es → From s s.head_off es
From-head s es (vacant q) = done q
From-head s es (linear c o i w) = last s.tail_off c (omega arith)
From-head s es (wrapped xs ys q c d o h w) = first xs ys s.tail_off q c h d (omega arith)

pub wrap_small :
    (s : PacketStore) (es : List StoredPacket)
    → Retains s es
    → Layout s es
    → (es ≡ []) ⊎ (s.wrap ≤ 2 ^ 31)
wrap_small s es v (vacant q) = inl q
wrap_small s es v (linear c o i w) = inr (omega (arith, v.small))
wrap_small s es v (wrapped xs ys q c d o h w) = inr (omega (arith, v.small))

module _ (s : PacketStore) (small : s.wrap ≤ 2 ^ 31) where
  inside :
      (off : ℕ) (e : StoredPacket) (es : List StoredPacket) (end : ℕ)
      → Chain s.buf (off + entry_size e) es end
      → end < s.wrap
      → next_offset s off e.len ≡ off + entry_size e
  inside off e es end c h =
      let later = Chain-le s.buf es (off + entry_size e) end c in
      next_offset_inside s off e.len (omega (arith, later)) small ∙ omega arith

  -- What a step finds: the record that the walk stands on, and the rest.
  abbrev pub Step : ℕ → List StoredPacket → Type 0
  Step off [] = Unit
  Step off (e ∷ es) = Holds s.buf off e × From s (next_offset s off e.len) es

  first-Step :
      (off : ℕ) (x : StoredPacket) (xs ys : List StoredPacket) (end : ℕ)
      → Chain s.buf off (x ∷ xs) s.wrap
      → Chain s.buf 0 ys end
      → end < s.wrap
      → Step off (x ∷ (xs ++ ys))
  first-Step off x [] ys end c d h = (
    c.0,
    subst (λ k. From s k ys) (sym (next_offset_wraps s off x.len (omega arith) small))
        (last end d h),
  )
  first-Step off x (x' ∷ xs) ys end c d h =
      let later = Chain-le s.buf xs (off + entry_size x + entry_size x') s.wrap c.1.1 in
      let next : next_offset s off x.len ≡ off + entry_size x =
        next_offset_inside s off x.len (omega (arith, later)) small ∙ omega arith in
      (
        c.0,
        subst (λ k. From s k ((x' ∷ xs) ++ ys)) (sym next)
            (first (x' ∷ xs) ys end refl c.1 (omega (arith, later)) d h),
      )

  pub From-Step : (off : ℕ) (es : List StoredPacket) → From s off es → Step off es
  From-Step off [] f = tt
  From-Step off (e ∷ es) (done q) = absurd (cc)
  From-Step off (e ∷ es) (last end c h) =
      (c.0, subst (λ k. From s k es) (sym (inside off e es end c.1 h)) (last end c.1 h))
  From-Step off (e ∷ es) (first [] ys end q c o d h) = absurd (omega arith)
  From-Step off (e ∷ es) (first (x ∷ xs) ys end q c o d h) =
      subst (Step off) (sym q) (first-Step off x xs ys end c d h)

  -- After `n` steps the walk stands on the packet of index `n`.
  pub walk-Holds :
      (n off : ℕ) (es : List StoredPacket) (e : StoredPacket)
      → From s off es
      → get_elem? es n ≡ some e
      → Holds s.buf (walk n s off) e
  unfolding walk
  walk-Holds n off [] e f h = absurd (cc)
  walk-Holds zero off (x ∷ es) e f h =
      let same : x ≡ e = cc in subst (Holds s.buf off) same (From-Step off (x ∷ es) f).0
  walk-Holds (suc n) off (x ∷ es) e f h =
      let step = From-Step off (x ∷ es) f in
      let len : (read_header s off).len ≡ x.len =
        ap (λ (g : Header). g.len) (read_header-Holds s off x step.0) in
      rw len (walk-Holds n (next_offset s off x.len) es e step.1 h)
