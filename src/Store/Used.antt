-- ===== src/Store/Used.antt =====
-- `free_bytes` and `bytes_used` against the list of retained packets.
use meshpigeon_firmware.Prelude.{
  ℕ, suc, ◌+◌, ◌^◌, ◌≤◌, ◌<◌, ◌≡◌, ◌≢◌, ap, ◌∙◌, List, [], ◌∷◌, ◌++◌, arith, length, le→ltb, ne→==,
}
use meshpigeon_firmware.Store.{StoredPacket, PacketStore, free_bytes, bytes_used}
use meshpigeon_firmware.Store.Layout.{entry_size, Chain, Layout, vacant, linear, wrapped, Retains}

-- The bytes that packets cost: a header and the payload each.
abbrev pub total_size : List StoredPacket → ℕ
total_size [] = 0
total_size (e ∷ es) = entry_size e + total_size es

Chain-size :
    (buf : List ℕ) (es : List StoredPacket) (off end : ℕ)
    → Chain buf off es end
    → off + total_size es ≡ end
Chain-size buf [] off end c = omega arith
Chain-size buf (e ∷ es) off end c = omega (arith, Chain-size buf es (off + entry_size e) end c.1)

total_size-append :
    (xs ys : List StoredPacket) → total_size (xs ++ ys) ≡ total_size xs + total_size ys
total_size-append [] ys = omega arith
total_size-append (x ∷ xs) ys = omega (arith, total_size-append xs ys)

free_linear :
    (s : PacketStore)
    → s.count ≢ 0
    → s.head_off < s.tail_off
    → s.tail_off < s.capacity
    → s.wrap ≡ s.capacity
    → s.capacity ≤ 2 ^ 31
    → free_bytes s + s.tail_off ≡ s.capacity + s.head_off
unfolding free_bytes
free_linear s some_left o i w small =
    rw
      (
        ne→== s.count 0 some_left,
        ne→== s.head_off s.tail_off (omega arith),
        le→ltb s.tail_off s.head_off (omega arith),
      )
      (omega arith)

free_wrapped :
    (s : PacketStore)
    → s.count ≢ 0
    → s.tail_off ≤ s.head_off
    → s.head_off < 2 ^ 31
    → free_bytes s + s.tail_off ≡ s.head_off
unfolding free_bytes
free_wrapped s some_left o small = rw (ne→== s.count 0 some_left) (ground (arith, o, small))

used_by-Layout :
    (s : PacketStore) (es : List StoredPacket)
    → s.capacity ≤ 2 ^ 31
    → s.count ≡ length es
    → Layout s es
    → (total_size es ≤ bytes_used s) × (bytes_used s ≤ s.capacity)
used_by-Layout s [] small n (vacant q) = unfold bytes_used free_bytes in ground (arith, n)
used_by-Layout s (e ∷ es) small n (vacant q) = absurd (cc)
used_by-Layout s [] small n (linear c o i w) = absurd (omega arith)
used_by-Layout s (e ∷ es) small n (linear c o i w) =
    let free = free_linear s (omega arith) o i w small in
    let size = Chain-size s.buf (e ∷ es) s.head_off s.tail_off c in
    unfold bytes_used in omega (arith, free, size)
used_by-Layout s es small n (wrapped [] ys q c d o h w) = absurd (omega arith)
used_by-Layout s es small n (wrapped (x ∷ xs) ys q c d o h w) =
    let counted : s.count ≡ suc (length (xs ++ ys)) =
      n ∙ ap (λ (fs : List StoredPacket). length fs) q in
    let free = free_wrapped s (omega arith) o (omega arith) in
    let front_size = Chain-size s.buf (x ∷ xs) s.head_off s.wrap c in
    let back_size = Chain-size s.buf ys 0 s.tail_off d in
    let whole : total_size es ≡ total_size (x ∷ xs) + total_size ys =
      ap total_size q ∙ total_size-append (x ∷ xs) ys in
    unfold bytes_used in omega (arith, free, front_size, back_size, whole)

-- What is retained never costs more than `bytes_used`, nor that more than the pool.
pub total_size-le-bytes_used :
    (s : PacketStore) (es : List StoredPacket)
    → Retains s es
    → (total_size es ≤ bytes_used s) × (bytes_used s ≤ s.capacity)
total_size-le-bytes_used s es v = used_by-Layout s es v.small v.counted v.layout
