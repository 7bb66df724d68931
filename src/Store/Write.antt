-- ===== src/Store/Write.antt =====
-- Writing one record at the tail, where there is room for it.
use meshpigeon_firmware.Prelude.{
  ℕ, ◌+◌, ◌^◌, ◌≤◌, ◌<◌, ◌≡◌, refl, ap, ◌∙◌, sym, subst, ◌⊎◌, inl, inr, List, [], ◌∷◌, ◌++◌,
  append_assoc, append-nil, arith, length, length-append, dec_lt, lt→leb, leb_refl,
}
use meshpigeon_firmware.Prelude.Memory.{
  read_bytes, write_bytes, read_bytes-write_bytes, read_bytes-write_bytes_apart, length-write_bytes,
}
use meshpigeon_firmware.Store.{
  Header, StoredPacket, PacketStore, header_bytes, write_record, u32, record_overhead,
}
use meshpigeon_firmware.Store.Layout.{
  IsHeader, Holds, Chain, Chain-append, Chain-write_bytes, Seqs, Layout, linear, wrapped, Retains,
}
use meshpigeon_firmware.Store.Room.{Ready, front, after, between}

-- The packet that a header and its bytes stand for.
abbrev pub packet : Header → List ℕ → StoredPacket
packet h raw = record {
  seq = h.seq;
  uptime_ms = h.uptime_ms;
  rssi = h.rssi;
  snr = h.snr;
  flags = h.flags;
  len = h.len;
  raw = raw;
}

Seqs-append :
    (es : List StoredPacket) (n : ℕ) (e : StoredPacket)
    → Seqs n es
    → e.seq ≡ n + length es
    → Seqs n (es ++ e ∷ [])
Seqs-append [] n e h q = (omega (arith, q), tt)
Seqs-append (x ∷ es) n e h q = (h.0, Seqs-append es (n + 1) e h.1 (omega (arith, q)))

module _ (s : PacketStore) (h : Header) (raw : List ℕ) (valid : IsHeader h)
    (sized : h.len ≡ length raw) where
  abbrev written : List ℕ
  written =
      write_bytes (write_bytes s.buf s.tail_off (header_bytes h)) (s.tail_off + record_overhead) raw

  length_written : length written ≡ length s.buf
  length_written =
      length-write_bytes raw (write_bytes s.buf s.tail_off (header_bytes h))
        (s.tail_off + record_overhead)
      ∙ length-write_bytes (header_bytes h) s.buf s.tail_off

  pub written_Holds :
      s.tail_off + (record_overhead + h.len) ≤ length s.buf
      → Holds written s.tail_off (packet h raw)
  written_Holds room = record {
    valid = valid;
    head =
        read_bytes-write_bytes_apart record_overhead raw
          (write_bytes s.buf s.tail_off (header_bytes h)) s.tail_off (s.tail_off + record_overhead)
          (inl (omega arith))
        ∙ read_bytes-write_bytes (header_bytes h) s.buf s.tail_off (omega (arith, room));
    body =
        ap (read_bytes written (s.tail_off + record_overhead)) sized
        ∙ read_bytes-write_bytes raw (write_bytes s.buf s.tail_off (header_bytes h))
            (s.tail_off + record_overhead)
            (omega (arith, room, sized, length-write_bytes (header_bytes h) s.buf s.tail_off));
  }

  written_Chain :
      (es : List StoredPacket) (off end : ℕ)
      → (end ≤ s.tail_off) ⊎ (s.tail_off + (record_overhead + h.len) ≤ off)
      → Chain s.buf off es end
      → Chain written off es end
  written_Chain es off end apart c =
      Chain-write_bytes (write_bytes s.buf s.tail_off (header_bytes h)) raw
        (s.tail_off + record_overhead) es off end (omega (arith, apart, sized))
        (Chain-write_bytes s.buf (header_bytes h) s.tail_off es off end (omega (arith, apart)) c)

  -- The chain that ends at the tail, with the new record behind it.
  extended :
      (es : List StoredPacket) (off : ℕ)
      → s.tail_off + (record_overhead + h.len) ≤ length s.buf
      → Chain s.buf off es s.tail_off
      → Chain written off (es ++ packet h raw ∷ []) (s.tail_off + (record_overhead + h.len))
  extended es off room c =
      Chain-append written es (packet h raw ∷ []) off s.tail_off _
        (written_Chain es off s.tail_off (inl (omega arith)) c) (written_Holds room, refl)

  abbrev written_to : ℕ → PacketStore
  written_to tail = record s {
    buf = written;
    tail_off = tail;
    count = s.count + 1;
    next_seq = u32 (s.next_seq + 1);
  }

  write_inside :
      s.tail_off + (record_overhead + h.len) < s.wrap
      → s.wrap ≤ 2 ^ 31
      → write_record s h raw ≡ written_to (s.tail_off + (record_overhead + h.len))
  unfolding write_record
  write_inside room small =
      let end : u32 (s.tail_off + (record_overhead + h.len))
          ≡ s.tail_off + (record_overhead + h.len) =
        omega arith in
      rw (end, lt→leb s.wrap (s.tail_off + (record_overhead + h.len)) room)

  write_to_end :
      s.tail_off + (record_overhead + h.len) ≡ s.wrap
      → s.wrap ≤ 2 ^ 31
      → write_record s h raw ≡ written_to 0
  unfolding write_record
  write_to_end full small =
      let end : u32 (s.tail_off + (record_overhead + h.len)) ≡ s.wrap = omega arith in
      rw (end, leb_refl s.wrap)

  -- A straight layout grows up to the end of the pool, where the tail goes to the front.
  straight_Layout :
      (es : List StoredPacket)
      → s.capacity ≤ 2 ^ 31
      → Chain written s.head_off es (s.tail_off + (record_overhead + h.len))
      → s.head_off ≤ s.tail_off
      → s.tail_off + (record_overhead + h.len) ≤ s.capacity
      → s.wrap ≡ s.capacity
      → Layout (write_record s h raw) es
  straight_Layout es small c o room w =
      elim (dec_lt (s.tail_off + (record_overhead + h.len)) s.capacity) [
        | yes inside ↦
            subst (λ t. Layout t es) (sym (write_inside (omega arith) (omega arith)))
              (linear c (omega arith) inside w)
        | no full ↦
            let end : s.tail_off + (record_overhead + h.len) ≡ s.wrap = omega arith in
            subst (λ t. Layout t es) (sym (write_to_end end (omega arith)))
              (wrapped es [] (sym (append-nil es)) (subst (Chain written s.head_off es) end c) refl
                (omega arith) (omega arith) (omega arith))
      ]

  write_record-Layout :
      (es : List StoredPacket)
      → s.capacity ≤ 2 ^ 31
      → length s.buf ≡ s.capacity
      → Ready s es (record_overhead + h.len)
      → Layout (write_record s h raw) (es ++ packet h raw ∷ [])
  write_record-Layout es small pool (front q z t w room) =
      let at_front : Chain s.buf s.head_off es s.tail_off =
        subst (λ (fs : List StoredPacket). Chain s.buf s.head_off fs s.tail_off) (sym q)
          (omega arith) in
      straight_Layout (es ++ packet h raw ∷ []) small
        (extended es s.head_off (omega arith) at_front) (omega arith) (omega arith) w
  write_record-Layout es small pool (after g room) =
      straight_Layout (es ++ packet h raw ∷ []) small
        (extended es s.head_off (omega (arith, room)) g.chain) (omega (arith, g.order))
        (omega (arith, room)) g.whole
  write_record-Layout es small pool (between xs ys q c d room o w) =
      let grown = extended ys 0 (omega (arith, room, o, w, pool)) d in
      let split : es ++ packet h raw ∷ [] ≡ xs ++ (ys ++ packet h raw ∷ []) =
        rw q (append_assoc xs ys (packet h raw ∷ [])) in
      subst (λ t. Layout t (es ++ packet h raw ∷ []))
        (sym (write_inside (omega arith) (omega arith)))
        (wrapped xs (ys ++ packet h raw ∷ []) split
          (written_Chain xs s.head_off s.wrap (inr room) c) grown room o w)

  -- Where there is room, the record that is written is retained behind the others.
  pub write_record-Retains :
      (es : List StoredPacket)
      → Retains s es
      → Ready s es (record_overhead + h.len)
      → h.seq ≡ s.next_seq
      → s.next_seq + 1 < 2 ^ 32
      → Retains (write_record s h raw) (es ++ packet h raw ∷ [])
  unfolding write_record
  write_record-Retains es v r q fits = record {
    small = v.small;
    pool = length_written ∙ v.pool;
    counted = omega (arith, v.counted, length-append {0} es (packet h raw ∷ []));
    seqs = Seqs-append es s.head_seq (packet h raw) v.seqs (q ∙ sym v.last);
    last = omega (arith, v.last, fits, length-append {0} es (packet h raw ∷ []));
    first = omega (arith, fits);
    seq_fits = omega arith;
    dropped_fits = v.dropped_fits;
    layout = write_record-Layout es v.small v.pool r;
  }
