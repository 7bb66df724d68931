-- ===== src/Store/Append.antt =====
-- `append`, `clear` and the constructor, as operations on the list of retained packets.
use meshpigeon_firmware.Prelude.{
  ℕ, ◌+◌, ◌^◌, ◌≤◌, ◌<◌, ◌≡◌, refl, ap, ◌∙◌, sym, subst, ◌⊎◌, inl, inr, List, [], ◌∷◌, ◌++◌, true,
  false, ◌||◌, none, some, arith, length, length-replicate, drop, length-drop, ◌==◌, ltb, dec_lt,
}
use meshpigeon_firmware.Store.{
  Header, StoredPacket, PacketStore, Appended, append, make_room, write_record, read_entry, create,
  clear, u32, record_overhead,
}
use meshpigeon_firmware.Store.Layout.{
  IsHeader, Holds, Layout, vacant, linear, wrapped, Retains, read_entry-Holds,
}
use meshpigeon_firmware.Store.Forced.{Forced, make_room-Forced}
use meshpigeon_firmware.Store.Room.{Room, make_room-Room, Ready, front, after, between}
use meshpigeon_firmware.Store.Write.{packet, written_Holds, write_record-Retains}

-- The new packet follows what is left of the old ones, and carries the next sequence number. Each
-- of those evicted was the oldest of a ring that had no room for the record of the new one.
pub record AppendedTo (s : PacketStore) (es : List StoredPacket) (e : StoredPacket) (r : Appended)
    : Type 0 where
  pub evicted : ℕ
  pub some_of : evicted ≤ length es
  pub forced : Forced s (record_overhead + length e.raw) evicted
  pub returned : r.seq ≡ s.next_seq
  pub stored : r.stored ≡ some e
  pub retains : Retains r.store (drop evicted es ++ e ∷ [])
  pub counted : r.store.dropped ≡ u32 (s.dropped + evicted)
  pub same_capacity : r.store.capacity ≡ s.capacity

-- Nothing is stored, no sequence number is used, and the packet is counted as dropped.
pub record Refused (s : PacketStore) (es : List StoredPacket) (r : Appended) : Type 0 where
  pub returned : r.seq ≡ 0
  pub stored : r.stored ≡ none
  pub retains : Retains r.store es
  pub counted : r.store.dropped ≡ u32 (s.dropped + 1)
  pub same_next : r.store.next_seq ≡ s.next_seq

-- The packet that a call of `append` makes.
abbrev pub new_header : PacketStore → ℕ → ℕ → ℕ → ℕ → List ℕ → Header
new_header s uptime_ms rssi snr flags raw = record {
  uptime_ms = uptime_ms;
  seq = s.next_seq;
  rssi = rssi;
  snr = snr;
  flags = flags;
  len = length raw;
}

tail_fits :
    (s : PacketStore) (es : List StoredPacket) (need : ℕ)
    → Ready s es need
    → s.tail_off + need ≤ s.capacity
tail_fits s es need (front q z t w room) = omega arith
tail_fits s es need (after g room) = room
tail_fits s es need (between xs ys q c d room o w) = omega arith

write_in-Room :
    (s t : PacketStore) (es : List StoredPacket) (h : Header) (raw : List ℕ)
    → IsHeader h
    → h.len ≡ length raw
    → h.seq ≡ s.next_seq
    → s.next_seq + 1 < 2 ^ 32
    → Retains s es
    → (room : Room s es (record_overhead + h.len) t)
    → Forced s (record_overhead + length raw) room.evicted.k
    → AppendedTo s es (packet h raw) (record {
      seq = t.next_seq;
      stored = some (read_entry (write_record t h raw) t.tail_off h);
      store = write_record t h raw;
    })
write_in-Room s t es h raw valid sized q fits v room forced =
    let ev = room.evicted in
    let space = tail_fits t (drop ev.k es) (record_overhead + h.len) room.ready in
    let there : Holds (write_record t h raw).buf t.tail_off (packet h raw) =
      unfold write_record in
      written_Holds t h raw valid sized (omega (arith, space, ev.retains.pool)) in
    record {
      evicted = ev.k;
      some_of = ev.some_of;
      forced = forced;
      returned = ev.same_next;
      stored = ap some (read_entry-Holds (write_record t h raw) t.tail_off (packet h raw) there);
      retains =
          write_record-Retains t h raw valid sized (drop ev.k es) ev.retains room.ready
            (q ∙ sym ev.same_next) (omega (arith, fits, ev.same_next));
      counted = unfold write_record in ev.counted;
      same_capacity = unfold write_record in ev.same_capacity;
    }

append_refused :
    (s : PacketStore) (uptime_ms rssi snr flags : ℕ) (raw : List ℕ)
    → s.capacity < record_overhead + length raw
    → append s uptime_ms rssi snr flags raw
      ≡ record { seq = 0; stored = none; store = record s { dropped = u32 (s.dropped + 1) } }
unfolding append
append_refused s uptime_ms rssi snr flags raw big =
    let test : (s.capacity == 0 || ltb s.capacity (record_overhead + length raw)) ≡ true =
      ground (arith, big) in
    rw test

append_stored :
    (s : PacketStore) (uptime_ms rssi snr flags : ℕ) (raw : List ℕ)
    → record_overhead + length raw ≤ s.capacity
    → let t = make_room s (record_overhead + length raw) in
      let h = new_header t uptime_ms rssi snr flags raw in
      append s uptime_ms rssi snr flags raw ≡ record {
        seq = t.next_seq;
        stored = some (read_entry (write_record t h raw) t.tail_off h);
        store = write_record t h raw;
      }
unfolding append
append_stored s uptime_ms rssi snr flags raw room =
    let test : (s.capacity == 0 || ltb s.capacity (record_overhead + length raw)) ≡ false =
      ground (arith, room) in
    rw test

Refused-dropped :
    (s : PacketStore) (es : List StoredPacket)
    → Retains s es
    → Refused s es
        (record { seq = 0; stored = none; store = record s { dropped = u32 (s.dropped + 1) } })
Refused-dropped s es v = record {
  returned = refl;
  stored = refl;
  retains = record {
    small = v.small;
    pool = v.pool;
    counted = v.counted;
    seqs = v.seqs;
    last = v.last;
    first = v.first;
    seq_fits = v.seq_fits;
    dropped_fits = omega arith;
    layout = relayout v.layout;
  };
  counted = refl;
  same_next = refl;
}
  where
    relayout : Layout s es → Layout (record s { dropped = u32 (s.dropped + 1) }) es
    relayout (vacant q) = vacant q
    relayout (linear c o i w) = linear c o i w
    relayout (wrapped xs ys q c d o h w) = wrapped xs ys q c d o h w

AppendedTo-Room :
    (s : PacketStore) (es : List StoredPacket) (uptime_ms rssi snr flags : ℕ) (raw : List ℕ)
    (t : PacketStore)
    → uptime_ms < 2 ^ 64
    → length raw < 256
    → s.next_seq + 1 < 2 ^ 32
    → Retains s es
    → (room : Room s es (record_overhead + length raw) t)
    → Forced s (record_overhead + length raw) room.evicted.k
    → let h = new_header t uptime_ms rssi snr flags raw in
      AppendedTo s es (packet (new_header s uptime_ms rssi snr flags raw) raw) (record {
        seq = t.next_seq;
        stored = some (read_entry (write_record t h raw) t.tail_off h);
        store = write_record t h raw;
      })
AppendedTo-Room s es uptime_ms rssi snr flags raw t up small fits v room forced =
    let same = room.evicted.same_next in
    let h = new_header t uptime_ms rssi snr flags raw in
    subst
      (λ (n : ℕ). AppendedTo s es (packet (record h { seq = n }) raw) (record {
        seq = t.next_seq;
        stored = some (read_entry (write_record t h raw) t.tail_off h);
        store = write_record t h raw;
      }))
      same
      (write_in-Room s t es h raw
        (record { uptime = up; seq = omega (arith, same, fits); len = small }) refl same fits v room
        forced)

-- `append` on a well-formed store that is not at the last of the 32-bit sequence numbers. A packet
-- that the whole pool cannot hold is refused. Any other is stored: the oldest packets go one by one,
-- each counted as dropped and each only where the record of the new one fits in one piece neither
-- behind the packets that are left nor in front of them; the packet goes behind the rest,
-- `stored_out` receives it as it was given, and the call returns its sequence number.
pub append_lem :
    (s : PacketStore) (es : List StoredPacket) (uptime_ms rssi snr flags : ℕ) (raw : List ℕ)
    → Retains s es
    → uptime_ms < 2 ^ 64
    → length raw < 256
    → s.next_seq + 1 < 2 ^ 32
    → let r = append s uptime_ms rssi snr flags raw in
      ((s.capacity < record_overhead + length raw) × Refused s es r)
      ⊎ ((record_overhead + length raw ≤ s.capacity)
          × AppendedTo s es (packet (new_header s uptime_ms rssi snr flags raw) raw) r)
append_lem s es uptime_ms rssi snr flags raw v up small fits =
    elim (dec_lt s.capacity (record_overhead + length raw)) [
      | yes big ↦
          inl (big, rw (append_refused s uptime_ms rssi snr flags raw big) (Refused-dropped s es v))
      | no holds ↦
          let room : record_overhead + length raw ≤ s.capacity = omega arith in
          let need = record_overhead + length raw in
          let made = make_room-Room s es need v room (omega arith) in
          let (k, inside, forced, left) = make_room-Forced s es need (omega arith) v in
          let kept = made.evicted.retains.counted in
          let same : k ≡ made.evicted.k = omega (
            arith,
            inside,
            left,
            kept,
            v.counted,
            made.evicted.some_of,
            length-drop {0} made.evicted.k es,
          ) in
          inr (
            room,
            rw (append_stored s uptime_ms rssi snr flags raw room) (
                AppendedTo-Room s es uptime_ms rssi snr flags raw _ up small fits v made
                  (subst (Forced s need) same forced)),
          )
    ]

-- A new store is well formed and empty, and one that could not hold a minimum packet has no pool.
pub create-Retains :
    (capacity_bytes : ℕ)
    → capacity_bytes ≤ 2 ^ 31
    → Retains (create capacity_bytes) []
      × (((create capacity_bytes).capacity ≡ capacity_bytes)
          ⊎ (((create capacity_bytes).capacity ≡ 0) × (capacity_bytes ≤ record_overhead)))
unfolding create
create-Retains capacity_bytes h = (
  record {
    small = ground (arith, h);
    pool = length-replicate _ 0;
    counted = refl;
    seqs = tt;
    last = omega arith;
    first = omega arith;
    seq_fits = omega arith;
    dropped_fits = omega arith;
    layout = vacant refl;
  },
  ground (arith, h),
)

-- Clearing forgets the packets and nothing else: the sequence goes on, and the drops stay counted.
pub clear-Retains :
    (s : PacketStore) (es : List StoredPacket)
    → Retains s es
    → Retains (clear s) [] × ((clear s).next_seq ≡ s.next_seq) × ((clear s).dropped ≡ s.dropped)
unfolding clear
clear-Retains s es v = (
  record {
    small = v.small;
    pool = v.pool;
    counted = refl;
    seqs = tt;
    last = omega arith;
    first = v.first;
    seq_fits = v.seq_fits;
    dropped_fits = v.dropped_fits;
    layout = vacant refl;
  },
  refl,
  refl,
)
