-- ===== src/Store.antt =====
-- `PacketStore` of lib/meshpigeon-core (packet_store.h, packet_store.cpp): a ring of bytes that
-- holds records of different sizes. The allocation succeeds; the pool is `buf`.
pub mod Tests
pub mod Layout
pub mod Pop
pub mod Room
pub mod Forced
pub mod Write
pub mod Append
pub mod Used
pub mod Walk
pub mod Read
pub mod Since
pub mod Visit
use meshpigeon_firmware.Prelude.{
  ℕ, zero, suc, ◌+◌, ◌-◌, ◌%◌, ◌^◌, List, [], ◌∷◌, ◌++◌, Bool, true, false, ◌&&◌, ◌||◌, not, Option,
  none, some, ltb, leb, ◌==◌, if◌then◌else◌, length, take, drop, get_or, replicate,
}
use meshpigeon_firmware.Prelude.Memory.{read_bytes, write_bytes, le_bytes, from_le}

-- The result of an unsigned 32-bit sum, and of a difference.
abbrev pub u32 : ℕ → ℕ
u32 x = x % 2 ^ 32

abbrev pub sub32 : ℕ → ℕ → ℕ
sub32 a b = (a + 2 ^ 32 - b) % 2 ^ 32

-- `rssi` and `snr` are the bit patterns of an `int8_t`.
pub record Header : Type 0 where
  pub uptime_ms : ℕ
  pub seq : ℕ
  pub rssi : ℕ
  pub snr : ℕ
  pub flags : ℕ
  pub len : ℕ

-- `raw` holds the first `len` bytes of the array.
pub record StoredPacket : Type 0 where
  pub seq : ℕ
  pub uptime_ms : ℕ
  pub rssi : ℕ
  pub snr : ℕ
  pub flags : ℕ
  pub len : ℕ
  pub raw : List ℕ

pub record PacketStore : Type 0 where
  pub capacity : ℕ
  pub buf : List ℕ
  pub head_off : ℕ
  pub tail_off : ℕ
  pub wrap : ℕ
  pub count : ℕ
  pub next_seq : ℕ
  pub head_seq : ℕ
  pub dropped : ℕ

-- kStoredPacketOverhead
abbrev pub record_overhead : ℕ
record_overhead = 16

-- The bytes of a header in memory, little-endian, and back.
abbrev pub header_bytes : Header → List ℕ
header_bytes h =
    le_bytes 8 h.uptime_ms ++ (le_bytes 4 h.seq ++ h.rssi ∷ h.snr ∷ h.flags ∷ h.len ∷ [])

abbrev pub header_of : List ℕ → Header
header_of bs = record {
  uptime_ms = from_le (take 8 bs);
  seq = from_le (take 4 (drop 8 bs));
  rssi = get_or bs 12 0;
  snr = get_or bs 13 0;
  flags = get_or bs 14 0;
  len = get_or bs 15 0;
}

unfoldable pub create : ℕ → PacketStore
create capacity_bytes =
    let capacity = if ltb capacity_bytes (record_overhead + 1) then 0 else capacity_bytes in
    record {
      capacity = capacity;
      buf = replicate capacity 0;
      head_off = 0;
      tail_off = 0;
      wrap = capacity;
      count = 0;
      next_seq = 1;
      head_seq = 1;
      dropped = 0;
    }

unfoldable pub free_bytes : PacketStore → ℕ
free_bytes s =
    if s.count == 0
    then s.capacity
    else if s.head_off == s.tail_off
    then 0
    else if ltb s.tail_off s.head_off
    then sub32 s.head_off s.tail_off
    else u32 (sub32 s.wrap s.tail_off + s.head_off)

unfoldable pub next_offset : PacketStore → ℕ → ℕ → ℕ
next_offset s off len =
    let next = u32 (off + record_overhead + len) in if leb s.wrap next then 0 else next

unfoldable pub read_header : PacketStore → ℕ → Header
read_header s off = header_of (read_bytes s.buf off record_overhead)

unfoldable pub read_entry : PacketStore → ℕ → Header → StoredPacket
read_entry s off h = record {
  seq = h.seq;
  uptime_ms = h.uptime_ms;
  rssi = h.rssi;
  snr = h.snr;
  flags = h.flags;
  len = h.len;
  raw = read_bytes s.buf (off + record_overhead) h.len;
}

-- Called only where `count_` is not 0.
unfoldable pub pop_oldest : PacketStore → PacketStore
pop_oldest s =
    let head = next_offset s s.head_off (read_header s s.head_off).len in
    record s {
      head_off = head;
      wrap = if head == 0 then s.capacity else s.wrap;
      count = s.count - 1;
      head_seq = u32 (s.head_seq + 1);
      dropped = u32 (s.dropped + 1);
    }

-- `while (count_ > 0 && test) pop_oldest();` Each round takes one entry, so the number of entries
-- is fuel enough.
unfoldable pub pop_while : ℕ → (PacketStore → Bool) → PacketStore → PacketStore
pop_while zero test s = s
pop_while (suc fuel) test s =
    let rest = pop_while fuel test (pop_oldest s) in
    if not (s.count == 0) && test s then rest else s

abbrev pub rewound : PacketStore → PacketStore
rewound s = record s { head_off = 0; tail_off = 0; wrap = s.capacity }

-- The tail moves to the front of the pool, once the front is clear.
unfoldable pub wrap_tail : PacketStore → ℕ → PacketStore
unfolding pop_while
wrap_tail s need =
    let clear_front = pop_while s.count (λ t. ltb t.head_off need) s in
    if clear_front.count == 0
    then rewound clear_front
    else record clear_front { wrap = clear_front.tail_off; tail_off = 0 }

-- Everything of `append` in front of the write: room for `need` bytes from `tail_off_` on.
unfoldable pub make_room : PacketStore → ℕ → PacketStore
unfolding pop_while wrap_tail
make_room s need =
    let evicted = pop_while s.count (λ t. ltb (free_bytes t) need) s in
    if evicted.count == 0
    then rewound evicted
    else if ltb evicted.tail_off evicted.head_off
    then evicted
    else if ltb (sub32 evicted.wrap evicted.tail_off) need
    then wrap_tail evicted need
    else evicted

-- What `append` returns, what it puts into `stored_out`, and the store after it.
pub record Appended : Type 0 where
  pub seq : ℕ
  pub stored : Option StoredPacket
  pub store : PacketStore

unfoldable pub write_record : PacketStore → Header → List ℕ → PacketStore
write_record s h raw =
    let at = s.tail_off in
    let end = u32 (at + (record_overhead + h.len)) in
    record s {
      buf = write_bytes (write_bytes s.buf at (header_bytes h)) (at + record_overhead) raw;
      tail_off = if leb s.wrap end then 0 else end;
      count = s.count + 1;
      next_seq = u32 (s.next_seq + 1);
    }

-- `raw` is the `len` bytes that the caller passes.
unfoldable pub append : PacketStore → ℕ → ℕ → ℕ → ℕ → List ℕ → Appended
append s uptime_ms rssi snr flags raw =
    let len = length raw in
    let need = record_overhead + len in
    let ready = make_room s need in
    let h : Header = record {
      uptime_ms = uptime_ms;
      seq = ready.next_seq;
      rssi = rssi;
      snr = snr;
      flags = flags;
      len = len;
    } in
    let written = write_record ready h raw in
    if s.capacity == 0 || ltb s.capacity need
    then record { seq = 0; stored = none; store = record s { dropped = u32 (s.dropped + 1) } }
    else record {
      seq = ready.next_seq;
      stored = some (read_entry written ready.tail_off h);
      store = written;
    }

-- `n` steps of a walk over the ring, from the offset `off`.
unfoldable pub walk : ℕ → PacketStore → ℕ → ℕ
walk zero s off = off
walk (suc n) s off = walk n s (next_offset s off (read_header s off).len)

unfoldable pub get : PacketStore → ℕ → Option StoredPacket
get s seq =
    let off = walk (seq - s.head_seq) s s.head_off in
    let h = read_header s off in
    if s.count == 0 || ltb seq s.head_seq || leb s.next_seq seq
    then none
    else if not (h.seq == seq)
    then none
    else some (read_entry s off h)

unfoldable pub oldest_seq : PacketStore → ℕ
oldest_seq s = if s.count == 0 then s.next_seq else s.head_seq

unfoldable pub bytes_used : PacketStore → ℕ
bytes_used s = sub32 s.capacity (free_bytes s)

unfoldable pub clear : PacketStore → PacketStore
clear s = record s {
  head_off = 0;
  tail_off = 0;
  wrap = s.capacity;
  count = 0;
  head_seq = s.next_seq;
}

-- `since_seq + 1` wraps, as in the source.
unfoldable pub count_since : PacketStore → ℕ → ℕ
count_since s since_seq =
    let first = if ltb since_seq s.head_seq then s.head_seq else u32 (since_seq + 1) in
    if s.count == 0 then 0 else if leb s.next_seq first then 0 else sub32 s.next_seq first

-- The loop of `fetch_since` with `left` rounds to go; `cb` returns its own state, and whether to
-- go on.
module _ {ℓ} {C : Type ℓ} (cb : C → StoredPacket → C × Bool) where
  unfoldable pub fetch_loop : ℕ → PacketStore → ℕ → ℕ → ℕ → ℕ → C → ℕ × C
  fetch_loop zero s since_seq max_count off delivered c = (delivered, c)
  fetch_loop (suc left) s since_seq max_count off delivered c =
      let h = read_header s off in
      let next = next_offset s off h.len in
      let (c', more) = cb c (read_entry s off h) in
      let skipped = fetch_loop left s since_seq max_count next delivered c in
      let taken = fetch_loop left s since_seq max_count next (delivered + 1) c' in
      if not (ltb delivered max_count)
      then (delivered, c)
      else if not (ltb since_seq h.seq)
      then skipped
      else if more
      then taken
      else (delivered, c')

  unfoldable pub fetch_since : PacketStore → ℕ → ℕ → C → ℕ × C
  unfolding fetch_loop
  fetch_since s since_seq max_count c = fetch_loop s.count s since_seq max_count s.head_off 0 c
