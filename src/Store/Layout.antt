-- ===== src/Store/Layout.antt =====
-- Where the retained packets lie in the ring, and when a store is well formed.
use meshpigeon_firmware.Prelude.{
  ℕ, ◌+◌, ◌^◌, ◌≤◌, ◌<◌, ◌≡◌, ap, ◌∙◌, sym, subst, ◌⊎◌, List, [], ◌∷◌, ◌++◌, arith, length,
}
use meshpigeon_firmware.Prelude.Memory.{
  read_bytes, write_bytes, read_bytes-write_bytes_apart, from_le-le_bytes,
}
use meshpigeon_firmware.Store.{
  Header, StoredPacket, PacketStore, header_bytes, header_of, read_header, read_entry,
  record_overhead,
}

abbrev pub header : StoredPacket → Header
header e = record {
  uptime_ms = e.uptime_ms;
  seq = e.seq;
  rssi = e.rssi;
  snr = e.snr;
  flags = e.flags;
  len = e.len;
}

-- The values of a packet fit the fields of the header.
pub record IsHeader (h : Header) : Type 0 where
  pub uptime : h.uptime_ms < 2 ^ 64
  pub seq : h.seq < 2 ^ 32
  pub len : h.len < 256

pub header_of-header_bytes : (h : Header) → IsHeader h → header_of (header_bytes h) ≡ h
header_of-header_bytes h v =
    ground
      (arith, from_le-le_bytes 8 h.uptime_ms (omega arith), from_le-le_bytes 4 h.seq (omega arith))

abbrev pub entry_size : StoredPacket → ℕ
entry_size e = record_overhead + e.len

-- The record at `off` is that of `e`.
pub record Holds (buf : List ℕ) (off : ℕ) (e : StoredPacket) : Type 0 where
  pub valid : IsHeader (header e)
  pub head : read_bytes buf off record_overhead ≡ header_bytes (header e)
  pub body : read_bytes buf (off + record_overhead) e.len ≡ e.raw

-- The records of `es` stand one behind the other from `off` up to `end`.
abbrev pub Chain : List ℕ → ℕ → List StoredPacket → ℕ → Type 0
Chain buf off [] end = off ≡ end
Chain buf off (e ∷ es) end = Holds buf off e × Chain buf (off + entry_size e) es end

pub Chain-le :
    (buf : List ℕ) (es : List StoredPacket) (off end : ℕ) → Chain buf off es end → off ≤ end
Chain-le buf [] off end c = omega arith
Chain-le buf (e ∷ es) off end c = omega (arith, Chain-le buf es (off + entry_size e) end c.1)

pub Chain-append :
    (buf : List ℕ) (xs ys : List StoredPacket) (off mid end : ℕ)
    → Chain buf off xs mid
    → Chain buf mid ys end
    → Chain buf off (xs ++ ys) end
Chain-append buf [] ys off mid end c d = subst (λ k. Chain buf k ys end) (sym c) d
Chain-append buf (x ∷ xs) ys off mid end c d =
    (c.0, Chain-append buf xs ys (off + entry_size x) mid end c.1 d)

-- A write that meets no record of a chain leaves the chain.
pub Chain-write_bytes :
    (buf bs : List ℕ) (at : ℕ) (es : List StoredPacket) (off end : ℕ)
    → (end ≤ at) ⊎ (at + length bs ≤ off)
    → Chain buf off es end
    → Chain (write_bytes buf at bs) off es end
Chain-write_bytes buf bs at [] off end h c = c
Chain-write_bytes buf bs at (e ∷ es) off end h c =
    let later = Chain-le buf es (off + entry_size e) end c.1 in
    (
      record {
        valid = c.0.valid;
        head =
            read_bytes-write_bytes_apart record_overhead bs buf off at (omega (arith, later))
            ∙ c.0.head;
        body =
            read_bytes-write_bytes_apart e.len bs buf (off + record_overhead) at
              (omega (arith, later))
            ∙ c.0.body;
      },
      Chain-write_bytes buf bs at es (off + entry_size e) end (omega arith) c.1,
    )

-- The sequence numbers are consecutive from `n` on.
abbrev pub Seqs : ℕ → List StoredPacket → Type 0
Seqs n [] = Unit
Seqs n (e ∷ es) = (e.seq ≡ n) × Seqs (n + 1) es

-- The packets lie in one piece, or in two: up to the wrap offset and on from the front.
pub data Layout (s : PacketStore) (es : List StoredPacket) : Type 0 where
  vacant : es ≡ [] → Layout s es
  linear :
      Chain s.buf s.head_off es s.tail_off
      → s.head_off < s.tail_off
      → s.tail_off < s.capacity
      → s.wrap ≡ s.capacity
      → Layout s es
  wrapped :
      (xs ys : List StoredPacket)
      → es ≡ xs ++ ys
      → Chain s.buf s.head_off xs s.wrap
      → Chain s.buf 0 ys s.tail_off
      → s.tail_off ≤ s.head_off
      → s.head_off < s.wrap
      → s.wrap ≤ s.capacity
      → Layout s es

-- A well-formed store that retains the packets `es`, oldest first.
pub record Retains (s : PacketStore) (es : List StoredPacket) : Type 0 where
  pub small : s.capacity ≤ 2 ^ 31
  pub pool : length s.buf ≡ s.capacity
  pub counted : s.count ≡ length es
  pub seqs : Seqs s.head_seq es
  pub last : s.head_seq + length es ≡ s.next_seq
  pub first : 0 < s.next_seq
  pub seq_fits : s.next_seq < 2 ^ 32
  pub dropped_fits : s.dropped < 2 ^ 32
  pub layout : Layout s es

-- What the code reads at a record, and where the next one is.
pub read_header-Holds :
    (s : PacketStore) (off : ℕ) (e : StoredPacket)
    → Holds s.buf off e
    → read_header s off ≡ header e
unfolding read_header
read_header-Holds s off e h = ap header_of h.head ∙ header_of-header_bytes (header e) h.valid

pub read_entry-Holds :
    (s : PacketStore) (off : ℕ) (e : StoredPacket)
    → Holds s.buf off e
    → read_entry s off (header e) ≡ e
unfolding read_entry
read_entry-Holds s off e h = ap (λ (raw : List ℕ). record e { raw = raw }) h.body
