-- ===== src/Store/Tests.antt =====
-- The packet store on a pool of 40 bytes, and its theorems there.
use mathlib.Core.List.{foldl}
use meshpigeon_firmware.Prelude.{
  ℕ, ◌+◌, ◌-◌, ◌^◌, ◌≤◌, ◌<◌, ◌≡◌, refl, ◌⊎◌, [], ◌∷◌, ◌++◌, Bool, true, min, arith, length, take,
  replicate,
}
use meshpigeon_firmware.Prelude.Memory.{read_bytes, write_bytes}
use meshpigeon_firmware.Store.{
  StoredPacket, PacketStore, header_bytes, create, free_bytes, next_offset, read_header, pop_oldest,
  make_room, write_record, append, get, count_since, fetch_since, record_overhead,
}
use meshpigeon_firmware.Store.Layout.{Retains, linear, header}
use meshpigeon_firmware.Store.Write.{packet}
use meshpigeon_firmware.Store.Append.{AppendedTo, Refused, new_header, append_lem}
use meshpigeon_firmware.Store.Read.{lookup_seq, get-eq-lookup_seq}
use meshpigeon_firmware.Store.Since.{
  newer, fetch_since_lem, count_since-eq-length, count_since_wraps,
}

abbrev pub first_packet : StoredPacket
first_packet = record {
  seq = 1;
  uptime_ms = 300;
  rssi = 200;
  snr = 5;
  flags = 0;
  len = 2;
  raw = 7 ∷ 8 ∷ [];
}

-- A pool of 40 bytes with one packet of 18.
abbrev pub one_stored : PacketStore
one_stored = record {
  capacity = 40;
  buf = header_bytes (header first_packet) ++ 7 ∷ 8 ∷ replicate 22 0;
  head_off = 0;
  tail_off = 18;
  wrap = 40;
  count = 1;
  next_seq = 2;
  head_seq = 1;
  dropped = 0;
}

-- That store is what the code makes.
append-create : (append (create 40) 300 200 5 0 (7 ∷ 8 ∷ [])).store ≡ one_stored
unfolding append create make_room free_bytes write_bytes write_record
append-create = refl

-- A packet of ten bytes evicts the first; one that the pool cannot hold is refused.
append_evicts :
    let r = append one_stored 301 200 5 1 (replicate 10 9) in
    (r.seq ≡ 2)
    × (r.store.dropped ≡ 1)
    × (r.store.count ≡ 1)
    × (r.store.head_seq ≡ 2)
    × ((append one_stored 303 0 0 0 (replicate 30 1)).seq ≡ 0)
unfolding append make_room free_bytes write_record pop_oldest read_header next_offset read_bytes
append_evicts = (refl, refl, refl, refl, refl)

pub one_stored-Retains : Retains one_stored (first_packet ∷ [])
unfolding read_bytes
one_stored-Retains = record {
  small = omega arith;
  pool = refl;
  counted = refl;
  seqs = (refl, tt);
  last = refl;
  first = omega arith;
  seq_fits = omega arith;
  dropped_fits = omega arith;
  layout =
      linear
        (
          record {
            valid = record { uptime = omega arith; seq = omega arith; len = omega arith };
            head = refl;
            body = refl;
          },
          refl,
        )
        (omega arith) (omega arith) refl;
}

append_lem_example :
    let r = append one_stored 301 200 5 1 (1 ∷ 2 ∷ []) in
    ((40 < record_overhead + 2) × Refused one_stored (first_packet ∷ []) r)
    ⊎ ((record_overhead + 2 ≤ 40)
        × AppendedTo one_stored
            (first_packet ∷ [])
            (packet (new_header one_stored 301 200 5 1 (1 ∷ 2 ∷ [])) (1 ∷ 2 ∷ []))
            r)
append_lem_example =
    append_lem one_stored (first_packet ∷ []) 301 200 5 1 (1 ∷ 2 ∷ []) one_stored-Retains
      (omega arith) (omega arith) (omega arith)

get-eq-lookup_seq_example : get one_stored 1 ≡ lookup_seq 1 (first_packet ∷ [])
get-eq-lookup_seq_example = get-eq-lookup_seq one_stored (first_packet ∷ []) 1 one_stored-Retains

-- A callback that counts what it is given.
abbrev count_calls : ℕ → StoredPacket → ℕ × Bool
count_calls n e = (n + 1, true)

fetch_since_lem_example :
    let behind = newer 0 (first_packet ∷ []) in
    fetch_since count_calls one_stored 0 64 0
    ≡ (min 64 (length behind), foldl (λ a e. (count_calls a e).0) 0 (take 64 behind))
fetch_since_lem_example =
    fetch_since_lem count_calls one_stored (first_packet ∷ []) 0 64 0 one_stored-Retains
      (λ c e. refl)

count_since-eq-length_example : count_since one_stored 0 ≡ length (newer 0 (first_packet ∷ []))
count_since-eq-length_example =
    count_since-eq-length one_stored (first_packet ∷ []) 0 one_stored-Retains (omega arith)

count_since_wraps_example :
    (count_since one_stored (2 ^ 32 - 1) ≡ 2) × (newer (2 ^ 32 - 1) (first_packet ∷ []) ≡ [])
count_since_wraps_example = count_since_wraps one_stored first_packet [] one_stored-Retains
