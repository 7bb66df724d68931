-- ===== src/Store/Visit.antt =====
-- What the callback of `fetch_since` keeps, the whole loop keeps, on any store.
use meshpigeon_firmware.Prelude.{ℕ, zero, suc, ◌+◌, Bool, ltb, Bool-cases, inl, inr}
use meshpigeon_firmware.Store.{
  StoredPacket, PacketStore, fetch_loop, fetch_since, next_offset, read_header, read_entry,
}

module _ {ℓ κ} {C : Type ℓ} (cb : C → StoredPacket → C × Bool) (Inv : C → Type κ)
    (keep : (c : C) (e : StoredPacket) → Inv c → Inv (cb c e).0) where
  fetch_loop_keeps :
      (left : ℕ) (s : PacketStore) (since_seq max_count off delivered : ℕ) (c : C)
      → Inv c
      → Inv (fetch_loop cb left s since_seq max_count off delivered c).1
  unfolding fetch_loop
  fetch_loop_keeps zero s since_seq max_count off delivered c i = i
  fetch_loop_keeps (suc left) s since_seq max_count off delivered c i =
      let h = read_header s off in
      let next = next_offset s off h.len in
      let e = read_entry s off h in
      elim (Bool-cases (ltb delivered max_count)) [
        | inr full ↦ rw full i
        | inl room ↦ elim (Bool-cases (ltb since_seq h.seq)) [
          | inr old ↦
              rw (room, old) (fetch_loop_keeps left s since_seq max_count next delivered c i)
          | inl behind ↦ elim (Bool-cases (cb c e).1) [
            | inr stop ↦ rw (room, behind, stop) (keep c e i)
            | inl more ↦
                rw (room, behind, more)
                  (fetch_loop_keeps left s since_seq max_count next (delivered + 1) (cb c e).0
                    (keep c e i))
          ]
        ]
      ]

  pub fetch_since_keeps :
      (s : PacketStore) (since_seq max_count : ℕ) (c : C)
      → Inv c
      → Inv (fetch_since cb s since_seq max_count c).1
  unfolding fetch_since
  fetch_since_keeps s since_seq max_count c i =
      fetch_loop_keeps s.count s since_seq max_count s.head_off 0 c i
