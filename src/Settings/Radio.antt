-- ===== src/Settings/Radio.antt =====
-- `RadioSettings`: the radio's tuning and its 17-byte record.
use meshpigeon_firmware.Prelude.{
  ℕ, ◌/◌, ◌%◌, ◌^◌, ◌<◌, ◌≡◌, ◌≢◌, ◌⊎◌, refl, ap, ◌∙◌, sym, List, [], ◌∷◌, ◌++◌, Bool, true, false,
  ◌&&◌, not, arith, length, get_or, ◌==◌, if◌then◌else◌, Bool-cases, inl, inr, ==_iff, IsBytes,
}
use mathlib.Core.Bool.{false≢true}
use meshpigeon_firmware.Framing.Crc.{join_bytes, join_bytes-split}
use meshpigeon_firmware.Prelude.Memory.{read_bytes, read_bytes_whole, get_or-lt}
use meshpigeon_firmware.Settings.Record.{
  join_u32_bytes, join_bytes_parts, append_crc, check_crc, join_u32, join_u32-split,
  check_crc-append_crc, append_crc_of_check,
}

pub record RadioSettings : Type 0 where
  pub version : ℕ
  pub region : ℕ
  pub freq_hz : ℕ
  pub bw_x100khz : ℕ
  pub sf : ℕ
  pub cr : ℕ
  pub power_dbm : ℕ
  pub config_epoch : ℕ

-- kSerializedVersion, kSerializedSize
abbrev pub serialized_version : ℕ
serialized_version = 1

abbrev pub serialized_size : ℕ
serialized_size = 17

abbrev pub unset : RadioSettings
unset = record {
  version = serialized_version;
  region = 0;
  freq_hz = 869525000;
  bw_x100khz = 12500;
  sf = 9;
  cr = 5;
  power_dbm = 14;
  config_epoch = 0;
}

-- `operator==`, field by field.
unfoldable pub settings_eq : RadioSettings → RadioSettings → Bool
settings_eq s o =
    s.version == o.version
    && (s.region == o.region
        && (s.freq_hz == o.freq_hz
            && (s.bw_x100khz == o.bw_x100khz
                && (s.sf == o.sf
                    && (s.cr == o.cr
                        && (s.power_dbm == o.power_dbm && s.config_epoch == o.config_epoch))))))

abbrev pub body : RadioSettings → List ℕ
body s =
    s.version
    ∷ s.region
    ∷ s.freq_hz % 256
    ∷ s.freq_hz / 2 ^ 8 % 256
    ∷ s.freq_hz / 2 ^ 16 % 256
    ∷ s.freq_hz / 2 ^ 24 % 256
    ∷ s.bw_x100khz % 256
    ∷ s.bw_x100khz / 2 ^ 8 % 256
    ∷ s.sf
    ∷ s.cr
    ∷ s.power_dbm
    ∷ s.config_epoch % 256
    ∷ s.config_epoch / 2 ^ 8 % 256
    ∷ s.config_epoch / 2 ^ 16 % 256
    ∷ s.config_epoch / 2 ^ 24 % 256
    ∷ []

unfoldable pub serialize : RadioSettings → List ℕ
serialize s = append_crc (body s)

-- The fields that `deserialize` assigns once the version has been accepted.
unfoldable pub fields_of : List ℕ → RadioSettings
fields_of bytes = record {
  version = get_or bytes 0 0;
  region = get_or bytes 1 0;
  freq_hz = join_u32 (get_or bytes 2 0) (get_or bytes 3 0) (get_or bytes 4 0) (get_or bytes 5 0);
  bw_x100khz = join_bytes (get_or bytes 6 0) (get_or bytes 7 0);
  sf = get_or bytes 8 0;
  cr = get_or bytes 9 0;
  power_dbm = get_or bytes 10 0;
  config_epoch =
      join_u32 (get_or bytes 11 0) (get_or bytes 12 0) (get_or bytes 13 0) (get_or bytes 14 0);
}

-- The answer, and the object that the call leaves behind.
unfoldable pub deserialize : List ℕ → Bool × RadioSettings
deserialize bytes =
    let version = get_or bytes 0 0 in
    if not (length bytes == serialized_size)
    then (false, unset)
    else if not (check_crc bytes)
    then (false, unset)
    else if not (version == serialized_version)
    then (false, record unset { version = version })
    else (true, fields_of bytes)

-- Values that fit the fields of the record, in the current version.
pub record IsValid (s : RadioSettings) : Type 0 where
  pub version : s.version ≡ serialized_version
  pub freq_hz : s.freq_hz < 2 ^ 32
  pub bw_x100khz : s.bw_x100khz < 2 ^ 16
  pub config_epoch : s.config_epoch < 2 ^ 32

fields_of-serialize : (s : RadioSettings) → IsValid s → fields_of (serialize s) ≡ s
unfolding fields_of serialize append_crc
fields_of-serialize s v = rw (
  join_u32-split s.freq_hz v.freq_hz,
  join_bytes-split s.bw_x100khz v.bw_x100khz,
  join_u32-split s.config_epoch v.config_epoch,
)

-- What was serialized is read back, field for field.
pub deserialize-serialize : (s : RadioSettings) → IsValid s → deserialize (serialize s) ≡ (true, s)
unfolding deserialize
deserialize-serialize s v =
    let version : get_or (serialize s) 0 0 ≡ 1 = unfold serialize append_crc in v.version in
    let size : length (serialize s) ≡ 17 = unfold serialize append_crc in refl in
    let sound : check_crc (serialize s) ≡ true =
      unfold serialize in check_crc-append_crc (body s) in
    rw (size, sound, version) (ap (λ (t : RadioSettings). (true, t)) (fields_of-serialize s v))

-- The first 15 bytes of a record and its trailer, written out.
abbrev spelled : List ℕ → List ℕ
spelled b =
    (get_or b 0 0
      ∷ get_or b 1 0
      ∷ get_or b 2 0
      ∷ get_or b 3 0
      ∷ get_or b 4 0
      ∷ get_or b 5 0
      ∷ get_or b 6 0
      ∷ get_or b 7 0
      ∷ get_or b 8 0
      ∷ get_or b 9 0
      ∷ get_or b 10 0
      ∷ get_or b 11 0
      ∷ get_or b 12 0
      ∷ get_or b 13 0
      ∷ get_or b 14 0
      ∷ [])
    ++ get_or b 15 0 ∷ get_or b 16 0 ∷ []

spelled_lem : (b : List ℕ) → length b ≡ 17 → b ≡ spelled b
spelled_lem b h = sym (read_bytes_whole b) ∙ ap (read_bytes b 0) h ∙ unfold read_bytes in refl

body-fields_of :
    (b : List ℕ) → IsBytes b → body (fields_of b) ++ get_or b 15 0 ∷ get_or b 16 0 ∷ [] ≡ spelled b
unfolding fields_of
body-fields_of b h =
    let at = λ (i : ℕ). get_or-lt b 256 i h (omega arith) in
    let freq =
      join_u32_bytes (get_or b 2 0) (get_or b 3 0) (get_or b 4 0) (get_or b 5 0) (at 2) (at 3)
        (at 4) (at 5) in
    let bw = join_bytes_parts (get_or b 6 0) (get_or b 7 0) (at 6) (at 7) in
    let epoch =
      join_u32_bytes (get_or b 11 0) (get_or b 12 0) (get_or b 13 0) (get_or b 14 0) (at 11) (at 12)
        (at 13) (at 14) in
    rw (freq.1, freq.2, freq.3, freq.4, bw.1, bw.2, epoch.1, epoch.2, epoch.3, epoch.4)

serialize-fields_of :
    (b : List ℕ) → IsBytes b → length b ≡ 17 → check_crc b ≡ true → serialize (fields_of b) ≡ b
unfolding serialize
serialize-fields_of b h size sound =
    let whole : body (fields_of b) ++ get_or b 15 0 ∷ get_or b 16 0 ∷ [] ≡ b =
      body-fields_of b h ∙ sym (spelled_lem b size) in
    append_crc_of_check (body (fields_of b)) (get_or b 15 0) (get_or b 16 0)
      (get_or-lt b 256 15 h (omega arith)) (get_or-lt b 256 16 h (omega arith))
      (ap check_crc whole ∙ sound)
    ∙ whole

fields_of-IsValid : (b : List ℕ) → IsBytes b → get_or b 0 0 ≡ 1 → IsValid (fields_of b)
unfolding fields_of
fields_of-IsValid b h version =
    let at = λ (i : ℕ). get_or-lt b 256 i h (omega arith) in
    record {
      version = version;
      freq_hz =
          (join_u32_bytes (get_or b 2 0) (get_or b 3 0) (get_or b 4 0) (get_or b 5 0) (at 2) (at 3)
            (at 4) (at 5)).0;
      bw_x100khz = (join_bytes_parts (get_or b 6 0) (get_or b 7 0) (at 6) (at 7)).0;
      config_epoch =
          (join_u32_bytes (get_or b 11 0) (get_or b 12 0) (get_or b 13 0) (get_or b 14 0) (at 11)
            (at 12) (at 13) (at 14)).0;
    }

-- Nothing but what `serialize` writes is accepted: the bytes of an accepted record are those of
-- the settings that are read from it, and these are valid.
pub deserialize_accepts :
    (b : List ℕ)
    → IsBytes b
    → (deserialize b).0 ≡ true
    → let s = (deserialize b).1 in (serialize s ≡ b) × IsValid s
unfolding deserialize
deserialize_accepts b h ok = elim (Bool-cases (length b == 17)) [
  | inr e ↦ let refused : false ≡ true = rw e at ok in absurd (false≢true refused)
  | inl size ↦ elim (Bool-cases (check_crc b)) [
    | inr e ↦ let refused : false ≡ true = rw (size, e) at ok in absurd (false≢true refused)
    | inl sound ↦ elim (Bool-cases (get_or b 0 0 == 1)) [
      | inr e ↦
          let refused : false ≡ true = rw (size, sound, e) at ok in absurd (false≢true refused)
      | inl version ↦
          rw (size, sound, version)
            (
              serialize-fields_of b h ((==_iff _ _).0 size) sound,
              fields_of-IsValid b h ((==_iff _ _).0 version),
            )
    ]
  ]
]

-- A record that is refused leaves the safe tuning behind where its size or its checksum is wrong; one
-- that is sound but of a foreign version leaves the safe tuning with that version byte of the record.
pub deserialize_refuses :
    (b : List ℕ)
    → (deserialize b).0 ≡ false
    → (((length b ≢ serialized_size) ⊎ (check_crc b ≡ false)) × ((deserialize b).1 ≡ unset))
      ⊎ ((length b ≡ serialized_size)
          × (check_crc b ≡ true)
          × (get_or b 0 0 ≢ serialized_version)
          × ((deserialize b).1 ≡ record unset { version = get_or b 0 0 }))
unfolding deserialize
deserialize_refuses b h = elim (Bool-cases (length b == serialized_size)) [
  | inr other ↦ rw other (inl (inl (ground (arith, other)), refl))
  | inl size ↦ elim (Bool-cases (check_crc b)) [
    | inr torn ↦ rw (size, torn) (inl (inr refl, refl))
    | inl sound ↦ elim (Bool-cases (get_or b 0 0 == serialized_version)) [
      | inl current ↦
          let accepted : true ≡ false = rw (size, sound, current) at h in
          absurd (false≢true (sym accepted))
      | inr foreign ↦
          rw (size, sound, foreign)
            (inr (ground (arith, size), refl, ground (arith, foreign), refl))
    ]
  ]
]
