-- ===== src/Settings/Record.antt =====
-- `append_crc` and `check_crc`: the trailer that both serialized records carry.
use meshpigeon_firmware.Prelude.{
  ℕ, suc, ◌+◌, ◌-◌, ◌*◌, ◌/◌, ◌%◌, ◌^◌, ◌<◌, ◌≡◌, refl, ◌∙◌, sym, List, [], ◌∷◌, ◌++◌, Bool, true,
  false, arith, length, length-append, take, get_or, ltb, ◌==◌, if◌then◌else◌, bit_or,
  bit_or_shifted, le→ltb, ==_refl, ==_iff, take-append,
}
use meshpigeon_firmware.Framing.Crc.{
  crc16_ccitt, crc_init, crc16_ccitt-lt, low_byte, high_byte, join_bytes, join_bytes-split,
}

unfoldable pub append_crc : List ℕ → List ℕ
append_crc body = let crc = crc16_ccitt body crc_init in body ++ low_byte crc ∷ high_byte crc ∷ []

unfoldable pub check_crc : List ℕ → Bool
check_crc bytes =
    let n = length bytes in
    if ltb n 2
    then false
    else crc16_ccitt (take (n - 2) bytes) crc_init
      == join_bytes (get_or bytes (n - 2) 0) (get_or bytes (n - 1) 0)

-- Four bytes as a little-endian `uint32_t`.
unfoldable pub join_u32 : ℕ → ℕ → ℕ → ℕ → ℕ
join_u32 a b c d = bit_or (bit_or (bit_or a (b * 2 ^ 8)) (c * 2 ^ 16)) (d * 2 ^ 24)

pub join_u32-split :
    (v : ℕ)
    → v < 2 ^ 32
    → join_u32 (v % 256) (v / 2 ^ 8 % 256) (v / 2 ^ 16 % 256) (v / 2 ^ 24 % 256) ≡ v
unfolding join_u32
join_u32-split v h =
    rw
      (
        bit_or_shifted 8 (v % 256) (v / 2 ^ 8 % 256) (omega arith),
        bit_or_shifted 16 (v / 2 ^ 8 % 256 * 2 ^ 8 + v % 256) (v / 2 ^ 16 % 256) (omega arith),
        bit_or_shifted 24 (v / 2 ^ 16 % 256 * 2 ^ 16 + (v / 2 ^ 8 % 256 * 2 ^ 8 + v % 256))
            (v / 2 ^ 24 % 256) (omega arith),
      )
      (omega arith)

-- The bytes of a joined value are those that it was made of.
pub join_u32_bytes :
    (a b c d : ℕ)
    → a < 256
    → b < 256
    → c < 256
    → d < 256
    → let v = join_u32 a b c d in
      (v < 2 ^ 32)
      × (v % 256 ≡ a)
      × (v / 2 ^ 8 % 256 ≡ b)
      × (v / 2 ^ 16 % 256 ≡ c)
      × (v / 2 ^ 24 % 256 ≡ d)
unfolding join_u32
join_u32_bytes a b c d ha hb hc hd =
    let sum : join_u32 a b c d ≡ d * 2 ^ 24 + (c * 2 ^ 16 + (b * 2 ^ 8 + a)) = rw (
      bit_or_shifted 8 a b (omega arith),
      bit_or_shifted 16 (b * 2 ^ 8 + a) c (omega arith),
      bit_or_shifted 24 (c * 2 ^ 16 + (b * 2 ^ 8 + a)) d (omega arith),
    ) in
    omega (arith, sum)

pub join_bytes_parts :
    (a b : ℕ)
    → a < 256
    → b < 256
    → (join_bytes a b < 2 ^ 16) × (join_bytes a b % 256 ≡ a) × (join_bytes a b / 2 ^ 8 % 256 ≡ b)
unfolding join_bytes
join_bytes_parts a b ha hb = omega (arith, bit_or_shifted 8 a b ha)

get_or_before_last : (xs : List ℕ) (a b : ℕ) → get_or (xs ++ a ∷ b ∷ []) (length xs) 0 ≡ a
get_or_before_last [] a b = refl
get_or_before_last (x ∷ xs) a b = get_or_before_last xs a b

get_or_last : (xs : List ℕ) (a b : ℕ) → get_or (xs ++ a ∷ b ∷ []) (suc (length xs)) 0 ≡ b
get_or_last [] a b = refl
get_or_last (x ∷ xs) a b = get_or_last xs a b

-- The check, on a record in two parts: the trailer must be the checksum of the body.
check_crc-append :
    (body : List ℕ) (a b : ℕ)
    → check_crc (body ++ a ∷ b ∷ []) ≡ (crc16_ccitt body crc_init == join_bytes a b)
unfolding check_crc
check_crc-append body a b =
    let bytes = body ++ a ∷ b ∷ [] in
    let n : length bytes ≡ length body + 2 = length-append body (a ∷ b ∷ []) in
    let n2 : length bytes - 2 ≡ length body = omega (arith, n) in
    let n1 : length bytes - 1 ≡ suc (length body) = omega (arith, n) in
    rw (
      le→ltb (length bytes) 2 (omega (arith, n)),
      n2,
      n1,
      take-append body (a ∷ b ∷ []),
      get_or_before_last body a b,
      get_or_last body a b,
    )

-- A record with its own checksum passes.
pub check_crc-append_crc : (body : List ℕ) → check_crc (append_crc body) ≡ true
unfolding append_crc
check_crc-append_crc body =
    let crc = crc16_ccitt body crc_init in
    check_crc-append body (low_byte crc) (high_byte crc)
    ∙ rw (join_bytes-split crc (crc16_ccitt-lt body crc_init (omega arith))) (==_refl crc)

split_bytes :
    (a b v : ℕ) → a < 256 → b < 256 → v ≡ join_bytes a b → (low_byte v ≡ a) × (high_byte v ≡ b)
unfolding join_bytes
split_bytes a b v ha hb e = omega (arith, bit_or_shifted 8 a b ha)

-- A record that passes is its body with the checksum that `append_crc` gives it.
pub append_crc_of_check :
    (body : List ℕ) (a b : ℕ)
    → a < 256
    → b < 256
    → check_crc (body ++ a ∷ b ∷ []) ≡ true
    → append_crc body ≡ body ++ a ∷ b ∷ []
unfolding append_crc
append_crc_of_check body a b ha hb h =
    let same : crc16_ccitt body crc_init ≡ join_bytes a b =
      (==_iff _ _).0 (sym (check_crc-append body a b) ∙ h) in
    let parts = split_bytes a b (crc16_ccitt body crc_init) ha hb same in rw (parts.0, parts.1)
