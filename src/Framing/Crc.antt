-- ===== src/Framing/Crc.antt =====
-- `crc16_ccitt`, `frame_crc16` and `frame_crc` of framing.cpp.
use meshpigeon_firmware.Prelude.{
  ℕ, zero, suc, ◌-◌, ◌*◌, ◌/◌, ◌%◌, ◌^◌, ◌<◌, bit_and, bit_or, bit_xor, ◌≡◌, refl, List, [], ◌∷◌,
  arith, ltb, ◌==◌, if◌then◌else◌, length, take, bit_or_shifted,
}

-- One round of the inner loop: shift left, and feed the polynomial back on a carry.
pub crc_bit : ℕ → ℕ
crc_bit crc =
    if bit_and crc 0x8000 == 0 then crc * 2 % 2 ^ 16 else bit_xor (crc * 2) 0x1021 % 2 ^ 16

pub crc_bits : ℕ → ℕ → ℕ
crc_bits zero crc = crc
crc_bits (suc n) crc = crc_bits n (crc_bit crc)

-- The loop over the bytes; `crc` is a `uint16_t`, hence the cast of the exclusive or.
unfoldable pub crc16_ccitt : List ℕ → ℕ → ℕ
unfolding crc_bits crc_bit
crc16_ccitt [] crc = crc
crc16_ccitt (b ∷ bs) crc = crc16_ccitt bs (crc_bits 8 (bit_xor crc (b * 2 ^ 8) % 2 ^ 16))

abbrev pub crc_init : ℕ
crc_init = 0xFFFF

unfoldable pub frame_crc16 : List ℕ → ℕ
unfolding crc16_ccitt
frame_crc16 envelope = crc16_ccitt envelope crc_init

-- The checksum of all bytes of a frame but its last two.
unfoldable pub frame_crc : List ℕ → ℕ
unfolding frame_crc16
frame_crc frame = if ltb (length frame) 2 then 0 else frame_crc16 (take (length frame - 2) frame)

crc_bit-lt : (crc : ℕ) → crc_bit crc < 2 ^ 16
unfolding crc_bit
crc_bit-lt crc = ground arith

crc_bits-lt : (n crc : ℕ) → crc < 2 ^ 16 → crc_bits n crc < 2 ^ 16
unfolding crc_bits
crc_bits-lt zero crc h = h
crc_bits-lt (suc n) crc h = crc_bits-lt n (crc_bit crc) (crc_bit-lt crc)

pub crc16_ccitt-lt : (bs : List ℕ) (crc : ℕ) → crc < 2 ^ 16 → crc16_ccitt bs crc < 2 ^ 16
unfolding crc16_ccitt
crc16_ccitt-lt [] crc h = h
crc16_ccitt-lt (b ∷ bs) crc h = crc16_ccitt-lt bs _ (crc_bits-lt 8 _ (omega arith))

-- The checksum fits the two bytes that carry it.
pub frame_crc16-lt : (bs : List ℕ) → frame_crc16 bs < 2 ^ 16
unfolding frame_crc16
frame_crc16-lt bs = crc16_ccitt-lt bs crc_init (omega arith)

-- The little-endian pair of bytes of a 16-bit value, and its reading back.
abbrev pub low_byte : ℕ → ℕ
low_byte v = v % 256

abbrev pub high_byte : ℕ → ℕ
high_byte v = v / 2 ^ 8 % 256

unfoldable pub join_bytes : ℕ → ℕ → ℕ
join_bytes lo hi = bit_or lo (hi * 2 ^ 8) % 2 ^ 16

pub join_bytes-split : (v : ℕ) → v < 2 ^ 16 → join_bytes (low_byte v) (high_byte v) ≡ v
unfolding join_bytes
join_bytes-split v h = omega (arith, bit_or_shifted 8 (v % 256) (v / 2 ^ 8 % 256) (omega arith))

-- The published check value of CRC-16/CCITT-FALSE, over "123456789".
check_value :
    frame_crc16 (0x31 ∷ 0x32 ∷ 0x33 ∷ 0x34 ∷ 0x35 ∷ 0x36 ∷ 0x37 ∷ 0x38 ∷ 0x39 ∷ []) ≡ 0x29B1
unfolding frame_crc16
check_value = refl
