-- ===== src/Prelude/Bits.antt =====
-- `lo | (hi << 8)` as a sum. The native operations mean a recursion on binary digits with fuel;
-- `bit_or_step` is that recursion without the fuel.
use Prim.Native.Nat.{
  ℕ, zero, suc, ◌+◌, ◌*◌, ◌/◌, ◌%◌, ◌≤◌, ◌<◌, ◌^◌, max, bit_or, digits, bit_or-bitwise,
}
use mathlib.Core.Path.{◌≡◌, refl, ap}
use native.Mathlib.Nat.{pow-suc}
use native.Mathlib.Omega.{arith}

abbrev or_digits : ℕ → ℕ → ℕ → ℕ
or_digits n a b = digits (λ y. y) max n a b

or_digits_fuel : (n m a b : ℕ) → a ≤ n → a ≤ m → or_digits n a b ≡ or_digits m a b
or_digits_fuel zero zero a b p q = refl
or_digits_fuel zero (suc m) zero b p q = refl
or_digits_fuel zero (suc m) (suc a) b p q = absurd (omega arith)
or_digits_fuel (suc n) zero zero b p q = refl
or_digits_fuel (suc n) zero (suc a) b p q = absurd (omega arith)
or_digits_fuel (suc n) (suc m) zero b p q = refl
or_digits_fuel (suc n) (suc m) (suc a) b p q =
    omega (arith, or_digits_fuel n m (suc a / 2) (b / 2) (omega arith) (omega arith))

pub zero-bit_or : (b : ℕ) → bit_or 0 b ≡ b
zero-bit_or b = bit_or-bitwise 0 b

pub bit_or_step : (a b : ℕ) → bit_or a b ≡ bit_or (a / 2) (b / 2) * 2 + max (a % 2) (b % 2)
bit_or_step zero b = omega (arith, zero-bit_or b, zero-bit_or (b / 2))
bit_or_step (suc a) b = omega (
  arith,
  bit_or-bitwise (suc a) b,
  bit_or-bitwise (suc a / 2) (b / 2),
  or_digits_fuel a (suc a / 2) (suc a / 2) (b / 2) (omega arith) (omega arith),
)

-- One digit of the low field: below it the high field has a zero digit.
or_digit : (lo hi : ℕ) → bit_or lo (hi * 2) ≡ bit_or (lo / 2) hi * 2 + lo % 2
or_digit lo hi = ground (arith, bit_or_step lo (hi * 2))

-- `lo | (hi << k)` is a sum where `lo` has at most `k` bits.
pub bit_or_shifted : (k lo hi : ℕ) → lo < 2 ^ k → bit_or lo (hi * 2 ^ k) ≡ hi * 2 ^ k + lo
bit_or_shifted zero lo hi fits = ground (arith, zero-bit_or (hi * 1))
bit_or_shifted (suc k) lo hi fits = ground (
  arith,
  pow-suc 2 k,
  ap (λ (t : ℕ). hi * t) (pow-suc 2 k),
  or_digit lo (hi * 2 ^ k),
  bit_or_shifted k (lo / 2) hi (omega (arith, pow-suc 2 k)),
)

or_digit_right : (lo hi : ℕ) → bit_or (hi * 2) lo ≡ bit_or hi (lo / 2) * 2 + lo % 2
or_digit_right lo hi = ground (arith, bit_or_step (hi * 2) lo)

bit_or-zero_fuel : (n a : ℕ) → a ≤ n → bit_or a 0 ≡ a
bit_or-zero_fuel n zero h = zero-bit_or 0
bit_or-zero_fuel zero (suc a) h = absurd (omega arith)
bit_or-zero_fuel (suc n) (suc a) h =
    omega (arith, bit_or_step (suc a) 0, bit_or-zero_fuel n (suc a / 2) (omega arith))

bit_or-zero : (a : ℕ) → bit_or a 0 ≡ a
bit_or-zero a = bit_or-zero_fuel a a (omega arith)

-- The same with the fields the other way round, `(hi << k) | lo`.
pub bit_or_high : (k hi lo : ℕ) → lo < 2 ^ k → bit_or (hi * 2 ^ k) lo ≡ hi * 2 ^ k + lo
bit_or_high zero hi lo fits =
    let none_low : lo ≡ 0 = omega arith in rw none_low (rw bit_or-zero (omega arith))
bit_or_high (suc k) hi lo fits = ground (
  arith,
  pow-suc 2 k,
  ap (λ (t : ℕ). hi * t) (pow-suc 2 k),
  or_digit_right lo (hi * 2 ^ k),
  bit_or_high k hi (lo / 2) (omega (arith, pow-suc 2 k)),
)
