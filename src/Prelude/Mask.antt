-- ===== src/Prelude/Mask.antt =====
-- `x & (2^k - 1)` is `x % 2^k`, for the ring of 512 bytes.
use Prim.Native.Nat.{
  ℕ, zero, suc, ◌+◌, ◌-◌, ◌*◌, ◌/◌, ◌%◌, ◌≤◌, min, bit_and, digits, bit_and-bitwise,
}
use mathlib.Core.Path.{◌≡◌, refl, sym, ap, ◌∙◌}
use native.Mathlib.Omega.{arith}

-- The recursion that a bitwise operation means gives the same with any fuel that is enough.
settles :
    (z : ℕ → ℕ) (f : ℕ → ℕ → ℕ) (bound fuel x y : ℕ)
    → x ≤ bound
    → x ≤ fuel
    → digits z f fuel x y ≡ digits z f x x y
settles z f bound zero zero y below enough = refl
settles z f bound (suc fuel) zero y below enough = refl
settles z f bound zero (suc x) y below enough = absurd (omega arith)
settles z f zero (suc fuel) (suc x) y below enough = absurd (omega arith)
settles z f (suc bound) (suc fuel) (suc x) y below enough =
    let half = suc x / 2 in
    ap (λ (t : ℕ). t * 2 + f (suc x % 2) (y % 2))
      (settles z f bound fuel half (y / 2) (omega arith) (omega arith)
        ∙ sym (settles z f bound x half (y / 2) (omega arith) (omega arith)))

-- A mask with a one at the bottom: the lowest digit stays, and the others go through its half.
peel : (x m : ℕ) → bit_and x (m * 2 + 1) ≡ bit_and (x / 2) m * 2 + x % 2
peel zero m = omega (arith, bit_and-bitwise 0 (m * 2 + 1), bit_and-bitwise 0 m)
peel (suc x) m =
    let half : (m * 2 + 1) / 2 ≡ m = omega arith in
    let inner =
      settles (λ y. zero) min x x (suc x / 2) ((m * 2 + 1) / 2) (omega arith) (omega arith) in
    omega (
      arith,
      bit_and-bitwise (suc x) (m * 2 + 1),
      bit_and-bitwise (suc x / 2) ((m * 2 + 1) / 2),
      inner,
      ap (bit_and (suc x / 2)) half,
    )

-- No digit passes an empty mask.
nothing_passes : (bound x : ℕ) → x ≤ bound → bit_and x 0 ≡ 0
nothing_passes bound zero below = bit_and-bitwise 0 0
nothing_passes zero (suc x) below = absurd (omega arith)
nothing_passes (suc bound) (suc x) below = omega (
  arith,
  bit_and-bitwise (suc x) 0,
  bit_and-bitwise (suc x / 2) 0,
  settles (λ y. zero) min x x (suc x / 2) 0 (omega arith) (omega arith),
  nothing_passes bound (suc x / 2) (omega arith),
)

three_ones : (x : ℕ) → bit_and x 7 ≡ x % 8
three_ones x = omega (
  arith,
  peel x 3,
  peel (x / 2) 1,
  peel (x / 2 / 2) 0,
  nothing_passes (x / 2 / 2 / 2) (x / 2 / 2 / 2) (omega arith),
)

six_ones : (x : ℕ) → bit_and x 63 ≡ x % 64
six_ones x =
    omega (arith, peel x 31, peel (x / 2) 15, peel (x / 2 / 2) 7, three_ones (x / 2 / 2 / 2))

pub bit_and-mask : (x : ℕ) → bit_and x (512 - 1) ≡ x % 512
bit_and-mask x =
    omega (arith, peel x 255, peel (x / 2) 127, peel (x / 2 / 2) 63, six_ones (x / 2 / 2 / 2))
