-- ===== src/Prelude/Memory.antt =====
-- `memcpy` into and out of a byte buffer, and little-endian numbers in it. A write out of range
-- changes nothing and a read there gives 0; the theorems show that neither happens.
use Prim.Native.Nat.{ℕ, zero, suc, ◌+◌, ◌*◌, ◌/◌, ◌%◌, ◌^◌, ◌≤◌, ◌<◌}
use mathlib.Core.Path.{◌≡◌, refl, ap, ap₂, ◌∙◌}
use mathlib.Core.Logic.{◌⊎◌}
use mathlib.Core.List.{List, [], ◌∷◌}
use native.Mathlib.Nat.{pow-suc}
use native.Mathlib.Omega.{arith}
use meshpigeon_firmware.Prelude.Lists.{
  All, length, set, get_or, length-set, get_or-set_same, get_or-set_other,
}

unfoldable pub read_bytes : List ℕ → ℕ → ℕ → List ℕ
read_bytes buf off zero = []
read_bytes buf off (suc n) = get_or buf off 0 ∷ read_bytes buf (off + 1) n

unfoldable pub write_bytes : List ℕ → ℕ → List ℕ → List ℕ
write_bytes buf off [] = buf
write_bytes buf off (b ∷ bs) = write_bytes (set buf off b) (off + 1) bs

abbrev pub le_bytes : ℕ → ℕ → List ℕ
le_bytes zero v = []
le_bytes (suc n) v = v % 256 ∷ le_bytes n (v / 256)

abbrev pub from_le : List ℕ → ℕ
from_le [] = 0
from_le (b ∷ bs) = b + 256 * from_le bs

pub from_le-le_bytes : (n v : ℕ) → v < 256 ^ n → from_le (le_bytes n v) ≡ v
from_le-le_bytes zero v h = omega arith
from_le-le_bytes (suc n) v h =
    omega (arith, from_le-le_bytes n (v / 256) (omega (arith, pow-suc 256 n)))

pub length-write_bytes : (bs buf : List ℕ) (off : ℕ) → length (write_bytes buf off bs) ≡ length buf
unfolding write_bytes
length-write_bytes [] buf off = refl
length-write_bytes (b ∷ bs) buf off =
    length-write_bytes bs (set buf off b) (off + 1) ∙ length-set buf off b

pub length-read_bytes : (n : ℕ) (buf : List ℕ) (off : ℕ) → length (read_bytes buf off n) ≡ n
unfolding read_bytes
length-read_bytes zero buf off = refl
length-read_bytes (suc n) buf off = ap suc (length-read_bytes n buf (off + 1))

get_or-write_bytes :
    (bs buf : List ℕ) (off j : ℕ)
    → (j < off) ⊎ (off + length bs ≤ j)
    → get_or (write_bytes buf off bs) j 0 ≡ get_or buf j 0
unfolding write_bytes
get_or-write_bytes [] buf off j h = refl
get_or-write_bytes (b ∷ bs) buf off j h =
    get_or-write_bytes bs (set buf off b) (off + 1) j (omega arith)
    ∙ get_or-set_other buf j off b 0 (omega arith)

-- A write leaves every range that it does not meet as it was.
pub read_bytes-write_bytes_apart :
    (n : ℕ) (bs buf : List ℕ) (off at : ℕ)
    → (off + n ≤ at) ⊎ (at + length bs ≤ off)
    → read_bytes (write_bytes buf at bs) off n ≡ read_bytes buf off n
unfolding read_bytes
read_bytes-write_bytes_apart zero bs buf off at h = refl
read_bytes-write_bytes_apart (suc n) bs buf off at h =
    ap₂ ◌∷◌ (get_or-write_bytes bs buf at off (omega arith))
      (read_bytes-write_bytes_apart n bs buf (off + 1) at (omega arith))

-- What was written within the buffer is read back.
pub read_bytes-write_bytes :
    (bs buf : List ℕ) (off : ℕ)
    → off + length bs ≤ length buf
    → read_bytes (write_bytes buf off bs) off (length bs) ≡ bs
unfolding read_bytes write_bytes
read_bytes-write_bytes [] buf off h = refl
read_bytes-write_bytes (b ∷ bs) buf off h =
    ap₂ ◌∷◌
      (get_or-write_bytes bs (set buf off b) (off + 1) off (omega arith)
        ∙ get_or-set_same buf off b 0 (omega arith))
      (read_bytes-write_bytes bs (set buf off b) (off + 1) (omega (arith, length-set buf off b)))

get_or-suc :
    (x : ℕ) (xs : List ℕ) (n off : ℕ) → read_bytes (x ∷ xs) (suc off) n ≡ read_bytes xs off n
unfolding read_bytes
get_or-suc x xs zero off = refl
get_or-suc x xs (suc n) off =
    let next : suc off + 1 ≡ suc (off + 1) = omega arith in
    ap₂ ◌∷◌ refl (ap (λ (k : ℕ). read_bytes (x ∷ xs) k n) next ∙ get_or-suc x xs n (off + 1))

-- A buffer read whole.
pub read_bytes_whole : (xs : List ℕ) → read_bytes xs 0 (length xs) ≡ xs
unfolding read_bytes
read_bytes_whole [] = refl
read_bytes_whole (x ∷ xs) = ap (◌∷◌ x) (get_or-suc x xs (length xs) 0 ∙ read_bytes_whole xs)

pub get_or-lt :
    (xs : List ℕ) (bound i : ℕ) → All (λ x. x < bound) xs → 0 < bound → get_or xs i 0 < bound
get_or-lt [] bound i h pos = pos
get_or-lt (x ∷ xs) bound zero h pos = h.0
get_or-lt (x ∷ xs) bound (suc i) h pos = get_or-lt xs bound i h.1 pos
