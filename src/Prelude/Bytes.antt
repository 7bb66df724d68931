-- ===== src/Prelude/Bytes.antt =====
-- Bytes: values below 256, and little-endian numbers.
use Prim.Native.Nat.{ℕ, ◌<◌}
use mathlib.Core.List.{List}
use meshpigeon_firmware.Prelude.Lists.{All}

abbrev pub IsByte : ℕ → Type 0
IsByte b = b < 256

abbrev pub IsBytes : List ℕ → Type 0
IsBytes xs = All IsByte xs
