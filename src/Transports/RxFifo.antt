-- ===== src/Transports/RxFifo.antt =====
-- `RxFifo` of src/transports.h: a ring of 512 bytes between the Bluetooth host's task, which writes,
-- and the board loop, which reads. `size_t` has 32 bits.
pub mod Fifo
use meshpigeon_firmware.Prelude.{
  ℕ, ◌+◌, ◌-◌, ◌%◌, ◌^◌, List, [], ◌∷◌, Option, none, some, leb, ◌==◌, if◌then◌else◌, set, get_or,
  bit_and,
}

pub record RxFifo : Type 0 where
  pub buf : List ℕ
  pub head : ℕ
  pub tail : ℕ

-- The one size that the firmware uses, kRxFifoBytes.
abbrev pub rx_fifo_bytes : ℕ
rx_fifo_bytes = 512

-- The difference of the two indices, which wrap.
unfoldable pub available : RxFifo → ℕ
available f = (f.head + 2 ^ 32 - f.tail) % 2 ^ 32

-- One byte in, `buf_[(head_++) & (N - 1)] = data[i]`.
unfoldable pub put_byte : RxFifo → ℕ → RxFifo
put_byte f b = record f {
  buf = set f.buf (bit_and f.head (rx_fifo_bytes - 1)) b;
  head = (f.head + 1) % 2 ^ 32;
}

-- What does not fit is dropped with the rest of the write.
unfoldable pub write : RxFifo → List ℕ → RxFifo
write f [] = f
write f (b ∷ bytes) =
    let rest = write (put_byte f b) bytes in if leb rx_fifo_bytes (available f) then f else rest

-- The next byte, or -1.
unfoldable pub read : RxFifo → RxFifo × Option ℕ
read f = if f.head == f.tail then (f, none) else (
  record f { tail = (f.tail + 1) % 2 ^ 32 },
  some (get_or f.buf (bit_and f.tail (rx_fifo_bytes - 1)) 0),
)

unfoldable pub clear : RxFifo → RxFifo
clear f = record f { tail = f.head }
