-- ===== src/Transports/RxFifo/Fifo.antt =====
-- The ring refines a bounded queue of bytes, whatever the order of writes and reads.
use meshpigeon_firmware.Prelude.{
  get_or-set_other, get_or-set_same, ℕ, zero, suc, ◌+◌, ◌-◌, ◌%◌, ◌^◌, ◌≤◌, ◌<◌, ◌≡◌, ◌≢◌, refl,
  sym, subst, ap, ap₂, ◌∙◌, List, [], ◌∷◌, ◌++◌, append-nil, append_assoc, true, false, Option,
  none, some, arith, leb, ◌==◌, length, length-append, length-set, take, take-nil, drop, dec_lt,
  set, get_or, bit_and-mask, ==_iff, ne→==, le→leb, lt→leb,
}
use meshpigeon_firmware.Transports.RxFifo.{
  RxFifo, rx_fifo_bytes, available, put_byte, write, read, clear,
}

-- `n` bytes from the index `t` on.
unfoldable pub bytes_at : List ℕ → ℕ → ℕ → List ℕ
bytes_at buf t zero = []
bytes_at buf t (suc n) = get_or buf (t % rx_fifo_bytes) 0 ∷ bytes_at buf ((t + 1) % 2 ^ 32) n

-- The ring holds the bytes `xs`, oldest first.
pub record Represents (f : RxFifo) (xs : List ℕ) : Type 0 where
  pub slots : length f.buf ≡ rx_fifo_bytes
  pub head_in : f.head < 2 ^ 32
  pub tail_in : f.tail < 2 ^ 32
  pub size : f.head ≡ (f.tail + length xs) % 2 ^ 32
  pub fits : length xs ≤ rx_fifo_bytes
  pub holds : bytes_at f.buf f.tail (length xs) ≡ xs

-- A write `far` behind the first of `n` bytes is none of them.
bytes_at-set :
    (n t far v : ℕ) (buf : List ℕ)
    → n ≤ far
    → far < rx_fifo_bytes
    → t < 2 ^ 32
    → bytes_at (set buf ((t + far) % 2 ^ 32 % rx_fifo_bytes) v) t n ≡ bytes_at buf t n
unfolding bytes_at
bytes_at-set zero t far v buf h k l = refl
bytes_at-set (suc n) t zero v buf h k l = absurd (omega arith)
bytes_at-set (suc n) t (suc far) v buf h k l =
    let apart : t % rx_fifo_bytes ≢ (t + suc far) % 2 ^ 32 % rx_fifo_bytes = λ e. omega arith in
    let same : (t + suc far) % 2 ^ 32 ≡ ((t + 1) % 2 ^ 32 + far) % 2 ^ 32 = omega arith in
    let rest =
      bytes_at-set n ((t + 1) % 2 ^ 32) far v buf (omega arith) (omega arith) (omega arith) in
    ap₂ (λ (x : ℕ) (xs : List ℕ). x ∷ xs)
      (get_or-set_other buf (t % rx_fifo_bytes) ((t + suc far) % 2 ^ 32 % rx_fifo_bytes) v 0 apart)
      (ap (λ (j : ℕ). bytes_at (set buf (j % rx_fifo_bytes) v) ((t + 1) % 2 ^ 32) n) same ∙ rest)

bytes_at_last :
    (n t : ℕ) (buf : List ℕ)
    → t < 2 ^ 32
    → bytes_at buf t (suc n)
      ≡ bytes_at buf t n ++ get_or buf ((t + n) % 2 ^ 32 % rx_fifo_bytes) 0 ∷ []
unfolding bytes_at
bytes_at_last zero t buf h =
    let here : (t + 0) % 2 ^ 32 ≡ t = omega arith in
    ap (λ (j : ℕ). get_or buf (j % rx_fifo_bytes) 0 ∷ []) (sym here)
bytes_at_last (suc n) t buf h =
    let same : ((t + 1) % 2 ^ 32 + n) % 2 ^ 32 ≡ (t + suc n) % 2 ^ 32 = omega arith in
    ap (◌∷◌ (get_or buf (t % rx_fifo_bytes) 0)) (
      bytes_at_last n ((t + 1) % 2 ^ 32) buf (omega arith)
      ∙ ap (λ (j : ℕ). bytes_at buf ((t + 1) % 2 ^ 32) n ++ get_or buf (j % rx_fifo_bytes) 0 ∷ [])
          same)

available-Represents : (f : RxFifo) (xs : List ℕ) → Represents f xs → available f ≡ length xs
unfolding available
available-Represents f xs r = omega (arith, r.size, r.fits, r.tail_in)

put_byte-Represents :
    (f : RxFifo) (xs : List ℕ) (b : ℕ)
    → Represents f xs
    → length xs < rx_fifo_bytes
    → Represents (put_byte f b) (xs ++ b ∷ [])
unfolding put_byte
put_byte-Represents f xs b r room =
    let slot = f.head % rx_fifo_bytes in
    let mask = bit_and-mask f.head in
    let n = length xs in
    let one_more : length (xs ++ b ∷ []) ≡ suc n = omega (arith, length-append {0} xs (b ∷ [])) in
    let there : slot ≡ (f.tail + n) % 2 ^ 32 % rx_fifo_bytes =
      ap (λ (j : ℕ). j % rx_fifo_bytes) r.size in
    let put = set f.buf slot b in
    let old : bytes_at put f.tail n ≡ xs =
      ap (λ (j : ℕ). bytes_at (set f.buf j b) f.tail n) there
      ∙ bytes_at-set n f.tail n b f.buf (omega arith) room r.tail_in
      ∙ r.holds in
    let new : get_or put ((f.tail + n) % 2 ^ 32 % rx_fifo_bytes) 0 ≡ b =
      ap (λ (j : ℕ). get_or put j 0) (sym there)
      ∙ get_or-set_same f.buf slot b 0 (omega (arith, r.slots)) in
    rw mask (record {
      slots = length-set f.buf slot b ∙ r.slots;
      head_in = omega arith;
      tail_in = r.tail_in;
      size = omega (arith, one_more, r.size);
      fits = omega (arith, one_more);
      holds =
          ap (bytes_at put f.tail) one_more
          ∙ bytes_at_last n f.tail put r.tail_in
          ∙ ap₂ (λ (t : List ℕ) (x : ℕ). t ++ x ∷ []) old new;
    })

write-Represents :
    (bytes : List ℕ) (f : RxFifo) (xs : List ℕ)
    → Represents f xs
    → Represents (write f bytes) (xs ++ take (rx_fifo_bytes - length xs) bytes)
unfolding write
write-Represents [] f xs r =
    subst (Represents f) (sym (append-nil xs) ∙ ap (◌++◌ xs) (sym (take-nil _))) r
write-Represents (b ∷ bytes) f xs r = elim (dec_lt (length xs) rx_fifo_bytes) [
  | no full ↦
      let stop : leb rx_fifo_bytes (available f) ≡ true =
        le→leb _ _ (omega (arith, available-Represents f xs r)) in
      let none_left : rx_fifo_bytes - length xs ≡ 0 = omega arith in
      rw (stop, none_left) (subst (Represents f) (sym (append-nil xs)) r)
  | yes room ↦
      let go : leb rx_fifo_bytes (available f) ≡ false =
        lt→leb _ _ (omega (arith, available-Represents f xs r)) in
      let more : rx_fifo_bytes - length xs ≡ suc (rx_fifo_bytes - length (xs ++ b ∷ [])) =
        omega (arith, length-append {0} xs (b ∷ [])) in
      let rest =
        write-Represents bytes (put_byte f b) (xs ++ b ∷ []) (put_byte-Represents f xs b r room) in
      rw (go, more)
        (subst (Represents (write (put_byte f b) bytes)) (append_assoc xs (b ∷ []) _) rest)
]

clear-Represents : (f : RxFifo) (xs : List ℕ) → Represents f xs → Represents (clear f) []
unfolding clear bytes_at
clear-Represents f xs r = record {
  slots = r.slots;
  head_in = r.head_in;
  tail_in = r.head_in;
  size = omega (arith, r.head_in);
  fits = omega arith;
  holds = refl;
}

read_empty : (f : RxFifo) → Represents f [] → read f ≡ (f, none)
unfolding read
read_empty f r =
    let same : (f.head == f.tail) ≡ true =
      (==_iff f.head f.tail).1 (omega (arith, r.size, r.tail_in)) in
    rw same refl

read_next :
    (f : RxFifo) (x : ℕ) (xs : List ℕ)
    → Represents f (x ∷ xs)
    → ((read f).1 ≡ some x) × Represents (read f).0 xs
unfolding read bytes_at
read_next f x xs r =
    let differ : (f.head == f.tail) ≡ false =
      ne→== f.head f.tail (λ e. omega (arith, r.size, r.tail_in, r.fits, e)) in
    let mask = bit_and-mask f.tail in
    rw (differ, mask)
      (
        ap some (ap (λ (l : List ℕ). get_or l 0 0) r.holds),
        record {
          slots = r.slots;
          head_in = r.head_in;
          tail_in = omega arith;
          size = omega (arith, r.size);
          fits = omega (arith, r.fits);
          holds = ap (drop 1) r.holds;
        },
      )

-- What the two tasks do to the ring.
pub data Call : Type 0 where
  write_bytes : List ℕ → Call
  read_byte : Call
  clear_all : Call

abbrev pub run_ring : List Call → RxFifo → List (Option ℕ) × RxFifo
run_ring [] f = ([], f)
run_ring (Call.write_bytes bytes ∷ calls) f = run_ring calls (write f bytes)
run_ring (Call.read_byte ∷ calls) f =
    let (got, end) = run_ring calls (read f).0 in ((read f).1 ∷ got, end)
run_ring (Call.clear_all ∷ calls) f = run_ring calls (clear f)

-- The same of a queue that holds 512 bytes and drops what comes on top.
abbrev pub run_queue : List Call → List ℕ → List (Option ℕ) × List ℕ
run_queue [] xs = ([], xs)
run_queue (Call.write_bytes bytes ∷ calls) xs =
    run_queue calls (xs ++ take (rx_fifo_bytes - length xs) bytes)
run_queue (Call.read_byte ∷ calls) [] = let (got, end) = run_queue calls [] in (none ∷ got, end)
run_queue (Call.read_byte ∷ calls) (x ∷ xs) =
    let (got, end) = run_queue calls xs in (some x ∷ got, end)
run_queue (Call.clear_all ∷ calls) xs = run_queue calls []

-- The ring is a queue of at most 512 bytes: in any order of writes, reads and clears each read
-- gives what the queue gives, also across the wrap of the indices, and what does not fit is dropped
-- from the end of its write.
pub run_ring-run_queue :
    (calls : List Call) (f : RxFifo) (xs : List ℕ)
    → Represents f xs
    → ((run_ring calls f).0 ≡ (run_queue calls xs).0)
      × Represents (run_ring calls f).1 (run_queue calls xs).1
run_ring-run_queue [] f xs r = (refl, r)
run_ring-run_queue (Call.write_bytes bytes ∷ calls) f xs r =
    run_ring-run_queue calls (write f bytes) _ (write-Represents bytes f xs r)
run_ring-run_queue (Call.clear_all ∷ calls) f xs r =
    run_ring-run_queue calls (clear f) [] (clear-Represents f xs r)
run_ring-run_queue (Call.read_byte ∷ calls) f [] r =
    let (same, end) = run_ring-run_queue calls f [] r in
    rw (read_empty f r) (ap (◌∷◌ none) same, end)
run_ring-run_queue (Call.read_byte ∷ calls) f (x ∷ xs) r =
    let (got, held) = read_next f x xs r in
    let (same, end) = run_ring-run_queue calls (read f).0 xs held in
    (ap₂ (λ (o : Option ℕ) (os : List (Option ℕ)). o ∷ os) got same, end)
