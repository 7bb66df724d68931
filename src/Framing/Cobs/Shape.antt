-- ===== src/Framing/Cobs/Shape.antt =====
-- What an encoding looks like on the wire, and how much a decoding can write.
use meshpigeon_firmware.Prelude.{
  ℕ, zero, suc, ◌+◌, ◌-◌, ◌*◌, ◌/◌, ◌≤◌, ◌<◌, ◌≡◌, ap, ◌∙◌, List, [], ◌∷◌, ◌++◌, Option, none, some,
  arith, length, length-append, take, drop, length-take, All, All-append, IsBytes, dec_lt, lt→ltb,
  le→ltb,
}
use meshpigeon_firmware.Framing.Cobs.{cobs_encode, cobs_decode, decode_loop}
use meshpigeon_firmware.Framing.Cobs.Runs.{
  code_run, code_runs, plain_run, plain_runs, IsData, IsRun, cobs_encode-Encoded,
}

code_run-IsData : (r : List ℕ) → IsRun r → All IsData (code_run r)
code_run-IsData r h = ((omega arith, omega (arith, h.1)), h.0)

code_runs-IsData : (rs : List (List ℕ)) → All IsRun rs → All IsData (code_runs rs)
code_runs-IsData [] h = tt
code_runs-IsData (r ∷ rs) h =
    All-append IsData (code_run r) (code_runs rs) (code_run-IsData r h.0) (code_runs-IsData rs h.1)

plain_run_growth : (r : List ℕ) → length r ≤ 254 → 254 * suc (length r) ≤ 255 * length (plain_run r)
plain_run_growth r h = elim (dec_lt (length r) 254) [
  | yes p ↦ rw (lt→ltb (length r) 254 p) (omega (arith, length-append {0} r (0 ∷ [])))
  | no p ↦ rw (le→ltb (length r) 254 (omega arith)) (omega arith)
]

-- A code byte stands for a zero, except in front of a full run.
plain_runs_growth :
    (rs : List (List ℕ)) → All IsRun rs → 254 * length (code_runs rs) ≤ 255 * length (plain_runs rs)
plain_runs_growth [] h = omega arith
plain_runs_growth (r ∷ rs) h = omega (
  arith,
  length-append {0} (code_run r) (code_runs rs),
  length-append {0} (plain_run r) (plain_runs rs),
  plain_run_growth r h.0.1,
  plain_runs_growth rs h.1,
)

-- An encoding of bytes holds no zero, and is at most one byte, and one for each 254, longer.
pub cobs_encode-IsData :
    (src : List ℕ)
    → IsBytes src
    → All IsData (cobs_encode src)
      × (0 < length (cobs_encode src))
      × (length (cobs_encode src) ≤ length src + length src / 254 + 1)
cobs_encode-IsData src b =
    let h = cobs_encode-Encoded src b in
    let size : length (cobs_encode src) ≡ length (code_runs h.closed) + suc (length h.run) =
      ap (λ (s : List ℕ). length s) h.written
      ∙ length-append (code_runs h.closed) (code_run h.run) in
    let plain : length src ≡ length (plain_runs h.closed) + length h.run =
      ap (λ (s : List ℕ). length s) h.meaning ∙ length-append (plain_runs h.closed) h.run in
    (
      rw h.written (
          All-append IsData (code_runs h.closed) (code_run h.run)
            (code_runs-IsData h.closed h.closed_IsRun)
            (code_run-IsData h.run (h.run_IsData, omega (arith, h.short)))),
      omega (arith, size),
      omega (arith, size, plain, plain_runs_growth h.closed h.closed_IsRun),
    )

-- What a decoding that returns has written.
abbrev Within : ℕ → Option (List ℕ) → Type 0
Within limit none = Unit
Within limit (some out) = length out ≤ limit

decode_loop-Within :
    (fuel limit : ℕ) (src out : List ℕ)
    → length out ≤ limit
    → Within limit (decode_loop fuel limit src out)
unfolding decode_loop
decode_loop-Within zero limit [] out h = h
decode_loop-Within zero limit (code ∷ rest) out h = tt
decode_loop-Within (suc fuel) limit [] out h = h
decode_loop-Within (suc fuel) limit (code ∷ rest) out h = ground (
  arith,
  length-append {0} out (take (code - 1) rest),
  length-append {0} (out ++ take (code - 1) rest) (0 ∷ []),
  length-take {0} (code - 1) rest,
  decode_loop-Within fuel limit (drop (code - 1) rest) (out ++ take (code - 1) rest),
  decode_loop-Within fuel limit (drop (code - 1) rest) ((out ++ take (code - 1) rest) ++ 0 ∷ []),
)

-- No input makes the decoder write past the capacity that it is given.
pub length-cobs_decode : (src : List ℕ) (limit : ℕ) → length (cobs_decode src limit) ≤ limit
unfolding cobs_decode
length-cobs_decode src limit =
    go (decode_loop (length src) limit src [])
      (decode_loop-Within (length src) limit src [] (omega arith))
  where
    go :
        (r : Option (List ℕ))
        → Within limit r
        → length (elim r as (λ _. List ℕ) [ none ↦ [] | some out ↦ out ]) ≤ limit
    go none h = omega arith
    go (some out) h = h
