-- ===== src/Framing/Cobs/RoundTrip.antt =====
-- Decoding gives the source of an encoding back; what an encoding looks like on the wire.
use meshpigeon_firmware.Prelude.{
  ℕ, zero, suc, ◌+◌, ◌-◌, ◌≤◌, ◌≡◌, refl, ap, ◌∙◌, sym, subst, List, [], ◌∷◌, ◌++◌, append_assoc,
  append-nil, false, ◌&&◌, not, none, some, arith, ltb, leb, if◌then◌else◌, length, length-append,
  take-append, drop-append, is_empty, All, IsBytes, le→ltb, lt→ltb, lt→leb, ne→==, Bool-cases, inl,
  inr, dec_lt,
}
use meshpigeon_firmware.Framing.Cobs.{cobs_encode, cobs_decode, decode_loop}
use meshpigeon_firmware.Framing.Cobs.Runs.{
  code_run, code_runs, plain_run, plain_runs, IsRun, cobs_encode-Encoded,
}

-- One round of the decoder on a code byte with its run, and what follows.
decode_round :
    (fuel limit : ℕ) (r rest out : List ℕ)
    → length r ≤ 254
    → length out + length r ≤ limit
    → decode_loop (suc fuel) limit (code_run r ++ rest) out ≡ (
        if ltb (suc (length r)) 0xFF && not (is_empty rest)
        then (if leb limit (length (out ++ r))
            then none
            else decode_loop fuel limit rest ((out ++ r) ++ 0 ∷ []))
        else decode_loop fuel limit rest (out ++ r))
unfolding decode_loop
decode_round fuel limit r rest out short fits =
    let pred_code : suc (length r) - 1 ≡ length r = omega arith in
    rw (
      pred_code,
      ne→== (suc (length r)) 0 (omega arith),
      le→ltb (length (r ++ rest)) (length r) (omega (arith, length-append {0} r rest)),
      le→ltb limit (length out + length r) fits,
      take-append r rest,
      drop-append r rest,
    )

decode_nil : (fuel limit : ℕ) (out : List ℕ) → decode_loop fuel limit [] out ≡ some out
unfolding decode_loop
decode_nil zero limit out = refl
decode_nil (suc fuel) limit out = refl

-- A closed run with more behind it decodes to its bytes, and to a zero unless it is full.
decode_closed :
    (fuel limit : ℕ) (r rest out : List ℕ)
    → length r ≤ 254
    → is_empty rest ≡ false
    → length out + length (plain_run r) ≤ limit
    → decode_loop (suc fuel) limit (code_run r ++ rest) out
      ≡ decode_loop fuel limit rest (out ++ plain_run r)
decode_closed fuel limit r rest out short more fits = elim (dec_lt (length r) 254) [
  | yes below ↦
      let plain : plain_run r ≡ r ++ 0 ∷ [] = rw (lt→ltb (length r) 254 below) in
      let room : length out + (length r + 1) ≤ limit =
        omega (arith, ap (λ (t : List ℕ). length t) plain, length-append {0} r (0 ∷ []), fits) in
      decode_round fuel limit r rest out short (omega arith)
      ∙ rw
          (
            more,
            lt→ltb (length r) 254 below,
            lt→ltb (suc (length r)) 255 (omega arith),
            lt→leb limit (length (out ++ r)) (omega (arith, length-append {0} out r)),
          )
          (ap (decode_loop fuel limit rest) (append_assoc out r (0 ∷ [])))
  | no full ↦
      let plain : plain_run r ≡ r = rw (le→ltb (length r) 254 (omega arith)) in
      decode_round fuel limit r rest out short (rw plain at fits)
      ∙ rw (le→ltb (length r) 254 (omega arith), le→ltb (suc (length r)) 255 (omega arith))
]

-- The last run ends the input, so that no zero follows it.
decode_last :
    (fuel limit : ℕ) (r out : List ℕ)
    → length r ≤ 254
    → length out + length r ≤ limit
    → decode_loop (suc fuel) limit (code_run r) out ≡ some (out ++ r)
decode_last fuel limit r out short fits =
    subst (λ (s : List ℕ). decode_loop (suc fuel) limit s out ≡ some (out ++ r))
      (append-nil (code_run r)) (decode_round fuel limit r [] out short fits ∙ closes)
  where
    closes :
        (if ltb (suc (length r)) 0xFF && false
          then (if leb limit (length (out ++ r))
              then none
              else decode_loop fuel limit [] ((out ++ r) ++ 0 ∷ []))
          else decode_loop fuel limit [] (out ++ r))
        ≡ some (out ++ r)
    closes = elim (Bool-cases (ltb (suc (length r)) 0xFF)) [
      | inl e ↦ rw e (decode_nil fuel limit (out ++ r))
      | inr e ↦ rw e (decode_nil fuel limit (out ++ r))
    ]

more_runs : (rs : List (List ℕ)) (r : List ℕ) → is_empty (code_runs rs ++ code_run r) ≡ false
more_runs [] r = refl
more_runs (q ∷ rs) r = refl

decode_runs :
    (fuel limit : ℕ) (closed : List (List ℕ)) (run out : List ℕ)
    → All IsRun closed
    → length run ≤ 253
    → length (code_runs closed ++ code_run run) ≤ fuel
    → length out + length (plain_runs closed ++ run) ≤ limit
    → decode_loop fuel limit (code_runs closed ++ code_run run) out
      ≡ some (out ++ (plain_runs closed ++ run))
decode_runs zero limit [] run out hs short enough fits = absurd (omega arith)
decode_runs zero limit (r ∷ closed) run out hs short enough fits = absurd (omega arith)
decode_runs (suc fuel) limit [] run out hs short enough fits =
    decode_last fuel limit run out (omega arith) fits
decode_runs (suc fuel) limit (r ∷ closed) run out hs short enough fits =
    ap (λ (s : List ℕ). decode_loop (suc fuel) limit s out)
      (append_assoc (code_run r) (code_runs closed) (code_run run))
    ∙ decode_closed fuel limit r rest out hs.0.1 (more_runs closed run) (omega (arith, total, fits))
    ∙ decode_runs fuel limit closed run (out ++ plain_run r) hs.1 short
        (omega (
          arith,
          enough,
          length-append {0} (code_run r ++ code_runs closed) (code_run run),
          length-append {0} r (code_runs closed),
          length-append {0} (code_runs closed) (code_run run),
        ))
        (omega (arith, total, fits, length-append {0} out (plain_run r)))
    ∙ ap some regroup
  where
    rest : List ℕ
    rest = code_runs closed ++ code_run run

    regroup :
        (out ++ plain_run r) ++ (plain_runs closed ++ run)
        ≡ out ++ ((plain_run r ++ plain_runs closed) ++ run)
    regroup = simp append_assoc

    total :
        length ((plain_run r ++ plain_runs closed) ++ run)
        ≡ length (plain_run r) + length (plain_runs closed ++ run)
    total =
        rw (append_assoc (plain_run r) (plain_runs closed) run)
          (length-append (plain_run r) (plain_runs closed ++ run))

decoded :
    (src : List ℕ) (limit : ℕ) {out : List ℕ}
    → decode_loop (length src) limit src [] ≡ some out
    → cobs_decode src limit ≡ out
unfolding cobs_decode
decoded src limit e = rw (e, cobs_decode)

-- Decoding the COBS encoding of a byte string gives the string back, if the output buffer holds it.
pub cobs_decode-cobs_encode :
    (src : List ℕ) (limit : ℕ)
    → IsBytes src
    → length src ≤ limit
    → cobs_decode (cobs_encode src) limit ≡ src
cobs_decode-cobs_encode src limit b fits =
    let h = cobs_encode-Encoded src b in
    let whole : length (plain_runs h.closed ++ h.run) ≤ limit = rw (← h.meaning) fits in
    ap (λ (s : List ℕ). cobs_decode s limit) h.written
    ∙ decoded (code_runs h.closed ++ code_run h.run) limit (
        decode_runs (length (code_runs h.closed ++ code_run h.run)) limit h.closed h.run []
          h.closed_IsRun h.short (omega arith) (omega (arith, whole)))
    ∙ sym h.meaning
