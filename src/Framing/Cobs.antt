-- ===== src/Framing/Cobs.antt =====
-- `CobsEncoder`, `cobs_encode` and `cobs_decode` of framing.h and framing.cpp.
pub mod Runs
pub mod RoundTrip
pub mod Shape
use meshpigeon_firmware.Prelude.{
  ℕ, zero, suc, ◌+◌, ◌-◌, List, [], ◌∷◌, ◌++◌, Bool, ◌&&◌, not, Option, none, some, ltb, leb, ◌==◌,
  if◌then◌else◌, length, set, take, drop, is_empty,
}

-- `dst` holds the bytes from the start of the output up to `out_`; a code byte that is reserved
-- and not yet written reads 0. `code_ptr` is an index into it.
pub record CobsEncoder : Type 0 where
  pub dst : List ℕ
  pub code_ptr : ℕ
  pub code : ℕ

unfoldable pub start : CobsEncoder
start = record { dst = 0 ∷ []; code_ptr = 0; code = 1 }

unfoldable pub close_block : CobsEncoder → CobsEncoder
close_block e = record {
  dst = set e.dst e.code_ptr e.code ++ 0 ∷ [];
  code_ptr = length e.dst;
  code = 1;
}

-- A run holds at most 254 bytes: the code byte tops out at 0xFF.
unfoldable pub put : CobsEncoder → ℕ → CobsEncoder
unfolding close_block
put e v =
    let e' = record e { dst = e.dst ++ v ∷ []; code = e.code + 1 } in
    if v == 0 then close_block e else if e'.code == 0xFF then close_block e' else e'

unfoldable pub finish : CobsEncoder → List ℕ
finish e = set e.dst e.code_ptr e.code

unfoldable pub put_all : CobsEncoder → List ℕ → CobsEncoder
unfolding put
put_all e [] = e
put_all e (b ∷ bs) = put_all (put e b) bs

unfoldable pub cobs_encode : List ℕ → List ℕ
unfolding start put_all finish
cobs_encode src = finish (put_all start src)

-- The `while (src < end)` loop, on fuel: each round takes at least the code byte. `out` is what
-- has been written to `dst`; `none` is the `return 0` of malformed or oversized input.
unfoldable pub decode_loop : ℕ → ℕ → List ℕ → List ℕ → Option (List ℕ)
decode_loop fuel limit [] out = some out
decode_loop zero limit (code ∷ rest) out = none
decode_loop (suc fuel) limit (code ∷ rest) out =
    let block = code - 1 in
    let out' = out ++ take block rest in
    let rest' = drop block rest in
    let stop : Bool = leb limit (length out') in
    let separated = decode_loop fuel limit rest' (out' ++ 0 ∷ []) in
    let joined = decode_loop fuel limit rest' out' in
    if code == 0
    then none
    else if ltb (length rest) block
    then none
    else if ltb limit (length out + block)
    then none
    else if ltb code 0xFF && not (is_empty rest')
    then (if stop then none else separated)
    else joined

-- The bytes written; none where the source returns 0.
unfoldable pub cobs_decode : List ℕ → ℕ → List ℕ
unfolding decode_loop
cobs_decode src limit = elim (decode_loop (length src) limit src []) [ none ↦ [] | some out ↦ out ]
