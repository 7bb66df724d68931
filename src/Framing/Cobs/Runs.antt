-- ===== src/Framing/Cobs/Runs.antt =====
-- What the encoder writes, as a list of closed runs and an open one.
use mathlib.Core.List.{append-nil}
use meshpigeon_firmware.Prelude.{
  ℕ, zero, suc, ◌+◌, ◌≤◌, ◌<◌, ◌≡◌, refl, ap, ◌∙◌, sym, inl, inr, List, [], ◌∷◌, ◌++◌, append_assoc,
  arith, ltb, ◌==◌, if◌then◌else◌, Bool-cases, ne→==, length, length-append, set, set-append_mid,
  All, All-append, IsBytes, subst,
}
use meshpigeon_firmware.Framing.Cobs.{
  CobsEncoder, start, close_block, put, finish, put_all, cobs_encode,
}

-- A run of nonzero bytes goes out behind its code byte.
abbrev pub code_run : List ℕ → List ℕ
code_run r = suc (length r) ∷ r

abbrev pub code_runs : List (List ℕ) → List ℕ
code_runs [] = []
code_runs (r ∷ rs) = code_run r ++ code_runs rs

-- The bytes that a closed run stands for: a zero follows, unless the run is full.
abbrev pub plain_run : List ℕ → List ℕ
plain_run r = if ltb (length r) 254 then r ++ 0 ∷ [] else r

abbrev pub plain_runs : List (List ℕ) → List ℕ
plain_runs [] = []
plain_runs (r ∷ rs) = plain_run r ++ plain_runs rs

-- A byte of a run: no zero.
abbrev pub IsData : ℕ → Type 0
IsData b = (0 < b) × (b < 256)

abbrev pub IsRun : List ℕ → Type 0
IsRun r = All IsData r × (length r ≤ 254)

pub code_runs-append :
    (rs : List (List ℕ)) (r : List ℕ) → code_runs (rs ++ r ∷ []) ≡ code_runs rs ++ code_run r
code_runs-append [] r = append-nil (code_run r)
code_runs-append (q ∷ rs) r =
    ap (◌++◌ (code_run q)) (code_runs-append rs r)
    ∙ sym (append_assoc (code_run q) (code_runs rs) (code_run r))

pub plain_runs-append :
    (rs : List (List ℕ)) (r : List ℕ) → plain_runs (rs ++ r ∷ []) ≡ plain_runs rs ++ plain_run r
plain_runs-append [] r = append-nil (plain_run r)
plain_runs-append (q ∷ rs) r =
    ap (◌++◌ (plain_run q)) (plain_runs-append rs r)
    ∙ sym (append_assoc (plain_run q) (plain_runs rs) (plain_run r))

-- The encoder after the bytes `seen`, with the runs `closed` behind it and the run `run` open.
pub record Encodes (seen : List ℕ) (e : CobsEncoder) : Type 0 where
  pub closed : List (List ℕ)
  pub run : List ℕ
  pub written : e.dst ≡ code_runs closed ++ 0 ∷ run
  pub at : e.code_ptr ≡ length (code_runs closed)
  pub count : e.code ≡ suc (length run)
  pub meaning : seen ≡ plain_runs closed ++ run
  pub closed_IsRun : All IsRun closed
  pub run_IsData : All IsData run
  pub short : length run ≤ 253

pub start-Encodes : Encodes [] start
unfolding start
start-Encodes = record {
  closed = [];
  run = [];
  written = refl;
  at = refl;
  count = refl;
  meaning = refl;
  closed_IsRun = tt;
  run_IsData = tt;
  short = omega arith;
}

-- Writing the code byte of the open run completes it.
set_code :
    (e : CobsEncoder) (closed : List (List ℕ)) (run : List ℕ)
    → e.dst ≡ code_runs closed ++ 0 ∷ run
    → e.code_ptr ≡ length (code_runs closed)
    → e.code ≡ suc (length run)
    → set e.dst e.code_ptr e.code ≡ code_runs closed ++ code_run run
set_code e closed run w a c =
    rw (w, a, c) (set-append_mid (code_runs closed) run 0 (suc (length run)))

close_dst :
    (e : CobsEncoder) (closed : List (List ℕ)) (run : List ℕ)
    → e.dst ≡ code_runs closed ++ 0 ∷ run
    → e.code_ptr ≡ length (code_runs closed)
    → e.code ≡ suc (length run)
    → (close_block e).dst ≡ code_runs (closed ++ run ∷ []) ++ 0 ∷ []
unfolding close_block
close_dst e closed run w a c =
    ap (λ (d : List ℕ). d ++ 0 ∷ [])
      (set_code e closed run w a c ∙ sym (code_runs-append closed run))

close_ptr :
    (e : CobsEncoder) (closed : List (List ℕ)) (run : List ℕ)
    → e.dst ≡ code_runs closed ++ 0 ∷ run
    → length e.dst ≡ length (code_runs (closed ++ run ∷ []))
close_ptr e closed run w = rw (w, code_runs-append closed run, length-append, length-append)

-- Closing the open run, full or not.
close-Encodes :
    (seen seen' : List ℕ) (e : CobsEncoder) (closed : List (List ℕ)) (run : List ℕ)
    → e.dst ≡ code_runs closed ++ 0 ∷ run
    → e.code_ptr ≡ length (code_runs closed)
    → e.code ≡ suc (length run)
    → All IsRun closed
    → IsRun run
    → seen ≡ plain_runs closed
    → seen' ≡ seen ++ plain_run run
    → Encodes seen' (close_block e)
close-Encodes seen seen' e closed run w a c hs h m m' = record {
  closed = closed ++ run ∷ [];
  run = [];
  written = close_dst e closed run w a c;
  at = unfold close_block in close_ptr e closed run w;
  count = unfold close_block in refl;
  meaning =
      m'
      ∙ ap (λ (d : List ℕ). d ++ plain_run run) m
      ∙ sym (plain_runs-append closed run)
      ∙ sym (append-nil (plain_runs (closed ++ run ∷ [])));
  closed_IsRun = All-append IsRun closed (run ∷ []) hs (h, tt);
  run_IsData = tt;
  short = omega arith;
}

short_plain : (run : List ℕ) → length run ≤ 253 → plain_run run ≡ run ++ 0 ∷ []
short_plain run h = ground arith

full_plain : (run : List ℕ) → length run ≡ 254 → plain_run run ≡ run
full_plain run h = ground arith

put_zero-Encodes :
    (seen : List ℕ) (e : CobsEncoder) → Encodes seen e → Encodes (seen ++ 0 ∷ []) (put e 0)
unfolding put
put_zero-Encodes seen e h =
    close-Encodes (plain_runs h.closed) (seen ++ 0 ∷ []) e h.closed h.run h.written h.at h.count
      h.closed_IsRun (h.run_IsData, omega (arith, h.short)) refl
      (rw (h.meaning, short_plain h.run h.short)
        (append_assoc (plain_runs h.closed) h.run (0 ∷ [])))

-- The state after a nonzero byte was stored and counted.
abbrev stored : CobsEncoder → ℕ → CobsEncoder
stored e v = record e { dst = e.dst ++ v ∷ []; code = e.code + 1 }

put_data-Encodes :
    (seen : List ℕ) (e : CobsEncoder) (v : ℕ)
    → IsData v
    → Encodes seen e
    → Encodes (seen ++ v ∷ []) (put e v)
unfolding put
put_data-Encodes seen e v d h =
    rw (ne→== v 0 (omega arith)) elim (Bool-cases (e.code + 1 == 0xFF)) [
      | inl full ↦ rw full (
          close-Encodes (plain_runs h.closed) (seen ++ v ∷ []) (stored e v) h.closed
            (h.run ++ v ∷ []) written' h.at count' h.closed_IsRun (data', omega (arith, len')) refl
            (meaning'
              ∙ ap (◌++◌ (plain_runs h.closed))
                  (sym (full_plain (h.run ++ v ∷ []) (ground (arith, len', h.count))))))
      | inr more ↦ rw more (record {
        closed = h.closed;
        run = h.run ++ v ∷ [];
        written = written';
        at = h.at;
        count = count';
        meaning = meaning';
        closed_IsRun = h.closed_IsRun;
        run_IsData = data';
        short = ground (arith, len', h.count, h.short);
      })
    ]
  where
    len' : length (h.run ++ v ∷ []) ≡ length h.run + 1
    len' = length-append h.run (v ∷ [])

    written' : e.dst ++ v ∷ [] ≡ code_runs h.closed ++ 0 ∷ (h.run ++ v ∷ [])
    written' = rw h.written (append_assoc (code_runs h.closed) (0 ∷ h.run) (v ∷ []))

    count' : e.code + 1 ≡ suc (length (h.run ++ v ∷ []))
    count' = omega (arith, len', h.count)

    data' : All IsData (h.run ++ v ∷ [])
    data' = All-append IsData h.run (v ∷ []) h.run_IsData (d, tt)

    meaning' : seen ++ v ∷ [] ≡ plain_runs h.closed ++ (h.run ++ v ∷ [])
    meaning' = rw h.meaning (append_assoc (plain_runs h.closed) h.run (v ∷ []))

put-Encodes :
    (seen : List ℕ) (e : CobsEncoder) (v : ℕ)
    → v < 256
    → Encodes seen e
    → Encodes (seen ++ v ∷ []) (put e v)
put-Encodes seen e zero b h = put_zero-Encodes seen e h
put-Encodes seen e (suc v) b h = put_data-Encodes seen e (suc v) (omega arith, b) h

pub put_all-Encodes :
    (src seen : List ℕ) (e : CobsEncoder)
    → IsBytes src
    → Encodes seen e
    → Encodes (seen ++ src) (put_all e src)
unfolding put_all
put_all-Encodes [] seen e b h = rw (append-nil seen) h
put_all-Encodes (v ∷ src) seen e b h =
    subst (λ s. Encodes s (put_all (put e v) src)) (append_assoc seen (v ∷ []) src)
      (put_all-Encodes src (seen ++ v ∷ []) (put e v) b.1 (put-Encodes seen e v b.0 h))

-- The encoded form of `src`: closed runs and a last, short one.
pub record Encoded (src out : List ℕ) : Type 0 where
  pub closed : List (List ℕ)
  pub run : List ℕ
  pub written : out ≡ code_runs closed ++ code_run run
  pub meaning : src ≡ plain_runs closed ++ run
  pub closed_IsRun : All IsRun closed
  pub run_IsData : All IsData run
  pub short : length run ≤ 253

pub finish-Encoded : (src : List ℕ) (e : CobsEncoder) → Encodes src e → Encoded src (finish e)
unfolding finish
finish-Encoded src e h = record {
  closed = h.closed;
  run = h.run;
  written = set_code e h.closed h.run h.written h.at h.count;
  meaning = h.meaning;
  closed_IsRun = h.closed_IsRun;
  run_IsData = h.run_IsData;
  short = h.short;
}

pub cobs_encode-Encoded : (src : List ℕ) → IsBytes src → Encoded src (cobs_encode src)
unfolding cobs_encode
cobs_encode-Encoded src b =
    finish-Encoded src (put_all start src) (put_all-Encodes src [] start b start-Encodes)
