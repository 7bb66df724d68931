-- ===== src/Settings/Text.antt =====
-- The fixed character fields of the settings, and the rules for what a client may write into them
-- (`copy_str` of command_processor.cpp, the static functions of `DeviceSettings` in settings.h).
use meshpigeon_firmware.Prelude.{
  ℕ, zero, suc, ◌+◌, ◌-◌, ◌≤◌, ◌<◌, ◌≡◌, refl, ap, ap₂, ◌∙◌, sym, List, [], ◌∷◌, ◌++◌, Bool, true,
  false, ◌&&◌, ◌||◌, not, arith, ltb, leb, ◌==◌, if◌then◌else◌, length, length-append,
  length-replicate, length-take, take, replicate, get_or, min, ==_refl, ==_iff, Bool-cases, inl,
  inr, ne→==, dec_le,
}
use mathlib.Core.Bool.{false≢true}

-- MESHPIGEON_NAME_MAX, MESHPIGEON_PIN_MIN, MESHPIGEON_PIN_MAX, MESHPIGEON_SSID_MAX, MESHPIGEON_PASS_MAX
abbrev pub name_max : ℕ
name_max = 20

abbrev pub pin_min : ℕ
pin_min = 4

abbrev pub pin_max : ℕ
pin_max = 8

abbrev pub ssid_max : ℕ
ssid_max = 32

abbrev pub pass_max : ℕ
pass_max = 63

-- The string in an array: its bytes in front of the first NUL.
unfoldable pub str_of : List ℕ → List ℕ
str_of [] = []
str_of (c ∷ cs) = if c == 0 then [] else c ∷ str_of cs

unfoldable pub strlen : List ℕ → ℕ
strlen s = length (str_of s)

-- `strcmp(a, b) == 0`; the end of an array counts as a NUL.
unfoldable pub strcmp_eq : List ℕ → List ℕ → Bool
strcmp_eq [] [] = true
strcmp_eq [] (b ∷ ys) = b == 0
strcmp_eq (a ∷ xs) [] = a == 0
strcmp_eq (a ∷ xs) (b ∷ ys) = (a == b) && ((a == 0) || strcmp_eq xs ys)

-- An array of `size` bytes: the string, cut to leave room for a NUL, and NULs behind it.
unfoldable pub copy_str : ℕ → List ℕ → List ℕ
copy_str size src = let n = min (strlen src) (size - 1) in take n src ++ replicate (size - n) 0

unfoldable pub all_chars : (ℕ → Bool) → List ℕ → Bool
all_chars test [] = true
all_chars test (c ∷ cs) = test c && all_chars test cs

unfoldable pub valid_name : List ℕ → ℕ → Bool
valid_name s len =
    if ltb name_max len then false else all_chars (λ c. not (ltb c 0x20 || c == 0x7F)) (take len s)

unfoldable pub valid_pin : List ℕ → ℕ → Bool
valid_pin s len =
    if ltb len pin_min || ltb pin_max len
    then false
    else all_chars (λ c. not (ltb c 48 || ltb 57 c)) (take len s)

unfoldable pub valid_pin_set : List ℕ → ℕ → Bool
valid_pin_set s len = len == 0 || valid_pin s len

unfoldable pub valid_ssid : List ℕ → ℕ → Bool
valid_ssid s len = leb len ssid_max

unfoldable pub valid_password : List ℕ → ℕ → Bool
valid_password s len = leb len pass_max

unfoldable pub valid_port : ℕ → Bool
valid_port port = not (port == 0) && leb port 0xFFFF

-- kDefaultPin, "0000"
abbrev pub default_pin : List ℕ
default_pin = 48 ∷ 48 ∷ 48 ∷ 48 ∷ []

-- The whole PIN field, rewritten.
unfoldable pub set_pin : List ℕ → List ℕ
set_pin s =
    let pin = if get_or s 0 0 == 0 then default_pin else s in
    let len = min (strlen pin) pin_max in take len pin ++ replicate (pin_max + 1 - len) 0

str_of-padded :
    (k : ℕ) (s : List ℕ) (n : ℕ)
    → n ≤ strlen s
    → str_of (take n s ++ replicate k 0) ≡ take n (str_of s)
unfolding str_of strlen
str_of-padded k [] zero h = pad k
  where
    pad : (k : ℕ) → str_of (replicate k 0) ≡ []
    pad zero = refl
    pad (suc k) = refl
str_of-padded k [] (suc n) h = absurd (omega arith)
str_of-padded k (c ∷ s) zero h = pad k
  where
    pad : (k : ℕ) → str_of (replicate k 0) ≡ []
    pad zero = refl
    pad (suc k) = refl
str_of-padded k (c ∷ s) (suc n) h = elim (Bool-cases (c == 0)) [
  | inl e ↦ absurd (let none_left : suc n ≤ 0 = rw e at h in omega arith)
  | inr e ↦
      let inner : suc n ≤ suc (length (str_of s)) = rw e at h in
      rw e (ap (λ (t : List ℕ). c ∷ t) (str_of-padded k s n (omega arith)))
]

strlen-le-length : (s : List ℕ) → strlen s ≤ length s
unfolding strlen str_of
strlen-le-length [] = omega arith
strlen-le-length (c ∷ s) = ground (arith, strlen-le-length s)

take_whole : (s : List ℕ) (n : ℕ) → length s ≤ n → take n s ≡ s
take_whole [] zero h = refl
take_whole [] (suc n) h = refl
take_whole (c ∷ s) zero h = absurd (omega arith)
take_whole (c ∷ s) (suc n) h = ap (λ (t : List ℕ). c ∷ t) (take_whole s n (omega arith))

take-min : (xs : List ℕ) (k : ℕ) → take (min (length xs) k) xs ≡ take k xs
take-min xs k = elim (dec_le (length xs) k) [
  | yes h ↦
      let whole : min (length xs) k ≡ length xs = omega arith in
      rw whole (take_whole xs (length xs) (omega arith) ∙ sym (take_whole xs k h))
  | no h ↦ let cut : min (length xs) k ≡ k = omega arith in rw cut
]

-- A copied field has exactly its size, and holds the source's string, cut to one byte less than the
-- size.
pub copy_str_lem :
    (size : ℕ) (src : List ℕ)
    → 0 < size
    → (length (copy_str size src) ≡ size)
      × (str_of (copy_str size src) ≡ take (size - 1) (str_of src))
unfolding copy_str
copy_str_lem size src h =
    let n = min (strlen src) (size - 1) in
    (
      omega (
        arith,
        length-append {0} (take n src) (replicate (size - n) 0),
        length-take {0} n src,
        length-replicate {0} {A = ℕ} (size - n) 0,
        strlen-le-length src,
      ),
      str_of-padded (size - n) src n (omega arith)
          ∙ unfold strlen in take-min (str_of src) (size - 1),
    )

-- Two fields compare equal only if they hold the same string.
pub str_of-strcmp_eq : (a b : List ℕ) → strcmp_eq a b ≡ true → str_of a ≡ str_of b
unfolding strcmp_eq str_of
str_of-strcmp_eq [] [] h = refl
str_of-strcmp_eq [] (b ∷ ys) h = rw h
str_of-strcmp_eq (a ∷ xs) [] h = rw h
str_of-strcmp_eq (a ∷ xs) (b ∷ ys) h = elim (Bool-cases (a == b)) [
  | inr e ↦ let differ : false ≡ true = rw e at h in absurd (false≢true differ)
  | inl e ↦
      let same : a ≡ b = (==_iff a b).0 e in
      elim (Bool-cases (a == 0)) [
        | inl ends ↦
            let ends' : (b == 0) ≡ true = ap (λ (k : ℕ). k == 0) (sym same) ∙ ends in
            rw (ends, ends')
        | inr more ↦
            let more' : (b == 0) ≡ false = ap (λ (k : ℕ). k == 0) (sym same) ∙ more in
            let rest : strcmp_eq xs ys ≡ true = rw (e, more) at h in
            rw (more, more')
              (ap₂ (λ (c : ℕ) (t : List ℕ). c ∷ t) same (str_of-strcmp_eq xs ys rest))
      ]
]

-- A field compares equal to itself.
pub strcmp_eq_refl : (a : List ℕ) → strcmp_eq a a ≡ true
unfolding strcmp_eq
strcmp_eq_refl [] = refl
strcmp_eq_refl (a ∷ xs) =
    rw (==_refl a, strcmp_eq_refl xs) (elim (Bool-cases (a == 0)) [ inl e ↦ rw e | inr e ↦ rw e ])

strlen-padded : (s : List ℕ) (k n : ℕ) → n ≡ strlen s → strlen (take n s ++ replicate k 0) ≡ n
strlen-padded s k n h =
    let cut = str_of-padded k s n (omega (arith, h)) in
    unfold strlen in
    ap (λ (t : List ℕ). length t) cut ∙ omega (arith, length-take {0} n (str_of s), h)

-- A PIN that fills its digits into the field: the field is 9 bytes, holds the same string, and the
-- string is a PIN again.
set_pin_own :
    (s : List ℕ)
    → valid_pin s (strlen s) ≡ true
    → let d =
        take (min (strlen s) pin_max) s ++ replicate (pin_max + 1 - min (strlen s) pin_max) 0 in
      (length d ≡ 9) × (str_of d ≡ str_of s) × (valid_pin d (strlen d) ≡ true)
set_pin_own s h =
    let n = strlen s in
    let short : strlen s ≤ 8 = unfold valid_pin in ground (arith, h) in
    let whole : min n pin_max ≡ n = omega arith in
    let size : length (take n s ++ replicate (9 - n) 0) ≡ 9 = omega (
      arith,
      length-append {0} (take n s) (replicate (9 - n) 0),
      length-take {0} n s,
      length-replicate {0} {A = ℕ} (9 - n) 0,
      strlen-le-length s,
    ) in
    let same : take n (take n s ++ replicate (9 - n) 0) ≡ take n s =
      take_prefix n s (replicate (9 - n) 0) (strlen-le-length s) in
    rw whole (
      size,
      str_of-padded (9 - n) s n (omega arith)
          ∙ take_whole (str_of s) n (unfold strlen in omega arith),
      ap (valid_pin (take n s ++ replicate (9 - n) 0)) (strlen-padded s (9 - n) n refl)
          ∙ unfold valid_pin in rw same (unfold valid_pin in h),
    )
  where
    take_prefix : (n : ℕ) (xs ys : List ℕ) → n ≤ length xs → take n (take n xs ++ ys) ≡ take n xs
    take_prefix zero xs ys h = refl
    take_prefix (suc n) [] ys h = absurd (omega arith)
    take_prefix (suc n) (x ∷ xs) ys h =
        ap (λ (t : List ℕ). x ∷ t) (take_prefix n xs ys (omega arith))

-- What an accepted `pin` of a request leaves in the field: all nine bytes are rewritten, the string
-- is the new PIN, or the factory default for an empty one, and it is always a PIN of 4 to 8 digits.
pub set_pin_lem :
    (s : List ℕ)
    → valid_pin_set s (strlen s) ≡ true
    → (length (set_pin s) ≡ 9)
      × (str_of (set_pin s) ≡ (if strlen s == 0 then default_pin else str_of s))
      × (valid_pin (set_pin s) (strlen (set_pin s)) ≡ true)
unfolding set_pin valid_pin_set
set_pin_lem [] h = unfold strlen str_of valid_pin all_chars in (refl, refl, refl)
set_pin_lem (c ∷ cs) h = elim (Bool-cases (c == 0)) [
  | inl e ↦
      let none : strlen (c ∷ cs) ≡ 0 = unfold strlen str_of in rw e in
      rw (e, none) (unfold strlen str_of valid_pin all_chars in (refl, refl, refl))
  | inr e ↦
      let some_chars : (strlen (c ∷ cs) == 0) ≡ false =
        ne→== (strlen (c ∷ cs)) 0 (unfold strlen str_of in rw e (omega arith)) in
      let valid : valid_pin (c ∷ cs) (strlen (c ∷ cs)) ≡ true = rw some_chars at h in
      rw (e, some_chars) (set_pin_own (c ∷ cs) valid)
]
