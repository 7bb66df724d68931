-- ===== src/Transports/Wifi/Clients/Slots.antt =====
-- The four slots of the Wi-Fi transport, and what the calls of the link do to them.
use meshpigeon_firmware.Prelude.{
  ℕ, zero, suc, ◌+◌, ◌<◌, ◌≡◌, ◌≢◌, refl, ap, ◌∙◌, ◌⊎◌, inl, inr, List, [], ◌∷◌, Bool, true, false,
  arith, if◌then◌else◌, length, set, get_or, length-set, get_or-set_same, get_or-set_other,
  Bool-cases,
}
use mathlib.Core.Bool.{false≢true}
use meshpigeon_firmware.Processor.Message.{Ports}
use meshpigeon_firmware.Transports.Wifi.{
  Stack, Client, Wifi, max_clients, no_client, client_at, drop_client, stop_server,
}

abbrev pub count_in_use : List Client → ℕ
count_in_use [] = 0
count_in_use (c ∷ cs) = (if c.in_use then 1 else 0) + count_in_use cs

-- A slot that becomes free, and one that is taken.
count-set_freed :
    (cs : List Client) (i : ℕ) (v : Client)
    → (get_or cs i no_client).in_use ≡ true
    → v.in_use ≡ false
    → count_in_use (set cs i v) + 1 ≡ count_in_use cs
count-set_freed [] i v h k = absurd (false≢true h)
count-set_freed (c ∷ cs) zero v h k = rw (h, k) (omega arith)
count-set_freed (c ∷ cs) (suc i) v h k = omega (arith, count-set_freed cs i v h k)

pub count-set_taken :
    (cs : List Client) (i : ℕ) (v : Client)
    → i < length cs
    → (get_or cs i no_client).in_use ≡ false
    → v.in_use ≡ true
    → count_in_use (set cs i v) ≡ count_in_use cs + 1
count-set_taken [] i v inside h k = absurd (omega arith)
count-set_taken (c ∷ cs) zero v inside h k = rw (h, k) (omega arith)
count-set_taken (c ∷ cs) (suc i) v inside h k =
    omega (arith, count-set_taken cs i v (omega arith) h k)

-- A slot that stays in use, or free.
pub count-set_same :
    (cs : List Client) (i : ℕ) (v : Client)
    → v.in_use ≡ (get_or cs i no_client).in_use
    → count_in_use (set cs i v) ≡ count_in_use cs
count-set_same [] i v h = refl
count-set_same (c ∷ cs) zero v h = ap (λ (b : Bool). (if b then 1 else 0) + count_in_use cs) h
count-set_same (c ∷ cs) (suc i) v h = ap (◌+◌ (if c.in_use then 1 else 0)) (count-set_same cs i v h)

all_free :
    (cs : List Client)
    → length cs ≡ max_clients
    → (get_or cs 0 no_client).in_use ≡ false
    → (get_or cs 1 no_client).in_use ≡ false
    → (get_or cs 2 no_client).in_use ≡ false
    → (get_or cs 3 no_client).in_use ≡ false
    → count_in_use cs ≡ 0
all_free (a ∷ b ∷ c ∷ d ∷ []) n h i j k = rw (h, i, j, k) refl
all_free [] n h i j k = refl
all_free (a ∷ []) n h i j k = absurd (omega arith)
all_free (a ∷ b ∷ []) n h i j k = absurd (omega arith)
all_free (a ∷ b ∷ c ∷ []) n h i j k = absurd (omega arith)
all_free (a ∷ b ∷ c ∷ d ∷ e ∷ cs) n h i j k = absurd (omega arith)

-- The slots, the number of clients and whether the server is up.
abbrev pub Book : Type 0
Book = List Client × ℕ × Bool

-- There are four slots, the number is that of the slots in use, and without a server there is none.
pub record IsBook (b : Book) : Type 0 where
  pub slots : length b.0 ≡ max_clients
  pub counted : b.1 ≡ count_in_use b.0
  pub closed : (b.2 ≡ true) ⊎ (b.1 ≡ 0)

module _ {R S W : Type 0} (ports : Ports R S) (stack : Stack W) (first_sink : ℕ) where
  abbrev pub book : Wifi R S W → Book
  book w = (w.clients, w.num_clients, w.server_up)

  pub drop_client-IsBook :
      (w : Wifi R S W) (i : ℕ)
      → IsBook (book w)
      → IsBook (book (drop_client ports stack first_sink w i))
  unfolding drop_client
  drop_client-IsBook w i h = elim (Bool-cases (client_at ports stack first_sink w i).in_use) [
    | inr free ↦ rw free h
    | inl used ↦
        let c = client_at ports stack first_sink w i in
        let fewer = count-set_freed w.clients i (record c { in_use = false }) used refl in
        rw used (record {
          slots = length-set w.clients i (record c { in_use = false }) ∙ h.slots;
          counted = omega (arith, h.counted, fewer);
          closed = elim h.closed [ inl up ↦ inl up | inr none_left ↦ inr (omega arith) ];
        })
  ]

  abbrev IsFree : Wifi R S W → ℕ → Type 0
  IsFree w i = (client_at ports stack first_sink w i).in_use ≡ false

  drop_client-IsFree :
      (w : Wifi R S W) (i : ℕ)
      → i < length w.clients
      → IsFree (drop_client ports stack first_sink w i) i
  unfolding drop_client
  drop_client-IsFree w i inside = elim (Bool-cases (client_at ports stack first_sink w i).in_use) [
    | inr free ↦ rw free free
    | inl used ↦
        let c = client_at ports stack first_sink w i in
        rw used (
          ap (λ (d : Client). d.in_use)
            (get_or-set_same w.clients i (record c { in_use = false }) no_client inside))
  ]

  -- A free slot stays free.
  drop_client_keeps :
      (w : Wifi R S W) (i j : ℕ)
      → j ≢ i
      → IsFree w j
      → IsFree (drop_client ports stack first_sink w i) j
  unfolding drop_client
  drop_client_keeps w i j apart h =
      elim (Bool-cases (client_at ports stack first_sink w i).in_use) [
        | inr free ↦ rw free h
        | inl used ↦
            let c = client_at ports stack first_sink w i in
            rw used (
              ap (λ (d : Client). d.in_use)
                (get_or-set_other w.clients j i (record c { in_use = false }) no_client apart)
              ∙ h)
      ]

  -- A stopped server has no clients.
  pub stop_server_empties :
      (w : Wifi R S W)
      → IsBook (book w)
      → IsBook (book (stop_server ports stack first_sink w))
        × ((stop_server ports stack first_sink w).num_clients ≡ 0)
  unfolding stop_server
  stop_server_empties w h =
      let d = drop_client ports stack first_sink in
      let w1 = d w 0 in
      let w2 = d w1 1 in
      let w3 = d w2 2 in
      let w4 = d w3 3 in
      let h1 = drop_client-IsBook w 0 h in
      let h2 = drop_client-IsBook w1 1 h1 in
      let h3 = drop_client-IsBook w2 2 h2 in
      let h4 = drop_client-IsBook w3 3 h3 in
      let empty : w4.num_clients ≡ 0 =
        h4.counted
        ∙ all_free w4.clients h4.slots
            (drop_client_keeps w3 3 0 (omega arith) (
              drop_client_keeps w2 2 0 (omega arith) (
                drop_client_keeps w1 1 0 (omega arith)
                  (drop_client-IsFree w 0 (omega (arith, h.slots))))))
            (drop_client_keeps w3 3 1 (omega arith) (
              drop_client_keeps w2 2 1 (omega arith)
                (drop_client-IsFree w1 1 (omega (arith, h1.slots)))))
            (drop_client_keeps w3 3 2 (omega arith)
              (drop_client-IsFree w2 2 (omega (arith, h2.slots))))
            (drop_client-IsFree w3 3 (omega (arith, h3.slots))) in
      (record { slots = h4.slots; counted = h4.counted; closed = inr empty }, empty)
