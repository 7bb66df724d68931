-- ===== src/Processor/Sinks.antt =====
-- The registry of connections.
use meshpigeon_firmware.Prelude.{
  ℕ, ◌≤◌, ◌≡◌, refl, ap, sym, List, [], ◌∷◌, ◌++◌, true, false, arith, ◌==◌, length, length-append,
  Bool-cases, ◌⊎◌, inl, inr, lt→leb, le→leb, dec_lt, ◌<◌, ==_refl,
}
use mathlib.Core.Bool.{false≢true}
use meshpigeon_firmware.Processor.State.{Processor, max_sinks, add_sink, remove_sink, remove_first}
use meshpigeon_firmware.Processor.Checks.{mem}

module _ {R S : Type 0} where
  -- `add_sink` says whether it registered the connection: with room it goes behind the others, with
  -- none the registry stays; either way there are never more than eight.
  pub add_sink_lem :
      (p : Processor R S) (sink : ℕ)
      → length p.sinks ≤ max_sinks
      → let (added, q) = add_sink p sink in
        (length q.sinks ≤ max_sinks)
        × (((added ≡ true) × (length p.sinks < max_sinks) × (q.sinks ≡ p.sinks ++ sink ∷ []))
            ⊎ ((added ≡ false) × (length p.sinks ≡ max_sinks) × (q ≡ p)))
  unfolding add_sink
  add_sink_lem p sink h = elim (dec_lt (length p.sinks) max_sinks) [
    | yes room ↦
        rw (lt→leb max_sinks (length p.sinks) room)
          (omega (arith, length-append {0} p.sinks (sink ∷ [])), inl (refl, room, refl))
    | no full ↦
        rw (le→leb max_sinks (length p.sinks) (omega arith)) (h, inr (refl, omega arith, refl))
  ]

remove_first_last : (x : ℕ) (ys : List ℕ) → mem x ys ≡ false → remove_first x (ys ++ x ∷ []) ≡ ys
unfolding remove_first
remove_first_last x [] h = rw (==_refl x)
remove_first_last x (y ∷ ys) h = elim (Bool-cases (x == y)) [
  | inl e ↦ let found : true ≡ false = rw e at h in absurd (false≢true (sym found))
  | inr e ↦
      let rest : mem x ys ≡ false = rw e at h in
      let differ : (y == x) ≡ false = ground (arith, e) in
      rw differ (ap (λ (t : List ℕ). y ∷ t) (remove_first_last x ys rest))
]

module _ {R S : Type 0} where
  -- A connection that comes and goes leaves the processor as it was.
  pub remove_sink-add_sink :
      (p : Processor R S) (sink : ℕ)
      → mem sink p.sinks ≡ false
      → length p.sinks < max_sinks
      → remove_sink (add_sink p sink).1 sink ≡ p
  unfolding remove_sink add_sink
  remove_sink-add_sink p sink new room =
      rw (lt→leb max_sinks (length p.sinks) room)
        (ap (λ (ss : List ℕ). record p { sinks = ss }) (remove_first_last sink p.sinks new))
