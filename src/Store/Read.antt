-- ===== src/Store/Read.antt =====
-- `get` against the list of retained packets.
use meshpigeon_firmware.Prelude.{
  ℕ, zero, suc, ◌+◌, ◌-◌, ◌^◌, ◌≤◌, ◌<◌, ◌≡◌, ◌≢◌, refl, ap, ◌∙◌, sym, ◌⊎◌, inl, inr, List, [], ◌∷◌,
  true, ◌||◌, Option, none, some, arith, length, get_elem?, ◌==◌, ltb, leb, if◌then◌else◌, ne→==,
  ==_refl, ==_iff, le→ltb, lt→leb, dec_lt,
}
use meshpigeon_firmware.Store.{StoredPacket, PacketStore, walk, get}
use meshpigeon_firmware.Store.Layout.{Holds, Seqs, Retains, read_header-Holds, read_entry-Holds}
use meshpigeon_firmware.Store.Walk.{From-head, wrap_small, walk-Holds}

-- The packet with a sequence number, found by going through the list.
unfoldable pub lookup_seq : ℕ → List StoredPacket → Option StoredPacket
lookup_seq seq [] = none
lookup_seq seq (e ∷ es) = if e.seq == seq then some e else lookup_seq seq es

lookup_seq_below :
    (n seq : ℕ) (es : List StoredPacket) → Seqs n es → seq < n → lookup_seq seq es ≡ none
unfolding lookup_seq
lookup_seq_below n seq [] h k = refl
lookup_seq_below n seq (e ∷ es) h k =
    rw (ne→== e.seq seq (omega (arith, h.0))) (lookup_seq_below (n + 1) seq es h.1 (omega arith))

lookup_seq_at :
    (i n : ℕ) (es : List StoredPacket) → Seqs n es → lookup_seq (n + i) es ≡ get_elem? es i
unfolding lookup_seq
lookup_seq_at i n [] h = refl
lookup_seq_at zero n (e ∷ es) h =
    let here : e.seq ≡ n + 0 = omega (arith, h.0) in rw here (rw ==_refl)
lookup_seq_at (suc i) n (e ∷ es) h =
    let there : n + suc i ≡ n + 1 + i = omega arith in
    rw (ne→== e.seq (n + suc i) (omega (arith, h.0)))
      (ap (λ (k : ℕ). lookup_seq k es) there ∙ lookup_seq_at i (n + 1) es h.1)

get_elem?_beyond : (es : List StoredPacket) (i : ℕ) → length es ≤ i → get_elem? es i ≡ none
get_elem?_beyond [] i h = refl
get_elem?_beyond (e ∷ es) zero h = absurd (omega arith)
get_elem?_beyond (e ∷ es) (suc i) h = get_elem?_beyond es i (omega arith)

get_elem?_within :
    (es : List StoredPacket) (i : ℕ)
    → i < length es
    → (e : StoredPacket) × (get_elem? es i ≡ some e)
get_elem?_within [] i h = absurd (omega arith)
get_elem?_within (e ∷ es) zero h = (e, refl)
get_elem?_within (e ∷ es) (suc i) h = get_elem?_within es i (omega arith)

get_elem?_seq :
    (es : List StoredPacket) (n i : ℕ) (e : StoredPacket)
    → Seqs n es
    → get_elem? es i ≡ some e
    → e.seq ≡ n + i
get_elem?_seq [] n i e h q = absurd (cc)
get_elem?_seq (x ∷ es) n zero e h q =
    let same : x ≡ e = cc in ap (λ (p : StoredPacket). p.seq) (sym same) ∙ omega (arith, h.0)
get_elem?_seq (x ∷ es) n (suc i) e h q = omega (arith, get_elem?_seq es (n + 1) i e h.1 q)

get_found :
    (s : PacketStore) (seq : ℕ) (e : StoredPacket)
    → s.count ≢ 0
    → s.head_seq ≤ seq
    → seq < s.next_seq
    → Holds s.buf (walk (seq - s.head_seq) s s.head_off) e
    → e.seq ≡ seq
    → get s seq ≡ some e
unfolding get
get_found s seq e some_left from upto there q =
    let off = walk (seq - s.head_seq) s s.head_off in
    rw
      (
        ne→== s.count 0 some_left,
        le→ltb seq s.head_seq from,
        lt→leb s.next_seq seq upto,
        read_header-Holds s off e there,
        (==_iff e.seq seq).1 q,
      )
      (ap some (read_entry-Holds s off e there))

get_missing :
    (s : PacketStore) (seq : ℕ)
    → (s.count == 0 || ltb seq s.head_seq || leb s.next_seq seq) ≡ true
    → get s seq ≡ none
unfolding get
get_missing s seq h = rw h

get_retained :
    (s : PacketStore) (es : List StoredPacket) (seq : ℕ)
    → Retains s es
    → s.head_seq ≤ seq
    → seq < s.next_seq
    → (es ≡ []) ⊎ (s.wrap ≤ 2 ^ 31)
    → get s seq ≡ get_elem? es (seq - s.head_seq)
get_retained s es seq v from upto (inl q) =
    absurd (omega (arith, v.last, ap (λ (fs : List StoredPacket). length fs) q))
get_retained s es seq v from upto (inr small) =
    let (e, q) = get_elem?_within es (seq - s.head_seq) (omega (arith, v.last)) in
    get_found s seq e (omega (arith, v.last, v.counted)) from upto
      (walk-Holds s small (seq - s.head_seq) s.head_off es e (From-head s es v.layout) q)
      (omega (arith, get_elem?_seq es s.head_seq (seq - s.head_seq) e v.seqs q))
    ∙ sym q

-- `get` finds exactly the packet with the given sequence number among those that are retained.
pub get-eq-lookup_seq :
    (s : PacketStore) (es : List StoredPacket) (seq : ℕ)
    → Retains s es
    → get s seq ≡ lookup_seq seq es
get-eq-lookup_seq s es seq v = elim (dec_lt seq s.head_seq) [
  | yes below ↦
      get_missing s seq (ground (arith, below))
      ∙ sym (lookup_seq_below s.head_seq seq es v.seqs below)
  | no from ↦
      let at : seq ≡ s.head_seq + (seq - s.head_seq) = omega arith in
      let listed : lookup_seq seq es ≡ get_elem? es (seq - s.head_seq) =
        ap (λ (n : ℕ). lookup_seq n es) at
        ∙ lookup_seq_at (seq - s.head_seq) s.head_seq es v.seqs in
      elim (dec_lt seq s.next_seq) [
        | yes upto ↦
            get_retained s es seq v (omega arith) upto (wrap_small s es v v.layout) ∙ sym listed
        | no past ↦
            get_missing s seq (ground (arith, past))
            ∙ sym (listed ∙ get_elem?_beyond es (seq - s.head_seq) (omega (arith, v.last)))
      ]
]
