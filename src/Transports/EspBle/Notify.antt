-- ===== src/Transports/EspBle/Notify.antt =====
-- `send_frame` of a slot: a frame in notifications of at most what the link negotiated.
use meshpigeon_firmware.Prelude.{
  ℕ, zero, suc, ◌+◌, ◌-◌, ◌≤◌, ◌<◌, ◌≡◌, refl, sym, ap, subst, ◌∙◌, List, [], ◌∷◌, ◌++◌, append-nil,
  append_assoc, Bool, true, false, not, arith, ltb, if◌then◌else◌, length, take, take-nil, drop,
  length-drop, drop-drop, take-append-drop, inl, inr, ◌⊎◌, is_empty,
}
use meshpigeon_firmware.Framing.Frame.{frame_encode_envelope}

-- The stack's answer to a notification: taken, its buffers are full, or the link is gone.
pub data Notified : Type 0 where
  taken : Notified
  no_buffer : Notified
  gone : Notified

-- The host's calls, with states in `U`: a notification for one central, a wait of a millisecond,
-- and the packet size that was negotiated.
pub record Host (U : Type 0) : Type 0 where
  pub notify : U → List ℕ → U × Notified
  pub delay : U → U
  pub mtu : U → ℕ

-- kNotifyWaitMs
abbrev pub notify_wait_ms : ℕ
notify_wait_ms = 50

module _ {U : Type 0} (host : Host U) where
  -- One attempt, and `left` more.
  unfoldable pub notify_loop : ℕ → U → List ℕ → U × Bool
  notify_loop zero u bytes = elim (host.notify u bytes).1 [
    | Notified.taken ↦ ((host.notify u bytes).0, true)
    | Notified.no_buffer ↦ (host.delay (host.notify u bytes).0, false)
    | Notified.gone ↦ ((host.notify u bytes).0, false)
  ]
  notify_loop (suc left) u bytes = elim (host.notify u bytes).1 [
    | Notified.taken ↦ ((host.notify u bytes).0, true)
    | Notified.no_buffer ↦ notify_loop left (host.delay (host.notify u bytes).0) bytes
    | Notified.gone ↦ ((host.notify u bytes).0, false)
  ]

  unfoldable pub notify_chunk : U → List ℕ → U × Bool
  notify_chunk u bytes = notify_loop notify_wait_ms u bytes

  -- 20 bytes until more was negotiated.
  unfoldable pub max_chunk : U → ℕ
  max_chunk u = if ltb 23 (host.mtu u) then host.mtu u - 3 else 20

  -- The rest of a frame, in chunks; the fuel is its length, of which each chunk takes one byte at
  -- least.
  unfoldable pub chunk_loop : ℕ → U → ℕ → List ℕ → U
  chunk_loop zero u size bytes = u
  chunk_loop (suc fuel) u size bytes =
      let (v, sent) = notify_chunk u (take size bytes) in
      let rest = chunk_loop fuel v size (drop size bytes) in
      if is_empty bytes then u else if not sent then v else rest

  -- A central that has not subscribed gets nothing.
  unfoldable pub send_frame : U → Bool → List ℕ → U
  send_frame u subscribed decoded =
      let wire = frame_encode_envelope decoded in
      if not subscribed then u else chunk_loop (length wire) u (max_chunk u) wire

take-take-drop {ℓ} :
    {A : Type ℓ} (k n : ℕ) (xs : List A) → take k xs ++ take n (drop k xs) ≡ take (k + n) xs
take-take-drop zero n xs = let same : n ≡ 0 + n = omega arith in ap (λ (j : ℕ). take j xs) same
take-take-drop (suc k) n [] = take-nil n ∙ sym (take-nil (suc k + n))
take-take-drop (suc k) n (x ∷ xs) =
    let same : suc (k + n) ≡ suc k + n = omega arith in
    ap (◌∷◌ x) (take-take-drop k n xs) ∙ ap (λ (j : ℕ). take j (x ∷ xs)) same

-- What is documented of the host: `sent` is what it took for this central, and it takes a
-- notification whole or not at all.
pub record IsHost (U : Type 0) (host : Host U) (sent : U → List ℕ) : Type 0 where
  pub takes :
      (u : U) (bytes : List ℕ)
      → (((host.notify u bytes).1 ≡ Notified.taken)
          × (sent (host.notify u bytes).0 ≡ sent u ++ bytes))
        ⊎ ((((host.notify u bytes).1 ≡ Notified.no_buffer)
              ⊎ ((host.notify u bytes).1 ≡ Notified.gone))
            × (sent (host.notify u bytes).0 ≡ sent u))
  pub waits : (u : U) → sent (host.delay u) ≡ sent u

module _ {U : Type 0} (host : Host U) (sent : U → List ℕ) (law : IsHost U host sent) where
  -- A notification was refused: the link was gone, or the buffers were full at each of the attempts,
  -- with a wait behind each.
  abbrev pub GaveUp : ℕ → U → List ℕ → U → Type 0
  GaveUp zero u bytes v =
      (((host.notify u bytes).1 ≡ Notified.gone) × (v ≡ (host.notify u bytes).0))
      ⊎ (((host.notify u bytes).1 ≡ Notified.no_buffer) × (v ≡ host.delay (host.notify u bytes).0))
  GaveUp (suc left) u bytes v =
      (((host.notify u bytes).1 ≡ Notified.gone) × (v ≡ (host.notify u bytes).0))
      ⊎ (((host.notify u bytes).1 ≡ Notified.no_buffer)
          × GaveUp left (host.delay (host.notify u bytes).0) bytes v)

  -- All of the bytes, or none and a failure.
  abbrev AllOrNone : ℕ → U → List ℕ → U × Bool → Type 0
  AllOrNone left u bytes r =
      ((r.1 ≡ true) × (sent r.0 ≡ sent u ++ bytes))
      ⊎ ((r.1 ≡ false) × (sent r.0 ≡ sent u) × GaveUp left u bytes r.0)

  notify_loop-AllOrNone :
      (left : ℕ) (u : U) (bytes : List ℕ) → AllOrNone left u bytes (notify_loop host left u bytes)
  unfolding notify_loop
  notify_loop-AllOrNone zero u bytes = elim (law.takes u bytes) [
    | inl (e, out) ↦ rw (e, notify_loop) (inl (refl, out))
    | inr (inl e, same) ↦ rw (e, notify_loop) (inr (refl, law.waits _ ∙ same, inr (refl, refl)))
    | inr (inr e, same) ↦ rw (e, notify_loop) (inr (refl, same, inl (refl, refl)))
  ]
  notify_loop-AllOrNone (suc left) u bytes = elim (law.takes u bytes) [
    | inl (e, out) ↦ rw (e, notify_loop) (inl (refl, out))
    | inr (inr e, same) ↦ rw (e, notify_loop) (inr (refl, same, inl (refl, refl)))
    | inr (inl e, same) ↦
        let before = law.waits (host.notify u bytes).0 ∙ same in
        rw (e, notify_loop)
          (elim (notify_loop-AllOrNone left (host.delay (host.notify u bytes).0) bytes) [
            | inl (ok, out) ↦ inl (ok, out ∙ ap (λ (t : List ℕ). t ++ bytes) before)
            | inr (bad, still, why) ↦ inr (bad, still ∙ before, inr (refl, why))
          ])
  ]

  -- All of the bytes, or some from the front, and behind them a chunk whose notification was refused
  -- at its 51 attempts or for a link that was gone.
  abbrev pub FrontOf : U → ℕ → List ℕ → U → Type 0
  FrontOf u size bytes r =
      (sent r ≡ sent u ++ bytes)
      ⊎ ((k : ℕ) × (v : U) × (k < length bytes)
          × (sent r ≡ sent u ++ take k bytes)
          × GaveUp notify_wait_ms v (take size (drop k bytes)) r)

  chunk_loop-FrontOf :
      (fuel : ℕ) (u : U) (size : ℕ) (bytes : List ℕ)
      → 1 ≤ size
      → length bytes ≤ fuel
      → FrontOf u size bytes (chunk_loop host fuel u size bytes)
  unfolding chunk_loop notify_chunk
  chunk_loop-FrontOf zero u size [] h k = inl (sym (append-nil (sent u)))
  chunk_loop-FrontOf zero u size (b ∷ bytes) h k = absurd (omega arith)
  chunk_loop-FrontOf (suc fuel) u size [] h k = inl (sym (append-nil (sent u)))
  chunk_loop-FrontOf (suc fuel) u size (b ∷ bytes) h k =
      let xs = b ∷ bytes in
      let v = (notify_loop host notify_wait_ms u (take size xs)).0 in
      elim (notify_loop-AllOrNone notify_wait_ms u (take size xs)) [
        | inr (bad, same, why) ↦
            rw bad (inr (0, u, omega arith, same ∙ sym (append-nil (sent u)), why))
        | inl (ok, out) ↦
            let shorter = length-drop {0} size xs in
            rw ok
              (elim (chunk_loop-FrontOf fuel v size (drop size xs) h
                (omega (arith, h, k, shorter))) [
                  | inl rest ↦ inl (
                      rest
                      ∙ ap (λ (t : List ℕ). t ++ drop size xs) out
                      ∙ append_assoc (sent u) (take size xs) (drop size xs)
                      ∙ ap (◌++◌ (sent u)) (take-append-drop size xs))
                  | inr (n, w, inside, rest, why) ↦ inr (
                    size + n,
                    w,
                    omega (arith, inside, shorter),
                    rest
                        ∙ ap (λ (t : List ℕ). t ++ take n (drop size xs)) out
                        ∙ append_assoc (sent u) (take size xs) (take n (drop size xs))
                        ∙ ap (◌++◌ (sent u)) (take-take-drop size n xs),
                    subst
                        (λ (ys : List ℕ).
                          GaveUp notify_wait_ms w (take size ys)
                            (chunk_loop host fuel v size (drop size xs)))
                        (drop-drop size n xs) why,
                  )
                ])
      ]

  -- A subscribed central receives the whole wire form of the frame; or a part from its front, up to
  -- a chunk of the negotiated size whose notification was refused, because the link was gone or the
  -- buffers were full at each of 51 attempts a millisecond apart, and nothing is sent behind it. One
  -- that has not subscribed receives nothing. No byte is repeated, reordered or made up.
  pub send_frame-FrontOf :
      (u : U) (subscribed : Bool) (decoded : List ℕ)
      → ((subscribed ≡ false) × (send_frame host u subscribed decoded ≡ u))
        ⊎ ((subscribed ≡ true)
            × FrontOf u
                (max_chunk host u)
                (frame_encode_envelope decoded)
                (send_frame host u subscribed decoded))
  unfolding send_frame
  send_frame-FrontOf u false decoded = inl (refl, refl)
  send_frame-FrontOf u true decoded =
      let wire = frame_encode_envelope decoded in
      inr (
        refl,
        chunk_loop-FrontOf (length wire) u (max_chunk host u) wire
            (unfold max_chunk in ground arith) (omega arith),
      )
