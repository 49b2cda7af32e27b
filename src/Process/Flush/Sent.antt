-- ===== src/Process/Flush/Sent.antt =====
-- What the socket took of what flushSendBuffer and sendFromClientBuffer of src/process.c offered.
use connio.Prelude.{
  if_true, if_false, ℕ, zero, suc, ◌+◌, ◌-◌, ◌≤◌, ◌≡◌, ◌≢◌, refl, sym, ap, subst, ◌∙◌, ◌⊎◌, inl,
  inr, true, false, List, [], ◌∷◌, ◌++◌, append_assoc, ◌==◌, ltb, arith, length, length-append,
  length-take, take, drop, All, Bool-cases,
}
use connio.Conn.{SocketEventType}
use connio.Wire.{Transfer}
use connio.IoBuffer.{IoBuffers, IsLawful}
use connio.Process.Event.{Event}
use connio.Process.Flush.{
  positive, SendEnd, returned, asking, moved_out, flush_send_buffer, taken_out,
  send_from_client_buffer,
}
use connio.Process.Delivery.{append_nil}
use connio.Process.Stream.{move_lem}

-- A send takes what it is offered at most, and tells an error if it takes less.
abbrev pub IsSender : (ℕ → Transfer) → Type 0
IsSender f = (n : ℕ) → (positive (f n).count ≤ n) × (((f n).error ≢ 0) ⊎ (positive (f n).count ≡ n))

take_nil : (n : ℕ) → take {A = ℕ} n [] ≡ []
take_nil zero = refl
take_nil (suc n) = refl

take_more : (n r : ℕ) (xs : List ℕ) → n ≤ r → take n xs ++ take (r - n) (drop n xs) ≡ take r xs
take_more zero r xs h = ap (λ k. take k xs) (omega arith)
take_more (suc n) zero xs h = absurd (omega (arith, h))
take_more (suc n) (suc r) [] h = take_nil (suc r - suc n)
take_more (suc n) (suc r) (x ∷ xs) h =
    ap (λ ys. x ∷ ys)
      (ap (λ k. take n xs ++ take k (drop n xs)) (omega arith)
        ∙ take_more n r xs (omega (arith, h)))

module _ (B : IoBuffers) where
  abbrev pub IsFlushed : List ℕ → SendEnd B → Type 0
  IsFlushed before (returned e b d rest) =
      (d.sent ++ B.contents d.io ≡ before) × ((e ≢ 0) ⊎ (B.contents d.io ≡ []))
  IsFlushed before (asking d) = ⊥

  moved_lem :
      (L : IsLawful B) (ce : Event B) (n : ℕ)
      → n ≤ length (B.get_used ce.io)
      → (moved_out B ce n).sent ++ B.contents (moved_out B ce n).io ≡ ce.sent ++ B.contents ce.io
  unfolding moved_out
  moved_lem L ce zero h = ap (λ xs. xs ++ B.contents ce.io) (append_nil ce.sent)
  moved_lem L ce (suc n) h =
      ap (λ io. (ce.sent ++ take (suc n) (B.get_used ce.io)) ++ B.contents io)
        (if_false {b = suc n == 0} ce.io (B.mark_free ce.io (suc n)) (ground arith))
      ∙ move_lem B L ce.io ce.sent (suc n) h

  moved_length :
      (L : IsLawful B) (ce : Event B) (n : ℕ)
      → n ≤ length (B.get_used ce.io)
      → length (B.contents (moved_out B ce n).io) + n ≡ length (B.contents ce.io)
  unfolding moved_out
  moved_length L ce n h =
      let used = B.get_used ce.io in
      let ts = take n used in
      let io = (moved_out B ce n).io in
      omega (
        arith,
        ap length (moved_lem L ce n h),
        length-append (ce.sent ++ ts) (B.contents io),
        length-append ce.sent ts,
        length-append ce.sent (B.contents ce.io),
        length-take n used h,
      )

  used_length : (L : IsLawful B) (s : B.State) → length (B.get_used s) ≤ length (B.contents s)
  used_length L s =
      let (rest, e) = L.get_used_prefix s in
      omega (arith, ap length e, length-append (B.get_used s) rest)

  no_length : (xs : List ℕ) → length xs ≡ 0 → xs ≡ []
  no_length [] e = refl
  no_length (x ∷ xs) e = absurd (omega (arith, e))

  flush-IsFlushed :
      (L : IsLawful B) (answers : List (ℕ → Transfer)) (b : SocketEventType) (ce : Event B)
      → All IsSender answers
      → length (B.contents ce.io) ≤ length answers
      → IsFlushed (ce.sent ++ B.contents ce.io) (flush_send_buffer B answers b ce)
  unfolding flush_send_buffer
  flush-IsFlushed L [] b ce h enough =
      let e : length (B.get_used ce.io) ≡ 0 = omega (arith, enough, used_length L ce.io) in
      let z : (length (B.get_used ce.io) == 0) ≡ true = ground (arith, e) in
      subst (IsFlushed (ce.sent ++ B.contents ce.io)) (sym (if_true _ _ z))
        (refl, inr (L.get_used_none ce.io (no_length (B.get_used ce.io) e)))
  flush-IsFlushed L (answer ∷ answers) b ce (h, hs) enough =
      let count = length (B.get_used ce.io) in
      let before = ce.sent ++ B.contents ce.io in
      let t = answer count in
      let moved = positive t.count in
      let c = moved_out B ce moved in
      let (le, g) = h count in
      let k = moved_lem L ce moved le in
      elim (Bool-cases (count == 0)) [
        | inl z ↦
            subst (IsFlushed before) (sym (if_true _ _ z))
              (refl, inr (L.get_used_none ce.io (no_length (B.get_used ce.io) (ground (arith, z)))))
        | inr z ↦ elim (Bool-cases (moved == count)) [
          | inl q ↦
              let fewer : length (B.contents c.io) ≤ length answers =
                ground (arith, z, q, enough, moved_length L ce moved le) in
              subst (IsFlushed before) (sym (if_false _ _ z ∙ if_true _ _ q)) (
                subst (λ xs. IsFlushed xs (flush_send_buffer B answers t.blocked_on c)) k
                  (flush-IsFlushed L answers t.blocked_on c hs fewer))
          | inr q ↦
              subst (IsFlushed before) (sym (if_false _ _ z ∙ if_false _ _ q))
                (k, inl (elim g [ inl n ↦ n | inr n ↦ absurd (ground (arith, n, q)) ]))
        ]
      ]

  abbrev pub IsSent : List ℕ → SendEnd B → Type 0
  IsSent before (returned e b d rest) =
      (d.sent ++ take d.client.remaining d.client.unread ≡ before)
      × ((e ≢ 0) ⊎ (d.client.remaining ≡ 0))
  IsSent before (asking d) = ⊥

  taken_lem :
      (ce : Event B) (n : ℕ)
      → n ≤ ce.client.remaining
      → let d = taken_out B ce n in
        d.sent ++ take d.client.remaining d.client.unread
        ≡ ce.sent ++ take ce.client.remaining ce.client.unread
  unfolding taken_out
  taken_lem ce n h =
      append_assoc ce.sent (take n ce.client.unread)
        (take (ce.client.remaining - n) (drop n ce.client.unread))
      ∙ ap (λ xs. ce.sent ++ xs) (take_more n ce.client.remaining ce.client.unread h)

  send-IsSent :
      (answers : List (ℕ → Transfer)) (b : SocketEventType) (ce : Event B)
      → All IsSender answers
      → ce.client.remaining ≤ length answers
      → IsSent
          (ce.sent ++ take ce.client.remaining ce.client.unread)
          (send_from_client_buffer B answers b ce)
  unfolding send_from_client_buffer taken_out
  send-IsSent [] b ce h enough =
      let z : ltb 0 ce.client.remaining ≡ false = ground (arith, enough) in
      subst (IsSent (ce.sent ++ take ce.client.remaining ce.client.unread)) (sym (if_false _ _ z))
        (refl, inr (omega (arith, enough)))
  send-IsSent (answer ∷ answers) b ce (h, hs) enough =
      let r = ce.client.remaining in
      let before = ce.sent ++ take r ce.client.unread in
      let t = answer r in
      let n = positive t.count in
      let c = taken_out B ce n in
      let (le, g) = h r in
      elim (Bool-cases (ltb 0 r)) [
        | inr z ↦ subst (IsSent before) (sym (if_false _ _ z)) (refl, inr (ground (arith, z)))
        | inl z ↦ elim (Bool-cases (ltb 0 n)) [
          | inl q ↦
              let fewer : c.client.remaining ≤ length answers = ground (arith, q, enough) in
              subst (IsSent before) (sym (if_true _ _ z ∙ if_true _ _ q)) (
                subst (λ xs. IsSent xs (send_from_client_buffer B answers t.blocked_on c))
                  (taken_lem ce n le) (send-IsSent answers t.blocked_on c hs fewer))
          | inr q ↦
              subst (IsSent before) (sym (if_true _ _ z ∙ if_false _ _ q))
                (refl, inl (elim g [ inl m ↦ m | inr m ↦ absurd (ground (arith, m, q, z)) ]))
        ]
      ]

  -- For each socket that takes no more than it is offered and tells an error when it takes less, the
  -- flush of a send buffer and the send of a client's buffer return after at most as many sends as
  -- there are octets. What was sent before and during it, followed by what is left to send, is what
  -- it was before, and they return 0 only if nothing is left.
  pub sends_complete :
      (L : IsLawful B) (answers : List (ℕ → Transfer)) (b : SocketEventType) (ce : Event B)
      → All IsSender answers
      → length (B.contents ce.io) ≤ length answers
      → ce.client.remaining ≤ length answers
      → IsFlushed (ce.sent ++ B.contents ce.io) (flush_send_buffer B answers b ce)
        × IsSent
            (ce.sent ++ take ce.client.remaining ce.client.unread)
            (send_from_client_buffer B answers b ce)
  sends_complete L answers b ce h enough room =
      (flush-IsFlushed L answers b ce h enough, send-IsSent answers b ce h room)
