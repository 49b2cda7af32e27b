-- ===== src/Process/Satisfy.antt =====
-- SatisfyEvent of src/process.c for reads and reads of a count.
use connio.Prelude.{
  if_true, if_false, ℕ, zero, suc, ◌+◌, ◌≤◌, ◌≡◌, refl, sym, ap, subst, ◌∙◌, ◌⊎◌, inl, inr, Bool,
  true, false, Option, some, List, leb, ltb, min, if◌then◌else◌, arith, length, Bool-cases,
}
use connio.Errno.{emsgsize, econnmoredata}
use connio.Conn.{read, read_count}
use connio.IoBuffer.{IoBuffers, IsLawful}
use connio.Process.Event.{Event}
use connio.Process.Read.{
  lengths, needed, cut, mark_free_if, move_final_conditional_data_to_client,
  move_partial_conditional_data_to_client, event_condition_satisfied, satisfy_event,
}
use connio.Process.Delivery.{
  Fits, final, lengths-Enough, cut-Enough, delivered-Fits, delivered, move_final-copy,
  move_partial-copy,
}
use connio.Process.Inside.{final-Fits, move_partial-none}
use connio.Process.Stream.{
  IsPlain, Conserves, buffered, IsDone, move_lem, final-Conserves, lengths-plain, cut-plain,
}

module _ (B : IoBuffers) where
  pub record Kept (size : ℕ) (base : List ℕ) (ce d : Event B) : Type 0 where
    pub fits : Fits B size d
    pub conserves : Conserves B base d
    pub same_type : d.type ≡ ce.type
    pub same_mode : d.data_mode ≡ ce.data_mode

  abbrev pub Moves : ℕ → List ℕ → Bool → Event B → Option (ℕ × Event B) → Type 0
  Moves size base counted ce o =
      (e : ℕ) × (d : Event B) × (o ≡ some (e, d)) × Kept size base ce d × IsDone B counted e d

  move_final-Moves :
      (L : IsLawful B) (size : ℕ) (base : List ℕ) (counted : Bool) (ce : Event B) (n : ℕ)
      → IsPlain B ce.data_mode
      → Fits B size ce
      → Conserves B base ce
      → n ≤ length (B.get_used ce.io)
      → (counted ≡ false) ⊎ (n ≡ ce.client.remaining)
      → Moves size base counted ce
          (move_final_conditional_data_to_client B ce (B.get_used ce.io) n 0)
  move_final-Moves L size base counted ce n m h k inside g =
      let used = B.get_used ce.io in
      let r = ce.client.remaining in
      let l = lengths B ce n 0 in
      let t : ℕ = if ce.data_mode.terminate then 1 else 0 in
      let i : n + 0 ≤ length used = omega (arith, inside) in
      let e = move_final-copy B size ce used n 0 h i m.copies in
      elim (Bool-cases (ltb r (needed B l))) [
        | inl s ↦
            let c = cut B l r in
            let d = final B ce used c in
            (
              emsgsize,
              d,
              e ∙ ap some (if_true _ _ s),
              record {
                fits = final-Fits B size ce used c h (cut-Enough B ce used n 0 i);
                conserves =
                    subst (λ p. Conserves B base (final B ce used p)) (sym (cut-plain B ce n r))
                      (final-Conserves B L base ce (min n r) 0 m.deletes (omega (arith, inside)) k);
                same_type = refl;
                same_mode = refl;
              },
              inr (inl (λ z. absurd (omega (arith, z)))),
            )
        | inr s ↦
            let d = final B ce used l in
            let le : needed B l ≤ r = ground (arith, s) in
            (
              0,
              d,
              e ∙ ap some (if_false _ _ s),
              record {
                fits = final-Fits B size ce used l h (lengths-Enough B ce used n 0 i le);
                conserves =
                    subst (λ p. Conserves B base (final B ce used p))
                      (sym (lengths-plain B ce n m.keeps_pattern))
                      (final-Conserves B L base ce n t m.deletes inside k);
                same_type = refl;
                same_mode = refl;
              },
              elim g [
                | inl c ↦ inl c
                | inr q ↦ inr (
                    inr (
                      subst (λ p. (final B ce used p).client.remaining ≡ 0)
                        (sym (lengths-plain B ce n m.keeps_pattern)) (omega (arith, q))))
              ],
            )
      ]

  move_partial-Moves :
      (L : IsLawful B) (size : ℕ) (base : List ℕ) (counted : Bool) (ce : Event B) (n : ℕ)
      → IsPlain B ce.data_mode
      → Fits B size ce
      → Conserves B base ce
      → n ≤ length (B.get_used ce.io)
      → Moves size base counted ce
          (move_partial_conditional_data_to_client B ce (B.get_used ce.io) n)
  unfolding mark_free_if
  move_partial-Moves L size base counted ce zero m h k inside = (
    econnmoredata,
    ce,
    move_partial-none B ce (B.get_used ce.io),
    record { fits = h; conserves = k; same_type = refl; same_mode = refl },
    inr (inl (λ z. absurd (omega (arith, z)))),
  )
  move_partial-Moves L size base counted ce (suc i) m h k inside =
      let used = B.get_used ce.io in
      let short = ltb ce.client.remaining (suc i) in
      let n = if short then ce.client.remaining else suc i in
      let e = if short then emsgsize else econnmoredata in
      let le : n ≤ length used = ground (arith, inside) in
      let f = delivered-Fits B size ce used n h le (ground arith) in
      (
        e,
        mark_free_if B true (delivered B ce used n) n,
        move_partial-copy B size ce used i h inside m.copies m.deletes,
        record {
          fits = record { within = f.within; whole = f.whole };
          conserves = move_lem B L ce.io ce.client.written n le ∙ k;
          same_type = refl;
          same_mode = refl;
        },
        inr (inl (ground arith)),
      )

  satisfy_buffered :
      (L : IsLawful B) (size : ℕ) (base : List ℕ) (counted : Bool) (ce : Event B)
      → IsPlain B ce.data_mode
      → Fits B size ce
      → Conserves B base ce
      → let d = record ce { type = buffered B counted } in
        Moves size base counted d (satisfy_event B d)
  unfolding satisfy_event event_condition_satisfied
  satisfy_buffered L size base true ce m h k =
      let d = record ce { type = read_count } in
      let r = ce.client.remaining in
      let used = B.get_used ce.io in
      let n : ℕ = if leb r (length used) then r else length used in
      let f : Fits B size d = record { within = h.within; whole = h.whole } in
      let le : n ≤ length used = ground arith in
      elim (Bool-cases (leb r (length used))) [
        | inl s ↦
            let (e, c, q, i, j) =
              move_final-Moves L size base true d n m f k le (inr (if_true _ _ s)) in
            (e, c, if_true _ _ s ∙ q, i, j)
        | inr s ↦
            let (e, c, q, i, j) = move_partial-Moves L size base true d n m f k le in
            (e, c, if_false _ _ s ∙ q, i, j)
      ]
  satisfy_buffered L size base false ce m h k =
      let d = record ce { type = read } in
      let r = ce.client.remaining in
      let used = B.get_used ce.io in
      let n : ℕ = if leb r (length used) then r else length used in
      let f : Fits B size d = record { within = h.within; whole = h.whole } in
      let le : n ≤ length used = ground arith in
      elim (Bool-cases (ltb 0 (length used))) [
        | inl s ↦
            let (e, c, q, i, j) = move_final-Moves L size base false d n m f k le (inl refl) in
            (e, c, if_true _ _ s ∙ q, i, j)
        | inr s ↦
            let (e, c, q, i, j) = move_partial-Moves L size base false d n m f k le in
            (e, c, if_false _ _ s ∙ q, i, j)
      ]

  pub satisfy_event-Moves :
      (L : IsLawful B) (size : ℕ) (base : List ℕ) (counted : Bool) (ce : Event B)
      → ce.type ≡ buffered B counted
      → IsPlain B ce.data_mode
      → Fits B size ce
      → Conserves B base ce
      → Moves size base counted ce (satisfy_event B ce)
  satisfy_event-Moves L size base counted ce t m h k =
      subst
        (λ u.
          Moves size base counted (record ce { type = u })
            (satisfy_event B (record ce { type = u })))
        (sym t) (satisfy_buffered L size base counted ce m h k)
