-- ===== src/Process/Inside.antt =====
-- SatisfyEvent of src/process.c and the memory of the client.
use connio.Prelude.{
  if_true, if_false, ℕ, zero, suc, ◌+◌, ◌≤◌, ◌≡◌, refl, sym, ap, subst, ◌∙◌, inl, inr, Bool, true,
  false, not, ◌&&◌, Option, some, List, ◌==◌, ltb, if◌then◌else◌, arith, length, Bool-cases,
}
use connio.Errno.{emsgsize, econnmoredata}
use connio.Conn.{ConnEventType, read, read_count, read_until_pattern}
use connio.IoBuffer.{IoBuffers, IsLawful}
use connio.Process.Event.{Event}
use connio.Process.Read.{
  Lengths, lengths, needed, cut, mark_free_if, move_final_conditional_data_to_client,
  move_partial_conditional_data_to_client, event_condition_satisfied, found, strcmp_equal,
  special_pattern_crlf, satisfy_event,
}
use connio.Process.Delivery.{
  Fits, Enough, final, delivered, delivered-Fits, lengths-Enough, cut-Enough, move_final-copy,
  move_partial-copy,
}

and_false : (b : Bool) → b && false ≡ false
and_false true = refl
and_false false = refl

module _ (B : IoBuffers) where
  -- What a step that may fail does: it stays inside of the memory that it may use.
  abbrev pub Stays : ℕ → Option (ℕ × Event B) → Type 0
  Stays size o = (e : ℕ) × (d : Event B) × (o ≡ some (e, d)) × Fits B size d

  pub final-Fits :
      (size : ℕ) (ce : Event B) (buff : List ℕ) (l : Lengths)
      → Fits B size ce
      → Enough B ce buff l
      → Fits B size (final B ce buff l)
  unfolding needed
  final-Fits size ce buff l h e =
      let n = l.data_count + l.extra_len in
      let h1 = delivered-Fits B size ce buff n h e.inside (omega (arith, e.room)) in
      let h2 =
        delivered-Fits B size (delivered B ce buff n) ce.pattern l.replacement_pattern_len h1
          e.replacement (omega (arith, e.room)) in
      record { within = h2.within; whole = h2.whole }

  pub move_final-delete :
      (ce : Event B) (buff : List ℕ) (n p : ℕ)
      → ce.data_mode.copy ≡ false
      → ce.data_mode.delete ≡ true
      → move_final_conditional_data_to_client B ce buff n p
        ≡ some (0, mark_free_if B true ce (n + p))
  unfolding move_final_conditional_data_to_client
  move_final-delete ce buff n p c d = if_false _ _ c ∙ if_true _ _ d

  move_final-test :
      (ce : Event B) (buff : List ℕ) (n p : ℕ)
      → ce.data_mode.copy ≡ false
      → ce.data_mode.delete ≡ false
      → move_final_conditional_data_to_client B ce buff n p
        ≡ some (0, record ce { transferred = n })
  unfolding move_final_conditional_data_to_client
  move_final-test ce buff n p c d = if_false _ _ c ∙ if_false _ _ d

  move_final-Stays :
      (size : ℕ) (ce : Event B) (buff : List ℕ) (n p : ℕ)
      → Fits B size ce
      → n + p ≤ length buff
      → Stays size (move_final_conditional_data_to_client B ce buff n p)
  unfolding mark_free_if
  move_final-Stays size ce buff n p h inside = elim (Bool-cases ce.data_mode.copy) [
    | inl c ↦
        let l = lengths B ce n p in
        let r = ce.client.remaining in
        let e = move_final-copy B size ce buff n p h inside c in
        elim (Bool-cases (ltb r (needed B l))) [
          | inl s ↦ (
            emsgsize,
            final B ce buff (cut B l r),
            e ∙ ap some (if_true _ _ s),
            final-Fits size ce buff (cut B l r) h (cut-Enough B ce buff n p inside),
          )
          | inr s ↦ (
            0,
            final B ce buff l,
            e ∙ ap some (if_false _ _ s),
            final-Fits size ce buff l h (lengths-Enough B ce buff n p inside (ground (arith, s))),
          )
        ]
    | inr c ↦ elim (Bool-cases ce.data_mode.delete) [
      | inl d ↦ (
        0,
        mark_free_if B true ce (n + p),
        move_final-delete ce buff n p c d,
        record { within = h.within; whole = h.whole },
      )
      | inr d ↦ (
        0,
        record ce { transferred = n },
        move_final-test ce buff n p c d,
        record { within = h.within; whole = h.whole },
      )
    ]
  ]

  move_partial-keep :
      (ce : Event B) (buff : List ℕ) (n : ℕ)
      → ce.data_mode.delete ≡ false
      → move_partial_conditional_data_to_client B ce buff n ≡ some (econnmoredata, ce)
  unfolding move_partial_conditional_data_to_client
  move_partial-keep ce buff n d = if_false _ _ (ap (λ b. b && not (n == 0)) d)

  pub move_partial-none :
      (ce : Event B) (buff : List ℕ)
      → move_partial_conditional_data_to_client B ce buff 0 ≡ some (econnmoredata, ce)
  unfolding move_partial_conditional_data_to_client
  move_partial-none ce buff = if_false _ _ (and_false ce.data_mode.delete)

  pub move_partial-delete :
      (ce : Event B) (buff : List ℕ) (k : ℕ)
      → ce.data_mode.copy ≡ false
      → ce.data_mode.delete ≡ true
      → move_partial_conditional_data_to_client B ce buff (suc k)
        ≡ some (econnmoredata, mark_free_if B true ce (suc k))
  unfolding move_partial_conditional_data_to_client
  move_partial-delete ce buff k c d =
      if_true _ _ (ap (λ b. b && not (suc k == 0)) d ∙ ground arith) ∙ if_false _ _ c

  move_partial-Stays :
      (size : ℕ) (ce : Event B) (buff : List ℕ) (n : ℕ)
      → Fits B size ce
      → n ≤ length buff
      → Stays size (move_partial_conditional_data_to_client B ce buff n)
  unfolding mark_free_if
  move_partial-Stays size ce buff zero h inside = (econnmoredata, ce, move_partial-none ce buff, h)
  move_partial-Stays size ce buff (suc k) h inside = elim (Bool-cases ce.data_mode.delete) [
    | inr d ↦ (econnmoredata, ce, move_partial-keep ce buff (suc k) d, h)
    | inl d ↦ elim (Bool-cases ce.data_mode.copy) [
      | inl c ↦
          let short = ltb ce.client.remaining (suc k) in
          let n = if short then ce.client.remaining else suc k in
          let f = delivered-Fits B size ce buff n h (ground (arith, inside)) (ground arith) in
          (
            if short then emsgsize else econnmoredata,
            mark_free_if B true (delivered B ce buff n) n,
            move_partial-copy B size ce buff k h inside c d,
            record { within = f.within; whole = f.whole },
          )
      | inr c ↦ (
        econnmoredata,
        mark_free_if B true ce (suc k),
        move_partial-delete ce buff k c d,
        record { within = h.within; whole = h.whole },
      )
    ]
  ]

  pub condition-within :
      (L : IsLawful B) (t : ConnEventType) (ce : Event B)
      → let c = event_condition_satisfied B (record ce { type = t }) in
        (c.count + c.pattern_len ≤ length (B.get_used c.event.io))
        × (record c.event { io = ce.io } ≡ record ce { type = t })
  unfolding event_condition_satisfied found
  condition-within L read ce = (ground arith, refl)
  condition-within L read_count ce = (ground arith, refl)
  condition-within L read_until_pattern ce =
      elim (Bool-cases (strcmp_equal ce.pattern special_pattern_crlf)) [
        | inl e ↦ rw e (L.search_crlf-within ce.io, refl)
        | inr e ↦ rw e (L.search-within ce.io ce.pattern, refl)
      ]
  condition-within L _ ce = (omega arith, refl)

  pub satisfy_event-Stays :
      (L : IsLawful B) (size : ℕ) (ce : Event B) → Fits B size ce → Stays size (satisfy_event B ce)
  unfolding satisfy_event
  satisfy_event-Stays L size ce h =
      let c = event_condition_satisfied B ce in
      let buff = B.get_used c.event.io in
      let (w, e) = condition-within L ce.type ce in
      let f = subst (λ d. Fits B size d) (sym e) h in
      let g : Fits B size c.event = record { within = f.within; whole = f.whole } in
      elim (Bool-cases c.satisfied) [
        | inl s ↦
            let (err, d, q, i) = move_final-Stays size c.event buff c.count c.pattern_len g w in
            (err, d, if_true _ _ s ∙ q, i)
        | inr s ↦
            let (err, d, q, i) =
              move_partial-Stays size c.event buff c.count g (omega (arith, w)) in
            (err, d, if_false _ _ s ∙ q, i)
      ]
