-- ===== src/Process/Bounds.antt =====
-- The loop of conditionalReadProcess of src/process.c and the memory of the client.
use connio.Prelude.{
  if_true, if_false, ℕ, ◌≡◌, refl, sym, subst, ap, ◌∙◌, inl, inr, not, ◌||◌, Option, some, List, [],
  ◌∷◌, ◌==◌, Bool-cases,
}
use connio.Errno.{econnmoredata}
use connio.IoBuffer.{IoBuffers, IsLawful}
use connio.Process.Event.{Event, ◌>>=◌}
use connio.Process.Read.{
  Arrival, ReadEnd, arrived, stopped, ended, asking, event_of, full, filled, go_on, fill,
  conditional_read_process,
}
use connio.Process.Delivery.{Fits}
use connio.Process.Inside.{satisfy_event-Stays}

module _ (B : IoBuffers) where
  -- A read that came to a result inside of the client's memory.
  abbrev pub Read : ℕ → Option (ReadEnd B) → Type 0
  Read size o = (r : ReadEnd B) × (o ≡ some r) × Fits B size (event_of B r)

  full-Fits : (size : ℕ) (ce : Event B) → Fits B size ce → Fits B size (event_of B (full B ce))
  unfolding full
  full-Fits size ce h = elim (Bool-cases (not (ce.data_mode.delete || ce.data_mode.copy))) [
    | inl e ↦ rw e (record { within = h.within; whole = h.whole })
    | inr e ↦ rw e h
  ]

  go_on-Read :
      (size e : ℕ) (d : Event B) (more : Event B → Option (ReadEnd B))
      → Fits B size d
      → Read size (more d)
      → Read size (go_on B more (e, d))
  unfolding go_on
  go_on-Read size e d more h (r, q, i) = elim (Bool-cases (not (e == econnmoredata))) [
    | inl n ↦ (ended e d, if_true _ _ n, h)
    | inr n ↦ elim (Bool-cases (B.get_free d.io == 0)) [
      | inl z ↦ (full B d, if_false _ _ n ∙ if_true _ _ z, full-Fits size d h)
      | inr z ↦ (r, if_false _ _ n ∙ if_false _ _ z ∙ q, i)
    ]
  ]

  fill-Read :
      (size : ℕ) (d : Event B) (again : Event B → Option (ReadEnd B)) (a : Arrival B)
      → Fits B size d
      → ((c : Event B) → Fits B size c → Read size (again c))
      → Read size (fill B again d a)
  unfolding fill filled
  fill-Read size d again (arrived bs) h f =
      f (filled B d bs) (record { within = h.within; whole = h.whole })
  fill-Read size d again (stopped e) h f = elim (Bool-cases (e == 0)) [
    | inl z ↦ subst (Read size) (sym (if_true _ _ z)) (f d h)
    | inr n ↦ subst (Read size) (sym (if_false _ _ n)) (ended e d, refl, h)
  ]

  -- A conditional read never writes outside of the client's memory or reads outside of the buffer,
  -- whatever the socket answers: if the memory has room for what remains of its `size` octets, then
  -- the read has a result, and there is room for what then remains of the `size` octets.
  pub conditional_read_process-bounds :
      (L : IsLawful B) (size : ℕ) (answers : List (ℕ → Arrival B)) (ce : Event B)
      → Fits B size ce
      → (r : ReadEnd B) × (conditional_read_process B answers ce ≡ some r)
        × Fits B size (event_of B r)
  unfolding conditional_read_process filled
  conditional_read_process-bounds L size [] ce h =
      let (e, d, q, i) = satisfy_event-Stays B L size ce h in
      let (r, p, j) = go_on-Read size e d (λ d. some (asking d)) i (asking d, refl, i) in
      (r, ap (λ o. o >>= go_on B (λ d. some (asking d))) q ∙ p, j)
  conditional_read_process-bounds L size (answer ∷ answers) ce h =
      let again : Event B → Option (ReadEnd B) = λ e. conditional_read_process B answers e in
      let more : Event B → Option (ReadEnd B) = λ d. fill B again d (answer (B.get_free d.io)) in
      let (e, d, q, i) = satisfy_event-Stays B L size ce h in
      let (r, p, j) = go_on-Read size e d more i (
        fill-Read size d again (answer (B.get_free d.io)) i
          (conditional_read_process-bounds L size answers)) in
      (r, ap (λ o. o >>= go_on B more) q ∙ p, j)
