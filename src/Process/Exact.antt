-- ===== src/Process/Exact.antt =====
-- The loop of conditionalReadProcess of src/process.c and the octets that come from the socket.
use connio.Prelude.{
  ne_test, if_true, if_false, ℕ, zero, suc, ◌≤◌, ◌≡◌, ◌≢◌, refl, sym, ap, subst, ◌∙◌, ◌⊎◌, inl, inr,
  Bool, true, not, ◌||◌, Option, some, List, [], ◌∷◌, ◌++◌, append_assoc, ◌==◌, arith, length, take,
  take-append, All, Bool-cases,
}
use connio.Errno.{econnmoredata, enobufs}
use connio.Conn.{read_count}
use connio.IoBuffer.{IoBuffers, IsLawful}
use connio.Process.Event.{Event, ◌>>=◌}
use connio.Process.Read.{
  satisfy_event, Arrival, ReadEnd, arrived, stopped, ended, asking, event_of, full, filled, go_on,
  fill, conditional_read_process,
}
use connio.Process.Delivery.{Fits}
use connio.Process.Stream.{IsPlain, Conserves, buffered, IsDone}
use connio.Process.Satisfy.{satisfy_event-Moves}

take-length : (xs : List ℕ) (n : ℕ) → length xs ≡ n → take n xs ≡ xs
take-length [] zero e = refl
take-length [] (suc n) e = refl
take-length (x ∷ xs) zero e = absurd (omega (arith, e))
take-length (x ∷ xs) (suc n) e = ap (λ rest. x ∷ rest) (take-length xs n (omega (arith, e)))

module _ (B : IoBuffers) where
  -- The socket gives no more octets than it is asked for, and an error is not 0.
  abbrev pub IsAnswer : ℕ → Arrival B → Type 0
  IsAnswer n (arrived bs) = length bs ≤ n
  IsAnswer n (stopped e) = e ≢ 0

  abbrev pub IsHonest : (ℕ → Arrival B) → Type 0
  IsHonest f = (n : ℕ) → IsAnswer n (f n)

  abbrev pub IsOver : Bool → ReadEnd B → Type 0
  IsOver counted (ended e d) = IsDone B counted e d
  IsOver counted (asking d) = Unit {0}

  abbrev Outcome : ℕ → List ℕ → Bool → Option (ReadEnd B) → Type 0
  Outcome size base counted o =
      (r : ReadEnd B) × (o ≡ some r)
      × Fits B size (event_of B r)
      × Conserves B base (event_of B r)
      × IsOver counted r

  -- What the loop needs of an event, and keeps.
  record Ready (size : ℕ) (base : List ℕ) (counted : Bool) (ce : Event B) : Type 0 where
    kind : ce.type ≡ buffered B counted
    mode : IsPlain B ce.data_mode
    fits : Fits B size ce
    conserves : Conserves B base ce

  filled-Ready :
      (L : IsLawful B) (size : ℕ) (base : List ℕ) (counted : Bool) (d : Event B) (bs : List ℕ)
      → length bs ≤ B.get_free d.io
      → Ready size base counted d
      → Ready size base counted (filled B d bs)
  unfolding filled
  filled-Ready L size base counted d bs le h = record {
    kind = h.kind;
    mode = h.mode;
    fits = record { within = h.fits.within; whole = h.fits.whole };
    conserves =
        ap (λ xs. d.client.written ++ xs) (L.contents-mark_used d.io bs le)
        ∙ sym (append_assoc d.client.written (B.contents d.io) bs)
        ∙ ap (λ xs. xs ++ bs) h.conserves
        ∙ append_assoc base d.received bs;
  }

  go_on-Outcome :
      (size : ℕ) (base : List ℕ) (counted : Bool) (e : ℕ) (d : Event B)
      (more : Event B → Option (ReadEnd B))
      → Ready size base counted d
      → IsDone B counted e d
      → Outcome size base counted (more d)
      → Outcome size base counted (go_on B more (e, d))
  unfolding go_on full
  go_on-Outcome size base counted e d more h w (r, q, i, j, k) =
      elim (Bool-cases (not (e == econnmoredata))) [
        | inl n ↦ (ended e d, if_true _ _ n, h.fits, h.conserves, w)
        | inr n ↦ elim (Bool-cases (B.get_free d.io == 0)) [
          | inl z ↦ (
            ended enobufs d,
            if_false _ _ n
                ∙ if_true _ _ z
                ∙ ap some (if_false _ _ (ap (λ b. not (b || d.data_mode.copy)) h.mode.deletes)),
            h.fits,
            h.conserves,
            inr (inl (λ c. absurd (omega (arith, c)))),
          )
          | inr z ↦ (r, if_false _ _ n ∙ if_false _ _ z ∙ q, i, j, k)
        ]
      ]

  fill-Outcome :
      (L : IsLawful B) (size : ℕ) (base : List ℕ) (counted : Bool) (d : Event B)
      (again : Event B → Option (ReadEnd B)) (a : Arrival B)
      → Ready size base counted d
      → IsAnswer (B.get_free d.io) a
      → ((c : Event B) → Ready size base counted c → Outcome size base counted (again c))
      → Outcome size base counted (fill B again d a)
  unfolding fill
  fill-Outcome L size base counted d again (arrived bs) h le f =
      f (filled B d bs) (filled-Ready L size base counted d bs le h)
  fill-Outcome L size base counted d again (stopped e) h le f =
      subst (Outcome size base counted) (sym (if_false _ _ (ne_test le)))
        (ended e d, refl, h.fits, h.conserves, inr (inl le))

  satisfied-Outcome :
      (L : IsLawful B) (size : ℕ) (base : List ℕ) (counted : Bool) (ce : Event B)
      (more : Event B → Option (ReadEnd B))
      → Ready size base counted ce
      → ((d : Event B) → Ready size base counted d → Outcome size base counted (more d))
      → Outcome size base counted (satisfy_event B ce >>= go_on B more)
  satisfied-Outcome L size base counted ce more h f =
      let (e, d, q, k, w) =
        satisfy_event-Moves B L size base counted ce h.kind h.mode h.fits h.conserves in
      let ready : Ready size base counted d = record {
        kind = k.same_type ∙ h.kind;
        mode = subst (IsPlain B) (sym k.same_mode) h.mode;
        fits = k.fits;
        conserves = k.conserves;
      } in
      let (r, p, i, j, l) = go_on-Outcome size base counted e d more ready w (f d ready) in
      (r, ap (λ o. o >>= go_on B more) q ∙ p, i, j, l)

  read-Outcome :
      (L : IsLawful B) (size : ℕ) (base : List ℕ) (counted : Bool) (answers : List (ℕ → Arrival B))
      (ce : Event B)
      → All IsHonest answers
      → Ready size base counted ce
      → Outcome size base counted (conditional_read_process B answers ce)
  unfolding conditional_read_process
  read-Outcome L size base counted [] ce honest h =
      satisfied-Outcome L size base counted ce (λ d. some (asking d)) h
        (λ d g. (asking d, refl, g.fits, g.conserves, _))
  read-Outcome L size base counted (answer ∷ answers) ce (a, honest) h =
      satisfied-Outcome L size base counted ce
        (λ d. fill B (λ e. conditional_read_process B answers e) d (answer (B.get_free d.io))) h
        (λ d g.
          fill-Outcome L size base counted d _ (answer (B.get_free d.io)) g (a (B.get_free d.io))
            (λ c i. read-Outcome L size base counted answers c honest i))

  -- A read or a read of a count that copies to the client and deletes from the buffer has a result,
  -- and loses, repeats and reorders nothing: what the client got, followed by what is still in the
  -- buffer, is what both were before, followed by what the socket gave. This holds for each socket
  -- that gives no more than it is asked for and no error 0, and for a client's memory that fits.
  pub conditional_read_process-Conserves :
      (L : IsLawful B) (size : ℕ) (base : List ℕ) (counted : Bool) (answers : List (ℕ → Arrival B))
      (ce : Event B)
      → All IsHonest answers
      → ce.type ≡ buffered B counted
      → IsPlain B ce.data_mode
      → Fits B size ce
      → Conserves B base ce
      → (r : ReadEnd B) × (conditional_read_process B answers ce ≡ some r)
        × Conserves B base (event_of B r)
  conditional_read_process-Conserves L size base counted answers ce honest t m h k =
      let (r, q, i, j, l) =
        read-Outcome L size base counted answers ce honest
          (record { kind = t; mode = m; fits = h; conserves = k }) in
      (r, q, j)

  take_all : (xs ys : List ℕ) (n : ℕ) → length xs ≡ n → take n (xs ++ ys) ≡ xs
  take_all xs ys n e = take-append n xs ys (omega (arith, e)) ∙ take-length xs n e

  -- The read goes on, ended with an error, or gave the client the first `size` octets.
  abbrev pub IsExact : ℕ → List ℕ → ReadEnd B → Type 0
  IsExact size base (ended e d) = (e ≢ 0) ⊎ (d.client.written ≡ take size (base ++ d.received))
  IsExact size base (asking d) = Unit {0}

  over-IsExact :
      (size : ℕ) (base : List ℕ) (r : ReadEnd B)
      → Fits B size (event_of B r)
      → Conserves B base (event_of B r)
      → IsOver true r
      → IsExact size base r
  over-IsExact size base (asking d) h k w = w
  over-IsExact size base (ended e d) h k (inr (inl n)) = inl n
  over-IsExact size base (ended e d) h k (inr (inr z)) = inr (
      sym (take_all d.client.written (B.contents d.io) size (omega (arith, h.whole, z)))
      ∙ ap (take size) k)
  over-IsExact size base (ended e d) h k (inl c) = cc

  -- A read of a count that copies to the client and deletes from the buffer has a result, and it ends
  -- without an error only if the client got exactly the first `size` octets of what was in its memory
  -- and in the buffer and of what the socket gave then, in their order. This holds for each socket
  -- that gives no more than it is asked for and no error 0, and for a client's memory that fits.
  pub conditional_read_process-IsExact :
      (L : IsLawful B) (size : ℕ) (base : List ℕ) (answers : List (ℕ → Arrival B)) (ce : Event B)
      → All IsHonest answers
      → ce.type ≡ read_count
      → IsPlain B ce.data_mode
      → Fits B size ce
      → Conserves B base ce
      → (r : ReadEnd B) × (conditional_read_process B answers ce ≡ some r) × IsExact size base r
  conditional_read_process-IsExact L size base answers ce honest t m h k =
      let (r, q, i, j, l) =
        read-Outcome L size base true answers ce honest
          (record { kind = t; mode = m; fits = h; conserves = k }) in
      (r, q, over-IsExact size base r i j l)
