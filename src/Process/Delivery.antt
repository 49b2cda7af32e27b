-- ===== src/Process/Delivery.antt =====
-- The results of the copies of src/process.c, written out.
use connio.Prelude.{
  if_true, if_false, ℕ, zero, suc, ◌+◌, ◌-◌, ◌≤◌, ◌≡◌, refl, sym, ap, ◌∙◌, inl, inr, Bool, true,
  not, ◌&&◌, ◌||◌, some, List, [], ◌∷◌, ◌++◌, ◌==◌, ltb, if◌then◌else◌, arith, length,
  length-append, length-take, take, Bool-cases,
}
use connio.Errno.{emsgsize, econnmoredata}
use connio.IoBuffer.{IoBuffers}
use connio.Process.Event.{Event, ◌>>=◌, copy_buffered_data_to_client, terminate_client_buffer}
use connio.Process.Read.{
  Lengths, lengths, needed, cut, copy_final, mark_free_if, move_final_conditional_data_to_client,
  move_partial_conditional_data_to_client,
}

pub append_nil {ℓ} : {A : Type ℓ} (xs : List A) → xs ++ [] ≡ xs
append_nil [] = refl
append_nil (x ∷ xs) = ap (λ rest. x ∷ rest) (append_nil xs)

ap4 {ℓ κ} :
    {A : Type ℓ} {C D E : Type ℓ} {F : Type κ} (f : A → C → D → E → F) {a b : A} {c d : C} {x y : D}
    {s t : E}
    → a ≡ b
    → c ≡ d
    → x ≡ y
    → s ≡ t
    → f a c x s ≡ f b d y t
ap4 f p q r u = cc

module _ (B : IoBuffers) where
  -- The client's memory has room for what `remaining` promises, and `size` octets in all.
  pub record Fits (size : ℕ) (ce : Event B) : Type 0 where
    pub within : ce.client.remaining ≤ ce.client.room
    pub whole : length ce.client.written + ce.client.remaining ≡ size

  abbrev pub delivered : Event B → List ℕ → ℕ → Event B
  delivered ce buff n = record ce {
    client = record ce.client {
      written = ce.client.written ++ take n buff;
      room = ce.client.room - n;
      remaining = ce.client.remaining - n;
    };
    transferred = ce.transferred + n;
  }

  abbrev pub terminated_if : Bool → Event B → Event B
  terminated_if b ce = record ce {
    client = record ce.client { terminated = b || ce.client.terminated };
  }

  delivered_none : (ce : Event B) (buff : List ℕ) → delivered ce buff 0 ≡ ce
  delivered_none ce buff =
      ap4
        (λ w r n t. record ce {
          client = record ce.client { written = w; room = r; remaining = n };
          transferred = t;
        })
        (append_nil ce.client.written) (omega arith) (omega arith) (omega arith)

  pub copy-delivered :
      (ce : Event B) (buff : List ℕ) (n : ℕ)
      → n ≤ length buff
      → n ≤ ce.client.room
      → copy_buffered_data_to_client B ce buff n ≡ some (delivered ce buff n)
  unfolding copy_buffered_data_to_client
  copy-delivered ce buff zero inside fits = ap some (sym (delivered_none ce buff))
  copy-delivered ce buff (suc n) inside fits = ground (arith, inside, fits)

  pub delivered-Fits :
      (size : ℕ) (ce : Event B) (buff : List ℕ) (n : ℕ)
      → Fits size ce
      → n ≤ length buff
      → n ≤ ce.client.remaining
      → Fits size (delivered ce buff n)
  delivered-Fits size ce buff n h inside le = record {
    within = omega (arith, h.within, le);
    whole = omega (
      arith,
      h.whole,
      le,
      length-append ce.client.written (take n buff),
      length-take n buff inside,
    );
  }

  abbrev pub final : Event B → List ℕ → Lengths → Event B
  final ce buff l =
      let c =
        delivered (delivered ce buff (l.data_count + l.extra_len)) ce.pattern
          l.replacement_pattern_len in
      record (terminated_if (ltb 0 l.terminator_len) c) {
        io =
            if ce.data_mode.delete then B.mark_free ce.io (l.data_count + l.pattern_len) else ce.io;
      }

  pub record Enough (ce : Event B) (buff : List ℕ) (l : Lengths) : Type 0 where
    pub inside : l.data_count + l.extra_len ≤ length buff
    pub replacement : l.replacement_pattern_len ≤ length ce.pattern
    pub room : needed B l ≤ ce.client.remaining

  replaced :
      (ce : Event B) (buff : List ℕ) (n : ℕ)
      → n ≤ length buff
      → n ≤ ce.client.room
      → (if n == 0 then some ce else copy_buffered_data_to_client B ce buff n)
        ≡ some (delivered ce buff n)
  replaced ce buff zero inside fits = ap some (sym (delivered_none ce buff))
  replaced ce buff (suc n) inside fits = ground (arith, copy-delivered ce buff (suc n) inside fits)

  closed :
      (ce : Event B) (n : ℕ)
      → n ≤ ce.client.room
      → (if n == 0 then some ce else terminate_client_buffer B ce)
        ≡ some (terminated_if (ltb 0 n) ce)
  unfolding terminate_client_buffer
  closed ce zero fits = refl
  closed ce (suc n) fits = ground (arith, fits)

  pub copy_final_lem :
      (size : ℕ) (ce : Event B) (buff : List ℕ) (l : Lengths)
      → Fits size ce
      → Enough ce buff l
      → copy_final B ce buff l ≡ some (final ce buff l)
  unfolding copy_final needed mark_free_if
  copy_final_lem size ce buff l h e =
      let n = l.data_count + l.extra_len in
      let k = l.replacement_pattern_len in
      let c1 = delivered ce buff n in
      let c2 = delivered c1 ce.pattern k in
      rw (copy-delivered ce buff n e.inside (omega (arith, e.room, h.within))) rw
        (replaced c1 ce.pattern k e.replacement (omega (arith, e.room, h.within))) rw
        (closed c2 l.terminator_len (omega (arith, e.room, h.within))) refl

  pub lengths-Enough :
      (ce : Event B) (buff : List ℕ) (n p : ℕ)
      → n + p ≤ length buff
      → needed B (lengths B ce n p) ≤ ce.client.remaining
      → Enough ce buff (lengths B ce n p)
  unfolding lengths
  lengths-Enough ce buff n p inside le = record {
    inside = ground (arith, inside);
    replacement = ground arith;
    room = le;
  }

  pub cut-Enough :
      (ce : Event B) (buff : List ℕ) (n p : ℕ)
      → n + p ≤ length buff
      → Enough ce buff (cut B (lengths B ce n p) ce.client.remaining)
  unfolding lengths cut needed
  cut-Enough ce buff n p inside = record {
    inside = omega (arith, inside);
    replacement = omega arith;
    room = omega arith;
  }

  -- What a move to the client does when it may copy: `short` if the client's buffer is too small.
  pub move_final-copy :
      (size : ℕ) (ce : Event B) (buff : List ℕ) (n p : ℕ)
      → Fits size ce
      → n + p ≤ length buff
      → ce.data_mode.copy ≡ true
      → let l = lengths B ce n p in
        let short = ltb ce.client.remaining (needed B l) in
        move_final_conditional_data_to_client B ce buff n p
        ≡ some (
            if short
            then (emsgsize, final ce buff (cut B l ce.client.remaining))
            else (0, final ce buff l))
  unfolding move_final_conditional_data_to_client
  move_final-copy size ce buff n p h inside e =
      let l = lengths B ce n p in
      let r = ce.client.remaining in
      if_true _ _ e ∙ (elim (Bool-cases (ltb r (needed B l))) [
        | inl s ↦
            if_true _ _ s
            ∙ ap (λ o. o >>= λ d. some (emsgsize, d))
                (copy_final_lem size ce buff (cut B l r) h (cut-Enough ce buff n p inside))
            ∙ sym (ap some (if_true _ _ s))
        | inr s ↦
            if_false _ _ s
            ∙ ap (λ o. o >>= λ d. some (0, d))
                (copy_final_lem size ce buff l h
                  (lengths-Enough ce buff n p inside (ground (arith, s))))
            ∙ sym (ap some (if_false _ _ s))
      ])

  pub move_partial-copy :
      (size : ℕ) (ce : Event B) (buff : List ℕ) (k : ℕ)
      → Fits size ce
      → suc k ≤ length buff
      → ce.data_mode.copy ≡ true
      → ce.data_mode.delete ≡ true
      → let short = ltb ce.client.remaining (suc k) in
        let n = if short then ce.client.remaining else suc k in
        move_partial_conditional_data_to_client B ce buff (suc k)
        ≡ some
            (if short then emsgsize else econnmoredata, mark_free_if B true (delivered ce buff n) n)
  unfolding move_partial_conditional_data_to_client
  move_partial-copy size ce buff k h inside e d =
      let m = suc k in
      let r = ce.client.remaining in
      let short = ltb r m in
      let n = if short then r else m in
      if_true _ _ (ap (λ b. b && not (m == 0)) d ∙ ground arith)
      ∙ if_true _ _ e
      ∙ ap
          (λ o.
            o >>= λ c. some (if short then emsgsize else econnmoredata, mark_free_if B true c n))
          (copy-delivered ce buff n (ground (arith, inside)) (ground (arith, h.within)))
