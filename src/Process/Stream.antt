-- ===== src/Process/Stream.antt =====
-- The reads of src/process.c and the octets that come from the socket.
use connio.Prelude.{
  if_true, if_false, ℕ, ◌+◌, ◌≤◌, ◌≡◌, ◌≢◌, refl, sym, ap, ◌∙◌, ◌⊎◌, Bool, true, false, List, [],
  ◌++◌, append_assoc, min, if◌then◌else◌, arith, length, take, drop, take-drop, take-append,
}
use connio.Conn.{ConnEventType, read, read_count}
use connio.IoBuffer.{IoBuffers, IsLawful}
use connio.Process.Event.{Event, DataMode}
use connio.Process.Read.{Lengths, lengths, cut}
use connio.Process.Delivery.{final, append_nil}

no_extra : (r i : Bool) → let n : ℕ = if r then 0 else if i then 0 else 0 in n ≡ 0
no_extra true i = refl
no_extra false true = refl
no_extra false false = refl

module _ (B : IoBuffers) where
  -- Reads that copy to the client and take out of the buffer what they copy.
  pub record IsPlain (m : DataMode) : Type 0 where
    pub copies : m.copy ≡ true
    pub deletes : m.delete ≡ true
    pub keeps_pattern : m.replace_pattern ≡ false

  -- What the client has, and then the buffer, is `base` and then what came from the socket.
  abbrev pub Conserves : List ℕ → Event B → Type 0
  Conserves base ce = ce.client.written ++ B.contents ce.io ≡ base ++ ce.received

  pub move_lem :
      (L : IsLawful B) (io : B.State) (w : List ℕ) (n : ℕ)
      → n ≤ length (B.get_used io)
      → (w ++ take n (B.get_used io)) ++ B.contents (B.mark_free io n) ≡ w ++ B.contents io
  move_lem L io w n h =
      let (rest, e) = L.get_used_prefix io in
      let used = B.get_used io in
      append_assoc w (take n used) (B.contents (B.mark_free io n))
      ∙ ap (λ xs. w ++ xs)
          (ap (λ xs. take n used ++ xs) (L.contents-mark_free io n h)
            ∙ ap (λ xs. xs ++ drop n (B.contents io))
                (sym (take-append n used rest h) ∙ ap (take n) (sym e))
            ∙ take-drop n (B.contents io))

  abbrev pub plain : ℕ → ℕ → Lengths
  plain n t = record {
    data_count = n;
    pattern_len = 0;
    extra_len = 0;
    replacement_pattern_len = 0;
    terminator_len = t;
  }

  pub final-Conserves :
      (L : IsLawful B) (base : List ℕ) (ce : Event B) (n t : ℕ)
      → ce.data_mode.delete ≡ true
      → n ≤ length (B.get_used ce.io)
      → Conserves base ce
      → Conserves base (final B ce (B.get_used ce.io) (plain n t))
  final-Conserves L base ce n t d h k =
      let used = B.get_used ce.io in
      let xs = ce.client.written ++ take (n + 0) used in
      ap (λ io. (xs ++ []) ++ B.contents io) (if_true _ _ d)
      ∙ ap (λ ys. ys ++ B.contents (B.mark_free ce.io (n + 0))) (append_nil xs)
      ∙ move_lem L ce.io ce.client.written (n + 0) (omega (arith, h))
      ∙ k

  pub lengths-plain :
      (ce : Event B) (n : ℕ)
      → ce.data_mode.replace_pattern ≡ false
      → lengths B ce n 0 ≡ plain n (if ce.data_mode.terminate then 1 else 0)
  unfolding lengths
  lengths-plain ce n e =
      let m = ce.data_mode in
      ap (λ x. record (lengths B ce n 0) { extra_len = x })
        (no_extra m.replace_pattern m.include_pattern)
      ∙ ap (λ x. record (lengths B ce n 0) { extra_len = 0; replacement_pattern_len = x })
          (if_false _ _ e)

  pub cut-plain : (ce : Event B) (n r : ℕ) → cut B (lengths B ce n 0) r ≡ plain (min n r) 0
  unfolding cut lengths
  cut-plain ce n r = refl

  abbrev pub buffered : Bool → ConnEventType
  buffered true = read_count
  buffered false = read

  abbrev pub IsDone : Bool → ℕ → Event B → Type 0
  IsDone counted e d = (counted ≡ false) ⊎ (e ≢ 0) ⊎ (d.client.remaining ≡ 0)
