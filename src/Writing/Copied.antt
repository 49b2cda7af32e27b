-- ===== src/Writing/Copied.antt =====
-- The octets that the loop of writeClientData in src/connio.c puts into a buffer, and those it leaves.
use connio.Prelude.{
  if_true, if_false, ℕ, zero, suc, ◌≤◌, ◌≡◌, refl, sym, ap, subst, ◌∙◌, inl, inr, List, ◌++◌,
  append_assoc, ◌==◌, ltb, arith, tests, length, length-append, length-take, take, drop, take-drop,
  Bool-cases,
}
use connio.IoBuffer.{IoBuffers, IsLawful}
use connio.Writing.{Poured, kept, filled_up, pour}

module _ (B : IoBuffers) (L : IsLawful B) where
  abbrev pub Pours : List ℕ → Poured B → Type 0
  Pours whole (kept t) = B.contents t ≡ whole
  Pours whole (filled_up t left) = (B.contents t ++ left ≡ whole) × (B.get_free t ≡ 0)

  -- writeClientData copies the octets of the client behind those in a buffer until all are in it, or
  -- until the buffer has no free space; the octets left then are those behind the copied ones. With
  -- one turn more than there are octets the loop comes to one of these ends. The buffers keep their
  -- laws.
  pub pour-Pours :
      (fuel : ℕ) (s : B.State) (rest : List ℕ)
      → suc (length rest) ≤ fuel
      → Pours (B.contents s ++ rest) (pour B fuel s rest)
  unfolding pour
  pour-Pours zero s rest h = absurd (omega (arith, h))
  pour-Pours (suc fuel) s rest h =
      let space = B.get_free s in
      let whole = B.contents s ++ rest in
      let ts = take space rest in
      let left = drop space rest in
      let next = B.mark_used s ts in
      elim (Bool-cases (space == 0)) [
        | inl z ↦ subst (Pours whole) (sym (if_true _ _ z)) (refl, ground (arith, z))
        | inr z ↦ elim (Bool-cases (ltb (length rest) space)) [
          | inl q ↦
              subst (Pours whole) (sym (if_false _ _ z ∙ if_true _ _ q))
                (L.contents-mark_used s rest (grind (tests, q)))
          | inr q ↦
              let le : space ≤ length rest = grind (tests, q) in
              let e : length ts ≡ space = length-take space rest le in
              let copied : B.contents next ++ left ≡ whole =
                ap (λ xs. xs ++ left) (L.contents-mark_used s ts (omega (arith, e)))
                ∙ append_assoc (B.contents s) ts left
                ∙ ap (λ xs. B.contents s ++ xs) (take-drop space rest) in
              let fewer : suc (length left) ≤ fuel =
                ground (arith, z, h, e, ap length (take-drop space rest), length-append ts left) in
              subst (Pours whole) (sym (if_false _ _ z ∙ if_false _ _ q)) (
                subst (λ xs. Pours xs (pour B fuel next left)) copied
                  (pour-Pours fuel next left fewer))
        ]
      ]
