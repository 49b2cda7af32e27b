-- ===== src/ThreadEngine/Registered.antt =====
-- What the list of thread engines of src/threadengine.c holds, as a list of addresses.
use mathlib.Core.Option.{some-injective}
use connio.Prelude.{
  ℕ, zero, suc, ◌+◌, ◌≤◌, ◌<◌, ◌≡◌, ◌≢◌, refl, sym, ap, ◌∙◌, subst, true, Option, none, some, List,
  [], ◌∷◌, ◌++◌, length, last_or, All-left, NotIn, Distinct, Distinct-middle, ==_iff, ne_test,
  if_true, if_false, ◌%◌, ◌^◌, arith,
}
use connio.Dll.{update}
use connio.Dll.Chain.{last-ne, last-some}
use connio.ThreadEngine.{
  AThreadGlobals, skip_engine, unlink_engine, counted_to, a_thread_engine_create,
  a_thread_engine_destroy, sum_counts, a_thread_count_update, a_thread_count_read,
}

-- The links lead from `o` through exactly these.
abbrev pub Follows : (ℕ → Option ℕ) → Option ℕ → List ℕ → Type 0
Follows next o [] = o ≡ none
Follows next o (p ∷ ps) = (o ≡ some p) × Follows next (next p) ps

-- The engines that are registered.
pub record IsRegistered (g : AThreadGlobals) (ps : List ℕ) : Type 0 where
  pub linked : Follows g.next g.list ps
  pub distinct : Distinct ps

Follows-update :
    (next : ℕ → Option ℕ) (l : ℕ) (v : Option ℕ) (o : Option ℕ) (ps : List ℕ)
    → NotIn l ps
    → Follows next o ps
    → Follows (update next l v) o ps
Follows-update next l v o [] n h = h
Follows-update next l v o (p ∷ ps) n h =
    let e : update next l v p ≡ next p = ground (arith, n.0) in
    (
      h.0,
      Follows-update next l v (update next l v p) ps n.1
          (subst (λ (q : Option ℕ). Follows next q ps) (sym e) h.1),
    )

-- The engine behind `xs` is passed over.
Follows-skip :
    (next : ℕ → Option ℕ) (l p x : ℕ) (o : Option ℕ) (xs ys : List ℕ)
    → last_or none (x ∷ xs) ≡ some l
    → Distinct (x ∷ xs ++ p ∷ ys)
    → Follows next o (x ∷ xs ++ p ∷ ys)
    → Follows (update next l (next p)) o (x ∷ xs ++ ys)
Follows-skip next l p x o [] ys e d h =
    let q : x ≡ l = some-injective _ _ e in
    let u : update next l (next p) x ≡ next p = ground (arith, q) in
    (
      h.0,
      subst (λ (r : Option ℕ). Follows (update next l (next p)) r ys) (sym u)
          (Follows-update next l (next p) (next p) ys (subst (λ (z : ℕ). NotIn z ys) q d.0.1)
            h.1.1),
    )
Follows-skip next l p x o (z ∷ zs) ys e d h =
    let n = last-ne none x z zs l (All-left (λ q. x ≢ q) (z ∷ zs) (p ∷ ys) d.0) e in
    let u : update next l (next p) x ≡ next x = ground (arith, n) in
    (
      h.0,
      subst (λ (r : Option ℕ). Follows (update next l (next p)) r (z ∷ zs ++ ys)) (sym u)
          (Follows-skip next l p z (next x) zs ys e d.1 h.1),
    )

unlink-Follows :
    (n p : ℕ) (last o : Option ℕ) (xs ys : List ℕ) (g : AThreadGlobals)
    → length xs < n
    → NotIn p xs
    → Follows g.next o (xs ++ p ∷ ys)
    → unlink_engine n p last o g ≡ some (skip_engine (last_or last xs) (g.next p) g)
unfolding unlink_engine
unlink-Follows zero p last o xs ys g b m h = absurd (omega (arith, b))
unlink-Follows (suc n) p last none [] ys g b m h = absurd (cc)
unlink-Follows (suc n) p last none (x ∷ xs) ys g b m h = absurd (cc)
unlink-Follows (suc n) p last (some c) [] ys g b m h =
    let q : c ≡ p = some-injective _ _ h.0 in
    if_true _ _ ((==_iff c p).1 q) ∙ ap (λ (z : ℕ). some (skip_engine last (g.next z) g)) q
unlink-Follows (suc n) p last (some c) (x ∷ xs) ys g b m h =
    let q : c ≡ x = some-injective _ _ h.0 in
    if_false _ _ (ne_test (λ (e : c ≡ p). m.0 (sym e ∙ q)))
    ∙ unlink-Follows n p (some c) (g.next c) xs ys g (omega (arith, b)) m.1
        (subst (λ (z : ℕ). Follows g.next (g.next z) (xs ++ p ∷ ys)) (sym q) h.1)
    ∙ ap (λ (z : ℕ). some (skip_engine (last_or (some z) xs) (g.next p) g)) q

skip-IsRegistered :
    (xs : List ℕ) (p : ℕ) (ys : List ℕ) (g : AThreadGlobals)
    → IsRegistered g (xs ++ p ∷ ys)
    → IsRegistered (skip_engine (last_or none xs) (g.next p) g) (xs ++ ys)
unfolding skip_engine
skip-IsRegistered [] p ys g h = record { linked = h.linked.1; distinct = h.distinct.1 }
skip-IsRegistered (x ∷ xs) p ys g h =
    let (l, e) = last-some none x xs in
    subst (λ (o : Option ℕ). IsRegistered (skip_engine o (g.next p) g) (x ∷ xs ++ ys)) (sym e)
      (record {
        linked = Follows-skip g.next l p x g.list xs ys e h.distinct h.linked;
        distinct = (Distinct-middle (x ∷ xs) p ys h.distinct).2;
      })

-- Destroying a registered engine ends, with as much fuel as there are engines up to it, and takes
-- out of the list this engine and no other; the others stay in their order.
pub destroy-IsRegistered :
    (fuel : ℕ) (xs : List ℕ) (p : ℕ) (ys : List ℕ) (g : AThreadGlobals)
    → IsRegistered g (xs ++ p ∷ ys)
    → length xs < fuel
    → (g' : AThreadGlobals) × (a_thread_engine_destroy fuel p g ≡ some g')
      × IsRegistered g' (xs ++ ys)
unfolding a_thread_engine_destroy
destroy-IsRegistered fuel xs p ys g h b = (
  skip_engine (last_or none xs) (g.next p) g,
  unlink-Follows fuel p none g.list xs ys g b (Distinct-middle xs p ys h.distinct).0 h.linked,
  skip-IsRegistered xs p ys g h,
)

-- The sum of what the counters answer, modulo 2^64.
abbrev pub total : (ℕ → ℕ) → List ℕ → ℕ → ℕ
total counts [] acc = acc
total counts (p ∷ ps) acc = total counts ps ((acc + counts p) % 2 ^ 64)

sum-Follows :
    (n : ℕ) (counts : ℕ → ℕ) (o : Option ℕ) (ps : List ℕ) (g : AThreadGlobals) (acc : ℕ)
    → length ps ≤ n
    → Follows g.next o ps
    → sum_counts n counts o g acc ≡ some (total counts ps acc)
unfolding sum_counts
sum-Follows zero counts none [] g acc b h = refl
sum-Follows (suc n) counts none [] g acc b h = refl
sum-Follows n counts none (p ∷ ps) g acc b h = absurd (cc)
sum-Follows n counts (some c) [] g acc b h = absurd (cc)
sum-Follows zero counts (some c) (p ∷ ps) g acc b h = absurd (omega (arith, b))
sum-Follows (suc n) counts (some c) (p ∷ ps) g acc b h =
    let q : c ≡ p = some-injective _ _ h.0 in
    sum-Follows n counts (g.next c) ps g ((acc + counts c) % 2 ^ 64) (omega (arith, b))
      (subst (λ (z : ℕ). Follows g.next (g.next z) ps) (sym q) h.1)
    ∙ ap (λ (z : ℕ). some (total counts ps ((acc + counts z) % 2 ^ 64))) q

-- AThreadCountUpdate ends, with as much fuel as there are engines, and gives the sum of what all of
-- them count, modulo 2^64, which AThreadCountRead gives from then on.
pub a_thread_count_update-IsRegistered :
    (fuel : ℕ) (counts : ℕ → ℕ) (ps : List ℕ) (g : AThreadGlobals)
    → IsRegistered g ps
    → g.initialized ≡ true
    → length ps ≤ fuel
    → (a_thread_count_update fuel counts g
        ≡ some (total counts ps 0, record g { count = total counts ps 0 }))
      × (a_thread_count_read (record g { count = total counts ps 0 }) ≡ total counts ps 0)
unfolding a_thread_count_update a_thread_count_read counted_to
a_thread_count_update-IsRegistered fuel counts ps g h i b = (
  if_true _ _ i ∙ ap (counted_to g) (sum-Follows fuel counts g.list ps g 0 b h.linked),
  if_true _ _ i,
)

-- A new engine is put before the others.
pub create-IsRegistered :
    (p : ℕ) (ps : List ℕ) (g : AThreadGlobals)
    → IsRegistered g ps
    → g.initialized ≡ true
    → NotIn p ps
    → IsRegistered (a_thread_engine_create (some p) g).1 (p ∷ ps)
unfolding a_thread_engine_create
create-IsRegistered p ps g h i n =
    let here : update g.next p g.list p ≡ g.list = ground arith in
    subst
      (λ (g1 : AThreadGlobals).
        IsRegistered (record g1 { next = update g1.next p g1.list; list = some p }) (p ∷ ps))
      (sym (if_true _ _ i))
      (record {
        linked = (
          refl,
          subst (λ (o : Option ℕ). Follows (update g.next p g.list) o ps) (sym here)
              (Follows-update g.next p g.list g.list ps n h.linked),
        );
        distinct = (n, h.distinct);
      })
