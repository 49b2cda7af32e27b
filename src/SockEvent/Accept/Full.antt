-- ===== src/SockEvent/Accept/Full.antt =====
-- What the cache of accept events of src/sockunix.c holds.
use connio.Prelude.{
  ℕ, zero, suc, ◌+◌, ◌-◌, ◌≤◌, ◌<◌, ◌≡◌, ◌≢◌, refl, sym, ap, ◌∙◌, subst, inl, inr, Option, none,
  some, List, [], ◌∷◌, ◌++◌, ltb, ltb→lt, length, length-append, drop, get_elem?, get_elem?-left,
  get_elem?-right, none-ne-some, Bool-cases, tests, arith,
}
use connio.Dll.{update}
use connio.SockEvent.Accept.{
  AcceptEventCache, filled_slot, empty_slot, refill_popped, refill_new, aec_refill, flush_from,
  flush_round, aec_flush, accept_event_release,
}

-- From `next` on the fast list is full, up to its end; all else is NULL.
pub record IsCache (c : AcceptEventCache) : Type 0 where
  pub fits : c.next ≤ 5
  pub below : (i : ℕ) → i < c.next → c.fast_list i ≡ none
  pub above : (i : ℕ) → c.next ≤ i → i < 5 → c.fast_list i ≢ none
  pub ends : (i : ℕ) → 5 ≤ i → c.fast_list i ≡ none

-- How many events it holds.
abbrev pub size : AcceptEventCache → ℕ
size c = 5 - c.next + length c.safe_list

flush_round-IsCache :
    (p : ℕ) (c : AcceptEventCache) → IsCache c → c.next < 5 → IsCache (flush_round p c)
flush_round-IsCache p c h l = record {
  fits = omega (arith, l);
  below = λ i b. below_next i b;
  above = λ i a b.
      subst (λ (o : Option ℕ). o ≢ none) (sym (other i a)) (h.above i (omega (arith, a)) b);
  ends = λ i a. other i (omega (arith, a, l)) ∙ h.ends i a;
}
  where
    other : (i : ℕ) → c.next + 1 ≤ i → update c.fast_list c.next none i ≡ c.fast_list i
    other i a = ground (arith, a)

    below_next : (i : ℕ) → i < c.next + 1 → update c.fast_list c.next none i ≡ none
    below_next i b = ground (arith, b, h.below i)

abbrev Flushes : ℕ → Option ℕ → AcceptEventCache → Type 0
Flushes k o c =
    (c' : AcceptEventCache) × (flush_from k o c ≡ some c')
    × IsCache c'
    × (c'.next ≡ 5)
    × (length c'.safe_list ≡ length c.safe_list + k)

flush_slot :
    (k : ℕ) (o : Option ℕ) (c : AcceptEventCache)
    → c.fast_list c.next ≡ o
    → IsCache c
    → c.next + k ≡ 5
    → Flushes k o c
unfolding flush_from accept_event_release
flush_slot zero none c s h e = (c, refl, h, omega (arith, e), omega arith)
flush_slot (suc k) none c s h e = absurd (h.above c.next (omega arith) (omega (arith, e)) s)
flush_slot zero (some p) c s h e = absurd (none-ne-some (h.ends c.next (omega (arith, e))) s)
flush_slot (suc k) (some p) c s h e =
    let (c', f, i, n, l) =
      flush_slot k ((flush_round p c).fast_list (flush_round p c).next) (flush_round p c) refl
        (flush_round-IsCache p c h (omega (arith, e))) (omega (arith, e)) in
    (c', f, i, n, l ∙ omega (arith, length-append {0} c.safe_list (p ∷ [])))

-- AECFlush ends, after as many rounds as there are events in the fast list, which is empty then, and
-- as many events are in the safe list as there were in both.
pub aec_flush-IsCache :
    (c : AcceptEventCache)
    → IsCache c
    → (c' : AcceptEventCache) × (aec_flush (5 - c.next) c ≡ some c')
      × IsCache c'
      × (c'.next ≡ 5)
      × (length c'.safe_list ≡ size c)
unfolding aec_flush
aec_flush-IsCache c h =
    let (c', f, i, n, l) =
      flush_slot (5 - c.next) (c.fast_list c.next) c refl h (omega (arith, h.fits)) in
    (c', f, i, n, omega (arith, l))

filled_slot-IsCache :
    (n p : ℕ) (c : AcceptEventCache) → IsCache c → c.next ≡ suc n → IsCache (filled_slot n p c)
unfolding filled_slot
filled_slot-IsCache n p c h e = record {
  fits = omega (arith, e, h.fits);
  below = λ i b. ground (arith, b, e, h.below i);
  above = λ i a b. ground (arith, a, b, e, h.above i);
  ends = λ i a. ground (arith, a, e, h.fits, h.ends i);
}

empty_slot-IsCache :
    (n : ℕ) (c : AcceptEventCache) → IsCache c → c.next ≡ suc n → IsCache (empty_slot n c)
unfolding empty_slot
empty_slot-IsCache n c h e = record {
  fits = omega (arith, e, h.fits);
  below = λ i b. ground (arith, b, e, h.below i);
  above = λ i a b. ground (arith, a, b, e, h.above i);
  ends = λ i a. ground (arith, a, e, h.fits, h.ends i);
}

empty_slot-list : (n : ℕ) (c : AcceptEventCache) → (empty_slot n c).safe_list ≡ c.safe_list
unfolding empty_slot
empty_slot-list n c = refl

filled_slot-list : (n p : ℕ) (c : AcceptEventCache) → (filled_slot n p c).safe_list ≡ c.safe_list
unfolding filled_slot
filled_slot-list n p c = refl

relisted-IsCache :
    (ps : List ℕ) (c : AcceptEventCache) → IsCache c → IsCache (record c { safe_list = ps })
relisted-IsCache ps c h = record { fits = h.fits; below = h.below; above = h.above; ends = h.ends }

-- `d` is `c` with the events of `ps` in the places below `n`, the first one in the highest place, and
-- NULL in the places for which there are no events.
abbrev pub Fills : ℕ → List ℕ → AcceptEventCache → AcceptEventCache → Type 0
Fills n ps c d =
    ((i : ℕ) → i < n → d.fast_list (n - 1 - i) ≡ get_elem? ps i)
    × ((i : ℕ) → n ≤ i → d.fast_list i ≡ c.fast_list i)

-- One place more is filled, the highest one.
Fills-suc :
    (n p : ℕ) (ps : List ℕ) (c d : AcceptEventCache)
    → Fills n ps (filled_slot n p c) d
    → Fills (suc n) (p ∷ ps) c d
unfolding filled_slot
Fills-suc n p ps c d (inside, outside) =
    (places, λ i a. outside i (omega (arith, a)) ∙ ground (arith, a))
  where
    places : (i : ℕ) → i < suc n → d.fast_list (suc n - 1 - i) ≡ get_elem? (p ∷ ps) i
    places zero b = ap d.fast_list (omega arith) ∙ outside n (omega arith) ∙ ground arith
    places (suc i) b = ap d.fast_list (omega arith) ∙ inside i (omega (arith, b))

Fills-none :
    (n : ℕ) (c : AcceptEventCache)
    → IsCache c
    → c.next ≡ suc n
    → Fills (suc n) [] c (empty_slot n c)
unfolding empty_slot
Fills-none n c h e = (
  λ i b. ground (arith, b, e, h.below (suc n - 1 - i) (omega (arith, b, e))),
  λ i a. ground (arith, a),
)

refill_popped-lem :
    (n : ℕ) (ps : List ℕ) (c : AcceptEventCache)
    → IsCache c
    → c.next ≡ n
    → IsCache (refill_popped n ps c)
      × ((refill_popped n ps c).next ≡ n - length ps)
      × ((refill_popped n ps c).safe_list ≡ drop n ps)
      × Fills n ps c (refill_popped n ps c)
unfolding refill_popped
refill_popped-lem zero ps c h e = (
  relisted-IsCache ps c h,
  omega (arith, e),
  refl,
  (λ i b. absurd (omega (arith, b)), λ i a. refl),
)
refill_popped-lem (suc n) [] c h e =
    let d = record c { safe_list = [] } in
    let k = relisted-IsCache [] c h in
    (empty_slot-IsCache n d k e, omega arith, empty_slot-list n d, Fills-none n d k e)
refill_popped-lem (suc n) (p ∷ ps) c h e =
    let (i, x, l, f) =
      refill_popped-lem n ps (filled_slot n p c) (filled_slot-IsCache n p c h e) refl in
    (i, omega (arith, x), l, Fills-suc n p ps c (refill_popped n ps (filled_slot n p c)) f)

refill_new-lem :
    (n : ℕ) (ps : List ℕ) (c : AcceptEventCache)
    → IsCache c
    → c.next ≡ n
    → IsCache (refill_new n ps c)
      × ((refill_new n ps c).next ≡ n - length ps)
      × ((refill_new n ps c).safe_list ≡ c.safe_list)
      × Fills n ps c (refill_new n ps c)
unfolding refill_new
refill_new-lem zero ps c h e =
    (h, omega (arith, e), refl, (λ i b. absurd (omega (arith, b)), λ i a. refl))
refill_new-lem (suc n) [] c h e =
    (empty_slot-IsCache n c h e, omega arith, empty_slot-list n c, Fills-none n c h e)
refill_new-lem (suc n) (p ∷ ps) c h e =
    let (i, x, l, f) =
      refill_new-lem n ps (filled_slot n p c) (filled_slot-IsCache n p c h e) refl in
    (
      i,
      omega (arith, x),
      l ∙ filled_slot-list n p c,
      Fills-suc n p ps c (refill_new n ps (filled_slot n p c)) f,
    )

-- The events of two refills, the second of which begins where the first one ended.
Fills-append :
    (n m : ℕ) (ps qs : List ℕ) (c d e : AcceptEventCache)
    → m ≡ n - length ps
    → Fills n ps c d
    → Fills m qs d e
    → Fills n (ps ++ qs) c e
Fills-append n m ps qs c d e k (f, f') (g, g') =
    (places, λ i a. g' i (omega (arith, k, a)) ∙ f' i a)
  where
    places : (i : ℕ) → i < n → e.fast_list (n - 1 - i) ≡ get_elem? (ps ++ qs) i
    places i b = elim (Bool-cases (ltb i (length ps))) [
      | inl l ↦
          let below : i < length ps = ltb→lt i (length ps) l in
          g' (n - 1 - i) (omega (arith, k, b, below)) ∙ f i b ∙ sym (get_elem?-left ps qs i below)
      | inr l ↦
          let above : length ps ≤ i = grind (tests, l) in
          let r = i - length ps in
          ap e.fast_list (omega (arith, k, above, b))
          ∙ g r (omega (arith, k, above, b))
          ∙ sym (get_elem?-right ps qs r)
          ∙ ap (λ j. get_elem? (ps ++ qs) j) (omega (arith, above))
    ]

-- AECRefill fills the empty places of the fast list from its end to its start, first with the events
-- of the safe list in their order and then with new ones in theirs. The other places keep their
-- events, the places for which there are no events have NULL, and the events of the safe list that
-- find no place stay in it. The fast list is full from `next` on and empty below, before and
-- afterwards.
pub aec_refill-IsCache :
    (malloced : List ℕ) (c : AcceptEventCache)
    → IsCache c
    → IsCache (aec_refill malloced c)
      × ((aec_refill malloced c).next ≡ c.next - (length c.safe_list + length malloced))
      × ((aec_refill malloced c).safe_list ≡ drop c.next c.safe_list)
      × Fills c.next (c.safe_list ++ malloced) c (aec_refill malloced c)
unfolding aec_refill
aec_refill-IsCache malloced c h =
    let c1 = refill_popped c.next c.safe_list c in
    let (i, x, l, f) = refill_popped-lem c.next c.safe_list c h refl in
    let (j, y, m, g) = refill_new-lem c1.next malloced c1 i refl in
    (
      j,
      omega (arith, x, y),
      m ∙ l,
      Fills-append c.next c1.next c.safe_list malloced c c1 (refill_new c1.next malloced c1) x f g,
    )
