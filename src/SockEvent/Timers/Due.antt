-- ===== src/SockEvent/Timers/Due.antt =====
-- When the poll thread of src/sockunix.c finds a timeout.
use connio.Prelude.{
  ℕ, ◌+◌, ◌*◌, ◌/◌, ◌%◌, ◌≤◌, ◌<◌, ◌≡◌, ◌≢◌, refl, sym, ap, ◌∙◌, subst, Bool-cases, inl, inr, false,
  none, some, List, [], ◌∷◌, ◌==◌, if_true, if_false, ne_test, ne_of_test, none-ne-some, ==_iff,
  ◌⊎◌, arith,
}
use mathlib.Core.Option.{some-injective}
use connio.SockEvent.Timers.{TimerLists, timeout_index, push, add_timeout, first_sweep}

-- The clock does not go back, and the rounds are at most 32 seconds apart.
abbrev pub Steady : ℕ → List ℕ → Type 0
Steady t [] = Unit {0}
Steady t (u ∷ us) = (t ≤ u) × (u ≤ t + 32) × Steady u us

-- Some round is at `t` or later.
abbrev pub Reaches : ℕ → List ℕ → Type 0
Reaches t [] = ⊥
Reaches t (u ∷ us) = (t ≤ u) ⊎ Reaches t us

-- The event at `p` is in the list `i`, as its head.
abbrev pub IsHeadOf : ℕ → ℕ → TimerLists → Type 0
IsHeadOf i p t = (t.list_of p ≡ some i) × (t.heads i ≡ some p)

-- The head of a list after an event went into it.
push-IsHeadOf : (i p : ℕ) (t : TimerLists) → IsHeadOf i p (push i p t)
unfolding push
push-IsHeadOf i p t = (ground arith, ground arith)

add-IsHeadOf :
    (first now ms p d : ℕ) (t : TimerLists)
    → t.list_of p ≡ none
    → (now + ms / 1000 + 31) / 32 ≡ d
    → IsHeadOf (first + d % 64) p (add_timeout first now ms p t)
unfolding add_timeout timeout_index
add-IsHeadOf first now ms p d t e b =
    rw (e, add_timeout)
      (subst
        (λ (k : ℕ).
          IsHeadOf (first + k % 64) p (push (first + ((now + ms / 1000 + 31) / 32) % 64) p t))
        b (push-IsHeadOf (first + ((now + ms / 1000 + 31) / 32) % 64) p t))

sweep-same :
    (i c t : ℕ) (ts : List ℕ) → timeout_index t ≡ c → first_sweep i c (t ∷ ts) ≡ first_sweep i c ts
unfolding first_sweep
sweep-same i c t ts e = if_true _ _ ((==_iff _ _).1 e)

sweep-other :
    (i c t : ℕ) (ts : List ℕ)
    → timeout_index t ≢ c
    → timeout_index t ≢ i
    → first_sweep i c (t ∷ ts) ≡ first_sweep i (timeout_index t) ts
unfolding first_sweep
sweep-other i c t ts n m = if_false _ _ (ne_test n) ∙ if_false _ _ (ne_test m)

sweep-found :
    (i c t : ℕ) (ts : List ℕ)
    → timeout_index t ≢ c
    → timeout_index t ≡ i
    → first_sweep i c (t ∷ ts) ≡ some t
unfolding first_sweep
sweep-found i c t ts n m = if_false _ _ (ne_test n) ∙ if_true _ _ ((==_iff _ _).1 m)

later : (x t : ℕ) (ts : List ℕ) → Reaches x (t ∷ ts) → t < x → Reaches x ts
later x t ts (inl h) l = absurd (omega (arith, h, l))
later x t ts (inr h) l = h

sooner : (x y : ℕ) (ts : List ℕ) → y ≤ x → Reaches x ts → Reaches y ts
sooner x y [] l r = r
sooner x y (t ∷ ts) l (inl h) = inl (omega (arith, h, l))
sooner x y (t ∷ ts) l (inr h) = inr (sooner x y ts l h)

index_same : (t u : ℕ) → t / 32 ≡ u / 32 → timeout_index t ≡ timeout_index u
unfolding timeout_index
index_same t u e = ap (λ (b : ℕ). b % 64) e

next_block : (u t : ℕ) → ((t / 32) == (u / 32)) ≡ false → u ≤ t → t ≤ u + 32 → t / 32 ≡ u / 32 + 1
next_block u t other a b = let n : t / 32 ≢ u / 32 = ne_of_test other in omega (arith, n, a, b)

index_next : (u t : ℕ) → t / 32 ≡ u / 32 + 1 → timeout_index t ≢ timeout_index u
unfolding timeout_index
index_next u t n e = omega (arith, n, e)

index_ahead : (d t : ℕ) → t / 32 < d → d < t / 32 + 64 → timeout_index t ≢ d % 64
unfolding timeout_index
index_ahead d t lo hi e = omega (arith, lo, hi, e)

index_of : (d t : ℕ) → d ≡ t / 32 → timeout_index t ≡ d % 64
unfolding timeout_index
index_of d t e = ap (λ (b : ℕ). b % 64) (sym e)

-- The loop from a round at time `u`, with the block of 32 seconds `d` ahead.
found-in-block :
    (d u : ℕ) (ts : List ℕ)
    → u / 32 < d
    → d < u / 32 + 64
    → Steady u ts
    → Reaches (d * 32) ts
    → (t : ℕ) × (first_sweep (d % 64) (timeout_index u) ts ≡ some t) × (t / 32 ≡ d)
found-in-block d u [] lo hi st r = absurd r
found-in-block d u (t ∷ ts) lo hi st r = elim (Bool-cases ((t / 32) == (u / 32))) [
  | inl same ↦
      let e : t / 32 ≡ u / 32 = (==_iff _ _).0 same in
      let (x, f, b) =
        found-in-block d t ts (omega (arith, e, lo)) (omega (arith, e, hi)) st.2
          (later (d * 32) t ts r (omega (arith, e, lo))) in
      (
        x,
        sweep-same (d % 64) (timeout_index u) t ts (index_same t u e)
            ∙ subst (λ (c : ℕ). first_sweep (d % 64) c ts ≡ some x) (index_same t u e) f,
        b,
      )
  | inr other ↦
      let n : t / 32 ≡ u / 32 + 1 = next_block u t other st.0 st.1 in
      elim (Bool-cases (d == (t / 32))) [
        | inl here ↦
            let e : d ≡ t / 32 = (==_iff _ _).0 here in
            (
              t,
              sweep-found (d % 64) (timeout_index u) t ts (index_next u t n) (index_of d t e),
              sym e,
            )
        | inr ahead ↦
            let m : d ≢ t / 32 = ne_of_test ahead in
            let (x, f, b) =
              found-in-block d t ts (omega (arith, n, lo, m)) (omega (arith, n, hi)) st.2
                (later (d * 32) t ts r (omega (arith, n, lo, m))) in
            (
              x,
              sweep-other (d % 64) (timeout_index u) t ts (index_next u t n)
                    (index_ahead d t (omega (arith, n, lo, m)) (omega (arith, n, hi)))
                  ∙ f,
              b,
            )
      ]
]

-- When _SocketTimeoutAdd sets a timeout of `ms` milliseconds, a second at least and less than about
-- half an hour, for an event that has none, the event becomes the head of a list of the poll thread.
-- If the thread goes round at least every 32 seconds and long enough, it sweeps this list, for the
-- first time not before the whole seconds of the timeout are over and less than 63 seconds after that.
pub first_sweep_due :
    (first now ms p : ℕ) (timers : TimerLists) (ts : List ℕ)
    → timers.list_of p ≡ none
    → 1000 ≤ ms
    → ms < 1985000
    → Steady now ts
    → Reaches (now + ms / 1000 + 31) ts
    → (i : ℕ) × IsHeadOf (first + i) p (add_timeout first now ms p timers)
      × (t : ℕ) × (first_sweep i (timeout_index now) ts ≡ some t)
      × (now + ms / 1000 ≤ t)
      × (t < now + ms / 1000 + 63)
first_sweep_due first now ms p timers ts e lo hi st r =
    let d = (now + ms / 1000 + 31) / 32 in
    let (t, f, b) =
      found-in-block d now ts (omega (arith, lo)) (omega (arith, hi)) st
        (sooner (now + ms / 1000 + 31) (d * 32) ts (omega arith) r) in
    (d % 64, add-IsHeadOf first now ms p d timers e refl, t, f, omega (arith, b), omega (arith, b))

sweep-none : (i c : ℕ) → first_sweep i c [] ≡ none
unfolding first_sweep
sweep-none i c = refl

index_behind : (d t : ℕ) → d < t / 32 → t / 32 < d + 64 → timeout_index t ≢ d % 64
unfolding timeout_index
index_behind d t lo hi e = omega (arith, lo, hi, e)

index_round : (d t : ℕ) → t / 32 ≡ d + 64 → timeout_index t ≡ d % 64
unfolding timeout_index
index_round d t e = omega (arith, e)

-- The loop from a round at time `u`, with the block `d` behind or under way.
late-in-block :
    (d u : ℕ) (ts : List ℕ) (t : ℕ)
    → d ≤ u / 32
    → u / 32 < d + 64
    → Steady u ts
    → first_sweep (d % 64) (timeout_index u) ts ≡ some t
    → (d + 64) * 32 ≤ t
late-in-block d u [] t lo hi st e = absurd (none-ne-some (sweep-none (d % 64) (timeout_index u)) e)
late-in-block d u (v ∷ ts) t lo hi st e = elim (Bool-cases ((v / 32) == (u / 32))) [
  | inl same ↦
      let q : v / 32 ≡ u / 32 = (==_iff _ _).0 same in
      late-in-block d v ts t (omega (arith, q, lo)) (omega (arith, q, hi)) st.2 (
        subst (λ (c : ℕ). first_sweep (d % 64) c ts ≡ some t) (sym (index_same v u q))
          (sym (sweep-same (d % 64) (timeout_index u) v ts (index_same v u q)) ∙ e))
  | inr other ↦
      let n : v / 32 ≡ u / 32 + 1 = next_block u v other st.0 st.1 in
      elim (Bool-cases ((d + 64) == (v / 32))) [
        | inl round ↦
            let q : d + 64 ≡ v / 32 = (==_iff _ _).0 round in
            let f : v ≡ t = some-injective _ _ (
              sym (
                sweep-found (d % 64) (timeout_index u) v ts (index_next u v n)
                  (index_round d v (sym q)))
              ∙ e) in
            omega (arith, q, f)
        | inr before ↦
            let m : d + 64 ≢ v / 32 = ne_of_test before in
            late-in-block d v ts t (omega (arith, n, lo)) (omega (arith, n, hi, m)) st.2 (
              sym (
                sweep-other (d % 64) (timeout_index u) v ts (index_next u v n)
                  (index_behind d v (omega (arith, n, lo)) (omega (arith, n, hi, m))))
              ∙ e)
      ]
]

-- When _SocketTimeoutAdd sets a timeout of less than a second, at a time of which 32 is a divisor,
-- for an event that has none, the event becomes the head of the list of the present time, which the
-- thread does not sweep again at once: when it goes round at least every 32 seconds, it sweeps this
-- list 2048 seconds later at the earliest.
pub first_sweep_late :
    (first now ms p : ℕ) (timers : TimerLists) (ts : List ℕ) (t : ℕ)
    → timers.list_of p ≡ none
    → ms < 1000
    → now % 32 ≡ 0
    → Steady now ts
    → first_sweep (timeout_index now) (timeout_index now) ts ≡ some t
    → IsHeadOf (first + timeout_index now) p (add_timeout first now ms p timers) × (now + 2048 ≤ t)
unfolding timeout_index
first_sweep_late first now ms p timers ts t e small a st f = (
  add-IsHeadOf first now ms p (now / 32) timers e (omega (arith, small, a)),
  omega (arith, a, late-in-block (now / 32) now ts t (omega arith) (omega arith) st f),
)
