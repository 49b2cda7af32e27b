-- ===== src/Throttle/Spin.antt =====
-- How long a paused listener of src/throttle.c waits.
use connio.Prelude.{
  ℕ, suc, ◌+◌, ◌/◌, ◌%◌, ◌^◌, ◌<◌, ◌≤◌, ◌≡◌, ◌≢◌, ◌⊎◌, refl, ap, sym, subst, ==_iff, ◌==◌,
  append_assoc, ◌∙◌, Bool, true, false, List, [], ◌∷◌, ◌++◌, arith, All, length, length-append,
  if◌then◌else◌,
}
use connio.Throttle.{
  AsyncListener, Turn, SpinEnd, shut_down, stopped, spinning, spin, Call, call, throttling_stopped,
  next_loop, update_calls, listener_spin_while_throttling,
}

-- The turn finds the listener alive, and suspended or over its threshold.
abbrev pub Waits : AsyncListener → Turn → Type 0
Waits l t =
    (t.flags.killed ≡ false) × ((t.flags.suspended ≡ true) ⊎ (l.throttling_threshold < t.reading))

abbrev pub end_of : AsyncListener → Turn → SpinEnd
end_of l t = if t.flags.killed then shut_down else stopped

abbrev pub end_calls : AsyncListener → Turn → List Call
end_calls l t =
    if t.flags.killed
    then []
    else if l.has_callback
    then call l throttling_stopped t.reading ∷ []
    else []

-- The turn ends the loop.
abbrev pub Ends : AsyncListener → Turn → Type 0
Ends l t =
    (t.flags.killed ≡ true) ⊎ ((t.flags.suspended ≡ false) × (t.reading ≤ l.throttling_threshold))

turn-Waits :
    (l : AsyncListener) (n : ℕ) (t : Turn) (ts : List Turn)
    → Waits l t
    → spin l n (t ∷ ts) ≡ (
      (spin l (next_loop n) ts).0,
      update_calls l (next_loop n) t.reading ++ (spin l (next_loop n) ts).1,
    )
unfolding spin
turn-Waits l n t ts h = ground arith

turn-Ends :
    (l : AsyncListener) (n : ℕ) (t : Turn) (ts : List Turn)
    → Ends l t
    → spin l n (t ∷ ts) ≡ (end_of l t, end_calls l t)
unfolding spin
turn-Ends l n t ts h = ground arith

spin-Waits :
    (l : AsyncListener) (n : ℕ) (ts : List Turn) → All (Waits l) ts → (spin l n ts).0 ≡ spinning
unfolding spin
spin-Waits l n [] h = refl
spin-Waits l n (t ∷ ts) h =
    ap (λ r. r.0) (turn-Waits l n t ts h.0) ∙ spin-Waits l (next_loop n) ts h.1

spin-Ends :
    (l : AsyncListener) (n : ℕ) (ts : List Turn) (t : Turn) (us : List Turn)
    → All (Waits l) ts
    → Ends l t
    → spin l n (ts ++ t ∷ us) ≡ (end_of l t, (spin l n ts).1 ++ end_calls l t)
unfolding spin
spin-Ends l n [] t us h e = turn-Ends l n t us e
spin-Ends l n (s ∷ ts) t us h e =
    let out = update_calls l (next_loop n) s.reading in
    turn-Waits l n s (ts ++ t ∷ us) h.0
    ∙ ap (λ r. (r.0, out ++ r.1)) (spin-Ends l (next_loop n) ts t us h.1 e)
    ∙ ap (λ x. (end_of l t, x))
        (sym (append_assoc out (spin l (next_loop n) ts).1 (end_calls l t))
          ∙ ap (λ r. r.1 ++ end_calls l t) (sym (turn-Waits l n s ts h.0)))

-- One update for every sixteenth turn.
next-sixteenth :
    (n : ℕ) (b : Bool) → ((suc n % 16) == 0) ≡ b → (if b then 1 else 0) + n / 16 ≡ suc n / 16
next-sixteenth n true h = omega (arith, (==_iff (suc n % 16) 0).0 h)
next-sixteenth n false h =
    let apart : suc n % 16 ≢ 0 = λ e. ground (arith, h, e) in omega (arith, apart)

update-length :
    (l : AsyncListener) (m r : ℕ)
    → l.has_callback ≡ true
    → length (update_calls l m r) ≡ (if (m % 16) == 0 then 1 else 0)
unfolding update_calls
update-length l m r c = ground arith

update-count :
    (l : AsyncListener) (n r : ℕ)
    → l.has_callback ≡ true
    → suc n < 2 ^ 64
    → length (update_calls l (next_loop n) r) + n / 16 ≡ suc n / 16
update-count l n r c fits =
    let e : next_loop n ≡ suc n = omega (arith, fits) in
    subst (λ m. length (update_calls l m r) + n / 16 ≡ suc n / 16) (sym e)
      (ap (λ k. k + n / 16) (update-length l (suc n) r c)
        ∙ next-sixteenth n ((suc n % 16) == 0) refl)

spin-count :
    (l : AsyncListener) (n : ℕ) (ts : List Turn)
    → l.has_callback ≡ true
    → n + length ts < 2 ^ 64
    → All (Waits l) ts
    → length (spin l n ts).1 + n / 16 ≡ (n + length ts) / 16
unfolding spin
spin-count l n [] c fits h = omega arith
spin-count l n (t ∷ ts) c fits h =
    let out = update_calls l (next_loop n) t.reading in
    let e : next_loop n ≡ suc n = omega (arith, fits) in
    let first = update-count l n t.reading c (omega (arith, fits)) in
    let rest = spin-count l (next_loop n) ts c (omega (arith, e, fits)) h.1 in
    let split =
      ap (λ r. length r.1) (turn-Waits l n t ts h.0)
      ∙ length-append out (spin l (next_loop n) ts).1 in
    omega (arith, e, first, rest, split)

-- While every turn of the loop finds the listener alive, and suspended or over its threshold, the
-- loop goes on. The first other turn ends it: as shut down without a call if the listener was
-- killed, else as stopped with a call of the callback. Until then the callback is called once for
-- every sixteen turns.
pub listener_spin_while_throttling_lem :
    (l : AsyncListener) (ts : List Turn) (t : Turn) (us : List Turn)
    → l.has_callback ≡ true
    → length ts < 2 ^ 64
    → All (Waits l) ts
    → Ends l t
    → ((listener_spin_while_throttling l ts).0 ≡ spinning)
      × (length (listener_spin_while_throttling l ts).1 ≡ length ts / 16)
      × (listener_spin_while_throttling l (ts ++ t ∷ us)
          ≡ (end_of l t, (listener_spin_while_throttling l ts).1 ++ end_calls l t))
unfolding listener_spin_while_throttling
listener_spin_while_throttling_lem l ts t us c fits h e =
    let count = spin-count l 0 ts c (omega (arith, fits)) h in
    (spin-Waits l 0 ts h, omega (arith, count), spin-Ends l 0 ts t us h e)
