-- ===== src/Listener/Rules/Followed.antt =====
-- That the loops over the listeners in src/connio.c follow their rules.
use connio.Prelude.{
  ℕ, ◌≡◌, refl, sym, subst, ◌∙◌, inl, inr, Bool, true, false, Option, none, some, List, [], ◌∷◌,
  if_true, if_false, Bool-cases, arith, All,
}
use connio.Listener.{
  Listeners, ListenerState, Request, note, ask, passed_over, unwanted, stop_takes, stop_change,
  suspend_takes, suspend_change, resume_takes, resume_change, expire_takes, expire_change, shutdown,
  suspend, resume, conn_a_stop_listener_ex, conn_a_suspend_listener_ex, conn_a_resume_listener_ex,
  conn_a_expire_listener_ex,
}
use connio.Listener.Passes.{HasListeners, Passed, taken, changed, asks, loops-Passed}
use connio.Listener.Rules.{
  Loop, stops, suspends, resumes, expires, meets-Shares, Shares-meets, IsMeant, named, unnamed,
  Turns, stopping, suspending, resuming, expiring, not_meant, not_wanted, not_active, not_suspended,
  was_expired, asks_of, Walks, at_end, counts, skips, Follows,
}

meant :
    (listener : Option ℕ) (s : ListenerState) (p : ℕ)
    → passed_over listener s p ≡ false
    → IsMeant listener p s
meant none s p e = unnamed refl e
meant (some q) s p e = named (ground (arith, e))

missed :
    (listener : Option ℕ) (s : ListenerState) (p : ℕ)
    → passed_over listener s p ≡ true
    → IsMeant listener p s
    → ⊥
missed none s p e (named q) = ground (arith, e, q)
missed none s p e (unnamed q i) = ground (arith, e, i)
missed (some q) s p e (named h) = ground (arith, e, h)
missed (some q) s p e (unnamed h i) = ground (arith, h)

module _ (which : Option ListenerState) (listener : Option ℕ) (l : Loop)
    (takes : ListenerState → ℕ → Bool) (change : ListenerState → ListenerState)
    (request : ℕ → Option Request)
    (taking : (s : ListenerState) (p : ℕ)
      → takes s p ≡ true
      → Turns which listener p l s (change s) true)
    (leaving : (s : ListenerState) (p : ℕ) → takes s p ≡ false → Turns which listener p l s s false)
    (asking : (c : Option ℕ) (rs : List Request) → note (ask c request) rs ≡ asks_of l c rs) where
  walk :
      (t d : Listeners) (ps : List ℕ) (rs : List Request)
      → All (λ p. d.state p ≡ changed takes change t.state p) ps
      → Walks which listener l t d ps
          (taken takes t.state ps)
          rs
          (asks takes change request t.state t.conn rs ps)
  unfolding taken asks
  walk t d [] rs h = at_end rs
  walk t d (p ∷ ps) rs h = elim (Bool-cases (takes (t.state p) p)) [
    | inl e ↦
        let more = note (ask (t.conn p) request) rs in
        rw e (
          counts p ps (taken takes t.state ps) rs (asks takes change request t.state t.conn more ps)
            (subst (λ x. Turns which listener p l (t.state p) x true) (sym (h.0 ∙ if_true _ _ e))
              (taking (t.state p) p e))
            (subst
              (λ qs.
                Walks which listener l t d ps (taken takes t.state ps) qs
                  (asks takes change request t.state t.conn more ps))
              (asking (t.conn p) rs) (walk t d ps more h.1)))
    | inr e ↦ rw e (
        skips p ps (taken takes t.state ps) rs (asks takes change request t.state t.conn rs ps)
          (subst (λ x. Turns which listener p l (t.state p) x false) (sym (h.0 ∙ if_false _ _ e))
            (leaving (t.state p) p e))
          (walk t d ps rs h.1))
  ]

  followed :
      (t : Listeners) (ps : List ℕ) (n : ℕ) (d : Listeners)
      → Passed takes change request t ps (n, d)
      → Follows which listener l t ps n d
  followed t ps n d h = record {
    walks =
        subst (λ k. Walks which listener l t d ps k t.asked d.asked) (sym h.count)
          (subst (λ rs. Walks which listener l t d ps (taken takes t.state ps) t.asked rs)
            (sym h.asked) (walk t d ps t.asked h.inside));
    links = h.links;
    ends = h.ends;
    outside = h.outside;
  }

module _ (listener : Option ℕ) where
  stop-taking :
      (which : Option ListenerState) (s : ListenerState) (p : ℕ)
      → stop_takes which listener s p ≡ true
      → Turns which listener p stops s (stop_change s) true
  stop-taking none s p e = stopping s (meant listener s p (ground (arith, e))) (inl refl)
  stop-taking (some w) s p e =
      stopping s (meant listener s p (ground (arith, e)))
        (inr (w, refl, meets-Shares s w (ground (arith, e))))

  stop-leaving :
      (which : Option ListenerState) (s : ListenerState) (p : ℕ)
      → stop_takes which listener s p ≡ false
      → Turns which listener p stops s s false
  stop-leaving which s p e = elim (Bool-cases (passed_over listener s p)) [
    | inl h ↦ not_meant stops s (missed listener s p h)
    | inr h ↦ unwanted-Turns which s p (ground (arith, e, h))
  ]
    where
      unwanted-Turns :
          (which : Option ListenerState) (s : ListenerState) (p : ℕ)
          → unwanted which s ≡ true
          → Turns which listener p stops s s false
      unwanted-Turns none s p e = absurd (ground (arith, e))
      unwanted-Turns (some w) s p e = not_wanted s w refl (Shares-meets s w (ground (arith, e)))

  suspend-leaving :
      (s : ListenerState) (p : ℕ)
      → suspend_takes listener s p ≡ false
      → Turns none listener p suspends s s false
  suspend-leaving s p e = elim (Bool-cases (passed_over listener s p)) [
    | inl h ↦ not_meant suspends s (missed listener s p h)
    | inr h ↦ not_active s (ground (arith, e, h))
  ]

  resume-leaving :
      (s : ListenerState) (p : ℕ)
      → resume_takes listener s p ≡ false
      → Turns none listener p resumes s s false
  resume-leaving s p e = elim (Bool-cases (passed_over listener s p)) [
    | inl h ↦ not_meant resumes s (missed listener s p h)
    | inr h ↦ not_suspended s (ground (arith, e, h))
  ]

  expire-leaving :
      (s : ListenerState) (p : ℕ)
      → expire_takes listener s p ≡ false
      → Turns none listener p expires s s false
  expire-leaving s p e = elim (Bool-cases (passed_over listener s p)) [
    | inl h ↦ not_meant expires s (missed listener s p h)
    | inr h ↦ was_expired s (ground (arith, e, h))
  ]

asked_stop :
    (c : Option ℕ) (rs : List Request)
    → note (ask c (λ c. some (shutdown c))) rs ≡ asks_of stops c rs
unfolding note ask
asked_stop none rs = refl
asked_stop (some c) rs = refl

asked_suspend :
    (c : Option ℕ) (rs : List Request)
    → note (ask c (λ c. some (suspend c))) rs ≡ asks_of suspends c rs
unfolding note ask
asked_suspend none rs = refl
asked_suspend (some c) rs = refl

asked_resume :
    (c : Option ℕ) (rs : List Request)
    → note (ask c (λ c. some (resume c))) rs ≡ asks_of resumes c rs
unfolding note ask
asked_resume none rs = refl
asked_resume (some c) rs = refl

asked_expire :
    (c : Option ℕ) (rs : List Request) → note (ask c (λ c. none)) rs ≡ asks_of expires c rs
unfolding note ask
asked_expire none rs = refl
asked_expire (some c) rs = refl

-- With a handle for asynchronous use, each of the loops that stop, suspend, resume and expire
-- listeners goes over the list in its order. It takes the listener that the call names, or all that
-- are not independent if it names none: to stop those that have one of the bits asked for, or any if
-- no bits are asked for, to suspend the active ones, to resume the suspended ones, and to expire those
-- that have not expired. It gives these the bit for their new state; a listener that expires keeps its
-- other bits, and any other one that for independent alone. It asks the connection of each, if there
-- is one, to shut down, to suspend or to resume, but nothing of those that expire. It returns how many
-- it took, and leaves the state of the others and the list.
pub loops-Follows :
    (t : Listeners) (ps : List ℕ) (which : Option ListenerState) (listener : Option ℕ)
    → HasListeners t ps
    → t.async_enabled ≡ true
    → let (r1, d1) = conn_a_stop_listener_ex true which listener t in
      let (r2, d2) = conn_a_suspend_listener_ex true listener t in
      let (r3, d3) = conn_a_resume_listener_ex true listener t in
      let (r4, d4) = conn_a_expire_listener_ex true which listener t in
      ((r1.1 ≡ 0) × Follows which listener stops t ps r1.0 d1)
      × ((r2.1 ≡ 0) × Follows none listener suspends t ps r2.0 d2)
      × ((r3.1 ≡ 0) × Follows none listener resumes t ps r3.0 d3)
      × ((r4.1 ≡ 0) × Follows none listener expires t ps r4.0 d4)
loops-Follows t ps which listener h on =
    let (s1, d1) = conn_a_stop_listener_ex true which listener t in
    let (s2, d2) = conn_a_suspend_listener_ex true listener t in
    let (s3, d3) = conn_a_resume_listener_ex true listener t in
    let (s4, d4) = conn_a_expire_listener_ex true which listener t in
    let ((e1, p1), (e2, p2), (e3, p3), (e4, p4)) = loops-Passed t ps which listener h on in
    (
      (
        e1,
        followed which listener stops (stop_takes which listener) stop_change
            (λ c. some (shutdown c)) (stop-taking listener which) (stop-leaving listener which)
            asked_stop t ps s1.0 d1 p1,
      ),
      (
        e2,
        followed none listener suspends (suspend_takes listener) suspend_change
            (λ c. some (suspend c))
            (λ s p e. suspending s (meant listener s p (ground (arith, e))) (ground (arith, e)))
            (suspend-leaving listener) asked_suspend t ps s2.0 d2 p2,
      ),
      (
        e3,
        followed none listener resumes (resume_takes listener) resume_change (λ c. some (resume c))
            (λ s p e. resuming s (meant listener s p (ground (arith, e))) (ground (arith, e)))
            (resume-leaving listener) asked_resume t ps s3.0 d3 p3,
      ),
      (
        e4,
        followed none listener expires (expire_takes listener) expire_change (λ c. none)
            (λ s p e. expiring s (meant listener s p (ground (arith, e))) (ground (arith, e)))
            (expire-leaving listener) asked_expire t ps s4.0 d4 p4,
      ),
    )
