-- ===== src/Listener/Passes.antt =====
-- What a loop over the listeners of src/connio.c does to each of them.
use connio.Prelude.{
  ℕ, zero, suc, ◌+◌, ◌%◌, ◌<◌, ◌≤◌, ◌≡◌, ◌≢◌, refl, sym, ap, subst, ◌∙◌, inl, inr, int_mod, Bool,
  true, false, Option, none, some, List, [], ◌∷◌, ◌==◌, if◌then◌else◌, arith, Bool-cases, All,
  NotIn, Distinct, length, first_or,
}
use connio.Dll.Chain.{Linked, Holds}
use connio.Listener.{
  Listeners, ListenerState, Request, pass, note, ask, visit, over, refused, stop_takes, stop_change,
  suspend_takes, suspend_change, resume_takes, resume_change, expire_takes, expire_change, shutdown,
  suspend, resume, conn_a_stop_listener_ex, conn_a_suspend_listener_ex, conn_a_resume_listener_ex,
  conn_a_expire_listener_ex,
}

-- The handle has the listeners `ps`, none of which was added without being counted.
pub record HasListeners (t : Listeners) (ps : List ℕ) : Type 0 where
  pub holds : Holds t.ends t.links ps
  pub counted : length ps ≤ t.last
  pub fits : t.last < int_mod

-- How many of the listeners a loop takes.
unfoldable pub taken : (ListenerState → ℕ → Bool) → (ℕ → ListenerState) → List ℕ → ℕ
taken takes s [] = 0
taken takes s (p ∷ ps) = let rest = taken takes s ps in if takes (s p) p then suc rest else rest

-- The state that a loop leaves a listener in.
abbrev pub changed :
    (ListenerState → ℕ → Bool)
    → (ListenerState → ListenerState)
    → (ℕ → ListenerState)
    → ℕ
    → ListenerState
changed takes change s p = if takes (s p) p then change (s p) else s p

count-step :
    (b : Bool) (n k : ℕ)
    → n ≡ k
    → suc k < int_mod
    → (if b then (n + 1) % int_mod else n) ≡ (if b then suc k else k)
count-step true n k e small = omega (arith, e, small)
count-step false n k e small = e

module _ (takes : ListenerState → ℕ → Bool) (change : ListenerState → ListenerState)
    (request : ℕ → Option Request) where
  -- What a loop has asked of connections in the end, `asked` being what was asked before.
  unfoldable pub asks : (ℕ → ListenerState) → (ℕ → Option ℕ) → List Request → List ℕ → List Request
  unfolding note ask
  asks s conn asked [] = asked
  asks s conn asked (p ∷ ps) =
      asks s conn (if takes (s p) p then note (ask (conn p) request) asked else asked) ps

  abbrev step : Listeners → ℕ → Listeners
  step t p = if takes (t.state p) p then visit change request t p else t

  step-lem :
      (t : Listeners) (p : ℕ)
      → ((step t p).links ≡ t.links)
        × ((step t p).ends ≡ t.ends)
        × ((step t p).conn ≡ t.conn)
        × ((step t p).asked
            ≡ (if takes (t.state p) p then note (ask (t.conn p) request) t.asked else t.asked))
        × ((step t p).last ≡ t.last)
        × ((step t p).async_enabled ≡ t.async_enabled)
        × ((step t p).state p ≡ changed takes change t.state p)
  unfolding visit
  step-lem t p = elim (Bool-cases (takes (t.state p) p)) [
    | inl e ↦ rw e (refl, refl, refl, refl, refl, refl, ground arith)
    | inr e ↦ rw e (refl, refl, refl, refl, refl, refl, refl)
  ]

  step-other : (t : Listeners) (p q : ℕ) → q ≢ p → (step t p).state q ≡ t.state q
  unfolding visit
  step-other t p q n = elim (Bool-cases (takes (t.state p) p)) [
    | inl e ↦ rw e (ground (arith, n))
    | inr e ↦ rw e refl
  ]

  -- What a loop over `ps` leaves of `t`.
  pub record Passed (t : Listeners) (ps : List ℕ) (r : ℕ × Listeners) : Type 0 where
    pub count : r.0 ≡ taken takes t.state ps
    pub links : r.1.links ≡ t.links
    pub ends : r.1.ends ≡ t.ends
    pub asked : r.1.asked ≡ asks t.state t.conn t.asked ps
    pub last : r.1.last ≡ t.last
    pub enabled : r.1.async_enabled ≡ t.async_enabled
    pub inside : All (λ p. r.1.state p ≡ changed takes change t.state p) ps
    pub outside : (q : ℕ) → NotIn q ps → r.1.state q ≡ t.state q

  taken-same :
      (s u : ℕ → ListenerState) (ps : List ℕ)
      → All (λ q. u q ≡ s q) ps
      → taken takes u ps ≡ taken takes s ps
  unfolding taken
  taken-same s u [] h = refl
  taken-same s u (p ∷ ps) h = rw h.0 (rw (taken-same s u ps h.1) refl)

  asks-same :
      (s u : ℕ → ListenerState) (conn : ℕ → Option ℕ) (asked : List Request) (ps : List ℕ)
      → All (λ q. u q ≡ s q) ps
      → asks u conn asked ps ≡ asks s conn asked ps
  unfolding asks
  asks-same s u conn asked [] h = refl
  asks-same s u conn asked (p ∷ ps) h = rw h.0 (
      asks-same s u conn (if takes (s p) p then note (ask (conn p) request) asked else asked) ps
        h.1)

  inside-same :
      (s u d : ℕ → ListenerState) (ps : List ℕ)
      → All (λ q. u q ≡ s q) ps
      → All (λ q. d q ≡ changed takes change u q) ps
      → All (λ q. d q ≡ changed takes change s q) ps
  inside-same s u d [] h k = tt
  inside-same s u d (p ∷ ps) h k =
      (k.0 ∙ ap (λ x. if takes x p then change x else x) h.0, inside-same s u d ps h.1 k.1)

  step-rest :
      (t : Listeners) (p : ℕ) (ps : List ℕ)
      → NotIn p ps
      → All (λ q. (step t p).state q ≡ t.state q) ps
  step-rest t p [] n = tt
  step-rest t p (q ∷ ps) n = (step-other t p q (λ e. n.0 (sym e)), step-rest t p ps n.1)

  taken-bound : (s : ℕ → ListenerState) (ps : List ℕ) → taken takes s ps ≤ length ps
  unfolding taken
  taken-bound s [] = omega arith
  taken-bound s (p ∷ ps) = let rest = taken-bound s ps in ground (arith, rest)

  pass-step :
      (fuel : ℕ) (t : Listeners) (p : ℕ)
      → pass takes change request (suc fuel) t (some p) ≡ (
          let rest = pass takes change request fuel (step t p) (t.links.next p) in
          (if takes (t.state p) p then (rest.0 + 1) % int_mod else rest.0, rest.1))
  unfolding pass
  pass-step fuel t p = refl

  pass-Passed :
      (fuel : ℕ) (t : Listeners) (o : Option ℕ) (ps : List ℕ)
      → Linked t.links o ps
      → Distinct ps
      → length ps ≤ fuel
      → fuel < int_mod
      → Passed t ps (pass takes change request fuel t (first_or none ps))
  unfolding pass taken asks
  pass-Passed zero t o [] l d le fits = record {
    count = refl;
    links = refl;
    ends = refl;
    asked = refl;
    last = refl;
    enabled = refl;
    inside = tt;
    outside = λ q n. refl;
  }
  pass-Passed (suc fuel) t o [] l d le fits = record {
    count = refl;
    links = refl;
    ends = refl;
    asked = refl;
    last = refl;
    enabled = refl;
    inside = tt;
    outside = λ q n. refl;
  }
  pass-Passed zero t o (p ∷ ps) l d le fits = let no : ⊥ = omega (arith, le) in elim no [ ]
  pass-Passed (suc fuel) t o (p ∷ ps) l d le fits =
      let u = step t p in
      let (slinks, sends, sconn, sasked, slast, senabled, sstate) = step-lem t p in
      let same = step-rest t p ps d.0 in
      let rest =
        pass-Passed fuel u (some p) ps (subst (λ m. Linked m (some p) ps) (sym slinks) l.2) d.1
          (omega (arith, le)) (omega (arith, fits)) in
      let next = pass takes change request fuel u (first_or none ps) in
      subst (λ r. Passed t (p ∷ ps) r)
        (sym (
          pass-step fuel t p
          ∙ ap
              (λ n.
                (let rest = pass takes change request fuel u n in
                  (if takes (t.state p) p then (rest.0 + 1) % int_mod else rest.0, rest.1)))
              l.1))
        (record {
          count =
              count-step (takes (t.state p) p) next.0 (taken takes t.state ps)
                (rest.count ∙ taken-same t.state u.state ps same)
                (omega (arith, taken-bound t.state ps, le, fits));
          links = rest.links ∙ slinks;
          ends = rest.ends ∙ sends;
          asked =
              rest.asked
              ∙ asks-same t.state u.state u.conn u.asked ps same
              ∙ ap (λ x. asks t.state x u.asked ps) sconn
              ∙ ap (λ x. asks t.state t.conn x ps) sasked;
          last = rest.last ∙ slast;
          enabled = rest.enabled ∙ senabled;
          inside = (
            rest.outside p d.0 ∙ sstate,
            inside-same t.state u.state next.1.state ps same rest.inside,
          );
          outside = λ q n. rest.outside q n.1 ∙ step-other t p q n.0;
        })

  accepted :
      (t : Listeners) (listener : Option ℕ) → t.async_enabled ≡ true → refused true listener t ≡ 0
  accepted t none e = ground (arith, e)
  accepted t (some l) e = ground (arith, e)

  over-runs :
      (t : Listeners) (listener : Option ℕ)
      → t.async_enabled ≡ true
      → over takes change request true listener t
        ≡ (let (c, d) = pass takes change request t.last t t.ends.head in ((c, 0), d))
  unfolding over
  over-runs t listener e =
      ap
        (λ err.
          (let (c, d) = pass takes change request t.last t t.ends.head in
            if err == 0 then ((c, 0), d) else ((0, err), t)))
        (accepted t listener e)

  over-Passed :
      (t : Listeners) (ps : List ℕ) (listener : Option ℕ)
      → HasListeners t ps
      → t.async_enabled ≡ true
      → let (r, d) = over takes change request true listener t in (r.1 ≡ 0) × Passed t ps (r.0, d)
  over-Passed t ps listener h e =
      let done = pass-Passed t.last t none ps h.holds.linked h.holds.distinct h.counted h.fits in
      subst (λ r. (r.0.1 ≡ 0) × Passed t ps (r.0.0, r.1)) (sym (over-runs t listener e))
        (
          refl,
          subst (λ n. Passed t ps (pass takes change request t.last t n)) (sym h.holds.head_first)
              done,
        )

-- With a handle for asynchronous use, each of the four loops takes exactly the listeners that it
-- selects, gives them their new state, asks what it has to of their connections, leaves the state of
-- the others and the list, and returns how many it took.
pub loops-Passed :
    (t : Listeners) (ps : List ℕ) (which : Option ListenerState) (listener : Option ℕ)
    → HasListeners t ps
    → t.async_enabled ≡ true
    → let (r1, d1) = conn_a_stop_listener_ex true which listener t in
      let (r2, d2) = conn_a_suspend_listener_ex true listener t in
      let (r3, d3) = conn_a_resume_listener_ex true listener t in
      let (r4, d4) = conn_a_expire_listener_ex true which listener t in
      ((r1.1 ≡ 0)
        × Passed (stop_takes which listener) stop_change (λ c. some (shutdown c)) t ps (r1.0, d1))
      × ((r2.1 ≡ 0)
          × Passed (suspend_takes listener) suspend_change (λ c. some (suspend c)) t ps (r2.0, d2))
      × ((r3.1 ≡ 0)
          × Passed (resume_takes listener) resume_change (λ c. some (resume c)) t ps (r3.0, d3))
      × ((r4.1 ≡ 0) × Passed (expire_takes listener) expire_change (λ c. none) t ps (r4.0, d4))
unfolding conn_a_stop_listener_ex conn_a_suspend_listener_ex conn_a_resume_listener_ex
    conn_a_expire_listener_ex
loops-Passed t ps which listener h e = (
  over-Passed (stop_takes which listener) stop_change (λ c. some (shutdown c)) t ps listener h e,
  over-Passed (suspend_takes listener) suspend_change (λ c. some (suspend c)) t ps listener h e,
  over-Passed (resume_takes listener) resume_change (λ c. some (resume c)) t ps listener h e,
  over-Passed (expire_takes listener) expire_change (λ c. none) t ps listener h e,
)
