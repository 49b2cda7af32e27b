-- ===== src/Listener/Cycle.antt =====
-- The listeners of a handle of src/connio.c through a suspension and a resumption.
use connio.Prelude.{
  ℕ, ◌≡◌, sym, ap, subst, ◌∙◌, true, false, ◌&&◌, ◌||◌, not, Option, none, some, List, [], ◌∷◌,
  if◌then◌else◌, arith, All,
}
use connio.Errno.{econnioinit}
use connio.Dll.Chain.{Holds}
use connio.Listener.{
  Listeners, ListenerState, only, resume_change, resume_takes, suspend_change, suspend_takes,
  conn_a_stop_listener_ex, conn_a_suspend_listener_ex, conn_a_resume_listener_ex,
  conn_a_expire_listener_ex, over,
}
use connio.Listener.Passes.{HasListeners, changed, loops-Passed}

-- The state after a suspension and a resumption: a listener that is not independent and was active
-- or suspended is active and nothing else.
abbrev pub resumed : ListenerState → ListenerState
resumed s =
    if not s.independent && (s.active || s.suspended)
    then record (only false) { active = true }
    else s

cycle-state :
    (s : ℕ → ListenerState) (p : ℕ)
    → changed (resume_takes none) resume_change (changed (suspend_takes none) suspend_change s) p
      ≡ resumed (s p)
cycle-state s p = ground arith

both-passes :
    (s d e : ℕ → ListenerState) (ps : List ℕ)
    → All (λ p. d p ≡ changed (suspend_takes none) suspend_change s p) ps
    → All (λ p. e p ≡ changed (resume_takes none) resume_change d p) ps
    → All (λ p. e p ≡ resumed (s p)) ps
both-passes s d e [] h k = tt
both-passes s d e (p ∷ ps) h k = (
  k.0 ∙ ap (λ x. if resume_takes none x p then resume_change x else x) h.0 ∙ cycle-state s p,
  both-passes s d e ps h.1 k.1,
)

kept-HasListeners :
    (t d : Listeners) (ps : List ℕ)
    → d.ends ≡ t.ends
    → d.links ≡ t.links
    → d.last ≡ t.last
    → HasListeners t ps
    → HasListeners d ps
kept-HasListeners t d ps e1 e2 e3 h = record {
  holds =
      subst (λ l. Holds d.ends l ps) (sym e2) (subst (λ e. Holds e t.links ps) (sym e1) h.holds);
  counted = omega (arith, h.counted, e3);
  fits = omega (arith, h.fits, e3);
}

-- Suspending and then resuming all listeners of a handle for asynchronous use leaves active, and
-- nothing else, every listener that was active or suspended and is not independent; it changes the
-- state of no other, and not the list.
pub suspend-resume :
    (t : Listeners) (ps : List ℕ)
    → HasListeners t ps
    → t.async_enabled ≡ true
    → let d = (conn_a_suspend_listener_ex true none t).1 in
      let e = (conn_a_resume_listener_ex true none d).1 in
      All (λ p. e.state p ≡ resumed (t.state p)) ps × (e.links ≡ t.links) × (e.ends ≡ t.ends)
suspend-resume t ps h on =
    let (_, (_, first), _, _) = loops-Passed t ps none none h on in
    let d = (conn_a_suspend_listener_ex true none t).1 in
    let (_, _, (_, second), _) =
      loops-Passed d ps none none (kept-HasListeners t d ps first.ends first.links first.last h)
        (first.enabled ∙ on) in
    let e = (conn_a_resume_listener_ex true none d).1 in
    (
      both-passes t.state d.state e.state ps first.inside second.inside,
      second.links ∙ first.links,
      second.ends ∙ first.ends,
    )

-- On a handle that is not for asynchronous use, each of the four loops fails with ECONNIOINIT and
-- changes nothing.
pub loops-refused :
    (t : Listeners) (which : Option ListenerState) (listener : Option ℕ)
    → t.async_enabled ≡ false
    → (conn_a_stop_listener_ex true which listener t ≡ ((0, econnioinit), t))
      × (conn_a_suspend_listener_ex true listener t ≡ ((0, econnioinit), t))
      × (conn_a_resume_listener_ex true listener t ≡ ((0, econnioinit), t))
      × (conn_a_expire_listener_ex true which listener t ≡ ((0, econnioinit), t))
unfolding conn_a_stop_listener_ex conn_a_suspend_listener_ex conn_a_resume_listener_ex
    conn_a_expire_listener_ex over
loops-refused t which none e =
    (ground (arith, e), ground (arith, e), ground (arith, e), ground (arith, e))
loops-refused t which (some l) e =
    (ground (arith, e), ground (arith, e), ground (arith, e), ground (arith, e))
