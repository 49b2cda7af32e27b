-- ===== src/Tests/Registry.antt =====
-- Tests of the listeners of a handle of src/connio.c.
use connio.Prelude.{◌≡◌, refl, true, false, none, some, [], ◌∷◌, arith, ◌==◌, if◌then◌else◌}
use connio.Listener.{
  Listeners, ListenerState, only, shutdown, conn_a_stop_listener_ex, conn_a_suspend_listener_ex,
  conn_a_resume_listener_ex, conn_a_expire_listener_ex,
}
use connio.Listener.Passes.{HasListeners}
use connio.Listener.Rules.{stops, suspends, resumes, expires, Follows}
use connio.Listener.Rules.Followed.{loops-Follows}

abbrev running : ListenerState
running = record (only false) { active = true }

-- Two listeners, of which the second (2) is independent.
abbrev registry : Listeners
registry = record {
  ends = record { head = some 1; tail = some 2 };
  links = record {
    next = λ p. if p == 1 then some 2 else none;
    previous = λ p. if p == 2 then some 1 else none;
  };
  state = λ p. if p == 1 then running else record running { independent = true };
  conn = λ p. if p == 1 then some 7 else none;
  last = 2;
  async_enabled = true;
  asked = [];
}

registry-HasListeners : HasListeners registry (1 ∷ 2 ∷ [])
registry-HasListeners = record {
  holds = record {
    head_first = refl;
    tail_last = refl;
    linked = (refl, refl, (refl, refl, tt));
    distinct = omega arith;
  };
  counted = omega arith;
  fits = omega arith;
}

stop_all :
    let (r, d) = conn_a_stop_listener_ex true none none registry in
    (r ≡ (1, 0))
    × (d.asked ≡ shutdown 7 ∷ [])
    × (d.state 1 ≡ record (only false) { stopped = true })
unfolding conn_a_stop_listener_ex
stop_all = (refl, refl, refl)

loops-Follows_example :
    let (r1, d1) = conn_a_stop_listener_ex true none none registry in
    let (r2, d2) = conn_a_suspend_listener_ex true none registry in
    let (r3, d3) = conn_a_resume_listener_ex true none registry in
    let (r4, d4) = conn_a_expire_listener_ex true none none registry in
    ((r1.1 ≡ 0) × Follows none none stops registry (1 ∷ 2 ∷ []) r1.0 d1)
    × ((r2.1 ≡ 0) × Follows none none suspends registry (1 ∷ 2 ∷ []) r2.0 d2)
    × ((r3.1 ≡ 0) × Follows none none resumes registry (1 ∷ 2 ∷ []) r3.0 d3)
    × ((r4.1 ≡ 0) × Follows none none expires registry (1 ∷ 2 ∷ []) r4.0 d4)
loops-Follows_example = loops-Follows registry (1 ∷ 2 ∷ []) none none registry-HasListeners refl
