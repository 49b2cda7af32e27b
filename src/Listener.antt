-- ===== src/Listener.antt =====
-- The listeners of a handle, in part: src/connio.c from ConnListenerFree to ConnAExpireListenerEx, the
-- functions that go over the list without changing it. The bits of a listener's state are one Boolean
-- each. What is asked of a listener's connection (a shutdown, a suspension, a resumption) is noted in
-- `asked`, newest first.
pub mod Passes
pub mod Cycle
pub mod Rules
use connio.Prelude.{
  ℕ, zero, suc, ◌+◌, ◌%◌, int_mod, Bool, true, false, ◌&&◌, ◌||◌, not, Option, none, some, List, [],
  ◌∷◌, ◌==◌, if◌then◌else◌,
}
use connio.Errno.{einval, ebusy, econnioinit}
use connio.Dll.{Ends, Links, update}
use connio.Dll

-- CONN_LISTENER_FRESH and the other bits of that name.
pub record ListenerState : Type 0 where
  pub fresh : Bool
  pub active : Bool
  pub failed : Bool
  pub stopped : Bool
  pub suspended : Bool
  pub expired : Bool
  pub independent : Bool

pub data Request : Type 0 where
  shutdown suspend resume : ℕ → Request

-- The handle with its listeners; the fields of a listener are functions of its address. `last` is the
-- number of listeners that were ever added.
pub record Listeners : Type 0 where
  pub ends : Ends
  pub links : Links
  pub state : ℕ → ListenerState
  pub conn : ℕ → Option ℕ
  pub last : ℕ
  pub async_enabled : Bool
  pub asked : List Request

-- Of which the bit CONN_LISTENER_INDEPENDENT alone may be set.
abbrev pub only : Bool → ListenerState
only b = record {
  fresh = false;
  active = false;
  failed = false;
  stopped = false;
  suspended = false;
  expired = false;
  independent = b;
}

-- `state & which`.
abbrev pub meets : ListenerState → ListenerState → Bool
meets s w =
    (s.fresh && w.fresh)
    || ((s.active && w.active)
        || ((s.failed && w.failed)
            || ((s.stopped && w.stopped)
                || ((s.suspended && w.suspended)
                    || ((s.expired && w.expired) || (s.independent && w.independent))))))

-- `!listener && ( CONN_LISTENER_INDEPENDENT & l->state )` and `listener && l != listener`.
abbrev passed_over : Option ℕ → ListenerState → ℕ → Bool
passed_over none s p = s.independent
passed_over (some q) s p = not (q == p)

-- `which && !( l->state & which )`; `none` is 0.
abbrev unwanted : Option ListenerState → ListenerState → Bool
unwanted none s = false
unwanted (some w) s = not (meets s w)

note : Option Request → List Request → List Request
note none rs = rs
note (some r) rs = r ∷ rs

ask : Option ℕ → (ℕ → Option Request) → Option Request
ask none f = none
ask (some c) f = f c

-- The body of a loop at the listener `p`, which is not passed over: its new state, and what is asked
-- of its connection.
visit : (ListenerState → ListenerState) → (ℕ → Option Request) → Listeners → ℕ → Listeners
unfolding note ask
visit change request t p = record t {
  state = update t.state p (change (t.state p));
  asked = note (ask (t.conn p) request) t.asked;
}

-- The loop `for( l = head; l; l = l->next )` with a counter `c` of the listeners that it takes, on
-- fuel for the listeners that it meets.
pub pass :
    (ListenerState → ℕ → Bool)
    → (ListenerState → ListenerState)
    → (ℕ → Option Request)
    → ℕ
    → Listeners
    → Option ℕ
    → ℕ × Listeners
unfolding visit
pass takes change request zero t l = (0, t)
pass takes change request (suc fuel) t none = (0, t)
pass takes change request (suc fuel) t (some p) =
    let taken = takes (t.state p) p in
    let u = if taken then visit change request t p else t in
    let rest = pass takes change request fuel u (t.links.next p) in
    (if taken then (rest.0 + 1) % int_mod else rest.0, rest.1)

-- The checks before a loop: a handle, given or found through the listener, for asynchronous use. The
-- error is 0 for none.
abbrev pub refused : Bool → Option ℕ → Listeners → ℕ
refused has_handle none t =
    if not has_handle then einval else if not t.async_enabled then econnioinit else 0
refused has_handle (some l) t = if not t.async_enabled then econnioinit else 0

-- The count, the error of the checks, and the listeners after the loop. A listener is one of those
-- ever added, so that `last` is fuel enough.
over :
    (ListenerState → ℕ → Bool)
    → (ListenerState → ListenerState)
    → (ℕ → Option Request)
    → Bool
    → Option ℕ
    → Listeners
    → (ℕ × ℕ) × Listeners
unfolding pass
over takes change request has_handle listener t =
    let e = refused has_handle listener t in
    let (c, d) = pass takes change request t.last t t.ends.head in
    if e == 0 then ((c, 0), d) else ((0, e), t)

abbrev pub stop_takes : Option ListenerState → Option ℕ → ListenerState → ℕ → Bool
stop_takes which listener s p = not (passed_over listener s p) && not (unwanted which s)

abbrev pub stop_change : ListenerState → ListenerState
stop_change s = record (only s.independent) { stopped = true }

unfoldable pub conn_a_stop_listener_ex :
    Bool → Option ListenerState → Option ℕ → Listeners → (ℕ × ℕ) × Listeners
unfolding over
conn_a_stop_listener_ex has_handle which listener t =
    over (stop_takes which listener) stop_change (λ c. some (shutdown c)) has_handle listener t

abbrev pub suspend_takes : Option ℕ → ListenerState → ℕ → Bool
suspend_takes listener s p = not (passed_over listener s p) && s.active

abbrev pub suspend_change : ListenerState → ListenerState
suspend_change s = record (only s.independent) { suspended = true }

unfoldable pub conn_a_suspend_listener_ex : Bool → Option ℕ → Listeners → (ℕ × ℕ) × Listeners
unfolding over
conn_a_suspend_listener_ex has_handle listener t =
    over (suspend_takes listener) suspend_change (λ c. some (suspend c)) has_handle listener t

abbrev pub resume_takes : Option ℕ → ListenerState → ℕ → Bool
resume_takes listener s p = not (passed_over listener s p) && s.suspended

abbrev pub resume_change : ListenerState → ListenerState
resume_change s = record (only s.independent) { active = true }

unfoldable pub conn_a_resume_listener_ex : Bool → Option ℕ → Listeners → (ℕ × ℕ) × Listeners
unfolding over
conn_a_resume_listener_ex has_handle listener t =
    over (resume_takes listener) resume_change (λ c. some (resume c)) has_handle listener t

abbrev pub expire_takes : Option ℕ → ListenerState → ℕ → Bool
expire_takes listener s p = not (passed_over listener s p) && not s.expired

abbrev pub expire_change : ListenerState → ListenerState
expire_change s = record s { expired = true }

-- The argument `which` is not used by the source either.
unfoldable pub conn_a_expire_listener_ex :
    Bool → Option ListenerState → Option ℕ → Listeners → (ℕ × ℕ) × Listeners
unfolding over
conn_a_expire_listener_ex has_handle which listener t =
    over (expire_takes listener) expire_change (λ c. none) has_handle listener t

-- The listener leaves the list; its memory is freed.
unfoldable pub conn_listener_free : Listeners → ℕ → Listeners
conn_listener_free t l =
    let (ends, links) = Dll.remove t.ends t.links l in record t { ends = ends; links = links }
