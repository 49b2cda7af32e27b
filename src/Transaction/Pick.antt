-- ===== src/Transaction/Pick.antt =====
-- The top of the loop of ConnEventsProcess in src/queue.c, up to where the thread releases the event
-- lock to work on an event, or returns.
use connio.Prelude.{
  ℕ, ◌-◌, ◌≤◌, ◌<◌, ◌≡◌, ◌≢◌, refl, sym, ap, subst, ◌∙◌, ◌⊎◌, inl, inr, Bool, true, false, none,
  some, List, [], ◌∷◌, ◌++◌, arith, Bool-cases, Option-cases, none-ne-some, first_or, All, NotIn,
  Distinct-middle,
}
use mathlib.Core.Option.{some-injective}
use connio.Conn.{
  Conn, ConnEventClass, ActiveEvent, AsyncProblem, class_connect, class_receive, class_send,
  partial, ConnState, asynchronous_client, asynchronous_engine_complete,
}
use connio.EventQueue.{conn_event_free_list_grab, event_queue_remove_event}
use connio.EventQueue.Contents.{IsQueue}
use connio.EventQueue.Scan.{class_of}
use connio.EventQueue.FreeList.{Owns, remove-Owns}
use connio.Transaction.Abort.{Owns-same}
use connio.Transaction.Next.{HasRoom, Starts, Waits, conn_event_next_lem}
use connio.Transaction.Invariant.{
  WorkInv, Placed, slot, set_active, slot-set, in_progress_set_lem, set_active-IsExclusive,
}
use connio.Transaction.{
  Outcome, working, returned, pick, picked, grab, leave, conn_event_next, conn_events_in_progress,
  is_some,
}

HasRoom-slot : (a : ActiveEvent) (k : ConnEventClass) → HasRoom a k → slot a k ≡ none
HasRoom-slot a class_connect r = r.0
HasRoom-slot a class_receive r = r.1
HasRoom-slot a class_send r = r.1

NotIn-middle :
    (q : ℕ) (xs : List ℕ) (p : ℕ) (ys : List ℕ) → NotIn q (xs ++ p ∷ ys) → NotIn q (xs ++ ys)
NotIn-middle q [] p ys h = h.1
NotIn-middle q (x ∷ xs) p ys h = (h.0, NotIn-middle q xs p ys h.1)

NotIn-append : (q : ℕ) (xs ys : List ℕ) → NotIn q xs → NotIn q ys → NotIn q (xs ++ ys)
NotIn-append q [] ys h k = k
NotIn-append q (x ∷ xs) ys h k = (h.0, NotIn-append q xs ys h.1 k)

apart-nil : (ps : List ℕ) → All (λ p. NotIn p []) ps
apart-nil [] = tt
apart-nil (p ∷ ps) = (tt, apart-nil ps)

-- The connection after the event `p`, of the class `k`, is taken out of the queue, put into its slot
-- and the events to free are taken along.
started : Conn → ℕ → ConnEventClass → Conn
started c p k =
    let d = event_queue_remove_event c p in
    record d { active = set_active d.active k (some p); tx = record d.tx { free_list = none } }

module _ (c : Conn) (xs : List ℕ) (p : ℕ) (ys fs : List ℕ) (h : WorkInv c (xs ++ p ∷ ys) fs)
    (room : HasRoom c.active (class_of (c.events.type p))) (fine : c.tx.problem ≡ none) where
  k : ConnEventClass
  k = class_of (c.events.type p)

  started-Owns : Owns (started c p k) (xs ++ ys) []
  unfolding started
  started-Owns =
      let o = remove-Owns c xs p ys fs h.owns in
      record {
        queue = record { holds = o.queue.holds; counted = o.queue.counted; fits = o.queue.fits };
        head_free = refl;
        free_linked = tt;
        apart = apart-nil (xs ++ ys);
        distinct_free = tt;
      }

  started-Placed : (j : ConnEventClass) → Placed (started c p k) (xs ++ ys) [] j
  unfolding started k event_queue_remove_event
  started-Placed j q e = elim (slot-set c.active k j (some p)) [
    | inl (same, set) ↦
        let same_event = some-injective p q (sym set ∙ e) in
        let (before, after, rest) = Distinct-middle xs p ys h.owns.queue.holds.distinct in
        (
          subst (λ r. class_of (c.events.type r) ≡ j) same_event (sym same),
          subst (λ r. NotIn r (xs ++ ys)) same_event (NotIn-append p xs ys before after),
          tt,
        )
    | inr old ↦
        let (kind, out, free) = h.placed j q (sym old ∙ e) in (kind, NotIn-middle q xs p ys out, tt)
  ]

  started-WorkInv : WorkInv (started c p k) (xs ++ ys) []
  unfolding started k event_queue_remove_event
  started-WorkInv = record {
    owns = started-Owns;
    exclusive = set_active-IsExclusive c.active k (some p) room;
    classed = h.classed;
    placed = started-Placed;
    aborted = λ a e. absurd (none-ne-some fine e);
  }

abbrev without_thread : Conn → Conn
without_thread c = record c { tx = record c.tx { threads = c.tx.threads - 1 } }

-- What is left to do when the thread returns TRUE.
abbrev pub Remains : Conn → Type 0
Remains c =
    (conn_events_in_progress c ≡ true) ⊎ (c.state ≡ asynchronous_client) ⊎ (1 < c.tx.threads)

abbrev IsOver : Conn → Type 0
IsOver c = (c.tx.queue.head ≡ none) × (conn_events_in_progress c ≡ false) × (c.tx.threads ≤ 1)

leave_more :
    (c : Conn) (p : ℕ) → c.tx.queue.head ≡ some p → leave c ≡ (returned true, without_thread c)
unfolding leave
leave_more c p e = ground arith

leave_busy :
    (c : Conn)
    → c.tx.queue.head ≡ none
    → conn_events_in_progress c ≡ true
    → leave c ≡ (returned true, without_thread c)
unfolding leave conn_events_in_progress
leave_busy c e b = ground arith

leave_quiet :
    (c : Conn)
    → c.tx.queue.head ≡ none
    → conn_events_in_progress c ≡ false
    → ((leave c
          ≡ (returned false, record (without_thread c) { state = asynchronous_engine_complete }))
        × IsOver c
        × (c.state ≢ asynchronous_client))
      ⊎ ((leave c ≡ (returned true, without_thread c))
          × ((is_some c.tx.queue.head ≡ true) ⊎ Remains c))
unfolding leave conn_events_in_progress
leave_quiet c e b = ground arith

leave_lem :
    (c : Conn)
    → ((leave c
          ≡ (returned false, record (without_thread c) { state = asynchronous_engine_complete }))
        × IsOver c
        × (c.state ≢ asynchronous_client))
      ⊎ ((leave c ≡ (returned true, without_thread c))
          × ((is_some c.tx.queue.head ≡ true) ⊎ Remains c))
leave_lem c = elim (Option-cases c.tx.queue.head) [
  | inr (p, e) ↦ inr (leave_more c p e, inl (ap is_some e))
  | inl e ↦ elim (Bool-cases (conn_events_in_progress c)) [
    | inl busy ↦ inr (leave_busy c e busy, inr (inl busy))
    | inr quiet ↦ leave_quiet c e quiet
  ]
]

-- Work waits behind an event that ended with a partial result.
abbrev pub IsStalled : Conn → List ℕ → Type 0
IsStalled c ps = (a : AsyncProblem) × (c.tx.problem ≡ some a) × (a.status ≡ partial) × (ps ≢ [])

-- The outcome of picking, with the queue `ps` and the events `fs` to free.
abbrev pub Picks : Conn → List ℕ → List ℕ → Outcome × Conn → Type 0
Picks c ps fs (o, d) =
    ((p : ℕ) × (qs : List ℕ) × (o ≡ working p c.tx.free_list)
      × (slot c.active (class_of (c.events.type p)) ≡ none)
      × (d.active ≡ set_active c.active (class_of (c.events.type p)) (some p))
      × WorkInv d qs [])
    ⊎ ((o ≡ returned false) × IsOver c × (d.state ≡ asynchronous_engine_complete) × WorkInv d ps fs)
    ⊎ ((o ≡ returned true)
        × (Remains c ⊎ IsStalled c ps)
        × (d ≡ without_thread c)
        × WorkInv d ps fs)

without_thread-WorkInv :
    (c : Conn) (s : ConnState) (ps fs : List ℕ)
    → WorkInv c ps fs
    → WorkInv (record (without_thread c) { state = s }) ps fs
without_thread-WorkInv c s ps fs h = record {
  owns = Owns-same c _ ps fs (refl, refl, refl, refl) h.owns;
  exclusive = h.exclusive;
  classed = h.classed;
  placed = h.placed;
  aborted = h.aborted;
}

busy-connect : (c : Conn) → is_some c.active.connect ≡ true → conn_events_in_progress c ≡ true
unfolding conn_events_in_progress
busy-connect c e = ground arith

busy-receive : (c : Conn) → is_some c.active.receive ≡ true → conn_events_in_progress c ≡ true
unfolding conn_events_in_progress
busy-receive c e = ground arith

busy-send : (c : Conn) → is_some c.active.send ≡ true → conn_events_in_progress c ≡ true
unfolding conn_events_in_progress
busy-send c e = ground arith

nonempty_of_head :
    (c : Conn) (ps : List ℕ) → IsQueue c ps → is_some c.tx.queue.head ≡ true → ps ≢ []
nonempty_of_head c ps h e =
    λ n. true-false (ap is_some (h.holds.head_first ∙ ap (first_or none) n)) e
  where
    true-false : {b : Bool} → b ≡ false → b ≡ true → ⊥
    true-false a b = cc

-- Queued work that is not started waits for an event in progress, or is stalled.
Waits-Remains :
    (c : Conn) (ps fs : List ℕ)
    → WorkInv c ps fs
    → Waits c ps
    → ps ≢ []
    → Remains c ⊎ IsStalled c ps
Waits-Remains c ps fs h (inl bad) n = elim (Option-cases c.tx.problem) [
  | inl e ↦ absurd (ground arith)
  | inr (a, e) ↦ elim (h.aborted a e) [ inl s ↦ inr (a, e, s, n) | inr s ↦ absurd (n s) ]
]
Waits-Remains c ps fs h (inr (inl e)) n = absurd (n e)
Waits-Remains c ps fs h (inr (inr (inl e))) n = inl (inl (busy-connect c e))
Waits-Remains c ps fs h (inr (inr (inr (inl e)))) n = inl (inl (busy-receive c e.0))
Waits-Remains c ps fs h (inr (inr (inr (inr e)))) n = inl (inl (busy-send c e.0))

pick-leave :
    (c : Conn) → (conn_event_next c).0 ≡ none → (conn_event_next c).1 ≡ c → pick none c ≡ leave c
unfolding pick
pick-leave c e0 e1 = ap picked (λ i. (e0 i, e1 i))

pick-started :
    (c : Conn) (p : ℕ)
    → c.events.event_class p ≡ class_of (c.events.type p)
    → (conn_event_next c).0 ≡ some p
    → (conn_event_next c).1 ≡ event_queue_remove_event c p
    → pick none c ≡ (working p c.tx.free_list, started c p (class_of (c.events.type p)))
unfolding pick started event_queue_remove_event conn_event_free_list_grab
pick-started c p cls e0 e1 =
    ap picked (λ i. (e0 i, e1 i))
    ∙ ap (grab p)
        (in_progress_set_lem (event_queue_remove_event c p) p (class_of (c.events.type p)) cls)

started-Picks :
    (c : Conn) (ps fs : List ℕ) (p : ℕ)
    → WorkInv c ps fs
    → (conn_event_next c).0 ≡ some p
    → Starts c ps p (conn_event_next c).1
    → Picks c ps fs (pick none c)
started-Picks c ps fs p h e (xs, ys, split, passed, room, fine, taken, q) =
    let inv = started-WorkInv c xs p ys fs (subst (λ rs. WorkInv c rs fs) split h) room fine in
    subst (Picks c ps fs) (sym (pick-started c p (h.classed p) e taken)) (
      inl (
        p,
        xs ++ ys,
        refl,
        HasRoom-slot c.active (class_of (c.events.type p)) room,
        unfold started event_queue_remove_event in refl,
        unfold k in inv,
      ))

left-Picks : (c : Conn) (ps fs : List ℕ) → WorkInv c ps fs → Waits c ps → Picks c ps fs (leave c)
left-Picks c ps fs h w = elim (leave_lem c) [
  | inl (e, over, s) ↦
      subst (Picks c ps fs) (sym e) (
        inr (inl (refl, over, refl, without_thread-WorkInv c asynchronous_engine_complete ps fs h)))
  | inr (e, inl more) ↦ subst (Picks c ps fs) (sym e) (
      inr (
        inr (
          refl,
          Waits-Remains c ps fs h w (nonempty_of_head c ps h.owns.queue more),
          refl,
          without_thread-WorkInv c c.state ps fs h,
        )))
  | inr (e, inr r) ↦
      subst (Picks c ps fs) (sym e)
        (inr (inr (refl, inl r, refl, without_thread-WorkInv c c.state ps fs h)))
]

-- A thread that holds the lock and looks for work keeps the invariant. Either it starts an event
-- whose slot was free, and takes the whole list of events to free; or it returns FALSE, the queue
-- and the slots being empty and no other thread inside; or it returns TRUE, and then an event is in
-- progress, the connection is not submitted, another thread is inside, or work is stalled behind
-- an event with a partial result.
pub pick-Picks : (c : Conn) (ps fs : List ℕ) → WorkInv c ps fs → Picks c ps fs (pick none c)
pick-Picks c ps fs h = elim (conn_event_next_lem c ps h.owns.queue) [
  | inl (e, same, w) ↦ subst (Picks c ps fs) (sym (pick-leave c e same)) (left-Picks c ps fs h w)
  | inr (p, e, s) ↦ started-Picks c ps fs p h e s
]
