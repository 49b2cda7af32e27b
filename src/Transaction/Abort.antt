-- ===== src/Transaction/Abort.antt =====
-- What aborting the queue does (SetAsyncProblem, CancelQueuedEvents, CancelEventsInProgress and
-- EventQueueAbort of src/queue.c).
use connio.Prelude.{
  ℕ, zero, suc, ◌≤◌, ◌≡◌, ◌≢◌, refl, sym, ap, subst, ◌∙◌, ◌⊎◌, inl, inr, true, false, Option, none,
  some, List, [], ◌∷◌, arith, length,
}
use connio.Errno.{ecanceled}
use connio.Dll.Chain.{Holds}
use connio.Conn.{disconnect, ssl_disconnect, Conn, ConnEventStatus, CodeSource, AsyncProblem}
use connio.EventQueue.{event_queue_remove_event, conn_event_free_list_add, get_next_enqueued_event}
use connio.EventQueue.Scan.{get_next_enqueued_event-nil, get_next_enqueued_event-cons}
use connio.EventQueue.FreeList.{
  FreeLinked, Owns, SameWork, SameWork-refl, SameWork-trans, remove-SameWork,
  free_list_add-SameWork, remove-Owns, free_list_add-Owns,
}
use connio.Transaction.{
  empty_queue, cancel_queued_events, set_async_problem, cancel_events_in_progress, abort_rest,
  event_queue_abort, is_some,
}

-- The events of `ps`, each put in front of `fs` in its turn.
abbrev pub freed_onto : List ℕ → List ℕ → List ℕ
freed_onto [] fs = fs
freed_onto (p ∷ ps) fs = freed_onto ps (p ∷ fs)

-- `d` is `c` with its queue emptied into the list of events to free.
abbrev pub Emptied : Conn → List ℕ → List ℕ → Conn → Type 0
Emptied c ps fs d = Owns d [] (freed_onto ps fs) × SameWork c d

empty_queue-Emptied :
    (fuel : ℕ) (c : Conn) (ps fs : List ℕ)
    → Owns c ps fs
    → length ps ≤ fuel
    → Emptied c ps fs (empty_queue fuel (get_next_enqueued_event c))
unfolding empty_queue
empty_queue-Emptied zero c [] fs h le =
    rw (get_next_enqueued_event-nil c h.queue) (h, SameWork-refl c)
empty_queue-Emptied (suc fuel) c [] fs h le =
    rw (get_next_enqueued_event-nil c h.queue) (h, SameWork-refl c)
empty_queue-Emptied zero c (p ∷ ps) fs h le = absurd (omega arith)
empty_queue-Emptied (suc fuel) c (p ∷ ps) fs h le =
    let taken = remove-Owns c [] p ps fs h in
    let added =
      free_list_add-Owns (event_queue_remove_event c p) ps fs p taken h.queue.holds.distinct.0
        h.apart.0 in
    let rest =
      empty_queue-Emptied fuel (conn_event_free_list_add (event_queue_remove_event c p) p) ps
        (p ∷ fs) added (omega arith) in
    rw (get_next_enqueued_event-cons c p ps h.queue) (
      rest.0,
      SameWork-trans (remove-SameWork c p)
          (SameWork-trans (free_list_add-SameWork (event_queue_remove_event c p) p) rest.1),
    )

-- Cancelling empties the queue into the list of events to free, each event once, and touches
-- neither the slots nor the errors of events.
pub cancel_queued_events-Emptied :
    (c : Conn) (ps fs : List ℕ) → Owns c ps fs → Emptied c ps fs (cancel_queued_events c)
unfolding cancel_queued_events
cancel_queued_events-Emptied c ps fs h =
    empty_queue-Emptied c.tx.count c ps fs h (omega (arith, h.queue.counted))

-- What an operation on problems and slots leaves alone.
abbrev pub SameLists : Conn → Conn → Type 0
SameLists c d =
    (d.tx.queue ≡ c.tx.queue)
    × (d.tx.count ≡ c.tx.count)
    × (d.tx.free_list ≡ c.tx.free_list)
    × (d.events.links ≡ c.events.links)

pub Owns-same : (c d : Conn) (ps fs : List ℕ) → SameLists c d → Owns c ps fs → Owns d ps fs
Owns-same c d ps fs (eq, ec, ef, el) h = record {
  queue = record {
    holds =
        subst (λ l. Holds d.tx.queue l ps) (sym el)
          (subst (λ q. Holds q c.events.links ps) (sym eq) h.queue.holds);
    counted = ec ∙ h.queue.counted;
    fits = h.queue.fits;
  };
  head_free = ef ∙ h.head_free;
  free_linked = subst (λ l. FreeLinked l fs) (sym el) h.free_linked;
  apart = h.apart;
  distinct_free = h.distinct_free;
}

abbrev pub problem_of : ConnEventStatus → ℕ → CodeSource → AsyncProblem
problem_of status error source = record { status = status; error = error; source = source }

pub set_async_problem-first :
    (c : Conn) (status : ConnEventStatus) (error : ℕ) (source : CodeSource)
    → c.tx.problem ≡ none
    → set_async_problem c status error source
      ≡ (true, record c { tx = record c.tx { problem = some (problem_of status error source) } })
unfolding set_async_problem
set_async_problem-first c status error source e = ground arith

set_async_problem-later :
    (c : Conn) (status : ConnEventStatus) (error : ℕ) (source : CodeSource)
    → is_some c.tx.problem ≡ true
    → set_async_problem c status error source ≡ (false, c)
unfolding set_async_problem
set_async_problem-later c status error source e = ground arith

-- What cancelling the events in progress leaves alone.
cancel_events_in_progress-rest :
    (c : Conn) (current : Option ℕ)
    → let d = cancel_events_in_progress c current in
      (d.tx ≡ c.tx)
      × (d.events.links ≡ c.events.links)
      × (d.active ≡ c.active)
      × (d.state ≡ c.state)
unfolding cancel_events_in_progress
cancel_events_in_progress-rest c current = (ground arith, ground arith, ground arith, ground arith)

cancel_events_in_progress-types :
    (c : Conn) (current : Option ℕ)
    → let d = cancel_events_in_progress c current in
      (d.events.type ≡ c.events.type) × (d.events.event_class ≡ c.events.event_class)
unfolding cancel_events_in_progress
cancel_events_in_progress-types c current = (ground arith, ground arith)

cancel_events_in_progress-send :
    (c : Conn) (current : Option ℕ) (p : ℕ)
    → c.sp.valid ≡ true
    → c.active.connect ≡ none
    → c.active.send ≡ some p
    → current ≢ some p
    → (cancel_events_in_progress c current).events.error p ≡ ecanceled
unfolding cancel_events_in_progress
cancel_events_in_progress-send c none p v ec es d = ground arith
cancel_events_in_progress-send c (some q) p v ec es d = ground arith

cancel_events_in_progress-receive :
    (c : Conn) (current : Option ℕ) (p : ℕ)
    → c.sp.valid ≡ true
    → c.active.connect ≡ none
    → c.active.receive ≡ some p
    → current ≢ some p
    → (cancel_events_in_progress c current).events.error p ≡ ecanceled
unfolding cancel_events_in_progress
cancel_events_in_progress-receive c none p v ec er d = ground arith
cancel_events_in_progress-receive c (some q) p v ec er d = ground arith

cancel_events_in_progress-connect :
    (c : Conn) (current : Option ℕ) (p : ℕ)
    → c.sp.valid ≡ true
    → c.active.connect ≡ some p
    → c.events.type p ≢ disconnect
    → c.events.type p ≢ ssl_disconnect
    → current ≢ some p
    → (cancel_events_in_progress c current).events.error p ≡ ecanceled
unfolding cancel_events_in_progress
cancel_events_in_progress-connect c none p v ec n1 n2 d = ground arith
cancel_events_in_progress-connect c (some q) p v ec n1 n2 d = ground arith

with_problem : Conn → ConnEventStatus → ℕ → CodeSource → Conn
with_problem c status error source = record c {
  tx = record c.tx { problem = some (problem_of status error source) };
}

event_queue_abort-first :
    (c : Conn) (current : Option ℕ) (status : ConnEventStatus) (error : ℕ) (source : CodeSource)
    → c.tx.problem ≡ none
    → event_queue_abort c current status error source
      ≡ cancel_events_in_progress
          (cancel_queued_events (with_problem c status error source))
          current
unfolding event_queue_abort with_problem
event_queue_abort-first c current status error source e =
    ap (λ r. abort_rest r current) (set_async_problem-first c status error source e)

module _ (c : Conn) (ps fs : List ℕ) (current : Option ℕ) (status : ConnEventStatus) (error : ℕ)
    (source : CodeSource) (h : Owns c ps fs) (fine : c.tx.problem ≡ none) where
  stopped : Conn
  stopped = cancel_queued_events (with_problem c status error source)

  stopped-Emptied : Emptied (with_problem c status error source) ps fs stopped
  unfolding stopped
  stopped-Emptied = cancel_queued_events-Emptied (with_problem c status error source) ps fs (
      Owns-same c (with_problem c status error source) ps fs
        (unfold with_problem in (refl, refl, refl, refl)) h)

  -- The first problem of a transaction empties its queue into the list of events to free, records
  -- its own status, error and place, and leaves the slots, the thread count and the state of the
  -- connection.
  pub event_queue_abort_lem :
      let d = event_queue_abort c current status error source in
      Owns d [] (freed_onto ps fs)
      × (d.tx.problem ≡ some (record { status = status; error = error; source = source }))
      × (d.active ≡ c.active)
      × (d.state ≡ c.state)
      × (d.tx.threads ≡ c.tx.threads)
  unfolding stopped with_problem
  event_queue_abort_lem =
      let (owns, same) = stopped-Emptied in
      let (etx, elinks, eactive, estate) = cancel_events_in_progress-rest stopped current in
      rw (event_queue_abort-first c current status error source fine) (
        Owns-same stopped (cancel_events_in_progress stopped current) [] (freed_onto ps fs)
            (ap (λ t. t.queue) etx, ap (λ t. t.count) etx, ap (λ t. t.free_list) etx, elinks) owns,
        ap (λ t. t.problem) etx ∙ same.problem,
        eactive ∙ same.active,
        estate ∙ same.state,
        ap (λ t. t.threads) etx ∙ same.threads,
      )

  pub event_queue_abort-types :
      let d = event_queue_abort c current status error source in
      (d.events.type ≡ c.events.type) × (d.events.event_class ≡ c.events.event_class)
  unfolding stopped with_problem
  event_queue_abort-types =
      let (owns, same) = stopped-Emptied in
      let (et, ek) = cancel_events_in_progress-types stopped current in
      rw (event_queue_abort-first c current status error source fine)
        (et ∙ same.type, ek ∙ same.event_class)

  -- It also cancels a send or read that is in progress on the socket, unless that event is itself
  -- the one with the problem.
  pub event_queue_abort-cancels :
      (p : ℕ)
      → c.sp.valid ≡ true
      → c.active.connect ≡ none
      → (c.active.send ≡ some p) ⊎ (c.active.receive ≡ some p)
      → current ≢ some p
      → (event_queue_abort c current status error source).events.error p ≡ ecanceled
  unfolding stopped with_problem
  event_queue_abort-cancels p v ec slot d =
      let (owns, same) = stopped-Emptied in
      rw (event_queue_abort-first c current status error source fine) (elim slot [
        | inl es ↦
            cancel_events_in_progress-send stopped current p (ap (λ s. s.valid) same.sp ∙ v)
              (ap (λ a. a.connect) same.active ∙ ec) (ap (λ a. a.send) same.active ∙ es) d
        | inr er ↦
            cancel_events_in_progress-receive stopped current p (ap (λ s. s.valid) same.sp ∙ v)
              (ap (λ a. a.connect) same.active ∙ ec) (ap (λ a. a.receive) same.active ∙ er) d
      ])

-- A later problem changes nothing: the first one is the one reported.
pub event_queue_abort-later :
    (c : Conn) (current : Option ℕ) (status : ConnEventStatus) (error : ℕ) (source : CodeSource)
    → is_some c.tx.problem ≡ true
    → event_queue_abort c current status error source ≡ c
unfolding event_queue_abort
event_queue_abort-later c current status error source e =
    ap (λ r. abort_rest r current) (set_async_problem-later c status error source e)
