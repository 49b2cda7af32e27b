-- ===== src/Transaction/Finish.antt =====
-- The end of the loop of ConnEventsProcess in src/queue.c: an event that is complete, or that failed,
-- leaves its slot, its error is handled and it goes to the events to free.
use connio.Prelude.{
  ℕ, ◌≡◌, ◌≢◌, refl, sym, ap, subst, ◌∙◌, ◌⊎◌, inl, inr, true, none, some, List, [], ◌∷◌, arith,
  NotIn, none-ne-some,
}
use mathlib.Core.Option.{some-injective}
use connio.Errno.{eshutdown}
use connio.Conn.{
  Conn, ConnEventClass, ConnEventStatus, CodeSource, ActiveEvent, AsyncProblem, class_connect,
  class_receive, class_send, partial, killed,
}
use connio.Conn.InProgress.{conn_event_in_progress_clear}
use connio.EventQueue.{conn_event_free_list_add}
use connio.EventQueue.Scan.{class_of}
use connio.EventQueue.FreeList.{free_list_add-Owns}
use connio.Transaction.Abort.{
  freed_onto, Owns-same, set_async_problem-first, problem_of, event_queue_abort_lem,
  event_queue_abort-types,
}
use connio.Transaction.Next.{IsExclusive}
use connio.Transaction.Invariant.{
  WorkInv, slot, set_active, slot-set, in_progress_clear_lem, clear-IsExclusive,
}
use connio.Transaction.{
  finish, handle_errors, capture_stats, cancel_event, set_async_problem, event_queue_abort, is_some,
}

-- The event is in no slot, neither queued nor waiting to be freed.
record IsOut (c : Conn) (ps fs : List ℕ) (p : ℕ) : Type 0 where
  no_slot : (k : ConnEventClass) (q : ℕ) → slot c.active k ≡ some q → q ≢ p
  not_queued : NotIn p ps
  not_freed : NotIn p fs

-- The invariant, and `p` is out of everything.
abbrev Held : Conn → List ℕ → List ℕ → ℕ → Type 0
Held c ps fs p = WorkInv c ps fs × IsOut c ps fs p

slot-cleared : (a : ActiveEvent) (k : ConnEventClass) → slot (set_active a k none) k ≡ none
slot-cleared a class_connect = refl
slot-cleared a class_receive = refl
slot-cleared a class_send = refl

clear-Held :
    (c : Conn) (ps fs : List ℕ) (p : ℕ)
    → WorkInv c ps fs
    → slot c.active (class_of (c.events.type p)) ≡ some p
    → Held (conn_event_in_progress_clear c p) ps fs p
clear-Held c ps fs p h e =
    let k = class_of (c.events.type p) in
    let at = h.placed k p e in
    rw (in_progress_clear_lem c p k (h.classed p)) (
      record {
        owns = Owns-same c _ ps fs (refl, refl, refl, refl) h.owns;
        exclusive = clear-IsExclusive c.active k h.exclusive;
        classed = h.classed;
        placed = λ j q s. elim (slot-set c.active k j none) [
          | inl (_, gone) ↦ absurd (none-ne-some gone s)
          | inr old ↦ h.placed j q (sym old ∙ s)
        ];
        aborted = h.aborted;
      },
      record {
        no_slot = λ j q s. elim (slot-set c.active k j none) [
          | inl (_, gone) ↦ absurd (none-ne-some gone s)
          | inr old ↦ λ same.
              let kind =
                subst (λ r. class_of (c.events.type r) ≡ j) same (h.placed j q (sym old ∙ s)).0 in
              none-ne-some (slot-cleared c.active k)
                (subst (λ i. slot (set_active c.active k none) i ≡ some q) (sym kind) s)
        ];
        not_queued = at.1;
        not_freed = at.2;
      },
    )

-- The fields of the connection that the invariant reads are those of `c`.
Held-same :
    (c d : Conn) (ps fs : List ℕ) (p : ℕ)
    → (d.tx.queue ≡ c.tx.queue)
      × (d.tx.count ≡ c.tx.count)
      × (d.tx.free_list ≡ c.tx.free_list)
      × (d.events.links ≡ c.events.links)
    → (d.active ≡ c.active)
      × (d.events.type ≡ c.events.type)
      × (d.events.event_class ≡ c.events.event_class)
    → ((a : AsyncProblem) → d.tx.problem ≡ some a → (a.status ≡ partial) ⊎ (ps ≡ []))
    → Held c ps fs p
    → Held d ps fs p
Held-same c d ps fs p lists (ea, et, ek) stops (h, out) = (
  record {
    owns = Owns-same c d ps fs lists h.owns;
    exclusive = subst IsExclusive (sym ea) h.exclusive;
    classed = λ q. ap (λ f. f q) ek ∙ h.classed q ∙ ap (λ f. class_of (f q)) (sym et);
    placed = λ k q s.
        let at = h.placed k q (ap (λ a. slot a k) (sym ea) ∙ s) in
        (ap (λ f. class_of (f q)) et ∙ at.0, at.1, at.2);
    aborted = stops;
  },
  record {
    no_slot = λ k q s. out.no_slot k q (ap (λ a. slot a k) (sym ea) ∙ s);
    not_queued = out.not_queued;
    not_freed = out.not_freed;
  },
)

NotIn-freed_onto : (q : ℕ) (ps fs : List ℕ) → NotIn q ps → NotIn q fs → NotIn q (freed_onto ps fs)
NotIn-freed_onto q [] fs h k = k
NotIn-freed_onto q (p ∷ ps) fs h k = NotIn-freed_onto q ps (p ∷ fs) h.1 (h.0, k)

abort-Held :
    (c : Conn) (ps fs : List ℕ) (p : ℕ) (s : ConnEventStatus) (e : ℕ) (src : CodeSource)
    → c.tx.problem ≡ none
    → Held c ps fs p
    → Held (event_queue_abort c (some p) s e src) [] (freed_onto ps fs) p
abort-Held c ps fs p s e src fine (h, out) =
    let (owns, _, ea, _, _) = event_queue_abort_lem c ps fs (some p) s e src h.owns fine in
    let (et, ek) = event_queue_abort-types c ps fs (some p) s e src h.owns fine in
    (
      record {
        owns = owns;
        exclusive = subst IsExclusive (sym ea) h.exclusive;
        classed = λ q. ap (λ f. f q) ek ∙ h.classed q ∙ ap (λ f. class_of (f q)) (sym et);
        placed = λ k q i.
            let at = h.placed k q (ap (λ a. slot a k) (sym ea) ∙ i) in
            (ap (λ f. class_of (f q)) et ∙ at.0, tt, NotIn-freed_onto q ps fs at.1 at.2);
        aborted = λ a i. inr refl;
      },
      record {
        no_slot = λ k q i. out.no_slot k q (ap (λ a. slot a k) (sym ea) ∙ i);
        not_queued = tt;
        not_freed = NotIn-freed_onto p ps fs out.not_queued out.not_freed;
      },
    )

cancel_event-Held :
    (c : Conn) (ps fs : List ℕ) (p : ℕ) → Held c ps fs p → Held (cancel_event c p) ps fs p
cancel_event-Held c ps fs p h =
    Held-same c (cancel_event c p) ps fs p (unfold cancel_event in (refl, refl, refl, refl))
      (unfold cancel_event in (refl, refl, refl)) (unfold cancel_event in h.0.aborted) h

cancel_event-problem : (c : Conn) (p : ℕ) → (cancel_event c p).tx.problem ≡ c.tx.problem
unfolding cancel_event
cancel_event-problem c p = refl

-- The lists and the slots after the errors of an event are handled.
abbrev Handled : Conn → Conn → ℕ → Type 0
Handled c d p = (qs : List ℕ) × (gs : List ℕ) × Held d qs gs p × (d.active ≡ c.active)

partial-Held :
    (c : Conn) (ps fs : List ℕ) (p : ℕ) (s : ConnEventStatus) (e : ℕ) (src : CodeSource)
    → c.tx.problem ≡ none
    → s ≡ partial
    → Held c ps fs p
    → Held (set_async_problem c s e src).1 ps fs p
partial-Held c ps fs p s e src fine is_partial h = rw (set_async_problem-first c s e src fine) (
    Held-same c _ ps fs p (refl, refl, refl, refl) (refl, refl, refl)
      (λ a i. inl (sym (ap (λ b. b.status) (some-injective (problem_of s e src) a i)) ∙ is_partial))
      h)

-- The four ways in which the errors of an event are handled, and none.
abbrev Handles : Conn → ℕ → Conn → Type 0
Handles c p d =
    ((is_some c.tx.problem ≡ true) × (d ≡ cancel_event c p))
    ⊎ ((c.tx.problem ≡ none)
        × (d
            ≡ event_queue_abort c (some p) (c.events.status p) (c.events.error p)
                (c.events.source p)))
    ⊎ ((c.tx.problem ≡ none)
        × (c.events.status p ≡ partial)
        × (d ≡ (set_async_problem c (c.events.status p) (c.events.error p) (c.events.source p)).1))
    ⊎ ((c.tx.problem ≡ none)
        × (c.handle.shutting_down ≡ true)
        × (d ≡ event_queue_abort (cancel_event c p) (some p) killed eshutdown (c.events.source p)))
    ⊎ (d ≡ c)

handle_errors-Handles : (c : Conn) (p : ℕ) → Handles c p (handle_errors c p)
unfolding handle_errors
handle_errors-Handles c p = ground arith

abort-active :
    (c : Conn) (ps fs : List ℕ) (p : ℕ) (s : ConnEventStatus) (e : ℕ) (src : CodeSource)
    → c.tx.problem ≡ none
    → Held c ps fs p
    → (event_queue_abort c (some p) s e src).active ≡ c.active
abort-active c ps fs p s e src fine h =
    (event_queue_abort_lem c ps fs (some p) s e src h.0.owns fine).2

handle_errors-Held :
    (c : Conn) (ps fs : List ℕ) (p : ℕ) → Held c ps fs p → Handled c (handle_errors c p) p
handle_errors-Held c ps fs p h = elim (handle_errors-Handles c p) [
  | inl (_, e) ↦ (ps, fs, rw e (cancel_event-Held c ps fs p h), rw e (unfold cancel_event in refl))
  | inr (inl (fine, e)) ↦ (
    [],
    freed_onto ps fs,
    rw e (abort-Held c ps fs p _ _ _ fine h),
    rw e (abort-active c ps fs p _ _ _ fine h),
  )
  | inr (inr (inl (fine, s, e))) ↦ (
    ps,
    fs,
    rw e (partial-Held c ps fs p _ _ _ fine s h),
    rw (e, set_async_problem-first c _ _ _ fine),
  )
  | inr (inr (inr (inl (fine, _, e)))) ↦
      let cancelled = cancel_event-Held c ps fs p h in
      let still = cancel_event-problem c p ∙ fine in
      (
        [],
        freed_onto ps fs,
        rw e (abort-Held (cancel_event c p) ps fs p _ _ _ still cancelled),
        rw e (
            abort-active (cancel_event c p) ps fs p _ _ _ still cancelled
            ∙ unfold cancel_event in refl),
      )
  | inr (inr (inr (inr e))) ↦ (ps, fs, rw e h, rw e)
]

capture_stats-Held :
    (c : Conn) (ps fs : List ℕ) (p n : ℕ) (k : ConnEventClass)
    → Held c ps fs p
    → Held (capture_stats k n c) ps fs p × ((capture_stats k n c).active ≡ c.active)
unfolding capture_stats
capture_stats-Held c ps fs p n class_connect h = (h, refl)
capture_stats-Held c ps fs p n class_receive h =
    (Held-same c _ ps fs p (refl, refl, refl, refl) (refl, refl, refl) h.0.aborted h, refl)
capture_stats-Held c ps fs p n class_send h =
    (Held-same c _ ps fs p (refl, refl, refl, refl) (refl, refl, refl) h.0.aborted h, refl)

add-WorkInv :
    (c : Conn) (ps fs : List ℕ) (p : ℕ)
    → Held c ps fs p
    → WorkInv (conn_event_free_list_add c p) ps (p ∷ fs)
unfolding conn_event_free_list_add
add-WorkInv c ps fs p (h, out) = record {
  owns = free_list_add-Owns c ps fs p h.owns out.not_queued out.not_freed;
  exclusive = h.exclusive;
  classed = h.classed;
  placed = λ k q s. let at = h.placed k q s in (at.0, at.1, (out.no_slot k q s, at.2));
  aborted = h.aborted;
}

free_list_add-active : (c : Conn) (p : ℕ) → (conn_event_free_list_add c p).active ≡ c.active
unfolding conn_event_free_list_add
free_list_add-active c p = refl

-- An event that ConnEventProcess is done with, in whatever way, leaves its slot and no other slot
-- changes; it becomes the first event to free, and the invariant of the queue is kept.
pub finish-WorkInv :
    (c : Conn) (ps fs : List ℕ) (p : ℕ)
    → WorkInv c ps fs
    → slot c.active (class_of (c.events.type p)) ≡ some p
    → (qs : List ℕ) × (gs : List ℕ) × WorkInv (finish c p) qs (p ∷ gs)
      × ((finish c p).active ≡ set_active c.active (class_of (c.events.type p)) none)
unfolding finish
finish-WorkInv c ps fs p h e =
    let c1 = conn_event_in_progress_clear c p in
    let c2 = capture_stats (c1.events.event_class p) (c1.events.transferred p) c1 in
    let cleared = clear-Held c ps fs p h e in
    let counted =
      capture_stats-Held c1 ps fs p (c1.events.transferred p) (c1.events.event_class p) cleared in
    let (qs, gs, held, same) = handle_errors-Held c2 ps fs p counted.0 in
    (
      qs,
      gs,
      add-WorkInv (handle_errors c2 p) qs gs p held,
      free_list_add-active (handle_errors c2 p) p
          ∙ same
          ∙ counted.1
          ∙ ap (λ d. d.active)
              (in_progress_clear_lem c p (class_of (c.events.type p)) (h.classed p)),
    )
