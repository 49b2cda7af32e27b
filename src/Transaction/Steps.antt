-- ===== src/Transaction/Steps.antt =====
-- The interleavings of the threads that work on a transaction in src/queue.c: each step is what one
-- thread does while it holds the event lock, or what it does to an event that it processes.
use connio.Prelude.{ℕ, ◌+◌, ◌≡◌, inl, inr, refl, All, NotIn, Option, none, some, List, [], ◌∷◌}
use connio.Dll.{update}
use connio.Conn.{
  Conn, ConnEventStatus, in_progress, partial, complete, timed_out, failed, killed, queued,
}
use connio.EventQueue.{conn_event_free_list_grab}
use connio.EventQueue.Scan.{class_of}
use connio.Transaction.{Outcome, process_enter, pick, grab, resume, finish}
use connio.Transaction.Abort.{Owns-same}
use connio.Transaction.Invariant.{WorkInv, slot}
use connio.Transaction.Pick.{Picks, pick-Picks}
use connio.Transaction.Finish.{finish-WorkInv}

-- What ConnEventProcess leaves in an event.
abbrev pub worked : Conn → ℕ → ConnEventStatus → ℕ → ℕ → Conn
worked c p status error transferred = record c {
  events = record c.events {
    status = update c.events.status p status;
    error = update c.events.error p error;
    transferred = update c.events.transferred p transferred;
  };
}

-- `enters`: a thread comes into ConnEventsProcess to look for work, or with an event that the socket
-- engine returns. `processes`: an event is worked on. `resumes`: ConnEventProcess returned `status` for
-- an event in its slot, and the thread goes on.
pub data Step : Conn → Conn → Type 0 where
  enters : (c : Conn) (engine : Option ℕ) → Step c (process_enter c engine).1
  processes :
      (c : Conn) (p : ℕ) (status : ConnEventStatus) (error transferred : ℕ)
      → Step c (worked c p status error transferred)
  resumes :
      (c : Conn) (p : ℕ) (status : ConnEventStatus)
      → slot c.active (class_of (c.events.type p)) ≡ some p
      → Step c (resume c p status).1

pub data Reaches (c : Conn) : Conn → Type 0 where
  start : Reaches c c
  next : {d e : Conn} → Reaches c d → Step d e → Reaches c e

-- The invariant with some queue and some events to free.
abbrev pub Works : Conn → Type 0
Works c = (ps : List ℕ) × (fs : List ℕ) × WorkInv c ps fs

Picks-Works : (c : Conn) (ps fs : List ℕ) (r : Outcome × Conn) → Picks c ps fs r → Works r.1
Picks-Works c ps fs r (inl (p, qs, o, free, set, inv)) = (qs, [], inv)
Picks-Works c ps fs r (inr (inl (o, over, s, inv))) = (ps, fs, inv)
Picks-Works c ps fs r (inr (inr (o, why, same, inv))) = (ps, fs, inv)

same-WorkInv :
    (c : Conn) (ps fs : List ℕ) (n : ℕ)
    → WorkInv c ps fs
    → WorkInv (record c { tx = record c.tx { threads = n } }) ps fs
same-WorkInv c ps fs n h = record {
  owns = Owns-same c _ ps fs (refl, refl, refl, refl) h.owns;
  exclusive = h.exclusive;
  classed = h.classed;
  placed = h.placed;
  aborted = h.aborted;
}

worked-WorkInv :
    (c : Conn) (ps fs : List ℕ) (p : ℕ) (status : ConnEventStatus) (error transferred : ℕ)
    → WorkInv c ps fs
    → WorkInv (worked c p status error transferred) ps fs
worked-WorkInv c ps fs p status error transferred h = record {
  owns = Owns-same c _ ps fs (refl, refl, refl, refl) h.owns;
  exclusive = h.exclusive;
  classed = h.classed;
  placed = h.placed;
  aborted = h.aborted;
}

apart-none : (ps : List ℕ) → All (λ p. NotIn p []) ps
apart-none [] = tt
apart-none (p ∷ ps) = (tt, apart-none ps)

grab-WorkInv :
    (c : Conn) (ps fs : List ℕ) → WorkInv c ps fs → WorkInv (conn_event_free_list_grab c).1 ps []
unfolding conn_event_free_list_grab
grab-WorkInv c ps fs h = record {
  owns = record {
    queue = record {
      holds = h.owns.queue.holds;
      counted = h.owns.queue.counted;
      fits = h.owns.queue.fits;
    };
    head_free = refl;
    free_linked = tt;
    apart = apart-none ps;
    distinct_free = tt;
  };
  exclusive = h.exclusive;
  classed = h.classed;
  placed = λ k q s. let at = h.placed k q s in (at.0, at.1, tt);
  aborted = h.aborted;
}

pick-Works : (c : Conn) → Works c → Works (pick none c).1
pick-Works c (ps, fs, h) = Picks-Works c ps fs (pick none c) (pick-Picks c ps fs h)

finish-Works :
    (c : Conn) (p : ℕ)
    → slot c.active (class_of (c.events.type p)) ≡ some p
    → Works c
    → Works (finish c p)
finish-Works c p e (ps, fs, h) =
    let (qs, gs, inv, _) = finish-WorkInv c ps fs p h e in (qs, p ∷ gs, inv)

resume-Works :
    (c : Conn) (p : ℕ) (status : ConnEventStatus)
    → slot c.active (class_of (c.events.type p)) ≡ some p
    → Works c
    → Works (resume c p status).1
unfolding resume
resume-Works c p in_progress e h = pick-Works c h
resume-Works c p queued e h = pick-Works (finish c p) (finish-Works c p e h)
resume-Works c p partial e h = pick-Works (finish c p) (finish-Works c p e h)
resume-Works c p complete e h = pick-Works (finish c p) (finish-Works c p e h)
resume-Works c p timed_out e h = pick-Works (finish c p) (finish-Works c p e h)
resume-Works c p failed e h = pick-Works (finish c p) (finish-Works c p e h)
resume-Works c p killed e h = pick-Works (finish c p) (finish-Works c p e h)

enter-Works : (c : Conn) (engine : Option ℕ) → Works c → Works (process_enter c engine).1
unfolding process_enter pick grab
enter-Works c none (ps, fs, h) = pick-Works _ (ps, fs, same-WorkInv c ps fs (c.tx.threads + 1) h)
enter-Works c (some p) (ps, fs, h) =
    (ps, [], grab-WorkInv _ ps fs (same-WorkInv c ps fs (c.tx.threads + 1) h))

step-Works : (c d : Conn) → Step c d → Works c → Works d
step-Works _ _ (enters c engine) h = enter-Works c engine h
step-Works _ _ (processes c p status error transferred) (ps, fs, h) =
    (ps, fs, worked-WorkInv c ps fs p status error transferred h)
step-Works _ _ (resumes c p status e) h = resume-Works c p status e h

-- Threads come into ConnEventsProcess, with or without an event of the socket engine, process events,
-- and go on when ConnEventProcess returned for an event in its slot. Whatever the order of these
-- steps, from a connection where the invariant of the queue holds, every connection that is reached
-- has a queue and a list of events to free with it.
pub Reaches-Works : (c d : Conn) → Reaches c d → Works c → Works d
Reaches-Works c d start h = h
Reaches-Works c d (next r s) h = step-Works _ d s (Reaches-Works c _ r h)
