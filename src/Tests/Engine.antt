-- ===== src/Tests/Engine.antt =====
-- Tests of the transaction engine of src/queue.c: aborts, the end of an event, submit and stall.
use connio.Prelude.{
  ℕ, ◌≡◌, refl, inl, inr, ap, subst, NotIn, true, false, none, some, List, [], ◌∷◌, arith, first_or,
}
use connio.Errno.{ecanceled}
use connio.Dll.{append}
use connio.Conn.{
  Conn, ConnEventClass, class_connect, class_receive, class_send, set_status, failed, partial, idle,
}
use connio.EventQueue.{event_queue_append_event}
use connio.EventQueue.Contents.{IsQueue, append-IsQueue}
use connio.EventQueue.Scan.{class_of}
use connio.Transaction.{event_queue_abort, finish, process_enter}
use connio.Transaction.Abort.{event_queue_abort-cancels, freed_onto, Owns-same}
use connio.Transaction.Invariant.{WorkInv, Placed, set_active}
use connio.Transaction.Finish.{finish-WorkInv}
use connio.Transaction.Steps.{Reaches, Works, start, next, enters, resumes, Reaches-Works}
use connio.Conn.{complete}
use connio.Transaction.{resume}
use connio.Enqueue.{
  prepare_for_callback, callback_async_consumer, zeroed, success, failure, enqueue_events,
}
use connio.EventQueue.FreeList.{FreeLinked}
use connio.Enqueue.Report.{abort-report}
use connio.Enqueue.Order.{IsEnded, enqueue_events-IsQueue}
use connio.Enqueue.Stall.{IsStuck, finish-IsStuck}
use connio.Tests.Sample.{sample, empty_conn, empty-IsQueue, sample-Owns, sample-WorkInv, here}

-- The sample while a read (9) is in progress.
abbrev reading : Conn
reading = record sample { active = record { connect = none; send = none; receive = some 9 } }

reading-Placed : (k : ConnEventClass) → Placed reading (1 ∷ 2 ∷ 3 ∷ 4 ∷ []) [] k
unfolding sample event_queue_append_event class_of
reading-Placed class_connect p e = cc
reading-Placed class_receive p e =
    subst
      (λ q.
        (class_of (reading.events.type q) ≡ class_receive)
        × NotIn q (1 ∷ 2 ∷ 3 ∷ 4 ∷ [])
        × NotIn q [])
      (ap (λ o. elim o [ none ↦ 9 | some q ↦ q ]) e) (refl, omega arith, tt)
reading-Placed class_send p e = cc

reading-WorkInv : WorkInv reading (1 ∷ 2 ∷ 3 ∷ 4 ∷ []) []
reading-WorkInv = record {
  owns = Owns-same sample reading (1 ∷ 2 ∷ 3 ∷ 4 ∷ []) [] (refl, refl, refl, refl) sample-Owns;
  exclusive = inl refl;
  classed = sample-WorkInv.classed;
  placed = reading-Placed;
  aborted = sample-WorkInv.aborted;
}

finish-WorkInv_example :
    (qs : List ℕ) × (gs : List ℕ) × WorkInv (finish reading 9) qs (9 ∷ gs)
    × ((finish reading 9).active
        ≡ set_active reading.active (class_of (reading.events.type 9)) none)
unfolding sample event_queue_append_event class_of
finish-WorkInv_example = finish-WorkInv reading (1 ∷ 2 ∷ 3 ∷ 4 ∷ []) [] 9 reading-WorkInv refl

event_queue_abort-cancels_example :
    (event_queue_abort reading none failed 12 here).events.error 9 ≡ ecanceled
unfolding sample event_queue_append_event
event_queue_abort-cancels_example =
    event_queue_abort-cancels reading (1 ∷ 2 ∷ 3 ∷ 4 ∷ []) [] none failed 12 here
      reading-WorkInv.owns refl 9 refl refl (inr refl) cc

abort-report_example :
    let (summary, freed, d) =
      prepare_for_callback (event_queue_abort reading none failed 12 here) in
    (summary.status ≡ failed)
    × (summary.problem ≡ some (12, here))
    × (freed ≡ first_or none (freed_onto (1 ∷ 2 ∷ 3 ∷ 4 ∷ []) []))
    × FreeLinked d.events.links (freed_onto (1 ∷ 2 ∷ 3 ∷ 4 ∷ []) [])
    × (d.state ≡ idle)
    × (d.tx ≡ zeroed)
    × (callback_async_consumer summary true ≡ failure)
    × (callback_async_consumer summary false ≡ success)
unfolding sample event_queue_append_event
abort-report_example =
    abort-report reading (1 ∷ 2 ∷ 3 ∷ 4 ∷ []) [] none failed 12 here reading-WorkInv.owns refl
      (λ e. cc) (λ e. cc)

-- An SSL connection with five bytes to send, whose queue has a read (1).
abbrev secure : Conn
secure =
    event_queue_append_event
      (record empty_conn { send_buffer = some 5; tx = record empty_conn.tx { ssl_enabled = true } })
      1

secure-IsQueue : IsQueue secure (1 ∷ [])
secure-IsQueue =
    append-IsQueue
      (record empty_conn { send_buffer = some 5; tx = record empty_conn.tx { ssl_enabled = true } })
      [] 1 (record { holds = empty-IsQueue.holds; counted = refl; fits = empty-IsQueue.fits }) tt
      (omega arith)

enqueue_events-IsQueue_example :
    let d = enqueue_events secure (some 4) (some 11) (some 12) here in
    IsQueue d (1 ∷ 11 ∷ 12 ∷ 4 ∷ []) × IsEnded d 11 12 4
unfolding event_queue_append_event class_of
enqueue_events-IsQueue_example =
    enqueue_events-IsQueue secure (1 ∷ []) 4 11 12 4 here secure-IsQueue (refl, refl) refl refl refl
      refl (omega arith) (omega arith) (omega arith) (omega arith)

-- The sample while a read (9) ends that found only a part of a line.
abbrev partly_read : Conn
partly_read = record reading { events = set_status reading.events 9 partial }

partly_read-IsStuck : IsStuck (finish partly_read 9)
unfolding sample event_queue_append_event class_of append
partly_read-IsStuck = finish-IsStuck partly_read 9 refl refl refl refl refl

finish-IsStuck_example : IsStuck (finish partly_read 9)
unfolding sample event_queue_append_event class_of append
finish-IsStuck_example = finish-IsStuck partly_read 9 refl refl refl refl refl

-- The read (9) is done, and then another thread comes in.
abbrev after_read : Conn
after_read = (process_enter (resume reading 9 complete).1 none).1

after_read-Reaches : Reaches reading after_read
unfolding sample event_queue_append_event class_of
after_read-Reaches =
    next (next start (resumes reading 9 complete refl)) (enters (resume reading 9 complete).1 none)

Reaches-Works_example : Works after_read
Reaches-Works_example =
    Reaches-Works reading after_read after_read-Reaches (1 ∷ 2 ∷ 3 ∷ 4 ∷ [], [], reading-WorkInv)
