-- ===== src/Enqueue/Report.antt =====
-- What the consumer learns of a transaction: the summary and the choice of the callback in
-- src/queue.c.
use connio.Prelude.{ℕ, ◌≡◌, ◌≢◌, refl, true, false, Option, none, some, List, arith, first_or}
use connio.Errno.{eperm}
use connio.Conn.{
  Conn, ConnEventStatus, CodeSource, partial, failed, complete, idle, asynchronous_engine_complete,
}
use connio.EventQueue.FreeList.{Owns, FreeLinked}
use connio.Transaction.{
  event_queue_abort, returned, process_enter, pick, conn_event_next, leave, conn_events_in_progress,
  set_async_problem,
}
use connio.Transaction.Abort.{event_queue_abort_lem, freed_onto}
use connio.Enqueue.{
  prepare_for_callback, preserve_async_summary, callback_async_consumer, success, failure, zeroed,
  events_submit, submit_problem,
}

-- After the first problem of a transaction, the summary given to the consumer has the status, the
-- error and the place of that problem, the list of events to free is handed over, whose links lead
-- through the queued events, the last one first, and then through those that were to free before, and
-- the connection is idle with a new transaction. As the status is neither COMPLETE nor PARTIAL, the
-- failure callback is called if there is one.
pub abort-report :
    (c : Conn) (ps fs : List ℕ) (current : Option ℕ) (status : ConnEventStatus) (error : ℕ)
    (source : CodeSource)
    → Owns c ps fs
    → c.tx.problem ≡ none
    → status ≢ complete
    → status ≢ partial
    → let (summary, freed, d) =
        prepare_for_callback (event_queue_abort c current status error source) in
      (summary.status ≡ status)
      × (summary.problem ≡ some (error, source))
      × (freed ≡ first_or none (freed_onto ps fs))
      × FreeLinked d.events.links (freed_onto ps fs)
      × (d.state ≡ idle)
      × (d.tx ≡ zeroed)
      × (callback_async_consumer summary true ≡ failure)
      × (callback_async_consumer summary false ≡ success)
unfolding prepare_for_callback preserve_async_summary callback_async_consumer
abort-report c ps fs current status error source h fine n1 n2 =
    let (owns, e, _, _, _) = event_queue_abort_lem c ps fs current status error source h fine in
    (
      ground arith,
      ground arith,
      owns.head_free,
      owns.free_linked,
      refl,
      refl,
      ground arith,
      ground arith,
    )

-- A submit on an idle connection without events does not fail: it reports EPERM through the
-- failure callback, which is called at once.
pub events_submit-idle :
    (c : Conn) (client : ℕ) (source : CodeSource)
    → c.state ≡ idle
    → c.tx ≡ zeroed
    → conn_events_in_progress c ≡ false
    → let (o, d) = events_submit c client source in
      (o ≡ some (returned false))
      × (d.state ≡ asynchronous_engine_complete)
      × ((prepare_for_callback d).0.status ≡ failed)
      × ((prepare_for_callback d).0.problem ≡ some (eperm, source))
      × ((prepare_for_callback d).0.client ≡ client)
unfolding events_submit submit_problem process_enter leave conn_events_in_progress set_async_problem
    prepare_for_callback preserve_async_summary pick conn_event_next
events_submit-idle c client source e z q =
    (ground arith, ground arith, ground arith, ground arith, ground arith)
