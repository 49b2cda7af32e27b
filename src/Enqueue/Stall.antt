-- ===== src/Enqueue/Stall.antt =====
-- The queue of src/queue.c behind an event that ends with a partial result.
use connio.Prelude.{ℕ, ◌≡◌, ◌≢◌, true, false, Option, none, some, arith}
use connio.Conn.{class_receive, Conn, ConnEventStatus, CodeSource, partial}
use connio.Conn.InProgress.{conn_event_in_progress_clear}
use connio.EventQueue.{conn_event_free_list_add}
use connio.Transaction.{
  returned, event_queue_abort, is_some, process_enter, pick, conn_event_next, leave, finish,
  handle_errors, capture_stats, set_async_problem, conn_events_in_progress,
}
use connio.Transaction.Abort.{event_queue_abort-later}
use connio.Enqueue.{events_submit, submit_problem, event_engine_queue_add}

-- There is a problem, work is queued, and nothing is in progress.
abbrev pub IsStuck : Conn → Type 0
IsStuck c =
    (is_some c.tx.problem ≡ true)
    × (is_some c.tx.queue.head ≡ true)
    × (conn_events_in_progress c ≡ false)

-- Whatever is tried on a stuck connection, it stays stuck and its callback is not called: a thread
-- that comes in, another problem (so a kill), another event, or the submit.
pub IsStuck-stays :
    (c : Conn) (current : Option ℕ) (ce error client : ℕ) (status : ConnEventStatus)
    (source : CodeSource)
    → IsStuck c
    → ((process_enter c none).0 ≡ returned true)
      × IsStuck (process_enter c none).1
      × IsStuck (event_queue_abort c current status error source)
      × IsStuck (event_engine_queue_add c ce)
      × ((events_submit c client source).0 ≢ some (returned false))
      × IsStuck (events_submit c client source).1
unfolding events_submit submit_problem process_enter leave conn_events_in_progress set_async_problem
    pick conn_event_next event_engine_queue_add conn_event_free_list_add
IsStuck-stays c current ce error client status source h = (
  ground arith,
  (ground arith, ground arith, ground arith),
  rw (event_queue_abort-later c current status error source h.0) h,
  (ground arith, ground arith, ground arith),
  ground arith,
  (ground arith, ground arith, ground arith),
)

-- A read that ends with a partial result while other events are queued, and no other event is in
-- progress, makes the connection stuck.
pub finish-IsStuck :
    (c : Conn) (p : ℕ)
    → c.events.event_class p ≡ class_receive
    → c.tx.problem ≡ none
    → is_some c.tx.queue.head ≡ true
    → c.events.status p ≡ partial
    → c.active ≡ record { connect = none; send = none; receive = some p }
    → IsStuck (finish c p)
unfolding finish handle_errors capture_stats set_async_problem conn_events_in_progress
    conn_event_free_list_add conn_event_in_progress_clear
finish-IsStuck c p k fine more s active = (ground arith, ground arith, ground arith)
