-- ===== src/Enqueue.antt =====
-- The way into the asynchronous queue and out of it again, lines 550 to 955 of src/queue.c: what may
-- be queued, queueing and submitting, and the summary that the consumer's callback gets. An errno
-- value that a function leaves is part of its result.
pub mod Report
pub mod Order
pub mod Stall
use connio.Prelude.{
  ℕ, zero, suc, ◌+◌, Bool, true, false, ◌&&◌, ◌||◌, not, Option, none, some, List, [], ◌∷◌, ◌==◌,
  ltb, if◌then◌else◌,
}
use connio.Errno.{eperm, enomem, ebusy, einval, eshutdown}
use connio.Dll.{update}
use connio.Conn.{
  Conn, ConnEvents, ConnEventType, ConnEventStatus, ConnEventClass, ConnState, CodeSource,
  AsyncProblem, AsyncTransaction, ActiveEvent, Sock, disconnect, ssl_disconnect, flush, ssl_connect,
  class_connect, class_receive, class_send, queued, partial, complete, failed, killed, free, cached,
  idle, synchronous, asynchronous_client, asynchronous_engine, asynchronous_engine_complete,
  synchronous_listener, asynchronous_listener,
}
use connio.Conn.InProgress.{conn_change_state}
use connio.EventQueue.{
  event_queue_append_event, conn_event_free_list_add, conn_event_free_list_grab,
}
use connio.Transaction.{
  Outcome, working, returned, set_async_problem, event_queue_abort, process_enter,
}

-- `none` is TRUE, an errno value is FALSE.
unfoldable pub queueing_permitted : ConnState → Option ℕ
queueing_permitted idle = none
queueing_permitted asynchronous_client = none
queueing_permitted asynchronous_engine_complete = some ebusy
queueing_permitted asynchronous_engine = some ebusy
queueing_permitted synchronous = some ebusy
queueing_permitted synchronous_listener = some ebusy
queueing_permitted asynchronous_listener = some ebusy
queueing_permitted cached = some einval
queueing_permitted free = some einval

-- The error that a submit meets, 0 for none.
unfoldable pub submit_problem : ConnState → ℕ
submit_problem asynchronous_client = 0
submit_problem idle = eperm
submit_problem asynchronous_engine_complete = ebusy
submit_problem asynchronous_engine = ebusy
submit_problem synchronous = ebusy
submit_problem synchronous_listener = ebusy
submit_problem asynchronous_listener = ebusy
submit_problem cached = einval
submit_problem free = einval

unfoldable pub events_queued : Conn → Bool
events_queued c = submit_problem c.state == 0

-- An event that may be queued while the handle shuts down.
unfoldable pub ends_connection : ConnEventType → Bool
ends_connection disconnect = true
ends_connection ssl_disconnect = true
ends_connection flush = true
ends_connection _ = false

unfoldable pub event_engine_queue_add : Conn → ℕ → Conn
event_engine_queue_add c ce = elim c.tx.problem [
  | some p ↦ conn_event_free_list_add c ce
  | none ↦
      if not c.handle.shutting_down || ends_connection (c.events.type ce)
      then event_queue_append_event c ce
      else conn_event_free_list_add (set_async_problem c killed eshutdown (c.events.source ce)).1 ce
]

pub record AsyncSummary : Type 0 where
  pub sent : ℕ
  pub received : ℕ
  pub client : ℕ
  pub status : ConnEventStatus
  pub problem : Option (ℕ × CodeSource)

unfoldable pub preserve_async_summary : AsyncTransaction → AsyncSummary
preserve_async_summary t = record {
  sent = t.sent;
  received = t.received;
  client = t.client;
  status = elim t.problem [ none ↦ complete | some p ↦ p.status ];
  problem = elim t.problem [ none ↦ none | some p ↦ some (p.error, p.source) ];
}

-- `memset( &( conn->async.transaction ), 0, … )`.
abbrev pub zeroed : AsyncTransaction
zeroed = record {
  queue = record { head = none; tail = none };
  count = 0;
  free_list = none;
  sent = 0;
  received = 0;
  client = 0;
  problem = none;
  threads = 0;
  ssl_enabled = false;
}

-- The summary, the list of events to free, and the connection, ready for a new transaction.
unfoldable pub prepare_for_callback : Conn → AsyncSummary × Option ℕ × Conn
unfolding conn_change_state
prepare_for_callback c =
    (preserve_async_summary c.tx, c.tx.free_list, conn_change_state (record c { tx = zeroed }) idle)

pub data Callback : Type 0 where
  success failure : Callback

abbrev is_good : ConnEventStatus → Bool
is_good complete = true
is_good partial = true
is_good _ = false

-- Which of the consumer's callbacks is called. The second argument tells whether there is one for
-- failures.
unfoldable pub callback_async_consumer : AsyncSummary → Bool → Callback
callback_async_consumer s has_failure =
    if is_good s.status then success else if not has_failure then success else failure

-- Whether an SSL disconnect has to be queued before the event.
unfoldable pub ssl_disconnect_event_needed : Conn → ℕ → Bool × Conn
ssl_disconnect_event_needed c ce = elim (c.events.type ce) [
  | disconnect ↦ (c.tx.ssl_enabled, record c { tx = record c.tx { ssl_enabled = false } })
  | ssl_connect ↦ (false, record c { tx = record c.tx { ssl_enabled = true } })
  | ssl_disconnect ↦ (false, record c { tx = record c.tx { ssl_enabled = false } })
  | _ ↦ (false, c)
]

unfoldable pub async_queue_status_init : Conn → Conn
async_queue_status_init c =
    if c.sp.valid && c.sp.ssl_conn then record c { tx = record c.tx { ssl_enabled = true } } else c

-- The connection becomes one of an asynchronous client, if it is not yet.
unfoldable pub become_client : Conn → Conn
unfolding async_queue_status_init conn_change_state
become_client c = elim c.state [
  | asynchronous_client ↦ c
  | _ ↦ conn_change_state (async_queue_status_init c) asynchronous_client
]

-- What connEventAlloc, _ConnEventInit and ConnEventAssign write to a new event at the address `ce`.
unfoldable pub conn_event_assign :
    ConnEvents → ℕ → ConnEventType → ConnEventClass → CodeSource → ConnEvents
conn_event_assign es ce t k source = record {
  type = update es.type ce t;
  event_class = update es.event_class ce k;
  error = update es.error ce 0;
  status = update es.status ce queued;
  transferred = update es.transferred ce 0;
  source = update es.source ce source;
  inserted = update es.inserted ce false;
  links = record {
    next = update es.links.next ce none;
    previous = update es.links.previous ce none;
  };
}

create : Option ℕ → ConnEventType → ConnEventClass → CodeSource → Conn → Option ℕ × Conn
create none t k source c = (none, c)
create (some ce) t k source c =
    (some ce, record c { events = conn_event_assign c.events ce t k source })

-- An address that `alloc` gives, or NULL where the memory is exhausted.
unfoldable pub ssl_disconnect_event_create : Option ℕ → CodeSource → Conn → Option ℕ × Conn
unfolding create conn_event_assign
ssl_disconnect_event_create alloc source c = create alloc ssl_disconnect class_connect source c

unfoldable pub flush_a_event_create : Option ℕ → CodeSource → Conn → Option ℕ × Conn
unfolding create conn_event_assign
flush_a_event_create alloc source c = create alloc flush class_send source c

-- bufferedSendDataGet with the option WITH_DATA: whether there is data to send. The buffer leaves
-- the connection, or is freed.
unfoldable pub buffered_send_data_get : Conn → Bool × Conn
buffered_send_data_get c = elim c.send_buffer [
  | none ↦ (false, c)
  | some used ↦ (ltb 0 used, record c { send_buffer = none })
]

flush_needed : Bool × Conn → Option ℕ → CodeSource → Option (Option ℕ) × Conn
unfolding flush_a_event_create
flush_needed (false, c) alloc source = (none, c)
flush_needed (true, c) alloc source =
    let (ce, d) = flush_a_event_create alloc source c in (some ce, d)

-- `none` is FALSE, and TRUE comes with the new event or NULL.
unfoldable pub flush_a_event_needed : Conn → ℕ → Option ℕ → CodeSource → Option (Option ℕ) × Conn
unfolding flush_needed buffered_send_data_get
flush_a_event_needed c ce alloc source = elim (c.events.event_class ce) [
  | class_send ↦ (none, c)
  | _ ↦ flush_needed (buffered_send_data_get c) alloc source
]

-- A new event of the library's own is queued; without memory for it the queue is aborted.
unfoldable pub queue_inserted : CodeSource → Option ℕ × Conn → Conn
unfolding event_engine_queue_add
queue_inserted source (none, c) = event_queue_abort c none failed enomem source
queue_inserted source (some ce, c) =
    event_engine_queue_add
      (record c { events = record c.events { inserted = update c.events.inserted ce true } }) ce

unfoldable pub add_flush : CodeSource → Option (Option ℕ) × Conn → Conn
unfolding queue_inserted
add_flush source (none, c) = c
add_flush source (some ce, c) = queue_inserted source (ce, c)

unfoldable pub add_ssl_disconnect : Option ℕ → CodeSource → Bool × Conn → Conn
unfolding queue_inserted ssl_disconnect_event_create
add_ssl_disconnect alloc source (false, c) = c
add_ssl_disconnect alloc source (true, c) =
    queue_inserted source (ssl_disconnect_event_create alloc source c)

-- `if( connEvent ) { … }`: the events go in, those of the library's own first.
unfoldable pub enqueue_events : Conn → Option ℕ → Option ℕ → Option ℕ → CodeSource → Conn
unfolding add_flush add_ssl_disconnect flush_a_event_needed ssl_disconnect_event_needed
    event_engine_queue_add
enqueue_events c none flush_alloc ssl_alloc source = c
enqueue_events c (some ce) flush_alloc ssl_alloc source =
    let c1 = add_flush source (flush_a_event_needed c ce flush_alloc source) in
    let c2 = add_ssl_disconnect ssl_alloc source (ssl_disconnect_event_needed c1 ce) in
    event_engine_queue_add c2 ce

-- FALSE with an errno value, TRUE without any work done, or what the thread does that goes on
-- into ConnEventsProcess.
pub data Enqueued : Type 0 where
  refused : ℕ → Enqueued
  waiting : Enqueued
  entered : Outcome → Enqueued

enter : Outcome × Conn → Enqueued × Conn
enter (o, c) = (entered o, c)

unfoldable pub event_enqueue : Conn → Option ℕ → Option ℕ → Option ℕ → CodeSource → Enqueued × Conn
unfolding queueing_permitted become_client enqueue_events enter
event_enqueue c ce flush_alloc ssl_alloc source = elim (queueing_permitted c.state) [
  | some e ↦ (refused e, c)
  | none ↦
      let d = enqueue_events (become_client c) ce flush_alloc ssl_alloc source in
      if d.handle.wait_for_submit then (waiting, d) else enter (process_enter d none)
]

-- `errno` is the error that made the caller give up.
unfoldable pub event_enqueue_failure : Conn → ℕ → CodeSource → Conn
unfolding queueing_permitted become_client
event_enqueue_failure c errno source = elim (queueing_permitted c.state) [
  | some e ↦ c
  | none ↦ event_queue_abort (become_client c) none failed errno source
]

submit : Conn → ℕ → Outcome × Conn
unfolding conn_change_state
submit c client =
    let d = conn_change_state c asynchronous_engine in
    process_enter (record d { tx = record d.tx { client = client } }) none

-- `none` is FALSE; otherwise what the thread does that goes on into ConnEventsProcess.
unfoldable pub events_submit : Conn → ℕ → CodeSource → Option Outcome × Conn
unfolding submit_problem submit
events_submit c client source =
    let err = submit_problem c.state in
    if err == 0
    then (let (o, d) = submit c client in (some o, d))
    else if err == eperm
    then (let (o, d) = submit (set_async_problem c failed err source).1 client in (some o, d))
    else (none, c)
