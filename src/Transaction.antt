-- ===== src/Transaction.antt =====
-- The asynchronous queue at work, lines 230 to 549 of src/queue.c: problems and cancelling, choosing
-- the next event, and the three parts of ConnEventsProcess that run under the event lock.
pub mod Next
pub mod Abort
pub mod Invariant
pub mod Pick
pub mod Finish
pub mod Steps
use connio.Prelude.{
  ℕ, zero, suc, ◌+◌, ◌-◌, ◌^◌, ◌%◌, Bool, true, false, ◌&&◌, ◌||◌, not, Option, none, some, List,
  [], ◌∷◌, ◌==◌, ltb, if◌then◌else◌,
}
use connio.Errno.{eshutdown, ecanceled}
use connio.Dll.{update}
use connio.Conn.{
  Conn, ConnEvents, ConnEventType, ConnEventStatus, ConnEventClass, ConnState, CodeSource,
  AsyncProblem, AsyncTransaction, ActiveEvent, Sock, SocketEventType, type_connect, type_writable,
  type_readable, disconnect, ssl_disconnect, flush, ssl_connect, tls_connect, ssl_accept,
  tls_accept, class_connect, class_receive, class_send, in_progress, partial, complete, timed_out,
  failed, killed, asynchronous_client, asynchronous_engine, asynchronous_engine_complete, set_error,
}
use connio.Conn.InProgress.{
  conn_change_state, conn_event_in_progress_set, conn_event_in_progress_clear,
}
use connio.EventQueue.{
  get_next_enqueued_event, get_next_enqueued_send_event, get_next_enqueued_receive_event,
  conn_event_free_list_add, conn_event_free_list_grab,
}

abbrev pub is_some {ℓ} : {A : Type ℓ} → Option A → Bool
is_some none = false
is_some (some a) = true

abbrev is_ssl_start : ConnEventType → Bool
is_ssl_start ssl_connect = true
is_ssl_start tls_connect = true
is_ssl_start ssl_accept = true
is_ssl_start tls_accept = true
is_ssl_start _ = false

-- SocketSSLFree releases the SSL object that `ssl.new` points to.
unfoldable pub cancel_event : Conn → ℕ → Conn
cancel_event c ce =
    let sp =
      if is_ssl_start (c.events.type ce) && c.sp.ssl_new
      then record c.sp { ssl_new = false }
      else c.sp in
    record c { sp = sp; events = set_error c.events ce ecanceled }

unfoldable pub conn_events_in_progress : Conn → Bool
conn_events_in_progress c =
    is_some c.active.connect || is_some c.active.receive || is_some c.active.send

-- `( slot ) && ( slot != current )`.
abbrev is_other : Option ℕ → Option ℕ → Bool
is_other none current = false
is_other (some p) none = true
is_other (some p) (some q) = not (p == q)

-- `slot->error = ECANCELED; SocketEventKill( conn->sp, kind )`.
kill_slot : Option ℕ → SocketEventType → Conn → Conn
kill_slot none kind c = c
kill_slot (some p) kind c = record c {
  events = set_error c.events p ecanceled;
  sp = record c.sp { kills = kind ∷ c.sp.kills };
}

is_disconnect : ConnEvents → Option ℕ → Bool
is_disconnect es none = false
is_disconnect es (some p) = elim (es.type p) [
  | disconnect ↦ true
  | ssl_disconnect ↦ true
  | _ ↦ false
]

-- `if( ( slot ) && ( slot != current ) ) { … }`
kill_other : Option ℕ → Option ℕ → SocketEventType → Conn → Conn
unfolding kill_slot
kill_other current slot kind c = if is_other slot current then kill_slot slot kind c else c

unfoldable pub cancel_events_in_progress : Conn → Option ℕ → Conn
unfolding conn_events_in_progress kill_slot kill_other is_disconnect
cancel_events_in_progress c current =
    if not (conn_events_in_progress c && c.sp.valid)
    then c
    else if is_other c.active.connect current
    then (if is_disconnect c.events c.active.connect
        then c
        else kill_slot c.active.connect type_connect c)
    else (let c1 = kill_other current c.active.send type_writable c in
        kill_other current c1.active.receive type_readable c1)

pub empty_queue : ℕ → Option ℕ × Conn → Conn
empty_queue fuel (none, c) = c
empty_queue zero (some ce, c) = c
empty_queue (suc fuel) (some ce, c) =
    empty_queue fuel (get_next_enqueued_event (conn_event_free_list_add c ce))

-- Each round takes an event out of the queue, so that `count` is fuel enough.
unfoldable pub cancel_queued_events : Conn → Conn
unfolding empty_queue
cancel_queued_events c = empty_queue c.tx.count (get_next_enqueued_event c)

unfoldable pub set_async_problem : Conn → ConnEventStatus → ℕ → CodeSource → Bool × Conn
set_async_problem c status error source = elim c.tx.problem [
  | none ↦ (
    true,
    record c {
      tx = record c.tx {
        problem = some (record { status = status; error = error; source = source });
      };
    },
  )
  | some p ↦ (false, c)
]

pub abort_rest : Bool × Conn → Option ℕ → Conn
abort_rest (true, c) ce = cancel_events_in_progress (cancel_queued_events c) ce
abort_rest (false, c) ce = c

unfoldable pub event_queue_abort : Conn → Option ℕ → ConnEventStatus → ℕ → CodeSource → Conn
unfolding abort_rest
event_queue_abort c ce status error source = abort_rest (set_async_problem c status error source) ce

-- By the slots `connect`, `receive` and `send`.
unfoldable pub choose : Option ℕ → Option ℕ → Option ℕ → Conn → Option ℕ × Conn
choose (some e) receive send c = (none, c)
choose none (some r) (some s) c = (none, c)
choose none (some r) none c = get_next_enqueued_send_event c
choose none none (some s) c = get_next_enqueued_receive_event c
choose none none none c = get_next_enqueued_event c

unfoldable pub conn_event_next : Conn → Option ℕ × Conn
unfolding choose
conn_event_next c =
    if is_some c.tx.problem
    then (none, c)
    else if not (is_some c.tx.queue.head)
    then (none, c)
    else choose c.active.connect c.active.receive c.active.send c

abbrev is_client : ConnState → Bool
is_client asynchronous_client = true
is_client _ = false

-- What a thread does when it leaves the part of ConnEventsProcess that holds the lock: work on an
-- event, with a list of events to free first, or return with the result.
pub data Outcome : Type 0 where
  working : ℕ → Option ℕ → Outcome
  returned : Bool → Outcome

-- From `conn->async.transaction.threads--` to the end of ConnEventsProcess.
unfoldable pub leave : Conn → Outcome × Conn
unfolding conn_events_in_progress conn_change_state
leave c =
    let c1 = record c { tx = record c.tx { threads = c.tx.threads - 1 } } in
    if is_some c1.tx.queue.head
    then (returned true, c1)
    else if conn_events_in_progress c1
    then (returned true, c1)
    else if is_client c1.state
    then (returned true, c1)
    else if ltb 0 c1.tx.threads
    then (returned true, c1)
    else (returned false, conn_change_state c1 asynchronous_engine_complete)

pub grab : ℕ → Conn → Outcome × Conn
grab ce c = let (free_list, c1) = conn_event_free_list_grab c in (working ce free_list, c1)

pub picked : Option ℕ × Conn → Outcome × Conn
unfolding leave grab
picked (none, c) = leave c
picked (some ce, c) = grab ce (conn_event_in_progress_set c ce)

-- From the top of the loop to the release of the lock. An event of the socket engine is in
-- progress already.
unfoldable pub pick : Option ℕ → Conn → Outcome × Conn
unfolding picked grab
pick (some ce) c = grab ce c
pick none c = picked (conn_event_next c)

unfoldable pub process_enter : Conn → Option ℕ → Outcome × Conn
unfolding pick
process_enter c engine_event =
    pick engine_event (record c { tx = record c.tx { threads = c.tx.threads + 1 } })

abbrev pub uint_mod : ℕ
uint_mod = 2 ^ 32

unfoldable pub capture_stats : ConnEventClass → ℕ → Conn → Conn
capture_stats class_receive n c = record c {
  tx = record c.tx { received = (c.tx.received + n) % uint_mod };
}
capture_stats class_send n c = record c { tx = record c.tx { sent = (c.tx.sent + n) % uint_mod } }
capture_stats class_connect n c = c

abbrev is_failure : ConnEventStatus → Bool
is_failure timed_out = true
is_failure failed = true
is_failure killed = true
is_failure _ = false

abbrev is_partial : ConnEventStatus → Bool
is_partial partial = true
is_partial _ = false

abbrev is_shutdown_event : ConnEventType → Bool
is_shutdown_event flush = true
is_shutdown_event ssl_disconnect = true
is_shutdown_event disconnect = true
is_shutdown_event _ = false

-- `/* handle errors */`
unfoldable pub handle_errors : Conn → ℕ → Conn
handle_errors c ce =
    if is_some c.tx.problem
    then cancel_event c ce
    else if is_failure (c.events.status ce)
    then event_queue_abort c (some ce) (c.events.status ce) (c.events.error ce) (c.events.source ce)
    else if is_partial (c.events.status ce)
    then (set_async_problem c (c.events.status ce) (c.events.error ce) (c.events.source ce)).1
    else if c.handle.shutting_down && not (is_shutdown_event (c.events.type ce))
    then event_queue_abort (cancel_event c ce) (some ce) killed eshutdown (c.events.source ce)
    else c

-- From `/* clear in progress */` to the end of the loop's body.
unfoldable pub finish : Conn → ℕ → Conn
unfolding capture_stats handle_errors
finish c ce =
    let c1 = conn_event_in_progress_clear c ce in
    let c2 = capture_stats (c1.events.event_class ce) (c1.events.transferred ce) c1 in
    conn_event_free_list_add (handle_errors c2 ce) ce

-- The loop goes on after ConnEventProcess returned `status` for the event.
unfoldable pub resume : Conn → ℕ → ConnEventStatus → Outcome × Conn
unfolding pick finish
resume c ce in_progress = pick none c
resume c ce _ = pick none (finish c ce)
