-- ===== src/Reading/Connecting.antt =====
-- The calls of src/connio.c that start or end SSL and disconnect, and the other asynchronous calls
-- that hand the connection to the queue.
use connio.Prelude.{ℕ, Bool, true, false, ◌&&◌, not, Option, none, some, [], ◌==◌, if◌then◌else◌}
use connio.Errno.{enotconn, ealready, econnhandleshutdown}
use connio.Conn.{
  Conn, CodeSource, complete, ConnEventType, disconnect, ssl_connect, tls_connect, ssl_accept,
  tls_accept, ssl_disconnect, flush, class_connect, class_send,
}
use connio.Sync.{synchronous_connect_event_insert, synchronous_connect_event_remove}
use connio.EventQueue.{event_queue_count_flushes}
use connio.Transaction.{Outcome}
use connio.Enqueue.{
  Enqueued, event_enqueue, event_enqueue_failure, events_submit, events_queued,
  buffered_send_data_get,
}
use connio.IoBuffer.{IoBuffers}
use connio.Process.Dispatch.{Job, mode_synchronous, conn_event_process}
use connio.Reading.{request, no_flags, Caller, read_job, flush_job, start_async}

-- What connIsStillConnected, connIsNotSecured and connIsSecured find: errno, 0 for TRUE.
unfoldable pub still_connected : Conn → ℕ
still_connected c = if c.sp.valid then 0 else enotconn

unfoldable pub not_secured : Conn → ℕ
not_secured c = if c.sp.ssl_conn then ealready else 0

unfoldable pub secured : Conn → ℕ
secured c = if c.sp.ssl_conn then 0 else ealready

unfoldable pub ready_for_event : Conn → ℕ
unfolding still_connected not_secured
ready_for_event c = if still_connected c == 0 then not_secured c else still_connected c

module _ (B : IoBuffers) where
  -- The result of a call, errno, and the connection.
  pub record Done : Type 0 where
    pub result : Bool
    pub errno : ℕ
    pub conn : Conn

  -- ConnEventAssign for an event of the connect class, whose pass drains the receive buffer.
  unfoldable pub connect_job : Caller B → ConnEventType → Job B
  unfolding read_job
  connect_job k t = record (read_job B k (request t [] 0 mode_synchronous no_flags)) {
    start = false;
    has_buffer = false;
  }

  -- The event itself, after errno of the flush.
  unfoldable pub perform_connect : Caller B → Conn → ConnEventType → ℕ → Option Done
  unfolding connect_job conn_event_process synchronous_connect_event_remove
  perform_connect k c t errno = elim (conn_event_process B false k.reads errno (connect_job k t)) [
    | none ↦ none
    | some (status, e, j) ↦ some (record {
      result = elim status [ complete ↦ true | _ ↦ false ];
      errno = elim t [ ssl_disconnect ↦ j.error | _ ↦ e ];
      conn = (synchronous_connect_event_remove c k.event).1;
    })
  ]

  -- ImplicitFlushOnConnectEvent, and then the event.
  unfoldable pub flush_and_perform : Caller B → Bool × Conn → ConnEventType → Option Done
  unfolding flush_job conn_event_process perform_connect
  flush_and_perform k (false, c) t = perform_connect k c t 0
  flush_and_perform k (true, c) t = elim (conn_event_process B false k.flushes 0 (flush_job B k)) [
    | none ↦ none
    | some (status, e, j) ↦ perform_connect k c t e
  ]

  -- A call that holds the connect slot; `check` is the errno value of what it requires of the
  -- connection.
  unfoldable pub connect_call : Caller B → (Conn → ℕ) → ConnEventType → Option Done
  unfolding flush_and_perform synchronous_connect_event_insert synchronous_connect_event_remove
      buffered_send_data_get
  connect_call k check t =
      let (failure, c) = synchronous_connect_event_insert k.conn k.event in
      elim failure [
        | some e ↦ some (record { result = false; errno = e; conn = c })
        | none ↦
            if check c == 0
            then flush_and_perform k (buffered_send_data_get c) t
            else some (record {
              result = false;
              errno = check c;
              conn = (synchronous_connect_event_remove c k.event).1;
            })
      ]

  unfoldable pub unless_shutting_down : Caller B → Option Done → Option Done
  unless_shutting_down k o =
      if k.conn.handle.shutting_down
      then some (record { result = false; errno = econnhandleshutdown; conn = k.conn })
      else o

  unfoldable pub conn_disconnect_ex : Caller B → Option Done
  unfolding connect_call ready_for_event
  conn_disconnect_ex k = connect_call k ready_for_event disconnect

  unfoldable pub conn_ssl_connect_ex : Caller B → Bool → Option Done
  unfolding connect_call ready_for_event unless_shutting_down
  conn_ssl_connect_ex k tls =
      unless_shutting_down k
        (connect_call k ready_for_event (if tls then tls_connect else ssl_connect))

  unfoldable pub conn_ssl_accept_ex : Caller B → Bool → Option Done
  unfolding connect_call ready_for_event unless_shutting_down
  conn_ssl_accept_ex k tls =
      unless_shutting_down k
        (connect_call k ready_for_event (if tls then tls_accept else ssl_accept))

  unfoldable pub conn_ssl_disconnect_ex : Caller B → Option Done
  unfolding connect_call secured
  conn_ssl_disconnect_ex k = connect_call k secured ssl_disconnect

-- What an asynchronous call needs beside the connection: whether the handle allows such calls, the
-- addresses that three allocations give, and the place of the call.
pub record Site : Type 0 where
  pub async_enabled : Bool
  pub alloc : Option ℕ
  pub flush_alloc : Option ℕ
  pub ssl_alloc : Option ℕ
  pub source : CodeSource

unfoldable pub start_connect : Site → Conn → ConnEventType → Option Enqueued × Conn
unfolding start_async
start_connect s c t =
    if s.async_enabled
    then start_async c s.alloc s.flush_alloc s.ssl_alloc s.source t class_connect
    else (none, c)

unfoldable pub conn_a_disconnect_ex : Site → Conn → Option Enqueued × Conn
unfolding start_connect
conn_a_disconnect_ex s c = start_connect s c disconnect

-- A handle that shuts down refuses the call without a report, unlike the next one.
unfoldable pub conn_a_ssl_connect_ex : Site → Conn → Bool → Option Enqueued × Conn
unfolding start_connect
conn_a_ssl_connect_ex s c tls =
    if c.handle.shutting_down
    then (none, c)
    else start_connect s c (if tls then tls_connect else ssl_connect)

unfoldable pub conn_a_ssl_accept_ex : Site → Conn → Bool → Option Enqueued × Conn
unfolding start_connect event_enqueue_failure
conn_a_ssl_accept_ex s c tls =
    if s.async_enabled && c.handle.shutting_down
    then (none, event_enqueue_failure c econnhandleshutdown s.source)
    else start_connect s c (if tls then tls_accept else ssl_accept)

unfoldable pub conn_a_ssl_disconnect_ex : Site → Conn → Option Enqueued × Conn
unfolding start_connect
conn_a_ssl_disconnect_ex s c = start_connect s c ssl_disconnect

-- connAFlushEx; `alloc` is the address of the new event.
unfoldable pub conn_a_flush_data : Site → Conn → Option Enqueued × Conn
unfolding start_async
conn_a_flush_data s c = start_async c s.alloc s.flush_alloc s.ssl_alloc s.source flush class_send

unfoldable pub conn_a_flush_ex : Site → Conn → Option Enqueued × Conn
unfolding conn_a_flush_data buffered_send_data_get
conn_a_flush_ex s c =
    let (has_data, d) = buffered_send_data_get c in
    if not s.async_enabled then (none, c) else if has_data then conn_a_flush_data s d else (none, d)

unfoldable pub conn_a_noop_ex : Site → Conn → Option Enqueued × Conn
unfolding event_enqueue
conn_a_noop_ex s c =
    let (done, d) = event_enqueue c none s.flush_alloc s.ssl_alloc s.source in
    if s.async_enabled then (some done, d) else (none, c)

unfoldable pub conn_a_queued_events_ex : Site → Conn → Bool
unfolding events_queued
conn_a_queued_events_ex s c = s.async_enabled && events_queued c

-- `callback` tells whether the success callback is not NULL.
unfoldable pub conn_a_submit_ex : Site → Conn → Bool → ℕ → Option Outcome × Conn
unfolding events_submit
conn_a_submit_ex s c callback client =
    if callback && s.async_enabled then events_submit c client s.source else (none, c)

unfoldable pub conn_a_write_backlog_ex : Site → Conn → ℕ
unfolding event_queue_count_flushes
conn_a_write_backlog_ex s c = if s.async_enabled then event_queue_count_flushes c else 0
