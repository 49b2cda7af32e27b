-- ===== src/Reading/Passing.antt =====
-- The calls of src/connio.c that read into a callback or into another connection, and ConnFlushEx.
use connio.Prelude.{
  ℕ, zero, ℤ, pos, negsuc, Bool, true, false, not, Option, none, some, [], if◌then◌else◌,
}
use connio.Errno.{einval, econnhandleshutdown}
use connio.Conn.{Conn, CodeSource, ConnEventType, read_to_cb, read_to_conn, class_receive, idle}
use connio.Sync.{
  synchronous_receive_event_insert, synchronous_send_event_insert, synchronous_send_event_remove,
}
use connio.Enqueue.{Enqueued, event_enqueue_failure, buffered_send_data_get}
use connio.IoBuffer.{IoBuffers}
use connio.Process.Dispatch.{Job, mode_synchronous, conn_event_process}
use connio.Reading.{
  request, no_flags, size_of, Caller, Reply, read_job, flush_job, stopped_early, inserted,
  start_async,
}

-- Go on, return 0 without an error, or return with errno.
pub data Verdict : Type 0 where
  accepted nothing_to_do : Verdict
  invalid : ℕ → Verdict

-- `dest` tells whether the pointer is not NULL.
unfoldable pub valid_conn_io_args : Bool → ℤ → Verdict
valid_conn_io_args dest (pos zero) = nothing_to_do
valid_conn_io_args true _ = accepted
valid_conn_io_args false _ = invalid einval

unfoldable pub valid_conn_io_args2 : Bool → ℤ → Verdict
valid_conn_io_args2 dest (negsuc n) = invalid einval
valid_conn_io_args2 true (pos n) = accepted
valid_conn_io_args2 false (pos n) = invalid einval

-- The check of the handle comes after that of the arguments.
unfoldable pub in_use : Conn → Verdict → Verdict
in_use c accepted = if c.handle.shutting_down then invalid econnhandleshutdown else accepted
in_use c v = v

module _ (B : IoBuffers) where
  -- ConnEventAssign for a read into a callback.
  unfoldable pub callback_job : Caller B → ℕ → Job B
  unfolding read_job
  callback_job k count =
      let j = read_job B k (request read_to_cb [] 0 mode_synchronous no_flags) in
      record j { event = record j.event { cb_count = count }; start = false }

  -- And for a read into a connection. A negative count is one that is reached at once, as 0 is.
  unfoldable pub connection_job : Caller B → ℕ → Job B
  unfolding read_job
  connection_job k count =
      let j = read_job B k (request read_to_conn [] 0 mode_synchronous no_flags) in
      record j { event = record j.event { conn_count = count }; start = false }

  unfoldable pub run_read : Caller B → Verdict → Job B → Option (Reply B)
  unfolding inserted stopped_early synchronous_receive_event_insert
  run_read k accepted job = inserted B k job (synchronous_receive_event_insert k.conn k.event)
  run_read k nothing_to_do job = stopped_early B 0 k.conn
  run_read k (invalid e) job = stopped_early B e k.conn

  unfoldable pub conn_read_to_cb_ex : Caller B → Bool → ℤ → Option (Reply B)
  unfolding valid_conn_io_args2 in_use callback_job run_read size_of
  conn_read_to_cb_ex k cb n =
      run_read k (in_use k.conn (valid_conn_io_args2 cb n)) (callback_job k (size_of n))

  unfoldable pub conn_read_to_conn_ex : Caller B → Bool → ℤ → Option (Reply B)
  unfolding valid_conn_io_args in_use connection_job run_read size_of
  conn_read_to_conn_ex k dest n =
      run_read k (in_use k.conn (valid_conn_io_args dest n)) (connection_job k (size_of n))

  -- connFlushEx, whose event is in the send slot; the event that was flushed is `read_event`.
  unfoldable pub conn_flush_data : Caller B → Option ℕ × Conn → Option (Reply B)
  unfolding flush_job stopped_early conn_event_process synchronous_send_event_remove
  conn_flush_data k (some e, c) = stopped_early B e c
  conn_flush_data k (none, c) = elim (conn_event_process B false k.flushes 0 (flush_job B k)) [
    | none ↦ none
    | some (status, e, j) ↦ some (record {
      errno = j.error;
      transferred = j.event.transferred;
      conn = (synchronous_send_event_remove c k.event).1;
      read_event = some j.event;
    })
  ]

  unfoldable pub conn_flush_ex : Caller B → Option (Reply B)
  unfolding conn_flush_data stopped_early synchronous_send_event_insert buffered_send_data_get
  conn_flush_ex k =
      let (has_data, c) = buffered_send_data_get k.conn in
      if has_data
      then conn_flush_data k (synchronous_send_event_insert c k.event)
      else stopped_early B 0 c

-- An asynchronous call after the checks of its arguments: refused arguments are not reported.
unfoldable pub start_checked :
    Conn
    → Bool
    → Option ℕ
    → Option ℕ
    → Option ℕ
    → CodeSource
    → ConnEventType
    → Verdict
    → Option Enqueued × Conn
unfolding start_async event_enqueue_failure
start_checked c async_enabled alloc flush_alloc ssl_alloc source t accepted =
    if not async_enabled
    then (none, c)
    else if c.handle.shutting_down
    then (none, event_enqueue_failure c econnhandleshutdown source)
    else start_async c alloc flush_alloc ssl_alloc source t class_receive
start_checked c async_enabled alloc flush_alloc ssl_alloc source t _ = (none, c)

unfoldable pub conn_a_read_to_cb_ex :
    Conn → Bool → Option ℕ → Option ℕ → Option ℕ → CodeSource → Bool → ℤ → Option Enqueued × Conn
unfolding valid_conn_io_args2 start_checked
conn_a_read_to_cb_ex c async_enabled alloc flush_alloc ssl_alloc source cb n =
    start_checked c async_enabled alloc flush_alloc ssl_alloc source read_to_cb
      (valid_conn_io_args2 cb n)

unfoldable pub conn_a_read_to_conn_ex :
    Conn → Bool → Option ℕ → Option ℕ → Option ℕ → CodeSource → Bool → ℤ → Option Enqueued × Conn
unfolding valid_conn_io_args start_checked
conn_a_read_to_conn_ex c async_enabled alloc flush_alloc ssl_alloc source dest n =
    start_checked c async_enabled alloc flush_alloc ssl_alloc source read_to_conn
      (valid_conn_io_args dest n)

unfoldable pub conn_sync_ready_ex : Conn → Bool
conn_sync_ready_ex c = elim c.state [ idle ↦ true | _ ↦ false ]

unfoldable pub conn_is_secure_ex : Conn → Bool
conn_is_secure_ex c = c.sp.ssl_conn
