-- ===== src/Reading.antt =====
-- The calls of src/connio.c that read into a client's memory: ConnReadToCondition and
-- ConnAReadToCondition, and the checks of their arguments. Calls has the synchronous calls, Async
-- the asynchronous ones, Passing the other calls that read, and Connecting those that disconnect or
-- start or end SSL. The pointer to the connection is not NULL.
pub mod Calls
pub mod Async
pub mod Passing
pub mod Connecting
pub mod Eat
pub mod Report
use connio.Prelude.{
  ℕ, zero, suc, ◌+◌, ◌&&◌, not, ℤ, pos, negsuc, Bool, true, false, Option, none, some, List, [],
  ◌==◌, leb, if◌then◌else◌, length,
}
use connio.Errno.{einval, enomem, econnioinit, econnhandleshutdown}
use connio.Conn.{
  Conn, CodeSource, ConnEventType, read, read_count, read_until_pattern, flush, ConnEventClass,
  class_receive, queued,
}
use connio.Sync.{synchronous_receive_event_insert, synchronous_receive_event_remove}
use connio.Enqueue.{
  Enqueued, refused, conn_event_assign, event_enqueue, event_enqueue_failure, events_submit,
}
use connio.IoBuffer.{IoBuffers}
use connio.Process.Event.{Event, DataMode, ClientBuffer}
use connio.Process.Dispatch.{ConnEventMode, mode_synchronous, Job, Attempt, conn_event_process}

-- What a call passes on. `submits` tells whether it calls EventsSubmit afterwards.
pub record Request : Type 0 where
  pub type : ConnEventType
  pub pattern : List ℕ
  pub size : ℕ
  pub mode : ConnEventMode
  pub data_mode : DataMode
  pub submits : Bool

abbrev pub request : ConnEventType → List ℕ → ℕ → ConnEventMode → DataMode → Request
request t p n m d = record {
  type = t;
  pattern = p;
  size = n;
  mode = m;
  data_mode = d;
  submits = false;
}

abbrev pub no_flags : DataMode
no_flags = record {
  copy = false;
  delete = false;
  terminate = false;
  include_pattern = false;
  replace_pattern = false;
  partial_ok = false;
}

abbrev pub copy_only : DataMode
copy_only = record no_flags { copy = true }

abbrev pub delete_only : DataMode
delete_only = record no_flags { delete = true }

abbrev pub copy_delete : DataMode
copy_delete = record no_flags { copy = true; delete = true }

-- `mode` of ConnReadGetSEx.
unfoldable pub get_s_flags : Bool → DataMode
get_s_flags include_lf = record copy_delete {
  terminate = true;
  partial_ok = true;
  include_pattern = include_lf;
}

unfoldable pub is_pos : ℤ → Bool
is_pos (pos (suc n)) = true
is_pos _ = false

-- errno after notNull and isPos.
unfoldable pub checked : Bool → ℤ → ℕ
unfolding is_pos
checked buff n = if buff && is_pos n then 0 else einval

-- The length as a number; a negative one is refused before it is used.
unfoldable pub size_of : ℤ → ℕ
size_of (pos n) = n
size_of (negsuc n) = 0

-- The pattern and its NUL fit into `args.buffer.pattern`, of MAX_PATTERN_SIZE + 1 octets.
unfoldable pub pattern_fits : Request → Bool
pattern_fits r = elim r.type [ read_until_pattern ↦ leb (length r.pattern + 1) 8 | _ ↦ true ]

-- errno when the arguments are refused.
unfoldable pub refusal : Conn → ℕ × Request → Option ℕ
unfolding pattern_fits
refusal c (errno, r) =
    if not (errno == 0)
    then some errno
    else if not (pattern_fits r)
    then some einval
    else if c.handle.shutting_down
    then some econnhandleshutdown
    else none

module _ (B : IoBuffers) where
  -- What a synchronous call finds: the connection, the address of its event, the contents of the
  -- receive buffer and of the send buffer, the octets of memory at `buff`, and what the turns of
  -- EventProcess meet in a flush and in the read.
  pub record Caller : Type 0 where
    pub conn : Conn
    pub event : ℕ
    pub receive : B.State
    pub send : B.State
    pub room : ℕ
    pub flushes : List (Attempt B)
    pub reads : List (Attempt B)

  -- What it leaves: errno, the result, the connection, and the event at work if there was one.
  pub record Reply : Type 0 where
    pub errno : ℕ
    pub transferred : ℕ
    pub conn : Conn
    pub read_event : Option (Event B)

  -- _ConnEventInit and ConnEventAssign for a read.
  unfoldable pub read_job : Caller → Request → Job B
  read_job k r = record {
    event = record {
      type = r.type;
      data_mode = r.data_mode;
      client = record {
        written = [];
        room = k.room;
        remaining = r.size;
        terminated = false;
        unread = [];
      };
      io = k.receive;
      transferred = 0;
      pattern = r.pattern;
      received = [];
      cb_count = 0;
      conn_count = 0;
      sent = [];
      consumed = [];
    };
    mode = r.mode;
    status = queued;
    error = 0;
    start = true;
    has_buffer = true;
    is_send = false;
    calls = [];
  }

  -- The same for the flush of the send buffer.
  unfoldable pub flush_job : Caller → Job B
  unfolding read_job
  flush_job k =
      let j = read_job k (request flush [] 0 mode_synchronous no_flags) in
      record j { event = record j.event { io = k.send }; start = false; is_send = true }

  -- The read itself and what follows it; `flushed` tells whether the connect slot is held.
  unfoldable pub perform : Caller → Job B → Conn → Bool → Option Reply
  unfolding conn_event_process synchronous_receive_event_remove
  perform k job c flushed = elim (conn_event_process B false k.reads 0 job) [
    | none ↦ none
    | some (status, e, j) ↦
        let (failure, d) = synchronous_receive_event_remove c k.event flushed in
        some (record {
          errno = j.error;
          transferred = j.event.transferred;
          conn = d;
          read_event = some j.event;
        })
  ]

  unfoldable pub stopped_early : ℕ → Conn → Option Reply
  stopped_early e c = some (record { errno = e; transferred = 0; conn = c; read_event = none })

  -- What follows SynchronousReceiveEventInsert, with buffered data to flush or without. What the
  -- flush comes to does not matter to the read, but the call waits for it.
  unfoldable pub inserted : Caller → Job B → (Option ℕ × Bool) × Conn → Option Reply
  unfolding perform flush_job conn_event_process stopped_early
  inserted k job ((some e, buffered), c) = stopped_early e c
  inserted k job ((none, false), c) = perform k job c false
  inserted k job ((none, true), c) = elim (conn_event_process B false k.flushes 0 (flush_job k)) [
    | none ↦ none
    | some flushed ↦ perform k job c true
  ]

  unfoldable pub conn_read_to_condition : Caller → ℕ × Request → Option Reply
  unfolding refusal inserted read_job stopped_early synchronous_receive_event_insert
  conn_read_to_condition k (errno, r) = elim (refusal k.conn (errno, r)) [
    | some e ↦ stopped_early e k.conn
    | none ↦ inserted k (read_job k r) (synchronous_receive_event_insert k.conn k.event)
  ]

-- An event that is not queued is freed.
unfoldable pub enqueued : CodeSource → Enqueued × Conn → Option Enqueued × Conn
unfolding event_enqueue_failure
enqueued source (refused e, c) = (none, event_enqueue_failure c e source)
enqueued source (done, c) = (some done, c)

-- What an asynchronous call does once its arguments are accepted.
unfoldable pub start_async :
    Conn
    → Option ℕ
    → Option ℕ
    → Option ℕ
    → CodeSource
    → ConnEventType
    → ConnEventClass
    → Option Enqueued × Conn
unfolding event_enqueue enqueued event_enqueue_failure conn_event_assign
start_async c alloc flush_alloc ssl_alloc source t k = elim alloc [
  | none ↦ (none, event_enqueue_failure c enomem source)
  | some ce ↦
      let d = record c { events = conn_event_assign c.events ce t k source } in
      enqueued source (event_enqueue d (some ce) flush_alloc ssl_alloc source)
]

-- ConnAReadToCondition: the connection, and what the thread does that goes on into
-- ConnEventsProcess, if the event is queued.
unfoldable pub conn_a_read_to_condition :
    Conn → Bool → Option ℕ → Option ℕ → Option ℕ → CodeSource → ℕ × Request → Option Enqueued × Conn
unfolding refusal start_async event_enqueue_failure
conn_a_read_to_condition c async_enabled alloc flush_alloc ssl_alloc source (errno, r) =
    if not async_enabled then (none, c) else elim (refusal c (errno, r)) [
      | some e ↦ (none, event_enqueue_failure c e source)
      | none ↦ start_async c alloc flush_alloc ssl_alloc source r.type class_receive
    ]
