-- ===== src/Process/Dispatch.antt =====
-- The processing of an event to its end or to a wait: EventProcess, socketEventComplete,
-- socketEventAbort and ConnEventProcess of src/process.c, with ConnEventFreeResources of src/connio.c.
pub mod Outcome
use connio.Prelude.{
  ℕ, zero, suc, Bool, true, false, Option, none, some, List, [], ◌∷◌, ◌++◌, ◌==◌, if◌then◌else◌,
}
use connio.Errno.{eagain, emsgsize, etimedout, ecanceled, econniobug}
use connio.Conn.{
  ConnEventType, accept, connect, disconnect, ssl_accept, tls_accept, ssl_connect, tls_connect,
  ssl_disconnect, read, read_count, read_until_pattern, read_to_cb, read_to_conn, write_from_cb,
  write_from_client_buffer, flush, ConnEventStatus, in_progress, partial, complete, timed_out,
  failed,
}
use connio.IoBuffer.{IoBuffers}
use connio.Process.Event.{Event}
use connio.Process.Step.{Pass, socket_event_process}

pub data ConnEventMode : Type 0 where
  mode_synchronous mode_non_blocking mode_asynchronous : ConnEventMode

-- The calls that end an event: of the socket, of `freeCB` on the client's buffer, of
-- ConnectAddressesFreeCopy and of IOBFree.
pub data FinalCall : Type 0 where
  socket_connect_finish socket_disconnect_finish : FinalCall
  socket_ssl_accept_finish socket_ssl_connect_finish socket_ssl_disconnect_finish : FinalCall
  socket_connect_abort socket_ssl_abort : ℕ → FinalCall
  free_client_buffer free_addresses free_io_buffer : FinalCall

-- `start` and `has_buffer` tell whether the pointers `args.buffer.start` and `ioBuffer` are not NULL;
-- `is_send` whether the event is of the send class. `calls` lists the calls made so far.
pub record Job (B : IoBuffers) : Type 0 where
  pub event : Event B
  pub mode : ConnEventMode
  pub status : ConnEventStatus
  pub error : ℕ
  pub start : Bool
  pub has_buffer : Bool
  pub is_send : Bool
  pub calls : List FinalCall

-- A turn of the loop, and the errno value of SocketWait or SocketEventWaitEx if it comes to a wait.
pub record Attempt (B : IoBuffers) : Type 0 where
  pub turn : Pass B
  pub waited : ℕ

-- freeCB on the client's buffer, once.
free_client : Bool → List FinalCall
free_client start = if start then free_client_buffer ∷ [] else []

-- `args.buffer.start` after it.
start_after : ConnEventType → Bool → Bool
start_after write_from_client_buffer start = false
start_after _ start = start

unfoldable pub complete_calls : ConnEventType → Bool → List FinalCall
unfolding free_client
complete_calls t start = elim t [
  | write_from_client_buffer ↦ free_client start
  | connect ↦ socket_connect_finish ∷ []
  | disconnect ↦ socket_disconnect_finish ∷ []
  | ssl_accept ↦ socket_ssl_accept_finish ∷ []
  | tls_accept ↦ socket_ssl_accept_finish ∷ []
  | ssl_connect ↦ socket_ssl_connect_finish ∷ []
  | tls_connect ↦ socket_ssl_connect_finish ∷ []
  | ssl_disconnect ↦ socket_ssl_disconnect_finish ∷ []
  | _ ↦ []
]

unfoldable pub abort_calls : ConnEventType → ℕ → Bool → List FinalCall
unfolding free_client
abort_calls t error start = elim t [
  | write_from_client_buffer ↦ free_client start
  | connect ↦ socket_connect_abort error ∷ []
  | disconnect ↦ socket_connect_abort error ∷ []
  | ssl_accept ↦ socket_ssl_abort error ∷ []
  | tls_accept ↦ socket_ssl_abort error ∷ []
  | ssl_connect ↦ socket_ssl_abort error ∷ []
  | tls_connect ↦ socket_ssl_abort error ∷ []
  | ssl_disconnect ↦ socket_ssl_abort error ∷ []
  | _ ↦ []
]

module _ (B : IoBuffers) where
  unfoldable pub socket_event_complete : Job B → Job B
  unfolding complete_calls start_after
  socket_event_complete j = record j {
    calls = j.calls ++ complete_calls j.event.type j.start;
    start = start_after j.event.type j.start;
  }

  unfoldable pub socket_event_abort : Job B → Job B
  unfolding abort_calls start_after
  socket_event_abort j = record j {
    calls = j.calls ++ abort_calls j.event.type j.error j.start;
    start = start_after j.event.type j.start;
  }

  -- The switch on `ce->error` at the end.
  unfoldable pub failure_status : Job B → ConnEventStatus
  failure_status j =
      if j.error == etimedout
      then timed_out
      else if j.error == emsgsize
      then (if j.event.data_mode.partial_ok then partial else failed)
      else failed

  unfoldable pub fail : Job B → Option (ConnEventStatus × Job B)
  unfolding failure_status socket_event_abort
  fail j = some (failure_status j, socket_event_abort j)

  -- What follows a pass that is blocked on the socket: `next` is the next turn of the loop, from the
  -- event `waiting` that is in progress. `problem` tells whether the transaction has a problem.
  unfoldable pub blocked :
      ConnEventMode
      → Option (ConnEventStatus × Job B)
      → Bool
      → ℕ
      → Job B
      → Option (ConnEventStatus × Job B)
  unfolding fail
  blocked mode_non_blocking next problem waited j = fail (record j { error = eagain })
  blocked mode_synchronous next problem waited j =
      if waited == 0 then next else fail (record j { error = waited })
  blocked mode_asynchronous next problem waited j =
      if problem
      then fail (record j { error = ecanceled })
      else if waited == 0
      then some (in_progress, record j { status = in_progress })
      else fail (record j { status = failed; error = waited })

  -- What follows a pass that gave `err`.
  unfoldable pub after_pass :
      (Job B → Option (ConnEventStatus × Job B))
      → Bool
      → ℕ
      → ℕ
      → Job B
      → Option (ConnEventStatus × Job B)
  unfolding fail socket_event_complete blocked
  after_pass again problem waited err j =
      let next = again (record j { status = in_progress }) in
      if err == 0
      then some (complete, socket_event_complete j)
      else if err == eagain
      then blocked j.mode next problem waited j
      else fail (record j { error = err })

  -- The loop of EventProcess.
  unfoldable pub event_loop : Bool → List (Attempt B) → Job B → Option (ConnEventStatus × Job B)
  unfolding after_pass socket_event_process
  event_loop problem [] j = none
  event_loop problem (a ∷ more) j = elim (socket_event_process B a.turn j.status j.event) [
    | none ↦ none
    | some (err, ce) ↦
        after_pass (event_loop problem more) problem a.waited err (record j { event = ce })
  ]

  unfoldable pub event_process : Bool → List (Attempt B) → Job B → Option (ConnEventStatus × Job B)
  unfolding event_loop fail
  event_process problem attempts j =
      let loop = event_loop problem attempts j in if j.error == 0 then loop else fail j

  called : Job B → FinalCall → Job B
  called j c = record j { calls = j.calls ++ c ∷ [] }

  unfoldable pub conn_event_free_resources : Job B → Job B
  unfolding called free_client
  conn_event_free_resources j = elim j.event.type [
    | connect ↦ elim j.mode [ mode_asynchronous ↦ called j free_addresses | _ ↦ j ]
    | write_from_client_buffer ↦ record j { start = false; calls = j.calls ++ free_client j.start }
    | _ ↦
        if j.is_send
        then (if j.has_buffer then called (record j { has_buffer = false }) free_io_buffer else j)
        else j
  ]

  unfoldable pub final_errno : ℕ → ConnEventStatus → Job B → ℕ
  final_errno errno status j = elim status [
    | partial ↦ errno
    | complete ↦ errno
    | _ ↦
        if j.error == 0 then econniobug else elim j.mode [ mode_asynchronous ↦ errno | _ ↦ j.error ]
  ]

  -- What ConnEventProcess does after EventProcess: errno, and the event.
  unfoldable pub settle : ℕ → ConnEventStatus → Job B → ℕ × Job B
  unfolding final_errno conn_event_free_resources
  settle errno in_progress d = (errno, d)
  settle errno status d =
      let c = record (conn_event_free_resources d) { status = status } in
      (final_errno errno status c, c)

  -- The status, errno and the event, from errno before; an asynchronous event leaves errno.
  unfoldable pub conn_event_process :
      Bool → List (Attempt B) → ℕ → Job B → Option (ConnEventStatus × ℕ × Job B)
  unfolding event_process settle
  conn_event_process problem attempts errno j = elim (event_process problem attempts j) [
    | none ↦ none
    | some (status, d) ↦ let (e, c) = settle errno status d in some (status, e, c)
  ]
