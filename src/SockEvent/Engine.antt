-- ===== src/SockEvent/Engine.antt =====
-- What becomes of a socket event that comes out of the engine: _socketEventHandle and the body of the
-- loops of _PollThread of src/sockunix.c, HandleSocketEvent of src/sockcommon.c, which the event's
-- thread runs.
use connio.Prelude.{
  ℕ, ◌+◌, Bool, true, false, ◌&&◌, Option, none, some, List, [], ◌∷◌, if◌then◌else◌,
}
use connio.Errno.{einval, eio, etimedout, econnreset}
use connio.Conn.{
  type_none, type_listen, type_readable, type_writable, type_connect, type_disconnect,
}
use connio.Throttle.{
  SocketEvent, AsyncListener, Call, Turn, SpinEnd, ListenerEvent, shut_down, stopped, spinning,
  listener_should_throttle, listener_start_throttling, listener_throttling,
  listener_spin_while_throttling,
}
use connio.SockEvent.{
  EngineEvent, SockState, Place, event, put, listens, notify, sock_event_complete, begin_if,
  set_error_to, socket_event_requeue, sock_event_listener_requeue,
}

-- What epoll_wait() says of the event, and the answers to what is done then: whether XplIpAccept gives
-- a socket, the two thread counts of the throttling, and EPOLL_CTL_MOD.
pub record PollResult : Type 0 where
  pub hang_up : Bool
  pub invalid : Bool
  pub faulty : Bool
  pub accepts : Bool
  pub reading : ℕ
  pub again : ℕ
  pub requeue : Option ℕ

-- Whether the event is complete, and whether `*allocatedAcceptEvent` is still there.
pub record Handling : Type 0 where
  pub complete : Bool
  pub spare : Bool
  pub state : SockState

unfoldable pub poll_error : PollResult → ℕ → ℕ
poll_error r before =
    if r.hang_up then econnreset else if r.invalid then einval else if r.faulty then eio else before

-- The event and the listener as the throttling reads them.
abbrev pub throttled : EngineEvent → SockState → SocketEvent
throttled e s = record { flags = e.flags; listener = s.listener }

abbrev pub told : List Call → List Call → List Call
told [] notices = notices
told (c ∷ cs) notices = told cs (c ∷ notices)

unfoldable pub requeue_or_complete : Place → Option ℕ → SockState → Bool × SockState
unfolding socket_event_requeue sock_event_complete notify
requeue_or_complete k answer s =
    let (queued_again, e) = socket_event_requeue answer (event k s) in
    let s1 = put k e s in
    if queued_again
    then (false, s1)
    else sock_event_complete k (notify ListenerEvent.listener_stopped s1)

-- The listener is paused if it is to be throttled.
unfoldable pub throttle_or_requeue : Place → PollResult → SockState → Bool × SockState
unfolding requeue_or_complete listener_should_throttle listener_start_throttling
throttle_or_requeue k r s =
    let e = event k s in
    let (started, calls_after) = listener_start_throttling (throttled e s) r.reading r.again in
    if listener_should_throttle (throttled e s) r.reading && started
    then (
      true,
      put k (record e { flags = calls_after.1.flags })
          (record s { notices = told calls_after.0 s.notices }),
    )
    else requeue_or_complete k r.requeue s

handling : Bool → Bool × SockState → Handling
handling spare (done, s) = record { complete = done; spare = spare; state = s }

unfoldable pub handle_listener : Place → PollResult → Bool → SockState → Handling
unfolding handling notify sock_event_complete throttle_or_requeue
handle_listener k r spare s =
    if (event k s).flags.killed
    then handling spare (
        sock_event_complete k
          (notify ListenerEvent.listener_stopped (notify ListenerEvent.listener_killed s)))
    else if r.accepts
    then handling false
        (throttle_or_requeue k r (if spare then record s { in_accept = s.in_accept + 1 } else s))
    else handling spare (requeue_or_complete k r.requeue s)

unfoldable pub socket_event_handle : Place → PollResult → Bool → SockState → Handling
unfolding poll_error handling handle_listener
socket_event_handle k r spare s =
    let s1 = put k (set_error_to (poll_error r (event k s).error) (event k s)) s in
    let complete = handling spare (sock_event_complete k s1) in
    let reject =
      handling spare (sock_event_complete k (put k (set_error_to einval (event k s)) s)) in
    elim (event k s).type [
      | type_listen ↦ handle_listener k r spare s1
      | type_readable ↦ complete
      | type_writable ↦ complete
      | type_none ↦ reject
      | type_connect ↦ reject
      | type_disconnect ↦ reject
    ]

-- One event of the array: it is handled if it is still in the engine.
unfoldable pub poll_event : Place → PollResult → Bool → SockState → SockState
unfolding socket_event_handle begin_if
poll_event k r spare s =
    let h = socket_event_handle k r spare s in
    if (event k s).in_engine then begin_if k (h.complete, h.state) else s

-- One event of a list of timeouts that was swept. The poll thread holds the lock of the SOCK twice, to
-- take the event out of the list and to complete it; here this is one step.
unfoldable pub time_out : Place → SockState → SockState
unfolding sock_event_complete begin_if
time_out k s = begin_if k (
    sock_event_complete k
      (put k (record (event k s) { timeout_pending = false; error = etimedout }) s))

-- SeUnlinkCe, the notices of a listener that has failed, and the call of the consumer's callback.
unfoldable pub deliver : Place → SockState → SockState
unfolding notify
deliver k s =
    let e = event k s in
    let told_of = record { type = e.type; error = e.error } ∷ e.deliveries in
    let s1 = put k (record e { linked = false; handled = e.handled + 1; deliveries = told_of }) s in
    if listens e.type
    then record (notify ListenerEvent.listener_returned
        (notify ListenerEvent.listener_waiting s1)) { listener = none; in_accept = 0 }
    else s1

-- The listener behind listenerSpinWhileThrottling, which leaves it killed or not.
unfoldable pub after_spin : Place → Option ℕ → Bool → List Call → SockState → SockState
unfolding sock_event_listener_requeue begin_if notify
after_spin k answer killed calls s =
    let e = event k s in
    let (done, s1) = sock_event_listener_requeue k answer (
      put k (record e { handled = e.handled + 1; flags = record e.flags { killed = killed } })
        (record s { notices = told calls s.notices })) in
    if done then begin_if k (true, s1) else notify ListenerEvent.listener_started s1

unfoldable pub spun : Place → Option ℕ → SpinEnd × List Call → SockState → Option SockState
unfolding after_spin
spun k answer (spinning, calls) s = none
spun k answer (shut_down, calls) s = some (after_spin k answer true calls s)
spun k answer (stopped, calls) s = some (after_spin k answer false calls s)

unfoldable pub spun_of :
    Option AsyncListener → Place → List Turn → Option ℕ → SockState → Option SockState
unfolding spun listener_spin_while_throttling
spun_of none k turns answer s = none
spun_of (some l) k turns answer s = spun k answer (listener_spin_while_throttling l turns) s

-- `none` while the listener is throttled for longer than the turns say. What other threads do to its
-- flags meanwhile is in the turns.
unfoldable pub handle_socket_event : Place → List Turn → Option ℕ → SockState → Option SockState
unfolding deliver spun_of listener_throttling
handle_socket_event k turns answer s =
    let e = event k s in
    if listens e.type && listener_throttling (throttled e s)
    then spun_of s.listener k turns answer s
    else some (deliver k s)
