-- ===== src/SockEvent.antt =====
-- The socket events of a SOCK and the engine for them: SocketEvent of src/conniop.h, the functions of
-- src/sockinline.h, and those of src/sockunix.c from _SocketTimeoutAdd to sockEventListenerRequeue.
-- A function takes the lock of the SOCK where the source does, so that each is one step. What
-- epoll_ctl() answers is an argument, `none` for success, else errno; so is what time it is. Logs and
-- traces are left out, and the connection that killActiveListener makes to wake the poll thread.
pub mod Timers
pub mod Engine
pub mod Wait
pub mod Once
pub mod Accept
use connio.Prelude.{
  ℕ, ◌+◌, ◌≡◌, Bool, true, false, ◌&&◌, not, Option, none, some, List, [], ◌∷◌, ◌==◌, if◌then◌else◌,
}
use connio.Errno.{ecanceled}
use connio.Conn.{
  SocketEventType, type_none, type_listen, type_readable, type_writable, type_connect,
  type_disconnect,
}
use connio.Throttle.{AsyncListener, SocketEventFlags, ListenerEvent, Call}
use connio.SockEvent.Timers.{TimerLists, add_timeout, delete_timeout}

-- What the consumer's callback cb.eventFunc is told.
pub record Delivery : Type 0 where
  pub type : SocketEventType
  pub error : ℕ

-- SocketEvent. The flags are FSE_IN_ENGINE, FSE_TIMEOUT_PENDING and the three of a listener. `linked`
-- tells that cb.arg is set. The last four say what has happened to the event: how many waits were
-- submitted, how often its thread was begun, how many of these threads have run, and what they
-- delivered, newest first.
pub record EngineEvent : Type 0 where
  pub address : ℕ
  pub type : SocketEventType
  pub error : ℕ
  pub in_engine : Bool
  pub timeout_pending : Bool
  pub flags : SocketEventFlags
  pub linked : Bool
  pub submitted : ℕ
  pub begun : ℕ
  pub handled : ℕ
  pub deliveries : List Delivery

-- SOCK with its listener, the calls of the listener's callback, newest first, and the timers of the
-- engine. `valid` tells that the number is not -1.
pub record SockState : Type 0 where
  pub valid : Bool
  pub listener : Option AsyncListener
  pub in_accept : ℕ
  pub connect : EngineEvent
  pub receive : EngineEvent
  pub send : EngineEvent
  pub notices : List Call
  pub timers : TimerLists

pub data Place : Type 0 where
  at_connect at_receive at_send : Place

abbrev pub event : Place → SockState → EngineEvent
event at_connect s = s.connect
event at_receive s = s.receive
event at_send s = s.send

abbrev pub put : Place → EngineEvent → SockState → SockState
put at_connect e s = record s { connect = e }
put at_receive e s = record s { receive = e }
put at_send e s = record s { send = e }

abbrev pub listens : SocketEventType → Bool
listens type_listen = true
listens type_none = false
listens type_readable = false
listens type_writable = false
listens type_connect = false
listens type_disconnect = false

abbrev notice : AsyncListener → ListenerEvent → ℕ → ℕ → Call
notice l e threshold count = record { event = e; threshold = threshold; count = count }

-- A call of the listener's callback, if there are both.
unfoldable pub notify : ListenerEvent → SockState → SockState
notify e s = record s {
  notices = elim s.listener [
    | none ↦ s.notices
    | some l ↦ if l.has_callback then notice l e 0 0 ∷ s.notices else s.notices
  ];
}

-- The number of the first list of timeouts of the poll thread that an event belongs to.
unfoldable pub get_epoll_handle : SocketEventType → ℕ
get_epoll_handle type_writable = 64
get_epoll_handle type_none = 0
get_epoll_handle type_listen = 0
get_epoll_handle type_readable = 0
get_epoll_handle type_connect = 0
get_epoll_handle type_disconnect = 0

unfoldable pub sock_event_init : ℕ → EngineEvent
sock_event_init p = record {
  address = p;
  type = type_none;
  error = 0;
  in_engine = false;
  timeout_pending = false;
  flags = record { killed = false; paused = false; suspended = false };
  linked = false;
  submitted = 0;
  begun = 0;
  handled = 0;
  deliveries = [];
}

unfoldable pub sock_event_clean : EngineEvent → EngineEvent
sock_event_clean e = record e {
  error = 0;
  in_engine = false;
  timeout_pending = false;
  flags = record { killed = false; paused = false; suspended = false };
}

unfoldable pub sock_event_translate : SocketEventType → SocketEventType
sock_event_translate type_disconnect = type_readable
sock_event_translate type_connect = type_writable
sock_event_translate type_none = type_none
sock_event_translate type_listen = type_listen
sock_event_translate type_readable = type_readable
sock_event_translate type_writable = type_writable

-- The flag that the event gets; and the lists.
unfoldable pub timed : ℕ → EngineEvent → EngineEvent
timed ms e =
    if not (ms == 0) && not (listens e.type) then record e { timeout_pending = true } else e

unfoldable pub socket_timeout_add : ℕ → ℕ → EngineEvent → TimerLists → TimerLists
unfolding get_epoll_handle add_timeout
socket_timeout_add now ms e t =
    if not (ms == 0) && not (listens e.type)
    then add_timeout (get_epoll_handle e.type) now ms e.address t
    else t

unfoldable pub socket_timeout_delete : EngineEvent → TimerLists → TimerLists
unfolding delete_timeout
socket_timeout_delete e t = if listens e.type then t else delete_timeout e.address t

-- SocketEventComplete on the event and on the lists. What epoll_ctl() answers to EPOLL_CTL_DEL in
-- _epollEventDelete is not looked at.
unfoldable pub event_completed : EngineEvent → Bool × EngineEvent
event_completed e =
    let e1 = if e.timeout_pending then record e { timeout_pending = false } else e in
    if e1.in_engine then (true, record e1 { in_engine = false }) else (false, e1)

unfoldable pub sock_event_complete : Place → SockState → Bool × SockState
unfolding event_completed socket_timeout_delete
sock_event_complete k s =
    let e = event k s in
    let (done, e') = event_completed e in
    (
      done,
      put k e' (record s {
        timers = if e.timeout_pending then socket_timeout_delete e s.timers else s.timers;
      }),
    )

-- AThreadBegin of the event's thread, if the event is complete.
abbrev pub begin : EngineEvent → EngineEvent
begin e = record e { begun = e.begun + 1 }

unfoldable pub begin_if : Place → Bool × SockState → SockState
begin_if k (true, s) = put k (begin (event k s)) s
begin_if k (false, s) = s

abbrev pub set_error_to : ℕ → EngineEvent → EngineEvent
set_error_to n e = record e { error = n }

abbrev kill_active_listener : EngineEvent → EngineEvent
kill_active_listener e = record e { flags = record e.flags { killed = true } }

unfoldable pub sock_event_kill : Place → SockState → Bool × SockState
unfolding sock_event_complete
sock_event_kill k s =
    let e = set_error_to ecanceled (event k s) in
    if listens e.type
    then (false, put k (kill_active_listener e) s)
    else sock_event_complete k (put k e s)

-- The errno that is returned, 0 for none.
unfoldable pub sock_event_add : Place → Option ℕ → ℕ → ℕ → SockState → ℕ × SockState
unfolding notify timed socket_timeout_add
sock_event_add k answer now ms s = elim answer [
  | some err ↦ (err, put k (record (event k s) { in_engine = false }) s)
  | none ↦
      let e = record (event k s) { in_engine = true } in
      (
        0,
        put k (timed ms e) (record (notify ListenerEvent.listener_started s) {
          timers = socket_timeout_add now ms e s.timers;
        }),
      )
]

-- EPOLL_CTL_MOD; `true` for 0.
unfoldable pub socket_event_requeue : Option ℕ → EngineEvent → Bool × EngineEvent
socket_event_requeue none e = (true, set_error_to 0 e)
socket_event_requeue (some err) e = (false, set_error_to err e)

abbrev pub unpaused : EngineEvent → EngineEvent
unpaused e = record e { flags = record e.flags { paused = false; suspended = false } }

unfoldable pub sock_event_listener_requeue : Place → Option ℕ → SockState → Bool × SockState
unfolding socket_event_requeue sock_event_complete
sock_event_listener_requeue k answer s =
    let (queued_again, e) = socket_event_requeue answer (unpaused (event k s)) in
    let s1 = put k e s in if queued_again then (false, s1) else sock_event_complete k s1
