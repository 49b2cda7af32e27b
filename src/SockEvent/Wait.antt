-- ===== src/SockEvent/Wait.antt =====
-- How the library asks the engine for a socket event, and how it stops one: SocketEventWaitEx,
-- SocketListenerSuspend, SocketListenerResume, SocketEventKill and SocketEventsClean of
-- src/sockcommon.c with SeLinkCe and SeUnlinkCe of src/sockinline.h.
pub mod Missed
use connio.Prelude.{
  ℕ, ◌+◌, ◌-◌, Bool, true, false, not, Option, none, some, List, ◌∷◌, ◌==◌, if◌then◌else◌,
}
use connio.Errno.{ebusy, enomem, enotsock, econnaborted, econniobug}
use connio.Conn.{
  SocketEventType, type_none, type_listen, type_readable, type_writable, type_connect,
  type_disconnect,
}
use connio.Throttle.{AsyncListener, ListenerEvent, call}
use connio.SockEvent.{
  EngineEvent, SockState, Place, at_connect, at_receive, at_send, event, put, notify,
  sock_event_translate, sock_event_add, sock_event_clean, sock_event_kill, begin_if,
}

-- Whether there is memory for a listener, what it is made of, what epoll_ctl() answers, the time, and
-- the timeout in milliseconds.
pub record WaitArgs : Type 0 where
  pub memory : Bool
  pub listener : AsyncListener
  pub answer : Option ℕ
  pub now : ℕ
  pub milliseconds : ℕ

-- SeLinkCe, `none` if the event is linked already.
unfoldable pub se_link_ce : SocketEventType → EngineEvent → Option EngineEvent
se_link_ce t e = if e.linked then none else some (record e { linked = true; type = t; error = 0 })

unfoldable pub se_unlink_ce : EngineEvent → EngineEvent
se_unlink_ce e = record e { linked = false }

unfoldable pub async_listener_release : ℕ → SockState → ℕ × SockState
async_listener_release err s = (err, record s { listener = none; in_accept = 0 })

-- What follows sockEventAdd. `submitted` counts the waits that succeed.
unfoldable pub settled : Place → ℕ × SockState → ℕ × SockState
unfolding se_unlink_ce async_listener_release
settled k (err, s) =
    if err == 0
    then (0, put k (record (event k s) { submitted = (event k s).submitted + 1 }) s)
    else async_listener_release err (put k (se_unlink_ce (event k s)) s)

-- The checks that are left when there is an event; `t` is the type of the wait.
unfoldable pub submit_at : Place → SocketEventType → WaitArgs → SockState → ℕ × SockState
unfolding async_listener_release se_link_ce settled sock_event_add
submit_at k t a s =
    if not s.valid then async_listener_release enotsock s else elim (se_link_ce t (event k s)) [
      | none ↦ async_listener_release ebusy s
      | some e ↦ settled k (sock_event_add k a.answer a.now a.milliseconds (put k e s))
    ]

listen_wait : WaitArgs → SockState → ℕ × SockState
unfolding async_listener_release notify submit_at
listen_wait a s =
    if s.connect.flags.killed
    then async_listener_release econnaborted s
    else if not a.memory
    then async_listener_release enomem s
    else submit_at at_connect type_listen a (
        notify ListenerEvent.listener_submitted
          (record s { listener = some a.listener; in_accept = 0 }))

-- A wait is never complete when it was submitted on Unix. The types behind the translation that
-- sockEventTranslate does not give are those of the source.
unfoldable pub socket_event_wait : SocketEventType → WaitArgs → SockState → ℕ × SockState
unfolding sock_event_translate submit_at listen_wait async_listener_release
socket_event_wait type a s =
    let t = sock_event_translate type in
    elim t [
      | type_readable ↦ submit_at at_receive type_readable a s
      | type_writable ↦ submit_at at_send type_writable a s
      | type_listen ↦ listen_wait a s
      | type_connect ↦ submit_at at_connect type_connect a s
      | type_disconnect ↦ submit_at at_connect type_disconnect a s
      | type_none ↦ async_listener_release econniobug s
    ]

tell_count : ListenerEvent → ℕ → AsyncListener → SockState → SockState
tell_count e reading l s = record s {
  notices = if l.has_callback then call l e reading ∷ s.notices else s.notices;
}

abbrev suspended_to : Bool → EngineEvent → EngineEvent
suspended_to b e = record e { flags = record e.flags { suspended = b } }

unfoldable pub suspend_if : ℕ → Option AsyncListener → SockState → Bool × SockState
unfolding tell_count
suspend_if reading none s = (false, s)
suspend_if reading (some l) s = if s.connect.flags.killed then (false, s) else (
  true,
  tell_count ListenerEvent.listener_suspended reading l
      (record s { connect = suspended_to true s.connect }),
)

-- `reading` is what AThreadCountUpdate gives.
unfoldable pub socket_listener_suspend : ℕ → SockState → Bool × SockState
unfolding suspend_if
socket_listener_suspend reading s = suspend_if reading s.listener s

unfoldable pub resume_if : ℕ → Option AsyncListener → SockState → Bool × SockState
unfolding tell_count
resume_if reading none s = (false, s)
resume_if reading (some l) s =
    if s.connect.flags.suspended
    then (
      true,
      tell_count ListenerEvent.listener_resumed reading l
          (record s { connect = suspended_to false s.connect }),
    )
    else (false, s)

unfoldable pub socket_listener_resume : ℕ → SockState → Bool × SockState
unfolding resume_if
socket_listener_resume reading s = resume_if reading s.listener s

kill_at : Place → ℕ → SockState → SockState
unfolding socket_listener_resume sock_event_kill begin_if
kill_at k reading s = begin_if k (sock_event_kill k (socket_listener_resume reading s).1)

unfoldable pub socket_event_kill : SocketEventType → ℕ → SockState → SockState
unfolding kill_at
socket_event_kill type_readable reading s = kill_at at_receive reading s
socket_event_kill type_writable reading s = kill_at at_send reading s
socket_event_kill type_listen reading s = kill_at at_connect reading s
socket_event_kill type_connect reading s = kill_at at_connect reading s
socket_event_kill type_disconnect reading s = kill_at at_connect reading s
socket_event_kill type_none reading s = s

unfoldable pub socket_events_clean : SockState → SockState
unfolding sock_event_clean
socket_events_clean s = record s {
  send = sock_event_clean s.send;
  receive = sock_event_clean s.receive;
  connect = sock_event_clean s.connect;
}

-- The end of acceptPickup, behind the consumer's callback for a new connection.
unfoldable pub accept_left : SockState → SockState
accept_left s = record s { in_accept = s.in_accept - 1 }
