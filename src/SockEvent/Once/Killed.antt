-- ===== src/SockEvent/Once/Killed.antt =====
-- That the kills of src/sockcommon.c, and the suspension of a listener, keep what is owed to each event.
use connio.Prelude.{
  ℕ, ◌≡◌, refl, sym, subst, Bool, Bool-cases, inl, inr, true, false, Option, none, some, if_true,
  if_false, arith,
}
use connio.Errno.{ecanceled}
use connio.Conn.{
  SocketEventType, type_none, type_listen, type_readable, type_writable, type_connect,
  type_disconnect,
}
use connio.Throttle.{AsyncListener}
use connio.SockEvent.{
  EngineEvent, SockState, Place, event, put, listens, begin_if, at_connect, at_receive, at_send,
  set_error_to, sock_event_kill, kill_active_listener,
}
use connio.SockEvent.Wait.{
  socket_listener_suspend, socket_listener_resume, suspend_if, resume_if, socket_event_kill,
}
use connio.SockEvent.Once.{
  errored-IsOwed, IsOwed, AllOwed, AllOwed-event, put-AllOwed, same-AllOwed, begin_if-AllOwed,
  put_complete-AllOwed,
}

killed-IsOwed : (e : EngineEvent) → IsOwed e → IsOwed (kill_active_listener e)
killed-IsOwed e o = record {
  threads = o.threads;
  delivered = o.delivered;
  engaged = o.engaged;
  untimed = o.untimed;
  listening = o.listening;
}

unpaused_of_other : (e : EngineEvent) → IsOwed e → listens e.type ≡ false → e.flags.paused ≡ false
unpaused_of_other e o l = elim (Bool-cases e.flags.paused) [
  | inl p ↦ absurd (ground (arith, l, o.listening p))
  | inr p ↦ p
]

kill-AllOwed : (k : Place) (s : SockState) → AllOwed s → AllOwed (begin_if k (sock_event_kill k s))
unfolding sock_event_kill
kill-AllOwed k s h =
    let e = event k s in
    let o = errored-IsOwed ecanceled e (AllOwed-event k s h) in
    elim (Bool-cases (listens e.type)) [
      | inl l ↦ rw l (
          begin_if-AllOwed k false (kill_active_listener (set_error_to ecanceled e)) s h
            (killed-IsOwed _ o))
      | inr l ↦ rw l (
          put_complete-AllOwed k (set_error_to ecanceled e) s h
            (unpaused_of_other e (AllOwed-event k s h) l) o)
    ]

suspended-IsOwed :
    (b : Bool) (e : EngineEvent)
    → IsOwed e
    → IsOwed (record e { flags = record e.flags { suspended = b } })
suspended-IsOwed b e o = record {
  threads = o.threads;
  delivered = o.delivered;
  engaged = o.engaged;
  untimed = o.untimed;
  listening = o.listening;
}

suspend_if-AllOwed :
    (reading : ℕ) (o : Option AsyncListener) (s : SockState)
    → AllOwed s
    → AllOwed (suspend_if reading o s).1
unfolding suspend_if
suspend_if-AllOwed reading none s h = h
suspend_if-AllOwed reading (some l) s h = elim (Bool-cases s.connect.flags.killed) [
  | inl f ↦ subst (λ (r : Bool × SockState). AllOwed r.1) (sym (if_true _ _ f)) h
  | inr f ↦
      subst (λ (r : Bool × SockState). AllOwed r.1) (sym (if_false _ _ f))
        (same-AllOwed (put at_connect _ s) _ refl refl refl
          (put-AllOwed at_connect _ s h (suspended-IsOwed true s.connect h.connect_owed)))
]

pub suspend-AllOwed :
    (reading : ℕ) (s : SockState) → AllOwed s → AllOwed (socket_listener_suspend reading s).1
unfolding socket_listener_suspend
suspend-AllOwed reading s h = suspend_if-AllOwed reading s.listener s h

resume_if-AllOwed :
    (reading : ℕ) (o : Option AsyncListener) (s : SockState)
    → AllOwed s
    → AllOwed (resume_if reading o s).1
unfolding resume_if
resume_if-AllOwed reading none s h = h
resume_if-AllOwed reading (some l) s h = elim (Bool-cases s.connect.flags.suspended) [
  | inl f ↦
      subst (λ (r : Bool × SockState). AllOwed r.1) (sym (if_true _ _ f))
        (same-AllOwed (put at_connect _ s) _ refl refl refl
          (put-AllOwed at_connect _ s h (suspended-IsOwed false s.connect h.connect_owed)))
  | inr f ↦ subst (λ (r : Bool × SockState). AllOwed r.1) (sym (if_false _ _ f)) h
]

pub resume-AllOwed :
    (reading : ℕ) (s : SockState) → AllOwed s → AllOwed (socket_listener_resume reading s).1
unfolding socket_listener_resume
resume-AllOwed reading s h = resume_if-AllOwed reading s.listener s h

-- A kill keeps what is owed.
pub socket_event_kill-AllOwed :
    (t : SocketEventType) (reading : ℕ) (s : SockState)
    → AllOwed s
    → AllOwed (socket_event_kill t reading s)
unfolding socket_event_kill
socket_event_kill-AllOwed type_readable reading s h =
    kill-AllOwed at_receive _ (resume-AllOwed reading s h)
socket_event_kill-AllOwed type_writable reading s h =
    kill-AllOwed at_send _ (resume-AllOwed reading s h)
socket_event_kill-AllOwed type_listen reading s h =
    kill-AllOwed at_connect _ (resume-AllOwed reading s h)
socket_event_kill-AllOwed type_connect reading s h =
    kill-AllOwed at_connect _ (resume-AllOwed reading s h)
socket_event_kill-AllOwed type_disconnect reading s h =
    kill-AllOwed at_connect _ (resume-AllOwed reading s h)
socket_event_kill-AllOwed type_none reading s h = h
