-- ===== src/SockEvent/Wait/Missed.antt =====
-- A wait for a connection of src/sockcommon.c, and a kill of it.
use connio.Prelude.{
  ℕ, ◌+◌, ◌≡◌, ◌≢◌, refl, ◌∙◌, Bool, Bool-cases, inl, inr, true, false, Option, none, some, arith,
}
use connio.Conn.{type_connect, type_writable}
use connio.Throttle.{AsyncListener}
use connio.SockEvent.{SockState, at_connect, sock_event_kill, begin_if, listens}
use connio.SockEvent.Wait.{WaitArgs, socket_event_wait, socket_event_kill, socket_listener_resume}

wait-InEngine :
    (a : WaitArgs) (s s' : SockState)
    → a.answer ≢ some 0
    → socket_event_wait type_connect a s ≡ (0, s')
    → (s'.send.in_engine ≡ true) × (s'.send.type ≡ type_writable)
unfolding socket_event_wait
wait-InEngine a s s' n e = ground (arith, n)

begin-send : (r : Bool × SockState) → (begin_if at_connect r).send ≡ r.1.send
unfolding begin_if
begin-send (true, s) = refl
begin-send (false, s) = refl

kill-send : (s : SockState) → (sock_event_kill at_connect s).1.send ≡ s.send
unfolding sock_event_kill
kill-send s = elim (Bool-cases (listens s.connect.type)) [ inl l ↦ rw l refl | inr l ↦ rw l refl ]

resume-branches :
    (o : Option AsyncListener) (reading : ℕ) (s : SockState)
    → s.listener ≡ o
    → (socket_listener_resume reading s).1.send ≡ s.send
unfolding socket_listener_resume
resume-branches none reading s e = rw (e, socket_listener_resume) refl
resume-branches (some l) reading s e = elim (Bool-cases s.connect.flags.suspended) [
  | inl u ↦ rw (e, u, socket_listener_resume) refl
  | inr u ↦ rw (e, u, socket_listener_resume) refl
]

resume-send : (reading : ℕ) (s : SockState) → (socket_listener_resume reading s).1.send ≡ s.send
resume-send reading s = resume-branches s.listener reading s refl

kill_connect-send :
    (reading : ℕ) (s : SockState) → (socket_event_kill type_connect reading s).send ≡ s.send
unfolding socket_event_kill
kill_connect-send reading s =
    begin-send (sock_event_kill at_connect (socket_listener_resume reading s).1)
    ∙ kill-send (socket_listener_resume reading s).1
    ∙ resume-send reading s

kill_send :
    (reading : ℕ) (s : SockState)
    → s.send.in_engine ≡ true
    → s.send.type ≡ type_writable
    → ((socket_event_kill type_writable reading s).send.in_engine ≡ false)
      × ((socket_event_kill type_writable reading s).send.begun ≡ s.send.begun + 1)
unfolding socket_event_kill
kill_send reading s i t = ground arith

-- A wait for a connection that the engine took is not ended by SocketEventKill for the same type of
-- event, although it is by one for writable events: behind the kill the event is as it was, still in
-- the engine and with no thread begun. A failing epoll_ctl() sets errno.
pub socket_event_kill-missed :
    (a : WaitArgs) (reading : ℕ) (s s' : SockState)
    → a.answer ≢ some 0
    → socket_event_wait type_connect a s ≡ (0, s')
    → (s'.send.in_engine ≡ true)
      × ((socket_event_kill type_connect reading s').send ≡ s'.send)
      × ((socket_event_kill type_writable reading s').send.in_engine ≡ false)
      × ((socket_event_kill type_writable reading s').send.begun ≡ s'.send.begun + 1)
socket_event_kill-missed a reading s s' n e =
    let w = wait-InEngine a s s' n e in
    let k = kill_send reading s' w.0 w.1 in (w.0, kill_connect-send reading s', k.0, k.1)
