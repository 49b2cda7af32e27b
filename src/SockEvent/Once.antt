-- ===== src/SockEvent/Once.antt =====
-- How often the socket events of src/sockcommon.c and src/sockunix.c are delivered.
pub mod Steps
pub mod Polled
pub mod Paused
pub mod Asked
pub mod Killed
pub mod Delivered
use connio.Prelude.{
  ℕ, ◌+◌, ◌≡◌, ◌<◌, ◌≤◌, refl, sym, subst, ap, ◌∙◌, Bool, true, false, ◌&&◌, not, Option, none,
  some, length, bit, if◌then◌else◌, arith,
}
use connio.Conn.{SocketEventType, type_listen}
use connio.SockEvent.{
  set_error_to, EngineEvent, SockState, Place, event, put, listens, event_completed, begin,
  begin_if, sock_event_complete, at_connect, at_receive, at_send,
}

-- The event waits in the engine for its file descriptor, its timeout or a kill. A paused listener is in
-- the engine, but disabled.
abbrev pub waits : EngineEvent → ℕ
waits e = bit (e.in_engine && not e.flags.paused)

-- `threads`: an event that is linked waits in the engine, or its thread was begun and has not run yet,
-- never both; one that is not linked does neither. `delivered`: every wait that was submitted is
-- delivered once, but for the one for which the event is linked.
pub record IsOwed (e : EngineEvent) : Type 0 where
  pub threads : e.begun + waits e ≡ e.handled + bit e.linked
  pub delivered : length e.deliveries + bit e.linked ≡ e.submitted
  pub engaged : e.flags.paused ≡ true → e.in_engine ≡ true
  pub untimed : listens e.type ≡ true → e.timeout_pending ≡ false
  pub listening : e.flags.paused ≡ true → listens e.type ≡ true

pub errored-IsOwed : (n : ℕ) (e : EngineEvent) → IsOwed e → IsOwed (set_error_to n e)
errored-IsOwed n e o = record {
  threads = o.threads;
  delivered = o.delivered;
  engaged = o.engaged;
  untimed = o.untimed;
  listening = o.listening;
}

pub record AllOwed (s : SockState) : Type 0 where
  pub connect_owed : IsOwed s.connect
  pub receive_owed : IsOwed s.receive
  pub send_owed : IsOwed s.send

pub AllOwed-event : (k : Place) (s : SockState) → AllOwed s → IsOwed (event k s)
AllOwed-event at_connect s h = h.connect_owed
AllOwed-event at_receive s h = h.receive_owed
AllOwed-event at_send s h = h.send_owed

pub put-AllOwed :
    (k : Place) (e : EngineEvent) (s : SockState) → AllOwed s → IsOwed e → AllOwed (put k e s)
put-AllOwed at_connect e s h o = record {
  connect_owed = o;
  receive_owed = h.receive_owed;
  send_owed = h.send_owed;
}
put-AllOwed at_receive e s h o = record {
  connect_owed = h.connect_owed;
  receive_owed = o;
  send_owed = h.send_owed;
}
put-AllOwed at_send e s h o = record {
  connect_owed = h.connect_owed;
  receive_owed = h.receive_owed;
  send_owed = o;
}

-- SocketEventComplete with the thread that it leads to, on an event that is not paused.
abbrev pub finished : EngineEvent → EngineEvent
finished e = let (done, e') = event_completed e in if done then begin e' else e'

pub finished-IsOwed : (e : EngineEvent) → e.flags.paused ≡ false → IsOwed e → IsOwed (finished e)
unfolding event_completed
finished-IsOwed e p o = ground (arith, p, o.threads, o.delivered, o.engaged, o.untimed, o.listening)

-- AllOwed reads the three events alone.
pub same-AllOwed :
    (s s' : SockState)
    → s'.connect ≡ s.connect
    → s'.receive ≡ s.receive
    → s'.send ≡ s.send
    → AllOwed s
    → AllOwed s'
same-AllOwed s s' c r e h = record {
  connect_owed = subst IsOwed (sym c) h.connect_owed;
  receive_owed = subst IsOwed (sym r) h.receive_owed;
  send_owed = subst IsOwed (sym e) h.send_owed;
}

pub begin_if-AllOwed :
    (k : Place) (b : Bool) (e : EngineEvent) (s : SockState)
    → AllOwed s
    → IsOwed (if b then begin e else e)
    → AllOwed (begin_if k (b, put k e s))
unfolding begin_if
begin_if-AllOwed at_connect true e s h o = put-AllOwed at_connect (begin e) s h o
begin_if-AllOwed at_connect false e s h o = put-AllOwed at_connect e s h o
begin_if-AllOwed at_receive true e s h o = put-AllOwed at_receive (begin e) s h o
begin_if-AllOwed at_receive false e s h o = put-AllOwed at_receive e s h o
begin_if-AllOwed at_send true e s h o = put-AllOwed at_send (begin e) s h o
begin_if-AllOwed at_send false e s h o = put-AllOwed at_send e s h o

-- SocketEventComplete with the thread that it leads to.
pub complete-AllOwed :
    (k : Place) (s : SockState)
    → AllOwed s
    → (event k s).flags.paused ≡ false
    → AllOwed (begin_if k (sock_event_complete k s))
unfolding sock_event_complete
complete-AllOwed k s h p =
    begin_if-AllOwed k (event_completed (event k s)).0 (event_completed (event k s)).1 _
      (same-AllOwed s _ refl refl refl h) (finished-IsOwed (event k s) p (AllOwed-event k s h))

pub event-put : (k : Place) (e : EngineEvent) (s : SockState) → event k (put k e s) ≡ e
event-put at_connect e s = refl
event-put at_receive e s = refl
event-put at_send e s = refl

-- The same on a state whose event alone differs from one where all is well.
pub put_complete-AllOwed :
    (k : Place) (e : EngineEvent) (s : SockState)
    → AllOwed s
    → e.flags.paused ≡ false
    → IsOwed e
    → AllOwed (begin_if k (sock_event_complete k (put k e s)))
put_complete-AllOwed k e s h p o =
    complete-AllOwed k (put k e s) (put-AllOwed k e s h o)
      (ap (λ (d : EngineEvent). d.flags.paused) (event-put k e s) ∙ p)
