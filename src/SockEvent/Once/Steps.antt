-- ===== src/SockEvent/Once/Steps.antt =====
-- All that happens to the socket events of a SOCK of src/sockcommon.c, in any order.
use connio.Prelude.{
  ℕ, ◌≡◌, ◌≢◌, ◌<◌, refl, Bool, true, false, Option, none, some, List, [], length, arith,
}
use connio.Conn.{SocketEventType}
use connio.Throttle.{Turn}
use connio.SockEvent.Timers.{TimerLists}
use connio.SockEvent.{EngineEvent, SockState, Place, event, sock_event_init, sock_event_clean}
use connio.SockEvent.Engine.{PollResult, poll_event, time_out, handle_socket_event}
use connio.SockEvent.Wait.{
  WaitArgs, socket_event_wait, socket_event_kill, socket_listener_suspend, socket_listener_resume,
  socket_events_clean, accept_left,
}
use connio.SockEvent.Once.{IsOwed, AllOwed, AllOwed-event, same-AllOwed, waits}
use connio.SockEvent.Once.Polled.{poll_event-AllOwed, time_out-AllOwed}
use connio.SockEvent.Once.Asked.{IsClear, place_of, wait-AllOwed}
use connio.SockEvent.Once.Killed.{suspend-AllOwed, resume-AllOwed, socket_event_kill-AllOwed}
use connio.SockEvent.Once.Delivered.{handle-AllOwed}

-- A SOCK from SocketAlloc on: its three events, at their addresses.
abbrev pub new_sock : ℕ → ℕ → ℕ → TimerLists → SockState
new_sock c r d t = record {
  valid = false;
  listener = none;
  in_accept = 0;
  connect = sock_event_init c;
  receive = sock_event_init r;
  send = sock_event_init d;
  notices = [];
  timers = t;
}

-- `submits`: no flag of an event that is not linked is set, as sockEventAdd asserts, and a failing
-- epoll_ctl() sets errno. `polls`: epoll says nothing of an event that it gave once (EPOLLONESHOT),
-- before EPOLL_CTL_MOD, so that it says nothing of a paused listener. `expires`: an event that was
-- in a list of timeouts is marked so; `t` are the lists behind the sweep. `handles`: a thread that was
-- begun runs. `cleans`: when no event waits. `renumbers`: the socket is opened or closed.
pub data Comes : SockState → Type 0 where
  new : (c r d : ℕ) (t : TimerLists) → Comes (new_sock c r d t)
  submits :
      (type : SocketEventType) (a : WaitArgs) (s : SockState)
      → a.answer ≢ some 0
      → ((event (place_of type) s).linked ≡ false → IsClear (event (place_of type) s))
      → Comes s
      → Comes (socket_event_wait type a s).1
  kills :
      (type : SocketEventType) (reading : ℕ) (s : SockState)
      → Comes s
      → Comes (socket_event_kill type reading s)
  polls :
      (k : Place) (r : PollResult) (spare : Bool) (s : SockState)
      → (event k s).flags.paused ≡ false
      → Comes s
      → Comes (poll_event k r spare s)
  expires :
      (k : Place) (t : TimerLists) (s : SockState)
      → (event k s).timeout_pending ≡ true
      → Comes s
      → Comes (time_out k (record s { timers = t }))
  handles :
      (k : Place) (turns : List Turn) (answer : Option ℕ) (s s' : SockState)
      → (event k s).handled < (event k s).begun
      → handle_socket_event k turns answer s ≡ some s'
      → Comes s
      → Comes s'
  suspends : (reading : ℕ) (s : SockState) → Comes s → Comes (socket_listener_suspend reading s).1
  resumes : (reading : ℕ) (s : SockState) → Comes s → Comes (socket_listener_resume reading s).1
  cleans :
      (s : SockState)
      → waits s.connect ≡ 0
      → waits s.receive ≡ 0
      → waits s.send ≡ 0
      → Comes s
      → Comes (socket_events_clean s)
  leaves : (s : SockState) → Comes s → Comes (accept_left s)
  renumbers : (b : Bool) (s : SockState) → Comes s → Comes (record s { valid = b })

fresh-IsOwed : (p : ℕ) → IsOwed (sock_event_init p)
unfolding sock_event_init
fresh-IsOwed p = record {
  threads = refl;
  delivered = refl;
  engaged = λ q. absurd (cc);
  untimed = λ q. refl;
  listening = λ q. absurd (cc);
}

clean-IsOwed : (e : EngineEvent) → waits e ≡ 0 → IsOwed e → IsOwed (sock_event_clean e)
unfolding sock_event_clean
clean-IsOwed e w o = record {
  threads = ground (arith, w, o.threads);
  delivered = o.delivered;
  engaged = λ q. absurd (cc);
  untimed = λ q. refl;
  listening = λ q. absurd (cc);
}

time_out_of-AllOwed :
    (k : Place) (t : TimerLists) (s : SockState)
    → AllOwed s
    → (event k s).timeout_pending ≡ true
    → AllOwed (time_out k (record s { timers = t }))
time_out_of-AllOwed Place.at_connect t s h e =
    time_out-AllOwed Place.at_connect _ (same-AllOwed s (record s { timers = t }) refl refl refl h)
      e
time_out_of-AllOwed Place.at_receive t s h e =
    time_out-AllOwed Place.at_receive _ (same-AllOwed s (record s { timers = t }) refl refl refl h)
      e
time_out_of-AllOwed Place.at_send t s h e =
    time_out-AllOwed Place.at_send _ (same-AllOwed s (record s { timers = t }) refl refl refl h) e

-- Whatever happens to a SOCK from its allocation on by the steps of `Comes`, in whichever order: for
-- each of its three events, if it is linked, it waits in the engine, or its thread was begun and has
-- not run yet, never both, and if it is not linked, it does neither. Every wait that was submitted was
-- delivered exactly once, but for the one for which the event is linked. Only listeners are paused,
-- and a paused one is in the engine; no listener has a timeout.
pub Comes-AllOwed : (s : SockState) → Comes s → AllOwed s
unfolding socket_events_clean accept_left
Comes-AllOwed s (new c r d t) = record {
  connect_owed = fresh-IsOwed c;
  receive_owed = fresh-IsOwed r;
  send_owed = fresh-IsOwed d;
}
Comes-AllOwed s (submits type a t n c h) = wait-AllOwed type a t n c (Comes-AllOwed t h)
Comes-AllOwed s (kills type reading t h) =
    socket_event_kill-AllOwed type reading t (Comes-AllOwed t h)
Comes-AllOwed s (polls k r spare t p h) = poll_event-AllOwed k r spare t (Comes-AllOwed t h) p
Comes-AllOwed s (expires k ts t e h) = time_out_of-AllOwed k ts t (Comes-AllOwed t h) e
Comes-AllOwed s (handles k turns answer t t' b e h) =
    handle-AllOwed k turns answer t t' b (Comes-AllOwed t h) e
Comes-AllOwed s (suspends reading t h) = suspend-AllOwed reading t (Comes-AllOwed t h)
Comes-AllOwed s (resumes reading t h) = resume-AllOwed reading t (Comes-AllOwed t h)
Comes-AllOwed s (cleans t c r d h) =
    let o = Comes-AllOwed t h in
    record {
      connect_owed = clean-IsOwed t.connect c o.connect_owed;
      receive_owed = clean-IsOwed t.receive r o.receive_owed;
      send_owed = clean-IsOwed t.send d o.send_owed;
    }
Comes-AllOwed s (leaves t h) = same-AllOwed t _ refl refl refl (Comes-AllOwed t h)
Comes-AllOwed s (renumbers b t h) = same-AllOwed t _ refl refl refl (Comes-AllOwed t h)

settled-delivered :
    (e : EngineEvent)
    → IsOwed e
    → waits e ≡ 0
    → e.begun ≡ e.handled
    → length e.deliveries ≡ e.submitted
settled-delivered e o w b = ground (arith, w, b, o.threads, o.delivered)

-- When nothing is under way any more for an event, it neither waits in the engine nor has a thread
-- that did not run, then each wait that the engine took for it was delivered, once.
pub Comes-delivered :
    (k : Place) (s : SockState)
    → Comes s
    → waits (event k s) ≡ 0
    → (event k s).begun ≡ (event k s).handled
    → length (event k s).deliveries ≡ (event k s).submitted
Comes-delivered k s h w b =
    settled-delivered (event k s) (AllOwed-event k s (Comes-AllOwed s h)) w b
