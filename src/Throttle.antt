-- ===== src/Throttle.antt =====
-- The throttling of a listener: src/throttle.c. What AThreadCountRead and AThreadCountUpdate of the
-- thread engine return is an argument of each function, called a reading. The flags of the socket
-- event are one bit each in the source and one Boolean each here. Calls of the consumer's callback
-- are listed in their order.
pub mod Start
pub mod Spin
use connio.Prelude.{
  ℕ, zero, suc, ◌+◌, ◌%◌, ◌^◌, Bool, true, false, ◌&&◌, ◌||◌, not, Option, none, some, List, [],
  ◌∷◌, ◌++◌, ◌==◌, ltb, if◌then◌else◌,
}

pub record SocketEventFlags : Type 0 where
  pub killed : Bool
  pub paused : Bool
  pub suspended : Bool

-- AsyncListener; `has_callback` tells whether `eventCallback` is set.
pub record AsyncListener : Type 0 where
  pub throttling_threshold : ℕ
  pub has_callback : Bool

-- The flags of a SocketEvent and the listener of its socket.
pub record SocketEvent : Type 0 where
  pub flags : SocketEventFlags
  pub listener : Option AsyncListener

pub data ListenerEvent : Type 0 where
  listener_submitted listener_started listener_stopped listener_killed : ListenerEvent
  listener_waiting listener_returned listener_suspended listener_resumed : ListenerEvent
  throttling_started throttling_update throttling_stopped : ListenerEvent

-- A call of the callback: the event, the threshold and the thread count that it gets.
pub record Call : Type 0 where
  pub event : ListenerEvent
  pub threshold : ℕ
  pub count : ℕ

unfoldable pub listener_threshold_exceeded : AsyncListener → ℕ → Bool
listener_threshold_exceeded l reading = ltb l.throttling_threshold reading

unfoldable pub listener_should_throttle : SocketEvent → ℕ → Bool
unfolding listener_threshold_exceeded
listener_should_throttle se reading = elim se.listener [
  | none ↦ false
  | some l ↦
      if se.flags.suspended
      then true
      else if (l.throttling_threshold == 0) || not (listener_threshold_exceeded l reading)
      then false
      else true
]

abbrev pub call : AsyncListener → ListenerEvent → ℕ → Call
call l e n = record { event = e; threshold = l.throttling_threshold; count = n }

start_calls : AsyncListener → ℕ → List Call
start_calls l n =
    if l.has_callback then call l listener_stopped n ∷ call l throttling_started n ∷ [] else []

-- The first reading is that of listenerThresholdExceeded, the second that of the suspended listener.
unfoldable pub listener_start_throttling : SocketEvent → ℕ → ℕ → Bool × (List Call × SocketEvent)
unfolding listener_threshold_exceeded start_calls
listener_start_throttling se reading again = elim se.listener [
  | none ↦ (false, ([], se))
  | some l ↦
      if not se.flags.suspended
        || ((l.throttling_threshold == 0) || not (listener_threshold_exceeded l reading))
      then (false, ([], se))
      else (
        true,
        (
          start_calls l (if se.flags.suspended then again else reading),
          record se { flags = record se.flags { paused = true } },
        ),
      )
]

unfoldable pub listener_throttling : SocketEvent → Bool
listener_throttling se = not se.flags.killed && se.flags.paused

-- What one turn of the loop finds: the flags, and the thread count if it asks for it.
pub record Turn : Type 0 where
  pub flags : SocketEventFlags
  pub reading : ℕ

pub data SpinEnd : Type 0 where
  shut_down stopped spinning : SpinEnd

-- `loopCount++` of a 64-bit unsigned long.
abbrev pub next_loop : ℕ → ℕ
next_loop n = (n + 1) % 2 ^ 64

unfoldable pub update_calls : AsyncListener → ℕ → ℕ → List Call
update_calls l n thread_count =
    if l.has_callback && ((n % 16) == 0) then call l throttling_update thread_count ∷ [] else []

-- The loop over the turns that the list gives, each after a delay; `spinning` when they are used up.
pub spin : AsyncListener → ℕ → List Turn → SpinEnd × List Call
unfolding listener_threshold_exceeded update_calls
spin l loop_count [] = (spinning, [])
spin l loop_count (t ∷ ts) =
    let n = next_loop loop_count in
    let rest = spin l n ts in
    if t.flags.killed
    then (shut_down, [])
    else if not t.flags.suspended && not (listener_threshold_exceeded l t.reading)
    then (stopped, (if l.has_callback then call l throttling_stopped t.reading ∷ [] else []))
    else (rest.0, update_calls l n t.reading ++ rest.1)

unfoldable pub listener_spin_while_throttling : AsyncListener → List Turn → SpinEnd × List Call
unfolding spin
listener_spin_while_throttling l ts = spin l 0 ts
