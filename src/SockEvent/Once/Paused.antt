-- ===== src/SockEvent/Once/Paused.antt =====
-- That a listener of src/sockunix.c which comes out of the engine, to be throttled or not, keeps what is owed.
use connio.Prelude.{
  ℕ, ◌+◌, ◌≡◌, refl, ap, ◌∙◌, Bool, Bool-cases, inl, inr, true, false, ◌&&◌, Option, none, some,
  if◌then◌else◌, arith,
}
use connio.Throttle.{
  SocketEvent, SocketEventFlags, ListenerEvent, listener_should_throttle, listener_start_throttling,
}
use connio.SockEvent.{
  EngineEvent, SockState, Place, event, put, listens, begin, begin_if, at_connect, at_receive,
  at_send, sock_event_complete, set_error_to, notify,
}
use connio.SockEvent.Engine.{
  PollResult, requeue_or_complete, throttle_or_requeue, handle_listener, throttled,
}
use connio.SockEvent.Once.{
  errored-IsOwed, IsOwed, AllOwed, AllOwed-event, put-AllOwed, same-AllOwed, begin_if-AllOwed,
  complete-AllOwed, event-put,
}

notify-AllOwed : (v : ListenerEvent) (s : SockState) → AllOwed s → AllOwed (notify v s)
unfolding notify
notify-AllOwed v s h = same-AllOwed s _ refl refl refl h

event-notify : (k : Place) (v : ListenerEvent) (s : SockState) → event k (notify v s) ≡ event k s
unfolding notify
event-notify at_connect v s = refl
event-notify at_receive v s = refl
event-notify at_send v s = refl

abbrev is_paused : EngineEvent → Bool
is_paused e = e.flags.paused

requeue-AllOwed :
    (k : Place) (answer : Option ℕ) (s : SockState)
    → AllOwed s
    → (event k s).flags.paused ≡ false
    → AllOwed (begin_if k (requeue_or_complete k answer s))
unfolding requeue_or_complete
requeue-AllOwed k none s h p =
    begin_if-AllOwed k false (set_error_to 0 (event k s)) s h
      (errored-IsOwed 0 (event k s) (AllOwed-event k s h))
requeue-AllOwed k (some n) s h p =
    let e = set_error_to n (event k s) in
    let s1 = put k e s in
    let v = ListenerEvent.listener_stopped in
    complete-AllOwed k (notify v s1)
      (notify-AllOwed v s1
        (put-AllOwed k e s h (errored-IsOwed n (event k s) (AllOwed-event k s h))))
      (ap is_paused (event-notify k v s1 ∙ event-put k e s) ∙ p)

-- A listener that is in the engine is paused.
paused-IsOwed :
    (e : EngineEvent) (f : SocketEventFlags)
    → e.flags.paused ≡ false
    → e.in_engine ≡ true
    → e.timeout_pending ≡ false
    → listens e.type ≡ true
    → IsOwed e
    → f.paused ≡ true
    → IsOwed (begin (record e { flags = f }))
paused-IsOwed e f p i t l o q = ground (arith, p, i, t, l, q, o.threads, o.delivered)

and-right : (a b : Bool) → (a && b) ≡ true → b ≡ true
and-right true b h = h
and-right false b h = cc

start-paused :
    (se : SocketEvent) (reading again : ℕ)
    → (listener_start_throttling se reading again).0 ≡ true
    → (listener_start_throttling se reading again).1.1.flags.paused ≡ true
unfolding listener_start_throttling
start-paused se reading again h = ground (arith, h)

throttle-AllOwed :
    (k : Place) (r : PollResult) (s : SockState)
    → AllOwed s
    → (event k s).flags.paused ≡ false
    → (event k s).in_engine ≡ true
    → listens (event k s).type ≡ true
    → AllOwed (begin_if k (throttle_or_requeue k r s))
unfolding throttle_or_requeue
throttle-AllOwed k r s h p i l =
    let o = AllOwed-event k s h in
    let e = event k s in
    elim (Bool-cases (
      listener_should_throttle (throttled e s) r.reading
      && (listener_start_throttling (throttled e s) r.reading r.again).0)) [
        | inl y ↦ rw y (
            begin_if-AllOwed k true
              (record e {
                flags = (listener_start_throttling (throttled e s) r.reading r.again).1.1.flags;
              })
              _ (same-AllOwed s _ refl refl refl h)
              (paused-IsOwed e _ p i (o.untimed l) l o (
                start-paused (throttled e s) r.reading r.again (
                  and-right (listener_should_throttle (throttled e s) r.reading)
                    (listener_start_throttling (throttled e s) r.reading r.again).0 y))))
        | inr n ↦ rw n (requeue-AllOwed k r.requeue s h p)
      ]

killed-AllOwed :
    (k : Place) (s : SockState)
    → AllOwed s
    → (event k s).flags.paused ≡ false
    → AllOwed (
        begin_if k (
          sock_event_complete k
            (notify ListenerEvent.listener_stopped (notify ListenerEvent.listener_killed s))))
killed-AllOwed k s h p =
    let v = ListenerEvent.listener_killed in
    let w = ListenerEvent.listener_stopped in
    complete-AllOwed k (notify w (notify v s))
      (notify-AllOwed w (notify v s) (notify-AllOwed v s h))
      (ap is_paused (event-notify k w (notify v s) ∙ event-notify k v s) ∙ p)

accepted-AllOwed :
    (k : Place) (r : PollResult) (spare : Bool) (s : SockState)
    → AllOwed s
    → (event k s).flags.paused ≡ false
    → (event k s).in_engine ≡ true
    → listens (event k s).type ≡ true
    → AllOwed (
        begin_if k
          (throttle_or_requeue k r (if spare then record s { in_accept = s.in_accept + 1 } else s)))
accepted-AllOwed k r false s h p i l = throttle-AllOwed k r s h p i l
accepted-AllOwed at_connect r true s h p i l =
    throttle-AllOwed at_connect r _ (same-AllOwed s _ refl refl refl h) p i l
accepted-AllOwed at_receive r true s h p i l =
    throttle-AllOwed at_receive r _ (same-AllOwed s _ refl refl refl h) p i l
accepted-AllOwed at_send r true s h p i l =
    throttle-AllOwed at_send r _ (same-AllOwed s _ refl refl refl h) p i l

pub listener-AllOwed :
    (k : Place) (r : PollResult) (spare : Bool) (s : SockState)
    → AllOwed s
    → (event k s).flags.paused ≡ false
    → (event k s).in_engine ≡ true
    → listens (event k s).type ≡ true
    → AllOwed
        (begin_if k ((handle_listener k r spare s).complete, (handle_listener k r spare s).state))
unfolding handle_listener
listener-AllOwed k r spare s h p i l = elim (Bool-cases (event k s).flags.killed) [
  | inl c ↦ rw c (killed-AllOwed k s h p)
  | inr c ↦ elim (Bool-cases r.accepts) [
    | inl a ↦ rw (c, a) (accepted-AllOwed k r spare s h p i l)
    | inr a ↦ rw (c, a) (requeue-AllOwed k r.requeue s h p)
  ]
]
