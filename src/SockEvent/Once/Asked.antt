-- ===== src/SockEvent/Once/Asked.antt =====
-- That the waits of src/sockcommon.c keep what is owed to each event.
use connio.Prelude.{
  ℕ, ◌+◌, ◌≡◌, ◌≢◌, refl, sym, subst, ap, Bool, Bool-cases, inl, inr, true, false, ◌&&◌, not,
  Option, none, some, if_true, if_false, arith, ◌==◌,
}
use connio.Errno.{enotsock, ebusy, enomem, econnaborted, econniobug}
use connio.Conn.{
  SocketEventType, type_none, type_listen, type_readable, type_writable, type_connect,
  type_disconnect,
}
use connio.Throttle.{ListenerEvent}
use connio.SockEvent.{
  EngineEvent, SockState, Place, event, put, listens, at_connect, at_receive, at_send, notify,
  sock_event_add, timed,
}
use connio.SockEvent.Wait.{
  WaitArgs, se_link_ce, se_unlink_ce, submit_at, settled, async_listener_release, socket_event_wait,
}
use connio.SockEvent.Once.{IsOwed, AllOwed, put-AllOwed, same-AllOwed}

-- No flag of the event is set, as sockEventAdd asserts.
abbrev pub IsClear : EngineEvent → Type 0
IsClear e = (e.in_engine ≡ false) × (e.timeout_pending ≡ false) × (e.flags.paused ≡ false)

abbrev linked_to : SocketEventType → EngineEvent → EngineEvent
linked_to t e = record e { linked = true; type = t; error = 0 }

abbrev counted : EngineEvent → EngineEvent
counted e = record e { submitted = e.submitted + 1 }

entered-IsOwed :
    (t : SocketEventType) (b : Bool) (e : EngineEvent)
    → e.linked ≡ false
    → IsClear e
    → IsOwed e
    → (listens t ≡ true → b ≡ false)
    → IsOwed (counted (record (linked_to t e) { in_engine = true; timeout_pending = b }))
entered-IsOwed t b e l c o u = record {
  threads = ground (arith, l, c.0, c.2, o.threads);
  delivered = ground (arith, l, o.delivered);
  engaged = λ p. refl;
  untimed = u;
  listening = λ p. absurd (ground (arith, p, c.2));
}

untimed_listener :
    (b : Bool) (t : SocketEventType)
    → (b && not (listens t)) ≡ true
    → listens t ≡ true
    → true ≡ false
untimed_listener b t y q = ground (arith, y, q)

-- An event that was linked and taken by the engine.
taken-IsOwed :
    (t : SocketEventType) (ms : ℕ) (e : EngineEvent)
    → e.linked ≡ false
    → IsClear e
    → IsOwed e
    → IsOwed (counted (timed ms (record (linked_to t e) { in_engine = true })))
unfolding timed
taken-IsOwed t ms e l c o = elim (Bool-cases (not (ms == 0) && not (listens t))) [
  | inl y ↦ rw y (entered-IsOwed t true e l c o (untimed_listener (not (ms == 0)) t y))
  | inr n ↦ rw n (entered-IsOwed t e.timeout_pending e l c o (λ q. c.1))
]

refused-IsOwed :
    (t : SocketEventType) (e : EngineEvent)
    → e.linked ≡ false
    → IsClear e
    → IsOwed e
    → IsOwed (se_unlink_ce (record (linked_to t e) { in_engine = false }))
unfolding se_unlink_ce
refused-IsOwed t e l c o = ground (arith, l, c.0, c.1, c.2, o.threads, o.delivered)

release-AllOwed : (n : ℕ) (s : SockState) → AllOwed s → AllOwed (async_listener_release n s).1
unfolding async_listener_release
release-AllOwed n s h = same-AllOwed s _ refl refl refl h

accepted-AllOwed :
    (k : Place) (e : EngineEvent) (s : SockState)
    → AllOwed s
    → IsOwed (counted e)
    → AllOwed (settled k (0, put k e s)).1
unfolding settled
accepted-AllOwed at_connect e s h o = put-AllOwed at_connect (counted e) s h o
accepted-AllOwed at_receive e s h o = put-AllOwed at_receive (counted e) s h o
accepted-AllOwed at_send e s h o = put-AllOwed at_send (counted e) s h o

replaced-AllOwed :
    (k : Place) (e : EngineEvent) (s : SockState)
    → AllOwed s
    → IsOwed (se_unlink_ce e)
    → AllOwed (put k (se_unlink_ce (event k (put k e s))) (put k e s))
replaced-AllOwed at_connect e s h o = put-AllOwed at_connect (se_unlink_ce e) s h o
replaced-AllOwed at_receive e s h o = put-AllOwed at_receive (se_unlink_ce e) s h o
replaced-AllOwed at_send e s h o = put-AllOwed at_send (se_unlink_ce e) s h o

failed-AllOwed :
    (n : ℕ) (k : Place) (e : EngineEvent) (s : SockState)
    → n ≢ 0
    → AllOwed s
    → IsOwed (se_unlink_ce e)
    → AllOwed (settled k (n, put k e s)).1
unfolding settled
failed-AllOwed n k e s z h o =
    let f : (n == 0) ≡ false = ground (arith, z) in
    rw f (
      release-AllOwed n (put k (se_unlink_ce (event k (put k e s))) (put k e s))
        (replaced-AllOwed k e s h o))

some-ne : (m : ℕ) → some m ≢ some 0 → m ≢ 0
some-ne m d e = d (ap some e)

added-AllOwed :
    (m : Option ℕ) (k : Place) (t : SocketEventType) (now ms : ℕ) (s : SockState)
    → m ≢ some 0
    → (event k s).linked ≡ false
    → IsClear (event k s)
    → AllOwed s
    → AllOwed (settled k (sock_event_add k m now ms (put k (linked_to t (event k s)) s))).1
unfolding sock_event_add
added-AllOwed none at_connect t now ms s d l c h =
    accepted-AllOwed at_connect _ _ (same-AllOwed s _ refl refl refl h)
      (taken-IsOwed t ms s.connect l c h.connect_owed)
added-AllOwed none at_receive t now ms s d l c h =
    accepted-AllOwed at_receive _ _ (same-AllOwed s _ refl refl refl h)
      (taken-IsOwed t ms s.receive l c h.receive_owed)
added-AllOwed none at_send t now ms s d l c h =
    accepted-AllOwed at_send _ _ (same-AllOwed s _ refl refl refl h)
      (taken-IsOwed t ms s.send l c h.send_owed)
added-AllOwed (some m) at_connect t now ms s d l c h =
    failed-AllOwed m at_connect _ s (some-ne m d) h (refused-IsOwed t s.connect l c h.connect_owed)
added-AllOwed (some m) at_receive t now ms s d l c h =
    failed-AllOwed m at_receive _ s (some-ne m d) h (refused-IsOwed t s.receive l c h.receive_owed)
added-AllOwed (some m) at_send t now ms s d l c h =
    failed-AllOwed m at_send _ s (some-ne m d) h (refused-IsOwed t s.send l c h.send_owed)

submit_at-AllOwed :
    (k : Place) (t : SocketEventType) (a : WaitArgs) (s : SockState)
    → a.answer ≢ some 0
    → ((event k s).linked ≡ false → IsClear (event k s))
    → AllOwed s
    → AllOwed (submit_at k t a s).1
unfolding submit_at se_link_ce
submit_at-AllOwed k t a s n c h = elim (Bool-cases s.valid) [
  | inr v ↦
      simp v
        (release-AllOwed enotsock (record s { valid = false }) (same-AllOwed s _ refl refl refl h))
  | inl v ↦ elim (Bool-cases (event k s).linked) [
    | inl l ↦
        simp (v, l)
          (release-AllOwed ebusy (record s { valid = true }) (same-AllOwed s _ refl refl refl h))
    | inr l ↦ simp (v, l) (added-AllOwed a.answer k t a.now a.milliseconds s n l (c l) h)
  ]
]

-- The event that a wait is for.
abbrev pub place_of : SocketEventType → Place
place_of type_readable = at_receive
place_of type_disconnect = at_receive
place_of type_writable = at_send
place_of type_connect = at_send
place_of type_listen = at_connect
place_of type_none = at_connect

submit_listener-AllOwed :
    (a : WaitArgs) (s : SockState)
    → a.answer ≢ some 0
    → (s.connect.linked ≡ false → IsClear s.connect)
    → AllOwed s
    → AllOwed
        (submit_at at_connect type_listen a (
          notify ListenerEvent.listener_submitted
            (record s { listener = some a.listener; in_accept = 0 }))).1
unfolding notify
submit_listener-AllOwed a s n c h =
    submit_at-AllOwed at_connect type_listen a _ n c (same-AllOwed s _ refl refl refl h)

-- A wait keeps what is owed, whether it succeeds or not.
pub wait-AllOwed :
    (t : SocketEventType) (a : WaitArgs) (s : SockState)
    → a.answer ≢ some 0
    → ((event (place_of t) s).linked ≡ false → IsClear (event (place_of t) s))
    → AllOwed s
    → AllOwed (socket_event_wait t a s).1
unfolding socket_event_wait
wait-AllOwed type_none a s n c h = release-AllOwed econniobug s h
wait-AllOwed type_readable a s n c h = submit_at-AllOwed at_receive type_readable a s n c h
wait-AllOwed type_disconnect a s n c h = submit_at-AllOwed at_receive type_readable a s n c h
wait-AllOwed type_writable a s n c h = submit_at-AllOwed at_send type_writable a s n c h
wait-AllOwed type_connect a s n c h = submit_at-AllOwed at_send type_writable a s n c h
wait-AllOwed type_listen a s n c h = elim (Bool-cases s.connect.flags.killed) [
  | inl d ↦
      subst (λ (r : ℕ × SockState). AllOwed r.1) (sym (if_true _ _ d))
        (release-AllOwed econnaborted s h)
  | inr d ↦
      subst (λ (r : ℕ × SockState). AllOwed r.1) (sym (if_false _ _ d))
        (elim (Bool-cases a.memory) [
          | inl m ↦
              subst (λ (r : ℕ × SockState). AllOwed r.1) (sym (if_false _ _ (ap not m)))
                (submit_listener-AllOwed a s n c h)
          | inr m ↦
              subst (λ (r : ℕ × SockState). AllOwed r.1) (sym (if_true _ _ (ap not m)))
                (release-AllOwed enomem s h)
        ])
]
