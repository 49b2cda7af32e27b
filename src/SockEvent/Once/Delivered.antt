-- ===== src/SockEvent/Once/Delivered.antt =====
-- That the thread of a socket event, HandleSocketEvent of src/sockcommon.c, keeps what is owed.
use mathlib.Core.Option.{some-injective}
use connio.Prelude.{
  ℕ, ◌+◌, ◌≡◌, ◌<◌, refl, sym, subst, ◌∙◌, Bool, Bool-cases, inl, inr, true, false, ◌&&◌, Option,
  none, some, List, ◌∷◌, if_true, if_false, if◌then◌else◌, arith,
}
use connio.Throttle.{
  AsyncListener, ListenerEvent, Call, Turn, SpinEnd, shut_down, stopped, spinning,
  listener_throttling, listener_spin_while_throttling,
}
use connio.SockEvent.{
  EngineEvent, SockState, Place, event, put, listens, begin_if, at_connect, at_receive, at_send,
  sock_event_complete, set_error_to, notify, socket_event_requeue, unpaused,
}
use connio.SockEvent.Engine.{
  deliver, spun, after_spin, spun_of, handle_socket_event, throttled, told,
}
use connio.SockEvent.Once.{
  IsOwed, AllOwed, AllOwed-event, put-AllOwed, same-AllOwed, complete-AllOwed,
}

abbrev delivered_by : EngineEvent → EngineEvent
delivered_by e = record e {
  linked = false;
  handled = e.handled + 1;
  deliveries = record { type = e.type; error = e.error } ∷ e.deliveries;
}

delivered-IsOwed : (e : EngineEvent) → e.handled < e.begun → IsOwed e → IsOwed (delivered_by e)
delivered-IsOwed e b o = record {
  threads = ground (arith, b, o.threads);
  delivered = ground (arith, b, o.threads, o.delivered);
  engaged = o.engaged;
  untimed = o.untimed;
  listening = o.listening;
}

deliver-AllOwed :
    (k : Place) (s : SockState)
    → (event k s).handled < (event k s).begun
    → AllOwed s
    → AllOwed (deliver k s)
unfolding deliver notify
deliver-AllOwed k s b h =
    let p =
      put-AllOwed k (delivered_by (event k s)) s h
        (delivered-IsOwed (event k s) b (AllOwed-event k s h)) in
    elim (Bool-cases (listens (event k s).type)) [
      | inl l ↦ subst AllOwed (sym (if_true _ _ l)) (same-AllOwed _ _ refl refl refl p)
      | inr l ↦ subst AllOwed (sym (if_false _ _ l)) p
    ]

-- The listener that was paused, behind the spin and back in the engine.
abbrev resumed : Bool → ℕ → EngineEvent → EngineEvent
resumed killed n e =
    set_error_to n
      (unpaused (record e { handled = e.handled + 1; flags = record e.flags { killed = killed } }))

resumed-IsOwed :
    (killed : Bool) (n : ℕ) (e : EngineEvent)
    → e.flags.paused ≡ true
    → IsOwed e
    → IsOwed (resumed killed n e)
resumed-IsOwed killed n e p o = record {
  threads = ground (arith, p, o.engaged p, o.threads);
  delivered = o.delivered;
  engaged = λ q. absurd (cc);
  untimed = o.untimed;
  listening = λ q. absurd (cc);
}

told-AllOwed :
    (k : Place) (v : ListenerEvent) (r : Bool × SockState)
    → AllOwed (begin_if k r)
    → AllOwed (if r.0 then begin_if k (true, r.1) else notify v r.1)
unfolding begin_if notify
told-AllOwed k v (true, s) h = h
told-AllOwed k v (false, s) h = same-AllOwed s _ refl refl refl h

abbrev back_in : Place → Bool → ℕ → List Call → SockState → SockState
back_in k killed n calls s =
    put k (resumed killed n (event k s)) (record s { notices = told calls s.notices })

back_in-AllOwed :
    (k : Place) (killed : Bool) (n : ℕ) (calls : List Call) (s : SockState)
    → (event k s).flags.paused ≡ true
    → AllOwed s
    → AllOwed (back_in k killed n calls s)
back_in-AllOwed k killed n calls s p h =
    put-AllOwed k (resumed killed n (event k s)) (record s { notices = told calls s.notices })
      (same-AllOwed s _ refl refl refl h)
      (resumed-IsOwed killed n (event k s) p (AllOwed-event k s h))

after_spin-AllOwed :
    (k : Place) (answer : Option ℕ) (killed : Bool) (calls : List Call) (s : SockState)
    → (event k s).flags.paused ≡ true
    → AllOwed s
    → AllOwed (after_spin k answer killed calls s)
unfolding after_spin socket_event_requeue notify
after_spin-AllOwed at_connect none killed calls s p h =
    same-AllOwed (back_in at_connect killed 0 calls s) _ refl refl refl
      (back_in-AllOwed at_connect killed 0 calls s p h)
after_spin-AllOwed at_receive none killed calls s p h =
    same-AllOwed (back_in at_receive killed 0 calls s) _ refl refl refl
      (back_in-AllOwed at_receive killed 0 calls s p h)
after_spin-AllOwed at_send none killed calls s p h =
    same-AllOwed (back_in at_send killed 0 calls s) _ refl refl refl
      (back_in-AllOwed at_send killed 0 calls s p h)
after_spin-AllOwed at_connect (some n) killed calls s p h =
    told-AllOwed at_connect ListenerEvent.listener_started
      (sock_event_complete at_connect (back_in at_connect killed n calls s))
      (complete-AllOwed at_connect (back_in at_connect killed n calls s)
        (back_in-AllOwed at_connect killed n calls s p h) refl)
after_spin-AllOwed at_receive (some n) killed calls s p h =
    told-AllOwed at_receive ListenerEvent.listener_started
      (sock_event_complete at_receive (back_in at_receive killed n calls s))
      (complete-AllOwed at_receive (back_in at_receive killed n calls s)
        (back_in-AllOwed at_receive killed n calls s p h) refl)
after_spin-AllOwed at_send (some n) killed calls s p h =
    told-AllOwed at_send ListenerEvent.listener_started
      (sock_event_complete at_send (back_in at_send killed n calls s))
      (complete-AllOwed at_send (back_in at_send killed n calls s)
        (back_in-AllOwed at_send killed n calls s p h) refl)

spun-AllOwed :
    (k : Place) (answer : Option ℕ) (end : SpinEnd × List Call) (s s' : SockState)
    → (event k s).flags.paused ≡ true
    → AllOwed s
    → spun k answer end s ≡ some s'
    → AllOwed s'
unfolding spun
spun-AllOwed k answer (spinning, calls) s s' p h e = absurd (cc)
spun-AllOwed k answer (shut_down, calls) s s' p h e =
    subst AllOwed (some-injective _ _ e) (after_spin-AllOwed k answer true calls s p h)
spun-AllOwed k answer (stopped, calls) s s' p h e =
    subst AllOwed (some-injective _ _ e) (after_spin-AllOwed k answer false calls s p h)

paused_of_throttling :
    (t : Bool) (e : EngineEvent) (s : SockState)
    → (t && listener_throttling (throttled e s)) ≡ true
    → e.flags.paused ≡ true
unfolding listener_throttling
paused_of_throttling t e s h = ground (arith, h)

throttling-AllOwed :
    (o : Option AsyncListener) (k : Place) (turns : List Turn) (answer : Option ℕ)
    (s s' : SockState)
    → (event k s).flags.paused ≡ true
    → AllOwed s
    → spun_of o k turns answer s ≡ some s'
    → AllOwed s'
unfolding spun_of
throttling-AllOwed none k turns answer s s' p h e = absurd (cc)
throttling-AllOwed (some l) k turns answer s s' p h e =
    spun-AllOwed k answer (listener_spin_while_throttling l turns) s s' p h e

-- The thread keeps what is owed, if it was begun and has not run yet.
pub handle-AllOwed :
    (k : Place) (turns : List Turn) (answer : Option ℕ) (s s' : SockState)
    → (event k s).handled < (event k s).begun
    → AllOwed s
    → handle_socket_event k turns answer s ≡ some s'
    → AllOwed s'
unfolding handle_socket_event
handle-AllOwed k turns answer s s' b h e =
    let e' = event k s in
    elim (Bool-cases (listens e'.type && listener_throttling (throttled e' s))) [
      | inl t ↦
          throttling-AllOwed s.listener k turns answer s s'
            (paused_of_throttling (listens e'.type) e' s t) h (sym (if_true _ _ t) ∙ e)
      | inr f ↦
          subst AllOwed (some-injective _ _ (sym (if_false _ _ f) ∙ e)) (deliver-AllOwed k s b h)
    ]
