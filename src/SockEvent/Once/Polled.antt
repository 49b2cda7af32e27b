-- ===== src/SockEvent/Once/Polled.antt =====
-- That what comes out of the engine of src/sockunix.c keeps what is owed to each event.
use connio.Prelude.{ℕ, ◌≡◌, refl, ap, ◌∙◌, Bool, Bool-cases, inl, inr, true, false, arith}
use connio.Errno.{einval, etimedout}
use connio.Conn.{
  SocketEventType, type_none, type_listen, type_readable, type_writable, type_connect,
  type_disconnect,
}
use connio.SockEvent.{
  EngineEvent, SockState, Place, event, put, listens, begin_if, sock_event_complete, set_error_to,
}
use connio.SockEvent.Engine.{
  PollResult, handle_listener, socket_event_handle, poll_event, time_out, poll_error,
}
use connio.SockEvent.Once.{
  errored-IsOwed, IsOwed, AllOwed, AllOwed-event, put-AllOwed, put_complete-AllOwed, event-put,
}
use connio.SockEvent.Once.Paused.{listener-AllOwed}

abbrev is_paused : EngineEvent → Bool
is_paused e = e.flags.paused

errored-AllOwed :
    (k : Place) (n : ℕ) (s : SockState) → AllOwed s → AllOwed (put k (set_error_to n (event k s)) s)
errored-AllOwed k n s h = put-AllOwed k _ s h (errored-IsOwed n (event k s) (AllOwed-event k s h))

errored_complete-AllOwed :
    (k : Place) (n : ℕ) (s : SockState)
    → AllOwed s
    → (event k s).flags.paused ≡ false
    → AllOwed (begin_if k (sock_event_complete k (put k (set_error_to n (event k s)) s)))
errored_complete-AllOwed k n s h p =
    put_complete-AllOwed k (set_error_to n (event k s)) s h p
      (errored-IsOwed n (event k s) (AllOwed-event k s h))

errored_listener-AllOwed :
    (k : Place) (r : PollResult) (spare : Bool) (n : ℕ) (s : SockState)
    → AllOwed s
    → (event k s).flags.paused ≡ false
    → (event k s).in_engine ≡ true
    → listens (event k s).type ≡ true
    → AllOwed (
        begin_if k (
          (handle_listener k r spare (put k (set_error_to n (event k s)) s)).complete,
          (handle_listener k r spare (put k (set_error_to n (event k s)) s)).state,
        ))
errored_listener-AllOwed k r spare n s h p i l =
    let e = set_error_to n (event k s) in
    let back = event-put k e s in
    listener-AllOwed k r spare (put k e s) (errored-AllOwed k n s h) (ap is_paused back ∙ p)
      (ap (λ (d : EngineEvent). d.in_engine) back ∙ i)
      (ap (λ (d : EngineEvent). listens d.type) back ∙ l)

abbrev HandlesWell : Place → PollResult → Bool → SockState → Type 0
HandlesWell k r spare s = AllOwed (
    begin_if k
      ((socket_event_handle k r spare s).complete, (socket_event_handle k r spare s).state))

handle_typed-AllOwed :
    (t : SocketEventType) (k : Place) (r : PollResult) (spare : Bool) (s : SockState)
    → (event k s).type ≡ t
    → AllOwed s
    → (event k s).flags.paused ≡ false
    → (event k s).in_engine ≡ true
    → HandlesWell k r spare s
unfolding socket_event_handle
handle_typed-AllOwed type_listen k r spare s e h p i =
    rw (e, socket_event_handle)
      (errored_listener-AllOwed k r spare (poll_error r (event k s).error) s h p i (ap listens e))
handle_typed-AllOwed type_readable k r spare s e h p i =
    rw (e, socket_event_handle) (errored_complete-AllOwed k (poll_error r (event k s).error) s h p)
handle_typed-AllOwed type_writable k r spare s e h p i =
    rw (e, socket_event_handle) (errored_complete-AllOwed k (poll_error r (event k s).error) s h p)
handle_typed-AllOwed type_none k r spare s e h p i =
    rw (e, socket_event_handle) (errored_complete-AllOwed k einval s h p)
handle_typed-AllOwed type_connect k r spare s e h p i =
    rw (e, socket_event_handle) (errored_complete-AllOwed k einval s h p)
handle_typed-AllOwed type_disconnect k r spare s e h p i =
    rw (e, socket_event_handle) (errored_complete-AllOwed k einval s h p)

-- An event of which the engine tells keeps what is owed, unless it is a paused listener.
pub poll_event-AllOwed :
    (k : Place) (r : PollResult) (spare : Bool) (s : SockState)
    → AllOwed s
    → (event k s).flags.paused ≡ false
    → AllOwed (poll_event k r spare s)
unfolding poll_event
poll_event-AllOwed k r spare s h p = elim (Bool-cases (event k s).in_engine) [
  | inl i ↦ rw i (handle_typed-AllOwed (event k s).type k r spare s refl h p i)
  | inr i ↦ rw i h
]

timed_out-IsOwed :
    (e : EngineEvent) (n : ℕ) → IsOwed e → IsOwed (record e { timeout_pending = false; error = n })
timed_out-IsOwed e n o = record {
  threads = o.threads;
  delivered = o.delivered;
  engaged = o.engaged;
  untimed = λ l. refl;
  listening = o.listening;
}

-- A listener has no timeout.
unpaused_of_pending :
    (e : EngineEvent) → IsOwed e → e.timeout_pending ≡ true → e.flags.paused ≡ false
unpaused_of_pending e o t = elim (Bool-cases e.flags.paused) [
  | inl p ↦ absurd (ground (arith, t, o.untimed (o.listening p)))
  | inr p ↦ p
]

pub time_out-AllOwed :
    (k : Place) (s : SockState)
    → AllOwed s
    → (event k s).timeout_pending ≡ true
    → AllOwed (time_out k s)
unfolding time_out
time_out-AllOwed k s h t =
    put_complete-AllOwed k _ s h (unpaused_of_pending (event k s) (AllOwed-event k s h) t)
      (timed_out-IsOwed (event k s) etimedout (AllOwed-event k s h))
