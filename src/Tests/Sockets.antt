-- ===== src/Tests/Sockets.antt =====
-- Tests of the socket calls and the socket events, and the theorems about them at small inputs.
use mathlib.Core.Option
use connio.Prelude.{
  ℕ, ◌/◌, zero, suc, ◌+◌, ◌-◌, ◌≤◌, ◌<◌, ◌≡◌, refl, inl, inr, true, false, none, some, List, [],
  ◌∷◌, ◌++◌, length, drop, All, arith,
}
use connio.Errno.{eagain, eio, etimedout, econnreset}
use connio.Conn.{type_none, type_readable, type_writable, type_connect, type_disconnect}
use connio.Wire.{want_read}
use connio.Sock.Wait.{
  PollBits, polled, expired, socket_wait, socket_disconnect, disconnect_with_timeout,
  sock_wait_for_readable,
}
use connio.Sock.Wait.HangUp.{interrupted, socket_wait-hang_up, socket_disconnect-silent}
use connio.Sock.Start.{
  created, Descriptor, ConnectAnswers, socket_alloc, socket_sync_connect_start, socket_release,
}
use connio.Sock.Start.Balance.{Lives, fresh, starts, socket_release-Lives}
use connio.Sock.Secure.{SslState, SslAnswers, ssl_connect, socket_ssl_abort}
use connio.Sock.Secure.Owned.{plain, connects, socket_ssl_abort-Secures}
use connio.SockEvent.Timers.{
  TimerLists, timeout_index, add_timeout, first_sweep, push, sweep, delete_timeout,
}
use connio.SockEvent.Timers.Due.{Steady, IsHeadOf, first_sweep_due, first_sweep_late}
use connio.SockEvent.Timers.Lists.{
  HoldsTimers, IsLoose, push-HoldsTimers, sweep-HoldsTimers, delete-HoldsTimers,
}
use connio.SockEvent.{SockState, at_receive, sock_event_init}
use connio.SockEvent.Engine.{PollResult, poll_event, handle_socket_event}
use connio.SockEvent.Wait.{WaitArgs, socket_event_wait, socket_event_kill}
use connio.SockEvent.Wait.Missed.{socket_event_kill-missed}
use connio.SockEvent.Once.{AllOwed}
use connio.SockEvent.Once.Steps.{Comes, new, renumbers, submits, polls, new_sock, Comes-AllOwed}
use connio.SockEvent.Accept.{aec_init, aec_refill}
use connio.SockEvent.Accept.Full.{IsCache, Fills, aec_refill-IsCache}

abbrev gone : PollBits
gone = record { hang_up = true; invalid = false; faulty = false; readable = true; writable = false }

socket_wait-hang_up_example :
    socket_wait type_disconnect true (interrupted 2 (polled gone ∷ [])) ≡ some eio
socket_wait-hang_up_example = socket_wait-hang_up 2 gone [] refl refl

writable_hang_up : socket_wait type_connect true (polled gone ∷ []) ≡ some econnreset
unfolding socket_wait
writable_hang_up = refl

socket_disconnect-silent_example : socket_disconnect (some eagain) 0 true (expired ∷ []) ≡ some 0
unfolding disconnect_with_timeout sock_wait_for_readable
socket_disconnect-silent_example =
    socket_disconnect-silent (some eagain) 0 true (expired ∷ [])
      (record { value = etimedout; errno = 0 }) refl (omega arith)

abbrev refused : ConnectAnswers
refused = record { create = none; bind = none; set_mode = some 9; connect = none; close = none }

abbrev sock : Descriptor
sock = record { valid = false; listener_id = 7; opened = 0; closed = 0 }

-- The first connection keeps its socket, the second one overwrites it.
abbrev kept_socket : Descriptor
kept_socket = (socket_sync_connect_start true refused sock).socket

abbrev overwritten : Descriptor
overwritten = (socket_sync_connect_start true refused kept_socket).socket

overwritten-Lives : Lives 1 overwritten
unfolding socket_alloc socket_sync_connect_start created
overwritten-Lives =
    starts true refused 0 kept_socket (starts true refused 0 sock (fresh 7 sock refl))

socket_release-Lives_example :
    (r : Descriptor) × (socket_release none (some overwritten) ≡ some r)
    × (r.valid ≡ false)
    × (r.opened ≡ r.closed + 1)
socket_release-Lives_example = socket_release-Lives none 1 overwritten overwritten-Lives

abbrev unsecured : SslState
unsecured = record { secured = false; starting = false; made = 0; freed = 0 }

abbrev reads_first : SslAnswers
reads_first = record { ssl_new = true; bio_set = true; handshake = some want_read }

abbrev half_way : SslState
half_way = record { secured = false; starting = true; made = 1; freed = 0 }

socket_ssl_abort-Secures_example :
    (half_way.made ≤ half_way.freed + 1)
    × ((socket_ssl_abort half_way).secured ≡ false)
    × ((socket_ssl_abort half_way).starting ≡ false)
    × ((socket_ssl_abort half_way).made ≡ (socket_ssl_abort half_way).freed)
unfolding ssl_connect
socket_ssl_abort-Secures_example =
    socket_ssl_abort-Secures half_way
      (connects reads_first type_none unsecured (plain unsecured refl refl refl))

-- The clock in steps of 32 seconds.
abbrev rounds : ℕ → ℕ → List ℕ
rounds zero t = []
rounds (suc n) t = (t + 32) ∷ rounds n (t + 32)

rounds-Steady : (n t : ℕ) → Steady t (rounds n t)
rounds-Steady zero t = tt
rounds-Steady (suc n) t = (omega arith, omega arith, rounds-Steady n (t + 32))

abbrev no_timers : TimerLists
no_timers = record {
  heads = λ i. none;
  list_of = λ p. none;
  links = record { next = λ p. none; previous = λ p. none };
}

first_sweep_due_example :
    (i : ℕ) × IsHeadOf (64 + i) 1 (add_timeout 64 100 30500 1 no_timers)
    × (t : ℕ) × (first_sweep i (timeout_index 100) (rounds 3 100) ≡ some t)
    × (100 + 30500 / 1000 ≤ t)
    × (t < 100 + 30500 / 1000 + 63)
first_sweep_due_example =
    first_sweep_due 64 100 30500 1 no_timers (rounds 3 100) refl (omega arith) (omega arith)
      (rounds-Steady 3 100) (inr (inl (omega arith)))

abbrev last_round : ℕ
last_round = 2112

first_sweep_late_example :
    IsHeadOf (0 + timeout_index 64) 1 (add_timeout 0 64 999 1 no_timers) × (64 + 2048 ≤ last_round)
unfolding first_sweep timeout_index
first_sweep_late_example =
    first_sweep_late 0 64 999 1 no_timers (rounds 64 64) last_round refl (omega arith) refl
      (rounds-Steady 64 64) refl

abbrev two_timers : TimerLists
two_timers = push 5 2 (push 5 1 no_timers)

two_timers-HoldsTimers : HoldsTimers two_timers 5 (2 ∷ 1 ∷ [])
unfolding push
two_timers-HoldsTimers =
    push-HoldsTimers 5 2 (1 ∷ []) (push 5 1 no_timers)
      (push-HoldsTimers 5 1 [] no_timers
        (record { head_first = refl; linked = tt; distinct = tt; members = tt }) tt refl)
      ((omega arith), tt) refl

sweep-HoldsTimers_example :
    (t : TimerLists) × (sweep 2 5 two_timers ≡ some (2 ∷ 1 ∷ [], t))
    × (t.heads 5 ≡ none)
    × All (IsLoose t) (2 ∷ 1 ∷ [])
sweep-HoldsTimers_example =
    sweep-HoldsTimers 2 5 (2 ∷ 1 ∷ []) two_timers two_timers-HoldsTimers (omega arith)

delete-HoldsTimers_example : HoldsTimers (delete_timeout 1 two_timers) 5 (2 ∷ [])
delete-HoldsTimers_example = delete-HoldsTimers 5 1 (2 ∷ []) [] two_timers two_timers-HoldsTimers

abbrev args : WaitArgs
args = record {
  memory = true;
  listener = record { throttling_threshold = 0; has_callback = false };
  answer = none;
  now = 100;
  milliseconds = 30000;
}

abbrev connecting : SockState
connecting = record (new_sock 1 2 3 no_timers) { valid = true }

socket_event_kill-missed_example :
    ((socket_event_wait type_connect args connecting).1.send.in_engine ≡ true)
    × ((socket_event_kill type_connect 0 (socket_event_wait type_connect args connecting).1).send
        ≡ (socket_event_wait type_connect args connecting).1.send)
    × ((socket_event_kill type_writable 0
          (socket_event_wait type_connect args connecting).1).send.in_engine
        ≡ false)
    × ((socket_event_kill type_writable 0
          (socket_event_wait type_connect args connecting).1).send.begun
        ≡ (socket_event_wait type_connect args connecting).1.send.begun + 1)
unfolding socket_event_wait sock_event_init
socket_event_kill-missed_example =
    socket_event_kill-missed args 0 connecting (socket_event_wait type_connect args connecting).1
      (λ e. cc) refl

abbrev reading : SockState
reading = (socket_event_wait type_readable args connecting).1

abbrev in_time : PollResult
in_time = record {
  hang_up = false;
  invalid = false;
  faulty = false;
  accepts = false;
  reading = 0;
  again = 0;
  requeue = none;
}

reading-Comes : Comes reading
unfolding sock_event_init
reading-Comes =
    submits type_readable args connecting (λ e. cc) (λ l. (refl, refl, refl))
      (renumbers true (new_sock 1 2 3 no_timers) (new 1 2 3 no_timers))

Comes-AllOwed_example : AllOwed (poll_event at_receive in_time false reading)
unfolding socket_event_wait sock_event_init
Comes-AllOwed_example =
    Comes-AllOwed (poll_event at_receive in_time false reading)
      (polls at_receive in_time false reading refl reading-Comes)

-- The event is delivered once, without an error, and its timeout is gone.
reading_delivered :
    Option.map
      (λ (s : SockState). s.receive.deliveries)
      (handle_socket_event at_receive [] none (poll_event at_receive in_time false reading))
    ≡ some (record { type = type_readable; error = 0 } ∷ [])
unfolding socket_event_wait sock_event_init poll_event handle_socket_event
reading_delivered = refl

aec_init-IsCache : IsCache aec_init
unfolding aec_init
aec_init-IsCache = record {
  fits = omega arith;
  below = λ i b. refl;
  above = λ i a b. absurd (omega (arith, a, b));
  ends = λ i a. refl;
}

abbrev two_new : List ℕ
two_new = 1 ∷ 2 ∷ []

aec_refill-IsCache_example :
    IsCache (aec_refill two_new aec_init)
    × ((aec_refill two_new aec_init).next
        ≡ aec_init.next - (length aec_init.safe_list + length two_new))
    × ((aec_refill two_new aec_init).safe_list ≡ drop aec_init.next aec_init.safe_list)
    × Fills aec_init.next (aec_init.safe_list ++ two_new) aec_init (aec_refill two_new aec_init)
aec_refill-IsCache_example = aec_refill-IsCache two_new aec_init aec_init-IsCache
