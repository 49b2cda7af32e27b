-- ===== src/Sock/Wait.antt =====
-- The waits for a socket: sockWaitForReadable, sockWaitForWritable and sockDisconnect of
-- src/sockunix.c, disconnectWithTimeout, disconnectSSL, socketDisconnect and socketWait of
-- src/sockcommon.c. What poll() answers, call by call, is an element of a list; a loop that uses the
-- list up gives `none`. Logs and traces are left out, and what they do to errno.
pub mod HangUp
use mathlib.Core.Option
use connio.Prelude.{
  ℕ, Bool, true, false, not, ◌||◌, Option, none, some, List, [], ◌∷◌, ◌==◌, if◌then◌else◌,
}
use connio.Errno.{eintr, eio, eagain, einval, etimedout, econnreset, econniobug}
use connio.Conn.{
  SocketEventType, type_none, type_listen, type_readable, type_writable, type_connect,
  type_disconnect,
}
use connio.Wire.{Waited, ready, gave_up}

-- `revents`: POLLHUP, POLLNVAL, POLLERR, POLLIN or POLLPRI, and POLLOUT.
pub record PollBits : Type 0 where
  pub hang_up : Bool
  pub invalid : Bool
  pub faulty : Bool
  pub readable : Bool
  pub writable : Bool

-- poll() returns a positive number, 0, or -1 and errno.
pub data PollAnswer : Type 0 where
  polled : PollBits → PollAnswer
  expired : PollAnswer
  poll_failed : ℕ → PollAnswer

abbrev pub troubled : PollBits → Bool
troubled b = b.hang_up || (b.invalid || b.faulty)

-- The `else` belongs to the test of POLLNVAL alone.
read_failure : PollBits → ℕ
read_failure b = if b.invalid then einval else eio

-- The loop; `valid` tells that the socket's number is not -1.
unfoldable pub sock_wait_for_readable : Bool → List PollAnswer → Option Waited
unfolding read_failure
sock_wait_for_readable valid [] = if valid then none else some (gave_up einval)
sock_wait_for_readable valid (a ∷ more) =
    let again = sock_wait_for_readable valid more in
    if not valid then some (gave_up einval) else elim a [
      | polled b ↦
          if troubled b
          then some (gave_up (read_failure b))
          else if b.readable
          then some ready
          else some (gave_up (read_failure b))
      | expired ↦ some (gave_up etimedout)
      | poll_failed e ↦ if e == eintr then again else some (gave_up e)
    ]

write_failure : PollBits → ℕ
write_failure b = if b.hang_up then econnreset else if b.invalid then einval else eio

unfoldable pub sock_wait_for_writable : PollAnswer → Waited
unfolding write_failure
sock_wait_for_writable (polled b) =
    if troubled b
    then gave_up (write_failure b)
    else if b.writable
    then ready
    else gave_up (write_failure b)
sock_wait_for_writable expired = gave_up etimedout
sock_wait_for_writable (poll_failed e) = if e == eintr then ready else gave_up e

writable_wait : List PollAnswer → Option Waited
unfolding sock_wait_for_writable
writable_wait [] = none
writable_wait (a ∷ more) = some (sock_wait_for_writable a)

-- 0, or errno.
abbrev pub wait_error : Waited → ℕ
wait_error ready = 0
wait_error (gave_up e) = e

abbrev pub hung_up : Waited → ℕ
hung_up ready = 0
hung_up (gave_up e) = if e == econnreset then 0 else e

unfoldable pub socket_wait : SocketEventType → Bool → List PollAnswer → Option ℕ
unfolding writable_wait
socket_wait type_readable valid answers =
    Option.map wait_error (sock_wait_for_readable valid answers)
socket_wait type_writable valid answers = Option.map wait_error (writable_wait answers)
socket_wait type_disconnect valid answers =
    Option.map hung_up (sock_wait_for_readable valid answers)
socket_wait type_connect valid answers = Option.map wait_error (writable_wait answers)
socket_wait type_listen valid answers = some econniobug
socket_wait type_none valid answers = some econniobug

-- `none` for 0, else errno.
abbrev pub sock_disconnect : Option ℕ → ℕ
sock_disconnect none = 0
sock_disconnect (some e) = e

-- What a function returns, and errno when it returns.
pub record Returned : Type 0 where
  pub value : ℕ
  pub errno : ℕ

-- The first argument is the answer to the shutdown. errno is 0 behind sockDisconnect if the shutdown
-- fails; `before` is its value before the call.
unfoldable pub disconnect_with_timeout : Option ℕ → ℕ → Bool → List PollAnswer → Option Returned
disconnect_with_timeout answer before valid answers =
    let err = sock_disconnect answer in
    if err == eagain
    then Option.map (λ w. record { value = wait_error w; errno = 0 })
        (sock_wait_for_readable valid answers)
    else some (record { value = err; errno = elim answer [ none ↦ before | some e ↦ 0 ] })

-- `timeout` is 2000 milliseconds, which the answers reflect.
unfoldable pub disconnect_ssl : Option ℕ → ℕ → Bool → List PollAnswer → Option ℕ
unfolding disconnect_with_timeout
disconnect_ssl answer before valid answers =
    Option.map (λ (r : Returned). r.value) (disconnect_with_timeout answer before valid answers)

abbrev pub reported : Returned → ℕ
reported r = if r.value == 0 then 0 else r.errno

unfoldable pub socket_disconnect : Option ℕ → ℕ → Bool → List PollAnswer → Option ℕ
unfolding disconnect_with_timeout
socket_disconnect answer before valid answers =
    Option.map reported (disconnect_with_timeout answer before valid answers)
