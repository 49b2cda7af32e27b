-- ===== src/Sock/Wait/HangUp.antt =====
-- How a wait of src/sockcommon.c and src/sockunix.c ends after interruptions, and what becomes of
-- errors.
use mathlib.Core.Option
use connio.Prelude.{
  ℕ, zero, suc, ◌≡◌, ◌≢◌, ◌↔◌, refl, ap, ◌∙◌, Bool, true, false, Option, none, some, List, ◌∷◌,
  arith,
}
use connio.Errno.{eintr, eio}
use connio.Conn.{type_disconnect}
use connio.Wire.{ready, gave_up}
use connio.Sock.Wait.{
  PollBits, PollAnswer, polled, poll_failed, troubled, sock_wait_for_readable, socket_wait, hung_up,
  disconnect_with_timeout, socket_disconnect, Returned, reported,
}

-- `n` calls of poll() that a signal interrupts, and what comes behind them.
abbrev pub interrupted : ℕ → List PollAnswer → List PollAnswer
interrupted zero answers = answers
interrupted (suc n) answers = poll_failed eintr ∷ interrupted n answers

interrupted-sock_wait :
    (n : ℕ) (answers : List PollAnswer)
    → sock_wait_for_readable true (interrupted n answers) ≡ sock_wait_for_readable true answers
unfolding sock_wait_for_readable
interrupted-sock_wait zero answers = refl
interrupted-sock_wait (suc n) answers = interrupted-sock_wait n answers

first-ready :
    (bits : PollBits) (more : List PollAnswer)
    → (sock_wait_for_readable true (polled bits ∷ more) ≡ some ready)
      ↔ ((bits.readable ≡ true) × (troubled bits ≡ false))
unfolding sock_wait_for_readable
first-ready bits more = ((λ e. ground arith), (λ h. ground arith))

first-hang_up :
    (bits : PollBits) (more : List PollAnswer)
    → bits.hang_up ≡ true
    → bits.invalid ≡ false
    → sock_wait_for_readable true (polled bits ∷ more) ≡ some (gave_up eio)
unfolding sock_wait_for_readable
first-hang_up bits more h v = ground arith

-- However often a wait for a valid socket to become readable was interrupted, it succeeds, if poll()
-- then gives bits, exactly if these say readable, and not hung up, invalid or faulty.
pub sock_wait_for_readable-ready :
    (n : ℕ) (bits : PollBits) (more : List PollAnswer)
    → (sock_wait_for_readable true (interrupted n (polled bits ∷ more)) ≡ some ready)
      ↔ ((bits.readable ≡ true) × (troubled bits ≡ false))
sock_wait_for_readable-ready n bits more =
    rw (interrupted-sock_wait n (polled bits ∷ more)) (first-ready bits more)

-- A wait for a valid socket to be disconnected that finds it hung up fails with EIO, however often
-- it was interrupted before, unless the socket is also said to be invalid. socketWait takes
-- ECONNRESET for success there.
pub socket_wait-hang_up :
    (n : ℕ) (bits : PollBits) (more : List PollAnswer)
    → bits.hang_up ≡ true
    → bits.invalid ≡ false
    → socket_wait type_disconnect true (interrupted n (polled bits ∷ more)) ≡ some eio
unfolding socket_wait
socket_wait-hang_up n bits more h v =
    ap (Option.map hung_up)
      (interrupted-sock_wait n (polled bits ∷ more) ∙ first-hang_up bits more h v)

disconnect-errno :
    (answer : Option ℕ) (before : ℕ) (valid : Bool) (answers : List PollAnswer) (r : Returned)
    → disconnect_with_timeout answer before valid answers ≡ some r
    → r.value ≢ 0
    → r.errno ≡ 0
unfolding disconnect_with_timeout
disconnect-errno none before valid answers r e failed = ground arith
disconnect-errno (some k) before valid answers r e failed = ground arith

-- A disconnection that fails with an error, at once or after a wait, is reported as success: 0.
pub socket_disconnect-silent :
    (answer : Option ℕ) (before : ℕ) (valid : Bool) (answers : List PollAnswer) (r : Returned)
    → disconnect_with_timeout answer before valid answers ≡ some r
    → r.value ≢ 0
    → socket_disconnect answer before valid answers ≡ some 0
unfolding socket_disconnect
socket_disconnect-silent answer before valid answers r e failed =
    ap (Option.map reported) e
    ∙ ground (arith, failed, disconnect-errno answer before valid answers r e)
