-- ===== src/Shutdown.antt =====
-- Killing connections, and waiting for them to exit: src/connio.c from connKillEx to
-- ConnHandleWaitForConnectionsToExit. The waits poll once a second; what each poll finds is an
-- element of a list.
pub mod Kill
pub mod Wait
use connio.Prelude.{
  ℕ, zero, suc, ◌+◌, ◌/◌, ◌%◌, ℤ, pos, negsuc, int_mod, Bool, true, false, ◌&&◌, ◌||◌, not, Option,
  none, some, List, [], ◌∷◌, ◌==◌, ltb, if◌then◌else◌,
}
use connio.Errno.{ecanceled}
use connio.Conn.{
  Conn, ConnState, CodeSource, Sock, SocketEventType, free, cached, idle, synchronous,
  asynchronous_client, asynchronous_engine, asynchronous_engine_complete, synchronous_listener,
  asynchronous_listener, killed, type_connect,
}
use connio.Conn.InProgress.{conn_change_state}
use connio.Transaction.{event_queue_abort, is_some}

-- SocketClose of src/sockcommon.c, without its trace: 0 unless the socket was closed before. What
-- the system answers to the close is not looked at here.
unfoldable pub socket_close : Conn → Conn
socket_close c = record c { sp = record c.sp { valid = false } }

unfoldable pub conn_kill_ex : Conn → CodeSource → Bool × Conn
unfolding socket_close
conn_kill_ex c source =
    let close = if c.sp.valid then socket_close c else c in
    let abort = event_queue_abort c none killed ecanceled source in
    elim c.state [
      | cached ↦ (false, c)
      | free ↦ (false, c)
      | idle ↦ (true, close)
      | synchronous ↦ (true, close)
      | asynchronous_engine_complete ↦ (true, abort)
      | asynchronous_engine ↦ (true, abort)
      | asynchronous_client ↦ (true, abort)
      | synchronous_listener ↦ (false, c)
      | asynchronous_listener ↦ (false, c)
    ]

unfoldable pub synchronous_listener_close : Conn → Conn
unfolding socket_close conn_change_state
synchronous_listener_close c = conn_change_state (if c.sp.valid then socket_close c else c) idle

is_listening : ConnState → Bool
is_listening asynchronous_listener = true
is_listening _ = false

unfoldable pub asynchronous_listener_shutdown : Conn → Conn
unfolding is_listening
asynchronous_listener_shutdown c =
    if is_some c.active.connect && is_listening c.state
    then record c { sp = record c.sp { kills = type_connect ∷ c.sp.kills } }
    else c

-- Milliseconds, or one of the constants CONN_TIMEOUT_DEFAULT (-1), CONN_TIMEOUT_INFINITE (-2) and
-- CONN_TIMEOUT_IMMEDIATE (-3), become seconds, or -1 for no limit. The quotient is that of a number
-- over 1000.
unfoldable pub translate_shutdown_timeout : ℤ → ℤ
translate_shutdown_timeout (pos zero) = pos 10
translate_shutdown_timeout (pos (suc n)) = if ltb 1000 (suc n) then pos (suc n / 1000) else pos 1
translate_shutdown_timeout (negsuc zero) = pos 10
translate_shutdown_timeout (negsuc (suc zero)) = negsuc 0
translate_shutdown_timeout (negsuc (suc (suc zero))) = pos 0
translate_shutdown_timeout (negsuc (suc (suc (suc n)))) = pos 10

-- `_WJENumber( cllist->list, "[]", WJE_GET, &last, 0 )` gives the numbers of the list one by one,
-- and then 0; the loop stops at a 0.
listed : ℕ → List ℕ → Bool
listed id [] = false
listed id (zero ∷ ids) = false
listed id (suc n ∷ ids) = let rest = listed id ids in if id == suc n then true else rest

-- The second argument is the listenerID of the connection's socket, 0 for none.
unfoldable pub conn_child : List ℕ → ConnState → ℕ → Bool
unfolding listed
conn_child ids state id =
    let child = if id == 0 then false else listed id ids in
    elim state [
      | idle ↦ child
      | synchronous ↦ child
      | asynchronous_engine_complete ↦ child
      | asynchronous_engine ↦ child
      | asynchronous_client ↦ child
      | synchronous_listener ↦ false
      | asynchronous_listener ↦ false
      | cached ↦ false
      | free ↦ false
    ]

-- The state and the listenerID of a connection in use.
pub record InUse : Type 0 where
  pub state : ConnState
  pub listener_id : ℕ

unfoldable pub count_children : List ℕ → List InUse → ℕ
unfolding conn_child
count_children ids [] = 0
count_children ids (u ∷ us) =
    let rest = count_children ids us in
    if conn_child ids u.state u.listener_id then (rest + 1) % int_mod else rest

-- TRUE with `*waited`, FALSE with `*waited` and `*count`, or the polls are used up.
pub data WaitEnd : Type 0 where
  exited : ℕ → WaitEnd
  expired : ℕ → ℕ → WaitEnd
  polling : WaitEnd

-- `( timeout < 0 ) || ( i < timeout )`.
goes_on : ℤ → ℕ → Bool
goes_on (negsuc n) i = true
goes_on (pos t) i = ltb i t

children_loop : List ℕ → ℤ → ℕ → List (List InUse) → WaitEnd
unfolding goes_on
children_loop ids timeout i [] = polling
children_loop ids timeout i (us ∷ polls) =
    let n = count_children ids us in
    let rest = children_loop ids timeout ((i + 1) % int_mod) polls in
    if not (n == 0) && goes_on timeout i then rest else if n == 0 then exited i else expired i n

unfoldable pub conn_handle_wait_for_children_to_exit : List ℕ → ℤ → List (List InUse) → WaitEnd
unfolding translate_shutdown_timeout children_loop
conn_handle_wait_for_children_to_exit ids timeout polls =
    children_loop ids (translate_shutdown_timeout timeout) 0 polls

-- A poll finds whether the list `inUse` has a head, and the number of threads in cleanup.
connections_loop : ℤ → ℕ → List (Bool × ℕ) → WaitEnd
unfolding goes_on
connections_loop timeout i [] = polling
connections_loop timeout i ((used, cleanup) ∷ polls) =
    let rest = connections_loop timeout ((i + 1) % int_mod) polls in
    if not used && (cleanup == 0) then exited i else if goes_on timeout i then rest else expired i 0

-- `*waited` is not written when the time is over; the numbers of `expired` are then the loop's own.
unfoldable pub conn_handle_wait_for_connections_to_exit : ℤ → List (Bool × ℕ) → WaitEnd
unfolding translate_shutdown_timeout connections_loop
conn_handle_wait_for_connections_to_exit timeout polls =
    connections_loop (translate_shutdown_timeout timeout) 0 polls
