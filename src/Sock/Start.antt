-- ===== src/Sock/Start.antt =====
-- How a SOCK of src/sockcommon.c gets its socket of the system and gives it back: connecting,
-- accepting, listening, closing, and the disconnection of src/sockunix.c. An answer of the system is
-- `none` for success, else errno. Traces and logs are left out.
pub mod Balance
use connio.Prelude.{
  ℕ, ◌+◌, Bool, true, false, not, ◌&&◌, ◌||◌, Option, none, some, ◌==◌, if◌then◌else◌,
}
use connio.Errno.{eagain, ealready, einprogress, enomem}
use connio.Conn.{SocketEventType, type_none, type_connect, type_disconnect}

-- `valid` tells that the number is not -1. The last two count the sockets that the system made for
-- the SOCK and those that it closed.
pub record Descriptor : Type 0 where
  pub valid : Bool
  pub listener_id : ℕ
  pub opened : ℕ
  pub closed : ℕ

abbrev pub succeeded : Option ℕ → Bool
succeeded none = true
succeeded (some e) = false

-- socketClose; `true` for 0. The answer is that of XplIpClose.
unfoldable pub close_number : Option ℕ → Descriptor → Bool × Descriptor
close_number answer d =
    if d.valid
    then (succeeded answer, record d { valid = false; closed = d.closed + 1 })
    else (false, d)

unfoldable pub socket_reset : Descriptor → Descriptor
socket_reset d = record d { valid = false; listener_id = 0 }

unfoldable pub socket_valid : Descriptor → Bool
socket_valid d = d.valid

-- The SOCK after socCreate gave a number or -1.
unfoldable pub created : Option ℕ → Descriptor → Descriptor
created none d = record d { valid = true; opened = d.opened + 1 }
created (some e) d = record d { valid = false }

pub record ConnectAnswers : Type 0 where
  pub create : Option ℕ
  pub bind : Option ℕ
  pub set_mode : Option ℕ
  pub connect : Option ℕ
  pub close : Option ℕ

pub record ConnectStart : Type 0 where
  pub error : ℕ
  pub blocked_on : SocketEventType
  pub socket : Descriptor

started : ℕ → SocketEventType → Descriptor → ConnectStart
started e b d = record { error = e; blocked_on = b; socket = d }

-- The errno values with which a connect() goes on; EWOULDBLOCK is EAGAIN.
abbrev pub connect_goes_on : ℕ → Bool
connect_goes_on e = (e == eagain) || ((e == ealready) || (e == einprogress))

pub connect_answered : Option ℕ → Option ℕ → Descriptor → ConnectStart
unfolding started
connect_answered none close d = started 0 type_none d
connect_answered (some e) close d =
    if connect_goes_on e
    then started eagain type_connect d
    else started e type_none (close_number close d).1

pub mode_set : ConnectAnswers → Descriptor → ConnectStart
unfolding started connect_answered
mode_set a d = elim a.set_mode [
  | some e ↦ started e type_none d
  | none ↦ connect_answered a.connect a.close d
]

-- `has_source` tells whether `srcSaddr` is given.
unfoldable pub socket_sync_connect_start : Bool → ConnectAnswers → Descriptor → ConnectStart
unfolding started mode_set
socket_sync_connect_start has_source a d = elim a.create [
  | some e ↦ started e type_none (created (some e) d)
  | none ↦ if not has_source then mode_set a (created none d) else elim a.bind [
    | some e ↦ started e type_none (created none d)
    | none ↦ mode_set a (created none d)
  ]
]

unfoldable pub socket_connect_abort_with : Option ℕ → Descriptor → Descriptor
unfolding close_number
socket_connect_abort_with answer d = (close_number answer d).1

unfoldable pub socket_disconnect_finish : Option ℕ → Descriptor → Descriptor
unfolding close_number
socket_disconnect_finish answer d = (close_number answer d).1

-- The error that is returned, and `*blockedOn`.
unfoldable pub socket_sync_disconnect_start : Descriptor → ℕ × SocketEventType
socket_sync_disconnect_start d = (eagain, type_disconnect)

-- `none` where there is no SOCK; else what the system is left with when it is freed.
unfoldable pub socket_release : Option ℕ → Option Descriptor → Option Descriptor
unfolding close_number socket_reset
socket_release answer none = none
socket_release answer (some d) =
    some (socket_reset (if d.valid then (close_number answer d).1 else d))

-- `memory` tells whether there is memory for a SOCK.
unfoldable pub socket_alloc : Bool → ℕ → Option Descriptor
unfolding socket_reset
socket_alloc memory id =
    let fresh : Descriptor = record { valid = false; listener_id = 0; opened = 0; closed = 0 } in
    if memory then some (record (socket_reset fresh) { listener_id = id }) else none

pub record AcceptAnswers : Type 0 where
  pub memory : Bool
  pub accept : Option ℕ
  pub set_mode : Option ℕ
  pub close : Option ℕ

-- The SOCK that is returned, or NULL; and the SOCK that was released on the way, if there was one.
pub record Accepted : Type 0 where
  pub child : Option Descriptor
  pub released : Option Descriptor

accepted_socket : ℕ → AcceptAnswers → Descriptor → Accepted
unfolding created socket_release
accepted_socket id a child =
    let d = created a.accept child in
    if d.valid && succeeded a.set_mode
    then record { child = some (record d { listener_id = id }); released = none }
    else record { child = none; released = socket_release a.close (some d) }

unfoldable pub socket_accept : AcceptAnswers → Descriptor → Accepted
unfolding accepted_socket socket_alloc
socket_accept a listener = elim (socket_alloc a.memory listener.listener_id) [
  | none ↦ record { child = none; released = none }
  | some child ↦ accepted_socket listener.listener_id a child
]

-- acceptPickup for a socket that the engine has accepted, from socketAlloc on: the SOCK, and whether
-- the socket is closed again as there is no memory for a SOCK. The callback gets the SOCK.
unfoldable pub accept_pickup : Bool → ℕ → Option Descriptor × Bool
unfolding socket_alloc
accept_pickup memory id = elim (socket_alloc memory id) [
  | none ↦ (none, true)
  | some child ↦ (some (record child { valid = true; opened = child.opened + 1 }), false)
]

pub record ListenAnswers : Type 0 where
  pub create : Option ℕ
  pub bind : Option ℕ
  pub listen : Option ℕ
  pub set_mode : Option ℕ
  pub name : Option ℕ
  pub close : Option ℕ

-- `uid` is what getListenerUid gives. `true` for 0.
unfoldable pub socket_listen : ListenAnswers → ℕ → ℕ → Descriptor → Bool × Descriptor
unfolding created close_number
socket_listen a id uid d =
    let s = created a.create d in
    if not (succeeded a.create)
    then (false, s)
    else if succeeded a.bind && (succeeded a.listen && (succeeded a.set_mode && succeeded a.name))
    then (true, record s { listener_id = (if id == 0 then uid else id) })
    else (false, (close_number a.close s).1)
