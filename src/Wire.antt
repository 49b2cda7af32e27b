-- ===== src/Wire.antt =====
-- Sending and receiving on a socket: sslErrorGet and sslReceive to socketSend of src/sockcommon.c. What
-- the system and the SSL library answer, call by call, is an element of a list; a loop that uses the
-- list up gives `none`, since it asks for another answer.
pub mod Send
use connio.Prelude.{
  ℕ, zero, suc, ◌+◌, ◌-◌, Bool, true, false, ◌&&◌, not, Option, none, some, List, [], ◌∷◌, ◌==◌,
  leb, ltb, if◌then◌else◌,
}
use connio.Errno.{eintr, eio, eagain, einval, emsgsize, econnclosedbypeer, econniobug}
use connio.Conn.{SocketEventType, type_none, type_readable, type_writable}

-- What a send or a receive returns: the count, `none` for SOCKET_ERROR, with `*blockedOn` and `*error`.
pub record Transfer : Type 0 where
  pub count : Option ℕ
  pub blocked_on : SocketEventType
  pub error : ℕ

-- The answer of XplIpSend or XplIpRecv: a count, or -1 and errno.
pub data IpAnswer : Type 0 where
  moved : ℕ → IpAnswer
  failed : ℕ → IpAnswer

-- SSL_get_error, after the queue of errors was cleared; every other value is `other`.
pub data SslError : Type 0 where
  want_write want_read zero_return ssl_none other : SslError

-- The answer of SSL_write or SSL_read: a positive count, or what SSL_get_error says.
pub data SslAnswer : Type 0 where
  ssl_moved : ℕ → SslAnswer
  ssl_failed : SslError → SslAnswer

-- The error, and `*blockedOn` from its value before.
unfoldable pub ssl_error_get : SslError → SocketEventType → ℕ × SocketEventType
ssl_error_get want_write b = (eagain, type_writable)
ssl_error_get want_read b = (eagain, type_readable)
ssl_error_get zero_return b = (econnclosedbypeer, type_none)
ssl_error_get ssl_none b = (eio, b)
ssl_error_get other b = (eio, type_none)

unfoldable pub ssl_failure : SslError → Transfer
unfolding ssl_error_get
ssl_failure e =
    let (err, b) = ssl_error_get e type_none in record { count = none; blocked_on = b; error = err }

-- `ccode` is not positive, errno is `e`.
give_up : ℕ → ℕ → Transfer
give_up write_count e =
    let b = if e == eagain then type_writable else type_none in
    if write_count == 0
    then record { count = none; blocked_on = b; error = (if e == 0 then econniobug else e) }
    else record { count = some write_count; blocked_on = b; error = e }

-- The loop of clearSend, `write_count` bytes of `bytes` being sent.
pub clear_send : List IpAnswer → ℕ → ℕ → Option Transfer
unfolding give_up
clear_send [] bytes write_count = none
clear_send (failed e ∷ more) bytes write_count = some (give_up write_count e)
clear_send (moved zero ∷ more) bytes write_count = some (give_up write_count 0)
clear_send (moved (suc k) ∷ more) bytes write_count =
    let w = write_count + suc k in
    let rest = clear_send more bytes w in
    if leb bytes w
    then some (record { count = some w; blocked_on = type_none; error = 0 })
    else rest

-- The loop of sslSend. An answer is a count or not positive; `ssl_moved 0` stands for no answer of the
-- library.
pub ssl_send : List SslAnswer → ℕ → ℕ → Option Transfer
unfolding ssl_failure
ssl_send [] bytes write_count = none
ssl_send (ssl_failed e ∷ more) bytes write_count = some (ssl_failure e)
ssl_send (ssl_moved k ∷ more) bytes write_count =
    let rest = ssl_send more bytes (write_count + k) in
    if k == (bytes - write_count)
    then some (record { count = some bytes; blocked_on = type_none; error = 0 })
    else rest

-- The answers that socketSend meets: of the system, or of the SSL library if SSL is on.
unfoldable pub socket_send : List IpAnswer → List SslAnswer → Bool → ℕ → Option Transfer
unfolding clear_send ssl_send
socket_send ip ssl is_ssl bytes =
    if bytes == 0
    then some (record { count = some 0; blocked_on = type_none; error = 0 })
    else if is_ssl
    then ssl_send ssl bytes 0
    else clear_send ip bytes 0

-- How a wait for the socket ends: it is ready, or errno.
pub data Waited : Type 0 where
  ready : Waited
  gave_up : ℕ → Waited

-- The answers of clearReceive's calls: of XplIpRecv, and of sockWaitForReadable if there is a timeout.
pub record Received : Type 0 where
  pub answer : IpAnswer
  pub wait : Waited

receive_error : SocketEventType → ℕ → Transfer
receive_error b e = record { count = none; blocked_on = b; error = e }

-- The loop of clearReceive. `*blockedOn` stays set when a wait goes on.
pub clear_receive : Bool → SocketEventType → List Received → Option Transfer
unfolding receive_error
clear_receive waits b [] = none
clear_receive waits b (r ∷ rs) =
    let again = clear_receive waits b rs in
    let blocked = clear_receive waits type_readable rs in
    elim r.answer [
      | moved n ↦
          if n == 0
          then some (receive_error b econnclosedbypeer)
          else some (record { count = some n; blocked_on = b; error = 0 })
      | failed e ↦
          if e == eintr
          then again
          else if not (e == eagain)
          then some (receive_error b e)
          else if not waits
          then some (receive_error type_readable e)
          else elim r.wait [ ready ↦ blocked | gave_up w ↦ some (receive_error type_readable w) ]
    ]

pub record SslReceived : Type 0 where
  pub answer : SslAnswer
  pub wait : Waited

-- The loop of sslReceive.
pub ssl_receive : Bool → SocketEventType → List SslReceived → Option Transfer
unfolding ssl_error_get receive_error
ssl_receive waits b [] = none
ssl_receive waits b (r ∷ rs) = elim r.answer [
  | ssl_moved n ↦ some (record { count = some n; blocked_on = b; error = 0 })
  | ssl_failed s ↦
      let (e, blocked) = ssl_error_get s b in
      let rest = ssl_receive waits blocked rs in
      if not (e == eagain)
      then some (receive_error blocked e)
      else if not waits
      then some (receive_error blocked e)
      else elim r.wait [ ready ↦ rest | gave_up w ↦ some (receive_error blocked w) ]
]

unfoldable pub socket_receive :
    List Received → List SslReceived → Bool → Bool → ℕ → SocketEventType → Option Transfer
unfolding clear_receive ssl_receive receive_error
socket_receive ip ssl is_ssl waits length b =
    if length == 0
    then some (receive_error b emsgsize)
    else if is_ssl
    then ssl_receive waits type_none ssl
    else clear_receive waits type_none ip
