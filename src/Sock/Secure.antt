-- ===== src/Sock/Secure.antt =====
-- The SSL objects of a SOCK: SocketSSLAlloc to SocketSSLDisconnect of src/sockcommon.c. What the SSL
-- library answers is an argument. Traces are left out.
pub mod Owned
use connio.Prelude.{ℕ, ◌+◌, Bool, true, false, not, Option, none, some, if◌then◌else◌}
use connio.Errno.{econnsslstart, econnalreadysecured}
use connio.Conn.{SocketEventType}
use connio.Wire.{SslError, ssl_error_get}

-- `ssl.conn` and `ssl.new`, and how many SSL objects were made for the SOCK and freed.
pub record SslState : Type 0 where
  pub secured : Bool
  pub starting : Bool
  pub made : ℕ
  pub freed : ℕ

-- SSL_new and bioSet; `bio_set` false leads to SSL_free.
unfoldable pub socket_ssl_alloc : Bool → Bool → SslState → Bool × SslState
socket_ssl_alloc ssl_new bio_set s =
    if not ssl_new
    then (false, s)
    else if bio_set
    then (true, record s { made = s.made + 1 })
    else (false, record s { made = s.made + 1; freed = s.freed + 1 })

-- The answers of SSL_new and bioSet, and that of SSL_accept or SSL_connect: `none` for 1.
pub record SslAnswers : Type 0 where
  pub ssl_new : Bool
  pub bio_set : Bool
  pub handshake : Option SslError

-- The error that is returned and `*blockedOn`, `b` being its value before.
handshake : Option SslError → SocketEventType → SslState → ℕ × (SocketEventType × SslState)
unfolding ssl_error_get
handshake none b s = (0, (b, record s { secured = true; starting = false }))
handshake (some e) b s = let (err, b') = ssl_error_get e b in (err, (b', s))

unfoldable pub ssl_connect :
    SslAnswers → SocketEventType → SslState → ℕ × (SocketEventType × SslState)
unfolding socket_ssl_alloc handshake
ssl_connect a b s =
    if s.secured
    then (econnalreadysecured, (b, s))
    else if s.starting
    then handshake a.handshake b s
    else let (done, s') = socket_ssl_alloc a.ssl_new a.bio_set s in
      if done
      then handshake a.handshake b (record s' { starting = true })
      else (econnsslstart, (b, s'))

-- The answer of SSL_shutdown: `none` for all but -1.
unfoldable pub socket_ssl_disconnect :
    Option SslError → SocketEventType → SslState → ℕ × (SocketEventType × SslState)
unfolding ssl_error_get
socket_ssl_disconnect answer b s =
    if not s.secured then (econnalreadysecured, (b, s)) else elim answer [
      | none ↦ (0, (b, record s { secured = false; freed = s.freed + 1 }))
      | some e ↦ let (err, b') = ssl_error_get e b in (err, (b', s))
    ]

unfoldable pub socket_ssl_abort : SslState → SslState
socket_ssl_abort s =
    let s1 = if s.starting then record s { starting = false; freed = s.freed + 1 } else s in
    if s1.secured then record s1 { secured = false; freed = s1.freed + 1 } else s1
