-- ===== src/Sock/Secure/Owned.antt =====
-- That the SSL objects which src/sockcommon.c makes for a SOCK are freed.
use connio.Prelude.{
  ℕ, ◌+◌, ◌≤◌, ◌≡◌, refl, Bool, Bool-cases, inl, inr, true, false, Option, none, some, bit, arith,
}
use connio.Conn.{SocketEventType}
use connio.Wire.{SslError}
use connio.Sock.Secure.{
  SslState, SslAnswers, ssl_connect, socket_ssl_disconnect, socket_ssl_abort, socket_ssl_alloc,
  handshake,
}

-- Each object that was made and not freed is the one in use or the one that is being started, and
-- there is at most one.
pub record OwnsSsl (s : SslState) : Type 0 where
  pub owned : s.made ≡ s.freed + bit s.secured + bit s.starting
  pub one : bit s.secured + bit s.starting ≤ 1

-- What a SOCK goes through.
pub data Secures : SslState → Type 0 where
  plain : (s : SslState) → s.secured ≡ false → s.starting ≡ false → s.made ≡ s.freed → Secures s
  connects :
      (a : SslAnswers) (b : SocketEventType) (s : SslState)
      → Secures s
      → Secures (ssl_connect a b s).1.1
  disconnects :
      (answer : Option SslError) (b : SocketEventType) (s : SslState)
      → Secures s
      → Secures (socket_ssl_disconnect answer b s).1.1
  aborts : (s : SslState) → Secures s → Secures (socket_ssl_abort s)

handshake-OwnsSsl :
    (h : Option SslError) (b : SocketEventType) (s : SslState)
    → s.secured ≡ false
    → s.starting ≡ true
    → OwnsSsl s
    → OwnsSsl (handshake h b s).1.1
unfolding handshake
handshake-OwnsSsl none b s c n o = ground (arith, o.owned)
handshake-OwnsSsl (some e) b s c n o = o

abbrev state : Bool → Bool → ℕ → ℕ → SslState
state c n m f = record { secured = c; starting = n; made = m; freed = f }

connect-branches :
    (c n new set : Bool) (m f : ℕ) (h : Option SslError) (b : SocketEventType)
    → OwnsSsl (state c n m f)
    → OwnsSsl
        (ssl_connect (record { ssl_new = new; bio_set = set; handshake = h }) b (state c n m f)).1.1
unfolding ssl_connect socket_ssl_alloc
connect-branches true n new set m f h b o = o
connect-branches false true new set m f h b o = handshake-OwnsSsl h b _ refl refl o
connect-branches false false false set m f h b o = o
connect-branches false false true true m f h b o =
    handshake-OwnsSsl h b (state false true (m + 1) f) refl refl (ground (arith, o.owned))
connect-branches false false true false m f h b o = ground (arith, o.owned)

connect-OwnsSsl :
    (a : SslAnswers) (b : SocketEventType) (s : SslState)
    → OwnsSsl s
    → OwnsSsl (ssl_connect a b s).1.1
connect-OwnsSsl a b s o =
    connect-branches s.secured s.starting a.ssl_new a.bio_set s.made s.freed a.handshake b o

disconnect-OwnsSsl :
    (answer : Option SslError) (b : SocketEventType) (s : SslState)
    → OwnsSsl s
    → OwnsSsl (socket_ssl_disconnect answer b s).1.1
unfolding socket_ssl_disconnect
disconnect-OwnsSsl none b s o = elim (Bool-cases s.secured) [
  | inl c ↦ ground (arith, c, o.owned, o.one)
  | inr c ↦ ground (arith, c, o.owned, o.one)
]
disconnect-OwnsSsl (some e) b s o = elim (Bool-cases s.secured) [
  | inl c ↦ ground (arith, c, o.owned, o.one)
  | inr c ↦ ground (arith, c, o.owned, o.one)
]

abort-OwnsSsl : (s : SslState) → OwnsSsl s → OwnsSsl (socket_ssl_abort s)
unfolding socket_ssl_abort
abort-OwnsSsl s o = ground (arith, o.owned, o.one)

Secures-OwnsSsl : {s : SslState} → Secures s → OwnsSsl s
Secures-OwnsSsl (plain s c n e) = ground (arith, e)
Secures-OwnsSsl (connects a b s h) = connect-OwnsSsl a b s (Secures-OwnsSsl h)
Secures-OwnsSsl (disconnects a b s h) = disconnect-OwnsSsl a b s (Secures-OwnsSsl h)
Secures-OwnsSsl (aborts s h) = abort-OwnsSsl s (Secures-OwnsSsl h)

-- However often SSL was started on a SOCK and ended, by whichever side and with whichever answers,
-- there is never more than one SSL object that is not freed, and SocketSSLAbort leaves none: both
-- pointers are NULL, and as many objects were freed as were made.
pub socket_ssl_abort-Secures :
    (s : SslState)
    → Secures s
    → (s.made ≤ s.freed + 1)
      × ((socket_ssl_abort s).secured ≡ false)
      × ((socket_ssl_abort s).starting ≡ false)
      × ((socket_ssl_abort s).made ≡ (socket_ssl_abort s).freed)
unfolding socket_ssl_abort
socket_ssl_abort-Secures s h = let o = Secures-OwnsSsl h in ground (arith, o.owned, o.one)
