-- ===== src/Sock/Start/Balance.antt =====
-- That the SOCK of src/sockcommon.c gives back each socket of the system that it took, once.
use connio.Prelude.{
  ℕ, ◌+◌, ◌≡◌, refl, Bool, bit, Bool-cases, inl, inr, true, false, Option, none, some,
  if◌then◌else◌, arith,
}
use connio.Sock.Start.{
  Descriptor, ConnectAnswers, ListenAnswers, AcceptAnswers, close_number, socket_sync_connect_start,
  socket_connect_abort_with, socket_disconnect_finish, socket_release, socket_alloc, socket_accept,
  accept_pickup, socket_listen, connect_goes_on, created, connect_answered, mode_set,
}

-- Every socket that the system made is closed, but for the one whose number the SOCK has and for
-- `n` others.
abbrev pub IsBalanced : ℕ → Descriptor → Type 0
IsBalanced n d = d.opened ≡ (if d.valid then d.closed + 1 else d.closed) + n

-- What a SOCK goes through from its allocation on, in any order. The number counts the connections
-- and the listeners that were started while the SOCK had a socket, whose number is overwritten.
pub data Lives : ℕ → Descriptor → Type 0 where
  fresh : (id : ℕ) (d : Descriptor) → socket_alloc true id ≡ some d → Lives 0 d
  accepted : (a : AcceptAnswers) (l d : Descriptor) → (socket_accept a l).child ≡ some d → Lives 0 d
  picked_up :
      (memory : Bool) (id : ℕ) (d : Descriptor) → (accept_pickup memory id).0 ≡ some d → Lives 0 d
  starts :
      (has_source : Bool) (a : ConnectAnswers) (n : ℕ) (d : Descriptor)
      → Lives n d
      → Lives (n + bit d.valid) (socket_sync_connect_start has_source a d).socket
  listens :
      (a : ListenAnswers) (id uid n : ℕ) (d : Descriptor)
      → Lives n d
      → Lives (n + bit d.valid) (socket_listen a id uid d).1
  aborts :
      (answer : Option ℕ) (n : ℕ) (d : Descriptor)
      → Lives n d
      → Lives n (socket_connect_abort_with answer d)
  finishes :
      (answer : Option ℕ) (n : ℕ) (d : Descriptor)
      → Lives n d
      → Lives n (socket_disconnect_finish answer d)
  closes :
      (answer : Option ℕ) (n : ℕ) (d : Descriptor) → Lives n d → Lives n (close_number answer d).1

close-IsBalanced :
    (answer : Option ℕ) (n : ℕ) (d : Descriptor)
    → IsBalanced n d
    → IsBalanced n (close_number answer d).1
unfolding close_number
close-IsBalanced answer n d h = ground (arith, h)

answered-IsBalanced :
    (answer close : Option ℕ) (n : ℕ) (d : Descriptor)
    → IsBalanced n d
    → IsBalanced n (connect_answered answer close d).socket
unfolding connect_answered
answered-IsBalanced none close n d h = h
answered-IsBalanced (some e) close n d h = elim (Bool-cases (connect_goes_on e)) [
  | inl g ↦ rw g h
  | inr s ↦ rw s (close-IsBalanced close n d h)
]

mode-IsBalanced :
    (m : Option ℕ) (a : ConnectAnswers) (n : ℕ) (d : Descriptor)
    → a.set_mode ≡ m
    → IsBalanced n d
    → IsBalanced n (mode_set a d).socket
unfolding mode_set
mode-IsBalanced none a n d e h = rw (e, mode_set) (answered-IsBalanced a.connect a.close n d h)
mode-IsBalanced (some k) a n d e h = rw (e, mode_set) h

-- A socket that the SOCK had before is overwritten, whether there is a new one or not.
created-IsBalanced :
    (answer : Option ℕ) (n : ℕ) (d : Descriptor)
    → IsBalanced n d
    → IsBalanced (n + bit d.valid) (created answer d)
unfolding created
created-IsBalanced none n d h = ground (arith, h)
created-IsBalanced (some k) n d h = ground (arith, h)

start-branches :
    (has_source : Bool) (create bind : Option ℕ) (a : ConnectAnswers) (n : ℕ) (d : Descriptor)
    → a.create ≡ create
    → a.bind ≡ bind
    → IsBalanced n d
    → IsBalanced (n + bit d.valid) (socket_sync_connect_start has_source a d).socket
unfolding socket_sync_connect_start
start-branches s (some k) b a n d c e h =
    rw (c, socket_sync_connect_start) (created-IsBalanced (some k) n d h)
start-branches false none b a n d c e h =
    rw (c, socket_sync_connect_start)
      (mode-IsBalanced a.set_mode a (n + bit d.valid) (created none d) refl
        (created-IsBalanced none n d h))
start-branches true none none a n d c e h =
    rw (c, e, socket_sync_connect_start)
      (mode-IsBalanced a.set_mode a (n + bit d.valid) (created none d) refl
        (created-IsBalanced none n d h))
start-branches true none (some k) a n d c e h =
    rw (c, e, socket_sync_connect_start) (created-IsBalanced none n d h)

listen-IsBalanced :
    (a : ListenAnswers) (id uid n : ℕ) (d : Descriptor)
    → IsBalanced n d
    → IsBalanced (n + bit d.valid) (socket_listen a id uid d).1
unfolding socket_listen
listen-IsBalanced a id uid n d h = ground (arith, h)

alloc-IsBalanced : (id : ℕ) (d : Descriptor) → socket_alloc true id ≡ some d → IsBalanced 0 d
unfolding socket_alloc
alloc-IsBalanced id d e = ground arith

accept-IsBalanced :
    (a : AcceptAnswers) (l d : Descriptor) → (socket_accept a l).child ≡ some d → IsBalanced 0 d
unfolding socket_accept
accept-IsBalanced a l d e = ground arith

pickup-IsBalanced :
    (memory : Bool) (id : ℕ) (d : Descriptor)
    → (accept_pickup memory id).0 ≡ some d
    → IsBalanced 0 d
unfolding accept_pickup
pickup-IsBalanced memory id d e = ground arith

Lives-IsBalanced : {n : ℕ} {d : Descriptor} → Lives n d → IsBalanced n d
unfolding socket_connect_abort_with socket_disconnect_finish
Lives-IsBalanced (fresh id d e) = alloc-IsBalanced id d e
Lives-IsBalanced (accepted a l d e) = accept-IsBalanced a l d e
Lives-IsBalanced (picked_up memory id d e) = pickup-IsBalanced memory id d e
Lives-IsBalanced (starts s a n d l) =
    start-branches s a.create a.bind a n d refl refl (Lives-IsBalanced l)
Lives-IsBalanced (listens a id uid n d l) = listen-IsBalanced a id uid n d (Lives-IsBalanced l)
Lives-IsBalanced (aborts answer n d l) = close-IsBalanced answer n d (Lives-IsBalanced l)
Lives-IsBalanced (finishes answer n d l) = close-IsBalanced answer n d (Lives-IsBalanced l)
Lives-IsBalanced (closes answer n d l) = close-IsBalanced answer n d (Lives-IsBalanced l)

-- A SOCK from SocketAlloc, socketAccept or acceptPickup, on which connections and listeners are
-- started, connections aborted, disconnections finished and the socket closed, in any order: its
-- release leaves it without a socket, and the sockets that the system made for it and that were not
-- closed are as many as the connections and listeners that were started while the SOCK had a socket.
pub socket_release-Lives :
    (answer : Option ℕ) (n : ℕ) (d : Descriptor)
    → Lives n d
    → (r : Descriptor) × (socket_release answer (some d) ≡ some r)
      × (r.valid ≡ false)
      × (r.opened ≡ r.closed + n)
unfolding socket_release close_number
socket_release-Lives answer n d l = let h = Lives-IsBalanced l in (_, refl, refl, ground (arith, h))

-- An accept that gives no SOCK has closed every socket that it took.
pub socket_accept-released :
    (a : AcceptAnswers) (l r : Descriptor)
    → (socket_accept a l).released ≡ some r
    → (r.valid ≡ false) × (r.opened ≡ r.closed)
unfolding socket_accept
socket_accept-released a l r e = ground arith
