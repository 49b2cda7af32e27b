-- ===== src/EventQueue/Scan.antt =====
-- What the searches of src/queue.c find, in terms of the list of queued events: a send may overtake
-- the reads before it and a read the sends, and nothing overtakes an event of the connect class.
use connio.Prelude.{
  ℕ, zero, suc, ◌≤◌, ◌≡◌, ◌≢◌, refl, sym, ap, subst, ◌∙◌, ◌⊎◌, inl, inr, Option, none, some, List,
  [], ◌∷◌, ◌++◌, arith, length, first_or, All,
}
use connio.Dll.Chain.{Linked}
use connio.Conn.{
  Conn, ConnEvents, ConnEventType, ConnEventClass, class_connect, class_receive, class_send, read,
  read_count, read_until_pattern, read_to_cb, read_to_conn, write_from_cb, write_from_client_buffer,
  flush,
}
use connio.EventQueue.{
  take_event, event_queue_remove_event, Step, skip, take, stop, walk, send_step, receive_step,
  get_next_enqueued_send_event, get_next_enqueued_receive_event, get_next_enqueued_event,
}
use connio.EventQueue.Contents.{IsQueue, remove-IsQueue}

-- The class that the library gives to the events of a type.
unfoldable pub class_of : ConnEventType → ConnEventClass
class_of read = class_receive
class_of read_count = class_receive
class_of read_until_pattern = class_receive
class_of read_to_cb = class_receive
class_of read_to_conn = class_receive
class_of write_from_cb = class_send
class_of write_from_client_buffer = class_send
class_of flush = class_send
class_of _ = class_connect

-- No event of the class `k` stands before the first one of the connect class.
abbrev pub Blocked : ConnEventClass → ConnEvents → List ℕ → Type 0
Blocked k es [] = Unit {0}
Blocked k es (p ∷ ps) =
    (class_of (es.type p) ≡ class_connect) ⊎ ((class_of (es.type p) ≢ k) × Blocked k es ps)

-- Events that another class may overtake.
abbrev pub Passed : ConnEventClass → ConnEvents → List ℕ → Type 0
Passed other es = All (λ q. class_of (es.type q) ≡ other)

-- The search for an event of the class `k`, past events of the class `other`, finds `r`.
abbrev pub Search : ConnEventClass → ConnEventClass → ConnEvents → List ℕ → Option ℕ → Type 0
Search k other es ps r =
    ((r ≡ none) × Blocked k es ps)
    ⊎ ((xs : List ℕ) × (p : ℕ) × (ys : List ℕ) × (ps ≡ xs ++ p ∷ ys)
        × (r ≡ some p)
        × Passed other es xs
        × (class_of (es.type p) ≡ k))

-- A step table that takes the class `k` and goes past `other`.
abbrev Follows : (ConnEventType → Step) → ConnEventClass → ConnEventClass → Type 0
Follows step k other =
    (t : ConnEventType)
    → ((step t ≡ skip) × (class_of t ≡ other))
      ⊎ ((step t ≡ take) × (class_of t ≡ k))
      ⊎ ((step t ≡ stop) × (class_of t ≡ class_connect))

send_step-Follows : Follows send_step class_send class_receive
unfolding send_step class_of
send_step-Follows read = ground arith
send_step-Follows _ = ground arith

receive_step-Follows : Follows receive_step class_receive class_send
unfolding receive_step class_of
receive_step-Follows read = ground arith
receive_step-Follows _ = ground arith

module _ {k other : ConnEventClass} (step : ConnEventType → Step) (f : Follows step k other) where
  Search-skip :
      (es : ConnEvents) (x : ℕ) (ps : List ℕ) {r : Option ℕ}
      → class_of (es.type x) ≡ other
      → other ≢ k
      → Search k other es ps r
      → Search k other es (x ∷ ps) r
  Search-skip es x ps e d (inl (e0, b)) = inl (e0, inr ((λ a. d (sym e ∙ a)), b))
  Search-skip es x ps e d (inr (xs, p, ys, split, found, passed, kind)) =
      inr (x ∷ xs, p, ys, ap (◌∷◌ x) split, found, (e, passed), kind)

  walk-Search :
      (fuel : ℕ) (es : ConnEvents) (o : Option ℕ) (ps : List ℕ)
      → other ≢ k
      → Linked es.links o ps
      → length ps ≤ fuel
      → Search k other es ps (walk step fuel es (first_or none ps))
  unfolding walk
  walk-Search zero es o [] d h le = inl (refl, tt)
  walk-Search (suc fuel) es o [] d h le = inl (refl, tt)
  walk-Search zero es o (x ∷ ps) d h le = absurd (omega arith)
  walk-Search (suc fuel) es o (x ∷ ps) d h le =
      let rest = walk-Search fuel es (some x) ps d h.2 (omega arith) in
      elim (f (es.type x)) [
        | inl (s, e) ↦ rw (s, walk, h.1) (Search-skip es x ps e d rest)
        | inr (inl (s, e)) ↦ rw (s, walk) (inr ([], x, ps, refl, refl, tt, e))
        | inr (inr (s, e)) ↦ rw (s, walk) (inl (refl, inl e))
      ]

-- What a search does to the connection `c` with the queue `ps`: nothing is found and nothing
-- changes, or the event found leaves the queue and the others stay in their order.
abbrev pub Selects : ConnEventClass → ConnEventClass → Conn → List ℕ → Option ℕ × Conn → Type 0
Selects k other c ps (r, c') =
    ((r ≡ none) × (c' ≡ c) × Blocked k c.events ps)
    ⊎ ((xs : List ℕ) × (p : ℕ) × (ys : List ℕ) × (ps ≡ xs ++ p ∷ ys)
        × (r ≡ some p)
        × Passed other c.events xs
        × (class_of (c.events.type p) ≡ k)
        × (c' ≡ event_queue_remove_event c p)
        × IsQueue c' (xs ++ ys))

take-Selects :
    (k other : ConnEventClass) (c : Conn) (ps : List ℕ) (r : Option ℕ)
    → IsQueue c ps
    → Search k other c.events ps r
    → Selects k other c ps (take_event c r)
unfolding take_event
take-Selects k other c ps r h (inl (e, b)) = rw (e, take_event) (inl (refl, refl, b))
take-Selects k other c ps r h (inr (xs, p, ys, split, e, passed, kind)) =
    let q = remove-IsQueue c xs p ys (subst (IsQueue c) split h) in
    rw (e, take_event) (inr (xs, p, ys, split, refl, passed, kind, refl, q))

-- The search for a send event takes the first send of the queue that only reads precede, and leaves
-- the rest of the queue in order; it finds nothing exactly if no send precedes the first event of
-- the connect class.
pub get_next_enqueued_send_event-Selects :
    (c : Conn) (ps : List ℕ)
    → IsQueue c ps
    → Selects class_send class_receive c ps (get_next_enqueued_send_event c)
unfolding get_next_enqueued_send_event
get_next_enqueued_send_event-Selects c ps h = take-Selects class_send class_receive c ps _ h (
    rw (h.counted, h.holds.head_first)
      (walk-Search send_step send_step-Follows (length ps) c.events none ps (λ e. cc) h.holds.linked
        (omega arith)))

-- The search for a read event likewise takes the first read that only sends precede.
pub get_next_enqueued_receive_event-Selects :
    (c : Conn) (ps : List ℕ)
    → IsQueue c ps
    → Selects class_receive class_send c ps (get_next_enqueued_receive_event c)
unfolding get_next_enqueued_receive_event
get_next_enqueued_receive_event-Selects c ps h = take-Selects class_receive class_send c ps _ h (
    rw (h.counted, h.holds.head_first)
      (walk-Search receive_step receive_step-Follows (length ps) c.events none ps (λ e. cc)
        h.holds.linked (omega arith)))

pub get_next_enqueued_event-nil : (c : Conn) → IsQueue c [] → get_next_enqueued_event c ≡ (none, c)
unfolding get_next_enqueued_event
get_next_enqueued_event-nil c h = ap (take_event c) h.holds.head_first

pub get_next_enqueued_event-cons :
    (c : Conn) (p : ℕ) (ys : List ℕ)
    → IsQueue c (p ∷ ys)
    → get_next_enqueued_event c ≡ (some p, event_queue_remove_event c p)
unfolding get_next_enqueued_event
get_next_enqueued_event-cons c p ys h = ap (take_event c) h.holds.head_first

-- With nothing in progress the oldest event is taken, whatever its type.
pub get_next_enqueued_event_lem :
    (c : Conn) (ps : List ℕ)
    → IsQueue c ps
    → ((ps ≡ []) × (get_next_enqueued_event c ≡ (none, c)))
      ⊎ ((p : ℕ) × (ys : List ℕ) × (ps ≡ p ∷ ys)
          × (get_next_enqueued_event c ≡ (some p, event_queue_remove_event c p))
          × IsQueue (event_queue_remove_event c p) ys)
get_next_enqueued_event_lem c [] h = inl (refl, get_next_enqueued_event-nil c h)
get_next_enqueued_event_lem c (p ∷ ys) h =
    inr (p, ys, refl, get_next_enqueued_event-cons c p ys h, remove-IsQueue c [] p ys h)
