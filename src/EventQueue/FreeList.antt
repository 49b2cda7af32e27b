-- ===== src/EventQueue/FreeList.antt =====
-- The list of finished events of src/queue.c, which wait to be freed, beside the queue.
use connio.Prelude.{
  ℕ, ◌≡◌, refl, sym, ◌∙◌, none, some, List, [], ◌∷◌, ◌++◌, arith, first_or, All, NotIn, Distinct,
}
use connio.Dll.{Links}
use connio.Dll.Chain.{Linked-same, SameAt, remove-same}
use connio.Conn.{Conn}
use connio.EventQueue.{event_queue_remove_event, conn_event_free_list_add}
use connio.EventQueue.Contents.{IsQueue, remove-IsQueue}

abbrev pub FreeLinked : Links → List ℕ → Type 0
FreeLinked l [] = Unit {0}
FreeLinked l (p ∷ ps) = (l.next p ≡ first_or none ps) × FreeLinked l ps

-- The queue is `ps`, the events to free are `fs`, and no event is in both.
pub record Owns (c : Conn) (ps fs : List ℕ) : Type 0 where
  pub queue : IsQueue c ps
  pub head_free : c.tx.free_list ≡ first_or none fs
  pub free_linked : FreeLinked c.events.links fs
  pub apart : All (λ p. NotIn p fs) ps
  pub distinct_free : Distinct fs

-- What an operation on the two lists leaves alone.
pub record SameWork (c d : Conn) : Type 0 where
  pub state : d.state ≡ c.state
  pub active : d.active ≡ c.active
  pub sp : d.sp ≡ c.sp
  pub handle : d.handle ≡ c.handle
  pub type : d.events.type ≡ c.events.type
  pub event_class : d.events.event_class ≡ c.events.event_class
  pub error : d.events.error ≡ c.events.error
  pub problem : d.tx.problem ≡ c.tx.problem
  pub threads : d.tx.threads ≡ c.tx.threads

pub SameWork-refl : (c : Conn) → SameWork c c
SameWork-refl c = record {
  state = refl;
  active = refl;
  sp = refl;
  handle = refl;
  type = refl;
  event_class = refl;
  error = refl;
  problem = refl;
  threads = refl;
}

pub SameWork-trans : {c d e : Conn} → SameWork c d → SameWork d e → SameWork c e
SameWork-trans h k = record {
  state = k.state ∙ h.state;
  active = k.active ∙ h.active;
  sp = k.sp ∙ h.sp;
  handle = k.handle ∙ h.handle;
  type = k.type ∙ h.type;
  event_class = k.event_class ∙ h.event_class;
  error = k.error ∙ h.error;
  problem = k.problem ∙ h.problem;
  threads = k.threads ∙ h.threads;
}

pub remove-SameWork : (c : Conn) (ce : ℕ) → SameWork c (event_queue_remove_event c ce)
unfolding event_queue_remove_event
remove-SameWork c ce = ground arith

pub free_list_add-SameWork : (c : Conn) (ce : ℕ) → SameWork c (conn_event_free_list_add c ce)
unfolding conn_event_free_list_add
free_list_add-SameWork c ce = ground arith

FreeLinked-same :
    (l m : Links) (fs : List ℕ)
    → All (λ q. m.next q ≡ l.next q) fs
    → FreeLinked l fs
    → FreeLinked m fs
FreeLinked-same l m [] s h = tt
FreeLinked-same l m (p ∷ ps) s h = (s.0 ∙ h.0, FreeLinked-same l m ps s.1 h.1)

add-next :
    (c : Conn) (ce : ℕ) (fs : List ℕ)
    → NotIn ce fs
    → All (λ q. (conn_event_free_list_add c ce).events.links.next q ≡ c.events.links.next q) fs
unfolding conn_event_free_list_add
add-next c ce [] n = tt
add-next c ce (q ∷ fs) n = (ground (arith, n.0), add-next c ce fs n.1)

add-same :
    (c : Conn) (ce : ℕ) (ps : List ℕ)
    → NotIn ce ps
    → All (SameAt c.events.links (conn_event_free_list_add c ce).events.links) ps
unfolding conn_event_free_list_add
add-same c ce [] n = tt
add-same c ce (q ∷ ps) n = ((ground (arith, n.0), ground (arith, n.0)), add-same c ce ps n.1)

apart-cons :
    (ce : ℕ) (ps fs : List ℕ)
    → NotIn ce ps
    → All (λ p. NotIn p fs) ps
    → All (λ p. NotIn p (ce ∷ fs)) ps
apart-cons ce [] fs n h = tt
apart-cons ce (p ∷ ps) fs n h = (((λ e. n.0 (sym e)), h.0), apart-cons ce ps fs n.1 h.1)

add-IsQueue :
    (c : Conn) (ps : List ℕ) (ce : ℕ)
    → IsQueue c ps
    → NotIn ce ps
    → IsQueue (conn_event_free_list_add c ce) ps
add-IsQueue c ps ce h n = record {
  holds = record {
    head_first = unfold conn_event_free_list_add in h.holds.head_first;
    tail_last = unfold conn_event_free_list_add in h.holds.tail_last;
    linked = Linked-same c.events.links _ none ps (add-same c ce ps n) h.holds.linked;
    distinct = h.holds.distinct;
  };
  counted = unfold conn_event_free_list_add in h.counted;
  fits = h.fits;
}

add-first :
    (c : Conn) (ce : ℕ)
    → ((conn_event_free_list_add c ce).events.links.next ce ≡ c.tx.free_list)
      × ((conn_event_free_list_add c ce).tx.free_list ≡ some ce)
unfolding conn_event_free_list_add
add-first c ce = (ground arith, refl)

-- An event of neither list goes to the front of the list of events to free.
pub free_list_add-Owns :
    (c : Conn) (ps fs : List ℕ) (ce : ℕ)
    → Owns c ps fs
    → NotIn ce ps
    → NotIn ce fs
    → Owns (conn_event_free_list_add c ce) ps (ce ∷ fs)
free_list_add-Owns c ps fs ce h n m = record {
  queue = add-IsQueue c ps ce h.queue n;
  head_free = (add-first c ce).1;
  free_linked = (
    (add-first c ce).0 ∙ h.head_free,
    FreeLinked-same c.events.links (conn_event_free_list_add c ce).events.links fs
        (add-next c ce fs m) h.free_linked,
  );
  apart = apart-cons ce ps fs n h.apart;
  distinct_free = (m, h.distinct_free);
}

All-apart : (fs : List ℕ) (ps : List ℕ) → All (λ p. NotIn p fs) ps → All (λ q. NotIn q ps) fs
All-apart [] ps h = tt
All-apart (f ∷ fs) ps h = (first f fs ps h, All-apart fs ps (rest f fs ps h))
  where
    first : (f : ℕ) (fs ps : List ℕ) → All (λ p. NotIn p (f ∷ fs)) ps → NotIn f ps
    first f fs [] h = tt
    first f fs (p ∷ ps) h = ((λ e. h.0.0 (sym e)), first f fs ps h.1)

    rest : (f : ℕ) (fs ps : List ℕ) → All (λ p. NotIn p (f ∷ fs)) ps → All (λ p. NotIn p fs) ps
    rest f fs [] h = tt
    rest f fs (p ∷ ps) h = (h.0.1, rest f fs ps h.1)

remove-next :
    (c : Conn) (xs : List ℕ) (ce : ℕ) (ys fs : List ℕ)
    → IsQueue c (xs ++ ce ∷ ys)
    → All (λ q. NotIn q (xs ++ ce ∷ ys)) fs
    → All (λ q. (event_queue_remove_event c ce).events.links.next q ≡ c.events.links.next q) fs
unfolding event_queue_remove_event
remove-next c xs ce ys [] h n = tt
remove-next c xs ce ys (q ∷ fs) h n = (
  (remove-same c.tx.queue c.events.links xs ce ys q h.holds n.0).0,
  remove-next c xs ce ys fs h n.1,
)

All-drop {ℓ} :
    (P : ℕ → Type ℓ) (xs : List ℕ) (p : ℕ) (ys : List ℕ) → All P (xs ++ p ∷ ys) → All P (xs ++ ys)
All-drop P [] p ys h = h.1
All-drop P (x ∷ xs) p ys h = (h.0, All-drop P xs p ys h.1)

-- Taking an event out of the queue leaves the list of events to free.
pub remove-Owns :
    (c : Conn) (xs : List ℕ) (ce : ℕ) (ys fs : List ℕ)
    → Owns c (xs ++ ce ∷ ys) fs
    → Owns (event_queue_remove_event c ce) (xs ++ ys) fs
remove-Owns c xs ce ys fs h = record {
  queue = remove-IsQueue c xs ce ys h.queue;
  head_free = unfold event_queue_remove_event in h.head_free;
  free_linked =
      FreeLinked-same c.events.links (event_queue_remove_event c ce).events.links fs
        (remove-next c xs ce ys fs h.queue (All-apart fs (xs ++ ce ∷ ys) h.apart)) h.free_linked;
  apart = All-drop (λ p. NotIn p fs) xs ce ys h.apart;
  distinct_free = h.distinct_free;
}
