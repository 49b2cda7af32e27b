-- ===== src/EventQueue/Contents.antt =====
-- The queue of src/queue.c as a list of events: what appending and removing do to it.
use connio.Prelude.{ℕ, suc, ◌<◌, ◌≡◌, List, [], ◌∷◌, ◌++◌, arith, length, length-append, NotIn}
use connio.Dll.Chain.{Holds, append-Holds, remove-Holds}
use connio.Conn.{Conn}
use connio.EventQueue.{ulong_mod, event_queue_append_event, event_queue_remove_event}

-- The queue of the connection holds these events, oldest first.
pub record IsQueue (c : Conn) (ps : List ℕ) : Type 0 where
  pub holds : Holds c.tx.queue c.events.links ps
  pub counted : c.tx.count ≡ length ps
  pub fits : length ps < ulong_mod

-- An event that is not queued is appended at the end, as long as the counter does not wrap.
pub append-IsQueue :
    (c : Conn) (ps : List ℕ) (ce : ℕ)
    → IsQueue c ps
    → NotIn ce ps
    → suc (length ps) < ulong_mod
    → IsQueue (event_queue_append_event c ce) (ps ++ ce ∷ [])
unfolding event_queue_append_event
append-IsQueue c ps ce h n fits = record {
  holds = append-Holds c.tx.queue c.events.links ps ce h.holds n;
  counted = omega (arith, h.counted, length-append ps (ce ∷ []));
  fits = omega (arith, length-append ps (ce ∷ []));
}

-- An event of the queue is taken out and the others stay in their order.
pub remove-IsQueue :
    (c : Conn) (xs : List ℕ) (ce : ℕ) (ys : List ℕ)
    → IsQueue c (xs ++ ce ∷ ys)
    → IsQueue (event_queue_remove_event c ce) (xs ++ ys)
unfolding event_queue_remove_event
remove-IsQueue c xs ce ys h = record {
  holds = remove-Holds c.tx.queue c.events.links xs ce ys h.holds;
  counted = omega (arith, h.counted, h.fits, length-append xs (ce ∷ ys), length-append xs ys);
  fits = omega (arith, h.fits, length-append xs (ce ∷ ys), length-append xs ys);
}
