-- ===== src/Enqueue/Order.antt =====
-- What EventEnqueue of src/queue.c puts into the queue, and in which order.
use connio.Prelude.{
  ℕ, suc, ◌+◌, ◌<◌, ◌≡◌, ◌≢◌, refl, sym, ap, subst, ◌∙◌, true, false, none, some, List, [], ◌∷◌,
  ◌++◌, arith, length, length-append, append_assoc, All, All-append, NotIn,
}
use connio.Dll.{update}
use connio.Dll.Chain.{Linked-same, SameAt}
use connio.Conn.{
  Conn, ConnEventType, ConnEventClass, CodeSource, disconnect, ssl_disconnect, flush, class_connect,
  class_send,
}
use connio.EventQueue.{event_queue_append_event, ulong_mod}
use connio.EventQueue.Contents.{IsQueue, append-IsQueue}
use connio.Enqueue.{
  conn_event_assign, queue_inserted, flush_a_event_needed, ssl_disconnect_event_needed, add_flush,
  add_ssl_disconnect, event_engine_queue_add, enqueue_events,
}

-- The connection with a new event of the library's own at the address `n`.
abbrev with_new : Conn → ℕ → ConnEventType → ConnEventClass → CodeSource → Conn
with_new c n t k source =
    let es = conn_event_assign c.events n t k source in
    record c { events = record es { inserted = update es.inserted n true } }

new-same :
    (c : Conn) (n : ℕ) (t : ConnEventType) (k : ConnEventClass) (source : CodeSource) (ps : List ℕ)
    → NotIn n ps
    → All (SameAt c.events.links (with_new c n t k source).events.links) ps
unfolding conn_event_assign
new-same c n t k source [] m = tt
new-same c n t k source (p ∷ ps) m =
    ((ground (arith, m.0), ground (arith, m.0)), new-same c n t k source ps m.1)

new-IsQueue :
    (c : Conn) (n : ℕ) (t : ConnEventType) (k : ConnEventClass) (source : CodeSource) (ps : List ℕ)
    → NotIn n ps
    → IsQueue c ps
    → IsQueue (with_new c n t k source) ps
new-IsQueue c n t k source ps m h = record {
  holds = record {
    head_first = h.holds.head_first;
    tail_last = h.holds.tail_last;
    linked = Linked-same c.events.links _ none ps (new-same c n t k source ps m) h.holds.linked;
    distinct = h.holds.distinct;
  };
  counted = h.counted;
  fits = h.fits;
}

-- Events may be queued freely.
abbrev pub IsOpen : Conn → Type 0
IsOpen c = (c.tx.problem ≡ none) × (c.handle.shutting_down ≡ false)

add-append :
    (c : Conn) (ce : ℕ) → IsOpen c → event_engine_queue_add c ce ≡ event_queue_append_event c ce
unfolding event_engine_queue_add
add-append c ce h = ground arith

append-rest :
    (c : Conn) (ce : ℕ)
    → let d = event_queue_append_event c ce in
      IsOpen c → IsOpen d × (d.tx.ssl_enabled ≡ c.tx.ssl_enabled) × (d.events.type ≡ c.events.type)
unfolding event_queue_append_event
append-rest c ce h = (h, refl, refl)

flushed : Conn → ℕ → CodeSource → Conn
flushed c f source =
    event_queue_append_event (with_new (record c { send_buffer = none }) f flush class_send source)
      f

flush-lem :
    (c : Conn) (ce f used : ℕ) (source : CodeSource)
    → IsOpen c
    → c.send_buffer ≡ some (suc used)
    → c.events.event_class ce ≡ class_connect
    → add_flush source (flush_a_event_needed c ce (some f) source) ≡ flushed c f source
unfolding add_flush flush_a_event_needed flushed queue_inserted event_engine_queue_add
flush-lem c ce f used source h b k = ground arith

ssl_added : Conn → ℕ → CodeSource → Conn
ssl_added c s source =
    event_queue_append_event
      (with_new (record c { tx = record c.tx { ssl_enabled = false } }) s ssl_disconnect
        class_connect source)
      s

ssl-lem :
    (c : Conn) (ce s : ℕ) (source : CodeSource)
    → IsOpen c
    → c.tx.ssl_enabled ≡ true
    → c.events.type ce ≡ disconnect
    → add_ssl_disconnect (some s) source (ssl_disconnect_event_needed c ce) ≡ ssl_added c s source
unfolding add_ssl_disconnect ssl_disconnect_event_needed ssl_added queue_inserted
    event_engine_queue_add
ssl-lem c ce s source h e t = ground arith

apart-snoc : (ps : List ℕ) (f s : ℕ) → NotIn s ps → s ≢ f → NotIn s (ps ++ f ∷ [])
apart-snoc ps f s m n = All-append (λ q. s ≢ q) ps (f ∷ []) m (n, tt)

update-other :
    (g : ℕ → ConnEventType) (f ce : ℕ) (v : ConnEventType) → ce ≢ f → update g f v ce ≡ g ce
update-other g f ce v n = ground (arith, n)

flushed-lem :
    (c : Conn) (f : ℕ) (source : CodeSource) (ps : List ℕ)
    → IsQueue c ps
    → NotIn f ps
    → IsOpen c
    → suc (length ps) < ulong_mod
    → let d = flushed c f source in
      IsQueue d (ps ++ f ∷ [])
      × IsOpen d
      × (d.tx.ssl_enabled ≡ c.tx.ssl_enabled)
      × (d.events.type ≡ update c.events.type f flush)
unfolding flushed conn_event_assign event_queue_append_event
flushed-lem c f source ps h m o fits =
    let e = with_new (record c { send_buffer = none }) f flush class_send source in
    (
      append-IsQueue e ps f
          (new-IsQueue (record c { send_buffer = none }) f flush class_send source ps m
            (record { holds = h.holds; counted = h.counted; fits = h.fits }))
          m fits,
      o,
      refl,
      refl,
    )

ssl_added-lem :
    (c : Conn) (s : ℕ) (source : CodeSource) (ps : List ℕ)
    → IsQueue c ps
    → NotIn s ps
    → IsOpen c
    → suc (length ps) < ulong_mod
    → IsQueue (ssl_added c s source) (ps ++ s ∷ []) × IsOpen (ssl_added c s source)
unfolding ssl_added conn_event_assign event_queue_append_event
ssl_added-lem c s source ps h m o fits =
    let d = record c { tx = record c.tx { ssl_enabled = false } } in
    let e = with_new d s ssl_disconnect class_connect source in
    (
      append-IsQueue e ps s
          (new-IsQueue d s ssl_disconnect class_connect source ps m
            (record { holds = h.holds; counted = h.counted; fits = h.fits }))
          m fits,
      o,
    )

-- The library's own events at `f` and `s`, and the client's at `ce`.
pub record IsEnded (d : Conn) (f s ce : ℕ) : Type 0 where
  pub flushes : (d.events.type f ≡ flush) × (d.events.event_class f ≡ class_send)
  pub ends_ssl : (d.events.type s ≡ ssl_disconnect) × (d.events.event_class s ≡ class_connect)
  pub own : (d.events.inserted f ≡ true) × (d.events.inserted s ≡ true)
  pub client : (d.events.type ce ≡ disconnect) × (d.events.event_class ce ≡ class_connect)
  pub no_data : d.send_buffer ≡ none
  pub no_ssl : d.tx.ssl_enabled ≡ false

append-IsEnded :
    (c : Conn) (ce f s : ℕ) (source : CodeSource)
    → c.events.type ce ≡ disconnect
    → c.events.event_class ce ≡ class_connect
    → ce ≢ f
    → ce ≢ s
    → s ≢ f
    → IsEnded (event_queue_append_event (ssl_added (flushed c f source) s source) ce) f s ce
unfolding ssl_added flushed conn_event_assign event_queue_append_event
append-IsEnded c ce f s source t k nf ns n = record {
  flushes = (ground (arith, n), ground (arith, n));
  ends_ssl = (ground (arith, n), ground (arith, n));
  own = (ground (arith, n), ground (arith, n));
  client = (ground (arith, t, nf, ns), ground (arith, k, nf, ns));
  no_data = refl;
  no_ssl = refl;
}

-- A disconnect of a connection that uses SSL and has unsent data in its buffer goes to the end of
-- the queue behind two new events of the library's own, first a flush of the send class and then an
-- SSL disconnect of the connect class. The connection then has no send buffer of its own, and counts
-- as one without SSL. The queue has no problem, the handle does not shut down, the memory suffices,
-- and the three addresses are different and not queued.
pub enqueue_events-IsQueue :
    (c : Conn) (ps : List ℕ) (ce f s used : ℕ) (source : CodeSource)
    → IsQueue c ps
    → IsOpen c
    → c.send_buffer ≡ some (suc used)
    → c.tx.ssl_enabled ≡ true
    → c.events.type ce ≡ disconnect
    → c.events.event_class ce ≡ class_connect
    → NotIn ce (s ∷ f ∷ ps)
    → NotIn s (f ∷ ps)
    → NotIn f ps
    → length ps + 3 < ulong_mod
    → let d = enqueue_events c (some ce) (some f) (some s) source in
      IsQueue d (ps ++ f ∷ s ∷ ce ∷ []) × IsEnded d f s ce
unfolding enqueue_events
enqueue_events-IsQueue c ps ce f s used source h o b e t k nc ns nf fits =
    let d = flushed c f source in
    let (dq, dopen, dssl, dtype) = flushed-lem c f source ps h nf o (omega arith) in
    let n1 = length-append ps (f ∷ []) in
    let is_disconnect = ap (λ g. g ce) dtype ∙ update-other c.events.type f ce flush nc.1.0 ∙ t in
    let (gq, go) =
      ssl_added-lem d s source (ps ++ f ∷ []) dq (apart-snoc ps f s ns.1 ns.0) dopen
        (omega arith) in
    let n2 = length-append (ps ++ f ∷ []) (s ∷ []) in
    let g = ssl_added d s source in
    let last =
      append-IsQueue g ((ps ++ f ∷ []) ++ s ∷ []) ce gq
        (apart-snoc (ps ++ f ∷ []) s ce (apart-snoc ps f ce nc.1.1 nc.1.0) nc.0) (omega arith) in
    let step1 =
      ap
        (λ x.
          event_engine_queue_add
            (add_ssl_disconnect (some s) source (ssl_disconnect_event_needed x ce)) ce)
        (flush-lem c ce f used source o b k) in
    let step2 =
      ap (λ x. event_engine_queue_add x ce)
        (ssl-lem d ce s source dopen (dssl ∙ e) is_disconnect) in
    subst (λ x. IsQueue x (ps ++ f ∷ s ∷ ce ∷ []) × IsEnded x f s ce)
      (sym (step1 ∙ step2 ∙ add-append g ce go))
      (
        subst (λ qs. IsQueue (event_queue_append_event g ce) qs)
            (append_assoc (ps ++ f ∷ []) (s ∷ []) (ce ∷ [])
              ∙ append_assoc ps (f ∷ []) (s ∷ ce ∷ []))
            last,
        append-IsEnded c ce f s source t k nc.1.0 nc.0 ns.0,
      )
