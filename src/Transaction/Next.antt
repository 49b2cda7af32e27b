-- ===== src/Transaction/Next.antt =====
-- Which event ConnEventNext of src/queue.c starts, and why it starts none.
use connio.Prelude.{
  ℕ, ◌≡◌, ◌≢◌, refl, sym, ap, subst, ◌∙◌, ◌⊎◌, inl, inr, true, false, Option, none, some, List, [],
  ◌∷◌, ◌++◌, arith, All, Bool-cases,
}
use connio.Conn.{
  Conn, ConnEvents, ConnEventClass, ActiveEvent, class_connect, class_receive, class_send,
}
use connio.EventQueue.{
  event_queue_remove_event, get_next_enqueued_event, get_next_enqueued_send_event,
  get_next_enqueued_receive_event,
}
use connio.EventQueue.Contents.{IsQueue}
use connio.EventQueue.Scan.{
  class_of, Blocked, Passed, get_next_enqueued_send_event-Selects,
  get_next_enqueued_receive_event-Selects, get_next_enqueued_event_lem,
}
use connio.Transaction.{choose, conn_event_next, is_some}

-- An event of the connect class has the connection to itself.
abbrev pub IsExclusive : ActiveEvent → Type 0
IsExclusive a = (a.connect ≡ none) ⊎ ((a.receive ≡ none) × (a.send ≡ none))

-- The slots leave room for an event of the class.
abbrev pub HasRoom : ActiveEvent → ConnEventClass → Type 0
HasRoom a class_connect = (a.connect ≡ none) × (a.receive ≡ none) × (a.send ≡ none)
HasRoom a class_receive = (a.connect ≡ none) × (a.receive ≡ none)
HasRoom a class_send = (a.connect ≡ none) × (a.send ≡ none)

-- Nothing of the class of `p` and nothing of the connect class stands among the events.
abbrev pub Overtaken : ConnEvents → ℕ → List ℕ → Type 0
Overtaken es p =
    All λ q. (class_of (es.type q) ≢ class_of (es.type p)) × (class_of (es.type q) ≢ class_connect)

-- Why no event can be started.
abbrev pub Waits : Conn → List ℕ → Type 0
Waits c ps =
    (is_some c.tx.problem ≡ true)
    ⊎ (ps ≡ [])
    ⊎ (is_some c.active.connect ≡ true)
    ⊎ ((is_some c.active.receive ≡ true)
        × ((is_some c.active.send ≡ true) ⊎ Blocked class_send c.events ps))
    ⊎ ((is_some c.active.send ≡ true) × Blocked class_receive c.events ps)

abbrev pub Starts : Conn → List ℕ → ℕ → Conn → Type 0
Starts c ps p c' =
    (xs : List ℕ) × (ys : List ℕ) × (ps ≡ xs ++ p ∷ ys)
    × Overtaken c.events p xs
    × HasRoom c.active (class_of (c.events.type p))
    × (c.tx.problem ≡ none)
    × (c' ≡ event_queue_remove_event c p)
    × IsQueue c' (xs ++ ys)

abbrev pub Chooses : Conn → List ℕ → Option ℕ × Conn → Type 0
Chooses c ps (r, c') =
    ((r ≡ none) × (c' ≡ c) × Waits c ps) ⊎ ((p : ℕ) × (r ≡ some p) × Starts c ps p c')

Passed-Overtaken :
    (es : ConnEvents) (other : ConnEventClass) (p : ℕ) (xs : List ℕ)
    → other ≢ class_of (es.type p)
    → other ≢ class_connect
    → Passed other es xs
    → Overtaken es p xs
Passed-Overtaken es other p [] d d' h = tt
Passed-Overtaken es other p (x ∷ xs) d d' h =
    (((λ e. d (sym h.0 ∙ e)), (λ e. d' (sym h.0 ∙ e))), Passed-Overtaken es other p xs d d' h.1)

is_some-false {ℓ} : {A : Type ℓ} (o : Option A) → is_some o ≡ false → o ≡ none
is_some-false none e = refl
is_some-false (some a) e = cc

send-Chooses :
    (c : Conn) (ps : List ℕ)
    → IsQueue c ps
    → c.tx.problem ≡ none
    → c.active.connect ≡ none
    → is_some c.active.receive ≡ true
    → c.active.send ≡ none
    → Chooses c ps (get_next_enqueued_send_event c)
send-Chooses c ps h fine alone busy room = elim (get_next_enqueued_send_event-Selects c ps h) [
  | inl (e, same, b) ↦ inl (e, same, inr (inr (inr (inl (busy, inr b)))))
  | inr (xs, p, ys, split, e, passed, kind, taken, q) ↦ inr (
    p,
    e,
    (
      xs,
      ys,
      split,
      Passed-Overtaken c.events class_receive p xs (λ a. cc) (λ a. cc) passed,
      subst (HasRoom c.active) (sym kind) (alone, room),
      fine,
      taken,
      q,
    ),
  )
]

receive-Chooses :
    (c : Conn) (ps : List ℕ)
    → IsQueue c ps
    → c.tx.problem ≡ none
    → c.active.connect ≡ none
    → c.active.receive ≡ none
    → is_some c.active.send ≡ true
    → Chooses c ps (get_next_enqueued_receive_event c)
receive-Chooses c ps h fine alone room busy =
    elim (get_next_enqueued_receive_event-Selects c ps h) [
      | inl (e, same, b) ↦ inl (e, same, inr (inr (inr (inr (busy, b)))))
      | inr (xs, p, ys, split, e, passed, kind, taken, q) ↦ inr (
        p,
        e,
        (
          xs,
          ys,
          split,
          Passed-Overtaken c.events class_send p xs (λ a. cc) (λ a. cc) passed,
          subst (HasRoom c.active) (sym kind) (alone, room),
          fine,
          taken,
          q,
        ),
      )
    ]

HasRoom-all : (a : ActiveEvent) (k : ConnEventClass) → HasRoom a class_connect → HasRoom a k
HasRoom-all a class_connect r = r
HasRoom-all a class_receive r = (r.0, r.1)
HasRoom-all a class_send r = (r.0, r.2)

any-Chooses :
    (c : Conn) (ps : List ℕ)
    → IsQueue c ps
    → c.tx.problem ≡ none
    → HasRoom c.active class_connect
    → Chooses c ps (get_next_enqueued_event c)
any-Chooses c ps h fine room = elim (get_next_enqueued_event_lem c ps h) [
  | inl (e, r) ↦ inl (ap (λ x. x.0) r, ap (λ x. x.1) r, inr (inl e))
  | inr (p, ys, split, r, q) ↦ inr (
    p,
    ap (λ x. x.0) r,
    (
      [],
      ys,
      split,
      tt,
      HasRoom-all c.active (class_of (c.events.type p)) room,
      fine,
      ap (λ x. x.1) r,
      subst (λ d. IsQueue d ys) (sym (ap (λ x. x.1) r)) q,
    ),
  )
]

empty_of_head : (c : Conn) (ps : List ℕ) → IsQueue c ps → c.tx.queue.head ≡ none → ps ≡ []
empty_of_head c [] h e = refl
empty_of_head c (p ∷ ps) h e = ground (arith, h.holds.head_first)

choose-Chooses :
    (c : Conn) (ps : List ℕ) (connect receive send : Option ℕ)
    → IsQueue c ps
    → c.tx.problem ≡ none
    → c.active.connect ≡ connect
    → c.active.receive ≡ receive
    → c.active.send ≡ send
    → Chooses c ps (choose connect receive send c)
unfolding choose
choose-Chooses c ps (some e) receive send h fine ec er es =
    inl (refl, refl, inr (inr (inl (ap is_some ec))))
choose-Chooses c ps none (some r) (some s) h fine ec er es =
    inl (refl, refl, inr (inr (inr (inl (ap is_some er, inl (ap is_some es))))))
choose-Chooses c ps none (some r) none h fine ec er es =
    send-Chooses c ps h fine ec (ap is_some er) es
choose-Chooses c ps none none (some s) h fine ec er es =
    receive-Chooses c ps h fine ec er (ap is_some es)
choose-Chooses c ps none none none h fine ec er es = any-Chooses c ps h fine (ec, er, es)

conn_event_next-stop :
    (c : Conn)
    → (is_some c.tx.problem ≡ true) ⊎ (c.tx.queue.head ≡ none)
    → conn_event_next c ≡ (none, c)
unfolding conn_event_next
conn_event_next-stop c h = ground arith

conn_event_next-choose :
    (c : Conn)
    → c.tx.problem ≡ none
    → is_some c.tx.queue.head ≡ true
    → conn_event_next c ≡ choose c.active.connect c.active.receive c.active.send c
unfolding conn_event_next
conn_event_next-choose c h k = rw (ap is_some h, k, conn_event_next)

-- With the queue `ps`, ConnEventNext either starts nothing and changes nothing, because the queue
-- has a problem or is empty, an event of the connect class is in progress, or what is in progress
-- leaves room for no event that may go first; or it takes one event `p` out of the queue, whose slot
-- is free and which overtakes no event of its own class and none of the connect class.
pub conn_event_next_lem : (c : Conn) (ps : List ℕ) → IsQueue c ps → Chooses c ps (conn_event_next c)
conn_event_next_lem c ps h = elim (Bool-cases (is_some c.tx.problem)) [
  | inl bad ↦
      subst (Chooses c ps) (sym (conn_event_next-stop c (inl bad))) (inl (refl, refl, inl bad))
  | inr fine ↦ elim (Bool-cases (is_some c.tx.queue.head)) [
    | inl more ↦
        let none_yet = is_some-false c.tx.problem fine in
        subst (Chooses c ps) (sym (conn_event_next-choose c none_yet more)) (
          choose-Chooses c ps c.active.connect c.active.receive c.active.send h none_yet refl refl
            refl)
    | inr done ↦
        let empty = is_some-false c.tx.queue.head done in
        subst (Chooses c ps) (sym (conn_event_next-stop c (inr empty)))
          (inl (refl, refl, inr (inl (empty_of_head c ps h empty))))
  ]
]
