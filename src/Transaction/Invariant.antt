-- ===== src/Transaction/Invariant.antt =====
-- What holds of a connection's asynchronous queue whenever its event lock is free, and that the parts
-- of ConnEventsProcess in src/queue.c keep it.
use connio.Prelude.{ℕ, ◌≡◌, refl, ◌⊎◌, inl, inr, Option, none, some, List, [], NotIn}
use connio.Conn.{
  Conn, ConnEventClass, ActiveEvent, AsyncProblem, class_connect, class_receive, class_send,
  partial,
}
use connio.Conn.InProgress.{conn_event_in_progress_set, conn_event_in_progress_clear}
use connio.EventQueue.Scan.{class_of}
use connio.EventQueue.FreeList.{Owns}
use connio.Transaction.Next.{IsExclusive, HasRoom}

abbrev pub slot : ActiveEvent → ConnEventClass → Option ℕ
slot a class_connect = a.connect
slot a class_receive = a.receive
slot a class_send = a.send

abbrev pub set_active : ActiveEvent → ConnEventClass → Option ℕ → ActiveEvent
set_active a class_connect v = record a { connect = v }
set_active a class_receive v = record a { receive = v }
set_active a class_send v = record a { send = v }

-- An event in a slot belongs to its class, and is neither queued nor waiting to be freed.
abbrev pub Placed : Conn → List ℕ → List ℕ → ConnEventClass → Type 0
Placed c ps fs k =
    (p : ℕ) → slot c.active k ≡ some p → (class_of (c.events.type p) ≡ k) × NotIn p ps × NotIn p fs

pub record WorkInv (c : Conn) (ps fs : List ℕ) : Type 0 where
  pub owns : Owns c ps fs
  pub exclusive : IsExclusive c.active
  pub classed : (p : ℕ) → c.events.event_class p ≡ class_of (c.events.type p)
  pub placed : (k : ConnEventClass) → Placed c ps fs k
  pub aborted : (a : AsyncProblem) → c.tx.problem ≡ some a → (a.status ≡ partial) ⊎ (ps ≡ [])

pub in_progress_set_lem :
    (c : Conn) (p : ℕ) (k : ConnEventClass)
    → c.events.event_class p ≡ k
    → conn_event_in_progress_set c p ≡ record c { active = set_active c.active k (some p) }
unfolding conn_event_in_progress_set
in_progress_set_lem c p class_connect e = rw e
in_progress_set_lem c p class_receive e = rw e
in_progress_set_lem c p class_send e = rw e

pub in_progress_clear_lem :
    (c : Conn) (p : ℕ) (k : ConnEventClass)
    → c.events.event_class p ≡ k
    → conn_event_in_progress_clear c p ≡ record c { active = set_active c.active k none }
unfolding conn_event_in_progress_clear
in_progress_clear_lem c p class_connect e = rw e
in_progress_clear_lem c p class_receive e = rw e
in_progress_clear_lem c p class_send e = rw e

pub set_active-IsExclusive :
    (a : ActiveEvent) (k : ConnEventClass) (v : Option ℕ)
    → HasRoom a k
    → IsExclusive (set_active a k v)
set_active-IsExclusive a class_connect v r = inr (r.1, r.2)
set_active-IsExclusive a class_receive v r = inl r.0
set_active-IsExclusive a class_send v r = inl r.0

pub clear-IsExclusive :
    (a : ActiveEvent) (k : ConnEventClass) → IsExclusive a → IsExclusive (set_active a k none)
clear-IsExclusive a class_connect h = inl refl
clear-IsExclusive a class_receive (inl e) = inl e
clear-IsExclusive a class_receive (inr (e1, e2)) = inr (refl, e2)
clear-IsExclusive a class_send (inl e) = inl e
clear-IsExclusive a class_send (inr (e1, e2)) = inr (e1, refl)

-- A slot after one is written is that slot, or as before.
pub slot-set :
    (a : ActiveEvent) (k j : ConnEventClass) (v : Option ℕ)
    → ((j ≡ k) × (slot (set_active a k v) j ≡ v)) ⊎ (slot (set_active a k v) j ≡ slot a j)
slot-set a class_connect class_connect v = inl (refl, refl)
slot-set a class_connect class_receive v = inr refl
slot-set a class_connect class_send v = inr refl
slot-set a class_receive class_connect v = inr refl
slot-set a class_receive class_receive v = inl (refl, refl)
slot-set a class_receive class_send v = inr refl
slot-set a class_send class_connect v = inr refl
slot-set a class_send class_receive v = inr refl
slot-set a class_send class_send v = inl (refl, refl)
