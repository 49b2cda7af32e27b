-- ===== src/Dll.antt =====
-- The doubly linked lists of the library: the event queue of a connection (src/queue.c), the
-- connections of a handle and its listeners (src/connio.c). A node is an address; `next` and
-- `previous` are the fields of that name at every address, NULL is `none`.
pub mod Chain
use connio.Prelude.{ℕ, Option, none, some, ◌==◌, if◌then◌else◌}

pub record Links : Type 0 where
  pub next : ℕ → Option ℕ
  pub previous : ℕ → Option ℕ

pub record Ends : Type 0 where
  pub head : Option ℕ
  pub tail : Option ℕ

abbrev pub update {ℓ} : {A : Type ℓ} → (ℕ → A) → ℕ → A → ℕ → A
update f p v q = if p == q then v else f q

abbrev pub set_next : Links → ℕ → Option ℕ → Links
set_next l p v = record l { next = update l.next p v }

abbrev pub set_previous : Links → ℕ → Option ℕ → Links
set_previous l p v = record l { previous = update l.previous p v }

-- Hang `p` behind the tail: `tail->next = p; p->previous = tail` or `head = p; p->previous = NULL`.
hang : Option ℕ → Ends → Links → ℕ → Ends × Links
hang (some t) e l p = (record e { tail = some p }, set_previous (set_next l t (some p)) p (some t))
hang none e l p = (record { head = some p; tail = some p }, set_previous l p none)

unfoldable pub append : Ends → Links → ℕ → Ends × Links
unfolding hang
append e l p = hang e.tail e (set_next l p none) p

-- `if( p->previous ) p->previous->next = p->next; else head = p->next;`
skip_forward : Option ℕ → Ends → Links → ℕ → Ends × Links
skip_forward (some a) e l p = (e, set_next l a (l.next p))
skip_forward none e l p = (record e { head = l.next p }, l)

-- `if( p->next ) p->next->previous = p->previous; else tail = p->previous;`
skip_back : Option ℕ → Ends → Links → ℕ → Ends × Links
skip_back (some b) e l p = (e, set_previous l b (l.previous p))
skip_back none e l p = (record e { tail = l.previous p }, l)

abbrev clear : Links → ℕ → Links
clear l p = set_previous (set_next l p none) p none

unfoldable pub remove : Ends → Links → ℕ → Ends × Links
unfolding skip_forward skip_back
remove e l p =
    let (e1, l1) = skip_forward (l.previous p) e l p in
    let (e2, l2) = skip_back (l1.next p) e1 l1 p in (e2, clear l2 p)
