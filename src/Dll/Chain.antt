-- ===== src/Dll/Chain.antt =====
-- What a doubly linked list holds, as a list of addresses, and that the operations of the parent
-- module keep it so.
use connio.Prelude.{
  ℕ, ◌≡◌, refl, sym, ◌∙◌, ◌≢◌, Option, none, some, List, [], ◌∷◌, ◌++◌, arith, ap, first_or,
  last_or, last_or-append, All, All-left, All-right, NotIn, Distinct, Distinct-middle,
  Distinct-snoc,
}
use mathlib.Core.Option.{some-injective}
use connio.Dll.{Links, Ends, append, remove, update}

-- The nodes are linked in both directions, behind `o` and up to NULL.
abbrev pub Linked : Links → Option ℕ → List ℕ → Type 0
Linked l o [] = Unit {0}
Linked l o (p ∷ ps) = (l.previous p ≡ o) × (l.next p ≡ first_or none ps) × Linked l (some p) ps

pub record Holds (e : Ends) (l : Links) (ps : List ℕ) : Type 0 where
  pub head_first : e.head ≡ first_or none ps
  pub tail_last : e.tail ≡ last_or none ps
  pub linked : Linked l none ps
  pub distinct : Distinct ps

-- The two memories agree on the links of a node.
abbrev pub SameAt : Links → Links → ℕ → Type 0
SameAt l m q = (m.next q ≡ l.next q) × (m.previous q ≡ l.previous q)

pub Linked-same :
    (l m : Links) (o : Option ℕ) (ps : List ℕ) → All (SameAt l m) ps → Linked l o ps → Linked m o ps
Linked-same l m o [] s h = tt
Linked-same l m o (p ∷ ps) s h = (s.0.1 ∙ h.0, s.0.0 ∙ h.1, Linked-same l m (some p) ps s.1 h.2)

pub last-ne :
    (o : Option ℕ) (x y : ℕ) (ys : List ℕ) (t : ℕ)
    → NotIn x (y ∷ ys)
    → last_or o (y ∷ ys) ≡ some t
    → x ≢ t
last-ne o x y [] t n e = ground (arith, n.0)
last-ne o x y (z ∷ zs) t n e = last-ne (some y) x z zs t n.1 e

-- The links after `p` is hung behind the tail `t`.
abbrev hung : Links → ℕ → ℕ → Links
hung l p t = record {
  next = update (update l.next p none) t (some p);
  previous = update l.previous p (some t);
}

Linked-hung :
    (l : Links) (o : Option ℕ) (x : ℕ) (xs : List ℕ) (p t : ℕ)
    → last_or o (x ∷ xs) ≡ some t
    → Distinct (x ∷ xs)
    → NotIn p (x ∷ xs)
    → Linked l o (x ∷ xs)
    → Linked (hung l p t) o (x ∷ xs ++ p ∷ [])
Linked-hung l o x [] p t e d n h = ground (arith, n.0)
Linked-hung l o x (y ∷ ys) p t e d n h = (
  ground (arith, n.0, last-ne o x y ys t d.0 e),
  ground (arith, n.0, last-ne o x y ys t d.0 e),
  Linked-hung l (some x) y ys p t e d.1 n.1 h.2,
)

pub last-some : (o : Option ℕ) (x : ℕ) (xs : List ℕ) → (t : ℕ) × (last_or o (x ∷ xs) ≡ some t)
last-some o x [] = (x, refl)
last-some o x (y ∷ ys) = last-some (some x) y ys

append-empty :
    (e : Ends) (l : Links) (p : ℕ)
    → e.tail ≡ none
    → append e l p ≡ (
      record { head = some p; tail = some p },
      record { next = update l.next p none; previous = update l.previous p none },
    )
unfolding append
append-empty e l p h = ground arith

append-hung :
    (e : Ends) (l : Links) (p t : ℕ)
    → e.tail ≡ some t
    → append e l p ≡ (record e { tail = some p }, hung l p t)
unfolding append
append-hung e l p t h = ground arith

-- Appending a node that is not in the list puts it at the end.
pub append-Holds :
    (e : Ends) (l : Links) (ps : List ℕ) (p : ℕ)
    → Holds e l ps
    → NotIn p ps
    → Holds (append e l p).0 (append e l p).1 (ps ++ p ∷ [])
append-Holds e l [] p h n = rw (append-empty e l p h.tail_last) (ground arith)
append-Holds e l (x ∷ xs) p h n =
    let (t, et) = last-some none x xs in
    rw (append-hung e l p t (h.tail_last ∙ et)) (record {
      head_first = h.head_first;
      tail_last = sym (last_or-append none (x ∷ xs) (p ∷ []));
      linked = Linked-hung l none x xs p t et h.distinct n h.linked;
      distinct = Distinct-snoc (x ∷ xs) p h.distinct n;
    })

-- The links after `p`, between `a` and `b`, is taken out.
abbrev cut_next : Links → Option ℕ → Option ℕ → ℕ → ℕ → Option ℕ
cut_next l a b p = update (elim a [ none ↦ l.next | some x ↦ update l.next x b ]) p none

abbrev cut_previous : Links → Option ℕ → Option ℕ → ℕ → ℕ → Option ℕ
cut_previous l a b p = update (elim b [ none ↦ l.previous | some x ↦ update l.previous x a ]) p none

abbrev cut : Links → Option ℕ → Option ℕ → ℕ → Links
cut l a b p = record { next = cut_next l a b p; previous = cut_previous l a b p }

abbrev outer : Option ℕ → Option ℕ → Option ℕ → Option ℕ
outer none b end = b
outer (some a) b end = end

remove-cut :
    (e : Ends) (l : Links) (p : ℕ) (a b : Option ℕ)
    → l.previous p ≡ a
    → l.next p ≡ b
    → a ≢ some p
    → remove e l p ≡ (record { head = outer a b e.head; tail = outer b a e.tail }, cut l a b p)
unfolding remove
remove-cut e l p none none ha hb d = ground arith
remove-cut e l p none (some y) ha hb d = ground arith
remove-cut e l p (some x) none ha hb d = ground arith
remove-cut e l p (some x) (some y) ha hb d = ground arith

-- The pointer is NULL or points out of the list.
abbrev Outside : Option ℕ → List ℕ → Type 0
Outside none ps = Unit {0}
Outside (some x) ps = NotIn x ps

SameAt-cut :
    (l : Links) (a : Option ℕ) (y p : ℕ) (zs : List ℕ)
    → NotIn p zs
    → NotIn y zs
    → Outside a zs
    → All (SameAt l (cut l a (some y) p)) zs
SameAt-cut l a y p [] np ny na = tt
SameAt-cut l none y p (z ∷ zs) np ny na = (
  (ground (arith, np.0, ny.0), ground (arith, np.0, ny.0)),
  SameAt-cut l none y p zs np.1 ny.1 tt,
)
SameAt-cut l (some x) y p (z ∷ zs) np ny na = (
  (ground (arith, np.0, ny.0, na.0), ground (arith, np.0, ny.0, na.0)),
  SameAt-cut l (some x) y p zs np.1 ny.1 na.1,
)

-- The part behind the node that is taken out.
Linked-cut_rest :
    (l : Links) (o : Option ℕ) (p : ℕ) (ys : List ℕ)
    → Distinct (p ∷ ys)
    → Outside o (p ∷ ys)
    → Linked l o (p ∷ ys)
    → Linked (cut l o (first_or none ys) p) o ys
Linked-cut_rest l o p [] d u h = tt
Linked-cut_rest l none p (y ∷ zs) d u h = (
  ground (arith, d.0.0),
  ground (arith, d.0.0),
  Linked-same l _ (some y) zs (SameAt-cut l none y p zs d.0.1 d.1.0 tt) h.2.2,
)
Linked-cut_rest l (some x) p (y ∷ zs) d u h = (
  ground (arith, d.0.0, u.0, u.1.0),
  ground (arith, d.0.0, u.0, u.1.0),
  Linked-same l _ (some y) zs (SameAt-cut l (some x) y p zs d.0.1 d.1.0 u.1.1) h.2.2,
)

cut_next-same :
    (l : Links) (a b : Option ℕ) (p x t : ℕ)
    → a ≡ some t
    → x ≢ t
    → x ≢ p
    → cut_next l a b p x ≡ l.next x
cut_next-same l none b p x t e n np = cc
cut_next-same l (some y) b p x t e n np = ground arith

cut_previous-same :
    (l : Links) (a : Option ℕ) (p x : ℕ) (ys : List ℕ)
    → NotIn x (p ∷ ys)
    → cut_previous l a (first_or none ys) p x ≡ l.previous x
cut_previous-same l a p x [] n = ground (arith, n.0)
cut_previous-same l a p x (y ∷ ys) n = ground (arith, n.0, n.1.0)

Linked-cut :
    (l : Links) (o : Option ℕ) (xs : List ℕ) (p : ℕ) (ys : List ℕ)
    → Distinct (xs ++ p ∷ ys)
    → Outside o (xs ++ p ∷ ys)
    → Linked l o (xs ++ p ∷ ys)
    → Linked (cut l (last_or o xs) (first_or none ys) p) o (xs ++ ys)
Linked-cut l o [] p ys d u h = Linked-cut_rest l o p ys d u h
Linked-cut l o (x ∷ []) p ys d u h = (
  cut_previous-same l (some x) p x ys d.0 ∙ h.0,
  ground (arith, d.0.0),
  Linked-cut l (some x) [] p ys d.1 d.0 h.2,
)
Linked-cut l o (x ∷ y ∷ xs) p ys d u h =
    let out = All-right (λ q. x ≢ q) (y ∷ xs) (p ∷ ys) d.0 in
    let (t, et) = last-some o y xs in
    let apart = last-ne o x y xs t (All-left (λ q. x ≢ q) (y ∷ xs) (p ∷ ys) d.0) et in
    (
      cut_previous-same l _ p x ys out ∙ h.0,
      cut_next-same l _ (first_or none ys) p x t et apart out.0 ∙ h.1,
      Linked-cut l (some x) (y ∷ xs) p ys d.1 d.0 h.2,
    )

Linked-middle :
    (l : Links) (o : Option ℕ) (xs : List ℕ) (p : ℕ) (ys : List ℕ)
    → Linked l o (xs ++ p ∷ ys)
    → (l.previous p ≡ last_or o xs) × (l.next p ≡ first_or none ys)
Linked-middle l o [] p ys h = (h.0, h.1)
Linked-middle l o (x ∷ xs) p ys h = Linked-middle l (some x) xs p ys h.2

last-Outside : (p : ℕ) (xs : List ℕ) → NotIn p xs → last_or none xs ≢ some p
last-Outside p [] n = λ e. cc
last-Outside p (x ∷ xs) n =
    let (t, et) = last-some none x xs in
    let apart = last-ne none p x xs t n et in λ e. apart (some-injective p t (sym e ∙ et))

outer-first :
    (xs : List ℕ) (p : ℕ) (ys : List ℕ)
    → outer (last_or none xs) (first_or none ys) (first_or none (xs ++ p ∷ ys))
      ≡ first_or none (xs ++ ys)
outer-first [] p ys = refl
outer-first (x ∷ xs) p ys = let (t, et) = last-some none x xs in rw et

outer-last :
    (o : Option ℕ) (xs : List ℕ) (p : ℕ) (ys : List ℕ)
    → outer (first_or none ys) (last_or o xs) (last_or o (xs ++ p ∷ ys)) ≡ last_or o (xs ++ ys)
outer-last o xs p [] = rw (last_or-append o xs [])
outer-last o xs p (y ∷ ys) = rw (last_or-append o xs (p ∷ y ∷ ys), last_or-append o xs (y ∷ ys))

cut_next-apart :
    (l : Links) (xs : List ℕ) (b : Option ℕ) (p x : ℕ)
    → NotIn x xs
    → x ≢ p
    → cut_next l (last_or none xs) b p x ≡ l.next x
cut_next-apart l [] b p x n np = ground arith
cut_next-apart l (y ∷ ys) b p x n np =
    let (t, et) = last-some none y ys in
    cut_next-same l (last_or none (y ∷ ys)) b p x t et (last-ne none x y ys t n et) np

-- Taking a node out leaves the others, in their order.
pub remove-Holds :
    (e : Ends) (l : Links) (xs : List ℕ) (p : ℕ) (ys : List ℕ)
    → Holds e l (xs ++ p ∷ ys)
    → Holds (remove e l p).0 (remove e l p).1 (xs ++ ys)
remove-Holds e l xs p ys h =
    let at = Linked-middle l none xs p ys h.linked in
    let apart = Distinct-middle xs p ys h.distinct in
    rw (remove-cut e l p (last_or none xs) (first_or none ys) at.0 at.1 (last-Outside p xs apart.0))
      (record {
        head_first =
            ap (outer (last_or none xs) (first_or none ys)) h.head_first ∙ outer-first xs p ys;
        tail_last =
            ap (outer (first_or none ys) (last_or none xs)) h.tail_last ∙ outer-last none xs p ys;
        linked = Linked-cut l none xs p ys h.distinct tt h.linked;
        distinct = apart.2;
      })

-- Nodes outside the list keep their links.
pub append-same :
    (e : Ends) (l : Links) (ps : List ℕ) (p q : ℕ)
    → Holds e l ps
    → NotIn q ps
    → q ≢ p
    → SameAt l (append e l p).1 q
append-same e l [] p q h n np = rw (append-empty e l p h.tail_last) (ground arith, ground arith)
append-same e l (x ∷ xs) p q h n np =
    let (t, et) = last-some none x xs in
    let apart = last-ne none q x xs t n et in
    rw (append-hung e l p t (h.tail_last ∙ et)) (ground arith, ground arith)

pub remove-same :
    (e : Ends) (l : Links) (xs : List ℕ) (p : ℕ) (ys : List ℕ) (q : ℕ)
    → Holds e l (xs ++ p ∷ ys)
    → NotIn q (xs ++ p ∷ ys)
    → SameAt l (remove e l p).1 q
remove-same e l xs p ys q h n =
    let at = Linked-middle l none xs p ys h.linked in
    let apart = Distinct-middle xs p ys h.distinct in
    let out = All-right (λ r. q ≢ r) xs (p ∷ ys) n in
    rw (remove-cut e l p (last_or none xs) (first_or none ys) at.0 at.1 (last-Outside p xs apart.0))
      (
        cut_next-apart l xs (first_or none ys) p q (All-left (λ r. q ≢ r) xs (p ∷ ys) n) out.0,
        cut_previous-same l (last_or none xs) p q ys out,
      )

-- The tail of a list has no part in what else is written when a node is taken out.
pub remove-tail :
    (h a b : Option ℕ) (l : Links) (xs : List ℕ) (p : ℕ) (ys : List ℕ)
    → Linked l none (xs ++ p ∷ ys)
    → Distinct (xs ++ p ∷ ys)
    → ((remove (record { head = h; tail = a }) l p).0.head
        ≡ (remove (record { head = h; tail = b }) l p).0.head)
      × ((remove (record { head = h; tail = a }) l p).1
          ≡ (remove (record { head = h; tail = b }) l p).1)
remove-tail h a b l xs p ys k d =
    let at = Linked-middle l none xs p ys k in
    let apart = Distinct-middle xs p ys d in
    let out = last-Outside p xs apart.0 in
    let one =
      remove-cut (record { head = h; tail = a }) l p (last_or none xs) (first_or none ys) at.0 at.1
        out in
    let two =
      remove-cut (record { head = h; tail = b }) l p (last_or none xs) (first_or none ys) at.0 at.1
        out in
    (
      ap (λ (r : Ends × Links). r.0.head) one ∙ sym (ap (λ (r : Ends × Links). r.0.head) two),
      ap (λ (r : Ends × Links). r.1) one ∙ sym (ap (λ (r : Ends × Links). r.1) two),
    )
