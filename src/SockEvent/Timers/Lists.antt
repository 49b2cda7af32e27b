-- ===== src/SockEvent/Timers/Lists.antt =====
-- What a list of timeouts of src/sockunix.c holds, as a list of addresses.
use mathlib.Core.Option.{some-injective}
use connio.Prelude.{
  ℕ, zero, suc, ◌≤◌, ◌≡◌, ◌≢◌, refl, sym, ap, ◌∙◌, subst, Option, none, some, List, [], ◌∷◌, length,
  first_or, last_or, All, All-append, All-left, All-right, Distinct-middle, ◌++◌, NotIn, Distinct,
  arith,
}
use connio.Dll.{Links, Ends, update}
use connio.Dll.Chain.{Linked, SameAt, Linked-same, remove-Holds, remove-tail}
use connio.SockEvent.Timers.{
  TimerLists, push, unlink_timeout, delete_timeout, link_head, prepend, detach, loose, sweep,
}

-- The list `i` holds the events `ps`, linked in both directions, and each of them says so.
pub record HoldsTimers (t : TimerLists) (i : ℕ) (ps : List ℕ) : Type 0 where
  pub head_first : t.heads i ≡ first_or none ps
  pub linked : Linked t.links none ps
  pub distinct : Distinct ps
  pub members : All (λ p. t.list_of p ≡ some i) ps

-- The event is in no list, and linked to nothing.
abbrev pub IsLoose : TimerLists → ℕ → Type 0
IsLoose t p = (t.list_of p ≡ none) × (t.links.next p ≡ none) × (t.links.previous p ≡ none)

abbrev loosen : List ℕ → TimerLists → TimerLists
loosen [] t = t
loosen (p ∷ ps) t = loosen ps (loose p t)

loose-same : (p : ℕ) (t : TimerLists) (q : ℕ) → p ≢ q → SameAt t.links (loose p t).links q
loose-same p t q n = ground (arith, n)

loose-keeps :
    (p : ℕ) (t : TimerLists) (qs : List ℕ) → NotIn p qs → All (SameAt t.links (loose p t).links) qs
loose-keeps p t [] n = tt
loose-keeps p t (q ∷ qs) n = (loose-same p t q n.0, loose-keeps p t qs n.1)

loose-Linked :
    (p : ℕ) (t : TimerLists) (qs : List ℕ)
    → NotIn p qs
    → Linked t.links (some p) qs
    → Linked (loose p t).links (some p) qs
loose-Linked p t qs n h = Linked-same t.links (loose p t).links (some p) qs (loose-keeps p t qs n) h

detach-all :
    (fuel : ℕ) (o : Option ℕ) (ps : List ℕ) (t : TimerLists)
    → length ps ≤ fuel
    → Linked t.links o ps
    → Distinct ps
    → detach fuel (first_or none ps) t ≡ some (ps, loosen ps t)
unfolding detach prepend
detach-all zero o [] t b h d = refl
detach-all (suc n) o [] t b h d = refl
detach-all zero o (p ∷ ps) t b h d = absurd (omega (arith, b))
detach-all (suc n) o (p ∷ ps) t b h d = ap (prepend p) (
    ap (λ (q : Option ℕ). detach n q (loose p t)) h.1
    ∙ detach-all n (some p) ps (loose p t) (omega (arith, b)) (loose-Linked p t ps d.0 h.2) d.1)

loosen-IsLoose : (p : ℕ) (ps : List ℕ) (t : TimerLists) → IsLoose t p → IsLoose (loosen ps t) p
loosen-IsLoose p [] t h = h
loosen-IsLoose p (q ∷ ps) t h = loosen-IsLoose p ps (loose q t) (ground (arith, h.0, h.1, h.2))

loosen-All : (ps : List ℕ) (t : TimerLists) → All (IsLoose (loosen ps t)) ps
loosen-All [] t = tt
loosen-All (p ∷ ps) t = (
  loosen-IsLoose p ps (loose p t) (ground arith, ground arith, ground arith),
  loosen-All ps (loose p t),
)

loosen-heads : (i : ℕ) (ps : List ℕ) (t : TimerLists) → (loosen ps t).heads i ≡ t.heads i
loosen-heads i [] t = refl
loosen-heads i (p ∷ ps) t = loosen-heads i ps (loose p t)

-- With as much fuel as the list has events, the sweep of a list of timeouts ends and gives exactly its
-- events, each once and in their order. The list is empty then, and each of the events is in no list
-- and linked to nothing.
pub sweep-HoldsTimers :
    (fuel i : ℕ) (ps : List ℕ) (t : TimerLists)
    → HoldsTimers t i ps
    → length ps ≤ fuel
    → (t' : TimerLists) × (sweep fuel i t ≡ some (ps, t'))
      × (t'.heads i ≡ none)
      × All (IsLoose t') ps
unfolding sweep
sweep-HoldsTimers fuel i ps t h b =
    let t0 : TimerLists = record t { heads = update t.heads i none } in
    (
      loosen ps t0,
      ap (λ o. detach fuel o t0) h.head_first ∙ detach-all fuel none ps t0 b h.linked h.distinct,
      loosen-heads i ps t0 ∙ ground arith,
      loosen-All ps t0,
    )

members-same :
    (p i : ℕ) (ps : List ℕ) (t : TimerLists)
    → NotIn p ps
    → All (λ q. t.list_of q ≡ some i) ps
    → All (λ q. update t.list_of p (some i) q ≡ some i) ps
members-same p i [] t n h = tt
members-same p i (q ∷ ps) t n h = (ground (arith, n.0, h.0), members-same p i ps t n.1 h.1)

behind-same :
    (p y : ℕ) (xs : List ℕ) (l : Links)
    → NotIn p xs
    → NotIn y xs
    → All (SameAt l (link_head (some y) l p)) xs
unfolding link_head
behind-same p y [] l n m = tt
behind-same p y (x ∷ xs) l n m =
    ((ground (arith, n.0, m.0), ground (arith, n.0, m.0)), behind-same p y xs l n.1 m.1)

head-Linked :
    (p : ℕ) (o : Option ℕ) (ps : List ℕ) (l : Links)
    → o ≡ first_or none ps
    → Linked l none ps
    → Distinct ps
    → NotIn p ps
    → l.previous p ≡ none
    → Linked (link_head o l p) none (p ∷ ps)
unfolding link_head
head-Linked p none [] l e h d n v = (v, ground arith, tt)
head-Linked p (some x) [] l e h d n v = absurd (cc)
head-Linked p none (x ∷ xs) l e h d n v = absurd (cc)
head-Linked p (some y) (x ∷ xs) l e h d n v =
    let q : y ≡ x = some-injective _ _ e in
    (
      ground (arith, v, q, n.0),
      ground (arith, q),
      (
        ground (arith, q),
        ground (arith, n.0, h.1),
        Linked-same l (link_head (some y) l p) (some x) xs
            (behind-same p y xs l n.1 (subst (λ (z : ℕ). NotIn z xs) (sym q) d.0)) h.2,
      ),
    )

-- An event that is in no list is put before the others.
pub push-HoldsTimers :
    (i p : ℕ) (ps : List ℕ) (t : TimerLists)
    → HoldsTimers t i ps
    → NotIn p ps
    → t.links.previous p ≡ none
    → HoldsTimers (push i p t) i (p ∷ ps)
unfolding push
push-HoldsTimers i p ps t h n v = record {
  head_first = ground arith;
  linked = head-Linked p (t.heads i) ps t.links h.head_first h.linked h.distinct n v;
  distinct = (n, h.distinct);
  members = (ground arith, members-same p i ps t n h.members);
}

update_here : {A : Type 0} (i : ℕ) (f : ℕ → A) (v : A) → update f i v i ≡ v
update_here i f v = ground arith

members-without :
    (p : ℕ) (o : Option ℕ) (ps : List ℕ) (f : ℕ → Option ℕ) (i : ℕ)
    → NotIn p ps
    → All (λ q. f q ≡ some i) ps
    → All (λ q. update f p o q ≡ some i) ps
members-without p o [] f i n h = tt
members-without p o (q ∷ ps) f i n h =
    (ground (arith, n.0, h.0), members-without p o ps f i n.1 h.1)

middle-member :
    (f : ℕ → Option ℕ) (i : ℕ) (xs : List ℕ) (p : ℕ) (ys : List ℕ)
    → All (λ q. f q ≡ some i) (xs ++ p ∷ ys)
    → f p ≡ some i
middle-member f i [] p ys h = h.0
middle-member f i (x ∷ xs) p ys h = middle-member f i xs p ys h.1

unlink-HoldsTimers :
    (i p : ℕ) (xs ys : List ℕ) (t : TimerLists)
    → HoldsTimers t i (xs ++ p ∷ ys)
    → HoldsTimers (unlink_timeout i p t) i (xs ++ ys)
unfolding unlink_timeout
unlink-HoldsTimers i p xs ys t h =
    let ps = xs ++ p ∷ ys in
    let ends : Ends = record { head = t.heads i; tail = last_or none ps } in
    let after = remove-Holds ends t.links xs p ys (record {
      head_first = h.head_first;
      tail_last = refl;
      linked = h.linked;
      distinct = h.distinct;
    }) in
    let same = remove-tail (t.heads i) none (last_or none ps) t.links xs p ys h.linked h.distinct in
    let apart = Distinct-middle xs p ys h.distinct in
    record {
      head_first = update_here i t.heads _ ∙ same.0 ∙ after.head_first;
      linked = subst (λ (l : Links). Linked l none (xs ++ ys)) (sym same.1) after.linked;
      distinct = apart.2;
      members =
          members-without p none (xs ++ ys) t.list_of i
            (All-append (λ q. p ≢ q) xs ys apart.0 apart.1)
            (All-append (λ q. t.list_of q ≡ some i) xs ys
              (All-left (λ q. t.list_of q ≡ some i) xs (p ∷ ys) h.members)
              (All-right (λ q. t.list_of q ≡ some i) xs (p ∷ ys) h.members).1);
    }

-- A timeout that is deleted is taken out of its list, and the others stay, in their order.
pub delete-HoldsTimers :
    (i p : ℕ) (xs ys : List ℕ) (t : TimerLists)
    → HoldsTimers t i (xs ++ p ∷ ys)
    → HoldsTimers (delete_timeout p t) i (xs ++ ys)
unfolding delete_timeout
delete-HoldsTimers i p xs ys t h =
    rw (middle-member t.list_of i xs p ys h.members, delete_timeout)
      (unlink-HoldsTimers i p xs ys t h)
