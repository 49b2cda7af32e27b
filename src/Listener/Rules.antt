-- ===== src/Listener/Rules.antt =====
-- The rules of the loops over the listeners in src/connio.c, told without the loops.
pub mod Followed
use connio.Prelude.{
  ℕ, suc, ◌≡◌, refl, ◌⊎◌, inl, inr, Bool, true, false, ◌&&◌, ◌||◌, Option, none, some, List, [],
  ◌∷◌, arith, NotIn,
}
use connio.Listener.{Listeners, ListenerState, Request, meets, shutdown, suspend, resume}

pub data Loop : Type 0 where
  stops suspends resumes expires : Loop

pub data Flag : Type 0 where
  f_fresh f_active f_failed f_stopped f_suspended f_expired f_independent : Flag

abbrev pub has : Flag → ListenerState → Bool
has f_fresh s = s.fresh
has f_active s = s.active
has f_failed s = s.failed
has f_stopped s = s.stopped
has f_suspended s = s.suspended
has f_expired s = s.expired
has f_independent s = s.independent

-- The bit that two states have in common.
abbrev pub Shares : ListenerState → ListenerState → Type 0
Shares s w = (f : Flag) × (has f s ≡ true) × (has f w ≡ true)

-- A call is for the listener that it names, or else for all that are not independent.
pub data IsMeant (listener : Option ℕ) (p : ℕ) (s : ListenerState) : Type 0 where
  named : listener ≡ some p → IsMeant listener p s
  unnamed : listener ≡ none → s.independent ≡ false → IsMeant listener p s

-- What a loop makes of the state of the listener `p`, and whether it counts it.
pub data Turns (which : Option ListenerState) (listener : Option ℕ) (p : ℕ)
    : Loop → ListenerState → ListenerState → Bool → Type 0 where
  stopping :
      (s : ListenerState)
      → IsMeant listener p s
      → (which ≡ none) ⊎ ((w : ListenerState) × (which ≡ some w) × Shares s w)
      → Turns which listener p stops s
          (record {
            fresh = false;
            active = false;
            failed = false;
            stopped = true;
            suspended = false;
            expired = false;
            independent = s.independent;
          })
          true
  suspending :
      (s : ListenerState)
      → IsMeant listener p s
      → s.active ≡ true
      → Turns which listener p suspends s
          (record {
            fresh = false;
            active = false;
            failed = false;
            stopped = false;
            suspended = true;
            expired = false;
            independent = s.independent;
          })
          true
  resuming :
      (s : ListenerState)
      → IsMeant listener p s
      → s.suspended ≡ true
      → Turns which listener p resumes s
          (record {
            fresh = false;
            active = true;
            failed = false;
            stopped = false;
            suspended = false;
            expired = false;
            independent = s.independent;
          })
          true
  expiring :
      (s : ListenerState)
      → IsMeant listener p s
      → s.expired ≡ false
      → Turns which listener p expires s (record s { expired = true }) true
  not_meant :
      (l : Loop) (s : ListenerState)
      → (IsMeant listener p s → ⊥)
      → Turns which listener p l s s false
  not_wanted :
      (s w : ListenerState)
      → which ≡ some w
      → (Shares s w → ⊥)
      → Turns which listener p stops s s false
  not_active : (s : ListenerState) → s.active ≡ false → Turns which listener p suspends s s false
  not_suspended :
      (s : ListenerState) → s.suspended ≡ false → Turns which listener p resumes s s false
  was_expired : (s : ListenerState) → s.expired ≡ true → Turns which listener p expires s s false

-- What a loop asks of the connection of a listener that it counts, if it has one.
abbrev pub asks_of : Loop → Option ℕ → List Request → List Request
asks_of l none rs = rs
asks_of stops (some c) rs = shutdown c ∷ rs
asks_of suspends (some c) rs = suspend c ∷ rs
asks_of resumes (some c) rs = resume c ∷ rs
asks_of expires (some c) rs = rs

-- The walk of a loop along a list: the count and what is asked, before and afterwards.
pub data Walks (which : Option ListenerState) (listener : Option ℕ) (l : Loop) (t d : Listeners)
    : List ℕ → ℕ → List Request → List Request → Type 0 where
  at_end : (rs : List Request) → Walks which listener l t d [] 0 rs rs
  counts :
      (p : ℕ) (ps : List ℕ) (n : ℕ) (rs rs' : List Request)
      → Turns which listener p l (t.state p) (d.state p) true
      → Walks which listener l t d ps n (asks_of l (t.conn p) rs) rs'
      → Walks which listener l t d (p ∷ ps) (suc n) rs rs'
  skips :
      (p : ℕ) (ps : List ℕ) (n : ℕ) (rs rs' : List Request)
      → Turns which listener p l (t.state p) (d.state p) false
      → Walks which listener l t d ps n rs rs'
      → Walks which listener l t d (p ∷ ps) n rs rs'

pub record Follows (which : Option ListenerState) (listener : Option ℕ) (l : Loop) (t : Listeners)
    (ps : List ℕ) (n : ℕ) (d : Listeners) : Type 0 where
  pub walks : Walks which listener l t d ps n t.asked d.asked
  pub links : d.links ≡ t.links
  pub ends : d.ends ≡ t.ends
  pub outside : (q : ℕ) → NotIn q ps → d.state q ≡ t.state q

or-cases : (a b : Bool) → (a || b) ≡ true → (a ≡ true) ⊎ (b ≡ true)
or-cases true b e = inl refl
or-cases false b e = inr e

and-both : (a b : Bool) → (a && b) ≡ true → (a ≡ true) × (b ≡ true)
and-both a b e = (ground (arith, e), ground (arith, e))

shared : (f : Flag) (s w : ListenerState) → (has f s && has f w) ≡ true → Shares s w
shared f s w e = let (a, b) = and-both (has f s) (has f w) e in (f, a, b)

pub meets-Shares : (s w : ListenerState) → meets s w ≡ true → Shares s w
meets-Shares s w e = elim (or-cases _ _ e) [
  | inl h ↦ shared f_fresh s w h
  | inr e ↦ elim (or-cases _ _ e) [
    | inl h ↦ shared f_active s w h
    | inr e ↦ elim (or-cases _ _ e) [
      | inl h ↦ shared f_failed s w h
      | inr e ↦ elim (or-cases _ _ e) [
        | inl h ↦ shared f_stopped s w h
        | inr e ↦ elim (or-cases _ _ e) [
          | inl h ↦ shared f_suspended s w h
          | inr e ↦ elim (or-cases _ _ e) [
            | inl h ↦ shared f_expired s w h
            | inr h ↦ shared f_independent s w h
          ]
        ]
      ]
    ]
  ]
]

pub Shares-meets : (s w : ListenerState) → meets s w ≡ false → Shares s w → ⊥
Shares-meets s w e (f_fresh, a, b) = ground (arith, e, a, b)
Shares-meets s w e (f_active, a, b) = ground (arith, e, a, b)
Shares-meets s w e (f_failed, a, b) = ground (arith, e, a, b)
Shares-meets s w e (f_stopped, a, b) = ground (arith, e, a, b)
Shares-meets s w e (f_suspended, a, b) = ground (arith, e, a, b)
Shares-meets s w e (f_expired, a, b) = ground (arith, e, a, b)
Shares-meets s w e (f_independent, a, b) = ground (arith, e, a, b)
