-- ===== src/SockEvent/Timers.antt =====
-- The lists of timeouts of src/sockunix.c: _SocketTimeoutAdd, _SocketTimeoutDelete and the sweep of
-- _PollThread. A list is a number, below 64 for the poll thread for reading and 64 more for the other;
-- an event is an address. `timeoutPrev` and `timeoutNext` are the links.
pub mod Due
pub mod Lists
use connio.Prelude.{
  ℕ, zero, suc, ◌+◌, ◌/◌, ◌%◌, Bool, true, false, Option, none, some, List, [], ◌∷◌, ◌==◌,
  if◌then◌else◌,
}
use connio.Dll.{Links, update, set_next, set_previous, remove}

-- `heads` are the heads of the lists, `list_of` is event->timeoutList.
pub record TimerLists : Type 0 where
  pub heads : ℕ → Option ℕ
  pub list_of : ℕ → Option ℕ
  pub links : Links

-- TIMEOUT_INDEX, with a granularity of 32 seconds and 64 lists.
unfoldable pub timeout_index : ℕ → ℕ
timeout_index t = (t / 32) % 64

pub link_head : Option ℕ → Links → ℕ → Links
link_head none l p = set_next l p none
link_head (some h) l p = set_previous (set_next l p (some h)) h (some p)

unfoldable pub push : ℕ → ℕ → TimerLists → TimerLists
unfolding link_head
push i p t = record {
  heads = update t.heads i (some p);
  list_of = update t.list_of p (some i);
  links = link_head (t.heads i) t.links p;
}

-- The time is `now`, the timeout in milliseconds. `first` is the number of the first list of the poll
-- thread.
unfoldable pub add_timeout : ℕ → ℕ → ℕ → ℕ → TimerLists → TimerLists
unfolding timeout_index push
add_timeout first now ms p t = elim (t.list_of p) [
  | some i ↦ t
  | none ↦ push (first + timeout_index (now + ms / 1000 + 31)) p t
]

-- The links of an event are taken out as in the other lists of the library; the lists of timeouts
-- keep no tail here.
pub unlink_timeout : ℕ → ℕ → TimerLists → TimerLists
unfolding remove
unlink_timeout i p t =
    let (e, l) = remove (record { head = t.heads i; tail = none }) t.links p in
    record { heads = update t.heads i e.head; list_of = update t.list_of p none; links = l }

unfoldable pub delete_timeout : ℕ → TimerLists → TimerLists
unfolding unlink_timeout
delete_timeout p t = elim (t.list_of p) [ none ↦ t | some i ↦ unlink_timeout i p t ]

abbrev pub loose : ℕ → TimerLists → TimerLists
loose p t = record t {
  list_of = update t.list_of p none;
  links = set_next (set_previous t.links p none) p none;
}

pub prepend : ℕ → Option (List ℕ × TimerLists) → Option (List ℕ × TimerLists)
prepend p none = none
prepend p (some (ps, t)) = some (p ∷ ps, t)

-- The first loop over the events behind `o`, with fuel: the events, which `async.next` links then, and
-- the timers behind them.
pub detach : ℕ → Option ℕ → TimerLists → Option (List ℕ × TimerLists)
unfolding prepend
detach n none t = some ([], t)
detach zero (some p) t = none
detach (suc n) (some p) t = prepend p (detach n (t.links.next p) (loose p t))

-- The list `i` is emptied.
unfoldable pub sweep : ℕ → ℕ → TimerLists → Option (List ℕ × TimerLists)
unfolding detach
sweep fuel i t = detach fuel (t.heads i) (record t { heads = update t.heads i none })

-- The rounds of the poll thread, each with what time() says: the time at which the list `i` is swept
-- first. `current` is pollInfo->timeoutIndex; the list of a new index is swept, and no other.
unfoldable pub first_sweep : ℕ → ℕ → List ℕ → Option ℕ
unfolding timeout_index
first_sweep i current [] = none
first_sweep i current (now ∷ later) =
    let index = timeout_index now in
    let same = first_sweep i current later in
    let other = first_sweep i index later in
    if index == current then same else if index == i then some now else other
