-- ===== src/SockEvent/Accept.antt =====
-- The cache of accept events of the engine: acceptEventPop, acceptEventAlloc, acceptEventRelease,
-- AECInit and AECShutdown of src/sockcommon.c, AECRefill, AECFlush and acceptEventAcquire of
-- src/sockunix.c. An accept event is an address; the safe list, linked and locked in the source, is
-- the list of its members. What AEMalloc gives is an argument. ACCEPT_EVENT_FAST_CACHE_SIZE is 5.
pub mod Full
use connio.Prelude.{ℕ, zero, suc, ◌+◌, Option, none, some, List, [], ◌∷◌, ◌++◌}
use connio.Dll.{update}

pub record AcceptEventCache : Type 0 where
  pub safe_list : List ℕ
  pub fast_list : ℕ → Option ℕ
  pub next : ℕ

unfoldable pub aec_init : AcceptEventCache
aec_init = record { safe_list = []; fast_list = λ i. none; next = 5 }

popped : List ℕ → AcceptEventCache → Option ℕ × AcceptEventCache
popped [] c = (none, c)
popped (p ∷ ps) c = (some p, record c { safe_list = ps })

unfoldable pub accept_event_pop : AcceptEventCache → Option ℕ × AcceptEventCache
unfolding popped
accept_event_pop c = popped c.safe_list c

allocated : Option ℕ → Option ℕ × AcceptEventCache → Option ℕ × AcceptEventCache
allocated malloc (none, c) = (malloc, c)
allocated malloc (some p, c) = (some p, c)

unfoldable pub accept_event_alloc : Option ℕ → AcceptEventCache → Option ℕ × AcceptEventCache
unfolding accept_event_pop allocated
accept_event_alloc malloc c = allocated malloc (accept_event_pop c)

unfoldable pub accept_event_release : ℕ → AcceptEventCache → AcceptEventCache
accept_event_release p c = record c { safe_list = c.safe_list ++ p ∷ [] }

-- The two loops of AECRefill, `n` being what `next` is when a round begins. The lists are the events
-- of the safe list and those that AEMalloc gives before it fails.
unfoldable pub filled_slot : ℕ → ℕ → AcceptEventCache → AcceptEventCache
filled_slot n p c = record c { fast_list = update c.fast_list n (some p); next = n }

unfoldable pub empty_slot : ℕ → AcceptEventCache → AcceptEventCache
empty_slot n c = record c { fast_list = update c.fast_list n none; next = suc n }

pub refill_popped : ℕ → List ℕ → AcceptEventCache → AcceptEventCache
unfolding filled_slot empty_slot
refill_popped zero ps c = record c { safe_list = ps }
refill_popped (suc n) [] c = empty_slot n (record c { safe_list = [] })
refill_popped (suc n) (p ∷ ps) c = refill_popped n ps (filled_slot n p c)

pub refill_new : ℕ → List ℕ → AcceptEventCache → AcceptEventCache
unfolding filled_slot empty_slot
refill_new zero ps c = c
refill_new (suc n) [] c = empty_slot n c
refill_new (suc n) (p ∷ ps) c = refill_new n ps (filled_slot n p c)

unfoldable pub aec_refill : List ℕ → AcceptEventCache → AcceptEventCache
unfolding refill_popped refill_new
aec_refill malloced c =
    let c1 = refill_popped c.next c.safe_list c in refill_new c1.next malloced c1

-- A round of AECFlush.
abbrev pub flush_round : ℕ → AcceptEventCache → AcceptEventCache
flush_round p c = record (accept_event_release p c) {
  fast_list = update c.fast_list c.next none;
  next = c.next + 1;
}

-- With fuel: `none` when it runs out.
pub flush_from : ℕ → Option ℕ → AcceptEventCache → Option AcceptEventCache
flush_from n none c = some c
flush_from zero (some p) c = none
flush_from (suc n) (some p) c =
    flush_from n ((flush_round p c).fast_list (flush_round p c).next) (flush_round p c)

unfoldable pub aec_flush : ℕ → AcceptEventCache → Option AcceptEventCache
unfolding flush_from
aec_flush fuel c = flush_from fuel (c.fast_list c.next) c

acquired : Option ℕ → Option ℕ → AcceptEventCache → Option ℕ × AcceptEventCache
unfolding accept_event_alloc
acquired none malloc c = accept_event_alloc malloc c
acquired (some p) malloc c =
    (some p, record c { fast_list = update c.fast_list c.next none; next = c.next + 1 })

unfoldable pub accept_event_acquire : Option ℕ → AcceptEventCache → Option ℕ × AcceptEventCache
unfolding acquired
accept_event_acquire malloc c = acquired (c.fast_list c.next) malloc c

-- AECShutdown: the events that are freed, and the list behind.
pub shut_down_list : List ℕ → List ℕ × List ℕ
shut_down_list [] = ([], [])
shut_down_list (p ∷ ps) = let (freed, left) = shut_down_list ps in (p ∷ freed, left)
