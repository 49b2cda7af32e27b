-- ===== src/ThreadEngine.antt =====
-- The list of the thread engines: src/threadengine.c. An engine is an address, `next` its link. What
-- the counter of an engine answers is a function of it. The loops follow the links, with fuel.
pub mod Registered
use connio.Prelude.{
  ℕ, zero, suc, ◌+◌, ◌%◌, ◌^◌, Bool, true, false, Option, none, some, List, [], ◌∷◌, ◌==◌,
  if◌then◌else◌,
}
use connio.Dll.{update}

-- ATHREAD and AThreadLibInitialized.
pub record AThreadGlobals : Type 0 where
  pub initialized : Bool
  pub list : Option ℕ
  pub count : ℕ
  pub next : ℕ → Option ℕ

unfoldable pub a_thread_lib_init : AThreadGlobals → AThreadGlobals
a_thread_lib_init g = record g { initialized = true; list = none; count = 0 }

-- The engine is what MemMalloc gives.
unfoldable pub a_thread_engine_create : Option ℕ → AThreadGlobals → Option ℕ × AThreadGlobals
unfolding a_thread_lib_init
a_thread_engine_create memory g =
    let g1 = if g.initialized then g else a_thread_lib_init g in
    elim memory [
      | none ↦ (none, g1)
      | some p ↦ (some p, record g1 { next = update g1.next p g1.list; list = some p })
    ]

-- `if( last ) last->next = current->next; else ATHREAD.list = current->next;`
pub skip_engine : Option ℕ → Option ℕ → AThreadGlobals → AThreadGlobals
skip_engine (some l) v g = record g { next = update g.next l v }
skip_engine none v g = record g { list = v }

pub unlink_engine : ℕ → ℕ → Option ℕ → Option ℕ → AThreadGlobals → Option AThreadGlobals
unfolding skip_engine
unlink_engine n p last none g = some g
unlink_engine zero p last (some c) g = none
unlink_engine (suc n) p last (some c) g =
    let rest = unlink_engine n p (some c) (g.next c) g in
    if c == p then some (skip_engine last (g.next c) g) else rest

unfoldable pub a_thread_engine_destroy : ℕ → ℕ → AThreadGlobals → Option AThreadGlobals
unfolding unlink_engine
a_thread_engine_destroy fuel p g = unlink_engine fuel p none g.list g

-- The count is an unsigned long of 64 bits.
pub sum_counts : ℕ → (ℕ → ℕ) → Option ℕ → AThreadGlobals → ℕ → Option ℕ
sum_counts n counts none g acc = some acc
sum_counts zero counts (some c) g acc = none
sum_counts (suc n) counts (some c) g acc =
    sum_counts n counts (g.next c) g ((acc + counts c) % 2 ^ 64)

pub counted_to : AThreadGlobals → Option ℕ → Option (ℕ × AThreadGlobals)
counted_to g none = none
counted_to g (some total) = some (total, record g { count = total })

unfoldable pub a_thread_count_update : ℕ → (ℕ → ℕ) → AThreadGlobals → Option (ℕ × AThreadGlobals)
unfolding sum_counts counted_to
a_thread_count_update fuel counts g =
    if g.initialized then counted_to g (sum_counts fuel counts g.list g 0) else some (0, g)

unfoldable pub a_thread_count_read : AThreadGlobals → ℕ
a_thread_count_read g = if g.initialized then g.count else 0
