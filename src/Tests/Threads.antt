-- ===== src/Tests/Threads.antt =====
-- Tests of the list of thread engines of src/threadengine.c.
use connio.Prelude.{◌≡◌, refl, true, none, some, [], ◌∷◌, ◌==◌, if◌then◌else◌, arith}
use connio.ThreadEngine.{AThreadGlobals, a_thread_engine_destroy}
use connio.ThreadEngine.Registered.{IsRegistered, destroy-IsRegistered}

abbrev three_engines : AThreadGlobals
three_engines = record {
  initialized = true;
  list = some 1;
  count = 0;
  next = λ p. if p == 1 then some 2 else if p == 2 then some 3 else none;
}

three_engines-IsRegistered : IsRegistered three_engines (1 ∷ 2 ∷ 3 ∷ [])
three_engines-IsRegistered = record {
  linked = (refl, (refl, (refl, refl)));
  distinct = ((omega arith, (omega arith, tt)), ((omega arith, tt), (tt, tt)));
}

destroy-IsRegistered_example :
    (g : AThreadGlobals) × (a_thread_engine_destroy 2 2 three_engines ≡ some g)
    × IsRegistered g (1 ∷ 3 ∷ [])
destroy-IsRegistered_example =
    destroy-IsRegistered 2 (1 ∷ []) 2 (3 ∷ []) three_engines three_engines-IsRegistered
      (omega arith)
