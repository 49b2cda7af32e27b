-- ===== src/Shutdown/Wait.antt =====
-- How long the two waits of src/connio.c last.
use connio.Prelude.{
  ℕ, suc, ◌+◌, ◌%◌, ◌<◌, ◌≤◌, ◌≡◌, ◌≢◌, ap, subst, ◌∙◌, ℤ, pos, int_sign, int_mod, List, [], ◌∷◌,
  ◌++◌, arith, All, length,
}
use connio.Shutdown.{
  InUse, count_children, exited, expired, children_loop, goes_on, translate_shutdown_timeout,
  conn_handle_wait_for_children_to_exit,
}

-- The poll finds a connection that a listed listener accepted.
abbrev pub Busy : List ℕ → List InUse → Type 0
Busy ids us = count_children ids us ≢ 0

loop-on :
    (ids : List ℕ) (t i : ℕ) (us : List InUse) (polls : List (List InUse))
    → Busy ids us
    → i < t
    → t < int_sign
    → children_loop ids (pos t) i (us ∷ polls) ≡ children_loop ids (pos t) (suc i) polls
unfolding children_loop goes_on
loop-on ids t i us polls b lt small =
    let e : (i + 1) % int_mod ≡ suc i = omega (arith, lt, small) in
    subst (λ k. children_loop ids (pos t) i (us ∷ polls) ≡ children_loop ids (pos t) k polls) e
      (ground (arith, b, lt))

loop-over :
    (ids : List ℕ) (t i : ℕ) (before polls : List (List InUse))
    → All (Busy ids) before
    → i + length before ≤ t
    → t < int_sign
    → children_loop ids (pos t) i (before ++ polls)
      ≡ children_loop ids (pos t) (i + length before) polls
loop-over ids t i [] polls b le small = ap (λ k. children_loop ids (pos t) k polls) (omega arith)
loop-over ids t i (us ∷ before) polls b le small =
    loop-on ids t i us (before ++ polls) b.0 (omega (arith, le)) small
    ∙ loop-over ids t (suc i) before polls b.1 (omega (arith, le)) small
    ∙ ap (λ k. children_loop ids (pos t) k polls) (omega arith)

loop-exits :
    (ids : List ℕ) (t i : ℕ) (us : List InUse) (later : List (List InUse))
    → count_children ids us ≡ 0
    → children_loop ids (pos t) i (us ∷ later) ≡ exited i
unfolding children_loop goes_on
loop-exits ids t i us later z = ground (arith, z)

loop-expires :
    (ids : List ℕ) (t i : ℕ) (us : List InUse) (later : List (List InUse))
    → i ≡ t
    → Busy ids us
    → children_loop ids (pos t) i (us ∷ later) ≡ expired t (count_children ids us)
unfolding children_loop goes_on
loop-expires ids t i us later last busy =
    subst (λ k. children_loop ids (pos t) i (us ∷ later) ≡ expired k (count_children ids us)) last
      (ground (arith, last, busy))

module _ (ids : List ℕ) (timeout : ℤ) (t : ℕ) (before : List (List InUse)) (us : List InUse)
    (later : List (List InUse)) (e : translate_shutdown_timeout timeout ≡ pos t)
    (small : t < int_sign) (busy : All (Busy ids) before) where
  reaches :
      length before ≤ t
      → conn_handle_wait_for_children_to_exit ids timeout (before ++ us ∷ later)
        ≡ children_loop ids (pos t) (length before) (us ∷ later)
  unfolding conn_handle_wait_for_children_to_exit
  reaches le =
      ap (λ s. children_loop ids s 0 (before ++ us ∷ later)) e
      ∙ loop-over ids t 0 before (us ∷ later) busy (omega (arith, le)) small
      ∙ ap (λ k. children_loop ids (pos t) k (us ∷ later)) (omega arith)

  -- With a timeout of `t` seconds, when the polls of the wait find connections of the listed
  -- listeners and then, after `t` seconds or less, one finds none, the wait succeeds and tells how
  -- long it took.
  pub wait_for_children-exited :
      length before ≤ t
      → count_children ids us ≡ 0
      → conn_handle_wait_for_children_to_exit ids timeout (before ++ us ∷ later)
        ≡ exited (length before)
  wait_for_children-exited le none_left =
      reaches le ∙ loop-exits ids t (length before) us later none_left

  -- With a timeout of `t` seconds, when every poll up to the one after `t` seconds finds connections
  -- of the listed listeners, the wait fails and tells how many are left.
  pub wait_for_children-expired :
      length before ≡ t
      → Busy ids us
      → conn_handle_wait_for_children_to_exit ids timeout (before ++ us ∷ later)
        ≡ expired t (count_children ids us)
  wait_for_children-expired last left =
      reaches (omega (arith, last)) ∙ loop-expires ids t (length before) us later last left
