-- ===== src/Process/Dispatch/Outcome.antt =====
-- How a turn of EventProcess of src/process.c ends, and what the event has then.
use connio.Prelude.{
  if_true, if_false, ℕ, ◌≡◌, ◌≢◌, refl, sym, ap, subst, ◌∙◌, ◌⊎◌, inl, inr, Bool, true, false,
  Option, none, some, List, ◌∷◌, ◌++◌, ◌==◌, arith, Bool-cases,
}
use connio.Errno.{eagain, emsgsize, etimedout, ecanceled}
use connio.Conn.{ConnEventStatus, in_progress, partial, complete, timed_out, failed}
use connio.IoBuffer.{IoBuffers}
use connio.Process.Event.{Event}
use connio.Process.Step.{socket_event_process}
use connio.Process.Dispatch.{
  ConnEventMode, mode_synchronous, mode_non_blocking, mode_asynchronous, FinalCall, Job, Attempt,
  complete_calls, abort_calls, socket_event_complete, socket_event_abort, blocked, failure_status,
  fail, after_pass, event_loop, event_process,
}

-- The error of an event whose pass gave `err`, by the mode, the problem of the transaction and the
-- result of the wait.
pub data Cause (m : ConnEventMode) (problem : Bool) (waited err : ℕ) : ℕ → Type 0 where
  pass_failed : err ≢ 0 → err ≢ eagain → Cause m problem waited err err
  would_block : err ≡ eagain → m ≡ mode_non_blocking → Cause m problem waited err eagain
  wait_failed : err ≡ eagain → m ≡ mode_synchronous → waited ≢ 0 → Cause m problem waited err waited
  cancelled :
      err ≡ eagain → m ≡ mode_asynchronous → problem ≡ true → Cause m problem waited err ecanceled
  submit_failed :
      err ≡ eagain
      → m ≡ mode_asynchronous
      → problem ≡ false
      → waited ≢ 0
      → Cause m problem waited err waited

-- The status of an event that ends with the error `e`, by its flag CONN_READ_PARTIAL_OK.
pub data FailsAs (e : ℕ) (ok : Bool) : ConnEventStatus → Type 0 where
  fails_partly : e ≡ emsgsize → ok ≡ true → FailsAs e ok partial
  fails_late : e ≡ etimedout → FailsAs e ok timed_out
  fails : e ≢ etimedout → (e ≢ emsgsize) ⊎ (ok ≡ false) → FailsAs e ok failed

module _ (B : IoBuffers) where
  -- `k` is `j` after the call for its end has been made, with the error `e`.
  pub record EndsWith (j k : Job B) (e : ℕ) (made : List FinalCall) : Type 0 where
    pub error : k.error ≡ e
    pub event : k.event ≡ j.event
    pub calls : k.calls ≡ j.calls ++ made

  -- What becomes of `j` after a pass that gave `err`; `again` is what the next pass would give.
  pub data Turned (j : Job B) (problem : Bool) (waited err : ℕ)
      (again : Option (ConnEventStatus × Job B)) : Option (ConnEventStatus × Job B) → Type 0 where
    completes :
        (k : Job B)
        → err ≡ 0
        → EndsWith j k 0 (complete_calls j.event.type j.start)
        → Turned j problem waited err again (some (complete, k))
    aborts :
        (s : ConnEventStatus) (k : Job B) (e : ℕ)
        → Cause j.mode problem waited err e
        → FailsAs e j.event.data_mode.partial_ok s
        → EndsWith j k e (abort_calls j.event.type e j.start)
        → Turned j problem waited err again (some (s, k))
    waits :
        (k : Job B)
        → err ≡ eagain
        → j.mode ≡ mode_asynchronous
        → problem ≡ false
        → waited ≡ 0
        → k ≡ record j { status = in_progress }
        → Turned j problem waited err again (some (in_progress, k))
    retries :
        err ≡ eagain
        → j.mode ≡ mode_synchronous
        → waited ≡ 0
        → Turned j problem waited err again again

  failure-FailsAs : (j : Job B) → FailsAs j.error j.event.data_mode.partial_ok (failure_status B j)
  unfolding failure_status
  failure-FailsAs j = elim (Bool-cases (j.error == etimedout)) [
    | inl t ↦ subst Fails (sym (if_true _ _ t)) (fails_late (ground (arith, t)))
    | inr t ↦ elim (Bool-cases (j.error == emsgsize)) [
      | inl m ↦ elim (Bool-cases j.event.data_mode.partial_ok) [
        | inl p ↦
            subst Fails (sym (if_false _ _ t ∙ if_true _ _ m ∙ if_true _ _ p))
              (fails_partly (ground (arith, m)) p)
        | inr p ↦
            subst Fails (sym (if_false _ _ t ∙ if_true _ _ m ∙ if_false _ _ p))
              (fails (λ e. ground (arith, t, e)) (inr p))
      ]
      | inr m ↦
          subst Fails (sym (if_false _ _ t ∙ if_false _ _ m))
            (fails (λ e. ground (arith, t, e)) (inl (λ e. ground (arith, m, e))))
    ]
  ]
    where
      Fails : ConnEventStatus → Type 0
      Fails s = FailsAs j.error j.event.data_mode.partial_ok s

  -- An event `d` that fails is `j` with the error, and perhaps another status.
  fail-Turned :
      (problem : Bool) (waited err : ℕ) (again : Option (ConnEventStatus × Job B)) (j d : Job B)
      → d.event ≡ j.event
      → d.calls ≡ j.calls
      → d.start ≡ j.start
      → Cause j.mode problem waited err d.error
      → Turned j problem waited err again (fail B d)
  unfolding fail socket_event_abort
  fail-Turned problem waited err again j d ee ec es cause =
      aborts (failure_status B d) (socket_event_abort B d) d.error cause
        (subst (λ x. FailsAs d.error x.data_mode.partial_ok (failure_status B d)) ee
          (failure-FailsAs d))
        (record { error = refl; event = ee; calls = rw ec (rw es (rw ee refl)) })

  blocked-Turned :
      (m : ConnEventMode) (again : Option (ConnEventStatus × Job B)) (problem : Bool)
      (waited err : ℕ) (j : Job B)
      → j.mode ≡ m
      → err ≡ eagain
      → Turned j problem waited err again (blocked B m again problem waited j)
  unfolding blocked
  blocked-Turned mode_non_blocking again problem waited err j e b =
      fail-Turned problem waited err again j (record j { error = eagain }) refl refl refl
        (would_block b e)
  blocked-Turned mode_synchronous again problem waited err j e b = elim (Bool-cases (waited == 0)) [
    | inl w ↦
        subst (Turned j problem waited err again) (sym (if_true _ _ w))
          (retries b e (ground (arith, w)))
    | inr w ↦ subst (Turned j problem waited err again) (sym (if_false _ _ w)) (
        fail-Turned problem waited err again j (record j { error = waited }) refl refl refl
          (wait_failed b e (λ c. ground (arith, w, c))))
  ]
  blocked-Turned mode_asynchronous again problem waited err j e b = elim (Bool-cases problem) [
    | inl p ↦ subst (Turned j problem waited err again) (sym (if_true _ _ p)) (
        fail-Turned problem waited err again j (record j { error = ecanceled }) refl refl refl
          (cancelled b e p))
    | inr p ↦ elim (Bool-cases (waited == 0)) [
      | inl w ↦
          subst (Turned j problem waited err again) (sym (if_false _ _ p ∙ if_true _ _ w))
            (waits (record j { status = in_progress }) b e p (ground (arith, w)) refl)
      | inr w ↦ subst (Turned j problem waited err again) (sym (if_false _ _ p ∙ if_false _ _ w)) (
          fail-Turned problem waited err again j (record j { status = failed; error = waited }) refl
            refl refl (submit_failed b e p (λ c. ground (arith, w, c))))
    ]
  ]

  after_pass-Turned :
      (again : Job B → Option (ConnEventStatus × Job B)) (problem : Bool) (waited err : ℕ)
      (j : Job B)
      → j.error ≡ 0
      → Turned j problem waited err
          (again (record j { status = in_progress }))
          (after_pass B again problem waited err j)
  unfolding after_pass socket_event_complete
  after_pass-Turned again problem waited err j z =
      let next = again (record j { status = in_progress }) in
      elim (Bool-cases (err == 0)) [
        | inl e ↦ subst (Turned j problem waited err next) (sym (if_true _ _ e)) (
            completes (socket_event_complete B j) (ground (arith, e))
              (record { error = z; event = refl; calls = refl }))
        | inr e ↦ elim (Bool-cases (err == eagain)) [
          | inl b ↦
              subst (Turned j problem waited err next) (sym (if_false _ _ e ∙ if_true _ _ b))
                (blocked-Turned j.mode next problem waited err j refl (ground (arith, b)))
          | inr b ↦
              subst (Turned j problem waited err next) (sym (if_false _ _ e ∙ if_false _ _ b)) (
                fail-Turned problem waited err next j (record j { error = err }) refl refl refl
                  (pass_failed (λ c. ground (arith, e, c)) (λ c. ground (arith, b, c))))
        ]
      ]

  pub event_loop-pass :
      (problem : Bool) (a : Attempt B) (more : List (Attempt B)) (j : Job B) (err : ℕ)
      (ce : Event B)
      → socket_event_process B a.turn j.status j.event ≡ some (err, ce)
      → event_loop B problem (a ∷ more) j
        ≡ after_pass B (event_loop B problem more) problem a.waited err (record j { event = ce })
  unfolding event_loop
  event_loop-pass problem a more j err ce e =
      ap
        (λ o. elim o [
          | none ↦ none
          | some (err, ce) ↦
              after_pass B (event_loop B problem more) problem a.waited err
                (record j { event = ce })
        ])
        e

  pub event_process-loop :
      (problem : Bool) (attempts : List (Attempt B)) (j : Job B)
      → j.error ≡ 0
      → event_process B problem attempts j ≡ event_loop B problem attempts j
  unfolding event_process
  event_process-loop problem attempts j z =
      let e : (j.error == 0) ≡ true = ground (arith, z) in if_true _ _ e

  -- A pass over an event without an error that comes to a result `err` decides how the event goes on.
  -- With 0 it is complete, without an error, after the calls of socketEventComplete for its type.
  -- With EAGAIN a synchronous event waits, and goes on with the next pass, or fails with the error of
  -- the wait; an asynchronous one is cancelled if the transaction has a problem, is in progress if the
  -- socket engine takes it, or fails with the engine's error; any other event fails with EAGAIN. With
  -- any other result the event fails with that error. An event that fails has had the calls of
  -- socketEventAbort for its type and this error, and its status is partial for EMSGSIZE if a partial
  -- result is allowed, timed out for ETIMEDOUT, and failed for every other error.
  pub event_process-Turned :
      (problem : Bool) (a : Attempt B) (more : List (Attempt B)) (j : Job B) (err : ℕ)
      (ce : Event B)
      → j.error ≡ 0
      → socket_event_process B a.turn j.status j.event ≡ some (err, ce)
      → Turned
          (record j { event = ce })
          problem
          a.waited
          err
          (event_process B problem more (record j { event = ce; status = in_progress }))
          (event_process B problem (a ∷ more) j)
  event_process-Turned problem a more j err ce z e =
      let d = record j { event = ce } in
      let next = record j { event = ce; status = in_progress } in
      subst (λ o. Turned d problem a.waited err o (event_process B problem (a ∷ more) j))
        (sym (event_process-loop problem more next z))
        (subst (Turned d problem a.waited err (event_loop B problem more next))
          (sym
            (event_process-loop problem (a ∷ more) j z ∙ event_loop-pass problem a more j err ce e))
          (after_pass-Turned (event_loop B problem more) problem a.waited err d z))
