-- ===== src/Reading/Eat.antt =====
-- ConnEatCountEx of src/connio.c.
use connio.Prelude.{
  if_true, ℕ, suc, ◌≡◌, refl, ap, ◌∙◌, pos, true, false, none, some, List, [], ◌∷◌, leb, arith,
  length,
}
use connio.Conn.{Conn, read_count, idle, synchronous, queued, complete}
use connio.Sync.{synchronous_receive_event_insert, synchronous_receive_event_remove}
use connio.IoBuffer.{IoBuffers, IsLawful}
use connio.Process.Event.{Event, ◌>>=◌}
use connio.Process.Read.{
  mark_free_if, move_final_conditional_data_to_client, event_condition_satisfied, satisfy_event,
  Arrival, ended, asking, go_on, fill, conditional_read_process,
}
use connio.Process.Inside.{move_final-delete}
use connio.Process.Step.{Pass, socket_event_process, resume_read, conditional_read, read_result}
use connio.Process.Dispatch.{
  Job, Attempt, mode_synchronous, event_process, conn_event_process, after_pass, event_loop,
  socket_event_complete, settle, conn_event_free_resources, final_errno,
}
use connio.Process.Dispatch.Outcome.{event_process-loop, event_loop-pass}
use connio.Reading.{
  request, delete_only, Caller, Reply, read_job, perform, conn_read_to_condition, inserted, refusal,
  checked, is_pos, pattern_fits,
}
use connio.Reading.Calls.{conn_eat_count_ex}

-- The connection when it is idle, with no event in progress, no data to send and its handle in use.
abbrev pub alone : Conn → Conn
alone c = record c {
  state = idle;
  active = record { connect = none; send = none; receive = none };
  send_buffer = none;
  handle = record c.handle { shutting_down = false };
}

-- The connection when the event at `p` has the receive slot of it.
abbrev with_slot : Conn → ℕ → Conn
with_slot c p = record (alone c) {
  state = synchronous;
  active = record { connect = none; send = none; receive = some p };
}

removed_idle :
    (c : Conn) (p : ℕ) → (synchronous_receive_event_remove (with_slot c p) p false).1.state ≡ idle
unfolding synchronous_receive_event_remove
removed_idle c p = ground arith

module _ (B : IoBuffers) where
  -- The event of ConnEatCountEx.
  eaten : Caller B → Event B
  unfolding read_job
  eaten k = (read_job B k (request read_count [] 0 mode_synchronous delete_only)).event

  eat : Event B → Event B
  unfolding mark_free_if
  eat ce = mark_free_if B true ce 0

  satisfied : (k : Caller B) → satisfy_event B (eaten k) ≡ some (0, eat (eaten k))
  unfolding satisfy_event event_condition_satisfied eat eaten
  satisfied k =
      let ce = eaten k in
      let buff = B.get_used k.receive in
      let e : leb 0 (length buff) ≡ true = ground arith in
      if_true _ _ e
      ∙ ap (λ n. move_final_conditional_data_to_client B ce buff n 0) (if_true 0 (length buff) e)
      ∙ move_final-delete B ce buff 0 0 refl refl

  read_done :
      (k : Caller B) (answers : List (ℕ → Arrival B))
      → conditional_read_process B answers (eaten k) ≡ some (ended 0 (eat (eaten k)))
  unfolding conditional_read_process go_on
  read_done k [] = ap (λ o. o >>= go_on B (λ d. some (asking d))) (satisfied k)
  read_done k (answer ∷ answers) =
      ap
        (λ o.
          o
          >>= go_on B (λ d.
            fill B (λ e. conditional_read_process B answers e) d (answer (B.get_free d.io))))
        (satisfied k)

  passed :
      (k : Caller B) (t : Pass B)
      → socket_event_process B t queued (eaten k) ≡ some (0, eat (eaten k))
  unfolding socket_event_process resume_read conditional_read eaten
  passed k t = ap (λ o. elim o [ none ↦ none | some r ↦ read_result B r ]) (read_done k t.arrivals)

  eating : Caller B → Job B
  unfolding read_job
  eating k = read_job B k (request read_count [] 0 mode_synchronous delete_only)

  processed :
      (k : Caller B) (a : Attempt B) (more : List (Attempt B))
      → event_process B false (a ∷ more) (eating k)
        ≡ after_pass B
            (event_loop B false more)
            false
            a.waited
            0
            (record (eating k) { event = eat (eaten k) })
  unfolding eating eaten
  processed k a more =
      event_process-loop B false (a ∷ more) (eating k) refl
      ∙ event_loop-pass B false a more (eating k) 0 (eat (eaten k)) (passed k a.turn)

  completed :
      (k : Caller B) (a : Attempt B) (more : List (Attempt B))
      → (j : Job B) × (conn_event_process B false (a ∷ more) 0 (eating k) ≡ some (complete, 0, j))
        × (j.error ≡ 0)
        × (j.event ≡ eat (eaten k))
  unfolding conn_event_process after_pass settle conn_event_free_resources final_errno eating eaten
      socket_event_complete eat
  completed k a more = (
    record (eating k) { event = eat (eaten k); status = complete },
    ap
        (λ o. elim o [
          | none ↦ none
          | some (status, d) ↦ let (e, c) = settle B 0 status d in some (status, e, c)
        ])
        (processed k a more),
    refl,
    refl,
  )

  performed :
      (k : Caller B) (c : Conn) (a : Attempt B) (more : List (Attempt B))
      → k.reads ≡ a ∷ more
      → (r : Reply B) × (perform B k (eating k) (with_slot c k.event) false ≡ some r)
        × (r.errno ≡ 0)
        × (r.transferred ≡ 0)
        × (r.conn.state ≡ idle)
        × (r.read_event ≡ some (eat (eaten k)))
  unfolding perform eating eat eaten
  performed k c a more e =
      let (j, q, z, ev) = completed k a more in
      let d = synchronous_receive_event_remove (with_slot c k.event) k.event false in
      (
        record {
          errno = j.error;
          transferred = j.event.transferred;
          conn = d.1;
          read_event = some j.event;
        },
        ap
            (λ o. elim o [
              | none ↦ none
              | some (status, e, j) ↦ some (record {
                errno = j.error;
                transferred = j.event.transferred;
                conn = d.1;
                read_event = some j.event;
              })
            ])
            (ap (λ tries. conn_event_process B false tries 0 (eating k)) e ∙ q),
        z,
        ap (λ v. v.transferred) ev,
        removed_idle c k.event,
        ap some ev,
      )

  -- On an idle connection without data to send, whose handle is in use, ConnEatCountEx called with a
  -- positive count returns 0 without an error. Nothing was received, and no octet is dropped: the
  -- receive buffer has the contents that it had before.
  pub conn_eat_count_ex-drops_nothing :
      (L : IsLawful B) (k : Caller B) (n : ℕ) (a : Attempt B) (more : List (Attempt B))
      → k.reads ≡ a ∷ more
      → (r : Reply B) × (d : Event B) × (conn_read_to_condition B
            (record k { conn = alone k.conn })
            (conn_eat_count_ex (pos (suc n)))
          ≡ some r)
        × (r.errno ≡ 0)
        × (r.transferred ≡ 0)
        × (r.conn.state ≡ idle)
        × (r.read_event ≡ some d)
        × (d.received ≡ [])
        × (B.contents d.io ≡ B.contents k.receive)
  unfolding eating conn_read_to_condition conn_eat_count_ex refusal inserted checked is_pos
      pattern_fits synchronous_receive_event_insert eat eaten mark_free_if
  conn_eat_count_ex-drops_nothing L k n a more e =
      let m = record k { conn = alone k.conn } in
      let (r, q, z, t, s, ev) = performed m k.conn a more e in
      (r, eat (eaten m), q, z, t, s, ev, refl, L.contents-mark_free k.receive 0 (omega arith))
