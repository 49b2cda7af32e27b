-- ===== src/Reading/Report.antt =====
-- What ConnAReadToCondition of src/connio.c does with a refused call.
use connio.Prelude.{ℕ, ◌≡◌, refl, sym, ap, subst, ◌∙◌, true, Option, none, some, List}
use connio.Conn.{Conn, CodeSource, asynchronous_client, idle, failed, class_receive}
use connio.EventQueue.FreeList.{Owns}
use connio.Transaction.{event_queue_abort}
use connio.Enqueue.{
  become_client, queueing_permitted, event_enqueue_failure, prepare_for_callback,
  callback_async_consumer, failure,
}
use connio.Enqueue.Report.{abort-report}
use connio.Reading.{start_async, Request, refusal, conn_a_read_to_condition}

client_fails :
    (c : Conn) (e : ℕ) (source : CodeSource)
    → c.state ≡ asynchronous_client
    → event_enqueue_failure c e source ≡ event_queue_abort c none failed e source
unfolding event_enqueue_failure queueing_permitted become_client
client_fails c e source s =
    subst
      (λ t.
        event_enqueue_failure (record c { state = t }) e source
        ≡ event_queue_abort (record c { state = t }) none failed e source)
      (sym s) refl

refused_call :
    (c : Conn) (e : ℕ) (alloc flush_alloc ssl_alloc : Option ℕ) (source : CodeSource)
    (q : ℕ × Request)
    → refusal c q ≡ some e
    → conn_a_read_to_condition c true alloc flush_alloc ssl_alloc source q
      ≡ (none, event_enqueue_failure c e source)
unfolding conn_a_read_to_condition
refused_call c e alloc flush_alloc ssl_alloc source q r =
    ap
      (λ o. elim o [
        | some e ↦ (none, event_enqueue_failure c e source)
        | none ↦ start_async c alloc flush_alloc ssl_alloc source q.1.type class_receive
      ])
      r

-- While a transaction without a problem is put together, a call whose arguments are refused, or one
-- that finds the handle shutting down, queues nothing, and the refusal is the problem that the failure
-- callback is told of: with that error, at the place of the call. The connection is then idle.
pub conn_a_read_to_condition-failure :
    (c : Conn) (ps fs : List ℕ) (e : ℕ) (alloc flush_alloc ssl_alloc : Option ℕ)
    (source : CodeSource) (q : ℕ × Request)
    → refusal c q ≡ some e
    → c.state ≡ asynchronous_client
    → Owns c ps fs
    → c.tx.problem ≡ none
    → let (o, d) = conn_a_read_to_condition c true alloc flush_alloc ssl_alloc source q in
      let (summary, freed, f) = prepare_for_callback d in
      (o ≡ none)
      × (summary.status ≡ failed)
      × (summary.problem ≡ some (e, source))
      × (callback_async_consumer summary true ≡ failure)
      × (f.state ≡ idle)
conn_a_read_to_condition-failure c ps fs e alloc flush_alloc ssl_alloc source q r s h fine =
    let (status, problem, freed, _, state, tx, calls, _) =
      abort-report c ps fs none failed e source h fine (λ e. cc) (λ e. cc) in
    subst
      (λ p.
        let (o, d) = p in
        let (summary, freed, f) = prepare_for_callback d in
        (o ≡ none)
        × (summary.status ≡ failed)
        × (summary.problem ≡ some (e, source))
        × (callback_async_consumer summary true ≡ failure)
        × (f.state ≡ idle))
      (sym (
        refused_call c e alloc flush_alloc ssl_alloc source q r
        ∙ ap (λ d. (none, d)) (client_fails c e source s)))
      (refl, status, problem, calls, state)
