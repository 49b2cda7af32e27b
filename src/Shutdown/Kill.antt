-- ===== src/Shutdown/Kill.antt =====
-- What connKillEx of src/connio.c does to a connection in each state.
use connio.Prelude.{ℕ, ◌≡◌, refl, ◌⊎◌, inl, inr, true, false, none, some, List, [], arith}
use connio.Errno.{ecanceled}
use connio.Conn.{
  Conn, ConnState, CodeSource, killed, asynchronous_client, asynchronous_engine,
  asynchronous_engine_complete, idle, synchronous,
}
use connio.EventQueue.FreeList.{Owns}
use connio.Transaction.{event_queue_abort}
use connio.Transaction.Abort.{event_queue_abort_lem, freed_onto}
use connio.Enqueue.{prepare_for_callback}
use connio.Enqueue.Report.{abort-report}
use connio.Shutdown.{conn_kill_ex, socket_close}

abbrev pub IsAsync : ConnState → Type 0
IsAsync s =
    (s ≡ asynchronous_client) ⊎ (s ≡ asynchronous_engine) ⊎ (s ≡ asynchronous_engine_complete)

kill-aborts :
    (c : Conn) (source : CodeSource)
    → IsAsync c.state
    → conn_kill_ex c source ≡ (true, event_queue_abort c none killed ecanceled source)
unfolding conn_kill_ex
kill-aborts c source (inl e) = rw e
kill-aborts c source (inr (inl e)) = rw e
kill-aborts c source (inr (inr e)) = rw e

-- A kill of a connection in one of the asynchronous client or engine states, whose transaction has
-- no problem yet, succeeds: nothing stays queued, the queued events go to the list of events to
-- free, the state stays, and the summary for the consumer says KILLED with ECANCELED.
pub conn_kill_ex-async :
    (c : Conn) (ps fs : List ℕ) (source : CodeSource)
    → Owns c ps fs
    → IsAsync c.state
    → c.tx.problem ≡ none
    → let (result, d) = conn_kill_ex c source in
      (result ≡ true)
      × Owns d [] (freed_onto ps fs)
      × ((prepare_for_callback d).0.status ≡ killed)
      × ((prepare_for_callback d).0.problem ≡ some (ecanceled, source))
      × (d.state ≡ c.state)
conn_kill_ex-async c ps fs source h s fine =
    let (owns, _, _, same, _) = event_queue_abort_lem c ps fs none killed ecanceled source h fine in
    let (status, problem, _, _, _, _, _, _) =
      abort-report c ps fs none killed ecanceled source h fine (λ e. cc) (λ e. cc) in
    rw (kill-aborts c source s) (refl, owns, status, problem, same)

-- A kill of a connection in no such state either finds it idle or in synchronous use and succeeds,
-- having closed the socket and changed nothing else, or fails and changes nothing.
pub conn_kill_ex-other :
    (c : Conn) (source : CodeSource)
    → let (result, d) = conn_kill_ex c source in
      IsAsync c.state
      ⊎ (((c.state ≡ idle) ⊎ (c.state ≡ synchronous))
          × (result ≡ true)
          × (d ≡ record c { sp = record c.sp { valid = false } }))
      ⊎ ((result ≡ false) × (d ≡ c))
unfolding conn_kill_ex socket_close
conn_kill_ex-other c source = ground arith
