-- ===== src/Tests/Reading.antt =====
-- Tests of the calls of src/connio.c that read into a client's memory.
use connio.Prelude.{ℕ, ◌≡◌, refl, pos, true, false, Option, none, some, List, [], ◌∷◌, length}
use connio.Errno.{einval, emsgsize}
use connio.Conn.{ConnState, idle, failed, asynchronous_client}
use connio.Enqueue.{prepare_for_callback, callback_async_consumer, failure}
use connio.IoBuffer.Memory.{memory, memory-IsLawful, find}
use connio.Process.Event.{Event}
use connio.Process.Read.{strcmp_equal}
use connio.Reading.{refusal, Caller, Reply, conn_read_to_condition, conn_a_read_to_condition}
use connio.Reading.Calls.{conn_read_line_ex, conn_read_count_ex, conn_eat_count_ex}
use connio.Reading.Async.{conn_a_read_ex}
use connio.Reading.Eat.{alone, conn_eat_count_ex-drops_nothing}
use connio.Reading.Report.{conn_a_read_to_condition-failure}
use connio.Process.Callback.{Taking, iocbr_continue}
use connio.Reading.Passing.{conn_read_to_cb_ex, conn_read_to_conn_ex, conn_flush_ex}
use connio.Tests.Events.{one_at_most}
use connio.Tests.Passes.{reads}
use connio.Tests.Sample.{sample, sample-Owns, empty_conn, here}

-- Two lines of which the second is not complete, on an idle connection.
abbrev caller : Caller memory
caller = record {
  conn = alone empty_conn;
  event = 5;
  receive = record { octets = 65 ∷ 66 ∷ 10 ∷ 67 ∷ []; free = 4 };
  send = record { octets = []; free = 0 };
  room = 6;
  flushes = [];
  reads = reads ∷ [];
}

abbrev outcome : Option (Reply memory) → Option (ℕ × ℕ × List ℕ × List ℕ)
outcome none = none
outcome (some r) = elim r.read_event [
  | none ↦ some (r.errno, r.transferred, [], [])
  | some e ↦ some (r.errno, r.transferred, e.client.written, e.io.octets)
]

read_line_test :
    outcome (conn_read_to_condition memory caller (conn_read_line_ex true (pos 6)))
    ≡ some (0, 3, 65 ∷ 66 ∷ 10 ∷ [], 67 ∷ [])
unfolding conn_read_to_condition conn_read_line_ex strcmp_equal find
read_line_test = refl

-- The line and its end need one octet more.
read_long_line_test :
    outcome (conn_read_to_condition memory caller (conn_read_line_ex true (pos 3)))
    ≡ some (emsgsize, 2, 65 ∷ 66 ∷ [], 10 ∷ 67 ∷ [])
unfolding conn_read_to_condition conn_read_line_ex strcmp_equal find
read_long_line_test = refl

read_count_test :
    outcome (conn_read_to_condition memory caller (conn_read_count_ex true (pos 6)))
    ≡ some (0, 6, 65 ∷ 66 ∷ 10 ∷ 67 ∷ 3 ∷ 4 ∷ [], 5 ∷ [])
unfolding conn_read_to_condition conn_read_count_ex
read_count_test = refl

refused_test :
    outcome (conn_read_to_condition memory caller (conn_read_count_ex true (pos 0)))
    ≡ some (einval, 0, [], [])
unfolding conn_read_to_condition conn_read_count_ex
refused_test = refl

conn_eat_count_ex-drops_nothing_example :
    (r : Reply memory) × (d : Event memory) × (conn_read_to_condition memory
        (record caller { conn = alone (alone empty_conn) })
        (conn_eat_count_ex (pos 2))
      ≡ some r)
    × (r.errno ≡ 0)
    × (r.transferred ≡ 0)
    × (r.conn.state ≡ idle)
    × (r.read_event ≡ some d)
    × (d.received ≡ [])
    × (d.io.octets ≡ 65 ∷ 66 ∷ 10 ∷ 67 ∷ [])
conn_eat_count_ex-drops_nothing_example =
    conn_eat_count_ex-drops_nothing memory memory-IsLawful caller 1 reads [] refl

refused_read : refusal sample (conn_a_read_ex false (pos 4)) ≡ some einval
unfolding refusal conn_a_read_ex
refused_read = refl

sample_client : sample.state ≡ asynchronous_client
unfolding sample
sample_client = refl

sample_fine : sample.tx.problem ≡ none
unfolding sample
sample_fine = refl

conn_a_read_to_condition-failure_example :
    let (o, d) =
      conn_a_read_to_condition sample true (some 9) none none here (conn_a_read_ex false (pos 4)) in
    let (summary, freed, f) = prepare_for_callback d in
    (o ≡ none)
    × (summary.status ≡ failed)
    × (summary.problem ≡ some (einval, here))
    × (callback_async_consumer summary true ≡ failure)
    × (f.state ≡ idle)
conn_a_read_to_condition-failure_example =
    conn_a_read_to_condition-failure sample (1 ∷ 2 ∷ 3 ∷ 4 ∷ []) [] einval (some 9) none none here
      (conn_a_read_ex false (pos 4)) refused_read sample_client sample-Owns sample_fine

abbrev result : Option (Reply memory) → Option (ℕ × ℕ)
result none = none
result (some r) = some (r.errno, r.transferred)

abbrev state_of : Option (Reply memory) → Option (ℕ × ConnState)
state_of none = none
state_of (some r) = some (r.errno, r.conn.state)

abbrev takes_all : List ℕ → Taking
takes_all bs = record { response = iocbr_continue; count = length bs }

-- A count of three for a callback that takes what it is offered.
read_to_cb_test :
    result (
      conn_read_to_cb_ex memory
        (record caller {
          reads = record { turn = record reads.turn { takings = takes_all ∷ [] }; waited = 0 } ∷ [];
        })
        true
        (pos 3))
    ≡ some (0, 3)
unfolding conn_read_to_cb_ex
read_to_cb_test = refl

no_callback_test : result (conn_read_to_cb_ex memory caller false (pos 3)) ≡ some (einval, 0)
unfolding conn_read_to_cb_ex
no_callback_test = refl

nothing_test : result (conn_read_to_conn_ex memory caller false (pos 0)) ≡ some (0, 0)
unfolding conn_read_to_conn_ex
nothing_test = refl

-- A flush of two octets by single ones.
flush_test :
    state_of (
      conn_flush_ex memory (record caller {
        conn = record (alone empty_conn) { send_buffer = some 2 };
        send = record { octets = 8 ∷ 9 ∷ []; free = 0 };
        flushes =
            record { turn = record reads.turn { senders = one_at_most ∷ [] }; waited = 0 }
            ∷ record { turn = record reads.turn { senders = one_at_most ∷ [] }; waited = 0 }
            ∷ [];
      }))
    ≡ some (0, idle)
unfolding conn_flush_ex
flush_test = refl
