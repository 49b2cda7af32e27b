-- ===== src/Tests/Passes.antt =====
-- Tests of the passes over events of src/process.c, and of the callbacks.
use connio.Prelude.{ℕ, ◌≡◌, refl, true, false, Option, none, some, List, [], ◌∷◌, length}
use connio.Errno.{eagain, etimedout}
use connio.Conn.{
  type_none, queued, in_progress, complete, timed_out, connect, write_from_client_buffer,
  ConnEventStatus,
}
use connio.IoBuffer.Memory.{memory}
use connio.Process.Event.{Event}
use connio.Process.Read.{ended}
use connio.Process.Flush.{flush_send_buffer}
use connio.Process.Callback
use connio.Process.Callback.{iocbr_continue, iocbr_done, read_to_callback_process}
use connio.Process.Step.{Pass, send_result, read_to_conn_process, socket_event_process}
use connio.Process.Dispatch.{
  Job, Attempt, mode_synchronous, mode_asynchronous, FinalCall, socket_connect_abort,
  free_addresses, free_client_buffer, event_process, conn_event_process,
}
use connio.Process.Dispatch.Outcome.{Turned, event_process-Turned}
use connio.Tests.Events.{four, three, blocks, one_at_most, writing}

-- A pass whose receives are `three` alone.
abbrev receiving : Pass memory
receiving = record {
  senders = [];
  supplies = [];
  takings = [];
  arrivals = three ∷ [];
  writes = [];
  drains = [];
  is_valid = true;
  started = 0;
  has_received = false;
}

abbrev blocked : Pass memory
blocked = record receiving { arrivals = blocks ∷ [] }

abbrev job : Job memory
job = record {
  event = four;
  mode = mode_synchronous;
  status = queued;
  error = 0;
  start = false;
  has_buffer = true;
  is_send = false;
  calls = [];
}

-- The first two octets.
abbrev halfway : Event memory
halfway = record four {
  client = record four.client { written = 1 ∷ 2 ∷ []; room = 3; remaining = 2 };
  io = record { octets = []; free = 10 };
  transferred = 2;
}

abbrev waits : Attempt memory
waits = record { turn = blocked; waited = 0 }

abbrev pub reads : Attempt memory
reads = record { turn = receiving; waited = 0 }

abbrev status_of :
    Option (ConnEventStatus × ℕ × Job memory) → Option (ConnEventStatus × ℕ × List FinalCall)
status_of none = none
status_of (some (s, e, j)) = some (s, e, j.calls)

job_test :
    status_of (conn_event_process memory false (waits ∷ reads ∷ []) 0 job) ≡ some (complete, 0, [])
unfolding conn_event_process
job_test = refl

-- A connect that the engine takes over and that then fails there by a timeout.
abbrev connecting : Job memory
connecting = record job { event = record four { type = connect }; mode = mode_asynchronous }

abbrev starts : Attempt memory
starts = record { turn = record receiving { started = eagain }; waited = 0 }

connecting_test :
    status_of (conn_event_process memory false (starts ∷ []) 0 connecting)
    ≡ some (in_progress, 0, [])
unfolding conn_event_process
connecting_test = refl

timed_out_test :
    status_of (
      conn_event_process memory false [] 0
        (record connecting { status = in_progress; error = etimedout }))
    ≡ some (timed_out, 0, socket_connect_abort etimedout ∷ free_addresses ∷ [])
unfolding conn_event_process
timed_out_test = refl

-- A write of a client's buffer frees it once.
freed_test :
    status_of (
      conn_event_process memory false
        (record {
          turn = record receiving { senders = one_at_most ∷ one_at_most ∷ one_at_most ∷ [] };
          waited = 0;
        }
          ∷ [])
        0
        (record job {
          event = record writing { type = write_from_client_buffer };
          start = true;
          is_send = true;
        }))
    ≡ some (complete, 0, free_client_buffer ∷ [])
unfolding conn_event_process
freed_test = refl

-- A callback that takes what it is offered, with a count of three.
read_to_callback_test :
    let d =
      read_to_callback_process memory
        ((λ bs. record { response = iocbr_continue; count = length bs })
          ∷ (λ bs. record { response = iocbr_continue; count = length bs })
          ∷ [])
        (three ∷ [])
        (record four { cb_count = 3 }) in
    d
    ≡ ended 0 (record four {
      io = record { octets = 4 ∷ 5 ∷ []; free = 8 };
      transferred = 3;
      received = 3 ∷ 4 ∷ 5 ∷ [];
      cb_count = 3;
      consumed = 1 ∷ 2 ∷ 3 ∷ [];
    })
unfolding read_to_callback_process
read_to_callback_test = refl

-- A callback that gives two octets and is done, the socket taking one octet and blocking.
write_from_cb_test :
    send_result memory (
      Callback.write_from_cb memory
        ((λ n. record { response = iocbr_done; octets = 8 ∷ 9 ∷ []; error = 0 }) ∷ [])
        type_none
        four
        (one_at_most ∷ []))
    ≡ some (
      eagain,
      record four {
        io = record { octets = 2 ∷ 8 ∷ 9 ∷ []; free = 7 };
        transferred = 2;
        cb_count = 2;
        sent = 1 ∷ [];
      },
    )
unfolding Callback.write_from_cb flush_send_buffer
write_from_cb_test = refl

-- Three octets for another connection, which takes one, and then the rest.
read_to_conn_test :
    read_to_conn_process memory
      ((λ n. record { count = 1; error = 0 }) ∷ (λ n. record { count = n; error = 0 }) ∷ [])
      (three ∷ [])
      (record four { conn_count = 3 })
    ≡ ended 0 (record four {
      io = record { octets = 4 ∷ 5 ∷ []; free = 8 };
      transferred = 3;
      received = 3 ∷ 4 ∷ 5 ∷ [];
      conn_count = 3;
      consumed = 1 ∷ 2 ∷ 3 ∷ [];
    })
unfolding read_to_conn_process
read_to_conn_test = refl

halfway_pass : socket_event_process memory blocked queued four ≡ some (eagain, halfway)
unfolding socket_event_process
halfway_pass = refl

event_process-Turned_example :
    Turned memory
      (record job { event = halfway })
      false
      waits.waited
      eagain
      (event_process memory false
        (reads ∷ [])
        (record job { event = halfway; status = in_progress }))
      (event_process memory false (waits ∷ reads ∷ []) job)
event_process-Turned_example =
    event_process-Turned memory false waits (reads ∷ []) job eagain halfway refl halfway_pass
