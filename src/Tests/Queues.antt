-- ===== src/Tests/Queues.antt =====
-- Tests of src/queue.c and of its lists.
use connio.Prelude.{◌≡◌, refl, none, some, [], ◌∷◌, arith}
use connio.Dll.{append}
use connio.EventQueue.{
  event_queue_append_event, event_queue_remove_event, get_next_enqueued_send_event,
  get_next_enqueued_receive_event, event_queue_count_flushes,
}
use connio.EventQueue.Contents.{IsQueue, append-IsQueue, remove-IsQueue}
use connio.EventQueue.Scan.{Selects, get_next_enqueued_send_event-Selects}
use connio.Conn.{class_send, class_receive}
use connio.Conn.{failed}
use connio.EventQueue.Scan.{get_next_enqueued_receive_event-Selects}
use connio.EventQueue.FreeList.{Owns}
use connio.Transaction.{conn_event_next, cancel_queued_events, event_queue_abort, pick}
use connio.Transaction.Next.{Chooses, conn_event_next_lem}
use connio.Transaction.Abort.{Emptied, cancel_queued_events-Emptied, event_queue_abort_lem}
use connio.Transaction.Pick.{Picks, pick-Picks}
use connio.Tests.Sample.{sample, sample-IsQueue, sample-Owns, sample-WorkInv, here}

send_overtakes_read : (get_next_enqueued_send_event sample).0 ≡ some 2
unfolding sample get_next_enqueued_send_event append
send_overtakes_read = refl

one_flush : event_queue_count_flushes sample ≡ 1
unfolding sample event_queue_count_flushes append
one_flush = refl

append-IsQueue_example : IsQueue (event_queue_append_event sample 5) (1 ∷ 2 ∷ 3 ∷ 4 ∷ 5 ∷ [])
append-IsQueue_example =
    append-IsQueue sample (1 ∷ 2 ∷ 3 ∷ 4 ∷ []) 5 sample-IsQueue (omega arith) (omega arith)

remove-IsQueue_example : IsQueue (event_queue_remove_event sample 2) (1 ∷ 3 ∷ 4 ∷ [])
remove-IsQueue_example = remove-IsQueue sample (1 ∷ []) 2 (3 ∷ 4 ∷ []) sample-IsQueue

send-Selects_example :
    Selects class_send class_receive sample
      (1 ∷ 2 ∷ 3 ∷ 4 ∷ [])
      (get_next_enqueued_send_event sample)
send-Selects_example =
    get_next_enqueued_send_event-Selects sample (1 ∷ 2 ∷ 3 ∷ 4 ∷ []) sample-IsQueue

receive-Selects_example :
    Selects class_receive class_send sample
      (1 ∷ 2 ∷ 3 ∷ 4 ∷ [])
      (get_next_enqueued_receive_event sample)
receive-Selects_example =
    get_next_enqueued_receive_event-Selects sample (1 ∷ 2 ∷ 3 ∷ 4 ∷ []) sample-IsQueue

conn_event_next_example : Chooses sample (1 ∷ 2 ∷ 3 ∷ 4 ∷ []) (conn_event_next sample)
conn_event_next_example = conn_event_next_lem sample (1 ∷ 2 ∷ 3 ∷ 4 ∷ []) sample-IsQueue

cancel_queued_events_example : Emptied sample (1 ∷ 2 ∷ 3 ∷ 4 ∷ []) [] (cancel_queued_events sample)
cancel_queued_events_example =
    cancel_queued_events-Emptied sample (1 ∷ 2 ∷ 3 ∷ 4 ∷ []) [] sample-Owns

event_queue_abort_example :
    let d = event_queue_abort sample none failed 12 here in
    Owns d [] (4 ∷ 3 ∷ 2 ∷ 1 ∷ [])
    × (d.tx.problem ≡ some (record { status = failed; error = 12; source = here }))
    × (d.active ≡ sample.active)
    × (d.state ≡ sample.state)
    × (d.tx.threads ≡ sample.tx.threads)
event_queue_abort_example =
    event_queue_abort_lem sample (1 ∷ 2 ∷ 3 ∷ 4 ∷ []) [] none failed 12 here sample-Owns
      (unfold sample in refl)

pick-Picks_example : Picks sample (1 ∷ 2 ∷ 3 ∷ 4 ∷ []) [] (pick none sample)
pick-Picks_example = pick-Picks sample (1 ∷ 2 ∷ 3 ∷ 4 ∷ []) [] sample-WorkInv
