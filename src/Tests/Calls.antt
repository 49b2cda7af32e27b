-- ===== src/Tests/Calls.antt =====
-- Tests of the synchronous slots, the list of connections, kills and waits of src/connio.c, and of
-- src/throttle.c.
use connio.Prelude.{
  ◌/◌, ◌<◌, ◌≤◌, ◌≡◌, ◌≢◌, ◌⊎◌, inl, inr, refl, pos, true, false, none, some, [], ◌∷◌, ◌++◌, length,
  arith,
}
use connio.Errno.{ebusy, econniomode}
use connio.Conn.{Conn, idle, synchronous}
use connio.Dll.{Links}
use connio.Transaction.Next.{IsExclusive}
use connio.Sync.{
  synchronous_connect_event_insert, synchronous_connect_event_remove,
  synchronous_receive_event_insert, synchronous_receive_event_remove, synchronous_send_event_insert,
  synchronous_send_event_remove,
}
use connio.Sync.Slots.{synchronous-IsExclusive, insert-remove, has_data}
use connio.Sync.Overlap.{both, overlap_lem}
use connio.ConnList.{ConnList, conn_list_append, conn_list_remove, conn_list_push}
use connio.ConnList.Contents.{IsConnList, conn_list_append-IsConnList}
use connio.ConnList.Mature.{conn_list_push-full}
use connio.Throttle.{
  AsyncListener, SocketEvent, Turn, listener_should_throttle, listener_start_throttling,
  listener_spin_while_throttling, spinning,
}
use connio.Throttle.Start.{listener_start_throttling_lem, started_calls, start-refuses}
use connio.Throttle.Spin.{listener_spin_while_throttling_lem, end_of, end_calls}
use connio.Shutdown.{
  translate_shutdown_timeout, InUse, conn_handle_wait_for_children_to_exit, exited, count_children,
}
use connio.Shutdown.Wait.{wait_for_children-exited}
use connio.Tests.Sample.{empty_conn}

abbrev quiet : Conn
quiet = record empty_conn { state = idle }

abbrev filled : Conn
filled = record quiet { send_buffer = some 5 }

synchronous-IsExclusive_example :
    IsExclusive (synchronous_connect_event_insert filled 9).1.active
    × IsExclusive (synchronous_connect_event_remove filled 9).1.active
    × IsExclusive (synchronous_receive_event_insert filled 9).1.active
    × IsExclusive (synchronous_receive_event_remove filled 9 true).1.active
    × IsExclusive (synchronous_send_event_insert filled 9).1.active
    × IsExclusive (synchronous_send_event_remove filled 9).1.active
synchronous-IsExclusive_example = synchronous-IsExclusive filled 9 true (inl refl) (inr refl)

insert-remove_example :
    (synchronous_connect_event_remove (synchronous_connect_event_insert filled 9).1 9
      ≡ (none, filled))
    × (synchronous_send_event_remove (synchronous_send_event_insert filled 9).1 9 ≡ (none, filled))
    × (let (r, d) = synchronous_receive_event_insert filled 9 in
        (r ≡ (none, has_data filled.send_buffer))
        × (synchronous_receive_event_remove d 9 r.1
            ≡ (none, record filled { send_buffer = d.send_buffer }))
        × (has_data d.send_buffer ≡ false))
insert-remove_example = insert-remove filled 9 refl refl

overlap_lem_example :
    let d = (synchronous_receive_event_remove (both quiet 9 10) 9 false).1 in
    (d.active ≡ record { connect = none; send = some 10; receive = none })
    × (synchronous_send_event_remove d 10 ≡ (some econniomode, d))
    × (synchronous_send_event_insert d 11 ≡ (some ebusy, d))
    × (synchronous_connect_event_insert d 11 ≡ (some ebusy, d))
overlap_lem_example = overlap_lem quiet 9 10 11 refl refl refl

abbrev no_links : Links
no_links = record { next = λ p. none; previous = λ p. none }

abbrev no_conns : ConnList
no_conns = record { ends = record { head = none; tail = none }; count = 0; peak = 0; limit = 2 }

no_conns-IsConnList : IsConnList no_conns no_links []
no_conns-IsConnList = record {
  holds = record { head_first = refl; tail_last = refl; linked = tt; distinct = tt };
  counted = refl;
  peaked = omega arith;
  fits = omega arith;
}

abbrev one : ConnList × Links
one = conn_list_append no_conns no_links 1

abbrev two : ConnList × Links
two = conn_list_append one.0 one.1 2

two-IsConnList : IsConnList two.0 two.1 (1 ∷ 2 ∷ [])
two-IsConnList =
    conn_list_append-IsConnList one.0 one.1 (1 ∷ []) 2
      (conn_list_append-IsConnList no_conns no_links [] 1 no_conns-IsConnList tt (omega arith))
      (omega arith) (omega arith)

conn_list_push-full_example :
    let (mature, (d, m)) = conn_list_push two.0 two.1 3 in
    (mature ≡ some 1)
    × (d.ends.head ≡ some 2)
    × (d.count ≡ 3)
    × (m.previous 2 ≡ some 1)
    × ((conn_list_remove d m 2).0.ends.head ≡ some 2)
unfolding conn_list_append
conn_list_push-full_example =
    conn_list_push-full two.0 two.1 1 2 [] 3 two-IsConnList (omega arith) refl (omega arith)

abbrev busy_listener : AsyncListener
busy_listener = record { throttling_threshold = 8; has_callback = true }

abbrev suspended_event : SocketEvent
suspended_event = record {
  flags = record { killed = false; paused = false; suspended = true };
  listener = some busy_listener;
}

abbrev listening_event : SocketEvent
listening_event = record {
  flags = record { killed = false; paused = false; suspended = false };
  listener = some busy_listener;
}

listener_start_throttling_example :
    ((suspended_event.flags.suspended ≡ true)
      × (busy_listener.throttling_threshold ≢ 0)
      × (busy_listener.throttling_threshold < 9)
      × (listener_start_throttling suspended_event 9 10 ≡ (
        true,
        (
          started_calls busy_listener 10,
          record suspended_event { flags = record suspended_event.flags { paused = true } },
        ),
      )))
    ⊎ (((suspended_event.flags.suspended ≡ false)
          ⊎ (busy_listener.throttling_threshold ≡ 0)
          ⊎ (9 ≤ busy_listener.throttling_threshold))
        × (listener_start_throttling suspended_event 9 10 ≡ (false, ([], suspended_event))))
listener_start_throttling_example =
    listener_start_throttling_lem suspended_event busy_listener 9 10 refl

start_refuses_test :
    (listener_should_throttle listening_event 9 ≡ true)
    × (listener_start_throttling listening_event 9 10 ≡ (false, ([], listening_event)))
start_refuses_test =
    start-refuses listening_event busy_listener 9 10 refl refl (omega arith) (omega arith)

abbrev loaded : Turn
loaded = record { flags = listening_event.flags; reading = 9 }

abbrev relaxed : Turn
relaxed = record { flags = listening_event.flags; reading = 8 }

spin_example :
    ((listener_spin_while_throttling busy_listener (loaded ∷ [])).0 ≡ spinning)
    × (length (listener_spin_while_throttling busy_listener (loaded ∷ [])).1 ≡ 1 / 16)
    × (listener_spin_while_throttling busy_listener (loaded ∷ relaxed ∷ []) ≡ (
      end_of busy_listener relaxed,
      (listener_spin_while_throttling busy_listener (loaded ∷ [])).1
          ++ end_calls busy_listener relaxed,
    ))
spin_example =
    listener_spin_while_throttling_lem busy_listener (loaded ∷ []) relaxed [] refl (omega arith)
      ((refl, inr (omega arith)), tt) (inr (refl, omega arith))

abbrev child : InUse
child = record { state = synchronous; listener_id = 7 }

-- A timeout of 1500 milliseconds is one second: the second poll decides.
wait_for_children-exited_example :
    conn_handle_wait_for_children_to_exit (7 ∷ []) (pos 1500) ((child ∷ []) ∷ [] ∷ []) ≡ exited 1
unfolding translate_shutdown_timeout count_children
wait_for_children-exited_example =
    wait_for_children-exited (7 ∷ []) (pos 1500) 1 ((child ∷ []) ∷ []) [] [] refl (omega arith)
      ((λ e. omega (arith, e)), tt) (omega arith) refl
