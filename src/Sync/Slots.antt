-- ===== src/Sync/Slots.antt =====
-- The slots and the state around the synchronous calls of src/connio.c.
use connio.Prelude.{ℕ, ◌≡◌, ◌⊎◌, Bool, false, Option, none, some, ltb, arith}
use connio.Conn.{Conn, idle}
use connio.Transaction.Next.{IsExclusive}
use connio.Enqueue.{buffered_send_data_get}
use connio.Sync.{
  synchronous_connect_event_insert, synchronous_connect_event_remove,
  synchronous_receive_event_insert, synchronous_receive_event_remove, synchronous_send_event_insert,
  synchronous_send_event_remove,
}

-- The buffer has data to send.
abbrev pub has_data : Option ℕ → Bool
has_data none = false
has_data (some used) = ltb 0 used

-- What the assertion in SynchronousReceiveEventInsert demands: no data is buffered during a send.
abbrev pub BufferIdle : Conn → Type 0
BufferIdle c = (has_data c.send_buffer ≡ false) ⊎ (c.active.send ≡ none)

-- None of the three calls that take a slot, and none of those that leave one, lets a connect-class
-- event and another one be in progress together, as long as no data is buffered during a send.
pub synchronous-IsExclusive :
    (c : Conn) (ce : ℕ) (locked : Bool)
    → IsExclusive c.active
    → BufferIdle c
    → IsExclusive (synchronous_connect_event_insert c ce).1.active
      × IsExclusive (synchronous_connect_event_remove c ce).1.active
      × IsExclusive (synchronous_receive_event_insert c ce).1.active
      × IsExclusive (synchronous_receive_event_remove c ce locked).1.active
      × IsExclusive (synchronous_send_event_insert c ce).1.active
      × IsExclusive (synchronous_send_event_remove c ce).1.active
unfolding synchronous_connect_event_insert synchronous_connect_event_remove
    synchronous_receive_event_insert synchronous_receive_event_remove synchronous_send_event_insert
    synchronous_send_event_remove buffered_send_data_get
synchronous-IsExclusive c ce locked h b =
    (ground arith, ground arith, ground arith, ground arith, ground arith, ground arith)

-- A call that is alone on an idle connection and takes its slot leaves it again, and then the
-- connection is idle and every slot is empty, as before. A read that finds buffered data takes the
-- buffer and holds the connect slot.
pub insert-remove :
    (c : Conn) (ce : ℕ)
    → c.state ≡ idle
    → c.active ≡ record { connect = none; send = none; receive = none }
    → (synchronous_connect_event_remove (synchronous_connect_event_insert c ce).1 ce ≡ (none, c))
      × (synchronous_send_event_remove (synchronous_send_event_insert c ce).1 ce ≡ (none, c))
      × (let (r, d) = synchronous_receive_event_insert c ce in
          (r ≡ (none, has_data c.send_buffer))
          × (synchronous_receive_event_remove d ce r.1
              ≡ (none, record c { send_buffer = d.send_buffer }))
          × (has_data d.send_buffer ≡ false))
unfolding synchronous_connect_event_insert synchronous_connect_event_remove
    synchronous_receive_event_insert synchronous_receive_event_remove synchronous_send_event_insert
    synchronous_send_event_remove buffered_send_data_get
insert-remove c ce e a = (ground arith, ground arith, (ground arith, ground arith, ground arith))
