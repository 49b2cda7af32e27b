-- ===== src/Sync/Overlap.antt =====
-- A synchronous read and a synchronous send of src/connio.c that overlap.
use connio.Prelude.{ℕ, ◌≡◌, false, none, some, arith}
use connio.Errno.{ebusy, econniomode}
use connio.Conn.{Conn, idle}
use connio.Enqueue.{buffered_send_data_get}
use connio.Sync.{
  synchronous_connect_event_insert, synchronous_receive_event_insert,
  synchronous_receive_event_remove, synchronous_send_event_insert, synchronous_send_event_remove,
}

-- A read (`r`) takes its slot and a send (`s`) takes its own.
abbrev pub both : Conn → ℕ → ℕ → Conn
both c r s = (synchronous_send_event_insert (synchronous_receive_event_insert c r).1 s).1

-- When a read and a send overlap on an idle connection without buffered data and the read ends
-- first, the send can no longer leave its slot: it fails with ECONNIOMODE and changes nothing, the
-- slot keeps pointing to the event, later sends and what needs the connect slot fail with EBUSY.
pub overlap_lem :
    (c : Conn) (r s later : ℕ)
    → c.state ≡ idle
    → c.active ≡ record { connect = none; send = none; receive = none }
    → c.send_buffer ≡ none
    → let d = (synchronous_receive_event_remove (both c r s) r false).1 in
      (d.active ≡ record { connect = none; send = some s; receive = none })
      × (synchronous_send_event_remove d s ≡ (some econniomode, d))
      × (synchronous_send_event_insert d later ≡ (some ebusy, d))
      × (synchronous_connect_event_insert d later ≡ (some ebusy, d))
unfolding synchronous_connect_event_insert synchronous_receive_event_insert
    synchronous_receive_event_remove synchronous_send_event_insert synchronous_send_event_remove
    buffered_send_data_get
overlap_lem c r s later e a b = (ground arith, ground arith, ground arith, ground arith)

-- When they overlap so and the send ends first, both leave their slots and the connection is as
-- before.
pub nested_lem :
    (c : Conn) (r s : ℕ)
    → c.state ≡ idle
    → c.active ≡ record { connect = none; send = none; receive = none }
    → c.send_buffer ≡ none
    → let (result, d) = synchronous_send_event_remove (both c r s) s in
      (result ≡ none) × (synchronous_receive_event_remove d r false ≡ (none, c))
unfolding synchronous_receive_event_insert synchronous_receive_event_remove
    synchronous_send_event_insert synchronous_send_event_remove buffered_send_data_get
nested_lem c r s e a b = (ground arith, ground arith)
