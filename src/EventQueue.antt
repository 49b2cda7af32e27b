-- ===== src/EventQueue.antt =====
-- The queue of asynchronous events of a connection, lines 18 to 228 of src/queue.c.
pub mod Scan
pub mod Contents
pub mod FreeList
use connio.Prelude.{ℕ, zero, suc, ◌+◌, ◌-◌, ◌^◌, ◌%◌, Bool, Option, none, some, ◌==◌, if◌then◌else◌}
use connio.Dll.{Ends, Links, update, set_next, set_previous}
use connio.Dll
use connio.Conn.{
  Conn, ConnEvents, ConnEventType, AsyncTransaction, accept, connect, disconnect, ssl_accept,
  tls_accept, ssl_connect, tls_connect, ssl_disconnect, read, read_count, read_until_pattern,
  read_to_cb, read_to_conn, write_from_cb, write_from_client_buffer, flush, queued, set_status,
}

abbrev pub ulong_mod : ℕ
ulong_mod = 2 ^ 64

unfoldable pub event_queue_peek : Conn → Option ℕ
event_queue_peek c = c.tx.queue.head

unfoldable pub event_queue_append_event : Conn → ℕ → Conn
event_queue_append_event c ce =
    let es = set_status c.events ce queued in
    let (ends, links) = Dll.append c.tx.queue es.links ce in
    record c {
      events = record es { links = links };
      tx = record c.tx { queue = ends; count = (c.tx.count + 1) % ulong_mod };
    }

unfoldable pub event_queue_remove_event : Conn → ℕ → Conn
event_queue_remove_event c ce =
    let (ends, links) = Dll.remove c.tx.queue c.events.links ce in
    record c {
      events = record c.events { links = links };
      tx = record c.tx { queue = ends; count = (c.tx.count + ulong_mod - 1) % ulong_mod };
    }

-- `ce->previous = NULL; ce->next = freeList; freeList = ce;`
unfoldable pub conn_event_free_list_add : Conn → ℕ → Conn
conn_event_free_list_add c ce = record c {
  events = record c.events {
    links = set_next (set_previous c.events.links ce none) ce c.tx.free_list;
  };
  tx = record c.tx { free_list = some ce };
}

unfoldable pub conn_event_free_list_grab : Conn → Option ℕ × Conn
conn_event_free_list_grab c = (c.tx.free_list, record c { tx = record c.tx { free_list = none } })

-- What the two searches do at an event of the queue: go past it, take it, or give up.
pub data Step : Type 0 where
  skip take stop : Step

pub send_step : ConnEventType → Step
send_step read = skip
send_step read_count = skip
send_step read_until_pattern = skip
send_step read_to_cb = skip
send_step read_to_conn = skip
send_step write_from_cb = take
send_step write_from_client_buffer = take
send_step flush = take
send_step connect = stop
send_step accept = stop
send_step disconnect = stop
send_step ssl_accept = stop
send_step tls_accept = stop
send_step ssl_connect = stop
send_step tls_connect = stop
send_step ssl_disconnect = stop

pub receive_step : ConnEventType → Step
receive_step read = take
receive_step read_count = take
receive_step read_until_pattern = take
receive_step read_to_cb = take
receive_step read_to_conn = take
receive_step write_from_cb = skip
receive_step write_from_client_buffer = skip
receive_step flush = skip
receive_step connect = stop
receive_step accept = stop
receive_step disconnect = stop
receive_step ssl_accept = stop
receive_step tls_accept = stop
receive_step ssl_connect = stop
receive_step tls_connect = stop
receive_step ssl_disconnect = stop

-- The loop `while( event )`, with fuel for the events that it visits.
pub walk : (ConnEventType → Step) → ℕ → ConnEvents → Option ℕ → Option ℕ
walk step zero es event = none
walk step (suc fuel) es none = none
walk step (suc fuel) es (some p) =
    let rest = walk step fuel es (es.links.next p) in
    elim (step (es.type p)) [ skip ↦ rest | take ↦ some p | stop ↦ none ]

take_event : Conn → Option ℕ → Option ℕ × Conn
take_event c none = (none, c)
take_event c (some p) = (some p, event_queue_remove_event c p)

-- Each event of the queue is visited once at most, so that `count` is fuel enough.
unfoldable pub get_next_enqueued_send_event : Conn → Option ℕ × Conn
unfolding event_queue_peek send_step walk take_event
get_next_enqueued_send_event c =
    take_event c (walk send_step c.tx.count c.events (event_queue_peek c))

unfoldable pub get_next_enqueued_receive_event : Conn → Option ℕ × Conn
unfolding event_queue_peek receive_step walk take_event
get_next_enqueued_receive_event c =
    take_event c (walk receive_step c.tx.count c.events (event_queue_peek c))

unfoldable pub get_next_enqueued_event : Conn → Option ℕ × Conn
unfolding event_queue_peek take_event
get_next_enqueued_event c = take_event c (event_queue_peek c)

count_flushes : ℕ → ConnEvents → Option ℕ → ℕ
count_flushes zero es ce = 0
count_flushes (suc fuel) es none = 0
count_flushes (suc fuel) es (some p) =
    let rest = count_flushes fuel es (es.links.next p) in
    elim (es.type p) [ flush ↦ (rest + 1) % 2 ^ 32 | _ ↦ rest ]

unfoldable pub event_queue_count_flushes : Conn → ℕ
unfolding count_flushes
event_queue_count_flushes c = count_flushes c.tx.count c.events c.tx.queue.head
