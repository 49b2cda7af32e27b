-- ===== src/Sync.antt =====
-- How a synchronous call of src/connio.c takes a slot of the connection and leaves it again:
-- SynchronousConnectEventInsert and its five companions. Each runs under the event lock. The first
-- part of a result is `none` for TRUE and the errno value for FALSE.
pub mod Slots
pub mod Overlap
use connio.Prelude.{
  ℕ, Bool, true, false, ◌&&◌, ◌||◌, not, Option, none, some, ◌==◌, ltb, if◌then◌else◌,
}
use connio.Errno.{ebusy, einval, econniomode}
use connio.Conn.{Conn, ConnState, ActiveEvent, idle, synchronous}
use connio.Conn.InProgress.{
  conn_change_state, conn_event_connect_in_progress_set, conn_event_connect_in_progress_clear,
  conn_event_receive_in_progress_set, conn_event_receive_in_progress_clear,
  conn_event_send_in_progress_set, conn_event_send_in_progress_clear,
}
use connio.Enqueue.{buffered_send_data_get}

abbrev is_none : Option ℕ → Bool
is_none none = true
is_none (some p) = false

-- `slot == event`.
abbrev holds : Option ℕ → ℕ → Bool
holds none p = false
holds (some q) p = q == p

abbrev is_idle : ConnState → Bool
is_idle idle = true
is_idle _ = false

abbrev is_synchronous : ConnState → Bool
is_synchronous synchronous = true
is_synchronous _ = false

unfoldable pub synchronous_connect_event_insert : Conn → ℕ → Option ℕ × Conn
unfolding conn_change_state conn_event_connect_in_progress_set
synchronous_connect_event_insert c ce =
    if is_idle c.state
    then (if is_none c.active.connect && (is_none c.active.receive && is_none c.active.send)
        then (none, conn_event_connect_in_progress_set (conn_change_state c synchronous) ce)
        else (some ebusy, c))
    else (some econniomode, c)

unfoldable pub synchronous_connect_event_remove : Conn → ℕ → Option ℕ × Conn
unfolding conn_change_state conn_event_connect_in_progress_clear
synchronous_connect_event_remove c ce =
    if is_synchronous c.state
    then (if holds c.active.connect ce
        then (none, conn_change_state (conn_event_connect_in_progress_clear c ce) idle)
        else (some einval, c))
    else (some econniomode, c)

take_read : ℕ → Bool × Conn → (Option ℕ × Bool) × Conn
unfolding conn_event_connect_in_progress_set conn_event_receive_in_progress_set
take_read ce (true, c) = ((none, true), conn_event_connect_in_progress_set c ce)
take_read ce (false, c) = ((none, false), conn_event_receive_in_progress_set c ce)

-- The Boolean tells whether `*bufferedSendData` is left set, for the caller to send.
unfoldable pub synchronous_receive_event_insert : Conn → ℕ → (Option ℕ × Bool) × Conn
unfolding take_read conn_change_state buffered_send_data_get
synchronous_receive_event_insert c ce =
    if is_idle c.state || is_synchronous c.state
    then (if is_none c.active.connect && is_none c.active.receive
        then take_read ce (buffered_send_data_get (conn_change_state c synchronous))
        else ((some ebusy, false), c))
    else ((some econniomode, false), c)

unfoldable pub synchronous_receive_event_remove : Conn → ℕ → Bool → Option ℕ × Conn
unfolding conn_change_state conn_event_connect_in_progress_clear
    conn_event_receive_in_progress_clear
synchronous_receive_event_remove c ce have_connect_lock =
    if is_synchronous c.state
    then (if have_connect_lock && holds c.active.connect ce
        then (none, conn_change_state (conn_event_connect_in_progress_clear c ce) idle)
        else if not have_connect_lock && holds c.active.receive ce
        then (none, conn_change_state (conn_event_receive_in_progress_clear c ce) idle)
        else (some einval, c))
    else (some econniomode, c)

unfoldable pub synchronous_send_event_insert : Conn → ℕ → Option ℕ × Conn
unfolding conn_change_state conn_event_send_in_progress_set
synchronous_send_event_insert c ce =
    if is_idle c.state || is_synchronous c.state
    then (if is_none c.active.connect && is_none c.active.send
        then (none, conn_event_send_in_progress_set (conn_change_state c synchronous) ce)
        else (some ebusy, c))
    else (some econniomode, c)

unfoldable pub synchronous_send_event_remove : Conn → ℕ → Option ℕ × Conn
unfolding conn_change_state conn_event_send_in_progress_clear
synchronous_send_event_remove c ce =
    if is_synchronous c.state
    then (if holds c.active.send ce
        then (let d = conn_event_send_in_progress_clear c ce in
            if is_none d.active.receive then (none, conn_change_state d idle) else (none, d))
        else (some einval, c))
    else (some econniomode, c)
