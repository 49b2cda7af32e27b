-- ===== src/Process/Step.antt =====
-- One pass over an event: readToConnProcess, drainReceiveBuffer, drainWire and socketEventProcess of
-- src/process.c. What the calls of the pass answer is a Pass.
use connio.Prelude.{
  ℕ, ◌+◌, ◌-◌, Bool, true, false, Option, none, some, List, [], ◌∷◌, ◌++◌, ◌==◌, leb, min,
  if◌then◌else◌, length, take,
}
use connio.Errno.{enobufs, eoverflow, econnclosedbypeer, econniobug}
use connio.Conn.{
  accept, connect, disconnect, ssl_accept, tls_accept, ssl_connect, tls_connect, ssl_disconnect,
  read, read_count, read_until_pattern, read_to_cb, read_to_conn, write_from_cb,
  write_from_client_buffer, flush, ConnEventStatus, in_progress, type_none,
}
use connio.Wire.{Transfer}
use connio.IoBuffer.{IoBuffers}
use connio.Process.Event.{Event}
use connio.Process.Read.{
  Arrival, ReadEnd, arrived, stopped, ended, asking, full, filled, conditional_read_process,
}
use connio.Process.Flush.{SendEnd, returned, asking, flush_send_buffer, send_from_client_buffer}
use connio.Process.Callback
use connio.Process.Callback.{Supply, Taking, read_to_callback_process, refill_asking}

-- The answer of connWriteEx for a number of octets, and errno after it.
pub record Written : Type 0 where
  pub count : ℕ
  pub error : ℕ

-- A receive of drainWire: a positive count, or an error.
pub data Drained : Type 0 where
  discarded : ℕ → Drained
  over : ℕ → Drained

-- The answers of the calls: SocketSend, the callbacks, SocketReceive, connWriteEx and the receives of
-- drainWire; whether SocketValid; the errno value of the one call that connects, disconnects or
-- negotiates SSL; and whether the receive buffer of the connection has octets.
pub record Pass (B : IoBuffers) : Type 0 where
  pub senders : List (ℕ → Transfer)
  pub supplies : List (ℕ → Supply)
  pub takings : List (List ℕ → Taking)
  pub arrivals : List (ℕ → Arrival B)
  pub writes : List (ℕ → Written)
  pub drains : List Drained
  pub is_valid : Bool
  pub started : ℕ
  pub has_received : Bool

-- The loop of drainWire; ECONNCLOSEDBYPEER is no error.
unfoldable pub drain_wire : List Drained → Option ℕ
drain_wire [] = none
drain_wire (discarded n ∷ more) = drain_wire more
drain_wire (over e ∷ more) = some (if e == econnclosedbypeer then 0 else e)

module _ (B : IoBuffers) where
  unfoldable pub fill_until :
      (Event B → List (ℕ → Arrival B) → ReadEnd B) → ℕ → List (ℕ → Arrival B) → Event B → ReadEnd B
  unfolding filled
  fill_until go needed [] ce =
      if leb needed (length (B.get_used ce.io))
      then go ce []
      else if B.get_free ce.io == 0
      then go ce []
      else asking ce
  fill_until go needed (answer ∷ answers) ce =
      let rest = λ (c : Event B). fill_until go needed answers c in
      if leb needed (length (B.get_used ce.io))
      then go ce (answer ∷ answers)
      else if B.get_free ce.io == 0
      then go ce (answer ∷ answers)
      else elim (answer (B.get_free ce.io)) [
        | arrived bs ↦ rest (filled B ce bs)
        | stopped e ↦ let next = rest ce in if e == 0 then next else ended e ce
      ]

  -- A turn of the loop up to connWriteEx.
  unfoldable pub gather :
      (Event B → List (ℕ → Arrival B) → ReadEnd B) → List (ℕ → Arrival B) → Event B → ReadEnd B
  unfolding fill_until
  gather go answers ce =
      let needed = ce.conn_count - ce.transferred in
      if leb ce.conn_count ce.transferred
      then ended 0 ce
      else if leb needed (length (B.get_used ce.io))
      then go ce answers
      else fill_until go needed answers (record ce { io = (B.defrag ce.io).1 })

  unfoldable pub read_to_conn_process :
      List (ℕ → Written) → List (ℕ → Arrival B) → Event B → ReadEnd B
  unfolding gather
  read_to_conn_process [] answers ce = gather (λ d rest. asking d) answers ce
  read_to_conn_process (write ∷ writes) answers ce =
      gather
        (λ d rest.
          let buff = B.get_used d.io in
          let send_count = min (length buff) (d.conn_count - d.transferred) in
          let w = write send_count in
          let c = record d {
            io = if w.count == 0 then d.io else B.mark_free d.io w.count;
            transferred = d.transferred + w.count;
            consumed = d.consumed ++ take w.count buff;
          } in
          let again = read_to_conn_process writes rest c in
          if w.error == 0 then again else ended w.error c)
        answers ce

  -- The result of a pass: the errno value and the event, or `none` if it asks for another answer.
  abbrev pub read_result : ReadEnd B → Option (ℕ × Event B)
  read_result (ended e d) = some (e, d)
  read_result (asking d) = none

  abbrev pub send_result : SendEnd B → Option (ℕ × Event B)
  send_result (returned e b d rest) = some (e, d)
  send_result (asking d) = none

  -- The fill of the receive buffer by an event that was in progress; `on_full` is what happens when
  -- the buffer is full.
  unfoldable pub resume_read :
      (List (ℕ → Arrival B) → Event B → Option (ℕ × Event B))
      → (Event B → ReadEnd B)
      → ConnEventStatus
      → List (ℕ → Arrival B)
      → Event B
      → Option (ℕ × Event B)
  unfolding filled
  resume_read go on_full in_progress [] ce =
      if B.get_free ce.io == 0 then read_result (on_full ce) else none
  resume_read go on_full in_progress (answer ∷ answers) ce =
      if B.get_free ce.io == 0 then read_result (on_full ce) else elim (answer (B.get_free ce.io)) [
        | arrived bs ↦ go answers (filled B ce bs)
        | stopped e ↦ let next = go answers ce in if e == 0 then next else some (e, ce)
      ]
  resume_read go on_full _ answers ce = go answers ce

  unfoldable pub conditional_read : List (ℕ → Arrival B) → Event B → Option (ℕ × Event B)
  unfolding conditional_read_process
  conditional_read answers ce = elim (conditional_read_process B answers ce) [
    | none ↦ none
    | some r ↦ read_result r
  ]

  -- drainReceiveBuffer. For a disconnect `io` is the receive buffer of the connection; without one
  -- there are no octets in it.
  unfoldable pub drain_receive_buffer : Bool → B.State → B.State
  drain_receive_buffer true io = let s = (B.defrag io).1 in B.mark_free s (length (B.get_used s))
  drain_receive_buffer false io = io

  unfoldable pub socket_event_process : Pass B → ConnEventStatus → Event B → Option (ℕ × Event B)
  unfolding resume_read conditional_read full read_to_conn_process read_to_callback_process
      drain_wire flush_send_buffer send_from_client_buffer drain_receive_buffer
  socket_event_process t status ce = elim ce.type [
    | write_from_cb ↦ send_result (Callback.write_from_cb B t.supplies type_none ce t.senders)
    | write_from_client_buffer ↦ send_result (send_from_client_buffer B t.senders type_none ce)
    | flush ↦ send_result (flush_send_buffer B t.senders type_none ce)
    | read ↦ resume_read conditional_read (full B) status t.arrivals ce
    | read_count ↦ resume_read conditional_read (full B) status t.arrivals ce
    | read_until_pattern ↦ resume_read conditional_read (full B) status t.arrivals ce
    | read_to_conn ↦
        resume_read (λ answers d. read_result (read_to_conn_process t.writes answers d))
          (ended enobufs) status t.arrivals ce
    | read_to_cb ↦
        resume_read (λ answers d. read_result (read_to_callback_process B t.takings answers d))
          (ended enobufs) status t.arrivals ce
    | connect ↦ elim status [ in_progress ↦ some (0, ce) | _ ↦ some (t.started, ce) ]
    | disconnect ↦ elim status [
      | in_progress ↦ elim (drain_wire t.drains) [ none ↦ none | some e ↦ some (e, ce) ]
      | _ ↦
          let d = record ce { io = drain_receive_buffer t.has_received ce.io } in
          some (if t.is_valid then t.started else 0, d)
    ]
    | ssl_accept ↦ some (if t.has_received then eoverflow else t.started, ce)
    | tls_accept ↦ some (if t.has_received then eoverflow else t.started, ce)
    | ssl_connect ↦ some (if t.has_received then eoverflow else t.started, ce)
    | tls_connect ↦ some (if t.has_received then eoverflow else t.started, ce)
    | ssl_disconnect ↦ some (t.started, ce)
    | accept ↦ some (econniobug, ce)
  ]
