-- ===== src/Process/Flush.antt =====
-- What the events of src/process.c send: flushSendBuffer and sendFromClientBuffer. What SocketSend
-- answers, a function of the number of octets offered, is an element of a list.
pub mod Sent
use connio.Prelude.{
  ℕ, zero, suc, ◌+◌, ◌-◌, Bool, true, false, Option, none, some, List, [], ◌∷◌, ◌++◌, ◌==◌, ltb,
  if◌then◌else◌, length, take, drop,
}
use connio.Conn.{SocketEventType}
use connio.Wire.{Transfer}
use connio.IoBuffer.{IoBuffers}
use connio.Process.Event.{Event, ClientBuffer}

pub Sender : Type 0
Sender = ℕ → Transfer

-- The value of `sent` or `moved` if it is positive, else 0.
abbrev pub positive : Option ℕ → ℕ
positive none = 0
positive (some n) = n

module _ (B : IoBuffers) where
  -- How a routine that sends ends, with the answers that are left; `asking` when they are used up.
  pub data SendEnd : Type 0 where
    returned : ℕ → SocketEventType → Event B → List (ℕ → Transfer) → SendEnd
    asking : Event B → SendEnd

  unfoldable pub moved_out : Event B → ℕ → Event B
  moved_out ce n = record ce {
    io = if n == 0 then ce.io else B.mark_free ce.io n;
    sent = ce.sent ++ take n (B.get_used ce.io);
  }

  unfoldable pub flush_send_buffer : List (ℕ → Transfer) → SocketEventType → Event B → SendEnd
  unfolding moved_out
  flush_send_buffer [] b ce =
      if length (B.get_used ce.io) == 0 then returned 0 b ce [] else asking ce
  flush_send_buffer (answer ∷ answers) b ce =
      let count = length (B.get_used ce.io) in
      let t = answer count in
      let moved = positive t.count in
      let again = flush_send_buffer answers t.blocked_on (moved_out ce moved) in
      if count == 0
      then returned 0 b ce (answer ∷ answers)
      else if moved == count
      then again
      else returned t.error t.blocked_on (moved_out ce moved) answers

  unfoldable pub taken_out : Event B → ℕ → Event B
  taken_out ce n = record ce {
    client = record ce.client {
      remaining = ce.client.remaining - n;
      unread = drop n ce.client.unread;
    };
    sent = ce.sent ++ take n ce.client.unread;
  }

  unfoldable pub send_from_client_buffer : List (ℕ → Transfer) → SocketEventType → Event B → SendEnd
  unfolding taken_out
  send_from_client_buffer [] b ce =
      if ltb 0 ce.client.remaining then asking ce else returned 0 b ce []
  send_from_client_buffer (answer ∷ answers) b ce =
      let t = answer ce.client.remaining in
      let n = positive t.count in
      let again = send_from_client_buffer answers t.blocked_on (taken_out ce n) in
      if ltb 0 ce.client.remaining
      then (if ltb 0 n then again else returned t.error t.blocked_on ce answers)
      else returned 0 b ce (answer ∷ answers)
