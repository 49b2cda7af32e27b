-- ===== src/Process/Read.antt =====
-- The conditional reads of src/process.c, from moveFinalConditionalDataToClient to
-- conditionalReadProcess, with fillRecvBuffer.
use connio.Prelude.{
  ℕ, ◌+◌, Bool, true, false, ◌&&◌, ◌||◌, not, Option, some, List, [], ◌∷◌, ◌++◌, ◌==◌, leb, ltb,
  min, if◌then◌else◌, length,
}
use connio.Errno.{emsgsize, enobufs, econnmoredata}
use connio.Conn.{read, read_count, read_until_pattern}
use connio.IoBuffer.{IoBuffers, Found}
use connio.Process.Event.{Event, ◌>>=◌, copy_buffered_data_to_client, terminate_client_buffer}

-- The lengths that moveFinalConditionalDataToClient works with.
pub record Lengths : Type 0 where
  pub data_count : ℕ
  pub pattern_len : ℕ
  pub extra_len : ℕ
  pub replacement_pattern_len : ℕ
  pub terminator_len : ℕ

-- Whether strcmp finds the octets equal.
unfoldable pub strcmp_equal : List ℕ → List ℕ → Bool
strcmp_equal [] [] = true
strcmp_equal [] (y ∷ ys) = false
strcmp_equal (x ∷ xs) [] = false
strcmp_equal (x ∷ xs) (y ∷ ys) = x == y && strcmp_equal xs ys

-- SPECIAL_PATTERN_CRLF
abbrev pub special_pattern_crlf : List ℕ
special_pattern_crlf = 83 ∷ 80 ∷ 95 ∷ 67 ∷ 82 ∷ 76 ∷ 70 ∷ []

module _ (B : IoBuffers) where
  unfoldable pub lengths : Event B → ℕ → ℕ → Lengths
  lengths ce data_count pattern_len =
      let m = ce.data_mode in
      record {
        data_count = data_count;
        pattern_len = pattern_len;
        extra_len = if m.replace_pattern then 0 else if m.include_pattern then pattern_len else 0;
        replacement_pattern_len = if m.replace_pattern then length ce.pattern else 0;
        terminator_len = if m.terminate then 1 else 0;
      }

  unfoldable pub needed : Lengths → ℕ
  needed l = l.data_count + l.extra_len + l.replacement_pattern_len + l.terminator_len

  -- What is copied when the client's buffer has not enough room.
  unfoldable pub cut : Lengths → ℕ → Lengths
  cut l remaining = record {
    data_count = min l.data_count remaining;
    pattern_len = 0;
    extra_len = 0;
    replacement_pattern_len = 0;
    terminator_len = 0;
  }

  unfoldable pub mark_free_if : Bool → Event B → ℕ → Event B
  mark_free_if b ce n = record ce { io = if b then B.mark_free ce.io n else ce.io }

  -- The copies, the terminator, and the octets that leave the buffer.
  unfoldable pub copy_final : Event B → List ℕ → Lengths → Option (Event B)
  unfolding copy_buffered_data_to_client terminate_client_buffer mark_free_if
  copy_final ce buff l =
      copy_buffered_data_to_client B ce buff (l.data_count + l.extra_len) >>= λ c1.
      (if l.replacement_pattern_len == 0
        then some c1
        else copy_buffered_data_to_client B c1 ce.pattern l.replacement_pattern_len)
      >>= λ c2. (if l.terminator_len == 0 then some c2 else terminate_client_buffer B c2) >>= λ c3.
          some (mark_free_if ce.data_mode.delete c3 (l.data_count + l.pattern_len))

  unfoldable pub move_final_conditional_data_to_client :
      Event B → List ℕ → ℕ → ℕ → Option (ℕ × Event B)
  unfolding lengths needed cut copy_final mark_free_if
  move_final_conditional_data_to_client ce buff data_count pattern_len =
      let l = lengths ce data_count pattern_len in
      if ce.data_mode.copy
      then (if ltb ce.client.remaining (needed l)
          then (copy_final ce buff (cut l ce.client.remaining) >>= λ d. some (emsgsize, d))
          else (copy_final ce buff l >>= λ d. some (0, d)))
      else if ce.data_mode.delete
      then some (0, mark_free_if true ce (data_count + pattern_len))
      else some (0, record ce { transferred = data_count })

  unfoldable pub move_partial_conditional_data_to_client :
      Event B → List ℕ → ℕ → Option (ℕ × Event B)
  unfolding copy_buffered_data_to_client mark_free_if
  move_partial_conditional_data_to_client ce buff moveable_count =
      if ce.data_mode.delete && not (moveable_count == 0)
      then (if ce.data_mode.copy
          then (let short = ltb ce.client.remaining moveable_count in
              let n = if short then ce.client.remaining else moveable_count in
              copy_buffered_data_to_client B ce buff n >>= λ d.
              some (if short then emsgsize else econnmoredata, mark_free_if true d n))
          else some (econnmoredata, mark_free_if true ce moveable_count))
      else some (econnmoredata, ce)

  -- The answer of EventConditionSatisfied with `*count` and `*patternLen`; `*data` is the start of what
  -- IOBGetUsed gives of `event`.
  pub record Condition : Type 0 where
    pub satisfied : Bool
    pub count : ℕ
    pub pattern_len : ℕ
    pub event : Event B

  unfoldable pub found : Event B → Found × B.State → Condition
  found ce (f, s) = record {
    satisfied = f.matched;
    count = f.count;
    pattern_len = f.pattern_len;
    event = record ce { io = s };
  }

  -- The types that are no conditional reads give FALSE, with the count and the pattern length of
  -- SatisfyEvent, which are 0 or not set.
  unfoldable pub event_condition_satisfied : Event B → Condition
  unfolding found
  event_condition_satisfied ce =
      let used = length (B.get_used ce.io) in
      let remaining = ce.client.remaining in
      elim ce.type [
        | read ↦ record {
          satisfied = ltb 0 used;
          count = if leb remaining used then remaining else used;
          pattern_len = 0;
          event = ce;
        }
        | read_count ↦ record {
          satisfied = leb remaining used;
          count = if leb remaining used then remaining else used;
          pattern_len = 0;
          event = ce;
        }
        | read_until_pattern ↦
            if strcmp_equal ce.pattern special_pattern_crlf
            then found ce (B.search_crlf ce.io)
            else found ce (B.search ce.io ce.pattern)
        | _ ↦ record { satisfied = false; count = 0; pattern_len = 0; event = ce }
      ]

  unfoldable pub satisfy_event : Event B → Option (ℕ × Event B)
  unfolding event_condition_satisfied move_final_conditional_data_to_client
      move_partial_conditional_data_to_client
  satisfy_event ce =
      let c = event_condition_satisfied ce in
      let buff = B.get_used c.event.io in
      if c.satisfied
      then move_final_conditional_data_to_client c.event buff c.count c.pattern_len
      else move_partial_conditional_data_to_client c.event buff c.count

  -- What SocketReceive gives when it is asked for a number of octets: some octets, or none and an
  -- error. With the error 0, fillRecvBuffer has no octets but succeeds.
  pub data Arrival : Type 0 where
    arrived : List ℕ → Arrival
    stopped : ℕ → Arrival

  -- How a read ends: with an error or 0, or asking the socket once more when the answers are used up.
  pub data ReadEnd : Type 0 where
    ended : ℕ → Event B → ReadEnd
    asking : Event B → ReadEnd

  abbrev pub event_of : ReadEnd → Event B
  event_of (ended e ce) = ce
  event_of (asking ce) = ce

  -- The buffer is full.
  unfoldable pub full : Event B → ReadEnd
  full ce =
      if not (ce.data_mode.delete || ce.data_mode.copy)
      then ended 0 (record ce { transferred = length (B.get_used ce.io) })
      else ended enobufs ce

  -- What fillRecvBuffer does with octets that the socket gave.
  unfoldable pub filled : Event B → List ℕ → Event B
  filled ce bs = record ce { io = B.mark_used ce.io bs; received = ce.received ++ bs }

  -- A turn of the loop goes on into fillRecvBuffer if more data is needed and there is free space.
  unfoldable pub go_on : (Event B → Option ReadEnd) → ℕ × Event B → Option ReadEnd
  unfolding full
  go_on more (err, ce) =
      if not (err == econnmoredata)
      then some (ended err ce)
      else if B.get_free ce.io == 0
      then some (full ce)
      else more ce

  unfoldable pub fill : (Event B → Option ReadEnd) → Event B → Arrival → Option ReadEnd
  unfolding filled
  fill again ce (stopped e) = let rest = again ce in if e == 0 then rest else some (ended e ce)
  fill again ce (arrived bs) = again (filled ce bs)

  -- The loop over the answers of the socket, each a function of the number of octets asked for.
  unfoldable pub conditional_read_process : List (ℕ → Arrival) → Event B → Option ReadEnd
  unfolding satisfy_event go_on fill
  conditional_read_process [] ce = satisfy_event ce >>= go_on (λ d. some (asking d))
  conditional_read_process (answer ∷ answers) ce =
      satisfy_event ce
      >>= go_on (λ d. fill (λ e. conditional_read_process answers e) d (answer (B.get_free d.io)))
