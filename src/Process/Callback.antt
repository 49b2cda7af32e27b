-- ===== src/Process/Callback.antt =====
-- The events of src/process.c whose data a callback of the consumer gives or takes: writeFromCB and
-- readToCallbackProcess. What the callback does in one call is an element of a list.
use connio.Prelude.{
  ℕ, ◌+◌, ◌-◌, Bool, ◌&&◌, not, List, [], ◌∷◌, ◌++◌, ◌==◌, leb, ltb, min, if◌then◌else◌, length,
  take,
}
use connio.Errno.{eagain, eio, enobufs, econniomode, econniobug, econniocbshort, econniocblong}
use connio.Conn.{SocketEventType}
use connio.Wire.{Transfer}
use connio.IoBuffer.{IoBuffers}
use connio.Process.Event.{Event}
use connio.Process.Read.{Arrival, ReadEnd, arrived, stopped, ended, asking, filled}
use connio.Process.Flush.{SendEnd, returned, asking, flush_send_buffer}

pub data ConnIocbResponse : Type 0 where
  iocbr_continue iocbr_done iocbr_need_more_data iocbr_need_more_buffer iocbr_error :
      ConnIocbResponse

-- One call of a callback that gives data, with errno after it. `*count` is the number of octets.
pub record Supply : Type 0 where
  pub response : ConnIocbResponse
  pub octets : List ℕ
  pub error : ℕ

-- One call of a callback that takes data, with `*count` after it.
pub record Taking : Type 0 where
  pub response : ConnIocbResponse
  pub count : ℕ

module _ (B : IoBuffers) where
  -- `args.cb.count` is set, and reached.
  unfoldable pub count_reached : Event B → Bool
  count_reached ce = not (ce.cb_count == 0) && leb ce.cb_count ce.transferred

  unfoldable pub request_size : Event B → ℕ
  request_size ce =
      let space = B.get_free ce.io in
      if ce.cb_count == 0 then space else min space (ce.cb_count - ce.transferred)

  -- Goes on if a flush returned 0.
  unfoldable pub after_flush :
      SendEnd B → (SocketEventType → Event B → List (ℕ → Transfer) → SendEnd B) → SendEnd B
  after_flush (returned e b d rest) k = if e == 0 then k b d rest else returned e b d rest
  after_flush (asking d) k = asking d

  unfoldable pub supplied : Event B → List ℕ → Event B
  supplied ce bs = record ce {
    io = if length bs == 0 then ce.io else B.mark_used ce.io bs;
    transferred = ce.transferred + length bs;
  }

  -- The switch on the result of the callback; `again` is the next turn of the loop.
  unfoldable pub respond :
      (SocketEventType → Event B → List (ℕ → Transfer) → SendEnd B)
      → Supply
      → SocketEventType
      → Event B
      → List (ℕ → Transfer)
      → SendEnd B
  unfolding after_flush
  respond again s b ce rest = elim s.response [
    | iocbr_continue ↦ again b ce rest
    | iocbr_need_more_buffer ↦
        let (more, io) = B.increase_free ce.io in
        let d = record ce { io = io } in
        if more then again b d rest else after_flush (flush_send_buffer B rest b d) again
    | iocbr_done ↦
        if ce.cb_count == 0
        then flush_send_buffer B rest b (record ce { cb_count = ce.transferred })
        else returned econniocbshort b ce rest
    | iocbr_error ↦
        if s.error == eagain
        then returned econniomode b ce rest
        else if s.error == 0
        then returned econniobug b ce rest
        else returned s.error b ce rest
    | iocbr_need_more_data ↦ returned econniomode b ce rest
  ]

  -- A turn of the loop from the call of the callback on.
  unfoldable pub call_supplier :
      (SocketEventType → Event B → List (ℕ → Transfer) → SendEnd B)
      → (ℕ → Supply)
      → SocketEventType
      → Event B
      → List (ℕ → Transfer)
      → SendEnd B
  unfolding request_size supplied count_reached respond
  call_supplier again func b ce rest =
      let size = request_size ce in
      let s = func size in
      let n = length s.octets in
      let d = supplied ce s.octets in
      if ltb size n
      then returned econniocblong b ce rest
      else if ltb 0 n && count_reached d
      then flush_send_buffer B rest b d
      else respond again s b d rest

  -- The start of a turn: a flush if there is no free space, and the end if the count is reached.
  unfoldable pub make_room :
      (SocketEventType → Event B → List (ℕ → Transfer) → SendEnd B)
      → SocketEventType
      → Event B
      → List (ℕ → Transfer)
      → SendEnd B
  unfolding after_flush count_reached
  make_room call b ce rest =
      let go : SocketEventType → Event B → List (ℕ → Transfer) → SendEnd B =
        λ c d more. if count_reached d then flush_send_buffer B more c d else call c d more in
      if B.get_free ce.io == 0 then after_flush (flush_send_buffer B rest b ce) go else go b ce rest

  unfoldable pub write_from_cb :
      List (ℕ → Supply) → SocketEventType → Event B → List (ℕ → Transfer) → SendEnd B
  unfolding call_supplier make_room
  write_from_cb [] b ce rest = make_room (λ c d more. asking d) b ce rest
  write_from_cb (func ∷ funcs) b ce rest =
      make_room (call_supplier (write_from_cb funcs) func) b ce rest

  unfoldable pub taken : Event B → List ℕ → ℕ → Event B
  taken ce buff n = record ce {
    io = if n == 0 then ce.io else B.mark_free ce.io n;
    transferred = ce.transferred + n;
    consumed = ce.consumed ++ take n buff;
  }

  -- The octets that the callback is offered.
  unfoldable pub offer : Event B → ℕ
  offer ce =
      let used = length (B.get_used ce.io) in
      if ce.cb_count == 0 then used else min used (ce.cb_count - ce.transferred)

  -- The call of the callback and the switch on its result; `again` is the next turn of the loop and
  -- `more` the way to fillRecvBuffer.
  unfoldable pub call_taker :
      (Event B → ReadEnd B) → (Event B → ReadEnd B) → (List ℕ → Taking) → Event B → ReadEnd B
  unfolding taken offer count_reached
  call_taker again more func ce =
      let buff = B.get_used ce.io in
      let used = offer ce in
      let t = func (take used buff) in
      let d = taken ce buff t.count in
      if count_reached ce
      then ended 0 ce
      else if ltb used t.count
      then ended econniocblong ce
      else if ltb 0 t.count && count_reached d
      then ended 0 d
      else elim t.response [
        | iocbr_continue ↦ again d
        | iocbr_done ↦ if d.cb_count == 0 then ended 0 d else ended econniocbshort d
        | iocbr_need_more_data ↦
            let (joined, io) = B.defrag d.io in
            let c = record d { io = io } in
            if t.count == used
            then again d
            else if joined
            then again c
            else if B.get_free io == 0
            then ended enobufs c
            else more c
        | iocbr_need_more_buffer ↦ ended econniomode d
        | iocbr_error ↦ ended eio d
      ]

  -- fillRecvBuffer, and the next turn.
  unfoldable pub refill : (Event B → ReadEnd B) → (ℕ → Arrival B) → Event B → ReadEnd B
  unfolding filled
  refill again answer ce =
      if B.get_free ce.io == 0 then ended enobufs ce else elim (answer (B.get_free ce.io)) [
        | arrived bs ↦ again (filled B ce bs)
        | stopped e ↦ let next = again ce in if e == 0 then next else ended e ce
      ]

  -- No more answers of the socket.
  unfoldable pub refill_asking : Event B → ReadEnd B
  refill_asking ce = if B.get_free ce.io == 0 then ended enobufs ce else asking ce

  unfoldable pub read_to_callback_process :
      List (List ℕ → Taking) → List (ℕ → Arrival B) → Event B → ReadEnd B
  unfolding call_taker refill refill_asking count_reached
  read_to_callback_process [] [] ce =
      if length (B.get_used ce.io) == 0
      then refill_asking ce
      else if count_reached ce
      then ended 0 ce
      else asking ce
  read_to_callback_process [] (answer ∷ answers) ce =
      if length (B.get_used ce.io) == 0
      then refill (read_to_callback_process [] answers) answer ce
      else if count_reached ce
      then ended 0 ce
      else asking ce
  read_to_callback_process (func ∷ funcs) [] ce =
      if length (B.get_used ce.io) == 0
      then refill_asking ce
      else call_taker (read_to_callback_process funcs []) refill_asking func ce
  read_to_callback_process (func ∷ funcs) (answer ∷ answers) ce =
      if length (B.get_used ce.io) == 0
      then refill (read_to_callback_process (func ∷ funcs) answers) answer ce
      else call_taker (read_to_callback_process funcs (answer ∷ answers))
          (refill (read_to_callback_process funcs answers) answer) func ce
