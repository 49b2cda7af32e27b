-- ===== src/Tests/Events.antt =====
-- Tests of src/process.c and of the sends of src/sockcommon.c.
use connio.Prelude.{
  ℕ, zero, suc, ◌≤◌, ◌≡◌, inl, inr, refl, true, false, none, some, List, [], ◌∷◌, length, take,
  arith, All,
}
use connio.Errno.{eagain}
use connio.Conn.{type_none, type_writable, read_count}
use connio.Wire.{Transfer, ssl_moved, ssl_failed, want_write, socket_send, ssl_failure}
use connio.Wire.Send.{socket_send-forgets}
use connio.IoBuffer.Memory.{memory, memory-IsLawful}
use connio.Process.Event.{Event, DataMode}
use connio.Process.Read.{
  Arrival, ReadEnd, arrived, stopped, ended, event_of, conditional_read_process,
}
use connio.Process.Delivery.{Fits}
use connio.Process.Bounds.{conditional_read_process-bounds}
use connio.Process.Stream.{IsPlain, Conserves}
use connio.Process.Exact.{
  IsHonest, IsExact, conditional_read_process-Conserves, conditional_read_process-IsExact,
}
use connio.Process.Flush.{flush_send_buffer, send_from_client_buffer}
use connio.Process.Flush.Sent.{IsSender, IsFlushed, IsSent, sends_complete}

abbrev plain_mode : DataMode
plain_mode = record {
  copy = true;
  delete = true;
  terminate = false;
  include_pattern = false;
  replace_pattern = false;
  partial_ok = false;
}

-- A read of four octets into a memory of five, two octets being in the buffer.
abbrev pub four : Event memory
four = record {
  type = read_count;
  data_mode = plain_mode;
  client = record { written = []; room = 5; remaining = 4; terminated = false; unread = [] };
  io = record { octets = 1 ∷ 2 ∷ []; free = 8 };
  transferred = 0;
  pattern = [];
  received = [];
  cb_count = 0;
  conn_count = 0;
  sent = [];
  consumed = [];
}

four-Fits : Fits memory 4 four
four-Fits = record { within = omega arith; whole = refl }

four-IsPlain : IsPlain memory plain_mode
four-IsPlain = record { copies = refl; deletes = refl; keeps_pattern = refl }

-- The socket has three octets, and then nothing.
abbrev pub three : ℕ → Arrival memory
three n = arrived (take n (3 ∷ 4 ∷ 5 ∷ []))

abbrev pub blocks : ℕ → Arrival memory
blocks n = stopped eagain

length-take_bound : (n : ℕ) (xs : List ℕ) → length (take n xs) ≤ n
length-take_bound zero xs = omega arith
length-take_bound (suc n) [] = omega arith
length-take_bound (suc n) (x ∷ xs) = omega (arith, length-take_bound n xs)

three-IsHonest : All (IsHonest memory) (three ∷ [])
three-IsHonest = (λ n. length-take_bound n (3 ∷ 4 ∷ 5 ∷ []), _)

-- The client has its four octets, and one stays in the buffer.
read_four_test :
    conditional_read_process memory (three ∷ []) four
    ≡ some (
        ended 0 (record four {
          client = record four.client { written = 1 ∷ 2 ∷ 3 ∷ 4 ∷ []; room = 1; remaining = 0 };
          io = record { octets = 5 ∷ []; free = 9 };
          transferred = 4;
          received = 3 ∷ 4 ∷ 5 ∷ [];
        }))
unfolding conditional_read_process
read_four_test = refl

conditional_read_process-bounds_example :
    (r : ReadEnd memory) × (conditional_read_process memory (three ∷ blocks ∷ []) four ≡ some r)
    × Fits memory 4 (event_of memory r)
conditional_read_process-bounds_example =
    conditional_read_process-bounds memory memory-IsLawful 4 (three ∷ blocks ∷ []) four four-Fits

conditional_read_process-Conserves_example :
    (r : ReadEnd memory) × (conditional_read_process memory (three ∷ []) four ≡ some r)
    × Conserves memory (1 ∷ 2 ∷ []) (event_of memory r)
conditional_read_process-Conserves_example =
    conditional_read_process-Conserves memory memory-IsLawful 4 (1 ∷ 2 ∷ []) true (three ∷ []) four
      three-IsHonest refl four-IsPlain four-Fits refl

conditional_read_process-IsExact_example :
    (r : ReadEnd memory) × (conditional_read_process memory (three ∷ []) four ≡ some r)
    × IsExact memory 4 (1 ∷ 2 ∷ []) r
conditional_read_process-IsExact_example =
    conditional_read_process-IsExact memory memory-IsLawful 4 (1 ∷ 2 ∷ []) (three ∷ []) four
      three-IsHonest refl four-IsPlain four-Fits refl

-- A socket that takes one octet at most, and blocks then.
abbrev pub one_at_most : ℕ → Transfer
one_at_most zero = record { count = some 0; blocked_on = type_none; error = 0 }
one_at_most (suc n) = record { count = some 1; blocked_on = type_writable; error = eagain }

one_at_most-IsSender : IsSender one_at_most
one_at_most-IsSender zero = (omega arith, inr refl)
one_at_most-IsSender (suc n) = (omega arith, inl (λ e. absurd (omega (arith, e))))

abbrev pub writing : Event memory
writing = record four { client = record four.client { remaining = 2; unread = 7 ∷ 8 ∷ [] } }

sends_complete_example :
    IsFlushed memory
      (1 ∷ 2 ∷ [])
      (flush_send_buffer memory (one_at_most ∷ one_at_most ∷ []) type_none writing)
    × IsSent memory
        (7 ∷ 8 ∷ [])
        (send_from_client_buffer memory (one_at_most ∷ one_at_most ∷ []) type_none writing)
sends_complete_example =
    sends_complete memory memory-IsLawful (one_at_most ∷ one_at_most ∷ []) type_none writing
      (one_at_most-IsSender, (one_at_most-IsSender, _)) (omega arith) (omega arith)

socket_send-forgets_example :
    (socket_send [] (ssl_moved 2 ∷ ssl_failed want_write ∷ []) true 5
      ≡ some (ssl_failure want_write))
    × (socket_send [] (ssl_failed want_write ∷ []) true 5 ≡ some (ssl_failure want_write))
    × ((ssl_failure want_write).count ≡ none)
socket_send-forgets_example = socket_send-forgets (1 ∷ []) want_write 5 [] [] (omega arith)
