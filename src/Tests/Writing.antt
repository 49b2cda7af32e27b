-- ===== src/Tests/Writing.antt =====
-- Tests of the synchronous writes of src/connio.c.
use connio.Prelude.{ℕ, ◌≡◌, refl, true, Option, none, some, [], ◌∷◌, arith}
use connio.IoBuffer.Memory.{Piece, memory, memory-IsLawful}
use connio.Process.Dispatch.{Attempt}
use connio.Writing.{Wrote, pour, conn_write_ex}
use connio.Writing.Copied.{Pours, pour-Pours}
use connio.Tests.Events.{one_at_most}
use connio.Tests.Passes.{reads}
use connio.Tests.Connecting.{caller}

abbrev outcome : Option (Wrote memory) → Option (ℕ × ℕ × Option ℕ × Option Piece)
outcome none = none
outcome (some w) = some (w.errno, w.transferred, w.conn.send_buffer, w.buffer)

-- Octets that fit are kept.
fits_test :
    outcome (
      conn_write_ex memory [] caller
        (some (record { octets = 1 ∷ []; free = 3 }))
        true
        (2 ∷ 3 ∷ []))
    ≡ some (0, 2, some 3, some (record { octets = 1 ∷ 2 ∷ 3 ∷ []; free = 1 }))
unfolding conn_write_ex
fits_test = refl

-- The buffer is full after one octet, is sent, and a new one takes the other.
abbrev sends : Attempt memory
sends = record { turn = record reads.turn { senders = one_at_most ∷ [] }; waited = 0 }

full_test :
    outcome (
      conn_write_ex memory
        (record { attempts = sends ∷ sends ∷ []; next = some (record { octets = []; free = 4 }) }
          ∷ [])
        caller
        (some (record { octets = 1 ∷ []; free = 1 }))
        true
        (2 ∷ 3 ∷ []))
    ≡ some (0, 2, some 1, some (record { octets = 3 ∷ []; free = 3 }))
unfolding conn_write_ex
full_test = refl

-- Two of the three octets fit into the buffer.
pour-Pours_example :
    Pours memory memory-IsLawful
      (1 ∷ 2 ∷ 3 ∷ 4 ∷ [])
      (pour memory 4 (record { octets = 1 ∷ []; free = 2 }) (2 ∷ 3 ∷ 4 ∷ []))
pour-Pours_example =
    pour-Pours memory memory-IsLawful 4 (record { octets = 1 ∷ []; free = 2 }) (2 ∷ 3 ∷ 4 ∷ [])
      (omega arith)
