-- ===== src/Tests/Connecting.antt =====
-- Tests of the calls of src/connio.c that start and end SSL and disconnect.
use connio.Prelude.{ℕ, ◌≡◌, refl, Bool, true, false, Option, none, some, [], ◌∷◌}
use connio.Errno.{eagain, enotconn, ealready, econnclosedbypeer}
use connio.Conn.{ConnState, idle}
use connio.IoBuffer.Memory.{memory}
use connio.Process.Step.{over, discarded}
use connio.Reading.{Caller}
use connio.Reading.Connecting.{Done, conn_disconnect_ex, conn_ssl_connect_ex}
use connio.Reading.Eat.{alone}
use connio.Tests.Passes.{reads}
use connio.Tests.Sample.{empty_conn}

abbrev pub caller : Caller memory
caller = record {
  conn = alone empty_conn;
  event = 5;
  receive = record { octets = []; free = 4 };
  send = record { octets = []; free = 0 };
  room = 0;
  flushes = [];
  reads = [];
}

abbrev summary : Option (Done memory) → Option (Bool × ℕ × ConnState)
summary none = none
summary (some d) = some (d.result, d.errno, d.conn.state)

-- The disconnect waits for the peer, then takes what still comes, and the peer closes.
disconnect_test :
    summary (
      conn_disconnect_ex memory (record caller {
        reads =
            record { turn = record reads.turn { started = eagain }; waited = 0 }
            ∷ record {
              turn = record reads.turn { drains = discarded 7 ∷ over econnclosedbypeer ∷ [] };
              waited = 0;
            }
            ∷ [];
      }))
    ≡ some (true, 0, idle)
unfolding conn_disconnect_ex
disconnect_test = refl

-- Neither without a socket, nor on one that uses SSL.
not_connected_test :
    summary (
      conn_disconnect_ex memory (record caller {
        conn = record caller.conn { sp = record caller.conn.sp { valid = false } };
      }))
    ≡ some (false, enotconn, idle)
unfolding conn_disconnect_ex
not_connected_test = refl

secured_test :
    summary (
      conn_ssl_connect_ex memory
        (record caller {
          conn = record caller.conn { sp = record caller.conn.sp { ssl_conn = true } };
        })
        true)
    ≡ some (false, ealready, idle)
unfolding conn_ssl_connect_ex
secured_test = refl
