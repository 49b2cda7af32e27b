-- ===== src/Writing.antt =====
-- The synchronous writes of src/connio.c: writeClientData and the calls that use it. The send buffer is
-- a buffer of the library's; allocated ones are an argument.
pub mod Copied
use connio.Prelude.{
  ℕ, zero, suc, ◌-◌, pos, Bool, Option, none, some, List, [], ◌∷◌, ◌==◌, ltb, if◌then◌else◌, length,
  take, drop,
}
use connio.Errno.{enomem}
use connio.Conn.{Conn}
use connio.Sync.{synchronous_send_event_insert}
use connio.IoBuffer.{IoBuffers}
use connio.Process.Dispatch.{Attempt}
use connio.Reading.{Caller}
use connio.Reading.Passing.{
  Verdict, accepted, nothing_to_do, invalid, valid_conn_io_args, in_use, conn_flush_data,
}

module _ (B : IoBuffers) where
  -- What a flush of a full buffer meets, and the buffer that is allocated after it.
  pub record Refill : Type 0 where
    pub attempts : List (Attempt B)
    pub next : Option B.State

  -- The buffer after the loop over its free space: it took all octets and is kept, or it is full and
  -- the octets are left.
  pub data Poured : Type 0 where
    kept : B.State → Poured
    filled_up : B.State → List ℕ → Poured

  -- A turn takes one octet at least, and one turn more finds that none is left.
  unfoldable pub pour : ℕ → B.State → List ℕ → Poured
  pour zero s rest = filled_up s rest
  pour (suc fuel) s rest =
      let space = B.get_free s in
      let more = pour fuel (B.mark_used s (take space rest)) (drop space rest) in
      if space == 0
      then filled_up s rest
      else if ltb (length rest) space
      then kept (B.mark_used s rest)
      else more

  -- The calls keep the count of octets in `send_buffer` of the connection.
  unfoldable pub keep : Conn → B.State → Conn
  keep c s = record c { send_buffer = some (length (B.get_used s)) }

  -- errno, the octets that were taken, and the connection.
  pub record Wrote : Type 0 where
    pub errno : ℕ
    pub transferred : ℕ
    pub conn : Conn
    pub buffer : Option B.State

  -- The loop from a buffer on, `count` octets being the whole.
  unfoldable pub write_loop : List Refill → Caller B → Conn → B.State → List ℕ → ℕ → Option Wrote
  unfolding pour keep conn_flush_data synchronous_send_event_insert
  write_loop [] k c s rest count = elim (pour (suc (length rest)) s rest) [
    | kept t ↦ some (record { errno = 0; transferred = count; conn = keep c t; buffer = some t })
    | filled_up t left ↦ none
  ]
  write_loop (r ∷ rs) k c s rest count = elim (pour (suc (length rest)) s rest) [
    | kept t ↦ some (record { errno = 0; transferred = count; conn = keep c t; buffer = some t })
    | filled_up t left ↦
        let caller = record k { conn = c; send = t; flushes = r.attempts } in
        elim (conn_flush_data B caller (synchronous_send_event_insert c k.event)) [
          | none ↦ none
          | some reply ↦
              let written = count - length left in
              let again = λ (u : B.State). write_loop rs k reply.conn u left count in
              if reply.errno == 0
              then elim r.next [
                | none ↦ some (record {
                  errno = enomem;
                  transferred = written;
                  conn = reply.conn;
                  buffer = none;
                })
                | some u ↦ again u
              ]
              else some (record {
                errno = reply.errno;
                transferred = written;
                conn = reply.conn;
                buffer = none;
              })
        ]
  ]

  -- writeClientData for a synchronous call. `first` is the buffer of the connection or a new one.
  unfoldable pub write_client_data : List Refill → Caller B → Option B.State → List ℕ → Option Wrote
  unfolding write_loop
  write_client_data refills k first octets =
      if length octets == 0
      then some (record { errno = 0; transferred = 0; conn = k.conn; buffer = first })
      else elim first [
        | none ↦ some (record { errno = enomem; transferred = 0; conn = k.conn; buffer = none })
        | some s ↦
            write_loop refills k (record k.conn { send_buffer = none }) s octets (length octets)
      ]

  unfoldable pub run_write :
      Verdict → List Refill → Caller B → Option B.State → List ℕ → Option Wrote
  unfolding write_client_data
  run_write accepted refills k first octets = write_client_data refills k first octets
  run_write nothing_to_do refills k first octets =
      some (record { errno = 0; transferred = 0; conn = k.conn; buffer = first })
  run_write (invalid e) refills k first octets =
      some (record { errno = e; transferred = 0; conn = k.conn; buffer = first })

  -- `given` tells whether the pointer `data` is not NULL.
  unfoldable pub conn_write_ex :
      List Refill → Caller B → Option B.State → Bool → List ℕ → Option Wrote
  unfolding run_write in_use valid_conn_io_args
  conn_write_ex refills k first given octets =
      run_write (in_use k.conn (valid_conn_io_args given (pos (length octets)))) refills k first
        octets

  unfoldable pub conn_write_string_ex :
      List Refill → Caller B → Option B.State → Bool → List ℕ → Option Wrote
  unfolding run_write in_use valid_conn_io_args
  conn_write_string_ex refills k first given octets =
      run_write (in_use k.conn (valid_conn_io_args given (pos 1))) refills k first octets
