-- ===== src/Process/Event.antt =====
-- The event that src/process.c works on: what it reads and writes of the struct ConnEvent of
-- src/conniop.h, and the buffer of the client.
use connio.Prelude.{
  ℕ, ◌+◌, ◌-◌, Bool, true, ◌&&◌, Option, none, some, List, ◌++◌, ◌==◌, leb, if◌then◌else◌, length,
  take,
}
use connio.Conn.{ConnEventType}
use connio.IoBuffer.{IoBuffers}

-- The flags CONN_READ_COPY to CONN_READ_PARTIAL_OK, one bit each in `dataMode`.
pub record DataMode : Type 0 where
  pub copy : Bool
  pub delete : Bool
  pub terminate : Bool
  pub include_pattern : Bool
  pub replace_pattern : Bool
  pub partial_ok : Bool

-- `written` is the octets from the start of the client's memory to the pointer `write`, and `room` the
-- number of octets of that memory from there on; the source has the field `remaining` for it, which
-- it counts down. `terminated` tells whether a NUL stands at the pointer `write`. `unread` is the octets
-- of the client's memory from the pointer `read` on.
pub record ClientBuffer : Type 0 where
  pub written : List ℕ
  pub room : ℕ
  pub remaining : ℕ
  pub terminated : Bool
  pub unread : List ℕ

-- `received`, `sent` and `consumed` are no fields of the source: they list the octets that came from the
-- socket, that it took, and that a callback took. The octets of `pattern` end at its NUL. `cb_count` and
-- `conn_count` are `args.cb.count` and `args.conn.count`.
pub record Event (B : IoBuffers) : Type 0 where
  pub type : ConnEventType
  pub data_mode : DataMode
  pub client : ClientBuffer
  pub io : B.State
  pub transferred : ℕ
  pub pattern : List ℕ
  pub received : List ℕ
  pub cb_count : ℕ
  pub conn_count : ℕ
  pub sent : List ℕ
  pub consumed : List ℕ

infixl 5 ◌>>=◌
abbrev pub ◌>>=◌ {ℓ κ} : {A : Type ℓ} {C : Type κ} → Option A → (A → Option C) → Option C
none >>= f = none
some a >>= f = f a

module _ (B : IoBuffers) where
  -- `none` is a write outside of the client's memory.
  unfoldable pub terminate_client_buffer : Event B → Option (Event B)
  terminate_client_buffer ce =
      if leb 1 ce.client.room
      then some (record ce { client = record ce.client { terminated = true } })
      else none

  -- `buff` is the octets that may be read at `buff`; `none` is a read outside of them or a write
  -- outside of the client's memory.
  unfoldable pub copy_buffered_data_to_client : Event B → List ℕ → ℕ → Option (Event B)
  copy_buffered_data_to_client ce buff count =
      if count == 0
      then some ce
      else if leb count (length buff) && leb count ce.client.room
      then some (record ce {
        client = record ce.client {
          written = ce.client.written ++ take count buff;
          room = ce.client.room - count;
          remaining = ce.client.remaining - count;
        };
        transferred = ce.transferred + count;
      })
      else none
