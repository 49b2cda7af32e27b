-- ===== src/Conn.antt =====
-- The connection and its events: src/conniop.h, include/connio.h and src/conninline.h.
-- An event is an address; each field of the struct ConnEvent that the queue reads is a function
-- of it. NULL is `none`, an errno value a number (0 for no error).
pub mod InProgress
use Prim.Native.String.{String}
use connio.Prelude.{ℕ, Bool, true, false, Option, none, some, List, []}
use connio.Dll.{Links, Ends, update}

pub data ConnEventType : Type 0 where
  accept connect disconnect : ConnEventType
  ssl_accept tls_accept ssl_connect tls_connect ssl_disconnect : ConnEventType
  read read_count read_until_pattern read_to_cb read_to_conn : ConnEventType
  write_from_cb write_from_client_buffer flush : ConnEventType

pub data ConnEventClass : Type 0 where
  class_connect class_receive class_send : ConnEventClass

pub data ConnEventStatus : Type 0 where
  queued in_progress partial complete timed_out failed killed : ConnEventStatus

pub data ConnState : Type 0 where
  free cached idle synchronous : ConnState
  asynchronous_client asynchronous_engine asynchronous_engine_complete : ConnState
  synchronous_listener asynchronous_listener : ConnState

pub data SocketEventType : Type 0 where
  type_none type_listen type_readable type_writable type_connect type_disconnect : SocketEventType

pub record CodeSource : Type 0 where
  pub file : String
  pub line : ℕ

pub record ConnEvents : Type 0 where
  pub type : ℕ → ConnEventType
  pub event_class : ℕ → ConnEventClass
  pub error : ℕ → ℕ
  pub status : ℕ → ConnEventStatus
  pub transferred : ℕ → ℕ
  pub source : ℕ → CodeSource
  pub inserted : ℕ → Bool
  pub links : Links

-- The struct behind the pointer `problem`; the pointer is an `Option`.
pub record AsyncProblem : Type 0 where
  pub status : ConnEventStatus
  pub error : ℕ
  pub source : CodeSource

-- `count` is a 64-bit unsigned long, `sent` and `received` are the bit patterns of 32-bit ints.
-- `threads` counts the threads inside; each leaves after it came in, so that `threads--` finds at least
-- 1 in the source, and the subtraction on numbers is that of the source.
pub record AsyncTransaction : Type 0 where
  pub queue : Ends
  pub count : ℕ
  pub free_list : Option ℕ
  pub sent : ℕ
  pub received : ℕ
  pub client : ℕ
  pub problem : Option AsyncProblem
  pub threads : ℕ
  pub ssl_enabled : Bool

pub record ActiveEvent : Type 0 where
  pub connect : Option ℕ
  pub send : Option ℕ
  pub receive : Option ℕ

-- The socket behind `conn->sp`: whether it has a number, its two SSL pointers, and the kinds of
-- socket events that it was asked to kill, newest first.
pub record Sock : Type 0 where
  pub valid : Bool
  pub ssl_conn : Bool
  pub ssl_new : Bool
  pub kills : List SocketEventType

pub record ConnHandle : Type 0 where
  pub shutting_down : Bool
  pub wait_for_submit : Bool

-- ConnectionPriv with what its pointers reach. The names of the fields are the source's, but for
-- `tx`, which is async.transaction, and `active`, which is activeEvent. Of the buffer behind
-- `sendBuffer` the number of bytes in use is kept.
pub record Conn : Type 0 where
  pub state : ConnState
  pub active : ActiveEvent
  pub tx : AsyncTransaction
  pub events : ConnEvents
  pub sp : Sock
  pub handle : ConnHandle
  pub send_buffer : Option ℕ

abbrev pub set_error : ConnEvents → ℕ → ℕ → ConnEvents
set_error es p e = record es { error = update es.error p e }

abbrev pub set_status : ConnEvents → ℕ → ConnEventStatus → ConnEvents
set_status es p s = record es { status = update es.status p s }
