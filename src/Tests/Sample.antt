-- ===== src/Tests/Sample.antt =====
-- A connection with a read (1), a flush (2), another read (3) and a disconnect (4).
use connio.Prelude.{ℕ, refl, inl, true, false, none, [], ◌∷◌, arith, ◌==◌, if◌then◌else◌}
use connio.Conn.{
  ConnEventClass, class_connect, class_receive, class_send, Conn, ConnEvents, ConnEventType,
  CodeSource, AsyncTransaction, ActiveEvent, read, flush, disconnect, queued, asynchronous_client,
}
use connio.EventQueue.FreeList.{Owns}
use connio.Transaction.Invariant.{WorkInv, Placed}
use connio.EventQueue.{event_queue_append_event}
use connio.EventQueue.Contents.{IsQueue, append-IsQueue}
use connio.EventQueue.Scan.{class_of}

abbrev type_at : ℕ → ConnEventType
type_at p = if p == 2 then flush else if p == 4 then disconnect else read

abbrev pub here : CodeSource
here = record { file = "mail.c"; line = 10 }

abbrev pub sample_events : ConnEvents
sample_events = record {
  type = type_at;
  event_class = λ p. class_of (type_at p);
  error = λ p. 0;
  status = λ p. queued;
  transferred = λ p. 7;
  source = λ p. here;
  inserted = λ p. false;
  links = record { next = λ p. none; previous = λ p. none };
}

abbrev pub fresh : AsyncTransaction
fresh = record {
  queue = record { head = none; tail = none };
  count = 0;
  free_list = none;
  sent = 0;
  received = 0;
  client = 0;
  problem = none;
  threads = 0;
  ssl_enabled = false;
}

abbrev pub no_slots : ActiveEvent
no_slots = record { connect = none; send = none; receive = none }

abbrev pub empty_conn : Conn
empty_conn = record {
  state = asynchronous_client;
  active = no_slots;
  tx = fresh;
  events = sample_events;
  sp = record { valid = true; ssl_conn = false; ssl_new = false; kills = [] };
  handle = record { shutting_down = false; wait_for_submit = false };
  send_buffer = none;
}

unfoldable pub sample : Conn
unfolding event_queue_append_event
sample =
    event_queue_append_event
      (event_queue_append_event (event_queue_append_event (event_queue_append_event empty_conn 1) 2)
        3)
      4

pub empty-IsQueue : IsQueue empty_conn []
empty-IsQueue = record {
  holds = record { head_first = refl; tail_last = refl; linked = tt; distinct = tt };
  counted = refl;
  fits = omega arith;
}

pub sample-IsQueue : IsQueue sample (1 ∷ 2 ∷ 3 ∷ 4 ∷ [])
unfolding sample
sample-IsQueue =
    let q1 = append-IsQueue empty_conn [] 1 empty-IsQueue tt (omega arith) in
    let q2 = append-IsQueue _ (1 ∷ []) 2 q1 (omega arith) (omega arith) in
    let q3 = append-IsQueue _ (1 ∷ 2 ∷ []) 3 q2 (omega arith) (omega arith) in
    append-IsQueue _ (1 ∷ 2 ∷ 3 ∷ []) 4 q3 (omega arith) (omega arith)

pub sample-Owns : Owns sample (1 ∷ 2 ∷ 3 ∷ 4 ∷ []) []
unfolding sample
sample-Owns = record {
  queue = sample-IsQueue;
  head_free = refl;
  free_linked = tt;
  apart = omega arith;
  distinct_free = tt;
}

no_slots-Placed : (k : ConnEventClass) → Placed sample (1 ∷ 2 ∷ 3 ∷ 4 ∷ []) [] k
unfolding sample
no_slots-Placed class_connect p e = cc
no_slots-Placed class_receive p e = cc
no_slots-Placed class_send p e = cc

pub sample-WorkInv : WorkInv sample (1 ∷ 2 ∷ 3 ∷ 4 ∷ []) []
unfolding sample
sample-WorkInv = record {
  owns = sample-Owns;
  exclusive = inl refl;
  classed = λ p. refl;
  placed = no_slots-Placed;
  aborted = λ a e. cc;
}
