-- ===== src/Lib.antt =====
-- The connection library connio: a model of how a connection schedules the work of its consumers.
--
-- A consumer reads, writes, connects and disconnects a connection by events. A synchronous call puts
-- its event into a slot of the connection, works on it, and takes it out (src/connio.c). Asynchronous
-- calls append events to the queue of the connection and submit the queue (src/queue.c); threads then
-- take events from the queue into the three slots connect, send and receive, process them, and the
-- last thread out reports the transaction to the consumer. The event lock of a connection serialises
-- the functions on its queue and slots, so that such a function of the model is what one thread does
-- while it holds the lock. Where the source releases the lock in the middle of a function, the model
-- has one function for each part.
--
-- The parts, and the files of the repository that they model:
--   Errno, Conn        the types of src/conniop.h and include/connio.h; an event is an address, and
--                      each field of its struct a function of the address
--   Conn.InProgress    src/conninline.h: the state of a connection and its slots
--   Dll                the doubly linked list that the queue and the list of connections share
--   EventQueue         src/queue.c, first part: the queue, the list of events to free, the searches
--   Transaction        src/queue.c, second part: problems, aborts, ConnEventNext and ConnEventsProcess,
--                      the latter as process_enter (a thread comes in), pick (it looks for work with
--                      the lock held), finish (an event is done) and leave (the thread goes);
--                      Transaction.Steps is the relation of what the threads do one after another
--   Enqueue            src/queue.c, third part: EventEnqueue, EventsSubmit and the consumer's summary,
--                      with the small functions of src/connio.c that they call
--   Wire               src/sockcommon.c: sslErrorGet and sslReceive to socketSend
--   Sock               src/sockcommon.c: Start makes and closes sockets, Secure starts and ends SSL,
--                      Wait waits for a socket, with the poll waits of src/sockunix.c
--   SockEvent          the socket events: SockEvent itself the event in the engine of src/sockunix.c,
--                      Timers its lists of timeouts, Engine what becomes of an event that comes out
--                      of it, Wait the waits and kills of src/sockcommon.c, Accept the cache of accept
--                      events; Once.Steps is the relation of all that can happen to a SOCK
--   ThreadEngine       src/threadengine.c: the list of the thread engines and the count over it
--   IoBuffer           what the code relies on of the buffers of another library: the laws are a
--                      parameter of the theorems, and IoBuffer.Memory shows that they can hold
--   Process            src/process.c: Event is the event at work and the copies into the client's
--                      memory, Read the conditional reads, Flush the sends, Callback the events with
--                      callbacks, Step one pass over an event (socketEventProcess) and Dispatch the
--                      rest, up to ConnEventProcess
--   Reading            src/connio.c: the calls that read, flush, disconnect, or start or end SSL, with
--                      the slots of Sync, the queue of Enqueue and the processing of Process
--   Writing            src/connio.c: writeClientData and the synchronous writes
--   Sync               src/connio.c: the slots of synchronous calls
--   ConnList           src/connio.c: the list of the connections in use
--   Shutdown           src/connio.c: kills, and waiting for connections to exit
--   Throttle           src/throttle.c: when a listener pauses, and how long
--   Listener           src/connio.c: the loops that stop, suspend, resume and expire listeners
-- Prelude holds what all of them share, Tests runs the model and its theorems on small inputs. The
-- theorems on a part stand in its child modules, which are named for what they are about.
--
-- Functions keep their names, in snake case. A function that returns FALSE and sets errno returns the
-- errno value in an Option, `none` for TRUE. The unsigned long and int counters wrap at 2^64 and 2^32.
-- The searches of the queue have the event counter as fuel; it is the number of events queued, and
-- each event is visited once. The loops over listeners have the number of listeners ever added as fuel,
-- and no listener is in the list that was not added. The two polling waits and the loop of a paused
-- listener run over a list of what each poll finds; they answer polling or spinning when the list
-- ends.
--
-- What the system, the SSL library, the socket, a callback or another connection answer is a list of
-- functions from what they are asked, one for each call; a routine that has used up its list asks for
-- another answer, which is a result of its own. `none` of a read stands for a use of memory outside of
-- what is the routine's. Octets that came in or went out are kept in lists that the source has not.
--
-- The sweep of a list of timeouts and the loops over the thread engines have fuel, and the length of
-- the list is enough; so has the flush of the cache of accept events, where the number of events in
-- the fast list is enough.
--
-- Not modelled: in Transaction the processing of an event is an argument, Process is called by Reading
-- and Writing; the asynchronous and the formatted writes, and ConnConnect; the engine of the sockets
-- for Windows (src/sockwin.c), which stands on structures that the repository does not have; of
-- src/sockunix.c the loop of _PollThread around its parts and the start of the engine; of
-- src/sockcommon.c the BIO functions, the addresses, and the start and end of the library; in the
-- queue, buffers but for the number of bytes in use; allocation, whose result is an argument; how
-- listeners are added, started and removed; configuration, traces and logs. The model of a socket in
-- Conn and that of Sock.Start are apart: the former has what the connection reads.
-- A timeout of the socket engine leaves its list and completes its event in one step; the source lets
-- go of the lock of the SOCK in between. Assertions are debugging aids and have no effect here.
mod Prelude
pub mod Dll
pub mod Errno
pub mod Conn
pub mod EventQueue
pub mod Transaction
pub mod Enqueue
pub mod Sync
pub mod ConnList
pub mod Shutdown
pub mod Throttle
pub mod Listener
pub mod Wire
pub mod Sock
pub mod SockEvent
pub mod ThreadEngine
pub mod IoBuffer
pub mod Process
pub mod Reading
pub mod Writing
mod Tests
