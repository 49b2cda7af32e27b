-- ===== src/Process.antt =====
-- The processing of events, src/process.c, over the buffers of another library. Reads are in Read,
-- what is sent in Flush, the callbacks of consumers in Callback, and the whole in Dispatch. An errno
-- value that a function returns is its result, 0 for none.
pub mod Event
pub mod Read
pub mod Flush
pub mod Callback
pub mod Step
pub mod Dispatch
pub mod Delivery
pub mod Inside
pub mod Bounds
pub mod Stream
pub mod Satisfy
pub mod Exact
