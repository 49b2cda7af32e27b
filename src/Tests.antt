-- ===== src/Tests.antt =====
-- Runs of the modelled code on small inputs, and the theorems at such inputs.
mod Queues
mod Engine
mod Calls
mod Events
mod Passes
mod Reading
mod Connecting
mod Writing
mod Registry
mod Sockets
mod Threads
mod Sample
