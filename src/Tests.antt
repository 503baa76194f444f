-- ===== src/Tests.antt =====
-- The code at concrete packets and tables, and the theorems at these.
mod Data
mod Packets
mod Sessions
mod Sockets
mod Handlers
mod Gateway
mod EndToEnd
mod Hash
mod Trials
