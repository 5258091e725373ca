-- ===== src/Examples.antt =====
-- Runs of the model, and the theorems at concrete inputs.
mod Addresses
mod Timers
mod Packets
mod Streams
mod Clients
mod Slices
mod Peers
mod Lbs
mod Maps
mod Servers
mod Spans
mod Workers
