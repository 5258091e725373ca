-- ===== src/Server.antt =====
-- turnserver/turnserver_main.cc: the sockets of the server to its worker manager, to the ELBS and to
-- the edge server, with the timers that drive them.
pub mod Socket
pub mod Thread
pub mod Elbs
pub mod Worker
pub mod Joining
