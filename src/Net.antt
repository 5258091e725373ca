-- ===== src/Net.antt =====
-- turnserver/network: connections that carry packets.
pub mod Connection
pub mod Client
pub mod Server
