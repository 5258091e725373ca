-- ===== src/Lbs.antt =====
-- turnserver/lbs: the client of the unified LBS.
pub mod Connection
pub mod Client
