-- ===== src/Packet.antt =====
-- The packets of the program: turnserver/base/packet.h, and the structs declared by the macros of
-- turnserver/base/packet_helper.h, one module for each number of members.
pub mod Head
pub mod Zero
pub mod One
pub mod Two
pub mod Three
pub mod Four
pub mod Five
pub mod Six
pub mod Seven
pub mod Eight
pub mod Nine
pub mod Ten
pub mod Eleven
pub mod Twelve
pub mod Thirteen
pub mod Fourteen
pub mod Lbs
pub mod Elbs
