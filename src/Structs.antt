-- ===== src/Structs.antt =====
-- turnserver/base/declare_struct.h: the macros that declare a struct by its members.
pub mod One
pub mod Two
pub mod Three
pub mod Four
pub mod Five
pub mod Six
pub mod Seven
pub mod Eight
pub mod Nine
