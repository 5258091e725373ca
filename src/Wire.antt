-- ===== src/Wire.antt =====
-- The wire format: base/packer.h and base/unpacker.h.
pub mod Packer
pub mod Unpacker
pub mod Codec
pub mod Containers
pub mod Signed
pub mod Sets
pub mod Unordered
pub mod Transfer
