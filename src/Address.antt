-- ===== src/Address.antt =====
-- turnserver/network/address_types.h, address_types.inl and address_types.cpp: the addresses of the
-- network.
pub mod Host
pub mod Ipv4
pub mod Ipv6
pub mod Local
pub mod General
pub mod Declared
