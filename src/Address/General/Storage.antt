-- ===== src/Address/General/Storage.antt =====
-- turnserver/network/address_types.h and address_types.cpp: an address given to the system, and
-- taken from it.
use turnserver_v.Base.{ℕ, ◌-◌, ◌≤◌, ◌≡◌, refl, ap, some, take}
use turnserver_v.Address.Host.{ByteOrder}
use turnserver_v.Address.Ipv4.{IsAddress4, new_of_sockaddr_in-new_to_sockaddr_in}
use turnserver_v.Address.Ipv6.{of_sockaddr_in6, to_sockaddr_in6, IsAddress6}
use turnserver_v.Address.Local.{c_str, of_sockaddr_un-to_sockaddr_un}
use turnserver_v.Address.General.{GeneralSocketAddress, of_storage, to_storage}
use turnserver_v.Address.General.GeneralSocketAddress.{address4, address6, address_unix}

-- The integers of an IP address fit into the types of the source.
abbrev pub Fits : GeneralSocketAddress → Type 0
Fits (address4 a) = IsAddress4 a
Fits (address6 a) = IsAddress6 a
Fits (address_unix a) = Unit

-- What of an address the system keeps.
abbrev pub kept : ℕ → GeneralSocketAddress → GeneralSocketAddress
kept size (address4 a) = address4 a
kept size (address6 a) = address6 a
kept size (address_unix a) = address_unix (record { member1 = take (size - 2) (c_str a.member1) })

-- An address that becomes a sockaddr_storage and then an address again is what it was, when it is
-- an IP address whose integers fit; the path of a Unix socket is cut at its first null, and at two
-- bytes less than sun_path has.
pub of_storage-to_storage :
    (o : ByteOrder) (size : ℕ) (a : GeneralSocketAddress)
    → 2 ≤ size
    → Fits a
    → of_storage o (to_storage o size a) ≡ some (kept size a)
unfolding of_storage to_storage of_sockaddr_in6 to_sockaddr_in6
of_storage-to_storage o size (address4 a) h fits =
    ap (λ b. some (address4 b)) (new_of_sockaddr_in-new_to_sockaddr_in o a fits)
of_storage-to_storage o size (address6 a) h fits = refl
of_storage-to_storage o size (address_unix a) h fits =
    rw (of_sockaddr_un-to_sockaddr_un size a h) refl
