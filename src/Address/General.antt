-- ===== src/Address/General.antt =====
-- turnserver/network/address_types.h and address_types.cpp: class GeneralSocketAddress, one of three
-- kinds of address in a union.
--
-- `version_` and the member of the union that it names are one constructor, so that Destroy, the
-- copy constructor and the assignment leave nothing to model but the value.
pub mod Order
pub mod Wire
pub mod Storage
pub mod Hash
use turnserver_v.Base.{
  ℕ, ◌^◌, ◌<◌, ◌+◌, ◌*◌, ◌%◌, Bool, true, false, List, ◌++◌, Option, none, some, ◌>>=◌, ◌==◌,
  if◌then◌else◌, ltb, le_bytes, length, take, ◌&&◌,
}
use turnserver_v.Wire.Packer.{Packer, push_uint16}
use turnserver_v.Wire.Unpacker.{Unpacker, pop_uint16}
use turnserver_v.Address.Host.{ByteOrder, Hashes, SockaddrStorage}
use turnserver_v.Address.Host.SockaddrStorage.{af_inet, af_inet6, af_unix, af_other}
use turnserver_v.Address.Ipv4.{
  SocketAddress4, NewSockAddress4, less_address4, equal_address4, of_old, to_old,
  new_of_sockaddr_in, new_to_sockaddr_in, serialize_to4, serialize_from4,
}
use turnserver_v.Address.Ipv6.{
  SocketAddress6, less_address6, equal_address6, of_sockaddr_in6, to_sockaddr_in6, push_address6,
  pop_address6, object_bytes, with_address,
}
use turnserver_v.Address.Local.{
  SocketAddressUnix, socket_address_unix, unix_order, of_sockaddr_un, to_sockaddr_un,
}
use turnserver_v.Address.Host.{In6Addr}

pub data GeneralSocketAddress : Type 0 where
  address4 : NewSockAddress4 → GeneralSocketAddress
  address6 : SocketAddress6 → GeneralSocketAddress
  address_unix : SocketAddressUnix → GeneralSocketAddress

pub data IpVersion : Type 0 where
  k_ip4 : IpVersion
  k_ip6 : IpVersion
  k_unix : IpVersion

-- static_cast<uint16_t>(version)
abbrev pub version_number : IpVersion → ℕ
version_number k_ip4 = 0
version_number k_ip6 = 1
version_number k_unix = 2

unfoldable pub get_socket_address_type : GeneralSocketAddress → IpVersion
get_socket_address_type (address4 a) = k_ip4
get_socket_address_type (address6 a) = k_ip6
get_socket_address_type (address_unix a) = k_unix

-- GeneralSocketAddress(), and GeneralSocketAddress(ip, port)
unfoldable pub blank : GeneralSocketAddress
blank = address4 (record { ip = 0; port = 0 })

unfoldable of_ip_port : ℕ → ℕ → GeneralSocketAddress
of_ip_port ip port = address4 (record { ip = ip; port = port })

-- The conversions, each of which asserts that the address is of its kind.
unfoldable pub as_address4 : GeneralSocketAddress → Option NewSockAddress4
as_address4 (address4 a) = some a
as_address4 (address6 a) = none
as_address4 (address_unix a) = none

unfoldable as_address6 : GeneralSocketAddress → Option SocketAddress6
as_address6 (address4 a) = none
as_address6 (address6 a) = some a
as_address6 (address_unix a) = none

unfoldable as_address_unix : GeneralSocketAddress → Option SocketAddressUnix
as_address_unix (address4 a) = none
as_address_unix (address6 a) = none
as_address_unix (address_unix a) = some a

unfoldable pub equal : GeneralSocketAddress → GeneralSocketAddress → Bool
equal (address4 a) (address4 b) = equal_address4 a b
equal (address6 a) (address6 b) = equal_address6 a b
equal (address_unix a) (address_unix b) = unix_order.equal a b
equal a b = false

-- The switch of LessThan, where both are of one version.
unfoldable pub less_alike : GeneralSocketAddress → GeneralSocketAddress → Bool
less_alike (address4 a) (address4 b) = less_address4 a b
less_alike (address6 a) (address6 b) = less_address6 a b
less_alike (address_unix a) (address_unix b) = unix_order.less a b
less_alike a b = false

unfoldable pub less_than : GeneralSocketAddress → GeneralSocketAddress → Bool
less_than a b =
    let v = version_number (get_socket_address_type a) in
    let w = version_number (get_socket_address_type b) in
    if ltb v w then true else if ltb w v then false else less_alike a b

module _ (o : ByteOrder) where
  -- explicit GeneralSocketAddress(const SocketAddress4 &)
  unfoldable of_address4 : SocketAddress4 → GeneralSocketAddress
  of_address4 a = address4 (of_old o a)

  -- explicit operator SocketAddress4() const
  unfoldable as_old_address4 : GeneralSocketAddress → Option SocketAddress4
  as_old_address4 a = do b ← as_address4 a; some (to_old o b)

  unfoldable get_port : GeneralSocketAddress → ℕ
  get_port (address4 a) = a.port
  get_port (address6 a) = o.ntohs a.port
  get_port (address_unix a) = 0

  -- explicit GeneralSocketAddress(const sockaddr_storage &), which asserts that the family is known
  unfoldable pub of_storage : SockaddrStorage → Option GeneralSocketAddress
  of_storage (af_inet a) = some (address4 (new_of_sockaddr_in o a))
  of_storage (af_inet6 a) = some (address6 (of_sockaddr_in6 a))
  of_storage (af_unix a) = do b ← of_sockaddr_un a; some (address_unix b)
  of_storage (af_other family) = none

  -- operator sockaddr_storage() const
  unfoldable pub to_storage : ℕ → GeneralSocketAddress → SockaddrStorage
  to_storage size (address4 a) = af_inet (new_to_sockaddr_in o a)
  to_storage size (address6 a) = af_inet6 (to_sockaddr_in6 a)
  to_storage size (address_unix a) = af_unix (to_sockaddr_un size a)

  -- The switch of SerializeTo.
  unfoldable pub serialize_member : GeneralSocketAddress → Packer → Option Packer
  serialize_member (address4 a) p = serialize_to4 o a p
  serialize_member (address6 a) p = push_address6 a p
  serialize_member (address_unix a) p = socket_address_unix.push a p

  unfoldable pub serialize_to : GeneralSocketAddress → Packer → Option Packer
  serialize_to a p = do
    p ← push_uint16 (version_number (get_socket_address_type a)) p
    serialize_member a p

module _ (o : ByteOrder) (in6addr_loopback : In6Addr) where
  -- The switch of SerializeFrom: each case pops into a new object, destroys the old address and moves
  -- the object into its place. Of another number it asserts.
  unfoldable pub serialize_case : ℕ → Unpacker → Option (GeneralSocketAddress × Unpacker)
  serialize_case version u =
      if version == 0
      then (do (a, u) ← serialize_from4 o (record { ip = 0; port = 0 }) u; some (address4 a, u))
      else if version == 1
      then (do (a, u) ← pop_address6 (with_address in6addr_loopback) u; some (address6 a, u))
      else if version == 2
      then (do
        (a, u) ← socket_address_unix.pop socket_address_unix.blank u
        some (address_unix a, u))
      else none

  unfoldable pub serialize_from :
      GeneralSocketAddress → Unpacker → Option (GeneralSocketAddress × Unpacker)
  serialize_from old u = do (version, u) ← pop_uint16 u; serialize_case version u

module _ (s : Hashes) where
  -- size_t GetHash() const, on a host of 64 bits; `padding` fills the object of an IPv6 address up.
  unfoldable pub get_hash : ℕ → GeneralSocketAddress → ℕ
  get_hash padding (address4 a) = s.hash64 ((a.ip * 2 ^ 16 % 2 ^ 64 + a.port) % 2 ^ 64)
  get_hash padding (address6 a) = s.city_hash64 (take 22 (object_bytes padding a))
  get_hash padding (address_unix a) = s.hash_string a.member1
