-- ===== src/Examples/Addresses.antt =====
-- Addresses at concrete values.
use turnserver_v.Base.{
  ℕ, ◌+◌, ◌*◌, ◌/◌, ◌%◌, ◌^◌, ◌<◌, ◌≡◌, refl, List, [], ◌∷◌, ◌++◌, some, length, arith,
}
use turnserver_v.Order.{Ordered, Compared, number}
use turnserver_v.Order.Lists.{sequence}
use turnserver_v.Wire.Packer.{Packer}
use turnserver_v.Wire.Packer
use turnserver_v.Wire.Packer.Written.{Written}
use turnserver_v.Wire.Packer.Pushes.{init-Written}
use turnserver_v.Wire.Unpacker.{Unpacker, move}
use turnserver_v.Wire.Unpacker.Reads.{At}
use turnserver_v.Structs.Seven.{members7}
use turnserver_v.Packet.Lbs.{DetailedSignature5}
use turnserver_v.Address.Host.{ByteOrder, Hashes, In6Addr}
use turnserver_v.Address.Ipv4.{IsAddress4}
use turnserver_v.Address.Ipv6.{equal_address6, in6_equal}
use turnserver_v.Address.General.{
  GeneralSocketAddress, equal, less_than, get_hash, serialize_to, serialize_from, of_storage,
  to_storage,
}
use turnserver_v.Address.General.GeneralSocketAddress.{address4, address6}
use turnserver_v.Address.General.Order.{key, less_than-Compared}
use turnserver_v.Order.Lists
use turnserver_v.Address.General.Hash.{get_hash-equal}
use turnserver_v.Address.General.Storage.{kept, of_storage-to_storage}
use turnserver_v.Address.General.Wire.{encode, serialize_from-serialize_to}

-- The functions of <arpa/inet.h> on a little-endian host.
abbrev pub swap16 : ℕ → ℕ
swap16 n = n / 256 + 256 * (n % 256)

abbrev pub swap32 : ℕ → ℕ
swap32 n = n / 2 ^ 24 + 256 * (n / 2 ^ 16 % 256) + 2 ^ 16 * (n / 256 % 256) + 2 ^ 24 * (n % 256)

pub swap16_lem : (n : ℕ) → n < 2 ^ 16 → swap16 (swap16 n) ≡ n
swap16_lem n h = omega arith

pub swap32_lem : (n : ℕ) → n < 2 ^ 32 → swap32 (swap32 n) ≡ n
swap32_lem n h = omega arith

pub swap16_bounded : (n : ℕ) → n < 2 ^ 16 → swap16 n < 2 ^ 16
swap16_bounded n h = omega arith

pub swap32_bounded : (n : ℕ) → n < 2 ^ 32 → swap32 n < 2 ^ 32
swap32_bounded n h = omega arith

abbrev pub little_endian : ByteOrder
little_endian = record {
  htonl = swap32;
  ntohl = swap32;
  htons = swap16;
  ntohs = swap16;
  ntohl-htonl = swap32_lem;
  htonl-ntohl = swap32_lem;
  ntohs-htons = swap16_lem;
  htons-ntohs = swap16_lem;
  htonl_bounded = swap32_bounded;
  htons_bounded = swap16_bounded;
}

abbrev sums : Hashes
sums = record { hash64 = λ n. n; hash_string = λ l. length l; city_hash64 = λ l. length l }

abbrev home_ip : In6Addr
home_ip = record { front = 0; back = 2 ^ 56 }

-- 42.81.206.84, port 3100
abbrev lbs_address : GeneralSocketAddress
lbs_address = address4 (record { ip = 0x2A51CE54; port = 3100 })

-- ::1, port 80
abbrev home : GeneralSocketAddress
home = address6 (record { ip6 = home_ip; scope_id = 0; port = 0x5000 })

lbs_address-IsAddress4 : IsAddress4 (record { ip = 0x2A51CE54; port = 3100 })
lbs_address-IsAddress4 = record { ip_fits = omega arith; port_fits = omega arith }

less_than-Compared_example :
    Compared equal less_than lbs_address home
    × (less_than lbs_address home ≡ Lists.less (key lbs_address) (key home))
less_than-Compared_example = less_than-Compared lbs_address home

get_hash-equal_example : get_hash sums 7 home ≡ get_hash sums 9 home
unfolding equal equal_address6 in6_equal
get_hash-equal_example = get_hash-equal sums 7 9 home home refl

of_storage-to_storage_example :
    of_storage little_endian (to_storage little_endian 108 lbs_address)
    ≡ some (kept 108 lbs_address)
of_storage-to_storage_example =
    of_storage-to_storage little_endian 108 lbs_address (omega arith) lbs_address-IsAddress4

-- 2001:: has 2 in its first four bits.
abbrev documented : In6Addr
documented = record { front = 0x0120; back = 0 }

abbrev address_bytes : List ℕ
address_bytes = encode little_endian home_ip lbs_address

abbrev at_address : Unpacker
at_address = record { mem = address_bytes; length_ = 8; position_ = 0; warnings = 0 }

at_address-At : At at_address address_bytes
at_address-At = record {
  front = [];
  rest = [];
  mem_shape = refl;
  cursor = refl;
  inside = omega arith;
  small = omega arith;
}

serialize_from-serialize_to_example :
    (p' : Packer) × (serialize_to little_endian lbs_address (Packer.init 64) ≡ some p')
    × Written p' ([] ++ address_bytes)
    × (serialize_from little_endian home_ip home at_address
        ≡ some (lbs_address, move (length address_bytes) at_address))
serialize_from-serialize_to_example =
    serialize_from-serialize_to little_endian home_ip home lbs_address (Packer.init 64) []
      at_address lbs_address-IsAddress4 (init-Written 64) (omega arith) at_address-At

abbrev signature : ℕ → DetailedSignature5
signature uid = record {
  member1 = 1;
  member2 = uid;
  member3 = 3;
  member4 = [];
  member5 = 5;
  member6 = 6;
  member7 = b'a' ∷ [];
}

abbrev signatures : Ordered (ℕ × (ℕ × (ℕ × (List ℕ × (ℕ × (ℕ × List ℕ))))))
signatures = members7 number number number sequence number number sequence
