-- ===== src/Address/General/Wire.antt =====
-- turnserver/network/address_types.cpp: GeneralSocketAddress::SerializeTo and SerializeFrom, as a
-- member of a packet needs them.
use turnserver_v.Base.{ℕ, ◌^◌, ◌<◌, ◌≡◌, List, ◌++◌, some, length, arith}
use turnserver_v.Wire.Packer.{Packer}
use turnserver_v.Wire.Packer.Written.{Appends, Written, Fits}
use turnserver_v.Wire.Packer.Pushes.{Appends-seq}
use turnserver_v.Wire.Unpacker.{Unpacker, move}
use turnserver_v.Wire.Unpacker.Reads.{At, Reads, Reads-bind, Reads-map}
use turnserver_v.Wire.Codec.{Codec, uint16}
use turnserver_v.Address.Host.{ByteOrder, In6Addr}
use turnserver_v.Address.Ipv4.{IsAddress4, serialize_to4-Appends, serialize_from4-Reads}
use turnserver_v.Address.Ipv4
use turnserver_v.Address.Ipv6.{
  IsAddress6, push_address6-Appends, pop_address6-Reads, with_address, encode6,
}
use turnserver_v.Address.Local.{socket_address_unix}
use turnserver_v.Address.General.{
  GeneralSocketAddress, IpVersion, version_number, get_socket_address_type, blank, serialize_member,
  serialize_to, serialize_case, serialize_from,
}
use turnserver_v.Address.General.GeneralSocketAddress.{address4, address6, address_unix}

-- The values that the format carries.
abbrev pub IsValid : GeneralSocketAddress → Type 0
IsValid (address4 a) = IsAddress4 a
IsValid (address6 a) = IsAddress6 a
IsValid (address_unix a) = socket_address_unix.IsValid a

version_fits : (v : IpVersion) → version_number v < 2 ^ 16
version_fits v = ground arith

module _ (o : ByteOrder) (in6addr_loopback : In6Addr) where
  abbrev encode_member : GeneralSocketAddress → List ℕ
  encode_member (address4 a) = Ipv4.encode4 o a
  encode_member (address6 a) = encode6 a
  encode_member (address_unix a) = socket_address_unix.encode a

  abbrev pub encode : GeneralSocketAddress → List ℕ
  encode a = uint16.encode (version_number (get_socket_address_type a)) ++ encode_member a

  serialize_member-Appends :
      (a : GeneralSocketAddress) → IsValid a → Appends (serialize_member o a) (encode_member a)
  unfolding serialize_member
  serialize_member-Appends (address4 a) h = serialize_to4-Appends o a h
  serialize_member-Appends (address6 a) h = push_address6-Appends a h
  serialize_member-Appends (address_unix a) h = socket_address_unix.push-Appends a h

  pub serialize_to-Appends :
      (a : GeneralSocketAddress) → IsValid a → Appends (serialize_to o a) (encode a)
  unfolding serialize_to
  serialize_to-Appends a h =
      let v : ℕ = version_number (get_socket_address_type a) in
      Appends-seq (uint16.push-Appends v (version_fits (get_socket_address_type a)))
        (serialize_member-Appends a h)

  serialize_case-Reads :
      (a : GeneralSocketAddress)
      → IsValid a
      → Reads
          (serialize_case o in6addr_loopback (version_number (get_socket_address_type a)))
          (encode_member a)
          a
  unfolding serialize_case get_socket_address_type
  serialize_case-Reads (address4 a) h =
      Reads-map address4 (serialize_from4-Reads o (record { ip = 0; port = 0 }) a h)
  serialize_case-Reads (address6 a) h =
      Reads-map address6 (pop_address6-Reads (with_address in6addr_loopback) a h)
  serialize_case-Reads (address_unix a) h =
      Reads-map address_unix (socket_address_unix.pop-Reads a h)

  -- Whatever address the object held, what SerializeTo appended is read back into it.
  pub serialize_from-Reads :
      (old a : GeneralSocketAddress)
      → IsValid a
      → Reads (serialize_from o in6addr_loopback old) (encode a) a
  unfolding serialize_from
  serialize_from-Reads old a h =
      let v : ℕ = version_number (get_socket_address_type a) in
      Reads-bind _ (uint16.pop-Reads v (version_fits (get_socket_address_type a)))
        (serialize_case-Reads a h)

  abbrev general_socket_address : Codec GeneralSocketAddress
  general_socket_address = record {
    blank = blank;
    push = serialize_to o;
    pop = serialize_from o in6addr_loopback;
    encode = encode;
    IsValid = IsValid;
    push-Appends = serialize_to-Appends;
    pop-Reads = serialize_from-Reads blank;
  }

  -- SerializeTo appends to any packer with room bytes of which SerializeFrom makes the address again,
  -- in an object that held any other, and moves the cursor behind them.
  pub serialize_from-serialize_to :
      (old a : GeneralSocketAddress) (p : Packer) (bs : List ℕ) (u : Unpacker)
      → IsValid a
      → Written p bs
      → Fits (bs ++ encode a)
      → At u (encode a)
      → (p' : Packer) × (serialize_to o a p ≡ some p')
        × Written p' (bs ++ encode a)
        × (serialize_from o in6addr_loopback old u ≡ some (a, move (length (encode a)) u))
  serialize_from-serialize_to old a p bs u h w fits at =
      let (p', pushed, w') = (serialize_to-Appends a h).run p bs w fits in
      (p', pushed, w', (serialize_from-Reads old a h).run u at)
