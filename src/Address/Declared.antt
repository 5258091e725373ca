-- ===== src/Address/Declared.antt =====
-- turnserver/network/address_types.h and address_utility.h: structs whose members are addresses.
use turnserver_v.Base.{ℕ, List}
use turnserver_v.Wire.Codec.{Codec, uint16, uint32, string}
use turnserver_v.Structs.Two.{Struct2, packable2}
use turnserver_v.Structs.Three.{Struct3, packable3}
use turnserver_v.Address.Host.{ByteOrder}
use turnserver_v.Address.Ipv4.{
  SocketAddress4, NewSockAddress4, socket_address4, IsAddress4, encode4, serialize_to4,
  serialize_from4, serialize_to4-Appends, serialize_from4-Reads,
}

-- first, second
abbrev address_pair4 : Codec (Struct2 SocketAddress4 SocketAddress4)
address_pair4 = packable2 socket_address4 socket_address4

-- isp, ip, port
abbrev old_isp_service_address : Codec (Struct3 (List ℕ) ℕ ℕ)
old_isp_service_address = packable3 string uint32 uint16

-- ip, port
abbrev old_address_info : Codec (Struct2 (List ℕ) ℕ)
old_address_info = packable2 string uint16

module _ (o : ByteOrder) where
  abbrev new_sock_address4 : Codec NewSockAddress4
  new_sock_address4 = record {
    blank = record { ip = 0; port = 0 };
    push = serialize_to4 o;
    pop = serialize_from4 o;
    encode = encode4 o;
    IsValid = IsAddress4;
    push-Appends = serialize_to4-Appends o;
    pop-Reads = serialize_from4-Reads o (record { ip = 0; port = 0 });
  }

  -- first, second
  abbrev address4_pair : Codec (Struct2 NewSockAddress4 NewSockAddress4)
  address4_pair = packable2 new_sock_address4 new_sock_address4
