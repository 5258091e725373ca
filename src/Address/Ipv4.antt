-- ===== src/Address/Ipv4.antt =====
-- turnserver/network/address_types.h and address_types.inl: SocketAddress4 and NewSockAddress4.
use turnserver_v.Base.{
  ℕ, ◌+◌, ◌*◌, ◌^◌, ◌<◌, ◌≡◌, refl, subst, ◌↔◌, Bool, true, ◌&&◌, ◌||◌, List, [], ◌∷◌, ◌++◌, map,
  Option, some, ◌>>=◌, ◌==◌, ltb, All, arith,
}
use turnserver_v.Order.{Ordered, number}
use turnserver_v.Wire.Packer.{Packer}
use turnserver_v.Wire.Packer.Written.{Appends}
use turnserver_v.Wire.Packer.Pushes.{Appends-seq}
use turnserver_v.Wire.Unpacker.{Unpacker}
use turnserver_v.Wire.Unpacker.Reads.{Reads, Reads-bind, Reads-map}
use turnserver_v.Wire.Codec.{Codec, uint16, uint32}
use turnserver_v.Structs.Two.{Struct2, struct2, packable2}
use turnserver_v.Address.Host.{ByteOrder, Hashes, SockaddrIn}

-- NEW_DECLARE_PACKABLE_2_START(SocketAddress4, uint32_t, ip, uint16_t, port), network-ordered
abbrev pub SocketAddress4 : Type 0
SocketAddress4 = Struct2 ℕ ℕ

abbrev pub socket_address4 : Codec SocketAddress4
socket_address4 = packable2 uint32 uint16

abbrev socket_address4_order : Ordered SocketAddress4
socket_address4_order = struct2 number number

-- operator>
unfoldable greater4 : SocketAddress4 → SocketAddress4 → Bool
greater4 a b = ltb b.member1 a.member1 || ((a.member1 == b.member1) && ltb b.member2 a.member2)

-- explicit SocketAddress4(const sockaddr_in &), and its operator=
unfoldable pub of_sockaddr_in : SockaddrIn → SocketAddress4
of_sockaddr_in a = record { member1 = a.sin_addr; member2 = a.sin_port }

unfoldable to_sockaddr_in : SocketAddress4 → SockaddrIn
to_sockaddr_in a = record { sin_addr = a.member1; sin_port = a.member2 }

-- Host-ordered.
pub record NewSockAddress4 : Type 0 where
  pub ip : ℕ
  pub port : ℕ

unfoldable set_ip : ℕ → NewSockAddress4 → NewSockAddress4
set_ip ip a = record a { ip = ip }

unfoldable set_port : ℕ → NewSockAddress4 → NewSockAddress4
set_port port a = record a { port = port }

unfoldable pub less_address4 : NewSockAddress4 → NewSockAddress4 → Bool
less_address4 a b = ltb a.ip b.ip || ((a.ip == b.ip) && ltb a.port b.port)

unfoldable new_greater4 : NewSockAddress4 → NewSockAddress4 → Bool
new_greater4 a b = ltb b.ip a.ip || ((a.ip == b.ip) && ltb b.port a.port)

unfoldable pub equal_address4 : NewSockAddress4 → NewSockAddress4 → Bool
equal_address4 a b = (a.ip == b.ip) && (a.port == b.port)

pub record IsAddress4 (a : NewSockAddress4) : Type 0 where
  pub ip_fits : a.ip < 2 ^ 32
  pub port_fits : a.port < 2 ^ 16

module _ (o : ByteOrder) where
  -- uint32_t Ip() const
  unfoldable pub host_ip : SocketAddress4 → ℕ
  host_ip a = o.ntohl a.member1

  -- uint16_t Port() const
  unfoldable pub host_port : SocketAddress4 → ℕ
  host_port a = o.ntohs a.member2

  -- NewSockAddress4(const SocketAddress4 &), and its operator=
  unfoldable pub of_old : SocketAddress4 → NewSockAddress4
  of_old a = record { ip = host_ip a; port = host_port a }

  -- explicit operator SocketAddress4() const of GeneralSocketAddress, once it is known to be of IPv4
  unfoldable pub to_old : NewSockAddress4 → SocketAddress4
  to_old a = record { member1 = o.htonl a.ip; member2 = o.htons a.port }

  unfoldable pub to_old_addresses : List NewSockAddress4 → List SocketAddress4
  to_old_addresses [] = []
  to_old_addresses (a ∷ rest) = to_old a ∷ to_old_addresses rest

  unfoldable pub new_of_sockaddr_in : SockaddrIn → NewSockAddress4
  new_of_sockaddr_in a = record { ip = o.ntohl a.sin_addr; port = o.ntohs a.sin_port }

  unfoldable pub new_to_sockaddr_in : NewSockAddress4 → SockaddrIn
  new_to_sockaddr_in a = record { sin_addr = o.htonl a.ip; sin_port = o.htons a.port }

  unfoldable pub serialize_to4 : NewSockAddress4 → Packer → Option Packer
  serialize_to4 a p = do p ← uint32.push (o.htonl a.ip) p; uint16.push (o.htons a.port) p

  -- What the object was before is written over.
  unfoldable pub serialize_from4 : NewSockAddress4 → Unpacker → Option (NewSockAddress4 × Unpacker)
  serialize_from4 old u = do
    (ip, u) ← uint32.pop 0 u
    (port, u) ← uint16.pop 0 u
    some (record { ip = o.ntohl ip; port = o.ntohs port }, u)

  abbrev pub encode4 : NewSockAddress4 → List ℕ
  encode4 a = uint32.encode (o.htonl a.ip) ++ uint16.encode (o.htons a.port)

  pub serialize_to4-Appends :
      (a : NewSockAddress4) → IsAddress4 a → Appends (serialize_to4 a) (encode4 a)
  unfolding serialize_to4
  serialize_to4-Appends a h =
      Appends-seq (uint32.push-Appends (o.htonl a.ip) (o.htonl_bounded a.ip h.ip_fits))
        (uint16.push-Appends (o.htons a.port) (o.htons_bounded a.port h.port_fits))

  of_old-to_old : (a : NewSockAddress4) → IsAddress4 a → of_old (to_old a) ≡ a
  unfolding of_old to_old host_ip host_port
  of_old-to_old a h = ground (arith, o.ntohl-htonl a.ip h.ip_fits, o.ntohs-htons a.port h.port_fits)

  pub new_of_sockaddr_in-new_to_sockaddr_in :
      (a : NewSockAddress4) → IsAddress4 a → new_of_sockaddr_in (new_to_sockaddr_in a) ≡ a
  unfolding new_of_sockaddr_in new_to_sockaddr_in
  new_of_sockaddr_in-new_to_sockaddr_in a h =
      ground (arith, o.ntohl-htonl a.ip h.ip_fits, o.ntohs-htons a.port h.port_fits)

  -- The addresses that ToOldAddresses makes are those of the list, each in its place.
  to_old_addresses_lem :
      (l : List NewSockAddress4) → All IsAddress4 l → map of_old (to_old_addresses l) ≡ l
  unfolding to_old_addresses
  to_old_addresses_lem [] h = refl
  to_old_addresses_lem (a ∷ l) (h, hs) = rw (of_old-to_old a h, to_old_addresses_lem l hs) refl

  pub serialize_from4-Reads :
      (old a : NewSockAddress4) → IsAddress4 a → Reads (serialize_from4 old) (encode4 a) a
  unfolding serialize_from4 new_of_sockaddr_in new_to_sockaddr_in
  serialize_from4-Reads old a h =
      subst (Reads (serialize_from4 old) (encode4 a)) (new_of_sockaddr_in-new_to_sockaddr_in a h) (
        Reads-bind _ (uint32.pop-Reads (o.htonl a.ip) (o.htonl_bounded a.ip h.ip_fits)) (
          Reads-map (λ p. record { ip = o.ntohl (o.htonl a.ip); port = o.ntohs p })
            (uint16.pop-Reads (o.htons a.port) (o.htons_bounded a.port h.port_fits))))

-- The integers that the two hashers hand to std::hash: the union's `repr`.
unfoldable pub repr4 : SocketAddress4 → ℕ
repr4 a = a.member1 + 2 ^ 32 * a.member2 + 2 ^ 48 * 0

unfoldable pub new_repr4 : NewSockAddress4 → ℕ
new_repr4 a = a.ip + 2 ^ 32 * a.port

module _ (s : Hashes) where
  unfoldable hash4 : SocketAddress4 → ℕ
  hash4 a = s.hash64 (repr4 a)

  unfoldable new_hash4 : NewSockAddress4 → ℕ
  new_hash4 a = s.hash64 (new_repr4 a)

-- Two addresses are equal exactly when their hashers start from one number.
new_repr4_iff :
    (a b : NewSockAddress4)
    → IsAddress4 a
    → IsAddress4 b
    → (equal_address4 a b ≡ true) ↔ (new_repr4 a ≡ new_repr4 b)
unfolding equal_address4 new_repr4
new_repr4_iff a b h k = ground (arith, h.ip_fits, k.ip_fits)
