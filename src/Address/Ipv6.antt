-- ===== src/Address/Ipv6.antt =====
-- turnserver/network/address_types.h and address_types.cpp: Ipv6 and SocketAddress6.
--
-- The words of an in6_addr are read as a little-endian host reads them.
pub mod Global
use turnserver_v.Base.{
  ℕ, ◌+◌, ◌*◌, ◌/◌, ◌%◌, ◌^◌, ◌<◌, ◌≡◌, refl, subst, Bool, ◌&&◌, ◌||◌, List, ◌++◌, Option, some,
  ◌>>=◌, ◌==◌, ltb, le_bytes, take, arith,
}
use turnserver_v.Wire.Packer.{Packer}
use turnserver_v.Wire.Packer.Written.{Appends}
use turnserver_v.Wire.Packer.Pushes.{Appends-seq}
use turnserver_v.Wire.Unpacker.{Unpacker}
use turnserver_v.Wire.Unpacker.Reads.{Reads, Reads-bind, Reads-map}
use turnserver_v.Wire.Codec.{uint16, uint32}
use turnserver_v.Address.Host.{In6Addr, SockaddrIn6}

-- in6_addr.s6_addr32[0] to [3]
unfoldable pub word0 : In6Addr → ℕ
word0 a = a.front % 2 ^ 32

unfoldable pub word1 : In6Addr → ℕ
word1 a = a.front / 2 ^ 32

unfoldable pub word2 : In6Addr → ℕ
word2 a = a.back % 2 ^ 32

unfoldable pub word3 : In6Addr → ℕ
word3 a = a.back / 2 ^ 32

unfoldable pub of_words : ℕ → ℕ → ℕ → ℕ → In6Addr
of_words w0 w1 w2 w3 = record { front = w0 + 2 ^ 32 * w1; back = w2 + 2 ^ 32 * w3 }

unfoldable pub in6_less : In6Addr → In6Addr → Bool
in6_less a b = ltb a.front b.front || ((a.front == b.front) && ltb a.back b.back)

unfoldable pub in6_equal : In6Addr → In6Addr → Bool
in6_equal a b = (a.front == b.front) && (a.back == b.back)

pub record SocketAddress6 : Type 0 where
  pub ip6 : In6Addr
  pub scope_id : ℕ
  pub port : ℕ

-- SocketAddress6(ip6, port) of the system's in6addr_any and in6addr_loopback
unfoldable pub with_address : In6Addr → SocketAddress6
with_address a = record { ip6 = a; scope_id = 0; port = 0 }

-- explicit SocketAddress6(const sockaddr_in6 &), and its operator=
unfoldable pub of_sockaddr_in6 : SockaddrIn6 → SocketAddress6
of_sockaddr_in6 a = record { ip6 = a.sin6_addr; scope_id = a.sin6_scope_id; port = a.sin6_port }

unfoldable pub to_sockaddr_in6 : SocketAddress6 → SockaddrIn6
to_sockaddr_in6 a = record { sin6_addr = a.ip6; sin6_scope_id = a.scope_id; sin6_port = a.port }

unfoldable pub less_address6 : SocketAddress6 → SocketAddress6 → Bool
less_address6 l r =
    in6_less l.ip6 r.ip6
    || (in6_equal l.ip6 r.ip6 && ltb l.port r.port)
    || (in6_equal l.ip6 r.ip6 && (l.port == r.port) && ltb l.scope_id r.scope_id)

unfoldable pub equal_address6 : SocketAddress6 → SocketAddress6 → Bool
equal_address6 l r = in6_equal l.ip6 r.ip6 && (l.port == r.port) && (l.scope_id == r.scope_id)

pub record IsIn6 (a : In6Addr) : Type 0 where
  front_fits : a.front < 2 ^ 64
  back_fits : a.back < 2 ^ 64

pub record IsAddress6 (a : SocketAddress6) : Type 0 where
  ip6_fits : IsIn6 a.ip6
  scope_id_fits : a.scope_id < 2 ^ 32
  pub port_fits : a.port < 2 ^ 16

unfoldable pub push_in6 : In6Addr → Packer → Option Packer
push_in6 a p = do
  p ← uint32.push (word0 a) p
  p ← uint32.push (word1 a) p
  p ← uint32.push (word2 a) p
  uint32.push (word3 a) p

unfoldable pub pop_in6 : Unpacker → Option (In6Addr × Unpacker)
pop_in6 u = do
  (w0, u) ← uint32.pop 0 u
  (w1, u) ← uint32.pop 0 u
  (w2, u) ← uint32.pop 0 u
  (w3, u) ← uint32.pop 0 u
  some (of_words w0 w1 w2 w3, u)

abbrev encode_in6 : In6Addr → List ℕ
encode_in6 a =
    uint32.encode (word0 a)
    ++ (uint32.encode (word1 a) ++ (uint32.encode (word2 a) ++ uint32.encode (word3 a)))

unfoldable pub push_address6 : SocketAddress6 → Packer → Option Packer
push_address6 x p = do p ← push_in6 x.ip6 p; p ← uint32.push x.scope_id p; uint16.push x.port p

unfoldable pub pop_address6 : SocketAddress6 → Unpacker → Option (SocketAddress6 × Unpacker)
pop_address6 old u = do
  (a, u) ← pop_in6 u
  (s, u) ← uint32.pop old.scope_id u
  (p, u) ← uint16.pop old.port u
  some (record { ip6 = a; scope_id = s; port = p }, u)

abbrev pub encode6 : SocketAddress6 → List ℕ
encode6 x = encode_in6 x.ip6 ++ (uint32.encode x.scope_id ++ uint16.encode x.port)

word_bounds :
    (a : In6Addr)
    → IsIn6 a
    → (word0 a < 2 ^ 32) × (word1 a < 2 ^ 32) × (word2 a < 2 ^ 32) × (word3 a < 2 ^ 32)
unfolding word0 word1 word2 word3
word_bounds a h =
    let p = h.front_fits in
    let q = h.back_fits in (omega arith, omega arith, omega arith, omega arith)

of_words-word : (a : In6Addr) → of_words (word0 a) (word1 a) (word2 a) (word3 a) ≡ a
unfolding of_words word0 word1 word2 word3
of_words-word a = ground arith

push_in6-Appends : (a : In6Addr) → IsIn6 a → Appends (push_in6 a) (encode_in6 a)
unfolding push_in6
push_in6-Appends a h =
    let (b0, b1, b2, b3) = word_bounds a h in
    Appends-seq (uint32.push-Appends (word0 a) b0) (
      Appends-seq (uint32.push-Appends (word1 a) b1)
        (Appends-seq (uint32.push-Appends (word2 a) b2) (uint32.push-Appends (word3 a) b3)))

pop_in6-Reads : (a : In6Addr) → IsIn6 a → Reads pop_in6 (encode_in6 a) a
unfolding pop_in6
pop_in6-Reads a h =
    let (b0, b1, b2, b3) = word_bounds a h in
    subst (Reads pop_in6 (encode_in6 a)) (of_words-word a) (
      Reads-bind _ (uint32.pop-Reads (word0 a) b0) (
        Reads-bind _ (uint32.pop-Reads (word1 a) b1) (
          Reads-bind _ (uint32.pop-Reads (word2 a) b2) (
            Reads-map (λ w. of_words (word0 a) (word1 a) (word2 a) w)
              (uint32.pop-Reads (word3 a) b3)))))

pub push_address6-Appends :
    (x : SocketAddress6) → IsAddress6 x → Appends (push_address6 x) (encode6 x)
unfolding push_address6
push_address6-Appends x h = Appends-seq (push_in6-Appends x.ip6 h.ip6_fits) (
    Appends-seq (uint32.push-Appends x.scope_id h.scope_id_fits)
      (uint16.push-Appends x.port h.port_fits))

pub pop_address6-Reads :
    (old x : SocketAddress6) → IsAddress6 x → Reads (pop_address6 old) (encode6 x) x
unfolding pop_address6
pop_address6-Reads old x h = Reads-bind _ (pop_in6-Reads x.ip6 h.ip6_fits) (
    Reads-bind _ (uint32.pop-Reads x.scope_id h.scope_id_fits)
      (Reads-map (λ p. record x { port = p }) (uint16.pop-Reads x.port h.port_fits)))

-- The 24 bytes of an object: the address, the scope and the port, and two that pad it out.
unfoldable pub object_bytes : ℕ → SocketAddress6 → List ℕ
object_bytes padding a =
    le_bytes 8 a.ip6.front
    ++ (le_bytes 8 a.ip6.back
        ++ (le_bytes 4 a.scope_id ++ (le_bytes 2 a.port ++ le_bytes 2 padding)))

-- Its first 22 bytes do not depend on the padding.
pub take-object_bytes :
    (p q : ℕ) (a : SocketAddress6) → take 22 (object_bytes p a) ≡ take 22 (object_bytes q a)
unfolding object_bytes
take-object_bytes p q a = refl
