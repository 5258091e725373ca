-- ===== src/Address/Host.antt =====
-- What network/address_types.h takes from the system: <arpa/inet.h>, <netinet/in.h>, <sys/un.h>,
-- std::hash and base/city_hash.h.
use turnserver_v.Base.{ℕ, ◌^◌, ◌<◌, ◌≡◌, List}

-- htonl, ntohl, htons and ntohs: the bytes of an integer in the order of the network.
pub record ByteOrder : Type 0 where
  pub htonl : ℕ → ℕ
  pub ntohl : ℕ → ℕ
  pub htons : ℕ → ℕ
  pub ntohs : ℕ → ℕ
  pub ntohl-htonl : (n : ℕ) → n < 2 ^ 32 → ntohl (htonl n) ≡ n
  pub htonl-ntohl : (n : ℕ) → n < 2 ^ 32 → htonl (ntohl n) ≡ n
  pub ntohs-htons : (n : ℕ) → n < 2 ^ 16 → ntohs (htons n) ≡ n
  pub htons-ntohs : (n : ℕ) → n < 2 ^ 16 → htons (ntohs n) ≡ n
  pub htonl_bounded : (n : ℕ) → n < 2 ^ 32 → htonl n < 2 ^ 32
  pub htons_bounded : (n : ℕ) → n < 2 ^ 16 → htons n < 2 ^ 16

-- std::hash of an unsigned integer and of a string, and CityHash64 of some bytes.
pub record Hashes : Type 0 where
  pub hash64 : ℕ → ℕ
  pub hash_string : List ℕ → ℕ
  pub city_hash64 : List ℕ → ℕ

-- sockaddr_in, network-ordered
pub record SockaddrIn : Type 0 where
  pub sin_addr : ℕ
  pub sin_port : ℕ

-- in6_addr: its sixteen bytes, as the two 64-bit words that they make.
pub record In6Addr : Type 0 where
  pub front : ℕ
  pub back : ℕ

-- sockaddr_in6
pub record SockaddrIn6 : Type 0 where
  pub sin6_addr : In6Addr
  pub sin6_scope_id : ℕ
  pub sin6_port : ℕ

-- sockaddr_un, with the bytes of the array sun_path
pub record SockaddrUn : Type 0 where
  pub sun_path : List ℕ

-- sockaddr_storage, by its ss_family: AF_INET, AF_INET6, AF_UNIX and any other number.
pub data SockaddrStorage : Type 0 where
  af_inet : SockaddrIn → SockaddrStorage
  af_inet6 : SockaddrIn6 → SockaddrStorage
  af_unix : SockaddrUn → SockaddrStorage
  af_other : ℕ → SockaddrStorage
