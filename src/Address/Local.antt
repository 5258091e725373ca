-- ===== src/Address/Local.antt =====
-- turnserver/network/address_types.h and address_types.cpp: SocketAddressUnix.
use turnserver_v.Base.{
  ℕ, zero, suc, ◌-◌, ◌<◌, ◌≤◌, ◌≡◌, refl, ap, Bool, List, [], ◌∷◌, ◌++◌, Option, none, some, ◌>>=◌,
  ◌==◌, if◌then◌else◌, length, length-take, take, replicate, arith,
}
use turnserver_v.Order.{Ordered}
use turnserver_v.Order.Lists.{sequence}
use turnserver_v.Wire.Codec.{Codec, string}
use turnserver_v.Structs.One.{Struct1, struct1, packable1}
use turnserver_v.Address.Host.{SockaddrUn}

-- NEW_DECLARE_PACKABLE_1_START(SocketAddressUnix, std::string, path)
abbrev pub SocketAddressUnix : Type 0
SocketAddressUnix = Struct1 (List ℕ)

abbrev pub socket_address_unix : Codec SocketAddressUnix
socket_address_unix = packable1 string

abbrev pub unix_order : Ordered SocketAddressUnix
unix_order = struct1 sequence

-- operator>
unfoldable greater_unix : SocketAddressUnix → SocketAddressUnix → Bool
greater_unix a b = sequence.less b.member1 a.member1

-- What the standard library takes for the text at some bytes: those in front of the first null.
-- Without a null among them it reads beyond the bytes.
unfoldable pub read_text : List ℕ → Option (List ℕ)
read_text [] = none
read_text (b ∷ bs) =
    let rest = read_text bs in if b == 0 then some [] else (rest >>= λ t. some (b ∷ t))

-- path.c_str(), as "%s" of snprintf reads it
unfoldable pub c_str : List ℕ → List ℕ
c_str [] = []
c_str (b ∷ bs) = let rest = c_str bs in if b == 0 then [] else b ∷ rest

-- explicit SocketAddressUnix(const sockaddr_un &), and its operator=
unfoldable pub of_sockaddr_un : SockaddrUn → Option SocketAddressUnix
of_sockaddr_un a = do path ← read_text a.sun_path; some (record { member1 = path })

-- snprintf(buffer, size, "%s", text) into a buffer of nulls that is `room` bytes long: `size - 1`
-- bytes at most, and a null.
unfoldable pub snprintf_text : ℕ → ℕ → List ℕ → List ℕ
snprintf_text room size bytes =
    let printed = take (size - 1) bytes in printed ++ replicate (room - length printed) 0

-- operator sockaddr_un() const, where sun_path has `size` bytes
unfoldable pub to_sockaddr_un : ℕ → SocketAddressUnix → SockaddrUn
to_sockaddr_un size a = record { sun_path = snprintf_text size (size - 1) (c_str a.member1) }

read_text-take :
    (n k : ℕ) (path : List ℕ)
    → read_text (take n (c_str path) ++ (0 ∷ replicate k 0)) ≡ some (take n (c_str path))
unfolding read_text c_str
read_text-take zero k path = refl
read_text-take (suc n) k [] = refl
read_text-take (suc n) k (b ∷ bs) = ground (arith, read_text-take n k bs)

replicate-suc : (n : ℕ) → 0 < n → replicate {A = ℕ} n 0 ≡ 0 ∷ replicate (n - 1) 0
replicate-suc zero h = absurd (omega arith)
replicate-suc (suc n) h = ap (λ k. 0 ∷ replicate k 0) {x = n} {y = suc n - 1} (omega arith)

-- A path that goes to the system comes back cut at its first null, and at two bytes less than
-- sun_path has.
pub of_sockaddr_un-to_sockaddr_un :
    (size : ℕ) (a : SocketAddressUnix)
    → 2 ≤ size
    → of_sockaddr_un (to_sockaddr_un size a)
      ≡ some (record { member1 = take (size - 2) (c_str a.member1) })
unfolding of_sockaddr_un to_sockaddr_un snprintf_text
of_sockaddr_un-to_sockaddr_un size a h =
    let printed : List ℕ = take (size - 1 - 1) (c_str a.member1) in
    let room : 0 < size - length printed =
      omega (arith, length-take (size - 1 - 1) (c_str a.member1)) in
    rw
      (
        replicate-suc (size - length printed) room,
        read_text-take (size - 1 - 1) (size - length printed - 1) a.member1,
      )
      (ap (λ n. some (record { member1 = take n (c_str a.member1) })) {x = size - 1 - 1}
        {y = size - 2} (omega arith))
