-- ===== src/Address/Ipv6/Global.antt =====
-- turnserver/network/address_types.cpp: Ipv6::IsGlobal and Ipv6::IsLoopBack.
use turnserver_v.Base.{
  ℕ, zero, suc, ◌+◌, ◌*◌, ◌/◌, ◌%◌, ◌^◌, ◌≡◌, ◌↔◌, refl, Bool, true, ◌==◌, arith,
}
use turnserver_v.Address.Host.{ByteOrder, In6Addr}
use turnserver_v.Address.Ipv6.{in6_equal, word0}

-- a & b, of two integers of w bits
unfoldable pub bit_and : ℕ → ℕ → ℕ → ℕ
bit_and zero a b = 0
bit_and (suc w) a b = (a % 2) * (b % 2) + 2 * bit_and w (a / 2) (b / 2)

unfoldable is_loop_back : In6Addr → In6Addr → Bool
is_loop_back in6addr_loopback a = in6_equal a in6addr_loopback

unfoldable pub is_global : ByteOrder → In6Addr → Bool
is_global o a = bit_and 32 (word0 a) (o.htonl 0x70000000) == o.htonl 0x20000000

bit_and_zero : (w a : ℕ) → bit_and w a 0 ≡ 0
unfolding bit_and
bit_and_zero zero a = refl
bit_and_zero (suc w) a = omega (arith, bit_and_zero w (a / 2))

-- The three bits that the mask 0x70 keeps.
bit_and_mask : (a : ℕ) → bit_and 32 a 0x70 ≡ 16 * (a / 16 % 8)
unfolding bit_and
bit_and_mask a = rw (bit_and_zero 25 (a / 2 / 2 / 2 / 2 / 2 / 2 / 2)) (omega arith)

-- On a host whose htonl moves the low byte to the front, IsGlobal is true of exactly the addresses
-- whose first four bits are 2 or 10.
pub is_global_lem :
    (o : ByteOrder) (a : In6Addr)
    → o.htonl 0x70000000 ≡ 0x70
    → o.htonl 0x20000000 ≡ 0x20
    → (is_global o a ≡ true) ↔ (a.front % 256 / 16 % 8 ≡ 2)
unfolding is_global word0
is_global_lem o a e f = rw (e, f, bit_and_mask (a.front % 2 ^ 32)) (ground arith)
