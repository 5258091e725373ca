-- ===== src/Address/General/Order.antt =====
-- turnserver/network/address_types.cpp: GeneralSocketAddress::LessThan, and the comparisons of
-- address_types.h, against one order of lists of numbers.
use turnserver_v.Base.{ℕ, true, ◌≡◌, List, [], ◌∷◌, arith}
use turnserver_v.Order.{Ordered, Compared}
use turnserver_v.Order.Lists
use turnserver_v.Order.Lists.{sequence}
use turnserver_v.Order.Pairs.{by_key, compare_lem}
use turnserver_v.Structs.One.{less1, equal1}
use turnserver_v.Address.Ipv4.{less_address4, equal_address4}
use turnserver_v.Address.Ipv6.{in6_less, in6_equal, less_address6, equal_address6}
use turnserver_v.Address.General.{
  GeneralSocketAddress, get_socket_address_type, equal, less_alike, less_than,
}
use turnserver_v.Address.General.GeneralSocketAddress.{address4, address6, address_unix}

-- An address as the numbers that it is compared by: the version, and then the members.
abbrev pub key : GeneralSocketAddress → List ℕ
key (address4 a) = 0 ∷ a.ip ∷ a.port ∷ []
key (address6 a) = 1 ∷ a.ip6.front ∷ a.ip6.back ∷ a.port ∷ a.scope_id ∷ []
key (address_unix a) = 2 ∷ a.member1

pub key_injective : (a b : GeneralSocketAddress) → key a ≡ key b → a ≡ b
key_injective a b h = ground arith

pub equal-key : (a b : GeneralSocketAddress) → equal a b ≡ Lists.equal (key a) (key b)
unfolding equal equal_address4 equal_address6 in6_equal equal1
equal-key a b = ground arith

-- LessThan compares two addresses as their numbers compare, one after the other.
pub less_than-key : (a b : GeneralSocketAddress) → less_than a b ≡ Lists.less (key a) (key b)
unfolding less_than get_socket_address_type less_alike less_address4 less_address6 in6_less
    in6_equal less1
less_than-key a b = ground arith

abbrev pub general_order : Ordered GeneralSocketAddress
general_order = by_key sequence key equal less_than key_injective equal-key less_than-key

-- Of two addresses exactly one comes before the other, and operator== is false of them; or they are
-- the same, neither comes before the other, and operator== is true of them. LessThan is the order of
-- what the addresses are compared by: the version first, and then the members one after the other.
pub less_than-Compared :
    (a b : GeneralSocketAddress)
    → Compared equal less_than a b × (less_than a b ≡ Lists.less (key a) (key b))
less_than-Compared a b = (compare_lem general_order a b, less_than-key a b)

less_than_trans :
    (a b c : GeneralSocketAddress)
    → less_than a b ≡ true
    → less_than b c ≡ true
    → less_than a c ≡ true
less_than_trans = general_order.less_trans
