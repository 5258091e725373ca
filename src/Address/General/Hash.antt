-- ===== src/Address/General/Hash.antt =====
-- turnserver/network/address_types.cpp: GeneralSocketAddress::GetHash, as a key of a hash table
-- needs it.
use turnserver_v.Base.{ℕ, ◌≡◌, refl, true, ap, ◌∙◌}
use turnserver_v.Address.Host.{Hashes}
use turnserver_v.Address.Ipv6.{take-object_bytes}
use turnserver_v.Address.General.{GeneralSocketAddress, equal, get_hash}
use turnserver_v.Address.General.GeneralSocketAddress.{address4, address6, address_unix}
use turnserver_v.Address.General.Order.{general_order}

get_hash_padding :
    (s : Hashes) (p q : ℕ) (a : GeneralSocketAddress) → get_hash s p a ≡ get_hash s q a
unfolding get_hash
get_hash_padding s p q (address4 a) = refl
get_hash_padding s p q (address6 a) = ap s.city_hash64 (take-object_bytes p q a)
get_hash_padding s p q (address_unix a) = refl

-- Two addresses that operator== takes for equal have one hash, whatever fills up the objects that
-- they stand in.
pub get_hash-equal :
    (s : Hashes) (p q : ℕ) (a b : GeneralSocketAddress)
    → equal a b ≡ true
    → get_hash s p a ≡ get_hash s q b
get_hash-equal s p q a b h =
    get_hash_padding s p q a ∙ ap (get_hash s q) ((general_order.equal_iff a b).0 h)
