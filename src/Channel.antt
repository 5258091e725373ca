-- ===== src/Channel.antt =====
-- turnserver/base/channel_type.h and channel_type.cpp: class ChannelType, a vendor and a name with
-- their hash. CityHash64 is an argument.
use turnserver_v.Base.{
  ℕ, Bool, true, not, ◌&&◌, ◌||◌, ◌≡◌, ◌↔◌, refl, ap, List, [], ◌++◌, ◌==◌, ltb, le_bytes, arith,
}
use turnserver_v.Order.{Ordered, Compared, number}
use turnserver_v.Order.Lists.{sequence}
use turnserver_v.Order.Pairs.{pair, by_key, compare_lem}

record ChannelType : Type 0 where
  vid : ℕ
  cname : List ℕ
  hash_val : ℕ

-- typedef std::pair<uint32_t, std::string> ChannelInfo
abbrev UniqueName : Type 0
UniqueName = ℕ × List ℕ

unfoldable blank : ChannelType
blank = record { vid = 0; cname = []; hash_val = 0 }

unfoldable unique_name : ChannelType → UniqueName
unique_name c = (c.vid, c.cname)

unfoldable equal : ChannelType → ChannelType → Bool
equal a b = (a.hash_val == b.hash_val) && (a.vid == b.vid) && sequence.equal a.cname b.cname

unfoldable differ : ChannelType → ChannelType → Bool
differ a b = not (equal a b)

unfoldable less : ChannelType → ChannelType → Bool
less a b =
    ltb a.hash_val b.hash_val
    || ((a.hash_val == b.hash_val) && ltb a.vid b.vid)
    || ((a.hash_val == b.hash_val) && (a.vid == b.vid) && sequence.less a.cname b.cname)

abbrev key : ChannelType → ℕ × (ℕ × List ℕ)
key c = (c.hash_val, (c.vid, c.cname))

abbrev members : Ordered (ℕ × (ℕ × List ℕ))
members = pair number (pair number sequence)

key_injective : (a b : ChannelType) → key a ≡ key b → a ≡ b
key_injective a b h = cc

equal-key : (a b : ChannelType) → equal a b ≡ members.equal (key a) (key b)
unfolding equal
equal-key a b = ground arith

less-key : (a b : ChannelType) → less a b ≡ members.less (key a) (key b)
unfolding less
less-key a b = ground arith

abbrev channel_order : Ordered ChannelType
channel_order = by_key members key equal less key_injective equal-key less-key

module _ (city_hash64 : List ℕ → ℕ) where
  -- The name's bytes, and behind them those of the vendor.
  unfoldable calculate_hash : ℕ → List ℕ → ℕ
  calculate_hash vid cname = city_hash64 (cname ++ le_bytes 4 vid)

  -- ChannelType(vid, cname), and ChannelType(c) of the pair
  unfoldable make : ℕ → List ℕ → ChannelType
  make vid cname = record { vid = vid; cname = cname; hash_val = calculate_hash vid cname }

  unfoldable of_unique_name : UniqueName → ChannelType
  of_unique_name c = make c.0 c.1

  of_unique_name-unique_name : (c : UniqueName) → unique_name (of_unique_name c) ≡ c
  unfolding unique_name of_unique_name make
  of_unique_name-unique_name c = refl

  -- Of two channels that were made of a vendor and a name, operator== is true exactly when these are
  -- the same, and otherwise exactly one is less than the other.
  equal-make :
      (c d : UniqueName)
      → ((equal (of_unique_name c) (of_unique_name d) ≡ true) ↔ (c ≡ d))
        × Compared equal less (of_unique_name c) (of_unique_name d)
  unfolding unique_name of_unique_name make
  equal-make c d = (
    (
      λ h. ap unique_name ((channel_order.equal_iff (of_unique_name c) (of_unique_name d)).0 h),
      λ e. (channel_order.equal_iff (of_unique_name c) (of_unique_name d)).1 (ap of_unique_name e),
    ),
    compare_lem channel_order (of_unique_name c) (of_unique_name d),
  )

  -- ChannelType() is equal to the channel made of its own vendor and name only where CityHash64 of
  -- four null bytes is 0.
  blank-make :
      (equal blank (of_unique_name (unique_name blank)) ≡ true) ↔ (city_hash64 (le_bytes 4 0) ≡ 0)
  unfolding equal blank unique_name of_unique_name make calculate_hash
  blank-make = ground arith
