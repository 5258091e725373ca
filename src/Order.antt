-- ===== src/Order.antt =====
-- The interface of `operator==` and `operator<`: a type's two tests, with the laws that a key of
-- std::map needs.

pub mod Lists
pub mod Pairs
use turnserver_v.Base.{ℕ, Bool, true, false, ◌≡◌, ◌↔◌, ◌==◌, ltb, ==_iff, arith}

pub record Ordered {ℓ} (A : Type ℓ) : Type ℓ where
  pub equal : A → A → Bool
  pub less : A → A → Bool
  pub equal_iff : (a b : A) → (equal a b ≡ true) ↔ (a ≡ b)
  pub less_irrefl : (a : A) → less a a ≡ false
  pub less_trans : (a b c : A) → less a b ≡ true → less b c ≡ true → less a c ≡ true
  pub less_total : (a b : A) → equal a b ≡ false → less a b ≡ false → less b a ≡ true

-- What two values can be to each other, of which exactly one holds.
pub data Compared {ℓ} {A : Type ℓ} (equal less : A → A → Bool) (a b : A) : Type ℓ where
  before : less a b ≡ true → equal a b ≡ false → less b a ≡ false → Compared equal less a b
  same : a ≡ b → equal a b ≡ true → less a b ≡ false → less b a ≡ false → Compared equal less a b
  after : less a b ≡ false → equal a b ≡ false → less b a ≡ true → Compared equal less a b

pub ltb_irrefl : (a : ℕ) → ltb a a ≡ false
ltb_irrefl a = ground arith

pub ltb_trans : (a b c : ℕ) → ltb a b ≡ true → ltb b c ≡ true → ltb a c ≡ true
ltb_trans a b c h k = ground arith

pub ltb_total : (a b : ℕ) → (a == b) ≡ false → ltb a b ≡ false → ltb b a ≡ true
ltb_total a b h k = ground arith

-- An unsigned integer.
abbrev pub number : Ordered ℕ
number = record {
  equal = ◌==◌;
  less = ltb;
  equal_iff = ==_iff;
  less_irrefl = ltb_irrefl;
  less_trans = ltb_trans;
  less_total = ltb_total;
}
