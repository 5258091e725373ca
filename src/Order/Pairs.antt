-- ===== src/Order/Pairs.antt =====
-- Two members compared one after the other, and a struct compared by its members.
use turnserver_v.Base.{Bool, true, false, ◌&&◌, ◌||◌, ◌≡◌, ◌↔◌, ap, Bool-cases, inl, inr, arith}
use turnserver_v.Order.{Ordered, Compared}

module _ {ℓ κ} {A : Type ℓ} {B : Type κ} (a : Ordered A) (b : Ordered B) where
  abbrev pub equal : A × B → A × B → Bool
  equal x y = a.equal x.0 y.0 && b.equal x.1 y.1

  abbrev pub less : A × B → A × B → Bool
  less x y = a.less x.0 y.0 || (a.equal x.0 y.0 && b.less x.1 y.1)

  pub equal_iff : (x y : A × B) → (equal x y ≡ true) ↔ (x ≡ y)
  equal_iff x y = grind (arith, a.equal_iff x.0 y.0, b.equal_iff x.1 y.1)

  pub less_irrefl : (x : A × B) → less x x ≡ false
  less_irrefl x = ground (arith, a.less_irrefl x.0, b.less_irrefl x.1)

  pub less_trans : (x y z : A × B) → less x y ≡ true → less y z ≡ true → less x z ≡ true
  less_trans x y z h k = ground (
    arith,
    a.less_trans x.0 y.0 z.0,
    b.less_trans x.1 y.1 z.1,
    a.equal_iff x.0 y.0,
    a.equal_iff y.0 z.0,
    a.equal_iff x.0 z.0,
  )

  pub less_total : (x y : A × B) → equal x y ≡ false → less x y ≡ false → less y x ≡ true
  less_total x y h k =
      ground (
        arith,
        a.less_total x.0 y.0,
        b.less_total x.1 y.1,
        a.equal_iff x.0 y.0,
        a.equal_iff y.0 x.0,
      )

  abbrev pub pair : Ordered (A × B)
  pair = record {
    equal = equal;
    less = less;
    equal_iff = equal_iff;
    less_irrefl = less_irrefl;
    less_trans = less_trans;
    less_total = less_total;
  }

-- A struct's two tests, where they compare what `key` makes of it.
module _ {ℓ κ} {A : Type ℓ} {K : Type κ} (k : Ordered K) (key : A → K) (same : A → A → Bool)
    (before : A → A → Bool) (key_injective : (x y : A) → key x ≡ key y → x ≡ y)
    (same-key : (x y : A) → same x y ≡ k.equal (key x) (key y))
    (before-key : (x y : A) → before x y ≡ k.less (key x) (key y)) where
  pub same_iff : (x y : A) → (same x y ≡ true) ↔ (x ≡ y)
  same_iff x y = rw (same-key x y) (
    λ h. key_injective x y ((k.equal_iff (key x) (key y)).0 h),
    λ e. (k.equal_iff (key x) (key y)).1 (ap key e),
  )

  pub before_irrefl : (x : A) → before x x ≡ false
  before_irrefl x = rw (before-key x x) (k.less_irrefl (key x))

  pub before_trans : (x y z : A) → before x y ≡ true → before y z ≡ true → before x z ≡ true
  before_trans x y z =
      rw (before-key x y, before-key y z, before-key x z) (k.less_trans (key x) (key y) (key z))

  pub before_total : (x y : A) → same x y ≡ false → before x y ≡ false → before y x ≡ true
  before_total x y =
      rw (same-key x y, before-key x y, before-key y x) (k.less_total (key x) (key y))

  abbrev pub by_key : Ordered A
  by_key = record {
    equal = same;
    less = before;
    equal_iff = same_iff;
    less_irrefl = before_irrefl;
    less_trans = before_trans;
    less_total = before_total;
  }

-- Of two values exactly one comes first, unless they are the same value.
pub compare_lem {ℓ} : {A : Type ℓ} (o : Ordered A) (x y : A) → Compared o.equal o.less x y
compare_lem o x y = elim (Bool-cases (o.equal x y)) [
  | inl e ↦
      Compared.same ((o.equal_iff x y).0 e) e (rw ((o.equal_iff x y).0 e) (o.less_irrefl y))
        (rw ((o.equal_iff x y).0 e) (o.less_irrefl y))
  | inr ne ↦ elim (Bool-cases (o.less x y)) [
    | inl lt ↦ Compared.before lt ne (ground (arith, o.less_trans x y x, o.less_irrefl x))
    | inr ge ↦ Compared.after ge ne (o.less_total x y ne ge)
  ]
]
