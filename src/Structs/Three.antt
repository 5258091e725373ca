-- ===== src/Structs/Three.antt =====
-- turnserver/base/declare_struct.h: a struct declared by NEW_DECLARE_STRUCT_3, and by
-- NEW_DECLARE_PACKABLE_3.
use turnserver_v.Base.{ℕ, Bool, not, ◌&&◌, ◌||◌, ◌≡◌, List, ◌++◌, Option, some, ◌>>=◌, arith}
use turnserver_v.Order.{Ordered}
use turnserver_v.Order.Pairs.{pair, by_key}
use turnserver_v.Wire.Packer.{Packer}
use turnserver_v.Wire.Packer.Written.{Appends}
use turnserver_v.Wire.Packer.Pushes.{Appends-seq}
use turnserver_v.Wire.Unpacker.{Unpacker}
use turnserver_v.Wire.Unpacker.Reads.{Reads, Reads-bind, Reads-map}
use turnserver_v.Wire.Codec.{Codec}

pub record Struct3 (A B C : Type 0) : Type 0 where
  pub member1 : A
  pub member2 : B
  pub member3 : C

abbrev key3 : {A B C : Type 0} → Struct3 A B C → A × (B × C)
key3 x = (x.member1, (x.member2, x.member3))

pub key3_injective : {A B C : Type 0} (x y : Struct3 A B C) → key3 x ≡ key3 y → x ≡ y
key3_injective x y h = cc

module _ {A B C : Type 0} (a : Ordered A) (b : Ordered B) (c : Ordered C) where
  unfoldable pub less3 : Struct3 A B C → Struct3 A B C → Bool
  less3 x y =
      a.less x.member1 y.member1
      || (a.equal x.member1 y.member1 && b.less x.member2 y.member2)
      || (a.equal x.member1 y.member1 && b.equal x.member2 y.member2 && c.less x.member3 y.member3)

  unfoldable pub equal3 : Struct3 A B C → Struct3 A B C → Bool
  equal3 x y =
      a.equal x.member1 y.member1 && b.equal x.member2 y.member2 && c.equal x.member3 y.member3

  unfoldable differ3 : Struct3 A B C → Struct3 A B C → Bool
  differ3 x y = not (equal3 x y)

  abbrev members3 : Ordered (A × (B × C))
  members3 = pair a (pair b c)

  pub equal3-key : (x y : Struct3 A B C) → equal3 x y ≡ members3.equal (key3 x) (key3 y)
  unfolding equal3
  equal3-key x y = ground arith

  -- Two structs are compared by their members, from the first to the last.
  pub less3-key : (x y : Struct3 A B C) → less3 x y ≡ members3.less (key3 x) (key3 y)
  unfolding less3
  less3-key x y = ground arith

  abbrev struct3 : Ordered (Struct3 A B C)
  struct3 = by_key members3 key3 equal3 less3 key3_injective equal3-key less3-key

module _ {A B C : Type 0} (a : Codec A) (b : Codec B) (c : Codec C) where
  unfoldable pub blank3 : Struct3 A B C
  blank3 = record { member1 = a.blank; member2 = b.blank; member3 = c.blank }

  unfoldable pub push3 : Struct3 A B C → Packer → Option Packer
  push3 x p = do p ← a.push x.member1 p; p ← b.push x.member2 p; c.push x.member3 p

  unfoldable pub pop3 : Struct3 A B C → Unpacker → Option (Struct3 A B C × Unpacker)
  pop3 x u = do
    (v1, u) ← a.pop x.member1 u
    (v2, u) ← b.pop x.member2 u
    (v3, u) ← c.pop x.member3 u
    some (record { member1 = v1; member2 = v2; member3 = v3 }, u)

  unfoldable pub encode3 : Struct3 A B C → List ℕ
  encode3 x = a.encode x.member1 ++ (b.encode x.member2 ++ (c.encode x.member3))

  pub record IsValid3 (x : Struct3 A B C) : Type 0 where
    pub valid1 : a.IsValid x.member1
    pub valid2 : b.IsValid x.member2
    pub valid3 : c.IsValid x.member3

  pub push3-Appends : (x : Struct3 A B C) → IsValid3 x → Appends (push3 x) (encode3 x)
  unfolding push3 encode3
  push3-Appends x ok =
      Appends-seq (a.push-Appends x.member1 ok.valid1)
        (Appends-seq (b.push-Appends x.member2 ok.valid2) (c.push-Appends x.member3 ok.valid3))

  pub pop3-Reads : (x : Struct3 A B C) → IsValid3 x → Reads (pop3 blank3) (encode3 x) x
  unfolding pop3 encode3 blank3
  pop3-Reads x ok = Reads-bind _ (a.pop-Reads x.member1 ok.valid1) (
      Reads-bind _ (b.pop-Reads x.member2 ok.valid2)
        (Reads-map (λ v. record x { member3 = v }) (c.pop-Reads x.member3 ok.valid3)))

  abbrev pub packable3 : Codec (Struct3 A B C)
  packable3 = record {
    blank = blank3;
    push = push3;
    pop = pop3;
    encode = encode3;
    IsValid = IsValid3;
    push-Appends = push3-Appends;
    pop-Reads = pop3-Reads;
  }
