-- ===== src/Structs/One.antt =====
-- turnserver/base/declare_struct.h: a struct declared by NEW_DECLARE_STRUCT_1, and by
-- NEW_DECLARE_PACKABLE_1.
use turnserver_v.Base.{ℕ, Bool, not, ◌≡◌, List, Option, some, ◌>>=◌, arith}
use turnserver_v.Order.{Ordered}
use turnserver_v.Order.Pairs.{by_key}
use turnserver_v.Wire.Packer.{Packer}
use turnserver_v.Wire.Packer.Written.{Appends}
use turnserver_v.Wire.Unpacker.{Unpacker}
use turnserver_v.Wire.Unpacker.Reads.{Reads, Reads-map}
use turnserver_v.Wire.Codec.{Codec}

pub record Struct1 (A : Type 0) : Type 0 where
  pub member1 : A

abbrev key1 : {A : Type 0} → Struct1 A → A
key1 x = x.member1

pub key1_injective : {A : Type 0} (x y : Struct1 A) → key1 x ≡ key1 y → x ≡ y
key1_injective x y h = cc

module _ {A : Type 0} (a : Ordered A) where
  unfoldable pub less1 : Struct1 A → Struct1 A → Bool
  less1 x y = a.less x.member1 y.member1

  unfoldable pub equal1 : Struct1 A → Struct1 A → Bool
  equal1 x y = a.equal x.member1 y.member1

  unfoldable differ1 : Struct1 A → Struct1 A → Bool
  differ1 x y = not (equal1 x y)

  abbrev members1 : Ordered (A)
  members1 = a

  pub equal1-key : (x y : Struct1 A) → equal1 x y ≡ members1.equal (key1 x) (key1 y)
  unfolding equal1
  equal1-key x y = ground arith

  -- Two structs are compared by their members, from the first to the last.
  pub less1-key : (x y : Struct1 A) → less1 x y ≡ members1.less (key1 x) (key1 y)
  unfolding less1
  less1-key x y = ground arith

  abbrev pub struct1 : Ordered (Struct1 A)
  struct1 = by_key members1 key1 equal1 less1 key1_injective equal1-key less1-key

module _ {A : Type 0} (a : Codec A) where
  unfoldable pub blank1 : Struct1 A
  blank1 = record { member1 = a.blank }

  unfoldable pub push1 : Struct1 A → Packer → Option Packer
  push1 x p = a.push x.member1 p

  unfoldable pub pop1 : Struct1 A → Unpacker → Option (Struct1 A × Unpacker)
  pop1 x u = do (v1, u) ← a.pop x.member1 u; some (record { member1 = v1 }, u)

  unfoldable pub encode1 : Struct1 A → List ℕ
  encode1 x = a.encode x.member1

  pub record IsValid1 (x : Struct1 A) : Type 0 where
    pub valid1 : a.IsValid x.member1

  pub push1-Appends : (x : Struct1 A) → IsValid1 x → Appends (push1 x) (encode1 x)
  unfolding push1 encode1
  push1-Appends x ok = a.push-Appends x.member1 ok.valid1

  pub pop1-Reads : (x : Struct1 A) → IsValid1 x → Reads (pop1 blank1) (encode1 x) x
  unfolding pop1 encode1 blank1
  pop1-Reads x ok =
      Reads-map {B = Struct1 A} (λ v. record { member1 = v }) (a.pop-Reads x.member1 ok.valid1)

  abbrev pub packable1 : Codec (Struct1 A)
  packable1 = record {
    blank = blank1;
    push = push1;
    pop = pop1;
    encode = encode1;
    IsValid = IsValid1;
    push-Appends = push1-Appends;
    pop-Reads = pop1-Reads;
  }
