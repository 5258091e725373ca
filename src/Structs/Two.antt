-- ===== src/Structs/Two.antt =====
-- turnserver/base/declare_struct.h: a struct declared by NEW_DECLARE_STRUCT_2, and by
-- NEW_DECLARE_PACKABLE_2.
use turnserver_v.Base.{ℕ, Bool, not, ◌&&◌, ◌||◌, ◌≡◌, List, ◌++◌, Option, some, ◌>>=◌, arith}
use turnserver_v.Order.{Ordered}
use turnserver_v.Order.Pairs.{pair, by_key}
use turnserver_v.Wire.Packer.{Packer}
use turnserver_v.Wire.Packer.Written.{Appends}
use turnserver_v.Wire.Packer.Pushes.{Appends-seq}
use turnserver_v.Wire.Unpacker.{Unpacker}
use turnserver_v.Wire.Unpacker.Reads.{Reads, Reads-bind, Reads-map}
use turnserver_v.Wire.Codec.{Codec}

pub record Struct2 (A B : Type 0) : Type 0 where
  pub member1 : A
  pub member2 : B

abbrev key2 : {A B : Type 0} → Struct2 A B → A × B
key2 x = (x.member1, x.member2)

pub key2_injective : {A B : Type 0} (x y : Struct2 A B) → key2 x ≡ key2 y → x ≡ y
key2_injective x y h = cc

module _ {A B : Type 0} (a : Ordered A) (b : Ordered B) where
  unfoldable pub less2 : Struct2 A B → Struct2 A B → Bool
  less2 x y =
      a.less x.member1 y.member1 || (a.equal x.member1 y.member1 && b.less x.member2 y.member2)

  unfoldable pub equal2 : Struct2 A B → Struct2 A B → Bool
  equal2 x y = a.equal x.member1 y.member1 && b.equal x.member2 y.member2

  unfoldable differ2 : Struct2 A B → Struct2 A B → Bool
  differ2 x y = not (equal2 x y)

  abbrev members2 : Ordered (A × B)
  members2 = (pair a b)

  pub equal2-key : (x y : Struct2 A B) → equal2 x y ≡ members2.equal (key2 x) (key2 y)
  unfolding equal2
  equal2-key x y = ground arith

  -- Two structs are compared by their members, from the first to the last.
  pub less2-key : (x y : Struct2 A B) → less2 x y ≡ members2.less (key2 x) (key2 y)
  unfolding less2
  less2-key x y = ground arith

  abbrev pub struct2 : Ordered (Struct2 A B)
  struct2 = by_key members2 key2 equal2 less2 key2_injective equal2-key less2-key

module _ {A B : Type 0} (a : Codec A) (b : Codec B) where
  unfoldable pub blank2 : Struct2 A B
  blank2 = record { member1 = a.blank; member2 = b.blank }

  unfoldable pub push2 : Struct2 A B → Packer → Option Packer
  push2 x p = do p ← a.push x.member1 p; b.push x.member2 p

  unfoldable pub pop2 : Struct2 A B → Unpacker → Option (Struct2 A B × Unpacker)
  pop2 x u = do
    (v1, u) ← a.pop x.member1 u
    (v2, u) ← b.pop x.member2 u
    some (record { member1 = v1; member2 = v2 }, u)

  unfoldable pub encode2 : Struct2 A B → List ℕ
  encode2 x = a.encode x.member1 ++ (b.encode x.member2)

  pub record IsValid2 (x : Struct2 A B) : Type 0 where
    pub valid1 : a.IsValid x.member1
    pub valid2 : b.IsValid x.member2

  pub push2-Appends : (x : Struct2 A B) → IsValid2 x → Appends (push2 x) (encode2 x)
  unfolding push2 encode2
  push2-Appends x ok =
      Appends-seq (a.push-Appends x.member1 ok.valid1) (b.push-Appends x.member2 ok.valid2)

  pub pop2-Reads : (x : Struct2 A B) → IsValid2 x → Reads (pop2 blank2) (encode2 x) x
  unfolding pop2 encode2 blank2
  pop2-Reads x ok =
      Reads-bind _ (a.pop-Reads x.member1 ok.valid1)
        (Reads-map (λ v. record x { member2 = v }) (b.pop-Reads x.member2 ok.valid2))

  abbrev pub packable2 : Codec (Struct2 A B)
  packable2 = record {
    blank = blank2;
    push = push2;
    pop = pop2;
    encode = encode2;
    IsValid = IsValid2;
    push-Appends = push2-Appends;
    pop-Reads = pop2-Reads;
  }
