-- ===== src/Structs/Four.antt =====
-- turnserver/base/declare_struct.h: a struct declared by NEW_DECLARE_STRUCT_4, and by
-- NEW_DECLARE_PACKABLE_4.
use turnserver_v.Base.{ℕ, Bool, not, ◌&&◌, ◌||◌, ◌≡◌, List, ◌++◌, Option, some, ◌>>=◌, arith}
use turnserver_v.Order.{Ordered}
use turnserver_v.Order.Pairs.{pair, by_key}
use turnserver_v.Wire.Packer.{Packer}
use turnserver_v.Wire.Packer.Written.{Appends}
use turnserver_v.Wire.Packer.Pushes.{Appends-seq}
use turnserver_v.Wire.Unpacker.{Unpacker}
use turnserver_v.Wire.Unpacker.Reads.{Reads, Reads-bind, Reads-map}
use turnserver_v.Wire.Codec.{Codec}

record Struct4 (A B C D : Type 0) : Type 0 where
  member1 : A
  member2 : B
  member3 : C
  member4 : D

abbrev key4 : {A B C D : Type 0} → Struct4 A B C D → A × (B × (C × D))
key4 x = (x.member1, (x.member2, (x.member3, x.member4)))

key4_injective : {A B C D : Type 0} (x y : Struct4 A B C D) → key4 x ≡ key4 y → x ≡ y
key4_injective x y h = cc

module _ {A B C D : Type 0} (a : Ordered A) (b : Ordered B) (c : Ordered C) (d : Ordered D) where
  unfoldable less4 : Struct4 A B C D → Struct4 A B C D → Bool
  less4 x y =
      a.less x.member1 y.member1
      || (a.equal x.member1 y.member1 && b.less x.member2 y.member2)
      || (a.equal x.member1 y.member1 && b.equal x.member2 y.member2 && c.less x.member3 y.member3)
      || (a.equal x.member1 y.member1
          && b.equal x.member2 y.member2
          && c.equal x.member3 y.member3
          && d.less x.member4 y.member4)

  unfoldable equal4 : Struct4 A B C D → Struct4 A B C D → Bool
  equal4 x y =
      a.equal x.member1 y.member1
      && b.equal x.member2 y.member2
      && c.equal x.member3 y.member3
      && d.equal x.member4 y.member4

  unfoldable differ4 : Struct4 A B C D → Struct4 A B C D → Bool
  differ4 x y = not (equal4 x y)

  abbrev members4 : Ordered (A × (B × (C × D)))
  members4 = pair a (pair b (pair c d))

  equal4-key : (x y : Struct4 A B C D) → equal4 x y ≡ members4.equal (key4 x) (key4 y)
  unfolding equal4
  equal4-key x y = ground arith

  -- Two structs are compared by their members, from the first to the last.
  less4-key : (x y : Struct4 A B C D) → less4 x y ≡ members4.less (key4 x) (key4 y)
  unfolding less4
  less4-key x y = ground arith

  abbrev struct4 : Ordered (Struct4 A B C D)
  struct4 = by_key members4 key4 equal4 less4 key4_injective equal4-key less4-key

module _ {A B C D : Type 0} (a : Codec A) (b : Codec B) (c : Codec C) (d : Codec D) where
  unfoldable blank4 : Struct4 A B C D
  blank4 = record { member1 = a.blank; member2 = b.blank; member3 = c.blank; member4 = d.blank }

  unfoldable push4 : Struct4 A B C D → Packer → Option Packer
  push4 x p = do
    p ← a.push x.member1 p
    p ← b.push x.member2 p
    p ← c.push x.member3 p
    d.push x.member4 p

  unfoldable pop4 : Struct4 A B C D → Unpacker → Option (Struct4 A B C D × Unpacker)
  pop4 x u = do
    (v1, u) ← a.pop x.member1 u
    (v2, u) ← b.pop x.member2 u
    (v3, u) ← c.pop x.member3 u
    (v4, u) ← d.pop x.member4 u
    some (record { member1 = v1; member2 = v2; member3 = v3; member4 = v4 }, u)

  unfoldable encode4 : Struct4 A B C D → List ℕ
  encode4 x =
      a.encode x.member1 ++ (b.encode x.member2 ++ (c.encode x.member3 ++ (d.encode x.member4)))

  record IsValid4 (x : Struct4 A B C D) : Type 0 where
    valid1 : a.IsValid x.member1
    valid2 : b.IsValid x.member2
    valid3 : c.IsValid x.member3
    valid4 : d.IsValid x.member4

  push4-Appends : (x : Struct4 A B C D) → IsValid4 x → Appends (push4 x) (encode4 x)
  unfolding push4 encode4
  push4-Appends x ok = Appends-seq (a.push-Appends x.member1 ok.valid1) (
      Appends-seq (b.push-Appends x.member2 ok.valid2)
        (Appends-seq (c.push-Appends x.member3 ok.valid3) (d.push-Appends x.member4 ok.valid4)))

  pop4-Reads : (x : Struct4 A B C D) → IsValid4 x → Reads (pop4 blank4) (encode4 x) x
  unfolding pop4 encode4 blank4
  pop4-Reads x ok = Reads-bind _ (a.pop-Reads x.member1 ok.valid1) (
      Reads-bind _ (b.pop-Reads x.member2 ok.valid2) (
        Reads-bind _ (c.pop-Reads x.member3 ok.valid3)
          (Reads-map (λ v. record x { member4 = v }) (d.pop-Reads x.member4 ok.valid4))))

  abbrev packable4 : Codec (Struct4 A B C D)
  packable4 = record {
    blank = blank4;
    push = push4;
    pop = pop4;
    encode = encode4;
    IsValid = IsValid4;
    push-Appends = push4-Appends;
    pop-Reads = pop4-Reads;
  }
