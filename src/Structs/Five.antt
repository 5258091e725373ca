-- ===== src/Structs/Five.antt =====
-- turnserver/base/declare_struct.h: a struct declared by NEW_DECLARE_STRUCT_5, and by
-- NEW_DECLARE_PACKABLE_5.
use turnserver_v.Base.{ℕ, Bool, not, ◌&&◌, ◌||◌, ◌≡◌, List, ◌++◌, Option, some, ◌>>=◌, arith}
use turnserver_v.Order.{Ordered}
use turnserver_v.Order.Pairs.{pair, by_key}
use turnserver_v.Wire.Packer.{Packer}
use turnserver_v.Wire.Packer.Written.{Appends}
use turnserver_v.Wire.Packer.Pushes.{Appends-seq}
use turnserver_v.Wire.Unpacker.{Unpacker}
use turnserver_v.Wire.Unpacker.Reads.{Reads, Reads-bind, Reads-map}
use turnserver_v.Wire.Codec.{Codec}

record Struct5 (A B C D E : Type 0) : Type 0 where
  member1 : A
  member2 : B
  member3 : C
  member4 : D
  member5 : E

abbrev key5 : {A B C D E : Type 0} → Struct5 A B C D E → A × (B × (C × (D × E)))
key5 x = (x.member1, (x.member2, (x.member3, (x.member4, x.member5))))

key5_injective : {A B C D E : Type 0} (x y : Struct5 A B C D E) → key5 x ≡ key5 y → x ≡ y
key5_injective x y h = cc

module _ {A B C D E : Type 0} (a : Ordered A) (b : Ordered B) (c : Ordered C) (d : Ordered D)
    (e : Ordered E) where
  unfoldable less5 : Struct5 A B C D E → Struct5 A B C D E → Bool
  less5 x y =
      a.less x.member1 y.member1
      || (a.equal x.member1 y.member1 && b.less x.member2 y.member2)
      || (a.equal x.member1 y.member1 && b.equal x.member2 y.member2 && c.less x.member3 y.member3)
      || (a.equal x.member1 y.member1
          && b.equal x.member2 y.member2
          && c.equal x.member3 y.member3
          && d.less x.member4 y.member4)
      || (a.equal x.member1 y.member1
          && b.equal x.member2 y.member2
          && c.equal x.member3 y.member3
          && d.equal x.member4 y.member4
          && e.less x.member5 y.member5)

  unfoldable equal5 : Struct5 A B C D E → Struct5 A B C D E → Bool
  equal5 x y =
      a.equal x.member1 y.member1
      && b.equal x.member2 y.member2
      && c.equal x.member3 y.member3
      && d.equal x.member4 y.member4
      && e.equal x.member5 y.member5

  unfoldable differ5 : Struct5 A B C D E → Struct5 A B C D E → Bool
  differ5 x y = not (equal5 x y)

  abbrev members5 : Ordered (A × (B × (C × (D × E))))
  members5 = pair a (pair b (pair c (pair d e)))

  equal5-key : (x y : Struct5 A B C D E) → equal5 x y ≡ members5.equal (key5 x) (key5 y)
  unfolding equal5
  equal5-key x y = ground arith

  -- Two structs are compared by their members, from the first to the last.
  less5-key : (x y : Struct5 A B C D E) → less5 x y ≡ members5.less (key5 x) (key5 y)
  unfolding less5
  less5-key x y = ground arith

  abbrev struct5 : Ordered (Struct5 A B C D E)
  struct5 = by_key members5 key5 equal5 less5 key5_injective equal5-key less5-key

module _ {A B C D E : Type 0} (a : Codec A) (b : Codec B) (c : Codec C) (d : Codec D)
    (e : Codec E) where
  unfoldable blank5 : Struct5 A B C D E
  blank5 = record {
    member1 = a.blank;
    member2 = b.blank;
    member3 = c.blank;
    member4 = d.blank;
    member5 = e.blank;
  }

  unfoldable push5 : Struct5 A B C D E → Packer → Option Packer
  push5 x p = do
    p ← a.push x.member1 p
    p ← b.push x.member2 p
    p ← c.push x.member3 p
    p ← d.push x.member4 p
    e.push x.member5 p

  unfoldable pop5 : Struct5 A B C D E → Unpacker → Option (Struct5 A B C D E × Unpacker)
  pop5 x u = do
    (v1, u) ← a.pop x.member1 u
    (v2, u) ← b.pop x.member2 u
    (v3, u) ← c.pop x.member3 u
    (v4, u) ← d.pop x.member4 u
    (v5, u) ← e.pop x.member5 u
    some (record { member1 = v1; member2 = v2; member3 = v3; member4 = v4; member5 = v5 }, u)

  unfoldable encode5 : Struct5 A B C D E → List ℕ
  encode5 x =
      a.encode x.member1
      ++ (b.encode x.member2
          ++ (c.encode x.member3 ++ (d.encode x.member4 ++ (e.encode x.member5))))

  record IsValid5 (x : Struct5 A B C D E) : Type 0 where
    valid1 : a.IsValid x.member1
    valid2 : b.IsValid x.member2
    valid3 : c.IsValid x.member3
    valid4 : d.IsValid x.member4
    valid5 : e.IsValid x.member5

  push5-Appends : (x : Struct5 A B C D E) → IsValid5 x → Appends (push5 x) (encode5 x)
  unfolding push5 encode5
  push5-Appends x ok = Appends-seq (a.push-Appends x.member1 ok.valid1) (
      Appends-seq (b.push-Appends x.member2 ok.valid2) (
        Appends-seq (c.push-Appends x.member3 ok.valid3)
          (Appends-seq (d.push-Appends x.member4 ok.valid4) (e.push-Appends x.member5 ok.valid5))))

  pop5-Reads : (x : Struct5 A B C D E) → IsValid5 x → Reads (pop5 blank5) (encode5 x) x
  unfolding pop5 encode5 blank5
  pop5-Reads x ok = Reads-bind _ (a.pop-Reads x.member1 ok.valid1) (
      Reads-bind _ (b.pop-Reads x.member2 ok.valid2) (
        Reads-bind _ (c.pop-Reads x.member3 ok.valid3) (
          Reads-bind _ (d.pop-Reads x.member4 ok.valid4)
            (Reads-map (λ v. record x { member5 = v }) (e.pop-Reads x.member5 ok.valid5)))))

  abbrev packable5 : Codec (Struct5 A B C D E)
  packable5 = record {
    blank = blank5;
    push = push5;
    pop = pop5;
    encode = encode5;
    IsValid = IsValid5;
    push-Appends = push5-Appends;
    pop-Reads = pop5-Reads;
  }
