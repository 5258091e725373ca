-- ===== src/Structs/Six.antt =====
-- turnserver/base/declare_struct.h: a struct declared by NEW_DECLARE_STRUCT_6, and by
-- NEW_DECLARE_PACKABLE_6.
use turnserver_v.Base.{ℕ, Bool, not, ◌&&◌, ◌||◌, ◌≡◌, List, ◌++◌, Option, some, ◌>>=◌, arith}
use turnserver_v.Order.{Ordered}
use turnserver_v.Order.Pairs.{pair, by_key}
use turnserver_v.Wire.Packer.{Packer}
use turnserver_v.Wire.Packer.Written.{Appends}
use turnserver_v.Wire.Packer.Pushes.{Appends-seq}
use turnserver_v.Wire.Unpacker.{Unpacker}
use turnserver_v.Wire.Unpacker.Reads.{Reads, Reads-bind, Reads-map}
use turnserver_v.Wire.Codec.{Codec}

record Struct6 (A B C D E F : Type 0) : Type 0 where
  member1 : A
  member2 : B
  member3 : C
  member4 : D
  member5 : E
  member6 : F

abbrev key6 : {A B C D E F : Type 0} → Struct6 A B C D E F → A × (B × (C × (D × (E × F))))
key6 x = (x.member1, (x.member2, (x.member3, (x.member4, (x.member5, x.member6)))))

key6_injective : {A B C D E F : Type 0} (x y : Struct6 A B C D E F) → key6 x ≡ key6 y → x ≡ y
key6_injective x y h = cc

module _ {A B C D E F : Type 0} (a : Ordered A) (b : Ordered B) (c : Ordered C) (d : Ordered D)
    (e : Ordered E) (f : Ordered F) where
  unfoldable less6 : Struct6 A B C D E F → Struct6 A B C D E F → Bool
  less6 x y =
      a.less x.member1 y.member1
      || (a.equal x.member1 y.member1 && b.less x.member2 y.member2)
      || (a.equal x.member1 y.member1 && b.equal x.member2 y.member2 && c.less x.member3 y.member3)
      || (a.equal x.member1 y.member1
          && b.equal x.member2 y.member2
          && c.equal x.member3 y.member3
          && d.less x.member4 y.member4)
      || (a.equal x.member1 y.member1
          && b.equal x.member2 y.member2
          && c.equal x.member3 y.member3
          && d.equal x.member4 y.member4
          && e.less x.member5 y.member5)
      || (a.equal x.member1 y.member1
          && b.equal x.member2 y.member2
          && c.equal x.member3 y.member3
          && d.equal x.member4 y.member4
          && e.equal x.member5 y.member5
          && f.less x.member6 y.member6)

  unfoldable equal6 : Struct6 A B C D E F → Struct6 A B C D E F → Bool
  equal6 x y =
      a.equal x.member1 y.member1
      && b.equal x.member2 y.member2
      && c.equal x.member3 y.member3
      && d.equal x.member4 y.member4
      && e.equal x.member5 y.member5
      && f.equal x.member6 y.member6

  unfoldable differ6 : Struct6 A B C D E F → Struct6 A B C D E F → Bool
  differ6 x y = not (equal6 x y)

  abbrev members6 : Ordered (A × (B × (C × (D × (E × F)))))
  members6 = pair a (pair b (pair c (pair d (pair e f))))

  equal6-key : (x y : Struct6 A B C D E F) → equal6 x y ≡ members6.equal (key6 x) (key6 y)
  unfolding equal6
  equal6-key x y = ground arith

  -- Two structs are compared by their members, from the first to the last.
  less6-key : (x y : Struct6 A B C D E F) → less6 x y ≡ members6.less (key6 x) (key6 y)
  unfolding less6
  less6-key x y = ground arith

  abbrev struct6 : Ordered (Struct6 A B C D E F)
  struct6 = by_key members6 key6 equal6 less6 key6_injective equal6-key less6-key

module _ {A B C D E F : Type 0} (a : Codec A) (b : Codec B) (c : Codec C) (d : Codec D)
    (e : Codec E) (f : Codec F) where
  unfoldable blank6 : Struct6 A B C D E F
  blank6 = record {
    member1 = a.blank;
    member2 = b.blank;
    member3 = c.blank;
    member4 = d.blank;
    member5 = e.blank;
    member6 = f.blank;
  }

  unfoldable push6 : Struct6 A B C D E F → Packer → Option Packer
  push6 x p = do
    p ← a.push x.member1 p
    p ← b.push x.member2 p
    p ← c.push x.member3 p
    p ← d.push x.member4 p
    p ← e.push x.member5 p
    f.push x.member6 p

  unfoldable pop6 : Struct6 A B C D E F → Unpacker → Option (Struct6 A B C D E F × Unpacker)
  pop6 x u = do
    (v1, u) ← a.pop x.member1 u
    (v2, u) ← b.pop x.member2 u
    (v3, u) ← c.pop x.member3 u
    (v4, u) ← d.pop x.member4 u
    (v5, u) ← e.pop x.member5 u
    (v6, u) ← f.pop x.member6 u
    some (
      record { member1 = v1; member2 = v2; member3 = v3; member4 = v4; member5 = v5; member6 = v6 },
      u,
    )

  unfoldable encode6 : Struct6 A B C D E F → List ℕ
  encode6 x =
      a.encode x.member1
      ++ (b.encode x.member2
          ++ (c.encode x.member3
              ++ (d.encode x.member4 ++ (e.encode x.member5 ++ (f.encode x.member6)))))

  record IsValid6 (x : Struct6 A B C D E F) : Type 0 where
    valid1 : a.IsValid x.member1
    valid2 : b.IsValid x.member2
    valid3 : c.IsValid x.member3
    valid4 : d.IsValid x.member4
    valid5 : e.IsValid x.member5
    valid6 : f.IsValid x.member6

  push6-Appends : (x : Struct6 A B C D E F) → IsValid6 x → Appends (push6 x) (encode6 x)
  unfolding push6 encode6
  push6-Appends x ok = Appends-seq (a.push-Appends x.member1 ok.valid1) (
      Appends-seq (b.push-Appends x.member2 ok.valid2) (
        Appends-seq (c.push-Appends x.member3 ok.valid3) (
          Appends-seq (d.push-Appends x.member4 ok.valid4) (
            Appends-seq (e.push-Appends x.member5 ok.valid5)
              (f.push-Appends x.member6 ok.valid6)))))

  pop6-Reads : (x : Struct6 A B C D E F) → IsValid6 x → Reads (pop6 blank6) (encode6 x) x
  unfolding pop6 encode6 blank6
  pop6-Reads x ok = Reads-bind _ (a.pop-Reads x.member1 ok.valid1) (
      Reads-bind _ (b.pop-Reads x.member2 ok.valid2) (
        Reads-bind _ (c.pop-Reads x.member3 ok.valid3) (
          Reads-bind _ (d.pop-Reads x.member4 ok.valid4) (
            Reads-bind _ (e.pop-Reads x.member5 ok.valid5)
              (Reads-map (λ v. record x { member6 = v }) (f.pop-Reads x.member6 ok.valid6))))))

  abbrev packable6 : Codec (Struct6 A B C D E F)
  packable6 = record {
    blank = blank6;
    push = push6;
    pop = pop6;
    encode = encode6;
    IsValid = IsValid6;
    push-Appends = push6-Appends;
    pop-Reads = pop6-Reads;
  }
