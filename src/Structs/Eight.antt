-- ===== src/Structs/Eight.antt =====
-- turnserver/base/declare_struct.h: a struct declared by NEW_DECLARE_STRUCT_8, and by
-- NEW_DECLARE_PACKABLE_8.
use turnserver_v.Base.{ℕ, Bool, not, ◌&&◌, ◌||◌, ◌≡◌, List, ◌++◌, Option, some, ◌>>=◌, arith}
use turnserver_v.Order.{Ordered}
use turnserver_v.Order.Pairs.{pair, by_key}
use turnserver_v.Wire.Packer.{Packer}
use turnserver_v.Wire.Packer.Written.{Appends}
use turnserver_v.Wire.Packer.Pushes.{Appends-seq}
use turnserver_v.Wire.Unpacker.{Unpacker}
use turnserver_v.Wire.Unpacker.Reads.{Reads, Reads-bind, Reads-map}
use turnserver_v.Wire.Codec.{Codec}

record Struct8 (A B C D E F G H : Type 0) : Type 0 where
  member1 : A
  member2 : B
  member3 : C
  member4 : D
  member5 : E
  member6 : F
  member7 : G
  member8 : H

abbrev key8 :
    {A B C D E F G H : Type 0} → Struct8 A B C D E F G H → A × (B × (C × (D × (E × (F × (G × H))))))
key8 x = (
  x.member1,
  (x.member2, (x.member3, (x.member4, (x.member5, (x.member6, (x.member7, x.member8)))))),
)

key8_injective :
    {A B C D E F G H : Type 0} (x y : Struct8 A B C D E F G H) → key8 x ≡ key8 y → x ≡ y
key8_injective x y h = cc

module _ {A B C D E F G H : Type 0} (a : Ordered A) (b : Ordered B) (c : Ordered C) (d : Ordered D)
    (e : Ordered E) (f : Ordered F) (g : Ordered G) (h : Ordered H) where
  unfoldable less8 : Struct8 A B C D E F G H → Struct8 A B C D E F G H → Bool
  less8 x y =
      a.less x.member1 y.member1
      || (a.equal x.member1 y.member1 && b.less x.member2 y.member2)
      || (a.equal x.member1 y.member1 && b.equal x.member2 y.member2 && c.less x.member3 y.member3)
      || (a.equal x.member1 y.member1
          && b.equal x.member2 y.member2
          && c.equal x.member3 y.member3
          && d.less x.member4 y.member4)
      || (a.equal x.member1 y.member1
          && b.equal x.member2 y.member2
          && c.equal x.member3 y.member3
          && d.equal x.member4 y.member4
          && e.less x.member5 y.member5)
      || (a.equal x.member1 y.member1
          && b.equal x.member2 y.member2
          && c.equal x.member3 y.member3
          && d.equal x.member4 y.member4
          && e.equal x.member5 y.member5
          && f.less x.member6 y.member6)
      || (a.equal x.member1 y.member1
          && b.equal x.member2 y.member2
          && c.equal x.member3 y.member3
          && d.equal x.member4 y.member4
          && e.equal x.member5 y.member5
          && f.equal x.member6 y.member6
          && g.less x.member7 y.member7)
      || (a.equal x.member1 y.member1
          && b.equal x.member2 y.member2
          && c.equal x.member3 y.member3
          && d.equal x.member4 y.member4
          && e.equal x.member5 y.member5
          && f.equal x.member6 y.member6
          && g.equal x.member7 y.member7
          && h.less x.member8 y.member8)

  unfoldable equal8 : Struct8 A B C D E F G H → Struct8 A B C D E F G H → Bool
  equal8 x y =
      a.equal x.member1 y.member1
      && b.equal x.member2 y.member2
      && c.equal x.member3 y.member3
      && d.equal x.member4 y.member4
      && e.equal x.member5 y.member5
      && f.equal x.member6 y.member6
      && g.equal x.member7 y.member7
      && h.equal x.member8 y.member8

  unfoldable differ8 : Struct8 A B C D E F G H → Struct8 A B C D E F G H → Bool
  differ8 x y = not (equal8 x y)

  abbrev members8 : Ordered (A × (B × (C × (D × (E × (F × (G × H)))))))
  members8 = pair a (pair b (pair c (pair d (pair e (pair f (pair g h))))))

  equal8-key : (x y : Struct8 A B C D E F G H) → equal8 x y ≡ members8.equal (key8 x) (key8 y)
  unfolding equal8
  equal8-key x y = ground arith

  -- Two structs are compared by their members, from the first to the last.
  less8-key : (x y : Struct8 A B C D E F G H) → less8 x y ≡ members8.less (key8 x) (key8 y)
  unfolding less8
  less8-key x y = ground arith

  abbrev struct8 : Ordered (Struct8 A B C D E F G H)
  struct8 = by_key members8 key8 equal8 less8 key8_injective equal8-key less8-key

module _ {A B C D E F G H : Type 0} (a : Codec A) (b : Codec B) (c : Codec C) (d : Codec D)
    (e : Codec E) (f : Codec F) (g : Codec G) (h : Codec H) where
  unfoldable blank8 : Struct8 A B C D E F G H
  blank8 = record {
    member1 = a.blank;
    member2 = b.blank;
    member3 = c.blank;
    member4 = d.blank;
    member5 = e.blank;
    member6 = f.blank;
    member7 = g.blank;
    member8 = h.blank;
  }

  unfoldable push8 : Struct8 A B C D E F G H → Packer → Option Packer
  push8 x p = do
    p ← a.push x.member1 p
    p ← b.push x.member2 p
    p ← c.push x.member3 p
    p ← d.push x.member4 p
    p ← e.push x.member5 p
    p ← f.push x.member6 p
    p ← g.push x.member7 p
    h.push x.member8 p

  unfoldable pop8 : Struct8 A B C D E F G H → Unpacker → Option (Struct8 A B C D E F G H × Unpacker)
  pop8 x u = do
    (v1, u) ← a.pop x.member1 u
    (v2, u) ← b.pop x.member2 u
    (v3, u) ← c.pop x.member3 u
    (v4, u) ← d.pop x.member4 u
    (v5, u) ← e.pop x.member5 u
    (v6, u) ← f.pop x.member6 u
    (v7, u) ← g.pop x.member7 u
    (v8, u) ← h.pop x.member8 u
    some (
      record {
        member1 = v1;
        member2 = v2;
        member3 = v3;
        member4 = v4;
        member5 = v5;
        member6 = v6;
        member7 = v7;
        member8 = v8;
      },
      u,
    )

  unfoldable encode8 : Struct8 A B C D E F G H → List ℕ
  encode8 x =
      a.encode x.member1
      ++ (b.encode x.member2
          ++ (c.encode x.member3
              ++ (d.encode x.member4
                  ++ (e.encode x.member5
                      ++ (f.encode x.member6 ++ (g.encode x.member7 ++ (h.encode x.member8)))))))

  record IsValid8 (x : Struct8 A B C D E F G H) : Type 0 where
    valid1 : a.IsValid x.member1
    valid2 : b.IsValid x.member2
    valid3 : c.IsValid x.member3
    valid4 : d.IsValid x.member4
    valid5 : e.IsValid x.member5
    valid6 : f.IsValid x.member6
    valid7 : g.IsValid x.member7
    valid8 : h.IsValid x.member8

  push8-Appends : (x : Struct8 A B C D E F G H) → IsValid8 x → Appends (push8 x) (encode8 x)
  unfolding push8 encode8
  push8-Appends x ok = Appends-seq (a.push-Appends x.member1 ok.valid1) (
      Appends-seq (b.push-Appends x.member2 ok.valid2) (
        Appends-seq (c.push-Appends x.member3 ok.valid3) (
          Appends-seq (d.push-Appends x.member4 ok.valid4) (
            Appends-seq (e.push-Appends x.member5 ok.valid5) (
              Appends-seq (f.push-Appends x.member6 ok.valid6) (
                Appends-seq (g.push-Appends x.member7 ok.valid7)
                  (h.push-Appends x.member8 ok.valid8)))))))

  pop8-Reads : (x : Struct8 A B C D E F G H) → IsValid8 x → Reads (pop8 blank8) (encode8 x) x
  unfolding pop8 encode8 blank8
  pop8-Reads x ok = Reads-bind _ (a.pop-Reads x.member1 ok.valid1) (
      Reads-bind _ (b.pop-Reads x.member2 ok.valid2) (
        Reads-bind _ (c.pop-Reads x.member3 ok.valid3) (
          Reads-bind _ (d.pop-Reads x.member4 ok.valid4) (
            Reads-bind _ (e.pop-Reads x.member5 ok.valid5) (
              Reads-bind _ (f.pop-Reads x.member6 ok.valid6) (
                Reads-bind _ (g.pop-Reads x.member7 ok.valid7) (
                  Reads-map (λ v. record x { member8 = v }) (h.pop-Reads x.member8 ok.valid8))))))))

  abbrev packable8 : Codec (Struct8 A B C D E F G H)
  packable8 = record {
    blank = blank8;
    push = push8;
    pop = pop8;
    encode = encode8;
    IsValid = IsValid8;
    push-Appends = push8-Appends;
    pop-Reads = pop8-Reads;
  }
