-- ===== src/Structs/Nine.antt =====
-- turnserver/base/declare_struct.h: a struct declared by NEW_DECLARE_STRUCT_9, and by
-- NEW_DECLARE_PACKABLE_9.
use turnserver_v.Base.{ℕ, Bool, not, ◌&&◌, ◌||◌, ◌≡◌, List, ◌++◌, Option, some, ◌>>=◌, arith}
use turnserver_v.Order.{Ordered}
use turnserver_v.Order.Pairs.{pair, by_key}
use turnserver_v.Wire.Packer.{Packer}
use turnserver_v.Wire.Packer.Written.{Appends}
use turnserver_v.Wire.Packer.Pushes.{Appends-seq}
use turnserver_v.Wire.Unpacker.{Unpacker}
use turnserver_v.Wire.Unpacker.Reads.{Reads, Reads-bind, Reads-map}
use turnserver_v.Wire.Codec.{Codec}

record Struct9 (A B C D E F G H I : Type 0) : Type 0 where
  member1 : A
  member2 : B
  member3 : C
  member4 : D
  member5 : E
  member6 : F
  member7 : G
  member8 : H
  member9 : I

abbrev key9 :
    {A B C D E F G H I : Type 0}
    → Struct9 A B C D E F G H I
    → A × (B × (C × (D × (E × (F × (G × (H × I)))))))
key9 x = (
  x.member1,
  (
    x.member2,
    (x.member3, (x.member4, (x.member5, (x.member6, (x.member7, (x.member8, x.member9)))))),
  ),
)

key9_injective :
    {A B C D E F G H I : Type 0} (x y : Struct9 A B C D E F G H I) → key9 x ≡ key9 y → x ≡ y
key9_injective x y h = cc

module _ {A B C D E F G H I : Type 0} (a : Ordered A) (b : Ordered B) (c : Ordered C)
    (d : Ordered D) (e : Ordered E) (f : Ordered F) (g : Ordered G) (h : Ordered H)
    (i : Ordered I) where
  unfoldable less9 : Struct9 A B C D E F G H I → Struct9 A B C D E F G H I → Bool
  less9 x y =
      a.less x.member1 y.member1
      || (a.equal x.member1 y.member1 && b.less x.member2 y.member2)
      || (a.equal x.member1 y.member1 && b.equal x.member2 y.member2 && c.less x.member3 y.member3)
      || (a.equal x.member1 y.member1
          && b.equal x.member2 y.member2
          && c.equal x.member3 y.member3
          && d.less x.member4 y.member4)
      || (a.equal x.member1 y.member1
          && b.equal x.member2 y.member2
          && c.equal x.member3 y.member3
          && d.equal x.member4 y.member4
          && e.less x.member5 y.member5)
      || (a.equal x.member1 y.member1
          && b.equal x.member2 y.member2
          && c.equal x.member3 y.member3
          && d.equal x.member4 y.member4
          && e.equal x.member5 y.member5
          && f.less x.member6 y.member6)
      || (a.equal x.member1 y.member1
          && b.equal x.member2 y.member2
          && c.equal x.member3 y.member3
          && d.equal x.member4 y.member4
          && e.equal x.member5 y.member5
          && f.equal x.member6 y.member6
          && g.less x.member7 y.member7)
      || (a.equal x.member1 y.member1
          && b.equal x.member2 y.member2
          && c.equal x.member3 y.member3
          && d.equal x.member4 y.member4
          && e.equal x.member5 y.member5
          && f.equal x.member6 y.member6
          && g.equal x.member7 y.member7
          && h.less x.member8 y.member8)
      || (a.equal x.member1 y.member1
          && b.equal x.member2 y.member2
          && c.equal x.member3 y.member3
          && d.equal x.member4 y.member4
          && e.equal x.member5 y.member5
          && f.equal x.member6 y.member6
          && g.equal x.member7 y.member7
          && h.equal x.member8 y.member8
          && i.less x.member9 y.member9)

  unfoldable equal9 : Struct9 A B C D E F G H I → Struct9 A B C D E F G H I → Bool
  equal9 x y =
      a.equal x.member1 y.member1
      && b.equal x.member2 y.member2
      && c.equal x.member3 y.member3
      && d.equal x.member4 y.member4
      && e.equal x.member5 y.member5
      && f.equal x.member6 y.member6
      && g.equal x.member7 y.member7
      && h.equal x.member8 y.member8
      && i.equal x.member9 y.member9

  unfoldable differ9 : Struct9 A B C D E F G H I → Struct9 A B C D E F G H I → Bool
  differ9 x y = not (equal9 x y)

  abbrev members9 : Ordered (A × (B × (C × (D × (E × (F × (G × (H × I))))))))
  members9 = pair a (pair b (pair c (pair d (pair e (pair f (pair g (pair h i)))))))

  equal9-key : (x y : Struct9 A B C D E F G H I) → equal9 x y ≡ members9.equal (key9 x) (key9 y)
  unfolding equal9
  equal9-key x y = ground arith

  -- Two structs are compared by their members, from the first to the last.
  less9-key : (x y : Struct9 A B C D E F G H I) → less9 x y ≡ members9.less (key9 x) (key9 y)
  unfolding less9
  less9-key x y = ground arith

  abbrev struct9 : Ordered (Struct9 A B C D E F G H I)
  struct9 = by_key members9 key9 equal9 less9 key9_injective equal9-key less9-key

module _ {A B C D E F G H I : Type 0} (a : Codec A) (b : Codec B) (c : Codec C) (d : Codec D)
    (e : Codec E) (f : Codec F) (g : Codec G) (h : Codec H) (i : Codec I) where
  unfoldable blank9 : Struct9 A B C D E F G H I
  blank9 = record {
    member1 = a.blank;
    member2 = b.blank;
    member3 = c.blank;
    member4 = d.blank;
    member5 = e.blank;
    member6 = f.blank;
    member7 = g.blank;
    member8 = h.blank;
    member9 = i.blank;
  }

  unfoldable push9 : Struct9 A B C D E F G H I → Packer → Option Packer
  push9 x p = do
    p ← a.push x.member1 p
    p ← b.push x.member2 p
    p ← c.push x.member3 p
    p ← d.push x.member4 p
    p ← e.push x.member5 p
    p ← f.push x.member6 p
    p ← g.push x.member7 p
    p ← h.push x.member8 p
    i.push x.member9 p

  unfoldable pop9 :
      Struct9 A B C D E F G H I → Unpacker → Option (Struct9 A B C D E F G H I × Unpacker)
  pop9 x u = do
    (v1, u) ← a.pop x.member1 u
    (v2, u) ← b.pop x.member2 u
    (v3, u) ← c.pop x.member3 u
    (v4, u) ← d.pop x.member4 u
    (v5, u) ← e.pop x.member5 u
    (v6, u) ← f.pop x.member6 u
    (v7, u) ← g.pop x.member7 u
    (v8, u) ← h.pop x.member8 u
    (v9, u) ← i.pop x.member9 u
    some (
      record {
        member1 = v1;
        member2 = v2;
        member3 = v3;
        member4 = v4;
        member5 = v5;
        member6 = v6;
        member7 = v7;
        member8 = v8;
        member9 = v9;
      },
      u,
    )

  unfoldable encode9 : Struct9 A B C D E F G H I → List ℕ
  encode9 x =
      a.encode x.member1
      ++ (b.encode x.member2
          ++ (c.encode x.member3
              ++ (d.encode x.member4
                  ++ (e.encode x.member5
                      ++ (f.encode x.member6
                          ++ (g.encode x.member7
                              ++ (h.encode x.member8 ++ (i.encode x.member9))))))))

  record IsValid9 (x : Struct9 A B C D E F G H I) : Type 0 where
    valid1 : a.IsValid x.member1
    valid2 : b.IsValid x.member2
    valid3 : c.IsValid x.member3
    valid4 : d.IsValid x.member4
    valid5 : e.IsValid x.member5
    valid6 : f.IsValid x.member6
    valid7 : g.IsValid x.member7
    valid8 : h.IsValid x.member8
    valid9 : i.IsValid x.member9

  push9-Appends : (x : Struct9 A B C D E F G H I) → IsValid9 x → Appends (push9 x) (encode9 x)
  unfolding push9 encode9
  push9-Appends x ok = Appends-seq (a.push-Appends x.member1 ok.valid1) (
      Appends-seq (b.push-Appends x.member2 ok.valid2) (
        Appends-seq (c.push-Appends x.member3 ok.valid3) (
          Appends-seq (d.push-Appends x.member4 ok.valid4) (
            Appends-seq (e.push-Appends x.member5 ok.valid5) (
              Appends-seq (f.push-Appends x.member6 ok.valid6) (
                Appends-seq (g.push-Appends x.member7 ok.valid7) (
                  Appends-seq (h.push-Appends x.member8 ok.valid8)
                    (i.push-Appends x.member9 ok.valid9))))))))

  pop9-Reads : (x : Struct9 A B C D E F G H I) → IsValid9 x → Reads (pop9 blank9) (encode9 x) x
  unfolding pop9 encode9 blank9
  pop9-Reads x ok = Reads-bind _ (a.pop-Reads x.member1 ok.valid1) (
      Reads-bind _ (b.pop-Reads x.member2 ok.valid2) (
        Reads-bind _ (c.pop-Reads x.member3 ok.valid3) (
          Reads-bind _ (d.pop-Reads x.member4 ok.valid4) (
            Reads-bind _ (e.pop-Reads x.member5 ok.valid5) (
              Reads-bind _ (f.pop-Reads x.member6 ok.valid6) (
                Reads-bind _ (g.pop-Reads x.member7 ok.valid7) (
                  Reads-bind _ (h.pop-Reads x.member8 ok.valid8) (
                    Reads-map (λ v. record x { member9 = v })
                      (i.pop-Reads x.member9 ok.valid9)))))))))

  abbrev packable9 : Codec (Struct9 A B C D E F G H I)
  packable9 = record {
    blank = blank9;
    push = push9;
    pop = pop9;
    encode = encode9;
    IsValid = IsValid9;
    push-Appends = push9-Appends;
    pop-Reads = pop9-Reads;
  }
