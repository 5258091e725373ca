-- ===== src/Structs/Seven.antt =====
-- turnserver/base/declare_struct.h: a struct declared by NEW_DECLARE_STRUCT_7, and by
-- NEW_DECLARE_PACKABLE_7.
use turnserver_v.Base.{ℕ, Bool, not, ◌&&◌, ◌||◌, ◌≡◌, List, ◌++◌, Option, some, ◌>>=◌, arith}
use turnserver_v.Order.{Ordered}
use turnserver_v.Order.Pairs.{pair, by_key}
use turnserver_v.Wire.Packer.{Packer}
use turnserver_v.Wire.Packer.Written.{Appends}
use turnserver_v.Wire.Packer.Pushes.{Appends-seq}
use turnserver_v.Wire.Unpacker.{Unpacker}
use turnserver_v.Wire.Unpacker.Reads.{Reads, Reads-bind, Reads-map}
use turnserver_v.Wire.Codec.{Codec}

pub record Struct7 (A B C D E F G : Type 0) : Type 0 where
  pub member1 : A
  pub member2 : B
  pub member3 : C
  pub member4 : D
  pub member5 : E
  pub member6 : F
  pub member7 : G

abbrev key7 : {A B C D E F G : Type 0} → Struct7 A B C D E F G → A × (B × (C × (D × (E × (F × G)))))
key7 x = (x.member1, (x.member2, (x.member3, (x.member4, (x.member5, (x.member6, x.member7))))))

pub key7_injective :
    {A B C D E F G : Type 0} (x y : Struct7 A B C D E F G) → key7 x ≡ key7 y → x ≡ y
key7_injective x y h = cc

module _ {A B C D E F G : Type 0} (a : Ordered A) (b : Ordered B) (c : Ordered C) (d : Ordered D)
    (e : Ordered E) (f : Ordered F) (g : Ordered G) where
  unfoldable pub less7 : Struct7 A B C D E F G → Struct7 A B C D E F G → Bool
  less7 x y =
      a.less x.member1 y.member1
      || (a.equal x.member1 y.member1 && b.less x.member2 y.member2)
      || (a.equal x.member1 y.member1 && b.equal x.member2 y.member2 && c.less x.member3 y.member3)
      || (a.equal x.member1 y.member1
          && b.equal x.member2 y.member2
          && c.equal x.member3 y.member3
          && d.less x.member4 y.member4)
      || (a.equal x.member1 y.member1
          && b.equal x.member2 y.member2
          && c.equal x.member3 y.member3
          && d.equal x.member4 y.member4
          && e.less x.member5 y.member5)
      || (a.equal x.member1 y.member1
          && b.equal x.member2 y.member2
          && c.equal x.member3 y.member3
          && d.equal x.member4 y.member4
          && e.equal x.member5 y.member5
          && f.less x.member6 y.member6)
      || (a.equal x.member1 y.member1
          && b.equal x.member2 y.member2
          && c.equal x.member3 y.member3
          && d.equal x.member4 y.member4
          && e.equal x.member5 y.member5
          && f.equal x.member6 y.member6
          && g.less x.member7 y.member7)

  unfoldable pub equal7 : Struct7 A B C D E F G → Struct7 A B C D E F G → Bool
  equal7 x y =
      a.equal x.member1 y.member1
      && b.equal x.member2 y.member2
      && c.equal x.member3 y.member3
      && d.equal x.member4 y.member4
      && e.equal x.member5 y.member5
      && f.equal x.member6 y.member6
      && g.equal x.member7 y.member7

  unfoldable differ7 : Struct7 A B C D E F G → Struct7 A B C D E F G → Bool
  differ7 x y = not (equal7 x y)

  abbrev pub members7 : Ordered (A × (B × (C × (D × (E × (F × G))))))
  members7 = pair a (pair b (pair c (pair d (pair e (pair f g)))))

  pub equal7-key : (x y : Struct7 A B C D E F G) → equal7 x y ≡ members7.equal (key7 x) (key7 y)
  unfolding equal7
  equal7-key x y = ground arith

  -- Two structs are compared by their members, from the first to the last.
  pub less7-key : (x y : Struct7 A B C D E F G) → less7 x y ≡ members7.less (key7 x) (key7 y)
  unfolding less7
  less7-key x y = ground arith

  abbrev pub struct7 : Ordered (Struct7 A B C D E F G)
  struct7 = by_key members7 key7 equal7 less7 key7_injective equal7-key less7-key

module _ {A B C D E F G : Type 0} (a : Codec A) (b : Codec B) (c : Codec C) (d : Codec D)
    (e : Codec E) (f : Codec F) (g : Codec G) where
  unfoldable pub blank7 : Struct7 A B C D E F G
  blank7 = record {
    member1 = a.blank;
    member2 = b.blank;
    member3 = c.blank;
    member4 = d.blank;
    member5 = e.blank;
    member6 = f.blank;
    member7 = g.blank;
  }

  unfoldable pub push7 : Struct7 A B C D E F G → Packer → Option Packer
  push7 x p = do
    p ← a.push x.member1 p
    p ← b.push x.member2 p
    p ← c.push x.member3 p
    p ← d.push x.member4 p
    p ← e.push x.member5 p
    p ← f.push x.member6 p
    g.push x.member7 p

  unfoldable pub pop7 : Struct7 A B C D E F G → Unpacker → Option (Struct7 A B C D E F G × Unpacker)
  pop7 x u = do
    (v1, u) ← a.pop x.member1 u
    (v2, u) ← b.pop x.member2 u
    (v3, u) ← c.pop x.member3 u
    (v4, u) ← d.pop x.member4 u
    (v5, u) ← e.pop x.member5 u
    (v6, u) ← f.pop x.member6 u
    (v7, u) ← g.pop x.member7 u
    some (
      record {
        member1 = v1;
        member2 = v2;
        member3 = v3;
        member4 = v4;
        member5 = v5;
        member6 = v6;
        member7 = v7;
      },
      u,
    )

  unfoldable pub encode7 : Struct7 A B C D E F G → List ℕ
  encode7 x =
      a.encode x.member1
      ++ (b.encode x.member2
          ++ (c.encode x.member3
              ++ (d.encode x.member4
                  ++ (e.encode x.member5 ++ (f.encode x.member6 ++ (g.encode x.member7))))))

  pub record IsValid7 (x : Struct7 A B C D E F G) : Type 0 where
    pub valid1 : a.IsValid x.member1
    pub valid2 : b.IsValid x.member2
    pub valid3 : c.IsValid x.member3
    pub valid4 : d.IsValid x.member4
    pub valid5 : e.IsValid x.member5
    pub valid6 : f.IsValid x.member6
    pub valid7 : g.IsValid x.member7

  pub push7-Appends : (x : Struct7 A B C D E F G) → IsValid7 x → Appends (push7 x) (encode7 x)
  unfolding push7 encode7
  push7-Appends x ok = Appends-seq (a.push-Appends x.member1 ok.valid1) (
      Appends-seq (b.push-Appends x.member2 ok.valid2) (
        Appends-seq (c.push-Appends x.member3 ok.valid3) (
          Appends-seq (d.push-Appends x.member4 ok.valid4) (
            Appends-seq (e.push-Appends x.member5 ok.valid5) (
              Appends-seq (f.push-Appends x.member6 ok.valid6)
                (g.push-Appends x.member7 ok.valid7))))))

  pub pop7-Reads : (x : Struct7 A B C D E F G) → IsValid7 x → Reads (pop7 blank7) (encode7 x) x
  unfolding pop7 encode7 blank7
  pop7-Reads x ok = Reads-bind _ (a.pop-Reads x.member1 ok.valid1) (
      Reads-bind _ (b.pop-Reads x.member2 ok.valid2) (
        Reads-bind _ (c.pop-Reads x.member3 ok.valid3) (
          Reads-bind _ (d.pop-Reads x.member4 ok.valid4) (
            Reads-bind _ (e.pop-Reads x.member5 ok.valid5) (
              Reads-bind _ (f.pop-Reads x.member6 ok.valid6)
                (Reads-map (λ v. record x { member7 = v }) (g.pop-Reads x.member7 ok.valid7)))))))

  abbrev pub packable7 : Codec (Struct7 A B C D E F G)
  packable7 = record {
    blank = blank7;
    push = push7;
    pop = pop7;
    encode = encode7;
    IsValid = IsValid7;
    push-Appends = push7-Appends;
    pop-Reads = pop7-Reads;
  }
