-- ===== src/Packet/Eleven.antt =====
-- turnserver/base/packet_helper.h: a struct declared by NEW_DECLARE_PACKET_11.
use turnserver_v.Base.{ℕ, List, ◌++◌, Option, some, ◌>>=◌}
use turnserver_v.Wire.Packer.{Packer}
use turnserver_v.Wire.Packer.Written.{Appends}
use turnserver_v.Wire.Packer.Pushes.{Appends-seq}
use turnserver_v.Wire.Unpacker.{Unpacker}
use turnserver_v.Wire.Unpacker.Reads.{Reads, Reads-bind, Reads-map}
use turnserver_v.Wire.Codec.{Codec}
use turnserver_v.Packet.Head.{Head, head_codec, marshall, unmarshall}

pub record Packet11 (A B C D E F G I J K L : Type 0) : Type 0 where
  pub head : Head
  pub member1 : A
  pub member2 : B
  pub member3 : C
  pub member4 : D
  pub member5 : E
  pub member6 : F
  pub member7 : G
  pub member8 : I
  pub member9 : J
  pub member10 : K
  pub member11 : L

module _ {A B C D E F G I J K L : Type 0} (a : Codec A) (b : Codec B) (c : Codec C) (d : Codec D)
    (e : Codec E) (f : Codec F) (g : Codec G) (k : Codec I) (l : Codec J) (m : Codec K)
    (n : Codec L) where
  -- explicit Name(server_type)
  unfoldable pub make11 : ℕ → ℕ → Packet11 A B C D E F G I J K L
  make11 uri server_type = record {
    head = record { server_type = server_type; uri = uri };
    member1 = a.blank;
    member2 = b.blank;
    member3 = c.blank;
    member4 = d.blank;
    member5 = e.blank;
    member6 = f.blank;
    member7 = g.blank;
    member8 = k.blank;
    member9 = l.blank;
    member10 = m.blank;
    member11 = n.blank;
  }

  unfoldable pub marshall11 : Packet11 A B C D E F G I J K L → Packer → Option Packer
  marshall11 x p = do
    p ← marshall x.head p
    p ← a.push x.member1 p
    p ← b.push x.member2 p
    p ← c.push x.member3 p
    p ← d.push x.member4 p
    p ← e.push x.member5 p
    p ← f.push x.member6 p
    p ← g.push x.member7 p
    p ← k.push x.member8 p
    p ← l.push x.member9 p
    p ← m.push x.member10 p
    n.push x.member11 p

  unfoldable pub unmarshall11 :
      Packet11 A B C D E F G I J K L → Unpacker → Option (Packet11 A B C D E F G I J K L × Unpacker)
  unmarshall11 x u = do
    (h, u) ← unmarshall u
    (v1, u) ← a.pop x.member1 u
    (v2, u) ← b.pop x.member2 u
    (v3, u) ← c.pop x.member3 u
    (v4, u) ← d.pop x.member4 u
    (v5, u) ← e.pop x.member5 u
    (v6, u) ← f.pop x.member6 u
    (v7, u) ← g.pop x.member7 u
    (v8, u) ← k.pop x.member8 u
    (v9, u) ← l.pop x.member9 u
    (v10, u) ← m.pop x.member10 u
    (v11, u) ← n.pop x.member11 u
    some (
      record {
        head = h;
        member1 = v1;
        member2 = v2;
        member3 = v3;
        member4 = v4;
        member5 = v5;
        member6 = v6;
        member7 = v7;
        member8 = v8;
        member9 = v9;
        member10 = v10;
        member11 = v11;
      },
      u,
    )

  unfoldable pub encode11 : Packet11 A B C D E F G I J K L → List ℕ
  encode11 x =
      head_codec.encode x.head
      ++ (a.encode x.member1
          ++ (b.encode x.member2
              ++ (c.encode x.member3
                  ++ (d.encode x.member4
                      ++ (e.encode x.member5
                          ++ (f.encode x.member6
                              ++ (g.encode x.member7
                                  ++ (k.encode x.member8
                                      ++ (l.encode x.member9
                                          ++ (m.encode x.member10 ++ (n.encode x.member11)))))))))))

  pub record IsValid11 (x : Packet11 A B C D E F G I J K L) : Type 0 where
    pub head_valid : head_codec.IsValid x.head
    pub valid1 : a.IsValid x.member1
    pub valid2 : b.IsValid x.member2
    pub valid3 : c.IsValid x.member3
    pub valid4 : d.IsValid x.member4
    pub valid5 : e.IsValid x.member5
    pub valid6 : f.IsValid x.member6
    pub valid7 : g.IsValid x.member7
    pub valid8 : k.IsValid x.member8
    pub valid9 : l.IsValid x.member9
    pub valid10 : m.IsValid x.member10
    pub valid11 : n.IsValid x.member11

  pub marshall11-Appends :
      (x : Packet11 A B C D E F G I J K L) → IsValid11 x → Appends (marshall11 x) (encode11 x)
  unfolding marshall11 encode11
  marshall11-Appends x h = Appends-seq (head_codec.push-Appends x.head h.head_valid) (
      Appends-seq (a.push-Appends x.member1 h.valid1) (
        Appends-seq (b.push-Appends x.member2 h.valid2) (
          Appends-seq (c.push-Appends x.member3 h.valid3) (
            Appends-seq (d.push-Appends x.member4 h.valid4) (
              Appends-seq (e.push-Appends x.member5 h.valid5) (
                Appends-seq (f.push-Appends x.member6 h.valid6) (
                  Appends-seq (g.push-Appends x.member7 h.valid7) (
                    Appends-seq (k.push-Appends x.member8 h.valid8) (
                      Appends-seq (l.push-Appends x.member9 h.valid9) (
                        Appends-seq (m.push-Appends x.member10 h.valid10)
                          (n.push-Appends x.member11 h.valid11)))))))))))

  pub unmarshall11-Reads :
      (uri : ℕ) (x : Packet11 A B C D E F G I J K L)
      → IsValid11 x
      → Reads (unmarshall11 (make11 uri 0)) (encode11 x) x
  unfolding unmarshall11 encode11 make11
  unmarshall11-Reads uri x h = Reads-bind _ (head_codec.pop-Reads x.head h.head_valid) (
      Reads-bind _ (a.pop-Reads x.member1 h.valid1) (
        Reads-bind _ (b.pop-Reads x.member2 h.valid2) (
          Reads-bind _ (c.pop-Reads x.member3 h.valid3) (
            Reads-bind _ (d.pop-Reads x.member4 h.valid4) (
              Reads-bind _ (e.pop-Reads x.member5 h.valid5) (
                Reads-bind _ (f.pop-Reads x.member6 h.valid6) (
                  Reads-bind _ (g.pop-Reads x.member7 h.valid7) (
                    Reads-bind _ (k.pop-Reads x.member8 h.valid8) (
                      Reads-bind _ (l.pop-Reads x.member9 h.valid9) (
                        Reads-bind _ (m.pop-Reads x.member10 h.valid10) (
                          Reads-map (λ v. record x { member11 = v })
                            (n.pop-Reads x.member11 h.valid11))))))))))))

  abbrev packet11 : ℕ → Codec (Packet11 A B C D E F G I J K L)
  packet11 uri = record {
    blank = make11 uri 0;
    push = marshall11;
    pop = unmarshall11;
    encode = encode11;
    IsValid = IsValid11;
    push-Appends = marshall11-Appends;
    pop-Reads = unmarshall11-Reads uri;
  }
