-- ===== src/Packet/Six.antt =====
-- turnserver/base/packet_helper.h: a struct declared by NEW_DECLARE_PACKET_6.
use turnserver_v.Base.{ℕ, List, ◌++◌, Option, some, ◌>>=◌}
use turnserver_v.Wire.Packer.{Packer}
use turnserver_v.Wire.Packer.Written.{Appends}
use turnserver_v.Wire.Packer.Pushes.{Appends-seq}
use turnserver_v.Wire.Unpacker.{Unpacker}
use turnserver_v.Wire.Unpacker.Reads.{Reads, Reads-bind, Reads-map}
use turnserver_v.Wire.Codec.{Codec}
use turnserver_v.Packet.Head.{Head, head_codec, marshall, unmarshall}

pub record Packet6 (A B C D E F : Type 0) : Type 0 where
  pub head : Head
  pub member1 : A
  pub member2 : B
  pub member3 : C
  pub member4 : D
  pub member5 : E
  pub member6 : F

module _ {A B C D E F : Type 0} (a : Codec A) (b : Codec B) (c : Codec C) (d : Codec D)
    (e : Codec E) (f : Codec F) where
  -- explicit Name(server_type)
  unfoldable pub make6 : ℕ → ℕ → Packet6 A B C D E F
  make6 uri server_type = record {
    head = record { server_type = server_type; uri = uri };
    member1 = a.blank;
    member2 = b.blank;
    member3 = c.blank;
    member4 = d.blank;
    member5 = e.blank;
    member6 = f.blank;
  }

  unfoldable pub marshall6 : Packet6 A B C D E F → Packer → Option Packer
  marshall6 x p = do
    p ← marshall x.head p
    p ← a.push x.member1 p
    p ← b.push x.member2 p
    p ← c.push x.member3 p
    p ← d.push x.member4 p
    p ← e.push x.member5 p
    f.push x.member6 p

  unfoldable pub unmarshall6 :
      Packet6 A B C D E F → Unpacker → Option (Packet6 A B C D E F × Unpacker)
  unmarshall6 x u = do
    (h, u) ← unmarshall u
    (v1, u) ← a.pop x.member1 u
    (v2, u) ← b.pop x.member2 u
    (v3, u) ← c.pop x.member3 u
    (v4, u) ← d.pop x.member4 u
    (v5, u) ← e.pop x.member5 u
    (v6, u) ← f.pop x.member6 u
    some (
      record {
        head = h;
        member1 = v1;
        member2 = v2;
        member3 = v3;
        member4 = v4;
        member5 = v5;
        member6 = v6;
      },
      u,
    )

  unfoldable pub encode6 : Packet6 A B C D E F → List ℕ
  encode6 x =
      head_codec.encode x.head
      ++ (a.encode x.member1
          ++ (b.encode x.member2
              ++ (c.encode x.member3
                  ++ (d.encode x.member4 ++ (e.encode x.member5 ++ (f.encode x.member6))))))

  pub record IsValid6 (x : Packet6 A B C D E F) : Type 0 where
    pub head_valid : head_codec.IsValid x.head
    pub valid1 : a.IsValid x.member1
    pub valid2 : b.IsValid x.member2
    pub valid3 : c.IsValid x.member3
    pub valid4 : d.IsValid x.member4
    pub valid5 : e.IsValid x.member5
    pub valid6 : f.IsValid x.member6

  pub marshall6-Appends : (x : Packet6 A B C D E F) → IsValid6 x → Appends (marshall6 x) (encode6 x)
  unfolding marshall6 encode6
  marshall6-Appends x h = Appends-seq (head_codec.push-Appends x.head h.head_valid) (
      Appends-seq (a.push-Appends x.member1 h.valid1) (
        Appends-seq (b.push-Appends x.member2 h.valid2) (
          Appends-seq (c.push-Appends x.member3 h.valid3) (
            Appends-seq (d.push-Appends x.member4 h.valid4) (
              Appends-seq (e.push-Appends x.member5 h.valid5)
                (f.push-Appends x.member6 h.valid6))))))

  pub unmarshall6-Reads :
      (uri : ℕ) (x : Packet6 A B C D E F)
      → IsValid6 x
      → Reads (unmarshall6 (make6 uri 0)) (encode6 x) x
  unfolding unmarshall6 encode6 make6
  unmarshall6-Reads uri x h = Reads-bind _ (head_codec.pop-Reads x.head h.head_valid) (
      Reads-bind _ (a.pop-Reads x.member1 h.valid1) (
        Reads-bind _ (b.pop-Reads x.member2 h.valid2) (
          Reads-bind _ (c.pop-Reads x.member3 h.valid3) (
            Reads-bind _ (d.pop-Reads x.member4 h.valid4) (
              Reads-bind _ (e.pop-Reads x.member5 h.valid5)
                (Reads-map (λ v. record x { member6 = v }) (f.pop-Reads x.member6 h.valid6)))))))

  abbrev pub packet6 : ℕ → Codec (Packet6 A B C D E F)
  packet6 uri = record {
    blank = make6 uri 0;
    push = marshall6;
    pop = unmarshall6;
    encode = encode6;
    IsValid = IsValid6;
    push-Appends = marshall6-Appends;
    pop-Reads = unmarshall6-Reads uri;
  }
