-- ===== src/Packet/Five.antt =====
-- turnserver/base/packet_helper.h: a struct declared by NEW_DECLARE_PACKET_5.
use turnserver_v.Base.{ℕ, List, ◌++◌, Option, some, ◌>>=◌}
use turnserver_v.Wire.Packer.{Packer}
use turnserver_v.Wire.Packer.Written.{Appends}
use turnserver_v.Wire.Packer.Pushes.{Appends-seq}
use turnserver_v.Wire.Unpacker.{Unpacker}
use turnserver_v.Wire.Unpacker.Reads.{Reads, Reads-bind, Reads-map}
use turnserver_v.Wire.Codec.{Codec}
use turnserver_v.Packet.Head.{Head, head_codec, marshall, unmarshall}

pub record Packet5 (A B C D E : Type 0) : Type 0 where
  pub head : Head
  pub member1 : A
  pub member2 : B
  pub member3 : C
  pub member4 : D
  pub member5 : E

module _ {A B C D E : Type 0} (a : Codec A) (b : Codec B) (c : Codec C) (d : Codec D)
    (e : Codec E) where
  -- explicit Name(server_type)
  unfoldable pub make5 : ℕ → ℕ → Packet5 A B C D E
  make5 uri server_type = record {
    head = record { server_type = server_type; uri = uri };
    member1 = a.blank;
    member2 = b.blank;
    member3 = c.blank;
    member4 = d.blank;
    member5 = e.blank;
  }

  unfoldable pub marshall5 : Packet5 A B C D E → Packer → Option Packer
  marshall5 x p = do
    p ← marshall x.head p
    p ← a.push x.member1 p
    p ← b.push x.member2 p
    p ← c.push x.member3 p
    p ← d.push x.member4 p
    e.push x.member5 p

  unfoldable pub unmarshall5 : Packet5 A B C D E → Unpacker → Option (Packet5 A B C D E × Unpacker)
  unmarshall5 x u = do
    (h, u) ← unmarshall u
    (v1, u) ← a.pop x.member1 u
    (v2, u) ← b.pop x.member2 u
    (v3, u) ← c.pop x.member3 u
    (v4, u) ← d.pop x.member4 u
    (v5, u) ← e.pop x.member5 u
    some (
      record { head = h; member1 = v1; member2 = v2; member3 = v3; member4 = v4; member5 = v5 },
      u,
    )

  unfoldable pub encode5 : Packet5 A B C D E → List ℕ
  encode5 x =
      head_codec.encode x.head
      ++ (a.encode x.member1
          ++ (b.encode x.member2
              ++ (c.encode x.member3 ++ (d.encode x.member4 ++ (e.encode x.member5)))))

  pub record IsValid5 (x : Packet5 A B C D E) : Type 0 where
    pub head_valid : head_codec.IsValid x.head
    pub valid1 : a.IsValid x.member1
    pub valid2 : b.IsValid x.member2
    pub valid3 : c.IsValid x.member3
    pub valid4 : d.IsValid x.member4
    pub valid5 : e.IsValid x.member5

  pub marshall5-Appends : (x : Packet5 A B C D E) → IsValid5 x → Appends (marshall5 x) (encode5 x)
  unfolding marshall5 encode5
  marshall5-Appends x h = Appends-seq (head_codec.push-Appends x.head h.head_valid) (
      Appends-seq (a.push-Appends x.member1 h.valid1) (
        Appends-seq (b.push-Appends x.member2 h.valid2) (
          Appends-seq (c.push-Appends x.member3 h.valid3)
            (Appends-seq (d.push-Appends x.member4 h.valid4) (e.push-Appends x.member5 h.valid5)))))

  pub unmarshall5-Reads :
      (uri : ℕ) (x : Packet5 A B C D E)
      → IsValid5 x
      → Reads (unmarshall5 (make5 uri 0)) (encode5 x) x
  unfolding unmarshall5 encode5 make5
  unmarshall5-Reads uri x h = Reads-bind _ (head_codec.pop-Reads x.head h.head_valid) (
      Reads-bind _ (a.pop-Reads x.member1 h.valid1) (
        Reads-bind _ (b.pop-Reads x.member2 h.valid2) (
          Reads-bind _ (c.pop-Reads x.member3 h.valid3) (
            Reads-bind _ (d.pop-Reads x.member4 h.valid4)
              (Reads-map (λ v. record x { member5 = v }) (e.pop-Reads x.member5 h.valid5))))))

  abbrev pub packet5 : ℕ → Codec (Packet5 A B C D E)
  packet5 uri = record {
    blank = make5 uri 0;
    push = marshall5;
    pop = unmarshall5;
    encode = encode5;
    IsValid = IsValid5;
    push-Appends = marshall5-Appends;
    pop-Reads = unmarshall5-Reads uri;
  }
