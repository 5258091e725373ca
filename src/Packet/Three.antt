-- ===== src/Packet/Three.antt =====
-- turnserver/base/packet_helper.h: a struct declared by NEW_DECLARE_PACKET_3.
use turnserver_v.Base.{ℕ, List, ◌++◌, Option, some, ◌>>=◌}
use turnserver_v.Wire.Packer.{Packer}
use turnserver_v.Wire.Packer.Written.{Appends}
use turnserver_v.Wire.Packer.Pushes.{Appends-seq}
use turnserver_v.Wire.Unpacker.{Unpacker}
use turnserver_v.Wire.Unpacker.Reads.{Reads, Reads-bind, Reads-map}
use turnserver_v.Wire.Codec.{Codec}
use turnserver_v.Packet.Head.{Head, head_codec, marshall, unmarshall}

pub record Packet3 (A B C : Type 0) : Type 0 where
  pub head : Head
  pub member1 : A
  pub member2 : B
  pub member3 : C

module _ {A B C : Type 0} (a : Codec A) (b : Codec B) (c : Codec C) where
  -- explicit Name(server_type)
  unfoldable pub make3 : ℕ → ℕ → Packet3 A B C
  make3 uri server_type = record {
    head = record { server_type = server_type; uri = uri };
    member1 = a.blank;
    member2 = b.blank;
    member3 = c.blank;
  }

  unfoldable pub marshall3 : Packet3 A B C → Packer → Option Packer
  marshall3 x p = do
    p ← marshall x.head p
    p ← a.push x.member1 p
    p ← b.push x.member2 p
    c.push x.member3 p

  unfoldable pub unmarshall3 : Packet3 A B C → Unpacker → Option (Packet3 A B C × Unpacker)
  unmarshall3 x u = do
    (h, u) ← unmarshall u
    (v1, u) ← a.pop x.member1 u
    (v2, u) ← b.pop x.member2 u
    (v3, u) ← c.pop x.member3 u
    some (record { head = h; member1 = v1; member2 = v2; member3 = v3 }, u)

  unfoldable pub encode3 : Packet3 A B C → List ℕ
  encode3 x =
      head_codec.encode x.head
      ++ (a.encode x.member1 ++ (b.encode x.member2 ++ (c.encode x.member3)))

  pub record IsValid3 (x : Packet3 A B C) : Type 0 where
    pub head_valid : head_codec.IsValid x.head
    pub valid1 : a.IsValid x.member1
    pub valid2 : b.IsValid x.member2
    pub valid3 : c.IsValid x.member3

  pub marshall3-Appends : (x : Packet3 A B C) → IsValid3 x → Appends (marshall3 x) (encode3 x)
  unfolding marshall3 encode3
  marshall3-Appends x h = Appends-seq (head_codec.push-Appends x.head h.head_valid) (
      Appends-seq (a.push-Appends x.member1 h.valid1)
        (Appends-seq (b.push-Appends x.member2 h.valid2) (c.push-Appends x.member3 h.valid3)))

  pub unmarshall3-Reads :
      (uri : ℕ) (x : Packet3 A B C) → IsValid3 x → Reads (unmarshall3 (make3 uri 0)) (encode3 x) x
  unfolding unmarshall3 encode3 make3
  unmarshall3-Reads uri x h = Reads-bind _ (head_codec.pop-Reads x.head h.head_valid) (
      Reads-bind _ (a.pop-Reads x.member1 h.valid1) (
        Reads-bind _ (b.pop-Reads x.member2 h.valid2)
          (Reads-map (λ v. record x { member3 = v }) (c.pop-Reads x.member3 h.valid3))))

  abbrev pub packet3 : ℕ → Codec (Packet3 A B C)
  packet3 uri = record {
    blank = make3 uri 0;
    push = marshall3;
    pop = unmarshall3;
    encode = encode3;
    IsValid = IsValid3;
    push-Appends = marshall3-Appends;
    pop-Reads = unmarshall3-Reads uri;
  }
