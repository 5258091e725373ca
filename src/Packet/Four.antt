-- ===== src/Packet/Four.antt =====
-- turnserver/base/packet_helper.h: a struct declared by NEW_DECLARE_PACKET_4.
use turnserver_v.Base.{ℕ, List, ◌++◌, Option, some, ◌>>=◌}
use turnserver_v.Wire.Packer.{Packer}
use turnserver_v.Wire.Packer.Written.{Appends}
use turnserver_v.Wire.Packer.Pushes.{Appends-seq}
use turnserver_v.Wire.Unpacker.{Unpacker}
use turnserver_v.Wire.Unpacker.Reads.{Reads, Reads-bind, Reads-map}
use turnserver_v.Wire.Codec.{Codec}
use turnserver_v.Packet.Head.{Head, head_codec, marshall, unmarshall}

pub record Packet4 (A B C D : Type 0) : Type 0 where
  pub head : Head
  pub member1 : A
  pub member2 : B
  pub member3 : C
  pub member4 : D

module _ {A B C D : Type 0} (a : Codec A) (b : Codec B) (c : Codec C) (d : Codec D) where
  -- explicit Name(server_type)
  unfoldable pub make4 : ℕ → ℕ → Packet4 A B C D
  make4 uri server_type = record {
    head = record { server_type = server_type; uri = uri };
    member1 = a.blank;
    member2 = b.blank;
    member3 = c.blank;
    member4 = d.blank;
  }

  unfoldable pub marshall4 : Packet4 A B C D → Packer → Option Packer
  marshall4 x p = do
    p ← marshall x.head p
    p ← a.push x.member1 p
    p ← b.push x.member2 p
    p ← c.push x.member3 p
    d.push x.member4 p

  unfoldable pub unmarshall4 : Packet4 A B C D → Unpacker → Option (Packet4 A B C D × Unpacker)
  unmarshall4 x u = do
    (h, u) ← unmarshall u
    (v1, u) ← a.pop x.member1 u
    (v2, u) ← b.pop x.member2 u
    (v3, u) ← c.pop x.member3 u
    (v4, u) ← d.pop x.member4 u
    some (record { head = h; member1 = v1; member2 = v2; member3 = v3; member4 = v4 }, u)

  unfoldable pub encode4 : Packet4 A B C D → List ℕ
  encode4 x =
      head_codec.encode x.head
      ++ (a.encode x.member1
          ++ (b.encode x.member2 ++ (c.encode x.member3 ++ (d.encode x.member4))))

  pub record IsValid4 (x : Packet4 A B C D) : Type 0 where
    pub head_valid : head_codec.IsValid x.head
    pub valid1 : a.IsValid x.member1
    pub valid2 : b.IsValid x.member2
    pub valid3 : c.IsValid x.member3
    pub valid4 : d.IsValid x.member4

  pub marshall4-Appends : (x : Packet4 A B C D) → IsValid4 x → Appends (marshall4 x) (encode4 x)
  unfolding marshall4 encode4
  marshall4-Appends x h = Appends-seq (head_codec.push-Appends x.head h.head_valid) (
      Appends-seq (a.push-Appends x.member1 h.valid1) (
        Appends-seq (b.push-Appends x.member2 h.valid2)
          (Appends-seq (c.push-Appends x.member3 h.valid3) (d.push-Appends x.member4 h.valid4))))

  pub unmarshall4-Reads :
      (uri : ℕ) (x : Packet4 A B C D) → IsValid4 x → Reads (unmarshall4 (make4 uri 0)) (encode4 x) x
  unfolding unmarshall4 encode4 make4
  unmarshall4-Reads uri x h = Reads-bind _ (head_codec.pop-Reads x.head h.head_valid) (
      Reads-bind _ (a.pop-Reads x.member1 h.valid1) (
        Reads-bind _ (b.pop-Reads x.member2 h.valid2) (
          Reads-bind _ (c.pop-Reads x.member3 h.valid3)
            (Reads-map (λ v. record x { member4 = v }) (d.pop-Reads x.member4 h.valid4)))))

  abbrev pub packet4 : ℕ → Codec (Packet4 A B C D)
  packet4 uri = record {
    blank = make4 uri 0;
    push = marshall4;
    pop = unmarshall4;
    encode = encode4;
    IsValid = IsValid4;
    push-Appends = marshall4-Appends;
    pop-Reads = unmarshall4-Reads uri;
  }
