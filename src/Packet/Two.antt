-- ===== src/Packet/Two.antt =====
-- turnserver/base/packet_helper.h: a struct declared by NEW_DECLARE_PACKET_2.
use turnserver_v.Base.{ℕ, List, ◌++◌, Option, some, ◌>>=◌}
use turnserver_v.Wire.Packer.{Packer}
use turnserver_v.Wire.Packer.Written.{Appends}
use turnserver_v.Wire.Packer.Pushes.{Appends-seq}
use turnserver_v.Wire.Unpacker.{Unpacker}
use turnserver_v.Wire.Unpacker.Reads.{Reads, Reads-bind, Reads-map}
use turnserver_v.Wire.Codec.{Codec}
use turnserver_v.Packet.Head.{Head, head_codec, marshall, unmarshall}

pub record Packet2 (A B : Type 0) : Type 0 where
  pub head : Head
  pub member1 : A
  pub member2 : B

module _ {A B : Type 0} (a : Codec A) (b : Codec B) where
  -- explicit Name(server_type)
  unfoldable pub make2 : ℕ → ℕ → Packet2 A B
  make2 uri server_type = record {
    head = record { server_type = server_type; uri = uri };
    member1 = a.blank;
    member2 = b.blank;
  }

  unfoldable pub marshall2 : Packet2 A B → Packer → Option Packer
  marshall2 x p = do p ← marshall x.head p; p ← a.push x.member1 p; b.push x.member2 p

  unfoldable pub unmarshall2 : Packet2 A B → Unpacker → Option (Packet2 A B × Unpacker)
  unmarshall2 x u = do
    (h, u) ← unmarshall u
    (v1, u) ← a.pop x.member1 u
    (v2, u) ← b.pop x.member2 u
    some (record { head = h; member1 = v1; member2 = v2 }, u)

  unfoldable pub encode2 : Packet2 A B → List ℕ
  encode2 x = head_codec.encode x.head ++ (a.encode x.member1 ++ (b.encode x.member2))

  pub record IsValid2 (x : Packet2 A B) : Type 0 where
    pub head_valid : head_codec.IsValid x.head
    pub valid1 : a.IsValid x.member1
    pub valid2 : b.IsValid x.member2

  pub marshall2-Appends : (x : Packet2 A B) → IsValid2 x → Appends (marshall2 x) (encode2 x)
  unfolding marshall2 encode2
  marshall2-Appends x h =
      Appends-seq (head_codec.push-Appends x.head h.head_valid)
        (Appends-seq (a.push-Appends x.member1 h.valid1) (b.push-Appends x.member2 h.valid2))

  pub unmarshall2-Reads :
      (uri : ℕ) (x : Packet2 A B) → IsValid2 x → Reads (unmarshall2 (make2 uri 0)) (encode2 x) x
  unfolding unmarshall2 encode2 make2
  unmarshall2-Reads uri x h = Reads-bind _ (head_codec.pop-Reads x.head h.head_valid) (
      Reads-bind _ (a.pop-Reads x.member1 h.valid1)
        (Reads-map (λ v. record x { member2 = v }) (b.pop-Reads x.member2 h.valid2)))

  abbrev pub packet2 : ℕ → Codec (Packet2 A B)
  packet2 uri = record {
    blank = make2 uri 0;
    push = marshall2;
    pop = unmarshall2;
    encode = encode2;
    IsValid = IsValid2;
    push-Appends = marshall2-Appends;
    pop-Reads = unmarshall2-Reads uri;
  }
