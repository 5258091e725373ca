-- ===== src/Packet/One.antt =====
-- turnserver/base/packet_helper.h: a struct declared by NEW_DECLARE_PACKET_1.
use turnserver_v.Base.{ℕ, List, ◌++◌, Option, some, ◌>>=◌}
use turnserver_v.Wire.Packer.{Packer}
use turnserver_v.Wire.Packer.Written.{Appends}
use turnserver_v.Wire.Packer.Pushes.{Appends-seq}
use turnserver_v.Wire.Unpacker.{Unpacker}
use turnserver_v.Wire.Unpacker.Reads.{Reads, Reads-bind, Reads-map}
use turnserver_v.Wire.Codec.{Codec}
use turnserver_v.Packet.Head.{Head, head_codec, marshall, unmarshall}

pub record Packet1 (A : Type 0) : Type 0 where
  pub head : Head
  pub member1 : A

module _ {A : Type 0} (a : Codec A) where
  -- explicit Name(server_type)
  unfoldable pub make1 : ℕ → ℕ → Packet1 A
  make1 uri server_type = record {
    head = record { server_type = server_type; uri = uri };
    member1 = a.blank;
  }

  unfoldable pub marshall1 : Packet1 A → Packer → Option Packer
  marshall1 x p = do p ← marshall x.head p; a.push x.member1 p

  unfoldable pub unmarshall1 : Packet1 A → Unpacker → Option (Packet1 A × Unpacker)
  unmarshall1 x u = do
    (h, u) ← unmarshall u
    (v1, u) ← a.pop x.member1 u
    some (record { head = h; member1 = v1 }, u)

  unfoldable pub encode1 : Packet1 A → List ℕ
  encode1 x = head_codec.encode x.head ++ (a.encode x.member1)

  pub record IsValid1 (x : Packet1 A) : Type 0 where
    pub head_valid : head_codec.IsValid x.head
    pub valid1 : a.IsValid x.member1

  pub marshall1-Appends : (x : Packet1 A) → IsValid1 x → Appends (marshall1 x) (encode1 x)
  unfolding marshall1 encode1
  marshall1-Appends x h =
      Appends-seq (head_codec.push-Appends x.head h.head_valid) (a.push-Appends x.member1 h.valid1)

  pub unmarshall1-Reads :
      (uri : ℕ) (x : Packet1 A) → IsValid1 x → Reads (unmarshall1 (make1 uri 0)) (encode1 x) x
  unfolding unmarshall1 encode1 make1
  unmarshall1-Reads uri x h =
      Reads-bind _ (head_codec.pop-Reads x.head h.head_valid)
        (Reads-map (λ v. record x { member1 = v }) (a.pop-Reads x.member1 h.valid1))

  abbrev pub packet1 : ℕ → Codec (Packet1 A)
  packet1 uri = record {
    blank = make1 uri 0;
    push = marshall1;
    pop = unmarshall1;
    encode = encode1;
    IsValid = IsValid1;
    push-Appends = marshall1-Appends;
    pop-Reads = unmarshall1-Reads uri;
  }
