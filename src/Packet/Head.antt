-- ===== src/Packet/Head.antt =====
-- turnserver/base/packet.h: class Packet, the two numbers that open the body of every packet.
use turnserver_v.Base.{
  ℕ, List, ◌++◌, Option, some, ◌>>=◌, ◌^◌, ◌<◌, ◌≡◌, refl, Option-cases, inl, inr,
}
use turnserver_v.Wire.Packer.{Packer}
use turnserver_v.Wire.Packer.Written.{Appends}
use turnserver_v.Wire.Packer.Pushes.{Appends-seq}
use turnserver_v.Wire.Unpacker.{Unpacker, pop_uint16}
use turnserver_v.Wire.Unpacker.Reads.{Reads, Reads-bind, Reads-map}
use turnserver_v.Wire.Codec.{Codec, uint16}

pub record Head : Type 0 where
  pub server_type : ℕ
  pub uri : ℕ

unfoldable pub set_uri : ℕ → Head → Head
set_uri u h = record h { uri = u }

unfoldable pub marshall : Head → Packer → Option Packer
marshall h p = do p ← uint16.push h.server_type p; uint16.push h.uri p

unfoldable pub unmarshall : Unpacker → Option (Head × Unpacker)
unmarshall u = do
  (s, u) ← uint16.pop 0 u
  (r, u) ← uint16.pop 0 u
  some (record { server_type = s; uri = r }, u)

pub record IsValid (h : Head) : Type 0 where
  pub server_type_fits : h.server_type < 2 ^ 16
  pub uri_fits : h.uri < 2 ^ 16

abbrev pub encode : Head → List ℕ
encode h = uint16.encode h.server_type ++ uint16.encode h.uri

pub marshall-Appends : (h : Head) → IsValid h → Appends (marshall h) (encode h)
unfolding marshall
marshall-Appends h v =
    Appends-seq (uint16.push-Appends h.server_type v.server_type_fits)
      (uint16.push-Appends h.uri v.uri_fits)

pub unmarshall-Reads : (h : Head) → IsValid h → Reads unmarshall (encode h) h
unfolding unmarshall
unmarshall-Reads h v =
    Reads-bind _ (uint16.pop-Reads h.server_type v.server_type_fits)
      (Reads-map (λ r. record h { uri = r }) (uint16.pop-Reads h.uri v.uri_fits))

abbrev pub head_codec : Codec Head
head_codec = record {
  blank = record { server_type = 0; uri = 0 };
  push = marshall;
  pop = λ _. unmarshall;
  encode = encode;
  IsValid = IsValid;
  push-Appends = marshall-Appends;
  pop-Reads = unmarshall-Reads;
}

-- Two numbers popped one by one are the head that they make.
pub pop-unmarshall :
    {A : Type 0} (u : Unpacker) (k : ℕ → Unpacker → Option A)
    → (pop_uint16 u >>= λ t. pop_uint16 t.1 >>= λ r. k r.0 r.1)
      ≡ (unmarshall u >>= λ h. k h.0.uri h.1)
unfolding unmarshall
pop-unmarshall u k = elim (Option-cases (pop_uint16 u)) [
  | inl stops ↦ rw stops refl
  | inr (t, popped) ↦ rw popped (elim (Option-cases (pop_uint16 t.1)) [
    | inl stops ↦ rw stops refl
    | inr (r, popped2) ↦ rw popped2 refl
  ])
]
