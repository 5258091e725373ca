-- ===== src/Net/Connection/Framing.antt =====
-- tcp_connection.cpp: the length and the head that OnDataReady reads are those of the packet that
-- `Packer::Pack` made.
use turnserver_v.Base.{
  ℕ, ◌^◌, ◌≤◌, ◌<◌, ◌≡◌, refl, ap, ◌∙◌, false, List, [], ◌∷◌, ◌++◌, some, ltb, length, take, le→leb,
  lt→leb, le_bytes, from_le, from_le-le_bytes, arith, Bool-cases, inl, inr, ltb→lt, ltb→le,
}
use turnserver_v.Wire.Packer.{variable_lower, variable_upper}
use turnserver_v.Wire.Packer.Written.{Fits}
use turnserver_v.Wire.Packer.Pushes.{variable_bytes}
use turnserver_v.Wire.Packer.Frame.{frame, frame_length}
use turnserver_v.Wire.Transfer.{
  at_frame, at_body, init-at_body, at_body-At, pop_length-at_frame, frame-small,
}
use turnserver_v.Wire.Unpacker.{Unpacker, pop_uint16, pop_variable_uint32, rewind, move}
use turnserver_v.Wire.Unpacker.Reads.{At, At-front, At-move, pop_uint-Reads}
use turnserver_v.Net.Connection.{decode_length, parse_head}

-- The body of a packet: the two numbers of the head, and the rest.
pub record Message : Type 0 where
  pub server_type : ℕ
  pub uri : ℕ
  pub payload : List ℕ

abbrev pub body : Message → List ℕ
body m = le_bytes 2 m.server_type ++ (le_bytes 2 m.uri ++ m.payload)

pub record IsGood (m : Message) : Type 0 where
  pub server_type_fits : m.server_type < 2 ^ 16
  pub uri_fits : m.uri < 2 ^ 16
  pub fits : Fits (body m)

-- What OnDataReady reads as the length in front of `bytes`.
abbrev pub stated_length : List ℕ → ℕ
stated_length bytes = decode_length (take 2 bytes) (take 4 bytes)

decode_short : (v : ℕ) (more : List ℕ) → v < 0x8000 → stated_length (le_bytes 2 v ++ more) ≡ v
unfolding decode_length
decode_short v more h =
    rw (lt→leb 0x8000 (from_le (le_bytes 2 v)) (omega (arith, from_le-le_bytes 2 v (omega arith))))
      (from_le-le_bytes 2 v (omega arith))

decode_long :
    (v x : ℕ) (more : List ℕ)
    → 0x8000 ≤ v
    → v < 2 ^ 23
    → stated_length (le_bytes 2 (variable_lower v) ++ (le_bytes 1 (variable_upper v) ++ (x ∷ more)))
      ≡ v
unfolding decode_length
decode_long v x more h k =
    rw (le→leb 0x8000 (from_le (le_bytes 2 (variable_lower v))) (omega arith)) (omega arith)

-- The length stated by a packet whose body is not empty is its length.
pub stated_length-frame :
    (bs more : List ℕ)
    → Fits bs
    → 1 ≤ length bs
    → stated_length (frame bs ++ more) ≡ frame_length bs
unfolding frame variable_bytes
stated_length-frame [] more fits h = absurd (omega arith)
stated_length-frame (x ∷ bs) more fits h = elim (Bool-cases (ltb (frame_length (x ∷ bs)) 0x8000)) [
  | inl short ↦
      rw short (decode_short (frame_length (x ∷ bs)) ((x ∷ bs) ++ more) (ltb→lt _ _ short))
  | inr long ↦ rw long (
      decode_long (frame_length (x ∷ bs)) x (bs ++ more) (ltb→le _ _ long)
        (frame-small (x ∷ bs) fits))
]

-- The Unpacker that a callback gets: its cursor stands at the head of the packet.
abbrev pub opened : Message → Unpacker
opened m = at_body (body m)

rewound :
    (bs : List ℕ) (j k : ℕ) → record (move k (move j (at_body bs))) { position_ = 0 } ≡ at_frame bs
unfolding move
rewound bs j k = refl

pub parse_head-frame :
    (m : Message) → IsGood m → parse_head (frame (body m)) ≡ some (opened m, m.server_type, m.uri)
unfolding parse_head pop_uint16 rewind
parse_head-frame m g = rw (
  init-at_body false (body m) g.fits,
  (pop_uint-Reads 2 m.server_type g.server_type_fits).run (opened m)
      (At-front type_bytes behind whole),
  (pop_uint-Reads 2 m.uri g.uri_fits).run (move 2 (opened m))
      (At-front (le_bytes 2 m.uri) m.payload (At-move type_bytes behind whole)),
  again,
)
  where
    type_bytes : List ℕ
    type_bytes = le_bytes 2 m.server_type

    behind : List ℕ
    behind = le_bytes 2 m.uri ++ m.payload

    whole : At (opened m) (type_bytes ++ behind)
    whole = at_body-At (body m) g.fits

    again :
        pop_variable_uint32 (record (move 2 (move 2 (opened m))) { position_ = 0 })
        ≡ some (frame_length (body m), opened m)
    again = ap pop_variable_uint32 (rewound (body m) 2 2) ∙ pop_length-at_frame (body m) g.fits
