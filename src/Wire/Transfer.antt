-- ===== src/Wire/Transfer.antt =====
-- A value across the wire: pushed into a fresh Packer and packed, as TcpConnection::SendPacket
-- does, and popped by a fresh Unpacker over the received bytes, as OnDataReady does.
use turnserver_v.Base.{
  ℕ, ◌+◌, ◌^◌, ◌<◌, ◌≡◌, refl, sym, ◌∙◌, ◌%◌, Bool, true, false, List, [], ◌++◌, map, append-nil,
  Option, some, ◌>>=◌, length, length-append, take_all, le→leb, arith,
}
use turnserver_v.Wire.Packer.{
  Cell, Packer, default_size, pack, packed_data, body, max_packet_size, push_variable_uint32,
}
use turnserver_v.Wire.Packer
use turnserver_v.Wire.Packer.Written.{Written, Fits}
use turnserver_v.Wire.Packer.Pushes.{variable_bytes, init-Written, push_variable_uint32-Appends}
use turnserver_v.Wire.Packer.Frame.{frame, frame_length, length-frame, pack-Packed}
use turnserver_v.Wire.Unpacker.{Unpacker, pop_variable_uint32, move}
use turnserver_v.Wire.Unpacker
use turnserver_v.Wire.Unpacker.Reads.{
  At, At-front, At-move, pop_variable_uint32-Reads, pop_variable_uint32-wraps,
}
use turnserver_v.Wire.Codec.{Codec}

pub frame-small : (bs : List ℕ) → Fits bs → frame_length bs < 2 ^ 23
unfolding frame_length
frame-small bs fits = ground arith

-- An Unpacker at the first byte of a packet.
abbrev pub at_frame : List ℕ → Unpacker
at_frame bs = record { mem = frame bs; length_ = length (frame bs); position_ = 0; warnings = 0 }

pub init-at_frame :
    (copy : Bool) (bs : List ℕ)
    → Unpacker.init (frame bs) (length (frame bs)) copy
      ≡ (pop_variable_uint32 (at_frame bs) >>= λ r. some r.1)
unfolding Unpacker.init
init-at_frame true bs = rw (
  le→leb (length (frame bs)) (length (frame bs)) (omega arith),
  take_all (length (frame bs)) (frame bs) (omega arith),
)
init-at_frame false bs = refl

pub at_frame-At :
    (bs : List ℕ) → Fits bs → At (at_frame bs) (variable_bytes (frame_length bs) ++ bs)
at_frame-At bs fits = record {
  front = [];
  rest = [];
  mem_shape = sym (append-nil _) ∙ (unfold frame in refl);
  cursor = refl;
  inside = unfold frame in omega arith;
  small = omega (arith, frame-small bs fits, length-frame bs);
}

-- And at the first byte behind the length.
abbrev pub at_body : List ℕ → Unpacker
at_body bs = move (length (variable_bytes (frame_length bs))) (at_frame bs)

pub pop_length-at_frame :
    (bs : List ℕ) → Fits bs → pop_variable_uint32 (at_frame bs) ≡ some (frame_length bs, at_body bs)
pop_length-at_frame bs fits =
    (pop_variable_uint32-Reads (frame_length bs) (frame-small bs fits)).run (at_frame bs)
      (At-front (variable_bytes (frame_length bs)) bs (at_frame-At bs fits))

pub at_body-At : (bs : List ℕ) → Fits bs → At (at_body bs) bs
at_body-At bs fits = At-move (variable_bytes (frame_length bs)) bs (at_frame-At bs fits)

pub init-at_body :
    (copy : Bool) (bs : List ℕ)
    → Fits bs
    → Unpacker.init (frame bs) (length (frame bs)) copy ≡ some (at_body bs)
init-at_body copy bs fits = init-at_frame copy bs ∙ rw (pop_length-at_frame bs fits)

pub at_body-end : (bs : List ℕ) → Fits bs → (at_body bs).position_ + length bs ≡ length (frame bs)
unfolding move
at_body-end bs fits = omega (arith, total, frame-small bs fits, length-frame bs)
  where
    total : length (variable_bytes (frame_length bs)) + length bs ≡ length (frame bs)
    total = sym (length-append (variable_bytes (frame_length bs)) bs) ∙ (unfold frame in refl)

module _ {A : Type 0} (c : Codec A) where
  -- Packer pk; p.Pack(&pk); and the bytes from pk.Buffer() on, pk.Length() of them.
  unfoldable pub send : A → Option (List Cell)
  send a = do p ← c.push a (Packer.init default_size); p ← pack p; packed_data p

  -- PackedBuffer
  unfoldable packed_buffer : A → Option (List Cell)
  packed_buffer a = do p ← c.push a (Packer.init default_size); p ← pack p; body p

  -- Unpacker p(bytes, length, copy); p >> a;
  unfoldable pub receive : Bool → List ℕ → Option (A × Unpacker)
  receive copy bytes = do u ← Unpacker.init bytes (length bytes) copy; c.pop c.blank u

  -- A valid value that fits into a packet is sent as `frame (c.encode a)`: all of these bytes were
  -- written.
  pub send-frame :
      (a : A) → c.IsValid a → Fits (c.encode a) → send a ≡ some (map some (frame (c.encode a)))
  unfolding send
  send-frame a h fits =
      let (p, pushed, w) =
        (c.push-Appends a h).run (Packer.init default_size) [] (init-Written default_size) fits in
      let packed = pack-Packed p (c.encode a) w (omega arith) in
      rw (pushed, packed.packed, packed.written)

  -- PackedBuffer leaves the length out again.
  packed_buffer-encode :
      (a : A) → c.IsValid a → Fits (c.encode a) → packed_buffer a ≡ some (map some (c.encode a))
  unfolding packed_buffer
  packed_buffer-encode a h fits =
      let (p, pushed, w) =
        (c.push-Appends a h).run (Packer.init default_size) [] (init-Written default_size) fits in
      let packed = pack-Packed p (c.encode a) w (omega arith) in
      rw (pushed, packed.packed, packed.carried)

  -- A valid value that fits into a packet is received as it was sent: by an Unpacker over the
  -- packet, with a copy of its own or not. The cursor ends behind the packet and nothing is printed.
  pub receive-frame :
      (copy : Bool) (a : A)
      → c.IsValid a
      → Fits (c.encode a)
      → (u : Unpacker) × (receive copy (frame (c.encode a)) ≡ some (a, u))
        × (u.position_ ≡ u.length_)
        × (u.warnings ≡ 0)
  unfolding receive
  receive-frame copy a h fits =
      let bs : List ℕ = c.encode a in
      (
        move (length bs) (at_body bs),
        rw (init-at_body copy bs fits, (c.pop-Reads a h).run (at_body bs) (at_body-At bs fits)),
        unfold move in omega (arith, at_body-end bs fits, frame-small bs fits, length-frame bs),
        unfold move in refl,
      )

-- PushVariableUint32 of any number appends bytes of which PopVariableUint32 reads the number's lower
-- 23 bits back, so that 2 ^ 23 is read as 0. The packer has room for these bytes, and the unpacker
-- stands at them.
pub push_variable_uint32-pop_variable_uint32 :
    (v : ℕ) (p : Packer) (bs : List ℕ) (u : Unpacker)
    → Written p bs
    → Fits (bs ++ variable_bytes v)
    → At u (variable_bytes v)
    → (p' : Packer) × (push_variable_uint32 v p ≡ some (length (variable_bytes v), p'))
      × Written p' (bs ++ variable_bytes v)
      × (pop_variable_uint32 u ≡ some (v % 2 ^ 23, move (length (variable_bytes v)) u))
push_variable_uint32-pop_variable_uint32 v p bs u w fits h =
    let (p', pushed, w') = push_variable_uint32-Appends v p bs w fits in
    (p', pushed, w', (pop_variable_uint32-wraps v).run u h)
