-- ===== src/Examples/Packets.antt =====
-- A packet to the unified LBS, packed and unpacked.
use turnserver_v.Base.{refl, ◌^◌, ◌%◌, ◌≡◌, true, [], ◌∷◌, ◌++◌, map, some, length, arith}
use turnserver_v.Wire.Packer.{
  push_variable_uint32, Cell, Packer, max_packet_size, grow, pack, packed_data,
}
use turnserver_v.Wire.Packer
use turnserver_v.Wire.Packer.Written.{Written, Fits}
use turnserver_v.Wire.Packer.Pushes.{variable_bytes, init-Written, string_bytes}
use turnserver_v.Wire.Packer.Frame.{frame, Packed, pack-Packed}
use turnserver_v.Wire.Unpacker.{Unpacker}
use turnserver_v.Wire.Containers.{encode_container}
use turnserver_v.Wire.Unpacker.{pop_variable_uint32, move}
use turnserver_v.Wire.Unpacker.Reads.{At}
use turnserver_v.Wire.Transfer.{
  push_variable_uint32-pop_variable_uint32, send, receive, send-frame, receive-frame,
}
use turnserver_v.Packet.Four.{encode4}
use turnserver_v.Packet.Lbs.{LbsJoinReq2, lbs_join_req2}

-- The request to join: service 7 on port 3478, with the version in the details.
abbrev join : LbsJoinReq2
join = record {
  head = record { server_type = 7; uri = 1007 };
  member1 = 7;
  member2 = b'w' ∷ b'e' ∷ b'b' ∷ [];
  member3 = 3478;
  member4 = (6, b'1' ∷ []) ∷ (9, []) ∷ [];
}

join-IsValid : lbs_join_req2.IsValid join
join-IsValid = record {
  head_valid = omega arith;
  valid1 = omega arith;
  valid2 = omega arith;
  valid3 = omega arith;
  valid4 = omega arith;
}

join-Fits : Fits (lbs_join_req2.encode join)
unfolding encode4 encode_container string_bytes variable_bytes
join-Fits = omega arith

send-frame_example : send lbs_join_req2 join ≡ some (map some (frame (lbs_join_req2.encode join)))
send-frame_example = send-frame lbs_join_req2 join join-IsValid join-Fits

receive-frame_example :
    (u : Unpacker) × (receive lbs_join_req2 true (frame (lbs_join_req2.encode join))
      ≡ some (join, u))
    × (u.position_ ≡ u.length_)
    × (u.warnings ≡ 0)
receive-frame_example = receive-frame lbs_join_req2 true join join-IsValid join-Fits

pack-Packed_example : Packed (Packer.init 64) []
pack-Packed_example = pack-Packed (Packer.init 64) [] (init-Written 64) (omega arith)

-- 2 ^ 23 itself is written in three bytes, and read as 0.
abbrev too_long : Unpacker
too_long = record { mem = 0 ∷ 0x80 ∷ 0 ∷ []; length_ = 3; position_ = 0; warnings = 0 }

too_long-At : At too_long (variable_bytes (2 ^ 23))
unfolding variable_bytes
too_long-At = record {
  front = [];
  rest = [];
  mem_shape = refl;
  cursor = refl;
  inside = omega arith;
  small = omega arith;
}

two_to_23-Fits : Fits ([] ++ variable_bytes (2 ^ 23))
unfolding variable_bytes
two_to_23-Fits = omega arith

push_variable_uint32-pop_variable_uint32_example :
    (p' : Packer) × (push_variable_uint32 (2 ^ 23) (Packer.init 64)
      ≡ some (length (variable_bytes (2 ^ 23)), p'))
    × Written p' ([] ++ variable_bytes (2 ^ 23))
    × (pop_variable_uint32 too_long
        ≡ some (2 ^ 23 % 2 ^ 23, move (length (variable_bytes (2 ^ 23))) too_long))
push_variable_uint32-pop_variable_uint32_example =
    push_variable_uint32-pop_variable_uint32 (2 ^ 23) (Packer.init 64) [] too_long (init-Written 64)
      two_to_23-Fits too_long-At
