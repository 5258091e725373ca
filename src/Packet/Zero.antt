-- ===== src/Packet/Zero.antt =====
-- turnserver/base/packet_helper.h: a struct declared by NEW_DECLARE_PACKET_0, a head without members.
use turnserver_v.Base.{ℕ}
use turnserver_v.Wire.Codec.{Codec}
use turnserver_v.Packet.Head.{Head, head_codec}

-- explicit Name(server_type)
unfoldable make0 : ℕ → ℕ → Head
make0 uri server_type = record { server_type = server_type; uri = uri }

abbrev packet0 : ℕ → Codec Head
packet0 uri = record head_codec { blank = make0 uri 0 }
