-- ===== src/Examples/Peers.antt =====
-- Two requests to rejoin, sent on one side of a connection and handled on the other.
use turnserver_v.Base.{ℕ, ◌≡◌, refl, Bool, true, false, List, [], ◌∷◌, ◌++◌, map, le_bytes, arith}
use turnserver_v.Packet.Two.{Packet2, encode2}
use turnserver_v.Packet.Elbs.{rejoin_request}
use turnserver_v.Net.Connection.{Connection, done, on_data_ready}
use turnserver_v.Net.Connection.Framing.{Message}
use turnserver_v.Net.Connection.Delivery.{frames}
use turnserver_v.Net.Connection.Stream.{Settled}
use turnserver_v.Net.Connection.Peers.{
  send_all-frames, IsSendable, receiver, serve_values, on_data_ready-sent,
}
use turnserver_v.Examples.Streams.{list_buffer, connection}

abbrev request : ℕ → Packet2 ℕ ℕ
request port = record {
  head = record { server_type = 305; uri = 6 };
  member1 = 0x0100007f;
  member2 = port;
}

abbrev rejoin_message : Packet2 ℕ ℕ → Message
rejoin_message x = record {
  server_type = x.head.server_type;
  uri = x.head.uri;
  payload = le_bytes 4 x.member1 ++ le_bytes 2 x.member2;
}

first-IsSendable : IsSendable rejoin_request rejoin_message (List ℕ) (request 4000)
unfolding encode2
first-IsSendable = record {
  valid = record { head_valid = omega arith; valid1 = omega arith; valid2 = omega arith };
  encoded = refl;
  good = omega arith;
}

second-IsSendable : IsSendable rejoin_request rejoin_message (List ℕ) (request 4001)
unfolding encode2
second-IsSendable = record {
  valid = record { head_valid = omega arith; valid1 = omega arith; valid2 = omega arith };
  encoded = refl;
  good = omega arith;
}

-- The handler notes the ports.
abbrev note_port : Packet2 ℕ ℕ → List ℕ → List ℕ × Bool
note_port x ports = (ports ++ (x.member2 ∷ []), false)

abbrev note_error : ℕ → List ℕ → List ℕ × Bool
note_error events ports = (ports, true)

abbrev requests : List (Packet2 ℕ ℕ)
requests = request 4000 ∷ request 4001 ∷ []

abbrev sent_bytes : List ℕ
sent_bytes = frames (map rejoin_message requests)

noted :
    serve_values rejoin_request rejoin_message (List ℕ) note_port requests []
    ≡ (4000 ∷ 4001 ∷ [], false)
unfolding serve_values
noted = refl

on_data_ready-sent_example :
    (c' : Connection (List ℕ) (List ℕ)) × (on_data_ready list_buffer
        (receiver rejoin_request rejoin_message (List ℕ) note_port note_error)
        3
        (connection sent_bytes)
      ≡ done c')
    × (c'.client ≡ (serve_values rejoin_request rejoin_message (List ℕ) note_port requests []).0)
    × Settled list_buffer
        (receiver rejoin_request rejoin_message (List ℕ) note_port note_error)
        []
        (serve_values rejoin_request rejoin_message (List ℕ) note_port requests []).1
        (connection sent_bytes)
        c'
on_data_ready-sent_example =
    on_data_ready-sent rejoin_request rejoin_message (List ℕ) list_buffer note_port note_error 3
      requests sent_bytes (connection sent_bytes) (first-IsSendable, (second-IsSendable, tt))
      (send_all-frames rejoin_request rejoin_message (List ℕ) requests
        (first-IsSendable, (second-IsSendable, tt)))
      refl refl (omega arith)
