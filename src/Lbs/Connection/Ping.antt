-- ===== src/Lbs/Connection/Ping.antt =====
-- uni_lbs_connection.cpp: the ping, from TimeToPing to the LBS that reads it.
use turnserver_v.Base.{
  ◌^◌, ◌<◌, ◌≡◌, refl, ap, ◌∙◌, Bool, true, [], ◌∷◌, ◌++◌, some, if◌then◌else◌, arith,
}
use turnserver_v.Wire.Unpacker.{Unpacker}
use turnserver_v.Wire.Packer.Written.{Fits}
use turnserver_v.Wire.Packer.Pushes.{variable_bytes}
use turnserver_v.Wire.Packer.Frame.{frame}
use turnserver_v.Wire.Containers.{encode_container}
use turnserver_v.Wire.Transfer.{receive, receive-frame}
use turnserver_v.Packet.Two.{encode2}
use turnserver_v.Packet.Lbs.{
  LbsPing, lbs_ping, user_load, cpu_load, traffic_in_load, traffic_out_load,
}
use turnserver_v.Net.Client.{is_connected}
use turnserver_v.Lbs.Connection.{
  Answers, ping_request, LbsConnection, tcp_send_packet, send_packet, map_assign, ping_packet,
  time_to_ping,
}

-- The numbers of the source's types.
pub record IsSmall (v : Answers) (l : LbsConnection) : Type 0 where
  pub users_small : v.users < 2 ^ 32
  pub cpu_small : v.cpu < 2 ^ 32
  pub rx_small : v.rx_kbps < 2 ^ 32
  pub tx_small : v.tx_kbps < 2 ^ 32
  pub id_small : l.service_id < 2 ^ 32

ping-IsValid : (v : Answers) (l : LbsConnection) → IsSmall v l → lbs_ping.IsValid (ping_packet v l)
unfolding ping_packet map_assign
ping-IsValid v l s = record {
  head_valid = omega arith;
  valid1 = s.id_small;
  valid2 = omega (arith, s);
}

ping-Fits : (v : Answers) (l : LbsConnection) → Fits (lbs_ping.encode (ping_packet v l))
unfolding ping_packet map_assign encode2 encode_container variable_bytes
ping-Fits v l = omega arith

time_to_ping-sends :
    (v : Answers) (l : LbsConnection)
    → l.joined ≡ true
    → is_connected l.connection ≡ true
    → (time_to_ping v l).sent ≡ l.sent ++ (ping_request (ping_packet v l) ∷ [])
unfolding time_to_ping send_packet tcp_send_packet
time_to_ping-sends v l j on =
    ap (λ t. (if t then (send_packet (ping_request (ping_packet v l)) l).1 else l).sent) j ∙ rw on

-- TimeToPing of a joined connection that is up sends one ping. The LBS reads from its frame the
-- service's id and, by key, the four loads that the callback gave.
pub time_to_ping-received :
    (copy : Bool) (v : Answers) (l : LbsConnection)
    → l.joined ≡ true
    → is_connected l.connection ≡ true
    → IsSmall v l
    → (p : LbsPing) × (u : Unpacker) × ((time_to_ping v l).sent ≡ l.sent ++ (ping_request p ∷ []))
      × (receive lbs_ping copy (frame (lbs_ping.encode p)) ≡ some (p, u))
      × (p.member1 ≡ l.service_id)
      × (p.member2
          ≡ (user_load, v.users)
            ∷ (cpu_load, v.cpu)
            ∷ (traffic_in_load, v.rx_kbps)
            ∷ (traffic_out_load, v.tx_kbps)
            ∷ [])
time_to_ping-received copy v l j on s =
    let (u, got, ended, quiet) =
      receive-frame lbs_ping copy (ping_packet v l) (ping-IsValid v l s) (ping-Fits v l) in
    (
      ping_packet v l,
      u,
      time_to_ping-sends v l j on,
      got,
      unfold ping_packet in refl,
      unfold ping_packet map_assign in refl,
    )
