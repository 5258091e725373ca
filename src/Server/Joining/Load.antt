-- ===== src/Server/Joining/Load.antt =====
-- turnserver/turnserver_main.cc: the load that UniLbsWorker answers, and the ping that carries it.
use turnserver_v.Base.{ℕ, ◌^◌, ◌<◌, ◌≡◌, Bool, true, [], ◌∷◌, ◌++◌, some, arith}
use turnserver_v.Wire.Packer.{u32}
use turnserver_v.Wire.Packer.Frame.{frame}
use turnserver_v.Wire.Unpacker.{Unpacker}
use turnserver_v.Wire.Transfer.{receive}
use turnserver_v.Packet.Lbs.{
  LbsPing, lbs_ping, user_load, cpu_load, traffic_in_load, traffic_out_load,
}
use turnserver_v.Net.Client.{is_connected}
use turnserver_v.Lbs.Connection.{LbsConnection, ping_request}
use turnserver_v.Lbs.Connection.Ping.{time_to_ping-received}
use turnserver_v.Lbs.Client.Visitor.{
  Visitor, Performance, plain_visitor, visitor_answers, visited_ping,
}

-- What the turn server and the system answer; the percentage is cut to an integer.
pub record TurnServer : Type 0 where
  pub channel_count : ℕ
  pub cpu_usage : ℕ
  pub send_band_width : ℕ
  pub recv_band_width : ℕ

-- OnEdgeServerPerformanceRequired
unfoldable pub turn_load : TurnServer → Performance × TurnServer
turn_load t = (
  record {
    user_count = u32 t.channel_count;
    cpu_percentage = u32 t.cpu_usage;
    rx_kbps = u32 t.recv_band_width;
    tx_kbps = u32 t.send_band_width;
  },
  t,
)

-- The other virtual functions of UniLbsWorker do nothing.
unfoldable pub turn_visitor : Visitor TurnServer
turn_visitor = plain_visitor turn_load

-- A worker's ping of a joined connection that is up reaches the LBS with the service's id and the
-- numbers of the turn server, modulo 2 ^ 32: its channels as users, its CPU usage, what it received as
-- incoming and what it sent as outgoing traffic.
pub visited_ping-received :
    (copy : Bool) (t : TurnServer) (l : LbsConnection)
    → l.joined ≡ true
    → is_connected l.connection ≡ true
    → l.service_id < 2 ^ 32
    → (p : LbsPing) × (u : Unpacker) × ((visited_ping turn_visitor l t).0.sent
        ≡ l.sent ++ (ping_request p ∷ []))
      × (receive lbs_ping copy (frame (lbs_ping.encode p)) ≡ some (p, u))
      × (p.member1 ≡ l.service_id)
      × (p.member2
          ≡ (user_load, u32 t.channel_count)
            ∷ (cpu_load, u32 t.cpu_usage)
            ∷ (traffic_in_load, u32 t.recv_band_width)
            ∷ (traffic_out_load, u32 t.send_band_width)
            ∷ [])
unfolding visited_ping visitor_answers turn_visitor plain_visitor turn_load
visited_ping-received copy t l j on small =
    time_to_ping-received copy (visitor_answers turn_visitor t) l j on (record {
      users_small = omega arith;
      cpu_small = omega arith;
      rx_small = omega arith;
      tx_small = omega arith;
      id_small = small;
    })
