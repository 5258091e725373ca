-- ===== src/Examples/Lbs.antt =====
-- A connection to an LBS that joins, pings and is cut, and a client that reloads its addresses.
use turnserver_v.Base.{
  none, ◌≢◌, ◌+◌, subst, length, ℕ, ◌≡◌, refl, true, false, [], ◌∷◌, some, inl, inr, Bool-cases,
  ◌==◌, arith,
}
use turnserver_v.Wire.Unpacker.{Unpacker, move}
use turnserver_v.Wire.Packer.Frame.{frame}
use turnserver_v.Wire.Transfer.{receive, at_body, at_body-At}
use turnserver_v.Wire.Packer.Written.{Fits}
use turnserver_v.Wire.Packer.Pushes.{variable_bytes}
use turnserver_v.Packet.Two.{Packet2, encode2}
use turnserver_v.Packet.Lbs.{
  LbsPing, lbs_ping, lbs_join_res, lbs_join_res_uri, user_load, cpu_load, traffic_in_load,
  traffic_out_load,
}
use turnserver_v.Net.Client.{
  connect, on_connect, connect_result, connect_result, on_error, close_conn, start, new_pending,
}
use turnserver_v.Net.Client.{Client, on_packet_received_call, is_connected}
use turnserver_v.Net.Client as Tcp
use turnserver_v.Net.Client.Phases.{trying, IsIn}
use turnserver_v.Net.Client.Events.{connected, received, handle}
use turnserver_v.Examples.Clients.{online, waiting}
use turnserver_v.Lbs.Connection.{
  ChannelInfo, Answers, lbs_connected, join_replied, full_channel_list, join_request, ping_request,
  delta_channel_list, join_packet, delta_packet, LbsConnection, step, time_to_ping,
  do_channel_create,
}
use turnserver_v.Lbs.Connection as Lbs
use turnserver_v.Lbs.Connection.Joined.{Reachable, made, stepped, IsEarned, Reachable-IsEarned}
use turnserver_v.Lbs.Connection.Told.{acceptances}
use turnserver_v.Lbs.Connection.Stale.{connected-announces}
use turnserver_v.Lbs.Client.Visitor.{visited_ping}
use turnserver_v.Server.Joining.{add_to_uni_lbs, add_to_uni_lbs_joins}
use turnserver_v.Server.Joining.Load.{TurnServer, turn_visitor, visited_ping-received}
use turnserver_v.Address.Ipv4.{NewSockAddress4}
use turnserver_v.Lbs.Client.{Endpoint, Connections, LbsClient, reload_lbs_addresses}
use turnserver_v.Lbs.Client as Balanced
use turnserver_v.Lbs.Client.Maps.{find}
use turnserver_v.Lbs.Client.Reload.{IsNonNull, IsReloaded, reload_lbs_addresses-IsReloaded}

abbrev no_packet : Unpacker
no_packet = record { mem = []; length_ = 0; position_ = 0; warnings = 0 }

abbrev load : Answers
load = record { users = 12; cpu = 30; rx_kbps = 800; tx_kbps = 900; channels = [] }

abbrev channel : ChannelInfo
channel = record { vid = 7; cid = 8; channel_name = 97 ∷ [] }

abbrev lbs_at : Client → LbsConnection
lbs_at client = record {
  joined = true;
  service_id = 5;
  service_port = 3100;
  service_name = 115 ∷ [];
  release_version = 118 ∷ [];
  connection = client;
  sent = [];
  upcalls = [];
}

-- The reply of the LBS to the join, which accepts it.
abbrev reply : Packet2 ℕ ℕ
reply = record {
  head = record { server_type = 17; uri = lbs_join_res_uri };
  member1 = 5;
  member2 = 0;
}

abbrev replied : Unpacker
replied = at_body (lbs_join_res.encode reply)

reply-Fits : Fits (lbs_join_res.encode reply)
unfolding encode2 variable_bytes
reply-Fits = omega arith

reply_read :
    lbs_join_res.pop lbs_join_res.blank replied
    ≡ some (reply, move (length (lbs_join_res.encode reply)) replied)
reply_read =
    (lbs_join_res.pop-Reads reply
        (record { head_valid = omega arith; valid1 = omega arith; valid2 = omega arith })).run
      replied (at_body-At (lbs_join_res.encode reply) reply-Fits)

abbrev up_lbs : LbsConnection
up_lbs = Lbs.init online (115 ∷ []) 5 3100 (118 ∷ [])

abbrev client_after : Client
client_after = record online {
  last_active_ts = 1030;
  calls = on_packet_received_call 17 lbs_join_res_uri ∷ [];
}

-- What the LBS is told once it accepted the join: the channels of the answers, of which there are none.
abbrev joined_lbs : LbsConnection
joined_lbs = record (lbs_at client_after) {
  sent =
      full_channel_list
        (record { head = record { server_type = 17; uri = 1005 }; member1 = 5; member2 = [] })
      ∷ [];
  upcalls = join_replied [] ∷ [];
}

reply_steps : step (received 1030 17 lbs_join_res_uri) replied load up_lbs ≡ some joined_lbs
unfolding step handle Lbs.init Lbs.callbacks Lbs.callback Lbs.on_packet_received Lbs.on_join_replied
    Lbs.join_answered Lbs.send_full_channel_list Lbs.send_packet Lbs.tcp_send_packet
    Tcp.on_packet_received is_connected
reply_steps = rw reply_read refl

reply_accepts : 0 + acceptances client_after.calls replied ≡ 1
reply_accepts = rw reply_read refl

joined_lbs-Reachable : Reachable 1 joined_lbs
joined_lbs-Reachable =
    subst (λ n. Reachable n joined_lbs) reply_accepts
      (stepped (received 1030 17 lbs_join_res_uri) replied load 0 up_lbs joined_lbs client_after
        (made online (115 ∷ []) (118 ∷ []) 5 3100)
        (unfold handle Lbs.init Tcp.on_packet_received in refl) reply_steps)

Reachable-IsEarned_example : IsEarned 1 joined_lbs
Reachable-IsEarned_example = Reachable-IsEarned 1 joined_lbs joined_lbs-Reachable

waiting-IsIn : IsIn (trying 0) waiting
waiting-IsIn = record { fixed = refl }

connected-announces_example :
    (l' : LbsConnection) × (step (connected 1021 0x80) no_packet load (lbs_at waiting) ≡ some l')
    × (l'.upcalls ≡ lbs_connected ∷ [])
    × ((do_channel_create channel l').sent
        ≡ join_request (join_packet (lbs_at waiting))
          ∷ delta_channel_list (delta_packet (channel ∷ []) [] (lbs_at waiting))
          ∷ [])
connected-announces_example =
    connected-announces 1021 0 no_packet load channel (lbs_at waiting) waiting-IsIn refl

abbrev address : ℕ → NewSockAddress4
address ip = record { ip = ip; port = 3100 }

-- A client that serves 10 and 11, by the endpoints 0 and 1.
abbrev client : LbsClient
client = record (Balanced.init 3100) {
  connections =
      (10, some (record { id = 0; address = address 10 }))
      ∷ (11, some (record { id = 1; address = address 11 }))
      ∷ [];
  fresh = 2;
}

empty-IsNonNull : IsNonNull []
unfolding find
empty-IsNonNull = record { non_null = λ ip. inl refl }

entry-IsNonNull :
    (j : ℕ) (k : Endpoint) (m : Connections) → IsNonNull m → IsNonNull ((j, some k) ∷ m)
unfolding find
entry-IsNonNull j k m n = record {
  non_null = λ ip. elim (Bool-cases (j == ip)) [
    | inl same ↦ rw same (inr (k, refl))
    | inr other ↦ rw other (n.non_null ip)
  ];
}

client-IsNonNull : IsNonNull client.connections
client-IsNonNull = entry-IsNonNull 10 _ _ (entry-IsNonNull 11 _ _ empty-IsNonNull)

reload_lbs_addresses-IsReloaded_example :
    IsReloaded 11
      (address 11 ∷ address 12 ∷ [])
      client
      (reload_lbs_addresses (address 11 ∷ address 12 ∷ []) client)
reload_lbs_addresses-IsReloaded_example =
    reload_lbs_addresses-IsReloaded 11 (address 11 ∷ address 12 ∷ []) client client-IsNonNull

abbrev turn_server : TurnServer
turn_server = record {
  channel_count = 12;
  cpu_usage = 30;
  send_band_width = 900;
  recv_band_width = 800;
}

visited_ping-received_example :
    (p : LbsPing) × (u : Unpacker) × ((visited_ping turn_visitor (lbs_at online) turn_server).0.sent
      ≡ ping_request p ∷ [])
    × (receive lbs_ping false (frame (lbs_ping.encode p)) ≡ some (p, u))
    × (p.member1 ≡ 5)
    × (p.member2
        ≡ (user_load, 12) ∷ (cpu_load, 30) ∷ (traffic_in_load, 800) ∷ (traffic_out_load, 900) ∷ [])
visited_ping-received_example =
    visited_ping-received false turn_server (lbs_at online) refl (unfold is_connected in refl)
      (omega arith)

-- 42.81.206.84
abbrev lbs_ip : ℕ
lbs_ip = 0x2a51ce54

add_to_uni_lbs_joins_example :
    (k : Endpoint) × (find lbs_ip (add_to_uni_lbs (some lbs_ip) 12345 3478 (7 ∷ [])).connections
      ≡ some (some k))
    × (k.address.ip ≡ lbs_ip)
    × ((add_to_uni_lbs (some lbs_ip) 12345 3478 (7 ∷ [])).timer ≡ none)
    × ((j : ℕ)
        → j ≢ lbs_ip
        → find j (add_to_uni_lbs (some lbs_ip) 12345 3478 (7 ∷ [])).connections ≡ none)
add_to_uni_lbs_joins_example =
    add_to_uni_lbs_joins lbs_ip 12345 3478 (7 ∷ []) (λ h. absurd (omega (arith, h)))
