-- ===== src/Lbs/Connection.antt =====
-- turnserver/lbs/uni_lbs_connection.cpp: class UniLbsConnection, the dialogue with one LBS: it joins,
-- then pings with its load, and announces channels.
--
-- It is the callback of its TcpClient: an event of the client is handled there, and what the client
-- then tells its callback is handled here. Exceptions are switched off by the macros at the top of
-- the source, so a packet that cannot be unmarshalled is a fault (`none`).
pub mod Told
pub mod Speaks
pub mod Joined
pub mod Stale
pub mod Ping
use turnserver_v.Base.{
  ℕ, Bool, true, false, List, [], ◌∷◌, ◌++◌, map, Option, none, some, ◌>>=◌, ltb, ◌==◌,
  if◌then◌else◌,
}
use turnserver_v.Wire.Unpacker.{Unpacker}
use turnserver_v.Packet.Lbs.{
  Text, DetailInfo2Map, LbsJoinReq2, LbsPing, LbsFullChannelList, LbsDeltaChannelList, lbs_join_res,
  lbs_join_res2, lbs_pong, lbs_join_res_uri, lbs_join_res2_uri, lbs_pong_uri, lbs_join_req2_uri,
  lbs_ping_uri, lbs_full_channel_list_uri, lbs_delta_channel_list_uri, user_load, cpu_load,
  traffic_in_load, traffic_out_load, user_load_max, server_version,
}
use turnserver_v.Net.Client.{
  Client, Call, on_connect_call, on_packet_received_call, on_socket_error_call, time_to_ping_call,
  is_connected,
}
use turnserver_v.Net.Client.Events.{Event, handle}

-- base/server_id.h
abbrev pub uni_lbs_type : ℕ
uni_lbs_type = 17

-- base/error_code.h
abbrev pub ok : ℕ
ok = 0

pub record ChannelInfo : Type 0 where
  pub vid : ℕ
  pub cid : ℕ
  pub channel_name : Text

-- What UniLbsEventCallback is told.
pub data Upcall : Type 0 where
  lbs_connected lbs_disconnected : Upcall
  lbs_message_received : ℕ → Upcall
  update_load_quota : ℕ → Upcall
  join_replied : DetailInfo2Map → Upcall

-- What UniLbsEventCallback answers: its load, and the channels that it has.
pub record Answers : Type 0 where
  pub users : ℕ
  pub cpu : ℕ
  pub rx_kbps : ℕ
  pub tx_kbps : ℕ
  pub channels : List ChannelInfo

-- The packets that the connection sends.
pub data Request : Type 0 where
  join_request : LbsJoinReq2 → Request
  ping_request : LbsPing → Request
  full_channel_list : LbsFullChannelList → Request
  delta_channel_list : LbsDeltaChannelList → Request

pub record LbsConnection : Type 0 where
  pub joined : Bool
  pub service_id : ℕ
  pub service_port : ℕ
  pub service_name : Text
  pub release_version : Text
  pub connection : Client
  pub sent : List Request
  pub upcalls : List Upcall

unfoldable pub init : Client → Text → ℕ → ℕ → Text → LbsConnection
init client service_name service_id service_port release_version = record {
  joined = false;
  service_id = service_id;
  service_port = service_port;
  service_name = service_name;
  release_version = release_version;
  connection = client;
  sent = [];
  upcalls = [];
}

abbrev pub tell : Upcall → LbsConnection → LbsConnection
tell x l = record l { upcalls = l.upcalls ++ (x ∷ []) }

-- TcpClient::SendPacket
unfoldable pub tcp_send_packet : Request → LbsConnection → Bool × LbsConnection
tcp_send_packet p l =
    if is_connected l.connection then (true, record l { sent = l.sent ++ (p ∷ []) }) else (false, l)

unfoldable pub send_packet : Request → LbsConnection → Bool × LbsConnection
send_packet p l = if is_connected l.connection then tcp_send_packet p l else (false, l)

-- m[k] = v
unfoldable pub map_assign {ℓ} : {V : Type ℓ} → ℕ → V → List (ℕ × V) → List (ℕ × V)
map_assign k v [] = (k, v) ∷ []
map_assign k v ((j, w) ∷ m) =
    let rest = map_assign k v m in
    if ltb k j then (k, v) ∷ (j, w) ∷ m else if k == j then (k, v) ∷ m else (j, w) ∷ rest

-- m[k], which is 0 for a key that is not there.
unfoldable pub map_value : ℕ → List (ℕ × ℕ) → ℕ
map_value k [] = 0
map_value k ((j, w) ∷ m) = if k == j then w else map_value k m

unfoldable pub join_packet : LbsConnection → LbsJoinReq2
join_packet l = record {
  head = record { server_type = uni_lbs_type; uri = lbs_join_req2_uri };
  member1 = l.service_id;
  member2 = l.service_name;
  member3 = l.service_port;
  member4 = map_assign server_version l.release_version [];
}

unfoldable pub on_connect : Bool → LbsConnection → LbsConnection
on_connect connected l =
    if connected
    then (tcp_send_packet (join_request (join_packet l)) (tell lbs_connected l)).1
    else tell lbs_disconnected (record l { joined = false })

unfoldable pub ping_packet : Answers → LbsConnection → LbsPing
ping_packet v l = record {
  head = record { server_type = uni_lbs_type; uri = lbs_ping_uri };
  member1 = l.service_id;
  member2 = map_assign traffic_out_load v.tx_kbps (
      map_assign traffic_in_load v.rx_kbps
        (map_assign cpu_load v.cpu (map_assign user_load v.users [])));
}

unfoldable pub time_to_ping : Answers → LbsConnection → LbsConnection
time_to_ping v l = if l.joined then (send_packet (ping_request (ping_packet v l)) l).1 else l

unfoldable pub on_socket_error : LbsConnection → LbsConnection
on_socket_error l = record l { joined = false }

abbrev pub channel_entry : ChannelInfo → ℕ × Text
channel_entry c = (c.vid, c.channel_name)

unfoldable pub send_full_channel_list : List ChannelInfo → LbsConnection → LbsConnection
send_full_channel_list channels l =
    (send_packet
      (full_channel_list (record {
        head = record { server_type = uni_lbs_type; uri = lbs_full_channel_list_uri };
        member1 = l.service_id;
        member2 = map channel_entry channels;
      }))
      l).1

-- What both replies to a join do with the code and the details.
unfoldable pub join_answered : ℕ → DetailInfo2Map → Answers → LbsConnection → LbsConnection
join_answered code details v l =
    if code == ok
    then send_full_channel_list v.channels
        (tell (join_replied details) (record l { joined = true }))
    else l

unfoldable pub on_join_replied : Unpacker → Answers → LbsConnection → Option LbsConnection
on_join_replied p v l = do
  (reply, p) ← lbs_join_res.pop lbs_join_res.blank p
  some (join_answered reply.member2 [] v l)

unfoldable pub on_join2_replied : Unpacker → Answers → LbsConnection → Option LbsConnection
on_join2_replied p v l = do
  (reply, p) ← lbs_join_res2.pop lbs_join_res2.blank p
  some (join_answered reply.member2 reply.member3 v l)

unfoldable pub on_pong : Unpacker → LbsConnection → Option LbsConnection
on_pong p l = do
  (pong, p) ← lbs_pong.pop lbs_pong.blank p
  some (tell (update_load_quota (map_value user_load_max pong.member2)) l)

unfoldable pub on_packet_received :
    ℕ → ℕ → Unpacker → Answers → LbsConnection → Option LbsConnection
on_packet_received service_type uri p v l =
    if service_type == uni_lbs_type
    then (if uri == lbs_join_res_uri
        then on_join_replied p v l
        else if uri == lbs_join_res2_uri
        then on_join2_replied p v l
        else if uri == lbs_pong_uri
        then on_pong p l
        else some (tell (lbs_message_received uri) l))
    else some l

abbrev pub delta_packet : List ChannelInfo → List ChannelInfo → LbsConnection → LbsDeltaChannelList
delta_packet added removed l = record {
  head = record { server_type = uni_lbs_type; uri = lbs_delta_channel_list_uri };
  member1 = l.service_id;
  member2 = map channel_entry added;
  member3 = map channel_entry removed;
}

unfoldable pub do_channel_create : ChannelInfo → LbsConnection → LbsConnection
do_channel_create c l =
    if l.joined then (send_packet (delta_channel_list (delta_packet (c ∷ []) [] l)) l).1 else l

unfoldable pub do_channel_destroy : ChannelInfo → LbsConnection → LbsConnection
do_channel_destroy c l =
    if l.joined then (send_packet (delta_channel_list (delta_packet [] (c ∷ []) l)) l).1 else l

-- The virtual functions of TcpClientCallback; `p` is the Unpacker of a received packet.
unfoldable pub callback : Call → Unpacker → Answers → LbsConnection → Option LbsConnection
callback (on_connect_call connected) p v l = some (on_connect connected l)
callback (on_packet_received_call service_type uri) p v l =
    on_packet_received service_type uri p v l
callback on_socket_error_call p v l = some (on_socket_error l)
callback time_to_ping_call p v l = some (time_to_ping v l)

unfoldable pub callbacks : List Call → Unpacker → Answers → LbsConnection → Option LbsConnection
callbacks [] p v l = some l
callbacks (x ∷ calls) p v l = do l ← callback x p v l; callbacks calls p v l

-- An event of the TcpClient, and what it tells this object.
unfoldable pub step : Event → Unpacker → Answers → LbsConnection → Option LbsConnection
step e p v l = do
  client ← handle e (record l.connection { calls = [] })
  callbacks client.calls p v (record l { connection = client })
