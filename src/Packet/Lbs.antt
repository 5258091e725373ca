-- ===== src/Packet/Lbs.antt =====
-- turnserver/protocol/uni_lbs_protocol.h: the packets between an edge server and the unified LBS.
use turnserver_v.Base.{ℕ, List}
use turnserver_v.Order.{Ordered, number}
use turnserver_v.Order.Lists.{sequence}
use turnserver_v.Wire.Codec.{Codec, uint16, uint32, string, buffer, pair}
use turnserver_v.Wire.Containers.{vector, ordered_map}
use turnserver_v.Structs.Two.{Struct2, packable2}
use turnserver_v.Structs.Seven.{Struct7, packable7, struct7}
use turnserver_v.Packet.Two.{Packet2, packet2}
use turnserver_v.Packet.Three.{Packet3, packet3}
use turnserver_v.Packet.Four.{Packet4, packet4}
use turnserver_v.Packet.Five.{Packet5, packet5}
use turnserver_v.Packet.Six.{Packet6, packet6}
use turnserver_v.Packet.Eight.{Packet8, packet8}

-- enum TicketVersion
abbrev version5 : ℕ
version5 = 5

abbrev version7 : ℕ
version7 = 7

abbrev version8 : ℕ
version8 = 8

-- enum ServiceUri
abbrev lbs_test_join_req_uri : ℕ
lbs_test_join_req_uri = 1000

abbrev lbs_join_req_uri : ℕ
lbs_join_req_uri = 1001

abbrev pub lbs_join_res_uri : ℕ
lbs_join_res_uri = 1002

abbrev pub lbs_ping_uri : ℕ
lbs_ping_uri = 1003

abbrev pub lbs_pong_uri : ℕ
lbs_pong_uri = 1004

abbrev pub lbs_full_channel_list_uri : ℕ
lbs_full_channel_list_uri = 1005

abbrev pub lbs_delta_channel_list_uri : ℕ
lbs_delta_channel_list_uri = 1006

abbrev pub lbs_join_req2_uri : ℕ
lbs_join_req2_uri = 1007

abbrev pub lbs_join_res2_uri : ℕ
lbs_join_res2_uri = 1008

-- The keys of the detail maps.
abbrev pub user_load : ℕ
user_load = 1

abbrev pub cpu_load : ℕ
cpu_load = 2

abbrev pub traffic_in_load : ℕ
traffic_in_load = 3

abbrev pub traffic_out_load : ℕ
traffic_out_load = 4

abbrev pub user_load_max : ℕ
user_load_max = 5

abbrev pub server_version : ℕ
server_version = 6

abbrev pub Text : Type 0
Text = List ℕ

abbrev DetailInfoMap : Type 0
DetailInfoMap = List (ℕ × ℕ)

abbrev pub DetailInfo2Map : Type 0
DetailInfo2Map = List (ℕ × Text)

abbrev AllChannelVector : Type 0
AllChannelVector = List (ℕ × Text)

abbrev detail_map : Codec DetailInfoMap
detail_map = ordered_map uint32 uint32

abbrev detail2_map : Codec DetailInfo2Map
detail2_map = ordered_map uint32 string

abbrev pub channels : Codec AllChannelVector
channels = vector (pair uint32 string)

-- content, signature
abbrev access_ticket : Codec (Struct2 (List ℕ) (List ℕ))
access_ticket = packable2 buffer buffer

-- cid, uid, vid, sids, issue_ts, due_ts, cname
abbrev pub DetailedSignature5 : Type 0
DetailedSignature5 = Struct7 ℕ ℕ ℕ (List ℕ) ℕ ℕ Text

abbrev detailed_signature5 : Codec DetailedSignature5
detailed_signature5 = packable7 uint32 uint32 uint32 (vector uint32) uint32 uint32 string

abbrev detailed_signature5_order : Ordered DetailedSignature5
detailed_signature5_order = struct7 number number number sequence number number sequence

-- vid, uid, sids, issue_ts, due_ts, cname
abbrev ticket_detail5 : Codec (Packet6 ℕ ℕ (List ℕ) ℕ ℕ Text)
ticket_detail5 = packet6 uint32 uint32 (vector uint32) uint32 uint32 string version5

-- vid, uid, issue_ts, due_ts, cname
abbrev ticket_detail7 : Codec (Packet5 ℕ ℕ ℕ ℕ Text)
ticket_detail7 = packet5 uint32 uint32 uint32 uint32 string version7

-- vid, uid, cid, sids, issue_ts, due_ts, cname, bitrates
abbrev ticket_detail8 : Codec (Packet8 ℕ ℕ ℕ (List ℕ) ℕ ℕ Text ℕ)
ticket_detail8 = packet8 uint32 uint32 uint32 (vector uint32) uint32 uint32 string uint32 version8

-- id, service_name, ip, port
abbrev lbs_test_join_req : Codec (Packet4 ℕ Text Text ℕ)
lbs_test_join_req = packet4 uint32 string string uint16 lbs_test_join_req_uri

-- id, service_name, port
abbrev lbs_join_req : Codec (Packet3 ℕ Text ℕ)
lbs_join_req = packet3 uint32 string uint16 lbs_join_req_uri

-- id, code
abbrev LbsJoinRes : Type 0
LbsJoinRes = Packet2 ℕ ℕ

abbrev pub lbs_join_res : Codec LbsJoinRes
lbs_join_res = packet2 uint32 uint32 lbs_join_res_uri

-- id, service_name, port, detail
abbrev pub LbsJoinReq2 : Type 0
LbsJoinReq2 = Packet4 ℕ Text ℕ DetailInfo2Map

abbrev pub lbs_join_req2 : Codec LbsJoinReq2
lbs_join_req2 = packet4 uint32 string uint16 detail2_map lbs_join_req2_uri

-- id, code, detail
abbrev LbsJoinRes2 : Type 0
LbsJoinRes2 = Packet3 ℕ ℕ DetailInfo2Map

abbrev pub lbs_join_res2 : Codec LbsJoinRes2
lbs_join_res2 = packet3 uint32 uint32 detail2_map lbs_join_res2_uri

-- id, load_detail
abbrev pub LbsPing : Type 0
LbsPing = Packet2 ℕ DetailInfoMap

abbrev pub lbs_ping : Codec LbsPing
lbs_ping = packet2 uint32 detail_map lbs_ping_uri

abbrev LbsPong : Type 0
LbsPong = Packet2 ℕ DetailInfoMap

abbrev pub lbs_pong : Codec LbsPong
lbs_pong = packet2 uint32 detail_map lbs_pong_uri

-- id, channels
abbrev pub LbsFullChannelList : Type 0
LbsFullChannelList = Packet2 ℕ AllChannelVector

abbrev lbs_full_channel_list : Codec LbsFullChannelList
lbs_full_channel_list = packet2 uint32 channels lbs_full_channel_list_uri

-- id, added, removed
abbrev pub LbsDeltaChannelList : Type 0
LbsDeltaChannelList = Packet3 ℕ AllChannelVector AllChannelVector

abbrev lbs_delta_channel_list : Codec LbsDeltaChannelList
lbs_delta_channel_list = packet3 uint32 channels channels lbs_delta_channel_list_uri
