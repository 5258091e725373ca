-- ===== src/Packet/Elbs.antt =====
-- turnserver/new_elbs/new_elbs_protocol.h: the packets to and from the ELBS servers, and those of
-- the worker manager.
use turnserver_v.Base.{ℕ, List}
use turnserver_v.Wire.Codec.{Codec, uint16, uint32, string}
use turnserver_v.Packet.One.{Packet1, packet1}
use turnserver_v.Packet.Two.{Packet2, packet2}
use turnserver_v.Packet.Three.{Packet3, packet3}

-- enum ElbsUriType, and the server types
abbrev pub rejoin_request_uri : ℕ
rejoin_request_uri = 6

abbrev pub rejoin_response_uri : ℕ
rejoin_response_uri = 7

abbrev pub rejoin_request2_uri : ℕ
rejoin_request2_uri = 8

abbrev pub rejoin_response2_uri : ℕ
rejoin_response2_uri = 9

abbrev pub uap_uri : ℕ
uap_uri = 1000

abbrev pub elbs_server_type : ℕ
elbs_server_type = 305

abbrev pub uap_server_type : ℕ
uap_server_type = 1000

-- json
abbrev pub WorkerManagerComm : Type 0
WorkerManagerComm = Packet1 (List ℕ)

abbrev pub worker_manager_comm : Codec WorkerManagerComm
worker_manager_comm = packet1 string uap_uri

-- ip, port
abbrev pub RejoinRequestProtocol : Type 0
RejoinRequestProtocol = Packet2 ℕ ℕ

abbrev pub rejoin_request : Codec RejoinRequestProtocol
rejoin_request = packet2 uint32 uint16 rejoin_request_uri

-- code, ip, port
abbrev pub RejoinResponseProtocol : Type 0
RejoinResponseProtocol = Packet3 ℕ ℕ ℕ

abbrev pub rejoin_response : Codec RejoinResponseProtocol
rejoin_response = packet3 uint32 uint32 uint16 rejoin_response_uri

abbrev pub rejoin_request2 : Codec (Packet2 ℕ ℕ)
rejoin_request2 = packet2 uint32 uint16 rejoin_request2_uri

abbrev pub rejoin_response2 : Codec (Packet3 ℕ ℕ ℕ)
rejoin_response2 = packet3 uint32 uint32 uint16 rejoin_response2_uri
