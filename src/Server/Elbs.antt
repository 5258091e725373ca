-- ===== src/Server/Elbs.antt =====
-- turnserver/turnserver_main.cc: class ElbsConnection, which asks the ELBS for the address of an
-- edge server, connects to it, and keeps that connection alive.
--
-- A socket is a number. What the sockets, the clock and the resolver answer during an event is
-- `Outside`; what the object does to sockets is recorded in `closed`, `sent` and `edges`. A fault
-- (a null pointer, a read outside the memory) is `none`.

pub mod Report
pub mod Quiet
pub mod Rate
pub mod Ticking
pub mod Response
use turnserver_v.Server.Elbs.Report.{ArgusReportHead, head_bytes, report_packet, sizeof_head}
use turnserver_v.Base.{
  ℕ, ◌+◌, ◌*◌, ◌/◌, ◌%◌, ◌^◌, ◌≡◌, Bool, true, false, ◌&&◌, List, [], ◌∷◌, ◌++◌, map, Option, none,
  some, ◌>>=◌, ltb, ◌==◌, if◌then◌else◌, length, le_bytes,
}
use turnserver_v.Wire.Packer.{Cell}
use turnserver_v.Wire.Unpacker.{Unpacker, pop_uint16, rewind}
use turnserver_v.Wire.Unpacker
use turnserver_v.Wire.Transfer.{send}
use turnserver_v.Packet.Two.{Packet2}
use turnserver_v.Packet.Elbs.{
  RejoinRequestProtocol, rejoin_request, rejoin_response, rejoin_request_uri, rejoin_response_uri,
  elbs_server_type,
}
use turnserver_v.Server.Thread.{Thread, again}

abbrev pub elbs_timer : ℕ
elbs_timer = 2

abbrev pub argus_timer : ℕ
argus_timer = 3

abbrev pub argus_ping_length : ℕ
argus_ping_length = 2

-- What happens outside during one event. `hosts` is what resolve_host gives, each address with the
-- socket that WorkerTCPSocket::Create makes for it; `created` is the socket for an edge server.
-- The reports are the bytes that Thrift serialises.
pub record Outside : Type 0 where
  pub now : ℕ
  pub hosts : List (ℕ × Option ℕ)
  pub created : Option ℕ
  pub same_local_address : ℕ → ℕ → Bool
  pub is_up : ℕ → Bool
  pub quit_report : List ℕ
  pub connect_report : List ℕ

-- An edge server that connectEdgeServer got a socket for, and when.
pub record Attempt : Type 0 where
  pub at : ℕ
  pub ip : ℕ
  pub port : ℕ
  pub socket : ℕ

-- `network_to_host32` is rtc's NetworkToHost32.
module _ (rtc : Thread) (network_to_host32 : ℕ → ℕ) where
  open rtc use {Queue, post_delayed}

  pub record ElbsConnection : Type 0 where
    pub thread : Queue
    pub elbs_socket : List ℕ
    pub socket_connecting : Option ℕ
    pub socket : Option ℕ
    pub connect_ip : ℕ
    pub connect_port : ℕ
    pub last_connect_ts : ℕ
    pub ping_pkg : List ℕ
    pub closed : List ℕ
    pub sent : List (ℕ × List Cell)
    pub edges : List Attempt

  unfoldable pub init : Queue → ElbsConnection
  init q = record {
    thread = q;
    elbs_socket = [];
    socket_connecting = none;
    socket = none;
    connect_ip = 0;
    connect_port = 0;
    last_connect_ts = 0;
    ping_pkg = [];
    closed = [];
    sent = [];
    edges = [];
  }

  abbrev pub close_socket : ℕ → ElbsConnection → ElbsConnection
  close_socket s e = record e { closed = e.closed ++ (s ∷ []) }

  abbrev pub send_on : ℕ → List Cell → ElbsConnection → ElbsConnection
  send_on s bs e = record e { sent = e.sent ++ ((s, bs) ∷ []) }

  unfoldable pub connect_elbs : Option ℕ → ElbsConnection → ElbsConnection
  connect_elbs none e = e
  connect_elbs (some s) e = record e { elbs_socket = e.elbs_socket ++ (s ∷ []) }

  unfoldable pub connect_each : List (ℕ × Option ℕ) → ElbsConnection → ElbsConnection
  connect_each [] e = e
  connect_each ((ip, created) ∷ hosts) e = connect_each hosts (connect_elbs created e)

  unfoldable pub join_elbs : Outside → ElbsConnection → ElbsConnection
  join_elbs w e = connect_each w.hosts (record e { elbs_socket = [] })

  unfoldable pub start : Outside → ElbsConnection → ElbsConnection
  start w e = join_elbs w (record e {
    ping_pkg = le_bytes 2 argus_ping_length;
    thread = post_delayed (3 * 1000) argus_timer (post_delayed (60 * 1000) elbs_timer e.thread);
  })

  unfoldable pub connect_edge_server : Outside → Option ℕ → ElbsConnection → Bool × ElbsConnection
  connect_edge_server w none e = (false, e)
  connect_edge_server w (some s) e = (
    true,
    record e {
      socket_connecting = some s;
      edges = record { at = w.now; ip = e.connect_ip; port = e.connect_port; socket = s } ∷ e.edges;
    },
  )

  abbrev pub noted : ℕ → Bool × ElbsConnection → ElbsConnection
  noted now (connected, e) = if connected then record e { last_connect_ts = now } else e

  -- OnResponsePacket from the unmarshalled response on.
  unfoldable pub rejoin_answered : Outside → ℕ → ℕ → ℕ → ElbsConnection → ElbsConnection
  rejoin_answered w s ip port e =
      let e' : ElbsConnection = record e {
        connect_ip = network_to_host32 ip;
        connect_port = port;
      } in
      if ltb w.now (e.last_connect_ts + 3000)
      then close_socket s e
      else if (network_to_host32 ip == e.connect_ip) && (port == e.connect_port)
      then e
      else close_socket s (noted w.now (connect_edge_server w w.created e'))

  -- `mem` is the memory at `data`, of which `size` bytes were received.
  unfoldable pub on_response_packet :
      Outside → ℕ → List ℕ → ℕ → ElbsConnection → Option ElbsConnection
  on_response_packet w s mem size e = if ltb size 4 then some e else (do
    u ← Unpacker.init mem size false
    (service_type, u) ← pop_uint16 u
    (uri, u) ← pop_uint16 u
    u ← rewind u
    if uri == rejoin_response_uri
        then (do
          (response, u) ← rejoin_response.pop rejoin_response.blank u
          some (rejoin_answered w s response.member2 response.member3 e))
        else some e)

  abbrev pub request : ElbsConnection → RejoinRequestProtocol
  request e = record {
    head = record { server_type = elbs_server_type; uri = rejoin_request_uri };
    member1 = e.connect_ip;
    member2 = e.connect_port;
  }

  unfoldable pub on_elbs_socket_connect : ℕ → ElbsConnection → Option ElbsConnection
  on_elbs_socket_connect s e = do bs ← send rejoin_request (request e); some (send_on s bs e)

  -- OnElbsSocketClose and OnArgusSocketClose.
  unfoldable pub on_socket_close : ℕ → ElbsConnection → ElbsConnection
  on_socket_close s e = close_socket s e

  -- SendQuitReport and SendConnectReport, from the serialised item on.
  unfoldable pub send_report : ℕ → Option ℕ → List ℕ → ElbsConnection → ElbsConnection
  send_report now none payload e = e
  send_report now (some s) [] e = e
  send_report now (some s) (b ∷ payload) e =
      send_on s (map some (report_packet now (b ∷ payload))) e

  unfoldable pub close_old : Option ℕ → ElbsConnection → ElbsConnection
  close_old none e = e
  close_old (some s) e = close_socket s e

  unfoldable pub adopt : Outside → ℕ → ElbsConnection → ElbsConnection
  adopt w c e =
      let e' : ElbsConnection = record (close_old e.socket e) { socket = some c } in
      send_report w.now (some c) w.connect_report (send_report w.now (some c) w.quit_report e')

  unfoldable pub on_argus_socket_connect : Outside → ℕ → ElbsConnection → Option ElbsConnection
  on_argus_socket_connect w s e = do
    c ← e.socket_connecting
    some (if w.same_local_address s c then adopt w c e else close_socket s e)

  unfoldable pub repost : ℕ → ℕ → ElbsConnection → ElbsConnection
  repost delay m e = record e { thread = again rtc delay m e.thread }

  unfoldable pub argus_ping : Outside → Option ℕ → ElbsConnection → ElbsConnection
  argus_ping w none e = e
  argus_ping w (some s) e = if w.is_up s then send_on s (map some e.ping_pkg) e else e

  unfoldable pub on_message : Outside → ℕ → ElbsConnection → ElbsConnection
  on_message w m e =
      if m == elbs_timer
      then repost (60 * 1000) elbs_timer (join_elbs w e)
      else if m == argus_timer
      then repost (3 * 1000) argus_timer (argus_ping w e.socket e)
      else e

-- What the thread calls this object for.
pub data Event : Type 0 where
  response_packet : ℕ → List ℕ → ℕ → Event
  elbs_socket_connect : ℕ → Event
  argus_socket_connect : ℕ → Event
  socket_close : ℕ → Event
  message : ℕ → Event

module _ (rtc : Thread) (network_to_host32 : ℕ → ℕ) where
  open rtc use {take}

  unfoldable pub step :
      Outside
      → Event
      → ElbsConnection rtc network_to_host32
      → Option (ElbsConnection rtc network_to_host32)
  step w (response_packet s mem size) e = on_response_packet rtc network_to_host32 w s mem size e
  step w (elbs_socket_connect s) e = on_elbs_socket_connect rtc network_to_host32 s e
  step w (argus_socket_connect s) e = on_argus_socket_connect rtc network_to_host32 w s e
  step w (socket_close s) e = some (on_socket_close rtc network_to_host32 s e)
  step w (message m) e =
      some (on_message rtc network_to_host32 w m (record e { thread = take m e.thread }))

  -- What the events since start() can lead to.
  pub data Reachable : ElbsConnection rtc network_to_host32 → Type 0 where
    started :
        (w : Outside) (q : rtc.Queue)
        → ((m : ℕ) → rtc.pending q m ≡ 0)
        → Reachable (start rtc network_to_host32 w (init rtc network_to_host32 q))
    stepped :
        {e e' : ElbsConnection rtc network_to_host32} (w : Outside) (x : Event)
        → Reachable e
        → step w x e ≡ some e'
        → Reachable e'
