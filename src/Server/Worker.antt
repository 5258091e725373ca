-- ===== src/Server/Worker.antt =====
-- turnserver/turnserver_main.cc: class Worker, which registers this server with its worker manager
-- and answers the manager's requests for a port and a password, in JSON.
--
-- cJSON, with JsonWrapper, is an interface; a double is the number that it is set from, an int the
-- number below 2 ^ 32 with the same bits. A socket is a number; an int that no one has set is a fault
-- when it is read (`none`).
pub mod Messages
pub mod Quiet
pub mod Ticking
pub mod Answer
use turnserver_v.Server.Worker.Messages.{
  JsonLibrary, Load, Object, Outside, Ports, Requested, Scalar, SocketState, Value, c_str, comm,
  connect_object, double, double_value, int, int_value, object_value, ping_object, response_object,
  scalar_value, state_closed, state_connected, state_other, str, string_value,
}
use Prim.Native.String.{String}
use turnserver_v.Base.{
  ℕ, ◌+◌, ◌*◌, ◌/◌, ◌%◌, ◌^◌, ◌≡◌, Bool, true, false, List, [], ◌∷◌, ◌++◌, Option, none, some,
  ◌>>=◌, ◌==◌, if◌then◌else◌,
}
use text.Mathlib.Text.{◌==◌ as str_eq}
use turnserver_v.Wire.Packer.{Cell}
use turnserver_v.Wire.Unpacker.{Unpacker, pop_uint16, pop_string}
use turnserver_v.Wire.Unpacker
use turnserver_v.Wire.Transfer.{send}
use turnserver_v.Packet.Elbs.{WorkerManagerComm, worker_manager_comm, uap_server_type, uap_uri}
use turnserver_v.Server.Thread.{Thread, again}

abbrev pub worker_timer : ℕ
worker_timer = 0

abbrev pub bandwidth_timer : ℕ
bandwidth_timer = 1

abbrev pub log_timer : ℕ
log_timer = 4

-- A std::string that stays empty if there is no such member.
abbrev pub or_empty : Option String → String
or_empty none = ""
or_empty (some s) = s

module _ (rtc : Thread) (cjson : JsonLibrary) (ports : Ports) where
  open rtc use {Queue, post_delayed}
  open cjson use {Document, parse, get_string, get_int, to_string}

  -- `load` is `none` until the three members are first set.
  pub record Worker : Type 0 where
    pub thread : Queue
    pub socket : Option ℕ
    pub load : Option Load
    pub sent : List (ℕ × List Cell)
    pub closed : List ℕ

  unfoldable pub init : Queue → Worker
  init q = record { thread = q; socket = none; load = none; sent = []; closed = [] }

  -- if(socket != nullptr) socket_ = socket;
  unfoldable pub take_socket : Option ℕ → Worker → Worker
  take_socket none k = k
  take_socket (some s) k = record k { socket = some s }

  unfoldable pub add_worker_manager_socket : Outside → Worker → Worker
  add_worker_manager_socket w k =
      let k' = take_socket w.created k in
      record k' {
        thread =
            post_delayed 500 bandwidth_timer
              (post_delayed (60 * 1000) log_timer (post_delayed 3000 worker_timer k'.thread));
      }

  unfoldable pub send_in_state : SocketState → ℕ → List Cell → Worker → Worker
  send_in_state state_connected s bs k = record k { sent = k.sent ++ ((s, bs) ∷ []) }
  send_in_state state_closed s bs k = k
  send_in_state state_other s bs k = k

  unfoldable pub send_message : Outside → Option ℕ → List Cell → Worker → Worker
  send_message w none bs k = k
  send_message w (some s) bs k = send_in_state (w.state s) s bs k

  -- WorkerManagerComm comm; comm.json = ...; Packer pk; pk << comm; pk.Pack(); sendMessage(...)
  unfoldable pub send_json : Outside → Object → Worker → Option Worker
  send_json w o k = do
    bs ← send worker_manager_comm (comm (to_string o))
    some (send_message w k.socket bs k)

  unfoldable pub send_connect_msg : Outside → Worker → Option Worker
  send_connect_msg w k = send_json w (connect_object ports.pid w.now) k

  unfoldable pub send_ping_msg : Outside → Worker → Option Worker
  send_ping_msg w k = do load ← k.load; send_json w (ping_object load w.now) k

  unfoldable pub answer : Outside → Document → Worker → Option Worker
  answer w json k = do
    seq ← get_int json "seq"
    request_id ← get_int json "requestId"
    send_json w
        (response_object ports
          (record {
            app_id = or_empty (get_string json "appId");
            cname = or_empty (get_string json "cname");
            uid = or_empty (get_string json "uid");
            sid = or_empty (get_string json "sid");
          })
          seq request_id w.now)
        k

  unfoldable pub on_command : Outside → Document → Option String → Worker → Option Worker
  on_command w json none k = some k
  on_command w json (some command) k = if str_eq command "request" then answer w json k else some k

  -- `mem` is the memory at `data`, of which `size` bytes were received.
  unfoldable pub on_worker_manager_packet : Outside → List ℕ → ℕ → Worker → Option Worker
  on_worker_manager_packet w mem size k = do
    u ← Unpacker.init mem size false
    (service_type, u) ← pop_uint16 u
    (uri, u) ← pop_uint16 u
    (jcstr, u) ← pop_string u
    on_command w (parse (c_str jcstr)) (get_string (parse (c_str jcstr)) "command") k

  unfoldable pub on_socket_connect : Outside → Worker → Option Worker
  on_socket_connect w k = send_connect_msg w k

  unfoldable pub on_socket_close : ℕ → Worker → Worker
  on_socket_close s k = record k { closed = k.closed ++ (s ∷ []) }

  unfoldable pub tick_in_state : SocketState → Outside → ℕ → Worker → Option Worker
  tick_in_state state_connected w s k = send_ping_msg w k
  tick_in_state state_closed w s k = some (take_socket w.created k)
  tick_in_state state_other w s k = if w.reconnects s then send_ping_msg w k else some k

  unfoldable pub worker_tick : Outside → Option ℕ → Worker → Option Worker
  worker_tick w none k = some (take_socket w.created k)
  worker_tick w (some s) k = tick_in_state (w.state s) w s k

  unfoldable pub bandwidth_get : Outside → Worker → Worker
  bandwidth_get w k = record k {
    load = some (record {
      user_count = w.allocation_count / 2;
      ingress = w.send_bandwidth;
      egress = w.recv_bandwidth;
    });
  }

  abbrev pub repost : ℕ → ℕ → Worker → Worker
  repost delay m k = record k { thread = again rtc delay m k.thread }

  unfoldable pub on_message : Outside → ℕ → Worker → Option Worker
  on_message w m k =
      if m == worker_timer
      then (do k ← worker_tick w k.socket k; some (repost 3000 worker_timer k))
      else if m == bandwidth_timer
      then some (repost 500 bandwidth_timer (bandwidth_get w k))
      else if m == log_timer
      then some (repost (60 * 1000) log_timer k)
      else some k

-- What the thread calls this object for.
pub data Event : Type 0 where
  worker_manager_packet : List ℕ → ℕ → Event
  socket_connect : Event
  socket_close : ℕ → Event
  message : ℕ → Event

module _ (rtc : Thread) (cjson : JsonLibrary) (ports : Ports) where
  unfoldable pub step : Outside → Event → Worker rtc cjson ports → Option (Worker rtc cjson ports)
  step w (worker_manager_packet mem size) k = on_worker_manager_packet rtc cjson ports w mem size k
  step w socket_connect k = on_socket_connect rtc cjson ports w k
  step w (socket_close s) k = some (on_socket_close rtc cjson ports s k)
  step w (message m) k = on_message rtc cjson ports w m (record k { thread = rtc.take m k.thread })

  -- What the events since AddWorkerManagerSocket can lead to.
  pub data Reachable : Worker rtc cjson ports → Type 0 where
    added :
        (w : Outside) (q : rtc.Queue)
        → ((m : ℕ) → rtc.pending q m ≡ 0)
        → Reachable (add_worker_manager_socket rtc cjson ports w (init rtc cjson ports q))
    stepped :
        {k k' : Worker rtc cjson ports} (w : Outside) (x : Event)
        → Reachable k
        → step w x k ≡ some k'
        → Reachable k'
