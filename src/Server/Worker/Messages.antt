-- ===== src/Server/Worker/Messages.antt =====
-- turnserver_main.cc: what Worker and its manager say to each other in JSON.
use Prim.Native.String.{String}
use turnserver_v.Base.{ℕ, Bool, List, [], ◌∷◌, Option, ◌==◌, if◌then◌else◌}
use turnserver_v.Packet.Elbs.{WorkerManagerComm, uap_server_type, uap_uri}

-- What a JsonWrapper is set to: the members of an object, of which one may be an object again.
pub data Scalar : Type 0 where
  string_value : String → Scalar
  int_value : ℕ → Scalar
  double_value : ℕ → Scalar

pub data Value : Type 0 where
  scalar_value : Scalar → Value
  object_value : List (String × Scalar) → Value

abbrev pub Object : Type 0
Object = List (String × Value)

pub record JsonLibrary : Type 1 where
  pub Document : Type 0
  pub parse : List ℕ → Document
  pub get_string : Document → String → Option String
  pub get_int : Document → String → Option ℕ
  pub to_string : Object → List ℕ

-- The global variables.
pub record Ports : Type 0 where
  pub udpport : ℕ
  pub tcpport : ℕ
  pub pid : ℕ

-- userCount, ingress and egress
pub record Load : Type 0 where
  pub user_count : ℕ
  pub ingress : ℕ
  pub egress : ℕ

abbrev pub str : String → Value
str s = scalar_value (string_value s)

abbrev pub int : ℕ → Value
int n = scalar_value (int_value n)

abbrev pub double : ℕ → Value
double n = scalar_value (double_value n)

abbrev pub connect_object : ℕ → ℕ → Object
connect_object pid now =
    ("command", str "connect")
    ∷ ("name", str "webrtc_proxy")
    ∷ ("pid", int pid)
    ∷ ("ts", double now)
    ∷ ("appId", str "")
    ∷ ("cname", str "")
    ∷ ("uid", str "")
    ∷ ("minSdkVersion", str "2.3.1")
    ∷ ("maxSdkVersion", str "2.6.2")
    ∷ []

abbrev pub ping_object : Load → ℕ → Object
ping_object load now =
    ("command", str "ping")
    ∷ ("state", str "idle")
    ∷ ("ts", double now)
    ∷ (
      "workload",
      object_value (
          ("cpu", int_value 0)
          ∷ ("ingress", int_value load.ingress)
          ∷ ("egress", int_value load.egress)
          ∷ ("userCount", int_value load.user_count)
          ∷ []),
    )
    ∷ []

-- The texts of a request that its answer repeats.
pub record Requested : Type 0 where
  pub app_id : String
  pub cname : String
  pub uid : String
  pub sid : String

abbrev pub response_object : Ports → Requested → ℕ → ℕ → ℕ → Object
response_object ports r seq request_id now =
    ("command", str "response")
    ∷ ("appId", str r.app_id)
    ∷ ("cname", str r.cname)
    ∷ ("uid", str r.uid)
    ∷ ("sid", str r.sid)
    ∷ ("seq", int seq)
    ∷ ("ts", double now)
    ∷ ("requestId", int request_id)
    ∷ ("code", int 200)
    ∷ ("reason", str "Success")
    ∷ (
      "serverResponse",
      object_value (
          ("udpport", int_value ports.udpport)
          ∷ ("tcpport", int_value ports.tcpport)
          ∷ ("username", string_value "test")
          ∷ ("password", string_value "111111")
          ∷ []),
    )
    ∷ []

abbrev pub comm : List ℕ → WorkerManagerComm
comm json = record {
  head = record { server_type = uap_server_type; uri = uap_uri };
  member1 = json;
}

-- c_str(), which a reader takes to end at the first NUL.
unfoldable pub c_str : List ℕ → List ℕ
c_str [] = []
c_str (b ∷ bs) = let rest = c_str bs in if b == 0 then [] else b ∷ rest

-- AsyncTCPSocket::State, as far as it is told apart.
pub data SocketState : Type 0 where
  state_connected state_closed state_other : SocketState

-- What happens outside during an event: `created` is what WorkerTCPSocket::Create gives, `reconnects`
-- what ReConnect answers.
pub record Outside : Type 0 where
  pub now : ℕ
  pub created : Option ℕ
  pub state : ℕ → SocketState
  pub reconnects : ℕ → Bool
  pub allocation_count : ℕ
  pub send_bandwidth : ℕ
  pub recv_bandwidth : ℕ
