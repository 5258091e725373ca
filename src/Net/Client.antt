-- ===== src/Net/Client.antt =====
-- turnserver/network/tcp_client.cpp: class TcpClient, which keeps a connection to a server alive.
--
-- A bufferevent is the number that it got when it was made, and `live` lists those that are not
-- freed: to free another is a fault (`none`), as a failed assertion is. Every handler calls the
-- object behind `callback_` as its last action, so `calls` notes what the object is told, and what
-- it then does to the client is a next event. In Connect the object is told of a refusal in the
-- middle; there it is taken to leave the client alone. Times are seconds; like the source, the model
-- takes for granted that they stay below 2 ^ 31.
pub mod Phases
pub mod Events
pub mod Retry
use turnserver_v.Base.{
  ℕ, ◌+◌, ◌/◌, ◌%◌, ◌^◌, min, max, Bool, true, false, not, ◌&&◌, List, [], ◌∷◌, ◌++◌, Option, none,
  some, ◌>>=◌, ◌>>◌, assert, ltb, leb, ◌==◌, if◌then◌else◌,
}

abbrev pub reconnect_timeout_default : ℕ
reconnect_timeout_default = 10

abbrev pub short_connection_interval : ℕ
short_connection_interval = 60

abbrev pub max_timeout : ℕ
max_timeout = 300

-- What TcpClientCallback is told.
pub data Call : Type 0 where
  on_connect_call : Bool → Call
  on_packet_received_call : ℕ → ℕ → Call
  on_socket_error_call time_to_ping_call : Call

-- `backoff` multiplies by the float `backoff_` and cuts the product to an int32_t.
pub record Client : Type 0 where
  pub local_port : ℕ
  pub pending : Option ℕ
  pub conn : Option ℕ
  pub connecting : Bool
  pub reconnect_timeout : ℕ
  pub last_try_ts : ℕ
  pub next_try_ts : ℕ
  pub backoff : ℕ → ℕ
  pub next_try_interval : ℕ
  pub last_active_ts : ℕ
  pub live : List ℕ
  pub fresh : ℕ
  pub calls : List Call

-- What the system answers in Connect: whether there is a socket, whether it can be made
-- non-blocking, whether the local port can be bound, and whether bufferevent_socket_connect starts.
pub record Attempt : Type 0 where
  pub socket : Bool
  pub nonblocking : Bool
  pub bound : Bool
  pub started : Bool

unfoldable pub init : ℕ → ℕ → (ℕ → ℕ) → Client
init now local_port backoff = record {
  local_port = local_port;
  pending = none;
  conn = none;
  connecting = false;
  reconnect_timeout = reconnect_timeout_default;
  last_try_ts = 0;
  next_try_ts = 0;
  backoff = backoff;
  next_try_interval = reconnect_timeout_default;
  last_active_ts = now;
  live = [];
  fresh = 0;
  calls = [];
}

unfoldable pub set_timeout : ℕ → Client → Client
set_timeout seconds c = record c { reconnect_timeout = max 5 seconds }

unfoldable pub set_backoff : (ℕ → ℕ) → Client → Client
set_backoff backoff c = record c { backoff = backoff }

abbrev pub is_some : Option ℕ → Bool
is_some none = false
is_some (some b) = true

unfoldable pub is_connected : Client → Bool
is_connected c = not c.connecting && is_some c.conn

abbrev pub tell : Call → Client → Client
tell call c = record c { calls = c.calls ++ (call ∷ []) }

-- bufferevent_free
unfoldable pub free : ℕ → List ℕ → Option (List ℕ)
free b [] = none
free b (x ∷ live) =
    let rest = free b live in if x == b then some live else (do live ← rest; some (x ∷ live))

unfoldable pub schedule_next_try : ℕ → Client → Client
schedule_next_try now c =
    if leb now (c.last_try_ts + short_connection_interval)
    then record c {
      next_try_ts = now + c.next_try_interval;
      next_try_interval = min max_timeout (c.backoff c.next_try_interval);
    }
    else record c { next_try_interval = c.reconnect_timeout; next_try_ts = 0 }

-- if (conn_) { conn_->CloseAndDestroy(); conn_ = nullptr; }
unfoldable pub close_conn : Option ℕ → Client → Option Client
close_conn none c = some c
close_conn (some b) c = do live ← free b c.live; some (record c { conn = none; live = live })

unfoldable pub close_pending : Option ℕ → Client → Option Client
close_pending none c = do assert (not c.connecting); close_conn c.conn c
close_pending (some b) c = do
  assert (not (is_some c.conn))
  live ← free b c.live
  some (record c { connecting = false; pending = none; live = live })

unfoldable pub close : Client → Option Client
close c = close_pending c.pending c

-- OnConnect for the bufferevent `b` of `pending_`, with the bits BEV_EVENT_CONNECTED and
-- BEV_EVENT_ERROR of the events.
unfoldable pub connect_result : ℕ → Bool → Bool → ℕ → Client → Option Client
connect_result now connected error b c =
    if connected
    then some (
        tell (on_connect_call true)
          (record c { connecting = false; conn = some b; pending = none }))
    else if error
    then (do
      live ← free b c.live
      some (
          tell (on_connect_call false)
            (record (schedule_next_try now c) { connecting = false; pending = none; live = live })))
    else some (record c { connecting = false; pending = none })

abbrev pub event_connected : ℕ → Bool
event_connected events = ltb 0 (events / 2 ^ 7 % 2)

abbrev pub event_error : ℕ → Bool
event_error events = ltb 0 (events / 2 ^ 5 % 2)

unfoldable pub on_connect : ℕ → ℕ → Client → Option Client
on_connect now events c = do
  b ← c.pending
  assert (not (is_some c.conn))
  assert c.connecting
  connect_result now (event_connected events) (event_error events) b c

-- Connect behind the creation of the bufferevent `b`. Where bufferevent_socket_connect fails, it has
-- called OnConnect with BEV_EVENT_ERROR, as the source notes.
unfoldable pub start : ℕ → Attempt → ℕ → Client → Option (Bool × Client)
start now a b c =
    if not (c.local_port == 0) && not a.bound
    then (do
      live ← free b c.live
      some (false, record c { pending = none; connecting = false; live = live }))
    else if a.started
    then some (true, c)
    else (do c ← on_connect now 0x20 c; some (false, record c { connecting = false }))

-- ::bufferevent_socket_new
unfoldable pub new_pending : Client → Client
new_pending c = record c {
  connecting = true;
  pending = some c.fresh;
  live = c.fresh ∷ c.live;
  fresh = c.fresh + 1;
}

unfoldable pub connect : ℕ → Attempt → Client → Option (Bool × Client)
connect now a c = if c.connecting then some (true, c) else (do
  c ← close_conn c.conn (record c { last_try_ts = now; last_active_ts = now })
  if a.socket && a.nonblocking then start now a c.fresh (new_pending c) else some (false, c))

unfoldable pub on_error : ℕ → Client → Option Client
on_error now c = do c ← close (schedule_next_try now c); some (tell on_socket_error_call c)

unfoldable pub on_packet_received : ℕ → ℕ → ℕ → Client → Client
on_packet_received now server_type uri c =
    tell (on_packet_received_call server_type uri) (record c { last_active_ts = now })

unfoldable pub on_timer : ℕ → Attempt → Client → Option Client
on_timer now a c =
    if is_connected c && ltb (c.last_active_ts + c.reconnect_timeout) now
    then close (schedule_next_try now c)
    else if is_connected c
    then some (tell time_to_ping_call c)
    else if not c.connecting && leb c.next_try_ts now
    then (do (_, c) ← connect now a c; some c)
    else some c
