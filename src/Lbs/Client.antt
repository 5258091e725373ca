-- ===== src/Lbs/Client.antt =====
-- turnserver/lbs/uni_lbs_client.cpp: class UniLbsClient, which keeps one UniLbsConnection for each
-- address of the LBS.
--
-- A UniLbsConnectionPtr is `none` when it is null, as after a move. An unordered_map is a list of
-- its entries, in the order that it is walked in.
pub mod Maps
pub mod Rounds
pub mod Reload
pub mod Visitor
use turnserver_v.Base.{
  ℕ, ◌+◌, ◌*◌, ◌%◌, ◌^◌, max, Bool, true, false, List, [], ◌∷◌, ◌++◌, map, Option, none, some,
  ◌>>=◌, ◌==◌, if◌then◌else◌,
}
use turnserver_v.Address.Ipv4.{NewSockAddress4}
use turnserver_v.Lbs.Client.Maps.{find, put}
use turnserver_v.Lbs.Connection.{ChannelInfo}

-- The object behind a UniLbsConnectionPtr, by the number of its creation.
pub record Endpoint : Type 0 where
  pub id : ℕ
  pub address : NewSockAddress4

abbrev pub Connections : Type 0
Connections = List (ℕ × Option Endpoint)

-- `timer` is the interval of the running timer, in milliseconds; `started` are the endpoints on
-- which Connect was called.
pub record LbsClient : Type 0 where
  pub lbs_port : ℕ
  pub service_id : ℕ
  pub service_port : ℕ
  pub reloading_interval : ℕ
  pub timer : Option ℕ
  pub connections : Connections
  pub fresh : ℕ
  pub started : List ℕ

unfoldable pub init : ℕ → LbsClient
init lbs_port = record {
  lbs_port = lbs_port;
  service_id = 0;
  service_port = 0;
  reloading_interval = 600;
  timer = none;
  connections = [];
  fresh = 0;
  started = [];
}

unfoldable set_reloading_interval : ℕ → LbsClient → LbsClient
set_reloading_interval seconds c = record c { reloading_interval = max seconds 100 }

-- The loop's state: `connections_`, `new_connections`, and the client for what it creates.
pub record Loop : Type 0 where
  pub old : Connections
  pub next : Connections
  pub client : LbsClient

-- new UniLbsConnection(...), Connect(), and new_connections[ip] = move(conn)
unfoldable pub create : NewSockAddress4 → Loop → Loop
create addr s =
    let c = s.client in
    record s {
      next = put addr.ip (some (record { id = c.fresh; address = addr })) s.next;
      client = record c { fresh = c.fresh + 1; started = c.started ++ (c.fresh ∷ []) };
    }

-- new_connections.insert(make_pair(ip, move(conn_iter->second))), unless the ip is there.
unfoldable pub move_over : ℕ → Option Endpoint → Option (Option Endpoint) → Loop → Loop
move_over ip ptr (some there) s = s
move_over ip ptr none s = record s { old = put ip none s.old; next = put ip ptr s.next }

unfoldable pub reload_one : NewSockAddress4 → Option (Option Endpoint) → Loop → Loop
reload_one addr none s = create addr s
reload_one addr (some ptr) s = move_over addr.ip ptr (find addr.ip s.next) s

unfoldable pub reload_all : List NewSockAddress4 → Loop → Loop
reload_all [] s = s
reload_all (addr ∷ addrs) s = reload_all addrs (reload_one addr (find addr.ip s.old) s)

unfoldable pub reload_lbs_addresses : List NewSockAddress4 → LbsClient → LbsClient
reload_lbs_addresses addrs c =
    let s = reload_all addrs (record { old = c.connections; next = []; client = c }) in
    record s.client { connections = s.next }

abbrev loopback : ℕ
loopback = 0x7f000001

abbrev pub with_port : ℕ → ℕ → NewSockAddress4
with_port port ip = record { ip = ip; port = port }

-- `ips` is what ResolveHost gives.
unfoldable pub reload_lbs_hosts : List ℕ → LbsClient → LbsClient
reload_lbs_hosts [] c = reload_lbs_addresses (with_port c.lbs_port loopback ∷ []) c
reload_lbs_hosts (ip ∷ ips) c = reload_lbs_addresses (map (with_port c.lbs_port) (ip ∷ ips)) c

unfoldable pub set_service_information : ℕ → ℕ → List ℕ → LbsClient → LbsClient
set_service_information service_id service_port ips c =
    let c' =
      reload_lbs_hosts ips (record c { service_id = service_id; service_port = service_port }) in
    record c' { timer = some (c'.reloading_interval * 1000 % 2 ^ 32) }

unfoldable pub update_lbs_addresses : List NewSockAddress4 → LbsClient → LbsClient
update_lbs_addresses addrs c =
    let c' = record c { timer = none } in
    if c.service_id == 0 then c' else reload_lbs_addresses addrs c'

-- DoChannelCreate and DoChannelDestroy: the endpoints that get the channel, in the order of the
-- map. A null pointer is a fault.
unfoldable pub each_connection : Connections → Option (List Endpoint)
each_connection [] = some []
each_connection ((ip, none) ∷ m) = none
each_connection ((ip, some k) ∷ m) = do ks ← each_connection m; some (k ∷ ks)

unfoldable pub do_channel_create : ChannelInfo → LbsClient → Option (List (Endpoint × ChannelInfo))
do_channel_create channel c = do
  ks ← each_connection c.connections
  some (map (λ k. (k, channel)) ks)
