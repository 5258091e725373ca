-- ===== src/Net/Server.antt =====
-- turnserver/network/tcp_server.h and tcp_server.cpp: class TcpServer, a socket that listens and hands
-- the connections it accepts to a callback.
--
-- What the system and libevent answer is an argument. `calls` is what was done with the socket, the
-- last call first: `listening` stands for a listener that was made, and the others for calls that were
-- tried.
pub mod Life
use turnserver_v.Base.{
  ℕ, Bool, true, false, List, [], ◌∷◌, ◌++◌, Option, none, some, ◌>>=◌, ◌>>◌, assert, if◌then◌else◌,
}
use turnserver_v.Address.Host.{ByteOrder, SockaddrIn}

-- evconnlistener_new(base_, AcceptCallback, this, LEV_OPT_CLOSE_ON_FREE, backlog, fd_)
pub record Listener : Type 0 where
  pub fd : ℕ
  pub close_on_free : Bool

pub data Call : Type 0 where
  keep_alive : Call
  reuse_address : Call
  bound : SockaddrIn → Call
  listening : Call
  mptcp : Bool → Call
  reuse_port : Call
  handed_over : ℕ → Call

pub record TcpServer : Type 0 where
  pub fd : ℕ
  pub conn : Option Listener
  pub callback : Bool
  pub calls : List Call

-- What setsockopt, evutil_make_listen_socket_reuseable, bind and evconnlistener_new grant.
pub record Granted : Type 0 where
  pub kept_alive : Bool
  pub reusable : Bool
  pub binds : Bool
  pub listens : Bool

unfoldable pub call : Call → TcpServer → TcpServer
call c s = record s { calls = c ∷ s.calls }

-- The constructor leaves the program, where the system grants no socket or does not set it.
unfoldable pub init : Option ℕ → Bool → Bool → Option TcpServer
init created nonblocking callback = do
  fd ← created
  assert nonblocking
  some (record { fd = fd; conn = none; callback = callback; calls = [] })

unfoldable pub bind_and_listen :
    ByteOrder → ℕ → ℕ → Granted → TcpServer → Option Listener × TcpServer
bind_and_listen o port address g s =
    let sin : SockaddrIn = record { sin_addr = o.htonl address; sin_port = o.htons port } in
    let kept = call keep_alive s in
    let reusable = call reuse_address kept in
    let tried = call (bound sin) reusable in
    let listens = call listening tried in
    if g.kept_alive
    then (if g.reusable
        then (if g.binds
            then (if g.listens
                then (some (record { fd = s.fd; close_on_free = true }), listens)
                else (none, tried))
            else (none, tried))
        else (none, reusable))
    else (none, kept)

-- Where there is a listener it only writes to the log.
unfoldable pub listen_if :
    Option Listener → ByteOrder → ℕ → ℕ → Granted → TcpServer → Bool × TcpServer
listen_if (some l) o port address g s = (false, s)
listen_if none o port address g s =
    let r = bind_and_listen o port address g s in
    (elim r.0 [ none ↦ false | some l ↦ true ], record r.1 { conn = r.0 })

unfoldable pub listen_on : ByteOrder → ℕ → ℕ → Granted → TcpServer → Bool × TcpServer
listen_on o port address g s = listen_if s.conn o port address g s

unfoldable pub register_callback : Bool → TcpServer → TcpServer
register_callback callback s = record s { callback = callback }

-- An option is set before the socket listens, or not at all.
unfoldable pub set_option : Option Listener → Call → Bool → TcpServer → Bool × TcpServer
set_option (some l) c granted s = (false, s)
set_option none c granted s = (granted, call c s)

unfoldable pub enable_mptcp : Bool → Bool → TcpServer → Bool × TcpServer
enable_mptcp enable granted s = set_option s.conn (mptcp enable) granted s

unfoldable pub enable_reuse_port : Bool → TcpServer → Bool × TcpServer
enable_reuse_port granted s = set_option s.conn reuse_port granted s

-- AcceptCallback, which the listener calls: `socklen` tells whether the address is a sockaddr_in.
-- Without a callback the descriptor is neither kept nor closed.
unfoldable pub accept_connection : ℕ → Bool → TcpServer → Option TcpServer
accept_connection fd socklen s = do
  l ← s.conn
  assert socklen
  some (if s.callback then call (handed_over fd) s else s)

-- getsockname's answer
unfoldable pub get_listen_port : ByteOrder → Option SockaddrIn → ℕ
get_listen_port o none = 0
get_listen_port o (some sin) = o.ntohs sin.sin_port

-- The destructor: the descriptors that are closed, in order. `evconnlistener_free` tells which ones
-- the library closes when it frees a listener.
unfoldable pub destroy : (Listener → List ℕ) → TcpServer → List ℕ
destroy evconnlistener_free s =
    elim s.conn [ none ↦ [] | some l ↦ evconnlistener_free l ] ++ (s.fd ∷ [])
