-- ===== src/Net/Connection/Sending.antt =====
-- turnserver/network/tcp_connection.cpp: what TcpConnection asks of its bufferevent besides reading,
-- and the addresses of its two ends.
--
-- `written` are the bytes handed to bufferevent_write, in order. What getpeername and getsockname
-- answer is an argument, `none` for an error.
use turnserver_v.Base.{
  ℕ, ◌+◌, ◌≡◌, refl, Bool, true, false, List, [], ◌++◌, map, Option, none, some, ◌>>=◌, ◌>>◌,
  assert, arith,
}
use turnserver_v.Wire.Packer.{Cell}
use turnserver_v.Wire.Packer.Written.{Fits}
use turnserver_v.Wire.Packer.Frame.{frame}
use turnserver_v.Wire.Codec.{Codec}
use turnserver_v.Wire.Transfer.{send, send-frame}
use turnserver_v.Address.Host.{SockaddrIn}
use turnserver_v.Address.Ipv4.{SocketAddress4, of_sockaddr_in}

-- `fd` is `none` for -1.
pub record Bufferevent : Type 0 where
  pub fd : Option ℕ
  pub written : List Cell
  flushes : ℕ

pub record Ends : Type 0 where
  pub bev : Option Bufferevent
  remote : SocketAddress4
  pub local : SocketAddress4

abbrev pub nowhere : SocketAddress4
nowhere = record { member1 = 0; member2 = 0 }

abbrev filled : Option SockaddrIn → SocketAddress4 → SocketAddress4
filled none old = old
filled (some a) old = of_sockaddr_in a

unfoldable fill_socket_address : Option SockaddrIn → Option SockaddrIn → Ends → Ends
fill_socket_address peer own e = record e {
  remote = filled peer e.remote;
  local = filled own e.local;
}

unfoldable set_socket_fd : ℕ → Option SockaddrIn → Option SockaddrIn → Ends → Option Ends
set_socket_fd fd peer own e = do
  assert (elim e.bev [ none ↦ true | some b ↦ false ])
  some (
      fill_socket_address peer own
        (record e { bev = some (record { fd = some fd; written = []; flushes = 0 }) }))

-- TcpConnection(base, fd, mode)
unfoldable of_fd : Option ℕ → Option SockaddrIn → Option SockaddrIn → Option Ends
of_fd none peer own = some (record { bev = none; remote = nowhere; local = nowhere })
of_fd (some fd) peer own =
    set_socket_fd fd peer own (record { bev = none; remote = nowhere; local = nowhere })

-- TcpConnection(base, bev, mode)
unfoldable of_bev : Bufferevent → Option SockaddrIn → Option SockaddrIn → Ends
of_bev bev peer own =
    fill_socket_address peer own (record { bev = some bev; remote = nowhere; local = nowhere })

abbrev pub wrote : List Cell → Option Bufferevent → Option Bufferevent
wrote bytes none = none
wrote bytes (some b) = some (record b { written = b.written ++ bytes })

-- On a closed connection nothing happens.
unfoldable pub send_raw_data : List Cell → Ends → Ends
send_raw_data bytes e = record e { bev = wrote bytes e.bev }

abbrev flushed : Option Bufferevent → Option Bufferevent
flushed none = none
flushed (some b) = some (record b { flushes = b.flushes + 1 })

unfoldable flush : Ends → Ends
flush e = record e { bev = flushed e.bev }

abbrev released : Option Bufferevent → Option ℕ × Option Bufferevent
released none = (none, none)
released (some b) = (b.fd, some (record b { fd = none }))

-- The descriptor, `none` for -1; the bufferevent stays without it.
unfoldable detach : Ends → Option ℕ × Ends
detach e = let r = released e.bev in (r.0, record e { bev = r.1 })

-- The call of setsockopt is commented out.
unfoldable enable_tcp_no_delay : Ends → Bool
enable_tcp_no_delay e = elim (released e.bev).0 [ none ↦ false | some fd ↦ true ]

unfoldable close : Ends → Ends
close e = record e { bev = none }

module _ {A : Type 0} (c : Codec A) where
  -- The packet is packed only where there is a bufferevent.
  unfoldable pub send_if : Option Bufferevent → A → Ends → Option Ends
  send_if none a e = some e
  send_if (some b) a e = do bytes ← send c a; some (send_raw_data bytes e)

  unfoldable pub send_packet : A → Ends → Option Ends
  send_packet a e = send_if e.bev a e

  send_if-send_raw_data :
      (bev : Option Bufferevent) (a : A) (e : Ends)
      → e.bev ≡ bev
      → c.IsValid a
      → Fits (c.encode a)
      → send_if bev a e ≡ some (send_raw_data (map some (frame (c.encode a))) e)
  unfolding send_if send_raw_data
  send_if-send_raw_data none a e closed h fits = ground arith
  send_if-send_raw_data (some b) a e there h fits = rw (send-frame c a h fits) refl

  -- SendPacket of a valid value that fits into a packet does what SendRawData of the packet's bytes
  -- does, on an open connection and on a closed one.
  send_packet-send_raw_data :
      (a : A) (e : Ends)
      → c.IsValid a
      → Fits (c.encode a)
      → send_packet a e ≡ some (send_raw_data (map some (frame (c.encode a))) e)
  unfolding send_packet
  send_packet-send_raw_data a e h fits = send_if-send_raw_data e.bev a e refl h fits

-- What two Detach in a row return, and if the connection is open after the first.
abbrev open_again : ℕ → Option SockaddrIn → Option SockaddrIn → Option (Option ℕ × Option ℕ × Bool)
open_again fd peer own = do
  e ← of_fd (some fd) peer own
  some (
    (detach e).0,
    (detach (detach e).1).0,
    elim (detach e).1.bev [ none ↦ false | some b ↦ true ],
  )

-- A connection that gave its descriptor away has none to give, but is not closed by that.
detach_twice :
    (fd : ℕ) (peer own : Option SockaddrIn) → open_again fd peer own ≡ some (some fd, none, true)
unfolding detach of_fd set_socket_fd fill_socket_address
detach_twice fd peer own = refl
