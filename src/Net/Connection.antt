-- ===== src/Net/Connection.antt =====
-- turnserver/network/tcp_connection.cpp: class TcpConnection, which cuts the received bytes into
-- packets and hands them to its callback.
--
-- libevent's input buffer and the callback are parameters. A callback may close the connection
-- (CloseAndDestroy); its answer says whether it did.
pub mod Framing
pub mod Delivery
pub mod Stream
pub mod Limits
pub mod Peers
pub mod Sending
use turnserver_v.Base.{
  ℕ, zero, suc, ◌+◌, ◌*◌, ◌/◌, ◌%◌, ◌^◌, ◌≤◌, ◌≡◌, Bool, true, false, List, Option, none, some,
  ◌>>=◌, ltb, leb, if◌then◌else◌, length, take, drop, from_le,
}
use turnserver_v.Wire.Unpacker.{Unpacker, pop_uint16, rewind}
use turnserver_v.Wire.Unpacker

-- What the code relies on of evbuffer and bufferevent: a first-in first-out buffer of bytes.
pub record InputBuffer : Type 1 where
  pub Buffer : Type 0
  pub contents : Buffer → List ℕ
  pub get_length : Buffer → ℕ
  pub copyout : Buffer → ℕ → List ℕ
  pub read : Buffer → ℕ → Option (List ℕ) × Buffer
  pub get_length_lem : (b : Buffer) → get_length b ≡ length (contents b)
  pub copyout_lem : (b : Buffer) (n : ℕ) → copyout b n ≡ take n (contents b)
  pub read_some :
      (b : Buffer) (n : ℕ) → n ≤ length (contents b) → (read b n).0 ≡ some (take n (contents b))
  pub contents-read :
      (b : Buffer) (n : ℕ) → n ≤ length (contents b) → contents (read b n).1 ≡ drop n (contents b)

-- TcpConnectionCallback, over the state `S` of the object behind it.
pub record Callback (S : Type 0) : Type 0 where
  pub on_packet_received : Unpacker → ℕ → ℕ → S → S × Bool
  pub on_error : ℕ → S → S × Bool

-- `deletions` counts the runs of `delete this`.
pub record Connection (Buffer S : Type 0) : Type 0 where
  pub bev : Option Buffer
  pub is_in_processing : Bool
  pub registered : Bool
  pub client : S
  pub deletions : ℕ

abbrev pub min_packet_len : ℕ
min_packet_len = 6

-- BEV_EVENT_ERROR | BEV_EVENT_READING
abbrev pub reading_error : ℕ
reading_error = 0x21

-- The length that the first bytes of a packet state; the four bytes are read only for the long form.
unfoldable pub decode_length : List ℕ → List ℕ → ℕ
decode_length two four =
    let lower = from_le two in
    if leb 0x8000 lower then lower % 0x8000 + from_le four % 2 ^ 24 / 2 ^ 16 * 2 ^ 15 else lower

-- Unpacker p(&buffer[0], packet_length), the two numbers of the head, and Rewind().
unfoldable pub parse_head : List ℕ → Option (Unpacker × ℕ × ℕ)
parse_head bytes = do
  u ← Unpacker.init bytes (length bytes) false
  (server_type, u) ← pop_uint16 u
  (uri, u) ← pop_uint16 u
  u ← rewind u
  some (u, server_type, uri)

module _ {B S : Type 0} where
  unfoldable pub destroy : Connection B S → Connection B S
  destroy c = record c { deletions = c.deletions + 1 }

  unfoldable pub close_and_destroy : Connection B S → Connection B S
  unfolding destroy
  close_and_destroy c =
      let c' = record c { bev = none } in if c.is_in_processing then c' else destroy c'

  -- The connection after a callback that answered `r`.
  unfoldable pub called : S × Bool → Connection B S → Connection B S
  unfolding close_and_destroy
  called r c = let c' = record c { client = r.0 } in if r.1 then close_and_destroy c' else c'

-- A round of the loop of OnDataReady goes on, stops, or reads outside the packet's memory.
pub data Turn (B S : Type 0) : Type 0 where
  continues : Connection B S → Turn B S
  breaks : Connection B S → Turn B S
  fault : Turn B S

pub data Outcome (B S : Type 0) : Type 0 where
  done : Connection B S → Outcome B S
  faulty out_of_fuel : Outcome B S

module _ (libevent : InputBuffer) {S : Type 0} (callback : Callback S) where
  open libevent use {Buffer, contents, get_length, copyout, read}

  unfoldable pub deliver : Option (Unpacker × ℕ × ℕ) → Connection Buffer S → Turn Buffer S
  deliver none c = fault
  deliver (some (u, server_type, uri)) c = continues (
      if c.registered then called (callback.on_packet_received u server_type uri c.client) c else c)

  unfoldable pub take_packet : Option (List ℕ) × Buffer → Connection Buffer S → Turn Buffer S
  take_packet (none, b) c = breaks (record c { bev = some b })
  take_packet (some bytes, b) c = deliver (parse_head bytes) (record c { bev = some b })

  unfoldable pub turn : Buffer → Connection Buffer S → Turn Buffer S
  turn b c =
      let len = get_length b in
      let packet_length = decode_length (copyout b 2) (copyout b 4) in
      if ltb len min_packet_len
      then breaks c
      else if ltb packet_length min_packet_len
      then breaks (if c.registered then called (callback.on_error reading_error c.client) c else c)
      else if ltb len packet_length
      then breaks c
      else take_packet (read b packet_length) c

  unfoldable pub next : (Connection Buffer S → Outcome Buffer S) → Turn Buffer S → Outcome Buffer S
  next again (continues c) = again c
  next again (breaks c) = done c
  next again fault = faulty

  unfoldable pub round :
      (Connection Buffer S → Outcome Buffer S)
      → Connection Buffer S
      → Option Buffer
      → Outcome Buffer S
  round again c none = done c
  round again c (some b) = next again (turn b c)

  -- while (!IsClosed()) { ... }
  unfoldable pub process : ℕ → Connection Buffer S → Outcome Buffer S
  process zero c = out_of_fuel
  process (suc fuel) c = round (process fuel) c c.bev

  -- if (IsClosed()) Destroy();
  unfoldable pub destroy_if_closed : Option Buffer → Connection Buffer S → Connection Buffer S
  destroy_if_closed none c = destroy c
  destroy_if_closed (some b) c = c

  -- What follows the loop.
  unfoldable pub finish : Outcome Buffer S → Outcome Buffer S
  finish (done c) = done (destroy_if_closed c.bev (record c { is_in_processing = false }))
  finish faulty = faulty
  finish out_of_fuel = out_of_fuel

  unfoldable pub on_data_ready : ℕ → Connection Buffer S → Outcome Buffer S
  on_data_ready fuel c = finish (process fuel (record c { is_in_processing = true }))

  -- OnEvent: only errors and the end of the stream (BEV_EVENT_ERROR, BEV_EVENT_EOF) are reported.
  unfoldable pub on_event : ℕ → Connection Buffer S → Connection Buffer S
  on_event events c =
      if ltb 0 (events / 2 ^ 4 % 4)
      then (if c.registered then called (callback.on_error events c.client) c else c)
      else c
