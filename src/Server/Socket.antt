-- ===== src/Server/Socket.antt =====
-- turnserver_main.cc: WorkerTCPSocket::Send, which puts one packet at a time into the out-buffer of
-- rtc's AsyncTCPSocketBase.
pub mod Framed
use turnserver_v.Base.{
  ℕ, ◌*◌, ◌≡◌, Bool, true, false, List, [], ◌++◌, ltb, if◌then◌else◌, length, Option, none, some,
}

-- WorkerConstants::kMaxPacketSize
abbrev pub max_packet_size : ℕ
max_packet_size = 64 * 1024

-- What FlushOutBuffer returns: how much the system took, or a number that is 0 or an error.
pub data Flushed : Type 0 where
  took : ℕ → Flushed
  took_nothing : ℕ → Flushed

-- What the code relies on of AsyncTCPSocketBase. `contents` is the out-buffer, `wire` what the system
-- has taken so far.
pub record OutBuffer : Type 1 where
  pub Socket : Type 0
  pub contents : Socket → List ℕ
  pub wire : Socket → List ℕ
  pub is_empty : Socket → Bool
  pub append : List ℕ → Socket → Socket
  pub flush : Socket → Flushed × Socket
  pub clear : Socket → Socket
  pub set_error : ℕ → Socket → Socket
  pub is_empty_lem : (s : Socket) → is_empty s ≡ true → contents s ≡ []
  pub contents-append : (bs : List ℕ) (s : Socket) → contents (append bs s) ≡ contents s ++ bs
  pub wire-append : (bs : List ℕ) (s : Socket) → wire (append bs s) ≡ wire s
  pub flush_lem : (s : Socket) → wire (flush s).1 ++ contents (flush s).1 ≡ wire s ++ contents s
  pub flush_nothing :
      (s : Socket) (code : ℕ) → (flush s).0 ≡ took_nothing code → wire (flush s).1 ≡ wire s
  pub contents-clear : (s : Socket) → contents (clear s) ≡ []
  pub wire-clear : (s : Socket) → wire (clear s) ≡ wire s
  pub contents-set_error : (e : ℕ) (s : Socket) → contents (set_error e s) ≡ contents s
  pub wire-set_error : (e : ℕ) (s : Socket) → wire (set_error e s) ≡ wire s

-- What Send returns, and whether it signals a sent packet.
pub data Sent : Type 0 where
  too_large : Sent
  dropped : ℕ → Sent
  no_progress : ℕ → Sent
  sent : ℕ → Sent

-- EMSGSIZE
abbrev pub message_size_error : ℕ
message_size_error = 90

module _ (rtc : OutBuffer) where
  open rtc use {Socket, is_empty, append, flush, clear, set_error}

  -- The end of Send, from the result of FlushOutBuffer on.
  unfoldable pub flushed : ℕ → Flushed × Socket → Sent × Socket
  flushed cb (took_nothing res, s) = (no_progress res, clear s)
  flushed cb (took n, s) = (sent cb, s)

  unfoldable pub send : List ℕ → Socket → Sent × Socket
  send pv s =
      if ltb max_packet_size (length pv)
      then (too_large, set_error message_size_error s)
      else if is_empty s
      then flushed (length pv) (flush (append pv s))
      else (dropped (length pv), s)
