-- ===== src/Examples/Servers.antt =====
-- A worker's socket, and the dialogue with the ELBS.
use turnserver_v.Base.{
  ℕ, ◌+◌, ◌-◌, ◌*◌, ◌/◌, ◌%◌, ◌^◌, ◌≤◌, ◌≡◌, refl, Bool, true, false, List, [], ◌∷◌, ◌++◌,
  append_assoc, none, some, ◌==◌, if◌then◌else◌, length, arith,
}
use turnserver_v.Wire.Packer.Frame.{frame}
use turnserver_v.Packet.Elbs.{
  RejoinResponseProtocol, rejoin_response, rejoin_response_uri, elbs_server_type,
}
use turnserver_v.Server.Socket.{OutBuffer, Flushed, took, took_nothing, send, flushed}
use turnserver_v.Server.Socket.Framed.{
  Action, sending, writable, acts, stream, joined, act, acts-stream,
}
use turnserver_v.Server.Thread.{Thread}
use turnserver_v.Server.Elbs.{
  Outside, ElbsConnection, Reachable, started, stepped, response_packet, start, init, step,
  rejoin_answered, on_response_packet, join_elbs, connect_each, connect_elbs,
}
use turnserver_v.Server.Elbs.Rate.{IsSpaced, Reachable-IsSpaced}
use turnserver_v.Server.Elbs.Ticking.{IsTicking, Reachable-IsTicking}
use turnserver_v.Server.Elbs.Response.{on_response_packet-frame, answers, rejoin_answered-failed}

-- What was taken and what waits, of a system that takes one byte at a time.
abbrev Pipe : Type 0
Pipe = List ℕ × List ℕ

abbrev one_byte : Pipe → Flushed × Pipe
one_byte (t, []) = (took_nothing 0, (t, []))
one_byte (t, b ∷ w) = (took 1, (t ++ (b ∷ []), w))

abbrev nothing_waits : Pipe → Bool
nothing_waits (t, []) = true
nothing_waits (t, b ∷ w) = false

nothing_waits_lem : (s : Pipe) → nothing_waits s ≡ true → s.1 ≡ []
nothing_waits_lem (t, []) h = refl
nothing_waits_lem (t, b ∷ w) h = cc

one_byte_lem : (s : Pipe) → (one_byte s).1.0 ++ (one_byte s).1.1 ≡ s.0 ++ s.1
one_byte_lem (t, []) = refl
one_byte_lem (t, b ∷ w) = append_assoc t (b ∷ []) w

one_byte_nothing :
    (s : Pipe) (code : ℕ) → (one_byte s).0 ≡ took_nothing code → (one_byte s).1.0 ≡ s.0
one_byte_nothing (t, []) code h = refl
one_byte_nothing (t, b ∷ w) code h = cc

abbrev pipes : OutBuffer
pipes = record {
  Socket = Pipe;
  contents = λ s. s.1;
  wire = λ s. s.0;
  is_empty = nothing_waits;
  append = λ bs s. (s.0, s.1 ++ bs);
  flush = one_byte;
  clear = λ s. (s.0, []);
  set_error = λ e s. s;
  is_empty_lem = nothing_waits_lem;
  contents-append = λ bs s. refl;
  wire-append = λ bs s. refl;
  flush_lem = one_byte_lem;
  flush_nothing = one_byte_nothing;
  contents-clear = λ s. refl;
  wire-clear = λ s. refl;
  contents-set_error = λ e s. refl;
  wire-set_error = λ e s. refl;
}

-- The second packet comes too early and is dropped.
abbrev actions : List Action
actions = sending (1 ∷ 2 ∷ []) ∷ sending (3 ∷ []) ∷ writable ∷ sending (4 ∷ 5 ∷ []) ∷ []

actions_sent : (acts pipes actions ([], [])).0 ≡ (1 ∷ 2 ∷ []) ∷ (4 ∷ 5 ∷ []) ∷ []
unfolding acts act send flushed
actions_sent = refl

acts-stream_example :
    stream pipes (acts pipes actions ([], [])).1 ≡ joined (acts pipes actions ([], [])).0
acts-stream_example = acts-stream pipes actions ([], [])

abbrev swap : ℕ → ℕ
swap x = x % 256 * 2 ^ 24 + x / 256 % 256 * 2 ^ 16 + x / 2 ^ 16 % 256 * 2 ^ 8 + x / 2 ^ 24

abbrev pub counts : Thread
counts = record {
  Queue = ℕ → ℕ;
  pending = λ q m. q m;
  post_delayed = λ delay m q n. q n + (if m == n then 1 else 0);
  clear = λ m q n. if m == n then 0 else q n;
  take = λ m q n. q n - (if m == n then 1 else 0);
  pending-post_delayed = λ delay m q n. refl;
  pending-clear = λ m q n. refl;
  pending-take = λ m q n. refl;
}

-- At 4000, with the socket 9 for an edge server.
abbrev outside : Outside
outside = record {
  now = 4000;
  hosts = (1, some 3) ∷ [];
  created = some 9;
  same_local_address = λ a b. a == b;
  is_up = λ s. true;
  quit_report = 1 ∷ [];
  connect_report = 2 ∷ [];
}

abbrev begun : ElbsConnection counts swap
begun = start counts swap outside (init counts swap (λ m. 0))

abbrev response : RejoinResponseProtocol
response = record {
  head = record { server_type = elbs_server_type; uri = rejoin_response_uri };
  member1 = 10;
  member2 = 0x0100000a;
  member3 = 8000;
}

response-IsValid : rejoin_response.IsValid response
response-IsValid = record {
  head_valid = omega arith;
  valid1 = omega arith;
  valid2 = omega arith;
  valid3 = omega arith;
}

on_response_packet-frame_example :
    on_response_packet counts swap outside 3
      (frame (rejoin_response.encode response))
      (length (frame (rejoin_response.encode response)))
      begun
    ≡ some (rejoin_answered counts swap outside 3 0x0100000a 8000 begun)
on_response_packet-frame_example =
    on_response_packet-frame counts swap outside 3 response begun response-IsValid refl

abbrev answered : ElbsConnection counts swap
answered = rejoin_answered counts swap outside 3 0x0100000a 8000 begun

answered-Reachable : Reachable counts swap answered
unfolding step
answered-Reachable =
    stepped outside
      (response_packet 3 (frame (rejoin_response.encode response))
        (length (frame (rejoin_response.encode response))))
      (started outside (λ m. 0) (λ m. refl)) on_response_packet-frame_answer
  where
    on_response_packet-frame_answer :
        on_response_packet counts swap outside 3
          (frame (rejoin_response.encode response))
          (length (frame (rejoin_response.encode response)))
          begun
        ≡ some answered
    on_response_packet-frame_answer =
        on_response_packet-frame counts swap outside 3 response begun response-IsValid refl

Reachable-IsSpaced_example : IsSpaced answered.edges
Reachable-IsSpaced_example = Reachable-IsSpaced counts swap answered answered-Reachable

Reachable-IsTicking_example : IsTicking counts swap answered
Reachable-IsTicking_example = Reachable-IsTicking counts swap answered answered-Reachable

abbrev refused : Outside
refused = record outside { created = none }

abbrev of_the_first : List (Outside × ℕ)
of_the_first = (record outside { now = 60000 }, 4) ∷ (record outside { now = 120000 }, 5) ∷ []

abbrev given_up : ElbsConnection counts swap
given_up =
    answers counts swap 0x0100000a 8000 of_the_first
      (rejoin_answered counts swap refused 3 0x0100000a 8000 begun)

begun_late : (n : ℕ) → 3000 ≤ n → begun.last_connect_ts + 3000 ≤ n
unfolding start init join_elbs connect_each connect_elbs
begun_late n h = omega (arith, h)

rejoin_answered-failed_example :
    (given_up.edges ≡ begun.edges)
    × ((rejoin_answered counts swap
          (record outside { now = 140000 })
          7
          0x0100000a
          8000
          (rejoin_answered counts swap
            (record refused { now = 130000 })
            6
            0x0200000a
            8000
            given_up)).edges
        ≡ record { at = 140000; ip = swap 0x0100000a; port = 8000; socket = 9 } ∷ begun.edges)
rejoin_answered-failed_example =
    rejoin_answered-failed counts swap refused (record refused { now = 130000 })
      (record outside { now = 140000 }) 3 6 7 9 0x0100000a 8000 0x0200000a 8000 begun of_the_first
      (begun_late refused.now (omega arith)) refl refl (begun_late 130000 (omega arith)) refl
      (begun_late 140000 (omega arith)) refl
