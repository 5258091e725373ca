-- ===== src/Server/Elbs/Response.antt =====
-- turnserver_main.cc: the answers of the ELBS, as ElbsConnection takes them in.
use turnserver_v.Base.{
  ℕ, ◌+◌, ◌≤◌, ◌≡◌, refl, ap, ◌∙◌, true, false, ◌&&◌, List, [], ◌∷◌, ◌++◌, none, some, ◌>>=◌, ltb,
  ◌==◌, Bool-cases, inl, inr, length-append, le→ltb, length, arith,
}
use turnserver_v.Wire.Unpacker.{rewind, move}
use turnserver_v.Wire.Unpacker.Reads.{At-front}
use turnserver_v.Wire.Packer.Written.{Fits}
use turnserver_v.Wire.Packer.Pushes.{variable_bytes}
use turnserver_v.Wire.Packer.Frame.{frame}
use turnserver_v.Wire.Codec.{uint16, uint32}
use turnserver_v.Wire.Transfer.{at_body, at_body-At, init-at_body, pop_length-at_frame}
use turnserver_v.Packet.Head.{encode, unmarshall, unmarshall-Reads, pop-unmarshall}
use turnserver_v.Packet.Three.{encode3}
use turnserver_v.Packet.Elbs.{RejoinResponseProtocol, rejoin_response, rejoin_response_uri}
use turnserver_v.Server.Thread.{Thread}
use turnserver_v.Server.Elbs.{
  Outside, ElbsConnection, rejoin_answered, connect_edge_server, on_response_packet,
}

response-Fits : (p : RejoinResponseProtocol) → Fits (rejoin_response.encode p)
unfolding encode3 variable_bytes
response-Fits p = omega arith

rewind-at_body : (n : ℕ) (bs : List ℕ) → Fits bs → rewind (move n (at_body bs)) ≡ some (at_body bs)
unfolding rewind move
rewind-at_body n bs fits = ap (λ o. o >>= λ r. some r.1) (pop_length-at_frame bs fits)

response-long : (p : RejoinResponseProtocol) → 4 ≤ length (frame (rejoin_response.encode p))
unfolding frame
response-long p = rw length-append (unfold encode3 in omega arith)

head_read :
    (p : RejoinResponseProtocol)
    → rejoin_response.IsValid p
    → unmarshall (at_body (rejoin_response.encode p))
      ≡ some (p.head, move (length (encode p.head)) (at_body (rejoin_response.encode p)))
unfolding encode3
head_read p valid =
    (unmarshall-Reads p.head valid.head_valid).run (at_body (rejoin_response.encode p)) (
      At-front (encode p.head)
        (uint32.encode p.member1 ++ uint32.encode p.member2 ++ uint16.encode p.member3)
        (at_body-At (rejoin_response.encode p) (response-Fits p)))

both_same : (a b : ℕ) → ((a == a) && (b == b)) ≡ true
both_same a b = ground arith

not_known :
    (a b x y p q : ℕ)
    → ((x == p) && (y == q)) ≡ true
    → ((a == x) && (b == y)) ≡ false
    → ((a == p) && (b == q)) ≡ false
not_known a b x y p q h k = ground arith

module _ (rtc : Thread) (network_to_host32 : ℕ → ℕ) where
  -- A packet with a response to a rejoin request is handled by the address in it, whatever its code
  -- says.
  pub on_response_packet-frame :
      (w : Outside) (s : ℕ) (p : RejoinResponseProtocol) (e : ElbsConnection rtc network_to_host32)
      → rejoin_response.IsValid p
      → p.head.uri ≡ rejoin_response_uri
      → on_response_packet rtc network_to_host32 w s
          (frame (rejoin_response.encode p))
          (length (frame (rejoin_response.encode p)))
          e
        ≡ some (rejoin_answered rtc network_to_host32 w s p.member2 p.member3 e)
  unfolding on_response_packet
  on_response_packet-frame w s p e valid is_response =
      rw
        (
          le→ltb (length (frame (rejoin_response.encode p))) 4 (response-long p),
          init-at_body false (rejoin_response.encode p) (response-Fits p),
        )
        (pop-unmarshall (at_body (rejoin_response.encode p)) _
          ∙ rw
              (
                head_read p valid,
                rewind-at_body (length (encode p.head)) (rejoin_response.encode p)
                    (response-Fits p),
                (rejoin_response.pop-Reads p valid).run (at_body (rejoin_response.encode p))
                    (at_body-At (rejoin_response.encode p) (response-Fits p)),
                is_response,
              )
              refl)

  -- The answers of later times, in order, with the same address in each.
  unfoldable pub answers :
      ℕ
      → ℕ
      → List (Outside × ℕ)
      → ElbsConnection rtc network_to_host32
      → ElbsConnection rtc network_to_host32
  answers ip port [] e = e
  answers ip port ((w, s) ∷ later) e =
      answers ip port later (rejoin_answered rtc network_to_host32 w s ip port e)

  -- The address that was tried last is the one given, and the other members are as before.
  record Knows (ip port : ℕ) (e e' : ElbsConnection rtc network_to_host32) : Type 0 where
    knows : ((network_to_host32 ip == e'.connect_ip) && (port == e'.connect_port)) ≡ true
    edges : e'.edges ≡ e.edges
    time : e'.last_connect_ts ≡ e.last_connect_ts

  rejoin_keeps :
      (w : Outside) (s ip port : ℕ) (e e' : ElbsConnection rtc network_to_host32)
      → Knows ip port e e'
      → Knows ip port e (rejoin_answered rtc network_to_host32 w s ip port e')
  unfolding rejoin_answered
  rejoin_keeps w s ip port e e' k = elim (Bool-cases (ltb w.now (e'.last_connect_ts + 3000))) [
    | inl early ↦ rw early (record { knows = k.knows; edges = k.edges; time = k.time })
    | inr late ↦ rw (late, k.knows) k
  ]

  answers-Knows :
      (ip port : ℕ) (later : List (Outside × ℕ)) (e e' : ElbsConnection rtc network_to_host32)
      → Knows ip port e e'
      → Knows ip port e (answers ip port later e')
  unfolding answers
  answers-Knows ip port [] e e' k = k
  answers-Knows ip port ((w, s) ∷ later) e e' k =
      answers-Knows ip port later e (rejoin_answered rtc network_to_host32 w s ip port e')
        (rejoin_keeps w s ip port e e' k)

  -- An answer in time for which no socket can be made.
  unmade :
      (w : Outside) (s ip port : ℕ) (e : ElbsConnection rtc network_to_host32)
      → e.last_connect_ts + 3000 ≤ w.now
      → w.created ≡ none
      → Knows ip port e (rejoin_answered rtc network_to_host32 w s ip port e)
  unfolding rejoin_answered connect_edge_server
  unmade w s ip port e late failed =
      rw (le→ltb w.now (e.last_connect_ts + 3000) late)
        (elim (Bool-cases ((network_to_host32 ip == e.connect_ip) && (port == e.connect_port))) [
          | inl known ↦ rw known (record { knows = known; edges = refl; time = refl })
          | inr fresh ↦
              rw (fresh, failed)
                (record {
                  knows = both_same (network_to_host32 ip) port;
                  edges = refl;
                  time = refl;
                })
        ])

  -- An answer in time with an address that was not the last one, for which a socket is made.
  made :
      (w : Outside) (s c ip port : ℕ) (e : ElbsConnection rtc network_to_host32)
      → e.last_connect_ts + 3000 ≤ w.now
      → w.created ≡ some c
      → ((network_to_host32 ip == e.connect_ip) && (port == e.connect_port)) ≡ false
      → (rejoin_answered rtc network_to_host32 w s ip port e).edges
        ≡ record { at = w.now; ip = network_to_host32 ip; port = port; socket = c } ∷ e.edges
  unfolding rejoin_answered connect_edge_server
  made w s c ip port e late succeeds fresh =
      rw (le→ltb w.now (e.last_connect_ts + 3000) late, fresh, succeeds) refl

  -- An answer of the ELBS is in time 3000 milliseconds or more after the last connection was begun.
  -- When no socket can be made for the address of an answer in time, neither that answer nor those
  -- that follow it begin a connection as long as they have the same address, however many come and
  -- whenever, even if a socket could be made then. After an answer in time with another address, for
  -- which no socket can be made either, an answer in time with the first address begins a connection
  -- to it, if a socket can be made.
  pub rejoin_answered-failed :
      (w w₁ w₂ : Outside) (s s₁ s₂ c ip port ip₁ port₁ : ℕ)
      (e : ElbsConnection rtc network_to_host32) (later : List (Outside × ℕ))
      → e.last_connect_ts + 3000 ≤ w.now
      → w.created ≡ none
      → ((network_to_host32 ip == network_to_host32 ip₁) && (port == port₁)) ≡ false
      → e.last_connect_ts + 3000 ≤ w₁.now
      → w₁.created ≡ none
      → e.last_connect_ts + 3000 ≤ w₂.now
      → w₂.created ≡ some c
      → ((answers ip port later (rejoin_answered rtc network_to_host32 w s ip port e)).edges
          ≡ e.edges)
        × ((rejoin_answered rtc network_to_host32 w₂ s₂ ip port (
              rejoin_answered rtc network_to_host32 w₁ s₁ ip₁ port₁ (
                answers ip port later (rejoin_answered rtc network_to_host32 w s ip port e)))).edges
            ≡ record { at = w₂.now; ip = network_to_host32 ip; port = port; socket = c } ∷ e.edges)
  rejoin_answered-failed w w₁ w₂ s s₁ s₂ c ip port ip₁ port₁ e later late failed other late₁ failed₁
        late₂ succeeds =
      let a = rejoin_answered rtc network_to_host32 w s ip port e in
      let b = answers ip port later a in
      let k = answers-Knows ip port later e a (unmade w s ip port e late failed) in
      let d = rejoin_answered rtc network_to_host32 w₁ s₁ ip₁ port₁ b in
      let l = unmade w₁ s₁ ip₁ port₁ b (rw (k.time) late₁) failed₁ in
      (
        k.edges,
        made w₂ s₂ c ip port d (rw (l.time, k.time) late₂) succeeds (
              not_known (network_to_host32 ip) port (network_to_host32 ip₁) port₁ d.connect_ip
                d.connect_port l.knows other)
            ∙ ap
                (λ es.
                  record { at = w₂.now; ip = network_to_host32 ip; port = port; socket = c } ∷ es)
                (l.edges ∙ k.edges),
      )
