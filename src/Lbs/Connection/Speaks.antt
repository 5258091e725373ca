-- ===== src/Lbs/Connection/Speaks.antt =====
-- uni_lbs_connection.cpp: what a connection has sent, and that it has joined, rests on an accepted
-- join, under each of its operations.
use turnserver_v.Base.{
  Ensures, Ensures-bind, Ensures-then, ℕ, suc, ◌+◌, ◌<◌, ◌≡◌, sym, subst, Bool, true, false, List,
  [], ◌∷◌, ◌++◌, ◌==◌, if◌then◌else◌, Bool-cases, inl, inr, arith,
}
use turnserver_v.Wire.Unpacker.{Unpacker}
use turnserver_v.Packet.Lbs.{DetailInfo2Map, lbs_join_res, lbs_join_res2, lbs_pong}
use turnserver_v.Net.Client.{
  Call, on_connect_call, on_packet_received_call, on_socket_error_call, time_to_ping_call,
  is_connected,
}
use turnserver_v.Lbs.Connection.Told.{accepted, accepted-append}
use turnserver_v.Lbs.Connection.{
  Upcall, lbs_connected, lbs_disconnected, lbs_message_received, join_replied, Answers, Request,
  join_request, ping_request, full_channel_list, delta_channel_list, LbsConnection, tell,
  tcp_send_packet, send_packet, join_packet, on_connect, ping_packet, time_to_ping, on_socket_error,
  send_full_channel_list, join_answered, on_join_replied, on_join2_replied, on_pong,
  on_packet_received, callback, callbacks,
}

-- How many of the packets are not requests to join.
abbrev pub others : List Request → ℕ
others [] = 0
others (join_request p ∷ xs) = others xs
others (ping_request p ∷ xs) = suc (others xs)
others (full_channel_list p ∷ xs) = suc (others xs)
others (delta_channel_list p ∷ xs) = suc (others xs)

others-append : (xs ys : List Request) → others (xs ++ ys) ≡ others xs + others ys
others-append [] ys = omega arith
others-append (join_request p ∷ xs) ys = others-append xs ys
others-append (ping_request p ∷ xs) ys = omega (arith, others-append xs ys)
others-append (full_channel_list p ∷ xs) ys = omega (arith, others-append xs ys)
others-append (delta_channel_list p ∷ xs) ys = omega (arith, others-append xs ys)

-- The invariant: joined, or anything but a request to join sent: then a join was accepted before.
pub record Joins (l : LbsConnection) : Type 0 where
  pub joined_lem : l.joined ≡ true → 0 < accepted l.upcalls
  pub sent_lem : 0 < others l.sent → 0 < accepted l.upcalls

tell-Joins : (x : Upcall) (l : LbsConnection) → Joins l → Joins (tell x l)
tell-Joins x l j = record {
  joined_lem = λ h. omega (arith, j.joined_lem h, accepted-append l.upcalls (x ∷ []));
  sent_lem = λ h. omega (arith, j.sent_lem h, accepted-append l.upcalls (x ∷ []));
}

-- A packet may be sent once a join was accepted, a request to join always.
tcp_send-Joins :
    (p : Request) (l : LbsConnection)
    → (0 < others (p ∷ []) → 0 < accepted l.upcalls)
    → Joins l
    → Joins (tcp_send_packet p l).1
unfolding tcp_send_packet
tcp_send-Joins p l may j = elim (Bool-cases (is_connected l.connection)) [
  | inr off ↦ rw off j
  | inl on ↦ rw on (record {
    joined_lem = j.joined_lem;
    sent_lem = λ h. grows (omega (arith, h, others-append l.sent (p ∷ [])));
  })
]
  where
    grows : 0 < others l.sent + others (p ∷ []) → 0 < accepted l.upcalls
    grows h = ground (arith, may, j.sent_lem)

send-Joins :
    (p : Request) (l : LbsConnection)
    → (0 < others (p ∷ []) → 0 < accepted l.upcalls)
    → Joins l
    → Joins (send_packet p l).1
unfolding send_packet
send-Joins p l may j = elim (Bool-cases (is_connected l.connection)) [
  | inl on ↦ rw on (tcp_send-Joins p l may j)
  | inr off ↦ rw off j
]

-- What a joined connection sends.
pub when_joined :
    (p : Request) (l : LbsConnection)
    → Joins l
    → Joins (if l.joined then (send_packet p l).1 else l)
when_joined p l j = elim (Bool-cases l.joined) [
  | inl on ↦
      subst (λ t. Joins (if t then (send_packet p l).1 else l)) (sym on)
        (send-Joins p l (λ h. j.joined_lem on) j)
  | inr off ↦ subst (λ t. Joins (if t then (send_packet p l).1 else l)) (sym off) j
]

leaves : (l : LbsConnection) → Joins l → Joins (record l { joined = false })
leaves l j = record { joined_lem = λ h. cc; sent_lem = j.sent_lem }

on_connect-Joins : (connected : Bool) (l : LbsConnection) → Joins l → Joins (on_connect connected l)
unfolding on_connect
on_connect-Joins true l j =
    tcp_send-Joins (join_request (join_packet l)) (tell lbs_connected l)
      (λ h. absurd (omega (arith, h))) (tell-Joins lbs_connected l j)
on_connect-Joins false l j = tell-Joins lbs_disconnected (record l { joined = false }) (leaves l j)

join_answered-Joins :
    (code : ℕ) (details : DetailInfo2Map) (v : Answers) (l : LbsConnection)
    → Joins l
    → Joins (join_answered code details v l)
unfolding join_answered send_full_channel_list
join_answered-Joins code details v l j = elim (Bool-cases (code == 0)) [
  | inr refused ↦ rw refused j
  | inl taken ↦
      rw taken
        (send-Joins _ joined (λ h. one) (record { joined_lem = λ h. one; sent_lem = λ h. one }))
]
  where
    joined : LbsConnection
    joined = tell (join_replied details) (record l { joined = true })

    one : 0 < accepted joined.upcalls
    one = omega (arith, accepted-append l.upcalls (join_replied details ∷ []))

on_packet_received-Joins :
    (service_type uri : ℕ) (p : Unpacker) (v : Answers) (l : LbsConnection)
    → Joins l
    → Ensures Joins (on_packet_received service_type uri p v l)
unfolding on_packet_received on_join_replied on_join2_replied on_pong
on_packet_received-Joins service_type uri p v l j = elim (Bool-cases (service_type == 17)) [
  | inr other ↦ rw other j
  | inl ours ↦ elim (Bool-cases (uri == 1002)) [
    | inl first ↦
        rw (ours, first)
          (Ensures-bind Joins (lbs_join_res.pop lbs_join_res.blank p) _
            (λ r. join_answered-Joins r.0.member2 [] v l j))
    | inr other ↦ elim (Bool-cases (uri == 1008)) [
      | inl second ↦
          rw (ours, other, second)
            (Ensures-bind Joins (lbs_join_res2.pop lbs_join_res2.blank p) _
              (λ r. join_answered-Joins r.0.member2 r.0.member3 v l j))
      | inr third ↦ elim (Bool-cases (uri == 1004)) [
        | inl pong ↦
            rw (ours, other, third, pong)
              (Ensures-bind Joins (lbs_pong.pop lbs_pong.blank p) _ (λ r. tell-Joins _ l j))
        | inr unknown ↦ rw (ours, other, third, unknown) (tell-Joins (lbs_message_received uri) l j)
      ]
    ]
  ]
]

callback-Joins :
    (x : Call) (p : Unpacker) (v : Answers) (l : LbsConnection)
    → Joins l
    → Ensures Joins (callback x p v l)
unfolding callback time_to_ping on_socket_error
callback-Joins (on_connect_call connected) p v l j = on_connect-Joins connected l j
callback-Joins (on_packet_received_call service_type uri) p v l j =
    on_packet_received-Joins service_type uri p v l j
callback-Joins on_socket_error_call p v l j = leaves l j
callback-Joins time_to_ping_call p v l j = when_joined (ping_request (ping_packet v l)) l j

pub callbacks-Joins :
    (calls : List Call) (p : Unpacker) (v : Answers) (l : LbsConnection)
    → Joins l
    → Ensures Joins (callbacks calls p v l)
unfolding callbacks
callbacks-Joins [] p v l j = j
callbacks-Joins (x ∷ calls) p v l j =
    Ensures-then Joins Joins (callback x p v l) _ (callback-Joins x p v l j)
      (λ l'. callbacks-Joins calls p v l')
