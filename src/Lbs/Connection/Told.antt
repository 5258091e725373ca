-- ===== src/Lbs/Connection/Told.antt =====
-- uni_lbs_connection.cpp: what the object behind the callback is told of the replies to a join.
use turnserver_v.Base.{
  Ensures, Ensures-then, ℕ, zero, suc, ◌+◌, ◌≡◌, ◌∙◌, ap, refl, Bool, true, false, List, [], ◌∷◌,
  ◌++◌, Option, none, some, ◌>>=◌, ◌==◌, if◌then◌else◌, Bool-cases, Option-cases, inl, inr, arith,
  subst,
}
use turnserver_v.Wire.Unpacker.{Unpacker}
use turnserver_v.Packet.Lbs.{DetailInfo2Map, lbs_join_res, lbs_join_res2, lbs_pong}
use turnserver_v.Net.Client.{
  Call, on_connect_call, on_packet_received_call, on_socket_error_call, time_to_ping_call,
}
use turnserver_v.Lbs.Connection.{
  Upcall, lbs_connected, lbs_disconnected, lbs_message_received, update_load_quota, join_replied,
  Answers, Request, LbsConnection, tcp_send_packet, send_packet, on_connect, time_to_ping,
  on_socket_error, send_full_channel_list, join_answered, on_join_replied, on_join2_replied,
  on_pong, on_packet_received, callback, callbacks,
}

-- How often the object behind the callback was told that a join was accepted.
abbrev pub accepted : List Upcall → ℕ
accepted [] = 0
accepted (join_replied details ∷ xs) = suc (accepted xs)
accepted (lbs_connected ∷ xs) = accepted xs
accepted (lbs_disconnected ∷ xs) = accepted xs
accepted (lbs_message_received uri ∷ xs) = accepted xs
accepted (update_load_quota max_users ∷ xs) = accepted xs

pub accepted-append : (xs ys : List Upcall) → accepted (xs ++ ys) ≡ accepted xs + accepted ys
accepted-append [] ys = omega arith
accepted-append (join_replied details ∷ xs) ys = omega (arith, accepted-append xs ys)
accepted-append (lbs_connected ∷ xs) ys = accepted-append xs ys
accepted-append (lbs_disconnected ∷ xs) ys = accepted-append xs ys
accepted-append (lbs_message_received uri ∷ xs) ys = accepted-append xs ys
accepted-append (update_load_quota max_users ∷ xs) ys = accepted-append xs ys

-- The code of a packet that is one of the two replies to a join.
abbrev pub reply_code : ℕ → ℕ → Unpacker → Option ℕ
reply_code server_type uri p =
    if server_type == 17
    then (if uri == 1002
        then (do (reply, p) ← lbs_join_res.pop lbs_join_res.blank p; some reply.member2)
        else if uri == 1008
        then (do (reply, p) ← lbs_join_res2.pop lbs_join_res2.blank p; some reply.member2)
        else none)
    else none

-- 1 for the code of a reply that accepts the join.
abbrev pub accepting : Option ℕ → ℕ
accepting (some zero) = 1
accepting (some (suc code)) = 0
accepting none = 0

-- How many of the packets that a TcpClient hands on are replies that accept a join.
abbrev pub acceptances : List Call → Unpacker → ℕ
acceptances [] p = 0
acceptances (on_packet_received_call server_type uri ∷ xs) p =
    accepting (reply_code server_type uri p) + acceptances xs p
acceptances (on_connect_call connected ∷ xs) p = acceptances xs p
acceptances (on_socket_error_call ∷ xs) p = acceptances xs p
acceptances (time_to_ping_call ∷ xs) p = acceptances xs p

-- So much more often than in `l` the object was told that a join was accepted.
pub record Tells (n : ℕ) (l l' : LbsConnection) : Type 0 where
  pub told : accepted l'.upcalls ≡ accepted l.upcalls + n

silent : (l l' : LbsConnection) → l'.upcalls ≡ l.upcalls → Tells 0 l l'
silent l l' same = record { told = ap accepted same ∙ omega arith }

tells :
    (x : Upcall) (l l' : LbsConnection)
    → l'.upcalls ≡ l.upcalls ++ (x ∷ [])
    → Tells (accepted (x ∷ [])) l l'
tells x l l' e = record { told = ap accepted e ∙ accepted-append l.upcalls (x ∷ []) }

tcp_send-upcalls : (p : Request) (l : LbsConnection) → (tcp_send_packet p l).1.upcalls ≡ l.upcalls
unfolding tcp_send_packet
tcp_send-upcalls p l = ground arith

pub send-upcalls : (p : Request) (l : LbsConnection) → (send_packet p l).1.upcalls ≡ l.upcalls
unfolding send_packet
send-upcalls p l = ground (arith, tcp_send-upcalls p l)

join_answered-Tells :
    (code : ℕ) (details : DetailInfo2Map) (v : Answers) (l : LbsConnection)
    → Tells (accepting (some code)) l (join_answered code details v l)
unfolding join_answered send_full_channel_list
join_answered-Tells zero details v l = tells (join_replied details) l _ (send-upcalls _ _)
join_answered-Tells (suc code) details v l = silent l _ (ground arith)

on_packet_received-Tells :
    (server_type uri : ℕ) (p : Unpacker) (v : Answers) (l : LbsConnection)
    → Ensures
        (Tells (accepting (reply_code server_type uri p)) l)
        (on_packet_received server_type uri p v l)
unfolding on_packet_received on_join_replied on_join2_replied on_pong
on_packet_received-Tells server_type uri p v l = elim (Bool-cases (server_type == 17)) [
  | inr other ↦ rw other (silent l l refl)
  | inl ours ↦ elim (Bool-cases (uri == 1002)) [
    | inl first ↦
        rw (ours, first)
          (elim (Option-cases (lbs_join_res.pop lbs_join_res.blank p)) [
            | inl bad ↦ rw bad tt
            | inr (r, good) ↦ rw good (join_answered-Tells r.0.member2 [] v l)
          ])
    | inr other ↦ elim (Bool-cases (uri == 1008)) [
      | inl second ↦
          rw (ours, other, second)
            (elim (Option-cases (lbs_join_res2.pop lbs_join_res2.blank p)) [
              | inl bad ↦ rw bad tt
              | inr (r, good) ↦ rw good (join_answered-Tells r.0.member2 r.0.member3 v l)
            ])
      | inr third ↦ elim (Bool-cases (uri == 1004)) [
        | inl pong ↦
            rw (ours, other, third, pong)
              (elim (Option-cases (lbs_pong.pop lbs_pong.blank p)) [
                | inl bad ↦ rw bad tt
                | inr (r, good) ↦ rw good (tells _ l _ refl)
              ])
        | inr unknown ↦ rw (ours, other, third, unknown) (tells (lbs_message_received uri) l _ refl)
      ]
    ]
  ]
]

when_joined-Tells :
    (p : Request) (l : LbsConnection) → Tells 0 l (if l.joined then (send_packet p l).1 else l)
when_joined-Tells p l = silent l _ (ground (arith, send-upcalls p l))

on_connect-Tells : (connected : Bool) (l : LbsConnection) → Tells 0 l (on_connect connected l)
unfolding on_connect
on_connect-Tells true l = tells lbs_connected l _ (tcp_send-upcalls _ _)
on_connect-Tells false l = tells lbs_disconnected l _ refl

Tells-then :
    (k n : ℕ) (l m : LbsConnection) (o : Option LbsConnection)
    → Tells k l m
    → Ensures (Tells n m) o
    → Ensures (Tells (k + n) l) o
Tells-then k n l m none t u = tt
Tells-then k n l m (some l') t u = record { told = omega (arith, t.told, u.told) }

after_silence :
    (n : ℕ) (l m : LbsConnection) (o : Option LbsConnection)
    → Tells 0 l m
    → Ensures (Tells n m) o
    → Ensures (Tells n l) o
after_silence n l m o t u =
    subst (λ k. Ensures (Tells k l) o) (omega arith) (Tells-then 0 n l m o t u)

-- What the object is told during an event is what the TcpClient received.
pub callbacks-Tells :
    (calls : List Call) (p : Unpacker) (v : Answers) (l : LbsConnection)
    → Ensures (Tells (acceptances calls p) l) (callbacks calls p v l)
unfolding callbacks callback time_to_ping on_socket_error
callbacks-Tells [] p v l = silent l l refl
callbacks-Tells (on_packet_received_call server_type uri ∷ calls) p v l =
    Ensures-then (Tells (accepting (reply_code server_type uri p)) l) _
      (on_packet_received server_type uri p v l) _ (on_packet_received-Tells server_type uri p v l)
      (λ m t. Tells-then _ _ l m _ t (callbacks-Tells calls p v m))
callbacks-Tells (on_connect_call connected ∷ calls) p v l =
    after_silence _ l _ _ (on_connect-Tells connected l)
      (callbacks-Tells calls p v (on_connect connected l))
callbacks-Tells (on_socket_error_call ∷ calls) p v l =
    after_silence _ l _ _ (silent l (on_socket_error l) refl)
      (callbacks-Tells calls p v (on_socket_error l))
callbacks-Tells (time_to_ping_call ∷ calls) p v l =
    after_silence _ l _ _ (when_joined-Tells _ l) (callbacks-Tells calls p v (time_to_ping v l))
