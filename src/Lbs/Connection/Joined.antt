-- ===== src/Lbs/Connection/Joined.antt =====
-- uni_lbs_connection.cpp: the connection joins before it does anything else.
use turnserver_v.Base.{
  ap, ◌∙◌, refl, Ensures, ℕ, ◌+◌, ◌≤◌, ◌<◌, ◌≡◌, subst, false, [], ◌∷◌, some, ltb, if◌then◌else◌,
  Bool-cases, inl, inr, ◌⊎◌, ltb→lt, ltb→le, arith,
}
use turnserver_v.Wire.Unpacker.{Unpacker}
use turnserver_v.Packet.Lbs.{Text}
use turnserver_v.Net.Client.{Client}
use turnserver_v.Net.Client.Events.{Event, handle}
use turnserver_v.Lbs.Connection.Told.{accepted, acceptances, Tells, send-upcalls, callbacks-Tells}
use turnserver_v.Lbs.Connection.{
  ChannelInfo, Answers, Request, delta_channel_list, LbsConnection, init, send_packet, delta_packet,
  do_channel_create, do_channel_destroy, callbacks, step,
}
use turnserver_v.Lbs.Connection.Speaks.{others, Joins, when_joined, callbacks-Joins}

-- What a connection can become, by events of its client and announcements of channels in any order,
-- and how many replies that accept a join the client received until then.
pub data Reachable : ℕ → LbsConnection → Type 0 where
  made :
      (client : Client) (service_name release_version : Text) (service_id service_port : ℕ)
      → Reachable 0 (init client service_name service_id service_port release_version)
  stepped :
      (e : Event) (p : Unpacker) (v : Answers) (n : ℕ) (l l' : LbsConnection) (client : Client)
      → Reachable n l
      → handle e (record l.connection { calls = [] }) ≡ some client
      → step e p v l ≡ some l'
      → Reachable (n + acceptances client.calls p) l'
  created :
      (c : ChannelInfo) (n : ℕ) (l : LbsConnection)
      → Reachable n l
      → Reachable n (do_channel_create c l)
  destroyed :
      (c : ChannelInfo) (n : ℕ) (l : LbsConnection)
      → Reachable n l
      → Reachable n (do_channel_destroy c l)

ran_callbacks :
    (e : Event) (p : Unpacker) (v : Answers) (l l' : LbsConnection) (client : Client)
    → handle e (record l.connection { calls = [] }) ≡ some client
    → step e p v l ≡ some l'
    → callbacks client.calls p v (record l { connection = client }) ≡ some l'
unfolding step
ran_callbacks e p v l l' client ran done = rw ran at done

Reachable-Joins : (n : ℕ) (l : LbsConnection) → Reachable n l → Joins l
unfolding init do_channel_create do_channel_destroy
Reachable-Joins _ l (made client service_name release_version service_id service_port) = record {
  joined_lem = λ h. cc;
  sent_lem = λ h. absurd (omega (arith, h));
}
Reachable-Joins _ l' (stepped e p v n l d client r ran told) =
    let j = Reachable-Joins n l r in
    subst (Ensures Joins) (ran_callbacks e p v l l' client ran told) (
      callbacks-Joins client.calls p v (record l { connection = client })
        (record { joined_lem = j.joined_lem; sent_lem = j.sent_lem }))
Reachable-Joins _ l' (created c n l r) =
    when_joined (delta_channel_list (delta_packet (c ∷ []) [] l)) l (Reachable-Joins n l r)
Reachable-Joins _ l' (destroyed c n l r) =
    when_joined (delta_channel_list (delta_packet [] (c ∷ []) l)) l (Reachable-Joins n l r)

channel-silent :
    (p : Request) (l : LbsConnection)
    → (if l.joined then (send_packet p l).1 else l).upcalls ≡ l.upcalls
channel-silent p l = ground (arith, send-upcalls p l)

Reachable-told : (n : ℕ) (l : LbsConnection) → Reachable n l → accepted l.upcalls ≡ n
unfolding init do_channel_create do_channel_destroy
Reachable-told _ l (made client service_name release_version service_id service_port) = refl
Reachable-told _ l' (stepped e p v n l d client r ran told) =
    let t : Tells (acceptances client.calls p) (record l { connection = client }) l' =
      subst (Ensures (Tells (acceptances client.calls p) (record l { connection = client })))
        (ran_callbacks e p v l l' client ran told)
        (callbacks-Tells client.calls p v (record l { connection = client })) in
    omega (arith, t.told, Reachable-told n l r)
Reachable-told _ l' (created c n l r) = ap accepted (channel-silent _ l) ∙ Reachable-told n l r
Reachable-told _ l' (destroyed c n l r) = ap accepted (channel-silent _ l) ∙ Reachable-told n l r

-- `n` replies have accepted the join.
pub record IsEarned (n : ℕ) (l : LbsConnection) : Type 0 where
  pub told : accepted l.upcalls ≡ n
  pub earned : (0 < n) ⊎ ((l.joined ≡ false) × (others l.sent ≡ 0))

-- When the client of a reachable connection has received `n` replies that accept the join, which are
-- those of the two kinds of reply whose code is 0, then the object behind the callback was told `n`
-- times that the join was accepted; and without any such reply the connection has not joined, and has
-- sent requests to join only: no ping and no list of channels.
pub Reachable-IsEarned : (n : ℕ) (l : LbsConnection) → Reachable n l → IsEarned n l
Reachable-IsEarned n l r = record {
  told = t;
  earned = elim (Bool-cases (ltb 0 n)) [
    | inl some_reply ↦ inl (ltb→lt _ _ some_reply)
    | inr no_reply ↦ inr (outside (ltb→le _ _ no_reply), only_joins (ltb→le _ _ no_reply))
  ];
}
  where
    t : accepted l.upcalls ≡ n
    t = Reachable-told n l r

    j : Joins l
    j = Reachable-Joins n l r

    outside : n ≤ 0 → l.joined ≡ false
    outside none_yet = elim (Bool-cases l.joined) [
      | inl on ↦ absurd (omega (arith, none_yet, t, j.joined_lem on))
      | inr off ↦ off
    ]

    only_joins : n ≤ 0 → others l.sent ≡ 0
    only_joins none_yet = elim (Bool-cases (ltb 0 (others l.sent))) [
      | inl more ↦ absurd (omega (arith, none_yet, t, j.sent_lem (ltb→lt _ _ more)))
      | inr none_sent ↦ omega (arith, ltb→le _ _ none_sent)
    ]
