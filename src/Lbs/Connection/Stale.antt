-- ===== src/Lbs/Connection/Stale.antt =====
-- uni_lbs_connection.cpp over tcp_client.cpp: a join outlives its connection when the timer closes it.
use turnserver_v.Base.{
  ℕ, ◌+◌, ◌<◌, ◌≡◌, refl, sym, subst, ap, ◌∙◌, true, [], ◌∷◌, ◌++◌, append_assoc, some, ◌>>=◌,
}
use turnserver_v.Wire.Unpacker.{Unpacker}
use turnserver_v.Net.Client.{
  Client, Attempt, on_connect_call, is_connected, on_connect, connect_result,
}
use turnserver_v.Net.Client.Phases.{idle, trying, up, in_phase, IsIn}
use turnserver_v.Net.Client.Events.{connected, timer, handle}
use turnserver_v.Net.Client.Retry.{on_timer-gives_up}
use turnserver_v.Lbs.Connection as Lbs
use turnserver_v.Lbs.Connection.{
  ChannelInfo, Upcall, lbs_connected, Answers, Request, join_request, delta_channel_list,
  LbsConnection, tell, tcp_send_packet, send_packet, join_packet, delta_packet, do_channel_create,
  callback, callbacks, step,
}

-- The client without the calls that it has made.
abbrev quiet : Client → Client
quiet c = record c { calls = [] }

-- The timer closes a connection on which nothing arrived for longer than the timeout. UniLbsConnection
-- is not told: it stays joined without a connection.
timer-stays_joined :
    (t b : ℕ) (a : Attempt) (p : Unpacker) (v : Answers) (l : LbsConnection)
    → IsIn (up b) l.connection
    → l.connection.last_active_ts + l.connection.reconnect_timeout < t
    → (l' : LbsConnection) × (step (timer t a) p v l ≡ some l')
      × (l'.joined ≡ l.joined)
      × (l'.sent ≡ l.sent)
      × IsIn idle l'.connection
unfolding step handle callbacks
timer-stays_joined t b a p v l i h =
    let (c', ran, inside, same) =
      on_timer-gives_up t b a (quiet l.connection) (record { fixed = ap quiet i.fixed }) h in
    (
      record l { connection = c' },
      ap (λ o. o >>= λ k. callbacks k.calls p v (record l { connection = k })) ran
          ∙ ap (λ xs. callbacks xs p v (record l { connection = c' })) same,
      refl,
      refl,
      inside,
    )

-- What the next theorem says, as a predicate.
abbrev Announces : ℕ → Unpacker → Answers → ChannelInfo → LbsConnection → Type 0
Announces now p v c l =
    (l' : LbsConnection) × (step (connected now 0x80) p v l ≡ some l')
    × (l'.upcalls ≡ l.upcalls ++ (lbs_connected ∷ []))
    × ((do_channel_create c l').sent
        ≡ l.sent
          ++ (join_request (join_packet l) ∷ delta_channel_list (delta_packet (c ∷ []) [] l) ∷ []))

announces :
    (now b : ℕ) (p : Unpacker) (v : Answers) (c : ChannelInfo) (l : LbsConnection)
    → Announces now p v c
        (record l { joined = true; connection = in_phase (trying b) l.connection })
unfolding step handle callbacks callback on_connect connect_result Lbs.on_connect tcp_send_packet
    send_packet do_channel_create is_connected join_packet
announces now b p v c l = (
  record l {
    joined = true;
    connection = record (in_phase (up b) l.connection) {
      live = b ∷ [];
      calls = on_connect_call true ∷ [];
    };
    sent = l.sent ++ (join_request (join_packet l) ∷ []);
    upcalls = l.upcalls ++ (lbs_connected ∷ []);
  },
  refl,
  refl,
  rw append_assoc,
)

-- A new connection of a client that has stayed joined sends the request to join, and then announces
-- a channel although nothing has answered the request.
pub connected-announces :
    (now b : ℕ) (p : Unpacker) (v : Answers) (c : ChannelInfo) (l : LbsConnection)
    → IsIn (trying b) l.connection
    → l.joined ≡ true
    → (l' : LbsConnection) × (step (connected now 0x80) p v l ≡ some l')
      × (l'.upcalls ≡ l.upcalls ++ (lbs_connected ∷ []))
      × ((do_channel_create c l').sent
          ≡ l.sent
            ++ (join_request (join_packet l)
                ∷ delta_channel_list (delta_packet (c ∷ []) [] l)
                ∷ []))
connected-announces now b p v c l i j =
    subst (Announces now p v c)
      (sym (
        ap (λ k. record l { connection = k }) i.fixed
        ∙ ap (λ t. record l { joined = t; connection = in_phase (trying b) l.connection }) j))
      (announces now b p v c l)
