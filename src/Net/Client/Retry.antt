-- ===== src/Net/Client/Retry.antt =====
-- tcp_client.cpp: when a client tries again, and when it gives a connection up.
use turnserver_v.Base.{
  ℕ, ◌+◌, ◌≤◌, ◌<◌, ◌≡◌, refl, sym, subst, ap, ◌∙◌, Bool, true, false, not, ◌&&◌, some, leb,
  if◌then◌else◌, Bool-cases, inl, inr, lt→ltb, le→ltb, le→leb, lt→leb, ◌==◌,
}
use turnserver_v.Net.Client.{
  Client, Attempt, tell, on_socket_error_call, time_to_ping_call, is_connected, schedule_next_try,
  close_conn, start, new_pending, connect, on_error, on_packet_received, on_timer,
}
use turnserver_v.Net.Client.Phases.{
  idle, trying, up, in_phase, IsIn, schedule-in_phase, close-in_phase,
}

-- The client that OnError leaves.
dropped : ℕ → Client → Client
dropped now c = tell on_socket_error_call (schedule_next_try now c)

on_error-in_phase :
    (now b : ℕ) (c : Client)
    → on_error now (in_phase (up b) c) ≡ some (in_phase idle (dropped now c))
unfolding on_error dropped
on_error-in_phase now b c =
    rw (schedule-in_phase (up b) now c, close-in_phase (up b) (schedule_next_try now c))

-- When the next try is due.
abbrev pub due : ℕ → Client → ℕ
due now c = if leb now (c.last_try_ts + 60) then now + c.next_try_interval else 0

dropped-next_try_ts : (now : ℕ) (c : Client) → (dropped now c).next_try_ts ≡ due now c
unfolding dropped schedule_next_try
dropped-next_try_ts now c = elim (Bool-cases (leb now (c.last_try_ts + 60))) [
  | inl e ↦ rw e
  | inr e ↦ rw e
]

-- The system grants all that Connect asks for.
pub record IsGranted (a : Attempt) : Type 0 where
  pub socket : a.socket ≡ true
  pub nonblocking : a.nonblocking ≡ true
  pub bound : a.bound ≡ true
  pub started : a.started ≡ true

timer-early :
    (t : ℕ) (a : Attempt) (c : Client)
    → t < c.next_try_ts
    → on_timer t a (in_phase idle c) ≡ some (in_phase idle c)
unfolding on_timer is_connected
timer-early t a c h = rw (lt→leb _ _ h)

timer-late :
    (t : ℕ) (a : Attempt) (c : Client)
    → c.next_try_ts ≤ t
    → IsGranted a
    → on_timer t a (in_phase idle c)
      ≡ some (
          in_phase
            (trying c.fresh)
            (record c { last_try_ts = t; last_active_ts = t; fresh = c.fresh + 1 }))
unfolding on_timer is_connected connect close_conn start new_pending
timer-late t a c h g =
    rw (le→leb _ _ h, g.socket, g.nonblocking, g.bound, either (not (c.local_port == 0)), g.started)
  where
    either : (t : Bool) → (t && false) ≡ false
    either true = refl
    either false = refl

-- After OnError on a connection, a timer before the next try is due changes nothing.
on_error-waits :
    (now t b : ℕ) (a : Attempt) (c : Client)
    → IsIn (up b) c
    → t < due now c
    → (c' : Client) × (on_error now c ≡ some c') × (on_timer t a c' ≡ some c')
on_error-waits now t b a c i h = (
  in_phase idle (dropped now c),
  ap (on_error now) i.fixed ∙ on_error-in_phase now b c,
  timer-early t a (dropped now c) (subst (λ n. t < n) (sym (dropped-next_try_ts now c)) h),
)

-- After OnError on a connection, a timer when the next try is due starts to connect, where the
-- system grants what Connect asks for, and notes the time of the try.
pub on_error-retries :
    (now t b : ℕ) (a : Attempt) (c : Client)
    → IsIn (up b) c
    → due now c ≤ t
    → IsGranted a
    → (c' : Client) × (c'' : Client) × (on_error now c ≡ some c')
      × (on_timer t a c' ≡ some c'')
      × (c''.connecting ≡ true)
      × (c''.last_try_ts ≡ t)
on_error-retries now t b a c i h g = (
  in_phase idle (dropped now c),
  in_phase (trying (dropped now c).fresh) (record (dropped now c) {
    last_try_ts = t;
    last_active_ts = t;
    fresh = (dropped now c).fresh + 1;
  }),
  ap (on_error now) i.fixed ∙ on_error-in_phase now b c,
  timer-late t a (dropped now c) (subst (λ n. n ≤ t) (sym (dropped-next_try_ts now c)) h) g,
  refl,
  refl,
)

-- A connection on which a packet arrived is not given up before the timeout after it: the timer asks
-- for a ping and changes nothing else.
on_packet_received-keeps :
    (now t b server_type uri : ℕ) (a : Attempt) (c : Client)
    → IsIn (up b) c
    → t ≤ now + c.reconnect_timeout
    → on_timer t a (on_packet_received now server_type uri c)
      ≡ some (tell time_to_ping_call (on_packet_received now server_type uri c))
on_packet_received-keeps now t b server_type uri a c i h =
    subst
      (λ d.
        on_timer t a (on_packet_received now server_type uri d)
        ≡ some (tell time_to_ping_call (on_packet_received now server_type uri d)))
      (sym i.fixed) (unfold on_timer is_connected on_packet_received in rw (le→ltb _ _ h))

-- A connection on which nothing arrived for longer than the timeout is given up by the timer: its
-- bufferevent is freed, and the object behind the callback is not told.
pub on_timer-gives_up :
    (t b : ℕ) (a : Attempt) (c : Client)
    → IsIn (up b) c
    → c.last_active_ts + c.reconnect_timeout < t
    → (c' : Client) × (on_timer t a c ≡ some c') × IsIn idle c' × (c'.calls ≡ c.calls)
on_timer-gives_up t b a c i h = (
  in_phase idle (schedule_next_try t c),
  ap (on_timer t a) i.fixed ∙ given_up,
  record { fixed = refl },
  schedule-calls,
)
  where
    given_up : on_timer t a (in_phase (up b) c) ≡ some (in_phase idle (schedule_next_try t c))
    given_up =
        unfold on_timer is_connected in
        rw (
          lt→ltb _ _ h,
          schedule-in_phase (up b) t c,
          close-in_phase (up b) (schedule_next_try t c),
        )

    schedule-calls : (schedule_next_try t c).calls ≡ c.calls
    schedule-calls =
        unfold schedule_next_try in
        elim (Bool-cases (leb t (c.last_try_ts + 60))) [ inl e ↦ rw e | inr e ↦ rw e ]
