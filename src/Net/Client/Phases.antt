-- ===== src/Net/Client/Phases.antt =====
-- tcp_client.cpp: the phases of a client. It has nothing, a pending bufferevent, or a connection, and
-- owns what it has.
use turnserver_v.Base.{
  ℕ, ◌+◌, ◌≡◌, refl, Bool, true, false, not, ◌&&◌, List, [], ◌∷◌, Option, none, some, ◌>>=◌, ◌||◌,
  ltb, leb, ◌==◌, ==_iff, if◌then◌else◌, Bool-cases, inl, inr, arith,
}
use turnserver_v.Net.Client.{
  Client, Attempt, is_connected, free, schedule_next_try, close_conn, close_pending, close,
  connect_result, on_connect, start, new_pending, connect, on_timer, tell, on_connect_call,
  time_to_ping_call,
}

pub data Phase : Type 0 where
  idle : Phase
  trying up : ℕ → Phase

-- A client with the fields that the phase fixes: the pointers, the flag, and what is not freed.
abbrev pub in_phase : Phase → Client → Client
in_phase idle c = record c { pending = none; conn = none; connecting = false; live = [] }
in_phase (trying b) c = record c { pending = some b; conn = none; connecting = true; live = b ∷ [] }
in_phase (up b) c = record c { pending = none; conn = some b; connecting = false; live = b ∷ [] }

pub record IsIn (φ : Phase) (c : Client) : Type 0 where
  pub fixed : c ≡ in_phase φ c

abbrev pub IsValid : Client → Type 0
IsValid c = (φ : Phase) × IsIn φ c

pub free-head : (b : ℕ) (live : List ℕ) → free b (b ∷ live) ≡ some live
unfolding free
free-head b live = rw (==_iff b b).1

-- The moves between phases: only a pending bufferevent becomes a connection.
pub data Move : Phase → Phase → Type 0 where
  stay : (φ : Phase) → Move φ φ
  begin : (b : ℕ) → Move idle (trying b)
  accept : (b : ℕ) → Move (trying b) (up b)
  refuse : (b : ℕ) → Move (trying b) idle
  drop_conn : (b : ℕ) → Move (up b) idle
  again : (b b' : ℕ) → Move (up b) (trying b')

pub record Handled (φ : Phase) (o : Option Client) : Type 0 where
  pub after : Client
  pub phase : Phase
  pub result : o ≡ some after
  pub inside : IsIn phase after
  pub move : Move φ phase

pub stays : (φ ψ : Phase) (c : Client) → Move φ ψ → Handled φ (some (in_phase ψ c))
stays φ ψ c m = record {
  after = in_phase ψ c;
  phase = ψ;
  result = refl;
  inside = record { fixed = same ψ };
  move = m;
}
  where
    same : (ψ : Phase) → in_phase ψ c ≡ in_phase ψ (in_phase ψ c)
    same idle = refl
    same (trying b) = refl
    same (up b) = refl

pub schedule-in_phase :
    (φ : Phase) (now : ℕ) (c : Client)
    → schedule_next_try now (in_phase φ c) ≡ in_phase φ (schedule_next_try now c)
unfolding schedule_next_try
schedule-in_phase idle now c = elim (Bool-cases (leb now (c.last_try_ts + 60))) [
  | inl e ↦ rw e
  | inr e ↦ rw e
]
schedule-in_phase (trying b) now c = elim (Bool-cases (leb now (c.last_try_ts + 60))) [
  | inl e ↦ rw e
  | inr e ↦ rw e
]
schedule-in_phase (up b) now c = elim (Bool-cases (leb now (c.last_try_ts + 60))) [
  | inl e ↦ rw e
  | inr e ↦ rw e
]

pub close-in_phase : (φ : Phase) (c : Client) → close (in_phase φ c) ≡ some (in_phase idle c)
unfolding close close_pending close_conn
close-in_phase idle c = refl
close-in_phase (trying b) c = rw (free-head b [])
close-in_phase (up b) c = rw (free-head b [])

-- The refusal of the pending bufferevent: it is freed, and the next try is scheduled.
refused :
    (now b : ℕ) (c : Client)
    → connect_result now false true b (in_phase (trying b) c)
      ≡ some (in_phase idle (tell (on_connect_call false) (schedule_next_try now c)))
unfolding connect_result schedule_next_try
refused now b c = elim (Bool-cases (leb now (c.last_try_ts + 60))) [
  | inl e ↦ rw (free-head b [], e)
  | inr e ↦ rw (free-head b [], e)
]

pub connect_result-Handled :
    (now b : ℕ) (c : Client) (connected error : Bool)
    → (connected || error) ≡ true
    → Handled (trying b) (connect_result now connected error b (in_phase (trying b) c))
connect_result-Handled now b c true error h =
    unfold connect_result in stays (trying b) (up b) (tell (on_connect_call true) c) (accept b)
connect_result-Handled now b c false true h =
    rw (refused now b c)
      (stays (trying b) idle (tell (on_connect_call false) (schedule_next_try now c)) (refuse b))
connect_result-Handled now b c false false h = absurd (grind arith)

-- Connect from its call of bufferevent_socket_connect on, in its three ends.
start-Handled :
    (now : ℕ) (a : Attempt) (b : ℕ) (c : Client) (φ : Phase)
    → Move φ (trying b)
    → Move φ idle
    → (unbound started : Bool) → (not (c.local_port == 0) && not a.bound) ≡ unbound
    → a.started ≡ started
    → Handled φ (start now a b (in_phase (trying b) c) >>= λ r. some r.1)
unfolding start on_connect
start-Handled now a b c φ begun over true started u s = rw (u, free-head b []) (stays φ idle c over)
start-Handled now a b c φ begun over false true u s = rw (u, s) (stays φ (trying b) c begun)
start-Handled now a b c φ begun over false false u s =
    rw (u, s, refused now b c)
      (stays φ idle (tell (on_connect_call false) (schedule_next_try now c)) over)

attempt-Handled :
    (now : ℕ) (a : Attempt) (c : Client) (φ : Phase)
    → Move φ (trying c.fresh)
    → Move φ idle
    → (ready : Bool)
    → Handled φ (
        (if ready
          then start now a c.fresh (new_pending (in_phase idle c))
          else some (false, in_phase idle c))
        >>= λ r. some r.1)
attempt-Handled now a c φ begun over true =
    unfold new_pending in
    start-Handled now a c.fresh (record c { fresh = c.fresh + 1 }) φ begun over
      (not (c.local_port == 0) && not a.bound) a.started refl refl
attempt-Handled now a c φ begun over false = stays φ idle c over

pub connect-Handled :
    (now : ℕ) (a : Attempt) (φ : Phase) (c : Client)
    → Handled φ (connect now a (in_phase φ c) >>= λ r. some r.1)
unfolding connect close_conn
connect-Handled now a idle c =
    attempt-Handled now a (record c { last_try_ts = now; last_active_ts = now }) idle
      (begin c.fresh) (stay idle) (a.socket && a.nonblocking)
connect-Handled now a (trying b) c = stays (trying b) (trying b) c (stay (trying b))
connect-Handled now a (up b) c = rw (free-head b []) (
    attempt-Handled now a (record c { last_try_ts = now; last_active_ts = now }) (up b)
      (again b c.fresh) (drop_conn b) (a.socket && a.nonblocking))

-- A timer's turn, by the results of its three tests.
pub timer-Handled :
    (now : ℕ) (a : Attempt) (φ : Phase) (c : Client) → Handled φ (on_timer now a (in_phase φ c))
unfolding on_timer is_connected
timer-Handled now a idle c = elim (Bool-cases (leb c.next_try_ts now)) [
  | inl e ↦ rw e (connect-Handled now a idle c)
  | inr e ↦ rw e (stays idle idle c (stay idle))
]
timer-Handled now a (trying b) c = stays (trying b) (trying b) c (stay (trying b))
timer-Handled now a (up b) c =
    elim (Bool-cases (ltb (c.last_active_ts + c.reconnect_timeout) now)) [
      | inl e ↦
          rw (e, schedule-in_phase (up b) now c, close-in_phase (up b) (schedule_next_try now c))
            (stays (up b) idle (schedule_next_try now c) (drop_conn b))
      | inr e ↦ rw e (stays (up b) (up b) (tell time_to_ping_call c) (stay (up b)))
    ]
