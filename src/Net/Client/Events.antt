-- ===== src/Net/Client/Events.antt =====
-- tcp_client.cpp: what calls a client, and that the client survives it in every order.
use turnserver_v.Base.{ℕ, ◌≡◌, refl, ◌∙◌, true, Option, some, ◌>>=◌, ◌||◌, sym, subst}
use mathlib.Core.Option.{some-injective}
use turnserver_v.Net.Client.{
  Client, Attempt, init, set_timeout, set_backoff, schedule_next_try, close, event_connected,
  event_error, on_connect, connect, on_error, on_packet_received, on_timer, tell,
  on_socket_error_call, on_packet_received_call,
}
use turnserver_v.Net.Client.Phases.{
  Phase, idle, trying, up, in_phase, IsIn, IsValid, Move, stay, refuse, drop_conn, Handled, stays,
  connect_result-Handled, connect-Handled, timer-Handled, schedule-in_phase, close-in_phase,
}

-- What calls a client: its owner, libevent and the timer.
pub data Event : Type 0 where
  connected : ℕ → ℕ → Event
  failed : ℕ → Event
  received : ℕ → ℕ → ℕ → Event
  timer : ℕ → Attempt → Event
  asked_to_connect : ℕ → Attempt → Event
  asked_to_close : Event
  timeout_set : ℕ → Event
  backoff_set : (ℕ → ℕ) → Event

unfoldable pub handle : Event → Client → Option Client
handle (connected now events) c = on_connect now events c
handle (failed now) c = on_error now c
handle (received now server_type uri) c = some (on_packet_received now server_type uri c)
handle (timer now a) c = on_timer now a c
handle (asked_to_connect now a) c = do (_, c) ← connect now a c; some c
handle asked_to_close c = close c
handle (timeout_set seconds) c = some (set_timeout seconds c)
handle (backoff_set backoff) c = some (set_backoff backoff c)

-- libevent reports on the pending bufferevent, that it is connected or has failed, and the
-- connection reports while it is there. The owner and the timer call in every phase.
abbrev pub IsEnabled : Event → Phase → Type 0
IsEnabled (connected now events) (trying b) = (event_connected events || event_error events) ≡ true
IsEnabled (connected now events) φ = ⊥
IsEnabled (failed now) (up b) = Unit
IsEnabled (failed now) φ = ⊥
IsEnabled (received now server_type uri) (up b) = Unit
IsEnabled (received now server_type uri) φ = ⊥
IsEnabled e φ = Unit

handle-in_phase :
    (e : Event) (φ : Phase) (c : Client) → IsEnabled e φ → Handled φ (handle e (in_phase φ c))
unfolding handle
handle-in_phase (connected now events) (trying b) c h =
    unfold on_connect in
    connect_result-Handled now b c (event_connected events) (event_error events) h
handle-in_phase (connected now events) idle c h = elim h [ ]
handle-in_phase (connected now events) (up b) c h = elim h [ ]
handle-in_phase (failed now) idle c h = elim h [ ]
handle-in_phase (failed now) (trying b) c h = elim h [ ]
handle-in_phase (received now server_type uri) idle c h = elim h [ ]
handle-in_phase (received now server_type uri) (trying b) c h = elim h [ ]
handle-in_phase (failed now) (up b) c h =
    unfold on_error in
    rw (schedule-in_phase (up b) now c, close-in_phase (up b) (schedule_next_try now c))
      (stays (up b) idle (tell on_socket_error_call (schedule_next_try now c)) (drop_conn b))
handle-in_phase (received now server_type uri) (up b) c h =
    unfold on_packet_received in
    stays (up b) (up b)
      (tell (on_packet_received_call server_type uri) (record c { last_active_ts = now }))
      (stay (up b))
handle-in_phase (timer now a) φ c h = timer-Handled now a φ c
handle-in_phase (asked_to_connect now a) φ c h = connect-Handled now a φ c
handle-in_phase asked_to_close φ c h = rw (close-in_phase φ c) (stays φ idle c (closing φ))
  where
    closing : (φ : Phase) → Move φ idle
    closing idle = stay idle
    closing (trying b) = refuse b
    closing (up b) = drop_conn b
handle-in_phase (timeout_set seconds) idle c h =
    unfold set_timeout in stays idle idle (set_timeout seconds c) (stay idle)
handle-in_phase (timeout_set seconds) (trying b) c h =
    unfold set_timeout in stays (trying b) (trying b) (set_timeout seconds c) (stay (trying b))
handle-in_phase (timeout_set seconds) (up b) c h =
    unfold set_timeout in stays (up b) (up b) (set_timeout seconds c) (stay (up b))
handle-in_phase (backoff_set backoff) idle c h =
    unfold set_backoff in stays idle idle (set_backoff backoff c) (stay idle)
handle-in_phase (backoff_set backoff) (trying b) c h =
    unfold set_backoff in stays (trying b) (trying b) (set_backoff backoff c) (stay (trying b))
handle-in_phase (backoff_set backoff) (up b) c h =
    unfold set_backoff in stays (up b) (up b) (set_backoff backoff c) (stay (up b))

-- In every phase, every event that the phase admits is handled without a failed assertion or a
-- second free of a bufferevent. It moves the client along `Move` to a phase in which the client owns
-- exactly the bufferevents that are not freed.
pub handle-Handled :
    (e : Event) (φ : Phase) (c : Client) → IsEnabled e φ → IsIn φ c → Handled φ (handle e c)
handle-Handled e φ c h i =
    subst (λ t. Handled φ (handle e t)) (sym i.fixed) (handle-in_phase e φ c h)

-- What a client can become after its construction, by events that its phase admits.
pub data Reachable : Client → Type 0 where
  made : (now local_port : ℕ) (backoff : ℕ → ℕ) → Reachable (init now local_port backoff)
  after :
      (e : Event) (φ : Phase) (c c' : Client)
      → Reachable c
      → IsIn φ c
      → IsEnabled e φ
      → handle e c ≡ some c'
      → Reachable c'

-- A client that is reached by any number of admitted events is in a phase: nothing leaks.
pub Reachable-IsValid : (c : Client) → Reachable c → IsValid c
unfolding init
Reachable-IsValid c (made now local_port backoff) = (idle, record { fixed = refl })
Reachable-IsValid c' (after e φ c d' r i h ran) =
    let d = handle-Handled e φ c h i in
    (d.phase, subst (IsIn d.phase) (some-injective d.after d' (sym d.result ∙ ran)) d.inside)
