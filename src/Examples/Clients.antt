-- ===== src/Examples/Clients.antt =====
-- A client that connects, loses its connection, and tries again.
use turnserver_v.Base.{◌≡◌, refl, ◌>>=◌, true, false, [], ◌∷◌, none, some, arith}
use turnserver_v.Net.Client.{
  Client, Attempt, init, connect, on_connect, on_error, on_timer, on_connect_call,
  on_socket_error_call, close_conn, start, new_pending, connect_result, schedule_next_try, close,
  close_pending, free,
}
use turnserver_v.Net.Client.Phases.{idle, trying, up, IsIn, IsValid, Handled}
use turnserver_v.Net.Client.Events.{
  connected, failed, asked_to_connect, handle, Reachable, made, after, handle-Handled,
  Reachable-IsValid,
}
use turnserver_v.Net.Client.Retry.{IsGranted, on_error-retries, on_timer-gives_up}

abbrev pub granted : Attempt
granted = record { socket = true; nonblocking = true; bound = true; started = true }

-- A connection since 1000, with the bufferevent 0.
abbrev pub online : Client
online = record {
  local_port = 0;
  pending = none;
  conn = some 0;
  connecting = false;
  reconnect_timeout = 10;
  last_try_ts = 1000;
  next_try_ts = 0;
  backoff = λ n. n;
  next_try_interval = 10;
  last_active_ts = 1000;
  live = 0 ∷ [];
  fresh = 1;
  calls = on_connect_call true ∷ [];
}

pub online-IsIn : IsIn (up 0) online
online-IsIn = record { fixed = refl }

-- Connect at 1000, and the report of libevent.
reached :
    (do (_, c) ← connect 1000 granted (init 990 0 (λ n. n)); on_connect 1001 0x80 c) ≡ some online
unfolding init connect close_conn start new_pending on_connect connect_result
reached = refl

on_error_calls :
    (do c ← on_error 1020 online; some c.calls)
    ≡ some (on_connect_call true ∷ on_socket_error_call ∷ [])
unfolding on_error close close_pending close_conn free schedule_next_try
on_error_calls = refl

handle-Handled_example : Handled (up 0) (handle (failed 1020) online)
handle-Handled_example = handle-Handled (failed 1020) (up 0) online tt online-IsIn

abbrev pub waiting : Client
waiting = record online { pending = some 0; conn = none; connecting = true; calls = [] }

online-Reachable : Reachable online
unfolding handle init connect close_conn start new_pending on_connect connect_result
online-Reachable =
    after (connected 1001 0x80) (trying 0) waiting online
      (after (asked_to_connect 1000 granted) idle (init 990 0 (λ n. n)) waiting
        (made 990 0 (λ n. n)) (record { fixed = refl }) tt refl)
      (record { fixed = refl }) refl refl

Reachable-IsValid_example : IsValid online
Reachable-IsValid_example = Reachable-IsValid online online-Reachable

granted-IsGranted : IsGranted granted
granted-IsGranted = record { socket = refl; nonblocking = refl; bound = refl; started = refl }

on_error-retries_example :
    (c' : Client) × (c'' : Client) × (on_error 1020 online ≡ some c')
    × (on_timer 1030 granted c' ≡ some c'')
    × (c''.connecting ≡ true)
    × (c''.last_try_ts ≡ 1030)
on_error-retries_example =
    on_error-retries 1020 1030 0 granted online online-IsIn (omega arith) granted-IsGranted

on_timer-gives_up_example :
    (c' : Client) × (on_timer 1011 granted online ≡ some c')
    × IsIn idle c'
    × (c'.calls ≡ online.calls)
on_timer-gives_up_example = on_timer-gives_up 1011 0 granted online online-IsIn (omega arith)
