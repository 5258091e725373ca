-- ===== src/Server/Elbs/Quiet.antt =====
-- turnserver_main.cc: the operations of ElbsConnection that start no connection to an edge server
-- and touch no timer.
use turnserver_v.Base.{
  ℕ, ◌≡◌, refl, ◌∙◌, Bool, true, false, List, [], ◌∷◌, Option, none, some, ◌>>=◌, ltb, ◌==◌,
  if◌then◌else◌, Bool-cases, inl, inr, Ensures, Ensures-bind,
}
use turnserver_v.Packet.Elbs.{rejoin_response, rejoin_response_uri, rejoin_request}
use turnserver_v.Wire.Unpacker.{Unpacker, pop_uint16, rewind}
use turnserver_v.Wire.Unpacker
use turnserver_v.Wire.Transfer.{send}
use turnserver_v.Server.Thread.{Thread}
use turnserver_v.Server.Elbs.{
  Outside, ElbsConnection, connect_elbs, connect_each, join_elbs, send_report, close_old, adopt,
  argus_ping, close_socket, Event, response_packet, elbs_socket_connect, argus_socket_connect,
  socket_close, message, step, rejoin_answered, on_response_packet, on_elbs_socket_connect,
  on_argus_socket_connect, on_socket_close, on_message, request,
}

module _ (rtc : Thread) (network_to_host32 : ℕ → ℕ) where
  pub record IsQuiet (e e' : ElbsConnection rtc network_to_host32) : Type 0 where
    pub thread_same : e'.thread ≡ e.thread
    pub edges_same : e'.edges ≡ e.edges
    pub last_same : e'.last_connect_ts ≡ e.last_connect_ts

  pub IsQuiet-trans :
      {a b c : ElbsConnection rtc network_to_host32} → IsQuiet a b → IsQuiet b c → IsQuiet a c
  IsQuiet-trans p q = record {
    thread_same = q.thread_same ∙ p.thread_same;
    edges_same = q.edges_same ∙ p.edges_same;
    last_same = q.last_same ∙ p.last_same;
  }

  pub IsQuiet-refl : {e : ElbsConnection rtc network_to_host32} → IsQuiet e e
  IsQuiet-refl = record { thread_same = refl; edges_same = refl; last_same = refl }

  if-IsQuiet :
      {e a c : ElbsConnection rtc network_to_host32} (b : Bool)
      → IsQuiet e a
      → IsQuiet e c
      → IsQuiet e (if b then a else c)
  if-IsQuiet true p q = p
  if-IsQuiet false p q = q

  connect_elbs-IsQuiet :
      (created : Option ℕ) (e : ElbsConnection rtc network_to_host32)
      → IsQuiet e (connect_elbs rtc network_to_host32 created e)
  unfolding connect_elbs
  connect_elbs-IsQuiet none e = IsQuiet-refl
  connect_elbs-IsQuiet (some s) e = record {
    thread_same = refl;
    edges_same = refl;
    last_same = refl;
  }

  pub connect_each-IsQuiet :
      (hosts : List (ℕ × Option ℕ)) (e : ElbsConnection rtc network_to_host32)
      → IsQuiet e (connect_each rtc network_to_host32 hosts e)
  unfolding connect_each
  connect_each-IsQuiet [] e = IsQuiet-refl
  connect_each-IsQuiet ((ip, created) ∷ hosts) e =
      IsQuiet-trans (connect_elbs-IsQuiet created e)
        (connect_each-IsQuiet hosts (connect_elbs rtc network_to_host32 created e))

  pub join_elbs-IsQuiet :
      (w : Outside) (e : ElbsConnection rtc network_to_host32)
      → IsQuiet e (join_elbs rtc network_to_host32 w e)
  unfolding join_elbs
  join_elbs-IsQuiet w e =
      IsQuiet-trans (record { thread_same = refl; edges_same = refl; last_same = refl })
        (connect_each-IsQuiet w.hosts (record e { elbs_socket = [] }))

  send_report-IsQuiet :
      (now : ℕ) (s : Option ℕ) (payload : List ℕ) (e : ElbsConnection rtc network_to_host32)
      → IsQuiet e (send_report rtc network_to_host32 now s payload e)
  unfolding send_report
  send_report-IsQuiet now none payload e = IsQuiet-refl
  send_report-IsQuiet now (some s) [] e = IsQuiet-refl
  send_report-IsQuiet now (some s) (b ∷ payload) e = record {
    thread_same = refl;
    edges_same = refl;
    last_same = refl;
  }

  close_old-IsQuiet :
      (s : Option ℕ) (e : ElbsConnection rtc network_to_host32)
      → IsQuiet e (close_old rtc network_to_host32 s e)
  unfolding close_old
  close_old-IsQuiet none e = IsQuiet-refl
  close_old-IsQuiet (some s) e = record { thread_same = refl; edges_same = refl; last_same = refl }

  pub adopt-IsQuiet :
      (w : Outside) (c : ℕ) (e : ElbsConnection rtc network_to_host32)
      → IsQuiet e (adopt rtc network_to_host32 w c e)
  unfolding adopt
  adopt-IsQuiet w c e = IsQuiet-trans (close_old-IsQuiet e.socket e) (
      IsQuiet-trans {b = record (close_old rtc network_to_host32 e.socket e) { socket = some c }}
        (record { thread_same = refl; edges_same = refl; last_same = refl })
        (IsQuiet-trans (send_report-IsQuiet w.now (some c) w.quit_report _)
          (send_report-IsQuiet w.now (some c) w.connect_report _)))

  pub argus_connect-IsQuiet :
      (b : Bool) (w : Outside) (s c : ℕ) (e : ElbsConnection rtc network_to_host32)
      → IsQuiet e
          (if b then adopt rtc network_to_host32 w c e else close_socket rtc network_to_host32 s e)
  argus_connect-IsQuiet b w s c e =
      if-IsQuiet b (adopt-IsQuiet w c e)
        (record { thread_same = refl; edges_same = refl; last_same = refl })

  pub argus_ping-IsQuiet :
      (w : Outside) (s : Option ℕ) (e : ElbsConnection rtc network_to_host32)
      → IsQuiet e (argus_ping rtc network_to_host32 w s e)
  unfolding argus_ping
  argus_ping-IsQuiet w none e = IsQuiet-refl
  argus_ping-IsQuiet w (some s) e =
      if-IsQuiet (w.is_up s) (record { thread_same = refl; edges_same = refl; last_same = refl })
        IsQuiet-refl

  -- What holds of the connection as it was, and of it once it has taken an answer in.
  pub response-Ensures :
      (P : ElbsConnection rtc network_to_host32 → Type 0) (w : Outside) (s : ℕ) (mem : List ℕ)
      (size : ℕ) (e : ElbsConnection rtc network_to_host32)
      → P e
      → ((ip port : ℕ) → P (rejoin_answered rtc network_to_host32 w s ip port e))
      → Ensures P (on_response_packet rtc network_to_host32 w s mem size e)
  unfolding on_response_packet
  response-Ensures P w s mem size e before after = elim (Bool-cases (ltb size 4)) [
    | inl short ↦ rw short before
    | inr long ↦ rw long (
        Ensures-bind P (Unpacker.init mem size false) _ (λ u1.
          Ensures-bind P (pop_uint16 u1) _ (λ t.
            Ensures-bind P (pop_uint16 t.1) _
              (λ p. Ensures-bind P (rewind p.1) _ (λ u. answered p.0 u)))))
  ]
    where
      answered :
          (uri : ℕ) (u : Unpacker)
          → Ensures P (
              if uri == rejoin_response_uri
              then (do
                (response, u) ← rejoin_response.pop rejoin_response.blank u
                some
                    (rejoin_answered rtc network_to_host32 w s response.member2 response.member3 e))
              else some e)
      answered uri u = elim (Bool-cases (uri == 7)) [
        | inr other ↦ rw other before
        | inl rejoined ↦ rw rejoined (
            Ensures-bind P (rejoin_response.pop rejoin_response.blank u) _
              (λ p. after p.0.member2 p.0.member3))
      ]

  -- What every event but an answer and a timer's message preserves if quiet operations do.
  pub quiet-Ensures :
      (P : ElbsConnection rtc network_to_host32 → Type 0) (w : Outside) (x : Event)
      (e : ElbsConnection rtc network_to_host32)
      → ((e' : ElbsConnection rtc network_to_host32) → IsQuiet e e' → P e')
      → ((s ip port : ℕ) → P (rejoin_answered rtc network_to_host32 w s ip port e))
      → ((m : ℕ)
          → P (on_message rtc network_to_host32 w m (record e { thread = rtc.take m e.thread })))
      → Ensures P (step rtc network_to_host32 w x e)
  unfolding step on_socket_close on_elbs_socket_connect on_argus_socket_connect
  quiet-Ensures P w (response_packet s mem size) e quiet answered ticked =
      response-Ensures P w s mem size e (quiet e IsQuiet-refl) (answered s)
  quiet-Ensures P w (elbs_socket_connect s) e quiet answered ticked =
      Ensures-bind P (send rejoin_request (request rtc network_to_host32 e)) _
        (λ bs. quiet _ (record { thread_same = refl; edges_same = refl; last_same = refl }))
  quiet-Ensures P w (argus_socket_connect s) e quiet answered ticked =
      Ensures-bind P e.socket_connecting _
        (λ c. quiet _ (argus_connect-IsQuiet (w.same_local_address s c) w s c e))
  quiet-Ensures P w (socket_close s) e quiet answered ticked =
      quiet _ (record { thread_same = refl; edges_same = refl; last_same = refl })
  quiet-Ensures P w (message m) e quiet answered ticked = ticked m
