-- ===== src/Net/Server/Life.antt =====
-- tcp_server.cpp: what a TcpServer goes through between its constructor and its destructor.
use turnserver_v.Base.{
  ℕ, ◌^◌, ◌<◌, Bool, true, false, ◌≡◌, refl, sym, subst, Ensures, List, [], ◌∷◌, ◌++◌, Option, none,
  some, All, Bool-cases, inl, inr,
}
use turnserver_v.Address.Host.{ByteOrder, SockaddrIn}
use turnserver_v.Net.Server.{
  Listener, Call, TcpServer, Granted, call, init, bind_and_listen, listen_if, listen_on,
  register_callback, set_option, enable_mptcp, enable_reuse_port, accept_connection,
  get_listen_port, destroy,
}
use turnserver_v.Net.Server.Call.{
  keep_alive, reuse_address, bound, listening, mptcp, reuse_port, handed_over,
}

pub data Event : Type 0 where
  listen : ℕ → ℕ → Granted → Event
  register : Bool → Event
  want_mptcp : Bool → Bool → Event
  want_reuse_port : Bool → Event
  accepted : ℕ → Bool → Event

unfoldable pub handle : ByteOrder → Event → TcpServer → Option TcpServer
handle o (listen port address g) s = some ((listen_on o port address g s).1)
handle o (register callback) s = some (register_callback callback s)
handle o (want_mptcp enable granted) s = some ((enable_mptcp enable granted s).1)
handle o (want_reuse_port granted) s = some ((enable_reuse_port granted s).1)
handle o (accepted fd socklen) s = accept_connection fd socklen s

pub data Reachable (o : ByteOrder) : TcpServer → Type 0 where
  made :
      (created : Option ℕ) (nonblocking callback : Bool) (s : TcpServer)
      → init created nonblocking callback ≡ some s
      → Reachable o s
  stepped : (s t : TcpServer) (e : Event) → Reachable o s → handle o e s ≡ some t → Reachable o t

-- A call that sets the socket up.
abbrev sets_up : Call → Bool
sets_up (handed_over fd) = false
sets_up other = true

abbrev pub starts : Call → Bool
starts listening = true
starts other = false

abbrev pub IsQuiet : Call → Type 0
IsQuiet c = sets_up c ≡ false

abbrev IsEarly : Call → Type 0
IsEarly c = starts c ≡ false

-- Before it listens a server has not asked for it; from then on it only hands connections over, and
-- the listener, which closes the socket when it is freed, has the socket of the server.
pub data Stage (fd : ℕ) : Option Listener → List Call → Type 0 where
  set_up : (before : List Call) → All IsEarly before → Stage fd none before
  serves :
      (after before calls : List Call)
      → calls ≡ after ++ (listening ∷ before)
      → All IsQuiet after
      → All IsEarly before
      → Stage fd (some (record { fd = fd; close_on_free = true })) calls

abbrev pub IsStaged : TcpServer → Type 0
IsStaged s = Stage s.fd s.conn s.calls

module _ (fd : ℕ) where
  early :
      (c : Call) (calls : List Call)
      → starts c ≡ false
      → Stage fd none calls
      → Stage fd none (c ∷ calls)
  early c calls e (set_up before h) = set_up (c ∷ before) (e, h)

  begins :
      (calls : List Call)
      → Stage fd none calls
      → Stage fd (some (record { fd = fd; close_on_free = true })) (listening ∷ calls)
  begins calls (set_up before h) = serves [] before (listening ∷ before) refl tt h

  quiet :
      (l : Listener) (c : Call) (calls : List Call)
      → sets_up c ≡ false
      → Stage fd (some l) calls
      → Stage fd (some l) (c ∷ calls)
  quiet l c calls e (serves after before all shape h k) =
      serves (c ∷ after) before (c ∷ all) (rw shape refl) (e, h) k

module _ (o : ByteOrder) where
  listen_if-Staged :
      (conn : Option Listener) (port address : ℕ) (g : Granted) (s : TcpServer)
      → s.conn ≡ conn
      → IsStaged s
      → IsStaged ((listen_if conn o port address g s).1)
  unfolding listen_if bind_and_listen call
  listen_if-Staged (some l) port address g s e h = h
  listen_if-Staged none port address g s e h =
      let h0 : Stage s.fd none s.calls = subst (λ c. Stage s.fd c s.calls) e h in
      let sin : SockaddrIn = record { sin_addr = o.htonl address; sin_port = o.htons port } in
      let h1 : Stage s.fd none (keep_alive ∷ s.calls) = early s.fd keep_alive s.calls refl h0 in
      let h2 : Stage s.fd none (reuse_address ∷ keep_alive ∷ s.calls) =
        early s.fd reuse_address (keep_alive ∷ s.calls) refl h1 in
      let h3 : Stage s.fd none (bound sin ∷ reuse_address ∷ keep_alive ∷ s.calls) =
        early s.fd (bound sin) (reuse_address ∷ keep_alive ∷ s.calls) refl h2 in
      elim (Bool-cases g.kept_alive) [
        | inr no1 ↦ rw no1 h1
        | inl yes1 ↦ elim (Bool-cases g.reusable) [
          | inr no2 ↦ rw (yes1, no2) h2
          | inl yes2 ↦ elim (Bool-cases g.binds) [
            | inr no3 ↦ rw (yes1, yes2, no3) h3
            | inl yes3 ↦ elim (Bool-cases g.listens) [
              | inr no4 ↦ rw (yes1, yes2, yes3, no4) h3
              | inl yes4 ↦
                  rw (yes1, yes2, yes3, yes4)
                    (begins s.fd (bound sin ∷ reuse_address ∷ keep_alive ∷ s.calls) h3)
            ]
          ]
        ]
      ]

  set_option-Staged :
      (conn : Option Listener) (c : Call) (granted : Bool) (s : TcpServer)
      → starts c ≡ false
      → s.conn ≡ conn
      → IsStaged s
      → IsStaged ((set_option conn c granted s).1)
  unfolding set_option call
  set_option-Staged (some l) c granted s quiet e h = h
  set_option-Staged none c granted s quiet e h =
      subst (λ d. Stage s.fd d (c ∷ s.calls)) (sym e)
        (early s.fd c s.calls quiet (subst (λ d. Stage s.fd d s.calls) e h))

  accept_connection-Staged :
      (conn : Option Listener) (fd : ℕ) (socklen : Bool) (s : TcpServer)
      → s.conn ≡ conn
      → IsStaged s
      → Ensures IsStaged (accept_connection fd socklen s)
  unfolding accept_connection call
  accept_connection-Staged none fd socklen s e h = rw e tt
  accept_connection-Staged (some l) fd false s e h = rw e tt
  accept_connection-Staged (some l) fd true s e h = elim (Bool-cases s.callback) [
    | inl there ↦
        rw (e, there)
          (quiet s.fd l (handed_over fd) s.calls refl (subst (λ d. Stage s.fd d s.calls) e h))
    | inr nobody ↦ rw (e, nobody) (subst (λ d. Stage s.fd d s.calls) e h)
  ]

  handle-Staged : (e : Event) (s : TcpServer) → IsStaged s → Ensures IsStaged (handle o e s)
  unfolding handle listen_on register_callback enable_mptcp enable_reuse_port
  handle-Staged (listen port address g) s h = listen_if-Staged s.conn port address g s refl h
  handle-Staged (register callback) s h = h
  handle-Staged (want_mptcp enable granted) s h =
      set_option-Staged s.conn (mptcp enable) granted s refl refl h
  handle-Staged (want_reuse_port granted) s h =
      set_option-Staged s.conn reuse_port granted s refl refl h
  handle-Staged (accepted fd socklen) s h = accept_connection-Staged s.conn fd socklen s refl h

  init-Staged :
      (created : Option ℕ) (nonblocking callback : Bool)
      → Ensures IsStaged (init created nonblocking callback)
  unfolding init
  init-Staged none nonblocking callback = tt
  init-Staged (some fd) false callback = tt
  init-Staged (some fd) true callback = set_up [] tt

  -- Whatever a server is told and answered, it sets its socket up (options, address) before the socket
  -- listens and never after that, it makes one listener at most, and that listener has the server's
  -- socket.
  pub Reachable-IsStaged : (s : TcpServer) → Reachable o s → IsStaged s
  Reachable-IsStaged s (made created nonblocking callback _ e) =
      subst (Ensures IsStaged) e (init-Staged created nonblocking callback)
  Reachable-IsStaged t (stepped s _ event before e) =
      subst (Ensures IsStaged) e (handle-Staged event s (Reachable-IsStaged s before))

  destroy-Staged :
      (free : Listener → List ℕ) (conn : Option Listener) (s : TcpServer)
      → s.conn ≡ conn
      → Stage s.fd conn s.calls
      → ((l : Listener) → l.close_on_free ≡ true → free l ≡ l.fd ∷ [])
      → destroy free s ≡ elim conn [ none ↦ s.fd ∷ [] | some l ↦ s.fd ∷ s.fd ∷ [] ]
  unfolding destroy
  destroy-Staged free conn s e (set_up before h) closes = rw e refl
  destroy-Staged free conn s e (serves after before all shape h k) closes =
      rw (e, closes (record { fd = s.fd; close_on_free = true }) refl) refl

  -- Where freeing a listener with LEV_OPT_CLOSE_ON_FREE closes its socket, the destructor closes the
  -- server's socket once, and twice when the server listens.
  pub destroy-Reachable :
      (free : Listener → List ℕ) (s : TcpServer)
      → Reachable o s
      → ((l : Listener) → l.close_on_free ≡ true → free l ≡ l.fd ∷ [])
      → destroy free s ≡ elim s.conn [ none ↦ s.fd ∷ [] | some l ↦ s.fd ∷ s.fd ∷ [] ]
  destroy-Reachable free s reached closes =
      destroy-Staged free s.conn s refl (Reachable-IsStaged s reached) closes

  -- A port that the system bound is the one that GetListenPort gives.
  get_listen_port_lem :
      (port address : ℕ)
      → port < 2 ^ 16
      → get_listen_port o (some (record { sin_addr = o.htonl address; sin_port = o.htons port }))
        ≡ port
  unfolding get_listen_port
  get_listen_port_lem port address h = o.ntohs-htons port h
