-- ===== src/Server/Worker/Quiet.antt =====
-- turnserver_main.cc: the operations of Worker that touch no timer.
use turnserver_v.Base.{
  ℕ, ◌≡◌, refl, false, List, Option, none, some, Bool-cases, inl, inr, Ensures, Ensures-bind,
}
use Prim.Native.String.{String}
use text.Mathlib.Text.{◌==◌ as str_eq}
use turnserver_v.Wire.Packer.{Cell}
use turnserver_v.Wire.Unpacker.{Unpacker, pop_uint16, pop_string}
use turnserver_v.Wire.Unpacker
use turnserver_v.Wire.Transfer.{send}
use turnserver_v.Packet.Elbs.{worker_manager_comm}
use turnserver_v.Server.Thread.{Thread}
use turnserver_v.Server.Worker.{
  Worker, take_socket, send_in_state, send_message, send_json, send_ping_msg, answer, on_command,
  on_worker_manager_packet, tick_in_state, worker_tick,
}
use turnserver_v.Server.Worker.Messages.{
  JsonLibrary, Outside, Ports, Object, SocketState, state_connected, state_closed, state_other,
  comm, ping_object,
}

module _ (rtc : Thread) (cjson : JsonLibrary) (ports : Ports) where
  -- The thread of the result is that of `k`.
  abbrev pub Keeps : Worker rtc cjson ports → Worker rtc cjson ports → Type 0
  Keeps k k' = k'.thread ≡ k.thread

  pub take_socket-Keeps :
      (s : Option ℕ) (k : Worker rtc cjson ports) → Keeps k (take_socket rtc cjson ports s k)
  unfolding take_socket
  take_socket-Keeps none k = refl
  take_socket-Keeps (some s) k = refl

  send_in_state-Keeps :
      (x : SocketState) (s : ℕ) (bs : List Cell) (k : Worker rtc cjson ports)
      → Keeps k (send_in_state rtc cjson ports x s bs k)
  unfolding send_in_state
  send_in_state-Keeps state_connected s bs k = refl
  send_in_state-Keeps state_closed s bs k = refl
  send_in_state-Keeps state_other s bs k = refl

  send_message-Keeps :
      (w : Outside) (s : Option ℕ) (bs : List Cell) (k : Worker rtc cjson ports)
      → Keeps k (send_message rtc cjson ports w s bs k)
  unfolding send_message
  send_message-Keeps w none bs k = refl
  send_message-Keeps w (some s) bs k = send_in_state-Keeps (w.state s) s bs k

  pub send_json-Keeps :
      (w : Outside) (o : Object) (k : Worker rtc cjson ports)
      → Ensures (Keeps k) (send_json rtc cjson ports w o k)
  unfolding send_json
  send_json-Keeps w o k =
      Ensures-bind (Keeps k) (send worker_manager_comm (comm (cjson.to_string o))) _
        (λ bs. send_message-Keeps w k.socket bs k)

  ping-Keeps :
      (w : Outside) (k : Worker rtc cjson ports)
      → Ensures (Keeps k) (send_ping_msg rtc cjson ports w k)
  unfolding send_ping_msg
  ping-Keeps w k =
      Ensures-bind (Keeps k) k.load _ (λ load. send_json-Keeps w (ping_object load w.now) k)

  answer-Keeps :
      (w : Outside) (json : cjson.Document) (k : Worker rtc cjson ports)
      → Ensures (Keeps k) (answer rtc cjson ports w json k)
  unfolding answer
  answer-Keeps w json k = Ensures-bind (Keeps k) (cjson.get_int json "seq") _ (λ seq.
      Ensures-bind (Keeps k) (cjson.get_int json "requestId") _ (λ id. send_json-Keeps w _ k))

  command-Keeps :
      (w : Outside) (json : cjson.Document) (command : Option String) (k : Worker rtc cjson ports)
      → Ensures (Keeps k) (on_command rtc cjson ports w json command k)
  unfolding on_command
  command-Keeps w json none k = refl
  command-Keeps w json (some command) k = elim (Bool-cases (str_eq command "request")) [
    | inl asked ↦ rw asked (answer-Keeps w json k)
    | inr other ↦ rw other refl
  ]

  pub packet-Keeps :
      (w : Outside) (mem : List ℕ) (size : ℕ) (k : Worker rtc cjson ports)
      → Ensures (Keeps k) (on_worker_manager_packet rtc cjson ports w mem size k)
  unfolding on_worker_manager_packet
  packet-Keeps w mem size k = Ensures-bind (Keeps k) (Unpacker.init mem size false) _ (λ u.
      Ensures-bind (Keeps k) (pop_uint16 u) _ (λ t.
        Ensures-bind (Keeps k) (pop_uint16 t.1) _
          (λ r. Ensures-bind (Keeps k) (pop_string r.1) _ (λ j. command-Keeps w _ _ k))))

  tick_in_state-Keeps :
      (x : SocketState) (w : Outside) (s : ℕ) (k : Worker rtc cjson ports)
      → Ensures (Keeps k) (tick_in_state rtc cjson ports x w s k)
  unfolding tick_in_state
  tick_in_state-Keeps state_connected w s k = ping-Keeps w k
  tick_in_state-Keeps state_closed w s k = take_socket-Keeps w.created k
  tick_in_state-Keeps state_other w s k = elim (Bool-cases (w.reconnects s)) [
    | inl reached ↦ rw reached (ping-Keeps w k)
    | inr failed ↦ rw failed refl
  ]

  pub tick-Keeps :
      (w : Outside) (s : Option ℕ) (k : Worker rtc cjson ports)
      → Ensures (Keeps k) (worker_tick rtc cjson ports w s k)
  unfolding worker_tick
  tick-Keeps w none k = take_socket-Keeps w.created k
  tick-Keeps w (some s) k = tick_in_state-Keeps (w.state s) w s k
