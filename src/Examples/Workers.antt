-- ===== src/Examples/Workers.antt =====
-- A worker that is asked for its ports.
use turnserver_v.Base.{
  ℕ, ◌≡◌, refl, true, List, [], ◌∷◌, ◌++◌, map, none, some, if◌then◌else◌, length, arith,
}
use text.Mathlib.Text.{◌==◌ as str_eq}
use turnserver_v.Wire.Packer.Written.{Fits}
use turnserver_v.Wire.Packer.Pushes.{string_bytes, variable_bytes}
use turnserver_v.Wire.Packer.Frame.{frame}
use turnserver_v.Packet.One.{encode1}
use turnserver_v.Packet.Elbs.{WorkerManagerComm, worker_manager_comm}
use turnserver_v.Examples.Servers.{counts}
use turnserver_v.Server.Worker.{
  Worker, init, add_worker_manager_socket, take_socket, on_worker_manager_packet, Reachable, added,
  stepped, worker_manager_packet, step,
}
use turnserver_v.Server.Worker.Messages.{JsonLibrary, Outside, Ports, state_connected, comm}
use turnserver_v.Server.Worker.Ticking.{IsScheduled, Reachable-IsScheduled}
use turnserver_v.Server.Worker.Answer.{reply, on_worker_manager_packet-answers}

-- A library that finds the same members in every document.
abbrev small_json : JsonLibrary
small_json = record {
  Document = List ℕ;
  parse = λ bs. bs;
  get_string = λ d key. if str_eq key "command" then some "request" else none;
  get_int = λ d key. if str_eq key "seq" then some 7 else some 8;
  to_string = λ o. 123 ∷ 125 ∷ [];
}

abbrev ports : Ports
ports = record { udpport = 3478; tcpport = 3479; pid = 77 }

abbrev outside : Outside
outside = record {
  now = 4000;
  created = some 3;
  state = λ s. state_connected;
  reconnects = λ s. true;
  allocation_count = 6;
  send_bandwidth = 100;
  recv_bandwidth = 90;
}

abbrev worker : Worker counts small_json ports
worker =
    add_worker_manager_socket counts small_json ports outside
      (init counts small_json ports (λ m. 0))

abbrev asking : WorkerManagerComm
asking = comm (123 ∷ 125 ∷ [])

comm-IsValid : worker_manager_comm.IsValid asking
comm-IsValid = record { head_valid = omega arith; valid1 = omega arith }

comm-Fits : Fits (worker_manager_comm.encode asking)
unfolding encode1 variable_bytes string_bytes
comm-Fits = omega arith

worker_socket : worker.socket ≡ some 3
unfolding add_worker_manager_socket take_socket init
worker_socket = refl

on_worker_manager_packet-answers_example :
    on_worker_manager_packet counts small_json ports outside
      (frame (worker_manager_comm.encode asking))
      (length (frame (worker_manager_comm.encode asking)))
      worker
    ≡ some (record worker {
      sent =
          worker.sent
          ++ ((
            3,
            map some (
                frame
                  (worker_manager_comm.encode (reply counts small_json ports outside asking 7 8))),
          )
              ∷ []);
    })
on_worker_manager_packet-answers_example =
    on_worker_manager_packet-answers counts small_json ports outside asking worker 3 7 8
      comm-IsValid comm-Fits worker_socket refl refl refl refl comm-IsValid comm-Fits

abbrev answered : Worker counts small_json ports
answered = record worker {
  sent =
      worker.sent
      ++ ((
        3,
        map some
            (frame (worker_manager_comm.encode (reply counts small_json ports outside asking 7 8))),
      )
          ∷ []);
}

answered-Reachable : Reachable counts small_json ports answered
unfolding step
answered-Reachable =
    stepped outside
      (worker_manager_packet (frame (worker_manager_comm.encode asking))
        (length (frame (worker_manager_comm.encode asking))))
      (added outside (λ m. 0) (λ m. refl))
      (on_worker_manager_packet-answers counts small_json ports outside asking worker 3 7 8
        comm-IsValid comm-Fits worker_socket refl refl refl refl comm-IsValid comm-Fits)

Reachable-IsScheduled_example : IsScheduled counts small_json ports answered
Reachable-IsScheduled_example =
    Reachable-IsScheduled counts small_json ports answered answered-Reachable
