-- ===== src/Server/Worker/Answer.antt =====
-- turnserver_main.cc: a request of the worker manager, and the answer to it on the wire.
use turnserver_v.Base.{ℕ, ◌≡◌, refl, ◌∙◌, false, [], ◌∷◌, ◌++◌, map, some, length}
use turnserver_v.Wire.Unpacker.{Unpacker, pop_string, move}
use turnserver_v.Wire.Unpacker.Reads.{At-front, At-move}
use turnserver_v.Wire.Packer.Written.{Fits}
use turnserver_v.Wire.Packer.Frame.{frame}
use turnserver_v.Wire.Codec.{string}
use turnserver_v.Wire.Transfer.{at_body, at_body-At, init-at_body, send-frame}
use turnserver_v.Packet.Head.{encode, unmarshall, unmarshall-Reads, pop-unmarshall}
use turnserver_v.Packet.One.{encode1}
use Prim.Native.String.{String}
use turnserver_v.Packet.Elbs.{WorkerManagerComm, worker_manager_comm, uap_server_type, uap_uri}
use turnserver_v.Server.Thread.{Thread}
use turnserver_v.Server.Worker.{
  Worker, or_empty, on_worker_manager_packet, on_command, answer, send_json, send_message,
  send_in_state,
}
use turnserver_v.Server.Worker.Messages.{
  JsonLibrary, Outside, Ports, Object, Value, scalar_value, object_value, string_value, int_value,
  double_value, state_connected, c_str,
}

-- The two reads of a packet of the manager: the head, and the text.
head_read :
    (p : WorkerManagerComm)
    → worker_manager_comm.IsValid p
    → Fits (worker_manager_comm.encode p)
    → unmarshall (at_body (worker_manager_comm.encode p))
      ≡ some (p.head, move (length (encode p.head)) (at_body (worker_manager_comm.encode p)))
unfolding encode1
head_read p valid fits =
    (unmarshall-Reads p.head valid.head_valid).run (at_body (worker_manager_comm.encode p)) (
      At-front (encode p.head) (string.encode p.member1)
        (at_body-At (worker_manager_comm.encode p) fits))

text_read :
    (p : WorkerManagerComm)
    → worker_manager_comm.IsValid p
    → Fits (worker_manager_comm.encode p)
    → (u : Unpacker) × (pop_string
          (move (length (encode p.head)) (at_body (worker_manager_comm.encode p)))
        ≡ some (p.member1, u))
unfolding encode1
text_read p valid fits = (
  move (length (string.encode p.member1))
      (move (length (encode p.head)) (at_body (worker_manager_comm.encode p))),
  (string.pop-Reads p.member1 valid.valid1).run
      (move (length (encode p.head)) (at_body (worker_manager_comm.encode p)))
      (At-move (encode p.head) (string.encode p.member1)
        (at_body-At (worker_manager_comm.encode p) fits)),
)

module _ (rtc : Thread) (cjson : JsonLibrary) (ports : Ports) where
  open cjson use {parse, get_string, get_int, to_string}

  -- The document of a packet.
  abbrev pub document : WorkerManagerComm → cjson.Document
  document p = parse (c_str p.member1)

  -- A text of the request, which is empty where the request has none.
  abbrev pub text : WorkerManagerComm → String → Value
  text p name = scalar_value (string_value (or_empty (get_string (document p) name)))

  abbrev pub number : ℕ → Value
  number n = scalar_value (int_value n)

  -- What the manager is to read in the answer: its own four texts and two numbers, the time, success,
  -- and where the server listens.
  abbrev pub expected : Outside → WorkerManagerComm → ℕ → ℕ → Object
  expected w p seq request_id =
      ("command", scalar_value (string_value "response"))
      ∷ ("appId", text p "appId")
      ∷ ("cname", text p "cname")
      ∷ ("uid", text p "uid")
      ∷ ("sid", text p "sid")
      ∷ ("seq", number seq)
      ∷ ("ts", scalar_value (double_value w.now))
      ∷ ("requestId", number request_id)
      ∷ ("code", number 200)
      ∷ ("reason", scalar_value (string_value "Success"))
      ∷ (
        "serverResponse",
        object_value (
            ("udpport", int_value ports.udpport)
            ∷ ("tcpport", int_value ports.tcpport)
            ∷ ("username", string_value "test")
            ∷ ("password", string_value "111111")
            ∷ []),
      )
      ∷ []

  abbrev pub reply : Outside → WorkerManagerComm → ℕ → ℕ → WorkerManagerComm
  reply w p seq request_id = record {
    head = record { server_type = uap_server_type; uri = uap_uri };
    member1 = to_string (expected w p seq request_id);
  }

  -- A request of the manager that has the numbers seq and requestId, which arrives while the socket
  -- is connected, gets one answer on that socket, if that fits into a packet: the frame of a
  -- response of code 200 whose members are written out, with the numbers and the texts of the request
  -- under their names, the time, and the two ports of the server.
  pub on_worker_manager_packet-answers :
      (w : Outside) (p : WorkerManagerComm) (k : Worker rtc cjson ports) (s seq request_id : ℕ)
      → worker_manager_comm.IsValid p
      → Fits (worker_manager_comm.encode p)
      → k.socket ≡ some s
      → w.state s ≡ state_connected
      → get_string (document p) "command" ≡ some "request"
      → get_int (document p) "seq" ≡ some seq
      → get_int (document p) "requestId" ≡ some request_id
      → worker_manager_comm.IsValid (reply w p seq request_id)
      → Fits (worker_manager_comm.encode (reply w p seq request_id))
      → on_worker_manager_packet rtc cjson ports w
          (frame (worker_manager_comm.encode p))
          (length (frame (worker_manager_comm.encode p)))
          k
        ≡ some (record k {
          sent =
              k.sent
              ++ ((s, map some (frame (worker_manager_comm.encode (reply w p seq request_id))))
                  ∷ []);
        })
  unfolding on_worker_manager_packet on_command answer send_json send_message send_in_state
  on_worker_manager_packet-answers w p k s seq request_id valid fits at_s up asked has_seq has_id
        valid' fits' =
      let (u, read) = text_read p valid fits in
      rw (init-at_body false (worker_manager_comm.encode p) fits) (
        pop-unmarshall (at_body (worker_manager_comm.encode p)) _
        ∙ rw
            (
              head_read p valid fits,
              read,
              asked,
              has_seq,
              has_id,
              send-frame worker_manager_comm (reply w p seq request_id) valid' fits',
              at_s,
              up,
            )
            refl)
