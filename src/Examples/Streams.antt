-- ===== src/Examples/Streams.antt =====
-- Streams of packets through OnDataReady.
use turnserver_v.Base.{
  ℕ, ◌≡◌, refl, true, false, List, [], ◌∷◌, ◌++◌, Option, none, some, ◌==◌, length, take, drop,
  arith, inl, ◌≢◌,
}
use turnserver_v.Wire.Packer.Frame.{frame, frame_length}
use turnserver_v.Wire.Packer.Pushes.{variable_bytes}
use turnserver_v.Net.Connection.{
  InputBuffer, Callback, Connection, done, faulty, out_of_fuel, reading_error, on_data_ready,
  decode_length,
}
use turnserver_v.Net.Connection.Framing.{Message, IsGood}
use turnserver_v.Net.Connection.Delivery.{frames, serve}
use turnserver_v.Net.Connection.Stream.{Settled, on_data_ready-frames}
use turnserver_v.Net.Connection.Limits.{
  on_data_ready-ends, on_data_ready-too_small, on_data_ready-over_read,
}

-- An input buffer that is the list of its bytes.
abbrev pub read_list : (b : List ℕ) (n : ℕ) → Option (List ℕ) × List ℕ
read_list b n = (some (take n b), drop n b)

abbrev pub list_buffer : InputBuffer
list_buffer = record {
  Buffer = List ℕ;
  contents = λ b. b;
  get_length = length;
  copyout = λ b n. take n b;
  read = read_list;
  get_length_lem = λ b. refl;
  copyout_lem = λ b n. refl;
  read_some = λ b n h. refl;
  contents-read = λ b n h. refl;
}

-- A callback that notes the uris, and closes the connection on 9 and on an error.
abbrev notes : Callback (List ℕ)
notes = record {
  on_packet_received = λ u server_type uri s. (s ++ (uri ∷ []), uri == 9);
  on_error = λ events s. (s ++ (events ∷ []), true);
}

abbrev pub connection : List ℕ → Connection (List ℕ) (List ℕ)
connection bytes = record {
  bev = some bytes;
  is_in_processing = false;
  registered = true;
  client = [];
  deletions = 0;
}

abbrev hello : Message
hello = record { server_type = 1; uri = 8; payload = 5 ∷ [] }

abbrev bye : Message
bye = record { server_type = 1; uri = 9; payload = [] }

hello-IsGood : IsGood hello
hello-IsGood = omega arith

bye-IsGood : IsGood bye
bye-IsGood = omega arith

-- Two packets and a byte of a third; the second packet closes the connection.
abbrev stream : List ℕ
stream = frames (hello ∷ bye ∷ []) ++ (4 ∷ [])

on_data_ready-frames_example :
    (c' : Connection (List ℕ) (List ℕ)) × (on_data_ready list_buffer notes 5 (connection stream)
      ≡ done c')
    × (c'.client ≡ (serve notes (hello ∷ bye ∷ []) []).0)
    × (c'.is_in_processing ≡ false)
    × Settled list_buffer notes
        (4 ∷ [])
        (serve notes (hello ∷ bye ∷ []) []).1
        (connection stream)
        c'
on_data_ready-frames_example =
    on_data_ready-frames list_buffer notes 5 (hello ∷ bye ∷ []) (4 ∷ []) stream (connection stream)
      (hello-IsGood, (bye-IsGood, tt)) (inl (omega arith)) refl refl refl (omega arith)

served : serve notes (hello ∷ bye ∷ []) [] ≡ (8 ∷ 9 ∷ [], true)
unfolding serve
served = refl

on_data_ready-ends_example : on_data_ready list_buffer notes 40 (connection stream) ≢ out_of_fuel
unfolding frame frame_length variable_bytes
on_data_ready-ends_example =
    on_data_ready-ends list_buffer notes 40 stream (connection stream) refl (omega arith)

on_data_ready-too_small_example :
    on_data_ready list_buffer notes 1 (connection (2 ∷ 0 ∷ 1 ∷ 0 ∷ 8 ∷ 0 ∷ []))
    ≡ done (record (connection []) { bev = none; client = reading_error ∷ []; deletions = 1 })
unfolding decode_length
on_data_ready-too_small_example =
    on_data_ready-too_small list_buffer notes 1 (2 ∷ 0 ∷ 1 ∷ 0 ∷ 8 ∷ 0 ∷ [])
      (connection (2 ∷ 0 ∷ 1 ∷ 0 ∷ 8 ∷ 0 ∷ [])) (omega arith) refl refl (omega arith) (omega arith)

on_data_ready-over_read_example :
    on_data_ready list_buffer notes 1 (connection (0x06 ∷ 0x80 ∷ 0 ∷ 1 ∷ 0 ∷ 8 ∷ [])) ≡ faulty
on_data_ready-over_read_example =
    on_data_ready-over_read list_buffer notes 1 1 0 8 [] (0x06 ∷ 0x80 ∷ 0 ∷ 1 ∷ 0 ∷ 8 ∷ [])
      (connection (0x06 ∷ 0x80 ∷ 0 ∷ 1 ∷ 0 ∷ 8 ∷ [])) (omega arith) refl refl
