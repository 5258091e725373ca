-- ===== src/Net/Connection/Limits.antt =====
-- tcp_connection.cpp: OnDataReady on any stream. The loop ends, a length that is too small is an
-- error, and the one packet that is long enough for OnDataReady and too short for its Unpacker.
use turnserver_v.Base.{
  ℕ, zero, suc, ◌+◌, ◌≤◌, ◌<◌, ◌≡◌, refl, ap, ◌∙◌, subst, Bool, true, false, List, [], ◌∷◌, Option,
  none, some, ltb, if◌then◌else◌, length, take, length-drop, lt→ltb, le→ltb, arith, ltb→le, ◌≢◌,
}
use turnserver_v.Wire.Unpacker.{
  Unpacker, pop_uint16, pop_uint, pop_bytes, read, move, check_size, pop_variable_uint32, rewind,
}
use turnserver_v.Wire.Unpacker
use mathlib.Core.Option.{some-injective}
use turnserver_v.Net.Connection.{
  InputBuffer, Callback, Connection, Turn, continues, breaks, fault, Outcome, done, faulty,
  out_of_fuel, min_packet_len, reading_error, called, close_and_destroy, destroy, deliver,
  take_packet, turn, next, process, destroy_if_closed, finish, on_data_ready, parse_head,
  decode_length,
}
use turnserver_v.Net.Connection.Framing.{stated_length}
use turnserver_v.Net.Connection.Delivery.{process-turn, process_closed}

over_read : (x y z : ℕ) → parse_head (0x06 ∷ 0x80 ∷ 0x00 ∷ x ∷ y ∷ z ∷ []) ≡ none
unfolding parse_head Unpacker.init pop_variable_uint32 pop_uint16 pop_uint pop_bytes check_size read
    move
over_read x y z = refl

module _ (libevent : InputBuffer) {S : Type 0} (callback : Callback S) where
  open libevent use {Buffer, contents}

  -- After a packet the connection is closed, or has the buffer that it had.
  deliver-bev :
      (o : Option (Unpacker × ℕ × ℕ)) (c c' : Connection Buffer S) (b b' : Buffer)
      → c.bev ≡ some b
      → deliver libevent callback o c ≡ continues c'
      → c'.bev ≡ some b'
      → b ≡ b'
  unfolding deliver called close_and_destroy destroy
  deliver-bev none c c' b b' e d h = cc
  deliver-bev (some (u, s, r)) c c' b b' e d h = ground arith

  -- A ladder of tests that ends in a packet has passed them all.
  passed :
      (t1 t2 t3 : Bool) (c d c' : Connection Buffer S) (t : Turn Buffer S)
      → (if t1 then breaks c else if t2 then breaks d else if t3 then breaks c else t)
        ≡ continues c'
      → (t2 ≡ false) × (t3 ≡ false) × (t ≡ continues c')
  passed true t2 t3 c d c' t e = cc
  passed false true t3 c d c' t e = cc
  passed false false true c d c' t e = cc
  passed false false false c d c' t e = (refl, refl, e)

  take_packet-bev :
      (r : Option (List ℕ) × Buffer) (c c' : Connection Buffer S) (b' : Buffer)
      → take_packet libevent callback r c ≡ continues c'
      → c'.bev ≡ some b'
      → r.1 ≡ b'
  unfolding take_packet
  take_packet-bev (none, b) c c' b' e h = cc
  take_packet-bev (some bytes, b) c c' b' e h =
      deliver-bev (parse_head bytes) (record c { bev = some b }) c' b b' refl e h

  -- A round that goes on has taken a packet out of the buffer.
  turn_shrinks :
      (b b' : Buffer) (c c' : Connection Buffer S)
      → turn libevent callback b c ≡ continues c'
      → c'.bev ≡ some b'
      → length (contents b') < length (contents b)
  unfolding turn
  turn_shrinks b b' c c' e h =
      let n : ℕ = decode_length (copyout b 2) (copyout b 4) in
      let (large, there, taken) =
        passed (ltb (get_length b) min_packet_len) (ltb n min_packet_len) (ltb (get_length b) n) c _
          c' _ e in
      let room : n ≤ length (contents b) =
        omega (arith, ltb→le _ _ there, libevent.get_length_lem b) in
      let left = libevent.contents-read b n room in
      rw (← take_packet-bev _ c c' b' taken h, left, length-drop)
        (omega (arith, ltb→le _ _ large, room))
    where
      open libevent use {get_length, copyout}

  turn_takes :
      (b : Buffer) (c c' : Connection Buffer S)
      → turn libevent callback b c ≡ continues c'
      → min_packet_len ≤ length (contents b)
  unfolding turn
  turn_takes b c c' e =
      let n : ℕ = decode_length (copyout b 2) (copyout b 4) in
      let (large, there, taken) =
        passed (ltb (get_length b) min_packet_len) (ltb n min_packet_len) (ltb (get_length b) n) c _
          c' _ e in
      omega (arith, ltb→le _ _ large, ltb→le _ _ there, libevent.get_length_lem b)
    where
      open libevent use {get_length, copyout}

  process-ne-out_of_fuel :
      (fuel : ℕ) (c : Connection Buffer S) (o : Option Buffer)
      → c.bev ≡ o
      → ((b : Buffer) → o ≡ some b → length (contents b) < fuel)
      → 0 < fuel
      → process libevent callback fuel c ≢ out_of_fuel
  unfolding process next
  process-ne-out_of_fuel zero c o q h pos = absurd (omega arith)
  process-ne-out_of_fuel (suc fuel) c none q h pos =
      rw (process_closed libevent callback (suc fuel) c pos q) (λ e. cc)
  process-ne-out_of_fuel (suc fuel) c (some b) q h pos =
      rw (process-turn libevent callback fuel b c (turn libevent callback b c) q refl) (
        after (turn libevent callback b c)
          (λ c' e.
            process-ne-out_of_fuel fuel c' c'.bev refl
              (λ b' k. omega (arith, turn_shrinks b b' c c' e k, h b refl)))
          refl)
    where
      after :
          (t : Turn Buffer S)
          → ((c' : Connection Buffer S)
              → turn libevent callback b c ≡ continues c'
              → 0 < fuel
              → process libevent callback fuel c' ≢ out_of_fuel)
          → turn libevent callback b c ≡ t
          → next libevent callback (process libevent callback fuel) t ≢ out_of_fuel
      after (continues c') ih e = ih c' e (omega (arith, turn_takes b c c' e, h b refl))
      after (breaks c') ih e = λ x. cc
      after fault ih e = λ x. cc

  finish-called :
      (b : Buffer) (c : Connection Buffer S) (r : S × Bool)
      → c.bev ≡ some b
      → finish libevent callback (done (called r (record c { is_in_processing = true })))
        ≡ done (
            if r.1
            then record c {
              bev = none;
              is_in_processing = false;
              client = r.0;
              deletions = c.deletions + 1;
            }
            else record c { bev = some b; is_in_processing = false; client = r.0 })
  unfolding finish called close_and_destroy destroy_if_closed destroy
  finish-called b c (s, true) o = refl
  finish-called b c (s, false) o =
      ap
        (λ t. done (
          destroy_if_closed libevent callback t
            (record c { bev = t; is_in_processing = false; client = s })))
        o

  -- OnDataReady ends on every stream: with more fuel than there are bytes the loop does not run out
  -- of it, whatever the callback does.
  pub on_data_ready-ends :
      (fuel : ℕ) (b : Buffer) (c : Connection Buffer S)
      → c.bev ≡ some b
      → length (contents b) < fuel
      → on_data_ready libevent callback fuel c ≢ out_of_fuel
  unfolding on_data_ready
  on_data_ready-ends fuel b c o h =
      finish-ne-out_of_fuel (process libevent callback fuel d)
        (process-ne-out_of_fuel fuel d (some b) o (λ b' e. same b' e) (omega arith))
    where
      d : Connection Buffer S
      d = record c { is_in_processing = true }

      same : (b' : Buffer) → some b ≡ some b' → length (contents b') < fuel
      same b' e = subst (λ t. length (contents t) < fuel) (some-injective b b' e) h

      finish-ne-out_of_fuel :
          (t : Outcome Buffer S) → t ≢ out_of_fuel → finish libevent callback t ≢ out_of_fuel
      finish-ne-out_of_fuel (done c') ne = unfold finish in λ e. cc
      finish-ne-out_of_fuel faulty ne = unfold finish in λ e. cc
      finish-ne-out_of_fuel out_of_fuel ne = λ e. ne refl

  -- Where six bytes or more are there and the length that they state is below six, the registered
  -- callback gets one error, BEV_EVENT_ERROR | BEV_EVENT_READING. Nothing is taken out of the buffer, and the
  -- connection is deleted if the callback closes it.
  pub on_data_ready-too_small :
      (fuel : ℕ) (b : Buffer) (c : Connection Buffer S)
      → 0 < fuel
      → c.bev ≡ some b
      → c.registered ≡ true
      → min_packet_len ≤ length (contents b)
      → stated_length (contents b) < min_packet_len
      → on_data_ready libevent callback fuel c
        ≡ done (
            if (callback.on_error reading_error c.client).1
            then record c {
              bev = none;
              is_in_processing = false;
              client = (callback.on_error reading_error c.client).0;
              deletions = c.deletions + 1;
            }
            else record c {
              bev = some b;
              is_in_processing = false;
              client = (callback.on_error reading_error c.client).0;
            })
  unfolding on_data_ready next
  on_data_ready-too_small zero b c pos o r enough small = absurd (omega arith)
  on_data_ready-too_small (suc fuel) b c pos o r enough small =
      ap (finish libevent callback)
        (process-turn libevent callback fuel b d (breaks (called answer d)) o turned)
      ∙ finish-called b c answer o
    where
      answer : S × Bool
      answer = callback.on_error reading_error c.client

      d : Connection Buffer S
      d = record c { is_in_processing = true }

      turned : turn libevent callback b d ≡ breaks (called answer d)
      turned =
          unfold turn in
          rw (
            libevent.get_length_lem,
            libevent.copyout_lem,
            libevent.copyout_lem,
            le→ltb _ _ enough,
            lt→ltb _ _ small,
            r,
          )

  -- On a stream that opens with a packet in the long form of six bytes, the three bytes of the length
  -- leave only one for the uri, and OnDataReady reads past the end of the vector, whatever the
  -- callback is.
  pub on_data_ready-over_read :
      (fuel x y z : ℕ) (rest : List ℕ) (b : Buffer) (c : Connection Buffer S)
      → 0 < fuel
      → c.bev ≡ some b
      → contents b ≡ 0x06 ∷ 0x80 ∷ 0x00 ∷ x ∷ y ∷ z ∷ rest
      → on_data_ready libevent callback fuel c ≡ faulty
  unfolding on_data_ready next
  on_data_ready-over_read zero x y z rest b c pos o e = absurd (omega arith)
  on_data_ready-over_read (suc fuel) x y z rest b c pos o e =
      ap (finish libevent callback) (process-turn libevent callback fuel b d fault o turned)
      ∙ (unfold finish in refl)
    where
      d : Connection Buffer S
      d = record c { is_in_processing = true }

      bytes : List ℕ
      bytes = 0x06 ∷ 0x80 ∷ 0x00 ∷ x ∷ y ∷ z ∷ []

      stated : (w : ℕ) → decode_length (0x06 ∷ 0x80 ∷ []) (0x06 ∷ 0x80 ∷ 0x00 ∷ w ∷ []) ≡ 6
      stated w = unfold decode_length in omega arith

      two : take 2 (contents b) ≡ 0x06 ∷ 0x80 ∷ []
      two = rw e

      four : take 4 (contents b) ≡ 0x06 ∷ 0x80 ∷ 0x00 ∷ x ∷ []
      four = rw e

      there : 6 ≤ length (contents b)
      there = rw e (omega arith)

      taken : (libevent.read b 6).0 ≡ some bytes
      taken = libevent.read_some b 6 there ∙ rw e

      turned : turn libevent callback b d ≡ fault
      turned =
          unfold turn take_packet deliver in
          rw (
            libevent.get_length_lem,
            libevent.copyout_lem,
            libevent.copyout_lem,
            le→ltb _ _ there,
            two,
            four,
            stated x,
            le→ltb _ _ there,
            taken,
            over_read x y z,
          )
