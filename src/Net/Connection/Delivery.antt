-- ===== src/Net/Connection/Delivery.antt =====
-- tcp_connection.cpp: OnDataReady hands over the packets that arrived whole, in order, and keeps
-- the rest of the stream for the next call.
use turnserver_v.Base.{
  ℕ, zero, suc, ◌≤◌, ◌<◌, ◌≡◌, refl, sym, ap, ◌∙◌, subst, Bool, true, false, List, [], ◌∷◌, ◌++◌,
  append_assoc, Option, none, some, ltb, if◌then◌else◌, length, length-append, All, take-append,
  drop-append, lt→ltb, le→ltb, arith, Bool-cases, inl, inr, ◌⊎◌,
}
use turnserver_v.Wire.Packer.Frame.{frame, frame_length, length-frame}
use turnserver_v.Net.Connection.{
  InputBuffer, Callback, Connection, Turn, breaks, done, min_packet_len, called, close_and_destroy,
  deliver, take_packet, turn, next, round, process,
}
use turnserver_v.Net.Connection.Framing.{
  Message, body, IsGood, stated_length, stated_length-frame, opened, parse_head-frame,
}

-- The packets of a stream.
abbrev pub frames : List Message → List ℕ
frames [] = []
frames (m ∷ ms) = frame (body m) ++ frames ms

-- A stream that holds no whole packet yet, and no length that is too small.
abbrev pub IsPartial : List ℕ → Type 0
IsPartial tail =
    (length tail < min_packet_len)
    ⊎ ((min_packet_len ≤ stated_length tail) × (length tail < stated_length tail))

module _ {S : Type 0} (callback : Callback S) where
  -- What the callback sees of the packets, until it closes the connection.
  unfoldable pub serve : List Message → S → S × Bool
  serve [] s = (s, false)
  serve (m ∷ ms) s =
      let r = callback.on_packet_received (opened m) m.server_type m.uri s in
      let rest = serve ms r.0 in if r.1 then (r.0, true) else rest

module _ (libevent : InputBuffer) {S : Type 0} (callback : Callback S) where
  open libevent use {Buffer, contents}

  Keeps : List ℕ → Connection Buffer S → Type 0
  Keeps bytes c = (b : Buffer) × (c.bev ≡ some b) × (contents b ≡ bytes)

  -- A round on a stream that begins with a good packet.
  turn-frame :
      (m : Message) (more : List ℕ) (b : Buffer) (c : Connection Buffer S)
      → IsGood m
      → contents b ≡ frame (body m) ++ more
      → (b' : Buffer) × (contents b' ≡ more)
        × (turn libevent callback b c
            ≡ deliver libevent callback
                (some (opened m, m.server_type, m.uri))
                (record c { bev = some b' }))
  unfolding turn take_packet
  turn-frame m more b c g e = (
    (libevent.read b n).1,
    libevent.contents-read b n there ∙ rw (e, drop-append n (frame (body m)) more (sym size)),
    rw (
      libevent.get_length_lem,
      libevent.copyout_lem,
      libevent.copyout_lem,
      stated,
      le→ltb (length (contents b)) min_packet_len (omega (arith, there, large)),
      le→ltb n min_packet_len large,
      le→ltb (length (contents b)) n there,
      libevent.read_some b n there,
      e,
      take-append n (frame (body m)) more (sym size),
      parse_head-frame m g,
    ),
  )
    where
      n : ℕ
      n = frame_length (body m)

      size : length (frame (body m)) ≡ n
      size = length-frame (body m)

      large : min_packet_len ≤ n
      large = unfold frame_length in ground arith

      there : n ≤ length (contents b)
      there = rw (e, length-append) (omega (arith, size))

      stated : stated_length (contents b) ≡ n
      stated = rw e (stated_length-frame (body m) more g.fits (omega arith))

  -- On a partial stream the loop stops at once.
  turn-IsPartial :
      (b : Buffer) (c : Connection Buffer S)
      → IsPartial (contents b)
      → turn libevent callback b c ≡ breaks c
  unfolding turn
  turn-IsPartial b c (inl short) = rw (libevent.get_length_lem, lt→ltb _ _ short)
  turn-IsPartial b c (inr (known, short)) =
      rw
        (
          libevent.get_length_lem,
          libevent.copyout_lem,
          libevent.copyout_lem,
          le→ltb _ _ known,
          lt→ltb _ _ short,
        )
        (either (ltb (length (contents b)) min_packet_len))
    where
      either : (t : Bool) → (if t then breaks c else breaks c) ≡ breaks c
      either true = refl
      either false = refl

  -- What the loop leaves of the connection `c`: open with the bytes `tail`, or closed.
  abbrev pub Left : List ℕ → Bool → Option Buffer → Type 0
  Left tail true o = o ≡ none
  Left tail false o = (b : Buffer) × (o ≡ some b) × (contents b ≡ tail)

  pub record Served (ms : List Message) (tail : List ℕ) (c c' : Connection Buffer S) : Type 0 where
    pub client : c'.client ≡ (serve callback ms c.client).0
    pub stream : Left tail (serve callback ms c.client).1 c'.bev
    pub same_deletions : c'.deletions ≡ c.deletions
    pub same_registered : c'.registered ≡ c.registered

  -- A callback that closes the connection, or does not, from inside the loop.
  called_closes :
      (r : S × Bool) (c : Connection Buffer S)
      → r.1 ≡ true
      → c.is_in_processing ≡ true
      → called r c ≡ record c { bev = none; client = r.0 }
  unfolding called close_and_destroy
  called_closes r c closes busy = rw (closes, busy)

  called_stays :
      (r : S × Bool) (c : Connection Buffer S)
      → r.1 ≡ false
      → called r c ≡ record c { client = r.0 }
  unfolding called
  called_stays r c stays = rw stays

  pub process_closed :
      (fuel : ℕ) (c : Connection Buffer S)
      → 0 < fuel
      → c.bev ≡ none
      → process libevent callback fuel c ≡ done c
  unfolding process round
  process_closed zero c h o = absurd (omega arith)
  process_closed (suc fuel) c h o =
      ap (round libevent callback (process libevent callback fuel) c) o

  pub process-turn :
      (fuel : ℕ) (b : Buffer) (c : Connection Buffer S) (t : Turn Buffer S)
      → c.bev ≡ some b
      → turn libevent callback b c ≡ t
      → process libevent callback (suc fuel) c
        ≡ next libevent callback (process libevent callback fuel) t
  unfolding process round
  process-turn fuel b c t o turned =
      ap (round libevent callback (process libevent callback fuel) c) o
      ∙ ap (next libevent callback (process libevent callback fuel)) turned

  -- The rest of the loop after the packet of `m`.
  process_packet :
      (fuel : ℕ) (m : Message) (more : List ℕ) (b : Buffer) (c : Connection Buffer S)
      → IsGood m
      → c.registered ≡ true
      → c.bev ≡ some b
      → contents b ≡ frame (body m) ++ more
      → (b' : Buffer) × (contents b' ≡ more)
        × (process libevent callback (suc fuel) c
            ≡ process libevent callback fuel (
                called
                  (callback.on_packet_received (opened m) m.server_type m.uri c.client)
                  (record c { bev = some b' })))
  unfolding deliver next
  process_packet fuel m more b c g r o e =
      let (b', rest, turned) = turn-frame m more b c g e in
      (b', rest, process-turn fuel b c _ o turned ∙ rw r)

  -- The loop, on packets and a partial one.
  pub process-frames :
      (fuel : ℕ) (ms : List Message) (tail : List ℕ) (b : Buffer) (c : Connection Buffer S)
      → All IsGood ms
      → IsPartial tail
      → c.registered ≡ true
      → c.is_in_processing ≡ true
      → c.bev ≡ some b
      → contents b ≡ frames ms ++ tail
      → length ms < fuel
      → (c' : Connection Buffer S) × (process libevent callback fuel c ≡ done c')
        × Served ms tail c c'
  unfolding serve next
  process-frames zero ms tail b c g p r busy o e h = absurd (omega arith)
  process-frames (suc fuel) [] tail b c g p r busy o e h = (
    c,
    process-turn fuel b c (breaks c) o (turn-IsPartial b c (subst IsPartial (sym e) p)),
    record { client = refl; stream = (b, o, e); same_deletions = refl; same_registered = refl },
  )
  process-frames (suc fuel) (m ∷ ms) tail b c g p r busy o e h =
      let (b', rest, ran) =
        process_packet fuel m (frames ms ++ tail) b c g.0 r o
          (e ∙ append_assoc (frame (body m)) (frames ms) tail) in
      let d : Connection Buffer S = record c { bev = some b' } in
      elim (Bool-cases answer.1) [
        | inl closes ↦ (
          record d { bev = none; client = answer.0 },
          ran
              ∙ ap (process libevent callback fuel) (called_closes answer d closes busy)
              ∙ process_closed fuel (record d { bev = none; client = answer.0 }) (omega arith) refl,
          record {
            client = rw closes;
            stream = rw closes refl;
            same_deletions = refl;
            same_registered = refl;
          },
        )
        | inr stays ↦
            let (c', again, s) =
              process-frames fuel ms tail b' (record d { client = answer.0 }) g.1 p r busy refl rest
                (omega arith) in
            (
              c',
              ran ∙ ap (process libevent callback fuel) (called_stays answer d stays) ∙ again,
              record {
                client = rw stays s.client;
                stream = rw stays s.stream;
                same_deletions = s.same_deletions;
                same_registered = s.same_registered;
              },
            )
      ]
    where
      answer : S × Bool
      answer = callback.on_packet_received (opened m) m.server_type m.uri c.client
