-- ===== src/Net/Connection/Stream.antt =====
-- tcp_connection.cpp: what a whole call of OnDataReady does with a stream of packets.
use turnserver_v.Base.{
  ℕ, suc, ◌+◌, ◌≤◌, ◌<◌, ◌≡◌, refl, sym, ap, ◌∙◌, Bool, true, false, List, [], ◌∷◌, ◌++◌,
  append-nil, none, some, ltb, length, length-append, All, take-append_le, arith, Bool-cases, inl,
  inr, ltb→lt, ltb→le,
}
use turnserver_v.Wire.Packer.Frame.{frame, frame_length, length-frame}
use turnserver_v.Net.Connection.{
  InputBuffer, Callback, Connection, done, min_packet_len, destroy, destroy_if_closed, finish,
  on_data_ready,
}
use turnserver_v.Net.Connection.Framing.{Message, body, IsGood, stated_length, stated_length-frame}
use turnserver_v.Net.Connection.Delivery.{frames, IsPartial, serve, Left, process-frames}

module _ (libevent : InputBuffer) {S : Type 0} (callback : Callback S) where
  open libevent use {Buffer, contents}

  -- The connection after the call, as a callback closed it or not: deleted once, or open with the
  -- bytes of `tail` still to be read.
  abbrev pub Settled : List ℕ → Bool → Connection Buffer S → Connection Buffer S → Type 0
  Settled tail true c c' = (c'.bev ≡ none) × (c'.deletions ≡ c.deletions + 1)
  Settled tail false c c' =
      ((b : Buffer) × (c'.bev ≡ some b) × (contents b ≡ tail)) × (c'.deletions ≡ c.deletions)

  finish-Settled :
      (tail : List ℕ) (closed : Bool) (c c' : Connection Buffer S)
      → Left libevent callback tail closed c'.bev
      → c'.deletions ≡ c.deletions
      → (c'' : Connection Buffer S) × (finish libevent callback (done c') ≡ done c'')
        × (c''.client ≡ c'.client)
        × (c''.is_in_processing ≡ false)
        × Settled tail closed c c''
  unfolding finish destroy_if_closed destroy
  finish-Settled tail true c c' o same = (
    record c' { is_in_processing = false; deletions = c'.deletions + 1 },
    ap (λ t. done (destroy_if_closed libevent callback t (record c' { is_in_processing = false })))
        o,
    refl,
    refl,
    (o, ap (λ n. n + 1) same),
  )
  finish-Settled tail false c c' (b, o, e) same =
      let d : Connection Buffer S = record c' { is_in_processing = false } in
      (d, ap (λ t. done (destroy_if_closed libevent callback t d)) o, refl, refl, ((b, o, e), same))

  -- OnDataReady on an open connection whose buffer holds good packets and then a partial one hands
  -- the packets to the registered callback in order, until the callback closes the connection. An
  -- open connection keeps the partial packet; a closed one is deleted, once and after the loop.
  pub on_data_ready-frames :
      (fuel : ℕ) (ms : List Message) (tail : List ℕ) (b : Buffer) (c : Connection Buffer S)
      → All IsGood ms
      → IsPartial tail
      → c.registered ≡ true
      → c.bev ≡ some b
      → contents b ≡ frames ms ++ tail
      → length ms < fuel
      → (c' : Connection Buffer S) × (on_data_ready libevent callback fuel c ≡ done c')
        × (c'.client ≡ (serve callback ms c.client).0)
        × (c'.is_in_processing ≡ false)
        × Settled tail (serve callback ms c.client).1 c c'
  unfolding on_data_ready
  on_data_ready-frames fuel ms tail b c g p r o e h =
      let (d, ran, s) =
        process-frames libevent callback fuel ms tail b (record c { is_in_processing = true }) g p r
          refl o e h in
      let (c', finished, client, idle, settled) =
        finish-Settled tail (serve callback ms c.client).1 c d s.stream s.same_deletions in
      (c', ap (finish libevent callback) ran ∙ finished, client ∙ s.client, idle, settled)

-- Every proper prefix of a good packet is a partial stream.
prefix-IsPartial :
    (m : Message) (front : List ℕ) (x : ℕ) (back : List ℕ)
    → IsGood m
    → frame (body m) ≡ front ++ (x ∷ back)
    → IsPartial front
prefix-IsPartial m front x back g e = elim (Bool-cases (ltb (length front) min_packet_len)) [
  | inl short ↦ inl (ltb→lt _ _ short)
  | inr long ↦
      let enough : min_packet_len ≤ length front = ltb→le _ _ long in
      let known : stated_length front ≡ frame_length (body m) =
        sym (same enough) ∙ stated_length-frame (body m) [] g.fits (omega arith) in
      inr (omega (arith, known, large), omega (arith, known, total, length-frame (body m)))
]
  where
    large : min_packet_len ≤ frame_length (body m)
    large = unfold frame_length in ground arith

    total : length (frame (body m)) ≡ length front + suc (length back)
    total = rw (e, length-append)

    same :
        min_packet_len ≤ length front → stated_length (frame (body m) ++ []) ≡ stated_length front
    same h = rw (
      append-nil,
      e,
      take-append_le 2 front (x ∷ back) (omega arith),
      take-append_le 4 front (x ∷ back) (omega arith),
    )
