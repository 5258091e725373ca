-- ===== src/Net/Connection/Peers.antt =====
-- tcp_connection.cpp: SendPacket on one side of a connection and OnDataReady on the other.
use turnserver_v.Base.{
  ℕ, ◌<◌, ◌≡◌, refl, sym, subst, ap, ◌∙◌, Bool, true, false, List, [], ◌∷◌, ◌++◌, map, append-nil,
  map-append, Option, none, some, ◌>>=◌, if◌then◌else◌, length, length-map, All, arith, inl,
}
use mathlib.Core.Option.{some-injective}
use turnserver_v.Wire.Packer.{Cell}
use turnserver_v.Wire.Packer.Written.{Fits}
use turnserver_v.Wire.Codec.{Codec}
use turnserver_v.Wire.Unpacker.{Unpacker, move}
use turnserver_v.Wire.Unpacker.Reads.{At}
use turnserver_v.Wire.Transfer.{send, send-frame, at_body-At}
use turnserver_v.Net.Connection.{InputBuffer, Callback, Connection, done, on_data_ready}
use turnserver_v.Net.Connection.Framing.{Message, body, IsGood, opened}
use turnserver_v.Net.Connection.Delivery.{frames, serve}
use turnserver_v.Net.Connection.Stream.{Settled, on_data_ready-frames}

abbrev known : List Cell → List ℕ
known [] = []
known (none ∷ cells) = known cells
known (some b ∷ cells) = b ∷ known cells

known-map : (bs : List ℕ) → known (map some bs) ≡ bs
known-map [] = refl
known-map (b ∷ bs) = ap (λ t. b ∷ t) (known-map bs)

-- The packets of a codec, as the messages that the connection tells apart.
module _ {A : Type 0} (codec : Codec A) (message : A → Message) (S : Type 0) where
  -- What SendPacket writes for one packet after the other.
  unfoldable pub send_all : List A → Option (List Cell)
  send_all [] = some []
  send_all (a ∷ xs) = do bs ← send codec a; rest ← send_all xs; some (bs ++ rest)

  pub record IsSendable (a : A) : Type 0 where
    pub valid : codec.IsValid a
    pub encoded : codec.encode a ≡ body (message a)
    pub good : IsGood (message a)

  -- A callback that unmarshalls the packet and hands it to `handle`; a fault closes the connection.
  abbrev pub handled : (A → S → S × Bool) → Option (A × Unpacker) → S → S × Bool
  handled handle none s = (s, true)
  handled handle (some (a, u)) s = handle a s

  abbrev pub receiver : (A → S → S × Bool) → (ℕ → S → S × Bool) → Callback S
  receiver handle on_error = record {
    on_packet_received = λ u server_type uri s. handled handle (codec.pop codec.blank u) s;
    on_error = on_error;
  }

  -- `handle` on the packets in order, until it closes the connection.
  unfoldable pub serve_values : (A → S → S × Bool) → List A → S → S × Bool
  serve_values handle [] s = (s, false)
  serve_values handle (a ∷ xs) s =
      let r = handle a s in
      let rest = serve_values handle xs r.0 in if r.1 then (r.0, true) else rest

  pub send_all-frames :
      (xs : List A) → All IsSendable xs → send_all xs ≡ some (map some (frames (map message xs)))
  unfolding send_all
  send_all-frames [] h = refl
  send_all-frames (a ∷ xs) (v, h) =
      rw (send-frame codec a v.valid fits, send_all-frames xs h, map-append, v.encoded)
    where
      fits : Fits (codec.encode a)
      fits = subst Fits (sym v.encoded) v.good.fits

  serve-values :
      (handle : A → S → S × Bool) (on_error : ℕ → S → S × Bool) (xs : List A) (s : S)
      → All IsSendable xs
      → serve (receiver handle on_error) (map message xs) s ≡ serve_values handle xs s
  unfolding serve serve_values
  serve-values handle on_error [] s h = refl
  serve-values handle on_error (a ∷ xs) s (v, h) =
      rw (popped, serve-values handle on_error xs (handle a s).0 h)
    where
      at_start : At (opened (message a)) (codec.encode a)
      at_start =
          subst (At (opened (message a))) (sym v.encoded)
            (at_body-At (body (message a)) v.good.fits)

      popped :
          codec.pop codec.blank (opened (message a))
          ≡ some (a, move (length (codec.encode a)) (opened (message a)))
      popped = (codec.pop-Reads a v.valid).run (opened (message a)) at_start

  goods : (xs : List A) → All IsSendable xs → All IsGood (map message xs)
  goods [] h = tt
  goods (a ∷ xs) (v, h) = (v.good, goods xs h)

  module _ (libevent : InputBuffer) (handle : A → S → S × Bool) (on_error : ℕ → S → S × Bool) where
    open libevent use {Buffer, contents}

    -- Where the buffer of an open connection holds what SendPacket wrote for a list of sendable
    -- packets on the other side, OnDataReady gives these packets in order to the handler of a
    -- registered callback that unmarshalls them, until the handler closes the connection. An open
    -- connection has read all, and a closed one is deleted, once and after the loop.
    pub on_data_ready-sent :
        (fuel : ℕ) (xs : List A) (b : Buffer) (c : Connection Buffer S)
        → All IsSendable xs
        → send_all xs ≡ some (map some (contents b))
        → c.registered ≡ true
        → c.bev ≡ some b
        → length xs < fuel
        → (c' : Connection Buffer S) × (on_data_ready libevent (receiver handle on_error) fuel c
            ≡ done c')
          × (c'.client ≡ (serve_values handle xs c.client).0)
          × Settled libevent (receiver handle on_error) [] (serve_values handle xs c.client).1 c c'
    on_data_ready-sent fuel xs b c h sent r o enough =
        let (c', ran, client, idle, settled) =
          on_data_ready-frames libevent (receiver handle on_error) fuel (map message xs) [] b c
            (goods xs h) (inl (omega arith)) r o held
            (subst (λ n. n < fuel) (sym (length-map xs message)) enough) in
        subst
          (λ t.
            (c' : Connection Buffer S) × (on_data_ready libevent (receiver handle on_error) fuel c
              ≡ done c')
            × (c'.client ≡ t.0)
            × Settled libevent (receiver handle on_error) [] t.1 c c')
          (serve-values handle on_error xs c.client h) (c', ran, client, settled)
      where
        same : map some (contents b) ≡ map some (frames (map message xs))
        same = some-injective _ _ (sym sent ∙ send_all-frames xs h)

        held : contents b ≡ frames (map message xs) ++ []
        held =
            sym (known-map (contents b))
            ∙ ap known same
            ∙ known-map (frames (map message xs))
            ∙ sym (append-nil (frames (map message xs)))
