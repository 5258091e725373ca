-- ===== src/Server/Socket/Framed.antt =====
-- turnserver_main.cc: the packets of WorkerTCPSocket::Send stay whole on the wire.
use turnserver_v.Base.{
  ℕ, ◌≡◌, refl, sym, ap, ◌∙◌, List, [], ◌∷◌, ◌++◌, append-nil, append_assoc, ltb, Bool-cases, inl,
  inr, length,
}
use turnserver_v.Server.Socket.{
  OutBuffer, Flushed, took, took_nothing, Sent, too_large, dropped, no_progress, sent,
  max_packet_size, message_size_error, flushed, send,
}

-- What a socket's owner and the system do: send a packet, or flush when the socket is writable.
pub data Action : Type 0 where
  sending : List ℕ → Action
  writable : Action

-- The packets that Send accepted, with their bytes in a row.
abbrev pub joined : List (List ℕ) → List ℕ
joined [] = []
joined (p ∷ ps) = p ++ joined ps

joined-append : (ps qs : List (List ℕ)) → joined (ps ++ qs) ≡ joined ps ++ joined qs
joined-append [] qs = refl
joined-append (p ∷ ps) qs = rw (joined-append ps qs, append_assoc)

abbrev pub accepted : List ℕ → Sent → List (List ℕ)
accepted p (sent n) = p ∷ []
accepted p (no_progress res) = []
accepted p (dropped n) = []
accepted p too_large = []

module _ (rtc : OutBuffer) where
  open rtc use {
    Socket, contents, wire, is_empty, append, flush, clear, set_error, is_empty_lem,
    contents-append, wire-append, flush_lem, flush_nothing, contents-clear, wire-clear,
    contents-set_error, wire-set_error,
  }

  unfoldable pub act : Action → Socket → List (List ℕ) × Socket
  act (sending p) s = let r = send rtc p s in (accepted p r.0, r.1)
  act writable s = ([], (flush s).1)

  unfoldable pub acts : List Action → Socket → List (List ℕ) × Socket
  acts [] s = ([], s)
  acts (a ∷ rest) s = let r = act a s in let q = acts rest r.1 in (r.0 ++ q.0, q.1)

  -- What was taken and what waits, in a row.
  abbrev pub stream : Socket → List ℕ
  stream s = wire s ++ contents s

  flushed-stream :
      (p : List ℕ) (s : Socket) (r : Flushed)
      → contents s ≡ []
      → (flush (append p s)).0 ≡ r
      → stream (flushed rtc (length p) (r, (flush (append p s)).1)).1
        ≡ stream s ++ joined (accepted p (flushed rtc (length p) (r, (flush (append p s)).1)).0)
  unfolding flushed
  flushed-stream p s (took n) e f =
      flush_lem (append p s)
      ∙ ap (λ w. w ++ contents (append p s)) (wire-append p s)
      ∙ ap (λ c. wire s ++ c) (contents-append p s)
      ∙ sym (append_assoc (wire s) (contents s) p)
      ∙ ap (λ q. stream s ++ q) (sym (append-nil p))
  flushed-stream p s (took_nothing res) e f =
      ap (λ c. wire (clear (flush (append p s)).1) ++ c) (contents-clear (flush (append p s)).1)
      ∙ append-nil (wire (clear (flush (append p s)).1))
      ∙ wire-clear (flush (append p s)).1
      ∙ flush_nothing (append p s) res f
      ∙ wire-append p s
      ∙ sym (append-nil (wire s))
      ∙ ap (λ c. wire s ++ c) (sym e)
      ∙ sym (append-nil (stream s))

  send-stream :
      (p : List ℕ) (s : Socket)
      → stream (send rtc p s).1 ≡ stream s ++ joined (accepted p (send rtc p s).0)
  unfolding send
  send-stream p s = elim (Bool-cases (ltb max_packet_size (length p))) [
    | inl big ↦ rw big (
        ap (λ w. w ++ contents (set_error message_size_error s))
          (wire-set_error message_size_error s)
        ∙ ap (λ c. wire s ++ c) (contents-set_error message_size_error s)
        ∙ sym (append-nil (stream s)))
    | inr fits ↦ elim (Bool-cases (is_empty s)) [
      | inl empty ↦
          rw (fits, empty) (flushed-stream p s (flush (append p s)).0 (is_empty_lem s empty) refl)
      | inr full ↦ rw (fits, full) (sym (append-nil (stream s)))
    ]
  ]

  -- Whatever packets are sent and however the system takes them, the bytes taken and the bytes
  -- waiting are those there were at first and then the accepted packets, each whole and in order.
  pub acts-stream :
      (actions : List Action) (s : Socket)
      → stream (acts actions s).1 ≡ stream s ++ joined (acts actions s).0
  unfolding acts act
  acts-stream [] s = sym (append-nil (stream s))
  acts-stream (sending p ∷ rest) s =
      acts-stream rest (send rtc p s).1
      ∙ ap (λ w. w ++ joined (acts rest (send rtc p s).1).0) (send-stream p s)
      ∙ append_assoc (stream s) (joined (accepted p (send rtc p s).0))
          (joined (acts rest (send rtc p s).1).0)
      ∙ ap (λ q. stream s ++ q)
          (sym (joined-append (accepted p (send rtc p s).0) (acts rest (send rtc p s).1).0))
  acts-stream (writable ∷ rest) s =
      acts-stream rest (flush s).1 ∙ ap (λ w. w ++ joined (acts rest (flush s).1).0) (flush_lem s)
