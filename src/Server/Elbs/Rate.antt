-- ===== src/Server/Elbs/Rate.antt =====
-- turnserver_main.cc: how often ElbsConnection turns to an edge server.
use turnserver_v.Base.{
  ℕ, ◌+◌, ◌≤◌, ◌≡◌, refl, sym, subst, ap, ◌∙◌, ◌&&◌, List, [], ◌∷◌, Option, none, some, ltb, ◌==◌,
  ltb→le, Bool-cases, inl, inr, Ensures, arith,
}
use turnserver_v.Server.Thread.{Thread}
use turnserver_v.Server.Elbs.{
  Outside, Attempt, ElbsConnection, Event, step, Reachable, started, stepped, start,
  connect_edge_server, noted, rejoin_answered, on_message, repost, init, close_socket,
}
use turnserver_v.Server.Elbs.Quiet.{IsQuiet, join_elbs-IsQuiet, argus_ping-IsQuiet, quiet-Ensures}

-- When the latest attempt was made, the latest attempt being the first of the list.
abbrev pub latest : List Attempt → ℕ
latest [] = 0
latest (a ∷ rest) = a.at

-- Each attempt comes 3000 milliseconds or more after the one before.
pub data IsSpaced : List Attempt → Type 0 where
  no_attempt : IsSpaced []
  spaced :
      (a : Attempt) (rest : List Attempt)
      → latest rest + 3000 ≤ a.at
      → IsSpaced rest
      → IsSpaced (a ∷ rest)

module _ (rtc : Thread) (network_to_host32 : ℕ → ℕ) where
  record Remembers (e : ElbsConnection rtc network_to_host32) : Type 0 where
    spaced_edges : IsSpaced e.edges
    last : e.last_connect_ts ≡ latest e.edges

  quiet-Remembers :
      {e e' : ElbsConnection rtc network_to_host32}
      → IsQuiet rtc network_to_host32 e e'
      → Remembers e
      → Remembers e'
  quiet-Remembers q r = record {
    spaced_edges = subst IsSpaced (sym q.edges_same) r.spaced_edges;
    last = q.last_same ∙ r.last ∙ ap latest (sym q.edges_same);
  }

  close-Remembers :
      (s : ℕ) (e : ElbsConnection rtc network_to_host32)
      → Remembers e
      → Remembers (close_socket rtc network_to_host32 s e)
  close-Remembers s e r = record { spaced_edges = r.spaced_edges; last = r.last }

  connect-Remembers :
      (w : Outside) (created : Option ℕ) (e : ElbsConnection rtc network_to_host32)
      → e.last_connect_ts + 3000 ≤ w.now
      → Remembers e
      → Remembers (
          noted rtc network_to_host32 w.now (connect_edge_server rtc network_to_host32 w created e))
  unfolding connect_edge_server
  connect-Remembers w none e late r = r
  connect-Remembers w (some s) e late r = record {
    spaced_edges = spaced _ e.edges (omega (arith, late, r.last)) r.spaced_edges;
    last = refl;
  }

  rejoin-Remembers :
      (w : Outside) (s ip port : ℕ) (e : ElbsConnection rtc network_to_host32)
      → Remembers e
      → Remembers (rejoin_answered rtc network_to_host32 w s ip port e)
  unfolding rejoin_answered
  rejoin-Remembers w s ip port e r = elim (Bool-cases (ltb w.now (e.last_connect_ts + 3000))) [
    | inl early ↦ rw early (close-Remembers s e r)
    | inr late ↦
        elim (Bool-cases ((network_to_host32 ip == e.connect_ip) && (port == e.connect_port))) [
          | inl known ↦ rw (late, known) r
          | inr fresh ↦
              rw (late, fresh)
                (close-Remembers s _ (
                  connect-Remembers w w.created _ (ltb→le _ _ late)
                    (record { spaced_edges = r.spaced_edges; last = r.last })))
        ]
  ]

  message-Remembers :
      (w : Outside) (m : ℕ) (e : ElbsConnection rtc network_to_host32)
      → Remembers e
      → Remembers (on_message rtc network_to_host32 w m e)
  unfolding on_message repost
  message-Remembers w m e r = elim (Bool-cases (m == 2)) [
    | inl joins ↦ rw joins (again (quiet-Remembers (join_elbs-IsQuiet rtc network_to_host32 w e) r))
    | inr other ↦ elim (Bool-cases (m == 3)) [
      | inl pings ↦
          rw (other, pings)
            (again (quiet-Remembers (argus_ping-IsQuiet rtc network_to_host32 w e.socket e) r))
      | inr unknown ↦ rw (other, unknown) r
    ]
  ]
    where
      again :
          {e : ElbsConnection rtc network_to_host32} {q : rtc.Queue}
          → Remembers e
          → Remembers (record e { thread = q })
      again r = record { spaced_edges = r.spaced_edges; last = r.last }

  step-Remembers :
      (w : Outside) (x : Event) (e : ElbsConnection rtc network_to_host32)
      → Remembers e
      → Ensures Remembers (step rtc network_to_host32 w x e)
  step-Remembers w x e r =
      quiet-Ensures rtc network_to_host32 Remembers w x e (λ e' q. quiet-Remembers q r)
        (λ s ip port. rejoin-Remembers w s ip port e r)
        (λ m. message-Remembers w m _ (record { spaced_edges = r.spaced_edges; last = r.last }))

  start-Remembers :
      (w : Outside) (q : rtc.Queue)
      → Remembers (start rtc network_to_host32 w (init rtc network_to_host32 q))
  unfolding start init
  start-Remembers w q =
      quiet-Remembers (join_elbs-IsQuiet rtc network_to_host32 w _)
        (record { spaced_edges = no_attempt; last = refl })

  Reachable-Remembers :
      {e : ElbsConnection rtc network_to_host32} → Reachable rtc network_to_host32 e → Remembers e
  Reachable-Remembers (started w q empty) = start-Remembers w q
  Reachable-Remembers (stepped w x r ran) =
      subst (Ensures Remembers) ran (step-Remembers w x _ (Reachable-Remembers r))

  -- Whatever answers come, and however often: two connections to edge servers are begun 3000
  -- milliseconds apart or more, and the first 3000 milliseconds after the clock's zero or more.
  pub Reachable-IsSpaced :
      (e : ElbsConnection rtc network_to_host32)
      → Reachable rtc network_to_host32 e
      → IsSpaced e.edges
  Reachable-IsSpaced e r = (Reachable-Remembers r).spaced_edges
