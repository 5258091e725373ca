-- ===== src/Server/Elbs/Ticking.antt =====
-- turnserver_main.cc: the two timers of ElbsConnection, which each handler has to set again.
use turnserver_v.Base.{
  ℕ, ◌+◌, ◌≡◌, refl, subst, ap, ◌∙◌, ◌&&◌, Option, none, some, ltb, ◌==◌, if◌then◌else◌, Bool-cases,
  inl, inr, Ensures, arith, le_bytes,
}
use turnserver_v.Server.Thread.{Thread, pending-again, pending-take_other}
use turnserver_v.Server.Elbs.{
  Outside, ElbsConnection, Event, step, Reachable, started, stepped, start, connect_edge_server,
  noted, rejoin_answered, on_message, repost, init, elbs_timer, argus_timer, argus_ping_length,
}
use turnserver_v.Server.Elbs.Quiet.{join_elbs-IsQuiet, argus_ping-IsQuiet, quiet-Ensures}

module _ (rtc : Thread) (network_to_host32 : ℕ → ℕ) where
  open rtc use {pending, post_delayed, clear, pending-post_delayed, pending-clear, pending-take}

  -- One message of each of the two timers waits.
  pub record IsTicking (e : ElbsConnection rtc network_to_host32) : Type 0 where
    pub elbs_waits : pending e.thread elbs_timer ≡ 1
    pub argus_waits : pending e.thread argus_timer ≡ 1

  same-IsTicking :
      {e e' : ElbsConnection rtc network_to_host32}
      → e'.thread ≡ e.thread
      → IsTicking e
      → IsTicking e'
  same-IsTicking q t = record {
    elbs_waits = ap (λ k. pending k elbs_timer) q ∙ t.elbs_waits;
    argus_waits = ap (λ k. pending k argus_timer) q ∙ t.argus_waits;
  }

  connect-thread :
      (w : Outside) (created : Option ℕ) (e : ElbsConnection rtc network_to_host32)
      → (noted rtc network_to_host32 w.now
          (connect_edge_server rtc network_to_host32 w created e)).thread
        ≡ e.thread
  unfolding connect_edge_server
  connect-thread w none e = refl
  connect-thread w (some s) e = refl

  rejoin-thread :
      (w : Outside) (s ip port : ℕ) (e : ElbsConnection rtc network_to_host32)
      → (rejoin_answered rtc network_to_host32 w s ip port e).thread ≡ e.thread
  unfolding rejoin_answered
  rejoin-thread w s ip port e = elim (Bool-cases (ltb w.now (e.last_connect_ts + 3000))) [
    | inl early ↦ rw early refl
    | inr late ↦
        elim (Bool-cases ((network_to_host32 ip == e.connect_ip) && (port == e.connect_port))) [
          | inl known ↦ rw (late, known) refl
          | inr fresh ↦ rw (late, fresh) (connect-thread w w.created _)
        ]
  ]

  message-IsTicking :
      (w : Outside) (m : ℕ) (e : ElbsConnection rtc network_to_host32)
      → IsTicking e
      → IsTicking (on_message rtc network_to_host32 w m (record e { thread = rtc.take m e.thread }))
  unfolding on_message repost
  message-IsTicking w m e t = elim (Bool-cases (m == 2)) [
    | inl joins ↦ rw joins (record {
      elbs_waits = pending-again rtc 60000 2 2 _;
      argus_waits =
          pending-again rtc 60000 2 3 _
          ∙ ap (λ k. pending k 3) (join_elbs-IsQuiet rtc network_to_host32 w _).thread_same
          ∙ pending-take_other rtc m 3 e.thread (ground (arith, joins))
          ∙ t.argus_waits;
    })
    | inr other ↦ elim (Bool-cases (m == 3)) [
      | inl pings ↦
          rw (other, pings)
            (record {
              elbs_waits =
                  pending-again rtc 3000 3 2 _
                  ∙ ap (λ k. pending k 2)
                      (argus_ping-IsQuiet rtc network_to_host32 w e.socket _).thread_same
                  ∙ pending-take_other rtc m 2 e.thread other
                  ∙ t.elbs_waits;
              argus_waits = pending-again rtc 3000 3 3 _;
            })
      | inr unknown ↦
          rw (other, unknown)
            (record {
              elbs_waits = pending-take_other rtc m 2 e.thread other ∙ t.elbs_waits;
              argus_waits = pending-take_other rtc m 3 e.thread unknown ∙ t.argus_waits;
            })
    ]
  ]

  step-IsTicking :
      (w : Outside) (x : Event) (e : ElbsConnection rtc network_to_host32)
      → IsTicking e
      → Ensures IsTicking (step rtc network_to_host32 w x e)
  step-IsTicking w x e t =
      quiet-Ensures rtc network_to_host32 IsTicking w x e (λ e' q. same-IsTicking q.thread_same t)
        (λ s ip port. same-IsTicking (rejoin-thread w s ip port e) t)
        (λ m. message-IsTicking w m e t)

  start-IsTicking :
      (w : Outside) (q : rtc.Queue)
      → ((m : ℕ) → pending q m ≡ 0)
      → IsTicking (start rtc network_to_host32 w (init rtc network_to_host32 q))
  unfolding start init
  start-IsTicking w q empty =
      same-IsTicking {e = begun} (join_elbs-IsQuiet rtc network_to_host32 w begun).thread_same
        (record { elbs_waits = posted 2; argus_waits = posted 3 })
    where
      begun : ElbsConnection rtc network_to_host32
      begun = record (init rtc network_to_host32 q) {
        ping_pkg = le_bytes 2 argus_ping_length;
        thread = post_delayed 3000 3 (post_delayed 60000 2 q);
      }

      posted :
          (n : ℕ)
          → pending (post_delayed 3000 3 (post_delayed 60000 2 q)) n
            ≡ 0 + (if 2 == n then 1 else 0) + (if 3 == n then 1 else 0)
      posted n =
          pending-post_delayed 3000 3 (post_delayed 60000 2 q) n
          ∙ ap (λ k. k + (if 3 == n then 1 else 0))
              (pending-post_delayed 60000 2 q n ∙ ap (λ k. k + (if 2 == n then 1 else 0)) (empty n))

  -- After start(), whatever events come: exactly one message of each of the two timers waits, so that
  -- the ELBS is asked and the edge server is pinged again.
  pub Reachable-IsTicking :
      (e : ElbsConnection rtc network_to_host32) → Reachable rtc network_to_host32 e → IsTicking e
  Reachable-IsTicking e (started w q empty) = start-IsTicking w q empty
  Reachable-IsTicking e (stepped w x r ran) =
      subst (Ensures IsTicking) ran (step-IsTicking w x _ (Reachable-IsTicking _ r))
