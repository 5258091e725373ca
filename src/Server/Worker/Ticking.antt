-- ===== src/Server/Worker/Ticking.antt =====
-- turnserver_main.cc: the three timers of Worker, which each handler has to set again.
use turnserver_v.Base.{
  ℕ, ◌+◌, ◌≡◌, refl, sym, subst, ap, ◌∙◌, false, Option, none, some, ◌==◌, if◌then◌else◌,
  Bool-cases, inl, inr, ==_iff, Ensures, Ensures-then,
}
use turnserver_v.Server.Thread.{Thread, again, pending-again, pending-take_other}
use turnserver_v.Server.Worker.{
  Worker, Event, worker_manager_packet, socket_connect, socket_close, message, worker_timer,
  bandwidth_timer, log_timer, take_socket, add_worker_manager_socket, init, send_connect_msg,
  on_socket_connect, on_socket_close, worker_tick, bandwidth_get, repost, on_message, step,
  Reachable, added, stepped,
}
use turnserver_v.Server.Worker.Messages.{JsonLibrary, Outside, Ports, connect_object}
use turnserver_v.Server.Worker.Quiet.{
  Keeps, take_socket-Keeps, send_json-Keeps, packet-Keeps, tick-Keeps,
}

module _ (rtc : Thread) (cjson : JsonLibrary) (ports : Ports) where
  open rtc use {pending, post_delayed, pending-post_delayed}

  -- One message of each of the three timers waits.
  pub record IsScheduled (k : Worker rtc cjson ports) : Type 0 where
    pub worker_waits : pending k.thread worker_timer ≡ 1
    pub bandwidth_waits : pending k.thread bandwidth_timer ≡ 1
    pub log_waits : pending k.thread log_timer ≡ 1

  Keeps-IsScheduled :
      {k k' : Worker rtc cjson ports} → Keeps rtc cjson ports k k' → IsScheduled k → IsScheduled k'
  Keeps-IsScheduled q t = record {
    worker_waits = ap (λ x. pending x worker_timer) q ∙ t.worker_waits;
    bandwidth_waits = ap (λ x. pending x bandwidth_timer) q ∙ t.bandwidth_waits;
    log_waits = ap (λ x. pending x log_timer) q ∙ t.log_waits;
  }

  -- A timer that is set again after its message was taken waits, and the others wait as before.
  waits_again :
      (delay j m n : ℕ) (q q' : rtc.Queue)
      → m ≡ j
      → q' ≡ rtc.take m q
      → pending q n ≡ 1
      → pending (again rtc delay j q') n ≡ 1
  waits_again delay j m n q q' same taken waits =
      pending-again rtc delay j n q' ∙ (elim (Bool-cases (j == n)) [
        | inl own ↦ rw own refl
        | inr other ↦ rw other (
            ap (λ x. pending x n) taken
            ∙ pending-take_other rtc m n q (subst (λ i. (i == n) ≡ false) (sym same) other)
            ∙ waits)
      ])

  reposted :
      (delay j m : ℕ) (k k' : Worker rtc cjson ports)
      → m ≡ j
      → Keeps rtc cjson ports (record k { thread = rtc.take m k.thread }) k'
      → IsScheduled k
      → IsScheduled (repost rtc cjson ports delay j k')
  reposted delay j m k k' same kept t = record {
    worker_waits = waits_again delay j m 0 k.thread k'.thread same kept t.worker_waits;
    bandwidth_waits = waits_again delay j m 1 k.thread k'.thread same kept t.bandwidth_waits;
    log_waits = waits_again delay j m 4 k.thread k'.thread same kept t.log_waits;
  }

  message-IsScheduled :
      (w : Outside) (m : ℕ) (k : Worker rtc cjson ports)
      → IsScheduled k
      → Ensures IsScheduled
          (on_message rtc cjson ports w m (record k { thread = rtc.take m k.thread }))
  unfolding on_message bandwidth_get
  message-IsScheduled w m k t = elim (Bool-cases (m == 0)) [
    | inl first ↦ rw first (
        Ensures-then (Keeps rtc cjson ports taken) IsScheduled
          (worker_tick rtc cjson ports w k.socket taken) _
          (tick-Keeps rtc cjson ports w k.socket taken)
          (λ k' kept. reposted 3000 0 m k k' ((==_iff m 0).0 first) kept t))
    | inr not_first ↦ elim (Bool-cases (m == 1)) [
      | inl second ↦ rw (not_first, second) (reposted 500 1 m k _ ((==_iff m 1).0 second) refl t)
      | inr not_second ↦ elim (Bool-cases (m == 4)) [
        | inl third ↦
            rw (not_first, not_second, third)
              (reposted 60000 4 m k taken ((==_iff m 4).0 third) refl t)
        | inr unknown ↦
            rw (not_first, not_second, unknown)
              (record {
                worker_waits = pending-take_other rtc m 0 k.thread not_first ∙ t.worker_waits;
                bandwidth_waits =
                    pending-take_other rtc m 1 k.thread not_second ∙ t.bandwidth_waits;
                log_waits = pending-take_other rtc m 4 k.thread unknown ∙ t.log_waits;
              })
      ]
    ]
  ]
    where
      taken : Worker rtc cjson ports
      taken = record k { thread = rtc.take m k.thread }

  kept-IsScheduled :
      (k : Worker rtc cjson ports) (o : Option (Worker rtc cjson ports))
      → IsScheduled k
      → Ensures (Keeps rtc cjson ports k) o
      → Ensures IsScheduled o
  kept-IsScheduled k none t kept = tt
  kept-IsScheduled k (some k') t kept = Keeps-IsScheduled kept t

  step-IsScheduled :
      (w : Outside) (x : Event) (k : Worker rtc cjson ports)
      → IsScheduled k
      → Ensures IsScheduled (step rtc cjson ports w x k)
  unfolding step on_socket_connect send_connect_msg on_socket_close
  step-IsScheduled w (worker_manager_packet mem size) k t =
      kept-IsScheduled k _ t (packet-Keeps rtc cjson ports w mem size k)
  step-IsScheduled w socket_connect k t =
      kept-IsScheduled k _ t (send_json-Keeps rtc cjson ports w (connect_object ports.pid w.now) k)
  step-IsScheduled w (socket_close s) k t = Keeps-IsScheduled refl t
  step-IsScheduled w (message m) k t = message-IsScheduled w m k t

  added-IsScheduled :
      (w : Outside) (q : rtc.Queue)
      → ((m : ℕ) → pending q m ≡ 0)
      → IsScheduled (add_worker_manager_socket rtc cjson ports w (init rtc cjson ports q))
  unfolding add_worker_manager_socket init
  added-IsScheduled w q empty = record {
    worker_waits = posted 0;
    bandwidth_waits = posted 1;
    log_waits = posted 4;
  }
    where
      started : rtc.Queue
      started = (take_socket rtc cjson ports w.created (init rtc cjson ports q)).thread

      none_waits : (n : ℕ) → pending started n ≡ 0
      none_waits n =
          ap (λ x. pending x n)
            (take_socket-Keeps rtc cjson ports w.created (init rtc cjson ports q))
          ∙ empty n

      posted :
          (n : ℕ)
          → pending (post_delayed 500 1 (post_delayed 60000 4 (post_delayed 3000 0 started))) n
            ≡ 0 + (if 0 == n then 1 else 0) + (if 4 == n then 1 else 0) + (if 1 == n then 1 else 0)
      posted n =
          pending-post_delayed 500 1 _ n
          ∙ ap (λ x. x + (if 1 == n then 1 else 0))
              (pending-post_delayed 60000 4 _ n
                ∙ ap (λ x. x + (if 4 == n then 1 else 0))
                    (pending-post_delayed 3000 0 started n
                      ∙ ap (λ x. x + (if 0 == n then 1 else 0)) (none_waits n)))

  -- Once AddWorkerManagerSocket has run, whatever events come: exactly one message of each of the
  -- three timers waits, so that the manager is pinged or called again, and the load is read again.
  pub Reachable-IsScheduled :
      (k : Worker rtc cjson ports) → Reachable rtc cjson ports k → IsScheduled k
  Reachable-IsScheduled k (added w q empty) = added-IsScheduled w q empty
  Reachable-IsScheduled k (stepped w x r ran) =
      subst (Ensures IsScheduled) ran (step-IsScheduled w x _ (Reachable-IsScheduled _ r))
