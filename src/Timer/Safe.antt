-- ===== src/Timer/Safe.antt =====
-- base/timer.cpp: whatever is done with the timers, in any order, an event that is due finds its
-- callback.
use turnserver_v.Base.{
  ℕ, ◌+◌, ◌*◌, ◌<◌, ◌≡◌, ◌≢◌, refl, true, false, Option, none, some, Ensures, subst, sym, ◌∙◌,
  Option-cases, inl, inr, arith,
}
use turnserver_v.Timer.{
  Event, OneShotTimer, make_one_shot_timer, one_shot_callback, World, put, empty, init, to_event,
  make, free_event, clear, delete_callback, destroy, move_assign, move_construct, timer_callback,
}
use turnserver_v.Timer.Invariant.{
  IsSafe, init-IsSafe, make-IsSafe, move_assign-IsSafe, move_construct-IsSafe, clear-none,
  clear-some, delete-some, delete-none,
}

pub data Action : Type 0 where
  made : ℕ → ℕ → Action
  cleared : ℕ → Action
  destroyed : ℕ → Action
  assigned : ℕ → ℕ → Action
  constructed : ℕ → ℕ → Action

-- An object is only constructed at an empty place.
abbrev IsAdmitted : Action → World → Type 0
IsAdmitted (made i ms) w = w.objects i ≡ empty
IsAdmitted (constructed i j) w = (w.objects i ≡ empty)
IsAdmitted other w = Unit

unfoldable pub act : Action → World → Option World
act (made i ms) w = some (make i ms w)
act (cleared i) w = clear i w
act (destroyed i) w = destroy i w
act (assigned i j) w = some (move_assign i j w)
act (constructed i j) w = some (move_construct i j w)

-- Clear does not fail, and leaves the object without an event.
record Cleared (i : ℕ) (w : World) : Type 0 where
  pub after : World
  pub done : clear i w ≡ some after
  safe : IsSafe after
  no_timer : (after.objects i).timer ≡ none

clear-Cleared : (i : ℕ) (w : World) → IsSafe w → Cleared i w
unfolding clear free_event
clear-Cleared i w h = elim (Option-cases (w.objects i).timer) [
  | inl no_timer ↦ record {
    after = record w { objects = put i (record (w.objects i) { timer = none }) w.objects };
    done = rw no_timer refl;
    safe = clear-none w h i no_timer;
    no_timer = ground arith;
  }
  | inr (e, timer) ↦ elim (Option-cases (w.events e)) [
    | inl gone ↦ absurd (ground (arith, h.armed i e))
    | inr (v, live) ↦ record {
      after = record w {
        events = put e none w.events;
        objects = put i (record (w.objects i) { timer = none }) w.objects;
      };
      done = rw (timer, live) refl;
      safe = clear-some w h i e timer;
      no_timer = ground arith;
    }
  ]
]

pub destroy-IsSafe :
    (i : ℕ) (w : World) → IsSafe w → (t : World) × (destroy i w ≡ some t) × IsSafe t
unfolding destroy delete_callback
destroy-IsSafe i w h =
    let cleared = clear-Cleared i w h in
    let t = cleared.after in
    elim (Option-cases (t.objects i).callback) [
      | inl no_callback ↦ (
        record t { objects = put i empty t.objects },
        rw (cleared.done, no_callback) refl,
        delete-none t cleared.safe i cleared.no_timer no_callback,
      )
      | inr (c, callback) ↦ (
        record t { alive = put c false t.alive; objects = put i empty t.objects },
        rw (cleared.done, callback, cleared.safe.held i c callback) refl,
        delete-some t cleared.safe i c cleared.no_timer callback,
      )
    ]

act-IsSafe :
    (a : Action) (w : World)
    → IsAdmitted a w
    → IsSafe w
    → (t : World) × (act a w ≡ some t) × IsSafe t
unfolding act
act-IsSafe (made i ms) w vacant h = (make i ms w, refl, make-IsSafe w h i ms vacant)
act-IsSafe (cleared i) w _ h = let c = clear-Cleared i w h in (c.after, c.done, c.safe)
act-IsSafe (destroyed i) w _ h = destroy-IsSafe i w h
act-IsSafe (assigned i j) w _ h = (move_assign i j w, refl, move_assign-IsSafe w h i j)
act-IsSafe (constructed i j) w vacant h =
    (move_construct i j w, refl, move_construct-IsSafe w h i j vacant)

pub data Reachable : World → Type 0 where
  started : Reachable init
  acted : (a : Action) (w t : World) → Reachable w → IsAdmitted a w → act a w ≡ some t → Reachable t

pub Reachable-IsSafe : (w : World) → Reachable w → IsSafe w
Reachable-IsSafe _ started = init-IsSafe
Reachable-IsSafe t (acted a w _ before admitted e) =
    let (s, done, safe) = act-IsSafe a w admitted (Reachable-IsSafe w before) in
    subst (Ensures IsSafe) (sym done ∙ e) safe

runs :
    (w : World) → IsSafe w → (e : ℕ) (v : Event) → w.events e ≡ some v → timer_callback e w ≡ some e
unfolding timer_callback
runs w h e v due = ground (arith, h.context e v, h.live e)

held_runs :
    (w : World)
    → IsSafe w
    → (i d : ℕ) → (w.objects i).timer ≡ some d
    → timer_callback d w ≡ (w.objects i).callback
held_runs w h i d timer = elim (Option-cases (w.events d)) [
  | inl gone ↦ absurd (ground (arith, h.armed i d))
  | inr (v, live) ↦ runs w h d v live ∙ sym (h.own i d timer)
]

-- After timers were made, moved, cleared and destroyed in any order, nothing that an object may be
-- asked for fails; any event that is due runs the callback that was made with it, which is alive, and
-- both belong to one object; and the event of any object with a timer is due and runs the callback of
-- that object.
pub timer_callback-Reachable :
    (w : World) (a : Action) (e d i : ℕ) (v : Event)
    → Reachable w
    → IsAdmitted a w
    → w.events e ≡ some v
    → (w.objects i).timer ≡ some d
    → (act a w ≢ none)
      × (timer_callback e w ≡ some e)
      × ((k : ℕ) × ((w.objects k).timer ≡ some e) × ((w.objects k).callback ≡ some e))
      × (timer_callback d w ≡ (w.objects i).callback)
timer_callback-Reachable w a e d i v reached admitted due timer =
    let h = Reachable-IsSafe w reached in
    let (t, done, safe) = act-IsSafe a w admitted h in
    let (k, at) = h.owned e (rw due refl) in
    (λ fails. absurd (cc), runs w h e v due, (k, at, h.own k e at), held_runs w h i d timer)

-- The event of a timer is due after the milliseconds that it was made for, and its microseconds are
-- below a second; the chrono constructor makes at least one millisecond of them.
to_event_lem :
    (context interval_ms : ℕ)
    → ((to_event context interval_ms).tv_sec * 1000000 + (to_event context interval_ms).tv_usec
        ≡ interval_ms * 1000)
      × ((to_event context interval_ms).tv_usec < 1000000)
to_event_lem context interval_ms = (omega arith, omega arith)

-- A timer that shoots once runs its callback once; a second call would find the object deleted.
one_shot_callback_lem :
    (self after_ms : ℕ)
    → (t : OneShotTimer) × (one_shot_callback (make_one_shot_timer self after_ms) ≡ some t)
      × (t.runs ≡ 1)
      × (t.deleted ≡ true)
      × (one_shot_callback t ≡ none)
unfolding one_shot_callback make_one_shot_timer
one_shot_callback_lem self after_ms =
    (record { event = none; runs = 1; deleted = true }, refl, refl, refl, refl)
