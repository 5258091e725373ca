-- ===== src/Timer/Replace.antt =====
-- base/timer.cpp, as tcp_client.cpp and uni_lbs_client.cpp use it: `timer_ = RepeatedTimer(...)`.
use turnserver_v.Base.{
  ℕ, ◌*◌, ◌≡◌, ◌≢◌, refl, Option, none, some, Option-cases, Bool-cases, ◌==◌, inl, inr, ap, ◌∙◌,
  arith,
}
use turnserver_v.Wire.Packer.{u32}
use turnserver_v.Timer.{
  World, empty, put, to_event, make, move_assign, free_event, clear, delete_callback, destroy,
}
use turnserver_v.Timer.Safe.{Reachable, Reachable-IsSafe, act, destroy-IsSafe}
use turnserver_v.Timer.Safe.Action.{made, assigned, destroyed}
use turnserver_v.Timer.Safe.Reachable.{acted}

-- The new timer is made at the place `tmp`, assigned to the one at `i`, and destroyed there with what
-- the assignment left it.
unfoldable pub replace : ℕ → ℕ → ℕ → World → Option World
replace i tmp interval_ms w = destroy tmp (move_assign i tmp (make tmp interval_ms w))

-- SetPingInterval
unfoldable set_ping_interval : ℕ → ℕ → ℕ → World → Option World
set_ping_interval i tmp seconds w = replace i tmp (u32 (seconds * 1000)) w

-- What an object at `i` leaves behind: nothing there, the other objects, and no event.
record Removed (i : ℕ) (w t : World) : Type 0 where
  vacant : t.objects i ≡ empty
  others : (j : ℕ) → j ≢ i → t.objects j ≡ w.objects j
  freed : (e : ℕ) → (w.objects i).timer ≡ some e → t.events e ≡ none
  kept : (e : ℕ) → (w.objects i).timer ≢ some e → t.events e ≡ w.events e

record Freed (timer : Option ℕ) (w t : World) : Type 0 where
  objects : t.objects ≡ w.objects
  freed : (e : ℕ) → timer ≡ some e → t.events e ≡ none
  kept : (e : ℕ) → timer ≢ some e → t.events e ≡ w.events e

free_event-Freed : (timer : Option ℕ) (w t : World) → free_event timer w ≡ some t → Freed timer w t
unfolding free_event
free_event-Freed none w t done = record {
  objects = cc;
  freed = λ e at. absurd (cc);
  kept = λ e ne. cc;
}
free_event-Freed (some d) w t done = elim (Option-cases (w.events d)) [
  | inl gone ↦ absurd (ground arith)
  | inr (v, live) ↦
      let same : some (record w { events = put d none w.events }) ≡ some t = rw live at done in
      record {
        objects = cc;
        freed = λ e at. ground arith;
        kept = λ e ne. elim (Bool-cases (e == d)) [
          | inl eq ↦ absurd (ne (ground arith))
          | inr neq ↦ ground arith
        ];
      }
]

delete_callback_lem :
    (callback : Option ℕ) (w t : World)
    → delete_callback callback w ≡ some t
    → (t.objects ≡ w.objects) × (t.events ≡ w.events)
unfolding delete_callback
delete_callback_lem none w t done = (cc, cc)
delete_callback_lem (some c) w t done = elim (Bool-cases (w.alive c)) [
  | inl alive ↦ (ground arith, ground arith)
  | inr dead ↦ absurd (ground arith)
]

destroy-Removed : (i : ℕ) (w t : World) → destroy i w ≡ some t → Removed i w t
unfolding destroy clear
destroy-Removed i w t done = elim (Option-cases (free_event (w.objects i).timer w)) [
  | inl fails ↦ absurd (ground arith)
  | inr (s, freed) ↦
      let r : World = record s {
        objects = put i (record (s.objects i) { timer = none }) s.objects;
      } in
      elim (Option-cases (delete_callback (r.objects i).callback r)) [
        | inl fails ↦ absurd (ground arith)
        | inr (q, deleted) ↦
            let same : some (record q { objects = put i empty q.objects }) ≡ some t =
              rw (freed, deleted) at done in
            let f = free_event-Freed (w.objects i).timer w s freed in
            let d = delete_callback_lem (r.objects i).callback r q deleted in
            let at_place : (j : ℕ) → t.objects j ≡ put i empty q.objects j = λ j. cc in
            let after : (j : ℕ) → q.objects j ≡ r.objects j = λ j. ap (λ g. g j) d.0 in
            let before : (j : ℕ) → s.objects j ≡ w.objects j = λ j. ap (λ g. g j) f.objects in
            let same_events : (e : ℕ) → t.events e ≡ s.events e = λ e. cc in
            record {
              vacant = at_place i ∙ (ground arith);
              others = λ j ne. at_place j ∙ (ground (arith, after j, before j));
              freed = λ e at. same_events e ∙ f.freed e at;
              kept = λ e ne. same_events e ∙ f.kept e ne;
            }
      ]
]

-- In a world that timers were made, moved, cleared and destroyed in, a new timer that is assigned to
-- the one at `i`, through an empty place that is not `i`, replaces it without a fault, and the world
-- stays such a world: `i` has the new event, which is due after the new interval, with its own
-- callback; the event that `i` had is gone, the place in between is empty, and no other object
-- changes.
pub replace-Reachable :
    (i tmp ms : ℕ) (w : World)
    → Reachable w
    → w.objects tmp ≡ empty
    → i ≢ tmp
    → (t : World) × (replace i tmp ms w ≡ some t)
      × Reachable t
      × (t.objects i ≡ record { timer = some w.fresh; callback = some w.fresh })
      × (t.events w.fresh ≡ some (to_event w.fresh ms))
      × ((e : ℕ) → (w.objects i).timer ≡ some e → t.events e ≡ none)
      × (t.objects tmp ≡ empty)
      × ((j : ℕ) → j ≢ i → t.objects j ≡ w.objects j)
unfolding replace act make move_assign
replace-Reachable i tmp ms w reached vacant other =
    let made_world = make tmp ms w in
    let m : Reachable made_world = acted (made tmp ms) w made_world reached vacant refl in
    let s = move_assign i tmp made_world in
    let a : Reachable s = acted (assigned i tmp) made_world s m tt refl in
    let (t, done, _) = destroy-IsSafe tmp s (Reachable-IsSafe s a) in
    let r = destroy-Removed tmp s t done in
    let h = Reachable-IsSafe w reached in
    (
      t,
      done,
      acted (destroyed tmp) s t a tt done,
      r.others i other ∙ (ground arith),
      r.kept w.fresh
            (λ at. absurd (ground (arith, h.own i w.fresh, h.held i w.fresh, h.old w.fresh)))
          ∙ (ground arith),
      λ e at. r.freed e (ground arith),
      r.vacant,
      λ j ne. elim (Bool-cases (j == tmp)) [
        | inl at ↦ ground (arith, r.vacant)
        | inr there ↦ r.others j (λ eq. absurd (ground arith)) ∙ (ground arith)
      ],
    )
