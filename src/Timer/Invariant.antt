-- ===== src/Timer/Invariant.antt =====
-- base/timer.cpp: what holds of the timers, their events and their callbacks, and that making,
-- moving, clearing and deleting keep it.
use turnserver_v.Base.{
  ℕ, ◌<◌, ◌≡◌, Bool, true, false, Option, none, some, arith, ◌==◌, Bool-cases, inl, inr,
}
use turnserver_v.Timer.{Event, World, put, empty, init, make, move_assign, move_construct}

abbrev pub is_some {ℓ} : {A : Type ℓ} → Option A → Bool
is_some none = false
is_some (some a) = true

-- An event and the callback of its object were made together, and live as the object holds them.
pub record IsSafe (w : World) : Type 0 where
  pub context : (e : ℕ) (v : Event) → w.events e ≡ some v → v.context ≡ e
  pub live : (e : ℕ) → is_some (w.events e) ≡ true → w.alive e ≡ true
  pub own : (i e : ℕ) → (w.objects i).timer ≡ some e → (w.objects i).callback ≡ some e
  pub armed : (i e : ℕ) → (w.objects i).timer ≡ some e → is_some (w.events e) ≡ true
  pub held : (i c : ℕ) → (w.objects i).callback ≡ some c → w.alive c ≡ true
  pub one : (i j c : ℕ) → (w.objects i).callback ≡ some c → (w.objects j).callback ≡ some c → i ≡ j
  pub old : (c : ℕ) → w.alive c ≡ true → c < w.fresh
  pub holds :
      (i c : ℕ)
      → (w.objects i).callback ≡ some c
      → is_some (w.events c) ≡ true
      → (w.objects i).timer ≡ some c
  -- No event is left behind: an object holds it.
  pub owned : (e : ℕ) → is_some (w.events e) ≡ true → (i : ℕ) × ((w.objects i).timer ≡ some e)

pub init-IsSafe : IsSafe init
unfolding init
init-IsSafe = record {
  context = λ e v h. absurd (cc);
  live = λ e h. absurd (cc);
  own = λ i e h. absurd (cc);
  armed = λ i e h. absurd (cc);
  held = λ i c h. absurd (cc);
  one = λ i j c h k. absurd (cc);
  old = λ c h. absurd (cc);
  holds = λ i c h k. absurd (cc);
  owned = λ e h. absurd (cc);
}

module _ (w : World) (h : IsSafe w) where
  pub make-IsSafe : (i ms : ℕ) → w.objects i ≡ empty → IsSafe (make i ms w)
  unfolding make
  make-IsSafe i ms vacant = record {
    context = λ e v at. ground (arith, h.context e v);
    live = λ e at. ground (arith, h.live e);
    own = λ j e at. ground (arith, h.own j e);
    armed = λ j e at. ground (arith, h.armed j e);
    held = λ j c at. ground (arith, h.held j c);
    one = λ j k c at bt. ground (arith, h.one j k c, h.held j c, h.held k c, h.old c);
    old = λ c at. ground (arith, h.old c);
    holds = λ j c at live. ground (arith, h.holds j c, h.held j c, h.old c);
    owned = λ e live. elim (Bool-cases (e == w.fresh)) [
      | inl new ↦ (i, ground (arith))
      | inr before ↦ let (k, at) = h.owned e (ground arith) in (k, ground arith)
    ];
  }

  pub move_assign-IsSafe : (i j : ℕ) → IsSafe (move_assign i j w)
  unfolding move_assign
  move_assign-IsSafe i j = record {
    context = h.context;
    live = h.live;
    own = λ k e at. ground (arith, h.own i e, h.own j e, h.own k e);
    armed = λ k e at. ground (arith, h.armed i e, h.armed j e, h.armed k e);
    held = λ k c at. ground (arith, h.held i c, h.held j c, h.held k c);
    one = λ k l c at bt.
        ground
          (arith, h.one i j c, h.one i k c, h.one i l c, h.one j k c, h.one j l c, h.one k l c);
    old = h.old;
    holds = λ k c at live. ground (arith, h.holds i c, h.holds j c, h.holds k c);
    owned = λ e live.
        let (k, at) = h.owned e live in
        elim (Bool-cases (k == i)) [
          | inl to ↦ (j, ground arith)
          | inr from ↦ elim (Bool-cases (k == j)) [
            | inl other ↦ (i, ground arith)
            | inr else ↦ (k, ground arith)
          ]
        ];
  }

  pub move_construct-IsSafe : (i j : ℕ) → w.objects i ≡ empty → IsSafe (move_construct i j w)
  unfolding move_construct
  move_construct-IsSafe i j vacant = record {
    context = h.context;
    live = h.live;
    own = λ k e at. ground (arith, h.own j e, h.own k e);
    armed = λ k e at. ground (arith, h.armed j e, h.armed k e);
    held = λ k c at. ground (arith, h.held j c, h.held k c);
    one = λ k l c at bt. ground (arith, h.one j k c, h.one j l c, h.one k l c);
    old = h.old;
    holds = λ k c at live. ground (arith, h.holds j c, h.holds k c);
    owned = λ e live.
        let (k, at) = h.owned e live in
        elim (Bool-cases (k == j)) [ inl from ↦ (i, ground arith) | inr other ↦ (k, ground arith) ];
  }

  pub clear-none :
      (i : ℕ)
      → (w.objects i).timer ≡ none
      → IsSafe (record w { objects = put i (record (w.objects i) { timer = none }) w.objects })
  clear-none i no_timer = record {
    context = h.context;
    live = h.live;
    own = λ k e at. ground (arith, h.own k e);
    armed = λ k e at. ground (arith, h.armed k e);
    held = λ k c at. ground (arith, h.held k c);
    one = λ k l c at bt. ground (arith, h.one i k c, h.one i l c, h.one k l c);
    old = h.old;
    holds = λ k c at live. ground (arith, h.holds k c);
    owned = λ e live. let (k, at) = h.owned e live in (k, ground arith);
  }

  pub clear-some :
      (i e : ℕ)
      → (w.objects i).timer ≡ some e
      → IsSafe (record w {
        events = put e none w.events;
        objects = put i (record (w.objects i) { timer = none }) w.objects;
      })
  clear-some i e timer = record {
    context = λ k v at. ground (arith, h.context k v);
    live = λ k at. ground (arith, h.live k);
    own = λ k f at. ground (arith, h.own k f);
    armed = λ k f at. ground (arith, h.armed k f, h.own i e, h.own k f, h.one i k e);
    held = λ k c at. ground (arith, h.held i c, h.held k c);
    one = λ k l c at bt. ground (arith, h.one i k c, h.one i l c, h.one k l c);
    old = h.old;
    holds = λ k c at live. ground (arith, h.holds k c, h.holds i c);
    owned = λ f live. let (k, at) = h.owned f (ground arith) in (k, ground arith);
  }

  -- Without its event, the callback of an object can be deleted.
  pub delete-some :
      (i c : ℕ)
      → (w.objects i).timer ≡ none
      → (w.objects i).callback ≡ some c
      → IsSafe (record w { alive = put c false w.alive; objects = put i empty w.objects })
  delete-some i c no_timer callback = record {
    context = h.context;
    live = λ e at. ground (arith, h.live e, h.holds i c);
    own = λ k e at. ground (arith, h.own k e);
    armed = λ k e at. ground (arith, h.armed k e);
    held = λ k d at. ground (arith, h.held k d, h.one i k c);
    one = λ k l d at bt. ground (arith, h.one k l d);
    old = λ d at. ground (arith, h.old d);
    holds = λ k d at live. ground (arith, h.holds k d);
    owned = λ e live. let (k, at) = h.owned e live in (k, ground arith);
  }

  pub delete-none :
      (i : ℕ)
      → (w.objects i).timer ≡ none
      → (w.objects i).callback ≡ none
      → IsSafe (record w { objects = put i empty w.objects })
  delete-none i no_timer no_callback = record {
    context = h.context;
    live = h.live;
    own = λ k e at. ground (arith, h.own k e);
    armed = λ k e at. ground (arith, h.armed k e);
    held = λ k d at. ground (arith, h.held k d);
    one = λ k l d at bt. ground (arith, h.one k l d);
    old = h.old;
    holds = λ k d at live. ground (arith, h.holds k d);
    owned = λ e live. let (k, at) = h.owned e live in (k, ground arith);
  }
