-- ===== src/Timer.antt =====
-- turnserver/base/timer.h and timer.cpp: class RepeatedTimer, an event of the loop and the callback
-- that it runs, and class OneShotTimer.
--
-- The events of libevent and the callbacks on the heap are numbered in the order they are made in;
-- each event holds the pointer that it hands to its callback. A `RepeatedTimer` object is looked up
-- by its place. To free an event or to run a callback that is not there is a fault (`none`).
pub mod Invariant
pub mod Safe
pub mod Replace
use turnserver_v.Base.{
  ℕ, ◌+◌, ◌*◌, ◌/◌, ◌%◌, max, Bool, true, false, Option, none, some, ◌>>=◌, ◌>>◌, assert, ◌==◌,
  if◌then◌else◌,
}

pub record RepeatedTimer : Type 0 where
  pub timer : Option ℕ
  pub callback : Option ℕ

-- An event that was added: its context and the timeval of its interval.
pub record Event : Type 0 where
  pub context : ℕ
  pub tv_sec : ℕ
  pub tv_usec : ℕ

pub record World : Type 0 where
  pub fresh : ℕ
  pub events : ℕ → Option Event
  pub alive : ℕ → Bool
  pub objects : ℕ → RepeatedTimer

abbrev pub put {ℓ} : {A : Type ℓ} → ℕ → A → (ℕ → A) → ℕ → A
put i x f = λ j. if j == i then x else f j

-- RepeatedTimer()
abbrev pub empty : RepeatedTimer
empty = record { timer = none; callback = none }

unfoldable pub init : World
init = record { fresh = 0; events = λ e. none; alive = λ c. false; objects = λ i. empty }

-- The timeval of CreateTimer and CreateTimerInternal.
abbrev pub to_event : ℕ → ℕ → Event
to_event context interval_ms = record {
  context = context;
  tv_sec = interval_ms / 1000;
  tv_usec = (interval_ms % 1000) * 1000;
}

-- RepeatedTimer(loop, interval_ms, f, args), at the place `i`
unfoldable pub make : ℕ → ℕ → World → World
make i interval_ms w = record {
  fresh = w.fresh + 1;
  events = put w.fresh (some (to_event w.fresh interval_ms)) w.events;
  alive = put w.fresh true w.alive;
  objects = put i (record { timer = some w.fresh; callback = some w.fresh }) w.objects;
}

-- RepeatedTimer(loop, std::chrono::milliseconds, f, args)
unfoldable make_chrono : ℕ → ℕ → World → World
make_chrono i count w = make i (max 1 count) w

-- event_del and event_free of an event
unfoldable pub free_event : Option ℕ → World → Option World
free_event none w = some w
free_event (some e) w = do event ← w.events e; some (record w { events = put e none w.events })

unfoldable pub clear : ℕ → World → Option World
clear i w = do
  w ← free_event (w.objects i).timer w
  some (record w { objects = put i (record (w.objects i) { timer = none }) w.objects })

unfoldable pub delete_callback : Option ℕ → World → Option World
delete_callback none w = some w
delete_callback (some c) w = do assert (w.alive c); some (record w { alive = put c false w.alive })

-- ~RepeatedTimer(), whose unique_ptr deletes the callback; the place is empty after it.
unfoldable pub destroy : ℕ → World → Option World
destroy i w = do
  w ← clear i w
  w ← delete_callback (w.objects i).callback w
  some (record w { objects = put i empty w.objects })

-- operator=(RepeatedTimer &&), of the object at `j` to that at `i`: the two swap what they have.
unfoldable pub move_assign : ℕ → ℕ → World → World
move_assign i j w = record w { objects = put i (w.objects j) (put j (w.objects i) w.objects) }

-- RepeatedTimer(RepeatedTimer &&), at the empty place `i`
unfoldable pub move_construct : ℕ → ℕ → World → World
move_construct i j w = record w { objects = put i (w.objects j) (put j empty w.objects) }

-- TimerCallback, which libevent calls when the event `e` is due: the callback that runs.
unfoldable pub timer_callback : ℕ → World → Option ℕ
timer_callback e w = do event ← w.events e; assert (w.alive event.context); some event.context

-- OneShotTimer: the object on the heap has its event and its callback, and deletes itself.
pub record OneShotTimer : Type 0 where
  pub event : Option Event
  pub runs : ℕ
  pub deleted : Bool

-- MakeOneShotTimer
unfoldable pub make_one_shot_timer : ℕ → ℕ → OneShotTimer
make_one_shot_timer self after_ms = record {
  event = some (to_event self after_ms);
  runs = 0;
  deleted = false;
}

-- OneShotTimer::TimerCallback
unfoldable pub one_shot_callback : OneShotTimer → Option OneShotTimer
one_shot_callback t = do
  event ← t.event
  assert (if t.deleted then false else true)
  some (record { event = none; runs = t.runs + 1; deleted = true })
