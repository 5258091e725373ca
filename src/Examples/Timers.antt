-- ===== src/Examples/Timers.antt =====
-- The timers and the server that listens, at concrete values.
use turnserver_v.Base.{arith, ℕ, ◌≡◌, ◌≢◌, refl, true, if◌then◌else◌, List, [], ◌∷◌, none, some}
use turnserver_v.Timer.{World, init, make, move_assign, timer_callback}
use turnserver_v.Timer.Safe.{act, Reachable, timer_callback-Reachable}
use turnserver_v.Timer.Safe.Action.{made, assigned, destroyed}
use turnserver_v.Timer.Safe.Reachable.{started, acted}
use turnserver_v.Timer.{empty, to_event}
use turnserver_v.Timer.Replace.{replace, replace-Reachable}
use turnserver_v.Net.Server.{Listener, TcpServer, Granted, destroy, call}
use turnserver_v.Net.Server
use turnserver_v.Net.Server.Life.{Event, handle, IsStaged, Reachable-IsStaged, destroy-Reachable}
use turnserver_v.Net.Server.Life
use turnserver_v.Examples.Addresses.{little_endian}

-- A timer at the place 0, which is moved to the place 1.
abbrev one_timer : World
unfolding make init
one_timer = make 0 1500 init

abbrev moved_timer : World
unfolding move_assign make init
moved_timer = move_assign 1 0 one_timer

moved_timer-Reachable : Reachable moved_timer
unfolding act init one_timer make moved_timer move_assign
moved_timer-Reachable =
    acted (assigned 1 0) one_timer moved_timer
      (acted (made 0 1500) init one_timer started refl refl) tt refl

timer_callback-Reachable_example :
    (act (destroyed 0) moved_timer ≢ none)
    × (timer_callback 0 moved_timer ≡ some 0)
    × ((k : ℕ) × ((moved_timer.objects k).timer ≡ some 0)
        × ((moved_timer.objects k).callback ≡ some 0))
    × (timer_callback 0 moved_timer ≡ (moved_timer.objects 1).callback)
unfolding moved_timer one_timer make move_assign init
timer_callback-Reachable_example =
    timer_callback-Reachable moved_timer (destroyed 0) 0 0 1 (to_event 0 1500) moved_timer-Reachable
      tt refl refl

replace-Reachable_example :
    (t : World) × (replace 1 0 3000 moved_timer ≡ some t)
    × Reachable t
    × (t.objects 1 ≡ record { timer = some 1; callback = some 1 })
    × (t.events 1 ≡ some (to_event 1 3000))
    × ((e : ℕ) → (moved_timer.objects 1).timer ≡ some e → t.events e ≡ none)
    × (t.objects 0 ≡ empty)
    × ((j : ℕ) → j ≢ 1 → t.objects j ≡ moved_timer.objects j)
unfolding moved_timer one_timer make move_assign init
replace-Reachable_example =
    replace-Reachable 1 0 3000 moved_timer moved_timer-Reachable refl
      (λ h. absurd (omega (arith, h)))

abbrev all_granted : Granted
all_granted = record { kept_alive = true; reusable = true; binds = true; listens = true }

-- A server with the socket 5 that listens on port 443.
abbrev new_server : TcpServer
new_server = record { fd = 5; conn = none; callback = true; calls = [] }

abbrev server : TcpServer
unfolding Server.listen_on Server.listen_if Server.bind_and_listen call
server = (Server.listen_on little_endian 443 0 all_granted new_server).1

server-Reachable : Life.Reachable little_endian server
unfolding handle Server.init server Server.listen_on Server.listen_if Server.bind_and_listen call
server-Reachable =
    Life.Reachable.stepped new_server server (Event.listen 443 0 all_granted)
      (Life.Reachable.made (some 5) true true new_server refl) refl

Reachable-IsStaged_example : IsStaged server
Reachable-IsStaged_example = Reachable-IsStaged little_endian server server-Reachable

-- evconnlistener_free
abbrev free_listener : Listener → List ℕ
free_listener l = if l.close_on_free then l.fd ∷ [] else []

free_listener_closes : (l : Listener) → l.close_on_free ≡ true → free_listener l ≡ l.fd ∷ []
free_listener_closes l h = rw h refl

destroy-Reachable_example : destroy free_listener server ≡ 5 ∷ 5 ∷ []
unfolding server Server.listen_on Server.listen_if Server.bind_and_listen call
destroy-Reachable_example =
    destroy-Reachable little_endian free_listener server server-Reachable free_listener_closes
