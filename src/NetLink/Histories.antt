-- ===== src/NetLink/Histories.antt =====
-- Registrations and removals in any order.
use libudjatnetwork.Prelude.{ℕ, ◌≡◌, refl, false, List, [], ◌∷◌, All, is_negative}
use libudjatnetwork.NetLink.{Controller, Sys, new_controller, push_back, remove}
use libudjatnetwork.NetLink.Watching.{IsWatching, push_back-IsWatching, remove-IsWatching}

-- What can happen to the controller.
pub data Event : Type 0 where
  registers : Sys → ℕ → ℕ → Event
  removes : ℕ → Event

-- The controller after one event, also where a registration throws.
unfoldable pub step : Event → Controller → Controller
unfolding push_back remove
step (registers sys object message) c = (push_back sys object message c).1
step (removes object) c = remove object c

unfoldable pub run : List Event → Controller → Controller
unfolding step
run [] c = c
run (e ∷ es) c = run es (step e c)

-- The system calls of a registration succeed.
abbrev pub Works : Event → Type 0
Works (registers sys object message) = (is_negative sys.socket ≡ false) × (sys.bind_fails ≡ false)
Works (removes object) = Unit

new_controller-IsWatching : IsWatching new_controller
new_controller-IsWatching = record { watches = refl; opened = refl }

step-IsWatching : (e : Event) (c : Controller) → Works e → IsWatching c → IsWatching (step e c)
unfolding step
step-IsWatching (registers sys object message) c s w =
    push_back-IsWatching sys object message c s.0 s.1 w
step-IsWatching (removes object) c s w = (remove-IsWatching object c w).0

run_from-IsWatching :
    (es : List Event) (c : Controller) → All Works es → IsWatching c → IsWatching (run es c)
unfolding run
run_from-IsWatching [] c s w = w
run_from-IsWatching (e ∷ es) c s w =
    run_from-IsWatching es (step e c) s.1 (step-IsWatching e c s.0 w)

-- From the controller as it is constructed, any sequence of registrations whose system calls succeed
-- and of removals leaves the controller watching an open descriptor exactly while it has listeners.
pub run-IsWatching : (es : List Event) → All Works es → IsWatching (run es new_controller)
run-IsWatching es s = run_from-IsWatching es new_controller s new_controller-IsWatching
