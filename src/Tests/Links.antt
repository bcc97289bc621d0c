-- ===== src/Tests/Links.antt =====
-- Netlink listeners and network cards.
use libudjatnetwork.Prelude.{
  arith, ◌≢◌, ℕ, ◌≡◌, refl, ◌==◌, true, false, List, [], ◌∷◌, some, ok, err, pos, system_error,
  Returns, ℤ, keep_if, ◌>>=◌, invalid_argument,
}
use libudjatnetwork.Prelude.Text.{codes}
use libudjatnetwork.SockAddr.ByteOrder.{little}
use libudjatnetwork.NetLink
use libudjatnetwork.NetLink.{
  Listener, Message, messages, new_controller, handle_event, push_back, remove,
}
use libudjatnetwork.NetLink.Histories
use libudjatnetwork.NetLink.Dispatch.{log, handle_event-calls}
use libudjatnetwork.NetLink.Watching.{IsWatching}
use libudjatnetwork.NetLink.Deaf.{NeverHears, push_back-NeverHears}
use libudjatnetwork.Nic
use libudjatnetwork.Nic.{new_agent, Os, refresh, on_dellink, compute_state, widened}
use libudjatnetwork.Nic.State.{existant, NicState, Intf, active, make}
use libudjatnetwork.Nic.Removal.{run-deaf}
use libudjatnetwork.Nic.Link.{newlink, dellink, refreshed, Event, run}
use libudjatnetwork.Nic.Listening.{callback}
use libudjatnetwork.Nic.Listening.Life.{start-follows, stop-silent}
use libudjatnetwork.Nic.Cards
use libudjatnetwork.Nic.Cards.{Interface, get_nics}
use libudjatnetwork.Nic.Cards.Counting.{carriers, count_true, active-carriers}
use libudjatnetwork.Nic.Cards.Names.{split_comma, get_nics-names}
use libudjatnetwork.Nic.Flags.{without_flags, run-unheard}
use libudjatnetwork.Tests.{properties}

abbrev listener : ℕ → Listener
listener m = record { message = m; object = 1 }

abbrev watching : NetLink.Controller
watching = record { listeners = listener 16 ∷ listener 17 ∷ []; fd = pos 4; enabled = true }

abbrev datagram : List Message
datagram = record { nlmsg_type = 17; payload = 5 } ∷ record { nlmsg_type = 3; payload = 0 } ∷ []

handle_event-calls_example :
    handle_event log watching (messages datagram) []
    ≡ ok (record { listener = listener 17; payload = 5 } ∷ [])
handle_event-calls_example = handle_event-calls watching datagram

abbrev sys : NetLink.Sys
sys = record { socket = pos 4; bind_fails = false; errno = pos 0 }

abbrev unbound : NetLink.Sys
unbound = record { socket = pos 4; bind_fails = true; errno = pos 98 }

new_controller-IsWatching : IsWatching new_controller
new_controller-IsWatching = record { watches = refl; opened = refl }

push_back-NeverHears_example :
    let (r, c') = push_back unbound 1 16 new_controller in
    (r ≡ err (system_error (pos 98))) × NeverHears ((sys, 2, 16) ∷ (sys, 2, 17) ∷ []) c'
push_back-NeverHears_example =
    push_back-NeverHears unbound 1 16 ((sys, 2, 16) ∷ (sys, 2, 17) ∷ []) new_controller refl refl
      refl refl

abbrev card : Nic.Agent
card = new_agent (codes "eth0")

-- An interface that is up and running.
abbrev os : Os
os = record {
  socket = pos 6;
  errno = pos 0;
  ifr_flags = some 4163;
  order = little;
  if_nametoindex = λ n. pos 2;
  if_indextoname = λ i. some (codes "eth0");
}

run-deaf_example :
    let read = (refresh os card).1 in
    (read.intf.index ≡ pos 4163)
    × (run os (dellink (pos 2) 0 ∷ refreshed ∷ dellink (pos 2) 4163 ∷ []) read ≡ read)
run-deaf_example =
    run-deaf os 4163 refl refl refl (dellink (pos 2) 0 ∷ refreshed ∷ dellink (pos 2) 4163 ∷ []) card
      (refl, (refl, tt))

abbrev intf : Intf
intf = record { index = pos 2; netlink = true; exist = true; flags = 65 }

abbrev steady : List Event
steady = newlink (pos 2) 4163 ∷ refreshed ∷ dellink (pos 4163) 4163 ∷ []

-- States for a missing interface and for its first flag.
abbrev mixed : List NicState
mixed = make properties (existant true) ∷ make properties (active 1) ∷ []

run-unheard_example :
    let agent = (run os steady (refresh os card).1) in
    compute_state properties (record agent { states = mixed })
    ≡ compute_state properties (record agent { states = without_flags mixed })
unfolding widened
run-unheard_example =
    run-unheard os 4163 card steady properties mixed refl refl refl (refl, (refl, tt))

-- The agent 2 registers beside the agent 1, on a socket that is open.
abbrev link_os : Os
link_os = record {
  socket = pos 3;
  errno = pos 0;
  ifr_flags = some 4163;
  order = little;
  if_nametoindex = λ n. pos 2;
  if_indextoname = λ i. some (codes "eth0");
}

abbrev sys_ok : NetLink.Sys
sys_ok = record { socket = pos 4; bind_fails = false; errno = pos 0 }

abbrev eth0 : Nic.Agent
eth0 = new_agent (codes "eth0")

abbrev info : ℕ → ℤ × ℕ
info payload = (pos 2, payload)

-- The interface goes down; the second message is not read.
abbrev link_datagram : List Message
link_datagram =
    record { nlmsg_type = 16; payload = 4098 }
    ∷ record { nlmsg_type = 3; payload = 0 }
    ∷ record { nlmsg_type = 17; payload = 0 }
    ∷ []

start-follows_example :
    let (done, a', c') = Nic.start link_os sys_ok sys_ok 2 eth0 watching in
    Returns
      (λ s'. s' 2 ≡ run link_os (newlink (pos 2) 4098 ∷ []) a')
      (handle_event (callback link_os info) c' (messages link_datagram) (λ n. a'))
unfolding Nic.start refresh widened push_back
start-follows_example =
    start-follows link_os link_os info sys_ok sys_ok 2 eth0 watching link_datagram _ refl refl refl

stop-silent_example :
    Returns
      (λ s'. s' 1 ≡ eth0)
      (handle_event
        (callback link_os info)
        (Nic.stop 1 watching)
        (messages link_datagram)
        (λ n. eth0))
stop-silent_example = stop-silent link_os info 1 watching link_datagram (λ n. eth0)

-- A loopback, an interface that is up with a carrier, and one that is down.
abbrev cards : List Interface
cards =
    record { name = codes "lo"; up = true; loopback = true; carrier_file = ok (codes "1") }
    ∷ record { name = codes "eth0"; up = true; loopback = false; carrier_file = ok (codes "1") }
    ∷ record {
      name = codes "eth1";
      up = false;
      loopback = false;
      carrier_file = err invalid_argument;
    }
    ∷ []

active-carriers_example :
    Cards.active cards ≡ (carriers (keep_if (λ i. i.up) cards) >>= λ bs. ok (count_true bs))
active-carriers_example = active-carriers cards

no_comma : (n : ℕ) → (n == 44) ≡ false → n ≢ 44
no_comma n h e = ground arith

get_nics-names_example : split_comma (get_nics cards []) ≡ codes "eth0" ∷ codes "eth1" ∷ []
get_nics-names_example =
    get_nics-names cards
      (
        (refl, (no_comma _ refl, (no_comma _ refl, tt))),
        (
          (refl, (no_comma _ refl, (no_comma _ refl, (no_comma _ refl, (no_comma _ refl, tt))))),
          (
            (refl, (no_comma _ refl, (no_comma _ refl, (no_comma _ refl, (no_comma _ refl, tt))))),
            tt,
          ),
        ),
      )
      (λ e. cc)

-- Two agents come and go, and the first one comes again.
abbrev registrations : List Histories.Event
registrations =
    Histories.registers sys_ok 1 16
    ∷ Histories.registers sys_ok 2 17
    ∷ Histories.removes 1
    ∷ Histories.removes 2
    ∷ Histories.registers sys_ok 1 16
    ∷ []

run-IsWatching_example : IsWatching (Histories.run registrations new_controller)
run-IsWatching_example =
    Histories.run-IsWatching registrations
      ((refl, refl), ((refl, refl), (tt, (tt, ((refl, refl), tt)))))
