-- ===== src/Tests/Ping.antt =====
-- The ICMP controller.
use libudjatnetwork.Prelude.{
  ◌==◌, ==_iff, ◌||◌, ◌+◌, ◌≤◌, ◌≡◌, refl, true, List, [], ◌∷◌, pos, minus_one, Returns, All, arith,
}
use libudjatnetwork.Icmp.Packet.{htons}
use libudjatnetwork.Icmp.Controller.{
  Datagram, handle_event, on_timer, Event, inserts, removes, reads, ticks, run,
}
use libudjatnetwork.Icmp.Controller.Tracked.{IsTracked}
use libudjatnetwork.Icmp.Controller.Filtering.{Filters, handle_event-Filters}
use libudjatnetwork.IpAgent.Heard.Settled.{IsUpdated, run-IsUpdated}
use libudjatnetwork.Icmp.Controller.ToldAll.{checks_of, run-loses_none}
use libudjatnetwork.IpAgent.Heard.{IsTold, run-IsTold}
use libudjatnetwork.Icmp.Controller.Histories.{IsSound, run-IsSound}
use libudjatnetwork.Icmp.Controller.Sweep.{count_of}
use libudjatnetwork.Icmp.Controller.Accounts.Passes.{notices_for}
use libudjatnetwork.Icmp.Controller.ToldOnce.{insertions_of, run-tells_once}
use libudjatnetwork.Icmp.Controller.Moves.{Refines, run-Refines}
use libudjatnetwork.Icmp.Controller.Orders.{SameEnd, handle_event-SameEnd}
use libudjatnetwork.Icmp.Host.{Host, Controller, World}
use libudjatnetwork.Icmp.Controller.Timers.{IsInTime, on_timer-IsInTime}
use libudjatnetwork.Icmp.Controller.Replies.{response_of_type}
use libudjatnetwork.Tests.{
  agent, framework, host_word, ipv4, ping_host, idle_controller, busy_controller, world, sys,
  worker,
}

idle_controller-IsTracked : IsTracked idle_controller
idle_controller-IsTracked w = refl

-- An insertion, a tick that finds the network unreachable, a removal.
abbrev history : List Event
history =
    inserts world sys 7 ∷ ticks world minus_one ∷ inserts world sys 8 ∷ removes minus_one 7 ∷ []

on_timer-IsInTime_example :
    Returns (λ c'. All (IsInTime world.now) c'.hosts) (on_timer world minus_one busy_controller)
on_timer-IsInTime_example = on_timer-IsInTime world minus_one busy_controller (tt, tt)

-- A reply to the packet of `ping_host`.
abbrev datagram : Datagram
datagram = record {
  size = pos 60;
  from = ipv4 host_word;
  packet = record {
    icmp_type = 0;
    icmp_cksum = 0;
    icmp_id = 19712;
    icmp_seq = 0;
    payload = record { id = 3; seq = 1; time = 49000000 };
  };
}

run-tells_once_example :
    Returns
      (λ c'.
        notices_for 7 c'.notices + count_of 7 c'.hosts
        ≤ notices_for 7 idle_controller.notices
          + count_of 7 idle_controller.hosts
          + insertions_of 7 history)
      (run history idle_controller)
run-tells_once_example =
    run-tells_once 7 history idle_controller (omega arith) ((tt, tt), idle_controller-IsTracked)

run-Refines_example : Returns (Refines history idle_controller) (run history idle_controller)
run-Refines_example =
    run-Refines history idle_controller (omega arith) ((tt, tt), idle_controller-IsTracked)

run-IsSound_example : Returns IsSound (run history idle_controller)
run-IsSound_example =
    run-IsSound history idle_controller (omega arith) ((tt, tt), idle_controller-IsTracked)

-- Two checks under way, and a reply to each.
abbrev other_host : Host
other_host = record ping_host { worker = 8; id = 4 }

abbrev two_checks : Controller
two_checks = record busy_controller {
  hosts = ping_host ∷ other_host ∷ [];
  workers = λ w. worker ((w == 7) || (w == 8));
}

abbrev unreachable : Datagram
unreachable = record datagram {
  packet = record datagram.packet {
    icmp_type = 3;
    payload = record { id = 4; seq = 1; time = 49000000 };
  };
}

two_checks-IsTracked : IsTracked two_checks
two_checks-IsTracked w = ground (arith, ==_iff 7 w, ==_iff 8 w, ==_iff w 7, ==_iff w 8)

handle_event-SameEnd_example :
    SameEnd
      (handle_event world true unreachable (handle_event world true datagram two_checks))
      (handle_event world true datagram (handle_event world true unreachable two_checks))
unfolding htons
handle_event-SameEnd_example =
    handle_event-SameEnd world world datagram unreachable two_checks [] ping_host [] other_host []
      refl (((λ e. ground (arith, e)), tt), (tt, tt)) two_checks-IsTracked
      (refl, (λ e. ground (arith, e)), refl) (refl, (λ e. ground (arith, e)), refl)

-- A check of the worker 8 with the identifier of `ping_host`.
abbrev same_id : Controller
same_id = record busy_controller {
  hosts = ping_host ∷ record other_host { id = 3 } ∷ [];
  workers = λ w. worker ((w == 7) || (w == 8));
}

handle_event-Filters_example :
    let c' = handle_event world true datagram same_id in
    Filters
      (ipv4 host_word)
      (response_of_type 0)
      datagram.packet.payload
      same_id.hosts
      same_id
      (c'.hosts, c')
unfolding htons
handle_event-Filters_example =
    handle_event-Filters world datagram same_id (λ e. ground (arith, e)) refl

-- The same with a datagram that is read before the removal.
abbrev read_history : List Event
read_history =
    inserts world sys 7 ∷ inserts world sys 8 ∷ reads world true datagram ∷ removes minus_one 8 ∷ []

run-IsTold_example :
    Returns
      (IsTold framework
        (count_of agent.worker idle_controller.hosts + insertions_of agent.worker read_history)
        agent)
      (run read_history idle_controller)
run-IsTold_example =
    run-IsTold framework agent read_history idle_controller refl refl (omega arith)
      ((tt, tt), idle_controller-IsTracked)

run-loses_none_example :
    Returns
      (λ c'.
        notices_for 7 c'.notices + count_of 7 c'.hosts
        ≡ notices_for 7 idle_controller.notices
          + count_of 7 idle_controller.hosts
          + checks_of 7 read_history idle_controller)
      (run read_history idle_controller)
run-loses_none_example =
    run-loses_none 7 read_history idle_controller (omega arith)
      ((tt, tt), idle_controller-IsTracked) (tt, (tt, (refl, ((λ e. ground (arith, e)), tt))))

-- The agent's interval is two seconds, so that its checks end before the second 106.
abbrev afterwards : World
afterwards = record world { now = 106 }

run-IsUpdated_example :
    Returns
      (λ c'.
        Returns
          (λ c''.
            (count_of agent.worker c''.hosts ≡ 0)
            × IsUpdated framework
                (count_of agent.worker idle_controller.hosts
                  + checks_of agent.worker read_history idle_controller)
                agent
                c'')
          (on_timer afterwards minus_one c'))
      (run read_history idle_controller)
run-IsUpdated_example =
    run-IsUpdated framework agent 2 105 read_history afterwards minus_one idle_controller refl refl
      (omega arith) ((tt, tt), idle_controller-IsTracked)
      (tt, (tt, (refl, ((λ e. ground (arith, e)), tt))))
      ((λ e. omega arith), ((λ e. omega arith), (tt, (tt, tt)))) (omega arith) tt (omega arith)
