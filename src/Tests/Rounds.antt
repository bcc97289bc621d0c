-- ===== src/Tests/Rounds.antt =====
-- Checks in a row.
use libudjatnetwork.Prelude.{refl, [], ◌∷◌, inr, minus_one, List, Returns, arith}
use libudjatnetwork.Icmp.Host.{Controller, World}
use libudjatnetwork.IpAgent.Rounds.{HasHeard, rounds}
use libudjatnetwork.IpAgent.Rounds.Hearing.{rounds-HasHeard}
use libudjatnetwork.Tests.{framework, addresses, busy_controller, sys}
use libudjatnetwork.Tests.Checks.{reachable, agent_8}

-- The socket is still to be opened.
abbrev closed_controller : Controller
closed_controller = record busy_controller { fd = minus_one }

abbrev twice : List (World × World)
twice = (reachable, reachable) ∷ (reachable, reachable) ∷ []

rounds-HasHeard_example :
    Returns
      (HasHeard 2 agent_8 closed_controller)
      (rounds addresses framework sys twice (agent_8, closed_controller))
rounds-HasHeard_example =
    rounds-HasHeard addresses framework sys twice agent_8 closed_controller
      (refl, refl, refl, inr (refl, (refl, (4, refl), refl, refl)), refl, refl)
      (omega arith, λ i l. ((λ e. omega (arith, e, l)), tt))
      (((λ s. refl), refl, refl), (((λ s. refl), refl, refl), tt))
