-- ===== src/Tests/Gateways.antt =====
-- The gateway agent.
use libudjatnetwork.Prelude.{◌≡◌, refl, true, false, inr, [], ◌∷◌, some, ok, pos, minus_one, arith}
use libudjatnetwork.Prelude.Text.{codes}
use libudjatnetwork.Icmp.Host.{Controller}
use libudjatnetwork.Gateway
use libudjatnetwork.Gateway.{Attribute, Route, reply, Os, rta_align, detect, set_address}
use libudjatnetwork.Gateway.Detect.{AreReadable, span, detect-main_gateway}
use libudjatnetwork.Gateway.Ping.{HasSentTo, refresh-HasSentTo}
use libudjatnetwork.Tests.{net_word, ipv4, framework, addresses, idle_controller, sys, agent}
use libudjatnetwork.Tests.Checks.{reachable}

-- The answer of the kernel: a route of the main table through net_word's machine.
abbrev route : Route
route = record {
  rtm_table = 254;
  payload = 16;
  attributes =
      record { rta_len = 8; rta_type = 5; data_word = net_word }
      ∷ record { rta_len = 8; rta_type = 4; data_word = 2 }
      ∷ [];
}

abbrev os : Os
os = record {
  socket = pos 6;
  errno = pos 0;
  send_fails = false;
  getpid = 77;
  replies = reply 60 24 (route ∷ []) ∷ [];
  if_indextoname = λ i. some (codes "eth0");
}

abbrev gateway : Gateway.Gateway
gateway = record { agent = agent; intf = [] }

readable : AreReadable os (route ∷ [])
unfolding rta_align span
readable = (
  (λ e. (
    refl,
    (
      omega arith,
      (λ f. absurd (omega (arith, f))),
      (λ f. omega arith),
      (omega arith, (λ f. (codes "eth0", refl)), (λ f. absurd (omega (arith, f))), tt),
    ),
  )),
  tt,
)

detect-main_gateway_example :
    let (r, g', c') = detect addresses os gateway idle_controller in
    (r ≡ ok true)
    × (g'.agent ≡ agent)
    × (c' ≡ set_address addresses 7 (ipv4 net_word) idle_controller)
unfolding rta_align span
detect-main_gateway_example =
    detect-main_gateway addresses os gateway idle_controller 60 24 (route ∷ []) [] refl refl refl
      (omega arith) readable

-- The socket of the ICMP controller is still to be opened.
abbrev closed_controller : Controller
closed_controller = record idle_controller { fd = minus_one }

refresh-HasSentTo_example :
    HasSentTo reachable agent true
      (ipv4 net_word)
      closed_controller
      (Gateway.refresh addresses framework reachable sys os gateway closed_controller)
unfolding set_address
refresh-HasSentTo_example =
    refresh-HasSentTo addresses framework reachable sys os gateway closed_controller 60 24
      (route ∷ []) [] refl refl refl (omega arith) readable
      (refl, refl, refl, (inr (refl, (refl, (4, refl), refl, refl)), (refl, refl, refl)))
