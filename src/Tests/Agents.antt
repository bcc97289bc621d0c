-- ===== src/Tests/Agents.antt =====
-- The IP agent, the gateway and the DNS agent.
use libudjatnetwork.Prelude.{
  ℕ, ◌+◌, ◌*◌, ◌≡◌, ◌↔◌, refl, Bool, true, false, inl, [], ◌∷◌, Option, none, some, is_some, ltb,
  leb, ok, err, fault, Result, pos, int_eq, arith, runtime_error, if◌then◌else◌,
}
use libudjatnetwork.Prelude.Text.{CString, codes, same_text}
use libudjatnetwork.Udjat.{Level, unimportant, ready, warning, error, critical, Properties, Node}
use libudjatnetwork.SockAddr.{zeroed}
use libudjatnetwork.Icmp.Host.{Controller}
use libudjatnetwork.IpAgent
use libudjatnetwork.IpAgent.Matching.{Computes, compute_state-Computes}
use libudjatnetwork.IpState
use libudjatnetwork.IpState.{Kind, IpState, subnet_state, internal_state}
use libudjatnetwork.Subnet
use libudjatnetwork.Subnet.{no_subnet}
use libudjatnetwork.SockAddr.ByteOrder.{little}
use libudjatnetwork.IpAgent.Choice.{IsStrict}
use libudjatnetwork.Icmp.Response.{invalid, echo_reply}
use libudjatnetwork.IpAgent.{new_agent, ip_made}
use libudjatnetwork.Icmp.State.{find_state, factory_of_object}
use libudjatnetwork.IpAgent.Stale.{told, same, given, computed, Becomes-stale}
use libudjatnetwork.Gateway.{set_address}
use libudjatnetwork.Dns.Record.{Rr, Record, record_of, address_value}
use libudjatnetwork.Dns.Resolver.{
  new_resolver, query, take_answer, record_loop, Resolver, Answer, failed, answered, wait,
}
use libudjatnetwork.Dns.Resolver.Wait.{HasEnded, wait-HasEnded}
use libudjatnetwork.Dns.Agent
use libudjatnetwork.Dns.Agent.{Agent, Libs, resolve, forget, clear_address, state_matches}
use libudjatnetwork.Dns.Agent.Ping.{HasPinged, refresh-HasPinged}
use libudjatnetwork.Dns.Agent.Lookup.{refresh-custom, refresh-fault}
use libudjatnetwork.Tests.Checks.{reachable}
use libudjatnetwork.Tests.{
  host_word, net_word, ipv4, framework, addresses, properties, idle_controller, world, sys, agent,
  worker, controller,
}

-- Levels as the framework orders them.
abbrev rank : Level → ℕ
rank unimportant = 0
rank ready = 1
rank warning = 2
rank error = 3
rank critical = 4

abbrev above : Properties → Properties → Bool
above a b = ltb (rank b.level) (rank a.level)

above-IsStrict : IsStrict above
above-IsStrict = record { irrefl = λ x. ground arith; trans = λ x y z p q. ground arith }

abbrev failing : Properties
failing = record properties { level = error }

-- The states of an agent: 10.0.0.0/8, 192.168.0.0/16 with a failing level, and the word "remote".
abbrev state_of : Properties → Kind → IpState
state_of p k = record { properties = p; kind = k }

abbrev stated : IpAgent.Agent
stated = record agent {
  ip_states =
      state_of properties (subnet_state (record { addr = ipv4 10; bits = 8 }))
      ∷ state_of failing (subnet_state (record { addr = ipv4 net_word; bits = 16 }))
      ∷ state_of properties (internal_state true no_subnet)
      ∷ [];
}

compute_state-Computes_example :
    Computes addresses little [] above properties
      (ipv4 host_word)
      stated
      (IpAgent.compute_state addresses little (ok []) above properties (ipv4 host_word) stated)
compute_state-Computes_example =
    compute_state-Computes addresses little [] above properties (ipv4 host_word) stated
      above-IsStrict tt refl (omega arith) ((refl, omega arith), ((refl, omega arith), (tt, tt)))

-- A controller whose worker 7 has no address.
abbrev lost : Controller
lost = controller [] (λ w. record (worker false) { addr = zeroed })

-- A new agent with a state for remote addresses, whose state is computed for an address, and that is
-- told an echo reply.
abbrev remote_node : Node
remote_node = record {
  attribute = λ n. if same_text (codes n) (codes "subnet") then some (codes "remote") else none;
}

abbrev given_agent : IpAgent.Agent
given_agent = record (new_agent 7 true) {
  ip_states = state_of properties (internal_state true no_subnet) ∷ [];
}

given_agent-made :
    IpAgent.state_factory addresses framework remote_node (new_agent 7 true)
    ≡ ok (ip_made (state_of properties (internal_state true no_subnet)), given_agent)
unfolding IpAgent.state_factory IpState.factory IpState.find_keyword same_text new_agent
given_agent-made = refl

abbrev computed_agent : IpAgent.Agent
computed_agent =
    (IpAgent.compute_state addresses little (ok []) above properties (ipv4 host_word) given_agent).1

abbrev agent_or : IpAgent.Agent → Result IpAgent.Agent → IpAgent.Agent
agent_or a (ok b) = b
agent_or a (err e) = a
agent_or a fault = a

abbrev answered_agent : IpAgent.Agent
answered_agent = agent_or computed_agent (IpAgent.set framework echo_reply computed_agent)

answered_agent-told : IpAgent.set framework echo_reply computed_agent ≡ ok answered_agent
unfolding IpAgent.set factory_of_object IpAgent.compute_state IpState.compare Subnet.for_each
    new_agent find_state
answered_agent-told = refl

-- It has the state for remote addresses, and one for the echo reply.
answered_agent-ip_state :
    (answered_agent.ip_state ≡ some 0) × (is_some answered_agent.icmp_state ≡ true)
unfolding IpAgent.set factory_of_object IpAgent.compute_state IpState.compare Subnet.for_each
    new_agent find_state
answered_agent-ip_state = (refl, refl)

Becomes-stale_example :
    (answered_agent.response ≡ invalid)
    × (IpAgent.refresh addresses framework world sys answered_agent lost
        ≡ (ok false, record answered_agent { ip_state = none }, lost))
Becomes-stale_example =
    Becomes-stale addresses framework world sys 7 true answered_agent lost
      (told framework echo_reply
        (computed addresses little (ok []) above properties (ipv4 host_word)
          (given addresses framework remote_node same given_agent-made))
        answered_agent-told)
      refl

-- Names and answers.
abbrev record_a : Rr
record_a = record {
  name = codes "host";
  type = 1;
  rr_class = 1;
  ttl = 60;
  rdlength = 4;
  rdata_word = net_word;
  expanded = none;
}

abbrev libs : Answer → Libs
libs a = record {
  address = addresses;
  framework = framework;
  dns = record { matches = λ x y. int_eq x y; hstrerror = λ h. codes "error" };
  net = record { ninit = true; nquery = λ s n. a };
}

abbrev dns_agent : Agent
dns_agent = record {
  ip = agent;
  hostname = codes "host";
  server_name = [];
  server_ip = zeroed;
  states = [];
  state = none;
}

abbrev custom_agent : Agent
custom_agent = record dns_agent { server_ip = ipv4 host_word }

refresh-custom_example :
    Agent.refresh (libs (answered (record_a ∷ []))) world sys custom_agent idle_controller ≡ (
      err (runtime_error "Invalid record type when setting DNS server"),
      forget (libs (answered (record_a ∷ []))) custom_agent,
      clear_address addresses 7 idle_controller,
    )
refresh-custom_example =
    refresh-custom (libs (answered (record_a ∷ []))) world sys custom_agent idle_controller refl
      refl refl

-- Without a server of its own, with a record of the type A.
abbrev found_libs : Libs
found_libs = libs (answered (record_a ∷ []))

abbrev first_record : Record
first_record = record {
  ttl = 60;
  name = codes "host";
  type = 1;
  cls = 1;
  addr = ipv4 net_word;
  value = codes "192.168.1.10";
}

refresh-fault_example :
    ((Agent.refresh (libs (answered [])) world sys dns_agent idle_controller).0 ≡ fault)
    ↔ (resolve (libs (answered [])) (new_resolver (libs (answered [])).net) (codes "host") ≡ ok [])
unfolding resolve new_resolver query take_answer record_loop
refresh-fault_example =
    refresh-fault (libs (answered [])) world sys dns_agent idle_controller refl refl (λ e. cc)

-- A clock that advances by five seconds a turn, with a name that resolves in the third.
abbrev later_answer : ℕ → Option ℕ → CString → Answer
later_answer i s n = if leb 2 i then answered (record_a ∷ []) else failed (pos 2)

abbrev resolver : Resolver
resolver = record { nameserver = none; records = [] }

wait-HasEnded_example :
    HasEnded (wait addresses 100 (λ i. 100 + i * 5) later_answer (codes "host") 60 61 resolver)
wait-HasEnded_example =
    wait-HasEnded addresses 100 (λ i. 100 + i * 5) later_answer (codes "host") 60 resolver
      (omega arith) (λ i. omega arith)

refresh-HasPinged_example :
    HasPinged found_libs reachable dns_agent first_record idle_controller
      (Agent.refresh found_libs reachable sys dns_agent idle_controller)
unfolding resolve new_resolver query take_answer record_loop record_of address_value set_address
refresh-HasPinged_example =
    refresh-HasPinged found_libs reachable sys dns_agent idle_controller first_record []
      (λ i j. refl) refl refl refl (refl, refl, refl, (inl (4, refl), (refl, refl, refl)))
