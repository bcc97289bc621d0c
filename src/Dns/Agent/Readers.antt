-- ===== src/Dns/Agent/Readers.antt =====
-- The constructor of `DNS::Agent`, and what the agent gives to its readers: library/dns/agent.cc.
use libudjatnetwork.Prelude.{ℕ, [], Option, none, some, if◌then◌else◌, Result, ok, ◌>>=◌}
use libudjatnetwork.Prelude.Text.{CString, codes, same_text}
use libudjatnetwork.Udjat.{Node, Strings, Properties}
use libudjatnetwork.SockAddr.{AddressLib}
use libudjatnetwork.Icmp.Host.{Worker, Controller}
use libudjatnetwork.IpAgent.Reading
use libudjatnetwork.Icmp.Worker.{Attributes, Values}
use libudjatnetwork.Dns.Agent.{Agent}

-- `Agent(const pugi::xml_node &)`, for the number of its worker; the names are the attributes `dns`
-- and `hostname`.
unfoldable pub agent_of_node :
    AddressLib → Attributes → Strings → Node → ℕ → Result (Agent × Worker)
unfolding Reading.agent_of_node
agent_of_node lib attrs strings node w = Reading.agent_of_node lib attrs node [] w >>= λ r. ok (
  record {
    ip = r.0;
    hostname = strings.attribute_text node "hostname" [];
    server_name = strings.attribute_text node "dns" [];
    server_ip = lib.cleared;
    states = [];
    state = none;
  },
  r.1,
)

-- `getProperty`, for the answer of the framework's base class.
unfoldable pub get_property :
    AddressLib → (CString → Option CString) → CString → Agent → Controller → Option CString
unfolding Reading.get_property
get_property lib base key a c =
    if same_text key (codes "hostname")
    then some a.hostname
    else Reading.get_property lib base key a.ip c

-- `getProperties` in front of the framework's base class: the value of `dns`, where the framework
-- prints a state, and the values of the worker.
unfoldable pub get_properties :
    (Properties → CString) → Agent → Controller → CString × Option Values
unfolding Reading.get_properties
get_properties print a c =
    let values = Reading.get_properties a.ip c in
    elim a.state [ none ↦ ([], values) | some s ↦ (print s.properties, values) ]
