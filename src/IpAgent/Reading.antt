-- ===== src/IpAgent/Reading.antt =====
-- The constructor of `IP::Agent` from a node, and what the agent gives to its readers:
-- library/ip/agent.cc. The base class `Abstract::Agent` is the framework's.
use libudjatnetwork.Prelude.{
  ◌≡◌, refl, ap, true, false, none, some, Option, Bool, [], if◌then◌else◌, Result, ok, ◌>>=◌, ℕ,
  arith, ◌==◌, Returns,
}
use libudjatnetwork.Prelude.Text.{CString, codes, same_text}
use libudjatnetwork.Udjat.{Node}
use libudjatnetwork.SockAddr.{SockAddr, AddressLib}
use libudjatnetwork.Icmp.Response.{invalid}
use libudjatnetwork.Icmp.Host.{Worker, Controller, update}
use libudjatnetwork.Icmp.Worker
use libudjatnetwork.Icmp.Worker.{Attributes, Values, new_worker, worker_of_node}
use libudjatnetwork.IpAgent.{Agent, new_agent, address}

-- `Agent(const pugi::xml_node &, const char *)`, for the number of its worker.
unfoldable pub agent_of_node :
    AddressLib → Attributes → Node → CString → ℕ → Result (Agent × Worker)
unfolding worker_of_node new_agent
agent_of_node lib attrs node addr w = worker_of_node lib attrs node addr >>= λ v.
    ok (new_agent w (attrs.get_bool node "icmp" true), v)

-- `to_string`, which is also the value of `get`.
unfoldable pub to_string : AddressLib → Agent → Controller → CString
to_string lib a c = lib.print (address a c)

-- `getProperty`, for the answer of the base class.
unfoldable pub get_property :
    AddressLib → (CString → Option CString) → CString → Agent → Controller → Option CString
unfolding Worker.get_property
get_property lib base key a c = elim (Worker.get_property lib key (c.workers a.worker)) [
  | some value ↦ some value
  | none ↦ base key
]

-- The part of `getProperties` in front of the base class: the values of the worker.
unfoldable pub get_properties : Agent → Controller → Option Values
unfolding Worker.get_properties
get_properties a c = if a.check then some (Worker.get_properties (c.workers a.worker)) else none

-- An agent with its worker in the store prints the text and gives it for the key, remembers no
-- response, and is idle.
abbrev pub Reads :
    AddressLib
    → (CString → Option CString)
    → CString
    → CString
    → ℕ
    → Controller
    → Agent × Worker
    → Type 0
Reads lib base key text w c r =
    let c' = record c { workers = update c.workers w r.1 } in
    (to_string lib r.0 c' ≡ text)
    × (get_property lib base key r.0 c' ≡ some text)
    × (r.0.response ≡ invalid)
    × ((c'.workers w).busy ≡ false)

agent-Reads :
    (lib : AddressLib) (base : CString → Option CString) (key text : CString) (w : ℕ)
    (c : Controller) (check : Bool) (v : Worker)
    → lib.print v.addr ≡ text
    → same_text key (codes "ip") ≡ true
    → v.busy ≡ false
    → Reads lib base key text w c (new_agent w check, v)
unfolding to_string get_property new_agent Worker.get_property
agent-Reads lib base key text w c check v p k b =
    let self : (w == w) ≡ true = ground arith in
    let c' = record c { workers = update c.workers w v } in
    let mine : c'.workers w ≡ v = rw self refl in
    let printed : lib.print (c'.workers w).addr ≡ text = rw mine p in
    (printed, rw (k, get_property) (ap some printed), refl, rw mine b)

-- Where the node's address parses and prints back, the constructor gives an idle agent that checks
-- as the attribute `icmp` says, and whose address reads back, printed and under every spelling of
-- the key `ip`.
pub agent_of_node-Reads :
    (lib : AddressLib) (attrs : Attributes) (node : Node) (base : CString → Option CString)
    (key text : CString) (w : ℕ) (c : Controller) (a : SockAddr)
    → node.attribute "ip" ≡ some text
    → lib.parse text ≡ ok a
    → lib.print a ≡ text
    → same_text key (codes "ip") ≡ true
    → Returns
        (λ r. (r.0.check ≡ attrs.get_bool node "icmp" true) × Reads lib base key text w c r)
        (agent_of_node lib attrs node [] w)
unfolding agent_of_node worker_of_node new_worker new_agent
agent_of_node-Reads lib attrs node base key text w c a n p q k =
    rw (n, agent_of_node, worker_of_node)
      (rw (p, agent_of_node, worker_of_node) (refl, agent-Reads lib base key text w c _ _ q k refl))
