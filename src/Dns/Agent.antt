-- ===== src/Dns/Agent.antt =====
-- `DNS::Agent`: library/dns/agent.cc and include/udjat/net/dns/agent.h. The agent's own address is
-- that of its worker in the controller of library/os/linux/icmp_controller.cc. `IP::Address` as a
-- test is taken to be the negation of its `empty`.
pub mod Readers
pub mod Lookup
pub mod Ping
use libudjatnetwork.Prelude.{
  ℕ, Bool, true, false, not, ◌&&◌, List, [], ◌∷◌, ◌++◌, Option, none, some, if◌then◌else◌,
  first_where, is_some, Result, ok, err, fault, Error, dns_exception, ◌>>=◌, ℤ, pos,
}
use libudjatnetwork.Prelude.Text.{CString, codes, same_text}
use libudjatnetwork.Udjat.{Node, Strings, Properties, Framework, as_string, is_empty}
use libudjatnetwork.SockAddr.{SockAddr, AddressLib}
use libudjatnetwork.SockAddr.ByteOrder.{ByteOrder}
use libudjatnetwork.IpState.{Interfaces}
use libudjatnetwork.Icmp.Host.{Worker, Controller, World, update}
use libudjatnetwork.Icmp.Controller.{Sys}
use libudjatnetwork.IpAgent
use libudjatnetwork.IpAgent.{Made, prefer}
use libudjatnetwork.IpAgent.Reading
use libudjatnetwork.Icmp.Worker.{Attributes, Values}
use libudjatnetwork.Gateway.{set_address}
use libudjatnetwork.Dns.State.{
  State, DnsLib, factory_of_node, factory_of_code, host_not_found, netdb_success,
}
use libudjatnetwork.Dns.Record.{Record}
use libudjatnetwork.Dns.Resolver.{Resolver, Net, new_resolver, resolver_for, query}

-- `DNS::Agent`; `server_name` and `server_ip` are the members of `server`.
pub record Agent : Type 0 where
  pub ip : IpAgent.Agent
  pub hostname : CString
  pub server_name : CString
  pub server_ip : SockAddr
  pub states : List State
  pub state : Option State

-- The libraries that the agent calls.
pub record Libs : Type 0 where
  pub address : AddressLib
  pub framework : Framework
  pub dns : DnsLib
  pub net : Net

-- `state && state->compare(code)`
abbrev pub state_matches : DnsLib → ℤ → Option State → Bool
state_matches dns code none = false
state_matches dns code (some s) = dns.matches s.code code

-- `set(int, const char *)`
unfoldable pub set : DnsLib → Framework → ℤ → Agent → Bool × Agent
unfolding factory_of_code
set dns fw code a =
    if state_matches dns code a.state
    then (false, a)
    else elim (first_where (λ s. dns.matches s.code code) a.states) [
      | some s ↦ (true, record a { state = some s })
      | none ↦ (true, record a { state = some (factory_of_code dns fw code) })
    ]

-- The outcome of a part of `refresh`, with the agent and the controller as it leaves them.
abbrev pub Step : Type 0
Step = Result (Unit {0}) × Agent × Controller

abbrev pub then_do : Step → (Agent → Controller → Step) → Step
then_do (ok u, a, c) k = k a c
then_do (err e, a, c) k = (err e, a, c)
then_do (fault, a, c) k = (fault, a, c)

-- `IP::Address::clear()`
unfoldable pub clear_address : AddressLib → ℕ → Controller → Controller
clear_address lib w c = record c {
  workers = update c.workers w (record (c.workers w) { addr = lib.cleared });
}

-- A resolver with its query.
unfoldable pub resolve : Libs → Result Resolver → CString → Result (List Record)
unfolding query
resolve libs (ok r) name =
    let (done, r') = query libs.address libs.net.nquery name true r in done >>= λ u. ok r'.records
resolve libs (err e) name = err e
resolve libs fault name = fault

-- `if(resolver.empty()) { … } … resolver.begin()->getAddr()`: without a record, the iterator is the
-- end of the vector.
unfoldable pub with_first :
    Libs → Result (List Record) → (SockAddr → Agent → Controller → Step) → Agent → Controller → Step
unfolding set clear_address
with_first libs (ok []) use_it a c = (
  fault,
  (set libs.dns libs.framework host_not_found a).1,
  clear_address libs.address a.ip.worker c,
)
with_first libs (ok (x ∷ xs)) use_it a c = use_it x.addr a c
with_first libs (err e) use_it a c = (err e, a, c)
with_first libs fault use_it a c = (fault, a, c)

-- The first part: the address of the name server.
unfoldable pub find_server : Libs → Agent → Controller → Step
unfolding with_first resolve new_resolver
find_server libs a c =
    let asked =
      with_first libs (resolve libs (new_resolver libs.net) a.server_name)
        (λ addr a' c'. (ok tt, record a' { server_ip = libs.address.assign addr }, c')) a c in
    if not (is_empty a.server_name) && libs.address.empty a.server_ip then asked else (ok tt, a, c)

-- The second part: the address of the host.
unfoldable pub find_host : Libs → Agent → Controller → Step
unfolding with_first resolve new_resolver resolver_for
find_host libs a c =
    let resolver =
      if libs.address.empty a.server_ip
      then new_resolver libs.net
      else resolver_for libs.net a.server_ip in
    with_first libs (resolve libs resolver a.hostname)
      (λ addr a' c'. (ok tt, a', set_address libs.address a'.ip.worker addr c')) a c

-- The `try` block.
unfoldable pub lookup : Libs → Agent → Controller → Step
unfolding find_server find_host set
lookup libs a c = then_do (find_server libs a c) (λ a1 c1.
    then_do (find_host libs a1 c1)
      (λ a2 c2. (ok tt, (set libs.dns libs.framework netdb_success a2).1, c2)))

abbrev pub forget : Libs → Agent → Agent
forget libs a = record a { server_ip = libs.address.cleared }

-- The `catch` clauses and the end of `refresh`.
unfoldable pub conclude : Libs → World → Sys → Step → Result Bool × Agent × Controller
unfolding set clear_address
conclude libs env sys (ok u, a, c) =
    let (r, ip', c') = IpAgent.refresh libs.address libs.framework env sys a.ip c in
    (r, record a { ip = ip' }, c')
conclude libs env sys (err (dns_exception code), a, c) =
    let (changed, a') = set libs.dns libs.framework code (forget libs a) in
    (ok changed, a', clear_address libs.address a.ip.worker c)
conclude libs env sys (err e, a, c) =
    (err e, forget libs a, clear_address libs.address a.ip.worker c)
conclude libs env sys (fault, a, c) = (fault, a, c)

-- `refresh`
unfoldable pub refresh : Libs → World → Sys → Agent → Controller → Result Bool × Agent × Controller
unfolding lookup conclude
refresh libs env sys a c = conclude libs env sys (lookup libs a c)

-- What `StateFactory` returns.
pub data Stated : Type 0 where
  dns_made : State → Stated
  other_made : Made → Stated

-- `StateFactory`
unfoldable pub state_factory : AddressLib → Framework → Node → Agent → Result (Stated × Agent)
unfolding factory_of_node
state_factory lib fw node a =
    if is_some (node.attribute "dns-state")
    then (factory_of_node fw node >>= λ s.
        ok (dns_made s, record a { states = a.states ++ s ∷ [] }))
    else (IpAgent.state_factory lib fw node a.ip >>= λ r.
        ok (other_made r.0, record a { ip = r.1 }))

abbrev pub dns_properties : Option State → Option Properties
dns_properties none = none
dns_properties (some s) = some s.properties

-- `computeState`
unfoldable pub compute_state :
    AddressLib
    → ByteOrder
    → Interfaces
    → (Properties → Properties → Bool)
    → Properties
    → SockAddr
    → Agent
    → Result Properties × Agent
compute_state lib o ifaces gt base addr a =
    let (computed, ip) = IpAgent.compute_state lib o ifaces gt base addr a.ip in
    ((computed >>= λ p. ok (prefer gt (dns_properties a.state) p)), record a { ip = ip })
