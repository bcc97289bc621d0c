-- ===== src/IpAgent.antt =====
-- `IP::Agent`: library/ip/agent.cc and include/udjat/net/ip/agent.h. An agent is a worker of the
-- ICMP controller, so its address and its `busy` flag stand in the controller's store. The states
-- are shared between the agent's list and `ip.state`, so that member is a position in the list.
-- `updates` counts the calls of `updated(true)`.
pub mod Icmp
pub mod Choice
pub mod Matching
pub mod Refresh
pub mod Defined
pub mod Stale
pub mod Heard
pub mod Ping
pub mod Rounds
pub mod Reading
use libudjatnetwork.Prelude.{
  ℕ, zero, suc, ◌+◌, Bool, true, false, not, ◌&&◌, List, [], ◌∷◌, ◌++◌, Option, none, some, ◌==◌,
  if◌then◌else◌, first_where, length, Result, ok, err, fault, ◌>>=◌, is_some, get_elem?, ℤ,
}
use libudjatnetwork.Udjat.{Node, Properties, Framework}
use libudjatnetwork.SockAddr.{SockAddr, AddressLib}
use libudjatnetwork.SockAddr.ByteOrder.{ByteOrder}
use libudjatnetwork.Icmp.Response.{Response, invalid, code}
use libudjatnetwork.Icmp.State.{State, factory_of_node, factory_of_object}
use libudjatnetwork.Icmp.Host.{Controller, World}
use libudjatnetwork.Icmp.Controller.{Sys, insert}
use libudjatnetwork.IpState
use libudjatnetwork.IpState.{IpState, Interfaces, compare}

pub record Agent : Type 0 where
  pub worker : ℕ
  pub check : Bool
  pub response : Response
  pub icmp_states : List State
  pub icmp_state : Option State
  pub ip_states : List IpState
  pub ip_state : Option ℕ
  pub updates : ℕ

-- The members as they are initialised, for the worker and the value of the attribute `icmp`.
unfoldable pub new_agent : ℕ → Bool → Agent
new_agent worker check = record {
  worker = worker;
  check = check;
  response = invalid;
  icmp_states = [];
  icmp_state = none;
  ip_states = [];
  ip_state = none;
  updates = 0;
}

-- `icmp.state = state; updated(true);`
abbrev pub use_state : State → Agent → Agent
use_state s a = record a { icmp_state = some s; updates = a.updates + 1 }

-- `set(const ICMP::Response, const IP::Address &)`
unfoldable pub set : Framework → Response → Agent → Result Agent
set fw response a =
    if code response == code a.response
    then ok a
    else elim (first_where (λ s. code s.id == code response) a.icmp_states) [
      | some s ↦ ok (use_state s a)
      | none ↦ factory_of_object fw response >>= λ s. ok (use_state s a)
    ]

-- What `StateFactory` returns: a state of one of the two lists, or the one of the base class.
pub data Made : Type 0 where
  icmp_made : State → Made
  ip_made : IpState → Made
  base_made : Made

-- `StateFactory`
unfoldable pub state_factory : AddressLib → Framework → Node → Agent → Result (Made × Agent)
state_factory lib fw node a =
    if is_some (node.attribute "icmp-response")
    then (factory_of_node fw node >>= λ s.
        ok (icmp_made s, record a { icmp_states = a.icmp_states ++ s ∷ [] }))
    else if is_some (node.attribute "subnet")
    then (IpState.factory lib fw node >>= λ s.
        ok (ip_made s, record a { ip_states = a.ip_states ++ s ∷ [] }))
    else ok (base_made, a)

-- The loop of `computeState` over the IP states, from position `i`: the states as the comparisons
-- leave them, and the position of the first that accepts the address. A comparison that throws leaves
-- its state as it was.
unfoldable pub match_loop :
    AddressLib
    → ByteOrder
    → Interfaces
    → SockAddr
    → List IpState
    → ℕ
    → List IpState × Result (Option ℕ)
match_loop lib o ifaces addr [] i = ([], ok none)
match_loop lib o ifaces addr (s ∷ ss) i =
    let (rest, found) = match_loop lib o ifaces addr ss (i + 1) in
    elim (compare lib o ifaces s.kind addr) [
      | ok (accepted, kind) ↦
          if accepted
          then (record s { kind = kind } ∷ ss, ok (some i))
          else (record s { kind = kind } ∷ rest, found)
      | err e ↦ (s ∷ ss, err e)
      | fault ↦ (s ∷ ss, fault)
    ]

-- `if(state && *state > *computed) computed = state;`, where `gt` is the operator of the
-- framework's class `Abstract::State`.
unfoldable pub prefer :
    (Properties → Properties → Bool) → Option Properties → Properties → Properties
prefer gt none computed = computed
prefer gt (some s) computed = if gt s computed then s else computed

-- The properties of the state at a position, and those of the ICMP state.
abbrev pub ip_properties : List IpState → Option ℕ → Option Properties
ip_properties ss none = none
ip_properties ss (some i) = elim (get_elem? ss i) [ none ↦ none | some s ↦ some s.properties ]

abbrev pub icmp_properties : Option State → Option Properties
icmp_properties none = none
icmp_properties (some s) = some s.properties

-- The choice at the end of `computeState` among the base class's state and the two others.
unfoldable pub choose :
    (Properties → Properties → Bool)
    → Properties
    → Option Properties
    → Option Properties
    → Properties
unfolding prefer
choose gt base ip icmp = prefer gt icmp (prefer gt ip base)

-- `computeState`, for the state that the base class computes; `ip.state.reset()` comes before the loop.
unfoldable pub compute_state :
    AddressLib
    → ByteOrder
    → Interfaces
    → (Properties → Properties → Bool)
    → Properties
    → SockAddr
    → Agent
    → Result Properties × Agent
unfolding match_loop choose
compute_state lib o ifaces gt base addr a =
    let (states, found) = match_loop lib o ifaces addr a.ip_states 0 in
    elim found [
      | ok i ↦ (
        ok (choose gt base (ip_properties states i) (icmp_properties a.icmp_state)),
        record a { ip_states = states; ip_state = i },
      )
      | err e ↦ (err e, record a { ip_states = states; ip_state = none })
      | fault ↦ (fault, record a { ip_states = states; ip_state = none })
    ]

-- The address of the agent.
abbrev pub address : Agent → Controller → SockAddr
address a c = (c.workers a.worker).addr

-- `if(icmp.check && !running()) start(); return false;`
unfoldable pub start_check : World → Sys → Agent → Controller → Result Bool × Agent × Controller
start_check env sys a c =
    if a.check && not (c.workers a.worker).busy
    then (let (r, c') = insert env sys a.worker c in
        elim r [ ok u ↦ (ok false, a, c') | err e ↦ (err e, a, c') | fault ↦ (fault, a, c') ])
    else (ok false, a, c)

-- `if(ip.state) { ip.state.reset(); set(ICMP::invalid,…); } return false;`
unfoldable pub drop_address : Framework → Agent → Controller → Result Bool × Agent × Controller
unfolding set
drop_address fw a c = elim a.ip_state [
  | none ↦ (ok false, a, c)
  | some i ↦
      let reset = record a { ip_state = none } in
      elim (set fw invalid reset) [
        | ok a' ↦ (ok false, a', c)
        | err e ↦ (err e, reset, c)
        | fault ↦ (fault, reset, c)
      ]
]

-- `refresh`
unfoldable pub refresh :
    AddressLib → Framework → World → Sys → Agent → Controller → Result Bool × Agent × Controller
unfolding drop_address start_check
refresh lib fw env sys a c =
    if lib.empty (address a c) then drop_address fw a c else start_check env sys a c
