-- ===== src/Gateway.antt =====
-- `IP::Gateway`: library/os/linux/defaultgateway.cc, library/defaultgateway.cc and
-- include/udjat/net/gateway.h. A reply is what one call of `recv` leaves: its size, its messages as
-- the kernel's macros `NLMSG_OK` and `NLMSG_NEXT` find them, and their route attributes, which the
-- model bounds itself (`RTA_OK`, `RTA_NEXT`), since the code looks at the length that is left.
mod Answer
mod Parser
pub mod Detect
pub mod Ping
use libudjatnetwork.Prelude.{
  ℕ, ◌+◌, ◌-◌, ◌*◌, ◌/◌, Bool, true, false, not, ◌&&◌, ◌||◌, List, [], ◌∷◌, Option, none, some,
  ◌==◌, leb, ltb, if◌then◌else◌, bit_and, Result, ok, err, fault, Error, ℤ, pos, is_negative,
}
use libudjatnetwork.Prelude.Text.{CString}
use libudjatnetwork.Udjat.{Framework}
use libudjatnetwork.SockAddr.{SockAddr, AddressLib, zeroed, af_inet}
use libudjatnetwork.Icmp.Host.{Controller, World, update}
use libudjatnetwork.Icmp.Controller.{Sys}
use libudjatnetwork.IpAgent
use libudjatnetwork.IpAgent.{Agent, address}
use libudjatnetwork.NetLink
use libudjatnetwork.NetLink.{nlmsg_error, nlmsg_done, push_back, remove}
unfoldable pub use Answer.*
unfoldable pub use Parser.*

pub record Gateway : Type 0 where
  pub agent : Agent
  pub intf : CString

-- `IP::Address::set` of a worker.
unfoldable pub set_address : AddressLib → ℕ → SockAddr → Controller → Controller
set_address lib w a c = record c {
  workers = update c.workers w (record (c.workers w) { addr = lib.assign a });
}

-- The end of `detect`.
unfoldable pub adopt :
    AddressLib
    → Result (Unit {0})
    → Found
    → Gateway
    → Controller
    → Result Bool × Gateway × Controller
unfolding set_address
adopt lib (ok u) f g c =
    let g' = record g { intf = f.intf } in
    let changed = not (lib.equal f.gateway (address g.agent c)) in
    (ok changed, g', if changed then set_address lib g.agent.worker f.gateway c else c)
adopt lib (err e) f g c = (err e, record g { intf = f.intf }, c)
adopt lib fault f g c = (fault, record g { intf = f.intf }, c)

-- The parser and what follows it, for what the `recv` loop gives.
unfoldable pub parse :
    AddressLib
    → Os
    → Result (List Route)
    → Gateway
    → Controller
    → Result Bool × Gateway × Controller
unfolding adopt route_loop
parse lib os (ok routes) g c =
    let (r, f) = route_loop os routes (record { intf = g.intf; gateway = zeroed }) in
    adopt lib r f g c
parse lib os (err e) g c = (err e, g, c)
parse lib os fault g c = (fault, g, c)

-- `detect`
unfoldable pub detect : AddressLib → Os → Gateway → Controller → Result Bool × Gateway × Controller
unfolding parse recv_loop request
detect lib os g c =
    if is_negative os.socket
    then (err (Error.system_error os.errno), g, c)
    else if os.send_fails
    then (err (Error.system_error os.errno), g, c)
    else parse lib os (recv_loop (request os.getpid) 1 os.getpid os.replies) g c

-- `if(IP::Agent::refresh()) changed = true; return changed;`
abbrev pub merge : Bool → Result Bool → Result Bool
merge changed (ok again) = ok (again || changed)
merge changed (err e) = err e
merge changed fault = fault

abbrev pub refresh_after :
    AddressLib
    → Framework
    → World
    → Sys
    → Result Bool × Gateway × Controller
    → Result Bool × Gateway × Controller
refresh_after lib fw env sys (ok changed, g, c) =
    let (r, a, c') = IpAgent.refresh lib fw env sys g.agent c in
    (merge changed r, record g { agent = a }, c')
refresh_after lib fw env sys (err e, g, c) = (err e, g, c)
refresh_after lib fw env sys (fault, g, c) = (fault, g, c)

-- `refresh`
unfoldable pub refresh :
    AddressLib
    → Framework
    → World
    → Sys
    → Os
    → Gateway
    → Controller
    → Result Bool × Gateway × Controller
unfolding detect
refresh lib fw env sys os g c = refresh_after lib fw env sys (detect lib os g c)

-- `start`: a listener that does nothing for `RTM_NEWROUTE` and one for `RTM_DELROUTE`. The second is
-- not registered when the first throws.
unfoldable pub start :
    NetLink.Sys → NetLink.Sys → ℕ → NetLink.Controller → Result (Unit {0}) × NetLink.Controller
unfolding push_back
start sys sys' object c =
    let (r, c') = push_back sys object 24 c in
    elim r [ ok u ↦ push_back sys' object 25 c' | err e ↦ (err e, c') | fault ↦ (fault, c') ]

-- `stop`
unfoldable pub stop : ℕ → NetLink.Controller → NetLink.Controller
unfolding remove
stop object c = remove object c
