-- ===== src/Gateway/Ping.antt =====
-- The gateway that the kernel names is pinged: the gateway agent, the IP agent and the ICMP controller
-- together.
use libudjatnetwork.Prelude.{
  ℕ, ◌≤◌, ◌≡◌, refl, ap, ◌∙◌, Bool, true, false, not, arith, List, [], ◌∷◌, ◌++◌, if◌then◌else◌,
  Result, ok, err, fault, is_negative,
}
use libudjatnetwork.Udjat.{Framework}
use libudjatnetwork.SockAddr.{SockAddr, AddressLib, zeroed}
use libudjatnetwork.Icmp.Host.{Host, World, Controller}
use libudjatnetwork.Icmp.Controller.{Sys}
use libudjatnetwork.Icmp.Controller.Sending.{first_packet, insert-HasSent}
use libudjatnetwork.IpAgent.{Agent, address}
use libudjatnetwork.IpAgent.Ping.{CanPing, refresh-insert}
use libudjatnetwork.Gateway.{
  Gateway, Route, Reply, reply, Os, set_address, detect, refresh, refresh_after,
}
use libudjatnetwork.Gateway.Detect.{main_gateway, AreReadable, detect-main_gateway}

-- The controller after `detect` has found the gateway.
abbrev pub settled : AddressLib → SockAddr → Gateway → Controller → Controller
settled lib gw g c =
    if not (lib.equal gw (address g.agent c)) then set_address lib g.agent.worker gw c else c

-- What a refresh leaves that sends its packet to an address.
abbrev pub HasSentTo :
    World → Agent → Bool → SockAddr → Controller → Result Bool × Gateway × Controller → Type 0
HasSentTo env a changed to c (r, g, c') =
    (r ≡ ok changed)
    × (g.agent ≡ a)
    × (c'.sent ≡ (to, first_packet env c) ∷ c.sent)
    × ((h : Host) × (c'.hosts ≡ c.hosts ++ h ∷ []) × (h.worker ≡ a.worker))

refresh_after-HasSentTo :
    (lib : AddressLib) (fw : Framework) (env : World) (sys : Sys) (a : Agent) (changed : Bool)
    (c : Controller) (s : Result Bool × Gateway × Controller)
    → CanPing lib env sys a c
    → (s.0 ≡ ok changed) × (s.1.agent ≡ a) × (s.2 ≡ c)
    → HasSentTo env a changed (address a c) c (refresh_after lib fw env sys s)
refresh_after-HasSentTo lib fw env sys a changed c (ok b, g, c') can (r, same, left) =
    let (done, (listed, sent, notices, _, _, _)) = insert-HasSent env sys a.worker c can.3 in
    rw (same, left, refresh-insert lib fw env sys a c can) (r, refl, sent, (_, listed, refl))
refresh_after-HasSentTo lib fw env sys a changed c (err e, g, c') can (r, same, left) = cc
refresh_after-HasSentTo lib fw env sys a changed c (fault, g, c') can (r, same, left) = cc

set_address-own :
    (lib : AddressLib) (gw : SockAddr) (a : Agent) (c : Controller)
    → address a (set_address lib a.worker gw c) ≡ lib.assign gw
unfolding set_address
set_address-own lib gw a c = ground arith

-- Taking the address sends nothing and leaves the list.
HasSentTo-settled :
    (lib : AddressLib) (gw : SockAddr) (env : World) (a : Agent) (b : Bool) (c : Controller)
    (s : Result Bool × Gateway × Controller)
    → let c' = if b then set_address lib a.worker gw c else c in
      HasSentTo env a b (address a c') c' s
      → HasSentTo env a b (if b then lib.assign gw else address a c) c s
unfolding set_address
HasSentTo-settled lib gw env a true c s h =
    let at = set_address-own lib gw a c in
    (h.0, h.1, h.2 ∙ ap (λ (to : SockAddr). (to, first_packet env c) ∷ c.sent) at, h.3)
HasSentTo-settled lib gw env a false c s h = h

-- Where `detect` reads an answer to its end, and the agent checks its address and can send once the
-- gateway, the last one of the main table, is its address: an echo request is sent in the same refresh,
-- to the new address where the library tells it from the old one, and else to the old one. The refresh
-- returns whether it has changed, and adds a host for the agent behind the others.
pub refresh-HasSentTo :
    (lib : AddressLib) (fw : Framework) (env : World) (sys : Sys) (os : Os) (g : Gateway)
    (c : Controller) (n kind : ℕ) (routes : List Route) (later : List Reply)
    → is_negative os.socket ≡ false
    → os.send_fails ≡ false
    → os.replies ≡ reply n kind routes ∷ later
    → 28 ≤ n
    → AreReadable os routes
    → CanPing lib env sys g.agent (settled lib (main_gateway routes zeroed) g c)
    → let changed = not (lib.equal (main_gateway routes zeroed) (address g.agent c)) in
      HasSentTo env g.agent changed
        (if changed then lib.assign (main_gateway routes zeroed) else address g.agent c)
        c
        (refresh lib fw env sys os g c)
unfolding refresh
refresh-HasSentTo lib fw env sys os g c n kind routes later so se rs h r can =
    let gw = main_gateway routes zeroed in
    HasSentTo-settled lib gw env g.agent _ c (refresh lib fw env sys os g c) (
      refresh_after-HasSentTo lib fw env sys g.agent _ (settled lib gw g c) (detect lib os g c) can
        (detect-main_gateway lib os g c n kind routes later so se rs h r))
