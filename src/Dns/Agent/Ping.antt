-- ===== src/Dns/Agent/Ping.antt =====
-- A name that resolves is pinged: the DNS agent, the resolver, the IP agent and the ICMP controller
-- together.
use libudjatnetwork.Prelude.{
  ◌≡◌, refl, ◌∙◌, Bool, true, false, List, [], ◌∷◌, ◌++◌, some, ok, ◌==◌, ℤ, int_eq, arith, Result,
}
use libudjatnetwork.Udjat.{is_empty}
use libudjatnetwork.Icmp.Host.{World, Controller, Host}
use libudjatnetwork.Icmp.Controller.{Sys}
use libudjatnetwork.Icmp.Controller.Sending.{first_packet, insert-HasSent}
use libudjatnetwork.IpAgent.Ping.{CanPing, refresh-insert}
use libudjatnetwork.Gateway.{set_address}
use libudjatnetwork.Dns.State.{State, netdb_success}
use libudjatnetwork.Dns.Record.{Record}
use libudjatnetwork.Dns.Resolver.{new_resolver}
use libudjatnetwork.Dns.Agent.{Agent, Libs, resolve, refresh}
use libudjatnetwork.Dns.Agent.Lookup.{refresh-found, set-matches}

-- What a refresh leaves that has found an address.
abbrev pub HasPinged :
    Libs → World → Agent → Record → Controller → Result Bool × Agent × Controller → Type 0
HasPinged libs env a x c r =
    (r.0 ≡ ok false)
    × (r.2.sent ≡ (libs.address.assign x.addr, first_packet env c) ∷ c.sent)
    × ((h : Host) × (r.2.hosts ≡ c.hosts ++ h ∷ []) × (h.worker ≡ a.ip.worker))
    × ((s : State) × (r.1.state ≡ some s) × (int_eq s.code netdb_success ≡ true))

-- An agent without a name server of its own, whose query has a first record, and that with the address
-- of this record checks it and can send: its refresh returns false, hands an echo request for that
-- address to `sendto`, adds a host for the agent behind the others, and leaves a state for the code
-- 0, where the framework compares the codes of states by equality.
pub refresh-HasPinged :
    (libs : Libs) (env : World) (sys : Sys) (a : Agent) (c : Controller) (x : Record)
    (xs : List Record)
    → ((i j : ℤ) → libs.dns.matches i j ≡ int_eq i j)
    → is_empty a.server_name ≡ true
    → libs.address.empty a.server_ip ≡ true
    → resolve libs (new_resolver libs.net) a.hostname ≡ ok (x ∷ xs)
    → CanPing libs.address env sys a.ip (set_address libs.address a.ip.worker x.addr c)
    → HasPinged libs env a x c (refresh libs env sys a c)
unfolding set_address
refresh-HasPinged libs env sys a c x xs m n e q can =
    let c' = set_address libs.address a.ip.worker x.addr c in
    let (done, (listed, sent, notices, _, _, _)) = insert-HasSent env sys a.ip.worker c' can.3 in
    let (shown, changed, kept) = set-matches libs.dns libs.framework netdb_success a m in
    let self : (a.ip.worker == a.ip.worker) ≡ true = ground arith in
    rw
      (
        refresh-found libs env sys a c x xs n e q,
        refresh-insert libs.address libs.framework env sys a.ip c' can,
      )
      (refl, sent ∙ rw self refl, (_, listed, refl), shown)
