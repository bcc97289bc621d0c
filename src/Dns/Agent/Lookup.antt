-- ===== src/Dns/Agent/Lookup.antt =====
-- What `refresh` makes of the answers of the name servers.
use libudjatnetwork.Prelude.{
  ◌≡◌, ◌≢◌, ◌↔◌, refl, ◌==◌, Bool, true, false, not, ◌&&◌, List, [], ◌∷◌, Option, none, some, inl,
  inr, arith, Bool-cases, Option-cases, first_where, first_where-holds, ok, err, fault, ℤ, int_eq,
  runtime_error, dns_exception, system_error, invalid_argument, out_of_range, Result,
}
use libudjatnetwork.Udjat.{Framework, is_empty}
use libudjatnetwork.SockAddr.{SockAddr}
use libudjatnetwork.Icmp.Host.{Controller, World}
use libudjatnetwork.Icmp.Controller.{Sys}
use libudjatnetwork.IpAgent
use libudjatnetwork.IpAgent.Defined.{refresh-defined}
use libudjatnetwork.Gateway.{set_address}
use libudjatnetwork.Dns.State.{State, DnsLib, netdb_success}
use libudjatnetwork.Dns.State.Rows.{factory_of_code-code}
use libudjatnetwork.Dns.Record.{Record}
use libudjatnetwork.Dns.Resolver.{
  Resolver, Net, Answer, failed, answered, new_resolver, resolver_for, query, take_answer,
  record_loop,
}
use libudjatnetwork.Dns.Resolver
use libudjatnetwork.Dns.Agent.{
  Agent, Libs, set, resolve, with_first, find_server, find_host, lookup, Step, state_matches,
  forget, clear_address, conclude, refresh,
}

-- `find_server` does nothing where there is an address of the server, or no name.
find_server-known :
    (libs : Libs) (a : Agent) (c : Controller)
    → (not (is_empty a.server_name) && libs.address.empty a.server_ip) ≡ false
    → find_server libs a c ≡ (ok tt, a, c)
unfolding find_server
find_server-known libs a c h = rw h refl

resolver_for-refused :
    (net : Net) (server : SockAddr)
    → net.ninit ≡ true
    → (server.ss_family == 0) ≡ false
    → resolver_for net server ≡ err (runtime_error "Invalid record type when setting DNS server")
unfolding resolver_for new_resolver Resolver.set
resolver_for-refused net server n f = ground (arith, n, f)

and_false : (b : Bool) → (b && false) ≡ false
and_false b = ground arith

-- An agent with an address of its name server, of some family, never gets an answer: where the C
-- library's resolver starts, `refresh` throws whatever the network would answer, and it clears the
-- address of the server and that of the agent, IPv4 servers included.
pub refresh-custom :
    (libs : Libs) (env : World) (sys : Sys) (a : Agent) (c : Controller)
    → libs.net.ninit ≡ true
    → libs.address.empty a.server_ip ≡ false
    → (a.server_ip.ss_family == 0) ≡ false
    → refresh libs env sys a c ≡ (
      err (runtime_error "Invalid record type when setting DNS server"),
      forget libs a,
      clear_address libs.address a.ip.worker c,
    )
unfolding refresh lookup find_host conclude
refresh-custom libs env sys a c n e f =
    let known : find_server libs a c ≡ (ok tt, a, c) =
      find_server-known libs a c (rw e (and_false (not (is_empty a.server_name)))) in
    rw (known, e, resolver_for-refused libs.net a.server_ip n f, resolve, with_first) refl

set-ip : (dns : DnsLib) (fw : Framework) (code : ℤ) (a : Agent) → (set dns fw code a).1.ip ≡ a.ip
unfolding set
set-ip dns fw code a = elim (Bool-cases (state_matches dns code a.state)) [
  | inl e ↦ rw e refl
  | inr e ↦ rw e (elim (Option-cases (first_where (λ s. dns.matches s.code code) a.states)) [
    | inl f ↦ rw f refl
    | inr (s, f) ↦ rw f refl
  ])
]

-- An agent without a name server of its own whose query has the records `x ∷ xs` takes the address
-- of the first record, of whatever type it is, and the state for the code 0, and ends with
-- `IP::Agent::refresh`.
pub refresh-found :
    (libs : Libs) (env : World) (sys : Sys) (a : Agent) (c : Controller) (x : Record)
    (xs : List Record)
    → is_empty a.server_name ≡ true
    → libs.address.empty a.server_ip ≡ true
    → resolve libs (new_resolver libs.net) a.hostname ≡ ok (x ∷ xs)
    → let found = (set libs.dns libs.framework netdb_success a).1 in
      let c' = set_address libs.address a.ip.worker x.addr c in
      let (r, ip', c'') = IpAgent.refresh libs.address libs.framework env sys a.ip c' in
      refresh libs env sys a c ≡ (r, record found { ip = ip' }, c'')
unfolding refresh lookup find_host conclude
refresh-found libs env sys a c x xs n e q =
    let known : find_server libs a c ≡ (ok tt, a, c) = find_server-known libs a c (rw n refl) in
    rw (known, e, q, with_first, set-ip libs.dns libs.framework netdb_success a) refl

conclude-defined :
    (libs : Libs) (env : World) (sys : Sys) (s : Step)
    → s.0 ≢ fault
    → (conclude libs env sys s).0 ≢ fault
unfolding conclude
conclude-defined libs env sys (ok u, a, c) n =
    refresh-defined libs.address libs.framework env sys a.ip c
conclude-defined libs env sys (err (dns_exception h), a, c) n = λ f. cc
conclude-defined libs env sys (err (runtime_error t), a, c) n = λ f. cc
conclude-defined libs env sys (err (system_error h), a, c) n = λ f. cc
conclude-defined libs env sys (err invalid_argument, a, c) n = λ f. cc
conclude-defined libs env sys (err out_of_range, a, c) n = λ f. cc
conclude-defined libs env sys (fault, a, c) n = λ f. n refl

-- For an agent without a name server of its own, whose query meets no undefined behaviour, `refresh`
-- meets it exactly if the query has no record: it then reads the element at the end of an empty
-- vector.
pub refresh-fault :
    (libs : Libs) (env : World) (sys : Sys) (a : Agent) (c : Controller)
    → is_empty a.server_name ≡ true
    → libs.address.empty a.server_ip ≡ true
    → resolve libs (new_resolver libs.net) a.hostname ≢ fault
    → ((refresh libs env sys a c).0 ≡ fault)
      ↔ (resolve libs (new_resolver libs.net) a.hostname ≡ ok [])
unfolding refresh lookup find_host
refresh-fault libs env sys a c n e defined =
    of_answer (resolve libs (new_resolver libs.net) a.hostname) refl
  where
    known : find_server libs a c ≡ (ok tt, a, c)
    known = find_server-known libs a c (rw n refl)

    of_answer :
        (r : Result (List Record))
        → resolve libs (new_resolver libs.net) a.hostname ≡ r
        → ((conclude libs env sys (lookup libs a c)).0 ≡ fault) ↔ (r ≡ ok [])
    of_answer (ok []) q = ((λ f. refl), (λ f. rw (known, e, q, with_first) refl))
    of_answer (ok (x ∷ xs)) q = (
      (λ f. absurd (
          conclude-defined libs env sys
            (
              ok tt,
              (set libs.dns libs.framework netdb_success a).1,
              set_address libs.address a.ip.worker x.addr c,
            )
            (λ h. cc) (rw (known, e, q, with_first) at f))),
      (λ f. cc),
    )
    of_answer (err t) q = (
      (λ f. absurd (
          conclude-defined libs env sys (err t, a, c) (λ h. cc)
            (rw (known, e, q, with_first) at f))),
      (λ f. cc),
    )
    of_answer fault q = absurd (defined q)

state_matches-some :
    (dns : DnsLib) (code : ℤ) (o : Option State)
    → state_matches dns code o ≡ true
    → (s : State) × (o ≡ some s) × (dns.matches s.code code ≡ true)
state_matches-some dns code none h = cc
state_matches-some dns code (some s) h = (s, refl, h)

-- Where the framework compares the code of a state by equality, `set` leaves a state for the code.
-- Its result is false exactly when the agent had one, and then the agent stays as it was.
pub set-matches :
    (dns : DnsLib) (fw : Framework) (code : ℤ) (a : Agent)
    → ((x y : ℤ) → dns.matches x y ≡ int_eq x y)
    → let (changed, a') = set dns fw code a in
      ((s : State) × (a'.state ≡ some s) × (int_eq s.code code ≡ true))
      × (changed ≡ not (state_matches dns code a.state))
      × (changed ≡ false → a' ≡ a)
unfolding set
set-matches dns fw code a m = elim (Bool-cases (state_matches dns code a.state)) [
  | inl e ↦
      let (s, held, hit) = state_matches-some dns code a.state e in
      rw e ((s, held, rw (← m s.code code) hit), refl, λ k. refl)
  | inr e ↦ rw e (elim (Option-cases (first_where (λ s. dns.matches s.code code) a.states)) [
    | inl f ↦ rw f ((_, refl, factory_of_code-code dns fw code), refl, λ k. cc)
    | inr (s, f) ↦
        let hit : dns.matches s.code code ≡ true =
          first_where-holds (λ s. dns.matches s.code code) a.states s f in
        rw f ((s, refl, rw (← m s.code code) hit), refl, λ k. cc)
  ])
]
