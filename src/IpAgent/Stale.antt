-- ===== src/IpAgent/Stale.antt =====
-- What the agent remembers, and what it then forgets.
use libudjatnetwork.Prelude.{
  ℕ, ◌≡◌, refl, sym, ap, ◌∙◌, ◌&&◌, not, Bool, true, false, none, inl, inr, Bool-cases, is_some,
  Option-cases, Result-cases, Result, ok, err, fault, OnOk, OnOk-bind,
}
use libudjatnetwork.Udjat.{Node, Properties, Framework}
use libudjatnetwork.SockAddr.{SockAddr, AddressLib}
use libudjatnetwork.SockAddr.ByteOrder.{ByteOrder}
use libudjatnetwork.Icmp.Response.{Response, invalid}
use libudjatnetwork.Icmp.State.{factory_of_node}
use libudjatnetwork.Icmp.Host.{Controller, World}
use libudjatnetwork.Icmp.Controller.{Sys, insert}
use libudjatnetwork.IpState
use libudjatnetwork.IpState.{Interfaces}
use libudjatnetwork.IpAgent.{
  Agent, Made, new_agent, set, address, state_factory, match_loop, compute_state, start_check,
  drop_address, refresh,
}
use libudjatnetwork.IpAgent.Defined.{set-ok}
use libudjatnetwork.IpAgent.Refresh.{refresh-stale}

OnOk-all {ℓ} : {A : Type ℓ} (r : Result A) → OnOk (λ a. Unit {0}) r
OnOk-all (ok a) = tt
OnOk-all (err e) = tt
OnOk-all fault = tt

-- The agents that an agent can become when states are added, by responses, by refreshes, and where its
-- state is computed.
pub data Becomes (a : Agent) : Agent → Type 0 where
  same : Becomes a a
  told :
      (fw : Framework) (r : Response) {b b' : Agent}
      → Becomes a b
      → set fw r b ≡ ok b'
      → Becomes a b'
  refreshed :
      (lib : AddressLib) (fw : Framework) (env : World) (sys : Sys) (c : Controller) {b : Agent}
      → Becomes a b
      → Becomes a (refresh lib fw env sys b c).1
  given :
      (lib : AddressLib) (fw : Framework) (node : Node) {b b' : Agent} {m : Made}
      → Becomes a b
      → state_factory lib fw node b ≡ ok (m, b')
      → Becomes a b'
  computed :
      (lib : AddressLib) (o : ByteOrder) (ifaces : Interfaces) (gt : Properties → Properties → Bool)
      (base : Properties) (addr : SockAddr) {b : Agent}
      → Becomes a b
      → Becomes a (compute_state lib o ifaces gt base addr b).1

set-response :
    (fw : Framework) (r : Response) (a b : Agent) → set fw r a ≡ ok b → b.response ≡ a.response
set-response fw r a b e =
    let (a', done, kept) = set-ok fw r a in
    let one : ok a' ≡ ok b = sym done ∙ e in
    let same' : a' ≡ b = cc in ap (λ (x : Agent). x.response) (sym same') ∙ kept

start_check-agent :
    (env : World) (sys : Sys) (a : Agent) (c : Controller) → (start_check env sys a c).1 ≡ a
unfolding start_check
start_check-agent env sys a c = elim (Bool-cases (a.check && not (c.workers a.worker).busy)) [
  | inl idle ↦ elim (Result-cases (insert env sys a.worker c).0) [
    | inl (u, e) ↦ rw (idle, start_check) (rw (e, start_check) refl)
    | inr (inl (x, e)) ↦ rw (idle, start_check) (rw (e, start_check) refl)
    | inr (inr e) ↦ rw (idle, start_check) (rw (e, start_check) refl)
  ]
  | inr busy ↦ rw (busy, start_check) refl
]

drop_address-response :
    (fw : Framework) (a : Agent) (c : Controller) → (drop_address fw a c).1.response ≡ a.response
unfolding drop_address
drop_address-response fw a c = elim (Option-cases a.ip_state) [
  | inl e ↦ rw (e, drop_address) refl
  | inr (i, e) ↦
      let (a', done, kept) = set-ok fw invalid (record a { ip_state = none }) in
      rw (e, drop_address) (rw (done, drop_address) kept)
]

refresh-response :
    (lib : AddressLib) (fw : Framework) (env : World) (sys : Sys) (a : Agent) (c : Controller)
    → (refresh lib fw env sys a c).1.response ≡ a.response
unfolding refresh
refresh-response lib fw env sys a c = elim (Bool-cases (lib.empty (address a c))) [
  | inl e ↦ rw (e, refresh) (drop_address-response fw a c)
  | inr e ↦ rw (e, refresh) (ap (λ (x : Agent). x.response) (start_check-agent env sys a c))
]

compute_state-response :
    (lib : AddressLib) (o : ByteOrder) (ifaces : Interfaces) (gt : Properties → Properties → Bool)
    (base : Properties) (addr : SockAddr) (a : Agent)
    → (compute_state lib o ifaces gt base addr a).1.response ≡ a.response
unfolding compute_state
compute_state-response lib o ifaces gt base addr a =
    elim (Result-cases (match_loop lib o ifaces addr a.ip_states 0).1) [
      | inl (i, e) ↦ rw (e, compute_state) refl
      | inr (inl (x, e)) ↦ rw (e, compute_state) refl
      | inr (inr e) ↦ rw (e, compute_state) refl
    ]

-- What keeps the response, where it returns.
abbrev Remembers : Agent → Made × Agent → Type 0
Remembers a r = r.1.response ≡ a.response

state_factory-Remembers :
    (lib : AddressLib) (fw : Framework) (node : Node) (a : Agent)
    → OnOk (Remembers a) (state_factory lib fw node a)
unfolding state_factory
state_factory-Remembers lib fw node a =
    elim (Bool-cases (is_some (node.attribute "icmp-response"))) [
      | inl icmp ↦
          rw (icmp, state_factory)
            (OnOk-bind (λ s. Unit {0}) (Remembers a) (factory_of_node fw node) _ (OnOk-all _)
              (λ s u. refl))
      | inr other ↦ elim (Bool-cases (is_some (node.attribute "subnet"))) [
        | inl subnet ↦
            rw (other, subnet, state_factory)
              (OnOk-bind (λ s. Unit {0}) (Remembers a) (IpState.factory lib fw node) _ (OnOk-all _)
                (λ s u. refl))
        | inr neither ↦ rw (other, neither, state_factory) refl
      ]
    ]

Becomes-response : {a b : Agent} → Becomes a b → b.response ≡ a.response
Becomes-response same = refl
Becomes-response (told fw r {b} {b'} m e) = set-response fw r b b' e ∙ Becomes-response m
Becomes-response (refreshed lib fw env sys c {b} m) =
    refresh-response lib fw env sys b c ∙ Becomes-response m
Becomes-response (given lib fw node {b} {b'} m e) =
    (rw e at (state_factory-Remembers lib fw node b)) ∙ Becomes-response m
Becomes-response (computed lib o ifaces gt base addr {b} m) =
    compute_state-response lib o ifaces gt base addr b ∙ Becomes-response m

-- Whatever states were added to an agent since it was made, whatever responses it was told, whatever
-- refreshes it had, and however its state was computed, it remembers the response `invalid`; so when
-- its address is empty, a refresh takes its IP state, if it has one, and nothing else: it returns false,
-- the agent's ICMP state stays as it was, and `updated` is not called.
pub Becomes-stale :
    (lib : AddressLib) (fw : Framework) (env : World) (sys : Sys) (w : ℕ) (check : Bool) (a : Agent)
    (c : Controller)
    → Becomes (new_agent w check) a
    → lib.empty (address a c) ≡ true
    → (a.response ≡ invalid)
      × (refresh lib fw env sys a c ≡ (ok false, record a { ip_state = none }, c))
unfolding new_agent
Becomes-stale lib fw env sys w check a c m e =
    let remembered : a.response ≡ invalid = Becomes-response m in
    (remembered, refresh-stale lib fw env sys a c remembered e)
