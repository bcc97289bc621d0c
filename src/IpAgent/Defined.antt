-- ===== src/IpAgent/Defined.antt =====
-- The IP agent's operations meet no undefined behaviour.
use libudjatnetwork.Prelude.{
  ℕ, ◌≡◌, ◌≢◌, refl, ◌==◌, none, inl, inr, arith, Bool-cases, Option-cases, Result-cases, ◌&&◌, not,
  first_where, Result, ok, err, fault,
}
use libudjatnetwork.Udjat.{Framework}
use libudjatnetwork.SockAddr.{AddressLib}
use libudjatnetwork.Icmp.Response.{Response, invalid, code}
use libudjatnetwork.Icmp.State.{factory_of_object-id}
use libudjatnetwork.Icmp.Host.{Controller, World}
use libudjatnetwork.Icmp.Controller.{Sys, start, enrol, insert}
use libudjatnetwork.IpAgent.{Agent, set, use_state, address, start_check, drop_address, refresh}

-- `set` never throws, and never assigns the remembered response.
pub set-ok :
    (fw : Framework) (r : Response) (a : Agent)
    → (a' : Agent) × (set fw r a ≡ ok a') × (a'.response ≡ a.response)
unfolding set
set-ok fw r a = elim (Bool-cases (code r == code a.response)) [
  | inl same ↦ (a, rw same refl, refl)
  | inr other ↦ elim (Option-cases (first_where (λ s. code s.id == code r) a.icmp_states)) [
    | inl missing ↦
        let (s, made, mine) = factory_of_object-id fw r in
        (use_state s a, rw (other, missing, made) refl, refl)
    | inr (s, found) ↦ (use_state s a, rw (other, found) refl, refl)
  ]
]

start-defined : (sys : Sys) (c : Controller) → (start sys c).0 ≢ fault
unfolding start
start-defined sys c = ground arith

enrol-defined :
    (env : World) (w : ℕ) (r : Result (Unit {0})) (c : Controller)
    → r ≢ fault
    → (enrol env w (r, c)).0 ≢ fault
unfolding enrol
enrol-defined env w (ok u) c n = λ e. cc
enrol-defined env w (err e) c n = λ f. cc
enrol-defined env w fault c n = λ e. n refl

insert-defined : (env : World) (sys : Sys) (w : ℕ) (c : Controller) → (insert env sys w c).0 ≢ fault
unfolding insert
insert-defined env sys w c = elim (Bool-cases (c.workers w).busy) [
  | inl busy ↦ rw busy (λ e. cc)
  | inr free ↦ rw free (enrol-defined env w (start sys c).0 (start sys c).1 (start-defined sys c))
]

drop_address-defined :
    (fw : Framework) (a : Agent) (c : Controller) → (drop_address fw a c).0 ≢ fault
unfolding drop_address
drop_address-defined fw a c = elim (Option-cases a.ip_state) [
  | inl e ↦ rw e (λ f. cc)
  | inr (i, e) ↦
      let (a', done, kept) = set-ok fw invalid (record a { ip_state = none }) in
      rw (e, drop_address) (rw (done, drop_address) (λ f. cc))
]

start_check-defined :
    (env : World) (sys : Sys) (a : Agent) (c : Controller) → (start_check env sys a c).0 ≢ fault
unfolding start_check
start_check-defined env sys a c = elim (Bool-cases (a.check && not (c.workers a.worker).busy)) [
  | inl idle ↦ elim (Result-cases (insert env sys a.worker c).0) [
    | inl (u, e) ↦ rw (idle, start_check) (rw (e, start_check) (λ f. cc))
    | inr (inl (x, e)) ↦ rw (idle, start_check) (rw (e, start_check) (λ f. cc))
    | inr (inr e) ↦ absurd (insert-defined env sys a.worker c e)
  ]
  | inr busy ↦ rw (busy, start_check) (λ f. cc)
]

-- Whatever the system calls answer, `refresh` meets no undefined behaviour.
pub refresh-defined :
    (lib : AddressLib) (fw : Framework) (env : World) (sys : Sys) (a : Agent) (c : Controller)
    → (refresh lib fw env sys a c).0 ≢ fault
unfolding refresh
refresh-defined lib fw env sys a c = elim (Bool-cases (lib.empty (address a c))) [
  | inl e ↦ rw (e, refresh) (drop_address-defined fw a c)
  | inr e ↦ rw (e, refresh) (start_check-defined env sys a c)
]
