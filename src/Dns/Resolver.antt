-- ===== src/Dns/Resolver.antt =====
-- `DNS::Resolver` and `DNS::wait`: library/dns/linux/resolver.cc. Of the resolver's `res_state` the
-- model keeps what the source writes, the first name server; `res_nquery` and the parser of the
-- answer lie in the C library.
pub mod Wait
pub mod Found
pub mod TimedOut
use libudjatnetwork.Prelude.{
  ℕ, zero, suc, ◌+◌, Bool, true, false, not, Option, none, some, List, [], ◌∷◌, ◌++◌, ◌==◌, ltb,
  if◌then◌else◌, Result, ok, err, fault, Error, ℤ, pos, minus_one,
}
use libudjatnetwork.Prelude.Text.{CString}
use libudjatnetwork.Udjat.{is_empty}
use libudjatnetwork.SockAddr.{SockAddr, AddressLib, af_inet}
use libudjatnetwork.Dns.Record.{Rr, Record, record_of}

pub record Resolver : Type 0 where
  pub nameserver : Option ℕ
  pub records : List Record

-- What `res_nquery` leaves: `h_errno`, or the answer section.
pub data Answer : Type 0 where
  failed : ℤ → Answer
  answered : List Rr → Answer

-- Whether `res_ninit` works, and the answers for a name server (`none` is the system's) and a name.
pub record Net : Type 0 where
  pub ninit : Bool
  pub nquery : Option ℕ → CString → Answer

-- `Resolver()`
unfoldable pub new_resolver : Net → Result Resolver
new_resolver net =
    if net.ninit
    then ok (record { nameserver = none; records = [] })
    else err (Error.system_error (pos 22))

-- `set`
unfoldable pub set : SockAddr → Resolver → Result (Unit {0}) × Resolver
set server r =
    let named = record r { nameserver = some server.s_addr } in
    let refused = err (Error.runtime_error "Invalid record type when setting DNS server") in
    if server.ss_family == 0
    then (ok tt, r)
    else if server.ss_family == af_inet
    then (refused, named)
    else (refused, r)

-- `Resolver(const struct sockaddr_storage &)`
unfoldable pub resolver_for : Net → SockAddr → Result Resolver
unfolding new_resolver set
resolver_for net server = elim (new_resolver net) [
  | ok r ↦
      let (done, r') = set server r in elim done [ ok u ↦ ok r' | err e ↦ err e | fault ↦ fault ]
  | err e ↦ err e
  | fault ↦ fault
]

-- The loop of `query` over the answer.
unfoldable pub record_loop : AddressLib → List Rr → Resolver → Result (Unit {0}) × Resolver
record_loop lib [] r = (ok tt, r)
record_loop lib (rr ∷ rrs) r = elim (record_of lib rr) [
  | ok x ↦ record_loop lib rrs (record r { records = r.records ++ x ∷ [] })
  | err e ↦ (err e, r)
  | fault ↦ (fault, r)
]

-- What follows `res_nquery`, for the parameter `except`.
unfoldable pub take_answer : AddressLib → Bool → Answer → Resolver → Result (Unit {0}) × Resolver
unfolding record_loop
take_answer lib except (failed h_errno) r =
    if except then (err (Error.dns_exception h_errno), r) else (ok tt, record r { records = [] })
take_answer lib except (answered rrs) r = record_loop lib rrs r

-- `query`; a null pointer reads as the empty name.
unfoldable pub query :
    AddressLib
    → (Option ℕ → CString → Answer)
    → CString
    → Bool
    → Resolver
    → Result (Unit {0}) × Resolver
unfolding take_answer
query lib nquery name except r =
    if is_empty name
    then (err (Error.runtime_error "Cant resolve an empty hostname"), r)
    else take_answer lib except (nquery r.nameserver name) (record r { records = [] })

abbrev pub etimedout : ℤ
etimedout = pos 110

-- What a turn of the loop of `wait` ends with: the loop's result, or another turn. A query has no
-- undefined behaviour of its own, so the last clause is never reached.
abbrev pub after_query : Result (Unit {0}) → Resolver → Option ℤ
after_query (ok u) r = elim r.records [ [] ↦ none | x ∷ xs ↦ some (pos 0) ]
after_query (err (Error.system_error e)) r = some e
after_query (err e) r = some minus_one
after_query fault r = some minus_one

-- The loop of `wait`, where `clock` and `nquery` give what `time` and `res_nquery` answer in the
-- turn `i`, after the call of `time` that sets the limit. `none` is a loop that has run out of fuel.
unfoldable pub wait_loop :
    AddressLib
    → (ℕ → ℕ)
    → (ℕ → Option ℕ → CString → Answer)
    → CString
    → ℕ
    → ℕ
    → ℕ
    → Resolver
    → Option (ℤ × Resolver)
unfolding query
wait_loop lib clock nquery name limit zero i r = none
wait_loop lib clock nquery name limit (suc fuel) i r =
    let (done, r') = query lib (nquery i) name false r in
    let rest = wait_loop lib clock nquery name limit fuel (suc i) r' in
    if ltb (clock i) limit
    then (elim (after_query done r') [ some code ↦ some (code, r') | none ↦ rest ])
    else some (etimedout, r)

-- `wait`, where the limit is counted from `start`.
unfoldable pub wait :
    AddressLib
    → ℕ
    → (ℕ → ℕ)
    → (ℕ → Option ℕ → CString → Answer)
    → CString
    → ℕ
    → ℕ
    → Resolver
    → Option (ℤ × Resolver)
unfolding wait_loop
wait lib start clock nquery name timeout fuel r =
    wait_loop lib clock nquery name (start + timeout) fuel 0 (record r { records = [] })
