-- ===== src/Module/WaitForHost.antt =====
-- The action `wait-for-host` of library/module.cc.
use libudjatnetwork.Prelude.{
  ℕ, ◌≡◌, refl, Bool, true, Option, none, some, [], if◌then◌else◌, Result, ok, err, fault, Error,
  runtime_error, ℤ, pos, minus_one, int_eq,
}
use libudjatnetwork.Prelude.Text.{CString}
use libudjatnetwork.Udjat.{Node, Strings, is_empty}
use libudjatnetwork.SockAddr.{AddressLib}
use libudjatnetwork.Dns.Resolver.{Resolver, Answer, Net, new_resolver, wait}

pub record WaitForHost : Type 0 where
  pub hostname : CString
  pub timeout : ℕ
  pub interval : ℕ

-- The constructor, for `as_uint` of pugixml.
unfoldable pub of_node : Strings → (Option CString → ℕ → ℕ) → Node → Result WaitForHost
of_node lib as_uint node =
    let hostname = lib.attribute_text node "host" [] in
    if is_empty hostname
    then err (runtime_error "Required attribute 'host' is missing or empty.")
    else ok (record {
      hostname = hostname;
      timeout = as_uint (node.attribute "timeout") 120;
      interval = as_uint (node.attribute "interval") 5;
    })

-- The world while the action runs: the time at its start, and what the loop of `wait` meets.
pub record Meanwhile : Type 0 where
  pub begin_time : ℕ
  pub clock : ℕ → ℕ
  pub nquery : ℕ → Option ℕ → CString → Answer

-- `DNS::Resolver{}.wait(hostname,timeout,interval)` behind the constructor.
unfoldable pub waiting : AddressLib → Meanwhile → ℕ → WaitForHost → Resolver → Option (ℤ × Resolver)
unfolding wait
waiting lib m fuel w r = wait lib m.begin_time m.clock m.nquery w.hostname w.timeout fuel r

-- What `call` writes to the response.
pub record Response : Type 0 where
  pub host : CString
  pub reachable : Option ℤ
  pub failure : Option Error

-- `call`, with the flag `except`; `none` is a wait that has run out of fuel.
unfoldable pub call :
    AddressLib → Net → Meanwhile → ℕ → Bool → WaitForHost → Option (Result ℤ × Response)
unfolding waiting new_resolver
call lib net m fuel except w = elim (new_resolver net) [
  | ok r ↦ elim (waiting lib m fuel w r) [
    | none ↦ none
    | some (status, r') ↦
        some (ok (pos 0), record { host = w.hostname; reachable = some status; failure = none })
  ]
  | err e ↦
      let response : Response = record { host = w.hostname; reachable = none; failure = some e } in
      if except then some (err e, response) else some (ok minus_one, response)
  | fault ↦ some (fault, record { host = w.hostname; reachable = none; failure = none })
]

-- How `activate` ends: with a result, or with `std::terminate`, since it is `noexcept`.
pub data Activation : Type 0 where
  activated : Bool → Activation
  terminated : Activation

-- `activate`
unfoldable pub activate : AddressLib → Net → Meanwhile → ℕ → WaitForHost → Option Activation
unfolding waiting new_resolver
activate lib net m fuel w = elim (new_resolver net) [
  | ok r ↦ elim (waiting lib m fuel w r) [
    | none ↦ none
    | some (code, r') ↦ some (activated (int_eq code (pos 0)))
  ]
  | err e ↦ some terminated
  | fault ↦ some terminated
]

abbrev pub fresh : Resolver
fresh = record { nameserver = none; records = [] }

pub new_resolver-fresh : (net : Net) → net.ninit ≡ true → new_resolver net ≡ ok fresh
unfolding new_resolver
new_resolver-fresh net n = rw n refl
