-- ===== src/Module/UnitTest.antt =====
-- The library's unit test: library/testprogram.cc.
use libudjatnetwork.Prelude.{
  ℕ, suc, ◌+◌, ◌≤◌, ◌≡◌, refl, true, not, Option, none, some, if◌then◌else◌, Result, ok, err, fault,
  ℤ, pos, minus_one, int_eq, arith, subst,
}
use libudjatnetwork.Prelude.Text.{CString, codes}
use libudjatnetwork.SockAddr.{AddressLib}
use libudjatnetwork.Dns.Resolver.{Resolver, Net, new_resolver, etimedout, wait}
use libudjatnetwork.Dns.Resolver.Found.{IsSilent, Resolves, wait-HasFound}
use libudjatnetwork.Dns.Resolver.TimedOut.{gave_up, wait-gave_up}
use libudjatnetwork.Module.WaitForHost.{Meanwhile, fresh, new_resolver-fresh}

abbrev pub localhost : CString
localhost = codes "localhost"

abbrev pub invalid_host : CString
invalid_host = codes "invalid_host.invalid"

-- What follows the wait for a name that does not exist.
abbrev after_invalid : Option (ℤ × Resolver) → Option (Result ℤ)
after_invalid none = none
after_invalid (some (code, r)) =
    if not (int_eq code etimedout) then some (ok minus_one) else some (ok (pos 0))

-- `run_udjat_unit_test`, for what each of its two waits meets; `none` is a wait that has run out of
-- fuel, and an exception of the resolver's constructor leaves the function.
unfoldable pub run_udjat_unit_test :
    AddressLib → Net → Meanwhile → Meanwhile → ℕ → Option (Result ℤ)
unfolding new_resolver wait
run_udjat_unit_test lib net first second fuel = elim (new_resolver net) [
  | ok r ↦ elim (wait lib first.begin_time first.clock first.nquery localhost 10 fuel r) [
    | none ↦ none
    | some (code, r') ↦
        let invalid =
          after_invalid
            (wait lib second.begin_time second.clock second.nquery invalid_host 5 fuel r') in
        if not (int_eq code (pos 0)) then some (ok minus_one) else invalid
  ]
  | err e ↦ some (err e)
  | fault ↦ some fault
]

-- If the C library's resolver starts, "localhost" is answered with well-formed records after `k`
-- answers without one and in its ten seconds, and every name server leaves the other name without a
-- record while the clock advances by at least a second in every turn, then `k + 6` turns for each wait,
-- and any larger number, are enough for the unit test to return 0.
pub run_udjat_unit_test-passes :
    (lib : AddressLib) (net : Net) (first second : Meanwhile) (k extra : ℕ)
    → net.ninit ≡ true
    → Resolves lib first.clock first.nquery localhost (first.begin_time + 10) none k 0
    → second.begin_time ≤ second.clock 0
    → ((i : ℕ) → suc (second.clock i) ≤ second.clock (suc i))
    → ((i : ℕ) (server : Option ℕ) → IsSilent (second.nquery i server invalid_host))
    → run_udjat_unit_test lib net first second (suc (k + (5 + extra))) ≡ some (ok (pos 0))
unfolding run_udjat_unit_test
run_udjat_unit_test-passes lib net first second k extra n h s a q =
    let (r, found, records) =
      wait-HasFound lib first.begin_time first.clock first.nquery localhost 10 k (5 + extra) fresh
        refl h in
    let turns : suc (5 + (k + extra)) ≡ suc (k + (5 + extra)) = omega arith in
    let given_up =
      subst
        (λ fuel.
          wait lib second.begin_time second.clock second.nquery invalid_host 5 fuel r ≡ gave_up r)
        turns
        (wait-gave_up lib second.begin_time second.clock second.nquery invalid_host 5 (k + extra) r
          refl s a (λ i. q i r.nameserver)) in
    rw (new_resolver-fresh net n, run_udjat_unit_test)
      (rw (found, run_udjat_unit_test) (rw (given_up, run_udjat_unit_test) refl))
