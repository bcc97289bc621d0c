-- ===== src/Dns/Resolver/TimedOut.antt =====
-- `wait` gives a name up that does not resolve.
use libudjatnetwork.Prelude.{
  ℕ, zero, suc, ◌+◌, ◌≤◌, ◌≡◌, refl, false, Option, some, ltb, arith, inl, inr, Bool-cases, Result,
  ok, ℤ, subst, sym,
}
use libudjatnetwork.Prelude.Text.{CString}
use libudjatnetwork.Udjat.{is_empty}
use libudjatnetwork.SockAddr.{AddressLib}
use libudjatnetwork.Dns.Resolver.{Resolver, Answer, etimedout, wait_loop, wait}
use libudjatnetwork.Dns.Resolver.Found.{IsSilent, cleared, query-silent, turn}

-- The result of a wait that has given up.
abbrev pub gave_up : Resolver → Option (ℤ × Resolver)
gave_up r = some (etimedout, cleared r)

turn-gave_up :
    {q : Result (Unit {0}) × Resolver} (r : Resolver) (next : Resolver → Option (ℤ × Resolver))
    → q ≡ (ok tt, cleared r)
    → next (cleared r) ≡ gave_up r
    → turn q.0 q.1 (next q.1) ≡ gave_up r
turn-gave_up {q} r next e h = subst (λ q. turn q.0 q.1 (next q.1) ≡ gave_up r) (sym e) h

module _ (lib : AddressLib) (clock : ℕ → ℕ) (nquery : ℕ → Option ℕ → CString → Answer)
    (name : CString) (n : is_empty name ≡ false) (limit : ℕ)
    (advances : (i : ℕ) → suc (clock i) ≤ clock (suc i)) (r : Resolver)
    (silent : (i : ℕ) → IsSilent (nquery i r.nameserver name)) where
  wait_loop-gave_up :
      (fuel i : ℕ)
      → limit ≤ clock i + fuel
      → wait_loop lib clock nquery name limit (suc fuel) i (cleared r) ≡ gave_up r
  unfolding wait_loop
  wait_loop-gave_up zero i h =
      let late : ltb (clock i) limit ≡ false = ground arith in rw (late, wait_loop) refl
  wait_loop-gave_up (suc fuel) i h = elim (Bool-cases (ltb (clock i) limit)) [
    | inr late ↦ rw (late, wait_loop) refl
    | inl early ↦
        let turns = wait_loop lib clock nquery name limit in
        rw (early, wait_loop)
          (turn-gave_up r (turns (suc fuel) (suc i))
            (query-silent lib (nquery i) name (cleared r) n (silent i))
            (wait_loop-gave_up fuel (suc i) (omega (arith, h, advances i))))
  ]

-- If the name is not empty, every answer is one without a record, and the clock advances by at least a
-- second in every turn, one turn more than the timeout has seconds, and any larger number, is enough
-- for `wait` to return `ETIMEDOUT` and to leave no record.
pub wait-gave_up :
    (lib : AddressLib) (start : ℕ) (clock : ℕ → ℕ) (nquery : ℕ → Option ℕ → CString → Answer)
    (name : CString) (timeout extra : ℕ) (r : Resolver)
    → is_empty name ≡ false
    → start ≤ clock 0
    → ((i : ℕ) → suc (clock i) ≤ clock (suc i))
    → ((i : ℕ) → IsSilent (nquery i r.nameserver name))
    → wait lib start clock nquery name timeout (suc (timeout + extra)) r ≡ gave_up r
unfolding wait
wait-gave_up lib start clock nquery name timeout extra r n s a q =
    wait_loop-gave_up lib clock nquery name n (start + timeout) a r q (timeout + extra) 0
      (omega (arith, s))
