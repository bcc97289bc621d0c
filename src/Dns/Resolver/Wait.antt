-- ===== src/Dns/Resolver/Wait.antt =====
-- `wait` returns, and what it returns.
use libudjatnetwork.Prelude.{
  ℕ, zero, suc, ◌+◌, ◌≤◌, ◌≡◌, ◌≢◌, refl, false, Option, none, some, List, [], ◌∷◌, ◌++◌, ◌==◌, inl,
  inr, ltb, arith, Bool-cases, Option-cases, Result, ok, err, fault, runtime_error, system_error,
  dns_exception, invalid_argument, out_of_range, ℤ, pos, minus_one,
}
use libudjatnetwork.Prelude.Text.{CString}
use libudjatnetwork.Udjat.{is_empty}
use libudjatnetwork.SockAddr.{AddressLib}
use libudjatnetwork.Dns.Record.{Rr, Record, record_of, address_value, name_value, is_name_type}
use libudjatnetwork.Dns.Resolver.{
  Resolver, Answer, failed, answered, record_loop, take_answer, query, etimedout, after_query,
  wait_loop, wait,
}

-- A value or a `runtime_error`.
abbrev pub IsPlain {ℓ} : {A : Type ℓ} → Result A → Type 0
IsPlain (ok a) = Unit
IsPlain (err (runtime_error s)) = Unit
IsPlain (err (system_error e)) = ⊥
IsPlain (err (dns_exception e)) = ⊥
IsPlain (err invalid_argument) = ⊥
IsPlain (err out_of_range) = ⊥
IsPlain fault = ⊥

record_of-IsPlain : (lib : AddressLib) (rr : Rr) → IsPlain (record_of lib rr)
unfolding record_of address_value name_value
record_of-IsPlain lib rr = elim (Bool-cases (rr.type == 1)) [
  | inl e ↦ elim (Bool-cases (rr.rdlength == 4)) [ inl f ↦ rw (e, f) tt | inr f ↦ rw (e, f) tt ]
  | inr e ↦ elim (Bool-cases (is_name_type rr.type)) [
    | inl f ↦ elim (Option-cases rr.expanded) [
      | inl g ↦ rw (e, f, g) tt
      | inr (v, g) ↦ rw (e, f, g) tt
    ]
    | inr f ↦ rw (e, f) tt
  ]
]

record_loop-IsPlain :
    (lib : AddressLib) (rrs : List Rr) (r : Resolver) → IsPlain (record_loop lib rrs r).0
unfolding record_loop
record_loop-IsPlain lib [] r = tt
record_loop-IsPlain lib (rr ∷ rrs) r =
    by_result (record_of lib rr) (record_of-IsPlain lib rr) (λ r'. record_loop-IsPlain lib rrs r')
  where
    by_result :
        (x : Result Record)
        → IsPlain x
        → ((r' : Resolver) → IsPlain (record_loop lib rrs r').0)
        → IsPlain
            (elim x as (λ y. Result (Unit {0}) × Resolver) [
              | ok x ↦ record_loop lib rrs (record r { records = r.records ++ x ∷ [] })
              | err e ↦ (err e, r)
              | fault ↦ (fault, r)
            ]).0
    by_result (ok x) p h = h _
    by_result (err e) p h = p
    by_result fault p h = p

query-IsPlain :
    (lib : AddressLib) (nquery : Option ℕ → CString → Answer) (name : CString) (r : Resolver)
    → IsPlain (query lib nquery name false r).0
unfolding query take_answer
query-IsPlain lib nquery name r = elim (Bool-cases (is_empty name)) [
  | inl e ↦ rw e tt
  | inr e ↦ rw e (by_answer (nquery r.nameserver name))
]
  where
    by_answer : (a : Answer) → IsPlain (take_answer lib false a (record r { records = [] })).0
    by_answer (failed h) = tt
    by_answer (answered rrs) = record_loop-IsPlain lib rrs _

-- A code of `wait` and the records that it leaves: 0 and some records, or another code.
abbrev pub HasCode : ℤ → Resolver → Type 0
HasCode code r = code ≡ pos 0 → r.records ≢ []

abbrev pub HasEnded : Option (ℤ × Resolver) → Type 0
HasEnded o = (code : ℤ) × (r : Resolver) × (o ≡ some (code, r)) × HasCode code r

etimedout-HasEnded : (r : Resolver) → HasEnded (some (etimedout, r))
etimedout-HasEnded r = (etimedout, r, refl, λ h. ground arith)

-- A turn that goes on, or ends.
abbrev turn : Result (Unit {0}) → Resolver → Option (ℤ × Resolver) → Option (ℤ × Resolver)
turn done r rest = elim (after_query done r) [ some code ↦ some (code, r) | none ↦ rest ]

turn-HasEnded :
    (done : Result (Unit {0})) (r : Resolver) (rest : Option (ℤ × Resolver))
    → IsPlain done
    → HasEnded rest
    → HasEnded (turn done r rest)
turn-HasEnded (ok u) r rest p h = by_records r.records refl
  where
    by_records :
        (xs : List Record)
        → r.records ≡ xs
        → HasEnded
            (elim (elim xs as (λ y. Option ℤ) [ [] ↦ none | x ∷ ys ↦ some (pos 0) ])
              as (λ y. Option (ℤ × Resolver)) [ some code ↦ some (code, r) | none ↦ rest ])
    by_records [] e = h
    by_records (x ∷ xs) e = (pos 0, r, refl, λ c f. cc)
turn-HasEnded (err (runtime_error s)) r rest p h = (minus_one, r, refl, λ e. ground arith)
turn-HasEnded (err (system_error e)) r rest p h = absurd p
turn-HasEnded (err (dns_exception e)) r rest p h = absurd p
turn-HasEnded (err invalid_argument) r rest p h = absurd p
turn-HasEnded (err out_of_range) r rest p h = absurd p
turn-HasEnded fault r rest p h = absurd p

module _ (lib : AddressLib) (clock : ℕ → ℕ) (nquery : ℕ → Option ℕ → CString → Answer)
    (name : CString) (limit : ℕ) (advances : (i : ℕ) → suc (clock i) ≤ clock (suc i)) where
  wait_loop-HasEnded :
      (fuel i : ℕ) (r : Resolver)
      → limit ≤ clock i + fuel
      → HasEnded (wait_loop lib clock nquery name limit (suc fuel) i r)
  unfolding wait_loop
  wait_loop-HasEnded zero i r h =
      let late : ltb (clock i) limit ≡ false = ground arith in
      rw (late, wait_loop) (etimedout-HasEnded r)
  wait_loop-HasEnded (suc fuel) i r h = elim (Bool-cases (ltb (clock i) limit)) [
    | inr e ↦ rw (e, wait_loop) (etimedout-HasEnded r)
    | inl e ↦
        rw (e, wait_loop)
          (turn-HasEnded _ _ _ (query-IsPlain lib (nquery i) name r)
            (wait_loop-HasEnded fuel (suc i) _ (omega (arith, advances i))))
  ]

-- With a clock that advances by at least one second in every turn, as many turns as the timeout has
-- seconds, and one more, are enough for `wait` to return; and when it returns 0, the resolver holds
-- a record.
pub wait-HasEnded :
    (lib : AddressLib) (start : ℕ) (clock : ℕ → ℕ) (nquery : ℕ → Option ℕ → CString → Answer)
    (name : CString) (timeout : ℕ) (r : Resolver)
    → start ≤ clock 0
    → ((i : ℕ) → suc (clock i) ≤ clock (suc i))
    → HasEnded (wait lib start clock nquery name timeout (suc timeout) r)
unfolding wait
wait-HasEnded lib start clock nquery name timeout r s a =
    wait_loop-HasEnded lib clock nquery name (start + timeout) a timeout 0 _ (omega arith)
