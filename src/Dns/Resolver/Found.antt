-- ===== src/Dns/Resolver/Found.antt =====
-- `wait` finds a name that resolves in time.
use libudjatnetwork.Prelude.{
  ℕ, zero, suc, ◌+◌, ◌<◌, ◌≡◌, ◌≢◌, refl, true, false, Option, none, some, List, [], ◌∷◌, ◌++◌, ltb,
  arith, Result, ok, err, fault, Returns, All, ℤ, pos, subst, sym,
}
use libudjatnetwork.Prelude.Text.{CString}
use libudjatnetwork.Udjat.{is_empty}
use libudjatnetwork.SockAddr.{AddressLib}
use libudjatnetwork.Dns.Record.{Rr, Record, record_of}
use libudjatnetwork.Dns.Resolver.{
  Resolver, Answer, failed, answered, record_loop, take_answer, query, after_query, wait_loop, wait,
}

-- An answer without a record.
abbrev pub IsSilent : Answer → Type 0
IsSilent (failed h) = Unit
IsSilent (answered []) = Unit
IsSilent (answered (rr ∷ rrs)) = ⊥

-- An answer with some records, all of them well formed.
abbrev pub HasRecords : AddressLib → Answer → Type 0
HasRecords lib (failed h) = ⊥
HasRecords lib (answered []) = ⊥
HasRecords lib (answered (rr ∷ rrs)) =
    All (λ x. Returns (λ y. Unit {0}) (record_of lib x)) (rr ∷ rrs)

append-some : (xs : List Record) (x : Record) → xs ++ x ∷ [] ≢ []
append-some [] x e = cc
append-some (y ∷ ys) x e = cc

-- A resolver with a record.
abbrev Holds : Result (Unit {0}) × Resolver → Type 0
Holds s = (s.0 ≡ ok tt) × (s.1.records ≢ [])

first_record-Holds :
    (lib : AddressLib) (rrs : List Rr) (r : Resolver) (y : Result Record)
    → Returns (λ z. Unit {0}) y
    → ((x : Record) → Holds (record_loop lib rrs (record r { records = r.records ++ x ∷ [] })))
    → Holds (elim y as (λ z. Result (Unit {0}) × Resolver) [
      | ok x ↦ record_loop lib rrs (record r { records = r.records ++ x ∷ [] })
      | err e ↦ (err e, r)
      | fault ↦ (fault, r)
    ])
first_record-Holds lib rrs r (ok x) p h = h x
first_record-Holds lib rrs r (err e) p h = absurd p
first_record-Holds lib rrs r fault p h = absurd p

record_loop-Holds :
    (lib : AddressLib) (rrs : List Rr) (r : Resolver)
    → All (λ x. Returns (λ y. Unit {0}) (record_of lib x)) rrs
    → r.records ≢ []
    → Holds (record_loop lib rrs r)
unfolding record_loop
record_loop-Holds lib [] r a n = (refl, n)
record_loop-Holds lib (rr ∷ rrs) r a n = first_record-Holds lib rrs r (record_of lib rr) a.0 (λ x.
    record_loop-Holds lib rrs (record r { records = r.records ++ x ∷ [] }) a.1
      (append-some r.records x))

take_answer-Holds :
    (lib : AddressLib) (a : Answer) (r : Resolver)
    → HasRecords lib a
    → Holds (take_answer lib false a r)
unfolding take_answer record_loop
take_answer-Holds lib (failed h) r p = absurd p
take_answer-Holds lib (answered []) r p = absurd p
take_answer-Holds lib (answered (rr ∷ rrs)) r p =
    first_record-Holds lib rrs r (record_of lib rr) p.0 (λ x.
      record_loop-Holds lib rrs (record r { records = r.records ++ x ∷ [] }) p.1
        (append-some r.records x))

query-Holds :
    (lib : AddressLib) (nquery : Option ℕ → CString → Answer) (name : CString) (r : Resolver)
    → is_empty name ≡ false
    → HasRecords lib (nquery r.nameserver name)
    → Holds (query lib nquery name false r)
unfolding query
query-Holds lib nquery name r n a =
    rw (n, query) (take_answer-Holds lib (nquery r.nameserver name) _ a)

take_answer-silent :
    (lib : AddressLib) (a : Answer) (r : Resolver)
    → IsSilent a
    → r.records ≡ []
    → take_answer lib false a r ≡ (ok tt, r)
unfolding take_answer record_loop
take_answer-silent lib (failed h) r p e = rw⁻¹ e refl
take_answer-silent lib (answered []) r p e = refl
take_answer-silent lib (answered (rr ∷ rrs)) r p e = absurd p

abbrev pub cleared : Resolver → Resolver
cleared r = record r { records = [] }

pub query-silent :
    (lib : AddressLib) (nquery : Option ℕ → CString → Answer) (name : CString) (r : Resolver)
    → is_empty name ≡ false
    → IsSilent (nquery r.nameserver name)
    → query lib nquery name false r ≡ (ok tt, cleared r)
unfolding query
query-silent lib nquery name r n a =
    rw (n, query) (take_answer-silent lib (nquery r.nameserver name) _ a refl)

-- What the turns from `i` on of a wait meet: `k` answers without a record, then one with records, all
-- of them before the limit.
abbrev pub Resolves :
    AddressLib
    → (ℕ → ℕ)
    → (ℕ → Option ℕ → CString → Answer)
    → CString
    → ℕ
    → Option ℕ
    → ℕ
    → ℕ
    → Type 0
Resolves lib clock nquery name limit server zero i =
    (clock i < limit) × HasRecords lib (nquery i server name)
Resolves lib clock nquery name limit server (suc k) i =
    (clock i < limit)
    × IsSilent (nquery i server name)
    × Resolves lib clock nquery name limit server k (suc i)

-- A wait that has ended with 0 and with records.
abbrev pub HasFound : Option (ℤ × Resolver) → Type 0
HasFound o = (r : Resolver) × (o ≡ some (pos 0, r)) × (r.records ≢ [])

-- A turn that goes on, or ends.
abbrev pub turn : Result (Unit {0}) → Resolver → Option (ℤ × Resolver) → Option (ℤ × Resolver)
turn done r rest = elim (after_query done r) [ some code ↦ some (code, r) | none ↦ rest ]

turn-HasFound :
    (done : Result (Unit {0})) (r : Resolver) (rest : Option (ℤ × Resolver))
    → Holds (done, r)
    → HasFound (turn done r rest)
turn-HasFound done r rest h = rw (h.0) (by_records r.records refl)
  where
    by_records :
        (xs : List Record)
        → r.records ≡ xs
        → HasFound
            (elim (elim xs as (λ y. Option ℤ) [ [] ↦ none | x ∷ ys ↦ some (pos 0) ])
              as (λ y. Option (ℤ × Resolver)) [ some code ↦ some (code, r) | none ↦ rest ])
    by_records [] e = absurd (h.1 e)
    by_records (x ∷ xs) e = (r, refl, h.1)

turn_silent :
    {q : Result (Unit {0}) × Resolver} (r : Resolver) (next : Resolver → Option (ℤ × Resolver))
    → q ≡ (ok tt, cleared r)
    → HasFound (next (cleared r))
    → HasFound (turn q.0 q.1 (next q.1))
turn_silent {q} r next e h = subst (λ q. HasFound (turn q.0 q.1 (next q.1))) (sym e) h

module _ (lib : AddressLib) (clock : ℕ → ℕ) (nquery : ℕ → Option ℕ → CString → Answer)
    (name : CString) (n : is_empty name ≡ false) (limit : ℕ) where
  wait_loop-HasFound :
      (k extra i : ℕ) (r : Resolver)
      → Resolves lib clock nquery name limit r.nameserver k i
      → HasFound (wait_loop lib clock nquery name limit (suc (k + extra)) i r)
  unfolding wait_loop
  wait_loop-HasFound zero extra i r h =
      let early : ltb (clock i) limit ≡ true = ground arith in
      rw (early, wait_loop) (turn-HasFound _ _ _ (query-Holds lib (nquery i) name r n h.1))
  wait_loop-HasFound (suc k) extra i r h =
      let early : ltb (clock i) limit ≡ true = ground arith in
      let rest = wait_loop-HasFound k extra (suc i) (cleared r) h.2 in
      let count : suc k + extra ≡ suc (k + extra) = omega arith in
      let silent = query-silent lib (nquery i) name r n h.1 in
      let turns = wait_loop lib clock nquery name limit in
      rw (early, wait_loop) (turn_silent r (turns (suc k + extra) (suc i)) silent (rw count rest))

-- If the name is not empty, the name server gives `k` answers without a record and then one with
-- records, all of them well formed, and the clock is before the limit up to that answer, `k + 1` turns
-- and any larger number of them are enough for `wait` to return 0 with at least one record.
pub wait-HasFound :
    (lib : AddressLib) (start : ℕ) (clock : ℕ → ℕ) (nquery : ℕ → Option ℕ → CString → Answer)
    (name : CString) (timeout k extra : ℕ) (r : Resolver)
    → is_empty name ≡ false
    → Resolves lib clock nquery name (start + timeout) r.nameserver k 0
    → HasFound (wait lib start clock nquery name timeout (suc (k + extra)) r)
unfolding wait
wait-HasFound lib start clock nquery name timeout k extra r n h =
    wait_loop-HasFound lib clock nquery name n (start + timeout) k extra 0 (cleared r) h
