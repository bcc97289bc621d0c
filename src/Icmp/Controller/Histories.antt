-- ===== src/Icmp/Controller/Histories.antt =====
-- Histories of the controller: while the counter of identifiers has not wrapped around, no
-- operation meets undefined behaviour.
use libudjatnetwork.Prelude.{
  ℕ, suc, ◌+◌, ◌≡◌, ◌≢◌, sym, ◌<◌, ◌≤◌, List, [], ◌∷◌, ◌++◌, inl, inr, ℤ, arith, Result, ok, err,
  fault, OnOk, Returns, Returns-OnOk, All, All-append, subst, ◌>>=◌,
}
use libudjatnetwork.Icmp.Host.{Host, Controller, World}
use libudjatnetwork.Icmp.Controller.{
  insert, remove, handle_event, on_timer, Event, inserts, removes, reads, ticks, step, run,
}
use libudjatnetwork.Icmp.Controller.Timers.{HasDistinctIds, IsInTime, on_timer-IsInTime}
use libudjatnetwork.Icmp.Controller.Tracked.{IsTracked, step-IsTracked}
use libudjatnetwork.Icmp.Controller.Thinning.{
  Thins, All-Thins, HasDistinctIds-Thins, remove-Thins, handle_event-Thins, on_timer-Thins, Grows,
  same, added,
}
use libudjatnetwork.Icmp.Controller.Counter.{
  MayInsert, remove-next_id, handle_event-next_id, insert-MayInsert, on_timer-next_id,
}

-- The identifiers in the list are distinct, and below a bound.
abbrev pub IsFresh : List Host → ℕ → Type 0
IsFresh hs n = HasDistinctIds hs × All (λ h. h.id < n) hs

IsFresh-Thins : {xs ys : List Host} (n : ℕ) → Thins xs ys → IsFresh xs n → IsFresh ys n
IsFresh-Thins n t f = (HasDistinctIds-Thins t f.0, All-Thins (λ i. i < n) t f.1)

below-suc : (hs : List Host) (n : ℕ) → All (λ h. h.id < n) hs → All (λ h. h.id < n + 1) hs
below-suc [] n a = tt
below-suc (h ∷ hs) n a = (omega (arith, a.0), below-suc hs n a.1)

pub HasDistinctIds-last :
    (xs : List Host) (h : Host)
    → HasDistinctIds xs
    → All (λ x. x.id < h.id) xs
    → HasDistinctIds (xs ++ h ∷ [])
HasDistinctIds-last [] h d a = (tt, tt)
HasDistinctIds-last (x ∷ xs) h d a = (
  All-append (λ y. y.id ≢ x.id) xs (h ∷ []) d.0 ((λ e. absurd (omega (arith, e, a.0))), tt),
  HasDistinctIds-last xs h d.1 a.1,
)

IsFresh-Grows : (w n : ℕ) {xs ys : List Host} → Grows w xs n ys → IsFresh xs n → IsFresh ys (n + 1)
IsFresh-Grows w n {xs} same f = (f.0, below-suc xs n f.1)
IsFresh-Grows w n (added h {front} t e i) f =
    let (distinct, below) = IsFresh-Thins n t f in
    (
      HasDistinctIds-last front h distinct (subst (λ m. All (λ x. x.id < m) front) (sym i) below),
      All-append (λ x. x.id < n + 1) front (h ∷ []) (below-suc front n below)
          (omega (arith, i), tt),
    )

-- How many insertions a history has.
abbrev pub insertions : List Event → ℕ
insertions [] = 0
insertions (inserts env sys w ∷ es) = suc (insertions es)
insertions (removes closed w ∷ es) = insertions es
insertions (reads env oninput d ∷ es) = insertions es
insertions (ticks env closed ∷ es) = insertions es

-- Distinct identifiers below the counter, and hosts that agree with the workers.
abbrev pub IsSound : Controller → Type 0
IsSound c = IsFresh c.hosts c.next_id × IsTracked c

-- What a step leaves of the identifiers; `k` is 1 for an insertion and 0 for any other event.
abbrev StaysFresh : ℕ → Controller → Controller → Type 0
StaysFresh k c c' = IsFresh c'.hosts c'.next_id × (c'.next_id ≤ c.next_id + k)

insert-StaysFresh :
    (w : ℕ) (c c' : Controller)
    → c.next_id + 1 < 65536
    → MayInsert w c.hosts c.next_id c'
    → IsFresh c.hosts c.next_id
    → StaysFresh 1 c c'
insert-StaysFresh w c c' l (inl (hosts, next)) f = rw (hosts, next) (f, omega arith)
insert-StaysFresh w c c' l (inr (grown, next)) f =
    let counted : c'.next_id ≡ c.next_id + 1 = omega (arith, next) in
    rw counted (IsFresh-Grows w c.next_id grown f, omega arith)

Thins-StaysFresh :
    (c c' : Controller)
    → Thins c.hosts c'.hosts
    → c'.next_id ≡ c.next_id
    → IsFresh c.hosts c.next_id
    → StaysFresh 0 c c'
Thins-StaysFresh c c' t next f = rw next (IsFresh-Thins c.next_id t f, omega arith)

on_timer-StaysFresh :
    (env : World) (closed : ℤ) (c : Controller)
    → IsFresh c.hosts c.next_id
    → Returns (StaysFresh 0 c) (on_timer env closed c)
on_timer-StaysFresh env closed c f =
    at_result (on_timer env closed c) (on_timer-IsInTime env closed c f.0)
      (on_timer-Thins env closed c) (on_timer-next_id env closed c)
  where
    at_result :
        (r : Result Controller)
        → Returns (λ c'. All (IsInTime env.now) c'.hosts) r
        → OnOk (λ c'. Thins c.hosts c'.hosts) r
        → OnOk (λ c'. c'.next_id ≡ c.next_id) r
        → Returns (StaysFresh 0 c) r
    at_result (ok c') i t next = Thins-StaysFresh c c' t next f
    at_result (err e) i t next = i
    at_result fault i t next = i

-- The insertions of one event.
abbrev weight : Event → ℕ
weight e = insertions (e ∷ [])

step-StaysFresh :
    (e : Event) (c : Controller)
    → c.next_id + weight e < 65536
    → IsFresh c.hosts c.next_id
    → Returns (StaysFresh (weight e) c) (step e c)
unfolding step
step-StaysFresh (inserts env sys w) c l f =
    insert-StaysFresh w c (insert env sys w c).1 l (insert-MayInsert env sys w c) f
step-StaysFresh (removes closed w) c l f =
    Thins-StaysFresh c (remove closed w c) (remove-Thins closed w c) (remove-next_id closed w c) f
step-StaysFresh (reads env oninput d) c l f =
    Thins-StaysFresh c (handle_event env oninput d c) (handle_event-Thins env oninput d c)
      (handle_event-next_id env oninput d c) f
step-StaysFresh (ticks env closed) c l f = on_timer-StaysFresh env closed c f

insertions-cons : (e : Event) (es : List Event) → insertions (e ∷ es) ≡ weight e + insertions es
insertions-cons (inserts env sys w) es = omega arith
insertions-cons (removes closed w) es = omega arith
insertions-cons (reads env oninput d) es = omega arith
insertions-cons (ticks env closed) es = omega arith

-- From a controller whose identifiers are distinct and below the counter, and whose hosts agree with
-- the workers' `busy` flags, every history returns, without undefined behaviour and with the same
-- properties at its end, as long as its insertions do not wrap the 16-bit counter around.
pub run-IsSound :
    (es : List Event) (c : Controller)
    → c.next_id + insertions es < 65536
    → IsSound c
    → Returns IsSound (run es c)
unfolding run
run-IsSound [] c l s = s
run-IsSound (e ∷ es) c l s =
    let all = insertions-cons e es in
    let fresh = step-StaysFresh e c (omega (arith, all)) s.0 in
    after_step (step e c) (Returns-OnOk _ _ (step e c) fresh (step-IsTracked e c s.1))
      (run-IsSound es)
  where
    after_step :
        (r : Result Controller)
        → Returns (λ c'. StaysFresh (weight e) c c' × IsTracked c') r
        → ((c' : Controller)
            → c'.next_id + insertions es < 65536
            → IsSound c'
            → Returns IsSound (run es c'))
        → Returns IsSound (r >>= run es)
    after_step (ok c') ((fresh, counted), tracked) next =
        next c' (omega (arith, counted, insertions-cons e es, l)) (fresh, tracked)
    after_step (err x) k next = k
    after_step fault k next = k
