-- ===== src/Icmp/Controller/Moves.antt =====
-- The controller as its clients see it: a machine whose state is which workers are being checked, and
-- whose moves begin and end checks. Every history refines it.
use mathlib.Core.Quot
use mathlib.Core.Quot.{Quot}
use libudjatnetwork.Prelude.{
  ℕ, ◌+◌, ◌<◌, ◌≤◌, ◌≡◌, refl, sym, ap, ◌∙◌, List, [], ◌∷◌, ◌++◌, inl, inr, arith, OnOk, Returns,
  Returns-OnOk, Returns-mono, OnOk-bind, OnOk-mono, OnOk-both, subst, ◌==◌, if◌then◌else◌,
}
use libudjatnetwork.Icmp.Host.{Host, Controller, World}
use libudjatnetwork.Icmp.Controller.{
  Sys, insert, remove, handle_event, on_timer, Event, inserts, removes, reads, ticks, step, run,
}
use libudjatnetwork.Icmp.Controller.Sweep.{count_of, count_of-append}
use libudjatnetwork.Icmp.Controller.Tracked.{IsTracked, step-IsTracked, insert-IsTracked}
use libudjatnetwork.Icmp.Controller.Thinning.{
  Thins, done, keep, leave, Grows, same, added, remove-Thins, handle_event-Thins, on_timer-Thins,
}
use libudjatnetwork.Icmp.Controller.Counter.{insert-MayInsert}
use libudjatnetwork.Icmp.Controller.View.{
  occurrences, Checked, workers_of, view, occurrences-append-one, occurrences-workers_of,
  workers_of-append,
}
use libudjatnetwork.Icmp.Controller.Histories.{IsSound, insertions, run-IsSound}
use libudjatnetwork.Icmp.Controller.ToldOnce.{insertions_of, insertions_of-cons}

-- Runs of the machine, with the workers whose checks begin, in their order. A check begins only for a
-- worker that is not being checked.
pub data Moves : List ℕ → Checked → Checked → Type 0 where
  stays : {A B : Checked} → A ≡ B → Moves [] A B
  begins :
      (w : ℕ) (vs : List ℕ) {bs : List ℕ} {A B : Checked}
      → A ≡ Quot.mk vs
      → occurrences w vs ≡ 0
      → Moves bs (Quot.mk (w ∷ vs)) B
      → Moves (w ∷ bs) A B
  ends :
      (w : ℕ) (vs : List ℕ) {bs : List ℕ} {A B : Checked}
      → A ≡ Quot.mk (w ∷ vs)
      → Moves bs (Quot.mk vs) B
      → Moves bs A B

Moves-trans :
    {bs cs : List ℕ} {A B C : Checked} → Moves bs A B → Moves cs B C → Moves (bs ++ cs) A C
Moves-trans {cs = cs} {C = C} (stays e) n = subst (λ X. Moves cs X C) (sym e) n
Moves-trans (begins w vs e free m) n = begins w vs e free (Moves-trans m n)
Moves-trans (ends w vs e m) n = ends w vs e (Moves-trans m n)

occurrences-append :
    (w : ℕ) (us vs : List ℕ) → occurrences w (us ++ vs) ≡ occurrences w us + occurrences w vs
occurrences-append w [] vs = omega arith
occurrences-append w (u ∷ us) vs = omega (arith, occurrences-append w us vs)

-- A worker in the middle of the list, or in front of it.
mk-middle :
    (w : ℕ) (us vs : List ℕ) → ◌≡◌ {A = Checked} (Quot.mk (us ++ w ∷ vs)) (Quot.mk (w ∷ (us ++ vs)))
mk-middle w us vs =
    Quot.sound λ v. omega (arith, occurrences-append v us (w ∷ vs), occurrences-append v us vs)

-- Hosts that go end checks; `us` are the workers in front.
Thins-Moves :
    {xs ys : List Host}
    → Thins xs ys
    → (us : List ℕ) → Moves [] (Quot.mk (us ++ workers_of xs)) (Quot.mk (us ++ workers_of ys))
Thins-Moves done us = stays refl
Thins-Moves (keep x y {xs} {ys} e t) us =
    let front : (v : ℕ) (zs : List Host) → Checked = (λ v zs. Quot.mk (us ++ v ∷ workers_of zs)) in
    subst (λ A. Moves [] A (front y.worker ys)) (sym (mk-middle x.worker us (workers_of xs)))
      (subst (Moves [] (Quot.mk (x.worker ∷ (us ++ workers_of xs))))
        (sym (ap (λ v. front v ys) (sym e.1) ∙ mk-middle x.worker us (workers_of ys)))
        (Thins-Moves t (x.worker ∷ us)))
Thins-Moves (leave x {xs} {ys} t) us =
    ends x.worker (us ++ workers_of xs) (mk-middle x.worker us (workers_of xs)) (Thins-Moves t us)

-- A run of the machine whose checks begin for the workers of the insertions, each at most as often.
abbrev pub Refines : List Event → Controller → Controller → Type 0
Refines es c c' =
    (bs : List ℕ) × Moves bs (view c) (view c') × ((w : ℕ) → occurrences w bs ≤ insertions_of w es)

Thins-Refines : (es : List Event) (c c' : Controller) → Thins c.hosts c'.hosts → Refines es c c'
Thins-Refines es c c' t = ([], Thins-Moves t [], λ w. omega arith)

-- The worker of a new host had no other one: else the list would not agree with the flags.
count_of-front :
    (front : List Host) (h : Host) (c : Controller)
    → c.hosts ≡ front ++ h ∷ []
    → IsTracked c
    → count_of h.worker front ≡ 0
count_of-front front h c e t =
    let whole : count_of h.worker c.hosts ≡ count_of h.worker front + count_of h.worker (h ∷ []) =
      ap (count_of h.worker) e ∙ count_of-append h.worker front (h ∷ []) in
    ground (arith, whole, t h.worker)

mk-last :
    (front : List Host) (h : Host)
    → ◌≡◌ {A = Checked}
        (Quot.mk (workers_of (front ++ h ∷ [])))
        (Quot.mk (h.worker ∷ workers_of front))
mk-last front h =
    ap Quot.mk (workers_of-append front (h ∷ []))
    ∙ Quot.sound (λ v. occurrences-append-one h.worker v (workers_of front))

Grows-Refines :
    (env : World) (sys : Sys) (w n : ℕ) (c c' : Controller) {hs : List Host}
    → c'.hosts ≡ hs
    → IsTracked c'
    → Grows w c.hosts n hs
    → Refines (inserts env sys w ∷ []) c c'
Grows-Refines env sys w n c c' e t same =
    ([], stays (ap (λ hs. Quot.mk (workers_of hs)) (sym e)), λ w. omega arith)
Grows-Refines env sys w n c c' e t (added h {front} thin mine _) = (
  h.worker ∷ [],
  Moves-trans (Thins-Moves thin []) (
      begins h.worker (workers_of front) refl
        (occurrences-workers_of h.worker front ∙ count_of-front front h c' e t)
        (stays (sym (ap (λ hs. Quot.mk (workers_of hs)) e ∙ mk-last front h)))),
  λ v. omega (arith, ap {B = ℕ} (λ u. if u == v then 1 else 0) mine),
)

insert-Refines :
    (env : World) (sys : Sys) (w : ℕ) (c : Controller)
    → IsTracked (insert env sys w c).1
    → Refines (inserts env sys w ∷ []) c (insert env sys w c).1
insert-Refines env sys w c t = elim (insert-MayInsert env sys w c) [
  | inl (hosts, next) ↦
      ([], stays (ap (λ hs. Quot.mk (workers_of hs)) (sym hosts)), λ v. omega arith)
  | inr (grown, next) ↦ Grows-Refines env sys w c.next_id c (insert env sys w c).1 refl t grown
]

step-Refines : (e : Event) (c : Controller) → IsTracked c → OnOk (Refines (e ∷ []) c) (step e c)
unfolding step
step-Refines (inserts env sys w) c t = insert-Refines env sys w c (insert-IsTracked env sys w c t)
step-Refines (removes closed w) c t =
    Thins-Refines (removes closed w ∷ []) c (remove closed w c) (remove-Thins closed w c)
step-Refines (reads env oninput d) c t =
    Thins-Refines (reads env oninput d ∷ []) c (handle_event env oninput d c)
      (handle_event-Thins env oninput d c)
step-Refines (ticks env closed) c t =
    OnOk-mono (λ c'. Thins c.hosts c'.hosts) _
      (λ c' s. Thins-Refines (ticks env closed ∷ []) c c' s) (on_timer env closed c)
      (on_timer-Thins env closed c)

Refines-trans :
    (e : Event) (es : List Event) (c c' c'' : Controller)
    → Refines (e ∷ []) c c'
    → Refines es c' c''
    → Refines (e ∷ es) c c''
Refines-trans e es c c' c'' (bs, m, l) (ds, n, k) = (
  bs ++ ds,
  Moves-trans m n,
  λ w. omega (arith, occurrences-append w bs ds, l w, k w, insertions_of-cons w e es),
)

run-OnOk : (es : List Event) (c : Controller) → IsTracked c → OnOk (Refines es c) (run es c)
unfolding run
run-OnOk [] c t = ([], stays refl, λ w. omega arith)
run-OnOk (e ∷ es) c t =
    OnOk-bind (λ c'. Refines (e ∷ []) c c' × IsTracked c') _ (step e c) (run es)
      (OnOk-both _ _ (step e c) (step-Refines e c t) (step-IsTracked e c t))
      λ c' (r, t').
        OnOk-mono (Refines es c') _ (λ c'' k. Refines-trans e es c c' c'' r k) (run es c')
          (run-OnOk es c' t')

-- From a controller whose identifiers are distinct and below the counter, and whose hosts agree with
-- the workers' `busy` flags, every history returns whose insertions do not wrap the 16-bit counter
-- around. In the view, it is a run of the machine: checks end, and begin only for workers without
-- one, for each worker at most as often as the history inserts it.
pub run-Refines :
    (es : List Event) (c : Controller)
    → c.next_id + insertions es < 65536
    → IsSound c
    → Returns (Refines es c) (run es c)
run-Refines es c l s =
    Returns-mono _ _ (λ c' r. r.1) (run es c)
      (Returns-OnOk IsSound _ (run es c) (run-IsSound es c l s) (run-OnOk es c s.1))
