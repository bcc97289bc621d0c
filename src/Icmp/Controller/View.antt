-- ===== src/Icmp/Controller/View.antt =====
-- Which workers the controller of library/os/linux/icmp_controller.cc checks, without the order of its
-- list and without what a host holds: a quotient of the lists of workers.
use mathlib.Core.Quot.{Quot}
use libudjatnetwork.Prelude.{
  ℕ, ◌+◌, ◌≡◌, refl, ap, List, [], ◌∷◌, ◌++◌, map, ◌==◌, if◌then◌else◌, arith,
}
use libudjatnetwork.Icmp.Host.{Host, Controller}
use libudjatnetwork.Icmp.Controller.Sweep.{count_of}

abbrev pub occurrences : ℕ → List ℕ → ℕ
occurrences w [] = 0
occurrences w (v ∷ vs) = (if v == w then 1 else 0) + occurrences w vs

-- Lists with the same workers, each as often.
abbrev pub SameWorkers : List ℕ → List ℕ → Type 0
SameWorkers vs us = (w : ℕ) → occurrences w vs ≡ occurrences w us

-- The workers under check.
abbrev pub Checked : Type 0
Checked = Quot SameWorkers

abbrev pub workers_of : List Host → List ℕ
workers_of hs = map (λ h. h.worker) hs

-- The view of a controller.
abbrev pub view : Controller → Checked
view c = Quot.mk (workers_of c.hosts)

pub occurrences-workers_of :
    (w : ℕ) (hs : List Host) → occurrences w (workers_of hs) ≡ count_of w hs
occurrences-workers_of w [] = refl
occurrences-workers_of w (h ∷ hs) = omega (arith, occurrences-workers_of w hs)

pub occurrences-append-one :
    (w v : ℕ) (vs : List ℕ)
    → occurrences v (vs ++ w ∷ []) ≡ (if w == v then 1 else 0) + occurrences v vs
occurrences-append-one w v [] = omega arith
occurrences-append-one w v (u ∷ vs) = omega (arith, occurrences-append-one w v vs)

pub workers_of-append : (hs ks : List Host) → workers_of (hs ++ ks) ≡ workers_of hs ++ workers_of ks
workers_of-append [] ks = refl
workers_of-append (h ∷ hs) ks = ap (λ vs. h.worker ∷ vs) (workers_of-append hs ks)
