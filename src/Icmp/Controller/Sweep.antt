-- ===== src/Icmp/Controller/Sweep.antt =====
-- `sweep`, the `remove_if` of the controller: its equations, and what it does to the link between
-- the workers' `busy` flags and the list.
use libudjatnetwork.Prelude.{
  ℕ, ◌+◌, ◌≡◌, sym, ◌∙◌, Bool, true, false, List, [], ◌∷◌, ◌++◌, inl, inr, Bool-cases, ◌==◌,
  if◌then◌else◌, arith,
}
use libudjatnetwork.Icmp.Host.{Host, Controller, idle}
use libudjatnetwork.Icmp.Controller.{sweep}

-- How many hosts of the list are for the worker.
abbrev pub count_of : ℕ → List Host → ℕ
count_of w [] = 0
count_of w (h ∷ hs) = (if h.worker == w then 1 else 0) + count_of w hs

abbrev pub flag : Controller → ℕ → ℕ
flag c w = if (c.workers w).busy then 1 else 0

-- A busy worker has one host, an idle one none; `n` counts the hosts outside the list.
abbrev pub TrackedWith : (ℕ → ℕ) → List Host → Controller → Type 0
TrackedWith n hs c = (w : ℕ) → n w + count_of w hs ≡ flag c w

abbrev pub Predicate : Type 0
Predicate = Host → Controller → Bool × Controller

-- The predicate leaves the `busy` flags alone.
abbrev pub KeepsBusy : Predicate → Type 0
KeepsBusy f = (h : Host) (c : Controller) (w : ℕ) → flag (f h c).1 w ≡ flag c w

pub count_of-append :
    (w : ℕ) (xs ys : List Host) → count_of w (xs ++ ys) ≡ count_of w xs + count_of w ys
count_of-append w [] ys = omega arith
count_of-append w (x ∷ xs) ys = omega (arith, count_of-append w xs ys)

pub sweep-gone :
    (f : Predicate) (h : Host) (hs : List Host) (c : Controller)
    → (f h c).0 ≡ true
    → sweep f (h ∷ hs) c ≡ sweep f hs (idle (f h c).1 h.worker)
unfolding sweep
sweep-gone f h hs c e = rw (e, sweep)

pub sweep-stays :
    (f : Predicate) (h : Host) (hs : List Host) (c : Controller)
    → (f h c).0 ≡ false
    → sweep f (h ∷ hs) c ≡ (h ∷ (sweep f hs (f h c).1).0, (sweep f hs (f h c).1).1)
unfolding sweep
sweep-stays f h hs c e = rw (e, sweep)

pub flag-idle : (c : Controller) (x w : ℕ) → flag (idle c x) w ≡ (if x == w then 0 else flag c w)
unfolding idle
flag-idle c x w = ground arith

-- Dropping a tracked host and setting its worker idle keeps the rest tracked.
pub idle-TrackedWith :
    (n : ℕ → ℕ) (h : Host) (hs : List Host) (c : Controller)
    → TrackedWith n (h ∷ hs) c
    → TrackedWith n hs (idle c h.worker)
idle-TrackedWith n h hs c t w = ground (arith, t w, flag-idle c h.worker w)

pub sweep-TrackedWith :
    (f : Predicate) (n : ℕ → ℕ) (hs : List Host) (c : Controller)
    → KeepsBusy f
    → TrackedWith n hs c
    → TrackedWith n (sweep f hs c).0 (sweep f hs c).1
unfolding sweep
sweep-TrackedWith f n [] c k t w = t w
sweep-TrackedWith f n (h ∷ hs) c k t w = elim (Bool-cases (f h c).0) [
  | inl gone ↦ rw (sweep-gone f h hs c gone) (
      sweep-TrackedWith f n hs (idle (f h c).1 h.worker) k
        (idle-TrackedWith n h hs (f h c).1 (λ v. t v ∙ sym (k h c v))) w)
  | inr stays ↦ rw (sweep-stays f h hs c stays) (
      omega (
        arith,
        sweep-TrackedWith f (λ v. n v + (if h.worker == v then 1 else 0)) hs (f h c).1 k
            (λ v. omega (arith, t v, k h c v)) w,
      ))
]
