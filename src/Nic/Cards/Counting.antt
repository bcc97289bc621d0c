-- ===== src/Nic/Cards/Counting.antt =====
-- How many interfaces are active.
use libudjatnetwork.Prelude.{
  ℕ, ◌+◌, ◌≡◌, refl, ap, ◌∙◌, Bool, true, false, List, [], ◌∷◌, keep_if, if◌then◌else◌, inl, inr,
  Bool-cases, arith, Result, ok, err, fault, ◌>>=◌,
}
use libudjatnetwork.Nic.Cards.{Interface, carrier, up_with_carrier, active_loop, active}

-- The carriers of a list of interfaces, or the first exception.
abbrev pub carriers : List Interface → Result (List Bool)
carriers [] = ok []
carriers (i ∷ is') = carrier i >>= λ b. carriers is' >>= λ bs. ok (b ∷ bs)

abbrev pub count_true : List Bool → ℕ
count_true [] = 0
count_true (b ∷ bs) = (if b then 1 else 0) + count_true bs

-- The count, added to what was counted before.
counted : ℕ → Result (List Bool) → Result ℕ
counted n r = r >>= λ bs. ok (n + count_true bs)

counted-cons :
    (n : ℕ) (b : Bool) (r : Result (List Bool))
    → counted (if b then n + 1 else n) r ≡ counted n (r >>= λ bs. ok (b ∷ bs))
unfolding counted
counted-cons n true (ok bs) = ap ok (omega arith)
counted-cons n false (ok bs) = ap ok (omega arith)
counted-cons n b (err e) = refl
counted-cons n b fault = refl

active_loop-counted :
    (ifs : List Interface) (n : ℕ)
    → active_loop ifs n ≡ counted n (carriers (keep_if (λ i. i.up) ifs))
unfolding active_loop up_with_carrier counted
active_loop-counted [] n = ap ok (omega arith)
active_loop-counted (i ∷ is') n = elim (Bool-cases i.up) [
  | inl e ↦ rw e (at_carrier (carrier i) (active_loop-counted is'))
  | inr e ↦ rw e (active_loop-counted is' n)
]
  where
    at_carrier :
        (r : Result Bool)
        → ((m : ℕ) → active_loop is' m ≡ counted m (carriers (keep_if (λ i. i.up) is')))
        → (r >>= λ b. active_loop is' (if b then n + 1 else n))
          ≡ counted n (r >>= λ b. carriers (keep_if (λ i. i.up) is') >>= λ bs. ok (b ∷ bs))
    at_carrier (ok b) ih = ih (if b then n + 1 else n) ∙ counted-cons n b _
    at_carrier (err e) ih = refl
    at_carrier fault ih = refl

-- The number of active interfaces is the number of those that are up and have a carrier. Only the
-- carrier files of interfaces that are up are read, in their order, and the first one that cannot
-- be read or is no number makes the whole count throw.
pub active-carriers :
    (ifs : List Interface)
    → active ifs ≡ (carriers (keep_if (λ i. i.up) ifs) >>= λ bs. ok (count_true bs))
unfolding active counted
active-carriers ifs = active_loop-counted ifs 0 ∙ from_zero (carriers (keep_if (λ i. i.up) ifs))
  where
    from_zero : (r : Result (List Bool)) → counted 0 r ≡ (r >>= λ bs. ok (count_true bs))
    from_zero (ok bs) = ap ok (omega arith)
    from_zero (err e) = refl
    from_zero fault = refl
