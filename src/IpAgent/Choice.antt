-- ===== src/IpAgent/Choice.antt =====
-- Which state the agent shows.
use libudjatnetwork.Prelude.{
  ◌≡◌, Bool, true, false, Option, none, some, ◌⊎◌, inl, inr, arith, Bool-cases,
}
use libudjatnetwork.Udjat.{Properties}
use libudjatnetwork.IpAgent.{choose, prefer}

-- The framework's `>` on states is a strict order: it compares levels.
pub record IsStrict (gt : Properties → Properties → Bool) : Type 0 where
  pub irrefl : (x : Properties) → gt x x ≡ false
  pub trans : (x y z : Properties) → gt x y ≡ true → gt y z ≡ true → gt x z ≡ true

-- A candidate that may be missing is not above the state.
abbrev pub NotAbove : (Properties → Properties → Bool) → Option Properties → Properties → Type 0
NotAbove gt none s = Unit
NotAbove gt (some x) s = gt x s ≡ false

module _ (gt : Properties → Properties → Bool) (strict : IsStrict gt) where
  above_stays : (x y z : Properties) → gt x y ≡ false → gt z y ≡ true → gt x z ≡ false
  above_stays x y z n h = elim (Bool-cases (gt x z)) [
    | inl e ↦ let t = strict.trans x z y e h in cc
    | inr e ↦ e
  ]

  NotAbove-prefer :
      (c d : Option Properties) (s : Properties) → NotAbove gt c s → NotAbove gt c (prefer gt d s)
  unfolding prefer
  NotAbove-prefer none d s n = tt
  NotAbove-prefer (some x) none s n = n
  NotAbove-prefer (some x) (some y) s n = elim (Bool-cases (gt y s)) [
    | inl e ↦ rw e (above_stays x s y n e)
    | inr e ↦ rw e n
  ]

  prefer-NotAbove : (c : Option Properties) (s : Properties) → NotAbove gt c (prefer gt c s)
  unfolding prefer
  prefer-NotAbove none s = tt
  prefer-NotAbove (some x) s = elim (Bool-cases (gt x s)) [
    | inl e ↦ rw e (strict.irrefl x)
    | inr e ↦ rw e e
  ]

  -- With a strict order on states, the choice is the state of the base class, the IP state or the
  -- ICMP state, and none of these three is above it.
  pub choose-greatest :
      (base : Properties) (ip icmp : Option Properties)
      → let s = choose gt base ip icmp in
        ((s ≡ base) ⊎ ((some s ≡ ip) ⊎ (some s ≡ icmp)))
        × NotAbove gt (some base) s
        × NotAbove gt ip s
        × NotAbove gt icmp s
  unfolding choose
  choose-greatest base ip icmp = (
    member ip icmp,
    NotAbove-prefer (some base) icmp _ (NotAbove-prefer (some base) ip base (strict.irrefl base)),
    NotAbove-prefer ip icmp _ (prefer-NotAbove ip base),
    prefer-NotAbove icmp _,
  )
    where
      member :
          (ip icmp : Option Properties)
          → let s = prefer gt icmp (prefer gt ip base) in
            (s ≡ base) ⊎ ((some s ≡ ip) ⊎ (some s ≡ icmp))
      member none none = ground arith
      member none (some y) = ground arith
      member (some x) none = ground arith
      member (some x) (some y) = ground arith
