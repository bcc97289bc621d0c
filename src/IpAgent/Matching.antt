-- ===== src/IpAgent/Matching.antt =====
-- Which IP state the agent takes for its address.
use libudjatnetwork.Prelude.{
  ℕ, suc, ◌+◌, ◌^◌, ◌<◌, ◌≡◌, refl, ap, ◌↔◌, ◌⊎◌, Bool, true, false, not, List, [], ◌∷◌, Option,
  none, some, inl, inr, Bool-cases, Option-cases, length, ◌++◌, if◌then◌else◌, is_some, Result, ok,
  err, fault, Result-cases, Returns, All, arith, subst,
}
use libudjatnetwork.Udjat.{Properties}
use libudjatnetwork.SockAddr.{SockAddr, AddressLib, af_inet}
use libudjatnetwork.SockAddr.ByteOrder.{ByteOrder}
use libudjatnetwork.Subnet.{SubNet, IfAddr, contains_in}
use libudjatnetwork.Subnet.Contains.{InPrefix, contains_in-InPrefix}
use libudjatnetwork.IpState.{Kind, IpState, subnet_state, internal_state, compare, compare_in}
use libudjatnetwork.IpState.Local.{HasMasks, home_subnet, found_result, compare_in-home}
use libudjatnetwork.IpAgent.Choice.{IsStrict, NotAbove, choose-greatest}
use libudjatnetwork.IpAgent.{Agent, match_loop, ip_properties, icmp_properties, compute_state}

-- Whether a state is one for the address, and the state as the comparison leaves it.
abbrev pub accepts : AddressLib → ByteOrder → List IfAddr → ℕ → Kind → Bool
accepts lib o ifs a (subnet_state sn) = contains_in o sn a
accepts lib o ifs a (internal_state revert sn) =
    if revert then not (is_some (home_subnet lib o ifs a)) else is_some (home_subnet lib o ifs a)

abbrev after : AddressLib → ByteOrder → List IfAddr → ℕ → Kind → Kind
after lib o ifs a (subnet_state sn) = subnet_state sn
after lib o ifs a (internal_state revert sn) =
    internal_state revert (found_result (home_subnet lib o ifs a) sn).1

compare-accepts :
    (lib : AddressLib) (o : ByteOrder) (ifs : List IfAddr) (k : Kind) (a : SockAddr)
    → HasMasks ifs
    → a.ss_family ≡ af_inet
    → compare lib o (ok ifs) k a ≡ ok (accepts lib o ifs a.s_addr k, after lib o ifs a.s_addr k)
unfolding compare compare_in
compare-accepts lib o ifs (subnet_state sn) a m f = rw f refl
compare-accepts lib o ifs (internal_state revert sn) a m f =
    rw f (compare_in-home lib o ifs revert sn a.s_addr m)

-- What a state is for: the subnet has the address's prefix, some interface's subnet holds the
-- address, or, with the flag, none does.
abbrev pub IsFor : AddressLib → ByteOrder → List IfAddr → ℕ → Kind → Type 0
IsFor lib o ifs a (subnet_state sn) = InPrefix o sn a
IsFor lib o ifs a (internal_state true sn) = home_subnet lib o ifs a ≡ none
IsFor lib o ifs a (internal_state false sn) =
    (home : SubNet) × (home_subnet lib o ifs a ≡ some home)

-- The subnet of a state is one of IPv4.
abbrev pub IsIpv4 : Kind → Type 0
IsIpv4 (subnet_state sn) = (sn.addr.ss_family ≡ af_inet) × (sn.addr.s_addr < 2 ^ 32)
IsIpv4 (internal_state revert sn) = Unit

accepts-IsFor :
    (lib : AddressLib) (o : ByteOrder) (ifs : List IfAddr) (a : ℕ) (k : Kind)
    → a < 2 ^ 32
    → IsIpv4 k
    → (accepts lib o ifs a k ≡ true) ↔ IsFor lib o ifs a k
accepts-IsFor lib o ifs a (subnet_state sn) l v = contains_in-InPrefix o sn a l v.1 v.0
accepts-IsFor lib o ifs a (internal_state true sn) l v =
    elim (Option-cases (home_subnet lib o ifs a)) [
      | inl e ↦ rw e ((λ h. refl), (λ h. refl))
      | inr (home, e) ↦ rw e ((λ h. cc), (λ h. cc))
    ]
accepts-IsFor lib o ifs a (internal_state false sn) l v =
    elim (Option-cases (home_subnet lib o ifs a)) [
      | inl e ↦ rw e ((λ h. cc), (λ h. cc))
      | inr (home, e) ↦ rw e ((λ h. (home, refl)), (λ h. refl))
    ]

module _ (lib : AddressLib) (o : ByteOrder) (ifs : List IfAddr) (a : SockAddr) where
  abbrev IsNotFor : IpState → Type 0
  IsNotFor s = ¬ (IsFor lib o ifs a.s_addr s.kind)

  -- The states before a position are not for the address, and the one there is, whose properties
  -- are these; without a position, no state is for the address.
  abbrev pub Takes : List IpState → Option ℕ → Option Properties → Type 0
  Takes ss none p = All IsNotFor ss × (p ≡ none)
  Takes ss (some i) p =
      (xs : List IpState) × (s : IpState) × (ys : List IpState) × (ss ≡ xs ++ s ∷ ys)
      × (length xs ≡ i)
      × All IsNotFor xs
      × IsFor lib o ifs a.s_addr s.kind
      × (p ≡ some s.properties)

  -- The same for the loop from position `k` on, which leaves the states `ss'`.
  abbrev FindsAt : ℕ → List IpState → List IpState → Option ℕ → Type 0
  FindsAt k ss ss' none = All IsNotFor ss
  FindsAt k ss ss' (some i) = (n : ℕ) × (i ≡ k + n) × Takes ss (some n) (ip_properties ss' (some n))

  abbrev Finds : ℕ → List IpState → List IpState × Result (Option ℕ) → Type 0
  Finds k ss r = Returns (FindsAt k ss r.0) r.1

  Finds-cons :
      (k : ℕ) (s s' : IpState) (ss : List IpState) (r : List IpState × Result (Option ℕ))
      → IsNotFor s
      → Finds (k + 1) ss r
      → Finds k (s ∷ ss) (s' ∷ r.0, r.1)
  Finds-cons k s s' ss (ss', err e) n f = f
  Finds-cons k s s' ss (ss', fault) n f = f
  Finds-cons k s s' ss (ss', ok none) n f = (n, f)
  Finds-cons k s s' ss (ss', ok (some i)) n
        (m, at, (xs, t, ys, whole, sized, before, mine, shown)) =
      (
        suc m,
        omega (arith, at),
        (s ∷ xs, t, ys, ap (λ l. s ∷ l) whole, omega (arith, sized), (n, before), mine, shown),
      )

  match_loop-Finds :
      (ss : List IpState) (k : ℕ)
      → HasMasks ifs
      → a.ss_family ≡ af_inet
      → a.s_addr < 2 ^ 32
      → All (λ s. IsIpv4 s.kind) ss
      → Finds k ss (match_loop lib o (ok ifs) a ss k)
  unfolding match_loop
  match_loop-Finds [] k m f l v = tt
  match_loop-Finds (s ∷ ss) k m f l v =
      let (sound, complete) = accepts-IsFor lib o ifs a.s_addr s.kind l v.0 in
      elim (Bool-cases (accepts lib o ifs a.s_addr s.kind)) [
        | inl yes' ↦
            rw (compare-accepts lib o ifs s.kind a m f, match_loop)
              (rw (yes', match_loop)
                (0, omega arith, ([], s, ss, refl, refl, tt, sound yes', refl)))
        | inr no' ↦
            let n : IsNotFor s = (λ h. let e = complete h in cc) in
            rw (compare-accepts lib o ifs s.kind a m f, match_loop)
              (rw (no', match_loop)
                (Finds-cons k s (record s { kind = after lib o ifs a.s_addr s.kind }) ss
                  (match_loop lib o (ok ifs) a ss (k + 1)) n
                  (match_loop-Finds ss (k + 1) m f l v.1)))
      ]

-- The state that is shown: the base class's, that for the address, or the one of the last response;
-- none of these is above it.
abbrev pub IsGreatest :
    (Properties → Properties → Bool)
    → Properties
    → Option Properties
    → Option Properties
    → Properties
    → Type 0
IsGreatest gt base ip icmp p =
    ((p ≡ base) ⊎ ((some p ≡ ip) ⊎ (some p ≡ icmp)))
    × NotAbove gt (some base) p
    × NotAbove gt ip p
    × NotAbove gt icmp p

-- What `computeState` leaves, for the properties of the state that it takes for the address.
abbrev pub Computes :
    AddressLib
    → ByteOrder
    → List IfAddr
    → (Properties → Properties → Bool)
    → Properties
    → SockAddr
    → Agent
    → Result Properties × Agent
    → Type 0
Computes lib o ifs gt base addr a r =
    Returns
      (λ p.
        (ip : Option Properties) × Takes lib o ifs addr a.ip_states r.1.ip_state ip
        × IsGreatest gt base ip (icmp_properties a.icmp_state) p)
      r.0

at_start :
    (lib : AddressLib) (o : ByteOrder) (ifs : List IfAddr) (addr : SockAddr) (ss ss' : List IpState)
    (i : Option ℕ)
    → FindsAt lib o ifs addr 0 ss ss' i
    → Takes lib o ifs addr ss i (ip_properties ss' i)
at_start lib o ifs addr ss ss' none f = (f, refl)
at_start lib o ifs addr ss ss' (some i) (n, at, t) =
    let same : n ≡ i = omega (arith, at) in
    subst (λ m. Takes lib o ifs addr ss (some m) (ip_properties ss' (some m))) same t

-- Where the interfaces of the machine can be read, with a strict order on states, for an IPv4 address,
-- IPv4 subnets and 32-bit netmasks, the agent's `computeState` returns. The IP state that it takes is the first of the agent's list that is for the
-- address, or none where none is: for a subnet, this means the equal upper bits, and for the words
-- about the own machine, that an interface's subnet holds the address or that none does. The state
-- that it shows is the base class's, that one, or the one of the last response, and none of the three
-- is above it.
pub compute_state-Computes :
    (lib : AddressLib) (o : ByteOrder) (ifs : List IfAddr) (gt : Properties → Properties → Bool)
    (base : Properties) (addr : SockAddr) (a : Agent)
    → IsStrict gt
    → HasMasks ifs
    → addr.ss_family ≡ af_inet
    → addr.s_addr < 2 ^ 32
    → All (λ s. IsIpv4 s.kind) a.ip_states
    → Computes lib o ifs gt base addr a (compute_state lib o (ok ifs) gt base addr a)
unfolding compute_state
compute_state-Computes lib o ifs gt base addr a strict m f l v =
    let r = match_loop lib o (ok ifs) addr a.ip_states 0 in
    let finds = match_loop-Finds lib o ifs addr a.ip_states 0 m f l v in
    elim (Result-cases r.1) [
      | inl (i, e) ↦
          let at : FindsAt lib o ifs addr 0 a.ip_states r.0 i = rw e at finds in
          rw (e, compute_state)
            (
              ip_properties r.0 i,
              at_start lib o ifs addr a.ip_states r.0 i at,
              choose-greatest gt strict base (ip_properties r.0 i) (icmp_properties a.icmp_state),
            )
      | inr (inl (x, e)) ↦ absurd (rw e at finds)
      | inr (inr e) ↦ absurd (rw e at finds)
    ]
