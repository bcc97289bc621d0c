-- ===== src/IpState/Local.antt =====
-- What "local" and "remote" mean.
use libudjatnetwork.Prelude.{
  ℕ, ◌^◌, ◌<◌, ◌≡◌, refl, Bool, true, false, not, List, [], ◌∷◌, Option, none, some, ok, ◌>>=◌,
  if◌then◌else◌, ◌==◌, All, Bool-cases, inl, inr, first_where, arith, is_some,
}
use libudjatnetwork.SockAddr.{SockAddr, AddressLib, af_inet}
use libudjatnetwork.SockAddr.ByteOrder.{ByteOrder, htonl, htonl-lt}
use libudjatnetwork.Subnet.{SubNet, IfAddr, contains_in, interface_subnet, for_each, for_each_loop}
use libudjatnetwork.Subnet.Prefix.{popcount, count_bits-popcount}
use libudjatnetwork.IpState.{internal_state, found_in, compare_in, internal_result}

-- The subnet of an interface with an IPv4 address and a netmask.
abbrev pub local_subnet : AddressLib → ByteOrder → Option SockAddr → Option SockAddr → Option SubNet
local_subnet lib o (some a) (some m) =
    if a.ss_family == af_inet
    then some (record { addr = lib.assign a; bits = popcount 32 (htonl o m.s_addr) })
    else none
local_subnet lib o _ _ = none

abbrev add_some : Option SubNet → List SubNet → List SubNet
add_some none rest = rest
add_some (some sn) rest = sn ∷ rest

-- The subnets of the machine, in the order of the interfaces.
abbrev pub local_subnets : AddressLib → ByteOrder → List IfAddr → List SubNet
local_subnets lib o [] = []
local_subnets lib o (i ∷ is') =
    add_some (local_subnet lib o i.ifa_addr i.ifa_netmask) (local_subnets lib o is')

abbrev HasWord : Option SockAddr → Type 0
HasWord none = Unit
HasWord (some m) = m.s_addr < 2 ^ 32

-- The netmasks are 32-bit words.
abbrev pub HasMasks : List IfAddr → Type 0
HasMasks = All (λ i. HasWord i.ifa_netmask)

-- The first subnet of the machine that holds the address.
abbrev pub home_subnet : AddressLib → ByteOrder → List IfAddr → ℕ → Option SubNet
home_subnet lib o ifs a = first_where (λ sn. contains_in o sn a) (local_subnets lib o ifs)

abbrev pub found_result : Option SubNet → SubNet → Bool × SubNet
found_result none own = (false, own)
found_result (some sn) own = (true, sn)

interface_subnet-local :
    (lib : AddressLib) (o : ByteOrder) (a m : Option SockAddr)
    → HasWord m
    → interface_subnet lib o a m ≡ ok (local_subnet lib o a m)
unfolding interface_subnet
interface_subnet-local lib o none none h = refl
interface_subnet-local lib o none (some m) h = refl
interface_subnet-local lib o (some a) none h = refl
interface_subnet-local lib o (some a) (some m) h =
    ground (arith, count_bits-popcount (htonl o m.s_addr) (htonl-lt o m.s_addr h))

for_each-home :
    (lib : AddressLib) (o : ByteOrder) (ifs : List IfAddr) (a : ℕ) (own : SubNet)
    → HasMasks ifs
    → for_each_loop lib o (found_in o a) ifs own ≡ ok (found_result (home_subnet lib o ifs a) own)
unfolding for_each_loop found_in
for_each-home lib o [] a own h = refl
for_each-home lib o (i ∷ is') a own h =
    rw (interface_subnet-local lib o i.ifa_addr i.ifa_netmask h.0) (
      at_interface (local_subnet lib o i.ifa_addr i.ifa_netmask)
        (for_each-home lib o is' a own h.1))
  where
    at_interface :
        (found : Option SubNet)
        → for_each_loop lib o (found_in o a) is' own
          ≡ ok (found_result (home_subnet lib o is' a) own)
        → (elim found [
          | none ↦ for_each_loop lib o (found_in o a) is' own
          | some sn ↦ found_in o a sn own >>= λ r. elim r.0 [
            | true ↦ ok (true, r.1)
            | false ↦ for_each_loop lib o (found_in o a) is' r.1
          ]
        ])
          ≡ ok (
              found_result
                (first_where (λ sn. contains_in o sn a) (add_some found (local_subnets lib o is')))
                own)
    at_interface none ih = ih
    at_interface (some sn) ih = elim (Bool-cases (contains_in o sn a)) [
      | inl c ↦ rw c
      | inr c ↦ rw c ih
    ]

-- With 32-bit netmasks, and where the interfaces can be read, a state that asks them returns; it accepts
-- an IPv4 address exactly if some IPv4 interface's subnet holds it ("local"), or exactly if none does
-- ("remote", the flag), and it then keeps the first such subnet.
pub compare_in-home :
    (lib : AddressLib) (o : ByteOrder) (ifs : List IfAddr) (revert : Bool) (own : SubNet) (a : ℕ)
    → HasMasks ifs
    → compare_in lib o (ok ifs) (internal_state revert own) a
      ≡ ok (
        (if revert
            then not (is_some (home_subnet lib o ifs a))
            else is_some (home_subnet lib o ifs a)),
        internal_state revert (found_result (home_subnet lib o ifs a) own).1,
      )
unfolding compare_in for_each
compare_in-home lib o ifs revert own a h =
    rw (for_each-home lib o ifs a own h) (of_found (home_subnet lib o ifs a))
  where
    of_found :
        (found : Option SubNet)
        → internal_result revert (found_result found own)
          ≡ ok (
            (if revert then not (is_some found) else is_some found),
            internal_state revert (found_result found own).1,
          )
    of_found none = refl
    of_found (some sn) = refl
