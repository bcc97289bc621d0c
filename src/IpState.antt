-- ===== src/IpState.antt =====
-- The states of an IP agent: library/ip/state.cc and include/udjat/net/ip/state.h.
pub mod Local
pub mod Keywords
use libudjatnetwork.Prelude.{
  ℕ, Bool, true, false, not, List, [], ◌∷◌, Option, none, some, ◌==◌, if◌then◌else◌, first_where,
  Result, ok, err, fault, ◌>>=◌, runtime_error,
}
use libudjatnetwork.Prelude.Text.{CString, codes, same_text}
use libudjatnetwork.Udjat.{Node, Properties, Framework, as_string, is_empty}
use libudjatnetwork.SockAddr.{SockAddr, AddressLib, af_unspec, af_inet, af_inet6}
use libudjatnetwork.SockAddr.ByteOrder.{ByteOrder}
use libudjatnetwork.Subnet.{SubNet, IfAddr, no_subnet, contains_in, contains_in6, for_each}
use libudjatnetwork.Subnet

-- `IP::State`, which holds a subnet, and the factory's class `Internal`, which looks at the
-- interfaces of the machine and keeps the last subnet that it found.
pub data Kind : Type 0 where
  subnet_state : SubNet → Kind
  internal_state : Bool → SubNet → Kind

pub record IpState : Type 0 where
  pub properties : Properties
  pub kind : Kind

-- A row of the table `locals`.
pub record Keyword : Type 0 where
  pub name : CString
  pub revert : Bool

abbrev pub keyword : CString → Bool → Keyword
keyword n r = record { name = n; revert = r }

abbrev pub locals : List Keyword
locals =
    keyword (codes "local") false
    ∷ keyword (codes "!remote") false
    ∷ keyword (codes "not remote") false
    ∷ keyword (codes "internal") false
    ∷ keyword (codes "mine") false
    ∷ keyword (codes "remote") true
    ∷ keyword (codes "!local") true
    ∷ keyword (codes "not local") true
    ∷ keyword (codes "external") true
    ∷ keyword (codes "!mine") true
    ∷ keyword (codes "not mine") true
    ∷ []

-- The loop of the factory over the table.
unfoldable pub find_keyword : CString → List Keyword → Option Keyword
find_keyword subnet [] = none
find_keyword subnet (k ∷ ks) =
    let rest = find_keyword subnet ks in if same_text subnet k.name then some k else rest

-- `IP::State::Factory`
unfoldable pub factory : AddressLib → Framework → Node → Result IpState
factory lib fw node =
    let subnet = as_string (fw.get_attribute node "subnet") [] in
    elim (find_keyword subnet locals) [
      | some k ↦
          ok (record { properties = fw.from_node node; kind = internal_state k.revert no_subnet })
      | none ↦ Subnet.set lib subnet >>= λ sn.
          ok (record { properties = fw.from_node node; kind = subnet_state sn })
    ]

-- The callback of `Internal::compare` for an IPv4 address; its state is the object's subnet.
unfoldable pub found_in : ByteOrder → ℕ → SubNet → SubNet → Result (Bool × SubNet)
found_in o a subnet own = if contains_in o subnet a then ok (true, subnet) else ok (false, own)

-- The callback of `Internal::compare` for an IPv6 address.
unfoldable pub found_in6 : SubNet → SubNet → Result (Bool × SubNet)
found_in6 subnet own = contains_in6 >>= λ b. if b then ok (true, subnet) else ok (false, own)

abbrev pub internal_result : Bool → Bool × SubNet → Result (Bool × Kind)
internal_result revert (found, sn) =
    ok ((if revert then not found else found), internal_state revert sn)

-- What the interfaces are at the call: `err` is a failed `getifaddrs`.
abbrev pub Interfaces : Type 0
Interfaces = Result (List IfAddr)

-- `compare(const sockaddr_in &)` of both classes, with the object as the call leaves it.
unfoldable pub compare_in : AddressLib → ByteOrder → Interfaces → Kind → ℕ → Result (Bool × Kind)
unfolding found_in
compare_in lib o ifaces (subnet_state sn) a = ok (contains_in o sn a, subnet_state sn)
compare_in lib o ifaces (internal_state revert sn) a =
    for_each lib o ifaces (found_in o a) sn >>= internal_result revert

-- `compare(const sockaddr_in6 &)` of both classes.
unfoldable pub compare_in6 : AddressLib → ByteOrder → Interfaces → Kind → Result (Bool × Kind)
unfolding found_in6
compare_in6 lib o ifaces (subnet_state sn) = contains_in6 >>= λ b. ok (b, subnet_state sn)
compare_in6 lib o ifaces (internal_state revert sn) =
    for_each lib o ifaces found_in6 sn >>= internal_result revert

-- `empty()` of both classes.
abbrev pub is_empty_state : AddressLib → Kind → Bool
is_empty_state lib (subnet_state sn) = lib.empty sn.addr
is_empty_state lib (internal_state revert sn) = lib.empty sn.addr

-- `Abstract::IP::State::compare(const sockaddr_storage &)`
unfoldable pub compare :
    AddressLib → ByteOrder → Interfaces → Kind → SockAddr → Result (Bool × Kind)
unfolding compare_in compare_in6
compare lib o ifaces k a =
    if a.ss_family == af_inet
    then compare_in lib o ifaces k a.s_addr
    else if a.ss_family == af_inet6
    then compare_in6 lib o ifaces k
    else if a.ss_family == af_unspec
    then ok (is_empty_state lib k, k)
    else err (runtime_error "Invalid address family")

abbrev subnet_of : Kind → SubNet
subnet_of (subnet_state sn) = sn
subnet_of (internal_state revert sn) = sn

-- `to_string` of both classes: the summary, or the subnet.
unfoldable pub to_string : AddressLib → IpState → CString
unfolding Subnet.to_string
to_string lib s =
    if is_empty s.properties.summary
    then Subnet.to_string lib (subnet_of s.kind)
    else s.properties.summary
