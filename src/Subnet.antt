-- ===== src/Subnet.antt =====
-- `IP::SubNet`: library/ip/subnet.cc, library/os/linux/subnet.cc and include/udjat/net/ip/subnet.h.
-- An exception of a constructor leaves no object, so `set` returns the new object or the error.
pub mod Contains
pub mod Prefix
pub mod Decimal
pub mod Text
use libudjatnetwork.Prelude.{
  ℕ, zero, suc, ◌+◌, ◌-◌, ◌*◌, ◌/◌, ◌%◌, ◌^◌, bit_and, bit_or, Bool, true, false, ◌&&◌, ◌||◌,
  Option, none, some, List, [], ◌∷◌, ◌++◌, ltb, leb, ◌==◌, if◌then◌else◌, ℤ, pos, negsuc, Result,
  ok, err, fault, runtime_error, system_error, invalid_argument, out_of_range, ◌>>=◌,
}
use libudjatnetwork.Prelude.Text.{CString, codes}
use libudjatnetwork.SockAddr.{SockAddr, AddressLib, af_inet, af_inet6, af_unspec, zeroed}
use libudjatnetwork.SockAddr.ByteOrder.{ByteOrder, htonl}

pub record SubNet : Type 0 where
  pub addr : SockAddr
  pub bits : ℕ  -- unsigned int

-- The value of a default-constructed object.
abbrev pub no_subnet : SubNet
no_subnet = record { addr = zeroed; bits = 0 }

abbrev pub enotsup : ℤ
enotsup = pos 95

-- netmask >>= 1; netmask |= 0x80000000
unfoldable pub netmask_step : ℕ → ℕ
netmask_step s = bit_or (s / 2) 0x80000000

-- The `for` loop that builds the netmask, `bits` rounds from `s`.
unfoldable pub netmask_loop : ℕ → ℕ → ℕ
netmask_loop zero s = s
netmask_loop (suc n) s = netmask_loop n (netmask_step s)

-- `contains(const sockaddr_in &)`, for the address word `s_addr`.
unfoldable pub contains_in : ByteOrder → SubNet → ℕ → Bool
contains_in o sn s_addr =
    let netmask = htonl o (netmask_loop sn.bits 0) in
    let net = bit_and s_addr netmask in
    let base = bit_and sn.addr.s_addr netmask in
    if sn.addr.ss_family == af_inet then (base == net) && (bit_or base net == net) else false

-- `contains(const sockaddr_in6 &)`
unfoldable pub contains_in6 : Result Bool
contains_in6 = err (system_error enotsup)

-- `contains(const sockaddr_storage &)`; `empty()` is that of `IP::Address`.
unfoldable pub contains : AddressLib → ByteOrder → SubNet → SockAddr → Result Bool
unfolding contains_in contains_in6
contains lib o sn a =
    if a.ss_family == af_unspec
    then ok (lib.empty sn.addr)
    else if a.ss_family == af_inet
    then ok (contains_in o sn a.s_addr)
    else if a.ss_family == af_inet6
    then contains_in6
    else err (system_error enotsup)

-- `strchr(subnet,'/')`: the text before the first slash and the text behind it.
unfoldable pub split_slash : CString → Option (CString × CString)
split_slash [] = none
split_slash (c ∷ cs) = elim (c == b'/') [
  | true ↦ some ([], cs)
  | false ↦ elim (split_slash cs) [ none ↦ none | some (x, y) ↦ some (c ∷ x, y) ]
]

abbrev is_digit : ℕ → Bool
is_digit c = leb 48 c && leb c 57

-- `isspace` in the C locale.
abbrev is_space : ℕ → Bool
is_space c = (c == 32) || (leb 9 c && leb c 13)

-- The digits of `strtol` up to the first other byte; the flag says that there was one.
digits_loop : ℕ → Bool → CString → ℕ × Bool
digits_loop acc seen [] = (acc, seen)
digits_loop acc seen (c ∷ cs) =
    let rest = digits_loop (acc * 10 + (c - 48)) true cs in if is_digit c then rest else (acc, seen)

-- The range check of `std::stoi` on a positive or a negated magnitude.
to_int : Bool → ℕ × Bool → Result ℤ
to_int negated (n, false) = err invalid_argument
to_int false (n, true) = if ltb n 2147483648 then ok (pos n) else err out_of_range
to_int true (zero, true) = ok (pos 0)
to_int true (suc n, true) = if ltb n 2147483648 then ok (negsuc n) else err out_of_range

stoi_sign : CString → Result ℤ
unfolding digits_loop to_int
stoi_sign [] = err invalid_argument
stoi_sign (c ∷ cs) =
    if c == b'-'
    then to_int true (digits_loop 0 false cs)
    else if c == b'+'
    then to_int false (digits_loop 0 false cs)
    else to_int false (digits_loop 0 false (c ∷ cs))

-- `std::stoi`
unfoldable pub stoi : CString → Result ℤ
unfolding stoi_sign
stoi [] = err invalid_argument
stoi (c ∷ cs) = let rest = stoi cs in if is_space c then rest else stoi_sign (c ∷ cs)

-- The conversion from `int` to `unsigned int`.
abbrev pub to_unsigned : ℤ → ℕ
to_unsigned (pos n) = n
to_unsigned (negsuc n) = 4294967295 - n

-- `set(const char *)`
unfoldable pub set : AddressLib → CString → Result SubNet
set lib subnet = elim (split_slash subnet) [
  | none ↦ err (runtime_error "Subnet should be in the format addr/mask")
  | some (ip, mask) ↦
      stoi mask >>= λ bits. lib.parse ip >>= λ a. ok (record { addr = a; bits = to_unsigned bits })
]

-- `std::to_string(unsigned int)`, on fuel: ten digits are enough.
unfoldable pub decimal : ℕ → ℕ → CString
decimal zero n = []
decimal (suc f) n =
    let front = decimal f (n / 10) in
    if ltb n 10 then (48 + n) ∷ [] else front ++ (48 + n % 10) ∷ []

-- `to_string()`
unfoldable pub to_string : AddressLib → SubNet → CString
to_string lib sn =
    if sn.addr.ss_family == af_unspec
    then codes "None"
    else lib.print sn.addr ++ (b'/' ∷ decimal 10 sn.bits)

-- An entry of `getifaddrs`.
pub record IfAddr : Type 0 where
  pub ifa_addr : Option SockAddr
  pub ifa_netmask : Option SockAddr

-- The loop that counts the bits of a netmask in a 64-bit `unsigned long`, on fuel.
unfoldable pub count_bits : ℕ → ℕ → ℕ → Option ℕ
count_bits zero s bits = none
count_bits (suc f) s bits =
    let rest =
      count_bits f (s * 2 % 2 ^ 64)
        (if bit_and s 0x80000000 == 0 then bits else (bits + 1) % 2 ^ 32) in
    if s == 0 then some bits else rest

-- The subnet of an `AF_INET` interface, or `none` where the loop skips it. 65 rounds are enough.
inet_subnet : AddressLib → ByteOrder → SockAddr → SockAddr → Result (Option SubNet)
inet_subnet lib o a m =
    if a.ss_family == af_inet
    then elim (count_bits 65 (htonl o m.s_addr) 0) [
      | none ↦ fault
      | some n ↦ ok (some (record { addr = lib.assign a; bits = n }))
    ]
    else ok none

unfoldable pub interface_subnet :
    AddressLib → ByteOrder → Option SockAddr → Option SockAddr → Result (Option SubNet)
unfolding inet_subnet
interface_subnet lib o (some a) (some m) = inet_subnet lib o a m
interface_subnet lib o _ _ = ok none

module _ {ℓ} {S : Type ℓ} (lib : AddressLib) (o : ByteOrder)
    (method : SubNet → S → Result (Bool × S)) where
  -- The loop of `for_each` over the interfaces; `s` is what the callback changes.
  unfoldable pub for_each_loop : List IfAddr → S → Result (Bool × S)
  for_each_loop [] s = ok (false, s)
  for_each_loop (i ∷ is') s = interface_subnet lib o i.ifa_addr i.ifa_netmask >>= λ found.
      elim found [
        | none ↦ for_each_loop is' s
        | some sn ↦
            method sn s >>= λ r. elim r.0 [ true ↦ ok (true, r.1) | false ↦ for_each_loop is' r.1 ]
      ]

-- `for_each`: `err errno` is a failed `getifaddrs`.
unfoldable pub for_each {ℓ} :
    {S : Type ℓ}
    → AddressLib
    → ByteOrder
    → Result (List IfAddr)
    → (SubNet → S → Result (Bool × S))
    → S
    → Result (Bool × S)
unfolding for_each_loop
for_each lib o ifaces method s = ifaces >>= λ l. for_each_loop lib o method l s
