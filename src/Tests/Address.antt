-- ===== src/Tests/Address.antt =====
-- Subnets, checksums and the interfaces of the machine.
use libudjatnetwork.Prelude.{◌≡◌, refl, ◌↔◌, ◌++◌, true, false, [], ◌∷◌, some, ok, arith}
use libudjatnetwork.SockAddr.ByteOrder.{little, htonl}
use libudjatnetwork.Subnet.{SubNet, IfAddr, contains_in, netmask_loop, count_bits, to_string}
use libudjatnetwork.Subnet
use libudjatnetwork.Subnet.Contains.{InPrefix, contains_in-InPrefix}
use libudjatnetwork.Subnet.Prefix.{popcount}
use libudjatnetwork.Subnet.Text.{set-to_string}
use libudjatnetwork.IpState.{internal_state, compare_in}
use libudjatnetwork.IpState.Local.{compare_in-home}
use libudjatnetwork.Icmp.Checksum.{in_chksum, short_bytes, in_chksum-verifies}
use libudjatnetwork.Tests.{host_word, net_word, ipv4, addresses}

-- 192.168.0.0/16
abbrev home : SubNet
home = record { addr = ipv4 net_word; bits = 16 }

contains_in-InPrefix_example :
    (contains_in little home host_word ≡ true) ↔ InPrefix little home host_word
contains_in-InPrefix_example =
    contains_in-InPrefix little home host_word (omega arith) (omega arith) refl

home_contains : contains_in little home host_word ≡ true
unfolding contains_in htonl netmask_loop Subnet.netmask_step
home_contains = refl

outside : contains_in little home 16777226 ≡ false
unfolding contains_in htonl netmask_loop Subnet.netmask_step
outside = refl

-- 192.168.1.10/16 as the address library of the tests prints it.
abbrev printed : SubNet
printed = record { addr = ipv4 host_word; bits = 16 }

set-to_string_example : Subnet.set addresses (to_string addresses printed) ≡ ok printed
set-to_string_example =
    set-to_string addresses printed (ground arith) refl (ground arith) (omega arith)

abbrev ethernet : IfAddr
ethernet = record { ifa_addr = some (ipv4 net_word); ifa_netmask = some (ipv4 65535) }

compare_in-home_example :
    compare_in addresses little (ok (ethernet ∷ [])) (internal_state false home) host_word
    ≡ ok (true, internal_state false home)
unfolding contains_in htonl netmask_loop Subnet.netmask_step popcount
compare_in-home_example =
    compare_in-home addresses little (ethernet ∷ []) false home host_word (omega arith, tt)

in_chksum-verifies_example :
    in_chksum little
      (8 ∷ 0 ∷ short_bytes little (in_chksum little (8 ∷ 0 ∷ 0 ∷ 0 ∷ 7 ∷ [])) ++ 7 ∷ [])
    ≡ 0
in_chksum-verifies_example =
    in_chksum-verifies little 8 0 (7 ∷ [])
      (omega arith, (omega arith, (omega arith, (omega arith, (omega arith, tt))))) (omega arith)
