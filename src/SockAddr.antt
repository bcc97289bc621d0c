-- ===== src/SockAddr.antt =====
-- The socket addresses that the library reads: `sockaddr_storage` with its `sockaddr_in` view, the
-- byte order of the host, and the interface of the class `IP::Address`, which lies in another
-- package (udjat/net/ip/address.h of libudjat).
pub mod ByteOrder
use libudjatnetwork.Prelude.{ℕ, Bool, Result}
use libudjatnetwork.Prelude.Text.{CString}

-- `AF_UNSPEC`, `AF_INET` and `AF_INET6` on Linux.
abbrev pub af_unspec : ℕ
af_unspec = 0

abbrev pub af_inet : ℕ
af_inet = 2

abbrev pub af_inet6 : ℕ
af_inet6 = 10

-- `s_addr` is the 32-bit `sin_addr.s_addr` of the `sockaddr_in` view, as the host reads it.
pub record SockAddr : Type 0 where
  pub ss_family : ℕ
  pub s_addr : ℕ

-- What `memset(&addr,0,sizeof(addr))` leaves.
abbrev pub zeroed : SockAddr
zeroed = record { ss_family = 0; s_addr = 0 }

-- The operations of `IP::Address` that the source calls: `empty`, `set` from a text, `std::to_string`, `equal`, `clear` and `set` from a socket address.
pub record AddressLib : Type 0 where
  pub empty : SockAddr → Bool
  pub parse : CString → Result SockAddr
  pub print : SockAddr → CString
  pub equal : SockAddr → SockAddr → Bool
  pub cleared : SockAddr
  pub assign : SockAddr → SockAddr
