-- ===== src/Subnet/Text.antt =====
-- A subnet read back from its text, `addr/bits`.
use libudjatnetwork.Prelude.{
  ◌^◌, ◌<◌, ◌≡◌, ◌≢◌, refl, [], ◌∷◌, ◌++◌, false, ◌==◌, some, arith, ok, ◌>>=◌,
}
use libudjatnetwork.Prelude.Text.{CString}
use libudjatnetwork.SockAddr.{AddressLib, af_unspec}
use libudjatnetwork.Subnet.{SubNet, split_slash, set, to_string, decimal}
use libudjatnetwork.Subnet.Decimal.{stoi-decimal}

abbrev pub HasNoSlash : CString → Type 0
HasNoSlash [] = Unit
HasNoSlash (c ∷ cs) = (c ≢ b'/') × HasNoSlash cs

split_slash-append :
    (xs ys : CString) → HasNoSlash xs → split_slash (xs ++ (b'/' ∷ ys)) ≡ some (xs, ys)
unfolding split_slash
split_slash-append [] ys h = refl
split_slash-append (c ∷ cs) ys h = ground (arith, split_slash-append cs ys h.1)

module _ (lib : AddressLib) (sn : SubNet) (no_slash : HasNoSlash (lib.print sn.addr))
    (reads_back : lib.parse (lib.print sn.addr) ≡ ok sn.addr) where
  -- With an address text that holds no slash and that the address parser reads back, the text of
  -- a subnet with a non-zero address family and a prefix length below 2^31 reads back as the same
  -- subnet.
  pub set-to_string :
      sn.addr.ss_family ≢ af_unspec → sn.bits < 2 ^ 31 → set lib (to_string lib sn) ≡ ok sn
  unfolding set to_string
  set-to_string f h =
      let family : (sn.addr.ss_family == af_unspec) ≡ false = ground arith in
      rw family (
        rw (split_slash-append (lib.print sn.addr) (decimal 10 sn.bits) no_slash, set)
          (rw (stoi-decimal sn.bits h, ◌>>=◌) (rw (reads_back, ◌>>=◌) refl)))
