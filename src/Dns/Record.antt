-- ===== src/Dns/Record.antt =====
-- `DNS::Record`: library/dns/linux/record.cc. The sections of an answer are what `ns_parserr` finds.
use libudjatnetwork.Prelude.{
  ℕ, Bool, ◌||◌, Option, none, some, [], ◌==◌, if◌then◌else◌, Result, ok, err, fault, Error,
}
use libudjatnetwork.Prelude.Text.{CString}
use libudjatnetwork.SockAddr.{SockAddr, AddressLib, zeroed, af_inet}

-- `ns_rr`, with the first four bytes of its data as the host reads them and what `dn_expand` makes
-- of the data.
pub record Rr : Type 0 where
  pub name : CString
  pub type : ℕ
  pub rr_class : ℕ
  pub ttl : ℕ
  pub rdlength : ℕ
  pub rdata_word : ℕ
  pub expanded : Option CString

pub record Record : Type 0 where
  pub ttl : ℕ
  pub name : CString
  pub type : ℕ
  pub cls : ℕ
  pub addr : SockAddr
  pub value : CString

-- The cases of the constructor's `switch` with a domain name: CNAME, MB, MG, MR, NS, PTR, DNAME.
unfoldable pub is_name_type : ℕ → Bool
is_name_type t =
    (t == 5) || ((t == 7) || ((t == 8) || ((t == 9) || ((t == 2) || ((t == 12) || (t == 39))))))

-- `getValue` for an address.
unfoldable pub address_value : Rr → Result SockAddr
address_value rr =
    if rr.rdlength == 4
    then ok (record { ss_family = af_inet; s_addr = rr.rdata_word })
    else err (Error.runtime_error "RR format error")

-- `getValue` for a domain name.
unfoldable pub name_value : Rr → Result CString
name_value rr = elim rr.expanded [
  | none ↦ err (Error.runtime_error "DN Expand has failed")
  | some s ↦ ok s
]

abbrev pub plain : Rr → SockAddr → CString → Record
plain rr a v = record {
  ttl = rr.ttl;
  name = rr.name;
  type = rr.type;
  cls = rr.rr_class;
  addr = a;
  value = v;
}

-- The constructor from a section of the answer. The type A is 1.
unfoldable pub record_of : AddressLib → Rr → Result Record
unfolding address_value name_value is_name_type
record_of lib rr =
    if rr.type == 1
    then (elim (address_value rr) [
      | ok a ↦ ok (plain rr a (lib.print a))
      | err e ↦ err e
      | fault ↦ fault
    ])
    else if is_name_type rr.type
    then (elim (name_value rr) [ ok v ↦ ok (plain rr zeroed v) | err e ↦ err e | fault ↦ fault ])
    else ok (plain rr zeroed [])
