-- ===== src/Icmp/Response.antt =====
-- `ICMP::Response`, `ResponseFactory` and `to_string`: library/icmp/response.cc and
-- include/os/linux/udjat/net/icmp.h.
pub mod Printing
use libudjatnetwork.Prelude.{
  ℕ, zero, suc, ◌+◌, ◌≡◌, ◌↔◌, refl, ap, ◌∙◌, true, Option, none, some, List, [], ◌∷◌, get_elem?,
  ltb, if◌then◌else◌, Result, ok, err, fault, runtime_error, arith,
}
use libudjatnetwork.Prelude.Text.{CString, codes, same_text, same_text-congr}

pub data Response : Type 0 where
  invalid echo_reply destination_unreachable time_exceeded timeout network_unreachable : Response

-- The value of the enum, a `uint8_t`.
abbrev pub code : Response → ℕ
code invalid = 0
code echo_reply = 1
code destination_unreachable = 2
code time_exceeded = 3
code timeout = 4
code network_unreachable = 5

abbrev pub names : List CString
names =
    codes "invalid"
    ∷ codes "echo-reply"
    ∷ codes "destination-unreachable"
    ∷ codes "time-exceeded"
    ∷ codes "timeout"
    ∷ codes "network-unreachable"
    ∷ []

-- The loop of `ResponseFactory` over the names that are left, from index `ix`.
unfoldable pub factory_loop : CString → List CString → ℕ → Option ℕ
factory_loop name [] ix = none
factory_loop name (n ∷ ns) ix =
    let rest = factory_loop name ns (ix + 1) in if same_text name n then some ix else rest

abbrev or_throw : Option ℕ → Result ℕ
or_throw none = err (runtime_error "Invalid ICMP response id")
or_throw (some ix) = ok ix

-- The result is the enum's value.
unfoldable pub response_factory : CString → Result ℕ
response_factory name = or_throw (factory_loop name names 0)

-- `std::to_string(const Response)`, for every value of the underlying type. Reading past the
-- array is undefined.
unfoldable pub to_string : ℕ → Result CString
to_string response =
    if ltb 6 response
    then ok (codes "invalid")
    else elim (get_elem? names response) [ none ↦ fault | some n ↦ ok n ]

factory_loop-congr :
    (a b : CString) (ns : List CString) (ix : ℕ)
    → same_text a b ≡ true
    → factory_loop a ns ix ≡ factory_loop b ns ix
unfolding factory_loop
factory_loop-congr a b [] ix h = refl
factory_loop-congr a b (n ∷ ns) ix h =
    rw (same_text-congr a b n h, factory_loop-congr a b ns (ix + 1) h)

own_name : {a b : CString} → ok a ≡ ok b → a ≡ b
own_name e = cc

response_factory-of_name :
    (r : Response) (name : CString)
    → to_string (code r) ≡ ok name
    → response_factory name ≡ ok (code r)
unfolding to_string response_factory factory_loop same_text
response_factory-of_name invalid name e = rw (← own_name e)
response_factory-of_name echo_reply name e = rw (← own_name e)
response_factory-of_name destination_unreachable name e = rw (← own_name e)
response_factory-of_name time_exceeded name e = rw (← own_name e)
response_factory-of_name timeout name e = rw (← own_name e)
response_factory-of_name network_unreachable name e = rw (← own_name e)

-- For every text and every response, the factory accepts a text that equals the response's name
-- up to the case of letters, and gives that response.
pub response_factory-name :
    (r : Response) (name text : CString)
    → to_string (code r) ≡ ok name
    → same_text text name ≡ true
    → response_factory text ≡ ok (code r)
unfolding to_string response_factory
response_factory-name r name text e h =
    ap or_throw (factory_loop-congr text name names 0 h) ∙ response_factory-of_name r name e
