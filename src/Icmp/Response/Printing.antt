-- ===== src/Icmp/Response/Printing.antt =====
-- Every value of the enum's type, printed and read back.
use libudjatnetwork.Prelude.{ℕ, zero, suc, ◌<◌, ◌≡◌, ◌≢◌, refl, true, Result, ok, err, fault, arith}
use libudjatnetwork.Prelude.Text.{CString, codes, same_text}
use libudjatnetwork.Icmp.Response.{
  Response, invalid, echo_reply, destination_unreachable, time_exceeded, timeout,
  network_unreachable, code, response_factory, to_string, response_factory-name,
}

-- What printing the value `r` gives: at 6 it is undefined, above 6 it is the word "invalid", and below
-- it is a name from which the factory reads `r`, in any case of letters.
abbrev pub Prints : ℕ → Result CString → Type 0
Prints r (ok name) =
    (r ≢ 6)
    × (6 < r → name ≡ codes "invalid")
    × (r < 6 → (text : CString) → same_text text name ≡ true → response_factory text ≡ ok r)
Prints r (err e) = ⊥
Prints r fault = r ≡ 6

of_response :
    (r : Response) (name : CString)
    → to_string (code r) ≡ ok name
    → code r < 6
    → Prints (code r) (ok name)
of_response r name e l = (
  (λ six. absurd (omega (arith, six, l))),
  (λ above. absurd (omega (arith, above, l))),
  (λ below text h. response_factory-name r name text e h),
)

above_last : (r : ℕ) → 6 < r → to_string r ≡ ok (codes "invalid")
unfolding to_string
above_last r l = ground (arith, l)

-- For every value of the enum's type: printing is undefined exactly at 6, the value one past the last
-- response; it gives "invalid" above 6; and below 6 it gives a name that the factory reads back as the
-- value, in any case of letters.
pub to_string-Prints : (r : ℕ) → Prints r (to_string r)
unfolding to_string
to_string-Prints zero = of_response invalid _ refl (omega arith)
to_string-Prints (suc zero) = of_response echo_reply _ refl (omega arith)
to_string-Prints (suc (suc zero)) = of_response destination_unreachable _ refl (omega arith)
to_string-Prints (suc (suc (suc zero))) = of_response time_exceeded _ refl (omega arith)
to_string-Prints (suc (suc (suc (suc zero)))) = of_response timeout _ refl (omega arith)
to_string-Prints (suc (suc (suc (suc (suc zero))))) =
    of_response network_unreachable _ refl (omega arith)
to_string-Prints (suc (suc (suc (suc (suc (suc zero)))))) = refl
to_string-Prints (suc (suc (suc (suc (suc (suc (suc r))))))) =
    let n = suc (suc (suc (suc (suc (suc (suc r)))))) in
    rw (above_last n (omega arith)) (
      (λ six. absurd (omega (arith, six))),
      (λ above. refl),
      (λ below. absurd (omega (arith, below))),
    )
