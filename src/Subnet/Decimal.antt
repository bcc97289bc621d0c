-- ===== src/Subnet/Decimal.antt =====
-- `std::stoi` reads back what `std::to_string` prints.
use libudjatnetwork.Prelude.{
  ℕ, zero, suc, ◌+◌, ◌-◌, ◌*◌, ◌/◌, ◌%◌, ◌^◌, ◌≤◌, ◌<◌, ◌≡◌, sym, ap, ◌∙◌, inl, inr, [], ◌∷◌, ◌++◌,
  Bool, true, false, ◌==◌, Bool-cases, ltb, arith, ok, pos,
}
use libudjatnetwork.Prelude.Text.{CString}
use libudjatnetwork.Subnet.{digits_loop, to_int, stoi, decimal, is_digit, is_space}
use mathlib.Core.List.{append_assoc, append-nil}
use native.Mathlib.Nat.{pow-succ'}

-- What `isdigit` says of the first byte.
abbrev StartsWithDigit : CString → Type 0
StartsWithDigit [] = ⊥
StartsWithDigit (c ∷ cs) = is_digit c ≡ true

StartsWithDigit-append : (xs ys : CString) → StartsWithDigit xs → StartsWithDigit (xs ++ ys)
StartsWithDigit-append [] ys h = absurd h
StartsWithDigit-append (c ∷ cs) ys h = h

decimal-low : (f n : ℕ) → n < 10 → decimal (suc f) n ≡ (48 + n) ∷ []
unfolding decimal
decimal-low f n h = ground arith

decimal-high : (f n : ℕ) → 10 ≤ n → decimal (suc f) n ≡ decimal f (n / 10) ++ (48 + n % 10) ∷ []
unfolding decimal
decimal-high f n h = ground arith

tenth_lt : (f n : ℕ) → n < 10 ^ suc (suc f) → n / 10 < 10 ^ suc f
tenth_lt f n h = omega (arith, pow-succ' 10 (suc f))

decimal-StartsWithDigit : (f n : ℕ) → n < 10 ^ suc f → StartsWithDigit (decimal (suc f) n)
decimal-StartsWithDigit zero n h = rw (decimal-low 0 n (omega arith)) (ground arith)
decimal-StartsWithDigit (suc f) n h = elim (Bool-cases (ltb n 10)) [
  | inl low ↦ rw (decimal-low (suc f) n (ground arith)) (ground arith)
  | inr high ↦ rw (decimal-high (suc f) n (ground arith)) (
      StartsWithDigit-append (decimal (suc f) (n / 10)) _
        (decimal-StartsWithDigit f (n / 10) (tenth_lt f n h)))
]

digits_loop-digit :
    (acc d : ℕ) (seen : Bool) (rest : CString)
    → d < 10
    → digits_loop acc seen ((48 + d) ∷ rest) ≡ digits_loop (acc * 10 + d) true rest
unfolding digits_loop
digits_loop-digit acc d seen rest h =
    let digit : is_digit (48 + d) ≡ true = ground arith in
    let value : 48 + d - 48 ≡ d = omega arith in rw (digit, value)

digits_loop-first :
    (n : ℕ) (seen : Bool) (rest : CString)
    → n < 10
    → digits_loop 0 seen ((48 + n) ∷ rest) ≡ digits_loop n true rest
digits_loop-first n seen rest h =
    let e : 0 * 10 + n ≡ n = omega arith in
    digits_loop-digit 0 n seen rest h ∙ ap (λ k. digits_loop k true rest) e

digits_loop-decimal :
    (f n : ℕ) (seen : Bool) (rest : CString)
    → n < 10 ^ suc f
    → digits_loop 0 seen (decimal (suc f) n ++ rest) ≡ digits_loop n true rest
digits_loop-decimal zero n seen rest h =
    rw (decimal-low 0 n (omega arith)) (digits_loop-first n seen rest (omega arith))
digits_loop-decimal (suc f) n seen rest h = elim (Bool-cases (ltb n 10)) [
  | inl low ↦
      rw (decimal-low (suc f) n (ground arith)) (digits_loop-first n seen rest (ground arith))
  | inr high ↦
      let sum : n / 10 * 10 + n % 10 ≡ n = omega arith in
      rw (decimal-high (suc f) n (ground arith), append_assoc)
        (digits_loop-decimal f (n / 10) seen ((48 + n % 10) ∷ rest) (tenth_lt f n h)
          ∙ (digits_loop-digit (n / 10) (n % 10) true rest (omega arith)
              ∙ ap (λ k. digits_loop k true rest) sum))
]

stoi-StartsWithDigit :
    (xs : CString) → StartsWithDigit xs → stoi xs ≡ to_int false (digits_loop 0 false xs)
unfolding stoi
stoi-StartsWithDigit [] h = absurd h
stoi-StartsWithDigit (c ∷ cs) h =
    let no_space : is_space c ≡ false = ground arith in
    let no_minus : (c == b'-') ≡ false = ground arith in
    let no_plus : (c == b'+') ≡ false = ground arith in rw (no_space, no_minus, no_plus)

-- Ten digits carry every `unsigned int`; `stoi` reads those below 2^31.
pub stoi-decimal : (n : ℕ) → n < 2 ^ 31 → stoi (decimal 10 n) ≡ ok (pos n)
unfolding to_int digits_loop
stoi-decimal n h =
    let small : n < 10 ^ 10 = omega arith in
    let range : ltb n 2147483648 ≡ true = ground arith in
    stoi-StartsWithDigit (decimal 10 n) (decimal-StartsWithDigit 9 n small)
    ∙ (ap (to_int false) (
          ap (digits_loop 0 false) (sym (append-nil (decimal 10 n)))
          ∙ digits_loop-decimal 9 n false [] small)
        ∙ ended n range)
  where
    ended : (n : ℕ) → ltb n 2147483648 ≡ true → to_int false (digits_loop n true []) ≡ ok (pos n)
    ended n range = rw range
