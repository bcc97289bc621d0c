-- ===== src/Prelude/Bits.antt =====
-- Facts about `bit_and` and `bit_or` at variables.
use Prim.Native.Nat.{
  ℕ, zero, suc, ◌+◌, ◌-◌, ◌*◌, ◌/◌, ◌%◌, ◌^◌, ◌≤◌, ◌<◌, min, max, bit_and, bit_or, digits,
  bit_and-bitwise, bit_or-bitwise,
}
use mathlib.Core.Path.{◌≡◌, refl, sym, ap, ap₂, ◌∙◌}
use mathlib.Core.Bool.{Bool, true, ◌&&◌}
use native.Mathlib.Omega.{arith}
use native.Mathlib.Nat.{div-div-eq-div-mul, pow-succ', one-le-pow, mod-lt, mod-add-div}

-- Whether a test holds of every number below a bound, by evaluation.
unfoldable pub every_below : (ℕ → Bool) → ℕ → Bool
every_below test zero = true
every_below test (suc bound) = every_below test bound && test bound

pub every_below_at :
    (test : ℕ → Bool) (bound i : ℕ) → i < bound → every_below test bound ≡ true → test i ≡ true
unfolding every_below
every_below_at test zero i below holds = absurd (omega arith)
every_below_at test (suc bound) i below holds = ground (arith, every_below_at test bound i)

-- The digits of a number that has run out, and the count of digits beyond those of the number.
module _ (last : ℕ → ℕ) (op : ℕ → ℕ → ℕ) where
  digits-zero : (count b : ℕ) → digits last op count zero b ≡ last b
  digits-zero zero b = refl
  digits-zero (suc count) b = refl

  digits_stable : (a b i j : ℕ) → a ≤ i → a ≤ j → digits last op i a b ≡ digits last op j a b
  digits_stable zero b i j left right = digits-zero i b ∙ sym (digits-zero j b)
  digits_stable (suc a) b zero j left right = absurd (omega arith)
  digits_stable (suc a) b (suc i) zero left right = absurd (omega arith)
  digits_stable (suc a) b (suc i) (suc j) left right =
      ap (λ high. high * 2 + op (suc a % 2) (b % 2))
        (digits_stable (suc a / 2) (b / 2) i j (omega arith) (omega arith))

pub zero-bit_and : (b : ℕ) → bit_and 0 b ≡ 0
zero-bit_and = bit_and-bitwise 0

-- The lowest digit of `bit_and`, and the digits above it.
pub bit_and_step : (a b : ℕ) → bit_and a b ≡ bit_and (a / 2) (b / 2) * 2 + min (a % 2) (b % 2)
bit_and_step zero b =
    let low = zero-bit_and b in let high = zero-bit_and (b / 2) in omega (arith, low, high)
bit_and_step (suc a) b =
    let half : ℕ = suc a / 2 in
    let enough : half ≤ a = omega arith in
    let stable = digits_stable (λ d. zero) min half (b / 2) a half enough (omega arith) in
    let whole = bit_and-bitwise (suc a) b in
    let upper = bit_and-bitwise half (b / 2) in omega (arith, whole, upper, stable)

digits-min : (count a : ℕ) → digits (λ d. zero) min count a 0 ≡ 0
digits-min zero a = refl
digits-min (suc count) zero = refl
digits-min (suc count) (suc a) = omega (arith, digits-min count (suc a / 2))

pub bit_and-zero : (a : ℕ) → bit_and a 0 ≡ 0
bit_and-zero a = bit_and-bitwise a 0 ∙ digits-min a a

-- The law for the lowest digit of `bit_or`, at equal arguments.
abbrev or_digits : ℕ → ℕ → ℕ → ℕ
or_digits n a b = digits (λ b. b) max n a b

or_digits_self : (n a : ℕ) → a ≤ n → or_digits n a a ≡ a
or_digits_self zero zero p = refl
or_digits_self zero (suc a) p = absurd (omega arith)
or_digits_self (suc n) zero p = refl
or_digits_self (suc n) (suc a) p = omega (arith, or_digits_self n (suc a / 2) (omega arith))

pub bit_or_self : (a : ℕ) → bit_or a a ≡ a
bit_or_self a = bit_or-bitwise a a ∙ or_digits_self a a (omega arith)

pow_mul : (k y : ℕ) → 2 ^ suc k * y ≡ 2 * (2 ^ k * y)
pow_mul k y = grind (arith, pow-succ' 2 k)

half-add_pow : (k x y : ℕ) → (x + 2 ^ suc k * y) / 2 ≡ x / 2 + 2 ^ k * y
half-add_pow k x y = omega (arith, pow_mul k y)

parity-add_pow : (k x y : ℕ) → (x + 2 ^ suc k * y) % 2 ≡ x % 2
parity-add_pow k x y = omega (arith, pow_mul k y)

-- `bit_and` works on the low k bits and on the rest apart.
pub bit_and_split :
    (k x y u v : ℕ)
    → x < 2 ^ k
    → u < 2 ^ k
    → bit_and (x + 2 ^ k * y) (u + 2 ^ k * v) ≡ bit_and x u + 2 ^ k * bit_and y v
bit_and_split zero x y u v p q = split_zero x y u v (omega arith) (omega arith)
  where
    split_zero :
        (x y u v : ℕ)
        → x ≡ 0
        → u ≡ 0
        → bit_and (x + 1 * y) (u + 1 * v) ≡ bit_and x u + 1 * bit_and y v
    split_zero x y u v a b = rw (a, b) (rw (one_mul y, one_mul v) (omega arith))
      where
        one_mul : (n : ℕ) → 0 + 1 * n ≡ n
        one_mul n = omega arith
bit_and_split (suc k) x y u v p q =
    let low : x / 2 < 2 ^ k = omega (arith, pow-succ' 2 k) in
    let low' : u / 2 < 2 ^ k = omega (arith, pow-succ' 2 k) in
    rw bit_and_step (
      rw (half-add_pow k x y, half-add_pow k u v, parity-add_pow k x y, parity-add_pow k u v)
        (omega (
          arith,
          bit_and_split k (x / 2) y (u / 2) v low low',
          bit_and_step x u,
          pow_mul k (bit_and y v),
        )))

bit_and_ones : (j y : ℕ) → y < 2 ^ j → bit_and y (2 ^ j - 1) ≡ y
bit_and_ones zero y h = omega (arith, bit_and-zero y)
bit_and_ones (suc j) y h =
    let pos : 1 ≤ 2 ^ j = one-le-pow j 2 (omega arith) in
    let half : (2 ^ suc j - 1) / 2 ≡ 2 ^ j - 1 = omega (arith, pow-succ' 2 j) in
    let odd : (2 ^ suc j - 1) % 2 ≡ 1 = omega (arith, pow-succ' 2 j) in
    rw bit_and_step
      (rw (half, odd) (omega (arith, bit_and_ones j (y / 2) (omega (arith, pow-succ' 2 j)))))

-- A mask of j ones over k zeros keeps the upper j of j + k bits.
pub bit_and_prefix :
    (j k a : ℕ) → a / 2 ^ k < 2 ^ j → bit_and a (2 ^ k * (2 ^ j - 1)) ≡ 2 ^ k * (a / 2 ^ k)
bit_and_prefix j k a h =
    let pos : 1 ≤ 2 ^ k = one-le-pow k 2 (omega arith) in
    let parts : a ≡ a % 2 ^ k + 2 ^ k * (a / 2 ^ k) = sym (mod-add-div a (2 ^ k)) in
    let mask : 2 ^ k * (2 ^ j - 1) ≡ 0 + 2 ^ k * (2 ^ j - 1) = omega arith in
    ap₂ bit_and parts mask
    ∙ (bit_and_split k (a % 2 ^ k) (a / 2 ^ k) 0 (2 ^ j - 1) (mod-lt a pos) pos
        ∙ rw (bit_and-zero (a % 2 ^ k), bit_and_ones j (a / 2 ^ k) h) (omega arith))

pub bit_and-one : (y : ℕ) → bit_and y 1 ≡ y % 2
bit_and-one y = omega (arith, bit_and_step y 1, bit_and-zero (y / 2))

-- A mask of one bit.
pub bit_and-power : (k a : ℕ) → bit_and a (2 ^ k) ≡ 2 ^ k * (a / 2 ^ k % 2)
bit_and-power k a =
    let pos : 1 ≤ 2 ^ k = one-le-pow k 2 (omega arith) in
    let parts : a ≡ a % 2 ^ k + 2 ^ k * (a / 2 ^ k) = sym (mod-add-div a (2 ^ k)) in
    let mask : 2 ^ k ≡ 0 + 2 ^ k * 1 = omega arith in
    ap₂ bit_and parts mask
    ∙ (bit_and_split k (a % 2 ^ k) (a / 2 ^ k) 0 1 (mod-lt a pos) pos
        ∙ rw (bit_and-zero (a % 2 ^ k), bit_and-one (a / 2 ^ k)) (omega arith))

-- The low bits of a number, one bit more at a time.
pub mod_power_step : (k a : ℕ) → a % 2 ^ suc k ≡ a % 2 ^ k + 2 ^ k * (a / 2 ^ k % 2)
mod_power_step k a =
    let q = a / 2 ^ k in
    let upper : q / 2 ≡ a / 2 ^ suc k =
      div-div-eq-div-mul a (2 ^ k) 2 ∙ ap (λ m. a / m) (omega (arith, pow-succ' 2 k)) in
    let digits : q ≡ 2 * (a / 2 ^ suc k) + q % 2 = omega (arith, upper) in
    omega (
      arith,
      mod-add-div a (2 ^ k),
      mod-add-div a (2 ^ suc k),
      ap (λ m. 2 ^ k * m) digits,
      pow_mul k (a / 2 ^ suc k),
    )
