-- ===== src/Subnet/Prefix.antt =====
-- The prefix length that `for_each` computes from an interface's netmask.
use libudjatnetwork.Prelude.{
  ℕ, zero, suc, ◌+◌, ◌*◌, ◌/◌, ◌%◌, ◌^◌, ◌≤◌, ◌<◌, bit_and, ◌≡◌, refl, sym, ap, ◌∙◌, inl, inr, some,
  ◌==◌, ==_iff, Bool-cases, ltb, ltb→lt, if◌then◌else◌, arith, true, false,
}
use libudjatnetwork.Prelude.Bits.{every_below, every_below_at, bit_and-power}
use libudjatnetwork.Subnet.{netmask_step, netmask_loop, count_bits}
use native.Mathlib.Nat.{pow-succ', mod-add-div, div-div-eq-div-mul, add-mul-mod_self_left}

-- How many of the lowest k bits are set.
unfoldable pub popcount : ℕ → ℕ → ℕ
popcount zero x = 0
popcount (suc k) x = x % 2 + popcount k (x / 2)

half-pow : (k x : ℕ) → x / 2 / 2 ^ k ≡ x / 2 ^ suc k
half-pow k x = div-div-eq-div-mul x 2 (2 ^ k) ∙ ap (λ (t : ℕ). x / t) (sym (pow-succ' 2 k))

popcount-suc : (k x : ℕ) → popcount (suc k) x ≡ popcount k x + x / 2 ^ k % 2
unfolding popcount
popcount-suc zero x = omega arith
popcount-suc (suc k) x = omega (arith, popcount-suc k (x / 2), ap (λ (t : ℕ). t % 2) (half-pow k x))

halved : (m x : ℕ) → m * (x / 2 / m) ≡ m * (x / (2 * m))
halved m x = ap (λ (t : ℕ). m * t) (div-div-eq-div-mul x 2 m)

half-mod : (m x : ℕ) → x % (2 * m) / 2 ≡ x / 2 % m
half-mod m x = omega (arith, mod-add-div x (2 * m), mod-add-div (x / 2) m, halved m x)

parity-mod : (m x : ℕ) → x % (2 * m) % 2 ≡ x % 2
parity-mod m x = omega (arith, mod-add-div x (2 * m))

popcount-mod : (k m x : ℕ) → popcount k (x % (2 ^ k * m)) ≡ popcount k x
unfolding popcount
popcount-mod zero m x = refl
popcount-mod (suc k) m x =
    let twice : 2 ^ suc k * m ≡ 2 * (2 ^ k * m) = grind (arith, pow-succ' 2 k) in
    rw (twice, parity-mod (2 ^ k * m) x, half-mod (2 ^ k * m) x)
      (ap (λ (t : ℕ). x % 2 + t) (popcount-mod k m (x / 2)))

popcount-le : (k x : ℕ) → popcount k x ≤ k
unfolding popcount
popcount-le zero x = omega arith
popcount-le (suc k) x = omega (arith, popcount-le k (x / 2))

popcount-zero : (k : ℕ) → popcount k 0 ≡ 0
unfolding popcount
popcount-zero zero = refl
popcount-zero (suc k) = omega (arith, popcount-zero k)

popcount-twice : (k x : ℕ) → popcount (suc k) (x * 2) ≡ popcount k x
unfolding popcount
popcount-twice k x =
    let half : x * 2 / 2 ≡ x = omega arith in
    let even : x * 2 % 2 ≡ 0 = omega arith in rw (half, even) (omega arith)

-- A shift in 64 bits takes the top one of the lower 32 bits out of the count.
popcount-shift : (s : ℕ) → popcount 32 s ≡ popcount 32 (s * 2 % 2 ^ 64) + s / 2 ^ 31 % 2
popcount-shift s =
    popcount-suc 31 s
    ∙ ap (λ (t : ℕ). t + s / 2 ^ 31 % 2)
        (sym (popcount-mod 32 (2 ^ 32) (s * 2) ∙ popcount-twice 31 s))

-- The test `s & 0x80000000`.
bit_and-sign : (s : ℕ) → bit_and s 0x80000000 ≡ 2 ^ 31 * (s / 2 ^ 31 % 2)
bit_and-sign = bit_and-power 31

shift_ends : (f s : ℕ) → s * 2 ^ suc f % 2 ^ 64 ≡ 0 → s * 2 % 2 ^ 64 * 2 ^ f % 2 ^ 64 ≡ 0
shift_ends f s h =
    let r = s * 2 % 2 ^ 64 in
    let q = s * 2 / 2 ^ 64 in
    let parts : s * 2 ≡ r + 2 ^ 64 * q = omega arith in
    let whole : s * 2 ^ suc f ≡ r * 2 ^ f + 2 ^ 64 * (q * 2 ^ f) =
      omega (arith, ap (λ (t : ℕ). t * 2 ^ f) parts, ap (λ (t : ℕ). s * t) (pow-succ' 2 f)) in
    sym (add-mul-mod_self_left (r * 2 ^ f) (2 ^ 64) (q * 2 ^ f)) ∙ rw (← whole) h

next_bits :
    (s b : ℕ)
    → b + popcount 32 s < 2 ^ 32
    → (if bit_and s 0x80000000 == 0 then b else (b + 1) % 2 ^ 32) ≡ b + s / 2 ^ 31 % 2
next_bits s b l = rw (bit_and-sign s) (ground (arith, popcount-shift s))

count_bits-zero : (f b : ℕ) → count_bits (suc f) 0 b ≡ some b
unfolding count_bits
count_bits-zero f b = refl

count_bits_step :
    (f s b : ℕ)
    → (s == 0) ≡ false
    → count_bits (suc f) s b
      ≡ count_bits f (s * 2 % 2 ^ 64) (if bit_and s 0x80000000 == 0 then b else (b + 1) % 2 ^ 32)
unfolding count_bits
count_bits_step f s b e = rw e

count_bits-at_zero : (f s b : ℕ) → s ≡ 0 → count_bits (suc f) s b ≡ some (b + popcount 32 s)
count_bits-at_zero f s b z = rw z (count_bits-zero f b ∙ ap some (omega (arith, popcount-zero 32)))

count_bits_lem :
    (f s b : ℕ)
    → s < 2 ^ 64
    → s * 2 ^ f % 2 ^ 64 ≡ 0
    → b + popcount 32 s < 2 ^ 32
    → count_bits (suc f) s b ≡ some (b + popcount 32 s)
count_bits_lem zero s b h e l = count_bits-at_zero 0 s b (omega arith)
count_bits_lem (suc f) s b h e l = elim (Bool-cases (s == 0)) [
  | inl z ↦ count_bits-at_zero (suc f) s b ((==_iff s 0).0 z)
  | inr more ↦
      let sum : b + s / 2 ^ 31 % 2 + popcount 32 (s * 2 % 2 ^ 64) ≡ b + popcount 32 s =
        omega (arith, popcount-shift s) in
      count_bits_step (suc f) s b more
      ∙ (ap (count_bits (suc f) (s * 2 % 2 ^ 64)) (next_bits s b l)
          ∙ (count_bits_lem f (s * 2 % 2 ^ 64) (b + s / 2 ^ 31 % 2) (omega arith) (shift_ends f s e)
                (omega arith)
              ∙ ap some sum))
]

-- The loop of `for_each` ends within 65 rounds on every 32-bit netmask, and its result is the
-- number of bits that are set in the netmask.
pub count_bits-popcount : (s : ℕ) → s < 2 ^ 32 → count_bits 65 s 0 ≡ some (popcount 32 s)
count_bits-popcount s h =
    count_bits_lem 64 s 0 (omega arith) (omega arith) (omega (arith, popcount-le 32 s))
    ∙ ap some (omega arith)

prefix_table : every_below (λ n. popcount 32 (netmask_loop n 0) == n) 33 ≡ true
unfolding every_below netmask_loop netmask_step popcount
prefix_table = refl

netmask_table : every_below (λ n. ltb (netmask_loop n 0) (2 ^ 32)) 33 ≡ true
unfolding every_below netmask_loop netmask_step
netmask_table = refl

-- For every prefix length up to 32, `for_each` reads back the number of bits from the netmask
-- that `contains` builds for that length.
pub count_bits-netmask_loop : (n : ℕ) → n ≤ 32 → count_bits 65 (netmask_loop n 0) 0 ≡ some n
count_bits-netmask_loop n h =
    count_bits-popcount (netmask_loop n 0)
      (ltb→lt _ _ (every_below_at _ 33 n (omega arith) netmask_table))
    ∙ ap some ((==_iff _ _).0 (every_below_at _ 33 n (omega arith) prefix_table))
