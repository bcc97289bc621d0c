-- ===== src/Subnet/Contains.antt =====
-- `contains` against the plain meaning of "in the subnet": equal upper bits, in host order.
use libudjatnetwork.Prelude.{
  ℕ, zero, suc, ◌+◌, ◌-◌, ◌*◌, ◌/◌, ◌^◌, ◌≤◌, ◌<◌, min, bit_and, bit_or, ◌≡◌, refl, sym, ap, ◌∙◌,
  ◌↔◌, inl, inr, true, ◌==◌, ==_iff, Bool-cases, ltb, ltb→lt, ◌&&◌, arith,
}
use libudjatnetwork.Prelude.Bits.{every_below, every_below_at, bit_and_prefix, bit_or_self}
use libudjatnetwork.SockAddr.{af_inet}
use libudjatnetwork.SockAddr.ByteOrder.{ByteOrder, htonl, bit_and-htonl, htonl-htonl, htonl-lt}
use libudjatnetwork.Subnet.{SubNet, netmask_step, netmask_loop, contains_in}
use native.Mathlib.Decide.{dec_le}
use native.Mathlib.Nat.{div-lt_iff_lt-mul, one-le-pow, mul-div-le, mul-div_cancel_left}

-- The netmask of a prefix of at most 32 bits, as a number.
netmask_table : every_below (λ n. netmask_loop n 0 == 2 ^ (32 - n) * (2 ^ n - 1)) 33 ≡ true
unfolding every_below netmask_loop netmask_step
netmask_table = refl

pub netmask_loop-prefix : (n : ℕ) → n ≤ 32 → netmask_loop n 0 ≡ 2 ^ (32 - n) * (2 ^ n - 1)
netmask_loop-prefix n h = (==_iff _ _).0 (every_below_at _ 33 n (omega arith) netmask_table)

netmask_loop-full : (n : ℕ) → netmask_loop n 0xffff_ffff ≡ 0xffff_ffff
unfolding netmask_loop netmask_step
netmask_loop-full zero = refl
netmask_loop-full (suc n) = netmask_loop-full n

netmask_loop-add : (m n s : ℕ) → netmask_loop (m + n) s ≡ netmask_loop n (netmask_loop m s)
unfolding netmask_loop
netmask_loop-add zero n s = let e : zero + n ≡ n = omega arith in rw e
netmask_loop-add (suc m) n s =
    let e : suc m + n ≡ suc (m + n) = omega arith in rw e (netmask_loop-add m n (netmask_step s))

netmask_loop-32 : netmask_loop 32 0 ≡ 0xffff_ffff
unfolding netmask_loop netmask_step
netmask_loop-32 = refl

-- A longer prefix than 32 bits gives the netmask of 32 bits.
pub netmask_loop-min : (n : ℕ) → netmask_loop n 0 ≡ netmask_loop (min n 32) 0
netmask_loop-min n = elim (dec_le n 32) [
  | yes h ↦ let e : min n 32 ≡ n = omega arith in rw e
  | no h ↦
      let m : min n 32 ≡ 32 = omega arith in
      let e : n ≡ 32 + (n - 32) = omega arith in
      ap (λ k. netmask_loop k 0) e
      ∙ (netmask_loop-add 32 (n - 32) 0 ∙ rw (m, netmask_loop-32) (netmask_loop-full (n - 32)))
]

-- The bits of an address outside the prefix, as many as the netmask has zeros.
abbrev pub host_bits : SubNet → ℕ
host_bits sn = 32 - min sn.bits 32

pow_table : every_below (λ j. 2 ^ j * 2 ^ (32 - j) == 2 ^ 32) 33 ≡ true
unfolding every_below
pow_table = refl

mask_table : every_below (λ j. ltb (2 ^ (32 - j) * (2 ^ j - 1)) (2 ^ 32)) 33 ≡ true
unfolding every_below
mask_table = refl

mask_lt : (j : ℕ) → j ≤ 32 → 2 ^ (32 - j) * (2 ^ j - 1) < 2 ^ 32
mask_lt j h = ltb→lt _ _ (every_below_at _ 33 j (omega arith) mask_table)

div_pow_lt : (a j : ℕ) → j ≤ 32 → a < 2 ^ 32 → a / 2 ^ (32 - j) < 2 ^ j
div_pow_lt a j h l =
    let whole : 2 ^ j * 2 ^ (32 - j) ≡ 2 ^ 32 =
      (==_iff _ _).0 (every_below_at _ 33 j (omega arith) pow_table) in
    (div-lt_iff_lt-mul (one-le-pow (32 - j) 2 (omega arith))).1 (rw whole l)

module _ (o : ByteOrder) (sn : SubNet) where
  netmask_value : netmask_loop sn.bits 0 ≡ 2 ^ host_bits sn * (2 ^ min sn.bits 32 - 1)
  netmask_value = netmask_loop-min sn.bits ∙ netmask_loop-prefix (min sn.bits 32) (omega arith)

  -- What `contains` compares: the prefix of an address, in network order.
  masked :
      (a : ℕ)
      → a < 2 ^ 32
      → bit_and a (htonl o (netmask_loop sn.bits 0))
        ≡ htonl o (2 ^ host_bits sn * (htonl o a / 2 ^ host_bits sn))
  masked a h =
      let prefix : htonl o a / 2 ^ host_bits sn < 2 ^ min sn.bits 32 =
        div_pow_lt (htonl o a) (min sn.bits 32) (omega arith) (htonl-lt o a h) in
      rw (netmask_value, ← (bit_and_prefix (min sn.bits 32) (host_bits sn) (htonl o a) prefix))
        (ap (λ (t : ℕ). bit_and t (htonl o mask)) (sym (htonl-htonl o a h))
          ∙ bit_and-htonl o (htonl o a) mask (htonl-lt o a h)
              (mask_lt (min sn.bits 32) (omega arith)))
    where
      mask : ℕ
      mask = 2 ^ host_bits sn * (2 ^ min sn.bits 32 - 1)

same_self : (y : ℕ) → ((y == y) && (y == y)) ≡ (y == y)
same_self y = ground arith

same_test : (x y : ℕ) → ((x == y) && (bit_or x y == y)) ≡ (x == y)
same_test x y = elim (Bool-cases (x == y)) [
  | inl e ↦ let p : x ≡ y = (==_iff x y).0 e in rw (p, bit_or_self y) (same_self y)
  | inr e ↦ rw e
]

-- In the subnet: the prefixes agree, in host order.
abbrev pub InPrefix : ByteOrder → SubNet → ℕ → Type 0
InPrefix o sn a = htonl o a / 2 ^ host_bits sn ≡ htonl o sn.addr.s_addr / 2 ^ host_bits sn

module _ (o : ByteOrder) (sn : SubNet) (a : ℕ) (ha : a < 2 ^ 32)
    (hs : sn.addr.s_addr < 2 ^ 32) where
  prefix_injective :
      bit_and sn.addr.s_addr (htonl o (netmask_loop sn.bits 0))
        ≡ bit_and a (htonl o (netmask_loop sn.bits 0))
      → InPrefix o sn a
  prefix_injective e =
      sym (quotient (htonl o a))
      ∙ (ap (λ (t : ℕ). t / block)
            (sym (plain sn.addr.s_addr hs ∙ (ap (htonl o) e ∙ sym (plain a ha))))
          ∙ quotient (htonl o sn.addr.s_addr))
    where
      block : ℕ
      block = 2 ^ host_bits sn

      quotient : (x : ℕ) → block * (x / block) / block ≡ x / block
      quotient x = mul-div_cancel_left (x / block) (one-le-pow (host_bits sn) 2 (omega arith))

      plain :
          (x : ℕ)
          → x < 2 ^ 32
          → block * (htonl o x / block) ≡ htonl o (bit_and x (htonl o (netmask_loop sn.bits 0)))
      plain x h = sym (
          ap (htonl o) (masked o sn x h)
          ∙ htonl-htonl o (block * (htonl o x / block))
              (omega (arith, mul-div-le (htonl o x) block, htonl-lt o x h)))

  -- For an IPv4 subnet and any prefix length, on hosts of either byte order, `contains` accepts
  -- an IPv4 address exactly when its first `bits` bits (at most 32) are those of the subnet.
  pub contains_in-InPrefix :
      sn.addr.ss_family ≡ af_inet → (contains_in o sn a ≡ true) ↔ InPrefix o sn a
  unfolding contains_in
  contains_in-InPrefix f = (
    (λ t. prefix_injective ((==_iff _ _).0 (sym value ∙ t))),
    (λ p. value ∙ (==_iff _ _).1 (same_prefix p)),
  )
    where
      value : contains_in o sn a ≡ (
          bit_and sn.addr.s_addr (htonl o (netmask_loop sn.bits 0))
          == bit_and a (htonl o (netmask_loop sn.bits 0)))
      value = rw f (same_test _ _)

      same_prefix :
          InPrefix o sn a
          → bit_and sn.addr.s_addr (htonl o (netmask_loop sn.bits 0))
            ≡ bit_and a (htonl o (netmask_loop sn.bits 0))
      same_prefix p = rw (masked o sn a ha, masked o sn sn.addr.s_addr hs, p)
