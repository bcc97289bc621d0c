-- ===== src/Icmp/Checksum.antt =====
-- The Internet checksum `in_chksum` of library/os/linux/icmp_controller.cc.
use libudjatnetwork.Prelude.{
  ℕ, ◌+◌, ◌-◌, ◌*◌, ◌/◌, ◌%◌, ◌^◌, ◌≤◌, ◌<◌, ◌≡◌, ap, ◌∙◌, List, [], ◌∷◌, ◌++◌, length, arith,
}
use libudjatnetwork.SockAddr.ByteOrder.{ByteOrder, little, big}

-- An `unsigned short` read from two bytes of memory.
abbrev pub short_of : ByteOrder → ℕ → ℕ → ℕ
short_of little a b = a + 256 * b
short_of big a b = 256 * a + b

-- The sum of the words, with the odd last byte in the first byte of a cleared word.
unfoldable pub sum_words : ByteOrder → List ℕ → ℕ
sum_words o [] = 0
sum_words o (a ∷ []) = short_of o a 0
sum_words o (a ∷ b ∷ rest) = short_of o a b + sum_words o rest

-- sum = (sum >> 16) + (sum & 0xFFFF); sum += (sum >> 16); ans = ~sum
unfoldable pub fold_sum : ℕ → ℕ
fold_sum sum = let s = sum / 65536 + sum % 65536 in 65535 - (s + s / 65536) % 65536

unfoldable pub in_chksum : ByteOrder → List ℕ → ℕ
unfolding fold_sum
in_chksum o buf = fold_sum (sum_words o buf)

-- The two bytes of an `unsigned short` in memory.
abbrev pub short_bytes : ByteOrder → ℕ → List ℕ
short_bytes little n = n % 256 ∷ n / 256 % 256 ∷ []
short_bytes big n = n / 256 % 256 ∷ n % 256 ∷ []

abbrev pub AreBytes : List ℕ → Type 0
AreBytes [] = Unit
AreBytes (x ∷ xs) = (x < 256) × AreBytes xs

-- Below 2^31, so the `int` sum of the loop cannot overflow.
sum_words_bound :
    (o : ByteOrder) (buf : List ℕ) → AreBytes buf → sum_words o buf * 2 ≤ 65535 * (length buf + 1)
unfolding sum_words
sum_words_bound little [] h = omega arith
sum_words_bound big [] h = omega arith
sum_words_bound little (a ∷ []) h = omega arith
sum_words_bound big (a ∷ []) h = omega arith
sum_words_bound little (a ∷ b ∷ rest) h = omega (arith, sum_words_bound little rest h.1.1)
sum_words_bound big (a ∷ b ∷ rest) h = omega (arith, sum_words_bound big rest h.1.1)

fold_sum_lem : (s : ℕ) → s < 2 ^ 31 → fold_sum (s + fold_sum s) ≡ 0
unfolding fold_sum
fold_sum_lem s h = omega arith

pub in_chksum-bound : (o : ByteOrder) (buf : List ℕ) → in_chksum o buf < 65536
unfolding in_chksum
in_chksum-bound o buf = omega arith

sum_words-checksum :
    (o : ByteOrder) (a b n : ℕ) (rest : List ℕ)
    → n < 65536
    → sum_words o (a ∷ b ∷ short_bytes o n ++ rest) ≡ sum_words o (a ∷ b ∷ 0 ∷ 0 ∷ rest) + n
unfolding sum_words
sum_words-checksum little a b n rest h = omega arith
sum_words-checksum big a b n rest h = omega arith

-- A buffer of bytes of at most 64 KiB whose second word is 0 has the checksum 0 once that word is
-- set to the buffer's checksum, on hosts of either byte order.
pub in_chksum-verifies :
    (o : ByteOrder) (a b : ℕ) (rest : List ℕ)
    → AreBytes (a ∷ b ∷ 0 ∷ 0 ∷ rest)
    → length (a ∷ b ∷ 0 ∷ 0 ∷ rest) ≤ 65536
    → in_chksum o (a ∷ b ∷ short_bytes o (in_chksum o (a ∷ b ∷ 0 ∷ 0 ∷ rest)) ++ rest) ≡ 0
in_chksum-verifies o a b rest h l =
    let buf : List ℕ = a ∷ b ∷ 0 ∷ 0 ∷ rest in
    let small : sum_words o buf < 2 ^ 31 = omega (arith, sum_words_bound o buf h) in
    unfold in_chksum in
    (ap fold_sum
        (sum_words-checksum o a b (fold_sum (sum_words o buf)) rest (in_chksum-bound o buf))
      ∙ fold_sum_lem (sum_words o buf) small)
