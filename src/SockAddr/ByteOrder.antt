-- ===== src/SockAddr/ByteOrder.antt =====
-- `htonl` on hosts of either byte order, and what it does to `&`.
use libudjatnetwork.Prelude.{
  ℕ, zero, suc, ◌+◌, ◌*◌, ◌/◌, ◌%◌, ◌^◌, ◌≤◌, ◌<◌, bit_and, ◌≡◌, refl, sym, ap, ap₂, ◌∙◌, arith,
}
use libudjatnetwork.Prelude.Bits.{bit_and_split, bit_and_step, zero-bit_and}

pub data ByteOrder : Type 0 where
  little big : ByteOrder

-- The word with the four bytes d c b a, the lowest byte first.
abbrev word : ℕ → ℕ → ℕ → ℕ → ℕ
word a b c d = a + 256 * (b + 256 * (c + 256 * d))

-- Reverses the bytes of a 32-bit word.
unfoldable pub byte_swap : ℕ → ℕ
byte_swap x = word (x / 16777216 % 256) (x / 65536 % 256) (x / 256 % 256) (x % 256)

-- `htonl`, which is also `ntohl`.
unfoldable pub htonl : ByteOrder → ℕ → ℕ
unfolding byte_swap
htonl little x = byte_swap x
htonl big x = x

pub htonl-htonl : (o : ByteOrder) (x : ℕ) → x < 2 ^ 32 → htonl o (htonl o x) ≡ x
unfolding htonl
htonl-htonl little x h = omega arith
htonl-htonl big x h = refl

pub htonl-lt : (o : ByteOrder) (x : ℕ) → x < 2 ^ 32 → htonl o x < 2 ^ 32
unfolding htonl
htonl-lt little x h = omega arith
htonl-lt big x h = h

bit_and-le_fuel : (n a b : ℕ) → a ≤ n → bit_and a b ≤ a
bit_and-le_fuel n zero b h = omega (arith, zero-bit_and b)
bit_and-le_fuel zero (suc a) b h = absurd (omega arith)
bit_and-le_fuel (suc n) (suc a) b h =
    omega (arith, bit_and_step (suc a) b, bit_and-le_fuel n (suc a / 2) (b / 2) (omega arith))

pub bit_and-le : (a b : ℕ) → bit_and a b ≤ a
bit_and-le a b = bit_and-le_fuel a a b (omega arith)

bit_and-word :
    (a b c d e f g h : ℕ)
    → a < 256
    → b < 256
    → c < 256
    → e < 256
    → f < 256
    → g < 256
    → bit_and (word a b c d) (word e f g h)
      ≡ word (bit_and a e) (bit_and b f) (bit_and c g) (bit_and d h)
bit_and-word a b c d e f g h pa pb pc pe pf pg =
    bit_and_split 8 a (b + 256 * (c + 256 * d)) e (f + 256 * (g + 256 * h)) pa pe
    ∙ ap (λ (t : ℕ). bit_and a e + 256 * t)
        (bit_and_split 8 b (c + 256 * d) f (g + 256 * h) pb pf
          ∙ ap (λ (t : ℕ). bit_and b f + 256 * t) (bit_and_split 8 c d g h pc pg))

word_of_bytes :
    (x : ℕ) → x < 2 ^ 32 → x ≡ word (x % 256) (x / 256 % 256) (x / 65536 % 256) (x / 16777216 % 256)
word_of_bytes x h = omega arith

byte_swap-word :
    (a b c d : ℕ) → a < 256 → b < 256 → c < 256 → d < 256 → byte_swap (word a b c d) ≡ word d c b a
unfolding byte_swap
byte_swap-word a b c d pa pb pc pd = omega arith

bit_and-byte_swap :
    (x m : ℕ)
    → x < 2 ^ 32
    → m < 2 ^ 32
    → bit_and (byte_swap x) (byte_swap m) ≡ byte_swap (bit_and x m)
unfolding byte_swap
bit_and-byte_swap x m hx hm =
    bit_and-word x₃ x₂ x₁ x₀ m₃ m₂ m₁ m₀ (omega arith) (omega arith) (omega arith) (omega arith)
      (omega arith) (omega arith)
    ∙ sym (
        ap byte_swap (
          ap₂ bit_and (word_of_bytes x hx) (word_of_bytes m hm)
          ∙ bit_and-word x₀ x₁ x₂ x₃ m₀ m₁ m₂ m₃ (omega arith) (omega arith) (omega arith)
              (omega arith) (omega arith) (omega arith))
        ∙ byte_swap-word (bit_and x₀ m₀) (bit_and x₁ m₁) (bit_and x₂ m₂) (bit_and x₃ m₃)
            (omega (arith, bit_and-le x₀ m₀)) (omega (arith, bit_and-le x₁ m₁))
            (omega (arith, bit_and-le x₂ m₂)) (omega (arith, bit_and-le x₃ m₃)))
  where
    x₀ : ℕ
    x₀ = x % 256

    x₁ : ℕ
    x₁ = x / 256 % 256

    x₂ : ℕ
    x₂ = x / 65536 % 256

    x₃ : ℕ
    x₃ = x / 16777216 % 256

    m₀ : ℕ
    m₀ = m % 256

    m₁ : ℕ
    m₁ = m / 256 % 256

    m₂ : ℕ
    m₂ = m / 65536 % 256

    m₃ : ℕ
    m₃ = m / 16777216 % 256

-- Masking in network order is masking in host order.
pub bit_and-htonl :
    (o : ByteOrder) (x m : ℕ)
    → x < 2 ^ 32
    → m < 2 ^ 32
    → bit_and (htonl o x) (htonl o m) ≡ htonl o (bit_and x m)
unfolding htonl
bit_and-htonl little x m hx hm = bit_and-byte_swap x m hx hm
bit_and-htonl big x m hx hm = refl
