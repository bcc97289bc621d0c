-- ===== src/Nic/Logging.antt =====
-- `logflags` of library/os/linux/nicagent.cc: the text that goes to the log.
use libudjatnetwork.Prelude.{
  ℕ, suc, ◌+◌, ◌*◌, ◌/◌, ◌%◌, ◌^◌, ◌≡◌, ◌≤◌, sym, ◌∙◌, refl, List, [], ◌∷◌, ◌++◌, ◌==◌, keep_if,
  not, if◌then◌else◌, bit_and, ap, arith, true, false, Bool-cases, inl, inr,
}
use native.Mathlib.Nat.{one-le-pow}
use mathlib.Core.List.{append-nil, append_assoc}
use libudjatnetwork.Prelude.Text.{CString, codes}
use libudjatnetwork.Prelude.Bits.{bit_and-power, mod_power_step}

-- A row of the table.
pub record FlagName : Type 0 where
  pub flag : ℕ
  pub name : CString

abbrev pub flag_name : ℕ → CString → FlagName
flag_name f n = record { flag = f; name = n }

abbrev pub names : List FlagName
names =
    flag_name 1 (codes "IFF_UP")
    ∷ flag_name 2 (codes "IFF_BROADCAST")
    ∷ flag_name 4 (codes "IFF_DEBUG")
    ∷ flag_name 8 (codes "IFF_LOOPBACK")
    ∷ flag_name 16 (codes "IFF_POINTOPOINT")
    ∷ flag_name 64 (codes "IFF_RUNNING")
    ∷ flag_name 128 (codes "IFF_NOARP")
    ∷ flag_name 256 (codes "IFF_PROMISC")
    ∷ flag_name 32 (codes "IFF_NOTRAILERS")
    ∷ flag_name 512 (codes "IFF_ALLMULTI")
    ∷ flag_name 1024 (codes "IFF_MASTER")
    ∷ flag_name 2048 (codes "IFF_SLAVE")
    ∷ flag_name 4096 (codes "IFF_MULTICAST")
    ∷ flag_name 8192 (codes "IFF_PORTSEL")
    ∷ flag_name 16384 (codes "IFF_AUTOMEDIA")
    ∷ flag_name 32768 (codes "IFF_DYNAMIC")
    ∷ []

-- The loop over the table.
unfoldable pub text_loop : List FlagName → ℕ → CString → CString
text_loop [] flags text = text
text_loop (n ∷ ns) flags text =
    text_loop ns flags (if bit_and flags n.flag == 0 then text else text ++ (b' ' ∷ n.name))

-- `logflags`
unfoldable pub log_flags : ℕ → CString
unfolding text_loop
log_flags flags = text_loop names flags (codes "Flags:")

-- The rows that the text names, and the text for them.
abbrev pub named : List FlagName → ℕ → List FlagName
named ns flags = keep_if (λ n. not (bit_and flags n.flag == 0)) ns

abbrev pub spelled : List FlagName → CString
spelled [] = []
spelled (n ∷ ns) = (b' ' ∷ n.name) ++ spelled ns

abbrev pub sum_of : List FlagName → ℕ
sum_of [] = 0
sum_of (n ∷ ns) = n.flag + sum_of ns

text_loop-named :
    (ns : List FlagName) (flags : ℕ) (text : CString)
    → text_loop ns flags text ≡ text ++ spelled (named ns flags)
unfolding text_loop
text_loop-named [] flags text = sym (append-nil text)
text_loop-named (n ∷ ns) flags text = elim (Bool-cases (bit_and flags n.flag == 0)) [
  | inl e ↦ rw e (text_loop-named ns flags text)
  | inr e ↦ rw e (
      text_loop-named ns flags (text ++ (b' ' ∷ n.name))
      ∙ append_assoc text (b' ' ∷ n.name) (spelled (named ns flags)))
]

-- The share of a row of one bit in the sum.
named-power :
    (k flags : ℕ) (name : CString) (ns : List FlagName)
    → sum_of (named (flag_name (2 ^ k) name ∷ ns) flags)
      ≡ 2 ^ k * (flags / 2 ^ k % 2) + sum_of (named ns flags)
named-power k flags name ns =
    let bit = flags / 2 ^ k % 2 in
    let some_bits : 1 ≤ 2 ^ k = one-le-pow k 2 (omega arith) in
    let value = bit_and-power k flags in
    elim (Bool-cases (bit == 0)) [
      | inl e ↦
          let clear : bit ≡ 0 = ground arith in
          let share : 2 ^ k * bit ≡ 0 = rw clear (omega arith) in
          let unnamed : (bit_and flags (2 ^ k) == 0) ≡ true = ground (arith, value, share) in
          rw unnamed (omega (arith, share))
      | inr e ↦
          let set : bit ≡ 1 = ground arith in
          let share : 2 ^ k * bit ≡ 2 ^ k = rw set (omega arith) in
          let found : (bit_and flags (2 ^ k) == 0) ≡ false = ground (arith, value, share) in
          rw found (omega (arith, share))
    ]

-- The table by the places of its bits.
abbrev places : List (ℕ × CString)
places =
    (0, codes "IFF_UP")
    ∷ (1, codes "IFF_BROADCAST")
    ∷ (2, codes "IFF_DEBUG")
    ∷ (3, codes "IFF_LOOPBACK")
    ∷ (4, codes "IFF_POINTOPOINT")
    ∷ (6, codes "IFF_RUNNING")
    ∷ (7, codes "IFF_NOARP")
    ∷ (8, codes "IFF_PROMISC")
    ∷ (5, codes "IFF_NOTRAILERS")
    ∷ (9, codes "IFF_ALLMULTI")
    ∷ (10, codes "IFF_MASTER")
    ∷ (11, codes "IFF_SLAVE")
    ∷ (12, codes "IFF_MULTICAST")
    ∷ (13, codes "IFF_PORTSEL")
    ∷ (14, codes "IFF_AUTOMEDIA")
    ∷ (15, codes "IFF_DYNAMIC")
    ∷ []

abbrev rows_at : List (ℕ × CString) → List FlagName
rows_at [] = []
rows_at (p ∷ ps) = flag_name (2 ^ p.0) p.1 ∷ rows_at ps

abbrev total : (ℕ → ℕ) → List (ℕ × CString) → ℕ
total share [] = 0
total share (p ∷ ps) = share p.0 + total share ps

named-rows_at :
    (flags : ℕ) (ps : List (ℕ × CString))
    → sum_of (named (rows_at ps) flags) ≡ total (λ k. 2 ^ k * (flags / 2 ^ k % 2)) ps
named-rows_at flags [] = refl
named-rows_at flags (p ∷ ps) =
    named-power p.0 flags p.1 (rows_at ps)
    ∙ ap (λ n. 2 ^ p.0 * (flags / 2 ^ p.0 % 2) + n) (named-rows_at flags ps)

-- Every place below 16 is in the table once.
total-places :
    (low share : ℕ → ℕ)
    → ((k : ℕ) → low (suc k) ≡ low k + share k)
    → low 0 ≡ 0
    → total share places ≡ low 16
total-places low share step none_yet = omega (
  arith,
  none_yet,
  step 0,
  step 1,
  step 2,
  step 3,
  step 4,
  step 5,
  step 6,
  step 7,
  step 8,
  step 9,
  step 10,
  step 11,
  step 12,
  step 13,
  step 14,
  step 15,
)

-- The text names rows of the table in its order, and the flags of the rows that it names add up to the
-- low 16 bits of the word: every flag that is set is named once, and no other.
pub log_flags-named :
    (flags : ℕ)
    → (log_flags flags ≡ codes "Flags:" ++ spelled (named names flags))
      × (sum_of (named names flags) ≡ flags % 65536)
unfolding log_flags
log_flags-named flags = (
  text_loop-named names flags (codes "Flags:"),
  named-rows_at flags places
      ∙ total-places (λ k. flags % 2 ^ k) (λ k. 2 ^ k * (flags / 2 ^ k % 2))
          (λ k. mod_power_step k flags) (omega arith),
)
