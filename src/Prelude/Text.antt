-- ===== src/Prelude/Text.antt =====
-- C strings as lists of bytes, with the `strcasecmp` of the C library.
use Prim.Native.Nat.{ℕ, ◌+◌}
use Prim.Native.Char.{code}
use Prim.Native.String.{String}
use mathlib.Core.Bool.{Bool, true, false, ◌&&◌}
use mathlib.Core.Path.{◌≡◌, refl}
use native.Mathlib.Omega.{arith}
use mathlib.Core.List.{List, [], ◌∷◌}
use libudjatnetwork.Prelude.Tests.{leb, ◌==◌, if◌then◌else◌}

abbrev pub CString : Type 0
CString = List ℕ

-- The bytes of an ASCII literal.
abbrev pub codes : String → CString
codes String.[] = []
codes (String.◌∷◌ c s) = code c ∷ codes s

unfoldable pub to_lower : ℕ → ℕ
to_lower c = if leb b'A' c && leb c b'Z' then c + 32 else c

-- `!strcasecmp(a, b)`: equal up to the case of ASCII letters.
unfoldable pub same_text : CString → CString → Bool
unfolding to_lower
same_text [] [] = true
same_text (a ∷ as') (b ∷ bs) = (to_lower a == to_lower b) && same_text as' bs
same_text _ _ = false

and_congr :
    (p q r : ℕ) (s : Bool) {t u : Bool}
    → ((p == q) && s) ≡ true
    → (s ≡ true → t ≡ u)
    → ((p == r) && t) ≡ ((q == r) && u)
and_congr p q r false h k = ground arith
and_congr p q r true h k = let e = k refl in ground arith

-- Texts that are equal up to case compare alike with every text.
pub same_text-congr : (a b c : CString) → same_text a b ≡ true → same_text a c ≡ same_text b c
unfolding same_text
same_text-congr [] [] c h = refl
same_text-congr [] (y ∷ b) c h = cc
same_text-congr (x ∷ a) [] c h = cc
same_text-congr (x ∷ a) (y ∷ b) [] h = refl
same_text-congr (x ∷ a) (y ∷ b) (z ∷ c) h =
    and_congr (to_lower x) (to_lower y) (to_lower z) (same_text a b) h (same_text-congr a b c)
