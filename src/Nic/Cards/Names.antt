-- ===== src/Nic/Cards/Names.antt =====
-- The names in the property `nics`.
use libudjatnetwork.Prelude.{
  ℕ, ◌≡◌, ◌≢◌, refl, sym, ◌∙◌, false, not, List, [], ◌∷◌, ◌++◌, map, ◌==◌, keep_if, if◌then◌else◌,
  inl, inr, Bool-cases, arith, All,
}
use mathlib.Core.List.{append_assoc, append-nil}
use libudjatnetwork.Prelude.Text.{CString}
use libudjatnetwork.Udjat.{is_empty}
use libudjatnetwork.Nic.Cards.{Interface, get_nics}

-- A byte in front of the first name.
abbrev grow : ℕ → List CString → List CString
grow c [] = (c ∷ []) ∷ []
grow c (n ∷ ns) = (c ∷ n) ∷ ns

-- A text read as names between commas.
abbrev pub split_comma : CString → List CString
split_comma [] = [] ∷ []
split_comma (c ∷ cs) = let rest = split_comma cs in if c == b',' then [] ∷ rest else grow c rest

-- A name that the property can carry: not empty and without a comma.
abbrev HasNoComma : CString → Type 0
HasNoComma [] = Unit
HasNoComma (c ∷ cs) = (c ≢ b',') × HasNoComma cs

abbrev pub IsPlainName : CString → Type 0
IsPlainName n = (is_empty n ≡ false) × HasNoComma n

-- The names of the interfaces that are no loopback.
abbrev pub names : List Interface → List CString
names ifs = map (λ i. i.name) (keep_if (λ i. not i.loopback) ifs)

not_comma : (c : ℕ) → c ≢ b',' → (c == b',') ≡ false
not_comma c h = ground arith

split_comma-plain : (n : CString) → HasNoComma n → split_comma n ≡ n ∷ []
split_comma-plain [] h = refl
split_comma-plain (c ∷ cs) h = rw (not_comma c h.0, split_comma-plain cs h.1) refl

grow-some : (c : ℕ) (l : List CString) → grow c l ≢ []
grow-some c [] e = cc
grow-some c (n ∷ ns) e = cc

split_comma-some : (xs : CString) → split_comma xs ≢ []
split_comma-some [] = λ e. cc
split_comma-some (c ∷ cs) = elim (Bool-cases (c == b',')) [
  | inl comma ↦ rw comma (λ e. cc)
  | inr other ↦ rw other (grow-some c (split_comma cs))
]

grow-append : (c : ℕ) (l ys : List CString) → l ≢ [] → grow c (l ++ ys) ≡ grow c l ++ ys
grow-append c [] ys h = absurd (h refl)
grow-append c (n ∷ ns) ys h = refl

split_comma-append :
    (xs ys : CString) → split_comma (xs ++ (b',' ∷ ys)) ≡ split_comma xs ++ split_comma ys
split_comma-append [] ys = refl
split_comma-append (c ∷ cs) ys = elim (Bool-cases (c == b',')) [
  | inl e ↦ rw (e, split_comma-append cs ys) refl
  | inr e ↦
      rw (e, split_comma-append cs ys)
        (grow-append c (split_comma cs) (split_comma ys) (split_comma-some cs))
]

append_is_empty : (xs ys : CString) → is_empty xs ≡ false → is_empty (xs ++ ys) ≡ false
append_is_empty [] ys h = cc
append_is_empty (x ∷ xs) ys h = refl

get_nics-behind :
    (ifs : List Interface) (value : CString)
    → All (λ i. IsPlainName i.name) ifs
    → is_empty value ≡ false
    → split_comma (get_nics ifs value) ≡ split_comma value ++ names ifs
unfolding get_nics
get_nics-behind [] value h e = sym (append-nil (split_comma value))
get_nics-behind (i ∷ is') value h e = elim (Bool-cases i.loopback) [
  | inl l ↦ rw (l, get_nics) (get_nics-behind is' value h.1 e)
  | inr l ↦
      rw (l, e, get_nics)
        (get_nics-behind is' (value ++ (b',' ∷ i.name)) h.1 (append_is_empty value _ e)
          ∙ (rw (split_comma-append value i.name, split_comma-plain i.name h.0.1, append_assoc)
              refl))
]

-- Where no name is empty or holds a comma, the property `nics` of an empty value reads back, between
-- its commas, as the names of the interfaces that are no loopback, in their order, if there is any.
pub get_nics-names :
    (ifs : List Interface)
    → All (λ i. IsPlainName i.name) ifs
    → names ifs ≢ []
    → split_comma (get_nics ifs []) ≡ names ifs
unfolding get_nics
get_nics-names [] h n = absurd (n refl)
get_nics-names (i ∷ is') h n = elim (Bool-cases i.loopback) [
  | inl l ↦ rw (l, get_nics) (get_nics-names is' h.1 (λ e. n (rw l e)))
  | inr l ↦
      rw (l, get_nics)
        (get_nics-behind is' i.name h.1 h.0.0 ∙ rw (split_comma-plain i.name h.0.1) refl)
]
