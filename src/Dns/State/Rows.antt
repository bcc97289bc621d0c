-- ===== src/Dns/State/Rows.antt =====
-- The rows of the table of DNS states.
use libudjatnetwork.Prelude.{
  ℕ, ◌≡◌, refl, ◌∙◌, true, false, some, List, [], ◌∷◌, if◌then◌else◌, first_where-holds, ok, ℤ, pos,
  negsuc, int_eq, All, All-get_elem?, get_elem?, Option-cases, inl, inr, arith,
}
use libudjatnetwork.Prelude.Text.{CString, same_text, same_text-congr}
use libudjatnetwork.Udjat.{
  Level, error, ready, Node, Framework, as_string, is_empty, same_text-is_empty,
}
use libudjatnetwork.Dns.State.{
  DnsLib, DnsRow, netdb_success, dnsstates, find_code, state_of_code, known_state, find_name,
  factory_of_node, factory_of_code,
}

find_name-congr :
    (a b : CString) (sts : List DnsRow) → same_text a b ≡ true → find_name a sts ≡ find_name b sts
unfolding find_name
find_name-congr a b [] h = refl
find_name-congr a b (st ∷ sts) h = rw (same_text-congr a b st.name h, find_name-congr a b sts h)

-- What a row's own word and code find.
abbrev OwnRow : DnsRow → Type 0
OwnRow st = (find_name st.name dnsstates ≡ some st) × (find_code st.code ≡ some st)

dnsstates-OwnRow : All OwnRow dnsstates
unfolding find_name find_code same_text
dnsstates-OwnRow = (
  (refl, refl),
  ((refl, refl), ((refl, refl), ((refl, refl), ((refl, refl), ((refl, refl), tt))))),
)

dnsstates-named : All (λ st. is_empty st.name ≡ false) dnsstates
dnsstates-named = (refl, (refl, (refl, (refl, (refl, (refl, tt))))))

-- For every row of the table, its word in any mix of capital and small letters in the XML node and
-- its code in an answer make a state with the row's code. The first has the properties of the
-- node with the row's texts where the node gives none. The second is named after the row, but its
-- level is ready for the code 0 and error for every other one, whatever the row's level is, given
-- that the framework's constructor keeps the level.
pub factory-row :
    (lib : DnsLib) (fw : Framework) (node : Node) (i : ℕ) (st : DnsRow)
    → get_elem? dnsstates i ≡ some st
    → same_text (as_string (node.attribute "dns-state") []) st.name ≡ true
    → ((n : CString) (l : Level) → (fw.from_name n l).level ≡ l)
    → (factory_of_node fw node ≡ ok (known_state fw st (fw.from_node node)))
      × ((factory_of_code lib fw st.code).code ≡ st.code)
      × ((factory_of_code lib fw st.code).properties.name ≡ st.name)
      × ((factory_of_code lib fw st.code).properties.level
          ≡ (if int_eq st.code netdb_success then ready else error))
unfolding factory_of_node factory_of_code
factory-row lib fw node i st e h l =
    let own : OwnRow st = All-get_elem? OwnRow dnsstates i dnsstates-OwnRow e in
    let found : find_name (as_string (node.attribute "dns-state") []) dnsstates ≡ some st =
      find_name-congr (as_string (node.attribute "dns-state") []) st.name dnsstates h ∙ own.0 in
    let named : is_empty st.name ≡ false =
      All-get_elem? (λ st. is_empty st.name ≡ false) dnsstates i dnsstates-named e in
    (
      rw (same_text-is_empty (as_string (node.attribute "dns-state") []) st.name h, named, found)
          refl,
      rw own.1 refl,
      rw (own.1, state_of_code) (rw own.1 refl),
      rw (own.1, state_of_code) (rw own.1 (l _ _)),
    )

int_eq_self : (z : ℤ) → int_eq z z ≡ true
int_eq_self (pos n) = ground arith
int_eq_self (negsuc n) = ground arith

-- The factory for a code makes a state for that code, known or not.
pub factory_of_code-code :
    (lib : DnsLib) (fw : Framework) (code : ℤ)
    → int_eq (factory_of_code lib fw code).code code ≡ true
unfolding factory_of_code find_code
factory_of_code-code lib fw code = elim (Option-cases (find_code code)) [
  | inl e ↦ rw e (int_eq_self code)
  | inr (st, e) ↦ rw e (first_where-holds (λ st. int_eq st.code code) dnsstates st e)
]
