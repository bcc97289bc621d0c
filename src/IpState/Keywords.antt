-- ===== src/IpState/Keywords.antt =====
-- The words that the factory of IP states understands.
use libudjatnetwork.Prelude.{
  ℕ, ◌≡◌, refl, ◌∙◌, true, List, [], ◌∷◌, some, ok, get_elem?, All, All-get_elem?,
}
use libudjatnetwork.Prelude.Text.{CString, same_text, same_text-congr}
use libudjatnetwork.Udjat.{Node, Framework, as_string}
use libudjatnetwork.SockAddr.{AddressLib}
use libudjatnetwork.Subnet.{no_subnet}
use libudjatnetwork.IpState.{Keyword, locals, find_keyword, factory, internal_state}

find_keyword-congr :
    (a b : CString) (ks : List Keyword)
    → same_text a b ≡ true
    → find_keyword a ks ≡ find_keyword b ks
unfolding find_keyword
find_keyword-congr a b [] h = refl
find_keyword-congr a b (k ∷ ks) h = rw (same_text-congr a b k.name h, find_keyword-congr a b ks h)

find_keyword-own : All (λ k. find_keyword k.name locals ≡ some k) locals
unfolding find_keyword same_text
find_keyword-own =
    (refl, (refl, (refl, (refl, (refl, (refl, (refl, (refl, (refl, (refl, (refl, tt)))))))))))

-- Every word of the table, in any mix of capital and small letters, makes a state that asks the
-- interfaces of the machine, with the sense that the table gives the word.
pub factory-keyword :
    (lib : AddressLib) (fw : Framework) (node : Node) (i : ℕ) (k : Keyword)
    → get_elem? locals i ≡ some k
    → same_text (as_string (fw.get_attribute node "subnet") []) k.name ≡ true
    → factory lib fw node
      ≡ ok (record { properties = fw.from_node node; kind = internal_state k.revert no_subnet })
unfolding factory
factory-keyword lib fw node i k e h =
    let found : find_keyword (as_string (fw.get_attribute node "subnet") []) locals ≡ some k =
      find_keyword-congr (as_string (fw.get_attribute node "subnet") []) k.name locals h
      ∙ All-get_elem? (λ k. find_keyword k.name locals ≡ some k) locals i find_keyword-own e in
    rw (found, factory)
