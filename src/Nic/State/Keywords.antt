-- ===== src/Nic/State/Keywords.antt =====
-- The words that the factory of network card states understands.
use libudjatnetwork.Prelude.{
  ℕ, ◌≡◌, refl, ◌∙◌, true, false, List, [], ◌∷◌, none, some, ok, get_elem?, All, All-get_elem?,
}
use libudjatnetwork.Prelude.Text.{CString, same_text, same_text-congr}
use libudjatnetwork.Udjat.{Node, Properties, as_string, is_empty}
use libudjatnetwork.Nic.State.{
  active, inactive, NicState, FlagState, flagstates, transmit_receive, network_error, with_icon,
  make, flag_loop, factory,
}

flag_loop-congr :
    (p : Properties) (a b : CString) (fs : List FlagState)
    → same_text a b ≡ true
    → flag_loop p a fs ≡ flag_loop p b fs
unfolding flag_loop
flag_loop-congr p a b [] h = refl
flag_loop-congr p a b (f ∷ fs) h =
    rw (
      same_text-congr a b f.on_name h,
      same_text-congr a b f.off_name h,
      flag_loop-congr p a b fs h,
    )

-- What a row makes of its two words.
abbrev OwnWords : Properties → FlagState → Type 0
OwnWords p f =
    (flag_loop p f.on_name flagstates
      ≡ some (make (with_icon f.standard_icon transmit_receive p) (active f.flag)))
    × (flag_loop p f.off_name flagstates
        ≡ some (make (with_icon f.standard_icon network_error p) (inactive f.flag)))

flagstates-OwnWords : (p : Properties) → All (OwnWords p) flagstates
unfolding flag_loop same_text
flagstates-OwnWords p = (
  (refl, refl),
  ((refl, refl), ((refl, refl), ((refl, refl), ((refl, refl), ((refl, refl), tt))))),
)

flag_loop-empty : (p : Properties) → flag_loop p [] flagstates ≡ none
unfolding flag_loop same_text
flag_loop-empty p = refl

-- A word that the loop finds is not empty.
flag_loop-is_empty :
    (p : Properties) (t : CString) {s : NicState}
    → flag_loop p t flagstates ≡ some s
    → is_empty t ≡ false
flag_loop-is_empty p [] h = let e = flag_loop-empty p in cc
flag_loop-is_empty p (c ∷ t) h = refl

factory-found :
    (from_node : Node → Properties) (node : Node) {s : NicState}
    → let state =
        as_string (node.attribute "device-state") (as_string (node.attribute "name") []) in
      flag_loop (from_node node) state flagstates ≡ some s → factory from_node node ≡ ok s
unfolding factory
factory-found from_node node h =
    let state : CString =
      as_string (node.attribute "device-state") (as_string (node.attribute "name") []) in
    rw (flag_loop-is_empty (from_node node) state h, h) refl

-- For every row of the table, the node's word decides the state, in any mix of capital and small
-- letters: the first word makes a state for the flag being on, the second one for its being off,
-- each with the standard icon of its sense where the row asks for one and the node gives none.
pub factory-words :
    (from_node : Node → Properties) (node : Node) (i : ℕ) (f : FlagState)
    → let state =
        as_string (node.attribute "device-state") (as_string (node.attribute "name") []) in
      let p = from_node node in
      get_elem? flagstates i ≡ some f
      → (same_text state f.on_name ≡ true
          → factory from_node node
            ≡ ok (make (with_icon f.standard_icon transmit_receive p) (active f.flag)))
        × (same_text state f.off_name ≡ true
            → factory from_node node
              ≡ ok (make (with_icon f.standard_icon network_error p) (inactive f.flag)))
factory-words from_node node i f e =
    let state : CString =
      as_string (node.attribute "device-state") (as_string (node.attribute "name") []) in
    let p : Properties = from_node node in
    let own : OwnWords p f = All-get_elem? (OwnWords p) flagstates i (flagstates-OwnWords p) e in
    (
      (λ h. factory-found from_node node (flag_loop-congr p state f.on_name flagstates h ∙ own.0)),
      (λ h. factory-found from_node node (flag_loop-congr p state f.off_name flagstates h ∙ own.1)),
    )
