-- ===== src/Udjat.antt =====
-- What the library takes from the agent framework libudjat and from pugixml, which are other
-- packages: XML nodes by their attributes, the properties of a state, translated texts, levels.
use libudjatnetwork.Prelude.{◌≡◌, refl, Bool, Option, List, ℤ, String, [], ◌∷◌, none, some}
use libudjatnetwork.Prelude.Text.{CString, same_text}

-- The levels that the source names.
pub data Level : Type 0 where
  unimportant ready warning error critical : Level

-- The attributes of an XML node; `none` is an attribute that is not there.
pub record Node : Type 0 where
  pub attribute : String → Option CString

-- `String(node, name, default)` of the framework, and its method `select`: the position of the text
-- among the given ones, or a negative number.
pub record Strings : Type 0 where
  pub attribute_text : Node → String → CString → CString
  pub select : CString → List CString → ℤ

-- `node.attribute(name).as_string(def)`
abbrev pub as_string : Option CString → CString → CString
as_string none def = def
as_string (some s) def = s

-- The properties of an `Abstract::State`.
pub record Properties : Type 0 where
  pub name : CString
  pub level : Level
  pub label : CString
  pub summary : CString
  pub body : CString
  pub icon : CString

-- The constructors of `Abstract::State` from a node and from a name and a level, `dgettext` with
-- the package's domain, `String::expand` over a node, an object or the defaults, and
-- `Object::getAttribute`, which looks for an attribute of a node by rules of its own.
pub record Framework : Type 0 where
  pub from_node : Node → Properties
  pub from_name : CString → Level → Properties
  pub translate : CString → CString
  pub expand : CString → CString
  pub get_attribute : Node → String → Option CString

-- `text[0]`, as a test.
abbrev pub is_empty : CString → Bool
is_empty [] = Bool.true
is_empty (c ∷ cs) = Bool.false

-- Texts that are equal up to case are both empty, or neither is.
pub same_text-is_empty : (a b : CString) → same_text a b ≡ Bool.true → is_empty a ≡ is_empty b
unfolding same_text
same_text-is_empty [] [] h = refl
same_text-is_empty [] (y ∷ b) h = cc
same_text-is_empty (x ∷ a) [] h = cc
same_text-is_empty (x ∷ a) (y ∷ b) h = refl
