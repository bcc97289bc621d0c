-- ===== src/Nic/State.antt =====
-- `Nic::State`: library/os/linux/nicstate.cc. The structure `intf` of the agent, which the states
-- look at, is declared here; the flags are those of the kernel's headers.
pub mod Keywords
use libudjatnetwork.Prelude.{
  ℕ, Bool, true, false, not, ◌&&◌, ◌||◌, List, [], ◌∷◌, Option, none, some, ◌==◌, if◌then◌else◌,
  bit_and, ℤ, Result, ok, err, Error,
}
use libudjatnetwork.Prelude.Text.{CString, codes, same_text}
use libudjatnetwork.Udjat.{Node, Properties, as_string, is_empty}

-- `Nic::Agent::intf`
pub record Intf : Type 0 where
  pub index : ℤ
  pub netlink : Bool
  pub exist : Bool
  pub flags : ℕ

-- `StateActive`, `StateInactive` and `StateExistant`.
pub data Kind : Type 0 where
  active : ℕ → Kind
  inactive : ℕ → Kind
  existant : Bool → Kind

pub record NicState : Type 0 where
  pub properties : Properties
  pub kind : Kind

-- `Nic::Agent::exist`
unfoldable pub exist : Intf → Bool
exist i = i.netlink

-- `compare` of the three classes.
unfoldable pub compare : Kind → Intf → Bool
unfolding exist
compare (active mask) i = exist i && (not (i.flags == 0) && not (bit_and i.flags mask == 0))
compare (inactive mask) i = exist i && (not (i.flags == 0) && bit_and i.flags mask == 0)
compare (existant revert) i = if revert then not i.exist else i.exist

-- A row of the table `flagstates`.
pub record FlagState : Type 0 where
  pub flag : ℕ
  pub standard_icon : Bool
  pub on_name : CString
  pub off_name : CString

abbrev pub flag_state : ℕ → Bool → CString → CString → FlagState
flag_state f i a b = record { flag = f; standard_icon = i; on_name = a; off_name = b }

abbrev pub flagstates : List FlagState
flagstates =
    flag_state 1 true (codes "up") (codes "down")
    ∷ flag_state 64 true (codes "running") (codes "not-running")
    ∷ flag_state 256 false (codes "promisc") (codes "not-promisc")
    ∷ flag_state 16 false (codes "p2p") (codes "not-p2p")
    ∷ flag_state 128 false (codes "no-arp") (codes "arp")
    ∷ flag_state 4096 false (codes "multicast") (codes "no-multicast")
    ∷ []

abbrev pub transmit_receive : CString
transmit_receive = codes "network-transmit-receive"

abbrev pub network_error : CString
network_error = codes "network-error"

-- The constructors of the three classes: an icon for a state whose node has none.
unfoldable pub with_icon : Bool → CString → Properties → Properties
with_icon standard icon p = if standard && is_empty p.icon then record p { icon = icon } else p

abbrev pub make : Properties → Kind → NicState
make p k = record { properties = p; kind = k }

-- The loop of the factory over the table.
unfoldable pub flag_loop : Properties → CString → List FlagState → Option NicState
unfolding with_icon
flag_loop p state [] = none
flag_loop p state (f ∷ fs) =
    let rest = flag_loop p state fs in
    if same_text state f.on_name
    then some (make (with_icon f.standard_icon transmit_receive p) (active f.flag))
    else if same_text state f.off_name
    then some (make (with_icon f.standard_icon network_error p) (inactive f.flag))
    else rest

-- `Nic::State::Factory`, for the constructor of the base class.
unfoldable pub factory : (Node → Properties) → Node → Result NicState
unfolding flag_loop with_icon
factory from_node node =
    let state = as_string (node.attribute "device-state") (as_string (node.attribute "name") []) in
    let p = from_node node in
    if is_empty state
    then err (Error.runtime_error "The required attribute 'device-state' is missing")
    else elim (flag_loop p state flagstates) [
      | some s ↦ ok s
      | none ↦
          if same_text state (codes "found")
          then ok (make (with_icon true transmit_receive p) (existant false))
          else if same_text state (codes "not-found")
          then ok (make (with_icon true network_error p) (existant true))
          else err (Error.runtime_error "Required attribute 'device-state' is missing or invalid")
    ]
