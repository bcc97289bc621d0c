-- ===== src/Nic.antt =====
-- `Nic::Agent`: library/os/linux/nicagent.cc, library/nic/agent.cc, library/nic/factory.cc and
-- include/udjat/net/nic/agent.h. `pushed` counts the calls that the listeners leave on the queue of
-- the main loop, `updates` the calls of `updated(true)`.
pub mod State
pub mod Link
pub mod Removal
pub mod Flags
pub mod Cards
pub mod Listening
pub mod Logging
use libudjatnetwork.Prelude.{
  ℕ, zero, suc, ◌+◌, ◌*◌, ◌-◌, ◌^◌, Bool, true, false, not, ◌&&◌, ◌||◌, List, [], ◌∷◌, ◌++◌, Option,
  none, some, ◌==◌, ltb, leb, if◌then◌else◌, Result, ok, err, fault, Error, ◌>>=◌, ℤ, pos, negsuc,
  minus_one, int_eq, is_negative,
}
use libudjatnetwork.Prelude.Text.{CString, codes, same_text}
use libudjatnetwork.Udjat.{Node, Properties, as_string, is_empty}
use libudjatnetwork.SockAddr.ByteOrder.{ByteOrder, little, big}
use libudjatnetwork.Nic.State.{Intf, NicState, compare}
use libudjatnetwork.Nic.State
use libudjatnetwork.NetLink
use libudjatnetwork.NetLink.{push_back, remove}

pub record Agent : Type 0 where
  pub device : CString
  pub intf : Intf
  pub states : List NicState
  pub updates : ℕ
  pub pushed : ℕ

abbrev pub new_intf : Intf
new_intf = record { index = pos 0; netlink = false; exist = false; flags = 0 }

-- The members as a constructor leaves them.
abbrev pub new_agent : CString → Agent
new_agent name = record { device = name; intf = new_intf; states = []; updates = 0; pushed = 0 }

-- `NameFactory` and the constructor from a node.
unfoldable pub agent_of_node : Node → CString → Agent
agent_of_node node name =
    new_agent (if is_empty name then as_string (node.attribute "device-name") [] else name)

-- What the system calls answer: `socket`, `errno`, the 16 bits of `ifr_flags` or the `errno` of the
-- `ioctl`, and the names and indices of the interfaces.
pub record Os : Type 0 where
  pub socket : ℤ
  pub errno : ℤ
  pub ifr_flags : Option ℕ
  pub order : ByteOrder
  pub if_nametoindex : CString → ℤ
  pub if_indextoname : ℤ → Option CString

-- `(unsigned int) ifr.ifr_flags`, from a `short`.
unfoldable pub widened : ℕ → ℕ
widened s = if ltb s 32768 then s else s + 4294901760

-- `ifr.ifr_ifindex` after `SIOCGIFFLAGS`: the member of the same union, whose other two bytes are
-- zero.
unfoldable pub union_index : ByteOrder → ℕ → ℤ
union_index little s = pos s
union_index big s = if ltb s 32768 then pos (s * 65536) else negsuc (4294967295 - s * 65536)

-- `strcmp(a, b) == 0`
unfoldable pub equal_text : CString → CString → Bool
equal_text [] [] = true
equal_text (a ∷ as') (b ∷ bs) = (a == b) && equal_text as' bs
equal_text _ _ = false

-- `intf.flags != … || intf.index != … || intf.exist != …`
abbrev pub differs : Intf → ℕ → ℤ → Bool → Bool
differs i flags index exist =
    not (i.flags == flags) || not (int_eq i.index index) || (if exist then not i.exist else i.exist)

-- `refresh`
unfoldable pub refresh : Os → Agent → Result Bool × Agent
unfolding widened union_index
refresh os a =
    if is_negative os.socket then (err (Error.system_error os.errno), a) else elim os.ifr_flags [
      | none ↦ (
        ok (differs a.intf 0 minus_one false),
        record a { intf = record a.intf { flags = 0; exist = false; index = minus_one } },
      )
      | some s ↦ (
        ok (differs a.intf (widened s) (union_index os.order s) true),
        record a {
          intf = record a.intf { flags = widened s; index = union_index os.order s; exist = true };
        },
      )
    ]

-- The listener for `RTM_NEWLINK`, for the `ifinfomsg` of the message.
unfoldable pub on_newlink : Os → ℤ → ℕ → Agent → Agent
unfolding equal_text
on_newlink os ifi_index ifi_flags a = elim (os.if_indextoname ifi_index) [
  | none ↦ a
  | some name ↦
      let indexed = record a { intf = record a.intf { index = ifi_index } } in
      let changed = record a {
        intf = record a.intf { index = ifi_index; flags = ifi_flags; netlink = true };
        pushed = a.pushed + 1;
      } in
      if not (equal_text a.device name)
      then a
      else if not (a.intf.flags == ifi_flags)
      then changed
      else indexed
]

-- The listener for `RTM_DELLINK`.
unfoldable pub on_dellink : ℤ → ℕ → Agent → Agent
on_dellink ifi_index ifi_flags a =
    let changed = record a {
      intf = record a.intf { flags = ifi_flags; netlink = false };
      pushed = a.pushed + 1;
    } in
    if not (int_eq a.intf.index ifi_index)
    then a
    else if not (a.intf.flags == ifi_flags) || a.intf.netlink
    then changed
    else a

-- `start`, for the object that the controller knows the agent by.
unfoldable pub start :
    Os
    → NetLink.Sys
    → NetLink.Sys
    → ℕ
    → Agent
    → NetLink.Controller
    → Result (Unit {0}) × Agent × NetLink.Controller
unfolding refresh push_back
start os sys sys' object a c =
    let (r, a') = refresh os a in
    elim r [
      | ok rc ↦
          let told = record a' {
            intf = record a'.intf { index = os.if_nametoindex a.device };
            updates = if rc then a'.updates + 1 else a'.updates;
          } in
          let (r1, c1) = push_back sys object 16 c in
          elim r1 [
            | ok u ↦ let (r2, c2) = push_back sys' object 17 c1 in (r2, told, c2)
            | err e ↦ (err e, told, c1)
            | fault ↦ (fault, told, c1)
          ]
      | err e ↦ (err e, a', c)
      | fault ↦ (fault, a', c)
    ]

-- `stop`
unfoldable pub stop : ℕ → NetLink.Controller → NetLink.Controller
unfolding remove
stop object c = remove object c

-- `StateFactory`
unfoldable pub state_factory : Node → (Node → Properties) → Agent → Result (NicState × Agent)
state_factory node from_node a =
    State.factory from_node node >>= λ s. ok (s, record a { states = a.states ++ s ∷ [] })

-- The loop of `computeState`, for the state that the base class computes.
unfoldable pub first_match : Properties → List NicState → Intf → Properties
first_match base [] i = base
first_match base (s ∷ ss) i =
    let rest = first_match base ss i in if compare s.kind i then s.properties else rest

-- `computeState`
unfoldable pub compute_state : Properties → Agent → Properties
unfolding first_match
compute_state base a = first_match base a.states a.intf

-- What `Nic::Agent::Factory` makes.
pub data Made : Type 0 where
  auto_detect list agent : Made

-- `Nic::Agent::Factory`, for the value of the attribute `auto-detect`. `EINVAL` is 22.
unfoldable pub factory : Node → Bool → Result Made
factory node detect =
    let device_name = as_string (node.attribute "device-name") [] in
    if is_empty device_name
    then err (Error.system_error (pos 22))
    else if same_text device_name (codes "*") || same_text device_name (codes "all")
    then (if detect then ok auto_detect else ok list)
    else ok agent
