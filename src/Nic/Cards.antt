-- ===== src/Nic/Cards.antt =====
-- `Nic::List` and `Nic::AutoDetect`: library/nic/list.cc, library/os/linux/niclist.cc and
-- library/os/linux/nicdetect.cc. The interfaces are what `Network::Interface::for_each` of the
-- framework goes through; the carrier text is what `File::Text` reads from /sys/class/net, or the
-- exception that it throws.
pub mod Counting
pub mod Names
use libudjatnetwork.Prelude.{
  ℕ, suc, ◌+◌, Bool, true, false, not, ◌&&◌, List, [], ◌∷◌, ◌++◌, Option, none, some, if◌then◌else◌,
  map, Result, ok, err, fault, ◌>>=◌, ℤ, pos, int_eq,
}
use libudjatnetwork.Prelude.Text.{CString, codes, same_text}
use libudjatnetwork.Udjat.{Node, is_empty}
use libudjatnetwork.Subnet.{stoi}
use libudjatnetwork.NetLink
use libudjatnetwork.NetLink.{remove}
use libudjatnetwork.Nic.{Agent, agent_of_node}

pub record Interface : Type 0 where
  pub name : CString
  pub up : Bool
  pub loopback : Bool
  pub carrier_file : Result CString

-- `carrier`
unfoldable pub carrier : Interface → Result Bool
carrier i = i.carrier_file >>= λ text. stoi text >>= λ n. ok (not (int_eq n (pos 0)))

-- `interface.up() && carrier(interface.name())`
unfoldable pub up_with_carrier : Interface → Result Bool
unfolding carrier
up_with_carrier i = if i.up then carrier i else ok false

-- The loop of `active`.
unfoldable pub active_loop : List Interface → ℕ → Result ℕ
unfolding up_with_carrier
active_loop [] active = ok active
active_loop (i ∷ is') active =
    up_with_carrier i >>= λ b. active_loop is' (if b then active + 1 else active)

-- `active`
unfoldable pub active : List Interface → Result ℕ
unfolding active_loop
active ifs = active_loop ifs 0

-- `refresh`, for the method `set` of the framework's `Agent<unsigned int>`.
unfoldable pub refresh {ℓ} :
    {A : Type ℓ} → (ℕ → A → Bool × A) → List Interface → A → Result (Bool × A)
unfolding active
refresh set_value ifs a = active ifs >>= λ n. ok (set_value n a)

-- `start`, for the method of the base class that takes the first value.
unfoldable pub start {ℓ} : {A : Type ℓ} → (ℕ → A → A) → List Interface → A → Result A
unfolding active
start base ifs a = active ifs >>= λ n. ok (base n a)

-- The property `active`: the name of the first interface that is no loopback and has a carrier.
unfoldable pub get_active : List Interface → CString → Result CString
unfolding up_with_carrier
get_active [] value = ok value
get_active (i ∷ is') value = (if i.loopback then ok false else up_with_carrier i) >>= λ b.
    if b then ok i.name else get_active is' value

-- The property `nics`: the names that are no loopback, behind what the value holds.
unfoldable pub get_nics : List Interface → CString → CString
get_nics [] value = value
get_nics (i ∷ is') value =
    get_nics is'
      (if i.loopback then value else if is_empty value then i.name else value ++ (b',' ∷ i.name))

-- `getProperty`; `none` is the answer of the base class.
unfoldable pub get_property : List Interface → CString → CString → Option (Result CString)
unfolding get_active get_nics
get_property ifs key value =
    if same_text key (codes "active")
    then some (get_active ifs value)
    else if same_text key (codes "nics")
    then some (ok (get_nics ifs value))
    else none

-- `getProperties(path, value)` behind the base class's: the carrier of the first interface with the
-- name, or `none` where there is none.
unfoldable pub path_carrier : List Interface → CString → Result (Option Bool)
unfolding carrier
path_carrier [] path = ok none
path_carrier (i ∷ is') path =
    let rest = path_carrier is' path in
    if same_text i.name path then (carrier i >>= λ b. ok (some b)) else rest

-- `getProperties(path, value)`: an empty path has no properties.
unfoldable pub get_path : List Interface → CString → Result (Option Bool)
unfolding path_carrier
get_path ifs path = if is_empty path then ok none else path_carrier ifs path

-- The constructor of `AutoDetect`: an agent for every interface, the loopback included.
unfoldable pub detected : Node → List Interface → List Agent
unfolding agent_of_node
detected node ifs = map (λ i. agent_of_node node i.name) ifs

-- `AutoDetect::stop`, and its destructor, besides the base class's.
unfoldable pub stop_detection : ℕ → NetLink.Controller → NetLink.Controller
unfolding remove
stop_detection object c = remove object c
