-- ===== src/Module.antt =====
-- The module's factories and its action, and the library's unit test: library/module.cc,
-- library/ip/factory.cc and library/testprogram.cc.
pub mod WaitForHost
pub mod UnitTest
use libudjatnetwork.Prelude.{
  ℕ, Bool, true, false, Option, none, some, List, [], ◌∷◌, if◌then◌else◌, Result, ok, err, fault,
  ◌>>=◌, Error, ℤ, pos, int_eq, is_some, String,
}
use libudjatnetwork.Prelude.Text.{CString, codes}
use libudjatnetwork.Udjat.{Node, Strings}
use libudjatnetwork.Nic
use libudjatnetwork.Nic.{Made}

-- The agents that `IP::Agent::Factory` makes.
pub data HostAgent : Type 0 where
  ip_agent gateway dns_agent : HostAgent

-- `IP::Agent::Factory`
unfoldable pub host_factory : Strings → Node → Result HostAgent
host_factory lib node =
    let choice =
      lib.select (lib.attribute_text node "type" (codes "host"))
        (codes "host" ∷ codes "default-gateway" ∷ []) in
    if int_eq choice (pos 0)
    then ok ip_agent
    else if int_eq choice (pos 1)
    then ok gateway
    else if is_some (node.attribute "hostname")
    then ok dns_agent
    else if is_some (node.attribute "ip")
    then ok ip_agent
    else err
        (Error.runtime_error "Cant identify network host type, missing attribute 'ip' or 'hostname")

-- The agent factories that the module registers, by the element's name.
pub data AgentKind : Type 0 where
  nic_kind : Made → AgentKind
  host_kind : HostAgent → AgentKind

-- `AgentFactory` of `NicFactory`, for the value of the attribute `auto-detect`.
unfoldable pub nic_agent : Node → Bool → Result AgentKind
nic_agent node detect = Nic.factory node detect >>= λ m. ok (nic_kind m)

-- `AgentFactory` of `HostFactory`.
unfoldable pub host_agent : Strings → Node → Result AgentKind
unfolding host_factory
host_agent lib node = host_factory lib node >>= λ m. ok (host_kind m)
