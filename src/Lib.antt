-- ===== src/Lib.antt =====
-- libudjatnetwork gives the agent framework libudjat its network agents: hosts that are pinged, the
-- default gateway, network cards, and names that are resolved. This development models the Linux
-- implementation of the library.
--
-- Parts and files (the paths are those below the repository's folder src):
-- - Prelude: shared notation, results of C++ code (a value, an exception, or undefined behaviour),
--   Boolean tests, lists, C strings, `&` on machine words.
-- - Udjat, SockAddr: what the code takes from libudjat and the C library. `Framework`, `AddressLib`
--   and `DnsLib` are records of operations that are parameters of the model; the byte order of the
--   host is a parameter too.
-- - Subnet: `IP::SubNet` of library/ip/subnet.cc and library/os/linux/subnet.cc. `contains` is
--   `contains_in` (IPv4), `contains_in6` and their dispatch; `set` and `to_string` parse and print;
--   `for_each` walks the interfaces.
-- - Icmp: the enum and its names (Response), the states (State), the checksum (Checksum), the packets
--   (Packet), the workers and hosts of library/os/linux/icmphost.cc (Host), and the controller of
--   library/os/linux/icmp_controller.cc (Controller) with `insert`, `remove`, `handle_event`,
--   `on_timer` and `send`, here `transmit` and `purge`; library/icmp/worker.cc (Worker). The
--   controller's definitions stand in Icmp/Controller and its children Socket, Sender and Ticks.
--   Icmp/Controller/View is the controller up to the order of its list, and Icmp/Controller/Moves the
--   machine that its histories refine in this view; Icmp/Controller/ToldOnce and
--   Icmp/Controller/ToldAll count what the workers are told, Icmp/Controller/Settling is about the end
--   of their checks, and Icmp/Controller/Orders about the order of replies. Icmp/Controller/Rule is the
--   rule that what the primitive steps keep, every history keeps; IpAgent/Heard and
--   Icmp/Controller/Settling apply it. Icmp/Controller/Filtering is about lists in which identifiers
--   repeat.
-- - IpState, IpAgent: library/ip/state.cc and library/ip/agent.cc. An agent is a worker of the ICMP
--   controller; `refresh` inserts it there, and the controller's notices reach `set`. IpAgent/Reading
--   is the constructor and what readers get, IpAgent/Matching the choice of the shown state,
--   IpAgent/Ping a check from end to end, IpAgent/Rounds checks in a row, IpAgent/Heard an agent beside
--   any history of the controller, with IpAgent/Heard/Settled for the end of its checks, and
--   Dns/Agent/Ping and Gateway/Ping the checks of a name and of the gateway.
-- - NetLink: library/os/linux/netlink.cc, the listeners of the kernel's messages.
-- - Gateway: library/os/linux/defaultgateway.cc and library/defaultgateway.cc, an IP agent that asks
--   the kernel for its address (`detect`); Gateway/Answer is its request and the answer, Gateway/Parser
--   the loops over the answer.
-- - Nic: library/os/linux/nicagent.cc, library/os/linux/nicstate.cc and library/nic, an agent that
--   follows its interface by `refresh` and by two listeners of NetLink. Nic/Listening puts the agents
--   behind the controller that they share; Nic/Cards is library/nic/list.cc with its parts in
--   library/os/linux/niclist.cc and library/os/linux/nicdetect.cc.
-- - Dns: library/dns, an IP agent that takes its address from a resolver (Record, Resolver, State,
--   Agent). The resolver's `wait` finds a name in Dns/Resolver/Found, and gives it up in
--   Dns/Resolver/TimedOut.
-- - Module: the factories of library/ip/factory.cc and library/module.cc, the action that waits for a
--   host (Module/WaitForHost), and the unit test of library/testprogram.cc (Module/UnitTest).
-- - Tests: test data, and the theorems at concrete inputs.
--
-- State is passed explicitly: each method is a function from the state before to the result and the
-- state after, and the system calls' answers are arguments. Objects that share memory are numbers in
-- one store: workers are numbers, and the controller's record maps them to their members. Methods that
-- hold a lock are one step. An exception keeps the state that the code has reached by then.
--
-- Loops are recursion on the list or the bytes that they read. Three have fuel: the walk of `on_timer`,
-- with the length of the list; the loop over a netmask of `for_each`, with 65 rounds, since a word of 64
-- bits is 0 after 64 shifts; and the loop of `DNS::Resolver::wait`. A theorem says for each that the
-- fuel is enough.
--
-- Not modelled: logging, except for the text of the network card's flags (Nic/Logging), and translated
-- messages; the module's entry point and the program that loads it; the Windows port, another
-- implementation of the same classes, of which some are stubs and one includes a header that the
-- repository does not have; library/range.cc, which is commented out; and what libudjat, the kernel
-- and the C library do inside.
pub mod Prelude
pub mod SockAddr
pub mod Subnet
pub mod Udjat
pub mod Icmp
pub mod IpState
pub mod IpAgent
pub mod NetLink
pub mod Gateway
pub mod Nic
pub mod Dns
pub mod Module
pub mod Tests
