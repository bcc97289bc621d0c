-- ===== src/Tests.antt =====
-- Test data, runs on concrete inputs, and the theorems applied to such inputs.
mod Address
mod Ping
mod Agents
mod Links
mod Names
mod Checks
mod Rounds
mod Gateways
use libudjatnetwork.Prelude.{
  ℕ, Bool, ◌==◌, ◌&&◌, Result, true, false, List, [], ◌∷◌, none, some, ok, err, invalid_argument,
  pos, minus_one, negsuc,
}
use libudjatnetwork.Prelude.Text.{CString, codes}
use libudjatnetwork.Udjat.{Level, ready, Node, Properties, Framework}
use libudjatnetwork.SockAddr.{SockAddr, AddressLib, zeroed, af_inet}
use libudjatnetwork.SockAddr.ByteOrder.{little}
use libudjatnetwork.Icmp.Response.{Response, invalid}
use libudjatnetwork.Icmp.Packet.{Payload, Packet}
use libudjatnetwork.Icmp.Host.{Worker, Host, Controller, World}
use libudjatnetwork.Icmp.Controller.{Sys}
use libudjatnetwork.IpAgent

-- 192.168.1.10 and 192.168.0.0 as a little-endian machine reads them.
abbrev pub host_word : ℕ
host_word = 167880896

abbrev pub net_word : ℕ
net_word = 43200

abbrev pub ipv4 : ℕ → SockAddr
ipv4 a = record { ss_family = af_inet; s_addr = a }

abbrev pub properties : Properties
properties = record {
  name = codes "state";
  level = ready;
  label = [];
  summary = [];
  body = [];
  icon = [];
}

-- A framework without translations.
abbrev pub framework : Framework
framework = record {
  from_node = λ n. properties;
  from_name = λ n l. record properties { name = n; level = l };
  translate = λ t. t;
  expand = λ t. t;
  get_attribute = λ n k. n.attribute k;
}

-- An address library that knows one host.
abbrev pub parse_one : CString → Result SockAddr
parse_one [] = err invalid_argument
parse_one (c ∷ cs) = ok (ipv4 host_word)

abbrev pub has_family : SockAddr → Bool
has_family a = a.ss_family == 0

abbrev pub same_address : SockAddr → SockAddr → Bool
same_address a b = (a.ss_family == b.ss_family) && (a.s_addr == b.s_addr)

abbrev pub addresses : AddressLib
addresses = record {
  empty = has_family;
  parse = parse_one;
  print = λ a. codes "192.168.1.10";
  equal = same_address;
  cleared = zeroed;
  assign = λ a. a;
}

abbrev pub worker : Bool → Worker
worker b = record {
  addr = ipv4 host_word;
  timers_timeout = 10;
  timers_interval = 2;
  time = 0;
  busy = b;
}

-- The worker 7 has a host when the list is `ping_host ∷ []`.
abbrev pub ping_host : Host
ping_host = record { worker = 7; id = 3; timeout_at = 102; packets = 1; next = 102 }

abbrev pub controller : List Host → (ℕ → Worker) → Controller
controller hosts workers = record {
  hosts = hosts;
  fd = pos 5;
  timer_enabled = true;
  handler_enabled = true;
  workers = workers;
  next_id = 4;
  seq = 9;
  sent = [];
  notices = [];
}

abbrev pub idle_controller : Controller
idle_controller = controller [] (λ w. worker false)

abbrev pub busy_controller : Controller
busy_controller = controller (ping_host ∷ []) (λ w. worker (w == 7))

-- A second in which `sendto` always reports an unreachable network.
abbrev pub world : World
world = record {
  now = 103;
  tv_sec = 50;
  tv_nsec = 0;
  pid = 77;
  order = little;
  sendto = λ s a. some (pos 101);
}

abbrev pub sys : Sys
sys = record {
  icmp_known = true;
  socket = pos 5;
  getfl_fails = false;
  setfl_fails = false;
  errno = pos 1;
  closed = minus_one;
}

abbrev pub agent : IpAgent.Agent
agent = record {
  worker = 7;
  check = true;
  response = invalid;
  icmp_states = [];
  icmp_state = none;
  ip_states = [];
  ip_state = none;
  updates = 0;
}

-- An XML node with one attribute's value under every name.
abbrev pub node : CString → Node
node t = record { attribute = λ n. some t }
