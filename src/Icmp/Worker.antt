-- ===== src/Icmp/Worker.antt =====
-- `ICMP::Worker`: library/icmp/worker.cc. The check of the capability `CAP_NET_RAW` only writes to
-- the log and is left out.
use libudjatnetwork.Prelude.{
  ℕ, Bool, false, Option, none, some, if◌then◌else◌, Result, ok, ◌>>=◌, ℤ, String,
}
use libudjatnetwork.Prelude.Text.{CString, codes, same_text}
use libudjatnetwork.Udjat.{Node, is_empty}
use libudjatnetwork.SockAddr.{AddressLib}
use libudjatnetwork.Icmp.Host.{Worker, Controller, World}
use libudjatnetwork.Icmp.Controller.{Sys, insert, remove}

-- `Object::getAttribute(node, name, default)` of the framework, for a number and for a flag.
pub record Attributes : Type 0 where
  pub get_unsigned : Node → String → ℕ → ℕ
  pub get_bool : Node → String → Bool → Bool

-- `Worker(time_t, time_t)`, with the address of `IP::Address()`.
unfoldable pub new_worker : AddressLib → ℕ → ℕ → Worker
new_worker lib timeout interval = record {
  addr = lib.cleared;
  timers_timeout = timeout;
  timers_interval = interval;
  time = 0;
  busy = false;
}

-- `IP::Address::set(const char *)` on a worker.
abbrev pub with_text : AddressLib → CString → Worker → Result Worker
with_text lib text w = lib.parse text >>= λ a. ok (record w { addr = a })

-- `Worker(const pugi::xml_node &, const char *)`
unfoldable pub worker_of_node : AddressLib → Attributes → Node → CString → Result Worker
unfolding new_worker
worker_of_node lib attrs node addr =
    let w =
      new_worker lib (attrs.get_unsigned node "icmp-timeout" 5)
        (attrs.get_unsigned node "icmp-interval" 1) in
    if is_empty addr
    then elim (node.attribute "ip") [ none ↦ ok w | some text ↦ with_text lib text w ]
    else with_text lib addr w

-- `start`
unfoldable pub start : World → Sys → ℕ → Controller → Result (Unit {0}) × Controller
start env sys w c = insert env sys w c

-- `stop`, also the destructor.
unfoldable pub stop : ℤ → ℕ → Controller → Controller
stop closed w c = remove closed w c

-- `getProperty`; `none` is a key that is not the worker's.
unfoldable pub get_property : AddressLib → CString → Worker → Option CString
get_property lib key w = if same_text key (codes "ip") then some (lib.print w.addr) else none

-- The values of `getProperties`; the time is in microseconds, which the code divides by a million.
pub record Values : Type 0 where
  pub icmp_timeout : ℕ
  pub icmp_interval : ℕ
  pub icmp_time : ℕ
  pub icmp_running : Bool

unfoldable pub get_properties : Worker → Values
get_properties w = record {
  icmp_timeout = w.timers_timeout;
  icmp_interval = w.timers_interval;
  icmp_time = w.time;
  icmp_running = w.busy;
}
