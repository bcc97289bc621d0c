-- ===== src/Tests/Checks.antt =====
-- A check as a whole, and waiting for a host.
use libudjatnetwork.Prelude.{
  inl, ℕ, suc, ◌+◌, ◌*◌, ◌≤◌, ◌≡◌, refl, true, false, [], ◌∷◌, Option, none, some, leb, ok, pos,
  All, Returns, arith, if◌then◌else◌,
}
use libudjatnetwork.Prelude.Text.{CString, codes, same_text}
use libudjatnetwork.Icmp.Response.{timeout}
use libudjatnetwork.Icmp.Packet.{htons, echo_request, unsigned_request}
use libudjatnetwork.Icmp.Host.{World, current_time}
use libudjatnetwork.Icmp.Controller.{Datagram, handle_event, on_timer}
use libudjatnetwork.Icmp.Controller.Telling.{times_told}
use libudjatnetwork.Icmp.Controller.Timers.{IsInTime}
use libudjatnetwork.Icmp.Worker.{Attributes}
use libudjatnetwork.IpAgent
use libudjatnetwork.IpAgent.Icmp.{Shows}
use libudjatnetwork.IpAgent.Ping.{CanPing, IsAnswered, ping-IsAnswered, ping-unanswered}
use libudjatnetwork.IpAgent.Reading.{Reads, agent_of_node, agent_of_node-Reads}
use libudjatnetwork.Dns.Record.{Rr, record_of, address_value}
use libudjatnetwork.Dns.Resolver.{Resolver, Answer, Net, failed, answered, wait}
use libudjatnetwork.Dns.Resolver.Found.{HasFound, wait-HasFound}
use libudjatnetwork.Module.WaitForHost.{WaitForHost, Meanwhile}
use libudjatnetwork.Dns.Resolver.TimedOut.{gave_up, wait-gave_up}
use libudjatnetwork.Icmp.Controller.Sweep.{count_of}
use libudjatnetwork.Icmp.Controller.Accounts.Passes.{notices_for}
use libudjatnetwork.Module.UnitTest.{run_udjat_unit_test, run_udjat_unit_test-passes}
use libudjatnetwork.Tests.{
  host_word, net_word, ipv4, framework, addresses, idle_controller, busy_controller, world, sys,
  agent, node,
}

-- The network is there.
abbrev pub reachable : World
reachable = record world { sendto = λ s a. none }

abbrev pub agent_8 : IpAgent.Agent
agent_8 = record agent { worker = 8 }

can_ping : CanPing addresses reachable sys agent_8 busy_controller
can_ping = (refl, refl, refl, (inl (4, refl), (refl, refl, refl)))

abbrev reply : Datagram
reply = record {
  size = pos 60;
  from = ipv4 host_word;
  packet = record {
    icmp_type = 0;
    icmp_cksum = 0;
    icmp_id = 19712;
    icmp_seq = 0;
    payload = record { id = 4; seq = 1; time = 50000000 };
  };
}

ping-IsAnswered_example :
    let (done, a', c') =
      IpAgent.refresh addresses framework reachable sys agent_8 busy_controller in
    (done ≡ ok false)
    × IsAnswered reachable world
        (ipv4 host_word)
        agent_8
        framework
        busy_controller
        (a', c')
        (handle_event world true reply c')
unfolding echo_request unsigned_request htons current_time
ping-IsAnswered_example =
    ping-IsAnswered addresses framework reachable world sys agent_8 busy_controller reply can_ping
      ((λ e. ground (arith, e)), tt) refl refl (refl, refl, refl, refl)

-- Half a minute later.
abbrev late : World
late = record reachable { now = 133 }

ping-unanswered_example :
    let (done, a', c') =
      IpAgent.refresh addresses framework reachable sys agent_8 busy_controller in
    Returns
      (λ c''.
        All (IsInTime 133) c''.hosts
        × (suc (times_told 8 timeout []) ≤ times_told 8 timeout c''.notices)
        × (notices_for 8 c''.notices + count_of 8 c''.hosts ≡ 1))
      (on_timer late (pos 0) c')
    × Returns (Shows timeout agent_8) (IpAgent.set framework timeout a')
ping-unanswered_example =
    ping-unanswered addresses framework reachable late sys agent_8 busy_controller (pos 0) can_ping
      ((tt, tt), (omega arith, tt)) (omega arith)

abbrev attributes : Attributes
attributes = record { get_unsigned = λ n k d. d; get_bool = λ n k d. d }

abbrev text : CString
text = codes "192.168.1.10"

agent_of_node-Reads_example :
    Returns
      (λ r. (r.0.check ≡ true) × Reads addresses (λ k. none) (codes "IP") text 7 idle_controller r)
      (agent_of_node addresses attributes (node text) [] 7)
unfolding same_text
agent_of_node-Reads_example =
    agent_of_node-Reads addresses attributes (node text) (λ k. none) (codes "IP") text 7
      idle_controller (ipv4 host_word) refl refl refl refl

-- A name that resolves in the third turn of a loop of five seconds.
abbrev record_a : Rr
record_a = record {
  name = codes "host";
  type = 1;
  rr_class = 1;
  ttl = 60;
  rdlength = 4;
  rdata_word = net_word;
  expanded = none;
}

abbrev third : ℕ → Option ℕ → CString → Answer
third i s n = if leb 2 i then answered (record_a ∷ []) else failed (pos 2)

abbrev resolver : Resolver
resolver = record { nameserver = none; records = [] }

wait-HasFound_example :
    HasFound (wait addresses 100 (λ i. 100 + i * 5) third (codes "host") 60 61 resolver)
unfolding record_of address_value
wait-HasFound_example =
    wait-HasFound addresses 100 (λ i. 100 + i * 5) third (codes "host") 60 2 58 resolver refl
      (omega arith, tt, (omega arith, tt, (omega arith, (tt, tt))))

abbrev action : WaitForHost
action = record { hostname = codes "host"; timeout = 60; interval = 5 }

abbrev meanwhile : Meanwhile
meanwhile = record { begin_time = 100; clock = λ i. 100 + i * 5; nquery = third }

abbrev net : Net
net = record { ninit = true; nquery = third 0 }

-- "localhost" is found in the third turn of a wait of ten seconds, and then nothing else.
abbrev found_meanwhile : Meanwhile
found_meanwhile = record { begin_time = 100; clock = λ i. 100 + i; nquery = third }

abbrev silent_meanwhile : Meanwhile
silent_meanwhile = record {
  begin_time = 103;
  clock = λ i. 103 + i;
  nquery = λ i s n. failed (pos 1);
}

run_udjat_unit_test-passes_example :
    run_udjat_unit_test addresses net found_meanwhile silent_meanwhile 12 ≡ some (ok (pos 0))
unfolding record_of address_value
run_udjat_unit_test-passes_example =
    run_udjat_unit_test-passes addresses net found_meanwhile silent_meanwhile 2 4 refl
      (omega arith, tt, (omega arith, tt, (omega arith, (tt, tt)))) (omega arith) (λ i. omega arith)
      (λ i s. tt)

wait-gave_up_example :
    wait addresses 103 (λ i. 103 + i) silent_meanwhile.nquery (codes "host") 5 6 resolver
    ≡ gave_up resolver
wait-gave_up_example =
    wait-gave_up addresses 103 (λ i. 103 + i) silent_meanwhile.nquery (codes "host") 5 0 resolver
      refl (omega arith) (λ i. omega arith) (λ i. tt)
