-- ===== src/IpAgent/Rounds.antt =====
-- Checks in a row: the agent's refresh, the echo reply of a host that answers, and the agent told of
-- it, again and again.
pub mod Hearing
use libudjatnetwork.Prelude.{
  ℕ, zero, suc, some, ◌+◌, ◌%◌, ◌<◌, ◌≡◌, ◌≢◌, refl, ap, ◌∙◌, ◌==◌, true, false, if◌then◌else◌,
  List, [], ◌∷◌, inl, arith, Result, ok, err, fault, pos, All, Returns, Returns-bind, ◌>>=◌, length,
  none, subst,
}
use libudjatnetwork.Udjat.{Framework}
use libudjatnetwork.SockAddr.{SockAddr, AddressLib, af_inet}
use libudjatnetwork.Icmp.Response.{invalid, echo_reply}
use libudjatnetwork.Icmp.State.{State}
use libudjatnetwork.Icmp.Packet.{Packet}
use libudjatnetwork.Icmp.Host.{Notice, Controller, World}
use libudjatnetwork.Icmp.Controller.{Sys, Datagram, insert, handle_event}
use libudjatnetwork.Icmp.Controller.Sending.{IsReady, first_packet}
use libudjatnetwork.Icmp.Controller.Telling.{times_told}
use libudjatnetwork.IpAgent.{Agent, set, address, refresh}
use libudjatnetwork.IpAgent.Icmp.{Shows}
use libudjatnetwork.IpAgent.Ping.{CanPing, IsAnswered, refresh-insert, ping-IsAnswered}

-- The reply of a host that answers.
abbrev pub echo : SockAddr × Packet → Datagram
echo (from, p) = record { size = pos 60; from = from; packet = record p { icmp_type = 0 } }

-- The newest packet is answered.
abbrev pub answer : World → List (SockAddr × Packet) → Controller → Controller
answer env [] c = c
answer env (p ∷ ps) c = handle_event env true (echo p) c

-- The newest notice reaches the agent, if it is for it.
abbrev pub hear : Framework → List Notice → Agent → Result Agent
hear fw [] a = ok a
hear fw (n ∷ ns) a = if n.worker == a.worker then set fw n.response a else ok a

-- One check, in the worlds of the refresh and of the reply.
abbrev pub round :
    AddressLib → Framework → Sys → World × World → Agent × Controller → Result (Agent × Controller)
round lib fw sys (env, later) (a, c) =
    let (r, a', c') = refresh lib fw env sys a c in
    let c'' = answer later c'.sent c' in hear fw c''.notices a' >>= λ a''. ok (a'', c'')

abbrev pub rounds :
    AddressLib
    → Framework
    → Sys
    → List (World × World)
    → Agent × Controller
    → Result (Agent × Controller)
rounds lib fw sys [] s = ok s
rounds lib fw sys (w ∷ ws) s = round lib fw sys w s >>= rounds lib fw sys ws

-- An agent that checks its address, is idle and has an IPv4 address, and a socket that is open or
-- opens.
abbrev pub CanCheck : AddressLib → Sys → Agent → Controller → Type 0
CanCheck lib sys a c =
    (a.check ≡ true)
    × (a.response ≡ invalid)
    × (lib.empty (address a c) ≡ false)
    × IsReady sys c
    × ((c.workers a.worker).busy ≡ false)
    × ((address a c).ss_family ≡ af_inet)

-- The next identifiers are not in the list.
abbrev pub HasFreeIds : ℕ → Controller → Type 0
HasFreeIds n c =
    (c.next_id < 65536) × ((i : ℕ) → i < n → All (λ h. h.id ≢ (c.next_id + i) % 65536) c.hosts)

-- The network carries packets to the address, and both worlds are of one process.
abbrev pub Carries : SockAddr → World × World → Type 0
Carries to (env, later) =
    ((s : ℕ) → env.sendto s to ≡ none) × (later.pid ≡ env.pid) × (later.order ≡ env.order)

-- What the agent shows after `n` answered checks: a state for the echo reply, or, without a check, the
-- one before.
abbrev pub ShowsAfter : ℕ → Agent → Agent → Type 0
ShowsAfter zero a a' = a'.icmp_state ≡ a.icmp_state
ShowsAfter (suc n) a a' = (s : State) × (a'.icmp_state ≡ some s) × (s.id ≡ echo_reply)

-- What `n` answered checks leave.
abbrev pub HasHeard : ℕ → Agent → Controller → Agent × Controller → Type 0
HasHeard n a c (a', c') =
    (c'.hosts ≡ c.hosts)
    × (length c'.sent ≡ n + length c.sent)
    × (length c'.notices ≡ n + length c.notices)
    × (a'.updates ≡ a.updates + n)
    × (a'.worker ≡ a.worker)
    × (address a' c' ≡ address a c)
    × (times_told a.worker echo_reply c'.notices ≡ n + times_told a.worker echo_reply c.notices)
    × ShowsAfter n a a'
