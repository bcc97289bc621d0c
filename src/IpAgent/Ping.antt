-- ===== src/IpAgent/Ping.antt =====
-- A check from the agent's refresh to the state of the response: the agent, the controller, the packet
-- and the reply together.
use libudjatnetwork.Prelude.{
  ℕ, suc, ◌+◌, ◌%◌, ◌<◌, ◌≤◌, ◌≡◌, ◌≢◌, refl, ◌==◌, true, false, ◌&&◌, not, ap, ◌∙◌, [], ◌∷◌, ◌++◌,
  arith, ok, ℤ, pos, All, Returns, Returns-mono, Returns-OnOk, OnOk-mono,
}
use mathlib.Core.List.{append-nil}
use libudjatnetwork.Udjat.{Framework}
use libudjatnetwork.SockAddr.{SockAddr, AddressLib}
use libudjatnetwork.SockAddr.ByteOrder.{ByteOrder, little, big}
use libudjatnetwork.Icmp.Response.{invalid, echo_reply, timeout}
use libudjatnetwork.Icmp.Packet.{Payload, Packet, htons, echo_request, unsigned_request}
use libudjatnetwork.Icmp.Host.{Controller, World, current_time, distance}
use libudjatnetwork.Icmp.Controller.{Sys, Datagram, accepted, insert, handle_event, on_timer}
use libudjatnetwork.Icmp.Controller.Sending.{first_host, first_packet, CanSend, insert-HasSent}
use libudjatnetwork.Icmp.Controller.Replies.{handle_event-answer, handle_event-IsTimed}
use libudjatnetwork.Icmp.Controller.Telling.{times_told, on_timer-tells}
use libudjatnetwork.Icmp.Controller.Sweep.{count_of, count_of-append}
use libudjatnetwork.Icmp.Controller.Accounts.{on_timer-account}
use libudjatnetwork.Icmp.Controller.Accounts.Passes.{notices_for, account}
use libudjatnetwork.Icmp.Controller.Timers.{HasDistinctIds, IsInTime}
use libudjatnetwork.Icmp.Controller.Histories.{IsFresh, HasDistinctIds-last}
use libudjatnetwork.IpAgent.{Agent, set, address, start_check, refresh}
use libudjatnetwork.IpAgent.Icmp.{Shows, set-Shows}

-- An agent that checks its address, and a controller that can send to it.
abbrev pub CanPing : AddressLib → World → Sys → Agent → Controller → Type 0
CanPing lib env sys a c =
    (a.check ≡ true)
    × (a.response ≡ invalid)
    × (lib.empty (address a c) ≡ false)
    × CanSend env sys a.worker c

pub refresh-insert :
    (lib : AddressLib) (fw : Framework) (env : World) (sys : Sys) (a : Agent) (c : Controller)
    → CanPing lib env sys a c
    → refresh lib fw env sys a c ≡ (ok false, a, (insert env sys a.worker c).1)
unfolding refresh start_check
refresh-insert lib fw env sys a c (k, r, e, can) =
    let (done, sent) = insert-HasSent env sys a.worker c can in
    let idle : (a.check && not (c.workers a.worker).busy) ≡ true = ground (arith, k, can.1.0) in
    rw (e, refresh) (rw (idle, start_check) (rw (done, start_check) refl))

htons_twice : (o : ByteOrder) (n : ℕ) → htons o (htons o n) ≡ n % 65536
unfolding htons
htons_twice little n = omega arith
htons_twice big n = omega arith

-- A reply of 60 bytes to a packet, read by a process of the given identifier.
abbrev pub RepliesTo : Packet → Datagram → Type 0
RepliesTo p d =
    (d.size ≡ pos 60)
    × (d.packet.icmp_type ≡ 0)
    × (d.packet.icmp_id ≡ p.icmp_id)
    × (d.packet.payload ≡ p.payload)

replies-accepted :
    (env later : World) (c : Controller) (d : Datagram)
    → later.pid ≡ env.pid
    → later.order ≡ env.order
    → RepliesTo (first_packet env c) d
    → accepted later d ≡ true
unfolding echo_request unsigned_request
replies-accepted env later c d p o (s, t, i, l) =
    let mine : htons later.order d.packet.icmp_id ≡ later.pid % 65536 =
      rw (o, i, p) (htons_twice env.order env.pid) in
    let same : (later.pid % 65536 == later.pid % 65536) ≡ true = ground arith in
    rw s (rw mine (rw same refl))

-- What the next check of the agent meets: the open socket, the next identifier, and the address.
abbrev pub IsOpenFor : ℕ → Controller → Controller → Type 0
IsOpenFor w c c' =
    ((n : ℕ) × (c'.fd ≡ pos (suc n)))
    × (c'.next_id ≡ (c.next_id + 1) % 65536)
    × ((c'.workers w).addr ≡ (c.workers w).addr)

-- What an answered check leaves: the packet was sent, the list is what it was, the agent is idle, it
-- was told the echo reply, for which it then shows a state, its `time` is the distance of the two
-- readings of the clock, the next check meets an open socket, and the reply sent nothing.
abbrev pub IsAnswered :
    World
    → World
    → SockAddr
    → Agent
    → Framework
    → Controller
    → Agent × Controller
    → Controller
    → Type 0
IsAnswered env later from a fw c s c' =
    (s.1.sent ≡ (address a c, first_packet env c) ∷ c.sent)
    × (c'.hosts ≡ c.hosts)
    × ((c'.workers a.worker).busy ≡ false)
    × (c'.notices ≡ record { worker = a.worker; response = echo_reply; from = from } ∷ c.notices)
    × Returns (Shows echo_reply a) (set fw echo_reply s.0)
    × ((c'.workers a.worker).time
        ≡ distance (current_time env.tv_sec env.tv_nsec) (current_time later.tv_sec later.tv_nsec))
    × IsOpenFor a.worker c c'
    × (c'.sent ≡ s.1.sent)

-- An agent that checks its address and can send refreshes, in a list without the identifier that is
-- next. Then a later event reads an echo reply to the packet of this refresh, in the same process.
-- The refresh sends the packet and returns false; the reply takes the agent's host from the list and
-- nothing else, sets the agent idle, and tells it the echo reply, for which it shows a state. The
-- agent's `time` is the distance of the clock at the two events; the socket is open, the counter of
-- identifiers is one further, modulo 65536, the agent's address is what it was, and the reply sends
-- nothing.
pub ping-IsAnswered :
    (lib : AddressLib) (fw : Framework) (env later : World) (sys : Sys) (a : Agent) (c : Controller)
    (d : Datagram)
    → CanPing lib env sys a c
    → All (λ h. h.id ≢ c.next_id) c.hosts
    → later.pid ≡ env.pid
    → later.order ≡ env.order
    → RepliesTo (first_packet env c) d
    → let (done, a', c') = refresh lib fw env sys a c in
      (done ≡ ok false) × IsAnswered env later d.from a fw c (a', c') (handle_event later true d c')
unfolding echo_request unsigned_request
ping-IsAnswered lib fw env later sys a c d can fresh p o reply =
    let (done, (listed, sent, notices, opened, next, addr)) =
      insert-HasSent env sys a.worker c can.3 in
    let c' = (insert env sys a.worker c).1 in
    let h = first_host env a.worker (c.workers a.worker) c.next_id in
    let mine : d.packet.payload.id ≡ c.next_id = ap (λ (l : Payload). l.id) reply.3 in
    let others : All (λ x. x.id ≢ d.packet.payload.id) (c.hosts ++ []) =
      rw append-nil (rw mine fresh) in
    let tests = replies-accepted env later c d p o reply in
    let (left, idle, heard) =
      handle_event-answer later d c' c.hosts h [] listed others mine
        (λ e. ground (arith, e, reply.1)) tests in
    let (time, fd, counted, same, still) =
      handle_event-IsTimed later d c' c.hosts h [] listed others mine reply.1 tests in
    let sent_at : d.packet.payload.time ≡ current_time env.tv_sec env.tv_nsec =
      ap (λ (l : Payload). l.time) reply.3 in
    let other : echo_reply ≢ a.response = (λ e. ground (arith, e, can.1)) in
    let shown = set-Shows fw echo_reply a other in
    let told_reply = heard ∙ rw (reply.1, notices) refl in
    rw (refresh-insert lib fw env sys a c can) (
      refl,
      (
        sent,
        left ∙ append-nil c.hosts,
        idle,
        told_reply,
        shown,
        time ∙ rw sent_at refl,
        ((opened.0, fd ∙ opened.1), counted ∙ next, same ∙ addr),
        still,
      ),
    )

-- An agent that checks its address and can send refreshes, where the identifiers in the list are
-- distinct and below the next one. If the next event is a timer tick after the interval, because no
-- reply was read, the tick returns, no host is left whose time has run out, and the agent has been told
-- the response timeout at least once more than before, for which it shows a state. Its notices and its
-- hosts are together exactly one more than before the refresh, so that its check is told only once.
pub ping-unanswered :
    (lib : AddressLib) (fw : Framework) (env later : World) (sys : Sys) (a : Agent) (c : Controller)
    (closed : ℤ)
    → CanPing lib env sys a c
    → IsFresh c.hosts c.next_id
    → env.now + (c.workers a.worker).timers_interval < later.now
    → let (done, a', c') = refresh lib fw env sys a c in
      Returns
        (λ c''.
          All (IsInTime later.now) c''.hosts
          × (suc (times_told a.worker timeout c.notices) ≤ times_told a.worker timeout c''.notices)
          × (notices_for a.worker c''.notices + count_of a.worker c''.hosts
              ≡ suc (notices_for a.worker c.notices + count_of a.worker c.hosts)))
        (on_timer later closed c')
      × Returns (Shows timeout a) (set fw timeout a')
ping-unanswered lib fw env later sys a c closed can fresh l =
    let (done, (listed, sent, notices, _, _, _)) = insert-HasSent env sys a.worker c can.3 in
    let c' = (insert env sys a.worker c).1 in
    let h = first_host env a.worker (c.workers a.worker) c.next_id in
    let distinct : HasDistinctIds c'.hosts =
      rw listed (HasDistinctIds-last c.hosts h fresh.0 fresh.1) in
    let other : timeout ≢ a.response = (λ e. ground (arith, e, can.1)) in
    let tells = on_timer-tells later closed c' c.hosts h [] listed distinct l in
    let once : account a.worker c'.hosts c' ≡ suc (account a.worker c.hosts c) =
      rw (listed, notices) (ground (arith, count_of-append a.worker c.hosts (h ∷ []))) in
    let exact =
      OnOk-mono _
        (λ (c'' : Controller). account a.worker c''.hosts c'' ≡ suc (account a.worker c.hosts c))
        (λ c'' e. e ∙ once) (on_timer later closed c')
        (on_timer-account a.worker later closed c') in
    let both = Returns-OnOk _ _ (on_timer later closed c') (rw notices at tells) exact in
    rw (refresh-insert lib fw env sys a c can) (
      Returns-mono _ _ (λ c'' r. (r.0.0, r.0.1, r.1)) (on_timer later closed c') both,
      set-Shows fw timeout a other,
    )
