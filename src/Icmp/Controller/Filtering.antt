-- ===== src/Icmp/Controller/Filtering.antt =====
-- What a datagram does to any list of hosts, also one in which identifiers repeat.
use libudjatnetwork.Prelude.{
  ℕ, ◌≡◌, ◌≢◌, refl, ap, ◌∙◌, true, false, not, List, [], ◌∷◌, keep_if, inl, inr, Bool-cases, ◌==◌,
  ==_iff, if◌then◌else◌, arith, Option,
}
use libudjatnetwork.SockAddr.{SockAddr}
use libudjatnetwork.Icmp.Response.{Response}
use libudjatnetwork.Icmp.Packet.{Payload}
use libudjatnetwork.Icmp.Host.{Host, Notice, Controller, World, idle, on_response}
use libudjatnetwork.Icmp.Controller.{Datagram, accepted, sweep, deliver, handle_event}
use libudjatnetwork.Icmp.Controller.Sweep.{count_of, sweep-gone}
use libudjatnetwork.Icmp.Controller.Replies.{
  told, response_of_type, answered, notices-idle, on_response-other, sweep-step,
}

-- The hosts with the payload's identifier, and the others.
abbrev pub matching : Payload → List Host → List Host
matching p hs = keep_if (λ h. p.id == h.id) hs

abbrev pub others : Payload → List Host → List Host
others p hs = keep_if (λ h. not (p.id == h.id)) hs

-- The notices when each worker of a list of hosts is told in turn.
abbrev pub tell_all : SockAddr → Option Response → List Host → List Notice → List Notice
tell_all a r [] ns = ns
tell_all a r (h ∷ hs) ns = tell_all a r hs (told h.worker a r ns)

-- What is left of a list and a controller after the hosts with the identifier are answered.
abbrev pub Filters :
    SockAddr → Option Response → Payload → List Host → Controller → List Host × Controller → Type 0
Filters a r p hs c s =
    (s.0 ≡ others p hs)
    × (s.1.notices ≡ tell_all a r (matching p hs) c.notices)
    × ((w : ℕ)
        → (s.1.workers w).busy
          ≡ (if count_of w (matching p hs) == 0 then (c.workers w).busy else false))

idle-busy :
    (c : Controller) (v w : ℕ)
    → ((idle c v).workers w).busy ≡ (if v == w then false else (c.workers w).busy)
unfolding idle
idle-busy c v w = ground (arith, ==_iff v w)

on_response-busy :
    (env : World) (t : ℕ) (a : SockAddr) (p : Payload) (h : Host) (c : Controller) (w : ℕ)
    → ((on_response env t a p h c).1.workers w).busy ≡ (c.workers w).busy
unfolding on_response
on_response-busy env t a p h c w = ground (arith, ==_iff h.worker w)

module _ (env : World) (t : ℕ) (a : SockAddr) (p : Payload) (foreign : t ≢ 8) where
  sweep-Filters :
      (hs : List Host) (c : Controller)
      → Filters a (response_of_type t) p hs c (sweep (on_response env t a p) hs c)
  unfolding sweep
  sweep-Filters [] c = (refl, refl, λ w. refl)
  sweep-Filters (h ∷ hs) c = elim (Bool-cases (p.id == h.id)) [
    | inl e ↦
        let f = on_response env t a p in
        let (gone, notes) = answered env t a p h c ((==_iff p.id h.id).0 e) foreign in
        let c' = idle (f h c).1 h.worker in
        let (kept, heard, busy) = sweep-Filters hs c' in
        rw (sweep-gone f h hs c gone, e)
          (
            kept,
            heard
                ∙ ap (tell_all a (response_of_type t) (matching p hs))
                    (notices-idle (f h c).1 h.worker ∙ notes),
            λ w.
                ground
                  (arith, busy w, idle-busy (f h c).1 h.worker w, on_response-busy env t a p h c w),
          )
    | inr e ↦
        let f = on_response env t a p in
        let spared = on_response-other env t a p h (λ q. ground (arith, ==_iff p.id h.id, q, e)) in
        let (kept, heard, busy) = sweep-Filters hs c in
        rw (sweep-step f h hs c spared, e) (ap (λ l. h ∷ l) kept, heard, busy)
  ]

-- An accepted datagram that is no echo request, in any list of hosts: the hosts with its identifier go
-- and the others stay, in their order; each worker of a host that goes is told the response of the
-- datagram's type in turn, or nothing where the type is none of the three known ones; and the workers
-- that are busy afterwards are those that were and had no such host.
pub handle_event-Filters :
    (env : World) (d : Datagram) (c : Controller)
    → d.packet.icmp_type ≢ 8
    → accepted env d ≡ true
    → let c' = handle_event env true d c in
      Filters d.from (response_of_type d.packet.icmp_type) d.packet.payload c.hosts c (c'.hosts, c')
unfolding handle_event deliver
handle_event-Filters env d c foreign tests =
    rw (tests, handle_event)
      (sweep-Filters env d.packet.icmp_type d.from d.packet.payload foreign c.hosts c)
