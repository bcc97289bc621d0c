-- ===== src/IpAgent/Refresh.antt =====
-- What `refresh` does to the agent and to the ICMP controller.
use libudjatnetwork.Prelude.{
  ℕ, ◌≤◌, ◌≡◌, true, false, List, [], ◌∷◌, ◌++◌, none, inl, inr, arith, Bool-cases, ok,
}
use libudjatnetwork.Udjat.{Framework}
use libudjatnetwork.SockAddr.{AddressLib}
use libudjatnetwork.Icmp.Response.{invalid}
use libudjatnetwork.Icmp.Host.{Host, Controller, World}
use libudjatnetwork.Icmp.Controller.{Sys, not_open, insert}
use libudjatnetwork.Icmp.Controller.Sweep.{count_of, count_of-append}
use libudjatnetwork.Icmp.Controller.Tracked.{IsTracked, insert-IsTracked}
use libudjatnetwork.Icmp.Controller.Insertion.{insert-last}
use libudjatnetwork.IpAgent.{Agent, set, address, start_check, drop_address, refresh}

drop_address-stale :
    (fw : Framework) (a : Agent) (c : Controller)
    → a.response ≡ invalid
    → drop_address fw a c ≡ (ok false, record a { ip_state = none }, c)
unfolding drop_address set
drop_address-stale fw a c r = ground arith

-- An agent that remembers the response `invalid` and whose address is empty loses its IP state and
-- nothing else: its ICMP state stays as it was, and `updated` is not called.
pub refresh-stale :
    (lib : AddressLib) (fw : Framework) (env : World) (sys : Sys) (a : Agent) (c : Controller)
    → a.response ≡ invalid
    → lib.empty (address a c) ≡ true
    → refresh lib fw env sys a c ≡ (ok false, record a { ip_state = none }, c)
unfolding refresh
refresh-stale lib fw env sys a c r e = rw (e, refresh) (drop_address-stale fw a c r)

count_of-last :
    (w : ℕ) (front : List Host) (h : Host) → h.worker ≡ w → 1 ≤ count_of w (front ++ h ∷ [])
count_of-last w front h e = ground (arith, count_of-append w front (h ∷ []))

insert-busy :
    (env : World) (sys : Sys) (w : ℕ) (c : Controller)
    → IsTracked c
    → not_open c.fd ≡ false
    → (c.workers w).busy ≡ false
    → ((insert env sys w c).1.workers w).busy ≡ true
insert-busy env sys w c t o b =
    let (done, (front, h, listed, mine, _, _)) = insert-last env sys w c o b in
    let counted : 1 ≤ count_of w (insert env sys w c).1.hosts =
      rw listed (count_of-last w front h mine) in
    ground (arith, counted, insert-IsTracked env sys w c t w)

-- With ICMP checks on, an address and an open socket, a refresh leaves the agent busy with a
-- check, whether it was busy before or not, given that the workers and the controller's list agree.
pub refresh-busy :
    (lib : AddressLib) (fw : Framework) (env : World) (sys : Sys) (a : Agent) (c : Controller)
    → IsTracked c
    → a.check ≡ true
    → lib.empty (address a c) ≡ false
    → not_open c.fd ≡ false
    → ((refresh lib fw env sys a c).2.workers a.worker).busy ≡ true
unfolding refresh start_check
refresh-busy lib fw env sys a c t k e o = elim (Bool-cases (c.workers a.worker).busy) [
  | inl b ↦ ground arith
  | inr b ↦ ground (arith, insert-busy env sys a.worker c t o b)
]
