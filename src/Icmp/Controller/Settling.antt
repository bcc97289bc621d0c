-- ===== src/Icmp/Controller/Settling.antt =====
-- Every check ends: what the first tick behind the deadlines leaves.
use libudjatnetwork.Prelude.{
  ℕ, ◌+◌, ◌<◌, ◌≤◌, ◌≡◌, refl, false, List, [], ◌∷◌, arith, ℤ, Returns, Returns-mono, Returns-OnOk,
  OnOk-both, All, ◌==◌, ==_iff,
}
use libudjatnetwork.SockAddr.{SockAddr}
use libudjatnetwork.Icmp.Packet.{Payload}
use libudjatnetwork.Icmp.Host.{Host, Controller, World, on_error, on_response}
use libudjatnetwork.Icmp.Controller.{
  transmit, host_send, on_timer, Event, inserts, removes, reads, ticks, run,
}
use libudjatnetwork.Icmp.Controller.Sweep.{count_of}
use libudjatnetwork.Icmp.Controller.Timers.{IsInTime, on_timer-IsInTime}
use libudjatnetwork.Icmp.Controller.Histories.{IsSound, insertions, run-IsSound}
use libudjatnetwork.Icmp.Controller.Accounts.Passes.{notices_for, account}
use libudjatnetwork.Icmp.Controller.Accounts.{on_timer-account}
use libudjatnetwork.Icmp.Controller.ToldAll.{Keeps, checks_of, run-exact}
use libudjatnetwork.Icmp.Controller.Rule.{Laws, run-Whole, on_timer-Whole}

-- A host of the worker has its deadline at a time or before it.
abbrev pub EndsBy : ℕ → ℕ → Host → Type 0
EndsBy w deadline h = h.worker ≡ w → h.timeout_at ≤ deadline

-- The worker's interval is at most the limit.
abbrev IsQuick : ℕ → ℕ → Controller → Type 0
IsQuick w limit c = (c.workers w).timers_interval ≤ limit

-- An event that does not insert the worker, or does so at least the limit before the deadline.
abbrev pub IsEarly : ℕ → ℕ → ℕ → Event → Type 0
IsEarly w limit deadline (inserts env sys v) = v ≡ w → env.now + limit ≤ deadline
IsEarly w limit deadline (removes closed v) = Unit
IsEarly w limit deadline (reads env oninput d) = Unit
IsEarly w limit deadline (ticks env closed) = Unit

on_error-IsQuick :
    (w limit : ℕ) (code : ℤ) (p : Payload) (h : Host) (c : Controller)
    → IsQuick w limit c
    → IsQuick w limit (on_error code p h c).1
unfolding on_error
on_error-IsQuick w limit code p h c q = ground (arith, q)

on_response-IsQuick :
    (w limit : ℕ) (env : World) (t : ℕ) (a : SockAddr) (p : Payload) (h : Host) (c : Controller)
    → IsQuick w limit c
    → IsQuick w limit (on_response env t a p h c).1
unfolding on_response
on_response-IsQuick w limit env t a p h c q = ground (arith, q, ==_iff h.worker w)

host_send-IsQuick :
    (w limit deadline : ℕ) (env : World) (h : Host) (c : Controller)
    → EndsBy w deadline h
    → IsQuick w limit c
    → EndsBy w deadline (host_send env h c).0 × IsQuick w limit (host_send env h c).1
unfolding host_send transmit
host_send-IsQuick w limit deadline env h c e q = (e, ground (arith, q))

EndsBy-Laws :
    (w limit deadline : ℕ) → Laws (EndsBy w deadline) (IsQuick w limit) (IsEarly w limit deadline)
EndsBy-Laws w limit deadline = record {
  lists = λ c hs q. q;
  opens = λ c f a b q. q;
  flags = λ c v b q. ground (arith, q, ==_iff v w);
  creates = λ env sys v c i q. ((λ e. rw e (omega (arith, q, i e))), q);
  sends = host_send-IsQuick w limit deadline;
  errs = on_error-IsQuick w limit;
  expires = λ v c q. q;
  answers = λ env oninput d h c i q.
      on_response-IsQuick w limit env d.packet.icmp_type d.from d.packet.payload h c q;
}

-- Hosts that are in time later than the deadline are for other workers.
none_left :
    (w deadline now : ℕ) (hs : List Host)
    → deadline < now
    → All (EndsBy w deadline) hs
    → All (IsInTime now) hs
    → count_of w hs ≡ 0
none_left w deadline now [] l e t = refl
none_left w deadline now (h ∷ hs) l e t =
    let other : (h.worker == w) ≡ false = ground (arith, ==_iff h.worker w, e.0, t.0, l) in
    rw other (omega (arith, none_left w deadline now hs l e.1 t.1))

-- The worker has no host, and was told `k` times in all.
abbrev pub IsSettled : ℕ → ℕ → Controller → Type 0
IsSettled w k c = (count_of w c.hosts ≡ 0) × (notices_for w c.notices ≡ k)

on_timer-IsSettled :
    (w limit deadline : ℕ) (later : World) (closed : ℤ) (c : Controller)
    → deadline < later.now
    → IsSound c
    → All (EndsBy w deadline) c.hosts × IsQuick w limit c
    → Returns (IsSettled w (account w c.hosts c)) (on_timer later closed c)
on_timer-IsSettled w limit deadline later closed c l s b =
    Returns-mono _ (IsSettled w (account w c.hosts c))
      (λ c' r.
        let none' = none_left w deadline later.now c'.hosts l r.1.1.0 r.0 in
        (none', omega (arith, none', r.1.0)))
      (on_timer later closed c)
      (Returns-OnOk _ _ (on_timer later closed c) (on_timer-IsInTime later closed c s.0.0) (
        OnOk-both _ _ (on_timer later closed c) (on_timer-account w later closed c)
          (on_timer-Whole _ _ _ (EndsBy-Laws w limit deadline) later closed c b)))

-- From a controller whose identifiers are distinct and below the counter, and whose hosts agree with
-- the workers' `busy` flags, every history returns whose insertions do not wrap the 16-bit counter
-- around. Let none of its events remove the worker or read a message of an unknown type, let the
-- worker's interval be at most a limit, its hosts have deadlines up to a time, and each insertion for
-- it come at least the limit before that time. Then the first timer tick after that time returns and
-- settles everything: the worker has no host, and it was told once for each of its hosts before and for
-- each insertion that returned, besides what it was told before.
pub run-settles :
    (w limit deadline : ℕ) (es : List Event) (later : World) (closed : ℤ) (c : Controller)
    → c.next_id + insertions es < 65536
    → IsSound c
    → All (Keeps w) es
    → All (IsEarly w limit deadline) es
    → (c.workers w).timers_interval ≤ limit
    → All (EndsBy w deadline) c.hosts
    → deadline < later.now
    → Returns
        (λ c'.
          Returns
            (IsSettled w (notices_for w c.notices + count_of w c.hosts + checks_of w es c))
            (on_timer later closed c'))
        (run es c)
run-settles w limit deadline es later closed c l s keeps early quick ends past =
    let laws = EndsBy-Laws w limit deadline in
    Returns-mono _ _
      (λ c' r.
        Returns-mono (IsSettled w (account w c'.hosts c')) _
          (λ c'' t. (t.0, omega (arith, t.1, r.1.0))) (on_timer later closed c')
          (on_timer-IsSettled w limit deadline later closed c' past r.0 r.1.1))
      (run es c)
      (Returns-OnOk IsSound _ (run es c) (run-IsSound es c l s) (
        OnOk-both _ _ (run es c) (run-exact w es c keeps)
          (run-Whole _ _ _ laws es c early (ends, quick))))
