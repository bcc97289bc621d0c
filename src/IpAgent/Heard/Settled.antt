-- ===== src/IpAgent/Heard/Settled.antt =====
-- What an agent shows once all its checks have ended.
use libudjatnetwork.Prelude.{
  ℕ, ◌+◌, ◌<◌, ◌≤◌, ◌≡◌, refl, List, [], arith, ℤ, Returns, Returns-mono, Returns-OnOk, All,
}
use libudjatnetwork.Udjat.{Framework}
use libudjatnetwork.Icmp.Response.{invalid}
use libudjatnetwork.Icmp.Host.{Controller, World}
use libudjatnetwork.Icmp.Controller.{Event, on_timer, run}
use libudjatnetwork.Icmp.Controller.Sweep.{count_of}
use libudjatnetwork.Icmp.Controller.Rule.{run-Whole, on_timer-Whole}
use libudjatnetwork.Icmp.Controller.Histories.{IsSound, insertions}
use libudjatnetwork.Icmp.Controller.Accounts.Passes.{notices_for}
use libudjatnetwork.Icmp.Controller.ToldAll.{Keeps, checks_of}
use libudjatnetwork.Icmp.Controller.Settling.{EndsBy, IsEarly, IsSettled, run-settles}
use libudjatnetwork.IpAgent.{Agent}
use libudjatnetwork.IpAgent.Heard.{
  AreValid, AreValid-Laws, Follows, hear, hear-Follows, every_event, every_host,
}

-- The agent hears the notices of the controller without an exception, shows a state for the newest one,
-- or the one before if there is none, and is updated `k` times.
abbrev pub IsUpdated : Framework → ℕ → Agent → Controller → Type 0
IsUpdated fw k a c =
    Returns (λ a'. Follows c.notices a a' × (a'.updates ≡ a.updates + k)) (hear fw c.notices a)

IsSettled-IsUpdated :
    (fw : Framework) (k : ℕ) (a : Agent) (c : Controller)
    → a.response ≡ invalid
    → AreValid c
    → IsSettled a.worker k c
    → IsUpdated fw k a c
IsSettled-IsUpdated fw k a c r v s =
    Returns-mono (Follows c.notices a) _ (λ a' h. (h, omega (arith, h.1, s.1)))
      (hear fw c.notices a) (hear-Follows fw c.notices a r v)

-- A tick that settles the worker's checks, from a controller whose notices all carry a response.
on_timer-IsUpdated :
    (fw : Framework) (k : ℕ) (a : Agent) (later : World) (closed : ℤ) (c : Controller)
    → a.response ≡ invalid
    → AreValid c
    → Returns (IsSettled a.worker k) (on_timer later closed c)
    → Returns
        (λ c'. (count_of a.worker c'.hosts ≡ 0) × IsUpdated fw k a c')
        (on_timer later closed c)
on_timer-IsUpdated fw k a later closed c r v s =
    Returns-mono _ _ (λ c' t. (t.0.0, IsSettled-IsUpdated fw k a c' r t.1.1 t.0))
      (on_timer later closed c)
      (Returns-OnOk _ _ (on_timer later closed c) s
        (on_timer-Whole _ _ _ AreValid-Laws later closed c (every_host c.hosts, v)))

-- For an agent that remembers the response `invalid`, and a controller whose notices were all heard,
-- whose identifiers are distinct and below the counter, and whose hosts agree with the workers' `busy`
-- flags: every history returns whose insertions do not wrap the 16-bit counter around. Let none of its
-- events remove the agent or read a message of an unknown type, let the agent's interval be at most a
-- limit, its hosts have deadlines up to a time, and each insertion for it come at least the limit before
-- that time. Then the first timer tick after that time returns and leaves no host of the agent. The
-- agent hears its notices without an exception, shows a state for the newest of them, or the one before
-- if there is none, and has been updated exactly once for each host that it had and for each insertion
-- for it that returned.
pub run-IsUpdated :
    (fw : Framework) (a : Agent) (limit deadline : ℕ) (es : List Event) (later : World) (closed : ℤ)
    (c : Controller)
    → a.response ≡ invalid
    → c.notices ≡ []
    → c.next_id + insertions es < 65536
    → IsSound c
    → All (Keeps a.worker) es
    → All (IsEarly a.worker limit deadline) es
    → (c.workers a.worker).timers_interval ≤ limit
    → All (EndsBy a.worker deadline) c.hosts
    → deadline < later.now
    → Returns
        (λ c'.
          Returns
            (λ c''.
              (count_of a.worker c''.hosts ≡ 0)
              × IsUpdated fw (count_of a.worker c.hosts + checks_of a.worker es c) a c'')
            (on_timer later closed c'))
        (run es c)
run-IsUpdated fw a limit deadline es later closed c r n l s keeps early quick ends past =
    let k = count_of a.worker c.hosts + checks_of a.worker es c in
    let before : notices_for a.worker c.notices ≡ 0 = rw n refl in
    let valid : AreValid c = rw n tt in
    let total : notices_for a.worker c.notices + count_of a.worker c.hosts + checks_of a.worker es c
        ≡ k =
      omega (arith, before) in
    Returns-mono _ _ (λ c' h. on_timer-IsUpdated fw k a later closed c' r h.1.1 (rw total at h.0))
      (run es c)
      (Returns-OnOk _ _ (run es c)
        (run-settles a.worker limit deadline es later closed c l s keeps early quick ends past)
        (run-Whole _ _ _ AreValid-Laws es c (every_event es) (every_host c.hosts, valid)))
