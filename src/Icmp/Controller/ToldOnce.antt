-- ===== src/Icmp/Controller/ToldOnce.antt =====
-- No worker is told twice for one insertion: the accounts over a history.
use libudjatnetwork.Prelude.{
  ℕ, ◌+◌, ◌≤◌, ◌<◌, ◌≡◌, List, [], ◌∷◌, ◌==◌, if◌then◌else◌, arith, Result, ok, err, fault, OnOk,
  Returns, OnOk-bind, OnOk-mono, Returns-mono, Returns-OnOk,
}
use libudjatnetwork.Icmp.Host.{Controller}
use libudjatnetwork.Icmp.Controller.{
  insert, on_timer, Event, inserts, removes, reads, ticks, step, run,
}
use libudjatnetwork.Icmp.Controller.Sweep.{count_of}
use libudjatnetwork.Icmp.Controller.Histories.{IsSound, insertions, run-IsSound}
use libudjatnetwork.Icmp.Controller.Accounts.Passes.{notices_for, account}
use libudjatnetwork.Icmp.Controller.Accounts.{
  begun, on_timer-account, insert-account, remove-account, handle_event-account,
}

-- How many insertions of a history are for the worker.
abbrev pub insertions_of : ℕ → List Event → ℕ
insertions_of w [] = 0
insertions_of w (inserts env sys v ∷ es) = (if v == w then 1 else 0) + insertions_of w es
insertions_of w (removes closed v ∷ es) = insertions_of w es
insertions_of w (reads env oninput d ∷ es) = insertions_of w es
insertions_of w (ticks env closed ∷ es) = insertions_of w es

-- An insertion begins one check at most.
begun_le : (w v : ℕ) (r : Result (Unit {0})) → begun w v r ≤ (if v == w then 1 else 0)
begun_le w v (ok u) = omega arith
begun_le w v (err e) = omega arith
begun_le w v fault = omega arith

module _ (w : ℕ) where
  step-account :
      (e : Event) (c : Controller)
      → OnOk
          (λ c'. account w c'.hosts c' ≤ account w c.hosts c + insertions_of w (e ∷ []))
          (step e c)
  unfolding step
  step-account (inserts env sys v) c =
      omega (arith, insert-account w env sys v c, begun_le w v (insert env sys v c).0)
  step-account (removes closed v) c = omega (arith, remove-account w closed v c)
  step-account (reads env oninput d) c = omega (arith, handle_event-account w env oninput d c)
  step-account (ticks env closed) c =
      OnOk-mono (λ c'. account w c'.hosts c' ≡ account w c.hosts c) _ (λ c' l. omega (arith, l))
        (on_timer env closed c) (on_timer-account w env closed c)

  pub insertions_of-cons :
      (e : Event) (es : List Event)
      → insertions_of w (e ∷ es) ≡ insertions_of w (e ∷ []) + insertions_of w es
  insertions_of-cons (inserts env sys v) es = omega arith
  insertions_of-cons (removes closed v) es = omega arith
  insertions_of-cons (reads env oninput d) es = omega arith
  insertions_of-cons (ticks env closed) es = omega arith

  run-account :
      (es : List Event) (c : Controller)
      → OnOk (λ c'. account w c'.hosts c' ≤ account w c.hosts c + insertions_of w es) (run es c)
  unfolding run
  run-account [] c = omega arith
  run-account (e ∷ es) c = OnOk-bind _ _ (step e c) (run es) (step-account e c) λ c' l.
      OnOk-mono (λ c''. account w c''.hosts c'' ≤ account w c'.hosts c' + insertions_of w es) _
        (λ c'' k. omega (arith, k, l, insertions_of-cons e es)) (run es c') (run-account es c')

-- From a controller whose identifiers are distinct and below the counter, and whose hosts agree with
-- the workers' `busy` flags, every history returns whose insertions do not wrap the 16-bit counter
-- around. At its end, the notices that a worker has had and the hosts that it has are together no
-- more than its notices and hosts before and the insertions for it: no worker is told twice for one
-- insertion, in whatever order replies, ticks, failing packets and removals come.
pub run-tells_once :
    (w : ℕ) (es : List Event) (c : Controller)
    → c.next_id + insertions es < 65536
    → IsSound c
    → Returns
        (λ c'.
          notices_for w c'.notices + count_of w c'.hosts
          ≤ notices_for w c.notices + count_of w c.hosts + insertions_of w es)
        (run es c)
run-tells_once w es c l s =
    Returns-mono _ _ (λ c' r. r.1) (run es c)
      (Returns-OnOk IsSound _ (run es c) (run-IsSound es c l s) (run-account w es c))
