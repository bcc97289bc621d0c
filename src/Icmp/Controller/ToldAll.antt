-- ===== src/Icmp/Controller/ToldAll.antt =====
-- No check is lost: what began for a worker was told or is still under way.
use libudjatnetwork.Prelude.{
  ℕ, ◌+◌, ◌<◌, ◌≡◌, ◌≢◌, List, [], ◌∷◌, arith, All, Result-cases, inl, inr, ok, err, fault, OnOk,
  Returns, OnOk-mono, Returns-mono, Returns-OnOk,
}
use libudjatnetwork.Icmp.Host.{Controller}
use libudjatnetwork.Icmp.Controller.{
  insert, on_timer, Event, inserts, removes, reads, ticks, step, run,
}
use libudjatnetwork.Icmp.Controller.Sweep.{count_of}
use libudjatnetwork.Icmp.Controller.Histories.{IsSound, insertions, run-IsSound}
use libudjatnetwork.Icmp.Controller.Accounts.Passes.{notices_for, account, IsKnown}
use libudjatnetwork.Icmp.Controller.Accounts.{
  begun, on_timer-account, insert-account, remove-exact, handle_event-exact,
}

-- The checks of the worker that one event begins.
abbrev pub begins : ℕ → Event → Controller → ℕ
begins w (inserts env sys v) c = begun w v (insert env sys v c).0
begins w (removes closed v) c = 0
begins w (reads env oninput d) c = 0
begins w (ticks env closed) c = 0

-- The insertions of a history for the worker that return, which begin a check each.
unfoldable pub checks_of : ℕ → List Event → Controller → ℕ
checks_of w [] c = 0
checks_of w (e ∷ es) c =
    begins w e c + (elim (step e c) [ ok c' ↦ checks_of w es c' | err x ↦ 0 | fault ↦ 0 ])

-- An event that does not remove the worker and reads no message of an unknown type.
abbrev pub Keeps : ℕ → Event → Type 0
Keeps w (inserts env sys v) = Unit
Keeps w (removes closed v) = v ≢ w
Keeps w (reads env oninput d) = IsKnown d.packet.icmp_type
Keeps w (ticks env closed) = Unit

module _ (w : ℕ) where
  step-exact :
      (e : Event) (c : Controller)
      → Keeps w e
      → OnOk (λ c'. account w c'.hosts c' ≡ account w c.hosts c + begins w e c) (step e c)
  unfolding step
  step-exact (inserts env sys v) c k = insert-account w env sys v c
  step-exact (removes closed v) c k = omega (arith, remove-exact w closed v c k)
  step-exact (reads env oninput d) c k = omega (arith, handle_event-exact w env oninput d c k)
  step-exact (ticks env closed) c k =
      OnOk-mono (λ c'. account w c'.hosts c' ≡ account w c.hosts c) _ (λ c' l. omega (arith, l))
        (on_timer env closed c) (on_timer-account w env closed c)

  pub run-exact :
      (es : List Event) (c : Controller)
      → All (Keeps w) es
      → OnOk (λ c'. account w c'.hosts c' ≡ account w c.hosts c + checks_of w es c) (run es c)
  unfolding run checks_of
  run-exact [] c k = omega arith
  run-exact (e ∷ es) c k = elim (Result-cases (step e c)) [
    | inl (c', q) ↦
        let first : account w c'.hosts c' ≡ account w c.hosts c + begins w e c =
          rw q at (step-exact e c k.0) in
        rw (q, run, checks_of)
          (OnOk-mono (λ c''. account w c''.hosts c'' ≡ account w c'.hosts c' + checks_of w es c') _
            (λ c'' l. omega (arith, l, first)) (run es c') (run-exact es c' k.1))
    | inr (inl (x, q)) ↦ rw (q, run, checks_of) tt
    | inr (inr q) ↦ rw (q, run, checks_of) tt
  ]

-- From a controller whose identifiers are distinct and below the counter, and whose hosts agree with
-- the workers' `busy` flags, every history returns whose insertions do not wrap the 16-bit counter
-- around. If none of its events removes the worker or reads a message of an unknown type, no check of
-- the worker is lost: its notices and its hosts at the end are together exactly its notices and its
-- hosts before and the insertions for it that returned, whatever the packets, replies and ticks do.
pub run-loses_none :
    (w : ℕ) (es : List Event) (c : Controller)
    → c.next_id + insertions es < 65536
    → IsSound c
    → All (Keeps w) es
    → Returns
        (λ c'.
          notices_for w c'.notices + count_of w c'.hosts
          ≡ notices_for w c.notices + count_of w c.hosts + checks_of w es c)
        (run es c)
run-loses_none w es c l s k =
    Returns-mono _ _ (λ c' r. r.1) (run es c)
      (Returns-OnOk IsSound _ (run es c) (run-IsSound es c l s) (run-exact w es c k))
