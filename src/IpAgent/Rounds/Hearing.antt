-- ===== src/IpAgent/Rounds/Hearing.antt =====
-- Every check of a row is heard: the refresh of library/ip/agent.cc, and the replies that
-- library/os/linux/icmp_controller.cc reads.
use libudjatnetwork.Prelude.{
  ℕ, zero, suc, ◌+◌, ◌%◌, ◌≡◌, ◌≢◌, refl, ap, ◌∙◌, ◌==◌, true, false, List, [], ◌∷◌, inl, arith,
  Result, ok, err, fault, All, Returns, Returns-bind, length, subst,
}
use libudjatnetwork.Udjat.{Framework}
use libudjatnetwork.SockAddr.{SockAddr, AddressLib}
use libudjatnetwork.Icmp.Response.{echo_reply}
use libudjatnetwork.Icmp.Host.{Notice, Controller, World}
use libudjatnetwork.Icmp.Controller.{Sys, insert, handle_event}
use libudjatnetwork.Icmp.Controller.Sending.{first_packet}
use libudjatnetwork.Icmp.Controller.Telling.{times_told}
use libudjatnetwork.IpAgent.{Agent, set, address}
use libudjatnetwork.IpAgent.Icmp.{Shows}
use libudjatnetwork.IpAgent.Ping.{CanPing, IsAnswered, refresh-insert, ping-IsAnswered}
use libudjatnetwork.IpAgent.Rounds.{
  echo, hear, round, rounds, CanCheck, HasFreeIds, Carries, ShowsAfter, HasHeard,
}

-- What one round leaves for those that follow it.
abbrev Continues : AddressLib → Sys → ℕ → Agent → Controller → Agent × Controller → Type 0
Continues lib sys n a c (a', c') =
    CanCheck lib sys a' c' × HasFreeIds n c' × HasHeard 1 a c (a', c')

HasFreeIds-next :
    (n : ℕ) (c c' : Controller)
    → c'.hosts ≡ c.hosts
    → c'.next_id ≡ (c.next_id + 1) % 65536
    → HasFreeIds (suc n) c
    → HasFreeIds n c'
HasFreeIds-next n c c' same next (l, free) =
    rw (same, next)
      (
        omega arith,
        λ i j.
            let shifted : (c.next_id + suc i) % 65536 ≡ ((c.next_id + 1) % 65536 + i) % 65536 =
              omega arith in
            rw (← shifted) (free (suc i) (omega (arith, j))),
      )

hear-own :
    (fw : Framework) (w : ℕ) (to : SockAddr) (ns old : List Notice) (a : Agent) (P : Agent → Type 0)
    → ns ≡ record { worker = a.worker; response = echo_reply; from = to } ∷ old
    → Returns P (set fw echo_reply a)
    → Returns P (hear fw ns a)
hear-own fw w to ns old a P e p =
    let self : (a.worker == a.worker) ≡ true = ground arith in rw e (rw self p)

told-own :
    (w : ℕ) (to : SockAddr) (ns : List Notice)
    → times_told w echo_reply (record { worker = w; response = echo_reply; from = to } ∷ ns)
      ≡ 1 + times_told w echo_reply ns
told-own w to ns = ground arith

-- What is left once the agent has been told.
shown-Continues :
    (lib : AddressLib) (sys : Sys) (env later : World) (to : SockAddr) (fw : Framework) (n : ℕ)
    (a : Agent) (c c' c'' : Controller)
    → CanCheck lib sys a c
    → HasFreeIds (suc n) c
    → IsAnswered env later to a fw c (a, c') c''
    → (a' : Agent) → Shows echo_reply a a'
    → Continues lib sys n a c (a', c'')
shown-Continues lib sys env later to fw n a c c' c'' can free ans a' shown =
    let (state, told, response, worker, check) = shown in
    let (sent, hosts, idle, notices, _, _, open_for, still) = ans in
    let at : address a' c'' ≡ address a c = ap (λ w. (c''.workers w).addr) worker ∙ open_for.2 in
    let idle' : (c''.workers a'.worker).busy ≡ false =
      ap (λ w. (c''.workers w).busy) worker ∙ idle in
    (
      (
        check ∙ can.0,
        response ∙ can.1,
        ap lib.empty at ∙ can.2,
        inl open_for.0,
        idle',
        ap (λ (x : SockAddr). x.ss_family) at ∙ can.5,
      ),
      HasFreeIds-next n c c'' hosts open_for.1 free,
      (
        hosts,
        omega (arith, ap length (still ∙ sent)),
        omega (arith, ap length notices),
        told,
        worker,
        at,
        ap (times_told a.worker echo_reply) notices ∙ told-own a.worker to c.notices,
        state,
      ),
    )

round-Continues :
    (lib : AddressLib) (fw : Framework) (sys : Sys) (env later : World) (n : ℕ) (a : Agent)
    (c : Controller)
    → CanCheck lib sys a c
    → HasFreeIds (suc n) c
    → Carries (address a c) (env, later)
    → Returns (Continues lib sys n a c) (round lib fw sys (env, later) (a, c))
round-Continues lib fw sys env later n a c can free carries =
    let (check, fresh, known, ready, idle, family) = can in
    let can_ping : CanPing lib env sys a c =
      (check, fresh, known, (ready, (idle, family, carries.0 ((c.seq + 1) % 65536)))) in
    let c' = (insert env sys a.worker c).1 in
    let d = echo (address a c, first_packet env c) in
    let c'' = handle_event later true d c' in
    let unused : All (λ h. h.id ≢ c.next_id) c.hosts =
      subst (λ k. All (λ h. h.id ≢ k) c.hosts) (omega (arith, free.0)) (free.1 0 (omega arith)) in
    let ans : IsAnswered env later d.from a fw c (a, c') c'' =
      rw (refresh-insert lib fw env sys a c can_ping) at
        (ping-IsAnswered lib fw env later sys a c d can_ping unused carries.1 carries.2
          (refl, refl, refl, refl)).1 in
    rw (refresh-insert lib fw env sys a c can_ping) (
      rw ans.0 (
        Returns-bind (Shows echo_reply a) (Continues lib sys n a c) (hear fw c''.notices a)
          (λ a'. ok (a', c''))
          (hear-own fw a.worker d.from c''.notices c.notices a (Shows echo_reply a) ans.3 ans.4)
          (shown-Continues lib sys env later d.from fw n a c c' c'' can free ans)))

shown_last :
    (a b b' : Agent) (n : ℕ) → ShowsAfter 1 a b → ShowsAfter n b b' → ShowsAfter (suc n) a b'
shown_last a b b' zero (s, shown, mine) k = (s, k ∙ shown, mine)
shown_last a b b' (suc n) h k = k

-- Any number of checks in a row, each in a world whose network carries packets to the address and
-- answered by the address before the next one: where the agent can check and the next identifiers are not
-- in the list, each check sends one packet and is told to the agent, which is updated once for each and
-- shows a state for the echo reply after the last; the list of hosts is what it was.
pub rounds-HasHeard :
    (lib : AddressLib) (fw : Framework) (sys : Sys) (ws : List (World × World)) (a : Agent)
    (c : Controller)
    → CanCheck lib sys a c
    → HasFreeIds (length ws) c
    → All (Carries (address a c)) ws
    → Returns (HasHeard (length ws) a c) (rounds lib fw sys ws (a, c))
rounds-HasHeard lib fw sys [] a c can free carries =
    (refl, omega arith, omega arith, omega arith, refl, refl, omega arith, refl)
rounds-HasHeard lib fw sys (w ∷ ws) a c can free carries =
    Returns-bind (Continues lib sys (length ws) a c) (HasHeard (suc (length ws)) a c)
      (round lib fw sys w (a, c)) (rounds lib fw sys ws)
      (round-Continues lib fw sys w.0 w.1 (length ws) a c can free carries.0)
      (λ s (k, f, h).
        HasHeard-trans s (rounds lib fw sys ws s) h
          (rounds-HasHeard lib fw sys ws s.0 s.1 k f (rw h.5 carries.1)))
  where
    again :
        (s : Agent × Controller)
        → HasHeard 1 a c s
        → (s' : Agent × Controller) → HasHeard (length ws) s.0 s.1 s'
        → times_told a.worker echo_reply s'.1.notices
          ≡ suc (length ws) + times_told a.worker echo_reply c.notices
    again s h s' k = omega (
      arith,
      subst
          (λ w.
            times_told w echo_reply s'.1.notices ≡ length ws + times_told w echo_reply s.1.notices)
          h.4 k.6,
      h.6,
    )

    HasHeard-trans :
        (s : Agent × Controller) (r : Result (Agent × Controller))
        → HasHeard 1 a c s
        → Returns (HasHeard (length ws) s.0 s.1) r
        → Returns (HasHeard (suc (length ws)) a c) r
    HasHeard-trans s (ok s') h k = (
      k.0 ∙ h.0,
      omega (arith, k.1, h.1),
      omega (arith, k.2, h.2),
      omega (arith, k.3, h.3),
      k.4 ∙ h.4,
      k.5 ∙ h.5,
      again s h s' k,
      shown_last a s.0 s'.0 (length ws) h.7 k.7,
    )
    HasHeard-trans s (err e) h k = k
    HasHeard-trans s fault h k = k
