-- ===== src/Icmp/Controller/Timers.antt =====
-- The walk of `on_timer`: it ends without undefined behaviour, and no host outlives its time.
use libudjatnetwork.Prelude.{
  ℕ, zero, suc, ◌≤◌, ◌≡◌, ◌≢◌, refl, ap, ◌∙◌, Bool, false, List, [], ◌∷◌, ◌++◌, inl, inr, ℤ, Option,
  none, some, Bool-cases, arith, length, Result, ok, err, fault, Returns, All, All-append,
}
use libudjatnetwork.Icmp.Host.{Host, Controller, World, notify, idle, current_time, on_error}
use libudjatnetwork.Icmp.Response.{timeout}
use libudjatnetwork.SockAddr.{zeroed}
use libudjatnetwork.Icmp.Packet.{Payload}
use libudjatnetwork.Icmp.Controller.{
  Failure, after_send, sweep, transmit, host_send, purge, stop_if_empty, stop_after, timer_loop,
  on_timer, due, expired, resend_host, next_is_freed, next_packet,
}
use libudjatnetwork.Icmp.Controller.Sweep.{Predicate, sweep-gone, sweep-stays}
use libudjatnetwork.Icmp.Controller.Walk.{
  Due-cases, timer_loop-expired, timer_loop-waiting, timer_loop-resend,
}

-- The identifiers of the hosts differ from each other.
abbrev pub HasDistinctIds : List Host → Type 0
HasDistinctIds [] = Unit
HasDistinctIds (h ∷ hs) = All (λ x. x.id ≢ h.id) hs × HasDistinctIds hs

-- The host's time has not run out.
abbrev pub IsInTime : ℕ → Host → Type 0
IsInTime now h = now ≤ h.timeout_at

sweep-All :
    (P : Host → Type 0) (f : Predicate) (hs : List Host) (c : Controller)
    → All P hs
    → All P (sweep f hs c).0
unfolding sweep
sweep-All P f [] c a = tt
sweep-All P f (h ∷ hs) c a = elim (Bool-cases (f h c).0) [
  | inl gone ↦ rw (sweep-gone f h hs c gone) (sweep-All P f hs (idle (f h c).1 h.worker) a.1)
  | inr stays ↦ rw (sweep-stays f h hs c stays) (a.0, sweep-All P f hs (f h c).1 a.1)
]

purge-All :
    (P : Host → Type 0) (f : Failure) (hs : List Host) (c : Controller)
    → All P hs
    → All P (purge f hs c).0
unfolding purge
purge-All P none hs c a = a
purge-All P (some (code, p)) hs c a = sweep-All P (on_error code p) hs c a

-- A failure about the packet of one host.
abbrev IsAbout : ℕ → Failure → Type 0
IsAbout id none = Unit
IsAbout id (some (code, p)) = p.id ≡ id

after_send-IsAbout :
    (p : Payload) (c : Controller) (r : Result (Controller × Option ℤ))
    → IsAbout p.id (after_send p c r).1
after_send-IsAbout p c (ok (c', none)) = tt
after_send-IsAbout p c (ok (c', some code)) = refl
after_send-IsAbout p c (err e) = tt
after_send-IsAbout p c fault = tt

host_send-IsAbout : (env : World) (h : Host) (c : Controller) → IsAbout h.id (host_send env h c).2
unfolding host_send
host_send-IsAbout env h c =
    let h' = next_packet env (c.workers h.worker).timers_interval h in
    let p : Payload = record {
      id = h'.id;
      seq = h'.packets;
      time = current_time env.tv_sec env.tv_nsec;
    } in
    after_send-IsAbout p c (transmit env (c.workers h.worker).addr p c)

on_error-other :
    (code : ℤ) (p : Payload) (h : Host) (c : Controller)
    → h.id ≢ p.id
    → on_error code p h c ≡ (false, c)
unfolding on_error
on_error-other code p h c n = ground arith

-- A failure about another host removes nothing.
purge-others :
    (id : ℕ) (f : Failure) (hs : List Host) (c : Controller)
    → IsAbout id f
    → All (λ x. x.id ≢ id) hs
    → (purge f hs c).0 ≡ hs
unfolding purge sweep
purge-others id none hs c e a = refl
purge-others id (some (code, p)) [] c e a = refl
purge-others id (some (code, p)) (h ∷ hs) c e a =
    let other = on_error-other code p h c (λ q. a.0 (q ∙ e)) in
    ap (λ (r : List Host × Controller). r.0)
      (sweep-stays (on_error code p) h hs c (ap (λ (r : Bool × Controller). r.0) other))
    ∙ ap (λ (l : List Host). h ∷ l)
        (purge-others id (some (code, p)) hs (on_error code p h c).1 e a.1)

next_is_freed-others :
    (id : ℕ) (f : Failure) (hs : List Host) (c : Controller)
    → IsAbout id f
    → All (λ x. x.id ≢ id) hs
    → next_is_freed f hs c ≡ false
unfolding next_is_freed
next_is_freed-others id none hs c e a = refl
next_is_freed-others id (some (code, p)) [] c e a = refl
next_is_freed-others id (some (code, p)) (h ∷ hs) c e a =
    ap (λ (r : Bool × Controller). r.0) (on_error-other code p h c (λ q. a.0 (q ∙ e)))

due-IsInTime : (now : ℕ) (h : Host) → due now h ≢ expired → IsInTime now h
unfolding due
due-IsInTime now h n = ground arith

-- A host that is not due to expire sends again: what is in time stays so, and the hosts behind it
-- are left alone.
module _ (env : World) (kept : List Host) (h : Host) (rest : List Host) (c : Controller)
    (others : All (λ x. x.id ≢ h.id) rest) where
  pub resend_host-rest : (resend_host env kept h rest c).1 ≡ rest
  unfolding resend_host
  resend_host-rest =
      purge-others h.id (host_send env h c).2 rest _ (host_send-IsAbout env h c) others

  pub resend_host-safe : (resend_host env kept h rest c).3 ≡ false
  unfolding resend_host
  resend_host-safe =
      next_is_freed-others h.id (host_send env h c).2 rest _ (host_send-IsAbout env h c) others

  resend_host-IsInTime :
      All (IsInTime env.now) kept
      → IsInTime env.now h
      → All (IsInTime env.now) (resend_host env kept h rest c).0
  unfolding resend_host
  resend_host-IsInTime a i =
      All-append (IsInTime env.now) _ _
        (purge-All (IsInTime env.now) (host_send env h c).2 kept (host_send env h c).1 a)
        (purge-All (IsInTime env.now) (host_send env h c).2 _ _ (i, tt))

timer_loop-IsInTime :
    (env : World) (fuel : ℕ) (kept rest : List Host) (c : Controller)
    → length rest ≤ fuel
    → HasDistinctIds rest
    → All (IsInTime env.now) kept
    → Returns (λ c'. All (IsInTime env.now) c'.hosts) (timer_loop env fuel kept rest c)
unfolding timer_loop
timer_loop-IsInTime env fuel kept [] c l d a = a
timer_loop-IsInTime env zero kept (h ∷ rest) c l d a = absurd (omega arith)
timer_loop-IsInTime env (suc fuel) kept (h ∷ rest) c l d a = elim (Due-cases (due env.now h)) [
  | inl e ↦ rw (timer_loop-expired env fuel kept h rest c e) (
      timer_loop-IsInTime env fuel kept rest (idle (notify c h.worker timeout zeroed) h.worker)
        (omega arith) d.1 a)
  | inr (inl e) ↦
      rw
        (
          timer_loop-resend env fuel kept h rest c e (resend_host-safe env kept h rest c d.0),
          resend_host-rest env kept h rest c d.0,
        )
        (timer_loop-IsInTime env fuel (resend_host env kept h rest c).0 rest
          (resend_host env kept h rest c).2 (omega arith) d.1
          (resend_host-IsInTime env kept h rest c d.0 a (due-IsInTime env.now h (λ q. cc))))
  | inr (inr e) ↦ rw (timer_loop-waiting env fuel kept h rest c e) (
      timer_loop-IsInTime env fuel (kept ++ h ∷ []) rest c (omega arith) d.1
        (All-append (IsInTime env.now) kept (h ∷ []) a (due-IsInTime env.now h (λ q. cc), tt)))
]

-- With distinct identifiers a timer tick returns, with no undefined behaviour, even where a failed
-- send removes hosts from the list that is being walked; and after it no host is left whose time
-- has run out.
pub on_timer-IsInTime :
    (env : World) (closed : ℤ) (c : Controller)
    → HasDistinctIds c.hosts
    → Returns (λ c'. All (IsInTime env.now) c'.hosts) (on_timer env closed c)
unfolding on_timer
on_timer-IsInTime env closed c d =
    after_loop (timer_loop env (length c.hosts) [] c.hosts c)
      (timer_loop-IsInTime env (length c.hosts) [] c.hosts c (omega arith) d tt)
  where
    stopped :
        (hs : List Host) (c' : Controller)
        → All (IsInTime env.now) hs
        → All (IsInTime env.now) (stop_if_empty closed hs c').hosts
    stopped [] c' k = tt
    stopped (h ∷ hs) c' k = k

    after_loop :
        (r : Result Controller)
        → Returns (λ c'. All (IsInTime env.now) c'.hosts) r
        → Returns (λ c'. All (IsInTime env.now) c'.hosts) (stop_after closed r)
    after_loop (ok c') k = stopped c'.hosts c' k
    after_loop (err e) k = k
    after_loop fault k = k
