-- ===== src/Icmp/Controller/Telling.antt =====
-- What the timer tells the workers of hosts whose time has run out.
use libudjatnetwork.Prelude.{
  ℕ, zero, suc, ◌+◌, ◌<◌, ◌≤◌, ◌≡◌, refl, sym, List, [], ◌∷◌, ◌++◌, inl, inr, ℤ, int_eq, ◌&&◌,
  if◌then◌else◌, none, some, Bool-cases, ◌==◌, arith, length, OnOk, Returns, Returns-OnOk, All,
  subst,
}
use libudjatnetwork.SockAddr.{SockAddr, zeroed}
use libudjatnetwork.Icmp.Response.{Response, timeout, network_unreachable, code}
use libudjatnetwork.Icmp.Host.{Notice, Host, Controller, World, notify, idle, on_error, enetunreach}
use libudjatnetwork.Icmp.Controller.{
  Failure, sweep, purge, host_send, transmit, due, expired, resend_host, timer_loop, stop_if_empty,
  stop, on_timer,
}
use libudjatnetwork.Icmp.Packet.{Payload}
use libudjatnetwork.Icmp.Controller.Sweep.{Predicate, sweep-gone, sweep-stays}
use libudjatnetwork.Icmp.Controller.Walk.{
  Due-cases, timer_loop-expired, timer_loop-waiting, timer_loop-resend, timer_loop-OnOk,
  on_timer-OnOk,
}
use libudjatnetwork.Icmp.Controller.Timers.{
  HasDistinctIds, IsInTime, on_timer-IsInTime, resend_host-rest, resend_host-safe,
}

-- How many notices tell the worker the response.
abbrev pub times_told : ℕ → Response → List Notice → ℕ
times_told w r [] = 0
times_told w r (n ∷ ns) =
    (if (n.worker == w) && (code n.response == code r) then 1 else 0) + times_told w r ns

times_told-notify :
    (w : ℕ) (r : Response) (k : ℕ) (c : Controller) (v : ℕ) (s : Response)
    → k ≤ times_told w r c.notices
    → k ≤ times_told w r (notify c v s zeroed).notices
times_told-notify w r k c v s t = ground arith

times_told-own :
    (w : ℕ) (r : Response) (a : SockAddr) (ns : List Notice)
    → suc (times_told w r ns) ≤ times_told w r (record { worker = w; response = r; from = a } ∷ ns)
times_told-own w r a ns = ground arith

pub host_send-notices :
    (env : World) (h : Host) (c : Controller) → (host_send env h c).1.notices ≡ c.notices
unfolding host_send transmit
host_send-notices env h c = ground arith

module _ (w : ℕ) (r : Response) (k : ℕ) where
  -- The worker was told the response at least `k` times.
  abbrev Told : Controller → Type 0
  Told c = k ≤ times_told w r c.notices

  abbrev KeepsTold : Predicate → Type 0
  KeepsTold f = (h : Host) (c : Controller) → Told c → Told (f h c).1

  sweep-Told :
      (f : Predicate) (hs : List Host) (c : Controller)
      → KeepsTold f
      → Told c
      → Told (sweep f hs c).1
  unfolding sweep idle
  sweep-Told f [] c k t = t
  sweep-Told f (h ∷ hs) c k t = elim (Bool-cases (f h c).0) [
    | inl gone ↦
        rw (sweep-gone f h hs c gone) (sweep-Told f hs (idle (f h c).1 h.worker) k (k h c t))
    | inr stays ↦ rw (sweep-stays f h hs c stays) (sweep-Told f hs (f h c).1 k (k h c t))
  ]

  on_error-KeepsTold : (code : ℤ) (p : Payload) → KeepsTold (on_error code p)
  unfolding on_error
  on_error-KeepsTold code p h c t = elim (Bool-cases (p.id == h.id)) [
    | inl mine ↦ elim (Bool-cases (int_eq code enetunreach)) [
      | inl e ↦
          rw (mine, on_error)
            (rw (e, on_error) (times_told-notify w r k c h.worker network_unreachable t))
      | inr e ↦ rw (mine, on_error) (rw (e, on_error) t)
    ]
    | inr other ↦ rw (other, on_error) t
  ]

  purge-Told : (f : Failure) (hs : List Host) (c : Controller) → Told c → Told (purge f hs c).1
  unfolding purge
  purge-Told none hs c t = t
  purge-Told (some (code, p)) hs c t =
      sweep-Told (on_error code p) hs c (on_error-KeepsTold code p) t

  resend_host-Told :
      (env : World) (kept : List Host) (h : Host) (rest : List Host) (c : Controller)
      → Told c
      → Told (resend_host env kept h rest c).2
  unfolding resend_host
  resend_host-Told env kept h rest c t =
      let (h', c₁, failure) = host_send env h c in
      let (before, c₂) = purge failure kept c₁ in
      let (current, c₃) = purge failure (h' ∷ []) c₂ in
      purge-Told failure rest c₃ (
        purge-Told failure (h' ∷ []) c₂ (
          purge-Told failure kept c₁
            (subst (λ ns. k ≤ times_told w r ns) (sym (host_send-notices env h c)) t)))

  timer_loop-Told :
      (env : World) (fuel : ℕ) (kept rest : List Host) (c : Controller)
      → Told c
      → OnOk Told (timer_loop env fuel kept rest c)
  unfolding idle
  timer_loop-Told env =
      timer_loop-OnOk env (λ kept rest c. Told c)
        (λ kept h rest c t. times_told-notify w r k c h.worker timeout t)
        (λ kept h rest c t. resend_host-Told env kept h rest c t) (λ kept h rest c t. t) Told
        (λ kept c t. t)

-- A host of the list that is due to expire is told so, whatever stands around it.
timer_loop-tells :
    (env : World) (fuel : ℕ) (kept xs : List Host) (h : Host) (ys : List Host) (c : Controller)
    (k : ℕ)
    → Told h.worker timeout k c
    → HasDistinctIds (xs ++ h ∷ ys)
    → due env.now h ≡ expired
    → OnOk (Told h.worker timeout (suc k)) (timer_loop env fuel kept (xs ++ h ∷ ys) c)
unfolding timer_loop idle
timer_loop-tells env zero kept [] h ys c k t d e = tt
timer_loop-tells env zero kept (x ∷ xs) h ys c k t d e = tt
timer_loop-tells env (suc fuel) kept [] h ys c k t d e =
    rw (timer_loop-expired env fuel kept h ys c e) (
      timer_loop-Told h.worker timeout (suc k) env fuel kept ys
        (idle (notify c h.worker timeout zeroed) h.worker)
        (omega (arith, t, times_told-own h.worker timeout zeroed c.notices)))
timer_loop-tells env (suc fuel) kept (x ∷ xs) h ys c k t d e =
    let behind = xs ++ h ∷ ys in
    elim (Due-cases (due env.now x)) [
      | inl now ↦ rw (timer_loop-expired env fuel kept x behind c now) (
          timer_loop-tells env fuel kept xs h ys (idle (notify c x.worker timeout zeroed) x.worker)
            k (times_told-notify h.worker timeout k c x.worker timeout t) d.1 e)
      | inr (inl now) ↦
          rw
            (
              timer_loop-resend env fuel kept x behind c now
                  (resend_host-safe env kept x behind c d.0),
              resend_host-rest env kept x behind c d.0,
            )
            (timer_loop-tells env fuel (resend_host env kept x behind c).0 xs h ys
              (resend_host env kept x behind c).2 k
              (resend_host-Told h.worker timeout k env kept x behind c t) d.1 e)
      | inr (inr now) ↦
          rw (timer_loop-waiting env fuel kept x behind c now)
            (timer_loop-tells env fuel (kept ++ x ∷ []) xs h ys c k t d.1 e)
    ]

due-expired : (now : ℕ) (h : Host) → h.timeout_at < now → due now h ≡ expired
unfolding due
due-expired now h l = ground arith

pub stop_if_empty-notices :
    (closed : ℤ) (hs : List Host) (c : Controller) → (stop_if_empty closed hs c).notices ≡ c.notices
unfolding stop_if_empty stop
stop_if_empty-notices closed [] c = refl
stop_if_empty-notices closed (h ∷ hs) c = refl

-- With distinct identifiers, a timer tick returns, no host is left whose time has run out, and the
-- worker of any such host is told the response `timeout` once more than before, also where other
-- hosts send again and fail in the same tick.
pub on_timer-tells :
    (env : World) (closed : ℤ) (c : Controller) (xs : List Host) (h : Host) (ys : List Host)
    → c.hosts ≡ xs ++ h ∷ ys
    → HasDistinctIds c.hosts
    → h.timeout_at < env.now
    → Returns
        (λ c'.
          All (IsInTime env.now) c'.hosts
          × (suc (times_told h.worker timeout c.notices) ≤ times_told h.worker timeout c'.notices))
        (on_timer env closed c)
unfolding on_timer
on_timer-tells env closed c xs h ys listed d l =
    let k = times_told h.worker timeout c.notices in
    let tells : OnOk (Told h.worker timeout (suc k))
        (timer_loop env (length c.hosts) [] c.hosts c) =
      subst (λ hs. OnOk (Told h.worker timeout (suc k)) (timer_loop env (length c.hosts) [] hs c))
        (sym listed)
        (timer_loop-tells env (length c.hosts) [] xs h ys c k (omega arith)
          (subst HasDistinctIds listed d) (due-expired env.now h l)) in
    Returns-OnOk _ (Told h.worker timeout (suc k)) (on_timer env closed c)
      (on_timer-IsInTime env closed c d)
      (on_timer-OnOk env closed c (Told h.worker timeout (suc k))
        (λ c' t.
          subst (λ ns. suc k ≤ times_told h.worker timeout ns)
            (sym (stop_if_empty-notices closed c'.hosts c')) t)
        tells)
