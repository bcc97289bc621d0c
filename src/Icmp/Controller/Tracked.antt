-- ===== src/Icmp/Controller/Tracked.antt =====
-- The workers' `busy` flags and the controller's list stay in step.
use libudjatnetwork.Prelude.{
  ℕ, ◌+◌, ◌%◌, ◌≡◌, refl, sym, ap, ◌∙◌, Bool, true, false, List, [], ◌∷◌, ◌++◌, inl, inr, ℤ, none,
  some, Bool-cases, if_lem, ◌&&◌, ◌==◌, if◌then◌else◌, arith, length, Result, ok, err, fault, OnOk,
}
use libudjatnetwork.Icmp.Host.{
  Worker, Host, Controller, World, notify, idle, update, on_error, on_response,
}
use libudjatnetwork.Icmp.Packet.{Payload}
use libudjatnetwork.Icmp.Response.{timeout}
use libudjatnetwork.SockAddr.{zeroed}
use libudjatnetwork.Icmp.Controller.{
  Sys, Failure, Event, inserts, removes, reads, ticks, start, host_send, purge, emplace, insert,
  stop_if_empty, remove, handle_event, on_timer, step, new_host, resend_host, enrol, Datagram,
  accepted,
}
use libudjatnetwork.Icmp.Controller.Walk.{timer_loop-OnOk, on_timer-OnOk}
use libudjatnetwork.Icmp.Controller.Sweep.{
  count_of, flag, TrackedWith, KeepsBusy, count_of-append, flag-idle, sweep-TrackedWith,
}

-- Every busy worker has exactly one host in the list, and every idle worker has none.
abbrev pub IsTracked : Controller → Type 0
IsTracked c = TrackedWith (λ _. 0) c.hosts c

on_error-KeepsBusy : (code : ℤ) (p : Payload) → KeepsBusy (on_error code p)
unfolding on_error
on_error-KeepsBusy code p h c w = ground arith

on_response-KeepsBusy :
    (env : World) (t : ℕ) (a : _) (p : Payload) → KeepsBusy (on_response env t a p)
unfolding on_response
on_response-KeepsBusy env t a p h c w = ground arith

pub purge-TrackedWith :
    (f : Failure) (n : ℕ → ℕ) (hs : List Host) (c : Controller)
    → TrackedWith n hs c
    → TrackedWith n (purge f hs c).0 (purge f hs c).1
unfolding purge
purge-TrackedWith none n hs c t = t
purge-TrackedWith (some (code, p)) n hs c t =
    sweep-TrackedWith (on_error code p) n hs c (on_error-KeepsBusy code p) t

pub workers-host_send :
    (env : World) (h : Host) (c : Controller) → (host_send env h c).1.workers ≡ c.workers
unfolding host_send
workers-host_send env h c = ground arith

worker-host_send :
    (env : World) (h : Host) (c : Controller) → (host_send env h c).0.worker ≡ h.worker
unfolding host_send
worker-host_send env h c = refl

flag-host_send :
    (env : World) (h : Host) (c : Controller) (w : ℕ) → flag (host_send env h c).1 w ≡ flag c w
flag-host_send env h c w =
    ap (λ (f : ℕ → Worker). if (f w).busy then 1 else 0) (workers-host_send env h c)

stop_if_empty-IsTracked :
    (closed : ℤ) (hs : List Host) (c : Controller)
    → TrackedWith (λ _. 0) hs c
    → IsTracked (stop_if_empty closed hs c)
unfolding stop_if_empty
stop_if_empty-IsTracked closed [] c t = t
stop_if_empty-IsTracked closed (h ∷ hs) c t = t

pub remove-IsTracked :
    (closed : ℤ) (w : ℕ) (c : Controller) → IsTracked c → IsTracked (remove closed w c)
unfolding remove
remove-IsTracked closed w c t =
    stop_if_empty-IsTracked closed _ _
      (sweep-TrackedWith (λ h c. (h.worker == w, c)) (λ _. 0) c.hosts c (λ h c v. refl) t)

pub handle_event-IsTracked :
    (env : World) (oninput : Bool) (d : Datagram) (c : Controller)
    → IsTracked c
    → IsTracked (handle_event env oninput d c)
unfolding handle_event
handle_event-IsTracked env oninput d c t =
    if_lem IsTracked (oninput && accepted env d)
      (sweep-TrackedWith (on_response env d.packet.icmp_type d.from d.packet.payload) (λ _. 0)
        c.hosts c (on_response-KeepsBusy env d.packet.icmp_type d.from d.packet.payload) t)
      t

emplace-IsTracked :
    (env : World) (w : ℕ) (c : Controller)
    → TrackedWith (λ v. if w == v then 1 else 0) c.hosts c
    → IsTracked (emplace env w c)
unfolding emplace
emplace-IsTracked env w c t v =
    let c' = record c { next_id = (c.next_id + 1) % 65536 } in
    let (h, c₁, failure) = host_send env (new_host env w c) c' in
    let purged =
      purge-TrackedWith failure (λ v. if w == v then 1 else 0) c.hosts c₁
        (λ v. t v ∙ sym (flag-host_send env (new_host env w c) c' v)) v in
    let appended = count_of-append v (purge failure c.hosts c₁).0 (h ∷ []) in
    omega (arith, purged, appended)

start_keeps :
    (sys : Sys) (c : Controller)
    → ((start sys c).1.workers ≡ c.workers) × ((start sys c).1.hosts ≡ c.hosts)
unfolding start
start_keeps sys c = ground arith

enrol-IsTracked :
    (env : World) (w : ℕ) (r : Result (Unit {0})) (c : Controller)
    → (c.workers w).busy ≡ false
    → IsTracked c
    → IsTracked (enrol env w (r, c)).1
unfolding enrol
enrol-IsTracked env w (ok u) c b t =
    emplace-IsTracked env w
      (record c { workers = update c.workers w (record (c.workers w) { busy = true }) })
      (λ v. ground (arith, t v))
enrol-IsTracked env w (err e) c b t = t
enrol-IsTracked env w fault c b t = t

start-IsTracked : (sys : Sys) (c : Controller) → IsTracked c → IsTracked (start sys c).1
start-IsTracked sys c t v = rw ((start_keeps sys c).0, (start_keeps sys c).1) (t v)

pub insert-IsTracked :
    (env : World) (sys : Sys) (w : ℕ) (c : Controller)
    → IsTracked c
    → IsTracked (insert env sys w c).1
unfolding insert
insert-IsTracked env sys w c t = elim (Bool-cases (c.workers w).busy) [
  | inl busy ↦ rw (busy, insert) t
  | inr free ↦
      let still : ((start sys c).1.workers w).busy ≡ false = rw (start_keeps sys c).0 free in
      rw (free, insert)
        (enrol-IsTracked env w (start sys c).0 (start sys c).1 still (start-IsTracked sys c t))
]

-- A host that sends again leaves the three parts of the list tracked.
resend_host-TrackedWith :
    (env : World) (kept : List Host) (h : Host) (rest : List Host) (c : Controller)
    → TrackedWith (λ w. count_of w (h ∷ rest)) kept c
    → TrackedWith
        (λ w. count_of w (resend_host env kept h rest c).1)
        (resend_host env kept h rest c).0
        (resend_host env kept h rest c).2
unfolding resend_host
resend_host-TrackedWith env kept h rest c t v =
    let (h', c₁, failure) = host_send env h c in
    let (before, c₂) = purge failure kept c₁ in
    let (current, c₃) = purge failure (h' ∷ []) c₂ in
    let t₁ =
      purge-TrackedWith failure (λ w. count_of w (h ∷ rest)) kept c₁
        (λ w. t w ∙ sym (flag-host_send env h c w)) in
    let t₂ =
      purge-TrackedWith failure (λ w. count_of w rest + count_of w before) (h' ∷ []) c₂
        (λ w. omega (arith, t₁ w)) in
    let t₃ =
      purge-TrackedWith failure (λ w. count_of w before + count_of w current) rest c₃
        (λ w. omega (arith, t₂ w)) in
    omega (arith, t₃ v, count_of-append v before current)

-- The loop of `on_timer`, with `rest` still to come.
expired-TrackedWith :
    (kept : List Host) (h : Host) (rest : List Host) (c : Controller)
    → TrackedWith (λ w. count_of w (h ∷ rest)) kept c
    → TrackedWith (λ w. count_of w rest) kept (idle (notify c h.worker timeout zeroed) h.worker)
expired-TrackedWith kept h rest c t w =
    ground (arith, t w, flag-idle (notify c h.worker timeout zeroed) h.worker w)

waiting-TrackedWith :
    (kept : List Host) (h : Host) (rest : List Host) (c : Controller)
    → TrackedWith (λ w. count_of w (h ∷ rest)) kept c
    → TrackedWith (λ w. count_of w rest) (kept ++ h ∷ []) c
waiting-TrackedWith kept h rest c t w = omega (arith, t w, count_of-append w kept (h ∷ []))

on_timer-IsTracked :
    (env : World) (closed : ℤ) (c : Controller)
    → IsTracked c
    → OnOk IsTracked (on_timer env closed c)
on_timer-IsTracked env closed c t =
    on_timer-OnOk env closed c IsTracked (λ c' k. stop_if_empty-IsTracked closed c'.hosts c' k)
      (timer_loop-OnOk env (λ kept rest c'. TrackedWith (λ w. count_of w rest) kept c')
        expired-TrackedWith (resend_host-TrackedWith env) waiting-TrackedWith IsTracked
        (λ kept c' k. k) (length c.hosts) [] c.hosts c (λ w. omega (arith, t w)))

pub step-IsTracked : (e : Event) (c : Controller) → IsTracked c → OnOk IsTracked (step e c)
unfolding step
step-IsTracked (inserts env sys w) c t = insert-IsTracked env sys w c t
step-IsTracked (removes closed w) c t = remove-IsTracked closed w c t
step-IsTracked (reads env oninput d) c t = handle_event-IsTracked env oninput d c t
step-IsTracked (ticks env closed) c t = on_timer-IsTracked env closed c t
