-- ===== src/Icmp/Controller/Walk.antt =====
-- One step of the walk of `on_timer`, for each thing that a host can be due for.
use libudjatnetwork.Prelude.{
  ℕ, zero, suc, ◌≡◌, refl, ◌⊎◌, inl, inr, true, false, List, [], ◌∷◌, ◌++◌, Result, ok, err, fault,
  OnOk, Bool-cases, length, ℤ,
}
use libudjatnetwork.SockAddr.{zeroed}
use libudjatnetwork.Icmp.Response.{timeout}
use libudjatnetwork.Icmp.Host.{Host, Controller, World, notify, idle}
use libudjatnetwork.Icmp.Controller.{
  Due, expired, resend, waiting, due, resend_host, timer_loop, stop_if_empty, stop_after, on_timer,
}

pub Due-cases : (d : Due) → (d ≡ expired) ⊎ (d ≡ resend) ⊎ (d ≡ waiting)
Due-cases expired = inl refl
Due-cases resend = inr (inl refl)
Due-cases waiting = inr (inr refl)

module _ (env : World) (fuel : ℕ) (kept : List Host) (h : Host) (rest : List Host)
    (c : Controller) where
  pub timer_loop-expired :
      due env.now h ≡ expired
      → timer_loop env (suc fuel) kept (h ∷ rest) c
        ≡ timer_loop env fuel kept rest (idle (notify c h.worker timeout zeroed) h.worker)
  unfolding timer_loop
  timer_loop-expired e = rw (e, timer_loop)

  pub timer_loop-waiting :
      due env.now h ≡ waiting
      → timer_loop env (suc fuel) kept (h ∷ rest) c ≡ timer_loop env fuel (kept ++ h ∷ []) rest c
  unfolding timer_loop
  timer_loop-waiting e = rw (e, timer_loop)

  pub timer_loop-resend :
      due env.now h ≡ resend
      → (resend_host env kept h rest c).3 ≡ false
      → timer_loop env (suc fuel) kept (h ∷ rest) c
        ≡ timer_loop env fuel
            (resend_host env kept h rest c).0
            (resend_host env kept h rest c).1
            (resend_host env kept h rest c).2
  unfolding timer_loop
  timer_loop-resend e f = rw (e, timer_loop) (rw f)

  pub timer_loop-freed :
      due env.now h ≡ resend
      → (resend_host env kept h rest c).3 ≡ true
      → timer_loop env (suc fuel) kept (h ∷ rest) c ≡ fault
  unfolding timer_loop
  timer_loop-freed e f = rw (e, timer_loop) (rw f)

-- What every step of the walk keeps holds at its end, where the walk returns. `I` speaks of the hosts
-- that were passed, those that are left, and the controller.
module _ (env : World) (I : List Host → List Host → Controller → Type 0)
    (expires : (kept : List Host) (h : Host) (rest : List Host) (c : Controller)
      → I kept (h ∷ rest) c
      → I kept rest (idle (notify c h.worker timeout zeroed) h.worker))
    (resends : (kept : List Host) (h : Host) (rest : List Host) (c : Controller)
      → I kept (h ∷ rest) c
      → I
          (resend_host env kept h rest c).0
          (resend_host env kept h rest c).1
          (resend_host env kept h rest c).2)
    (waits : (kept : List Host) (h : Host) (rest : List Host) (c : Controller)
      → I kept (h ∷ rest) c
      → I (kept ++ h ∷ []) rest c)
    (Q : Controller → Type 0)
    (ends : (kept : List Host) (c : Controller) → I kept [] c → Q (record c { hosts = kept })) where
  pub timer_loop-OnOk :
      (fuel : ℕ) (kept rest : List Host) (c : Controller)
      → I kept rest c
      → OnOk Q (timer_loop env fuel kept rest c)
  unfolding timer_loop
  timer_loop-OnOk fuel kept [] c i = ends kept c i
  timer_loop-OnOk zero kept (h ∷ rest) c i = tt
  timer_loop-OnOk (suc fuel) kept (h ∷ rest) c i = elim (Due-cases (due env.now h)) [
    | inl e ↦ rw (timer_loop-expired env fuel kept h rest c e) (
        timer_loop-OnOk fuel kept rest (idle (notify c h.worker timeout zeroed) h.worker)
          (expires kept h rest c i))
    | inr (inl e) ↦ elim (Bool-cases (resend_host env kept h rest c).3) [
      | inl freed ↦ rw (timer_loop-freed env fuel kept h rest c e freed) tt
      | inr safe ↦ rw (timer_loop-resend env fuel kept h rest c e safe) (
          timer_loop-OnOk fuel (resend_host env kept h rest c).0 (resend_host env kept h rest c).1
            (resend_host env kept h rest c).2 (resends kept h rest c i))
    ]
    | inr (inr e) ↦
        rw (timer_loop-waiting env fuel kept h rest c e)
          (timer_loop-OnOk fuel (kept ++ h ∷ []) rest c (waits kept h rest c i))
  ]

-- What holds after the walk holds after the whole tick, if stopping the controller keeps it.
pub on_timer-OnOk :
    (env : World) (closed : ℤ) (c : Controller) (Q : Controller → Type 0)
    → ((c' : Controller) → Q c' → Q (stop_if_empty closed c'.hosts c'))
    → OnOk Q (timer_loop env (length c.hosts) [] c.hosts c)
    → OnOk Q (on_timer env closed c)
unfolding on_timer
on_timer-OnOk env closed c Q keeps o = after_loop (timer_loop env (length c.hosts) [] c.hosts c) o
  where
    after_loop : (r : Result Controller) → OnOk Q r → OnOk Q (stop_after closed r)
    after_loop (ok c') q = keeps c' q
    after_loop (err e) q = tt
    after_loop fault q = tt
