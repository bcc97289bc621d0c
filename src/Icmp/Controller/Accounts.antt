-- ===== src/Icmp/Controller/Accounts.antt =====
-- What the workers are told, against the checks that were started for them.
pub mod Passes
use libudjatnetwork.Prelude.{
  ℕ, ◌+◌, ◌%◌, ◌≡◌, ◌≤◌, ◌≢◌, ==_iff, refl, ap, Bool, true, List, [], ◌∷◌, ◌++◌, inl, inr, ℤ, none,
  some, Bool-cases, if_lem, ◌&&◌, ◌==◌, if◌then◌else◌, arith, length, Result, ok, err, fault, OnOk,
}
use libudjatnetwork.SockAddr.{SockAddr}
use libudjatnetwork.Icmp.Packet.{Payload}
use libudjatnetwork.Icmp.Host.{Notice, Host, Controller, World, idle, on_error, on_response, update}
use libudjatnetwork.Icmp.Controller.{
  Sys, Failure, sweep, purge, start, host_send, new_host, emplace, enrol, insert, remove, Datagram,
  accepted, handle_event, resend_host, on_timer, deliver,
}
use libudjatnetwork.Icmp.Controller.Sweep.{
  Predicate, count_of, count_of-append, sweep-gone, sweep-stays,
}
use libudjatnetwork.Icmp.Controller.Accounts.Passes.{
  notices_for, account, one, IsKnown, sweep-account, sweep-exact, on_error-TellsAll,
  on_response-TellsOnce, on_response-TellsAll,
}
use libudjatnetwork.Icmp.Controller.Walk.{timer_loop-OnOk, on_timer-OnOk}
use libudjatnetwork.Icmp.Controller.Thinning.{stop_if_empty-hosts}
use libudjatnetwork.Icmp.Controller.Insertion.{start-SameBook}
use libudjatnetwork.Icmp.Controller.Telling.{host_send-notices, stop_if_empty-notices}

host_send-worker :
    (env : World) (h : Host) (c : Controller) → (host_send env h c).0.worker ≡ h.worker
unfolding host_send
host_send-worker env h c = refl

-- The checks of the worker `w` that an insertion of `v` begins, by its result.
abbrev pub begun : ℕ → ℕ → Result (Unit {0}) → ℕ
begun w v (ok u) = one w v
begun w v (err e) = 0
begun w v fault = 0

module _ (w : ℕ) where
  purge-account :
      (f : Failure) (hs : List Host) (c : Controller)
      → account w (purge f hs c).0 (purge f hs c).1 ≡ account w hs c
  unfolding purge
  purge-account none hs c = refl
  purge-account (some (code, p)) hs c =
      sweep-exact w (on_error code p) hs c (on_error-TellsAll w code p)

  emplace-account :
      (env : World) (v : ℕ) (c : Controller)
      → account w (emplace env v c).hosts (emplace env v c) ≡ account w c.hosts c + one w v
  unfolding emplace
  emplace-account env v c =
      let counted : Controller = record c { next_id = (c.next_id + 1) % 65536 } in
      let sent = host_send env (new_host env v c) counted in
      let same : notices_for w sent.1.notices ≡ notices_for w c.notices =
        ap (notices_for w) (host_send-notices env (new_host env v c) counted) in
      let (kept, left) = purge sent.2 c.hosts sent.1 in
      omega (
        arith,
        same,
        purge-account sent.2 c.hosts sent.1,
        count_of-append w kept (sent.0 ∷ []),
        ap (one w) (host_send-worker env (new_host env v c) counted),
      )

  resend_host-account :
      (env : World) (kept : List Host) (h : Host) (rest : List Host) (c : Controller)
      → account w
          ((resend_host env kept h rest c).0 ++ (resend_host env kept h rest c).1)
          (resend_host env kept h rest c).2
        ≡ account w (kept ++ h ∷ rest) c
  unfolding resend_host
  resend_host-account env kept h rest c =
      let (h', c₁, failure) = host_send env h c in
      let (before, c₂) = purge failure kept c₁ in
      let (current, c₃) = purge failure (h' ∷ []) c₂ in
      let (behind, c₄) = purge failure rest c₃ in
      let same : notices_for w c₁.notices ≡ notices_for w c.notices =
        ap (notices_for w) (host_send-notices env h c) in
      omega (
        arith,
        same,
        ap (one w) (host_send-worker env h c),
        purge-account failure kept c₁,
        purge-account failure (h' ∷ []) c₂,
        purge-account failure rest c₃,
        count_of-append w (before ++ current) behind,
        count_of-append w before current,
        count_of-append w kept (h ∷ rest),
      )

  pub on_timer-account :
      (env : World) (closed : ℤ) (c : Controller)
      → OnOk (λ c'. account w c'.hosts c' ≡ account w c.hosts c) (on_timer env closed c)
  unfolding idle
  on_timer-account env closed c =
      on_timer-OnOk env closed c (λ c'. account w c'.hosts c' ≡ account w c.hosts c)
        (λ c' l.
          rw (stop_if_empty-hosts closed c'.hosts c', stop_if_empty-notices closed c'.hosts c') l)
        (timer_loop-OnOk env (λ kept rest c'. account w (kept ++ rest) c' ≡ account w c.hosts c)
          (λ kept h rest c' l.
            omega (arith, l, count_of-append w kept (h ∷ rest), count_of-append w kept rest))
          (λ kept h rest c' l. omega (arith, l, resend_host-account env kept h rest c'))
          (λ kept h rest c' l. omega (
            arith,
            l,
            count_of-append w kept (h ∷ rest),
            count_of-append w (kept ++ h ∷ []) rest,
            count_of-append w kept (h ∷ []),
          ))
          (λ c'. account w c'.hosts c' ≡ account w c.hosts c)
          (λ kept c' l. omega (arith, l, count_of-append w kept [])) (length c.hosts) [] c.hosts c
          (omega arith))

  enrol-account :
      (env : World) (v : ℕ) (r : Result (Unit {0})) (c : Controller)
      → account w (enrol env v (r, c)).1.hosts (enrol env v (r, c)).1
        ≡ account w c.hosts c + begun w v (enrol env v (r, c)).0
  unfolding enrol
  enrol-account env v (ok u) c =
      let started : Controller = record c {
        workers = update c.workers v (record (c.workers v) { busy = true });
      } in
      omega (arith, emplace-account env v started)
  enrol-account env v (err e) c = omega arith
  enrol-account env v fault c = omega arith

  pub insert-account :
      (env : World) (sys : Sys) (v : ℕ) (c : Controller)
      → account w (insert env sys v c).1.hosts (insert env sys v c).1
        ≡ account w c.hosts c + begun w v (insert env sys v c).0
  unfolding insert
  insert-account env sys v c = elim (Bool-cases (c.workers v).busy) [
    | inl busy ↦ rw (busy, insert) (omega arith)
    | inr free ↦
        let (hosts, workers, notices, sent) = start-SameBook sys c in
        rw (free, insert)
          (omega (
            arith,
            enrol-account env v (start sys c).0 (start sys c).1,
            ap (notices_for w) notices,
            ap (count_of w) hosts,
          ))
  ]

  pub remove-account :
      (closed : ℤ) (v : ℕ) (c : Controller)
      → account w (remove closed v c).hosts (remove closed v c) ≤ account w c.hosts c
  unfolding remove
  remove-account closed v c =
      rw (stop_if_empty-hosts closed _ _, stop_if_empty-notices closed _ _)
        (sweep-account w (λ h c. (h.worker == v, c)) c.hosts c (λ h c. ground arith))

  pub handle_event-account :
      (env : World) (oninput : Bool) (d : Datagram) (c : Controller)
      → account w (handle_event env oninput d c).hosts (handle_event env oninput d c)
        ≤ account w c.hosts c
  unfolding handle_event deliver
  handle_event-account env oninput d c =
      if_lem (λ (r : Controller). account w r.hosts r ≤ account w c.hosts c)
        (oninput && accepted env d)
        (sweep-account w (on_response env d.packet.icmp_type d.from d.packet.payload) c.hosts c
          (on_response-TellsOnce w env d.packet.icmp_type d.from d.packet.payload))
        (omega arith)

  -- Where another worker is removed, or none is, nothing is lost.
  pub remove-exact :
      (closed : ℤ) (v : ℕ) (c : Controller)
      → v ≢ w
      → account w (remove closed v c).hosts (remove closed v c) ≡ account w c.hosts c
  unfolding remove
  remove-exact closed v c n =
      rw (stop_if_empty-hosts closed _ _, stop_if_empty-notices closed _ _)
        (sweep-exact w (λ h c. (h.worker == v, c)) c.hosts c
          (λ h c. ground (arith, n, ==_iff h.worker v, ==_iff h.worker w)))

  pub handle_event-exact :
      (env : World) (oninput : Bool) (d : Datagram) (c : Controller)
      → IsKnown d.packet.icmp_type
      → account w (handle_event env oninput d c).hosts (handle_event env oninput d c)
        ≡ account w c.hosts c
  unfolding handle_event deliver
  handle_event-exact env oninput d c k =
      if_lem (λ (r : Controller). account w r.hosts r ≡ account w c.hosts c)
        (oninput && accepted env d)
        (sweep-exact w (on_response env d.packet.icmp_type d.from d.packet.payload) c.hosts c
          (on_response-TellsAll w env d.packet.icmp_type d.from d.packet.payload k))
        (omega arith)
