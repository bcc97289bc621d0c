-- ===== src/Icmp/Controller/Counter.antt =====
-- The counter of identifiers: only an insertion moves it, by one.
use libudjatnetwork.Prelude.{
  ℕ, ◌+◌, ◌%◌, ◌≡◌, refl, ◌∙◌, Bool, true, List, [], ◌∷◌, inl, inr, ◌⊎◌, ℤ, none, some, Bool-cases,
  if_lem, ◌&&◌, ◌==◌, arith, length, Result, ok, err, fault, OnOk, subst,
}
use libudjatnetwork.Icmp.Host.{Host, Controller, World, idle, on_error, on_response, update}
use libudjatnetwork.Icmp.Controller.{
  Sys, Failure, sweep, purge, start, host_send, emplace, enrol, insert, stop_if_empty, remove,
  Datagram, accepted, handle_event, resend_host, on_timer, new_host, deliver, transmit, stop,
}
use libudjatnetwork.Icmp.Controller.Sweep.{Predicate, sweep-gone, sweep-stays}
use libudjatnetwork.Icmp.Controller.Walk.{timer_loop-OnOk, on_timer-OnOk}
use libudjatnetwork.Icmp.Controller.Thinning.{Grows, start_keeps_list, emplace-Grows}

-- The predicate leaves the counter of identifiers alone.
abbrev KeepsNext : Predicate → Type 0
KeepsNext f = (h : Host) (c : Controller) → (f h c).1.next_id ≡ c.next_id

sweep-next_id :
    (f : Predicate) (hs : List Host) (c : Controller)
    → KeepsNext f
    → (sweep f hs c).1.next_id ≡ c.next_id
unfolding sweep idle
sweep-next_id f [] c k = refl
sweep-next_id f (h ∷ hs) c k = elim (Bool-cases (f h c).0) [
  | inl gone ↦
      rw (sweep-gone f h hs c gone) (sweep-next_id f hs (idle (f h c).1 h.worker) k ∙ k h c)
  | inr stays ↦ rw (sweep-stays f h hs c stays) (sweep-next_id f hs (f h c).1 k ∙ k h c)
]

on_error-KeepsNext : (code : ℤ) (p : _) → KeepsNext (on_error code p)
unfolding on_error
on_error-KeepsNext code p h c = ground arith

on_response-KeepsNext : (env : World) (t : ℕ) (a : _) (p : _) → KeepsNext (on_response env t a p)
unfolding on_response
on_response-KeepsNext env t a p h c = ground arith

purge-next_id :
    (f : Failure) (hs : List Host) (c : Controller) → (purge f hs c).1.next_id ≡ c.next_id
unfolding purge
purge-next_id none hs c = refl
purge-next_id (some (code, p)) hs c =
    sweep-next_id (on_error code p) hs c (on_error-KeepsNext code p)

host_send-next_id :
    (env : World) (h : Host) (c : Controller) → (host_send env h c).1.next_id ≡ c.next_id
unfolding host_send transmit
host_send-next_id env h c = ground arith

stop_if_empty-next_id :
    (closed : ℤ) (hs : List Host) (c : Controller) → (stop_if_empty closed hs c).next_id ≡ c.next_id
unfolding stop_if_empty stop
stop_if_empty-next_id closed [] c = refl
stop_if_empty-next_id closed (h ∷ hs) c = refl

pub remove-next_id : (closed : ℤ) (w : ℕ) (c : Controller) → (remove closed w c).next_id ≡ c.next_id
unfolding remove
remove-next_id closed w c =
    stop_if_empty-next_id closed _ _
    ∙ sweep-next_id (λ h c. (h.worker == w, c)) c.hosts c (λ h c. refl)

pub handle_event-next_id :
    (env : World) (oninput : Bool) (d : Datagram) (c : Controller)
    → (handle_event env oninput d c).next_id ≡ c.next_id
unfolding handle_event deliver
handle_event-next_id env oninput d c =
    if_lem (λ (r : Controller). r.next_id ≡ c.next_id) (oninput && accepted env d)
      (sweep-next_id (on_response env d.packet.icmp_type d.from d.packet.payload) c.hosts c
        (on_response-KeepsNext env d.packet.icmp_type d.from d.packet.payload))
      refl

resend_host-next_id :
    (env : World) (kept : List Host) (h : Host) (rest : List Host) (c : Controller)
    → (resend_host env kept h rest c).2.next_id ≡ c.next_id
unfolding resend_host
resend_host-next_id env kept h rest c =
    let (h', c₁, failure) = host_send env h c in
    let (before, c₂) = purge failure kept c₁ in
    let (current, c₃) = purge failure (h' ∷ []) c₂ in
    purge-next_id failure rest c₃
    ∙ (purge-next_id failure (h' ∷ []) c₂
        ∙ (purge-next_id failure kept c₁ ∙ host_send-next_id env h c))

emplace-next_id :
    (env : World) (w : ℕ) (c : Controller) → (emplace env w c).next_id ≡ (c.next_id + 1) % 65536
unfolding emplace
emplace-next_id env w c =
    let c' = record c { next_id = (c.next_id + 1) % 65536 } in
    let (h, c₁, failure) = host_send env (new_host env w c) c' in
    purge-next_id failure c.hosts c₁ ∙ host_send-next_id env (new_host env w c) c'

-- What an insertion does to the list and to the counter: nothing, or it adds a host and counts it.
abbrev pub MayInsert : ℕ → List Host → ℕ → Controller → Type 0
MayInsert w hs n c' =
    ((c'.hosts ≡ hs) × (c'.next_id ≡ n)) ⊎ (Grows w hs n c'.hosts × (c'.next_id ≡ (n + 1) % 65536))

enrol-MayInsert :
    (env : World) (w : ℕ) (r : Result (Unit {0})) (c : Controller)
    → MayInsert w c.hosts c.next_id (enrol env w (r, c)).1
unfolding enrol
enrol-MayInsert env w (ok u) c =
    let busy = record c { workers = update c.workers w (record (c.workers w) { busy = true }) } in
    inr (emplace-Grows env w busy, emplace-next_id env w busy)
enrol-MayInsert env w (err e) c = inl (refl, refl)
enrol-MayInsert env w fault c = inl (refl, refl)

pub insert-MayInsert :
    (env : World) (sys : Sys) (w : ℕ) (c : Controller)
    → MayInsert w c.hosts c.next_id (insert env sys w c).1
unfolding insert
insert-MayInsert env sys w c = elim (Bool-cases (c.workers w).busy) [
  | inl busy ↦ rw (busy, insert) (inl (refl, refl))
  | inr free ↦
      let (hosts, next) = start_keeps_list sys c in
      let c' = (enrol env w (start sys c)).1 in
      rw (free, insert)
        (subst (λ l. MayInsert w l c.next_id c') hosts
          (subst (λ n. MayInsert w (start sys c).1.hosts n c') next
            (enrol-MayInsert env w (start sys c).0 (start sys c).1)))
]

pub on_timer-next_id :
    (env : World) (closed : ℤ) (c : Controller)
    → OnOk (λ c'. c'.next_id ≡ c.next_id) (on_timer env closed c)
unfolding idle
on_timer-next_id env closed c =
    on_timer-OnOk env closed c (λ c'. c'.next_id ≡ c.next_id)
      (λ c' k. stop_if_empty-next_id closed c'.hosts c' ∙ k)
      (timer_loop-OnOk env (λ kept rest c'. c'.next_id ≡ c.next_id) (λ kept h rest c' k. k)
        (λ kept h rest c' k. resend_host-next_id env kept h rest c' ∙ k) (λ kept h rest c' k. k)
        (λ c'. c'.next_id ≡ c.next_id) (λ kept c' k. k) (length c.hosts) [] c.hosts c refl)
