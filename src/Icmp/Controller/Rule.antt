-- ===== src/Icmp/Controller/Rule.antt =====
-- A rule for the controller's histories: what the primitive steps keep, every history keeps.
use libudjatnetwork.Prelude.{
  ℕ, ◌+◌, ◌%◌, ◌≡◌, refl, sym, Bool, true, false, not, ◌&&◌, ◌||◌, List, [], ◌∷◌, none, some, inl,
  inr, Bool-cases, if_lem, ◌==◌, ℤ, is_negative, length, Result, ok, err, fault, OnOk, OnOk-bind,
  All, All-append, subst,
}
use libudjatnetwork.SockAddr.{zeroed}
use libudjatnetwork.Icmp.Response.{timeout}
use libudjatnetwork.Icmp.Packet.{Payload}
use libudjatnetwork.Icmp.Host.{Host, Controller, World, notify, idle, update, on_error, on_response}
use libudjatnetwork.Icmp.Controller.{
  Sys, Datagram, Failure, not_open, start, stop, listen, stop_if_empty, sweep, host_send, purge,
  new_host, emplace, enrol, insert, remove, accepted, deliver, handle_event, resend_host, on_timer,
  Event, inserts, removes, reads, ticks, step, run,
}
use libudjatnetwork.Icmp.Controller.Sweep.{Predicate, sweep-gone, sweep-stays}
use libudjatnetwork.Icmp.Controller.Walk.{timer_loop-OnOk, on_timer-OnOk}

-- What the primitive steps keep: `P` of every host in the list, and `Q` of the controller, which
-- does not look at the list, where the events satisfy `E`.
pub record Laws (P : Host → Type 0) (Q : Controller → Type 0) (E : Event → Type 0) : Type 0 where
  pub lists : (c : Controller) (hs : List Host) → Q c → Q (record c { hosts = hs })
  pub opens :
      (c : Controller) (f : ℤ) (a b : Bool)
      → Q c
      → Q (record c { fd = f; handler_enabled = a; timer_enabled = b })
  pub flags :
      (c : Controller) (w : ℕ) (b : Bool)
      → Q c
      → Q (record c { workers = update c.workers w (record (c.workers w) { busy = b }) })
  pub creates :
      (env : World) (sys : Sys) (w : ℕ) (c : Controller)
      → E (inserts env sys w)
      → Q c
      → P (new_host env w c) × Q (record c { next_id = (c.next_id + 1) % 65536 })
  pub sends :
      (env : World) (h : Host) (c : Controller)
      → P h
      → Q c
      → P (host_send env h c).0 × Q (host_send env h c).1
  pub errs : (code : ℤ) (p : Payload) (h : Host) (c : Controller) → Q c → Q (on_error code p h c).1
  pub expires : (w : ℕ) (c : Controller) → Q c → Q (notify c w timeout zeroed)
  pub answers :
      (env : World) (oninput : Bool) (d : Datagram) (h : Host) (c : Controller)
      → E (reads env oninput d)
      → Q c
      → Q (on_response env d.packet.icmp_type d.from d.packet.payload h c).1

-- `start` changes the socket and its listener only.
start-opens :
    (sys : Sys) (c : Controller)
    → (f : ℤ) × (a : Bool) × (b : Bool) × ((start sys c).1
        ≡ record c { fd = f; handler_enabled = a; timer_enabled = b })
unfolding start stop listen
start-opens sys c = elim (Bool-cases (not_open c.fd)) [
  | inr opened ↦ (c.fd, true, true, rw (opened, start) refl)
  | inl closed ↦ elim (Bool-cases (not sys.icmp_known)) [
    | inl unknown ↦ (sys.closed, false, false, rw (closed, unknown, start) refl)
    | inr known ↦
        elim (Bool-cases (is_negative sys.socket || (sys.getfl_fails || sys.setfl_fails))) [
          | inl failed ↦ (sys.closed, false, false, rw (closed, known, failed, start) refl)
          | inr works ↦ (sys.socket, true, true, rw (closed, known, works, start) refl)
        ]
  ]
]

module _ (P : Host → Type 0) (Q : Controller → Type 0) (E : Event → Type 0)
    (laws : Laws P Q E) where
  -- A list of hosts beside a controller.
  abbrev Both : List Host → Controller → Type 0
  Both hs c = All P hs × Q c

  sweep-Both :
      (f : Predicate) (hs : List Host) (c : Controller)
      → ((h : Host) (c : Controller) → Q c → Q (f h c).1)
      → Both hs c
      → Both (sweep f hs c).0 (sweep f hs c).1
  unfolding sweep idle
  sweep-Both f [] c k b = b
  sweep-Both f (h ∷ hs) c k b = elim (Bool-cases (f h c).0) [
    | inl gone ↦ rw (sweep-gone f h hs c gone) (
        sweep-Both f hs (idle (f h c).1 h.worker) k
          (b.0.1, laws.flags (f h c).1 h.worker false (k h c b.1)))
    | inr stays ↦
        let (kept, q) = sweep-Both f hs (f h c).1 k (b.0.1, k h c b.1) in
        rw (sweep-stays f h hs c stays) ((b.0.0, kept), q)
  ]

  purge-Both :
      (f : Failure) (hs : List Host) (c : Controller)
      → Both hs c
      → Both (purge f hs c).0 (purge f hs c).1
  unfolding purge
  purge-Both none hs c b = b
  purge-Both (some (code, p)) hs c b = sweep-Both (on_error code p) hs c (laws.errs code p) b

  -- The hosts that were passed, those that are left, and the controller.
  abbrev Three : List Host → List Host → Controller → Type 0
  Three kept rest c = All P kept × All P rest × Q c

  resend_host-Three :
      (env : World) (kept : List Host) (h : Host) (rest : List Host) (c : Controller)
      → Three kept (h ∷ rest) c
      → Three
          (resend_host env kept h rest c).0
          (resend_host env kept h rest c).1
          (resend_host env kept h rest c).2
  unfolding resend_host
  resend_host-Three env kept h rest c (passed, (mine, left), q) =
      let (h', c₁, failure) = host_send env h c in
      let (before, c₂) = purge failure kept c₁ in
      let (current, c₃) = purge failure (h' ∷ []) c₂ in
      let sent = laws.sends env h c mine q in
      let front = purge-Both failure kept c₁ (passed, sent.1) in
      let middle = purge-Both failure (h' ∷ []) c₂ ((sent.0, tt), front.1) in
      let back = purge-Both failure rest c₃ (left, middle.1) in
      (All-append P before current front.0 middle.0, back.0, back.1)

  -- The controller with its own list.
  abbrev pub Whole : Controller → Type 0
  Whole c = Both c.hosts c

  stop_if_empty-Whole :
      (closed : ℤ) (hs : List Host) (c : Controller) → Both hs c → Whole (stop_if_empty closed hs c)
  unfolding stop_if_empty stop
  stop_if_empty-Whole closed [] c b =
      (tt, laws.opens (record c { hosts = [] }) closed false false (laws.lists c [] b.1))
  stop_if_empty-Whole closed (h ∷ hs) c b = (b.0, laws.lists c (h ∷ hs) b.1)

  pub on_timer-Whole :
      (env : World) (closed : ℤ) (c : Controller) → Whole c → OnOk Whole (on_timer env closed c)
  unfolding idle
  on_timer-Whole env closed c b =
      on_timer-OnOk env closed c Whole (λ c' b'. stop_if_empty-Whole closed c'.hosts c' b')
        (timer_loop-OnOk env Three
          (λ kept h rest c' t.
            (t.0, t.1.1, laws.flags _ h.worker false (laws.expires h.worker c' t.2)))
          (λ kept h rest c' t. resend_host-Three env kept h rest c' t)
          (λ kept h rest c' t. (All-append P kept (h ∷ []) t.0 (t.1.0, tt), t.1.1, t.2)) Whole
          (λ kept c' t. (t.0, laws.lists c' kept t.2)) (length c.hosts) [] c.hosts c (tt, b.0, b.1))

  emplace-Whole :
      (env : World) (sys : Sys) (w : ℕ) (c : Controller)
      → E (inserts env sys w)
      → Whole c
      → Whole (emplace env w c)
  unfolding emplace
  emplace-Whole env sys w c i b =
      let (fresh, counted) = laws.creates env sys w c i b.1 in
      let c' : Controller = record c { next_id = (c.next_id + 1) % 65536 } in
      let (h, c₁, failure) = host_send env (new_host env w c) c' in
      let (mine, q) = laws.sends env (new_host env w c) c' fresh counted in
      let (kept, q') = purge-Both failure c.hosts c₁ (b.0, q) in
      (All-append P _ (h ∷ []) kept (mine, tt), laws.lists _ _ q')

  enrol-Whole :
      (env : World) (sys : Sys) (w : ℕ) (r : Result (Unit {0})) (c : Controller)
      → E (inserts env sys w)
      → Whole c
      → Whole (enrol env w (r, c)).1
  unfolding enrol
  enrol-Whole env sys w (ok u) c i b = emplace-Whole env sys w _ i (b.0, laws.flags c w true b.1)
  enrol-Whole env sys w (err e) c i b = b
  enrol-Whole env sys w fault c i b = b

  start-Whole : (sys : Sys) (c : Controller) → Whole c → Whole (start sys c).1
  start-Whole sys c b =
      let (f, a, e, started) = start-opens sys c in
      subst Whole (sym started) (b.0, laws.opens c f a e b.1)

  insert-Whole :
      (env : World) (sys : Sys) (w : ℕ) (c : Controller)
      → E (inserts env sys w)
      → Whole c
      → Whole (insert env sys w c).1
  unfolding insert
  insert-Whole env sys w c i b = elim (Bool-cases (c.workers w).busy) [
    | inl busy ↦ rw (busy, insert) b
    | inr free ↦
        rw (free, insert)
          (enrol-Whole env sys w (start sys c).0 (start sys c).1 i (start-Whole sys c b))
  ]

  handle_event-Whole :
      (env : World) (oninput : Bool) (d : Datagram) (c : Controller)
      → E (reads env oninput d)
      → Whole c
      → Whole (handle_event env oninput d c)
  unfolding handle_event deliver
  handle_event-Whole env oninput d c fits b =
      let f : Predicate = on_response env d.packet.icmp_type d.from d.packet.payload in
      let swept = sweep-Both f c.hosts c (λ h c'. laws.answers env oninput d h c' fits) b in
      if_lem Whole (oninput && accepted env d) (swept.0, laws.lists _ _ swept.1) b

  step-Whole : (e : Event) (c : Controller) → E e → Whole c → OnOk Whole (step e c)
  unfolding step remove
  step-Whole (inserts env sys w) c r b = insert-Whole env sys w c r b
  step-Whole (removes closed w) c r b =
      let f : Predicate = (λ h c. (h.worker == w, c)) in
      stop_if_empty-Whole closed (sweep f c.hosts c).0 (sweep f c.hosts c).1
        (sweep-Both f c.hosts c (λ h c' q. q) b)
  step-Whole (reads env oninput d) c r b = handle_event-Whole env oninput d c r b
  step-Whole (ticks env closed) c r b = on_timer-Whole env closed c b

  -- Where the hosts and the controller satisfy the properties that the laws keep, they do after every
  -- history that returns.
  pub run-Whole : (es : List Event) (c : Controller) → All E es → Whole c → OnOk Whole (run es c)
  unfolding run
  run-Whole [] c r b = b
  run-Whole (e ∷ es) c r b =
      OnOk-bind Whole Whole (step e c) (run es) (step-Whole e c r.0 b)
        (λ c' b'. run-Whole es c' r.1 b')
