-- ===== src/Icmp/Controller/Insertion.antt =====
-- What `insert` does on each path, and the clock behind the time of a reply.
use libudjatnetwork.Prelude.{
  ℕ, ◌+◌, ◌*◌, ◌^◌, ◌<◌, ◌≡◌, refl, true, false, List, [], ◌∷◌, ◌++◌, arith, ok,
}
use libudjatnetwork.Icmp.Host.{Host, Controller, World, update, current_time}
use libudjatnetwork.Icmp.Controller.{
  Sys, not_open, start, listen, host_send, new_host, next_packet, emplace, enrol, insert,
}

-- What opening the socket leaves alone.
abbrev pub SameBook : Controller → Controller → Type 0
SameBook c c' =
    (c'.hosts ≡ c.hosts) × (c'.workers ≡ c.workers) × (c'.notices ≡ c.notices) × (c'.sent ≡ c.sent)

pub start-SameBook : (sys : Sys) (c : Controller) → SameBook c (start sys c).1
unfolding start
start-SameBook sys c = ground arith

-- A current time in microseconds that goes backwards: within the range of the 64-bit result, any
-- reading of the monotonic clock in the next second whose nanoseconds are more than a million below
-- those of this reading gives a smaller value.
pub current_time-backwards :
    (sec nsec later : ℕ)
    → later + 1000000 < nsec
    → sec * 1000000 + nsec < 2 ^ 64
    → current_time (sec + 1) later < current_time sec nsec
unfolding current_time
current_time-backwards sec nsec later h l = omega arith

emplace-last :
    (env : World) (w : ℕ) (c : Controller)
    → (front : List Host) × ((emplace env w c).hosts
        ≡ front ++ next_packet env (c.workers w).timers_interval (new_host env w c) ∷ [])
unfolding emplace host_send
emplace-last env w c = (_, refl)

pub start_open :
    (sys : Sys) (c : Controller) → not_open c.fd ≡ false → start sys c ≡ (ok tt, listen c)
unfolding start
start_open sys c h = rw h

-- With an open socket and an idle worker, an insertion succeeds, and the host that it adds at the
-- end of the list runs out one interval of the worker from now: the worker's timeout has no part
-- in it.
pub insert-last :
    (env : World) (sys : Sys) (w : ℕ) (c : Controller)
    → not_open c.fd ≡ false
    → (c.workers w).busy ≡ false
    → ((insert env sys w c).0 ≡ ok tt)
      × ((front : List Host) × (h : Host) × ((insert env sys w c).1.hosts ≡ front ++ h ∷ [])
          × (h.worker ≡ w)
          × (h.timeout_at ≡ env.now + (c.workers w).timers_interval)
          × (h.packets ≡ 1))
unfolding insert enrol listen
insert-last env sys w c opened free =
    let c' : Controller = record (listen c) {
      workers = update (listen c).workers w (record ((listen c).workers w) { busy = true });
    } in
    let last = emplace-last env w c' in
    rw (free, insert)
      (rw (start_open sys c opened) (refl, (last.0, _, last.1, refl, deadline, refl)))
  where
    deadline :
        env.now
          + (update
              (listen c).workers
              w
              (record ((listen c).workers w) { busy = true })
              w).timers_interval
        ≡ env.now + (c.workers w).timers_interval
    deadline = ground arith
