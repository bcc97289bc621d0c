-- ===== src/Icmp/Controller/Sending.antt =====
-- The first packet of a host, where the socket is open or opens, and `sendto` succeeds.
use libudjatnetwork.Prelude.{
  ℕ, suc, ◌+◌, ◌%◌, ◌≡◌, ◌⊎◌, refl, ◌==◌, true, false, [], ◌∷◌, ◌++◌, none, arith, ok, pos, subst,
  inl, inr,
}
use libudjatnetwork.SockAddr.{SockAddr, af_inet}
use libudjatnetwork.Icmp.Packet.{Payload, Packet, echo_request}
use libudjatnetwork.Icmp.Host.{Worker, Host, Controller, World, update, current_time}
use libudjatnetwork.Icmp.Controller.{
  Sys, not_open, start, listen, transmit, host_send, purge, emplace, enrol, insert,
}

-- The host of an insertion, its payload and its packet.
abbrev pub first_host : World → ℕ → Worker → ℕ → Host
first_host env w v id = record {
  worker = w;
  id = id;
  timeout_at = env.now + v.timers_interval;
  packets = 1;
  next = env.now + v.timers_interval;
}

abbrev pub first_payload : World → Controller → Payload
first_payload env c = record { id = c.next_id; seq = 1; time = current_time env.tv_sec env.tv_nsec }

abbrev pub first_packet : World → Controller → Packet
first_packet env c = echo_request env.order env.pid ((c.seq + 1) % 65536) (first_payload env c)

-- The socket is open, or `start` opens it.
abbrev pub CanOpen : Sys → Type 0
CanOpen sys =
    (sys.icmp_known ≡ true)
    × ((n : ℕ) × (sys.socket ≡ pos (suc n)))
    × (sys.getfl_fails ≡ false)
    × (sys.setfl_fails ≡ false)

abbrev pub IsReady : Sys → Controller → Type 0
IsReady sys c = ((n : ℕ) × (c.fd ≡ pos (suc n))) ⊎ ((not_open c.fd ≡ true) × CanOpen sys)

-- A worker that a packet reaches: it is idle, it has an IPv4 address, and `sendto` succeeds.
abbrev pub IsReached : World → ℕ → Controller → Type 0
IsReached env w c =
    ((c.workers w).busy ≡ false)
    × ((c.workers w).addr.ss_family ≡ af_inet)
    × (env.sendto ((c.seq + 1) % 65536) (c.workers w).addr ≡ none)

-- What an insertion meets that sends its packet.
abbrev pub CanSend : World → Sys → ℕ → Controller → Type 0
CanSend env sys w c = IsReady sys c × IsReached env w c

-- What it leaves, for the worker as it was: the host behind the others, its packet, an open socket,
-- and the counters.
abbrev pub HasSent : World → ℕ → Worker → Controller → Controller → Type 0
HasSent env w v c c' =
    (c'.hosts ≡ c.hosts ++ first_host env w v c.next_id ∷ [])
    × (c'.sent ≡ (v.addr, first_packet env c) ∷ c.sent)
    × (c'.notices ≡ c.notices)
    × ((n : ℕ) × (c'.fd ≡ pos (suc n)))
    × (c'.next_id ≡ (c.next_id + 1) % 65536)
    × ((c'.workers w).addr ≡ v.addr)

transmit_open :
    (env : World) (a : SockAddr) (p : Payload) (c : Controller) (n : ℕ)
    → c.fd ≡ pos (suc n)
    → a.ss_family ≡ af_inet
    → env.sendto ((c.seq + 1) % 65536) a ≡ none
    → let seq = (c.seq + 1) % 65536 in
      transmit env a p c
      ≡ ok (record c { seq = seq; sent = (a, echo_request env.order env.pid seq p) ∷ c.sent }, none)
unfolding transmit
transmit_open env a p c n f i s = ground (arith, f, i, s)

emplace-HasSent :
    (env : World) (w : ℕ) (c : Controller) (n : ℕ)
    → c.fd ≡ pos (suc n)
    → (c.workers w).addr.ss_family ≡ af_inet
    → env.sendto ((c.seq + 1) % 65536) (c.workers w).addr ≡ none
    → HasSent env w (c.workers w) c (emplace env w c)
unfolding emplace host_send purge
emplace-HasSent env w c n f a s =
    let counted = record c { next_id = (c.next_id + 1) % 65536 } in
    let sends = transmit_open env (c.workers w).addr (first_payload env c) counted n f a s in
    rw (sends, emplace, host_send) (refl, refl, refl, (n, f), refl, refl)

start_opens :
    (sys : Sys) (c : Controller)
    → IsReady sys c
    → (n : ℕ) × (start sys c ≡ (ok tt, listen (record c { fd = pos (suc n) })))
unfolding start listen
start_opens sys c (inl (n, f)) =
    let opened : not_open c.fd ≡ false = rw f refl in (n, rw (opened, start) (rw f refl))
start_opens sys c (inr (closed, (k, (n, s), g, e))) =
    (n, rw (closed, start) (rw k (rw s (rw (g, e) refl))))

-- With `CanSend`, an insertion succeeds: the socket is open after it, the host stands behind the
-- others, and one echo request for it was handed to `sendto`.
pub insert-HasSent :
    (env : World) (sys : Sys) (w : ℕ) (c : Controller)
    → CanSend env sys w c
    → ((insert env sys w c).0 ≡ ok tt) × HasSent env w (c.workers w) c (insert env sys w c).1
unfolding insert enrol listen
insert-HasSent env sys w c (ready, (free, a, s)) =
    let (n, started) = start_opens sys c ready in
    let self : (w == w) ≡ true = ground arith in
    let v = record (c.workers w) { busy = true } in
    let c' = record (listen (record c { fd = pos (suc n) })) { workers = update c.workers w v } in
    let mine : c'.workers w ≡ v = rw self refl in
    let sends =
      subst (λ u. HasSent env w u c' (emplace env w c')) mine
        (emplace-HasSent env w c' n refl (rw self a) (rw self s)) in
    rw (free, insert) (rw started (refl, sends))
