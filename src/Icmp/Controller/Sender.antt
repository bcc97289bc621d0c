-- ===== src/Icmp/Controller/Sender.antt =====
-- `send` of library/os/linux/icmp_controller.cc and `Host::send` of library/os/linux/icmphost.cc, with
-- the `remove_if` that a failed packet runs over the hosts.
use libudjatnetwork.Prelude.{
  ℕ, ◌+◌, ◌%◌, Bool, true, false, Option, none, some, List, [], ◌∷◌, ◌==◌, if◌then◌else◌, ℤ, pos,
  is_negative, Result, ok, err, fault, runtime_error, system_error,
}
use libudjatnetwork.SockAddr.{SockAddr, af_inet, af_inet6}
use libudjatnetwork.Icmp.Packet.{Payload, echo_request}
use libudjatnetwork.Icmp.Host.{Host, Controller, World, current_time, idle, on_error}

-- `hosts.remove_if` with a predicate that may change the controller; the worker of a removed host
-- is set idle. The result is the list that is left.
unfoldable pub sweep :
    (Host → Controller → Bool × Controller) → List Host → Controller → List Host × Controller
sweep f [] c = ([], c)
sweep f (h ∷ hs) c =
    let (gone, c') = f h c in
    elim gone [
      | true ↦ sweep f hs (idle c' h.worker)
      | false ↦ let (kept, c'') = sweep f hs c' in (h ∷ kept, c'')
    ]

-- `send` up to the result of `sendto`: the new state, and the `errno` of a failure.
unfoldable pub transmit : World → SockAddr → Payload → Controller → Result (Controller × Option ℤ)
transmit env a payload c =
    if is_negative c.fd
    then err (runtime_error "ICMP Controller is not available")
    else if a.ss_family == af_inet
    then (let seq = (c.seq + 1) % 65536 in
        ok (
          record c { seq = seq; sent = (a, echo_request env.order env.pid seq payload) ∷ c.sent },
          env.sendto seq a,
        ))
    else if a.ss_family == af_inet6
    then err (system_error (pos 95))
    else err (runtime_error "Unsupported family")

-- A failed `sendto` that is still to be handled: its `errno` and the payload.
abbrev pub Failure : Type 0
Failure = Option (ℤ × Payload)

abbrev pub after_send : Payload → Controller → Result (Controller × Option ℤ) → Controller × Failure
after_send p c (ok (c', none)) = (c', none)
after_send p c (ok (c', some code)) = (c', some (code, p))
after_send p c (err e) = (c, none)
after_send p c fault = (c, none)

-- The fields of a host after `Host::send`.
abbrev pub next_packet : World → ℕ → Host → Host
next_packet env interval h = record h {
  next = env.now + interval;
  packets = (h.packets + 1) % 65536;
}

-- `Host::send`, which swallows exceptions; the failure is left to the caller, which knows where in
-- the list the host stands.
unfoldable pub host_send : World → Host → Controller → Host × Controller × Failure
unfolding transmit
host_send env h c =
    let h' = next_packet env (c.workers h.worker).timers_interval h in
    let payload : Payload = record {
      id = h'.id;
      seq = h'.packets;
      time = current_time env.tv_sec env.tv_nsec;
    } in
    let (c', failure) = after_send payload c (transmit env (c.workers h.worker).addr payload c) in
    (h', c', failure)

-- The `remove_if` of `send` over one part of the list.
unfoldable pub purge : Failure → List Host → Controller → List Host × Controller
unfolding sweep
purge none hs c = (hs, c)
purge (some (code, payload)) hs c = sweep (on_error code payload) hs c
