-- ===== src/Icmp/Controller/Ticks.antt =====
-- `on_timer` of library/os/linux/icmp_controller.cc and `Host::onTimer` of library/os/linux/icmphost.cc.
use libudjatnetwork.Prelude.{
  ℕ, zero, suc, Bool, true, false, none, some, List, [], ◌∷◌, ◌++◌, ltb, leb, if◌then◌else◌, length,
  ℤ, Result, ok, err, fault,
}
use libudjatnetwork.SockAddr.{zeroed}
use libudjatnetwork.Icmp.Response.{timeout}
use libudjatnetwork.Icmp.Host.{Host, Controller, World, notify, idle, on_error}
use libudjatnetwork.Icmp.Controller.Socket.{stop_if_empty}
use libudjatnetwork.Icmp.Controller.Sender.{Failure, host_send, purge}

-- Whether the node that `remove_if` goes to next is freed by the inner `remove_if`.
unfoldable pub next_is_freed : Failure → List Host → Controller → Bool
next_is_freed none hs c = false
next_is_freed f [] c = false
next_is_freed (some (code, payload)) (h ∷ hs) c = (on_error code payload h c).0

-- What `onTimer` does with a host: it runs out, sends again, or stays.
pub data Due : Type 0 where
  expired resend waiting : Due

unfoldable pub due : ℕ → Host → Due
due now h = if ltb h.timeout_at now then expired else if leb h.next now then resend else waiting

-- A host sends again inside `remove_if`, where `kept` stands in front of it and `rest` behind it.
-- A failed `sendto` runs the inner `remove_if` over all three parts. The results are the hosts up
-- to the current one, those behind it, the controller, and whether the next node was freed.
unfoldable pub resend_host :
    World → List Host → Host → List Host → Controller → List Host × List Host × Controller × Bool
unfolding host_send purge next_is_freed
resend_host env kept h rest c =
    let (h', c₁, failure) = host_send env h c in
    let (before, c₂) = purge failure kept c₁ in
    let (current, c₃) = purge failure (h' ∷ []) c₂ in
    let (behind, c₄) = purge failure rest c₃ in
    (before ++ current, behind, c₄, next_is_freed failure rest c₁)

-- The `remove_if` of `on_timer` on fuel. The inner `remove_if` may remove the current host, but a
-- freed next node makes the walk undefined.
unfoldable pub timer_loop : World → ℕ → List Host → List Host → Controller → Result Controller
unfolding due resend_host
timer_loop env fuel kept [] c = ok (record c { hosts = kept })
timer_loop env zero kept (h ∷ rest) c = fault
timer_loop env (suc fuel) kept (h ∷ rest) c = elim (due env.now h) [
  | expired ↦ timer_loop env fuel kept rest (idle (notify c h.worker timeout zeroed) h.worker)
  | waiting ↦ timer_loop env fuel (kept ++ h ∷ []) rest c
  | resend ↦
      let (kept', rest', c', freed) = resend_host env kept h rest c in
      elim freed [ true ↦ fault | false ↦ timer_loop env fuel kept' rest' c' ]
]

-- The end of the timer's task.
abbrev pub stop_after : ℤ → Result Controller → Result Controller
stop_after closed (ok c) = ok (stop_if_empty closed c.hosts c)
stop_after closed (err e) = err e
stop_after closed fault = fault

-- The task that `on_timer` gives to the thread pool. The length of the list is fuel enough.
unfoldable pub on_timer : World → ℤ → Controller → Result Controller
unfolding timer_loop stop_if_empty
on_timer env closed c = stop_after closed (timer_loop env (length c.hosts) [] c.hosts c)
