-- ===== src/Icmp/Controller.antt =====
-- `ICMP::Controller` of library/os/linux/icmp_controller.cc, and the members of `Host` that call
-- it. Every method holds the controller's lock, so each is one step. `remove_if` goes through the
-- list as the GNU library does: it reads the next node before it calls the predicate.
mod Socket
mod Sender
mod Ticks
pub mod Sweep
pub mod Walk
pub mod Rule
pub mod Tracked
pub mod Timers
pub mod Replies
pub mod Insertion
pub mod Sending
pub mod Telling
pub mod Thinning
pub mod Counter
pub mod Histories
pub mod View
pub mod Accounts
pub mod ToldOnce
pub mod ToldAll
pub mod Settling
pub mod Moves
pub mod Orders
pub mod Filtering
use libudjatnetwork.Prelude.{
  ℕ, zero, suc, ◌+◌, ◌%◌, ◌^◌, ◌≡◌, Bool, true, false, ◌&&◌, ◌||◌, not, Option, none, some, List,
  [], ◌∷◌, ◌++◌, ltb, leb, ◌==◌, if◌then◌else◌, length, ℤ, pos, is_negative, Result, ok, err, fault,
  Error, runtime_error, system_error, ◌>>=◌,
}
use libudjatnetwork.SockAddr.{SockAddr, zeroed, af_inet, af_inet6}
use libudjatnetwork.Icmp.Response.{timeout}
use libudjatnetwork.Icmp.Packet.{Payload, Packet, echo_request, htons}
use libudjatnetwork.Icmp.Host.{
  Worker, Host, Controller, World, current_time, update, notify, idle, on_error, on_response,
}
unfoldable pub use Socket.*
unfoldable pub use Sender.*
unfoldable pub use Ticks.*

-- A host for the worker as its constructor leaves it, before `send`.
abbrev pub new_host : World → ℕ → Controller → Host
new_host env w c = record {
  worker = w;
  id = c.next_id;
  timeout_at = env.now + (c.workers w).timers_interval;
  packets = 0;
  next = 0;
}

-- `hosts.emplace_back(worker)`: the host enters the list after its constructor has returned.
unfoldable pub emplace : World → ℕ → Controller → Controller
unfolding host_send purge
emplace env w c =
    let (h, c', failure) =
      host_send env (new_host env w c) (record c { next_id = (c.next_id + 1) % 65536 }) in
    let (kept, c'') = purge failure c.hosts c' in record c'' { hosts = kept ++ h ∷ [] }

-- The end of `insert`, behind `start()`.
unfoldable pub enrol : World → ℕ → Result (Unit {0}) × Controller → Result (Unit {0}) × Controller
unfolding emplace
enrol env w (ok u, c) = (
  ok tt,
  emplace env w (record c { workers = update c.workers w (record (c.workers w) { busy = true }) }),
)
enrol env w (err e, c) = (err e, c)
enrol env w (fault, c) = (fault, c)

-- `insert`
unfoldable pub insert : World → Sys → ℕ → Controller → Result (Unit {0}) × Controller
unfolding start enrol
insert env sys w c =
    if (c.workers w).busy then (err (system_error (pos 16)), c) else enrol env w (start sys c)

-- `remove`
unfoldable pub remove : ℤ → ℕ → Controller → Controller
unfolding sweep stop_if_empty
remove closed w c =
    let (kept, c') = sweep (λ h c. (h.worker == w, c)) c.hosts c in stop_if_empty closed kept c'

-- A datagram on the raw socket: the result of `recvfrom` and the fields that are read.
pub record Datagram : Type 0 where
  pub size : ℤ
  pub from : SockAddr
  pub packet : Packet

-- `rc == sizeof(in)`: an IP header of 20 bytes and a packet of 40.
abbrev pub has_size : ℤ → Bool
has_size (pos n) = n == 60
has_size n = false

-- The tests of `handle_event` on the received data.
abbrev pub accepted : World → Datagram → Bool
accepted env d = has_size d.size && (htons env.order d.packet.icmp_id == env.pid % 65536)

-- `hosts.remove_if` of `handle_event`.
unfoldable pub deliver : World → Datagram → Controller → Controller
unfolding sweep
deliver env d c =
    let (kept, c') = sweep (on_response env d.packet.icmp_type d.from d.packet.payload) c.hosts c in
    record c' { hosts = kept }

-- `handle_event`; the flag is `event & MainLoop::Handler::oninput`.
unfoldable pub handle_event : World → Bool → Datagram → Controller → Controller
unfolding deliver
handle_event env oninput d c = if oninput && accepted env d then deliver env d c else c

-- What can happen to the controller.
pub data Event : Type 0 where
  inserts : World → Sys → ℕ → Event
  removes : ℤ → ℕ → Event
  reads : World → Bool → Datagram → Event
  ticks : World → ℤ → Event

unfoldable pub step : Event → Controller → Result Controller
unfolding insert remove handle_event on_timer
step (inserts env sys w) c = ok (insert env sys w c).1
step (removes closed w) c = ok (remove closed w c)
step (reads env oninput d) c = ok (handle_event env oninput d c)
step (ticks env closed) c = on_timer env closed c

-- A history; it ends early at a fault.
unfoldable pub run : List Event → Controller → Result Controller
unfolding step
run [] c = ok c
run (e ∷ es) c = step e c >>= run es
