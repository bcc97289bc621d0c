-- ===== src/Icmp/Host.antt =====
-- Workers and hosts: library/os/linux/icmphost.cc, include/os/linux/udjat/net/icmp.h and the
-- structures of include/private/linux/icmp_controller.h. A worker is named by a number, which
-- stands for its address in memory; what the virtual method `Worker::set` is told is a list of
-- notices, the newest first, and the method itself is taken to return.
use libudjatnetwork.Prelude.{
  ℕ, ◌+◌, ◌-◌, ◌*◌, ◌%◌, ◌^◌, Bool, true, false, Option, List, ◌∷◌, leb, ◌==◌, if◌then◌else◌, ℤ,
  pos, int_eq,
}
use libudjatnetwork.SockAddr.{SockAddr, zeroed}
use libudjatnetwork.SockAddr.ByteOrder.{ByteOrder}
use libudjatnetwork.Icmp.Response.{
  Response, echo_reply, destination_unreachable, time_exceeded, network_unreachable,
}
use libudjatnetwork.Icmp.Packet.{Payload, Packet}

-- `ICMP::Worker`
pub record Worker : Type 0 where
  pub addr : SockAddr
  pub timers_timeout : ℕ
  pub timers_interval : ℕ
  pub time : ℕ  -- uint64_t
  pub busy : Bool

-- `ICMP::Controller::Host`
pub record Host : Type 0 where
  pub worker : ℕ
  pub id : ℕ  -- uint16_t
  pub timeout_at : ℕ
  pub packets : ℕ  -- uint16_t
  pub next : ℕ

-- A call of `Worker::set`.
pub record Notice : Type 0 where
  pub worker : ℕ
  pub response : Response
  pub from : SockAddr

-- `ICMP::Controller`, with the counters that the source keeps in static variables, the workers
-- that the hosts refer to, the packets handed to `sendto` and the notices.
pub record Controller : Type 0 where
  pub hosts : List Host
  pub fd : ℤ
  pub timer_enabled : Bool
  pub handler_enabled : Bool
  pub workers : ℕ → Worker
  pub next_id : ℕ
  pub seq : ℕ
  pub sent : List (SockAddr × Packet)
  pub notices : List Notice

-- The outside world during one call: `time(0)`, the two parts of the monotonic clock, `getpid`,
-- the byte order, and whether `sendto` fails (with its `errno`) for a value of the counter.
pub record World : Type 0 where
  pub now : ℕ
  pub tv_sec : ℕ
  pub tv_nsec : ℕ
  pub pid : ℕ
  pub order : ByteOrder
  pub sendto : ℕ → SockAddr → Option ℤ

-- `getCurrentTime`
unfoldable pub current_time : ℕ → ℕ → ℕ
current_time tv_sec tv_nsec = (tv_sec * 1000000 + tv_nsec) % 2 ^ 64

abbrev pub update : (ℕ → Worker) → ℕ → Worker → ℕ → Worker
update f w v x = if w == x then v else f x

abbrev pub notify : Controller → ℕ → Response → SockAddr → Controller
notify c w r a = record c { notices = record { worker = w; response = r; from = a } ∷ c.notices }

-- `host.worker.busy = false`
unfoldable pub idle : Controller → ℕ → Controller
idle c w = record c { workers = update c.workers w (record (c.workers w) { busy = false }) }

abbrev pub enetunreach : ℤ
enetunreach = pos 101

-- `onError`: whether the host can be removed.
unfoldable pub on_error : ℤ → Payload → Host → Controller → Bool × Controller
on_error code payload h c =
    if payload.id == h.id
    then if int_eq code enetunreach
      then (true, notify c h.worker network_unreachable zeroed)
      else (false, c)
    else (false, c)

-- The distance between two unsigned times.
abbrev pub distance : ℕ → ℕ → ℕ
distance sent now = if leb now sent then sent - now else now - sent

-- `worker.time = …; worker.set(Response::echo_reply,addr)`
on_reply : World → SockAddr → Payload → Host → Controller → Controller
on_reply env a payload h c =
    let lapse = distance payload.time (current_time env.tv_sec env.tv_nsec) in
    notify
      (record c {
        workers = update c.workers h.worker (record (c.workers h.worker) { time = lapse });
      })
      h.worker echo_reply a

-- `onResponse`: whether the response was processed. The numbers are `ICMP_ECHO`, `ICMP_ECHOREPLY`,
-- `ICMP_DEST_UNREACH` and `ICMP_TIME_EXCEEDED`.
unfoldable pub on_response : World → ℕ → SockAddr → Payload → Host → Controller → Bool × Controller
unfolding on_reply
on_response env icmp_type a payload h c =
    if payload.id == h.id
    then if icmp_type == 8
      then (false, c)
      else if icmp_type == 0
      then (true, on_reply env a payload h c)
      else if icmp_type == 3
      then (true, notify c h.worker destination_unreachable a)
      else if icmp_type == 11
      then (true, notify c h.worker time_exceeded a)
      else (true, c)
    else (false, c)
