-- ===== src/Icmp/Controller/Socket.antt =====
-- `start` and `stop` of library/os/linux/icmp_controller.cc: the raw socket, its listener and the timer.
use libudjatnetwork.Prelude.{
  zero, suc, Bool, true, false, ◌||◌, not, List, [], ◌∷◌, if◌then◌else◌, ℤ, pos, is_negative,
  Result, ok, err, runtime_error, system_error,
}
use libudjatnetwork.Icmp.Host.{Host, Controller}

-- What the system calls of `start` answer, and the descriptor that `Handler::close` leaves.
pub record Sys : Type 0 where
  pub icmp_known : Bool
  pub socket : ℤ
  pub getfl_fails : Bool
  pub setfl_fails : Bool
  pub errno : ℤ
  pub closed : ℤ

-- `stop`, with the descriptor that `Handler::close` leaves.
unfoldable pub stop : ℤ → Controller → Controller
stop closed c = record c { handler_enabled = false; timer_enabled = false; fd = closed }

-- `fd <= 0`
abbrev pub not_open : ℤ → Bool
not_open (pos zero) = true
not_open (pos (suc n)) = false
not_open n = true

-- The end of `start`: the timer and the listener are enabled.
unfoldable pub listen : Controller → Controller
listen c = record c { timer_enabled = true; handler_enabled = true }

-- `start`; a failure stops the listener and throws.
unfoldable pub start : Sys → Controller → Result (Unit {0}) × Controller
unfolding stop listen
start sys c =
    let opened = record c { fd = sys.socket } in
    if not_open c.fd
    then if not sys.icmp_known
      then (err (runtime_error "ICMP: Unknown protocol"), stop sys.closed c)
      else if is_negative sys.socket || (sys.getfl_fails || sys.setfl_fails)
      then (err (system_error sys.errno), stop sys.closed opened)
      else (ok tt, listen opened)
    else (ok tt, listen c)

-- `if(hosts.empty()) stop();`
unfoldable pub stop_if_empty : ℤ → List Host → Controller → Controller
unfolding stop
stop_if_empty closed [] c = stop closed (record c { hosts = [] })
stop_if_empty closed (h ∷ hs) c = record c { hosts = h ∷ hs }
