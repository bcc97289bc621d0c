-- ===== src/NetLink.antt =====
-- `NetLink::Controller`: library/os/linux/netlink.cc and include/private/linux/netlink.h. A listener
-- is known by the address of its object, here a number; its callback is given with the event. The
-- messages of a datagram are those that the kernel's macros `NLMSG_OK` and `NLMSG_NEXT` find.
pub mod Dispatch
pub mod Watching
pub mod Deaf
pub mod Histories
use libudjatnetwork.Prelude.{
  ℕ, Bool, true, false, not, List, [], ◌∷◌, ◌++◌, ◌==◌, if◌then◌else◌, keep_if, ℤ, pos, negsuc,
  minus_one, int_eq, is_negative, Result, ok, err, fault, system_error,
}

pub record Listener : Type 0 where
  pub message : ℕ  -- uint16_t
  pub object : ℕ

pub record Controller : Type 0 where
  pub listeners : List Listener
  pub fd : ℤ
  pub enabled : Bool

-- The controller as it is constructed, with the closed descriptor of its base class.
abbrev pub new_controller : Controller
new_controller = record { listeners = []; fd = minus_one; enabled = false }

pub record Message : Type 0 where
  pub nlmsg_type : ℕ
  pub payload : ℕ

-- `NLMSG_ERROR` and `NLMSG_DONE`.
abbrev pub nlmsg_error : ℕ
nlmsg_error = 2

abbrev pub nlmsg_done : ℕ
nlmsg_done = 3

-- What `recvmsg` gives: an `errno`, or messages.
pub data Received : Type 0 where
  failed : ℤ → Received
  messages : List Message → Received

module _ {ℓ} {S : Type ℓ} (method : Listener → ℕ → S → S) where
  -- The loop over the listeners for one message. An exception of a callback is caught, and what
  -- the callback has done by then is what `method` does.
  unfoldable pub notify_all : List Listener → Message → S → S
  notify_all [] m s = s
  notify_all (l ∷ ls) m s =
      notify_all ls m (if l.message == m.nlmsg_type then method l m.payload s else s)

  -- The loop over the messages.
  unfoldable pub message_loop : List Listener → List Message → S → S
  unfolding notify_all
  message_loop ls [] s = s
  message_loop ls (m ∷ ms) s =
      let rest = message_loop ls ms (notify_all ls m s) in
      if m.nlmsg_type == nlmsg_done then s else if m.nlmsg_type == nlmsg_error then s else rest

  -- `EAGAIN`, which is also `EWOULDBLOCK` on Linux, is no error.
  unfoldable pub handle_event : Controller → Received → S → Result S
  unfolding message_loop
  handle_event c (failed errno) s = if int_eq errno (pos 11) then ok s else err (system_error errno)
  handle_event c (messages ms) s = ok (message_loop c.listeners ms s)

-- What the system calls of `push_back` answer.
pub record Sys : Type 0 where
  pub socket : ℤ
  pub bind_fails : Bool
  pub errno : ℤ

-- `push_back`
unfoldable pub push_back : Sys → ℕ → ℕ → Controller → Result (Unit {0}) × Controller
push_back sys object message c =
    let added = record c {
      listeners = c.listeners ++ record { message = message; object = object } ∷ [];
    } in
    let opened = record added { fd = sys.socket } in
    if not (int_eq c.fd minus_one)
    then (ok tt, added)
    else if is_negative sys.socket
    then (err (system_error sys.errno), opened)
    else if sys.bind_fails
    then (err (system_error sys.errno), opened)
    else (ok tt, record opened { enabled = true })

-- `if(!listeners.empty()) return;` and the end of `remove`.
unfoldable pub close_if_empty : List Listener → Controller → Controller
close_if_empty [] c = record c { listeners = []; enabled = false; fd = minus_one }
close_if_empty (l ∷ ls) c = record c { listeners = l ∷ ls }

-- `remove`
unfoldable pub remove : ℕ → Controller → Controller
unfolding close_if_empty
remove object c = close_if_empty (keep_if (λ l. not (l.object == object)) c.listeners) c
