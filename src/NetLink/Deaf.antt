-- ===== src/NetLink/Deaf.antt =====
-- Registrations after one whose socket could not be bound.
use libudjatnetwork.Prelude.{
  ℕ, ◌≡◌, true, false, List, [], ◌∷◌, ok, err, Error, int_eq, minus_one, is_negative, arith,
}
use libudjatnetwork.NetLink.{Controller, Sys, push_back}
use libudjatnetwork.NetLink.Watching.{not-minus_one}

-- The controller does not watch, and holds a descriptor all the same.
abbrev IsDeaf : Controller → Type 0
IsDeaf c = (c.enabled ≡ false) × (int_eq c.fd minus_one ≡ false)

-- Registrations that all succeed, after each of which the controller does not watch.
abbrev pub NeverHears : List (Sys × ℕ × ℕ) → Controller → Type 0
NeverHears [] c = c.enabled ≡ false
NeverHears ((sys, object, message) ∷ rs) c =
    (c.enabled ≡ false)
    × ((push_back sys object message c).0 ≡ ok tt)
    × NeverHears rs (push_back sys object message c).1

push_back-IsDeaf :
    (sys : Sys) (object message : ℕ) (c : Controller)
    → IsDeaf c
    → ((push_back sys object message c).0 ≡ ok tt) × IsDeaf (push_back sys object message c).1
unfolding push_back
push_back-IsDeaf sys object message c d = ground (arith, d.0, d.1)

IsDeaf-NeverHears : (rs : List (Sys × ℕ × ℕ)) (c : Controller) → IsDeaf c → NeverHears rs c
IsDeaf-NeverHears [] c d = d.0
IsDeaf-NeverHears ((sys, object, message) ∷ rs) c d =
    let (done, deaf) = push_back-IsDeaf sys object message c d in
    (d.0, done, IsDeaf-NeverHears rs (push_back sys object message c).1 deaf)

failed_bind :
    (sys : Sys) (object message : ℕ) (c : Controller)
    → c.enabled ≡ false
    → int_eq c.fd minus_one ≡ true
    → is_negative sys.socket ≡ false
    → sys.bind_fails ≡ true
    → ((push_back sys object message c).0 ≡ err (Error.system_error sys.errno))
      × IsDeaf (push_back sys object message c).1
unfolding push_back
failed_bind sys object message c d m s b = ground (arith, not-minus_one sys.socket s)

-- Once binding a newly opened socket of a controller that does not watch, and whose descriptor was
-- closed, has failed, the registration throws, and any number of later registrations succeed,
-- whatever their system calls would answer, while the controller never watches.
pub push_back-NeverHears :
    (sys : Sys) (object message : ℕ) (rs : List (Sys × ℕ × ℕ)) (c : Controller)
    → c.enabled ≡ false
    → int_eq c.fd minus_one ≡ true
    → is_negative sys.socket ≡ false
    → sys.bind_fails ≡ true
    → let (r, c') = push_back sys object message c in
      (r ≡ err (Error.system_error sys.errno)) × NeverHears rs c'
push_back-NeverHears sys object message rs c d m s b =
    let (failed, deaf) = failed_bind sys object message c d m s b in
    (failed, IsDeaf-NeverHears rs (push_back sys object message c).1 deaf)
