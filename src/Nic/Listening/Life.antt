-- ===== src/Nic/Listening/Life.antt =====
-- An agent from `start` to `stop`.
use libudjatnetwork.Prelude.{
  ℕ, ◌≡◌, ◌≢◌, refl, ◌∙◌, ap, true, false, List, [], ◌∷◌, ◌++◌, ◌==◌, ==_iff, All, ok, err, fault,
  Returns, Error, Result-cases, ℤ, arith, Bool-cases, inl, inr,
}
use libudjatnetwork.NetLink
use libudjatnetwork.NetLink.{
  Listener, Message, Received, failed, messages, notify_all, message_loop, handle_event, nlmsg_done,
  nlmsg_error, push_back, remove,
}
use libudjatnetwork.NetLink.Watching.{remove-others}
use libudjatnetwork.NetLink.Dispatch.{until_end}
use libudjatnetwork.Nic.{Agent, Os, refresh, start, stop}
use libudjatnetwork.Nic.Link.{run}
use libudjatnetwork.Nic.Listening.{
  Agents, rtm_newlink, rtm_dellink, callback, listeners_of, Listens, events_of,
}
use libudjatnetwork.Nic.Listening.Messages.{
  own_all, message_loop-own, own_all-nil, handle_event-run,
}

none_left : (o : ℕ) (ls : List Listener) → All (λ l. l.object ≢ o) ls → listeners_of o ls ≡ []
none_left o [] a = refl
none_left o (l ∷ ls) a =
    let other : (l.object == o) ≡ false = ground (arith, a.0, ==_iff l.object o) in
    rw other (none_left o ls a.1)

-- An agent that has stopped is left as it is by every datagram, whatever else is registered: no
-- callback reaches its object any more.
pub stop-silent :
    (os : Os) (info : ℕ → ℤ × ℕ) (o : ℕ) (c : NetLink.Controller) (ms : List Message) (s : Agents)
    → Returns (λ s'. s' o ≡ s o) (handle_event (callback os info) (stop o c) (messages ms) s)
unfolding handle_event stop
stop-silent os info o c ms s =
    let left = (remove o c).listeners in
    message_loop-own os info o left ms s
    ∙ (ap (λ ls. own_all os info ls (until_end ms) (s o)) (none_left o left (remove-others o c))
        ∙ own_all-nil os info (until_end ms) (s o))

listeners_of-append :
    (o : ℕ) (xs ys : List Listener)
    → listeners_of o (xs ++ ys) ≡ listeners_of o xs ++ listeners_of o ys
listeners_of-append o [] ys = refl
listeners_of-append o (x ∷ xs) ys = elim (Bool-cases (x.object == o)) [
  | inl e ↦ rw e (ap (λ l. x ∷ l) (listeners_of-append o xs ys))
  | inr e ↦ rw e (listeners_of-append o xs ys)
]

push_back-listeners :
    (sys : NetLink.Sys) (o message : ℕ) (c : NetLink.Controller)
    → (push_back sys o message c).1.listeners
      ≡ c.listeners ++ record { message = message; object = o } ∷ []
unfolding push_back
push_back-listeners sys o message c = ground arith

push_back-own :
    (sys : NetLink.Sys) (o message : ℕ) (c : NetLink.Controller)
    → listeners_of o (push_back sys o message c).1.listeners
      ≡ listeners_of o c.listeners ++ record { message = message; object = o } ∷ []
push_back-own sys o message c =
    let self : (o == o) ≡ true = ground arith in
    ap (listeners_of o) (push_back-listeners sys o message c)
    ∙ (listeners_of-append o c.listeners _ ∙ rw self refl)

thrown_ok : {A : Type 0} {e : Error} {x : Unit {0}} → err e ≡ ok x → A
thrown_ok h = cc

fault_ok : {A : Type 0} {x : Unit {0}} → fault ≡ ok x → A
fault_ok h = cc

start-Listens :
    (os : Os) (sys sys' : NetLink.Sys) (o : ℕ) (a : Agent) (c : NetLink.Controller)
    → listeners_of o c.listeners ≡ []
    → (start os sys sys' o a c).0 ≡ ok tt
    → Listens o (start os sys sys' o a c).2.listeners
unfolding start
start-Listens os sys sys' o a c n done = elim (Result-cases (refresh os a).0) [
  | inl (rc, e) ↦ elim (Result-cases (push_back sys o rtm_newlink c).0) [
    | inl (u, f) ↦
        let first = (push_back sys o rtm_newlink c).1 in
        rw (e, start)
          (rw (f, start)
            (push_back-own sys' o rtm_dellink first
              ∙ ap (λ ls. ls ++ record { message = rtm_dellink; object = o } ∷ [])
                  (push_back-own sys o rtm_newlink c
                    ∙ ap (λ ls. ls ++ record { message = rtm_newlink; object = o } ∷ []) n)))
    | inr (inl (x, f)) ↦ thrown_ok (rw (f, start) at (rw (e, start) at done))
    | inr (inr f) ↦ fault_ok (rw (f, start) at (rw (e, start) at done))
  ]
  | inr (inl (x, e)) ↦ thrown_ok (rw (e, start) at done)
  | inr (inr e) ↦ fault_ok (rw (e, start) at done)
]

-- An agent without listeners that has started without an exception: from then on, any datagram that the
-- netlink controller reads changes it, among all the agents of the program, exactly as its own
-- events do, which are the messages of the two types up to the first end or error message, in order.
pub start-follows :
    (os os' : Os) (info : ℕ → ℤ × ℕ) (sys sys' : NetLink.Sys) (o : ℕ) (a : Agent)
    (c : NetLink.Controller) (ms : List Message) (s : Agents)
    → listeners_of o c.listeners ≡ []
    → (start os sys sys' o a c).0 ≡ ok tt
    → s o ≡ (start os sys sys' o a c).1
    → let (done, a', c') = start os sys sys' o a c in
      Returns
        (λ s'. s' o ≡ run os' (events_of info (until_end ms)) a')
        (handle_event (callback os' info) c' (messages ms) s)
unfolding handle_event
start-follows os os' info sys sys' o a c ms s n done own =
    let follows =
      handle_event-run os' info o (start os sys sys' o a c).2 ms s
        (start-Listens os sys sys' o a c n done) in
    follows ∙ ap (run os' (events_of info (until_end ms))) own
