-- ===== src/NetLink/Dispatch.antt =====
-- Which callbacks a datagram reaches.
use libudjatnetwork.Prelude.{
  ℕ, ◌≡◌, ap, ◌∙◌, ◌||◌, List, [], ◌∷◌, ◌++◌, map, ◌==◌, if◌then◌else◌, keep_if, ok, Bool-cases,
  inl, inr,
}
use mathlib.Core.List.{append-nil, append_assoc}
use libudjatnetwork.NetLink.{
  Listener, Message, Controller, messages, nlmsg_done, nlmsg_error, notify_all, message_loop,
  handle_event,
}

-- A callback that is made: the listener and the payload.
pub record Call : Type 0 where
  pub listener : Listener
  pub payload : ℕ

-- A callback that writes down its own call.
abbrev pub log : Listener → ℕ → List Call → List Call
log l payload calls = calls ++ record { listener = l; payload = payload } ∷ []

-- The messages up to the first that ends or breaks the datagram.
abbrev pub until_end : List Message → List Message
until_end [] = []
until_end (m ∷ ms) =
    let rest = until_end ms in
    if (m.nlmsg_type == nlmsg_done) || (m.nlmsg_type == nlmsg_error) then [] else m ∷ rest

-- The calls for one message: the listeners of its type, in their order.
abbrev pub calls_for : List Listener → Message → List Call
calls_for ls m =
    map (λ l. record { listener = l; payload = m.payload })
      (keep_if (λ l. l.message == m.nlmsg_type) ls)

abbrev pub calls_for_all : List Listener → List Message → List Call
calls_for_all ls [] = []
calls_for_all ls (m ∷ ms) = calls_for ls m ++ calls_for_all ls ms

notify_all-calls :
    (ls : List Listener) (m : Message) (s : List Call) → notify_all log ls m s ≡ s ++ calls_for ls m
unfolding notify_all
notify_all-calls [] m s = rw append-nil
notify_all-calls (l ∷ ls) m s = elim (Bool-cases (l.message == m.nlmsg_type)) [
  | inl e ↦ rw e (rw (notify_all-calls ls m _, append_assoc))
  | inr e ↦ rw e (notify_all-calls ls m s)
]

message_loop-calls :
    (ls : List Listener) (ms : List Message) (s : List Call)
    → message_loop log ls ms s ≡ s ++ calls_for_all ls (until_end ms)
unfolding message_loop
message_loop-calls ls [] s = rw append-nil
message_loop-calls ls (m ∷ ms) s = elim (Bool-cases (m.nlmsg_type == nlmsg_done)) [
  | inl e ↦ rw e (rw append-nil)
  | inr e ↦ elim (Bool-cases (m.nlmsg_type == nlmsg_error)) [
    | inl f ↦ rw (e, f) (rw append-nil)
    | inr f ↦
        rw (e, f)
          (message_loop-calls ls ms (notify_all log ls m s)
            ∙ (ap (λ (t : List Call). t ++ calls_for_all ls (until_end ms))
                  (notify_all-calls ls m s)
                ∙ append_assoc s (calls_for ls m) _))
  ]
]

-- A datagram reaches, message by message up to the first end or error message, exactly the
-- listeners registered for the type of the message, in the order of their registration.
pub handle_event-calls :
    (c : Controller) (ms : List Message)
    → handle_event log c (messages ms) [] ≡ ok (calls_for_all c.listeners (until_end ms))
unfolding handle_event
handle_event-calls c ms = ap ok (message_loop-calls c.listeners ms [])
