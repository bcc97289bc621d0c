-- ===== src/Nic/Listening.antt =====
-- Network card agents behind the netlink controller that they share: library/os/linux/nicagent.cc
-- with library/os/linux/netlink.cc. An agent is known by a number, as its listeners are.
pub mod Messages
pub mod Life
use libudjatnetwork.Prelude.{
  ℕ, ◌≡◌, ◌≢◌, refl, sym, ◌∙◌, ap, true, false, List, [], ◌∷◌, ◌++◌, ◌==◌, ==_iff, if◌then◌else◌,
  keep_if, All, Bool, ok, err, fault, Returns, Error, Result-cases, ℤ, arith, Bool-cases, inl, inr,
}
use libudjatnetwork.NetLink
use libudjatnetwork.NetLink.{
  Listener, Message, Received, failed, messages, notify_all, message_loop, handle_event, nlmsg_done,
  nlmsg_error, push_back, remove,
}
use libudjatnetwork.NetLink.Watching.{remove-others}
use libudjatnetwork.NetLink.Dispatch.{until_end}
use libudjatnetwork.Nic.{Agent, Os, on_newlink, on_dellink, refresh, start, stop}
use libudjatnetwork.Nic.Link.{Event, newlink, dellink, run, step}

abbrev pub rtm_newlink : ℕ
rtm_newlink = 16

abbrev pub rtm_dellink : ℕ
rtm_dellink = 17

abbrev pub Agents : Type 0
Agents = ℕ → Agent

abbrev pub replace : Agents → ℕ → Agent → Agents
replace s o a x = if o == x then a else s x

-- What the callback of a listener does to its own agent, for the `ifinfomsg` of the payload.
unfoldable pub effect : Os → (ℕ → ℤ × ℕ) → Listener → ℕ → Agent → Agent
unfolding on_newlink on_dellink
effect os info l payload a =
    if l.message == rtm_newlink
    then on_newlink os (info payload).0 (info payload).1 a
    else if l.message == rtm_dellink
    then on_dellink (info payload).0 (info payload).1 a
    else a

-- The callbacks, which hold the address of their agent.
unfoldable pub callback : Os → (ℕ → ℤ × ℕ) → Listener → ℕ → Agents → Agents
unfolding effect
callback os info l payload s = replace s l.object (effect os info l payload (s l.object))

-- The listeners of an agent, in their order.
abbrev pub listeners_of : ℕ → List Listener → List Listener
listeners_of o ls = keep_if (λ l. l.object == o) ls

-- The two listeners that `start` registers.
abbrev pub Listens : ℕ → List Listener → Type 0
Listens o ls =
    listeners_of o ls
    ≡ record { message = rtm_newlink; object = o }
      ∷ record { message = rtm_dellink; object = o }
      ∷ []

-- The events that the messages of a datagram are for an agent.
abbrev pub events_of : (ℕ → ℤ × ℕ) → List Message → List Event
events_of info [] = []
events_of info (m ∷ ms) =
    let rest = events_of info ms in
    if m.nlmsg_type == rtm_newlink
    then newlink (info m.payload).0 (info m.payload).1 ∷ rest
    else if m.nlmsg_type == rtm_dellink
    then dellink (info m.payload).0 (info m.payload).1 ∷ rest
    else rest
