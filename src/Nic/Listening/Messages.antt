-- ===== src/Nic/Listening/Messages.antt =====
-- What a datagram does to one of the agents.
use libudjatnetwork.Prelude.{
  ℕ, ◌≡◌, refl, sym, ◌∙◌, ap, true, false, List, [], ◌∷◌, ◌==◌, ==_iff, if◌then◌else◌, Bool,
  Returns, ℤ, arith, Bool-cases, inl, inr,
}
use libudjatnetwork.NetLink
use libudjatnetwork.NetLink.{
  Listener, Message, Received, failed, messages, notify_all, message_loop, handle_event, nlmsg_done,
  nlmsg_error, push_back, remove,
}
use libudjatnetwork.NetLink.Dispatch.{until_end}
use libudjatnetwork.Nic.{Agent, Os}
use libudjatnetwork.Nic.Link.{run, step}
use libudjatnetwork.Nic.Listening.{
  Agents, rtm_newlink, rtm_dellink, effect, callback, listeners_of, Listens, events_of,
}

module _ (os : Os) (info : ℕ → ℤ × ℕ) where
  -- One message, for one agent and its listeners.
  abbrev pub own : List Listener → Message → Agent → Agent
  own [] m a = a
  own (l ∷ ls) m a =
      own ls m (if l.message == m.nlmsg_type then effect os info l m.payload a else a)

  callback-own :
      (l : Listener) (o payload : ℕ) (hit : Bool) (s : Agents)
      → (l.object == o) ≡ true
      → (if hit then callback os info l payload s else s) o
        ≡ (if hit then effect os info l payload (s o) else s o)
  unfolding callback
  callback-own l o payload false s e = refl
  callback-own l o payload true s e =
      rw e (ap (λ x. effect os info l payload (s x)) ((==_iff l.object o).0 e))

  callback-other :
      (l : Listener) (o payload : ℕ) (hit : Bool) (s : Agents)
      → (l.object == o) ≡ false
      → (if hit then callback os info l payload s else s) o ≡ s o
  unfolding callback
  callback-other l o payload false s e = refl
  callback-other l o payload true s e = rw e refl

  notify_all-own :
      (o : ℕ) (ls : List Listener) (m : Message) (s : Agents)
      → notify_all (callback os info) ls m s o ≡ own (listeners_of o ls) m (s o)
  unfolding notify_all
  notify_all-own o [] m s = refl
  notify_all-own o (l ∷ ls) m s =
      let hit = l.message == m.nlmsg_type in
      let rest = notify_all-own o ls m (if hit then callback os info l m.payload s else s) in
      elim (Bool-cases (l.object == o)) [
        | inl e ↦
            rest ∙ (ap (own (listeners_of o ls) m) (callback-own l o m.payload hit s e) ∙ rw e refl)
        | inr e ↦
            rest
            ∙ (ap (own (listeners_of o ls) m) (callback-other l o m.payload hit s e) ∙ rw e refl)
      ]

  own_pair :
      (o : ℕ) (m : Message) (a : Agent)
      → own
          (record { message = rtm_newlink; object = o }
            ∷ record { message = rtm_dellink; object = o }
            ∷ [])
          m
          a
        ≡ run os (events_of info (m ∷ [])) a
  unfolding effect run step
  own_pair o m a = ground arith

  abbrev pub own_all : List Listener → List Message → Agent → Agent
  own_all ls [] a = a
  own_all ls (m ∷ ms) a = own_all ls ms (own ls m a)

  pub message_loop-own :
      (o : ℕ) (ls : List Listener) (ms : List Message) (s : Agents)
      → message_loop (callback os info) ls ms s o ≡ own_all (listeners_of o ls) (until_end ms) (s o)
  unfolding message_loop
  message_loop-own o ls [] s = refl
  message_loop-own o ls (m ∷ ms) s = elim (Bool-cases (m.nlmsg_type == nlmsg_done)) [
    | inl e ↦ rw e refl
    | inr e ↦ elim (Bool-cases (m.nlmsg_type == nlmsg_error)) [
      | inl f ↦ rw (e, f) refl
      | inr f ↦
          rw (e, f)
            (message_loop-own o ls ms (notify_all (callback os info) ls m s)
              ∙ ap (own_all (listeners_of o ls) (until_end ms)) (notify_all-own o ls m s))
    ]
  ]

  events_of-cons :
      (m : Message) (ms : List Message) (a : Agent)
      → run os (events_of info (m ∷ ms)) a
        ≡ run os (events_of info ms) (run os (events_of info (m ∷ [])) a)
  unfolding run
  events_of-cons m ms a = elim (Bool-cases (m.nlmsg_type == rtm_newlink)) [
    | inl e ↦ rw e refl
    | inr e ↦ elim (Bool-cases (m.nlmsg_type == rtm_dellink)) [
      | inl f ↦ rw (e, f) refl
      | inr f ↦ rw (e, f) refl
    ]
  ]

  own_all-run :
      (o : ℕ) (ls : List Listener) (ms : List Message) (a : Agent)
      → Listens o ls
      → own_all (listeners_of o ls) ms a ≡ run os (events_of info ms) a
  unfolding run
  own_all-run o ls [] a h = refl
  own_all-run o ls (m ∷ ms) a h =
      own_all-run o ls ms (own (listeners_of o ls) m a) h
      ∙ (ap (run os (events_of info ms)) (ap (λ l. own l m a) h ∙ own_pair o m a)
          ∙ sym (events_of-cons m ms a))

  pub own_all-nil : (ms : List Message) (a : Agent) → own_all [] ms a ≡ a
  own_all-nil [] a = refl
  own_all-nil (m ∷ ms) a = own_all-nil ms a

  -- A datagram changes an agent that listens for its interface, whatever else is registered, exactly
  -- as its own events do: the messages of the two types up to the first end or error message, in
  -- their order.
  pub handle_event-run :
      (o : ℕ) (c : NetLink.Controller) (ms : List Message) (s : Agents)
      → Listens o c.listeners
      → Returns
          (λ s'. s' o ≡ run os (events_of info (until_end ms)) (s o))
          (handle_event (callback os info) c (messages ms) s)
  unfolding handle_event
  handle_event-run o c ms s h =
      message_loop-own o c.listeners ms s ∙ own_all-run o c.listeners (until_end ms) (s o) h
