-- ===== src/IpAgent/Heard.antt =====
-- An agent beside the controller's histories: what it is told, and what it then shows.
pub mod Settled
use libudjatnetwork.Prelude.{
  ℕ, ◌+◌, ◌≤◌, ◌<◌, ◌≡◌, ◌≢◌, refl, sym, ap, ◌∙◌, Bool, true, false, List, [], ◌∷◌, Option, none,
  some, inl, inr, Bool-cases, if_lem, ◌==◌, if◌then◌else◌, first_where, ℤ, int_eq, arith, Result,
  ok, Returns, Returns-mono, Returns-OnOk, Returns-bind, OnOk, ◌>>=◌, All, subst,
}
use libudjatnetwork.Udjat.{Framework}
use libudjatnetwork.SockAddr.{SockAddr}
use libudjatnetwork.Icmp.Response.{invalid}
use libudjatnetwork.Icmp.State.{State}
use libudjatnetwork.Icmp.Packet.{Payload}
use libudjatnetwork.Icmp.Host.{Notice, Host, Controller, World, enetunreach, on_error, on_response}
use libudjatnetwork.Icmp.Controller.{Event, inserts, removes, reads, ticks, run}
use libudjatnetwork.Icmp.Controller.Sweep.{count_of}
use libudjatnetwork.Icmp.Controller.Telling.{host_send-notices}
use libudjatnetwork.Icmp.Controller.Rule.{Laws, Whole, run-Whole}
use libudjatnetwork.Icmp.Controller.Histories.{IsSound, insertions}
use libudjatnetwork.Icmp.Controller.Accounts.Passes.{notices_for}
use libudjatnetwork.Icmp.Controller.ToldOnce.{insertions_of, run-tells_once}
use libudjatnetwork.IpAgent.{Agent, set}
use libudjatnetwork.IpAgent.Icmp.{Shows, set-Shows}

-- No notice carries the response `invalid`.
abbrev pub AreValid : Controller → Type 0
AreValid c = All (λ (n : Notice). n.response ≢ invalid) c.notices

on_error-AreValid :
    (code : ℤ) (p : Payload) (h : Host) (c : Controller)
    → AreValid c
    → AreValid (on_error code p h c).1
unfolding on_error
on_error-AreValid code p h c v =
    if_lem (λ (r : Bool × Controller). AreValid r.1) (p.id == h.id)
      (if_lem (λ (r : Bool × Controller). AreValid r.1) (int_eq code enetunreach) ((λ e. cc), v) v)
      v

on_response-AreValid :
    (env : World) (t : ℕ) (a : SockAddr) (p : Payload) (h : Host) (c : Controller)
    → AreValid c
    → AreValid (on_response env t a p h c).1
unfolding on_response
on_response-AreValid env t a p h c v =
    let Valid : Bool × Controller → Type 0 = (λ r. AreValid r.1) in
    if_lem Valid (p.id == h.id)
      (if_lem Valid (t == 8) v (
        if_lem Valid (t == 0) ((λ e. cc), v)
          (if_lem Valid (t == 3) ((λ e. cc), v) (if_lem Valid (t == 11) ((λ e. cc), v) v))))
      v

pub AreValid-Laws : Laws (λ h. Unit {0}) AreValid (λ e. Unit {0})
AreValid-Laws = record {
  lists = λ c hs v. v;
  opens = λ c f a b v. v;
  flags = λ c w b v. v;
  creates = λ env sys w c i v. (tt, v);
  sends = λ env h c u v.
      (tt, subst (All (λ n. n.response ≢ invalid)) (sym (host_send-notices env h c)) v);
  errs = on_error-AreValid;
  expires = λ w c v. ((λ e. cc), v);
  answers = λ env oninput d h c u v.
      on_response-AreValid env d.packet.icmp_type d.from d.packet.payload h c v;
}

-- The calls of `set` that the notices stand for, the oldest first; each is for the agent of one worker.
unfoldable pub hear : Framework → List Notice → Agent → Result Agent
hear fw [] a = ok a
hear fw (n ∷ ns) a =
    hear fw ns a >>= λ b. if n.worker == b.worker then set fw n.response b else ok b

-- What is shown for the newest notice of the worker, if there is one.
abbrev pub ShowsFor : Option Notice → Agent → Agent → Type 0
ShowsFor none a a' = a'.icmp_state ≡ a.icmp_state
ShowsFor (some n) a a' = (s : State) × (a'.icmp_state ≡ some s) × (s.id ≡ n.response)

abbrev pub newest_for : ℕ → List Notice → Option Notice
newest_for w ns = first_where (λ n. n.worker == w) ns

newest_for-own :
    (w : ℕ) (n : Notice) (ns : List Notice)
    → (n.worker == w) ≡ true
    → newest_for w (n ∷ ns) ≡ some n
newest_for-own w n ns e = rw e refl

newest_for-other :
    (w : ℕ) (n : Notice) (ns : List Notice)
    → (n.worker == w) ≡ false
    → newest_for w (n ∷ ns) ≡ newest_for w ns
newest_for-other w n ns e = rw e refl

-- What the agent is after it has heard the notices.
abbrev pub Follows : List Notice → Agent → Agent → Type 0
Follows ns a a' =
    ShowsFor (newest_for a.worker ns) a a'
    × (a'.updates ≡ a.updates + notices_for a.worker ns)
    × (a'.response ≡ a.response)
    × (a'.worker ≡ a.worker)

Follows-own :
    (n : Notice) (ns : List Notice) (a b b' : Agent)
    → (n.worker == a.worker) ≡ true
    → Follows ns a b
    → Shows n.response b b'
    → Follows (n ∷ ns) a b'
Follows-own n ns a b b' e h (state, counted, kept, mine, check) = (
  subst (λ o. ShowsFor o a b') (sym (newest_for-own a.worker n ns e)) state,
  rw e (omega (arith, counted, h.1)),
  kept ∙ h.2,
  mine ∙ h.3,
)

Follows-other :
    (n : Notice) (ns : List Notice) (a b : Agent)
    → (n.worker == a.worker) ≡ false
    → Follows ns a b
    → Follows (n ∷ ns) a b
Follows-other n ns a b e h = (
  subst (λ o. ShowsFor o a b) (sym (newest_for-other a.worker n ns e)) h.0,
  rw e (omega (arith, h.1)),
  h.2,
  h.3,
)

pub hear-Follows :
    (fw : Framework) (ns : List Notice) (a : Agent)
    → a.response ≡ invalid
    → All (λ n. n.response ≢ invalid) ns
    → Returns (Follows ns a) (hear fw ns a)
unfolding hear
hear-Follows fw [] a r v = (refl, omega arith, refl, refl)
hear-Follows fw (n ∷ ns) a r v =
    Returns-bind (Follows ns a) (Follows (n ∷ ns) a) (hear fw ns a) _ (hear-Follows fw ns a r v.1)
      λ b h.
        let same : (n.worker == b.worker) ≡ (n.worker == a.worker) = ap (λ w. n.worker == w) h.3 in
        elim (Bool-cases (n.worker == a.worker)) [
          | inl e ↦
              let other : n.response ≢ b.response = (λ x. v.0 (x ∙ (h.2 ∙ r))) in
              rw (same ∙ e) (
                Returns-mono (Shows n.response b) (Follows (n ∷ ns) a)
                  (λ b' t. Follows-own n ns a b b' e h t) (set fw n.response b)
                  (set-Shows fw n.response b other))
          | inr e ↦ rw (same ∙ e) (Follows-other n ns a b e h)
        ]

pub every_event : (es : List Event) → All (λ e. Unit {0}) es
every_event [] = tt
every_event (e ∷ es) = (tt, every_event es)

pub every_host : (hs : List Host) → All (λ h. Unit {0}) hs
every_host [] = tt
every_host (h ∷ hs) = (tt, every_host hs)

-- What a history leaves that began without notices: the agent hears the notices without an exception,
-- shows a state for the newest one for it, and was updated at most as often as it was inserted.
abbrev pub IsTold : Framework → ℕ → Agent → Controller → Type 0
IsTold fw k a c =
    Returns (λ a'. Follows c.notices a a' × (a'.updates ≤ a.updates + k)) (hear fw c.notices a)

IsTold-bound :
    (fw : Framework) (k : ℕ) (a : Agent) (c : Controller)
    → a.response ≡ invalid
    → AreValid c
    → notices_for a.worker c.notices ≤ k
    → IsTold fw k a c
IsTold-bound fw k a c r v l =
    Returns-mono (Follows c.notices a) _ (λ a' h. (h, omega (arith, h.1, l))) (hear fw c.notices a)
      (hear-Follows fw c.notices a r v)

-- For an agent that remembers the response `invalid`, and a controller whose notices were all heard,
-- whose identifiers are distinct and below the counter, and whose hosts agree with the workers' `busy`
-- flags: every history returns whose insertions do not wrap the counter around. The agent hears its
-- notices without an exception, shows a state for the newest of them, or the one before if there is
-- none, and has been updated once for each, at most as often as it had hosts and was inserted.
pub run-IsTold :
    (fw : Framework) (a : Agent) (es : List Event) (c : Controller)
    → a.response ≡ invalid
    → c.notices ≡ []
    → c.next_id + insertions es < 65536
    → IsSound c
    → Returns (IsTold fw (count_of a.worker c.hosts + insertions_of a.worker es) a) (run es c)
run-IsTold fw a es c r n l s =
    let k = count_of a.worker c.hosts + insertions_of a.worker es in
    let valid : AreValid c = rw n tt in
    let before : notices_for a.worker c.notices ≡ 0 = rw n refl in
    let kept : OnOk (Whole (λ h. Unit {0}) AreValid (λ e. Unit {0}) AreValid-Laws) (run es c) =
      run-Whole (λ h. Unit {0}) AreValid (λ e. Unit {0}) AreValid-Laws es c (every_event es)
        (every_host c.hosts, valid) in
    Returns-mono _ (IsTold fw k a)
      (λ c' h. IsTold-bound fw k a c' r h.1.1 (omega (arith, h.0, before))) (run es c)
      (Returns-OnOk _ _ (run es c) (run-tells_once a.worker es c l s) kept)
