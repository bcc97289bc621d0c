-- ===== src/Icmp/Controller/Orders.antt =====
-- Replies to several checks, in any order.
use libudjatnetwork.Prelude.{
  ℕ, ◌≡◌, ◌≢◌, refl, sym, ap, ◌∙◌, Bool, true, false, List, [], ◌∷◌, ◌++◌, keep_if, ◌==◌, ==_iff,
  if◌then◌else◌, arith, All, subst, Option, none, some,
}
use mathlib.Core.List.{append_assoc}
use libudjatnetwork.SockAddr.{SockAddr}
use libudjatnetwork.Icmp.Response.{Response}
use libudjatnetwork.Icmp.Host.{
  Worker, Host, Notice, Controller, World, idle, on_response, distance, current_time,
}
use libudjatnetwork.Icmp.Controller.{Datagram, accepted, handle_event}
use libudjatnetwork.Icmp.Controller.Sweep.{count_of, count_of-append}
use libudjatnetwork.Icmp.Controller.Tracked.{IsTracked}
use libudjatnetwork.Icmp.Controller.Timers.{HasDistinctIds}
use libudjatnetwork.Icmp.Controller.Thinning.{handle_event-Thins, HasDistinctIds-Thins}
use libudjatnetwork.Icmp.Controller.Replies.{
  All-right, told, response_of_type, handle_event-one, handle_event-answer,
}

-- The worker of an answered host.
abbrev settled : World → Datagram → Worker → Worker
settled env d v = record v {
  time =
      if d.packet.icmp_type == 0
      then distance d.packet.payload.time (current_time env.tv_sec env.tv_nsec)
      else v.time;
  busy = false;
}

settled-workers :
    (env : World) (d : Datagram) (h : Host) (c : Controller) (w : ℕ)
    → d.packet.payload.id ≡ h.id
    → d.packet.icmp_type ≢ 8
    → (idle (on_response env d.packet.icmp_type d.from d.packet.payload h c).1 h.worker).workers w
      ≡ (if h.worker == w then settled env d (c.workers w) else c.workers w)
unfolding on_response idle
settled-workers env d h c w e n = ground (arith, e, ==_iff h.worker w)

distinct-around :
    (xs : List Host) (h : Host) (ys : List Host)
    → HasDistinctIds (xs ++ h ∷ ys)
    → All (λ x. x.id ≢ h.id) (xs ++ ys)
distinct-around [] h ys d = d.0
distinct-around (x ∷ xs) h ys d =
    ((λ e. (All-right (λ y. y.id ≢ x.id) xs (h ∷ ys) d.0).0 (sym e)), distinct-around xs h ys d.1)

-- What a worker hears, the newest first.
abbrev pub heard : ℕ → Controller → List Notice
heard w c = keep_if (λ n. n.worker == w) c.notices

-- The same hosts, in the same order, the same workers, and for each worker the same notices in the
-- same order.
abbrev pub SameEnd : Controller → Controller → Type 0
SameEnd c c' =
    (c'.hosts ≡ c.hosts)
    × ((w : ℕ) → c'.workers w ≡ c.workers w)
    × ((w : ℕ) → heard w c' ≡ heard w c)

-- A reply to the check of a host in the list: accepted, and no echo request.
abbrev pub Answers : World → Datagram → Host → Type 0
Answers env d h = (d.packet.payload.id ≡ h.id) × (d.packet.icmp_type ≢ 8) × (accepted env d ≡ true)

-- What the reply leaves.
abbrev Settles : World → Datagram → Host → List Host → Controller → Controller → Type 0
Settles env d h left c c' =
    (c'.hosts ≡ left)
    × ((w : ℕ)
        → c'.workers w ≡ (if h.worker == w then settled env d (c.workers w) else c.workers w))
    × (c'.notices ≡ told h.worker d.from (response_of_type d.packet.icmp_type) c.notices)

handle_event-Settles :
    (env : World) (d : Datagram) (c : Controller) (xs : List Host) (h : Host) (ys : List Host)
    → c.hosts ≡ xs ++ h ∷ ys
    → HasDistinctIds c.hosts
    → Answers env d h
    → Settles env d h (xs ++ ys) c (handle_event env true d c)
handle_event-Settles env d c xs h ys listed distinct (mine, foreign, tests) =
    let one : All (λ x. x.id ≢ d.packet.payload.id) (xs ++ ys) =
      rw mine (distinct-around xs h ys (subst HasDistinctIds listed distinct)) in
    let (left, idle', notes) = handle_event-answer env d c xs h ys listed one mine foreign tests in
    (
      left,
      (λ w.
          rw (handle_event-one env d c xs h ys listed one mine foreign tests)
            (settled-workers env d h c w mine foreign)),
      notes,
    )

heard-told :
    (w v : ℕ) (a : SockAddr) (r : Option Response) (ns : List Notice)
    → keep_if (λ n. n.worker == w) (told v a r ns) ≡ (
        if v == w
        then told v a r (keep_if (λ n. n.worker == w) ns)
        else keep_if (λ n. n.worker == w) ns)
heard-told w v a none ns = ground arith
heard-told w v a (some r) ns = ground arith

-- Two changes of which at most one is made are made in either order.
swapped :
    {A : Type 0} (f g : A → A) (a : A) (p q : Bool)
    → (p ≡ true → q ≢ true)
    → (if p then f (if q then g a else a) else if q then g a else a)
      ≡ (if q then g (if p then f a else a) else if p then f a else a)
swapped f g a true true n = absurd (n refl refl)
swapped f g a true false n = refl
swapped f g a false true n = refl
swapped f g a false false n = refl

heard-Settles :
    (env : World) (d : Datagram) (h : Host) (left : List Host) (c c' : Controller) (w : ℕ)
    → Settles env d h left c c'
    → heard w c' ≡ (
        if h.worker == w
        then told h.worker d.from (response_of_type d.packet.icmp_type) (heard w c)
        else heard w c)
heard-Settles env d h left c c' w s =
    ap (keep_if (λ n. n.worker == w)) s.2
    ∙ heard-told w h.worker d.from (response_of_type d.packet.icmp_type) c.notices

-- Two replies, one after the other, against the other order.
settled-both :
    (env₁ env₂ : World) (d e : Datagram) (h k : Host) (l₁ l₂ left : List Host)
    (c c₁ c₁₂ c₂ c₂₁ : Controller)
    → h.worker ≢ k.worker
    → Settles env₁ d h l₁ c c₁
    → Settles env₂ e k left c₁ c₁₂
    → Settles env₂ e k l₂ c c₂
    → Settles env₁ d h left c₂ c₂₁
    → SameEnd c₁₂ c₂₁
settled-both env₁ env₂ d e h k l₁ l₂ left c c₁ c₁₂ c₂ c₂₁ other s₁ s₁₂ s₂ s₂₁ =
    let one : (w : ℕ) → (h.worker == w) ≡ true → (k.worker == w) ≢ true =
      (λ w p q. other ((==_iff h.worker w).0 p ∙ sym ((==_iff k.worker w).0 q))) in
    (
      s₂₁.0 ∙ sym s₁₂.0,
      (λ w.
          rw (s₂₁.1 w, s₁₂.1 w, s₂.1 w, s₁.1 w)
            (swapped (settled env₁ d) (settled env₂ e) (c.workers w) (h.worker == w) (k.worker == w)
              (one w))),
      (λ w.
          rw
            (
              heard-Settles env₁ d h left c₂ c₂₁ w s₂₁,
              heard-Settles env₂ e k left c₁ c₁₂ w s₁₂,
              heard-Settles env₂ e k l₂ c c₂ w s₂,
              heard-Settles env₁ d h l₁ c c₁ w s₁,
            )
            (swapped (told h.worker d.from (response_of_type d.packet.icmp_type))
              (told k.worker e.from (response_of_type e.packet.icmp_type)) (heard w c)
              (h.worker == w) (k.worker == w) (one w))),
    )

workers-distinct :
    (xs : List Host) (h : Host) (ys : List Host) (k : Host) (zs : List Host) (c : Controller)
    → c.hosts ≡ xs ++ h ∷ (ys ++ k ∷ zs)
    → IsTracked c
    → h.worker ≢ k.worker
workers-distinct xs h ys k zs c listed t e = ground (
  arith,
  e,
  ap (count_of h.worker) listed,
  count_of-append h.worker xs (h ∷ (ys ++ k ∷ zs)),
  count_of-append h.worker ys (k ∷ zs),
  t h.worker,
)

-- The replies to the checks of two hosts may come in either order: with distinct identifiers, and
-- workers that agree with the list, both orders leave the same hosts, the same members of every
-- worker, and for every worker the same notices in the same order.
pub handle_event-SameEnd :
    (env₁ env₂ : World) (d e : Datagram) (c : Controller) (xs : List Host) (h : Host)
    (ys : List Host) (k : Host) (zs : List Host)
    → c.hosts ≡ xs ++ h ∷ (ys ++ k ∷ zs)
    → HasDistinctIds c.hosts
    → IsTracked c
    → Answers env₁ d h
    → Answers env₂ e k
    → SameEnd
        (handle_event env₂ true e (handle_event env₁ true d c))
        (handle_event env₁ true d (handle_event env₂ true e c))
handle_event-SameEnd env₁ env₂ d e c xs h ys k zs listed distinct t ans₁ ans₂ =
    let c₁ = handle_event env₁ true d c in
    let c₂ = handle_event env₂ true e c in
    let behind : c.hosts ≡ (xs ++ h ∷ ys) ++ k ∷ zs =
      listed ∙ sym (append_assoc xs (h ∷ ys) (k ∷ zs)) in
    let s₁ = handle_event-Settles env₁ d c xs h (ys ++ k ∷ zs) listed distinct ans₁ in
    let s₂ = handle_event-Settles env₂ e c (xs ++ h ∷ ys) k zs behind distinct ans₂ in
    let s₁₂ =
      handle_event-Settles env₂ e c₁ (xs ++ ys) k zs (s₁.0 ∙ sym (append_assoc xs ys (k ∷ zs)))
        (HasDistinctIds-Thins (handle_event-Thins env₁ true d c) distinct) ans₂ in
    let s₂₁ =
      handle_event-Settles env₁ d c₂ xs h (ys ++ zs) (s₂.0 ∙ append_assoc xs (h ∷ ys) zs)
        (HasDistinctIds-Thins (handle_event-Thins env₂ true e c) distinct) ans₁ in
    let same = sym (append_assoc xs ys zs) in
    settled-both env₁ env₂ d e h k _ _ ((xs ++ ys) ++ zs) c c₁ (handle_event env₂ true e c₁) c₂
      (handle_event env₁ true d c₂) (workers-distinct xs h ys k zs c listed t) s₁ s₁₂ s₂
      (s₂₁.0 ∙ same, s₂₁.1, s₂₁.2)
