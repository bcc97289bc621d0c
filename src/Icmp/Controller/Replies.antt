-- ===== src/Icmp/Controller/Replies.antt =====
-- What a datagram does to the controller.
use libudjatnetwork.Prelude.{
  ℕ, ◌≡◌, ◌≢◌, refl, ap, ◌∙◌, Bool, true, false, List, [], ◌∷◌, ◌++◌, Option, none, some, ◌==◌,
  if◌then◌else◌, arith, All,
}
use libudjatnetwork.Icmp.Host.{
  Host, Controller, World, Notice, idle, on_response, distance, current_time,
}
use libudjatnetwork.Icmp.Response.{Response, echo_reply, destination_unreachable, time_exceeded}
use libudjatnetwork.Icmp.Packet.{Payload}
use libudjatnetwork.SockAddr.{SockAddr}
use libudjatnetwork.Icmp.Controller.{sweep, deliver, handle_event, Datagram, accepted}
use libudjatnetwork.Icmp.Controller.Sweep.{Predicate, sweep-gone, sweep-stays}

-- The predicate does nothing at a host of the list.
abbrev Spares : Predicate → Host → Type 0
Spares f h = (c : Controller) → f h c ≡ (false, c)

sweep-nil : (f : Predicate) (c : Controller) → sweep f [] c ≡ ([], c)
unfolding sweep
sweep-nil f c = refl

pub sweep-step :
    (f : Predicate) (x : Host) (xs : List Host) (c : Controller)
    → Spares f x
    → sweep f (x ∷ xs) c ≡ (x ∷ (sweep f xs c).0, (sweep f xs c).1)
sweep-step f x xs c a = sweep-stays f x xs c (ap (λ (r : Bool × Controller). r.0) (a c)) ∙ rw (a c)

sweep-spared :
    (f : Predicate) (xs : List Host) (c : Controller) → All (Spares f) xs → sweep f xs c ≡ (xs, c)
sweep-spared f [] c a = sweep-nil f c
sweep-spared f (x ∷ xs) c a = sweep-step f x xs c a.0 ∙ rw (sweep-spared f xs c a.1)

-- Where the predicate accepts one host of the list only, that host goes and its worker is idle.
pub sweep-one :
    (f : Predicate) (xs : List Host) (h : Host) (ys : List Host) (c : Controller)
    → All (Spares f) xs
    → (f h c).0 ≡ true
    → All (Spares f) ys
    → sweep f (xs ++ h ∷ ys) c ≡ (xs ++ ys, idle (f h c).1 h.worker)
sweep-one f [] h ys c a e b = sweep-gone f h ys c e ∙ sweep-spared f ys (idle (f h c).1 h.worker) b
sweep-one f (x ∷ xs) h ys c a e b =
    sweep-step f x (xs ++ h ∷ ys) c a.0 ∙ rw (sweep-one f xs h ys c a.1 e b)

pub on_response-other :
    (env : World) (t : ℕ) (a : SockAddr) (p : Payload) (h : Host)
    → h.id ≢ p.id
    → Spares (on_response env t a p) h
unfolding on_response
on_response-other env t a p h n c = ground arith

spared :
    (env : World) (t : ℕ) (a : SockAddr) (p : Payload) (hs : List Host)
    → All (λ h. h.id ≢ p.id) hs
    → All (Spares (on_response env t a p)) hs
spared env t a p [] k = tt
spared env t a p (h ∷ hs) k = (on_response-other env t a p h k.0, spared env t a p hs k.1)

-- The response that a type of ICMP message stands for.
abbrev pub response_of_type : ℕ → Option Response
response_of_type t =
    if t == 0
    then some echo_reply
    else if t == 3
    then some destination_unreachable
    else if t == 11
    then some time_exceeded
    else none

abbrev pub told : ℕ → SockAddr → Option Response → List Notice → List Notice
told w a none notices = notices
told w a (some r) notices = record { worker = w; response = r; from = a } ∷ notices

pub answered :
    (env : World) (t : ℕ) (a : SockAddr) (p : Payload) (h : Host) (c : Controller)
    → p.id ≡ h.id
    → t ≢ 8
    → ((on_response env t a p h c).0 ≡ true)
      × ((on_response env t a p h c).1.notices ≡ told h.worker a (response_of_type t) c.notices)
unfolding on_response
answered env t a p h c e n = ground arith

All-left : (P : Host → Type 0) (xs ys : List Host) → All P (xs ++ ys) → All P xs
All-left P [] ys a = tt
All-left P (x ∷ xs) ys a = (a.0, All-left P xs ys a.1)

pub All-right : (P : Host → Type 0) (xs ys : List Host) → All P (xs ++ ys) → All P ys
All-right P [] ys a = a
All-right P (x ∷ xs) ys a = All-right P xs ys a.1

busy-idle : (c : Controller) (w : ℕ) → ((idle c w).workers w).busy ≡ false
unfolding idle
busy-idle c w = ground arith

pub notices-idle : (c : Controller) (w : ℕ) → (idle c w).notices ≡ c.notices
unfolding idle
notices-idle c w = refl

-- Where exactly one host has the datagram's identifier, that host's handler is all that runs.
pub handle_event-one :
    (env : World) (d : Datagram) (c : Controller) (xs : List Host) (h : Host) (ys : List Host)
    → c.hosts ≡ xs ++ h ∷ ys
    → All (λ x. x.id ≢ d.packet.payload.id) (xs ++ ys)
    → d.packet.payload.id ≡ h.id
    → d.packet.icmp_type ≢ 8
    → accepted env d ≡ true
    → handle_event env true d c
      ≡ record (idle (on_response env d.packet.icmp_type d.from d.packet.payload h c).1 h.worker) {
        hosts = xs ++ ys;
      }
unfolding handle_event deliver
handle_event-one env d c xs h ys listed one mine foreign ok_test =
    let p = d.packet.payload in
    let f = on_response env d.packet.icmp_type d.from p in
    let (gone, notes) = answered env d.packet.icmp_type d.from p h c mine foreign in
    let one_gone : sweep f c.hosts c ≡ (xs ++ ys, idle (f h c).1 h.worker) =
      ap (λ (l : List Host). sweep f l c) listed
      ∙ (sweep-one f xs h ys c (spared env d.packet.icmp_type d.from p xs (All-left _ xs ys one))
          gone (spared env d.packet.icmp_type d.from p ys (All-right _ xs ys one))) in
    rw (ok_test, handle_event)
      (ap (λ (r : List Host × Controller). record r.1 { hosts = r.0 }) one_gone)

-- An accepted datagram that is no echo request and that carries the identifier of exactly one
-- host removes that host, leaves the others in their order, sets its worker idle, and tells the
-- worker the response of the datagram's type, or nothing where the type is none of the three
-- known ones.
pub handle_event-answer :
    (env : World) (d : Datagram) (c : Controller) (xs : List Host) (h : Host) (ys : List Host)
    → c.hosts ≡ xs ++ h ∷ ys
    → All (λ x. x.id ≢ d.packet.payload.id) (xs ++ ys)
    → d.packet.payload.id ≡ h.id
    → d.packet.icmp_type ≢ 8
    → accepted env d ≡ true
    → let c' = handle_event env true d c in
      (c'.hosts ≡ xs ++ ys)
      × ((c'.workers h.worker).busy ≡ false)
      × (c'.notices ≡ told h.worker d.from (response_of_type d.packet.icmp_type) c.notices)
handle_event-answer env d c xs h ys listed one mine foreign ok_test =
    let p = d.packet.payload in
    let c' = (on_response env d.packet.icmp_type d.from p h c).1 in
    let (gone, notes) = answered env d.packet.icmp_type d.from p h c mine foreign in
    rw (handle_event-one env d c xs h ys listed one mine foreign ok_test)
      (refl, busy-idle c' h.worker, notices-idle c' h.worker ∙ notes)

-- What an echo reply leaves for the next check: the way of the packet in the worker's `time`, and
-- the descriptor, the counter, the worker's address and the packets as they were.
abbrev pub IsTimed : World → Payload → ℕ → Controller → Controller → Type 0
IsTimed env p w c c' =
    ((c'.workers w).time ≡ distance p.time (current_time env.tv_sec env.tv_nsec))
    × (c'.fd ≡ c.fd)
    × (c'.next_id ≡ c.next_id)
    × ((c'.workers w).addr ≡ (c.workers w).addr)
    × (c'.sent ≡ c.sent)

on_response-IsTimed :
    (env : World) (a : SockAddr) (p : Payload) (h : Host) (c : Controller)
    → p.id ≡ h.id
    → IsTimed env p h.worker c (idle (on_response env 0 a p h c).1 h.worker)
unfolding on_response idle
on_response-IsTimed env a p h c e = ground (arith, e)

pub handle_event-IsTimed :
    (env : World) (d : Datagram) (c : Controller) (xs : List Host) (h : Host) (ys : List Host)
    → c.hosts ≡ xs ++ h ∷ ys
    → All (λ x. x.id ≢ d.packet.payload.id) (xs ++ ys)
    → d.packet.payload.id ≡ h.id
    → d.packet.icmp_type ≡ 0
    → accepted env d ≡ true
    → IsTimed env d.packet.payload h.worker c (handle_event env true d c)
handle_event-IsTimed env d c xs h ys listed one mine reply ok_test =
    rw
      (
        handle_event-one env d c xs h ys listed one mine (λ e. ground (arith, e, reply)) ok_test,
        reply,
      )
      (on_response-IsTimed env d.from d.packet.payload h c mine)
