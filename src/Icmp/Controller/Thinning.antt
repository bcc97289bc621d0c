-- ===== src/Icmp/Controller/Thinning.antt =====
-- What the operations leave of the controller's list: some of its hosts, in their order.
use libudjatnetwork.Prelude.{
  ℕ, ◌≡◌, ◌≢◌, refl, sym, ◌∙◌, Bool, List, [], ◌∷◌, ◌++◌, inl, inr, ℤ, none, some, Bool-cases,
  if_lem, ◌&&◌, ◌==◌, arith, length, OnOk, All, subst,
}
use mathlib.Core.List.{append_assoc, append-nil}
use libudjatnetwork.Icmp.Host.{Host, Controller, World, idle, on_error, on_response}
use libudjatnetwork.Icmp.Controller.{
  Sys, Failure, sweep, purge, start, host_send, emplace, stop_if_empty, remove, Datagram, accepted,
  handle_event, resend_host, on_timer, deliver,
}
use libudjatnetwork.Icmp.Controller.Sweep.{Predicate, sweep-gone, sweep-stays}
use libudjatnetwork.Icmp.Controller.Walk.{timer_loop-OnOk, on_timer-OnOk}
use libudjatnetwork.Icmp.Controller.Timers.{HasDistinctIds}

-- Two records of one host: it may have sent packets in between.
abbrev pub SameHost : Host → Host → Type 0
SameHost x y = (x.id ≡ y.id) × (x.worker ≡ y.worker)

-- The second list is the first one with some hosts left out.
pub data Thins : List Host → List Host → Type 0 where
  done : Thins [] []
  keep : (x y : Host) {xs ys : List Host} → SameHost x y → Thins xs ys → Thins (x ∷ xs) (y ∷ ys)
  leave : (x : Host) {xs ys : List Host} → Thins xs ys → Thins (x ∷ xs) ys

pub Thins-refl : (xs : List Host) → Thins xs xs
Thins-refl [] = done
Thins-refl (x ∷ xs) = keep x x (refl, refl) (Thins-refl xs)

pub Thins-trans : {xs ys zs : List Host} → Thins xs ys → Thins ys zs → Thins xs zs
Thins-trans done t = t
Thins-trans (keep x y e s) (keep _ z f t) = keep x z (e.0 ∙ f.0, e.1 ∙ f.1) (Thins-trans s t)
Thins-trans (keep x y e s) (leave _ t) = leave x (Thins-trans s t)
Thins-trans (leave x s) t = leave x (Thins-trans s t)

pub Thins-append :
    {xs ys xs' ys' : List Host} → Thins xs ys → Thins xs' ys' → Thins (xs ++ xs') (ys ++ ys')
Thins-append done t = t
Thins-append (keep x y e s) t = keep x y e (Thins-append s t)
Thins-append (leave x s) t = leave x (Thins-append s t)

-- What holds of every identifier still does.
pub All-Thins :
    (P : ℕ → Type 0) {xs ys : List Host} → Thins xs ys → All (λ x. P x.id) xs → All (λ x. P x.id) ys
All-Thins P done a = tt
All-Thins P (keep x y e t) a = (subst P e.0 a.0, All-Thins P t a.1)
All-Thins P (leave x t) a = All-Thins P t a.1

pub HasDistinctIds-Thins : {xs ys : List Host} → Thins xs ys → HasDistinctIds xs → HasDistinctIds ys
HasDistinctIds-Thins done d = tt
HasDistinctIds-Thins (keep x y {xs} {ys} e t) d = (
  subst (λ n. All (λ z. z.id ≢ n) ys) e.0 (All-Thins (λ m. m ≢ x.id) t d.0),
  HasDistinctIds-Thins t d.1,
)
HasDistinctIds-Thins (leave x t) d = HasDistinctIds-Thins t d.1

pub sweep-Thins : (f : Predicate) (hs : List Host) (c : Controller) → Thins hs (sweep f hs c).0
unfolding sweep
sweep-Thins f [] c = done
sweep-Thins f (h ∷ hs) c = elim (Bool-cases (f h c).0) [
  | inl gone ↦ rw (sweep-gone f h hs c gone) (leave h (sweep-Thins f hs (idle (f h c).1 h.worker)))
  | inr stays ↦ rw (sweep-stays f h hs c stays) (keep h h (refl, refl) (sweep-Thins f hs (f h c).1))
]

purge-Thins : (f : Failure) (hs : List Host) (c : Controller) → Thins hs (purge f hs c).0
unfolding purge
purge-Thins none hs c = Thins-refl hs
purge-Thins (some (code, p)) hs c = sweep-Thins (on_error code p) hs c

host_send-SameHost : (env : World) (h : Host) (c : Controller) → SameHost h (host_send env h c).0
unfolding host_send
host_send-SameHost env h c = (refl, refl)

pub stop_if_empty-hosts :
    (closed : ℤ) (hs : List Host) (c : Controller) → (stop_if_empty closed hs c).hosts ≡ hs
unfolding stop_if_empty
stop_if_empty-hosts closed [] c = refl
stop_if_empty-hosts closed (h ∷ hs) c = refl

pub remove-Thins : (closed : ℤ) (w : ℕ) (c : Controller) → Thins c.hosts (remove closed w c).hosts
unfolding remove
remove-Thins closed w c =
    rw (stop_if_empty-hosts closed _ _) (sweep-Thins (λ h c. (h.worker == w, c)) c.hosts c)

pub handle_event-Thins :
    (env : World) (oninput : Bool) (d : Datagram) (c : Controller)
    → Thins c.hosts (handle_event env oninput d c).hosts
unfolding handle_event deliver
handle_event-Thins env oninput d c =
    if_lem (λ (r : Controller). Thins c.hosts r.hosts) (oninput && accepted env d)
      (sweep-Thins (on_response env d.packet.icmp_type d.from d.packet.payload) c.hosts c)
      (Thins-refl c.hosts)

module _ (env : World) (kept : List Host) (h : Host) (rest : List Host) (c : Controller) where
  resend_host-Thins :
      Thins
        (kept ++ h ∷ rest)
        ((resend_host env kept h rest c).0 ++ (resend_host env kept h rest c).1)
  unfolding resend_host
  resend_host-Thins =
      let (h', c₁, failure) = host_send env h c in
      let (before, c₂) = purge failure kept c₁ in
      let (current, c₃) = purge failure (h' ∷ []) c₂ in
      let here =
        Thins-trans (keep h h' (host_send-SameHost env h c) done)
          (purge-Thins failure (h' ∷ []) c₂) in
      rw (append_assoc before current _) (
        Thins-append (purge-Thins failure kept c₁)
          (Thins-append here (purge-Thins failure rest c₃)))

pub on_timer-Thins :
    (env : World) (closed : ℤ) (c : Controller)
    → OnOk (λ c'. Thins c.hosts c'.hosts) (on_timer env closed c)
on_timer-Thins env closed c =
    on_timer-OnOk env closed c (λ c'. Thins c.hosts c'.hosts)
      (λ c' t. rw (stop_if_empty-hosts closed c'.hosts c') t)
      (timer_loop-OnOk env (λ kept rest c'. Thins c.hosts (kept ++ rest))
        (λ kept h rest c' t.
          Thins-trans t (Thins-append (Thins-refl kept) (leave h (Thins-refl rest))))
        (λ kept h rest c' t. Thins-trans t (resend_host-Thins env kept h rest c'))
        (λ kept h rest c' t. subst (Thins c.hosts) (sym (append_assoc kept (h ∷ []) rest)) t)
        (λ c'. Thins c.hosts c'.hosts) (λ kept c' t. subst (Thins c.hosts) (append-nil kept) t)
        (length c.hosts) [] c.hosts c (Thins-refl c.hosts))

-- Of the hosts `old`, some are left; a host for the worker, with the identifier that was next, may
-- stand behind them.
pub data Grows (w : ℕ) (old : List Host) (next_id : ℕ) : List Host → Type 0 where
  same : Grows w old next_id old
  added :
      (h : Host) {front : List Host}
      → Thins old front
      → h.worker ≡ w
      → h.id ≡ next_id
      → Grows w old next_id (front ++ h ∷ [])

pub emplace-Grows :
    (env : World) (w : ℕ) (c : Controller) → Grows w c.hosts c.next_id (emplace env w c).hosts
unfolding emplace host_send
emplace-Grows env w c = added _ (purge-Thins _ c.hosts _) refl refl

pub start_keeps_list :
    (sys : Sys) (c : Controller)
    → ((start sys c).1.hosts ≡ c.hosts) × ((start sys c).1.next_id ≡ c.next_id)
unfolding start
start_keeps_list sys c = ground arith
