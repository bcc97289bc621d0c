-- ===== src/NetLink/Watching.antt =====
-- When the controller watches its socket.
use libudjatnetwork.Prelude.{
  ℕ, ◌≡◌, ◌≢◌, refl, Bool, true, false, not, List, [], ◌∷◌, ◌++◌, ◌==◌, ==_iff, keep_if, All, ℤ,
  pos, negsuc, minus_one, int_eq, is_negative, arith, Bool-cases, inl, inr,
}
use libudjatnetwork.NetLink.{Listener, Controller, Sys, push_back, remove, close_if_empty}

abbrev pub has_some : List Listener → Bool
has_some [] = false
has_some (l ∷ ls) = true

-- The controller watches an open descriptor exactly while it has listeners.
pub record IsWatching (c : Controller) : Type 0 where
  pub watches : c.enabled ≡ has_some c.listeners
  pub opened : int_eq c.fd minus_one ≡ not c.enabled

has_some-append : (ls : List Listener) (l : Listener) → has_some (ls ++ l ∷ []) ≡ true
has_some-append [] l = refl
has_some-append (x ∷ ls) l = refl

pub not-minus_one : (n : ℤ) → is_negative n ≡ false → int_eq n minus_one ≡ false
not-minus_one (pos n) h = refl
not-minus_one (negsuc n) h = cc

-- Where the socket opens and is bound, registering a listener keeps the controller watching an open
-- descriptor exactly while it has listeners.
pub push_back-IsWatching :
    (sys : Sys) (object message : ℕ) (c : Controller)
    → is_negative sys.socket ≡ false
    → sys.bind_fails ≡ false
    → IsWatching c
    → IsWatching (push_back sys object message c).1
unfolding push_back
push_back-IsWatching sys object message c s b w = ground (
  arith,
  has_some-append c.listeners (record { message = message; object = object }),
  not-minus_one sys.socket s,
)

close_if_empty-IsWatching :
    (ls : List Listener) (c : Controller)
    → IsWatching c
    → (has_some ls ≡ true → has_some c.listeners ≡ true)
    → IsWatching (close_if_empty ls c)
unfolding close_if_empty
close_if_empty-IsWatching [] c w h = ground arith
close_if_empty-IsWatching (l ∷ ls) c w h = let k = h refl in ground arith

has_some-keep_if :
    (p : Listener → Bool) (ls : List Listener) → has_some (keep_if p ls) ≡ true → has_some ls ≡ true
has_some-keep_if p [] h = h
has_some-keep_if p (l ∷ ls) h = refl

keep_if-All :
    (object : ℕ) (ls : List Listener)
    → All (λ l. l.object ≢ object) (keep_if (λ l. not (l.object == object)) ls)
keep_if-All object [] = tt
keep_if-All object (l ∷ ls) =
    let rest = keep_if-All object ls in
    elim (Bool-cases (l.object == object)) [
      | inl e ↦ rw e rest
      | inr e ↦ rw e ((λ same. ground (arith, ==_iff l.object object)), rest)
    ]

close_if_empty-listeners :
    (ls : List Listener) (c : Controller) → (close_if_empty ls c).listeners ≡ ls
unfolding close_if_empty
close_if_empty-listeners [] c = refl
close_if_empty-listeners (l ∷ ls) c = refl

pub remove-others :
    (object : ℕ) (c : Controller) → All (λ l. l.object ≢ object) (remove object c).listeners
unfolding remove
remove-others object c =
    let others = keep_if (λ l. not (l.object == object)) c.listeners in
    rw (close_if_empty-listeners others c) (keep_if-All object c.listeners)

-- Removing an object leaves no listener of that object, and keeps the controller watching an open
-- descriptor exactly while it has listeners.
pub remove-IsWatching :
    (object : ℕ) (c : Controller)
    → IsWatching c
    → IsWatching (remove object c) × All (λ l. l.object ≢ object) (remove object c).listeners
unfolding remove
remove-IsWatching object c w =
    let others = keep_if (λ l. not (l.object == object)) c.listeners in
    (
      close_if_empty-IsWatching others c w
          (has_some-keep_if (λ l. not (l.object == object)) c.listeners),
      remove-others object c,
    )
