-- ===== src/Nic/Link.antt =====
-- How the agent follows its interface: `refresh` and the two listeners.
use libudjatnetwork.Prelude.{
  subst, ℕ, ◌≡◌, refl, sym, ◌↔◌, Bool, true, false, List, [], ◌∷◌, some, ==_iff, arith,
  Option-cases, inl, inr, ok, ℤ, pos, negsuc, int_eq, is_negative,
}
use libudjatnetwork.Nic.State.{Intf}
use libudjatnetwork.Nic.{Agent, Os, widened, union_index, differs, refresh, on_newlink, on_dellink}

int_eq_iff : (a b : ℤ) → (int_eq a b ≡ true) ↔ (a ≡ b)
int_eq_iff (pos a) (pos b) = ground (arith, ==_iff a b)
int_eq_iff (pos a) (negsuc b) = ground arith
int_eq_iff (negsuc a) (pos b) = ground arith
int_eq_iff (negsuc a) (negsuc b) = ground (arith, ==_iff a b)

abbrev moved : Intf → ℕ → ℤ → Bool → Intf
moved i f x e = record i { flags = f; index = x; exist = e }

differs_iff :
    (i : Intf) (f : ℕ) (x : ℤ) (e : Bool) → (differs i f x e ≡ false) ↔ (moved i f x e ≡ i)
differs_iff i f x true = ground (arith, ==_iff i.flags f, int_eq_iff i.index x)
differs_iff i f x false = ground (arith, ==_iff i.flags f, int_eq_iff i.index x)

-- `refresh` returns false exactly when the agent is what it was, given that the socket opens.
pub refresh_iff_changed :
    (os : Os) (a : Agent)
    → is_negative os.socket ≡ false
    → ((refresh os a).0 ≡ ok false) ↔ ((refresh os a).1 ≡ a)
unfolding refresh
refresh_iff_changed os a s = elim (Option-cases os.ifr_flags) [
  | inl e ↦ rw (s, e) (ground (arith, differs_iff a.intf 0 (negsuc 0) false))
  | inr (f, e) ↦
      rw (s, e) (ground (arith, differs_iff a.intf (widened f) (union_index os.order f) true))
]

-- What happens to an agent after `start`.
pub data Event : Type 0 where
  refreshed : Event
  newlink dellink : ℤ → ℕ → Event

-- The agent after one event, with the answers of the system as they stay.
unfoldable pub step : Os → Event → Agent → Agent
unfolding refresh on_newlink on_dellink
step os refreshed a = (refresh os a).1
step os (newlink x f) a = on_newlink os x f a
step os (dellink x f) a = on_dellink x f a

unfoldable pub run : Os → List Event → Agent → Agent
unfolding step
run os [] a = a
run os (e ∷ es) a = run os es (step os e a)

-- Messages that carry the flags that the interface has all along.
abbrev pub AreSteady : ℕ → List Event → Type 0
AreSteady f [] = Unit
AreSteady f (refreshed ∷ es) = AreSteady f es
AreSteady f (newlink x g ∷ es) = (g ≡ f) × AreSteady f es
AreSteady f (dellink x g ∷ es) = (g ≡ f) × AreSteady f es

-- An agent that has read these flags and heard of no change.
pub record IsQuiet (f : ℕ) (a : Agent) : Type 0 where
  pub known : a.intf.flags ≡ f
  pub unheard : a.intf.netlink ≡ false

pub refresh-IsQuiet :
    (os : Os) (a : Agent) (f : ℕ)
    → is_negative os.socket ≡ false
    → os.ifr_flags ≡ some f
    → a.intf.netlink ≡ false
    → IsQuiet (widened f) (refresh os a).1
unfolding refresh
refresh-IsQuiet os a f s e n = rw (s, e) (record { known = refl; unheard = n })

on_newlink-IsQuiet :
    (os : Os) (a : Agent) (f : ℕ) (x : ℤ) → IsQuiet f a → IsQuiet f (on_newlink os x f a)
unfolding on_newlink
on_newlink-IsQuiet os a f x q = elim (Option-cases (os.if_indextoname x)) [
  | inl e ↦ rw (e, on_newlink) q
  | inr (name, e) ↦ rw (e, on_newlink) (ground (arith, q.known, q.unheard, ==_iff a.intf.flags f))
]

on_dellink-IsQuiet : (a : Agent) (f : ℕ) (x : ℤ) → IsQuiet f a → IsQuiet f (on_dellink x f a)
unfolding on_dellink
on_dellink-IsQuiet a f x q = ground (arith, q.known, q.unheard, ==_iff a.intf.flags f)

pub run-IsQuiet :
    (os : Os) (f : ℕ) (es : List Event) (a : Agent)
    → is_negative os.socket ≡ false
    → os.ifr_flags ≡ some f
    → AreSteady (widened f) es
    → IsQuiet (widened f) a
    → IsQuiet (widened f) (run os es a)
unfolding run step
run-IsQuiet os f [] a s e h q = q
run-IsQuiet os f (refreshed ∷ es) a s e h q =
    run-IsQuiet os f es _ s e h (refresh-IsQuiet os a f s e q.unheard)
run-IsQuiet os f (newlink x g ∷ es) a s e (h, hs) q = run-IsQuiet os f es _ s e hs (
    subst (λ g. IsQuiet (widened f) (on_newlink os x g a)) (sym h)
      (on_newlink-IsQuiet os a (widened f) x q))
run-IsQuiet os f (dellink x g ∷ es) a s e (h, hs) q = run-IsQuiet os f es _ s e hs (
    subst (λ g. IsQuiet (widened f) (on_dellink x g a)) (sym h)
      (on_dellink-IsQuiet a (widened f) x q))
