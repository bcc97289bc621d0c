-- ===== src/IpAgent/Icmp.antt =====
-- The ICMP state of an agent.
use libudjatnetwork.Prelude.{
  ℕ, ◌+◌, ◌≡◌, ◌≢◌, refl, ◌==◌, ==_iff, false, List, [], ◌∷◌, Option, none, some, inl, inr, ok,
  first_where, Returns, arith, ◌>>=◌, Bool-cases,
}
use mathlib.Core.Option.{some-injective}
use libudjatnetwork.Udjat.{Framework}
use libudjatnetwork.Icmp.Response.{Response, code}
use libudjatnetwork.Icmp.State.{State, factory_of_object, factory_of_object-id}
use libudjatnetwork.IpAgent.{Agent, set, use_state}

code-injective : (r s : Response) → code r ≡ code s → r ≡ s
code-injective r s h = ground arith

first_where-id :
    (r : Response) (xs : List State) (x : State)
    → first_where (λ s. code s.id == code r) xs ≡ some x
    → x.id ≡ r
first_where-id r [] x e = cc
first_where-id r (y ∷ ys) x e = elim (Bool-cases (code y.id == code r)) [
  | inl hit ↦
      let same : y ≡ x = some-injective y x (rw hit at e) in
      rw (← same) (code-injective y.id r ((==_iff (code y.id) (code r)).0 hit))
  | inr miss ↦ first_where-id r ys x (rw miss at e)
]

ne_test : (m n : ℕ) → m ≢ n → (m == n) ≡ false
ne_test m n h = ground arith

-- What `set` has done for a response.
abbrev pub Shows : Response → Agent → Agent → Type 0
Shows r a a' =
    ((s : State) × (a'.icmp_state ≡ some s) × (s.id ≡ r))
    × (a'.updates ≡ a.updates + 1)
    × (a'.response ≡ a.response)
    × (a'.worker ≡ a.worker)
    × (a'.check ≡ a.check)

-- A response other than the one that the agent remembers always gives the agent a state for that
-- response, its own where it has one, and one call of `updated`; it never throws. The remembered
-- response, the worker and the wish to check stay.
pub set-Shows :
    (fw : Framework) (r : Response) (a : Agent) → r ≢ a.response → Returns (Shows r a) (set fw r a)
unfolding set
set-Shows fw r a n =
    let other : (code r == code a.response) ≡ false =
      ne_test (code r) (code a.response) (λ e. n (code-injective r a.response e)) in
    rw (other, set) (from_table (first_where (λ s. code s.id == code r) a.icmp_states) refl)
  where
    from_table :
        (found : Option State)
        → first_where (λ s. code s.id == code r) a.icmp_states ≡ found
        → Returns (Shows r a) (elim found [
          | some s ↦ ok (use_state s a)
          | none ↦ factory_of_object fw r >>= λ s. ok (use_state s a)
        ])
    from_table (some s) e = ((s, refl, first_where-id r a.icmp_states s e), refl, refl, refl, refl)
    from_table none e =
        let (s, made, mine) = factory_of_object-id fw r in
        rw (made, ◌>>=◌) ((s, refl, mine), refl, refl, refl, refl)
