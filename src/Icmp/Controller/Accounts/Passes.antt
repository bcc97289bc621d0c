-- ===== src/Icmp/Controller/Accounts/Passes.antt =====
-- What the workers are told in one pass over the hosts, against the hosts that go.
use libudjatnetwork.Prelude.{
  ℕ, ◌+◌, ◌≤◌, ◌≡◌, refl, true, List, [], ◌∷◌, inl, inr, ℤ, Bool-cases, ◌==◌, ◌||◌, if◌then◌else◌,
  arith,
}
use libudjatnetwork.SockAddr.{SockAddr}
use libudjatnetwork.Icmp.Packet.{Payload}
use libudjatnetwork.Icmp.Host.{Notice, Host, Controller, World, idle, on_error, on_response}
use libudjatnetwork.Icmp.Controller.{sweep}
use libudjatnetwork.Icmp.Controller.Sweep.{Predicate, count_of, sweep-gone, sweep-stays}

-- How many notices are for the worker.
abbrev pub notices_for : ℕ → List Notice → ℕ
notices_for w [] = 0
notices_for w (n ∷ ns) = (if n.worker == w then 1 else 0) + notices_for w ns

-- The types of ICMP messages that a host knows: `ICMP_ECHOREPLY`, `ICMP_DEST_UNREACH`, `ICMP_ECHO` and
-- `ICMP_TIME_EXCEEDED`.
abbrev pub IsKnown : ℕ → Type 0
IsKnown t = ((t == 0) || ((t == 3) || ((t == 8) || (t == 11)))) ≡ true

notices_for-idle :
    (w v : ℕ) (c : Controller) → notices_for w (idle c v).notices ≡ notices_for w c.notices
unfolding idle
notices_for-idle w v c = refl

module _ (w : ℕ) where
  -- What the worker was told, and what it may still be told for the hosts of a list.
  abbrev pub account : List Host → Controller → ℕ
  account hs c = notices_for w c.notices + count_of w hs

  abbrev pub one : ℕ → ℕ
  one v = if v == w then 1 else 0

  -- A predicate that tells a worker only of a host that it gives up.
  abbrev pub TellsOnce : Predicate → Type 0
  TellsOnce f =
      (h : Host) (c : Controller)
      → notices_for w (f h c).1.notices
        ≤ notices_for w c.notices + (if (f h c).0 then one h.worker else 0)

  pub sweep-account :
      (f : Predicate) (hs : List Host) (c : Controller)
      → TellsOnce f
      → account (sweep f hs c).0 (sweep f hs c).1 ≤ account hs c
  unfolding sweep
  sweep-account f [] c t = omega arith
  sweep-account f (h ∷ hs) c t = elim (Bool-cases (f h c).0) [
    | inl gone ↦
        let told : notices_for w (f h c).1.notices ≤ notices_for w c.notices + one h.worker =
          rw gone at (t h c) in
        rw (sweep-gone f h hs c gone) (
          omega (
            arith,
            sweep-account f hs (idle (f h c).1 h.worker) t,
            notices_for-idle w h.worker (f h c).1,
            told,
          ))
    | inr stays ↦
        let told : notices_for w (f h c).1.notices ≤ notices_for w c.notices + 0 =
          rw stays at (t h c) in
        rw (sweep-stays f h hs c stays) (omega (arith, sweep-account f hs (f h c).1 t, told))
  ]

  -- A predicate that tells a worker of every host that it gives up, and of no other.
  abbrev pub TellsAll : Predicate → Type 0
  TellsAll f =
      (h : Host) (c : Controller)
      → notices_for w (f h c).1.notices
        ≡ notices_for w c.notices + (if (f h c).0 then one h.worker else 0)

  pub sweep-exact :
      (f : Predicate) (hs : List Host) (c : Controller)
      → TellsAll f
      → account (sweep f hs c).0 (sweep f hs c).1 ≡ account hs c
  unfolding sweep
  sweep-exact f [] c t = refl
  sweep-exact f (h ∷ hs) c t = elim (Bool-cases (f h c).0) [
    | inl gone ↦
        let told : notices_for w (f h c).1.notices ≡ notices_for w c.notices + one h.worker =
          rw gone at (t h c) in
        rw (sweep-gone f h hs c gone) (
          omega (
            arith,
            sweep-exact f hs (idle (f h c).1 h.worker) t,
            notices_for-idle w h.worker (f h c).1,
            told,
          ))
    | inr stays ↦
        let told : notices_for w (f h c).1.notices ≡ notices_for w c.notices + 0 =
          rw stays at (t h c) in
        rw (sweep-stays f h hs c stays) (omega (arith, sweep-exact f hs (f h c).1 t, told))
  ]

  pub on_error-TellsAll : (code : ℤ) (p : Payload) → TellsAll (on_error code p)
  unfolding on_error
  on_error-TellsAll code p h c = ground arith

  pub on_response-TellsOnce :
      (env : World) (t : ℕ) (a : SockAddr) (p : Payload) → TellsOnce (on_response env t a p)
  unfolding on_response
  on_response-TellsOnce env t a p h c = ground arith

  pub on_response-TellsAll :
      (env : World) (t : ℕ) (a : SockAddr) (p : Payload)
      → IsKnown t
      → TellsAll (on_response env t a p)
  unfolding on_response
  on_response-TellsAll env t a p k h c = ground (arith, k)
