-- ===== src/Nic/Removal.antt =====
-- Removals of an interface that a refresh keeps the agent from hearing.
use libudjatnetwork.Prelude.{
  ℕ, ◌≡◌, refl, ◌∙◌, true, false, List, [], ◌∷◌, some, arith, ℤ, pos, int_eq, is_negative, sym, ap,
}
use libudjatnetwork.SockAddr.ByteOrder.{little}
use libudjatnetwork.Nic.{Agent, Os, widened, union_index, refresh, on_dellink}
use libudjatnetwork.Nic.Link.{Event, refreshed, newlink, dellink, step, run}

-- Refreshes, and removals of interfaces whose index is not the number.
abbrev pub AreOthers : ℕ → List Event → Type 0
AreOthers f [] = Unit
AreOthers f (refreshed ∷ es) = AreOthers f es
AreOthers f (newlink x g ∷ es) = ⊥
AreOthers f (dellink x g ∷ es) = (int_eq (pos f) x ≡ false) × AreOthers f es

module _ (os : Os) (f : ℕ) (opens : is_negative os.socket ≡ false) (order : os.order ≡ little)
    (reads : os.ifr_flags ≡ some f) where
  refresh-index : (a : Agent) → (refresh os a).1.intf.index ≡ pos f
  unfolding refresh union_index
  refresh-index a = ground (arith, opens, order, reads)

  abbrev reading : Agent → Agent
  reading a = record a {
    intf = record a.intf { flags = widened f; index = union_index os.order f; exist = true };
  }

  refresh-reading : (a : Agent) → (refresh os a).1 ≡ reading a
  unfolding refresh
  refresh-reading a = rw (opens, reads) refl

  refresh-again : (a : Agent) → (refresh os (refresh os a).1).1 ≡ (refresh os a).1
  refresh-again a =
      refresh-reading (refresh os a).1 ∙ (ap reading (refresh-reading a) ∙ sym (refresh-reading a))

  on_dellink-other :
      (x : ℤ) (g : ℕ) (a : Agent)
      → int_eq (pos f) x ≡ false
      → a.intf.index ≡ pos f
      → on_dellink x g a ≡ a
  unfolding on_dellink
  on_dellink-other x g a n e = ground (arith, n, e)

  -- On a little-endian machine, where the socket opens and the interface reports the same flags all
  -- along, an agent that has refreshed holds these flags as its index, and any sequence of further
  -- refreshes and of removals of interfaces with any other index leaves it as it is.
  pub run-deaf :
      (es : List Event) (a : Agent)
      → AreOthers f es
      → let read = (refresh os a).1 in (read.intf.index ≡ pos f) × (run os es read ≡ read)
  unfolding run step
  run-deaf [] a n = (refresh-index a, refl)
  run-deaf (refreshed ∷ es) a n =
      (refresh-index a, ap (run os es) (refresh-again a) ∙ (run-deaf es a n).1)
  run-deaf (newlink x g ∷ es) a n = absurd n
  run-deaf (dellink x g ∷ es) a (n, ns) = (
    refresh-index a,
    ap (run os es) (on_dellink-other x g (refresh os a).1 n (refresh-index a))
        ∙ (run-deaf es a ns).1,
  )
