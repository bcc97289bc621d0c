-- ===== src/Nic/Flags.antt =====
-- What the states say of the interface.
use libudjatnetwork.Prelude.{
  ℕ, ◌≡◌, refl, Bool, true, false, not, ◌&&◌, List, [], ◌∷◌, ◌==◌, arith, is_negative, some,
  keep_if, Bool-cases, inl, inr,
}
use libudjatnetwork.Udjat.{Properties}
use libudjatnetwork.Nic.State.{Intf, Kind, active, inactive, existant, NicState, exist, compare}
use libudjatnetwork.Nic.{Agent, Os, widened, first_match, compute_state, refresh}
use libudjatnetwork.Nic.Link.{Event, AreSteady, run, refresh-IsQuiet, run-IsQuiet}

-- Of the two states for one flag, an agent that the netlink controller has told of its interface
-- and that knows some flag accepts exactly one, and any other agent accepts neither.
pub compare-exclusive :
    (mask : ℕ) (i : Intf)
    → let told = i.netlink && not (i.flags == 0) in
      compare (inactive mask) i ≡ (told && not (compare (active mask) i))
unfolding compare exist
compare-exclusive mask i = ground arith

-- Whether a state looks at a flag.
abbrev pub is_flag : Kind → Bool
is_flag (active mask) = true
is_flag (inactive mask) = true
is_flag (existant revert) = false

-- The states that look at no flag.
abbrev pub without_flags : List NicState → List NicState
without_flags ss = keep_if (λ s. not (is_flag s.kind)) ss

compare-unheard : (k : Kind) (i : Intf) → is_flag k ≡ true → i.netlink ≡ false → compare k i ≡ false
unfolding compare exist
compare-unheard (active mask) i h n = ground (arith, n)
compare-unheard (inactive mask) i h n = ground (arith, n)
compare-unheard (existant revert) i h n = cc

first_match-unheard :
    (base : Properties) (ss : List NicState) (i : Intf)
    → i.netlink ≡ false
    → first_match base ss i ≡ first_match base (without_flags ss) i
unfolding first_match
first_match-unheard base [] i n = refl
first_match-unheard base (s ∷ ss) i n = elim (Bool-cases (is_flag s.kind)) [
  | inl flag ↦ rw (flag, compare-unheard s.kind i flag n) (first_match-unheard base ss i n)
  | inr other ↦ rw (other, first_match-unheard base ss i n) refl
]

-- Where the socket opens and the interface reports the same flags all along, an agent that has not
-- been told of a link and that refreshes shows, after any sequence of refreshes and of netlink messages
-- with these flags, the state that it would show without its states for flags, whatever states it has
-- and whatever the flags are: no state for a flag is ever accepted.
pub run-unheard :
    (os : Os) (f : ℕ) (a : Agent) (es : List Event) (base : Properties) (ss : List NicState)
    → is_negative os.socket ≡ false
    → os.ifr_flags ≡ some f
    → a.intf.netlink ≡ false
    → AreSteady (widened f) es
    → compute_state base (record (run os es (refresh os a).1) { states = ss })
      ≡ compute_state base (record (run os es (refresh os a).1) { states = without_flags ss })
unfolding compute_state
run-unheard os f a es base ss s e n h =
    let quiet = run-IsQuiet os f es _ s e h (refresh-IsQuiet os a f s e n) in
    first_match-unheard base ss _ quiet.unheard
