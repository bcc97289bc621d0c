-- ===== src/Gateway/Detect.antt =====
-- What `detect` takes from the kernel's answer.
use libudjatnetwork.Prelude.{
  subst, ℕ, ◌+◌, ◌-◌, ◌≤◌, ◌≡◌, refl, true, false, not, List, [], ◌∷◌, some, ◌==◌, inl, inr,
  if◌then◌else◌, arith, Bool-cases, Result, ok, err, fault, is_negative,
}
use libudjatnetwork.Prelude.Text.{CString}
use libudjatnetwork.SockAddr.{SockAddr, AddressLib, zeroed, af_inet}
use libudjatnetwork.Icmp.Host.{Controller}
use libudjatnetwork.IpAgent.{address}
use libudjatnetwork.Gateway.{
  Gateway, Attribute, Route, Reply, reply, Os, request, nlmsg_ok, recv_loop, rta_align, rta_ok,
  Found, rta_oif, rta_gateway, attribute_step, and_then, attribute_loop, rt_table_main, route_loop,
  set_address, adopt, parse, detect,
}

-- Only the first call of `recv` matters: the loop never comes round.
recv_loop-first :
    (pid n kind : ℕ) (routes : List Route) (rs : List Reply)
    → 28 ≤ n
    → recv_loop (request pid) 1 pid (reply n kind routes ∷ rs) ≡ ok routes
unfolding recv_loop request nlmsg_ok
recv_loop-first pid n kind routes rs h = ground arith

-- The bytes that attributes take.
unfoldable pub span : List Attribute → ℕ
unfolding rta_align
span [] = 0
span (a ∷ rest) = rta_align a.rta_len + span rest

-- An attribute list that the parser reads to its end: no length is below the header's, names are
-- found, and no more than 16 bytes are left from a gateway on.
abbrev pub IsReadable : Os → List Attribute → Type 0
IsReadable os [] = Unit
IsReadable os (a ∷ rest) =
    (4 ≤ a.rta_len)
    × (a.rta_type ≡ rta_oif → (name : CString) × (os.if_indextoname a.data_word ≡ some name))
    × (a.rta_type ≡ rta_gateway → rta_align a.rta_len + span rest ≤ 16)
    × IsReadable os rest

-- The last gateway of a list of attributes, or the one before.
abbrev pub last_gateway : List Attribute → SockAddr → SockAddr
last_gateway [] g = g
last_gateway (a ∷ rest) g =
    last_gateway rest (
      if a.rta_type == rta_gateway then record { ss_family = af_inet; s_addr = a.data_word } else g)

-- The same over the routes of the main table.
abbrev pub main_gateway : List Route → SockAddr → SockAddr
main_gateway [] g = g
main_gateway (r ∷ rs) g =
    main_gateway rs (if r.rtm_table == rt_table_main then last_gateway r.attributes g else g)

abbrev pub AreReadable : Os → List Route → Type 0
AreReadable os [] = Unit
AreReadable os (r ∷ rs) =
    (r.rtm_table ≡ rt_table_main → (r.payload ≡ span r.attributes) × IsReadable os r.attributes)
    × AreReadable os rs

-- A normal step, and the gateway that it leaves.
abbrev Leaves : SockAddr → Result (Unit {0}) × Found → Type 0
Leaves g s = (s.0 ≡ ok tt) × (s.1.gateway ≡ g)

and_then-Leaves :
    (g g' : SockAddr) (s : Result (Unit {0}) × Found) (k : Found → Result (Unit {0}) × Found)
    → Leaves g s
    → ((f : Found) → f.gateway ≡ g → Leaves g' (k f))
    → Leaves g' (and_then s k)
and_then-Leaves g g' (ok u, f) k l h = h f l.1
and_then-Leaves g g' (err e, f) k l h = cc
and_then-Leaves g g' (fault, f) k l h = cc

attribute_step-Leaves :
    (os : Os) (a : Attribute) (n : ℕ) (f : Found)
    → (a.rta_type ≡ rta_oif → (name : CString) × (os.if_indextoname a.data_word ≡ some name))
    → (a.rta_type ≡ rta_gateway → n ≤ 16)
    → Leaves (last_gateway (a ∷ []) f.gateway) (attribute_step os a n f)
unfolding attribute_step
attribute_step-Leaves os a n f o g = elim (Bool-cases (a.rta_type == rta_oif)) [
  | inl e ↦ let (name, named) = o (ground arith) in rw (e, named) (ground arith)
  | inr e ↦ rw e (ground arith)
]

rta_align-bound : (n : ℕ) → n ≤ rta_align n
unfolding rta_align
rta_align-bound n = omega arith

rta_ok-fits : (a : Attribute) (n : ℕ) → 4 ≤ a.rta_len → a.rta_len ≤ n → rta_ok a n ≡ true
unfolding rta_ok
rta_ok-fits a n h k = ground arith

rta_ok-span :
    (a : Attribute) (rest : List Attribute) → 4 ≤ a.rta_len → rta_ok a (span (a ∷ rest)) ≡ true
unfolding span
rta_ok-span a rest h = rta_ok-fits a (span (a ∷ rest)) h (omega (arith, rta_align-bound a.rta_len))

attribute_loop-Leaves :
    (os : Os) (as' : List Attribute) (f : Found)
    → IsReadable os as'
    → Leaves (last_gateway as' f.gateway) (attribute_loop os as' (span as') f)
unfolding attribute_loop span
attribute_loop-Leaves os [] f r = (refl, refl)
attribute_loop-Leaves os (a ∷ rest) f (long, named, short, r) =
    let left : span (a ∷ rest) - rta_align a.rta_len ≡ span rest = omega arith in
    rw (rta_ok-span a rest long, left)
      (and_then-Leaves (last_gateway (a ∷ []) f.gateway) _ _ _
        (attribute_step-Leaves os a (span (a ∷ rest)) f named short)
        (λ f' e.
          subst (λ g. Leaves (last_gateway rest g) (attribute_loop os rest (span rest) f')) e
            (attribute_loop-Leaves os rest f' r)))

route_loop-Leaves :
    (os : Os) (rs : List Route) (f : Found)
    → AreReadable os rs
    → Leaves (main_gateway rs f.gateway) (route_loop os rs f)
unfolding route_loop
route_loop-Leaves os [] f h = (refl, refl)
route_loop-Leaves os (r ∷ rs) f (h, hs) = elim (Bool-cases (r.rtm_table == rt_table_main)) [
  | inl e ↦
      let (sized, readable) = h (ground arith) in
      rw (e, sized)
        (and_then-Leaves (last_gateway r.attributes f.gateway) _ _ _
          (attribute_loop-Leaves os r.attributes f readable)
          (λ f' q.
            subst (λ g. Leaves (main_gateway rs g) (route_loop os rs f')) q
              (route_loop-Leaves os rs f' hs)))
  | inr e ↦ rw e (route_loop-Leaves os rs f hs)
]

-- What `adopt` leaves when nothing was thrown.
adopt-Leaves :
    (lib : AddressLib) (gw : SockAddr) (s : Result (Unit {0}) × Found) (g : Gateway)
    (c : Controller)
    → Leaves gw s
    → let changed = not (lib.equal gw (address g.agent c)) in
      let (r, g', c') = adopt lib s.0 s.1 g c in
      (r ≡ ok changed)
      × (g'.agent ≡ g.agent)
      × (c' ≡ (if changed then set_address lib g.agent.worker gw c else c))
unfolding adopt
adopt-Leaves lib gw (ok u, f) g c l = rw l.1 (refl, refl, refl)
adopt-Leaves lib gw (err e, f) g c l = cc
adopt-Leaves lib gw (fault, f) g c l = cc

-- Where the socket opens, the request is sent and the first reply has at least the 28 bytes of the
-- request's length and is readable to its end, `detect` reads no later reply. Its candidate is the
-- last gateway that any route of the main table has, whatever that route's destination is, or the
-- zeroed address. It returns true exactly when the address library tells the candidate from the
-- agent's address, and then the candidate becomes that address; otherwise the controller stays.
pub detect-main_gateway :
    (lib : AddressLib) (os : Os) (g : Gateway) (c : Controller) (n kind : ℕ) (routes : List Route)
    (later : List Reply)
    → is_negative os.socket ≡ false
    → os.send_fails ≡ false
    → os.replies ≡ reply n kind routes ∷ later
    → 28 ≤ n
    → AreReadable os routes
    → let gw = main_gateway routes zeroed in
      let changed = not (lib.equal gw (address g.agent c)) in
      let (r, g', c') = detect lib os g c in
      (r ≡ ok changed)
      × (g'.agent ≡ g.agent)
      × (c' ≡ (if changed then set_address lib g.agent.worker gw c else c))
unfolding detect parse
detect-main_gateway lib os g c n kind routes later so se rs h r =
    rw (so, se, rs, recv_loop-first os.getpid n kind routes later h)
      (adopt-Leaves lib _ (route_loop os routes (record { intf = g.intf; gateway = zeroed })) g c
        (route_loop-Leaves os routes (record { intf = g.intf; gateway = zeroed }) r))
