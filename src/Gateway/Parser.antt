-- ===== src/Gateway/Parser.antt =====
-- The loops of `detect` in library/os/linux/defaultgateway.cc over the routes and their attributes.
use libudjatnetwork.Prelude.{
  ℕ, ◌+◌, ◌-◌, ◌*◌, ◌/◌, Bool, ◌&&◌, List, [], ◌∷◌, none, some, ◌==◌, leb, ltb, if◌then◌else◌,
  Result, ok, err, fault, Error,
}
use libudjatnetwork.Prelude.Text.{CString}
use libudjatnetwork.SockAddr.{SockAddr, af_inet}
use libudjatnetwork.Gateway.Answer.{Attribute, Route, Os}

-- `RTA_ALIGN`
unfoldable pub rta_align : ℕ → ℕ
rta_align n = (n + 3) / 4 * 4

-- `RTA_OK`
unfoldable pub rta_ok : Attribute → ℕ → Bool
rta_ok a n = leb 4 n && leb 4 a.rta_len && leb a.rta_len n

-- The two variables that the parser assigns.
pub record Found : Type 0 where
  pub intf : CString
  pub gateway : SockAddr

abbrev pub rta_oif : ℕ
rta_oif = 4

abbrev pub rta_gateway : ℕ
rta_gateway = 5

-- One turn of the loop over the attributes, where `n` bytes are left. `if_indextoname` leaves its
-- buffer alone when it fails, and the buffer is not initialised.
unfoldable pub attribute_step : Os → Attribute → ℕ → Found → Result (Unit {0}) × Found
attribute_step os a n f =
    if a.rta_type == rta_oif
    then (elim (os.if_indextoname a.data_word) [
      | none ↦ (fault, f)
      | some name ↦ (ok tt, record f { intf = name })
    ])
    else if a.rta_type == rta_gateway
    then (if ltb 16 n
        then (err (Error.runtime_error "Invalid size on RTA_GATEWAY"), f)
        else (ok tt, record f { gateway = record { ss_family = af_inet; s_addr = a.data_word } }))
    else (ok tt, f)

-- What follows a step that does not throw.
abbrev pub and_then :
    Result (Unit {0}) × Found → (Found → Result (Unit {0}) × Found) → Result (Unit {0}) × Found
and_then (ok u, f) k = k f
and_then (err e, f) k = (err e, f)
and_then (fault, f) k = (fault, f)

-- The loop over the attributes.
unfoldable pub attribute_loop : Os → List Attribute → ℕ → Found → Result (Unit {0}) × Found
unfolding attribute_step rta_ok rta_align
attribute_loop os [] n f = (ok tt, f)
attribute_loop os (a ∷ rest) n f =
    if rta_ok a n
    then and_then (attribute_step os a n f)
        (λ f'. attribute_loop os rest (n - rta_align a.rta_len) f')
    else (ok tt, f)

abbrev pub rt_table_main : ℕ
rt_table_main = 254

-- The loop over the routes.
unfoldable pub route_loop : Os → List Route → Found → Result (Unit {0}) × Found
unfolding attribute_loop
route_loop os [] f = (ok tt, f)
route_loop os (r ∷ rs) f =
    if r.rtm_table == rt_table_main
    then and_then (attribute_loop os r.attributes r.payload f) (λ f'. route_loop os rs f')
    else route_loop os rs f
