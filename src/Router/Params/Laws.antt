-- ===== src/Router/Params/Laws.antt =====
-- internal/router/params.go: what `Set` and `Get` promise each other.
use rice_http.Prelude.{
  Bytes, some, List, [], ◌∷◌, ◌≡◌, refl, arith, bytes_eq, bytes_eq_iff, if◌then◌else◌,
}
use rice_http.Router.Params.{Param, Params, set_slot, set, get_slot, get}

get_slot-set_slot :
    (ss : List Param) (name other v : Bytes)
    → get_slot (set_slot ss name v) other
      ≡ (if bytes_eq name other then some v else get_slot ss other)
unfolding get_slot set_slot
get_slot-set_slot [] name other v = refl
get_slot-set_slot (s ∷ ss) name other v = ground (
  arith,
  bytes_eq_iff s.key name,
  bytes_eq_iff s.key other,
  bytes_eq_iff name other,
  get_slot-set_slot ss name other v,
)

-- `Get` after `Set`: the value for the name that was set, and for every other name what was there.
pub get-set :
    (p : Params) (name other v : Bytes)
    → get (set p name v) other ≡ (if bytes_eq name other then some v else get p other)
unfolding get set
get-set p name other v = get_slot-set_slot p.slots name other v
