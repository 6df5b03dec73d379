-- ===== src/Router/Params.antt =====
-- internal/router/params.go: the parameters that one lookup captures, in capture order. The model
-- keeps the live slots; the spare capacity behind them is not observable through these methods.
pub mod Laws
use rice_http.Prelude.{
  ℕ, Bytes, Option, none, some, List, [], ◌∷◌, ◌++◌, length, take, get_elem?, bytes_eq,
  if◌then◌else◌,
}

pub record Param : Type 0 where
  pub key : Bytes
  pub value : Bytes

pub record Params : Type 0 where
  pub slots : List Param

-- `MakeParams`: room is reserved, nothing is captured.
abbrev pub make_params : ℕ → Params
make_params capacity = record { slots = [] }

abbrev pub len : Params → ℕ
len p = length p.slots

abbrev pub truncate : Params → ℕ → Params
truncate p n = record { slots = take n p.slots }

abbrev pub reset : Params → Params
reset p = truncate p 0

abbrev pub add : Params → Bytes → Bytes → Params
add p k v = record { slots = p.slots ++ (record { key = k; value = v }) ∷ [] }

-- The loop of `Set`, and the `add` behind it.
set_slot : List Param → Bytes → Bytes → List Param
set_slot [] name v = record { key = name; value = v } ∷ []
set_slot (s ∷ ss) name v =
    if bytes_eq s.key name then (record s { value = v }) ∷ ss else s ∷ set_slot ss name v

unfoldable pub set : Params → Bytes → Bytes → Params
unfolding set_slot
set p name v = record { slots = set_slot p.slots name v }

-- The loop of `Get`; a missing name is Go's nil slice.
get_slot : List Param → Bytes → Option Bytes
get_slot [] name = none
get_slot (s ∷ ss) name = if bytes_eq s.key name then some s.value else get_slot ss name

unfoldable pub get : Params → Bytes → Option Bytes
unfolding get_slot
get p name = get_slot p.slots name

-- `none` is the panic of `At`.
unfoldable pub at : Params → ℕ → Option Param
at p i = get_elem? p.slots i
