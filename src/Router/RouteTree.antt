-- ===== src/Router/RouteTree.antt =====
-- internal/router/router.go: `Tree[H]`, the tree with its counters. A nil root is `null`.
pub mod Contract
pub mod Conflicts
pub mod Shape
use rice_http.Prelude.{
  ℕ, zero, suc, ◌+◌, Bytes, Option, none, some, List, [], ◌∷◌, leb, if◌then◌else◌,
}
use rice_http.Router.Params.{Params}
use rice_http.Router.Pattern
use rice_http.Router.Pattern.{
  Segment, static, param, wildcard, PatternError, Result, ok, err, parse_pattern,
}
use rice_http.Router.Tree.{Node, Child, null, ptr, fresh, InsertError, lookup_node}
use rice_http.Router.Insert.{insert_segments}

pub record Tree {ℓ} (H : Type ℓ) : Type ℓ where
  pub root : Child H
  pub n : ℕ
  pub max_params : ℕ

-- What `Insert` returns besides nil.
pub data RouteError : Type 0 where
  malformed : PatternError → RouteError
  rejected : InsertError → RouteError

-- The parameters of a pattern, a wildcard included.
unfoldable pub count_params : List Segment → ℕ
count_params [] = 0
count_params (static text ∷ segs) = count_params segs
count_params (_ ∷ segs) = suc (count_params segs)

abbrev pub max : ℕ → ℕ → ℕ
max a b = if leb a b then b else a

module _ {ℓ} {H : Type ℓ} where
  abbrev pub empty_tree : Tree H
  empty_tree = record { root = null; n = 0; max_params = 0 }

  -- The root that `insert` starts from, created at the first call.
  abbrev pub root_node : Child H → Node H
  root_node null = fresh [] []
  root_node (ptr n) = n

  -- `tree.insert`
  abbrev insert_at :
      List Segment → Tree H → Node H × Option InsertError → Tree H × Option RouteError
  insert_at segs t (r, none) = (
    record { root = ptr r; n = t.n + 1; max_params = max t.max_params (count_params segs) },
    none,
  )
  insert_at segs t (r, some e) = (record t { root = ptr r }, some (rejected e))

  abbrev insert_parsed : H → Tree H → Result (List Segment) → Tree H × Option RouteError
  insert_parsed h t (err e) = (t, some (malformed e))
  insert_parsed h t (ok segs) = insert_at segs t (insert_segments segs h (root_node t.root))

  unfoldable pub insert : (Bytes → Option Bytes) → Bytes → H → Tree H → Tree H × Option RouteError
  insert unescape pattern h t = insert_parsed h t (parse_pattern unescape pattern)

  abbrev lookup_child : Child H → Bytes → Params → Option H × Params
  lookup_child null path ps = (none, ps)
  lookup_child (ptr n) path ps = lookup_node n path ps

  unfoldable pub lookup : Tree H → Bytes → Params → Option H × Params
  lookup t path ps = lookup_child t.root path ps

  abbrev pub len : Tree H → ℕ
  len t = t.n
