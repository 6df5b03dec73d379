-- ===== src/App/Trees.antt =====
-- app.go, route.go: the route trees of an App, an array for the common verbs and a map for the rest.
pub mod Slots
use rice_http.Prelude.{ℕ, Bytes, Option, none, some, ◌==◌, bytes_eq, if◌then◌else◌}
use rice_http.Router.Params.{Params}
use rice_http.Router.RouteTree.{Tree, RouteError, empty_tree, insert, lookup}
use rice_http.App.Method.{method_index}

-- `App.trees` and `App.rare`. A nil map reads like an empty one.
pub record Trees {ℓ} (E : Type ℓ) : Type ℓ where
  pub verbs : ℕ → Tree E
  pub rare : Bytes → Option (Tree E)

module _ {ℓ} {E : Type ℓ} where
  abbrev pub no_trees : Trees E
  no_trees = record { verbs = λ i. empty_tree; rare = λ m. none }

  abbrev pub or_empty : Option (Tree E) → Tree E
  or_empty none = empty_tree
  or_empty (some t) = t

  abbrev pub at_slot : Trees E → Bytes → Option ℕ → Tree E
  at_slot ts m (some i) = ts.verbs i
  at_slot ts m none = or_empty (ts.rare m)

  -- What `treeFor` points at.
  unfoldable pub tree_for : Trees E → Bytes → Tree E
  tree_for ts m = at_slot ts m (method_index m)

  abbrev pub put_slot : Trees E → Bytes → Tree E → Option ℕ → Trees E
  put_slot ts m t (some i) = record ts { verbs = λ j. if j == i then t else ts.verbs j }
  put_slot ts m t none = record ts { rare = λ k. if bytes_eq k m then some t else ts.rare k }

  -- A write through the pointer that `treeFor` returns.
  unfoldable pub put_tree : Trees E → Bytes → Tree E → Trees E
  put_tree ts m t = put_slot ts m t (method_index m)

  -- `a.treeFor(method).Insert(path, entry)`
  unfoldable pub insert_route :
      (Bytes → Option Bytes) → Bytes → Bytes → E → Trees E → Trees E × Option RouteError
  insert_route u m path e ts = let r = insert u path e (tree_for ts m) in (put_tree ts m r.0, r.1)

  abbrev lookup_rare : Option (Tree E) → Bytes → Params → Option E × Params
  lookup_rare none path ps = (none, ps)
  lookup_rare (some t) path ps = lookup t path ps

  abbrev lookup_slot : Trees E → Bytes → Bytes → Params → Option ℕ → Option E × Params
  lookup_slot ts m path ps (some i) = lookup (ts.verbs i) path ps
  lookup_slot ts m path ps none = lookup_rare (ts.rare m) path ps

  unfoldable pub lookup_entry : Trees E → Bytes → Bytes → Params → Option E × Params
  lookup_entry ts m path ps = lookup_slot ts m path ps (method_index m)
