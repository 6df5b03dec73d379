-- ===== src/App/Trees/Slots.antt =====
-- route.go: the slots of `treeFor`, as `treeFor` writes and `lookupEntry` reads them.
use rice_http.Prelude.{
  ℕ, Bytes, Option, none, some, ◌==◌, ==_iff, ==_self, bytes_eq, bytes_eq_iff, bytes_eq_self, ◌≡◌,
  ◌≢◌, refl, sym, ◌∙◌, ap, Bool-cases, Option-cases, inl, inr, get_elem?,
}
use rice_http.Router.Params.{Params}
use rice_http.Router.RouteTree.{Tree, lookup}
use rice_http.App.Method.{method_index}
use rice_http.App.Method.Exact.{method_index_lem, verbs}
use rice_http.App.Trees.{Trees, tree_for, put_tree, lookup_entry, lookup_rare, or_empty}

-- Two methods with one slot are one method.
same_verb : (m k : Bytes) (i : ℕ) → method_index m ≡ some i → method_index k ≡ some i → m ≡ k
same_verb m k i p q =
    let a : get_elem? verbs i ≡ some m = (method_index_lem m i).0 p in
    let b : get_elem? verbs i ≡ some k = (method_index_lem k i).0 q in cc

module _ {ℓ} {E : Type ℓ} where
  pub tree_for-put_tree_self :
      (ts : Trees E) (m : Bytes) (t : Tree E) → tree_for (put_tree ts m t) m ≡ t
  unfolding tree_for put_tree
  tree_for-put_tree_self ts m t = elim (Option-cases (method_index m)) [
    | inl rare ↦ rw (rare, bytes_eq_self m) refl
    | inr (i, verb) ↦ rw (verb, ==_self i) refl
  ]

  pub tree_for-put_tree_other :
      (ts : Trees E) (m k : Bytes) (t : Tree E)
      → m ≢ k
      → tree_for (put_tree ts m t) k ≡ tree_for ts k
  unfolding tree_for put_tree
  tree_for-put_tree_other ts m k t differs = elim (Option-cases (method_index m)) [
    | inl rare ↦ elim (Option-cases (method_index k)) [
      | inl rare' ↦ elim (Bool-cases (bytes_eq k m)) [
        | inl same ↦ absurd (differs (sym ((bytes_eq_iff k m).0 same)))
        | inr other ↦ rw (rare, rare', other) refl
      ]
      | inr (j, verb') ↦ rw (rare, verb') refl
    ]
    | inr (i, verb) ↦ elim (Option-cases (method_index k)) [
      | inl rare' ↦ rw (verb, rare') refl
      | inr (j, verb') ↦ elim (Bool-cases (j == i)) [
        | inl same ↦ absurd (differs (same_verb m k i verb (verb' ∙ ap some ((==_iff j i).0 same))))
        | inr other ↦ rw (verb, verb', other) refl
      ]
    ]
  ]

  lookup_rare-or_empty :
      (o : Option (Tree E)) (path : Bytes) (ps : Params)
      → lookup_rare o path ps ≡ lookup (or_empty o) path ps
  unfolding lookup
  lookup_rare-or_empty none path ps = refl
  lookup_rare-or_empty (some t) path ps = refl

  pub lookup_entry-tree_for :
      (ts : Trees E) (m path : Bytes) (ps : Params)
      → lookup_entry ts m path ps ≡ lookup (tree_for ts m) path ps
  unfolding lookup_entry tree_for
  lookup_entry-tree_for ts m path ps = elim (Option-cases (method_index m)) [
    | inl rare ↦ rw rare (lookup_rare-or_empty (ts.rare m) path ps)
    | inr (i, verb) ↦ rw verb refl
  ]
