-- ===== src/Router/RouteTree/Shape.antt =====
-- internal/router/router.go: `Insert` into a tree whose handlers are replaced.
use rice_http.Prelude.{Bytes, Option, none, some, List, ◌≡◌, refl, ◌∙◌, ap}
use rice_http.Router.Pattern.{Segment, Result, ok, err, parse_pattern}
use rice_http.Router.Tree.{Node, Child, null, ptr, InsertError}
use rice_http.Router.Insert.{insert_segments}
use rice_http.Router.Insert.Relabel.{relabel, relabel_child, relabel_nodes, insert_segments-relabel}
use rice_http.Router.RouteTree.{Tree, root_node, insert, insert_at, insert_parsed, empty_tree}

module _ {ℓ κ} {A : Type ℓ} {B : Type κ} (f : A → B) where
  pub relabel_tree : Tree A → Tree B
  relabel_tree t = record { root = relabel_child f t.root; n = t.n; max_params = t.max_params }

  pub relabel_tree-empty : relabel_tree empty_tree ≡ empty_tree
  unfolding relabel_tree relabel_child
  relabel_tree-empty = refl

  root_node-relabel : (c : Child A) → root_node (relabel_child f c) ≡ relabel f (root_node c)
  unfolding relabel relabel_child relabel_nodes
  root_node-relabel null = refl
  root_node-relabel (ptr n) = refl

  insert_at-relabel :
      (segs : List Segment) (t : Tree A) (r : Node A × Option InsertError)
      → insert_at segs (relabel_tree t) (relabel f r.0, r.1)
        ≡ (relabel_tree (insert_at segs t r).0, (insert_at segs t r).1)
  unfolding relabel_tree relabel_child
  insert_at-relabel segs t (r, none) = refl
  insert_at-relabel segs t (r, some e) = refl

  insert_parsed-relabel :
      (h : A) (t : Tree A) (parsed : Result (List Segment))
      → insert_parsed (f h) (relabel_tree t) parsed
        ≡ (relabel_tree (insert_parsed h t parsed).0, (insert_parsed h t parsed).1)
  unfolding relabel_tree relabel_child
  insert_parsed-relabel h t (err e) = refl
  insert_parsed-relabel h t (ok segs) =
      ap (insert_at segs (relabel_tree t)) (root t.root)
      ∙ insert_at-relabel segs t (insert_segments segs h (root_node t.root))
    where
      root :
          (c : Child A)
          → insert_segments segs (f h) (root_node (relabel_child f c)) ≡ (
            relabel f (insert_segments segs h (root_node c)).0,
            (insert_segments segs h (root_node c)).1,
          )
      root c = rw (root_node-relabel c) (insert_segments-relabel f segs h (root_node c))

  pub insert-relabel :
      (u : Bytes → Option Bytes) (p : Bytes) (h : A) (t : Tree A)
      → insert u p (f h) (relabel_tree t) ≡ (relabel_tree (insert u p h t).0, (insert u p h t).1)
  unfolding insert
  insert-relabel u p h t = insert_parsed-relabel h t (parse_pattern u p)
