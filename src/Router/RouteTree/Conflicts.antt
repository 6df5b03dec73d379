-- ===== src/Router/RouteTree/Conflicts.antt =====
-- internal/router/router.go: `Insert` into a tree without dead branches, and the conflicts that it
-- reports.
use mathlib.Core.Path.{subst}
use rice_http.Prelude.{sym, Bytes, Option, none, some, List, ◌≡◌, refl}
use rice_http.Router.Pattern.{Segment, Result, ok, err, parse_pattern}
use rice_http.Router.Tree.{Node, InsertError}
use rice_http.Router.Table.{Symbol, symbols, entry}
use rice_http.Router.Insert.{insert_segments}
use rice_http.Router.Insert.Full.{IsFull}
use rice_http.Router.Insert.Clashes.{Clashes, insert_segments-Clashes}
use rice_http.Router.Insert.Filling.{insert_segments-IsFull}
use rice_http.Router.RouteTree.{
  Tree, empty_tree, RouteError, malformed, rejected, root_node, insert, insert_at, count_params,
}
use rice_http.Router.RouteTree.Contract.{
  table, table-entry, DidInsert, insert-DidInsert, insert_malformed,
}

module _ {ℓ} {H : Type ℓ} where
  -- A route stands in or below every node but the root.
  abbrev pub HasNoDeadBranch : Tree H → Type ℓ
  HasNoDeadBranch t = IsFull (root_node t.root)

  -- The registered pattern that a returned conflict is about.
  abbrev pub Conflicts : Tree H → List Symbol → Option RouteError → Type ℓ
  Conflicts t s none = Unit
  Conflicts t s (some (malformed e)) = Unit
  Conflicts t s (some (rejected e)) = Clashes (table t) s (some e)

  -- `Insert` of a pattern that parses, into a tree without dead branches, as the empty tree is one.
  -- Without an error the pattern was free, it has the handler now, every other pattern is as before,
  -- the count of routes grows by one and the largest count of parameters takes this pattern's into
  -- account. With an error the pattern was taken, or some registered pattern is the same up to a
  -- position where it has a parameter, or wildcard, of the returned other name in place of this
  -- pattern's; then all patterns and both counts are as before. Either way the tree has no dead branch.
  pub insert_lem :
      (u : Bytes → Option Bytes) (p : Bytes) (h : H) (t : Tree H) (segs : List Segment)
      → HasNoDeadBranch t
      → parse_pattern u p ≡ ok segs
      → DidInsert t (insert u p h t).0 (symbols segs) (count_params segs) h (insert u p h t).1
        × Conflicts t (symbols segs) (insert u p h t).1
        × HasNoDeadBranch (insert u p h t).0
  insert_lem u p h t segs full parsed = (
    insert-DidInsert u p h t segs parsed,
    unfold insert in
        rw parsed (
          clashing (insert_segments segs h (root_node t.root))
            (insert_segments-Clashes segs h (root_node t.root) full)),
    unfold insert in
        rw parsed (
          filled (insert_segments segs h (root_node t.root))
            (insert_segments-IsFull segs h (root_node t.root) full)),
  )
    where
      clashing :
          (r : Node H × Option InsertError)
          → Clashes (entry (root_node t.root)) (symbols segs) r.1
          → Conflicts t (symbols segs) (insert_at segs t r).1
      clashing (n, none) c = tt
      clashing (n, some e) c =
          subst (λ f. Clashes f (symbols segs) (some e)) (sym (table-entry t)) c

      filled :
          (r : Node H × Option InsertError) → IsFull r.0 → HasNoDeadBranch (insert_at segs t r).0
      filled (n, none) f = f
      filled (n, some e) f = f

  pub insert-HasNoDeadBranch :
      (u : Bytes → Option Bytes) (p : Bytes) (h : H) (t : Tree H)
      → HasNoDeadBranch t
      → HasNoDeadBranch (insert u p h t).0
  insert-HasNoDeadBranch u p h t full = by (parse_pattern u p) refl
    where
      by : (r : Result (List Segment)) → parse_pattern u p ≡ r → HasNoDeadBranch (insert u p h t).0
      by (ok segs) parsed = (insert_lem u p h t segs full parsed).2
      by (err e) parsed = rw (insert_malformed u p h t e parsed) full

pub HasNoDeadBranch-empty {ℓ} : (H : Type ℓ) → HasNoDeadBranch (empty_tree {H = H})
unfolding IsFull
HasNoDeadBranch-empty H = (tt, tt, tt)
