-- ===== src/Router/RouteTree/Contract.antt =====
-- internal/router/router.go: the contract of `Tree[H]`, by the table that it stands for.
use mathlib.Core.Option
use rice_http.Prelude.{ℕ, ◌+◌, Bytes, Option, none, some, List, [], ◌∷◌, ◌≡◌, ◌≢◌, refl, sym, ◌∙◌}
use rice_http.Router.Params.{Params}
use rice_http.Router.Pattern.{Segment, PatternError, ok, err, parse_pattern}
use rice_http.Router.Tree.{Node, Child, null, ptr, InsertError}
use rice_http.Router.Table.{Symbol, symbols, entry}
use rice_http.Router.Tree.Outcome.{Outcome, miss}
use rice_http.Router.Tree.Priority.{lookup_node-Outcome}
use rice_http.Router.Insert.Focus.{entry-fresh}
use rice_http.Router.Insert.Entries.{Inserted, insert_segments-Inserted}
use rice_http.Router.RouteTree.{
  Tree, empty_tree, RouteError, malformed, rejected, root_node, insert, insert_at, lookup,
  count_params, max,
}

module _ {ℓ} {H : Type ℓ} where
  -- The handler registered for each pattern.
  pub table : Tree H → List Symbol → Option H
  table t = entry (root_node t.root)

  pub table-entry : (t : Tree H) → table t ≡ entry (root_node t.root)
  unfolding table
  table-entry t = refl

  pub table-empty : (q : List Symbol) → table empty_tree q ≡ none
  unfolding table
  table-empty q = entry-fresh [] [] q

  -- `Lookup` of a path: a hit is the handler of a registered pattern that matches the path, the one
  -- that precedes every other matching pattern (at the first difference static before parameter
  -- before wildcard), with its captures appended to the parameters; a miss means that no registered
  -- pattern matches, and leaves the parameters as they were. The path is not empty.
  pub lookup-Outcome :
      (t : Tree H) (b : ℕ) (path : Bytes) (ps : Params)
      → Outcome (table t) (b ∷ path) ps (lookup t (b ∷ path) ps)
  unfolding table lookup
  lookup-Outcome t b path ps = go t.root
    where
      go :
          (c : Child H)
          → Outcome
              (entry (root_node c))
              (b ∷ path)
              ps
              (lookup (record t { root = c }) (b ∷ path) ps)
      go null = miss ps (λ q g ds e m. none_some (sym (entry-fresh [] [] q) ∙ e)) refl
        where
          none_some : {g : H} → none ≡ some g → ⊥
          none_some h = cc
      go (ptr n) = lookup_node-Outcome n b path ps

  -- What `Insert` of a well-formed pattern did, with the error that it returned.
  pub record DidInsert (t t' : Tree H) (s : List Symbol) (params : ℕ) (h : H)
      (e : Option RouteError) : Type ℓ where
    pub cause : Option InsertError
    pub error : e ≡ Option.map rejected cause
    pub change : Inserted (table t) (table t') s h cause
    pub added_one : e ≡ none → (t'.n ≡ t.n + 1) × (t'.max_params ≡ max t.max_params params)
    pub refused : e ≢ none → (t'.n ≡ t.n) × (t'.max_params ≡ t.max_params)

  -- `Insert` of a pattern that parses: without an error the pattern was free, it has the handler now,
  -- every other pattern is as before, the count of routes grows by one and the largest count of
  -- parameters takes this pattern's into account. With an error the pattern was taken, or
  -- it was free and the error has another name than one of the pattern's; then all patterns and both
  -- counts are as before.
  pub insert-DidInsert :
      (u : Bytes → Option Bytes) (p : Bytes) (h : H) (t : Tree H) (segs : List Segment)
      → parse_pattern u p ≡ ok segs
      → DidInsert t (insert u p h t).0 (symbols segs) (count_params segs) h (insert u p h t).1
  unfolding insert table
  insert-DidInsert u p h t segs parsed =
      rw parsed (go _ (insert_segments-Inserted segs h (root_node t.root)))
    where
      go :
          (r : Node H × Option InsertError)
          → Inserted (entry (root_node t.root)) (entry r.0) (symbols segs) h r.1
          → DidInsert t
              (insert_at segs t r).0
              (symbols segs)
              (count_params segs)
              h
              (insert_at segs t r).1
      go (r, none) c = record {
        cause = none;
        error = refl;
        change = c;
        added_one = λ _. (refl, refl);
        refused = λ ne. absurd (ne refl);
      }
      go (r, some e) c = record {
        cause = some e;
        error = refl;
        change = c;
        added_one = λ e. cc;
        refused = λ ne. (refl, refl);
      }

  -- A malformed pattern changes nothing.
  pub insert_malformed :
      (u : Bytes → Option Bytes) (p : Bytes) (h : H) (t : Tree H) (e : PatternError)
      → parse_pattern u p ≡ err e
      → insert u p h t ≡ (t, some (malformed e))
  unfolding insert
  insert_malformed u p h t e parsed = rw parsed
