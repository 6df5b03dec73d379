-- ===== src/App/Setup/Serving.antt =====
-- build.go, app.go: what an App that was set up serves, once it is built.
use rice_http.Prelude.{
  ℕ, Bytes, Option, none, some, List, [], ◌∷◌, ◌++◌, ◌≡◌, inl, inr, refl, sym, ◌∙◌, Option-cases,
  true,
}
use rice_http.Router.Params.{Param, Params}
use rice_http.Router.RouteTree.Contract.{table, table-empty, lookup-Outcome}
use rice_http.Router.RouteTree.{lookup}
use rice_http.App.Method.{method_index}
use rice_http.Router.Table.{Symbol, Matches, Precedes}
use rice_http.Router.Tree.Outcome.{Outcome, hit, miss}
use rice_http.Chain.{compile}
use rice_http.App.Trees.{Trees, no_trees, tree_for}
use rice_http.App.Trees.Slots.{lookup_entry-tree_for}
use rice_http.App.Model.{App, Route, Entry, ok, ok_injective}
use rice_http.App.Register.{raw}
use rice_http.App.Build.{insert_all, build, build_app, compiled, middleware_for, dispatch, choose}
use rice_http.App.Build.Replay.{insert_all_again}
use rice_http.App.Build.Tables.{Spells, SomeServes, Among, server, serves, insert_all-table}
use rice_http.App.Setup.{Reached, Reached-IsReady}

module _ {ℓ} {H : Type ℓ} (u : Bytes → Option Bytes) where
  abbrev built_app : H → App H → Trees (Entry H) → App H
  built_app not_found a ts = record a {
    trees = ts;
    miss = compile not_found a.mws;
    built = true;
    once = true;
  }

  built_lem :
      (not_found : H) (a : App H)
      → Reached u not_found a
      → (ts : Trees (Entry H)) × (insert_all u (compiled a) a.routes no_trees ≡ ok ts)
        × (build u not_found a ≡ ok (built_app not_found a ts))
  unfolding build build_app middleware_for
  built_lem not_found a reached =
      let ready = Reached-IsReady u reached in
      let (ts, done, alike) =
        insert_all_again u raw (compiled a) a.routes no_trees no_trees a.trees (λ m. refl)
          ready.recorded in
      (ts, done, rw (ready.fresh.0, done) refl)

  -- After any sequence of successful setup calls Build succeeds: the panic on a route that the second
  -- insertion refuses is not reached.
  pub build_total :
      (not_found : H) (a : App H)
      → Reached u not_found a
      → (b : App H) × (build u not_found a ≡ ok b)
  build_total not_found a reached =
      let (ts, done, e) = built_lem not_found a reached in (built_app not_found a ts, e)

  -- The answer of an App with these routes to a request.
  module _ (a : App H) (not_found : H) (m path : Bytes) (ps : Params) where
    -- A route of the method whose pattern is `s` and matches the path.
    pub record IsCandidate (r : Route H) (s : List Symbol) (cs : List Param) : Type ℓ where
      pub among : Among r a.routes
      pub method : r.method ≡ m
      pub spells : Spells u r.path s
      pub matches : Matches s path cs

    pub data Answer : (H × Bytes) × Params → Type ℓ where
      routed :
          (r : Route H) (s : List Symbol) (cs : List Param) (ps' : Params)
          → IsCandidate r s cs
          → ((q : Route H) (t : List Symbol) (ds : List Param) → IsCandidate q t ds → Precedes s t)
          → ps'.slots ≡ ps.slots ++ cs
          → Answer ((compile r.h (middleware_for a r), r.path), ps')
      unrouted :
          (ps' : Params)
          → ((q : Route H) (t : List Symbol) (ds : List Param) → IsCandidate q t ds → ⊥)
          → ps'.slots ≡ ps.slots
          → Answer ((compile not_found a.mws, []), ps')

    of_Outcome :
        (ts : Trees (Entry H)) (x : Option (Entry H) × Params)
        → ((s : List Symbol) (e : Entry H)
            → table (tree_for ts m) s ≡ some e
            → SomeServes u (compiled a) m s e a.routes)
        → ((s : List Symbol) (e : Entry H)
            → SomeServes u (compiled a) m s e a.routes
            → table (tree_for ts m) s ≡ some e)
        → Outcome (table (tree_for ts m)) path ps x
        → Answer (choose (compile not_found a.mws) x.0, x.1)
    of_Outcome ts x to from (hit s cs e ps' is_s matches best grown) =
        let (r, among, (mm, sp, fe)) = server u (compiled a) (to s e is_s) in
        rw (← fe) (
          routed r s cs ps' (record { among = among; method = mm; spells = sp; matches = matches })
            (λ q t ds c.
              best t (compiled a q) ds (from t _ (serves u (compiled a) c.among c.method c.spells))
                c.matches)
            grown)
    of_Outcome ts x to from (miss ps' off same) =
        unrouted ps'
          (λ q t ds c.
            off t (compiled a q) ds (from t _ (serves u (compiled a) c.among c.method c.spells))
              c.matches)
          same

  no_table :
      (m : Bytes) (s : List Symbol) (e : Entry H) → table (tree_for no_trees m) s ≡ some e → ⊥
  unfolding tree_for
  no_table m s e h = elim (Option-cases (method_index m)) [
    | inl rare ↦ none_some (sym (table-empty s) ∙ rw rare at h)
    | inr (i, verb) ↦ none_some (sym (table-empty s) ∙ rw verb at h)
  ]
    where
      none_some : {x : Entry H} → none ≡ some x → ⊥
      none_some e = cc

  -- A built App answers a request for a path that is not empty with the compiled chain of the route
  -- that has its method and matches the path and whose pattern precedes that of every other such
  -- route, and with the captures; or, when there is no such route, with the application's middleware
  -- around the handler for misses, and no route.
  pub dispatch-Answer :
      (not_found : H) (a b : App H) (m : Bytes) (c : ℕ) (path : Bytes) (ps : Params)
      → Reached u not_found a
      → build u not_found a ≡ ok b
      → Answer a not_found m (c ∷ path) ps (dispatch b m (c ∷ path) ps)
  unfolding dispatch
  dispatch-Answer not_found a b m c path ps reached e =
      let (ts, done, e') = built_lem not_found a reached in
      let same : built_app not_found a ts ≡ b = ok_injective (sym e' ∙ e) in
      let tables = insert_all-table u (compiled a) a.routes no_trees ts done m in
      rw (← same, lookup_entry-tree_for ts m (c ∷ path) ps)
        (of_Outcome a not_found m (c ∷ path) ps ts (lookup (tree_for ts m) (c ∷ path) ps)
          (λ s x h. elim ((tables s x).0 h) [ inl y ↦ y | inr z ↦ absurd (no_table m s x z) ])
          (λ s x h. (tables s x).1 (inl h)) (lookup-Outcome (tree_for ts m) c path ps))
