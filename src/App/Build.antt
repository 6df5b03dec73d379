-- ===== src/App/Build.antt =====
-- build.go, app.go: compiling the routes, and the dispatch of a request over the compiled trees.
pub mod Replay
pub mod Tables
pub mod Nesting
use mathlib.Core.List.{reverse}
use rice_http.Prelude.{
  ℕ, zero, suc, Bytes, Bool, true, false, Option, none, some, List, [], ◌∷◌, ◌++◌, if◌then◌else◌,
  length, get_elem?,
}
use rice_http.Router.Params.{Params}
use rice_http.Router.RouteTree.{RouteError}
use rice_http.Chain.{compile}
use rice_http.App.Trees.{Trees, no_trees, insert_route, lookup_entry}
use rice_http.App.Model.{Group, Route, Entry, App, build_failed, Result, ok, panic, ◌>>=◌}

module _ {ℓ} {H : Type ℓ} where
  abbrev pub climb : Option (Group H) → (Option ℕ → List (Group H)) → List (Group H)
  climb none outer = []
  climb (some x) outer = x ∷ outer x.parent

  -- The loop of `groupChain` from the innermost group outwards. A group is created after its parent,
  -- so the number of groups is fuel enough.
  unfoldable pub ancestors : ℕ → List (Group H) → Option ℕ → List (Group H)
  ancestors fuel groups none = []
  ancestors zero groups (some g) = []
  ancestors (suc fuel) groups (some g) = climb (get_elem? groups g) (ancestors fuel groups)

  unfoldable pub group_chain : List (Group H) → Option ℕ → List (Group H)
  group_chain groups g = reverse (ancestors (length groups) groups g)

  unfoldable pub all_mws : List (Group H) → List (H → H)
  all_mws [] = []
  all_mws (g ∷ gs) = g.mws ++ all_mws gs

  unfoldable pub middleware_for : App H → Route H → List (H → H)
  middleware_for a r = a.mws ++ all_mws (group_chain a.groups r.group) ++ r.mws

  abbrev pub compiled : App H → Route H → Entry H
  compiled a r = record { h = compile r.h (middleware_for a r); pattern = r.path }

  abbrev pub next_route :
      Route H
      → (Trees (Entry H) → Result (Trees (Entry H)))
      → Trees (Entry H) × Option RouteError
      → Result (Trees (Entry H))
  next_route r rest (ts, some e) = panic (build_failed e r.method r.path)
  next_route r rest (ts, none) = rest ts

  -- The loop over the routes, with the entry that each is inserted with.
  unfoldable pub insert_all :
      (Bytes → Option Bytes)
      → (Route H → Entry H)
      → List (Route H)
      → Trees (Entry H)
      → Result (Trees (Entry H))
  insert_all u entry [] ts = ok ts
  insert_all u entry (r ∷ rs) ts =
      next_route r (insert_all u entry rs) (insert_route u r.method r.path (entry r) ts)

  -- `build`, less the file handlers of `Static`.
  unfoldable pub build_app : (Bytes → Option Bytes) → H → App H → Result (App H)
  build_app u not_found a = do
    ts ← insert_all u (compiled a) a.routes no_trees
    ok (record a { trees = ts; miss = compile not_found a.mws; built = true })

  -- `Build`: the first call only.
  unfoldable pub build : (Bytes → Option Bytes) → H → App H → Result (App H)
  build u not_found a = if a.once then ok a else build_app u not_found (record a { once = true })

  abbrev pub choose : H → Option (Entry H) → H × Bytes
  choose miss none = (miss, [])
  choose miss (some e) = (e.h, e.pattern)

  -- What `handle` runs for a request, with the route that it reports and the parameters.
  unfoldable pub dispatch : App H → Bytes → Bytes → Params → (H × Bytes) × Params
  dispatch a method path ps =
      let r = lookup_entry a.trees method path ps in (choose a.miss r.0, r.1)
