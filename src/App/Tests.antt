-- ===== src/App/Tests.antt =====
-- An App set up, built and asked, and the instances of its theorems. A handler is the trace that it
-- leaves, and a middleware adds its mark in front.
use rice_http.Prelude.{Bytes, codes, Option, none, some, [], ◌∷◌, ◌++◌, ◌≡◌, ◌↔◌, refl, get_elem?}
use rice_http.Router.Params.{make_params}
use rice_http.Router.Tests.{router}
use rice_http.Chain.{compile}
use rice_http.Chain.Order.{compile_outermost}
use rice_http.App.Method.{method_index}
use rice_http.App.Method.Exact.{verbs, method_index_lem}
use rice_http.App.Trees.{tree_for, put_tree, insert_route, lookup_entry}
use rice_http.App.Model.{App, Result, ok, panic, check_from, Group, Route}
use rice_http.App.Register.{
  register, handle, use_middleware, group, sub_group, group_use, group_handle, has_lowercase_byte,
  ends_in_slash, check_group_prefix, check_group_path, set_group,
}
use rice_http.App.Build.{
  ancestors, group_chain, all_mws, middleware_for, insert_all, build, build_app, dispatch,
}
use rice_http.App.Setup.{new_app, Reached, start, next, handled, used, grouped, handled_in}
use rice_http.App.Setup.Grouping.{middleware_nests}
use rice_http.App.Setup.Serving.{build_total, Answer, dispatch-Answer}

app : Unit {0}
unfolding router compile method_index tree_for put_tree insert_route lookup_entry check_from
    register use_middleware group sub_group group_use group_handle has_lowercase_byte ends_in_slash
    check_group_prefix check_group_path set_group ancestors group_chain all_mws middleware_for
    insert_all build build_app dispatch
app = tt

abbrev mark : Bytes → Bytes → Bytes
mark name h = name ++ h

abbrev unescape : Bytes → Option Bytes
unescape s = none

abbrev after {ℓ} : {A : Type ℓ} → A → Result A → A
after d (ok a) = a
after d (panic e) = d

abbrev a0 : App Bytes
a0 = new_app (codes "404")

abbrev a1 : App Bytes
unfolding app
a1 = (after (a0, 7) (group (codes "/api") (some (mark (codes "G")) ∷ []) a0)).0

abbrev a2 : App Bytes
unfolding app
a2 = after a0 (
    group_handle unescape (codes "GET") (codes "/users/:id") (some (codes "h")) 0
      (some (mark (codes "R")) ∷ []) a1)

abbrev a3 : App Bytes
unfolding app
a3 = after a0 (handle unescape (codes "PURGE") (codes "/") (some (codes "p")) [] a2)

abbrev a4 : App Bytes
unfolding app
a4 = after a0 (use_middleware (some (mark (codes "A")) ∷ []) a3)

abbrev built : App Bytes
unfolding app
built = after a0 (build unescape (codes "404") a4)

a4-Reached : Reached unescape (codes "404") a4
unfolding app
a4-Reached =
    next
      (next
        (next (next start (grouped (codes "/api") (some (mark (codes "G")) ∷ []) 0 refl)) (
          handled_in (codes "GET") (codes "/users/:id") (some (codes "h")) 0
            (some (mark (codes "R")) ∷ []) refl))
        (handled (codes "PURGE") (codes "/") (some (codes "p")) [] refl))
      (used (some (mark (codes "A")) ∷ []) refl)

built_lem : build unescape (codes "404") a4 ≡ ok built
unfolding app
built_lem = refl

-- The middleware of the App, of the group and of the route, in this order; the App's also at a miss.
served :
    ((dispatch built (codes "GET") (codes "/api/users/5") (make_params 1)).0
      ≡ (codes "AGRh", codes "/api/users/:id"))
    × ((dispatch built (codes "PURGE") (codes "/") (make_params 1)).0 ≡ (codes "Ap", codes "/"))
    × ((dispatch built (codes "POST") (codes "/") (make_params 1)).0 ≡ (codes "A404", []))
unfolding app
served = (refl, refl, refl)

build_total_example : (b : App Bytes) × (build unescape (codes "404") a4 ≡ ok b)
build_total_example = build_total unescape (codes "404") a4 a4-Reached

dispatch-Answer_example :
    Answer unescape a4
      (codes "404")
      (codes "GET")
      (codes "/api/users/5")
      (make_params 1)
      (dispatch built (codes "GET") (codes "/api/users/5") (make_params 1))
dispatch-Answer_example =
    dispatch-Answer unescape (codes "404") a4 built (codes "GET") b'/' (codes "api/users/5")
      (make_params 1) a4-Reached built_lem

method_index_lem_example :
    (method_index (codes "PATCH") ≡ some 3) ↔ (get_elem? verbs 3 ≡ some (codes "PATCH"))
method_index_lem_example = method_index_lem (codes "PATCH") 3

compile_outermost_example :
    (compile (codes "h") [] ≡ codes "h")
    × (compile (codes "h") (mark (codes "A") ∷ mark (codes "B") ∷ [])
        ≡ mark (codes "A") (compile (codes "h") (mark (codes "B") ∷ [])))
compile_outermost_example = compile_outermost (codes "h") (mark (codes "A")) (mark (codes "B") ∷ [])

abbrev api_group : Group Bytes
api_group = record { parent = none; prefix = codes "/api"; mws = mark (codes "G") ∷ [] }

abbrev api_route : Route Bytes
api_route = record {
  method = codes "GET";
  path = codes "/api/users/:id";
  h = codes "h";
  group = some 0;
  mws = mark (codes "R") ∷ [];
}

api_group_lem : get_elem? a4.groups 0 ≡ some api_group
unfolding app
api_group_lem = refl

middleware_nests_example :
    (middleware_for a4 (record api_route { group = some 0 })
      ≡ middleware_for a4
          (record api_route { group = api_group.parent; mws = api_group.mws ++ api_route.mws }))
    × (middleware_for a4 (record api_route { group = none }) ≡ a4.mws ++ api_route.mws)
middleware_nests_example =
    middleware_nests unescape (codes "404") a4 api_route 0 api_group a4-Reached api_group_lem
