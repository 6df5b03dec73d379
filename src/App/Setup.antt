-- ===== src/App/Setup.antt =====
-- app.go, group.go, route.go: an App as any sequence of successful setup calls leaves it.
pub mod Serving
pub mod Grouping
use rice_http.Prelude.{
  ℕ, Bytes, Bool, Option, none, some, List, [], ◌∷◌, ◌++◌, ◌≡◌, false, refl, ◌∙◌, ap, bytes_eq,
  Bool-cases,
}
use rice_http.App.Trees.{no_trees}
use rice_http.App.Model.{
  App, Group, Result, ok, panic, went_on, went_past, ok_injective, refuse, check_middleware, ◌>>=◌,
  ◌>>◌,
}
use rice_http.App.Build.{insert_all}
use rice_http.App.Register.{
  handle, use_middleware, group, sub_group, group_use, group_handle, find_group, register,
  check_group_path, check_group_prefix, add_group, set_group,
}
use rice_http.App.Register.Recorded.{IsRecorded, IsAdded, register-IsAdded, IsAdded-IsRecorded}

-- `New`, as far as routing reads it.
abbrev pub new_app {ℓ} : {H : Type ℓ} → H → App H
new_app not_found = record {
  trees = no_trees;
  mws = [];
  routes = [];
  groups = [];
  once = false;
  built = false;
  miss = not_found;
  max_params = 0;
}

module _ {ℓ} {H : Type ℓ} (u : Bytes → Option Bytes) where
  -- One successful call of the setup.
  pub data Step (a : App H) : App H → Type ℓ where
    handled :
        (method path : Bytes) (h : Option H) (mw : List (Option (H → H))) {b : App H}
        → handle u method path h mw a ≡ ok b
        → Step a b
    used : (mw : List (Option (H → H))) {b : App H} → use_middleware mw a ≡ ok b → Step a b
    grouped :
        (prefix : Bytes) (mw : List (Option (H → H))) {b : App H} (g : ℕ)
        → group prefix mw a ≡ ok (b, g)
        → Step a b
    nested :
        (outer : ℕ) (prefix : Bytes) (mw : List (Option (H → H))) {b : App H} (g : ℕ)
        → sub_group outer prefix mw a ≡ ok (b, g)
        → Step a b
    used_in : (g : ℕ) (mw : List (Option (H → H))) {b : App H} → group_use g mw a ≡ ok b → Step a b
    handled_in :
        (method path : Bytes) (h : Option H) (g : ℕ) (mw : List (Option (H → H))) {b : App H}
        → group_handle u method path h g mw a ≡ ok b
        → Step a b

  pub data Reached (not_found : H) : App H → Type ℓ where
    start : Reached not_found (new_app not_found)
    next : {a b : App H} → Reached not_found a → Step a b → Reached not_found b

  -- What the setup keeps: the trees agree with the routes, and Build has not run.
  pub record IsReady (a : App H) : Type ℓ where
    pub recorded : IsRecorded u a
    pub fresh : (a.once ≡ false) × (a.built ≡ false)

  -- A call that leaves the trees and the routes alone.
  abbrev Keeps : App H → App H → Type ℓ
  Keeps a b = (b.trees ≡ a.trees) × (b.routes ≡ a.routes) × (b.once ≡ a.once) × (b.built ≡ a.built)

  Keeps-IsReady : (a b : App H) → Keeps a b → IsReady a → IsReady b
  Keeps-IsReady a b (t, r, o, d) ready = record {
    recorded = rw (t, r) (ready.recorded);
    fresh = (o ∙ ready.fresh.0, d ∙ ready.fresh.1);
  }

  use_middleware-Keeps :
      (mw : List (Option (H → H))) (a b : App H) → use_middleware mw a ≡ ok b → Keeps a b
  unfolding use_middleware
  use_middleware-Keeps mw a b done =
      let (mws, s1, c) = went_on (check_middleware mw) done in
      let (s2, f) = went_past a.built _ s1 in rw (← ok_injective s2) (refl, refl, refl, refl)

  group-Keeps :
      (prefix : Bytes) (mw : List (Option (H → H))) (a b : App H) (g : ℕ)
      → group prefix mw a ≡ ok (b, g)
      → Keeps a b
  unfolding group
  group-Keeps prefix mw a b g done =
      let (t, s0, p) = went_on (check_group_prefix prefix) done in
      let (mws, s1, c) = went_on (check_middleware mw) s0 in
      let (s2, f) = went_past a.built _ s1 in
      rw (← ap (λ r. r.0) (ok_injective s2)) (refl, refl, refl, refl)

  sub_group-Keeps :
      (outer : ℕ) (prefix : Bytes) (mw : List (Option (H → H))) (a b : App H) (g : ℕ)
      → sub_group outer prefix mw a ≡ ok (b, g)
      → Keeps a b
  unfolding sub_group
  sub_group-Keeps outer prefix mw a b g done =
      let (t, s0, p) = went_on (check_group_prefix prefix) done in
      let (mws, s1, c) = went_on (check_middleware mw) s0 in
      let (x, s2, found) = went_on (find_group outer a) s1 in
      let (s3, f) = went_past a.built _ s2 in
      rw (← ap (λ r. r.0) (ok_injective s3)) (refl, refl, refl, refl)

  group_use-Keeps :
      (g : ℕ) (mw : List (Option (H → H))) (a b : App H) → group_use g mw a ≡ ok b → Keeps a b
  unfolding group_use
  group_use-Keeps g mw a b done =
      let (mws, s1, c) = went_on (check_middleware mw) done in
      let (x, s2, found) = went_on (find_group g a) s1 in
      let (s3, f) = went_past a.built _ s2 in rw (← ok_injective s3) (refl, refl, refl, refl)

  register-IsReady :
      (method path : Bytes) (h : Option H) (g : Option ℕ) (mw : List (Option (H → H))) (a b : App H)
      → register u method path h g mw a ≡ ok b
      → IsReady a
      → IsReady b
  register-IsReady method path h g mw a b done ready =
      let (mws, f, c, e, added) = register-IsAdded u method path h g mw a b done in
      let (k1, k2, k3, k4) = added.kept in
      record {
        recorded = IsAdded-IsRecorded u _ a b added ready.recorded;
        fresh = (k3 ∙ ready.fresh.0, k4 ∙ ready.fresh.1);
      }

  group_handle-IsReady :
      (method path : Bytes) (h : Option H) (g : ℕ) (mw : List (Option (H → H))) (a b : App H)
      → group_handle u method path h g mw a ≡ ok b
      → IsReady a
      → IsReady b
  unfolding group_handle
  group_handle-IsReady method path h g mw a b done =
      let (x, s1, found) = went_on (find_group g a) done in
      let (t, s2, p) = went_on (check_group_path x.prefix path) s1 in
      register-IsReady method _ h (some g) mw a b s2

  Step-IsReady : {a b : App H} → Step a b → IsReady a → IsReady b
  Step-IsReady {a} {b} (handled method path h mw e) = register-IsReady method path h none mw a b e
  Step-IsReady {a} {b} (used mw e) = Keeps-IsReady a b (use_middleware-Keeps mw a b e)
  Step-IsReady {a} {b} (grouped prefix mw g e) = Keeps-IsReady a b (group-Keeps prefix mw a b g e)
  Step-IsReady {a} {b} (nested outer prefix mw g e) =
      Keeps-IsReady a b (sub_group-Keeps outer prefix mw a b g e)
  Step-IsReady {a} {b} (used_in g mw e) = Keeps-IsReady a b (group_use-Keeps g mw a b e)
  Step-IsReady {a} {b} (handled_in method path h g mw e) =
      group_handle-IsReady method path h g mw a b e

  pub Reached-IsReady : {not_found : H} {a : App H} → Reached not_found a → IsReady a
  unfolding insert_all
  Reached-IsReady start = record { recorded = refl; fresh = (refl, refl) }
  Reached-IsReady (next r step) = Step-IsReady step (Reached-IsReady r)
