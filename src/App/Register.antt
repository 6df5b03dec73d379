-- ===== src/App/Register.antt =====
-- route.go, group.go: registration. What would panic returns the panic.
pub mod Recorded
use rice_http.Prelude.{
  ℕ, zero, suc, ◌+◌, Bytes, codes, Bool, true, false, ◌&&◌, ◌||◌, Option, none, some, List, [], ◌∷◌,
  ◌++◌, ◌==◌, leb, bytes_eq, if◌then◌else◌, length, get_elem?,
}
use rice_http.Router.RouteTree.{RouteError, max}
use rice_http.App.Trees.{Trees, insert_route, tree_for}
use rice_http.App.Model.{
  Group, Route, Entry, App, Panic, after_build, empty_method, lowercase_method, nil_handler,
  bad_route, prefix_without_slash, prefix_ends_in_slash, empty_group_path, path_without_slash,
  nil_group, Result, ok, panic, ◌>>=◌, ◌>>◌, refuse, check_middleware,
}

unfoldable pub has_lowercase_byte : Bytes → Bool
has_lowercase_byte [] = false
has_lowercase_byte (c ∷ s) = leb b'a' c && leb c b'z' || has_lowercase_byte s

abbrev pub starts_with_slash : Bytes → Bool
starts_with_slash [] = false
starts_with_slash (c ∷ s) = c == b'/'

unfoldable pub ends_in_slash : Bytes → Bool
ends_in_slash [] = false
ends_in_slash (c ∷ []) = c == b'/'
ends_in_slash (c ∷ d ∷ s) = ends_in_slash (d ∷ s)

unfoldable pub check_group_prefix : Bytes → Result (Unit {0})
check_group_prefix [] = ok tt
check_group_prefix (c ∷ s) =
    if c == b'/'
    then if ends_in_slash (c ∷ s) then panic prefix_ends_in_slash else ok tt
    else panic prefix_without_slash

unfoldable pub check_group_path : Bytes → Bytes → Result (Unit {0})
check_group_path [] [] = panic empty_group_path
check_group_path (c ∷ prefix) [] = ok tt
check_group_path prefix (c ∷ path) = if c == b'/' then ok tt else panic path_without_slash

module _ {ℓ} {H : Type ℓ} where
  abbrev pub require : Option H → Result H
  require none = panic nil_handler
  require (some h) = ok h

  abbrev pub with_route : App H → Route H → Trees (Entry H) → App H
  with_route a r ts = record a {
    trees = ts;
    routes = a.routes ++ r ∷ [];
    max_params = max a.max_params ((tree_for ts r.method).max_params);
  }

  -- The route is recorded if the tree took its pattern.
  abbrev pub record_route : App H → Route H → Trees (Entry H) × Option RouteError → Result (App H)
  record_route a r (ts, some e) = panic (bad_route e)
  record_route a r (ts, none) = ok (with_route a r ts)

  abbrev pub raw : Route H → Entry H
  raw r = record { h = r.h; pattern = r.path }

  abbrev pub add_route : (Bytes → Option Bytes) → Route H → App H → Result (App H)
  add_route u r a = record_route a r (insert_route u r.method r.path (raw r) a.trees)

  unfoldable pub register :
      (Bytes → Option Bytes)
      → Bytes
      → Bytes
      → Option H
      → Option ℕ
      → List (Option (H → H))
      → App H
      → Result (App H)
  register u method path h g mw a = do
    mws ← check_middleware mw
    refuse a.built after_build
    refuse (bytes_eq method []) empty_method
    refuse (has_lowercase_byte method) lowercase_method
    handler ← require h
    add_route u (record { method = method; path = path; h = handler; group = g; mws = mws }) a

  -- `App.Handle`, and with a verb's name the seven shorthands.
  abbrev pub handle :
      (Bytes → Option Bytes)
      → Bytes
      → Bytes
      → Option H
      → List (Option (H → H))
      → App H
      → Result (App H)
  handle u method path h mw a = register u method path h none mw a

  unfoldable pub use_middleware : List (Option (H → H)) → App H → Result (App H)
  use_middleware mw a = do
    mws ← check_middleware mw
    refuse a.built after_build
    ok (record a { mws = a.mws ++ mws })

  abbrev pub find_group : ℕ → App H → Result (Group H)
  find_group g a = elim (get_elem? a.groups g) [ none ↦ panic nil_group | some x ↦ ok x ]

  abbrev pub add_group : Group H → App H → App H × ℕ
  add_group x a = (record a { groups = a.groups ++ x ∷ [] }, length a.groups)

  -- `App.Group`
  unfoldable pub group : Bytes → List (Option (H → H)) → App H → Result (App H × ℕ)
  group prefix mw a = do
    check_group_prefix prefix
    mws ← check_middleware mw
    refuse a.built after_build
    ok (add_group (record { parent = none; prefix = prefix; mws = mws }) a)

  -- `Group.Group`
  unfoldable pub sub_group : ℕ → Bytes → List (Option (H → H)) → App H → Result (App H × ℕ)
  sub_group g prefix mw a = do
    check_group_prefix prefix
    mws ← check_middleware mw
    outer ← find_group g a
    refuse a.built after_build
    ok (add_group (record { parent = some g; prefix = outer.prefix ++ prefix; mws = mws }) a)

  unfoldable pub set_group : ℕ → Group H → List (Group H) → List (Group H)
  set_group g x [] = []
  set_group zero x (y ∷ ys) = x ∷ ys
  set_group (suc g) x (y ∷ ys) = y ∷ set_group g x ys

  -- `Group.Use`
  unfoldable pub group_use : ℕ → List (Option (H → H)) → App H → Result (App H)
  group_use g mw a = do
    mws ← check_middleware mw
    x ← find_group g a
    refuse a.built after_build
    ok (record a { groups = set_group g (record x { mws = x.mws ++ mws }) a.groups })

  -- `Group.Handle`, and with a verb's name the seven shorthands.
  unfoldable pub group_handle :
      (Bytes → Option Bytes)
      → Bytes
      → Bytes
      → Option H
      → ℕ
      → List (Option (H → H))
      → App H
      → Result (App H)
  group_handle u method path h g mw a = do
    x ← find_group g a
    check_group_path x.prefix path
    register u method (x.prefix ++ path) h (some g) mw a
