-- ===== src/App/Setup/Grouping.antt =====
-- group.go: the store of groups that the setup calls build.
use rice_http.Prelude.{
  ℕ, zero, suc, ◌<◌, Bytes, Option, none, some, List, [], ◌∷◌, ◌++◌, ◌≡◌, ◌⊎◌, inl, inr, refl, sym,
  ◌∙◌, ap, length, get_elem?,
}
use rice_http.App.Model.{
  App, Group, Route, Result, ok, panic, nil_group, went_on, went_past, ok_injective,
  check_middleware,
}
use rice_http.App.Register.{
  use_middleware, group, sub_group, group_use, group_handle, find_group, set_group,
  check_group_path, check_group_prefix, register,
}
use rice_http.App.Register.Recorded.{register-IsAdded}
use rice_http.App.Build.{middleware_for}
use rice_http.App.Build.Nesting.{IsStore, get_elem?-lt, middleware_for_group, middleware_for_app}
use rice_http.App.Setup.{
  Step, Reached, start, next, handled, used, grouped, nested, used_in, handled_in,
}

last_or_old {ℓ} :
    {A : Type ℓ} (xs : List A) (y z : A) (i : ℕ)
    → get_elem? (xs ++ y ∷ []) i ≡ some z
    → (get_elem? xs i ≡ some z) ⊎ ((i ≡ length xs) × (y ≡ z))
last_or_old [] y z zero h = inr (refl, cc)
last_or_old [] y z (suc i) h = cc
last_or_old (x ∷ xs) y z zero h = inl h
last_or_old (x ∷ xs) y z (suc i) h = elim (last_or_old xs y z i h) [
  | inl old ↦ inl old
  | inr (e, same) ↦ inr (ap suc e, same)
]

module _ {ℓ} {H : Type ℓ} where
  append-IsStore :
      (groups : List (Group H)) (y : Group H)
      → IsStore groups
      → ((p : ℕ) → y.parent ≡ some p → p < length groups)
      → IsStore (groups ++ y ∷ [])
  append-IsStore groups y store ok_ g p x at up = elim (last_or_old groups y x g at) [
    | inl old ↦ store g p x old up
    | inr (e, same) ↦ rw e (ok_ p (ap (λ (z : Group H). z.parent) same ∙ up))
  ]

  set_group_parent :
      (g : ℕ) (y old : Group H) (groups : List (Group H)) (i : ℕ) (x : Group H)
      → get_elem? groups g ≡ some old
      → y.parent ≡ old.parent
      → get_elem? (set_group g y groups) i ≡ some x
      → (z : Group H) × (get_elem? groups i ≡ some z) × (x.parent ≡ z.parent)
  unfolding set_group
  set_group_parent g y old [] i x found same at = cc
  set_group_parent zero y old (w ∷ ws) zero x found same at =
      (old, found, ap (λ (z : Group H). z.parent) (sym (some_eq at)) ∙ same)
    where
      some_eq : {a b : Group H} → some a ≡ some b → a ≡ b
      some_eq e = cc
  set_group_parent zero y old (w ∷ ws) (suc i) x found same at = (x, at, refl)
  set_group_parent (suc g) y old (w ∷ ws) zero x found same at = (x, at, refl)
  set_group_parent (suc g) y old (w ∷ ws) (suc i) x found same at =
      set_group_parent g y old ws i x found same at

  find_group_at :
      (g : ℕ) (a : App H) (x : Group H) → find_group g a ≡ ok x → get_elem? a.groups g ≡ some x
  find_group_at g a x h = go (get_elem? a.groups g) h
    where
      go :
          (o : Option (Group H))
          → ◌≡◌ {A = Result (Group H)} (elim o [ none ↦ panic nil_group | some y ↦ ok y ]) (ok x)
          → o ≡ some x
      go none e = cc
      go (some y) e = cc

module _ {ℓ} {H : Type ℓ} (u : Bytes → Option Bytes) where
  register-IsStore :
      (method path : Bytes) (h : Option H) (g : Option ℕ) (mw : List (Option (H → H))) (a b : App H)
      → register u method path h g mw a ≡ ok b
      → IsStore a.groups
      → IsStore b.groups
  register-IsStore method path h g mw a b done store =
      let (mws, f, c, e, added) = register-IsAdded u method path h g mw a b done in
      let (k1, k2, k3, k4) = added.kept in rw k2 store

  group-IsStore :
      (prefix : Bytes) (mw : List (Option (H → H))) (a b : App H) (g : ℕ)
      → group prefix mw a ≡ ok (b, g)
      → IsStore a.groups
      → IsStore b.groups
  unfolding group
  group-IsStore prefix mw a b g done store =
      let (t, s0, p) = went_on (check_group_prefix prefix) done in
      let (mws, s1, c) = went_on (check_middleware mw) s0 in
      let (s2, f) = went_past a.built _ s1 in
      rw (← ap (λ r. r.0) (ok_injective s2)) (append-IsStore a.groups _ store (λ p e. cc))

  sub_group-IsStore :
      (outer : ℕ) (prefix : Bytes) (mw : List (Option (H → H))) (a b : App H) (g : ℕ)
      → sub_group outer prefix mw a ≡ ok (b, g)
      → IsStore a.groups
      → IsStore b.groups
  unfolding sub_group
  sub_group-IsStore outer prefix mw a b g done store =
      let (t, s0, p) = went_on (check_group_prefix prefix) done in
      let (mws, s1, c) = went_on (check_middleware mw) s0 in
      let (x, s2, found) = went_on (find_group outer a) s1 in
      let (s3, f) = went_past a.built _ s2 in
      rw (← ap (λ r. r.0) (ok_injective s3)) (
        append-IsStore a.groups _ store (λ p e.
          inner outer p _ e (get_elem?-lt a.groups outer x (find_group_at outer a x found))))
    where
      inner : (o p n : ℕ) → some o ≡ some p → o < n → p < n
      inner o p n e h = let same : o ≡ p = cc in rw (← same) h

  group_use-IsStore :
      (g : ℕ) (mw : List (Option (H → H))) (a b : App H)
      → group_use g mw a ≡ ok b
      → IsStore a.groups
      → IsStore b.groups
  unfolding group_use
  group_use-IsStore g mw a b done store =
      let (mws, s1, c) = went_on (check_middleware mw) done in
      let (x, s2, found) = went_on (find_group g a) s1 in
      let (s3, f) = went_past a.built _ s2 in
      rw (← ok_injective s3) (λ i p y at up.
        let (z, old, same) =
          set_group_parent g _ x a.groups i y (find_group_at g a x found) refl at in
        store i p z old (sym same ∙ up))

  use_middleware-IsStore :
      (mw : List (Option (H → H))) (a b : App H)
      → use_middleware mw a ≡ ok b
      → IsStore a.groups
      → IsStore b.groups
  unfolding use_middleware
  use_middleware-IsStore mw a b done store =
      let (mws, s1, c) = went_on (check_middleware mw) done in
      let (s2, f) = went_past a.built _ s1 in rw (← ok_injective s2) store

  group_handle-IsStore :
      (method path : Bytes) (h : Option H) (g : ℕ) (mw : List (Option (H → H))) (a b : App H)
      → group_handle u method path h g mw a ≡ ok b
      → IsStore a.groups
      → IsStore b.groups
  unfolding group_handle
  group_handle-IsStore method path h g mw a b done =
      let (x, s1, found) = went_on (find_group g a) done in
      let (t, s2, p) = went_on (check_group_path x.prefix path) s1 in
      register-IsStore method _ h (some g) mw a b s2

  Step-IsStore : {a b : App H} → Step u a b → IsStore a.groups → IsStore b.groups
  Step-IsStore {a} {b} (handled method path h mw e) = register-IsStore method path h none mw a b e
  Step-IsStore {a} {b} (used mw e) = use_middleware-IsStore mw a b e
  Step-IsStore {a} {b} (grouped prefix mw g e) = group-IsStore prefix mw a b g e
  Step-IsStore {a} {b} (nested outer prefix mw g e) = sub_group-IsStore outer prefix mw a b g e
  Step-IsStore {a} {b} (used_in g mw e) = group_use-IsStore g mw a b e
  Step-IsStore {a} {b} (handled_in method path h g mw e) =
      group_handle-IsStore method path h g mw a b e

  Reached-IsStore : {not_found : H} {a : App H} → Reached u not_found a → IsStore a.groups
  Reached-IsStore start = λ g p x at up. cc
  Reached-IsStore (next r step) = Step-IsStore step (Reached-IsStore r)

  -- After any sequence of successful setup calls, the middleware of a route in a group is that of the
  -- same route in the group's parent with the group's middleware in front of the route's own; that of
  -- a route in no group is the application's and then its own.
  pub middleware_nests :
      (not_found : H) (a : App H) (r : Route H) (g : ℕ) (x : Group H)
      → Reached u not_found a
      → get_elem? a.groups g ≡ some x
      → (middleware_for a (record r { group = some g })
          ≡ middleware_for a (record r { group = x.parent; mws = x.mws ++ r.mws }))
        × (middleware_for a (record r { group = none }) ≡ a.mws ++ r.mws)
  middleware_nests not_found a r g x reached found =
      (middleware_for_group a r g x (Reached-IsStore reached) found, middleware_for_app a r)
