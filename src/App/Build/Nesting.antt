-- ===== src/App/Build/Nesting.antt =====
-- build.go: the middleware of a route, from its groups outwards.
use mathlib.Core.List.{reverse, reverse-append}
use rice_http.Prelude.{
  ℕ, zero, suc, ◌<◌, Option, none, some, List, [], ◌∷◌, ◌++◌, ◌≡◌, refl, sym, ◌∙◌, ap, length,
  get_elem?, arith, Option-cases, inl, inr, append_assoc, append-nil,
}
use rice_http.App.Model.{Group, Route, App}
use rice_http.App.Build.{ancestors, group_chain, all_mws, middleware_for}

pub get_elem?-lt {ℓ} :
    {A : Type ℓ} (xs : List A) (i : ℕ) (x : A) → get_elem? xs i ≡ some x → i < length xs
get_elem?-lt [] i x h = cc
get_elem?-lt (y ∷ ys) zero x h = omega arith
get_elem?-lt (y ∷ ys) (suc i) x h = omega (arith, get_elem?-lt ys i x h)

module _ {ℓ} {H : Type ℓ} where
  -- Every group stands behind its parent.
  abbrev pub IsStore : List (Group H) → Type ℓ
  IsStore groups = (g p : ℕ) (x : Group H) → get_elem? groups g ≡ some x → x.parent ≡ some p → p < g

  same_fuel :
      (fuel more : ℕ) (groups : List (Group H)) (o : Option ℕ)
      → IsStore groups
      → ((p : ℕ) → o ≡ some p → p < fuel)
      → ((p : ℕ) → o ≡ some p → p < more)
      → ancestors fuel groups o ≡ ancestors more groups o
  unfolding ancestors
  same_fuel zero zero groups none store h k = refl
  same_fuel zero (suc more) groups none store h k = refl
  same_fuel (suc fuel) zero groups none store h k = refl
  same_fuel (suc fuel) (suc more) groups none store h k = refl
  same_fuel zero more groups (some g) store h k = absurd (omega (arith, h g refl))
  same_fuel (suc fuel) zero groups (some g) store h k = absurd (omega (arith, k g refl))
  same_fuel (suc fuel) (suc more) groups (some g) store h k =
      elim (Option-cases (get_elem? groups g)) [
        | inl none_ ↦ rw none_ refl
        | inr (x, found) ↦
            let below = h g refl in
            let below' = k g refl in
            rw found (
              ap (λ l. x ∷ l)
                (same_fuel fuel more groups x.parent store
                  (λ p up. omega (arith, store g p x found up))
                  (λ p up. omega (arith, store g p x found up))))
      ]

  all_mws-append : (xs ys : List (Group H)) → all_mws (xs ++ ys) ≡ all_mws xs ++ all_mws ys
  unfolding all_mws
  all_mws-append [] ys = refl
  all_mws-append (x ∷ xs) ys =
      ap (λ l. x.mws ++ l) (all_mws-append xs ys)
      ∙ sym (append_assoc x.mws (all_mws xs) (all_mws ys))

  one_up :
      (n : ℕ) (groups : List (Group H)) (g : ℕ) (x : Group H)
      → IsStore groups
      → get_elem? groups g ≡ some x
      → g < n
      → ancestors n groups (some g) ≡ x ∷ ancestors n groups x.parent
  unfolding ancestors
  one_up zero groups g x store found h = absurd (omega arith)
  one_up (suc n) groups g x store found h = rw found (
      ap (λ l. x ∷ l)
        (same_fuel n (suc n) groups x.parent store (λ p up. omega (arith, store g p x found up))
          (λ p up. omega (arith, store g p x found up))))

  no_group : (n : ℕ) (groups : List (Group H)) → ancestors n groups none ≡ []
  unfolding ancestors
  no_group zero groups = refl
  no_group (suc n) groups = refl

  pub group_chain_up :
      (groups : List (Group H)) (g : ℕ) (x : Group H)
      → IsStore groups
      → get_elem? groups g ≡ some x
      → group_chain groups (some g) ≡ group_chain groups x.parent ++ x ∷ []
  unfolding group_chain
  group_chain_up groups g x store found =
      ap reverse (one_up (length groups) groups g x store found (get_elem?-lt groups g x found))
      ∙ reverse-append (x ∷ []) (ancestors (length groups) groups x.parent)

  pub group_chain-none : (groups : List (Group H)) → group_chain groups none ≡ []
  unfolding group_chain
  group_chain-none groups = ap reverse (no_group (length groups) groups)

  all_mws_one : (x : Group H) → all_mws (x ∷ []) ≡ x.mws
  unfolding all_mws
  all_mws_one x = append-nil x.mws

  regroup : (a c x r : List (H → H)) → (a ++ (c ++ x)) ++ r ≡ (a ++ c) ++ (x ++ r)
  regroup a c x r = simp append_assoc

  pub middleware_for_group :
      (a : App H) (r : Route H) (g : ℕ) (x : Group H)
      → IsStore a.groups
      → get_elem? a.groups g ≡ some x
      → middleware_for a (record r { group = some g })
        ≡ middleware_for a (record r { group = x.parent; mws = x.mws ++ r.mws })
  unfolding middleware_for
  middleware_for_group a r g x store found =
      ap (λ (c : List (Group H)). (a.mws ++ all_mws c) ++ r.mws)
        (group_chain_up a.groups g x store found)
      ∙ ap (λ (l : List (H → H)). (a.mws ++ l) ++ r.mws)
          (all_mws-append (group_chain a.groups x.parent) (x ∷ [])
            ∙ ap (λ (l : List (H → H)). all_mws (group_chain a.groups x.parent) ++ l)
                (all_mws_one x))
      ∙ regroup a.mws (all_mws (group_chain a.groups x.parent)) x.mws r.mws

  pub middleware_for_app :
      (a : App H) (r : Route H) → middleware_for a (record r { group = none }) ≡ a.mws ++ r.mws
  unfolding middleware_for all_mws
  middleware_for_app a r =
      ap (λ (c : List (Group H)). (a.mws ++ all_mws c) ++ r.mws) (group_chain-none a.groups)
      ∙ ap (λ (l : List (H → H)). l ++ r.mws) (append-nil a.mws)
