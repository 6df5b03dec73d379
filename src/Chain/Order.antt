-- ===== src/Chain/Order.antt =====
-- internal/chain/chain.go: which middleware is outermost.
use mathlib.Core.List.{reverse, reverse-append}
use rice_http.Prelude.{List, [], ◌∷◌, ◌++◌, ◌≡◌, refl, ◌∙◌, ap}
use rice_http.Chain.{compile, fold_from}

module _ {ℓ} {H : Type ℓ} where
  fold_from-append :
      (h : H) (xs ys : List (H → H)) → fold_from h (xs ++ ys) ≡ fold_from (fold_from h xs) ys
  unfolding fold_from
  fold_from-append h [] ys = refl
  fold_from-append h (x ∷ xs) ys = fold_from-append (x h) xs ys

  -- The first middleware of a list is applied last, around all that the others made of the handler;
  -- an empty list leaves the handler as it is.
  pub compile_outermost :
      (h : H) (mw : H → H) (mws : List (H → H))
      → (compile h [] ≡ h) × (compile h (mw ∷ mws) ≡ mw (compile h mws))
  unfolding compile fold_from
  compile_outermost h mw mws =
      (refl, ap (fold_from h) (reverse-append (mw ∷ []) mws) ∙ fold_from-append h (reverse mws) _)

  pub compile-append :
      (h : H) (xs ys : List (H → H)) → compile h (xs ++ ys) ≡ compile (compile h ys) xs
  unfolding compile
  compile-append h xs ys =
      ap (fold_from h) (reverse-append xs ys) ∙ fold_from-append h (reverse ys) (reverse xs)
