-- ===== src/Chain.antt =====
-- internal/chain/chain.go: a middleware list folded around a handler.
pub mod Order
use mathlib.Core.List.{reverse}
use rice_http.Prelude.{List, [], ◌∷◌}

module _ {ℓ} {H : Type ℓ} where
  -- The loop from the last index down: it meets the middleware in reverse.
  fold_from : H → List (H → H) → H
  fold_from h [] = h
  fold_from h (mw ∷ mws) = fold_from (mw h) mws

  unfoldable pub compile : H → List (H → H) → H
  unfolding fold_from
  compile h mws = fold_from h (reverse mws)
