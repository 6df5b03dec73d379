-- ===== src/App/Build/Replay.antt =====
-- build.go: inserting the routes again, with other handlers.
use rice_http.Prelude.{
  Bytes, Option, none, List, [], ◌∷◌, ◌≡◌, refl, sym, ◌∙◌, ap, Bool-cases, Option-cases, inl, inr,
  bytes_eq, bytes_eq_iff, bytes_ne,
}
use rice_http.Router.RouteTree.{Tree, insert}
use rice_http.Router.RouteTree.Shape.{relabel_tree, insert-relabel}
use rice_http.App.Trees.{Trees, tree_for, insert_route}
use rice_http.App.Trees.Slots.{tree_for-put_tree_self, tree_for-put_tree_other}
use rice_http.App.Model.{Route, Entry, Panic, ok, panic}
use rice_http.App.Build.{insert_all}

module _ {ℓ} {E : Type ℓ} where
  abbrev forget : E → Unit {0}
  forget e = tt

  abbrev pub shape : Tree E → Tree (Unit {0})
  shape t = relabel_tree forget t

  -- For each method, trees of one shape.
  abbrev pub AreAlike : Trees E → Trees E → Type 0
  AreAlike ts ts' = (m : Bytes) → shape (tree_for ts m) ≡ shape (tree_for ts' m)

  shape-insert :
      (u : Bytes → Option Bytes) (p : Bytes) (e e' : E) (t t' : Tree E)
      → shape t ≡ shape t'
      → ((insert u p e t).1 ≡ (insert u p e' t').1)
        × (shape (insert u p e t).0 ≡ shape (insert u p e' t').0)
  shape-insert u p e e' t t' alike =
      let both =
        sym (insert-relabel forget u p e t)
        ∙ ap (insert u p tt) alike
        ∙ insert-relabel forget u p e' t' in
      (ap (λ r. r.1) both, ap (λ r. r.0) both)

  insert_route-AreAlike :
      (u : Bytes → Option Bytes) (m p : Bytes) (e e' : E) (ts ts' : Trees E)
      → AreAlike ts ts'
      → ((insert_route u m p e ts).1 ≡ (insert_route u m p e' ts').1)
        × AreAlike (insert_route u m p e ts).0 (insert_route u m p e' ts').0
  unfolding insert_route
  insert_route-AreAlike u m p e e' ts ts' alike =
      let (same, shapes) = shape-insert u p e e' (tree_for ts m) (tree_for ts' m) (alike m) in
      (
        same,
        λ k. elim (Bool-cases (bytes_eq m k)) [
          | inl here ↦
              let mk = (bytes_eq_iff m k).0 here in
              rw (← mk, tree_for-put_tree_self ts m _, tree_for-put_tree_self ts' m _) shapes
          | inr other ↦
              let off = bytes_ne m k other in
              rw (tree_for-put_tree_other ts m k _ off, tree_for-put_tree_other ts' m k _ off)
                (alike k)
        ],
      )

module _ {ℓ} {H : Type ℓ} (u : Bytes → Option Bytes) (f g : Route H → Entry H) where
  pub insert_all_again :
      (rs : List (Route H)) (ts ts' us : Trees (Entry H))
      → AreAlike ts ts'
      → insert_all u f rs ts ≡ ok us
      → (us' : Trees (Entry H)) × (insert_all u g rs ts' ≡ ok us') × AreAlike us us'
  unfolding insert_all
  insert_all_again [] ts ts' us alike done = let e : ts ≡ us = cc in (ts', refl, rw (← e) alike)
  insert_all_again (r ∷ rs) ts ts' us alike done =
      let (same, next) = insert_route-AreAlike u r.method r.path (f r) (g r) ts ts' alike in
      elim (Option-cases (insert_route u r.method r.path (f r) ts).1) [
        | inl went ↦
            let went' : (insert_route u r.method r.path (g r) ts').1 ≡ none = sym same ∙ went in
            rw went' (insert_all_again rs _ _ us next (rw went at done))
        | inr (e, failed) ↦ absurd (no_ok (rw failed at done))
      ]
    where
      no_ok : {A : Type ℓ} {e : Panic} {us : A} → panic e ≡ ok us → ⊥
      no_ok h = cc
