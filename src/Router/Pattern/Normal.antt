-- ===== src/Router/Pattern/Normal.antt =====
-- internal/router/pattern.go: the normal form of a pattern.
use rice_http.Prelude.{ℕ, Bytes, false, [], ◌∷◌, ◌==◌, ◌≡◌, refl, arith, Bool-cases, inl, inr}
use rice_http.Router.Pattern.{has_double_slash, collapse_slashes}

-- The byte that a collapsed text begins with.
collapse_slashes_head : (a : ℕ) (s : Bytes) → (r : Bytes) × (collapse_slashes (a ∷ s) ≡ a ∷ r)
unfolding collapse_slashes
collapse_slashes_head a [] = ([], refl)
collapse_slashes_head a (b ∷ s) = elim (Bool-cases (a == b'/')) [
  | inl sl ↦ elim (Bool-cases (b == b'/')) [
    | inl sl' ↦ let (r, e) = collapse_slashes_head b s in (r, ground (arith, e))
    | inr other ↦ (collapse_slashes (b ∷ s), ground arith)
  ]
  | inr other ↦ (collapse_slashes (b ∷ s), ground arith)
]

-- The pattern that the error for an empty segment proposes has none.
pub has_double_slash-collapse_slashes : (s : Bytes) → has_double_slash (collapse_slashes s) ≡ false
unfolding has_double_slash collapse_slashes
has_double_slash-collapse_slashes [] = refl
has_double_slash-collapse_slashes (a ∷ []) = refl
has_double_slash-collapse_slashes (a ∷ b ∷ s) =
    let (r, e) = collapse_slashes_head b s in
    ground (arith, e, has_double_slash-collapse_slashes (b ∷ s))
