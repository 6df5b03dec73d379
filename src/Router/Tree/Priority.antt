-- ===== src/Router/Tree/Priority.antt =====
-- internal/router/tree.go: what the lookup returns, against the table that the tree stands for.
use rice_http.Prelude.{
  ℕ, Bytes, Option, none, some, List, [], ◌∷◌, ◌≡◌, ◌⊎◌, inl, inr, refl, arith, Bool-cases,
}
use rice_http.Router.Tree.Outcome.{Outcome, miss, or_else-Outcome, Outcome-agree}
use rice_http.Router.Params.{Param, Params}
use rice_http.Router.Tree.{
  Node, node, Nodes, nil, cons, Child, null, ptr, starts_like, lookup_node, try_static, try_param,
  prefix_of,
}
use rice_http.Router.Table.{Symbol, lit, par, wild, Matches, Precedes, entry, entry_child}
use rice_http.Router.Tree.Static.{static_part, static_part-skip, static_part_nil, enter-Outcome}
use rice_http.Router.Tree.Capture.{
  param_part, wildcard_part, param_part_null, segment-Outcome, try_wildcard-Outcome,
}

module _ {ℓ} {H : Type ℓ} where
  abbrev later_part : Child H → Child H → List Symbol → Option H
  later_part pr w (par name ∷ s) = entry_child pr name s
  later_part pr w (wild name ∷ s) = entry_child w name s
  later_part pr w _ = none

  -- The parts of a node's table, in the order of the attempts.
  module _ (p : Bytes) (h : Option H) (ss : Nodes H) (pr w : Child H) (nm : Bytes) where
    static_or_later :
        (b : ℕ) (path : Bytes) (q : List Symbol) (g : H) (ds : List Param)
        → entry (node p h ss pr w nm) q ≡ some g
        → Matches q (b ∷ path) ds
        → (static_part ss q ≡ some g) ⊎ (later_part pr w q ≡ some g)
    unfolding entry
    static_or_later b path [] g ds eq m = elim m [ ]
    static_or_later b path (lit c ∷ q) g ds eq m = inl eq
    static_or_later b path (par name ∷ q) g ds eq m = inr eq
    static_or_later b path (wild name ∷ q) g ds eq m = inr eq

    static_part-entry :
        (q : List Symbol) (g : H)
        → static_part ss q ≡ some g
        → entry (node p h ss pr w nm) q ≡ some g
    unfolding entry
    static_part-entry [] g eq = cc
    static_part-entry (lit c ∷ q) g eq = eq
    static_part-entry (_ ∷ q) g eq = cc

    later_part-entry :
        (q : List Symbol) (g : H)
        → later_part pr w q ≡ some g
        → entry (node p h ss pr w nm) q ≡ some g
    unfolding entry
    later_part-entry [] g eq = cc
    later_part-entry (lit c ∷ q) g eq = cc
    later_part-entry (par name ∷ q) g eq = eq
    later_part-entry (wild name ∷ q) g eq = eq

  static_first :
      (ss : Nodes H) (pr w : Child H) (s q : List Symbol) (h g : H)
      → static_part ss s ≡ some h
      → later_part pr w q ≡ some g
      → Precedes s q
  static_first ss pr w (lit b ∷ s) (par name ∷ q) h g e1 e2 = inl (omega arith)
  static_first ss pr w (lit b ∷ s) (wild name ∷ q) h g e1 e2 = inl (omega arith)
  static_first ss pr w (lit b ∷ s) _ h g e1 e2 = cc
  static_first ss pr w _ q h g e1 e2 = cc

  param_or_wildcard :
      (pr w : Child H) (q : List Symbol) (g : H)
      → later_part pr w q ≡ some g
      → (param_part pr q ≡ some g) ⊎ (wildcard_part w q ≡ some g)
  param_or_wildcard pr w (par name ∷ q) g eq = inl eq
  param_or_wildcard pr w (wild name ∷ q) g eq = inr eq
  param_or_wildcard pr w _ g eq = cc

  param_part-later :
      (pr w : Child H) (q : List Symbol) (g : H)
      → param_part pr q ≡ some g
      → later_part pr w q ≡ some g
  param_part-later pr w (par name ∷ q) g eq = eq
  param_part-later pr w _ g eq = cc

  wildcard_part-later :
      (pr w : Child H) (q : List Symbol) (g : H)
      → wildcard_part w q ≡ some g
      → later_part pr w q ≡ some g
  wildcard_part-later pr w (wild name ∷ q) g eq = eq
  wildcard_part-later pr w _ g eq = cc

  param_first :
      (pr w : Child H) (s q : List Symbol) (h g : H)
      → param_part pr s ≡ some h
      → wildcard_part w q ≡ some g
      → Precedes s q
  param_first pr w (par name ∷ s) (wild name' ∷ q) h g e1 e2 = inl (omega arith)
  param_first pr w (par name ∷ s) _ h g e1 e2 = cc
  param_first pr w _ q h g e1 e2 = cc

  mutual
    unfolding lookup_node

    pub lookup_node-Outcome :
        (n : Node H) (b : ℕ) (path : Bytes) (ps : Params)
        → Outcome (entry n) (b ∷ path) ps (lookup_node n (b ∷ path) ps)
    lookup_node-Outcome (node p h ss pr w nm) b path ps =
        or_else-Outcome (entry (node p h ss pr w nm)) (static_part ss) (later_part pr w) (b ∷ path)
          ps _ (static_or_later p h ss pr w nm b path) (static_part-entry p h ss pr w nm)
          (later_part-entry p h ss pr w nm) (static_first ss pr w) (try_static-Outcome ss b path ps)
          λ ps1.
            or_else-Outcome (later_part pr w) (param_part pr) (wildcard_part w) (b ∷ path) ps1 _
              (λ q g ds eq m. param_or_wildcard pr w q g eq) (param_part-later pr w)
              (wildcard_part-later pr w) (param_first pr w) (try_param-Outcome pr b path ps1)
              λ ps2. try_wildcard-Outcome w b path ps2

    try_static-Outcome :
        (ss : Nodes H) (b : ℕ) (path : Bytes) (ps : Params)
        → Outcome (static_part ss) (b ∷ path) ps (try_static ss (b ∷ path) ps)
    try_static-Outcome nil b path ps = miss ps (λ q g ds eq m. static_part_nil q eq) refl
    try_static-Outcome (cons c cs) b path ps =
        elim (Bool-cases (starts_like (prefix_of c) (b ∷ path))) [
          | inl here ↦ rw here (enter-Outcome c cs b path ps here (lookup_node-Outcome c))
          | inr other ↦ rw other (
              Outcome-agree (static_part cs) (static_part (cons c cs))
                (static_part-skip c cs b path other) (try_static-Outcome cs b path ps))
        ]

    try_param-Outcome :
        (c : Child H) (b : ℕ) (path : Bytes) (ps : Params)
        → Outcome (param_part c) (b ∷ path) ps (try_param c (b ∷ path) ps)
    try_param-Outcome null b path ps = miss ps (λ q g ds eq m. param_part_null q eq) refl
    try_param-Outcome (ptr n) b path ps = segment-Outcome n b path ps (lookup_node-Outcome n)
