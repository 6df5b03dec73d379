-- ===== src/Router/Insert/Split.antt =====
-- internal/router/tree.go: splitting a static node keeps what the tree below it holds.
use rice_http.Prelude.{
  ℕ, zero, suc, ◌≤◌, ◌<◌, Bytes, Option, none, some, List, [], ◌∷◌, ◌++◌, ◌≡◌, inl, inr, refl, sym,
  ap, arith, ◌==◌, ==_iff, Bool-cases, length, take, drop, ltb,
}
use rice_http.Router.Tree.{Node, node, Nodes, nil, cons, Child, null, prefix_of}
use rice_http.Router.Table.{Symbol, lit, par, wild, strip_lits, entry, below}
use rice_http.Router.Insert.{common_prefix_len, split, split_shared}

common_prefix_len-le : (p t : Bytes) → common_prefix_len p t ≤ length p
unfolding common_prefix_len
common_prefix_len-le [] t = omega arith
common_prefix_len-le (a ∷ p) [] = omega arith
common_prefix_len-le (a ∷ p) (b ∷ t) = ground (arith, common_prefix_len-le p t)

-- The text is the shared head and the rest of the text.
pub take-append-rest :
    (p t : Bytes) → t ≡ take (common_prefix_len p t) p ++ drop (common_prefix_len p t) t
unfolding common_prefix_len
take-append-rest [] t = refl
take-append-rest (a ∷ p) [] = refl
take-append-rest (a ∷ p) (b ∷ t) = elim (Bool-cases (a == b)) [
  | inl same ↦ rw same (cc ((==_iff a b).0 same, take-append-rest p t))
  | inr other ↦ rw other
]

take_all : (n : ℕ) (p : Bytes) → length p ≤ n → take n p ≡ p
take_all zero [] h = refl
take_all (suc n) [] h = refl
take_all zero (a ∷ p) h = absurd (omega arith)
take_all (suc n) (a ∷ p) h = ap (λ l. a ∷ l) (take_all n p (omega arith))

module _ {ℓ} {H : Type ℓ} where
  pub split_shared-prefix :
      (text : Bytes) (c : Node H)
      → prefix_of (split_shared text c) ≡ take (common_prefix_len (prefix_of c) text) (prefix_of c)
  unfolding split_shared split
  split_shared-prefix text (node p h ss pr w nm) =
      elim (Bool-cases (ltb (common_prefix_len p text) (length p))) [
        | inl part ↦ rw part
        | inr all ↦ rw all (sym (take_all (common_prefix_len p text) p (ground arith)))
      ]

  -- What a child holds for a pattern that goes through its prefix.
  abbrev pub through : Node H → List Symbol → Option H
  through c s = below (strip_lits (prefix_of c) s) (entry c)

  module _ (whole whole' : Bytes) (h : Option H) (ss : Nodes H) (pr w : Child H)
      (nm nm' : Bytes) where
    split_at :
        (n : ℕ) (p : Bytes)
        → n < length p
        → (s : List Symbol)
        → below
            (strip_lits (take n p) s)
            (entry (node whole none (cons (node (drop n p) h ss pr w []) nil) null null nm))
          ≡ below (strip_lits p s) (entry (node whole' h ss pr w nm'))
    unfolding entry
    split_at n [] lt s = absurd (omega arith)
    split_at zero (a ∷ p) lt [] = refl
    split_at zero (a ∷ p) lt (lit b ∷ s) = elim (Bool-cases (a == b)) [
      | inl same ↦ rw same (entry_static-node (strip_lits p s))
      | inr other ↦ rw other
    ]
      where
        entry_static-node :
            (o : Option (List Symbol))
            → below o (entry (node (a ∷ p) h ss pr w []))
              ≡ below o (entry (node whole' h ss pr w nm'))
        entry_static-node none = refl
        entry_static-node (some []) = refl
        entry_static-node (some (lit c ∷ r)) = refl
        entry_static-node (some (par c ∷ r)) = refl
        entry_static-node (some (wild c ∷ r)) = refl
    split_at zero (a ∷ p) lt (par _ ∷ s) = refl
    split_at zero (a ∷ p) lt (wild _ ∷ s) = refl
    split_at (suc n) (a ∷ p) lt [] = refl
    split_at (suc n) (a ∷ p) lt (lit b ∷ s) = elim (Bool-cases (a == b)) [
      | inl same ↦ rw same (split_at n p (omega arith) s)
      | inr other ↦ rw other
    ]
    split_at (suc n) (a ∷ p) lt (par _ ∷ s) = refl
    split_at (suc n) (a ∷ p) lt (wild _ ∷ s) = refl

  -- Splitting a child changes nothing that is held through it.
  pub split_shared-through :
      (text : Bytes) (c : Node H) (s : List Symbol) → through (split_shared text c) s ≡ through c s
  unfolding split_shared split
  split_shared-through text (node p h ss pr w nm) s =
      elim (Bool-cases (ltb (common_prefix_len p text) (length p))) [
        | inl part ↦
            rw part (split_at _ p h ss pr w nm nm (common_prefix_len p text) p (ground arith) s)
        | inr all ↦ rw all
      ]
