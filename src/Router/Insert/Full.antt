-- ===== src/Router/Insert/Full.antt =====
-- internal/router/tree.go: trees without dead branches: a route stands in or below every node.
use rice_http.Prelude.{
  Bytes, Bool-cases, Option, none, some, List, [], ◌∷◌, ◌++◌, ◌≡◌, inl, inr, refl, ◌∙◌, ltb, length,
  drop,
}
use rice_http.Router.Tree.{Node, node, Nodes, nil, cons, Child, null, ptr, prefix_of}
use rice_http.Router.Table.{Symbol, lit, par, wild, lits, strip_lits, below, entry}
use rice_http.Router.Tree.Matching.{strip_lits-lits}
use rice_http.Router.Insert.{common_prefix_len, split, split_shared}
use rice_http.Router.Insert.Split.{through, split_shared-through}

module _ {ℓ} {H : Type ℓ} where
  -- The tree holds a handler for some pattern.
  abbrev pub HasEntry : Node H → Type ℓ
  HasEntry n = (q : List Symbol) × (g : H) × (entry n q ≡ some g)

  unfoldable mutual
    pub IsFull : Node H → Type ℓ
    IsFull (node p h ss pr w nm) = AreFull ss × IsFullChild pr × IsFullChild w

    pub AreFull : Nodes H → Type ℓ
    AreFull nil = Unit
    AreFull (cons c cs) = (HasEntry c × IsFull c) × AreFull cs

    pub IsFullChild : Child H → Type ℓ
    IsFullChild null = Unit
    IsFullChild (ptr n) = HasEntry n × IsFull n

  abbrev pub IsLively : Node H → Type ℓ
  IsLively n = HasEntry n × IsFull n

  -- What a node holds does not depend on its own prefix and name.
  entry-node :
      (p p' : Bytes) (h : Option H) (ss : Nodes H) (pr w : Child H) (nm nm' : Bytes)
      (q : List Symbol)
      → entry (node p h ss pr w nm) q ≡ entry (node p' h ss pr w nm') q
  unfolding entry
  entry-node p p' h ss pr w nm nm' [] = refl
  entry-node p p' h ss pr w nm nm' (lit b ∷ q) = refl
  entry-node p p' h ss pr w nm nm' (par name ∷ q) = refl
  entry-node p p' h ss pr w nm nm' (wild name ∷ q) = refl

  -- Splitting keeps a tree full.
  pub split_shared-IsFull :
      (text : Bytes) (c : Node H) → HasEntry c → IsFull c → IsFull (split_shared text c)
  unfolding split_shared split IsFull
  split_shared-IsFull text (node p h ss pr w nm) (q, g, e) full =
      elim (Bool-cases (ltb (common_prefix_len p text) (length p))) [
        | inl part ↦ rw part (
          (
            ((q, g, entry-node (drop (common_prefix_len p text) p) p h ss pr w [] nm q ∙ e), full),
            tt,
          ),
          tt,
          tt,
        )
        | inr all ↦ rw all full
      ]

  pub split_shared-HasEntry :
      (text : Bytes) (c : Node H) → HasEntry c → HasEntry (split_shared text c)
  split_shared-HasEntry text c (q, g, e) =
      held (strip_lits (prefix_of (split_shared text c)) (lits (prefix_of c) ++ q))
        (split_shared-through text c (lits (prefix_of c) ++ q) ∙ whole ∙ e)
    where
      whole : through c (lits (prefix_of c) ++ q) ≡ entry c q
      whole = rw (strip_lits-lits (prefix_of c) q)

      held :
          (o : Option (List Symbol))
          → below o (entry (split_shared text c)) ≡ some g
          → HasEntry (split_shared text c)
      held none x = absurd (cc x)
      held (some s) x = (s, g, x)
