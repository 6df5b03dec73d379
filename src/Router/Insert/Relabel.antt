-- ===== src/Router/Insert/Relabel.antt =====
-- internal/router/tree.go: insertion into a tree whose handlers are replaced.
use rice_http.Prelude.{
  ℕ, zero, suc, Bytes, Option, none, some, List, [], ◌∷◌, ◌≡◌, refl, ap, ltb, bytes_eq, Bool-cases,
  inl, inr, length, drop,
}
use rice_http.Router.Pattern.{Segment, static, param, wildcard}
use rice_http.Router.Tree.{
  Node, node, Nodes, nil, cons, Child, null, ptr, fresh, prefix_of, name_of, starts_like,
  InsertError,
}
use rice_http.Router.Insert.{
  Visit, common_prefix_len, split, split_shared, visit_static, insert_static, insert_child, place,
  insert_segments,
}

module _ {ℓ κ} {A : Type ℓ} {B : Type κ} (f : A → B) where
  abbrev pub relabel_handler : Option A → Option B
  relabel_handler none = none
  relabel_handler (some h) = some (f h)

  unfoldable mutual
    pub relabel : Node A → Node B
    relabel (node p h ss pr w nm) =
        node p (relabel_handler h) (relabel_nodes ss) (relabel_child pr) (relabel_child w) nm

    pub relabel_nodes : Nodes A → Nodes B
    relabel_nodes nil = nil
    relabel_nodes (cons c cs) = cons (relabel c) (relabel_nodes cs)

    pub relabel_child : Child A → Child B
    relabel_child null = null
    relabel_child (ptr n) = ptr (relabel n)

  abbrev pub Alike : Visit A → Visit B → Type (ℓ ⊔ κ)
  Alike k k' = (n : Node A) → k' (relabel n) ≡ (relabel (k n).0, (k n).1)

  prefix_of-relabel : (n : Node A) → prefix_of (relabel n) ≡ prefix_of n
  unfolding relabel
  prefix_of-relabel (node p h ss pr w nm) = refl

  name_of-relabel : (n : Node A) → name_of (relabel n) ≡ name_of n
  unfolding relabel
  name_of-relabel (node p h ss pr w nm) = refl

  split-relabel : (cp : ℕ) (n : Node A) → split cp (relabel n) ≡ relabel (split cp n)
  unfolding relabel relabel_nodes relabel_child split
  split-relabel cp (node p h ss pr w nm) = refl

  split_shared-relabel :
      (text : Bytes) (n : Node A) → split_shared text (relabel n) ≡ relabel (split_shared text n)
  unfolding split_shared
  split_shared-relabel text n =
      elim (Bool-cases (ltb (common_prefix_len (prefix_of n) text) (length (prefix_of n)))) [
        | inl short ↦ rw (prefix_of-relabel n, short) (split-relabel _ n)
        | inr whole ↦ rw (prefix_of-relabel n, whole) refl
      ]

  visit_static-relabel :
      (ss : Nodes A) (text : Bytes) (found made : Visit A) (found' made' : Visit B)
      → Alike found found'
      → Alike made made'
      → visit_static (relabel_nodes ss) text found' made'
        ≡ (relabel_nodes (visit_static ss text found made).0, (visit_static ss text found made).1)
  unfolding visit_static relabel relabel_nodes relabel_child
  visit_static-relabel nil text found made found' made' a b =
      ap (λ r. (cons r.0 nil, r.1)) (b (fresh text []))
  visit_static-relabel (cons c cs) text found made found' made' a b =
      elim (Bool-cases (starts_like (prefix_of c) text)) [
        | inl here ↦ rw (prefix_of-relabel c, here, a c) refl
        | inr there ↦
            rw
              (prefix_of-relabel c, there, visit_static-relabel cs text found made found' made' a b)
              refl
      ]

  found_child :
      (fuel : ℕ) (text : Bytes) (k : Visit A) (k' : Visit B)
      → ((rest : Bytes) → Alike (insert_static fuel rest k) (insert_static fuel rest k'))
      → Alike
          (λ c.
            insert_static fuel
              (drop (common_prefix_len (prefix_of c) text) text)
              k
              (split_shared text c))
          (λ c.
            insert_static fuel
              (drop (common_prefix_len (prefix_of c) text) text)
              k'
              (split_shared text c))
  found_child fuel text k k' ih c =
      rw (prefix_of-relabel c, split_shared-relabel text c) (ih _ (split_shared text c))

  insert_static-relabel :
      (fuel : ℕ) (text : Bytes) (k : Visit A) (k' : Visit B)
      → Alike k k'
      → Alike (insert_static fuel text k) (insert_static fuel text k')
  unfolding insert_static relabel
  insert_static-relabel fuel [] k k' a n = a n
  insert_static-relabel zero (b ∷ t) k k' a n = a n
  insert_static-relabel (suc fuel) (b ∷ t) k k' a (node p h ss pr w nm) =
      ap (λ r. (node p (relabel_handler h) r.0 (relabel_child pr) (relabel_child w) nm, r.1))
        (visit_static-relabel ss (b ∷ t) _ k _ k'
          (found_child fuel (b ∷ t) k k' (λ rest. insert_static-relabel fuel rest k k' a)) a)

  insert_child-relabel :
      (conflict : Bytes → Bytes → InsertError) (name : Bytes) (k : Visit A) (k' : Visit B)
      → Alike k k'
      → (c : Child A)
      → insert_child conflict name k' (relabel_child c)
        ≡ (relabel_child (insert_child conflict name k c).0, (insert_child conflict name k c).1)
  unfolding insert_child relabel relabel_nodes relabel_child
  insert_child-relabel conflict name k k' a null = ap (λ r. (ptr r.0, r.1)) (a (fresh [] name))
  insert_child-relabel conflict name k k' a (ptr n) =
      elim (Bool-cases (bytes_eq (name_of n) name)) [
        | inl same ↦ rw (name_of-relabel n, same, a n) refl
        | inr other ↦ rw (name_of-relabel n, other) refl
      ]

  place-relabel : (h : A) → Alike (place h) (place (f h))
  unfolding place relabel
  place-relabel h (node p none ss pr w nm) = refl
  place-relabel h (node p (some old) ss pr w nm) = refl

  pub insert_segments-relabel :
      (segs : List Segment) (h : A) → Alike (insert_segments segs h) (insert_segments segs (f h))
  unfolding insert_segments relabel
  insert_segments-relabel [] h n = place-relabel h n
  insert_segments-relabel (static text ∷ segs) h n =
      insert_static-relabel (length text) text _ _ (insert_segments-relabel segs h) n
  insert_segments-relabel (param name ∷ segs) h (node p h' ss pr w nm) =
      rw (insert_child-relabel _ name _ _ (insert_segments-relabel segs h) pr) refl
  insert_segments-relabel (wildcard name ∷ segs) h (node p h' ss pr w nm) =
      rw (insert_child-relabel _ name _ _ (insert_segments-relabel segs h) w) refl
