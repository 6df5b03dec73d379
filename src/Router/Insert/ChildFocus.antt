-- ===== src/Router/Insert/ChildFocus.antt =====
-- internal/router/tree.go: the step of `insert` into a parameter or wildcard child.
use rice_http.Prelude.{
  Bytes, Option, none, some, List, [], ◌∷◌, ◌≡◌, ◌≢◌, ◌⊎◌, inl, inr, refl, sym, ap, ◌∙◌, arith,
  Bool-cases, bytes_eq, bytes_eq_iff, bytes_eq_self,
}
use rice_http.Router.Tree.{Node, node, Nodes, Child, null, ptr, name_of, fresh, InsertError}
use rice_http.Router.Table.{Symbol, lit, par, wild, entry, entry_child}
use rice_http.Router.Insert.{Visit, insert_child}
use rice_http.Router.Insert.Full.{IsFull, IsFullChild, IsLively}
use rice_http.Router.Insert.Focus.{Focus, Keeps, entry-fresh}

module _ {ℓ} {H : Type ℓ} where
  pub record ChildFocus (c c' : Child H) (name : Bytes) (k : Visit H) (e : Option InsertError)
      : Type ℓ where
    pub at : Node H
    pub before : (q : List Symbol) → entry at q ≡ entry_child c name q
    pub error : e ≡ (k at).1
    pub filled : IsFullChild c → IsFull at
    pub after : (q : List Symbol) → entry_child c' name q ≡ entry (k at).0 q
    pub elsewhere :
        (other : Bytes) (q : List Symbol)
        → other ≢ name
        → entry_child c' other q ≡ entry_child c other q

  entry_child_self :
      (n : Node H) (name : Bytes)
      → name_of n ≡ name
      → (q : List Symbol) → entry_child (ptr n) name q ≡ entry n q
  unfolding entry
  entry_child_self n name e q = rw (e, bytes_eq_self name)

  entry_child-other :
      (n : Node H) (name : Bytes)
      → name_of n ≢ name
      → (q : List Symbol) → entry_child (ptr n) name q ≡ none
  unfolding entry
  entry_child-other n name e q = ground (arith, bytes_eq_iff (name_of n) name)

  null-ChildFocus :
      (name : Bytes) (k : Visit H)
      → Keeps k
      → ChildFocus null (ptr (k (fresh [] name)).0) name k (k (fresh [] name)).1
  unfolding entry IsFull
  null-ChildFocus name k keep = record {
    at = fresh [] name;
    before = λ q. entry-fresh [] name q;
    error = refl;
    filled = λ _. (tt, tt, tt);
    after = entry_child_self (k (fresh [] name)).0 name (keep (fresh [] name)).1;
    elsewhere = λ other q ne.
        entry_child-other (k (fresh [] name)).0 other (λ e. ne (sym e ∙ (keep (fresh [] name)).1))
          q;
  }

  ptr-ChildFocus :
      (n : Node H) (name : Bytes) (k : Visit H)
      → Keeps k
      → name_of n ≡ name
      → ChildFocus (ptr n) (ptr (k n).0) name k (k n).1
  unfolding IsFull
  ptr-ChildFocus n name k keep same = record {
    at = n;
    before = λ q. sym (entry_child_self n name same q);
    error = refl;
    filled = λ a. a.1;
    after = entry_child_self (k n).0 name ((keep n).1 ∙ same);
    elsewhere = λ other q ne.
        entry_child-other (k n).0 other (λ e. ne (sym e ∙ (keep n).1 ∙ same)) q
        ∙ sym (entry_child-other n other (λ e. ne (sym e ∙ same)) q);
  }

  -- Either the visit takes place, or the child has another name: an error, and nothing is changed.
  pub insert_child_lem :
      (conflict : Bytes → Bytes → InsertError) (name : Bytes) (k : Visit H)
      → Keeps k
      → (c : Child H)
      → ChildFocus c (insert_child conflict name k c).0 name k (insert_child conflict name k c).1
        ⊎ ((old : Bytes) × (old ≢ name)
            × (insert_child conflict name k c ≡ (c, some (conflict name old)))
            × ((q : List Symbol) → entry_child c name q ≡ none)
            × (IsFullChild c → (q : List Symbol) × (g : H) × (entry_child c old q ≡ some g)))
  unfolding insert_child IsFull
  insert_child_lem conflict name k keep null = inl (null-ChildFocus name k keep)
  insert_child_lem conflict name k keep (ptr n) = elim (Bool-cases (bytes_eq (name_of n) name)) [
    | inl same ↦ inl (rw same (ptr-ChildFocus n name k keep ((bytes_eq_iff _ _).0 same)))
    | inr other ↦
        let ne : name_of n ≢ name = λ e. cc (other, (bytes_eq_iff (name_of n) name).1 e) in
        let held : IsLively n
            → (q : List Symbol) × (g : H) × (entry_child (ptr n) (name_of n) q ≡ some g) =
          λ a. (a.0.0, a.0.1, entry_child_self n (name_of n) refl a.0.0 ∙ a.0.2) in
        inr (name_of n, ne, rw other, entry_child-other n name ne, held)
  ]

  module _ (p : Bytes) (h : Option H) (ss : Nodes H) (nm name : Bytes) (k : Visit H) where
    pub param-Focus :
        (pr pr' w : Child H) (e : Option InsertError)
        → ChildFocus pr pr' name k e
        → Focus
            (IsFull (node p h ss pr w nm))
            (entry (node p h ss pr w nm))
            (entry (node p h ss pr' w nm))
            (par name ∷ [])
            k
            e
    unfolding entry IsFull
    param-Focus pr pr' w e f = record {
      at = f.at;
      before = f.before;
      error = f.error;
      filled = λ a. f.filled a.1;
      after = f.after;
      elsewhere = away;
    }
      where
        away :
            (q : List Symbol)
            → ((s : List Symbol) → q ≢ par name ∷ s)
            → entry (node p h ss pr' w nm) q ≡ entry (node p h ss pr w nm) q
        away [] far = refl
        away (lit x ∷ q) far = refl
        away (par other ∷ q) far = f.elsewhere other q (λ e. far q (ap (λ x. par x ∷ q) e))
        away (wild other ∷ q) far = refl

    pub wildcard-Focus :
        (pr w w' : Child H) (e : Option InsertError)
        → ChildFocus w w' name k e
        → Focus
            (IsFull (node p h ss pr w nm))
            (entry (node p h ss pr w nm))
            (entry (node p h ss pr w' nm))
            (wild name ∷ [])
            k
            e
    unfolding entry IsFull
    wildcard-Focus pr w w' e f = record {
      at = f.at;
      before = f.before;
      error = f.error;
      filled = λ a. f.filled a.2;
      after = f.after;
      elsewhere = away;
    }
      where
        away :
            (q : List Symbol)
            → ((s : List Symbol) → q ≢ wild name ∷ s)
            → entry (node p h ss pr w' nm) q ≡ entry (node p h ss pr w nm) q
        away [] far = refl
        away (lit x ∷ q) far = refl
        away (par other ∷ q) far = refl
        away (wild other ∷ q) far = f.elsewhere other q (λ e. far q (ap (λ x. wild x ∷ q) e))
