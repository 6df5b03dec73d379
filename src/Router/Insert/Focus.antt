-- ===== src/Router/Insert/Focus.antt =====
-- internal/router/tree.go: the walk of `insertStatic` to the node of a text, and the visit there.
use rice_http.Prelude.{
  ℕ, Bytes, true, false, Option, none, List, [], ◌∷◌, ◌++◌, ◌≡◌, ◌≢◌, inl, inr, refl, sym, ◌∙◌,
  ==_self, Bool-cases, Option-cases,
}
use rice_http.Router.Tree.{
  Node, Nodes, nil, cons, starts_like, prefix_of, name_of, fresh, InsertError,
}
use rice_http.Router.Table.{Symbol, lit, par, wild, lits, strip_lits, entry}
use rice_http.Router.Tree.Matching.{lits-strip, strip_lits-lits}
use rice_http.Router.Tree.Static.{static_part}
use rice_http.Router.Insert.{Visit, visit_static}
use rice_http.Router.Insert.Split.{through}
use rice_http.Router.Insert.Full.{IsFull, AreFull, IsLively}

module _ {ℓ} {H : Type ℓ} where
  -- A visit below a pattern `u`: from the table `B` to the table `A`. The visited node holds what
  -- `B` holds below `u`, the node that the visit leaves holds what `A` does, and the patterns that
  -- do not begin with `u` keep their handlers. If `F`, that the tree is full, the visited node is.
  pub record Focus (F : Type ℓ) (B A : List Symbol → Option H) (u : List Symbol) (k : Visit H)
      (e : Option InsertError) : Type ℓ where
    pub at : Node H
    pub before : (q : List Symbol) → entry at q ≡ B (u ++ q)
    pub error : e ≡ (k at).1
    pub filled : F → IsFull at
    pub after : (q : List Symbol) → A (u ++ q) ≡ entry (k at).0 q
    pub elsewhere : (q : List Symbol) → ((s : List Symbol) → q ≢ u ++ s) → A q ≡ B q

  abbrev pub Keeps : Visit H → Type ℓ
  Keeps k = (n : Node H) → (prefix_of (k n).0 ≡ prefix_of n) × (name_of (k n).0 ≡ name_of n)

  pub entry-fresh : (p nm : Bytes) (q : List Symbol) → entry {H = H} (fresh p nm) q ≡ none
  unfolding entry
  entry-fresh p nm [] = refl
  entry-fresh p nm (lit b ∷ q) = refl
  entry-fresh p nm (par name ∷ q) = refl
  entry-fresh p nm (wild name ∷ q) = refl

  pub through-prefix :
      (c : Node H) (p : Bytes)
      → prefix_of c ≡ p
      → (q : List Symbol) → through c (lits p ++ q) ≡ entry c q
  through-prefix c p e q = rw (e, strip_lits-lits p q)

  static_part-here :
      (c : Node H) (cs : Nodes H) (b : ℕ) (s : List Symbol)
      → starts_like (prefix_of c) (b ∷ []) ≡ true
      → static_part (cons c cs) (lit b ∷ s) ≡ through c (lit b ∷ s)
  unfolding entry
  static_part-here c cs b s here = rw here

  static_part-other :
      (c : Node H) (cs : Nodes H) (b : ℕ) (s : List Symbol)
      → starts_like (prefix_of c) (b ∷ []) ≡ false
      → static_part (cons c cs) (lit b ∷ s) ≡ static_part cs (lit b ∷ s)
  unfolding entry
  static_part-other c cs b s other = rw other

  through-nowhere :
      (c : Node H) (p : Bytes)
      → prefix_of c ≡ p
      → (q : List Symbol) → ((s : List Symbol) → q ≢ lits p ++ s)
      → through c q ≡ none
  through-nowhere c p e q away = elim (Option-cases (strip_lits p q)) [
    | inl off ↦ rw (e, off)
    | inr (s, on) ↦ absurd (away s (lits-strip p on))
  ]

  module _ (b : ℕ) (t : Bytes) (k : Visit H) (keep : Keeps k) where
    leaf-Focus :
        Focus
          (AreFull {H = H} nil)
          (static_part nil)
          (static_part (cons (k (fresh (b ∷ t) [])).0 nil))
          (lits (b ∷ t))
          k
          (k (fresh (b ∷ t) [])).1
    unfolding entry IsFull
    leaf-Focus = record {
      at = fresh (b ∷ t) [];
      before = λ q. entry-fresh (b ∷ t) [] q;
      error = refl;
      filled = λ _. (tt, tt, tt);
      after = λ q.
          static_part-here made nil b (lits t ++ q) (rw (kept, ==_self b))
          ∙ through-prefix made (b ∷ t) kept q;
      elsewhere = away;
    }
      where
        made : Node H
        made = (k (fresh (b ∷ t) [])).0

        kept : prefix_of made ≡ b ∷ t
        kept = (keep (fresh (b ∷ t) [])).0

        away :
            (q : List Symbol)
            → ((s : List Symbol) → q ≢ lits (b ∷ t) ++ s)
            → static_part (cons made nil) q ≡ static_part {H = H} nil q
        away [] far = refl
        away (lit c ∷ q) far = elim (Bool-cases (starts_like (prefix_of made) (c ∷ []))) [
          | inl here ↦
              static_part-here made nil c q here ∙ through-nowhere made (b ∷ t) kept (lit c ∷ q) far
          | inr other ↦ static_part-other made nil c q other
        ]
        away (par name ∷ q) far = refl
        away (wild name ∷ q) far = refl

    -- What the visit of the child that begins like the text does.
    abbrev pub Found : Visit H → Type ℓ
    Found found =
        (c : Node H)
        → starts_like (prefix_of c) (b ∷ t) ≡ true
        → Focus (IsLively c) (through c) (through (found c).0) (lits (b ∷ t)) k (found c).1
          × ((x : ℕ)
              → starts_like (prefix_of (found c).0) (x ∷ []) ≡ starts_like (prefix_of c) (x ∷ []))

    found-Focus :
        (c c' : Node H) (cs : Nodes H) (e : Option InsertError)
        → starts_like (prefix_of c) (b ∷ []) ≡ true
        → Focus (IsLively c) (through c) (through c') (lits (b ∷ t)) k e
        → ((x : ℕ) → starts_like (prefix_of c') (x ∷ []) ≡ starts_like (prefix_of c) (x ∷ []))
        → Focus
            (AreFull (cons c cs))
            (static_part (cons c cs))
            (static_part (cons c' cs))
            (lits (b ∷ t))
            k
            e
    unfolding IsFull
    found-Focus c c' cs e here f head = record {
      at = f.at;
      before = λ q. f.before q ∙ sym (static_part-here c cs b (lits t ++ q) here);
      error = f.error;
      filled = λ a. f.filled a.0;
      after = λ q. static_part-here c' cs b (lits t ++ q) (head b ∙ here) ∙ f.after q;
      elsewhere = away;
    }
      where
        away :
            (q : List Symbol)
            → ((s : List Symbol) → q ≢ lits (b ∷ t) ++ s)
            → static_part (cons c' cs) q ≡ static_part (cons c cs) q
        away [] far = refl
        away (lit x ∷ q) far = elim (Bool-cases (starts_like (prefix_of c) (x ∷ []))) [
          | inl on ↦
              static_part-here c' cs x q (head x ∙ on)
              ∙ f.elsewhere (lit x ∷ q) far
              ∙ sym (static_part-here c cs x q on)
          | inr off ↦
              static_part-other c' cs x q (head x ∙ off) ∙ sym (static_part-other c cs x q off)
        ]
        away (par name ∷ q) far = refl
        away (wild name ∷ q) far = refl

    skip-Focus :
        (c : Node H) (cs cs' : Nodes H) (e : Option InsertError)
        → starts_like (prefix_of c) (b ∷ []) ≡ false
        → Focus (AreFull cs) (static_part cs) (static_part cs') (lits (b ∷ t)) k e
        → Focus
            (AreFull (cons c cs))
            (static_part (cons c cs))
            (static_part (cons c cs'))
            (lits (b ∷ t))
            k
            e
    unfolding IsFull
    skip-Focus c cs cs' e other f = record {
      at = f.at;
      before = λ q. f.before q ∙ sym (static_part-other c cs b (lits t ++ q) other);
      error = f.error;
      filled = λ a. f.filled a.1;
      after = λ q. static_part-other c cs' b (lits t ++ q) other ∙ f.after q;
      elsewhere = away;
    }
      where
        away :
            (q : List Symbol)
            → ((s : List Symbol) → q ≢ lits (b ∷ t) ++ s)
            → static_part (cons c cs') q ≡ static_part (cons c cs) q
        away [] far = refl
        away (lit x ∷ q) far = elim (Bool-cases (starts_like (prefix_of c) (x ∷ []))) [
          | inl on ↦ static_part-here c cs' x q on ∙ sym (static_part-here c cs x q on)
          | inr off ↦
              static_part-other c cs' x q off
              ∙ f.elsewhere (lit x ∷ q) far
              ∙ sym (static_part-other c cs x q off)
        ]
        away (par name ∷ q) far = refl
        away (wild name ∷ q) far = refl

    starts_like_short : (p : Bytes) → starts_like p (b ∷ t) ≡ starts_like p (b ∷ [])
    starts_like_short [] = refl
    starts_like_short (a ∷ p) = refl

    pub visit_static-Focus :
        (ss : Nodes H) (found : Visit H)
        → Found found
        → Focus
            (AreFull ss)
            (static_part ss)
            (static_part (visit_static ss (b ∷ t) found k).0)
            (lits (b ∷ t))
            k
            (visit_static ss (b ∷ t) found k).1
    unfolding visit_static
    visit_static-Focus nil found fs = leaf-Focus
    visit_static-Focus (cons c cs) found fs =
        elim (Bool-cases (starts_like (prefix_of c) (b ∷ t))) [
          | inl here ↦ rw here (
              found-Focus c (found c).0 cs (found c).1 (sym (starts_like_short _) ∙ here)
                (fs c here).0 (fs c here).1)
          | inr other ↦ rw other (
              skip-Focus c cs _ _ (sym (starts_like_short _) ∙ other)
                (visit_static-Focus cs found fs))
        ]
