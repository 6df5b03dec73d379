-- ===== src/Router/Insert/Entries.antt =====
-- internal/router/tree.go: what `insert` does to the table that the tree stands for.
use rice_http.Prelude.{
  Bytes, Option, none, some, List, [], ◌∷◌, ◌++◌, ◌≡◌, ◌≢◌, ◌⊎◌, inl, inr, refl, sym, ap, ◌∙◌,
  arith, length,
}
use rice_http.Router.Pattern.{Segment, static, param, wildcard}
use rice_http.Router.Tree.{
  Node, node, fresh, InsertError, duplicate, param_conflict, wildcard_conflict,
}
use rice_http.Router.Table.{Symbol, lit, par, wild, lits, symbols, entry}
use rice_http.Router.Insert.{Visit, place, insert_segments}
use native.Mathlib.Decide.{ℕ_discrete}
use rice_http.Router.Insert.Focus.{Focus, Keeps}
use rice_http.Router.Insert.Walk.{insert_static-Keeps, insert_static-Focus}
use rice_http.Router.Insert.ChildFocus.{insert_child_lem, param-Focus, wildcard-Focus}

pub Symbol-discrete : Discrete Symbol
Symbol-discrete = hlevel ℕ_discrete

pub prefix_cases :
    (u q : List Symbol) → ((s : List Symbol) × (q ≡ u ++ s)) ⊎ ((s : List Symbol) → q ≢ u ++ s)
prefix_cases [] q = inl (q, refl)
prefix_cases (a ∷ u) [] = inr (λ s e. cc)
prefix_cases (a ∷ u) (b ∷ q) = elim (Symbol-discrete a b) [
  | yes same ↦ elim (prefix_cases u q) [
    | inl (s, e) ↦ inl (s, cc)
    | inr off ↦ inr (λ s e. off s (cc e))
  ]
  | no other ↦ inr (λ s e. other (cc e))
]

module _ {ℓ} {H : Type ℓ} (B A : List Symbol → Option H) (s : List Symbol) (h : H) where
  -- What became of the attempt to add the pattern `s`, from the table `B` to the table `A`: it is
  -- added and no other pattern changes; or it was there; or it was free, and a conflict with another
  -- name is returned. Whenever an error is returned the table is as it was.
  pub data Inserted : Option InsertError → Type ℓ where
    added : B s ≡ none → A s ≡ some h → ((q : List Symbol) → q ≢ s → A q ≡ B q) → Inserted none
    taken : (old : H) → B s ≡ some old → ((q : List Symbol) → A q ≡ B q) → Inserted (some duplicate)
    param_clash :
        (name old : Bytes)
        → old ≢ name
        → B s ≡ none
        → ((q : List Symbol) → A q ≡ B q)
        → Inserted (some (param_conflict name old))
    wildcard_clash :
        (name old : Bytes)
        → old ≢ name
        → B s ≡ none
        → ((q : List Symbol) → A q ≡ B q)
        → Inserted (some (wildcard_conflict name old))

module _ {ℓ} {H : Type ℓ} where
  Focus-same :
      (F : Type ℓ) (B A : List Symbol → Option H) (u : List Symbol) (k : Visit H)
      (e : Option InsertError) (f : Focus F B A u k e)
      → ((q : List Symbol) → entry (k f.at).0 q ≡ entry f.at q)
      → (q : List Symbol) → A q ≡ B q
  Focus-same F B A u k e f others q = elim (prefix_cases u q) [
    | inl (s, on) ↦ ap A on ∙ f.after s ∙ others s ∙ f.before s ∙ sym (ap B on)
    | inr off ↦ f.elsewhere q off
  ]

  Focus-Inserted :
      (F : Type ℓ) (B A : List Symbol → Option H) (u s : List Symbol) (h : H) (k : Visit H)
      (e : Option InsertError) (f : Focus F B A u k e) {r : Option InsertError}
      → Inserted (entry f.at) (entry (k f.at).0) s h r
      → Inserted B A (u ++ s) h r
  Focus-Inserted F B A u s h k e f (added fresh now others) =
      added (sym (f.before s) ∙ fresh) (f.after s ∙ now) rest
    where
      rest : (q : List Symbol) → q ≢ u ++ s → A q ≡ B q
      rest q ne = elim (prefix_cases u q) [
        | inl (s', on) ↦
            ap A on
            ∙ f.after s'
            ∙ others s' (λ eq. ne (on ∙ ap (λ l. u ++ l) eq))
            ∙ f.before s'
            ∙ sym (ap B on)
        | inr off ↦ f.elsewhere q off
      ]
  Focus-Inserted F B A u s h k e f (taken old there others) =
      taken old (sym (f.before s) ∙ there) (Focus-same F B A u k e f others)
  Focus-Inserted F B A u s h k e f (param_clash name old ne there others) =
      param_clash name old ne (sym (f.before s) ∙ there) (Focus-same F B A u k e f others)
  Focus-Inserted F B A u s h k e f (wildcard_clash name old ne there others) =
      wildcard_clash name old ne (sym (f.before s) ∙ there) (Focus-same F B A u k e f others)

  place-Inserted :
      (h : H) (n : Node H) → Inserted (entry n) (entry (place h n).0) [] h (place h n).1
  unfolding place entry
  place-Inserted h (node p none ss pr w nm) = added refl refl others
    where
      others :
          (q : List Symbol)
          → q ≢ []
          → entry (node p (some h) ss pr w nm) q ≡ entry (node p none ss pr w nm) q
      others [] ne = absurd (ne refl)
      others (lit b ∷ q) ne = refl
      others (par name ∷ q) ne = refl
      others (wild name ∷ q) ne = refl
  place-Inserted h (node p (some old) ss pr w nm) = taken old refl (λ q. refl)

  pub insert_segments-Keeps : (segs : List Segment) (h : H) → Keeps (insert_segments segs h)
  unfolding insert_segments place
  insert_segments-Keeps [] h (node p none ss pr w nm) = (refl, refl)
  insert_segments-Keeps [] h (node p (some old) ss pr w nm) = (refl, refl)
  insert_segments-Keeps (static text ∷ segs) h n =
      insert_static-Keeps (length text) text _ (insert_segments-Keeps segs h) n
  insert_segments-Keeps (param name ∷ segs) h (node p hd ss pr w nm) = (refl, refl)
  insert_segments-Keeps (wildcard name ∷ segs) h (node p hd ss pr w nm) = (refl, refl)

  pub insert_segments-Inserted :
      (segs : List Segment) (h : H) (n : Node H)
      → Inserted
          (entry n)
          (entry (insert_segments segs h n).0)
          (symbols segs)
          h
          (insert_segments segs h n).1
  unfolding insert_segments
  insert_segments-Inserted [] h n = place-Inserted h n
  insert_segments-Inserted (static text ∷ segs) h n =
      let f =
        insert_static-Focus (length text) text (insert_segments segs h)
          (insert_segments-Keeps segs h) n (omega arith) in
      rw f.error (
        Focus-Inserted _ _ _ (lits text) (symbols segs) h (insert_segments segs h) _ f
          (insert_segments-Inserted segs h f.at))
  insert_segments-Inserted (param name ∷ segs) h (node p hd ss pr w nm) =
      elim (insert_child_lem param_conflict name (insert_segments segs h)
        (insert_segments-Keeps segs h) pr) [
          | inl c ↦
              let f = param-Focus p hd ss nm name (insert_segments segs h) pr _ w _ c in
              rw f.error (
                Focus-Inserted _ _ _ (par name ∷ []) (symbols segs) h (insert_segments segs h) _ f
                  (insert_segments-Inserted segs h f.at))
          | inr (old, ne, stays, there, held) ↦
              rw stays (param_clash name old ne (unfold entry in there (symbols segs)) (λ q. refl))
        ]
  insert_segments-Inserted (wildcard name ∷ segs) h (node p hd ss pr w nm) =
      elim (insert_child_lem wildcard_conflict name (insert_segments segs h)
        (insert_segments-Keeps segs h) w) [
          | inl c ↦
              let f = wildcard-Focus p hd ss nm name (insert_segments segs h) pr w _ _ c in
              rw f.error (
                Focus-Inserted _ _ _ (wild name ∷ []) (symbols segs) h (insert_segments segs h) _ f
                  (insert_segments-Inserted segs h f.at))
          | inr (old, ne, stays, there, held) ↦
              rw stays
                (wildcard_clash name old ne (unfold entry in there (symbols segs)) (λ q. refl))
        ]
