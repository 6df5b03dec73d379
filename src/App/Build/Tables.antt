-- ===== src/App/Build/Tables.antt =====
-- build.go: the tables that the loop over the routes leaves.
use mathlib.Core.Option
use rice_http.Prelude.{
  Bytes, Option, none, some, List, [], ◌∷◌, ◌≡◌, ◌≢◌, ◌⊎◌, ◌↔◌, inl, inr, refl, sym, ◌∙◌, ap,
  Option-cases, bytes_eq, bytes_eq_iff, bytes_ne, Bool-cases,
}
use rice_http.Router.Pattern.{Segment, PatternError, parse_pattern}
use rice_http.Router.Pattern
use rice_http.Router.RouteTree.{Tree, RouteError, insert, count_params, rejected}
use rice_http.Router.RouteTree.Contract.{table, DidInsert, insert-DidInsert, insert_malformed}
use rice_http.Router.Table.{Symbol, symbols}
use rice_http.Router.Tree.{InsertError}
use rice_http.Router.Insert.Entries.{Inserted, added, Symbol-discrete}
use rice_http.App.Trees.{Trees, tree_for, insert_route}
use rice_http.App.Trees.Slots.{tree_for-put_tree_self, tree_for-put_tree_other}
use rice_http.App.Model.{Route, Entry, Panic, ok, panic}
use rice_http.App.Build.{insert_all}

pattern-discrete : Discrete (List Symbol)
pattern-discrete = hlevel Symbol-discrete

parse_cases :
    (r : Pattern.Result (List Segment))
    → ((segs : List Segment) × (r ≡ Pattern.ok segs)) ⊎ ((e : PatternError) × (r ≡ Pattern.err e))
parse_cases (Pattern.ok segs) = inl (segs, refl)
parse_cases (Pattern.err e) = inr (e, refl)

module _ (u : Bytes → Option Bytes) where
  -- The path parses as the pattern `s`.
  pub record Spells (path : Bytes) (s : List Symbol) : Type 0 where
    pub segs : List Segment
    pub parsed : parse_pattern u path ≡ Pattern.ok segs
    pub spelled : symbols segs ≡ s

  -- A route has the method and the pattern, and stands for the entry.
  abbrev pub Serves {ℓ} :
      {H : Type ℓ} → (Route H → Entry H) → Route H → Bytes → List Symbol → Entry H → Type ℓ
  Serves f r m s e = (r.method ≡ m) × Spells r.path s × (f r ≡ e)

  pub data SomeServes {ℓ} {H : Type ℓ} (f : Route H → Entry H) (m : Bytes) (s : List Symbol)
      (e : Entry H) : List (Route H) → Type ℓ where
    this : {r : Route H} {rs : List (Route H)} → Serves f r m s e → SomeServes f m s e (r ∷ rs)
    later :
        {r : Route H} {rs : List (Route H)} → SomeServes f m s e rs → SomeServes f m s e (r ∷ rs)

-- What one insertion without an error does to the table of its tree.
module _ {ℓ} {E : Type ℓ} (u : Bytes → Option Bytes) (p : Bytes) (h : E) (t : Tree E)
    (went : (insert u p h t).1 ≡ none) where
  abbrev after : Tree E
  after = (insert u p h t).0

  inserted_parses : (segs : List Segment) × (parse_pattern u p ≡ Pattern.ok segs)
  inserted_parses = elim (parse_cases (parse_pattern u p)) [
    | inl (segs, e) ↦ (segs, e)
    | inr (e, bad) ↦ absurd (clash (sym (ap (λ r. r.1) (insert_malformed u p h t e bad)) ∙ went))
  ]
    where
      clash : {e : RouteError} → some e ≡ none → ⊥
      clash x = cc

  inserted_added :
      (segs : List Segment)
      → parse_pattern u p ≡ Pattern.ok segs
      → (table t (symbols segs) ≡ none)
        × (table after (symbols segs) ≡ some h)
        × ((q : List Symbol) → q ≢ symbols segs → table after q ≡ table t q)
  inserted_added segs parsed = go (insert-DidInsert u p h t segs parsed)
    where
      of_change :
          (c : Option InsertError)
          → Inserted (table t) (table after) (symbols segs) h c
          → none ≡ Option.map rejected c
          → (table t (symbols segs) ≡ none)
            × (table after (symbols segs) ≡ some h)
            × ((q : List Symbol) → q ≢ symbols segs → table after q ≡ table t q)
      of_change none (added free now others) e = (free, now, others)
      of_change (some c) change e = absurd (cc)

      go :
          DidInsert t after (symbols segs) (count_params segs) h (insert u p h t).1
          → (table t (symbols segs) ≡ none)
            × (table after (symbols segs) ≡ some h)
            × ((q : List Symbol) → q ≢ symbols segs → table after q ≡ table t q)
      go d = of_change d.cause d.change (sym went ∙ d.error)

  hit_lem : {o : Option E} {a b : E} → o ≡ some a → o ≡ some b → a ≡ b
  hit_lem p q = cc

  free_lem : {o : Option E} {a : E} → o ≡ none → o ≡ some a → ⊥
  free_lem p q = cc

  same_segs :
      {r : Pattern.Result (List Segment)} {xs ys : List Segment}
      → r ≡ Pattern.ok xs
      → r ≡ Pattern.ok ys
      → xs ≡ ys
  same_segs p q = cc

  pub insert_table :
      (s : List Symbol) (e : E)
      → (table after s ≡ some e) ↔ ((Spells u p s × (h ≡ e)) ⊎ (table t s ≡ some e))
  insert_table s e =
      let (segs, parsed) = inserted_parses in
      let (free, now, others) = inserted_added segs parsed in
      elim (pattern-discrete s (symbols segs)) [
        | yes same ↦ (
          λ x. inl (
            record { segs = segs; parsed = parsed; spelled = sym same },
            hit_lem now (rw same at x),
          ),
          λ o. elim o [
            | inl (sp, he) ↦ ap (table after) same ∙ now ∙ ap some he
            | inr old ↦ absurd (free_lem free (rw same at old))
          ],
        )
        | no differs ↦ (
          λ x. inr (sym (others s differs) ∙ x),
          λ o. elim o [
            | inl (sp, he) ↦
                absurd (differs (sym sp.spelled ∙ ap symbols (same_segs sp.parsed parsed)))
            | inr old ↦ others s differs ∙ old
          ],
        )
      ]

module _ {ℓ} {H : Type ℓ} (u : Bytes → Option Bytes) (f : Route H → Entry H) where
  -- One round of the loop, for every method.
  round_table :
      (r : Route H) (ts : Trees (Entry H))
      → (insert_route u r.method r.path (f r) ts).1 ≡ none
      → (m : Bytes) (s : List Symbol) (e : Entry H)
      → (table (tree_for (insert_route u r.method r.path (f r) ts).0 m) s ≡ some e)
        ↔ (Serves u f r m s e ⊎ (table (tree_for ts m) s ≡ some e))
  unfolding insert_route
  round_table r ts went m s e = elim (Bool-cases (bytes_eq r.method m)) [
    | inl here ↦
        let same = (bytes_eq_iff r.method m).0 here in
        let one = insert_table u r.path (f r) (tree_for ts r.method) went s e in
        rw (← same, tree_for-put_tree_self ts r.method _)
          (
            (λ x. elim (one.0 x) [ inl (sp, fe) ↦ inl (refl, sp, fe) | inr old ↦ inr old ]),
            (λ o. one.1 (elim o [ inl (mm, sp, fe) ↦ inl (sp, fe) | inr old ↦ inr old ])),
          )
    | inr other ↦
        let off = bytes_ne r.method m other in
        rw (tree_for-put_tree_other ts r.method m _ off)
          ((λ x. inr x), (λ o. elim o [ inl (mm, sp, fe) ↦ absurd (off mm) | inr old ↦ old ]))
  ]

  no_ok : {e : Panic} {us : Trees (Entry H)} → panic e ≡ ok us → ⊥
  no_ok h = cc

  none_serves : {m : Bytes} {s : List Symbol} {e : Entry H} → SomeServes u f m s e [] → ⊥
  none_serves h = elim h [ ]

  first_or_later :
      {m : Bytes} {s : List Symbol} {e : Entry H} {r : Route H} {rs : List (Route H)}
      → SomeServes u f m s e (r ∷ rs)
      → Serves u f r m s e ⊎ SomeServes u f m s e rs
  first_or_later (this h) = inl h
  first_or_later (later h) = inr h

  pub insert_all-table :
      (rs : List (Route H)) (ts us : Trees (Entry H))
      → insert_all u f rs ts ≡ ok us
      → (m : Bytes) (s : List Symbol) (e : Entry H)
      → (table (tree_for us m) s ≡ some e)
        ↔ (SomeServes u f m s e rs ⊎ (table (tree_for ts m) s ≡ some e))
  unfolding insert_all
  insert_all-table [] ts us done m s e =
      let same : ts ≡ us = cc in
      rw (← same) ((λ x. inr x), (λ o. elim o [ inl n ↦ absurd (none_serves n) | inr x ↦ x ]))
  insert_all-table (r ∷ rs) ts us done m s e =
      elim (Option-cases (insert_route u r.method r.path (f r) ts).1) [
        | inl went ↦
            let rest = insert_all-table rs _ us (rw went at done) m s e in
            let first = round_table r ts went m s e in
            (
              (λ x. elim (rest.0 x) [
                | inl l ↦ inl (later l)
                | inr t ↦ elim (first.0 t) [ inl h ↦ inl (this h) | inr old ↦ inr old ]
              ]),
              (λ o. rest.1 (elim o [
                | inl some_ ↦ elim (first_or_later some_) [
                  | inl h ↦ inr (first.1 (inl h))
                  | inr l ↦ inl l
                ]
                | inr old ↦ inr (first.1 (inr old))
              ])),
            )
        | inr (e', failed) ↦ absurd (no_ok (rw failed at done))
      ]

-- The route is in the list.
pub data Among {ℓ} {H : Type ℓ} (r : Route H) : List (Route H) → Type ℓ where
  first : {rs : List (Route H)} → Among r (r ∷ rs)
  rest : {q : Route H} {rs : List (Route H)} → Among r rs → Among r (q ∷ rs)

module _ {ℓ} {H : Type ℓ} (u : Bytes → Option Bytes) (f : Route H → Entry H) where
  pub server :
      {m : Bytes} {s : List Symbol} {e : Entry H} {rs : List (Route H)}
      → SomeServes u f m s e rs
      → (r : Route H) × Among r rs × Serves u f r m s e
  server (this {r} h) = (r, first, h)
  server (later l) = let (r, among, h) = server l in (r, rest among, h)

  pub serves :
      {m : Bytes} {s : List Symbol} {r : Route H} {rs : List (Route H)}
      → Among r rs
      → r.method ≡ m
      → Spells u r.path s
      → SomeServes u f m s (f r) rs
  serves first mm sp = this (mm, sp, refl)
  serves (rest a) mm sp = later (serves a mm sp)
