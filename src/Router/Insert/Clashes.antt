-- ===== src/Router/Insert/Clashes.antt =====
-- internal/router/tree.go: what stands in the way when `insert` returns a conflict.
use rice_http.Prelude.{
  Option, none, some, List, [], ◌∷◌, ◌++◌, ◌≡◌, inl, inr, refl, sym, ap, ◌∙◌, arith, length,
  append_assoc,
}
use rice_http.Router.Pattern.{Segment, static, param, wildcard}
use rice_http.Router.Tree.{Node, node, InsertError, duplicate, param_conflict, wildcard_conflict}
use rice_http.Router.Table.{Symbol, par, wild, lits, symbols, entry}
use rice_http.Router.Insert.{place, insert_segments}
use rice_http.Router.Insert.Full.{IsFull}
use rice_http.Router.Insert.Walk.{insert_static-Focus}
use rice_http.Router.Insert.ChildFocus.{insert_child_lem, param-Focus, wildcard-Focus}
use rice_http.Router.Insert.Entries.{insert_segments-Keeps}

module _ {ℓ} {H : Type ℓ} where
  -- A registered pattern goes on with the symbol `old` where the pattern `s` goes on with `new`.
  abbrev pub InTheWay : (List Symbol → Option H) → List Symbol → Symbol → Symbol → Type ℓ
  InTheWay B s new old =
      (u : List Symbol) × (v : List Symbol) × (q : List Symbol) × (g : H) × (s ≡ u ++ new ∷ v)
      × (B (u ++ old ∷ q) ≡ some g)

  -- The pattern that a conflict is about.
  abbrev pub Clashes : (List Symbol → Option H) → List Symbol → Option InsertError → Type ℓ
  Clashes B s none = Unit
  Clashes B s (some duplicate) = Unit
  Clashes B s (some (param_conflict name old)) = InTheWay B s (par name) (par old)
  Clashes B s (some (wildcard_conflict name old)) = InTheWay B s (wild name) (wild old)

  further :
      (C B : List Symbol → Option H) (u s : List Symbol) (new old : Symbol)
      → ((q : List Symbol) → C q ≡ B (u ++ q))
      → InTheWay C s new old
      → InTheWay B (u ++ s) new old
  further C B u s new old same (u', v, q, g, cut, e) = (
    u ++ u',
    v,
    q,
    g,
    ap (λ l. u ++ l) cut ∙ sym (append_assoc u u' (new ∷ v)),
    ap B (append_assoc u u' (old ∷ q)) ∙ sym (same (u' ++ old ∷ q)) ∙ e,
  )

  Clashes-further :
      (C B : List Symbol → Option H) (u s : List Symbol) (r : Option InsertError)
      → ((q : List Symbol) → C q ≡ B (u ++ q))
      → Clashes C s r
      → Clashes B (u ++ s) r
  Clashes-further C B u s none same c = tt
  Clashes-further C B u s (some duplicate) same c = tt
  Clashes-further C B u s (some (param_conflict name old)) same c =
      further C B u s (par name) (par old) same c
  Clashes-further C B u s (some (wildcard_conflict name old)) same c =
      further C B u s (wild name) (wild old) same c

  pub insert_segments-Clashes :
      (segs : List Segment) (h : H) (n : Node H)
      → IsFull n
      → Clashes (entry n) (symbols segs) (insert_segments segs h n).1
  unfolding insert_segments place IsFull
  insert_segments-Clashes [] h (node p none ss pr w nm) full = tt
  insert_segments-Clashes [] h (node p (some old) ss pr w nm) full = tt
  insert_segments-Clashes (static text ∷ segs) h n full =
      let f =
        insert_static-Focus (length text) text (insert_segments segs h)
          (insert_segments-Keeps segs h) n (omega arith) in
      rw f.error (
        Clashes-further (entry f.at) (entry n) (lits text) (symbols segs) _ f.before
          (insert_segments-Clashes segs h f.at (f.filled full)))
  insert_segments-Clashes (param name ∷ segs) h (node p hd ss pr w nm) full =
      elim (insert_child_lem param_conflict name (insert_segments segs h)
        (insert_segments-Keeps segs h) pr) [
          | inl c ↦
              let f = param-Focus p hd ss nm name (insert_segments segs h) pr _ w _ c in
              rw f.error (
                Clashes-further (entry f.at) (entry (node p hd ss pr w nm)) (par name ∷ [])
                  (symbols segs) _ f.before (insert_segments-Clashes segs h f.at (f.filled full)))
          | inr (old, ne, stays, there, held) ↦
              let (q, g, e) = held full.1 in
              rw stays ([], symbols segs, q, g, refl, unfold entry in e)
        ]
  insert_segments-Clashes (wildcard name ∷ segs) h (node p hd ss pr w nm) full =
      elim (insert_child_lem wildcard_conflict name (insert_segments segs h)
        (insert_segments-Keeps segs h) w) [
          | inl c ↦
              let f = wildcard-Focus p hd ss nm name (insert_segments segs h) pr w _ _ c in
              rw f.error (
                Clashes-further (entry f.at) (entry (node p hd ss pr w nm)) (wild name ∷ [])
                  (symbols segs) _ f.before (insert_segments-Clashes segs h f.at (f.filled full)))
          | inr (old, ne, stays, there, held) ↦
              let (q, g, e) = held full.2 in
              rw stays ([], symbols segs, q, g, refl, unfold entry in e)
        ]
