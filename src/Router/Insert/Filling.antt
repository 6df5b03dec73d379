-- ===== src/Router/Insert/Filling.antt =====
-- internal/router/tree.go: `insert` keeps a tree full.
use rice_http.Prelude.{Bytes, Option, none, some, List, [], ◌∷◌, ◌≡◌, refl, ◌∙◌, arith, length}
use rice_http.Router.Pattern.{Segment, static, param, wildcard}
use rice_http.Router.Tree.{Node, node, fresh, InsertError, param_conflict, wildcard_conflict}
use rice_http.Router.Table.{Symbol}
use rice_http.Router.Insert.{place, insert_static, visit_static, insert_child, insert_segments}
use rice_http.Router.Insert.Full.{IsFull}
use rice_http.Router.Insert.Growing.{Growing, insert_static-IsFull, insert_child-IsFullChild}
use rice_http.Router.Insert.Entries.{
  Inserted, added, taken, param_clash, wildcard_clash, insert_segments-Inserted,
  insert_segments-Keeps,
}

module _ {ℓ} {H : Type ℓ} where
  Inserted-HasEntry :
      (B A : List Symbol → Option H) (s : List Symbol) (h : H) {r : Option InsertError}
      → Inserted B A s h r
      → (q : List Symbol) × (g : H) × (B q ≡ some g)
      → (q : List Symbol) × (g : H) × (A q ≡ some g)
  Inserted-HasEntry B A s h (added free now others) x = (s, h, now)
  Inserted-HasEntry B A s h (taken old there others) (q, g, e) = (q, g, others q ∙ e)
  Inserted-HasEntry B A s h (param_clash name old ne there others) (q, g, e) = (q, g, others q ∙ e)
  Inserted-HasEntry B A s h (wildcard_clash name old ne there others) (q, g, e) =
      (q, g, others q ∙ e)

  -- Nothing is in the way in a new node.
  insert_segments-fresh :
      (segs : List Segment) (h : H) (p nm : Bytes) → (insert_segments segs h (fresh p nm)).1 ≡ none
  unfolding insert_segments place insert_static visit_static insert_child
  insert_segments-fresh [] h p nm = refl
  insert_segments-fresh (static [] ∷ segs) h p nm = insert_segments-fresh segs h p nm
  insert_segments-fresh (static (b ∷ t) ∷ segs) h p nm = insert_segments-fresh segs h (b ∷ t) []
  insert_segments-fresh (param name ∷ segs) h p nm = insert_segments-fresh segs h [] name
  insert_segments-fresh (wildcard name ∷ segs) h p nm = insert_segments-fresh segs h [] name

  new_entry :
      (B A : List Symbol → Option H) (s : List Symbol) (h : H) (r : Option InsertError)
      → r ≡ none
      → Inserted B A s h r
      → (q : List Symbol) × (g : H) × (A q ≡ some g)
  new_entry B A s h none e (added free now others) = (s, h, now)
  new_entry B A s h (some x) e change = absurd (cc e)

  insert_segments-Growing :
      (segs : List Segment) (h : H)
      → ((n : Node H) → IsFull n → IsFull (insert_segments segs h n).0)
      → Growing (insert_segments segs h)
  insert_segments-Growing segs h fill = record {
    lives = λ n has. Inserted-HasEntry _ _ _ h (insert_segments-Inserted segs h n) has;
    grows = λ p nm.
        new_entry _ _ _ h _ (insert_segments-fresh segs h p nm)
          (insert_segments-Inserted segs h (fresh p nm));
    fills = fill;
  }

  pub insert_segments-IsFull :
      (segs : List Segment) (h : H) (n : Node H) → IsFull n → IsFull (insert_segments segs h n).0
  unfolding insert_segments place IsFull
  insert_segments-IsFull [] h (node p none ss pr w nm) full = full
  insert_segments-IsFull [] h (node p (some old) ss pr w nm) full = full
  insert_segments-IsFull (static text ∷ segs) h n full =
      insert_static-IsFull (insert_segments segs h) (insert_segments-Keeps segs h)
        (insert_segments-Growing segs h (λ m a. insert_segments-IsFull segs h m a)) (length text)
        text n (omega arith) full
  insert_segments-IsFull (param name ∷ segs) h (node p hd ss pr w nm) (full, at_param, at_wild) = (
    full,
    insert_child-IsFullChild (insert_segments segs h) (insert_segments-Keeps segs h)
        (insert_segments-Growing segs h (λ m a. insert_segments-IsFull segs h m a)) param_conflict
        name pr at_param,
    at_wild,
  )
  insert_segments-IsFull (wildcard name ∷ segs) h (node p hd ss pr w nm) (full, at_param, at_wild) =
      (
        full,
        at_param,
        insert_child-IsFullChild (insert_segments segs h) (insert_segments-Keeps segs h)
            (insert_segments-Growing segs h (λ m a. insert_segments-IsFull segs h m a))
            wildcard_conflict name w at_wild,
      )
