-- ===== src/Router/Insert.antt =====
-- internal/router/tree.go: insertion. `insert` walks to the node of a pattern and goes on from the
-- node that `insertStatic` returns: here the walk takes what is to be done there, as a function
-- from that node to the node it leaves, with the error.
mod Split
pub mod Full
pub mod Focus
mod Walk
mod ChildFocus
pub mod Entries
pub mod Clashes
mod Growing
pub mod Filling
pub mod Relabel
use rice_http.Prelude.{
  ℕ, zero, suc, Bytes, Bool, true, false, not, Option, none, some, List, [], ◌∷◌, ◌==◌, ltb,
  bytes_eq, if◌then◌else◌, length, take, drop, ◌+◌,
}
use rice_http.Router.Pattern.{Segment, static, param, wildcard}
use rice_http.Router.Tree.{
  Node, node, Nodes, nil, cons, Child, null, ptr, starts_like, prefix_of, name_of, fresh,
  InsertError, duplicate, param_conflict, wildcard_conflict,
}

unfoldable pub common_prefix_len : Bytes → Bytes → ℕ
common_prefix_len (a ∷ p) (b ∷ t) = if a == b then suc (common_prefix_len p t) else 0
common_prefix_len _ _ = 0

abbrev pub Visit {ℓ} : Type ℓ → Type ℓ
Visit H = Node H → Node H × Option InsertError

module _ {ℓ} {H : Type ℓ} where
  -- The head that two patterns share keeps its place, and its tail takes all that hung off it.
  unfoldable pub split : ℕ → Node H → Node H
  split cp (node p h ss pr w nm) =
      node (take cp p) none (cons (node (drop cp p) h ss pr w []) nil) null null nm

  -- The child to go on at: split if it shares only a part of its prefix with the text.
  unfoldable pub split_shared : Bytes → Node H → Node H
  split_shared text c =
      let cp = common_prefix_len (prefix_of c) text in
      if ltb cp (length (prefix_of c)) then split cp c else c

  -- Visit the static child that begins like the text, or append a leaf and visit that.
  unfoldable pub visit_static : Nodes H → Bytes → Visit H → Visit H → Nodes H × Option InsertError
  visit_static nil text found made = let (c, e) = made (fresh text []) in (cons c nil, e)
  visit_static (cons c cs) text found made =
      if starts_like (prefix_of c) text
      then (cons (found c).0 cs, (found c).1)
      else (cons c (visit_static cs text found made).0, (visit_static cs text found made).1)

  -- `insertStatic`. Each round takes a byte of the text at least, so the text's length is fuel
  -- enough.
  unfoldable pub insert_static : ℕ → Bytes → Visit H → Visit H
  insert_static fuel [] k n = k n
  insert_static zero (b ∷ t) k n = k n
  insert_static (suc fuel) (b ∷ t) k (node p h ss pr w nm) =
      let (ss', e) =
        visit_static ss (b ∷ t)
          (λ c.
            insert_static fuel (drop (common_prefix_len (prefix_of c) (b ∷ t)) (b ∷ t)) k
              (split_shared (b ∷ t) c))
          k in
      (node p h ss' pr w nm, e)

  unfoldable pub insert_child :
      (Bytes → Bytes → InsertError) → Bytes → Visit H → Child H → Child H × Option InsertError
  insert_child conflict name k null = let (n, e) = k (fresh [] name) in (ptr n, e)
  insert_child conflict name k (ptr n) =
      if bytes_eq (name_of n) name
      then (ptr (k n).0, (k n).1)
      else (ptr n, some (conflict name (name_of n)))

  unfoldable pub place : H → Visit H
  place h (node p none ss pr w nm) = (node p (some h) ss pr w nm, none)
  place h (node p (some old) ss pr w nm) = (node p (some old) ss pr w nm, some duplicate)

  abbrev pub on_param : (Child H → Child H × Option InsertError) → Visit H
  on_param f (node p h ss pr w nm) = let (pr', e) = f pr in (node p h ss pr' w nm, e)

  abbrev pub on_wildcard : (Child H → Child H × Option InsertError) → Visit H
  on_wildcard f (node p h ss pr w nm) = let (w', e) = f w in (node p h ss pr w' nm, e)

  -- The loop over the segments of `insert`.
  unfoldable pub insert_segments : List Segment → H → Visit H
  insert_segments [] h n = place h n
  insert_segments (static text ∷ segs) h n =
      insert_static (length text) text (insert_segments segs h) n
  insert_segments (param name ∷ segs) h n =
      on_param (insert_child param_conflict name (insert_segments segs h)) n
  insert_segments (wildcard name ∷ segs) h n =
      on_wildcard (insert_child wildcard_conflict name (insert_segments segs h)) n
