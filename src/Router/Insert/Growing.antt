-- ===== src/Router/Insert/Growing.antt =====
-- internal/router/tree.go: visits that leave a route wherever they make a node.
use rice_http.Prelude.{
  ℕ, zero, suc, ◌≤◌, Bytes, bytes_eq, true, Bool-cases, Option, some, List, [], ◌∷◌, ◌++◌, ◌≡◌, inl,
  inr, sym, ap, ◌∙◌, arith, length, drop,
}
use rice_http.Router.Tree.{
  Node, node, Nodes, nil, cons, Child, null, ptr, starts_like, prefix_of, name_of, fresh,
  InsertError,
}
use rice_http.Router.Table.{Symbol, lits}
use rice_http.Router.Insert.{
  Visit, common_prefix_len, split_shared, visit_static, insert_static, insert_child,
}
use rice_http.Router.Insert.Full.{
  HasEntry, IsFull, AreFull, IsFullChild, IsLively, split_shared-IsFull, split_shared-HasEntry,
}
use rice_http.Router.Insert.Focus.{Focus, Keeps}
use rice_http.Router.Insert.Walk.{insert_static-Focus, length-rest}
use rice_http.Router.Insert.Entries.{prefix_cases}

module _ {ℓ} {H : Type ℓ} where
  -- A visit keeps a node with a route so, gives a new node one, and keeps a full tree full.
  pub record Growing (k : Visit H) : Type ℓ where
    pub lives : (n : Node H) → HasEntry n → HasEntry (k n).0
    pub grows : (p nm : Bytes) → HasEntry (k (fresh p nm)).0
    pub fills : (n : Node H) → IsFull n → IsFull (k n).0

  Focus-HasEntry :
      (F : Type ℓ) (B A : List Symbol → Option H) (u : List Symbol) (k : Visit H)
      (e : Option InsertError)
      → Growing k
      → Focus F B A u k e
      → (q : List Symbol) × (g : H) × (B q ≡ some g)
      → (q : List Symbol) × (g : H) × (A q ≡ some g)
  Focus-HasEntry F B A u k e grow f (q, g, there) = elim (prefix_cases u q) [
    | inl (s, on) ↦
        let (q', g', here) = grow.lives f.at (s, g, f.before s ∙ sym (ap B on) ∙ there) in
        (u ++ q', g', f.after q' ∙ here)
    | inr off ↦ (q, g, f.elsewhere q off ∙ there)
  ]

  module _ (k : Visit H) (keep : Keeps k) (grow : Growing k) where
    pub insert_static-HasEntry :
        (fuel : ℕ) (text : Bytes) (n : Node H)
        → length text ≤ fuel
        → HasEntry n
        → HasEntry (insert_static fuel text k n).0
    insert_static-HasEntry fuel text n le has =
        Focus-HasEntry _ _ _ (lits text) k _ grow (insert_static-Focus fuel text k keep n le) has

    visit_static-AreFull :
        (b : ℕ) (t : Bytes) (found : Visit H)
        → ((c : Node H)
            → starts_like (prefix_of c) (b ∷ t) ≡ true
            → IsLively c
            → IsLively (found c).0)
        → (ss : Nodes H) → AreFull ss
        → AreFull (visit_static ss (b ∷ t) found k).0
    unfolding visit_static IsFull
    visit_static-AreFull b t found fs nil full =
        ((grow.grows (b ∷ t) [], grow.fills (fresh (b ∷ t) []) (tt, tt, tt)), tt)
    visit_static-AreFull b t found fs (cons c cs) (live, full) =
        elim (Bool-cases (starts_like (prefix_of c) (b ∷ t))) [
          | inl here ↦ rw here (fs c here live, full)
          | inr other ↦ rw other (live, visit_static-AreFull b t found fs cs full)
        ]

    pub insert_static-IsFull :
        (fuel : ℕ) (text : Bytes) (n : Node H)
        → length text ≤ fuel
        → IsFull n
        → IsFull (insert_static fuel text k n).0
    unfolding insert_static IsFull
    insert_static-IsFull zero [] n le full = grow.fills n full
    insert_static-IsFull (suc fuel) [] n le full = grow.fills n full
    insert_static-IsFull zero (b ∷ t) n le full = absurd (omega arith)
    insert_static-IsFull (suc fuel) (b ∷ t) (node p h ss pr w nm) le (full, at_param, at_wild) = (
      visit_static-AreFull b t _
          (λ c here live.
            let shorter : length (drop (common_prefix_len (prefix_of c) (b ∷ t)) (b ∷ t)) ≤ fuel =
              omega (arith, le, length-rest (prefix_of c) b t here) in
            (
              insert_static-HasEntry fuel (drop (common_prefix_len (prefix_of c) (b ∷ t)) (b ∷ t))
                  (split_shared (b ∷ t) c) shorter (split_shared-HasEntry (b ∷ t) c live.0),
              insert_static-IsFull fuel (drop (common_prefix_len (prefix_of c) (b ∷ t)) (b ∷ t))
                  (split_shared (b ∷ t) c) shorter (split_shared-IsFull (b ∷ t) c live.0 live.1),
            ))
          ss full,
      at_param,
      at_wild,
    )

    pub insert_child-IsFullChild :
        (conflict : Bytes → Bytes → InsertError) (name : Bytes) (c : Child H)
        → IsFullChild c
        → IsFullChild (insert_child conflict name k c).0
    unfolding insert_child IsFull
    insert_child-IsFullChild conflict name null full =
        (grow.grows [] name, grow.fills (fresh [] name) (tt, tt, tt))
    insert_child-IsFullChild conflict name (ptr n) (has, full) =
        elim (Bool-cases (bytes_eq (name_of n) name)) [
          | inl same ↦ rw same (grow.lives n has, grow.fills n full)
          | inr other ↦ rw other (has, full)
        ]
