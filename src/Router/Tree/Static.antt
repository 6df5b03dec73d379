-- ===== src/Router/Tree/Static.antt =====
-- internal/router/tree.go: the attempt at the static child.
use rice_http.Prelude.{
  ℕ, Bytes, true, false, Option, none, some, List, [], ◌∷◌, ◌++◌, ◌≡◌, inl, inr, refl, sym, ◌∙◌,
  arith, Option-cases,
}
use rice_http.Router.Tree.Matching.{
  strip-Matches, lits-Matches, lits-strip, strip_lits-lits, Precedes-lits,
}
use rice_http.Router.Tree.Outcome.{Outcome, hit, miss, land-Outcome}
use rice_http.Router.Params.{Param, Params}
use rice_http.Router.Tree.{
  Node, node, Nodes, nil, cons, starts_like, strip, land, enter, lookup_node, prefix_of, handler_of,
}
use rice_http.Router.Table.{
  Symbol, lit, lits, Matches, byte, segment, remainder, strip_lits, entry, entry_static,
}

module _ {ℓ} {H : Type ℓ} where
  abbrev pub static_part : Nodes H → List Symbol → Option H
  static_part ss (lit b ∷ s) = entry_static ss b s
  static_part ss _ = none

starts_like_head :
    (p : Bytes) (b : ℕ) (path : Bytes) → starts_like p (b ∷ []) ≡ starts_like p (b ∷ path)
starts_like_head [] b path = refl
starts_like_head (a ∷ p) b path = refl

module _ {ℓ} {H : Type ℓ} where
  -- The child is found by the first byte alone, so a pattern that goes another way is not in it.
  pub static_part-skip :
      (c : Node H) (cs : Nodes H) (b : ℕ) (path : Bytes)
      → starts_like (prefix_of c) (b ∷ path) ≡ false
      → (q : List Symbol) (ds : List Param) → Matches q (b ∷ path) ds
      → static_part cs q ≡ static_part (cons c cs) q
  unfolding entry
  static_part-skip c cs b path other (lit _ ∷ q) ds (byte m) =
      rw (starts_like_head (prefix_of c) b path ∙ other) refl
  static_part-skip c cs b path other q ds (segment _ seg rest n d e m) = refl
  static_part-skip c cs b path other q ds (remainder _ _) = refl

  pub static_part-found :
      (c : Node H) (cs : Nodes H) (b : ℕ) (path : Bytes)
      → starts_like (prefix_of c) (b ∷ path) ≡ true
      → (q : List Symbol) (g : H) (ds : List Param) → static_part (cons c cs) q ≡ some g
      → Matches q (b ∷ path) ds
      → (q' : List Symbol) × (q ≡ lits (prefix_of c) ++ q')
        × (entry c q' ≡ some g)
        × ((rest : Bytes) × (strip (prefix_of c) (b ∷ path) ≡ some rest) × Matches q' rest ds)
  unfolding entry
  static_part-found c cs b path here (lit _ ∷ q) g ds eq (byte m) =
      elim (Option-cases (strip_lits (prefix_of c) (lit b ∷ q))) [
        | inl off ↦
            absurd (none_some (rw (starts_like_head (prefix_of c) b path ∙ here, off) at eq))
        | inr (q', on) ↦ (
          q',
          lits-strip (prefix_of c) on,
          rw (starts_like_head (prefix_of c) b path ∙ here, on) at eq,
          strip-Matches (prefix_of c) (byte m) on,
        )
      ]
    where
      none_some : {x : H} → none ≡ some x → ⊥
      none_some h = cc
  static_part-found c cs b path here q g ds eq (segment _ seg rest n d e m) = cc
  static_part-found c cs b path here q g ds eq (remainder _ _) = cc

  pub static_part-lits :
      (c : Node H) (cs : Nodes H) (b : ℕ) (path rest : Bytes)
      → starts_like (prefix_of c) (b ∷ path) ≡ true
      → strip (prefix_of c) (b ∷ path) ≡ some rest
      → (q : List Symbol) → static_part (cons c cs) (lits (prefix_of c) ++ q) ≡ entry c q
  unfolding entry strip
  static_part-lits (node [] h ss pr w nm) cs b path rest here e q = cc
  static_part-lits (node (a ∷ p) h ss pr w nm) cs b path rest here e q =
      ground (arith, strip_lits-lits p q)

  pub static_part_nil : (q : List Symbol) {g : H} → static_part nil q ≡ some g → ⊥
  unfolding entry
  static_part_nil [] e = cc
  static_part_nil (lit b ∷ q) e = cc
  static_part_nil (_ ∷ q) e = cc

  pub enter-Outcome :
      (c : Node H) (cs : Nodes H) (b : ℕ) (path : Bytes) (ps : Params)
      → starts_like (prefix_of c) (b ∷ path) ≡ true
      → ((b : ℕ) (path : Bytes) (ps : Params)
          → Outcome (entry c) (b ∷ path) ps (lookup_node c (b ∷ path) ps))
      → Outcome
          (static_part (cons c cs))
          (b ∷ path)
          ps
          (enter (strip (prefix_of c) (b ∷ path)) (handler_of c) ps (lookup_node c))
  enter-Outcome c cs b path ps here deeper = elim (Option-cases (strip (prefix_of c) (b ∷ path))) [
    | inl off ↦ rw off (
        miss ps
          (λ q g ds eq m.
            let (q', same, there, (rest, on, m')) =
              static_part-found c cs b path here q g ds eq m in
            none_some (sym off ∙ on))
          refl)
    | inr (rest, on) ↦ rw on (
        go rest on (land (handler_of c) rest ps (lookup_node c))
          (land-Outcome c rest ps λ b' path'. deeper b' path' ps))
  ]
    where
      none_some : {x : Bytes} → none ≡ some x → ⊥
      none_some h = cc

      same_rest :
          {x y : Bytes}
          → strip (prefix_of c) (b ∷ path) ≡ some x
          → strip (prefix_of c) (b ∷ path) ≡ some y
          → x ≡ y
      same_rest h k = cc

      go :
          (rest : Bytes)
          → strip (prefix_of c) (b ∷ path) ≡ some rest
          → (r : Option H × Params) → Outcome (entry c) rest ps r
          → Outcome (static_part (cons c cs)) (b ∷ path) ps r
      go rest on r (hit s cs' h ps' e m best sl) =
          hit (lits (prefix_of c) ++ s) cs' h ps' (static_part-lits c cs b path rest here on s ∙ e)
            (lits-Matches (prefix_of c) on m)
            (λ q g ds eq mq.
              let (q', same, there, (rest', on', m')) =
                static_part-found c cs b path here q g ds eq mq in
              rw same (
                Precedes-lits (prefix_of c) s q'
                  (best q' g ds there (rw (same_rest on' on) at m'))))
            sl
      go rest on r (miss ps' never sl) =
          miss ps'
            (λ q g ds eq mq.
              let (q', same, there, (rest', on', m')) =
                static_part-found c cs b path here q g ds eq mq in
              never q' g ds there (rw (same_rest on' on) at m'))
            sl
