-- ===== src/Router/Tree/Capture.antt =====
-- internal/router/tree.go: the attempts at the parameter and at the wildcard.
use rice_http.Prelude.{
  ℕ, Bytes, Option, none, some, List, [], ◌∷◌, ◌++◌, ◌≡◌, refl, ap, arith, bytes_eq_iff,
  bytes_eq_self,
}
use rice_http.Router.Tree.Matching.{span_segment_sound, span_segment_maximal}
use rice_http.Router.Tree.Outcome.{Outcome, miss, end-Outcome, land-Outcome, undo-Outcome}
use rice_http.Router.Params.{Param, Params, len, add}
use rice_http.Router.Tree.{
  Node, Child, null, ptr, span_segment, undo, land, try_wildcard, when_segment, lookup_node,
  handler_of, name_of,
}
use rice_http.Router.Table.{
  Symbol, lit, par, wild, AtBoundary, NoSlash, Matches, done, segment, remainder, entry,
  entry_child,
}

module _ {ℓ} {H : Type ℓ} where
  abbrev pub param_part : Child H → List Symbol → Option H
  param_part c (par name ∷ s) = entry_child c name s
  param_part c _ = none

  abbrev pub wildcard_part : Child H → List Symbol → Option H
  wildcard_part c (wild name ∷ s) = entry_child c name s
  wildcard_part c _ = none

  pub param_part_null : (q : List Symbol) {g : H} → param_part null q ≡ some g → ⊥
  unfolding entry
  param_part_null [] e = cc
  param_part_null (par name ∷ q) e = cc
  param_part_null (_ ∷ q) e = cc

  pub wildcard_part_null : (q : List Symbol) {g : H} → wildcard_part null q ≡ some g → ⊥
  unfolding entry
  wildcard_part_null [] e = cc
  wildcard_part_null (wild name ∷ q) e = cc
  wildcard_part_null (_ ∷ q) e = cc

  param_part_self :
      (n : Node H) (q : List Symbol) → param_part (ptr n) (par (name_of n) ∷ q) ≡ entry n q
  unfolding entry
  param_part_self n q = rw (bytes_eq_self (name_of n))

  entry_child-name :
      (n : Node H) (name : Bytes) (q : List Symbol) {g : H}
      → entry_child (ptr n) name q ≡ some g
      → name ≡ name_of n
  unfolding entry
  entry_child-name n name q eq = ground (arith, bytes_eq_iff (name_of n) name)

  no_segment :
      (n : Node H) (b : ℕ) (path rest : Bytes)
      → span_segment (b ∷ path) ≡ ([], rest)
      → (q : List Symbol) {g : H} {ds : List Param} → param_part (ptr n) q ≡ some g
      → Matches q (b ∷ path) ds
      → ⊥
  no_segment n b path rest e [] eq m = elim m [ ]
  no_segment n b path rest e (lit _ ∷ q) eq m = cc
  no_segment n b path rest e (wild _ ∷ q) eq m = cc
  no_segment n b path rest e (par name ∷ q) eq (segment c seg rest' plain ends cut m) =
      cc (e, cut, span_segment_maximal (c ∷ seg) rest' plain ends)

  one_segment :
      (n : Node H) (b : ℕ) (path : Bytes) (s : ℕ) (seg rest : Bytes)
      → span_segment (b ∷ path) ≡ (s ∷ seg, rest)
      → (q : List Symbol) (g : H) (ds : List Param) → param_part (ptr n) q ≡ some g
      → Matches q (b ∷ path) ds
      → (q' : List Symbol) × (ds' : List Param) × (q ≡ par (name_of n) ∷ q') × Matches q' rest ds'
  unfolding entry
  one_segment n b path s seg rest e [] g ds eq m = elim m [ ]
  one_segment n b path s seg rest e (lit _ ∷ q) g ds eq m = cc
  one_segment n b path s seg rest e (wild _ ∷ q) g ds eq m = cc
  one_segment n b path s seg rest e (par name ∷ q) g ds eq
        (segment {cs = cs} c seg' rest' plain ends cut m) =
      (q, cs, ap (λ k. par k ∷ q) (entry_child-name n name q eq), rw same_rest at m)
    where
      same_rest : rest' ≡ rest
      same_rest = cc (e, cut, span_segment_maximal (c ∷ seg') rest' plain ends)

  pub segment-Outcome :
      (n : Node H) (b : ℕ) (path : Bytes) (ps : Params)
      → ((b : ℕ) (path : Bytes) (ps : Params)
          → Outcome (entry n) (b ∷ path) ps (lookup_node n (b ∷ path) ps))
      → Outcome (param_part (ptr n)) (b ∷ path) ps (
          when_segment (span_segment (b ∷ path)) ps λ seg rest.
            undo (len ps) (land (handler_of n) rest (add ps (name_of n) seg) (lookup_node n)))
  segment-Outcome n b path ps deeper =
      go (span_segment (b ∷ path)).0 (span_segment (b ∷ path)).1 refl
        (span_segment_sound (b ∷ path))
    where
      go :
          (seg rest : Bytes)
          → span_segment (b ∷ path) ≡ (seg, rest)
          → (b ∷ path ≡ seg ++ rest) × NoSlash seg × AtBoundary rest
          → Outcome (param_part (ptr n)) (b ∷ path) ps (
              when_segment
                (seg, rest)
                ps
                λ seg rest.
                  undo (len ps) (land (handler_of n) rest (add ps (name_of n) seg) (lookup_node n)))
      go [] rest e facts = miss ps (λ q g ds eq m. no_segment n b path rest e q eq m) refl
      go (s ∷ seg) rest e (cut, plain, ends) =
          undo-Outcome (entry n) (param_part (ptr n)) (par (name_of n))
            (record { key = name_of n; value = s ∷ seg }) (b ∷ path) rest ps (param_part_self n)
            (λ q ds m. segment s seg rest plain ends cut m) (one_segment n b path s seg rest e)
            (land-Outcome n rest _ λ b' path'. deeper b' path' _)

  wildcard_part_self :
      (n : Node H) (q : List Symbol) → wildcard_part (ptr n) (wild (name_of n) ∷ q) ≡ entry n q
  unfolding entry
  wildcard_part_self n q = rw (bytes_eq_self (name_of n))

  only_remainder :
      (n : Node H) (b : ℕ) (path : Bytes) (q : List Symbol) (g : H) (ds : List Param)
      → wildcard_part (ptr n) q ≡ some g
      → Matches q (b ∷ path) ds
      → (q' : List Symbol) × (ds' : List Param) × (q ≡ wild (name_of n) ∷ q') × Matches q' [] ds'
  unfolding entry
  only_remainder n b path [] g ds eq m = elim m [ ]
  only_remainder n b path (lit _ ∷ q) g ds eq m = cc
  only_remainder n b path (par _ ∷ q) g ds eq m = cc
  only_remainder n b path (wild name ∷ q) g ds eq (remainder _ _) =
      ([], [], ap (λ k. wild k ∷ []) (entry_child-name n name [] eq), done)

  pub try_wildcard-Outcome :
      (c : Child H) (b : ℕ) (path : Bytes) (ps : Params)
      → Outcome (wildcard_part c) (b ∷ path) ps (try_wildcard c (b ∷ path) ps)
  try_wildcard-Outcome null b path ps = miss ps (λ q g ds eq m. wildcard_part_null q eq) refl
  try_wildcard-Outcome (ptr n) b path ps =
      undo-Outcome (entry n) (wildcard_part (ptr n)) (wild (name_of n))
        (record { key = name_of n; value = b ∷ path }) (b ∷ path) [] ps (wildcard_part_self n)
        (λ q ds m. at_end m) (only_remainder n b path) (end-Outcome n _)
    where
      at_end :
          {q : List Symbol} {ds : List Param}
          → Matches q [] ds
          → Matches
              (wild (name_of n) ∷ q)
              (b ∷ path)
              ((record { key = name_of n; value = b ∷ path }) ∷ ds)
      at_end done = remainder b path
      at_end (segment c seg rest plain ends cut m) = cc
