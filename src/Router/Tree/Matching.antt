-- ===== src/Router/Tree/Matching.antt =====
-- internal/router/tree.go: stripping a static prefix and cutting a segment, against `Matches`.
use rice_http.Prelude.{
  Bytes, none, some, List, [], ◌∷◌, ◌++◌, ◌≡◌, inl, inr, refl, arith, ◌==◌, ==_iff, Bool-cases,
}
use rice_http.Router.Params.{Param}
use rice_http.Router.Tree.{strip, span_segment}
use rice_http.Router.Table.{
  Symbol, lit, par, wild, lits, AtBoundary, NoSlash, Matches, done, byte, segment, remainder,
  Precedes, strip_lits,
}

pub strip-Matches :
    (p : Bytes) {q q' : List Symbol} {path : Bytes} {cs : List Param}
    → Matches q path cs
    → strip_lits p q ≡ some q'
    → (rest : Bytes) × (strip p path ≡ some rest) × Matches q' rest cs
unfolding strip
strip-Matches [] {path} m e = (path, refl, rw (← some_inj e) m)
  where
    some_inj : {x y : List Symbol} → some x ≡ some y → x ≡ y
    some_inj h = cc
strip-Matches (a ∷ p) done e = cc
strip-Matches (a ∷ p) (byte {b} {s} {path} {cs} m) e = elim (Bool-cases (a == b)) [
  | inl same ↦ rw same (strip-Matches p m (rw same at e))
  | inr other ↦ absurd (false_some (rw other at e))
]
  where
    false_some : {x : List Symbol} → none ≡ some x → ⊥
    false_some h = cc
strip-Matches (a ∷ p) (segment b seg rest n d e' m) e = cc
strip-Matches (a ∷ p) (remainder b path) e = cc

-- A path that begins with the prefix: its matches below are matches with the prefix in front.
pub lits-Matches :
    (p : Bytes) {q : List Symbol} {path rest : Bytes} {cs : List Param}
    → strip p path ≡ some rest
    → Matches q rest cs
    → Matches (lits p ++ q) path cs
unfolding strip
lits-Matches [] {q} {path} {rest} {cs} e m = rw path_eq m
  where
    path_eq : path ≡ rest
    path_eq = cc
lits-Matches (a ∷ p) {path = []} e m = cc
lits-Matches (a ∷ p) {path = b ∷ path} e m = elim (Bool-cases (a == b)) [
  | inl same ↦ rw ((==_iff a b).0 same) (byte (lits-Matches p (rw same at e) m))
  | inr other ↦ cc (other, e)
]

pub lits-strip : (p : Bytes) {q q' : List Symbol} → strip_lits p q ≡ some q' → q ≡ lits p ++ q'
lits-strip [] e = cc
lits-strip (a ∷ p) {q = []} e = cc
lits-strip (a ∷ p) {q = lit b ∷ q} e = elim (Bool-cases (a == b)) [
  | inl same ↦ cc ((==_iff a b).0 same, lits-strip p {q = q} (rw same at e))
  | inr other ↦ cc (other, e)
]
lits-strip (a ∷ p) {q = par name ∷ q} e = cc
lits-strip (a ∷ p) {q = wild name ∷ q} e = cc

pub strip_lits-lits : (p : Bytes) (s : List Symbol) → strip_lits p (lits p ++ s) ≡ some s
strip_lits-lits [] s = refl
strip_lits-lits (a ∷ p) s = ground (arith, strip_lits-lits p s)

pub Precedes-lits :
    (p : Bytes) (s q : List Symbol) → Precedes s q → Precedes (lits p ++ s) (lits p ++ q)
Precedes-lits [] s q h = h
Precedes-lits (a ∷ p) s q h = inr (refl, Precedes-lits p s q h)

pub span_segment_sound :
    (path : Bytes)
    → (path ≡ (span_segment path).0 ++ (span_segment path).1)
      × NoSlash (span_segment path).0
      × AtBoundary (span_segment path).1
unfolding span_segment
span_segment_sound [] = (refl, tt, tt)
span_segment_sound (b ∷ path) = ground (arith, span_segment_sound path)

pub span_segment_maximal :
    (seg rest : Bytes) → NoSlash seg → AtBoundary rest → span_segment (seg ++ rest) ≡ (seg, rest)
unfolding span_segment
span_segment_maximal [] [] n d = refl
span_segment_maximal [] (b ∷ rest) n d = ground arith
span_segment_maximal (b ∷ seg) rest n d = ground (arith, span_segment_maximal seg rest n.1 d)
