-- ===== src/Router/Table.antt =====
-- The contract of internal/router, independent of the tree: a route pattern is a string of symbols,
-- a table gives the handler of each pattern, and a path is matched against a pattern symbol by
-- symbol. A tree stands for the table `entry`.
use rice_http.Prelude.{
  ℕ, ◌<◌, Bytes, Option, none, some, List, [], ◌∷◌, ◌++◌, map, ◌≡◌, ◌≢◌, ◌⊎◌, bytes_eq,
  if◌then◌else◌, ◌==◌,
}
use rice_http.Router.Params.{Param}
use rice_http.Router.Pattern.{Segment, static, param, wildcard}
use rice_http.Router.Tree.{
  Node, node, Nodes, nil, cons, Child, null, ptr, starts_like, prefix_of, name_of,
}

-- A literal byte, a parameter that takes one path segment, a wildcard that takes the remainder.
pub data Symbol : Type 0 where
  lit : ℕ → Symbol
  par wild : Bytes → Symbol

abbrev pub lits : Bytes → List Symbol
lits = map lit

abbrev pub symbols : List Segment → List Symbol
symbols [] = []
symbols (static text ∷ segs) = lits text ++ symbols segs
symbols (param name ∷ segs) = par name ∷ symbols segs
symbols (wildcard name ∷ segs) = wild name ∷ symbols segs

-- The end of a path, or the start of its next segment.
abbrev pub AtBoundary : Bytes → Type 0
AtBoundary [] = Unit
AtBoundary (b ∷ path) = b ≡ b'/'

abbrev pub NoSlash : Bytes → Type 0
NoSlash [] = Unit
NoSlash (b ∷ s) = (b ≢ b'/') × NoSlash s

-- `Matches pattern path captured`. A parameter and a wildcard take at least one byte.
pub data Matches : List Symbol → Bytes → List Param → Type 0 where
  done : Matches [] [] []
  byte :
      {b : ℕ} {s : List Symbol} {path : Bytes} {cs : List Param}
      → Matches s path cs
      → Matches (lit b ∷ s) (b ∷ path) cs
  segment :
      {name : Bytes} {s : List Symbol} {path : Bytes} {cs : List Param} (b : ℕ) (seg rest : Bytes)
      → NoSlash (b ∷ seg)
      → AtBoundary rest
      → path ≡ b ∷ seg ++ rest
      → Matches s rest cs
      → Matches (par name ∷ s) path (record { key = name; value = b ∷ seg } ∷ cs)
  remainder :
      {name : Bytes} (b : ℕ) (path : Bytes)
      → Matches (wild name ∷ []) (b ∷ path) (record { key = name; value = b ∷ path } ∷ [])

-- Static before parameter before wildcard.
abbrev pub rank : Symbol → ℕ
rank (lit b) = 0
rank (par name) = 1
rank (wild name) = 2

-- Equal patterns, or at the first symbol where they differ the left one has the better kind.
abbrev pub Precedes : List Symbol → List Symbol → Type 0
Precedes [] [] = Unit
Precedes [] (b ∷ q) = ⊥
Precedes (a ∷ p) [] = ⊥
Precedes (a ∷ p) (b ∷ q) = (rank a < rank b) ⊎ ((a ≡ b) × Precedes p q)

abbrev pub strip_lits : Bytes → List Symbol → Option (List Symbol)
strip_lits [] s = some s
strip_lits (a ∷ p) (lit b ∷ s) = if a == b then strip_lits p s else none
strip_lits (a ∷ p) _ = none

module _ {ℓ} {H : Type ℓ} where
  abbrev pub below : Option (List Symbol) → (List Symbol → Option H) → Option H
  below none f = none
  below (some s) f = f s

  -- The handler that a tree holds for a pattern.
  unfoldable mutual
    pub entry : Node H → List Symbol → Option H
    entry (node p h ss pr w nm) [] = h
    entry (node p h ss pr w nm) (lit b ∷ s) = entry_static ss b s
    entry (node p h ss pr w nm) (par name ∷ s) = entry_child pr name s
    entry (node p h ss pr w nm) (wild name ∷ s) = entry_child w name s

    pub entry_static : Nodes H → ℕ → List Symbol → Option H
    entry_static nil b s = none
    entry_static (cons c cs) b s =
        if starts_like (prefix_of c) (b ∷ [])
        then below (strip_lits (prefix_of c) (lit b ∷ s)) (entry c)
        else entry_static cs b s

    pub entry_child : Child H → Bytes → List Symbol → Option H
    entry_child null name s = none
    entry_child (ptr n) name s = if bytes_eq (name_of n) name then entry n s else none
