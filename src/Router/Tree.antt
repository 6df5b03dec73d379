-- ===== src/Router/Tree.antt =====
-- internal/router/tree.go: the radix tree. A `*node` field is a `Child`, the slice of static
-- children is `Nodes`, and a node's handler with its `hasHandler` flag is an `Option`. Pointers are
-- never shared, so a write through one is a rebuilt tree; `insert` returns the tree as it is left
-- also when it returns an error.
pub mod Matching
pub mod Outcome
pub mod Static
pub mod Capture
pub mod Priority
use rice_http.Prelude.{
  ℕ, zero, suc, Bytes, Bool, true, false, not, Option, none, some, List, [], ◌∷◌, ◌==◌, ltb,
  bytes_eq, if◌then◌else◌, length, take, drop, ◌+◌,
}
use rice_http.Router.Params.{Params, len, truncate, add}
use rice_http.Router.Pattern.{Segment, static, param, wildcard}

mutual
  pub data Node {ℓ} (H : Type ℓ) : Type ℓ where
    -- prefix, handler, static, param, wildcard, name
    node : Bytes → Option H → Nodes H → Child H → Child H → Bytes → Node H

  pub data Nodes {ℓ} (H : Type ℓ) : Type ℓ where
    nil : Nodes H
    cons : Node H → Nodes H → Nodes H

  pub data Child {ℓ} (H : Type ℓ) : Type ℓ where
    null : Child H
    ptr : Node H → Child H

pub data InsertError : Type 0 where
  duplicate : InsertError
  -- The name declared, and the name already registered at the position.
  param_conflict wildcard_conflict : Bytes → Bytes → InsertError

module _ {ℓ} {H : Type ℓ} where
  abbrev pub prefix_of : Node H → Bytes
  prefix_of (node p h ss pr w nm) = p

  abbrev pub handler_of : Node H → Option H
  handler_of (node p h ss pr w nm) = h

  abbrev pub name_of : Node H → Bytes
  name_of (node p h ss pr w nm) = nm

  -- `&node[H]{prefix: p, name: nm}`
  abbrev pub fresh : Bytes → Bytes → Node H
  fresh p nm = node p none nil null null nm

-- The lookup. A result is the handler, if there is one, with the parameters as they are left.
-- Whether `prefix[0] == path[0]`.
abbrev pub starts_like : Bytes → Bytes → Bool
starts_like (a ∷ _) (b ∷ _) = a == b
starts_like _ _ = false

-- `path[len(prefix):]`, if the path begins with the prefix.
unfoldable pub strip : Bytes → Bytes → Option Bytes
strip [] path = some path
strip (a ∷ p) [] = none
strip (a ∷ p) (b ∷ path) = if a == b then strip p path else none

-- The scan to the next '/': the segment before it, and the rest.
unfoldable pub span_segment : Bytes → Bytes × Bytes
span_segment [] = ([], [])
span_segment (b ∷ path) =
    if b == b'/' then ([], b ∷ path) else (b ∷ (span_segment path).0, (span_segment path).1)

module _ {ℓ} {H : Type ℓ} where
  -- An attempt that fails falls through to the next one.
  abbrev pub or_else : Option H × Params → (Params → Option H × Params) → Option H × Params
  or_else (some h, ps) next = (some h, ps)
  or_else (none, ps) next = next ps

  -- A capture that leads nowhere is rolled back.
  abbrev pub undo : ℕ → Option H × Params → Option H × Params
  undo saved (some h, ps) = (some h, ps)
  undo saved (none, ps) = (none, truncate ps saved)

  -- At a child: its handler if nothing of the path is left, else the lookup below it.
  abbrev pub land :
      Option H → Bytes → Params → (Bytes → Params → Option H × Params) → Option H × Params
  land h [] ps deeper = (h, ps)
  land h (b ∷ path) ps deeper = deeper (b ∷ path) ps

  -- Into a static child, if the path goes on with its whole prefix.
  abbrev pub enter :
      Option Bytes → Option H → Params → (Bytes → Params → Option H × Params) → Option H × Params
  enter none h ps deeper = (none, ps)
  enter (some rest) h ps deeper = land h rest ps deeper

  abbrev pub try_wildcard : Child H → Bytes → Params → Option H × Params
  try_wildcard null path ps = (none, ps)
  try_wildcard (ptr n) path ps = undo (len ps) (handler_of n, add ps (name_of n) path)

  abbrev pub when_segment :
      Bytes × Bytes → Params → (Bytes → Bytes → Option H × Params) → Option H × Params
  when_segment ([], rest) ps k = (none, ps)
  when_segment (b ∷ seg, rest) ps k = k (b ∷ seg) rest

  unfoldable mutual
    pub lookup_node : Node H → Bytes → Params → Option H × Params
    lookup_node (node p h ss pr w nm) [] ps = (none, ps)
    lookup_node (node p h ss pr w nm) (b ∷ path) ps =
        or_else (try_static ss (b ∷ path) ps)
          λ ps1. or_else (try_param pr (b ∷ path) ps1) λ ps2. try_wildcard w (b ∷ path) ps2

    -- `staticChild`, which picks the first child with the path's first byte, and the attempt at it.
    pub try_static : Nodes H → Bytes → Params → Option H × Params
    try_static nil path ps = (none, ps)
    try_static (cons c cs) path ps =
        if starts_like (prefix_of c) path
        then enter (strip (prefix_of c) path) (handler_of c) ps (lookup_node c)
        else try_static cs path ps

    pub try_param : Child H → Bytes → Params → Option H × Params
    try_param null path ps = (none, ps)
    try_param (ptr n) path ps = when_segment (span_segment path) ps λ seg rest.
        undo (len ps) (land (handler_of n) rest (add ps (name_of n) seg) (lookup_node n))
