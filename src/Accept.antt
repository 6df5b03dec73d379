-- ===== src/Accept.antt =====
-- ctx_accept.go: content negotiation over the lines of the Accept header. A panic is `none`.
pub mod Items
pub mod Quality
pub mod Vary
pub mod Best
mod Tests
use rice_http.Prelude.{
  ℕ, zero, suc, ◌+◌, ◌-◌, ◌*◌, ◌/◌, Bytes, codes, Bool, true, false, not, ◌&&◌, ◌||◌, Option, none,
  some, List, [], ◌∷◌, ◌++◌, map, ◌==◌, ltb, leb, bytes_eq, if◌then◌else◌, length, drop,
}

infixl 5 ◌>>=◌
abbrev pub ◌>>=◌ {ℓ κ} : {A : Type ℓ} {B : Type κ} → Option A → (A → Option B) → Option B
none >>= next = none
some a >>= next = next a

-- Where the scan of `nextItem` stands: outside quotes, inside, or behind a backslash inside.
pub data Quote : Type 0 where
  outside inside escaped : Quote

unfoldable pub advance : Quote → ℕ → Quote
advance outside c = if c == b'"' then inside else outside
advance inside c = if c == b'\\' then escaped else if c == b'"' then outside else inside
advance escaped c = inside

unfoldable pub is_cut : Quote → ℕ → ℕ → Bool
is_cut outside sep c = not (c == b'"') && c == sep
is_cut inside sep c = false
is_cut escaped sep c = false

unfoldable pub next_from : Quote → ℕ → Bytes → Bytes × Bytes
next_from quote sep [] = ([], [])
next_from quote sep (c ∷ s) =
    let r = next_from (advance quote c) sep s in
    if is_cut quote sep c then ([], s) else (c ∷ r.0, r.1)

abbrev pub next_item : Bytes → ℕ → Bytes × Bytes
next_item s sep = next_from outside sep s

-- `for len(rest) > 0 { item, rest = nextItem(rest, sep) … }`: the items that the loop meets.
unfoldable pub items_from : ℕ → ℕ → Bytes → List Bytes
items_from zero sep s = []
items_from (suc fuel) sep [] = []
items_from (suc fuel) sep (c ∷ s) =
    (next_item (c ∷ s) sep).0 ∷ items_from fuel sep (next_item (c ∷ s) sep).1

abbrev pub items : Bytes → ℕ → List Bytes
items s sep = items_from (length s) sep s

abbrev pub is_ows : ℕ → Bool
is_ows c = c == b' ' || c == b'\t'

unfoldable pub trim_left : Bytes → Bytes
trim_left [] = []
trim_left (c ∷ s) = if is_ows c then trim_left s else c ∷ s

unfoldable pub trim_right : Bytes → Bytes
trim_right [] = []
trim_right (c ∷ s) = elim (trim_right s) [
  | [] ↦ if is_ows c then [] else c ∷ []
  | d ∷ r ↦ c ∷ d ∷ r
]

unfoldable pub trim_ows : Bytes → Bytes
trim_ows s = trim_right (trim_left s)

unfoldable pub is_star : Bytes → Bool
is_star s = bytes_eq s (codes "*")

-- The parts before and behind the first `c`, if there is one.
unfoldable pub cut_at : ℕ → Bytes → Option (Bytes × Bytes)
cut_at c [] = none
cut_at c (d ∷ s) =
    let rest = cut_at c s in
    if d == c then some ([], s) else elim rest [ none ↦ none | some (a, b) ↦ some (d ∷ a, b) ]

abbrev pub lower : ℕ → ℕ
lower c = if leb b'A' c && leb c b'Z' then c + 32 else c

unfoldable pub equal_fold_ascii : Bytes → Bytes → Bool
equal_fold_ascii [] [] = true
equal_fold_ascii (a ∷ s) (b ∷ t) = lower a == lower b && equal_fold_ascii s t
equal_fold_ascii _ _ = false

-- The digits of a qvalue's fraction, as thousandths.
unfoldable pub fraction_from : ℕ → ℕ → Bytes → Option ℕ
fraction_from q mul [] = some q
fraction_from q mul (c ∷ d) =
    if ltb c b'0' || ltb b'9' c then none else fraction_from (q + (c - b'0') * mul) (mul / 10) d

abbrev pub parse_fraction : Bytes → Option ℕ
parse_fraction d = fraction_from 0 100 d

unfoldable pub all_zeros : Bytes → Bool
all_zeros [] = true
all_zeros (c ∷ s) = c == b'0' && all_zeros s

-- `len(b) > 1 && b[1] != '.'`, over what follows `b[0]`.
unfoldable pub lacks_point : Bytes → Bool
lacks_point [] = false
lacks_point (b ∷ s) = not (b == b'.')

unfoldable pub parse_q : Bytes → Option ℕ
parse_q [] = none
parse_q (a ∷ s) =
    if ltb 5 (length (a ∷ s))
    then none
    else if a == b'.'
    then if length s == 0 || ltb 4 (length (a ∷ s)) then none else parse_fraction s
    else if lacks_point s
    then none
    else if a == b'0'
    then parse_fraction (drop 1 s)
    else if a == b'1'
    then if all_zeros (drop 1 s) then some 1000 else none
    else none

-- The specificity of a range for `typ/sub`: 3 type/subtype, 2 type/*, 1 */*.
unfoldable pub specificity : Bytes → Bytes → Bytes → Bytes → Option ℕ
specificity rt rs typ sub =
    if is_star rt && is_star rs
    then some 1
    else if is_star rt || not (equal_fold_ascii rt typ)
    then none
    else if is_star rs
    then some 2
    else if equal_fold_ascii rs sub
    then some 3
    else none

unfoldable pub is_q_name : Bytes → Bool
is_q_name name = bytes_eq name (codes "q") || bytes_eq name (codes "Q")

-- One parameter of a range: a q replaces the quality so far.
unfoldable pub q_param : ℕ → Bytes → Option ℕ
q_param q p = elim (cut_at b'=' p) [
  | none ↦ some q
  | some (name, value) ↦ if is_q_name (trim_ows name) then parse_q (trim_ows value) else some q
]

-- The loop over the parameters of a range: the last q counts.
unfoldable pub q_from : ℕ → List Bytes → Option ℕ
q_from q [] = some q
q_from q (p ∷ ps) = do v ← q_param q p; q_from v ps

-- The type and the subtype of a range: neither may be empty.
abbrev pub nonempty_parts : Option (Bytes × Bytes) → Option (Bytes × Bytes)
nonempty_parts none = none
nonempty_parts (some ([], rs)) = none
nonempty_parts (some (c ∷ rt, [])) = none
nonempty_parts (some (c ∷ rt, d ∷ rs)) = some (c ∷ rt, d ∷ rs)

-- The quality and the specificity of the match, if there is one.
unfoldable pub match_range : Bytes → Bytes → Bytes → Option (ℕ × ℕ)
match_range elem typ sub = do
  range ← nonempty_parts (cut_at b'/' (trim_ows (next_item elem b';').0))
  spec ← specificity range.0 range.1 typ sub
  q ← q_from 1000 (items (next_item elem b';').1 b';')
  some (q, spec)

-- One element of the loop: a match that is more specific than all before it replaces them, and one
-- of type/subtype ends the loop.
abbrev pub consider : Option (ℕ × ℕ) → ℕ → ℕ → (ℕ → ℕ → ℕ) → ℕ
consider none q spec next = next q spec
consider (some (eq, es)) q spec next =
    if ltb spec es then if es == 3 then eq else next eq es else next q spec

-- The loops of `offerQuality` over the elements of all lines.
unfoldable pub quality_from : List Bytes → Bytes → Bytes → ℕ → ℕ → ℕ
quality_from [] typ sub q spec = q
quality_from (e ∷ es) typ sub q spec =
    consider (match_range e typ sub) q spec (quality_from es typ sub)

unfoldable pub elements : List Bytes → List Bytes
elements [] = []
elements (line ∷ lines) = items line b',' ++ elements lines

unfoldable pub offer_quality : List Bytes → Bytes → Bytes → ℕ
offer_quality accepts typ sub = quality_from (elements accepts) typ sub 0 0

abbrev is_alnum : ℕ → Bool
is_alnum c = leb b'a' c && leb c b'z' || leb b'A' c && leb c b'Z' || leb b'0' c && leb c b'9'

unfoldable pub contains : ℕ → Bytes → Bool
contains c [] = false
contains c (d ∷ s) = d == c || contains c s

unfoldable pub all_token : Bytes → Bool
all_token [] = true
all_token (c ∷ s) = (is_alnum c || contains c (codes "!#$%&'+-.^_`|~")) && all_token s

unfoldable pub is_media_token : Bytes → Bool
is_media_token s = not (bytes_eq s []) && all_token s

abbrev before_semicolon : Bytes → Bytes
before_semicolon offer = elim (cut_at b';' offer) [ none ↦ offer | some (mt, params) ↦ mt ]

abbrev checked : Bytes × Bytes → Option (Bytes × Bytes)
checked (typ, sub) =
    if is_star typ || is_star sub
    then none
    else if not (is_media_token typ) || not (is_media_token sub)
    then none
    else some (typ, sub)

unfoldable pub split_offer : Bytes → Option (Bytes × Bytes)
split_offer offer = elim (cut_at b'/' (trim_ows (before_semicolon offer))) [
  | none ↦ checked ([], [])
  | some parts ↦ checked parts
]

unfoldable pub is_present : List Bytes → Bool
is_present [] = false
is_present (line ∷ lines) = not (bytes_eq (trim_ows line) []) || is_present lines

-- One offer of the loop: the best so far and its quality.
abbrev pub pick : Bool → ℕ → Bytes → ℕ → Bytes → ℕ → Bytes × ℕ
pick present i best best_q offer q =
    if not present
    then (if i == 0 then offer else best, best_q)
    else if best_q == 1000
    then (best, best_q)
    else if ltb best_q q
    then (offer, q)
    else (best, best_q)

-- The loop of `negotiate` from index `i` on.
unfoldable pub negotiate_from : List Bytes → Bool → List Bytes → ℕ → Bytes × ℕ → Option Bytes
negotiate_from accepts present [] i best = some best.0
negotiate_from accepts present (offer ∷ offers) i best = do
  parts ← split_offer offer
  negotiate_from accepts present offers (i + 1)
      (pick present i best.0 best.1 offer (offer_quality accepts parts.0 parts.1))

unfoldable pub negotiate : List Bytes → List Bytes → Option Bytes
negotiate accepts offers = negotiate_from accepts (is_present accepts) offers 0 ([], 0)

-- Whether a token of the lines is Accept, in any case, or *.
unfoldable pub lists_accept : List Bytes → Bool
lists_accept [] = false
lists_accept (tok ∷ toks) =
    (is_star (trim_ows tok) || equal_fold_ascii (trim_ows tok) (codes "Accept"))
    || lists_accept toks

-- `addVaryAccept` on the response's Vary lines.
unfoldable pub add_vary_accept : List Bytes → List Bytes
add_vary_accept lines =
    if lists_accept (elements lines) then lines else lines ++ codes "Accept" ∷ []

-- `Accepts`: the answer, with the Vary lines as it leaves them.
abbrev pub accepts : List Bytes → List Bytes → List Bytes → Option (Bytes × List Bytes)
accepts lines vary offers = do best ← negotiate lines offers; some (best, add_vary_accept vary)
