-- ===== src/Router/Pattern.antt =====
-- internal/router/pattern.go: parsing a route pattern. The messages are reduced to a constructor
-- for each, with the text it quotes. `url.PathUnescape`, which only words one message, is a
-- parameter: `none` is its error.
pub mod Sound
pub mod Normal
use rice_http.Prelude.{
  ℕ, zero, suc, ◌+◌, Bytes, codes, Bool, true, false, not, ◌&&◌, ◌||◌, Option, none, some, List, [],
  ◌∷◌, ◌++◌, ◌==◌, leb, bytes_eq, if◌then◌else◌, length,
}

-- `segment`, a constructor for each `segKind`.
pub data Segment : Type 0 where
  static param wildcard : Bytes → Segment

pub data PatternError : Type 0 where
  empty_path no_leading_slash dot_segment : PatternError
  -- With the pattern to register instead.
  empty_segment : Bytes → PatternError
  percent_encoded : Option Bytes → PatternError
  empty_param_name empty_wildcard_name wildcard_not_last : PatternError
  bad_param_name bad_wildcard_name repeated_name : Bytes → PatternError

pub data Result {ℓ} (A : Type ℓ) : Type ℓ where
  ok : A → Result A
  err : PatternError → Result A

infixl 5 ◌>>=◌
abbrev pub ◌>>=◌ {ℓ κ} : {A : Type ℓ} {B : Type κ} → Result A → (A → Result B) → Result B
ok a >>= f = f a
err e >>= f = err e

-- The name up to the next '/', and the rest.
unfoldable pub scan_name : Bytes → Bytes × Bytes
scan_name [] = ([], [])
scan_name (c ∷ s) = if c == b'/' then ([], c ∷ s) else (c ∷ (scan_name s).0, (scan_name s).1)

abbrev between : ℕ → ℕ → ℕ → Bool
between lo hi c = leb lo c && leb c hi

unfoldable pub is_name_byte : ℕ → Bool
is_name_byte c = between b'a' b'z' c || between b'A' b'Z' c || between b'0' b'9' c || c == b'_'

unfoldable pub is_valid_param_name : Bytes → Bool
is_valid_param_name [] = true
is_valid_param_name (c ∷ s) = is_name_byte c && is_valid_param_name s

-- `strings.Contains(pattern, "//")`
unfoldable pub has_double_slash : Bytes → Bool
has_double_slash [] = false
has_double_slash (a ∷ []) = false
has_double_slash (a ∷ b ∷ s) = a == b'/' && b == b'/' || has_double_slash (b ∷ s)

-- The loop of `strings.Split(pattern, "/")` over the current segment, and the test of each.
unfoldable pub is_dot_segment : Bytes → Bool
is_dot_segment seg = bytes_eq seg (codes ".") || bytes_eq seg (codes "..")

unfoldable pub has_dot_segment : Bytes → Bytes → Bool
has_dot_segment cur [] = is_dot_segment cur
has_dot_segment cur (c ∷ s) =
    let next = has_dot_segment [] s in
    let more = has_dot_segment (cur ++ c ∷ []) s in
    if c == b'/' then is_dot_segment cur || next else more

unfoldable pub is_hex : ℕ → Bool
is_hex b = between b'0' b'9' b || between b'a' b'f' b || between b'A' b'F' b

unfoldable pub has_percent_escape : Bytes → Bool
has_percent_escape (a ∷ b ∷ c ∷ s) =
    a == b'%' && is_hex b && is_hex c || has_percent_escape (b ∷ c ∷ s)
has_percent_escape _ = false

unfoldable pub collapse_slashes : Bytes → Bytes
collapse_slashes [] = []
collapse_slashes (a ∷ []) = a ∷ []
collapse_slashes (a ∷ b ∷ s) =
    if a == b'/' && b == b'/' then collapse_slashes (b ∷ s) else a ∷ collapse_slashes (b ∷ s)

module _ (path_unescape : Bytes → Option Bytes) where
  -- The decoded form that the message names, if there is one and it differs.
  unfoldable pub decoded_form : Bytes → Option Bytes
  decoded_form pattern = elim (path_unescape pattern) [
    | none ↦ none
    | some decoded ↦ if bytes_eq decoded pattern then none else some decoded
  ]

  unfoldable pub check_normalised : Bytes → Option PatternError
  check_normalised pattern =
      if has_double_slash pattern
      then some (empty_segment (collapse_slashes pattern))
      else if has_dot_segment [] pattern
      then some dot_segment
      else if has_percent_escape pattern
      then some (percent_encoded (decoded_form pattern))
      else none

unfoldable pub declares : List Bytes → Bytes → Bool
declares [] name = false
declares (prior ∷ names) name = bytes_eq prior name || declares names name

-- The segment that a marker starts: its name is checked, and `rest` is what follows the name.
unfoldable pub capture : ℕ → Bytes → Bytes → Result Segment
capture c name rest =
    if c == b':'
    then if leb (length name) 0
      then err empty_param_name
      else if not (is_valid_param_name name)
      then err (bad_param_name name)
      else ok (param name)
    else if leb (length name) 0
    then err empty_wildcard_name
    else if not (leb (length rest) 0)
    then err wildcard_not_last
    else if not (is_valid_param_name name)
    then err (bad_wildcard_name name)
    else ok (wildcard name)

unfoldable pub check_repeated : List Bytes → Bytes → Result (List Bytes)
check_repeated names name =
    if declares names name then err (repeated_name name) else ok (names ++ name ∷ [])

abbrev pub is_marker : ℕ → Bool
is_marker c = c == b':' || c == b'*'

-- The static segment that is left at the end, if any.
unfoldable pub flush : Bytes → List Segment → List Segment
flush [] segs = segs
flush (c ∷ run) segs = segs ++ static (c ∷ run) ∷ []

-- The loop of `parsePattern`. `run` is `pattern[start:i]`. After a name the loop goes on behind it:
-- `skip` counts the bytes of the name that `i = next - 1` jumps over.
unfoldable pub parse_from : Bytes → ℕ → Bytes → List Segment → List Bytes → Result (List Segment)
parse_from [] skip run segs names = ok (flush run segs)
parse_from (c ∷ s) (suc skip) run segs names = parse_from s skip run segs names
parse_from (c ∷ s) zero run segs names =
    if not (is_marker c) then parse_from s zero (run ++ c ∷ []) segs names else do
      seg ← capture c (scan_name s).0 (scan_name s).1
      names' ← check_repeated names (scan_name s).0
      parse_from s (length (scan_name s).0) [] (segs ++ static run ∷ seg ∷ []) names'

abbrev pub reject : Option PatternError → Result (List Segment) → Result (List Segment)
reject none r = r
reject (some e) r = err e

unfoldable pub parse_pattern : (Bytes → Option Bytes) → Bytes → Result (List Segment)
parse_pattern path_unescape [] = err empty_path
parse_pattern path_unescape (c ∷ s) =
    if c == b'/'
    then reject (check_normalised path_unescape (c ∷ s)) (parse_from (c ∷ s) 0 [] [] [])
    else err no_leading_slash
