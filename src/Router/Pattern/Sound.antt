-- ===== src/Router/Pattern/Sound.antt =====
-- internal/router/pattern.go: what an accepted pattern looks like.
use rice_http.Prelude.{
  ℕ, zero, suc, Bytes, true, false, Option, List, [], ◌∷◌, ◌++◌, ◌==◌, ◌≡◌, ◌≢◌, ◌⊎◌, inl, inr,
  refl, sym, ◌∙◌, arith, ==_iff, Bool-cases, length, drop, append-nil, append_assoc, leb, leb→le,
}
use rice_http.Router.Pattern.{
  Segment, static, param, wildcard, Result, ok, err, ◌>>=◌, scan_name, is_valid_param_name,
  declares, capture, check_repeated, is_marker, flush, parse_from, parse_pattern, reject,
  check_normalised, has_double_slash, has_dot_segment, has_percent_escape,
}

-- The pattern that segments were written as.
abbrev pub spell : List Segment → Bytes
spell [] = []
spell (static text ∷ segs) = text ++ spell segs
spell (param name ∷ segs) = b':' ∷ (name ++ spell segs)
spell (wildcard name ∷ segs) = b'*' ∷ (name ++ spell segs)

abbrev pub AtSlash : Bytes → Type 0
AtSlash [] = Unit
AtSlash (c ∷ s) = c ≡ b'/'

abbrev pub IsNewName : List Bytes → Bytes → Type 0
IsNewName names name =
    (name ≢ []) × (is_valid_param_name name ≡ true) × (declares names name ≡ false)

-- No static text is empty, names are valid and declared once, a parameter takes the rest of its
-- path segment, and a wildcard is last. `names` are those declared further left.
abbrev pub IsWellFormed : List Bytes → List Segment → Type 0
IsWellFormed names [] = Unit
IsWellFormed names (static text ∷ segs) = (text ≢ []) × IsWellFormed names segs
IsWellFormed names (param name ∷ segs) =
    IsNewName names name × AtSlash (spell segs) × IsWellFormed (names ++ name ∷ []) segs
IsWellFormed names (wildcard name ∷ segs) = IsNewName names name × (segs ≡ [])

drop-scan_name :
    (s : Bytes)
    → (drop (length (scan_name s).0) s ≡ (scan_name s).1)
      × (s ≡ (scan_name s).0 ++ (scan_name s).1)
      × AtSlash (scan_name s).1
unfolding scan_name
drop-scan_name [] = (refl, refl, tt)
drop-scan_name (c ∷ s) = ground (arith, drop-scan_name s)

-- The step that went before an accepted result was itself accepted.
accepted_step :
    {A B : Type 0} (step : Result A) (next : A → Result B) (out : B)
    → (step >>= next) ≡ ok out
    → (a : A) × (next a ≡ ok out) × (step ≡ ok a)
accepted_step (err e) next out h = cc
accepted_step (ok a) next out h = (a, h, refl)

nonempty_of : (name : Bytes) → leb (length name) 0 ≡ false → name ≢ []
nonempty_of [] h = cc
nonempty_of (c ∷ s) h = λ e. cc

empty_of : (s : Bytes) → leb (length s) 0 ≡ true → s ≡ []
empty_of [] h = refl
empty_of (c ∷ s) h = absurd (omega (arith, leb→le _ _ h))

-- What a marker that passes its checks declares.
capture_lem :
    (c : ℕ) (name rest : Bytes) (seg : Segment)
    → is_marker c ≡ true
    → capture c name rest ≡ ok seg
    → (name ≢ [])
      × (is_valid_param_name name ≡ true)
      × (((seg ≡ param name) × (c ≡ b':')) ⊎ ((seg ≡ wildcard name) × (c ≡ b'*') × (rest ≡ [])))
unfolding capture
capture_lem c name rest seg m e = ground (arith, nonempty_of name, empty_of rest)

check_repeated_lem :
    (names names' : List Bytes) (name : Bytes)
    → check_repeated names name ≡ ok names'
    → (declares names name ≡ false) × (names' ≡ names ++ name ∷ [])
unfolding check_repeated
check_repeated_lem names names' name e = ground arith

-- A run that is still empty stands at a slash or at the end.
abbrev Starts : Bytes → Bytes → Type 0
Starts [] rest = AtSlash rest
Starts (c ∷ run) rest = Unit

Starts-concat : (run : Bytes) (c : ℕ) (rest : Bytes) → Starts (run ++ c ∷ []) rest
Starts-concat [] c rest = tt
Starts-concat (d ∷ run) c rest = tt

Parses : Bytes → Bytes → List Bytes → List Segment → List Segment → Type 0
Parses run rest names segs out =
    (tail : List Segment) × (out ≡ segs ++ tail)
    × (spell tail ≡ run ++ rest)
    × IsWellFormed names tail

flush_lem :
    (run : Bytes) (segs : List Segment) (names : List Bytes) (out : List Segment)
    → flush run segs ≡ out
    → Parses run [] names segs out
unfolding flush Parses
flush_lem [] segs names out e = ([], sym e ∙ sym (append-nil segs), refl, tt)
flush_lem (c ∷ run) segs names out e = (static (c ∷ run) ∷ [], sym e, refl, ((λ h. cc), tt))

-- A byte that is no marker goes to the run.
byte_lem :
    (c : ℕ) (s run : Bytes) (segs : List Segment) (names : List Bytes) (out : List Segment)
    → Parses (run ++ c ∷ []) s names segs out
    → Parses run (c ∷ s) names segs out
unfolding Parses
byte_lem c s run segs names out (tail, eq, text, wf) =
    (tail, eq, text ∙ append_assoc run (c ∷ []) s, wf)

run_nonempty :
    (run : Bytes) (c : ℕ) (s : Bytes) → Starts run (c ∷ s) → is_marker c ≡ true → run ≢ []
run_nonempty [] c s st m = absurd (clash st m)
  where
    clash : c ≡ b'/' → is_marker c ≡ true → ⊥
    clash h k = ground arith
run_nonempty (d ∷ run) c s st m = λ e. cc

-- A marker: the run and the captured segment stand in front of what the rest parses to.
marker_lem :
    (c : ℕ) (s run rest : Bytes) (segs : List Segment) (names : List Bytes) (name : Bytes)
    (seg : Segment) (out : List Segment)
    → run ≢ []
    → s ≡ name ++ rest
    → AtSlash rest
    → IsNewName names name
    → ((seg ≡ param name) × (c ≡ b':')) ⊎ ((seg ≡ wildcard name) × (c ≡ b'*') × (rest ≡ []))
    → Parses [] rest (names ++ name ∷ []) (segs ++ static run ∷ seg ∷ []) out
    → Parses run (c ∷ s) names segs out
unfolding Parses
marker_lem c s run rest segs names name seg out filled cut slash new (inl (is_param, colon))
      (tail, eq, text, wf) =
    (
      static run ∷ seg ∷ tail,
      eq ∙ append_assoc segs (static run ∷ seg ∷ []) tail,
      rw (is_param, colon, cut, text),
      rw is_param (filled, (new, rw text slash, wf)),
    )
marker_lem c s run rest segs names name seg out filled cut slash new (inr (is_wild, star, ends))
      (tail, eq, text, wf) =
    (
      static run ∷ seg ∷ tail,
      eq ∙ append_assoc segs (static run ∷ seg ∷ []) tail,
      rw (is_wild, star, cut, text),
      rw is_wild (filled, (new, nothing tail _ (text ∙ ends) wf)),
    )
  where
    nothing :
        (tail : List Segment) (ns : List Bytes) → spell tail ≡ [] → IsWellFormed ns tail → tail ≡ []
    nothing [] ns e w = refl
    nothing (static [] ∷ tail) ns e w = absurd (w.0 refl)
    nothing (static (x ∷ t) ∷ tail) ns e w = cc
    nothing (param n ∷ tail) ns e w = cc
    nothing (wildcard n ∷ tail) ns e w = cc

parse_from_sound :
    (s : Bytes) (skip : ℕ) (run : Bytes) (segs : List Segment) (names : List Bytes)
    (out : List Segment)
    → parse_from s skip run segs names ≡ ok out
    → Starts run (drop skip s)
    → Parses run (drop skip s) names segs out
unfolding parse_from
parse_from_sound [] zero run segs names out e st = flush_lem run segs names out (cc)
parse_from_sound [] (suc skip) run segs names out e st = flush_lem run segs names out (cc)
parse_from_sound (c ∷ s) (suc skip) run segs names out e st =
    parse_from_sound s skip run segs names out e st
parse_from_sound (c ∷ s) zero run segs names out e st = elim (Bool-cases (is_marker c)) [
  | inl m ↦
      let (seg, e1, took) = accepted_step _ _ out (rw m at e) in
      let (names', e2, checked) = accepted_step _ _ out e1 in
      let (new, appended) = check_repeated_lem names names' (scan_name s).0 checked in
      let (filled, valid, kind) = capture_lem c _ _ seg m took in
      let (rest, cut, slash) = drop-scan_name s in
      let ih = parse_from_sound s (length (scan_name s).0) [] _ names' out e2 (rw rest slash) in
      marker_lem c s run (scan_name s).1 segs names (scan_name s).0 seg out
        (run_nonempty run c s st m) cut slash (filled, valid, new) kind (rw (← appended, ← rest) ih)
  | inr plain ↦ byte_lem c s run segs names out (
      parse_from_sound s zero (run ++ c ∷ []) segs names out (rw plain at e)
        (Starts-concat run c s))
]

abbrev pub IsNormalised : Bytes → Type 0
IsNormalised p =
    (has_double_slash p ≡ false) × (has_dot_segment [] p ≡ false) × (has_percent_escape p ≡ false)

parse_checked :
    (u : Bytes → Option Bytes) (p : Bytes) (r : Result (List Segment)) (segs : List Segment)
    → reject (check_normalised u p) r ≡ ok segs
    → IsNormalised p × (r ≡ ok segs)
unfolding check_normalised
parse_checked u p r segs e = ground arith

-- A pattern that `parsePattern` accepts begins with '/', has no empty segment, no dot segment and no
-- percent escape; its segments spell it back; no static text is empty, every name is valid and
-- declared once, a parameter reaches to the next '/' or the end, and a wildcard is last.
pub parse_pattern_sound :
    (u : Bytes → Option Bytes) (p : Bytes) (segs : List Segment)
    → parse_pattern u p ≡ ok segs
    → (p ≢ []) × AtSlash p × IsNormalised p × (spell segs ≡ p) × IsWellFormed [] segs
unfolding parse_pattern Parses
parse_pattern_sound u [] segs e = cc
parse_pattern_sound u (c ∷ s) segs e = elim (Bool-cases (c == b'/')) [
  | inl slash ↦
      let at_slash = (==_iff c b'/').0 slash in
      let (normal, parsed) = parse_checked u (c ∷ s) _ segs (rw slash at e) in
      let (tail, same, text, wf) = parse_from_sound (c ∷ s) 0 [] [] [] segs parsed at_slash in
      ((λ h. cc), at_slash, normal, rw same text, rw same wf)
  | inr other ↦ cc (rw other at e)
]
