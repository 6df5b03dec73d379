-- ===== src/Cors.antt =====
-- middleware/cors.go: the checks of a configuration, and what the middleware sets and answers.
-- strconv.FormatInt is an argument. An allowed origin's header is kept apart from the others.
pub mod Origins
mod Tests
use rice_http.Prelude.{
  contains, ℕ, zero, suc, ℤ, pos, negsuc, ◌+◌, ◌/◌, Bytes, codes, bytes_eq, Bool, true, false, not,
  ◌&&◌, ◌||◌, Option, none, some, List, [], ◌∷◌, ◌++◌, ◌==◌, leb, ltb, if◌then◌else◌,
}

pub record CorsConfig : Type 0 where
  pub origins : List Bytes
  pub allow_methods : List Bytes
  pub allow_headers : List Bytes
  pub expose_headers : List Bytes
  -- in nanoseconds
  pub max_age : ℤ
  pub allow_credentials : Bool

abbrev pub Header : Type 0
Header = Bytes × Bytes

pub record Compiled : Type 0 where
  pub origins : List Bytes
  pub real : List Header
  pub preflight : List Header

-- What installing the middleware comes to; each panic is told by the field that it names.
pub data Outcome : Type 0 where
  compiled : Compiled → Outcome
  panics : Bytes → Outcome

-- `strings.Cut` and `strings.HasSuffix`
unfoldable pub has_prefix : Bytes → Bytes → Option Bytes
has_prefix [] s = some s
has_prefix (p ∷ ps) [] = none
has_prefix (p ∷ ps) (c ∷ cs) = let rest = has_prefix ps cs in if c == p then rest else none

abbrev pub or_later : ℕ → Option Bytes → Option (Bytes × Bytes) → Option (Bytes × Bytes)
or_later c (some rest) later = some ([], rest)
or_later c none (some (before, after)) = some (c ∷ before, after)
or_later c none none = none

unfoldable pub cut : Bytes → Bytes → Option (Bytes × Bytes)
cut sep [] = none
cut sep (c ∷ cs) = or_later c (has_prefix sep (c ∷ cs)) (cut sep cs)

unfoldable pub has_suffix : Bytes → Bytes → Bool
has_suffix suffix [] = bytes_eq suffix []
has_suffix suffix (c ∷ cs) = bytes_eq (c ∷ cs) suffix || has_suffix suffix cs

abbrev pub is_empty : Bytes → Bool
is_empty [] = true
is_empty (c ∷ cs) = false

abbrev pub path_or_blank : ℕ → Bool
path_or_blank c = c == 47 || c == 63 || c == 35 || c == 32 || c == 9

abbrev pub upper_or_control : ℕ → Bool
upper_or_control b = (leb 65 b && leb b 90) || ltb b 33

abbrev pub default_port : Bytes → Bytes → Bool
default_port scheme rest =
    (bytes_eq scheme (codes "https") && has_suffix (codes ":443") rest)
    || (bytes_eq scheme (codes "http") && has_suffix (codes ":80") rest)

abbrev pub valid_parts : Bytes → Option (Bytes × Bytes) → Bool
valid_parts o none = false
valid_parts o (some (scheme, rest)) =
    not (is_empty scheme)
    && not (is_empty rest)
    && not (contains path_or_blank rest)
    && not (default_port scheme rest)
    && not (contains upper_or_control o)

unfoldable pub valid_origin : Bytes → Bool
valid_origin o = valid_parts o (cut (codes "://") o)

abbrev pub comma_or_control : ℕ → Bool
comma_or_control b = leb b 32 || b == 127 || b == 44

abbrev pub bad_item : Bytes → Bool
bad_item it = is_empty it || contains comma_or_control it

unfoldable pub all_good : List Bytes → Bool
all_good [] = true
all_good (it ∷ items) = not (bad_item it) && all_good items

-- `strings.Join` with ", "
unfoldable pub join : List Bytes → Bytes
join [] = []
join (it ∷ []) = it
join (it ∷ jt ∷ items) = it ++ codes ", " ++ join (jt ∷ items)

-- `joinList`; `none` is its panic.
unfoldable pub join_list : List Bytes → Option Bytes
join_list items = if all_good items then some (join items) else none

unfoldable pub all_valid : List Bytes → Bool
all_valid [] = true
all_valid (o ∷ os) = valid_origin o && all_valid os

abbrev pub default_allow_methods : List Bytes
default_allow_methods =
    codes "GET" ∷ codes "HEAD" ∷ codes "POST" ∷ codes "PUT" ∷ codes "PATCH" ∷ codes "DELETE" ∷ []

abbrev pub or_default : List Bytes → List Bytes
or_default [] = default_allow_methods
or_default (m ∷ ms) = m ∷ ms

-- A header that is left out when its value is empty.
abbrev pub unless_empty : Bytes → Bytes → List Header
unless_empty key [] = []
unless_empty key (c ∷ cs) = (key, c ∷ cs) ∷ []

abbrev pub is_short : ℤ → Bool
is_short (pos n) = ltb 0 n && ltb n 1000000000
is_short (negsuc n) = false

abbrev pub is_negative : ℤ → Bool
is_negative (pos n) = false
is_negative (negsuc n) = true

abbrev pub no_origins : List Bytes → Bool
no_origins [] = true
no_origins (o ∷ os) = false

abbrev pub credentials : Bool → List Header
credentials b = if b then (codes "Access-Control-Allow-Credentials", codes "true") ∷ [] else []

module _ (decimal : ℕ → Bytes) where
  abbrev pub age_header : ℤ → List Header
  age_header (pos zero) = []
  age_header (pos (suc n)) = (codes "Access-Control-Max-Age", decimal (suc n / 1000000000)) ∷ []
  age_header (negsuc n) = []

  -- The lists of headers, of the joined fields.
  abbrev pub lists : CorsConfig → Option Bytes → Option Bytes → Option Bytes → Outcome
  lists cfg none hs es = panics (codes "AllowMethods")
  lists cfg (some ms) none es = panics (codes "AllowHeaders")
  lists cfg (some ms) (some hs) none = panics (codes "ExposeHeaders")
  lists cfg (some ms) (some hs) (some es) = compiled (record {
    origins = cfg.origins;
    real =
        credentials cfg.allow_credentials
        ++ unless_empty (codes "Access-Control-Expose-Headers") es;
    preflight =
        (codes "Access-Control-Allow-Methods", ms)
          ∷ unless_empty (codes "Access-Control-Allow-Headers") hs
        ++ age_header cfg.max_age
        ++ credentials cfg.allow_credentials;
  })

  unfoldable pub compile_cors : CorsConfig → Outcome
  compile_cors cfg =
      if no_origins cfg.origins
      then panics (codes "Origins")
      else if not (all_valid cfg.origins)
      then panics (codes "origin")
      else if is_negative cfg.max_age || is_short cfg.max_age
      then panics (codes "MaxAge")
      else lists cfg (join_list (or_default cfg.allow_methods)) (join_list cfg.allow_headers)
          (join_list cfg.expose_headers)

-- `matchOrigin`; `none` where it is empty.
unfoldable pub match_origin : List Bytes → Bytes → Option Bytes
match_origin [] origin = none
match_origin (o ∷ os) origin =
    let rest = match_origin os origin in if bytes_eq origin o then some o else rest

-- What the handler of the middleware does: the headers that it sets, with Vary: Origin added to them in
-- any case, and whether it calls the next one.
pub data End : Type 0 where
  next : End
  no_content : End

pub record Reply : Type 0 where
  pub allow_origin : Option Bytes
  pub headers : List Header
  pub ends : End

abbrev pub is_preflight : Bytes → Bytes → Bool
is_preflight method request_method =
    bytes_eq method (codes "OPTIONS") && not (is_empty request_method)

abbrev pub allowing : Option Bytes → List Header → End → Reply
allowing none hs e = record { allow_origin = none; headers = []; ends = e }
allowing (some o) hs e = record { allow_origin = some o; headers = hs; ends = e }

unfoldable pub cors : Compiled → Bytes → Bytes → Bytes → Reply
cors c method origin request_method =
    if is_empty origin
    then record { allow_origin = none; headers = []; ends = next }
    else let allowed = match_origin c.origins origin in
      if is_preflight method request_method
      then allowing allowed c.preflight no_content
      else allowing allowed c.real next
