-- ===== src/Static.antt =====
-- static.go: the handler of a file route around fasthttp's, and its redirects. fasthttp's file handler
-- is an argument, as are the test whether a header is set and url.URL's EscapedPath.
pub mod Paths
pub mod Redirects
mod Tests
use rice_http.Prelude.{
  ℕ, zero, suc, ℤ, pos, negsuc, Bytes, codes, bytes_eq, contains, Bool, true, false, not, ◌&&◌,
  ◌||◌, Option, none, some, List, [], ◌∷◌, ◌++◌, ◌==◌, leb, ltb, length, if◌then◌else◌,
}
use rice_http.Accept.{cut_at}
use rice_http.Errors.{Err, http, Response}

abbrev pub dot_dot : Bytes
dot_dot = codes ".."

-- A round of the loop: the first segment, and what is behind its slash.
abbrev pub first_segment : Bytes → Option (Bytes × Bytes) → Bytes × Bytes
first_segment p none = (p, [])
first_segment p (some x) = x

-- The loop, on fuel, since each round leaves a shorter path.
unfoldable pub dot_dot_from : ℕ → Bytes → Bool
dot_dot_from fuel [] = false
dot_dot_from zero (c ∷ cs) = false
dot_dot_from (suc fuel) (c ∷ cs) =
    let x = first_segment (c ∷ cs) (cut_at 47 (c ∷ cs)) in
    let rest = dot_dot_from fuel x.1 in if bytes_eq x.0 dot_dot then true else rest

-- `hasDotDotSegment`
unfoldable pub has_dot_dot_segment : Bytes → Bool
has_dot_dot_segment p = dot_dot_from (length p) p

abbrev pub is_success : ℤ → Bool
is_success (pos n) = leb 200 n && ltb n 300
is_success (negsuc n) = false

-- The headers that were there before, with the status of now.
abbrev pub restore : Response → Response → Response
restore old r = record r { content_type = old.content_type; header = old.header; close = old.close }

abbrev pub is_slash : ℕ → Bool
is_slash c = c == 47 || c == 92

-- `strings.TrimLeft` of "/\\"
unfoldable pub trim_slashes : Bytes → Bytes
trim_slashes [] = []
trim_slashes (c ∷ cs) = let rest = trim_slashes cs in if is_slash c then rest else c ∷ cs

abbrev pub with_slash : Bytes → Bytes
with_slash [] = []
with_slash (c ∷ cs) = c ∷ cs ++ 47 ∷ []

abbrev pub with_query : Bytes → Bytes
with_query [] = []
with_query (c ∷ q) = 63 ∷ c ∷ q

-- The Location of `writeDirRedirect`, of an escaped path.
unfoldable pub location : Bytes → Bytes → Bytes
location escaped query = 47 ∷ with_slash (trim_slashes escaped) ++ with_query query

abbrev pub set_header : Bytes → Bytes → Response → Response
set_header key value r = record r {
  header = λ k. if bytes_eq k key then some value else r.header k;
}

abbrev pub not_found : Err
not_found = http (pos 404) (codes "Not Found")

module _ (escape : Bytes → Bytes) where
  unfoldable pub write_dir_redirect : Bytes → Bytes → Response → Response
  write_dir_redirect path query r =
      record (set_header (codes "Location") (location (escape path) query) r) {
        status = pos 301;
        body = [];
      }

  abbrev pub by_status : Bytes → Bytes → ℤ → Response → Option Err × Response
  by_status path query (negsuc n) r = (none, r)
  by_status path query (pos n) r =
      if n == 302
      then (none, write_dir_redirect path query r)
      else if n == 404 || n == 403
      then (some not_found, r)
      else if leb 400 n
      then (some (http (pos n) []), r)
      else (none, r)

  unfoldable pub static_result : Bytes → Bytes → Response → Option Err × Response
  static_result path query r = by_status path query r.status r

  -- `serve`, of a route that is built.
  unfoldable pub serve :
      (Response → Bool) → (Response → Response) → Bytes → Bytes → Response → Option Err × Response
  serve has_headers files path query r =
      if contains (λ c. c == 0) path || has_dot_dot_segment path
      then (some not_found, r)
      else let r1 = files r in
        static_result path query
          (if has_headers r && not (is_success r1.status) then restore r r1 else r1)
