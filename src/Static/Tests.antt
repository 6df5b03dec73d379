-- ===== src/Static/Tests.antt =====
-- Paths and redirects, and the instances of the theorems.
use rice_http.Prelude.{
  pos, Bytes, codes, bytes_eq, contains, Bool, true, false, ◌||◌, none, some, [], ◌≡◌, refl,
}
use rice_http.Accept.{cut_at}
use rice_http.Errors.{Response}
use rice_http.Static.{
  dot_dot_from, has_dot_dot_segment, trim_slashes, location, not_found, write_dir_redirect,
  static_result, serve,
}
use rice_http.Static.Paths.{segments, climbs, has_nul, Kept, Answered, serve-segments}

static : Unit {0}
unfolding contains bytes_eq cut_at dot_dot_from has_dot_dot_segment trim_slashes location
    write_dir_redirect static_result serve
static = tt

-- A response with a request id, and a file handler that finds a file not modified.
abbrev before : Response
before = record {
  status = pos 200;
  content_type = [];
  body = [];
  header = λ k. some (codes "id");
  close = false;
}

abbrev not_modified : Response → Response
not_modified r = record r { status = pos 304; header = λ k. none }

abbrev set : Response → Bool
set r = true

abbrev as_is : Bytes → Bytes
as_is p = p

runs :
    (location (codes "//evil.example/docs") (codes "a=1") ≡ codes "/evil.example/docs/?a=1")
    × (location (codes "/") [] ≡ codes "/")
    × (has_dot_dot_segment (codes "/a/../b") ≡ true)
    × (has_dot_dot_segment (codes "/a/..b") ≡ false)
    × ((serve as_is set not_modified (codes "/a/..") [] before).0 ≡ some not_found)
unfolding static
runs = (refl, refl, refl, refl, refl)

serve-segments_example :
    ((has_nul (codes "/a") || climbs (segments (codes "/a"))) ≡ true
      → serve as_is set not_modified (codes "/a") [] before ≡ (some not_found, before))
    × ((has_nul (codes "/a") || climbs (segments (codes "/a"))) ≡ false
        → (a : Response) × Kept set before (not_modified before) a
          × Answered as_is
              (codes "/a")
              []
              a
              (not_modified before).status
              (serve as_is set not_modified (codes "/a") [] before))
serve-segments_example = serve-segments as_is set not_modified (codes "/a") [] before
