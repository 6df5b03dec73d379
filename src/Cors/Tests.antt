-- ===== src/Cors/Tests.antt =====
-- A configuration compiled and asked, and the instance of the theorem.
use rice_http.Prelude.{
  contains, ℕ, Bytes, codes, bytes_eq, true, none, some, [], ◌∷◌, ◌≡◌, refl, pos, if◌then◌else◌,
}
use rice_http.Cors.{
  CorsConfig, Compiled, compiled, panics, has_prefix, cut, has_suffix, valid_origin, all_good, join,
  join_list, all_valid, compile_cors, match_origin, next, no_content, cors, is_preflight,
}
use rice_http.Cors.Origins.{Listed, cors-Listed}

cors_runs : Unit {0}
unfolding bytes_eq contains has_prefix cut has_suffix valid_origin all_good join join_list all_valid
    compile_cors match_origin cors
cors_runs = tt

abbrev decimal : ℕ → Bytes
decimal n = codes "60"

abbrev app_origin : Bytes
app_origin = codes "https://app.example.com"

abbrev config : CorsConfig
config = record {
  origins = app_origin ∷ [];
  allow_methods = [];
  allow_headers = codes "Authorization" ∷ [];
  expose_headers = [];
  max_age = pos 60000000000;
  allow_credentials = true;
}

abbrev made : Compiled
made = record {
  origins = app_origin ∷ [];
  real = (codes "Access-Control-Allow-Credentials", codes "true") ∷ [];
  preflight =
      (codes "Access-Control-Allow-Methods", codes "GET, HEAD, POST, PUT, PATCH, DELETE")
      ∷ (codes "Access-Control-Allow-Headers", codes "Authorization")
      ∷ (codes "Access-Control-Max-Age", codes "60")
      ∷ (codes "Access-Control-Allow-Credentials", codes "true")
      ∷ [];
}

compiled-config :
    (compile_cors decimal config ≡ compiled made)
    × (compile_cors decimal (record config { origins = codes "https://a:443" ∷ [] })
        ≡ panics (codes "origin"))
    × ((cors made (codes "OPTIONS") (codes "https://evil.example") (codes "PUT")).ends ≡ no_content)
unfolding cors_runs
compiled-config = (refl, refl, refl)

cors-Listed_example :
    ((v : Bytes)
      → (cors made (codes "GET") app_origin []).allow_origin ≡ some v
      → (v ≡ app_origin) × Listed v config.origins × (valid_origin v ≡ true))
    × (Listed app_origin config.origins
        → (cors made (codes "GET") app_origin []).allow_origin ≡ some app_origin)
    × ((cors made (codes "GET") app_origin []).allow_origin ≡ none
        → (cors made (codes "GET") app_origin []).headers ≡ [])
    × ((cors made (codes "GET") app_origin []).ends
        ≡ (if is_preflight (codes "GET") [] then no_content else next))
unfolding cors_runs
cors-Listed_example = cors-Listed decimal config made (codes "GET") app_origin [] refl refl
