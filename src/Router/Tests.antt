-- ===== src/Router/Tests.antt =====
-- The router run on small route tables, and the instances of its theorems.
use rice_http.Prelude.{
  ℕ, Bytes, codes, false, Option, none, some, List, [], ◌∷◌, ◌≡◌, ◌≢◌, refl, if◌then◌else◌,
  bytes_eq,
}
use rice_http.Router.Params.{Params, set, get}
use rice_http.Router.Params.Laws.{get-set}
use rice_http.Router.Pattern.{
  Segment, static, param, wildcard, ok, err, parse_pattern, repeated_name, empty_segment,
  dot_segment, parse_from, check_normalised, has_dot_segment, is_dot_segment, has_percent_escape,
  is_hex, decoded_form, scan_name, is_name_byte, is_valid_param_name, declares, capture,
  check_repeated, flush, percent_encoded, wildcard_not_last, bad_param_name, collapse_slashes,
  has_double_slash,
}
use rice_http.Router.Pattern.Normal.{has_double_slash-collapse_slashes}
use rice_http.Router.Pattern.Sound.{AtSlash, IsNormalised, IsWellFormed, spell, parse_pattern_sound}
use rice_http.Router.Insert.{
  insert_segments, insert_static, insert_child, visit_static, split_shared, split, place,
  common_prefix_len,
}
use rice_http.Router.Tree.{lookup_node, strip, span_segment, duplicate, param_conflict}
use rice_http.Router.Tree.Outcome.{Outcome}
use rice_http.Router.Table.{symbols}
use rice_http.Router.RouteTree.{Tree, empty_tree, insert, lookup, count_params, rejected}
use rice_http.Router.RouteTree.Contract.{table, lookup-Outcome, DidInsert}
use rice_http.Router.RouteTree.Conflicts.{
  HasNoDeadBranch, Conflicts, insert_lem, insert-HasNoDeadBranch, HasNoDeadBranch-empty,
}

unfoldable pub router : Unit {0}
unfolding insert lookup parse_pattern get set parse_from check_normalised has_double_slash
    has_dot_segment is_dot_segment has_percent_escape is_hex decoded_form collapse_slashes bytes_eq
    scan_name is_name_byte is_valid_param_name declares capture check_repeated flush insert_segments
    insert_static insert_child visit_static split_shared split place common_prefix_len lookup_node
    strip span_segment count_params
router = tt

-- A decoder that never succeeds.
abbrev undecodable : Bytes → Option Bytes
undecodable s = none

abbrev with_route : Bytes → ℕ → Tree ℕ → Tree ℕ
with_route p h t = (insert undecodable p h t).0

-- Routes that split a prefix and overlap.
abbrev sample : Tree ℕ
sample = with_route (codes "/files/*path") 5 (
    with_route (codes "/users/new") 2 (
      with_route (codes "/users/:id") 3
        (with_route (codes "/users/next") 4 (with_route (codes "/users") 1 empty_tree))))

abbrev no_params : Params
no_params = record { slots = [] }

abbrev found : Bytes → Option ℕ
found path = (lookup sample path no_params).0

static_before_param : found (codes "/users/new") ≡ some 2
unfolding router
static_before_param = refl

-- The static branch consumes "new" and is stranded: the lookup falls back to the parameter.
falls_back :
    lookup sample (codes "/users/newx") no_params
    ≡ (some 3, record { slots = record { key = codes "id"; value = codes "newx" } ∷ [] })
unfolding router
falls_back = refl

wildcard_takes_rest :
    lookup sample (codes "/files/a/b") no_params
    ≡ (some 5, record { slots = record { key = codes "path"; value = codes "a/b" } ∷ [] })
unfolding router
wildcard_takes_rest = refl

misses :
    (found (codes "/files/") ≡ none)
    × (found (codes "/user") ≡ none)
    × (found (codes "/users/1/2") ≡ none)
unfolding router
misses = (refl, refl, refl)

refusals :
    ((insert undecodable (codes "/users/:id") 9 sample).1 ≡ some (rejected duplicate))
    × ((insert undecodable (codes "/users/:name") 9 sample).1
        ≡ some (rejected (param_conflict (codes "name") (codes "id"))))
unfolding router
refusals = (refl, refl)

patterns :
    (parse_pattern undecodable (codes "/a/:b/c/*d")
      ≡ ok (
          static (codes "/a/")
          ∷ param (codes "b")
          ∷ static (codes "/c/")
          ∷ wildcard (codes "d")
          ∷ []))
    × (parse_pattern undecodable (codes "/:a/:a") ≡ err (repeated_name (codes "a")))
    × (parse_pattern undecodable (codes "/a//b") ≡ err (empty_segment (codes "/a/b")))
    × (parse_pattern undecodable (codes "/a/../b") ≡ err dot_segment)
    × (parse_pattern undecodable (codes "/a%20b") ≡ err (percent_encoded none))
    × (parse_pattern undecodable (codes "/*a/b") ≡ err wildcard_not_last)
    × (parse_pattern undecodable (codes "/:a.txt") ≡ err (bad_param_name (codes "a.txt")))
unfolding router
patterns = (refl, refl, refl, refl, refl, refl, refl)

lookup-Outcome_example :
    Outcome
      (table sample)
      (codes "/users/newx")
      no_params
      (lookup sample (codes "/users/newx") no_params)
lookup-Outcome_example = lookup-Outcome sample b'/' (codes "users/newx") no_params

abbrev added_segments : List Segment
added_segments = static (codes "/users/") ∷ param (codes "id") ∷ static (codes "/posts") ∷ []

parsed_example : parse_pattern undecodable (codes "/users/:id/posts") ≡ ok added_segments
unfolding router
parsed_example = refl

-- Another name for the parameter that is there.
abbrev renamed_segments : List Segment
renamed_segments = static (codes "/users/") ∷ param (codes "name") ∷ []

sample-HasNoDeadBranch : HasNoDeadBranch sample
sample-HasNoDeadBranch = insert-HasNoDeadBranch undecodable _ 5 _ (
    insert-HasNoDeadBranch undecodable _ 2 _ (
      insert-HasNoDeadBranch undecodable _ 3 _ (
        insert-HasNoDeadBranch undecodable _ 4 _
          (insert-HasNoDeadBranch undecodable (codes "/users") 1 _ (HasNoDeadBranch-empty ℕ)))))

renamed_example : parse_pattern undecodable (codes "/users/:name") ≡ ok renamed_segments
unfolding router
renamed_example = refl

insert_lem_example :
    DidInsert sample
      (insert undecodable (codes "/users/:name") 7 sample).0
      (symbols renamed_segments)
      (count_params renamed_segments)
      7
      (insert undecodable (codes "/users/:name") 7 sample).1
    × Conflicts sample
        (symbols renamed_segments)
        (insert undecodable (codes "/users/:name") 7 sample).1
    × HasNoDeadBranch (insert undecodable (codes "/users/:name") 7 sample).0
insert_lem_example =
    insert_lem undecodable (codes "/users/:name") 7 sample renamed_segments sample-HasNoDeadBranch
      renamed_example

parse_pattern_sound_example :
    (codes "/users/:id/posts" ≢ [])
    × AtSlash (codes "/users/:id/posts")
    × IsNormalised (codes "/users/:id/posts")
    × (spell added_segments ≡ codes "/users/:id/posts")
    × IsWellFormed [] added_segments
parse_pattern_sound_example =
    parse_pattern_sound undecodable (codes "/users/:id/posts") added_segments parsed_example

get-set_example :
    get (set no_params (codes "a") (codes "1")) (codes "b")
    ≡ (if bytes_eq (codes "a") (codes "b") then some (codes "1") else get no_params (codes "b"))
get-set_example = get-set no_params (codes "a") (codes "b") (codes "1")

has_double_slash-collapse_slashes_example :
    has_double_slash (collapse_slashes (codes "//a///b")) ≡ false
has_double_slash-collapse_slashes_example = has_double_slash-collapse_slashes (codes "//a///b")
