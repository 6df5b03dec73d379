-- ===== src/Accept/Tests.antt =====
-- Content negotiation run on headers, and the instances of its theorems.
use rice_http.Prelude.{
  Bytes, codes, true, false, none, some, List, [], ◌∷◌, ◌++◌, ◌≡◌, ◌≢◌, ◌⊎◌, ◌↔◌, refl, ◌≤◌, All,
  bytes_eq,
}
use rice_http.Accept.{
  advance, is_cut, next_from, items_from, items, trim_left, trim_right, trim_ows, is_star, cut_at,
  equal_fold_ascii, fraction_from, all_zeros, lacks_point, parse_q, specificity, is_q_name, q_param,
  q_from, match_range, quality_from, elements, offer_quality, contains, all_token, is_media_token,
  split_offer, is_present, negotiate_from, negotiate, add_vary_accept, lists_accept, outside,
}
use rice_http.Accept.Items.{HasNoCut, join_items, items_lem}
use rice_http.Accept.Quality.{Decides, offer_quality_lem}
use rice_http.Accept.Best.{quality, IsFirst, IsBest, negotiate-IsBest, negotiate_total}
use rice_http.Accept.Vary.{add_vary_accept_lem}

accept : Unit {0}
unfolding advance is_cut next_from items_from trim_left trim_right trim_ows is_star cut_at
    equal_fold_ascii fraction_from all_zeros lacks_point parse_q specificity is_q_name q_param
    q_from match_range quality_from elements offer_quality contains all_token is_media_token
    split_offer is_present negotiate_from negotiate add_vary_accept lists_accept bytes_eq
accept = tt

abbrev html_or_json : List Bytes
html_or_json = codes "text/html;q=0.4, application/json;a=\"0,5\";Q=.7, */*;q=0.1" ∷ []

abbrev offers : List Bytes
offers = codes "text/html; charset=utf-8" ∷ codes "application/json" ∷ []

best_of_two : negotiate html_or_json offers ≡ some (codes "application/json")
unfolding accept
best_of_two = refl

more_tests :
    (negotiate [] offers ≡ some (codes "text/html; charset=utf-8"))
    × (negotiate (codes "image/*" ∷ []) offers ≡ some [])
    × (negotiate [] (codes "text/*" ∷ []) ≡ none)
    × (negotiate (codes "text/html;q=0, text/*" ∷ []) offers ≡ some [])
unfolding accept
more_tests = (refl, refl, refl, refl)

qvalues :
    (parse_q (codes "0.25") ≡ some 250)
    × (parse_q (codes "1.000") ≡ some 1000)
    × (parse_q (codes "1.001") ≡ none)
    × (parse_q (codes ".2") ≡ some 200)
    × (parse_q (codes "0") ≡ some 0)
    × (parse_q (codes "0.1234") ≡ none)
    × (parse_q (codes "2") ≡ none)
unfolding accept
qvalues = (refl, refl, refl, refl, refl, refl, refl)

items_lem_example :
    ((join_items b',' (items (codes "a,\",\",") b',') ≡ codes "a,\",\",")
      ⊎ (join_items b',' (items (codes "a,\",\",") b',') ++ b',' ∷ [] ≡ codes "a,\",\","))
    × All (HasNoCut outside b',') (items (codes "a,\",\",") b',')
items_lem_example = items_lem (codes "a,\",\",") b','

offer_quality_lem_example :
    ((All (λ e. match_range e (codes "text") (codes "html") ≡ none) (elements html_or_json)
        × (offer_quality html_or_json (codes "text") (codes "html") ≡ 0))
      ⊎ Decides
          (codes "text")
          (codes "html")
          (elements html_or_json)
          (offer_quality html_or_json (codes "text") (codes "html")))
    × (offer_quality html_or_json (codes "text") (codes "html") ≤ 1000)
offer_quality_lem_example = offer_quality_lem (codes "text") (codes "html") html_or_json

negotiate-IsBest_example :
    ((is_present html_or_json ≡ false) × IsFirst html_or_json offers (codes "application/json"))
    ⊎ ((is_present html_or_json ≡ true)
        × (((codes "application/json" ≡ []) × All (λ o. quality html_or_json o ≤ 0) offers)
            ⊎ IsBest html_or_json offers (codes "application/json")))
negotiate-IsBest_example =
    negotiate-IsBest html_or_json offers (codes "application/json") best_of_two

negotiate_total_example :
    (negotiate html_or_json offers ≢ none) ↔ All (λ o. split_offer o ≢ none) offers
negotiate_total_example = negotiate_total html_or_json offers

add_vary_accept_lem_example :
    (lists_accept (elements (add_vary_accept (codes "Origin" ∷ []))) ≡ true)
    × ((add_vary_accept (codes "Origin" ∷ []) ≡ codes "Origin" ∷ [])
        ⊎ (add_vary_accept (codes "Origin" ∷ []) ≡ (codes "Origin" ∷ []) ++ codes "Accept" ∷ []))
    × (add_vary_accept (add_vary_accept (codes "Origin" ∷ []))
        ≡ add_vary_accept (codes "Origin" ∷ []))
add_vary_accept_lem_example = add_vary_accept_lem (codes "Origin" ∷ [])
