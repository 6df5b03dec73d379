-- ===== src/RateLimit/Tests.antt =====
-- Rate limits run on a few requests, and the instances of the theorems.
use rice_http.Prelude.{
  ℕ, ◌+◌, ◌*◌, ◌≤◌, ◌<◌, Bytes, codes, false, List, [], ◌∷◌, ◌≡◌, refl, arith, bytes_eq, none, some,
  pos, negsuc,
}
use rice_http.RateLimit.{
  Limit, Quota, new_store, valid, invalid, too_long, burst_negative, params, params_of, quota,
  max_int64, second, take_valid, take, charge, sweep, retry_after, admit, too_many_requests, next,
  failed, rate_limit,
}
use rice_http.RateLimit.Gcra.{gcra, later, retry_after-admits}
use rice_http.RateLimit.Rate.{admitted, admitted_bounds}
use rice_http.RateLimit.Bounds.{take_bounds}
use rice_http.RateLimit.Refines.{due, take-gcra}

limits : Unit {0}
unfolding params_of quota take_valid take charge sweep retry_after admit rate_limit gcra admitted
    bytes_eq
limits = tt

-- Three requests every six seconds.
abbrev three : Limit
three = record { rate = pos 3; per = pos (6 * second); burst = pos 0 }

abbrev every_two : Quota
every_two = record { interval = 2 * second; burst = 3 }

valid_three : params three ≡ valid every_two
unfolding limits
valid_three = refl

checks :
    (params (record { rate = pos 1; per = pos max_int64; burst = pos 1 }) ≡ invalid too_long)
    × (params (record { rate = pos 1; per = pos 1; burst = negsuc 0 }) ≡ invalid burst_negative)
unfolding limits
checks = (refl, refl)

abbrev by_length : Bytes → ℕ
by_length k = 7

abbrev four_requests : List (ℕ × Bytes)
four_requests = (1, codes "a") ∷ (1, codes "a") ∷ (1, codes "a") ∷ (1, codes "a") ∷ []

-- The burst is admitted at once, and the next request has to wait.
four_at_once :
    (admitted by_length 60 every_two (codes "a") four_requests new_store ≡ 3)
    × (admit (2 * second) ≡ too_many_requests 2)
    × ((rate_limit by_length 60 1 three (some (codes "a")) new_store).0 ≡ next)
    × ((rate_limit by_length 60 1 three none new_store).0 ≡ failed)
unfolding limits
four_at_once = (refl, refl, refl, refl)

take-gcra_example :
    ((take_valid by_length 60 1 (codes "a") every_two new_store).0
      ≡ (gcra every_two 1 (due by_length new_store (codes "a") 1)).0)
    × (due by_length (take_valid by_length 60 1 (codes "a") every_two new_store).1 (codes "a") 5
        ≡ later 5 (gcra every_two 1 (due by_length new_store (codes "a") 1)).1)
    × (bytes_eq (codes "b") (codes "a") ≡ false
        → due by_length (take_valid by_length 60 1 (codes "a") every_two new_store).1 (codes "b") 5
          ≡ due by_length new_store (codes "b") 5)
take-gcra_example =
    take-gcra by_length 60 1 5 (codes "a") (codes "b") every_two new_store (omega arith)

admitted_bounds_example :
    1 + admitted by_length 60 every_two (codes "a") four_requests new_store * (2 * second)
    ≤ 1 + 3 * (2 * second)
admitted_bounds_example =
    admitted_bounds by_length 60 every_two (codes "a") four_requests 1 1 new_store (omega arith)
      (omega arith)

waits : 0 < (gcra every_two 1 (6 * second)).0
unfolding limits
waits = omega arith

retry_after-admits_example :
    ((gcra every_two 1 (6 * second)).1 ≡ 6 * second)
    × (1 ≤ retry_after (gcra every_two 1 (6 * second)).0)
    × (retry_after (gcra every_two 1 (6 * second)).0 * second
        < (gcra every_two 1 (6 * second)).0 + second)
    × ((gcra every_two (1 + retry_after (gcra every_two 1 (6 * second)).0 * second) (6 * second)).0
        ≡ 0)
retry_after-admits_example = retry_after-admits every_two 1 (6 * second) (omega arith) waits

take_bounds_example :
    (later 1 (6 * second) + 2 * second ≤ max_int64)
    × (1 + 3 * (2 * second) ≤ max_int64)
    × (0 < 3)
    × ((gcra every_two 1 (6 * second)).1 ≤ 1 + 3 * (2 * second))
take_bounds_example =
    take_bounds three every_two 1 (6 * second) valid_three (omega arith) (omega arith)
