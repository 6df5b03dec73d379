-- ===== src/Health/Tests.antt =====
-- A probe of two checks, and the instance of the theorem.
use rice_http.Prelude.{ℕ, pos, Bytes, codes, true, false, none, some, List, [], ◌∷◌, ◌≡◌, refl}
use rice_http.Errors.{Err, plain, as_panic}
use rice_http.Ctx.Pool.{clean}
use rice_http.Request.{State}
use rice_http.Health.{Check, run_check, refused, ready, ok_text}
use rice_http.Health.Readiness.{answer, Passed, FirstFailure, IsNotReady, ready-Passed}

abbrev text : ℕ → Bytes
text n = codes "Text"

abbrev fine : Check
fine = record {
  name = codes "cache";
  timeout = pos 0;
  has_fn = true;
  outcome = none;
  expired = none;
}

abbrev slow : Check
slow = record {
  name = codes "db";
  timeout = pos 5;
  has_fn = true;
  outcome = none;
  expired = some (plain (codes "context deadline exceeded"));
}

abbrev fresh : State Bytes
fresh = record {
  c = clean;
  response = record {
    status = pos 0;
    content_type = [];
    body = [];
    header = λ k. none;
    close = false;
  };
  head = false;
}

abbrev checks : List Check
checks = fine ∷ slow ∷ []

checked :
    (refused checks ≡ false)
    × (refused (record fine { name = [] } ∷ []) ≡ true)
    × (run_check slow ≡ some (plain (codes "context deadline exceeded")))
unfolding refused run_check
checked = (refl, refl, refl)

ready-Passed_example :
    ((answer text (ready true checks) fresh).status ≡ pos 200 → (true ≡ true) × Passed checks)
    × (true ≡ true
        → Passed checks
        → ((answer text (ready true checks) fresh).status ≡ pos 200)
          × ((answer text (ready true checks) fresh).body ≡ ok_text))
    × (true ≡ false → IsNotReady (answer text (ready true checks) fresh))
    × ((e : Err) (ch : Check)
        → true ≡ true
        → FirstFailure e ch checks
        → as_panic e ≡ false
        → IsNotReady (answer text (ready true checks) fresh))
ready-Passed_example = ready-Passed text true checks fresh refl
