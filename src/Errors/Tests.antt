-- ===== src/Errors/Tests.antt =====
-- Errors answered, and the instances of the theorems.
use rice_http.Prelude.{ℕ, ℤ, pos, negsuc, ◌≤◌, Bytes, codes, none, [], false, ◌≡◌, refl}
use rice_http.Errors.{
  Err, http, joined, wrapping, plain, panicked, other_value, Response, as_panic, as_http,
  valid_status, respond, respond_panic, answer_wrapped, default_error_handler,
}
use rice_http.Errors.Funnel.{Answers, default_error_handler-Answers, respond_bounds}

errors : Unit {0}
unfolding as_panic as_http valid_status respond respond_panic answer_wrapped default_error_handler
errors = tt

abbrev pub status_text : ℕ → Bytes
status_text n = codes "Text"

abbrev pub empty : Response
empty = record { status = pos 200; content_type = []; body = []; header = λ k. none; close = false }

abbrev gone : Err
gone = joined (plain (codes "a")) (wrapping (codes "b") (http (pos 410) (codes "Gone")))

answered :
    ((default_error_handler status_text gone empty).status ≡ pos 410)
    × ((default_error_handler status_text (joined gone (panicked (other_value []))) empty).status
        ≡ pos 500)
    × ((default_error_handler status_text (http (negsuc 3) []) empty).body ≡ codes "Text")
unfolding errors
answered = (refl, refl, refl)

default_error_handler-Answers_example :
    (code : ℤ) × (msg : Bytes) × Answers gone code msg
    × (default_error_handler status_text gone empty ≡ respond status_text code msg empty)
default_error_handler-Answers_example = default_error_handler-Answers status_text gone empty

respond_bounds_example :
    (n : ℕ) × ((respond status_text (pos 404) [] empty).status ≡ pos n)
    × (100 ≤ n)
    × (n ≤ 599)
    × ((k : ℕ) → pos 404 ≡ pos k → 100 ≤ k → k ≤ 599 → n ≡ k)
respond_bounds_example = respond_bounds status_text (pos 404) [] empty
