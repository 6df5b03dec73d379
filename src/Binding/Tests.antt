-- ===== src/Binding/Tests.antt =====
-- Bodies bound, and the instance of the theorem.
use rice_http.Prelude.{
  ℕ, zero, suc, false, pos, Bytes, codes, Option, none, some, [], ◌≡◌, refl, inr,
}
use rice_http.Errors.{Err, plain, Response, as_http}
use rice_http.Binding.{value, bind}
use rice_http.Binding.Answers.{refusal}

abbrev text : ℕ → Bytes
text n = codes "Text"

abbrev error_text : Err → Bytes
error_text e = codes "too small"

-- A number that has to be 1 at least.
abbrev positive : ℕ → Option Err
positive zero = some (plain (codes "too small"))
positive (suc n) = none

abbrev empty_response : Response
empty_response = record {
  status = pos 200;
  content_type = [];
  body = [];
  header = λ k. none;
  close = false;
}

bound :
    (refusal error_text positive (value 0) ≡ some (pos 422, codes "too small"))
    × (bind error_text positive (value 3) ≡ inr 3)
unfolding bind as_http
bound = (refl, refl)
