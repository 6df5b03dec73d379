-- ===== src/Binding.antt =====
-- binding/binding.go: a body bound to a value of type T. The decoder's result is given; `validate` is
-- the value's Validate, which a type without one passes, and `text` is an error's Error.
pub mod Answers
mod Tests
use rice_http.Prelude.{ℕ, pos, Bytes, codes, Option, none, some, ◌⊎◌, inl, inr}
use rice_http.Errors.{Err, http_caused, plain, Found, found, nothing, as_http}

-- How decoding ends: with io.EOF in the error's tree, with another error, or with a value, which has
-- more data behind it or not.
pub data Decoded (T : Type 0) : Type 0 where
  empty : Err → Decoded T
  malformed : Err → Decoded T
  trailing : T → Decoded T
  value : T → Decoded T

abbrev pub empty_body : Bytes
empty_body = codes "empty request body"

abbrev pub invalid_body : Bytes
invalid_body = codes "invalid JSON body"

abbrev pub trailing_data : Err
trailing_data = plain (codes "binding: trailing data after the JSON value")

abbrev pub or_unprocessable : (Err → Bytes) → Err → Found → Err
or_unprocessable text e (found code msg) = e
or_unprocessable text e nothing = http_caused (pos 422) (text e) e

module _ {T : Type 0} where
  abbrev pub validated : (Err → Bytes) → T → Option Err → Err ⊎ T
  validated text v none = inr v
  validated text v (some e) = inl (or_unprocessable text e (as_http e))

  -- `JSON`
  unfoldable pub bind : (Err → Bytes) → (T → Option Err) → Decoded T → Err ⊎ T
  bind text validate (empty e) = inl (http_caused (pos 400) empty_body e)
  bind text validate (malformed e) = inl (http_caused (pos 400) invalid_body e)
  bind text validate (trailing v) = inl (http_caused (pos 400) invalid_body trailing_data)
  bind text validate (value v) = validated text v (validate v)
