-- ===== src/Binding/Answers.antt =====
-- binding/binding.go: what a client is answered when a handler returns the error of a binding.
use rice_http.Prelude.{ℕ, ℤ, pos, Bytes, false, Option, none, some, ◌⊎◌, inl, inr, ◌≡◌}
use rice_http.Errors.{
  Err, Found, found, nothing, as_panic, as_http, Response, respond, default_error_handler,
}
use rice_http.Binding.{Decoded, empty, malformed, trailing, value, empty_body, invalid_body}

-- What a client should see of a body that does not bind: `none` for one that does.
abbrev pub own_or : (Err → Bytes) → Err → Found → ℤ × Bytes
own_or text e (found code msg) = (code, msg)
own_or text e nothing = (pos 422, text e)

abbrev pub of_validation : (Err → Bytes) → Option Err → Option (ℤ × Bytes)
of_validation text none = none
of_validation text (some e) = some (own_or text e (as_http e))

module _ {T : Type 0} where
  abbrev pub refusal : (Err → Bytes) → (T → Option Err) → Decoded T → Option (ℤ × Bytes)
  refusal text validate (empty e) = some (pos 400, empty_body)
  refusal text validate (malformed e) = some (pos 400, invalid_body)
  refusal text validate (trailing v) = some (pos 400, invalid_body)
  refusal text validate (value v) = of_validation text (validate v)

  -- A binding gives the decoded value, or an error that is answered like this.
  abbrev pub Bound : (ℕ → Bytes) → Response → Decoded T → Err ⊎ T → Option (ℤ × Bytes) → Type 0
  Bound sm r d (inr v) none = d ≡ value v
  Bound sm r d (inl err) (some (code, msg)) =
      as_panic err ≡ false → default_error_handler sm err r ≡ respond sm code msg r
  Bound sm r d _ _ = ⊥
