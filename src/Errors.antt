-- ===== src/Errors.antt =====
-- errors.go: the errors of the funnel, and DefaultErrorHandler. What is only logged is left out.
-- `fasthttp.StatusMessage` is an argument. `errors.As` walks an error's tree depth first, the error
-- itself before what it wraps.
pub mod Funnel
mod Tests
use rice_http.Prelude.{
  ℕ, ℤ, pos, negsuc, Bytes, codes, Bool, true, false, ◌||◌, Option, none, some, [], ◌∷◌, ltb,
  if◌then◌else◌,
}

-- What a panic carries: an error, or another value, by its text.
mutual
  pub data Err : Type 0 where
    -- *HTTPError, with no cause and with one
    http : ℤ → Bytes → Err
    http_caused : ℤ → Bytes → Err → Err
    -- *PanicError
    panicked : Thrown → Err
    -- An error with an `Unwrap() error`, one with an `Unwrap() []error` of two, and one with neither
    wrapping : Bytes → Err → Err
    joined : Err → Err → Err
    plain : Bytes → Err

  pub data Thrown : Type 0 where
    error_value : Err → Thrown
    other_value : Bytes → Thrown

-- The response of a request, as far as the code here writes it.
pub record Response : Type 0 where
  pub status : ℤ
  pub content_type : Bytes
  pub body : Bytes
  pub header : Bytes → Option Bytes
  pub close : Bool

pub data Found : Type 0 where
  found : ℤ → Bytes → Found
  nothing : Found

abbrev pub or_found : Found → Found → Found
or_found (found c m) f = found c m
or_found nothing f = f

unfoldable mutual
  -- `errors.As` with a *PanicError as the target.
  pub as_panic : Err → Bool
  as_panic (http code msg) = false
  as_panic (http_caused code msg e) = as_panic e
  as_panic (panicked v) = true
  as_panic (wrapping text e) = as_panic e
  as_panic (joined a b) = as_panic a || as_panic b
  as_panic (plain text) = false

unfoldable mutual
  -- `errors.As` with an *HTTPError as the target. A PanicError unwraps to an error that was thrown.
  pub as_http : Err → Found
  as_http (http code msg) = found code msg
  as_http (http_caused code msg e) = found code msg
  as_http (panicked v) = as_http_thrown v
  as_http (wrapping text e) = as_http e
  as_http (joined a b) = or_found (as_http a) (as_http b)
  as_http (plain text) = nothing

  pub as_http_thrown : Thrown → Found
  as_http_thrown (error_value e) = as_http e
  as_http_thrown (other_value text) = nothing

unfoldable pub valid_status : ℤ → ℕ
valid_status (pos n) = if ltb n 100 || ltb 599 n then 500 else n
valid_status (negsuc n) = 500

abbrev pub text_plain : Bytes
text_plain = codes "text/plain; charset=utf-8"

abbrev pub internal_error : Bytes
internal_error = codes "Internal Server Error"

module _ (status_message : ℕ → Bytes) where
  abbrev pub or_status_text : ℕ → Bytes → Bytes
  or_status_text code [] = status_message code
  or_status_text code (c ∷ msg) = c ∷ msg

  unfoldable pub respond : ℤ → Bytes → Response → Response
  respond code msg r =
      let v = valid_status code in
      record r { status = pos v; content_type = text_plain; body = or_status_text v msg }

  unfoldable pub respond_panic : Response → Response
  respond_panic r = respond (pos 500) internal_error r

  abbrev pub answer_found : Found → Response → Response
  answer_found (found code msg) r = respond code msg r
  answer_found nothing r = respond (pos 500) internal_error r

  -- Behind the type switch: the two walks of `errors.As`.
  unfoldable pub answer_wrapped : Err → Response → Response
  answer_wrapped e r = if as_panic e then respond_panic r else answer_found (as_http e) r

  unfoldable pub default_error_handler : Err → Response → Response
  default_error_handler (panicked v) r = respond_panic r
  default_error_handler (http code msg) r = respond code msg r
  default_error_handler (http_caused code msg e) r = answer_wrapped (http_caused code msg e) r
  default_error_handler (wrapping text e) r = answer_wrapped (wrapping text e) r
  default_error_handler (joined a b) r = answer_wrapped (joined a b) r
  default_error_handler (plain text) r = answer_wrapped (plain text) r
