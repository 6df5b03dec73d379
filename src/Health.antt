-- ===== src/Health.antt =====
-- health/health.go: the liveness and the readiness of an App. What a check's function returns, and the
-- error of its context when it has returned, are given with the check.
pub mod Readiness
mod Tests
use rice_http.Prelude.{
  ℕ, zero, suc, ℤ, pos, negsuc, Bytes, codes, Bool, true, false, Option, none, some, List, [], ◌∷◌,
  ◌++◌, if◌then◌else◌,
}
use rice_http.Errors.{Err, http, http_caused, wrapping}
use rice_http.Request.{Prog, ret, fail}
use rice_http.Respond.{string}

pub record Check : Type 0 where
  pub name : Bytes
  pub timeout : ℤ
  -- Whether there is a function, what it returns, and its context's error behind it.
  pub has_fn : Bool
  pub outcome : Option Err
  pub expired : Option Err

abbrev pub is_negative : ℤ → Bool
is_negative (pos n) = false
is_negative (negsuc n) = true

abbrev pub is_empty : Bytes → Bool
is_empty [] = true
is_empty (c ∷ cs) = false

-- Whether `Ready` panics on one of the checks.
unfoldable pub refused : List Check → Bool
refused [] = false
refused (ch ∷ checks) =
    let rest = refused checks in
    if is_empty ch.name
    then true
    else if ch.has_fn
    then (if is_negative ch.timeout then true else rest)
    else true

-- `run`: the check's error, or that of its context.
abbrev pub or_expired : Option Err → Option Err → Option Err
or_expired (some e) expired = some e
or_expired none expired = expired

unfoldable pub run_check : Check → Option Err
run_check ch = or_expired ch.outcome ch.expired

abbrev pub not_ready_message : Bytes
not_ready_message = codes "not ready"

abbrev pub ok_text : Bytes
ok_text = codes "ok"

abbrev pub failed_check : Check → Err → Err
failed_check ch e =
    http_caused (pos 503) not_ready_message
      (wrapping (codes "health: check " ++ ch.name ++ codes ": ") e)

module _ {V : Type 0} where
  -- `Live`
  unfoldable pub live : Prog V
  live = string (pos 200) ok_text

  -- The loop of the handler.
  abbrev pub or_fail : Check → Option Err → Prog V → Prog V
  or_fail ch none k = k
  or_fail ch (some e) k = fail (failed_check ch e)

  unfoldable pub run_checks : List Check → Prog V
  run_checks [] = string (pos 200) ok_text
  run_checks (ch ∷ checks) = or_fail ch (run_check ch) (run_checks checks)

  -- The handler of `Ready`, of an App that is ready or not.
  unfoldable pub ready : Bool → List Check → Prog V
  ready is_ready checks =
      if is_ready then run_checks checks else fail (http (pos 503) not_ready_message)
