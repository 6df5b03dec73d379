-- ===== src/Request/Wrappers.antt =====
-- middleware/recover.go, middleware/timeout.go, middleware/logger.go: handlers around a handler. What
-- Logger writes to its log and the clock of a timeout are left out: `derive` is context.WithTimeout,
-- and `expired` says whether its deadline has passed by the time that the handler returns.
pub mod Laws
use rice_http.Prelude.{
  ℕ, zero, suc, ℤ, pos, negsuc, Bytes, Bool, true, false, Option, none, some, [], if◌then◌else◌,
}
use rice_http.Errors.{Err, http_caused, panicked, Thrown, Found, found, nothing, as_http}
use rice_http.Ctx.{or_base}
use rice_http.Request.{
  State, Prog, ret, fail, throw, settle, write, stream, put, set_context, ask, Outcome, done, error,
  panics, Attempt, went, threw, register_stream, try_context,
}

abbrev pub or_unavailable : Found → Err → Err
or_unavailable (found code msg) e = e
or_unavailable nothing e = http_caused (pos 503) [] e

module _ {V : Type 0} where
  abbrev pub caught : Attempt V → (Thrown → Prog V) → Prog V → Prog V
  caught (went s) k p = p
  caught (threw t) k p = k t

  -- A handler, and what a deferred function or the code behind the call does with its end.
  unfoldable pub after : Prog V → (Outcome → Prog V) → Prog V
  after ret k = k done
  after (fail e) k = k (error e)
  after (throw t) k = k (panics t)
  after (settle e p) k = settle e (after p k)
  after (write f p) k = write f (after p k)
  after (stream hb fn p) k =
      ask λ s. caught (register_stream hb fn s) (λ t. k (panics t)) (stream hb fn (after p k))
  after (put id v p) k = put id v (after p k)
  after (set_context ctx p) k =
      ask λ s. caught (try_context ctx s) (λ t. k (panics t)) (set_context ctx (after p k))
  after (ask f) k = ask λ s. after (f s) k

  -- A panic becomes a returned error.
  abbrev pub recovered : Outcome → Prog V
  recovered done = ret
  recovered (error e) = fail e
  recovered (panics t) = fail (panicked t)

  -- `Recover`
  unfoldable pub recover : Prog V → Prog V
  recover next = after next recovered

  abbrev pub timed_out : Bool → Outcome → Prog V
  timed_out expired done = ret
  timed_out expired (error e) = fail (if expired then or_unavailable (as_http e) e else e)
  timed_out expired (panics t) = throw t

  -- `Timeout`, of a positive duration; another one panics when it is installed.
  unfoldable pub timed : (ℕ → ℕ) → Bool → ℕ → Prog V → Prog V
  timed derive expired base next = ask λ s.
      let prev = or_base base s.c.ctx in
      set_context (some (derive prev))
        (after next λ o. set_context (some prev) (timed_out expired o))

  unfoldable pub timeout : ℤ → (ℕ → ℕ) → Bool → ℕ → Option (Prog V → Prog V)
  timeout (pos zero) derive expired base = none
  timeout (pos (suc d)) derive expired base = some (timed derive expired base)
  timeout (negsuc d) derive expired base = none

  abbrev pub settled_end : Outcome → Prog V
  settled_end done = ret
  settled_end (error e) = settle (some e) ret
  settled_end (panics t) = throw t

  -- `Logger`: settles the request, so that it can read the status that is sent.
  unfoldable pub logger : Prog V → Prog V
  logger next = after next settled_end
