-- ===== src/Request.antt =====
-- app.go (`handle`, `callErrorHandler`), ctx.go (`HandleError`, `SetContext`), stream.go
-- (`registerStream`), and the middleware recover.go, timeout.go and logger.go: one request. A handler
-- is the tree of the calls that it makes on its Ctx: it may ask for the state that it can read, and
-- ends by returning or by a panic. The check for a released Ctx that each call begins with is apart
-- (Released).
pub mod Settling
pub mod Panics
pub mod Wrappers
pub mod Whole
pub mod Released
mod Tests
use rice_http.Prelude.{
  ℕ, zero, suc, ℤ, pos, Bytes, codes, Bool, true, false, not, ◌&&◌, ◌||◌, Option, none, some, List,
  [], ◌∷◌, ◌==◌, leb, ltb, if◌then◌else◌,
}
use rice_http.Router.Params.{Params}
use rice_http.Errors.{
  Err, http, http_caused, panicked, plain, Thrown, error_value, other_value, Response, Found, found,
  nothing, as_http, respond, internal_error, default_error_handler,
}
use rice_http.Ctx.{Ctx, set, acquire, release}
use rice_http.App.Model.{App}
use rice_http.App.Build.{dispatch}

-- A request while it is served: its Ctx, its response, and whether its method is HEAD.
pub record State (V : Type 0) : Type 0 where
  pub c : Ctx V
  pub response : Response
  pub head : Bool

pub data Prog (V : Type 0) : Type 0 where
  -- return nil, return an error, panic
  ret : Prog V
  fail : Err → Prog V
  throw : Thrown → Prog V
  -- c.HandleError(err)
  settle : Option Err → Prog V → Prog V
  -- any of the calls that write the response
  write : (Response → Response) → Prog V → Prog V
  -- c.Stream and c.SSE: the heartbeat and the callback
  stream : ℕ → Option ℕ → Prog V → Prog V
  -- key.Set(c, v), c.SetContext(ctx)
  put : ℕ → Option V → Prog V → Prog V
  set_context : Option ℕ → Prog V → Prog V
  -- whatever the handler does next depends on what it reads
  ask : (State V → Prog V) → Prog V

-- How a run ends.
pub data Outcome : Type 0 where
  done : Outcome
  error : Err → Outcome
  panics : Thrown → Outcome

pub data Attempt (V : Type 0) : Type 0 where
  went : State V → Attempt V
  threw : Thrown → Attempt V

-- What `handle` leaves: the response, the stream that it starts, and the pool.
pub record Served (V : Type 0) : Type 0 where
  pub response : Response
  pub started : Option (ℕ × ℕ)
  pub pool : List (Ctx V)

-- While the App drains, every response closes its connection.
abbrev pub begin : Bool → Response → Response
begin draining r = if draining then record r { close = true } else r

abbrev pub start_of : Bool → Option ℕ → ℕ → Option (ℕ × ℕ)
start_of answered none heartbeat = none
start_of answered (some fn) heartbeat = if answered then none else some (fn, heartbeat)

-- The stream that `handle` starts: the callback with its heartbeat.
abbrev pub to_start : {V : Type 0} → Ctx V → Option (ℕ × ℕ)
to_start c = start_of c.handled c.stream_fn c.heartbeat

module _ {V : Type 0} where
  abbrev pub with_ctx : State V → (Ctx V → Ctx V) → State V
  with_ctx s f = record s { c = f s.c }

  abbrev pub mark_handled : State V → State V
  mark_handled s = with_ctx s λ c. record c { handled = true }

  -- `registerStream`
  unfoldable pub register_stream : ℕ → Option ℕ → State V → Attempt V
  register_stream heartbeat none s =
      threw (other_value (codes "rice: Stream or SSE callback is nil"))
  register_stream heartbeat (some fn) s =
      if s.c.stream_set
      then threw (other_value (codes "rice: Stream or SSE called twice for one request"))
      else if s.head
      then went (with_ctx s λ c. record c { stream_set = true })
      else went (
          with_ctx s
            λ c. record c { stream_set = true; stream_fn = some fn; heartbeat = heartbeat })

  -- `SetContext`
  unfoldable pub try_context : Option ℕ → State V → Attempt V
  try_context none s = threw (other_value (codes "rice: SetContext: context is nil"))
  try_context (some k) s = went (with_ctx s λ c. record c { ctx = some k })

  abbrev pub continue : Attempt V → (State V → Outcome × State V) → State V → Outcome × State V
  continue (went s) k old = k s
  continue (threw t) k old = (panics t, old)

  -- `HandleError`, with the call of the ErrorHandler as an argument.
  abbrev pub handle_error : (Err → State V → State V) → Option Err → State V → State V
  handle_error answer none s = s
  handle_error answer (some e) s = if s.c.handled then s else answer e (mark_handled s)

  unfoldable pub run : (Err → State V → State V) → Prog V → State V → Outcome × State V
  run answer ret s = (done, s)
  run answer (fail e) s = (error e, s)
  run answer (throw t) s = (panics t, s)
  run answer (settle e k) s = run answer k (handle_error answer e s)
  run answer (write f k) s = run answer k (record s { response = f s.response })
  run answer (stream heartbeat fn k) s = continue (register_stream heartbeat fn s) (run answer k) s
  run answer (put id v k) s = run answer k (with_ctx s (set id v))
  run answer (set_context ctx k) s = continue (try_context ctx s) (run answer k) s
  run answer (ask k) s = run answer (k s) s

  module _ (status_message : ℕ → Bytes) where
    -- The `recover` of `callErrorHandler`: an ErrorHandler's own panic.
    abbrev pub last_resort : Outcome × State V → State V
    last_resort (panics t, s) = record s {
      response = respond status_message (pos 500) internal_error s.response;
    }
    last_resort (done, s) = s
    last_resort (error e, s) = s

    -- `callErrorHandler`. An ErrorHandler may call HandleError in its turn: `depth` bounds how deep
    -- such calls nest.
    unfoldable pub call_error_handler : ℕ → (Err → Prog V) → Err → State V → State V
    call_error_handler zero eh e s = s
    call_error_handler (suc depth) eh e s = last_resort (run (call_error_handler depth eh) (eh e) s)

    -- The funnel: one call, since a request is settled before its ErrorHandler runs.
    abbrev pub funnel : (Err → Prog V) → Err → State V → State V
    funnel eh = call_error_handler 1 eh

    -- The end of `handle` behind the handler, with its deferred `recover`.
    unfoldable pub conclude : (Err → Prog V) → Outcome × State V → State V
    conclude eh (done, s) = s
    conclude eh (error e, s) = if s.c.handled then s else funnel eh e (mark_handled s)
    conclude eh (panics t, s) = funnel eh (panicked t) (mark_handled s)

    -- The ErrorHandler of an App that sets none.
    abbrev pub default_handler : Err → Prog V
    default_handler e = write (default_error_handler status_message e) ret

    -- `handle`, of a request that finds the response `r`.
    unfoldable pub handle :
        App (Prog V)
        → (Err → Prog V)
        → Bool
        → Bool
        → Bool
        → Bytes
        → Bytes
        → Response
        → List (Ctx V)
        → Served V
    handle a eh debug draining head method path r pool =
        let (c, rest) = acquire a.max_params pool in
        let ((h, route), ps) = dispatch a method path c.params in
        let s0 : State V = record {
          c = record c { params = ps; route = route };
          response = begin draining r;
          head = head;
        } in
        let s = conclude eh (run (funnel eh) h s0) in
        record { response = s.response; started = to_start s.c; pool = (release debug s.c rest).1 }
