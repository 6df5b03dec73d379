-- ===== src/Request/Tests.antt =====
-- Requests served, and the instances of the theorems.
use rice_http.Prelude.{
  Option, Bool, ℕ, pos, Bytes, codes, true, false, none, some, [], ◌∷◌, ◌≡◌, refl, All,
}
use rice_http.Errors.{
  Err, http, plain, other_value, Response, as_panic, as_http, valid_status, respond, respond_panic,
  answer_wrapped, default_error_handler,
}
use rice_http.Ctx.{Ctx, release, key_set, key_get, param, route_of, context_of}
use rice_http.Ctx.Pool.{IsLive, clean, idle}
use rice_http.App.Model.{App}
use rice_http.App.Setup.{new_app}
use rice_http.Request.{
  State, Prog, threw, ret, fail, throw, settle, write, stream, done, register_stream, try_context,
  run, call_error_handler, funnel, conclude, default_handler, to_start, mark_handled, handle,
}
use rice_http.Request.Settling.{
  IsSettled, HasPanicked, call_error_handler_depth, conclude-run-IsSettled,
}
use rice_http.Request.Panics.{IsInternalError, conclude_panicked, to_start-conclude}
use rice_http.Request.Wrappers.{after, recover, timed, logger}
use rice_http.Request.Wrappers.Laws.{conclude-recover, conclude-timed}
use rice_http.Request.Whole.{handle-acquire}
use rice_http.Request.Released.{
  use_after_release, call_handle_error, call_set_context, call_stream, release_lem,
}

request : Unit {0}
unfolding as_panic as_http valid_status respond respond_panic answer_wrapped default_error_handler
    register_stream try_context run call_error_handler conclude after recover timed logger
request = tt

abbrev text : ℕ → Bytes
text n = codes "Text"

abbrev fresh : State Bytes
fresh = record {
  c = clean;
  response = record {
    status = pos 200;
    content_type = [];
    body = [];
    header = λ k. none;
    close = false;
  };
  head = false;
}

abbrev dh : Err → Prog Bytes
dh = default_handler text

abbrev settled : State Bytes
settled = mark_handled fresh

-- Writes, records a stream, and panics.
abbrev bug : Prog Bytes
bug = write (λ r. record r { status = pos 201 }) (stream 0 (some 5) (throw (other_value [])))

-- Settles one error, and returns another.
abbrev twice : Prog Bytes
twice = settle (some (http (pos 404) [])) (fail (http (pos 409) []))

abbrev streamed : Prog Bytes
streamed = stream 15 (some 5) ret

abbrev slow : Prog Bytes
slow = fail (plain (codes "context deadline exceeded"))

-- An ErrorHandler that calls HandleError in its turn.
abbrev nested : Err → Prog Bytes
nested e = settle (some e) (write (λ r. record r { status = pos 418 }) ret)

runs :
    ((conclude text dh (run (funnel text dh) bug fresh)).response.status ≡ pos 500)
    × ((conclude text dh (run (funnel text dh) twice fresh)).response.status ≡ pos 404)
    × (to_start (conclude text dh (run (funnel text dh) streamed fresh)).c ≡ some (5, 15))
    × ((conclude text nested (run (funnel text nested) twice fresh)).response.status ≡ pos 418)
    × ((conclude text dh (
          run
            (funnel text dh)
            (recover (settle (some (http (pos 404) [])) (throw (other_value []))))
            fresh)).response.status
        ≡ pos 404)
unfolding request
runs = (refl, refl, refl, refl, refl)

call_error_handler_depth_example :
    call_error_handler text 3 nested (plain []) settled ≡ funnel text nested (plain []) settled
call_error_handler_depth_example = call_error_handler_depth text 2 nested (plain []) settled refl

conclude-run-IsSettled_example :
    (conclude text dh (run (funnel text dh) twice settled) ≡ (run (λ e t. t) twice settled).1)
    × IsSettled (conclude text dh (run (funnel text dh) twice settled))
unfolding request
conclude-run-IsSettled_example = conclude-run-IsSettled text dh twice settled refl (λ h. h)

conclude_panicked_example :
    IsInternalError (conclude text dh (run (funnel text dh) bug fresh)).response
    × (to_start (conclude text dh (run (funnel text dh) bug fresh)).c ≡ none)
unfolding request
conclude_panicked_example = conclude_panicked text bug fresh tt

to_start-conclude_example :
    ((run (funnel text dh) streamed fresh).0 ≡ done)
    × ((run (funnel text dh) streamed fresh).1.c.handled ≡ false)
    × ((run (funnel text dh) streamed fresh).1.c.stream_fn ≡ some 5)
    × ((run (funnel text dh) streamed fresh).1.c.heartbeat ≡ 15)
    × (conclude text dh (run (funnel text dh) streamed fresh)
        ≡ (run (funnel text dh) streamed fresh).1)
unfolding request
to_start-conclude_example = to_start-conclude text dh streamed fresh 5 15 refl

conclude-recover_example :
    (HasPanicked (run (funnel text dh) (recover bug) fresh).0 → ⊥)
    × ((run (funnel text dh) bug fresh).1.c.handled ≡ false
        → conclude text dh (run (funnel text dh) (recover bug) fresh)
          ≡ conclude text dh (run (funnel text dh) bug fresh))
    × (IsSettled (run (funnel text dh) bug fresh).1
        → conclude text dh (run (funnel text dh) (recover bug) fresh)
          ≡ (run (funnel text dh) bug fresh).1)
conclude-recover_example = conclude-recover text dh bug fresh

abbrev derive : ℕ → ℕ
derive k = 7

conclude-timed_example :
    ((conclude text dh (run (funnel text dh) (timed derive true 1 slow) fresh)).response.status
      ≡ pos 503)
    × ((conclude text dh (run (funnel text dh) (timed derive true 1 slow) fresh)).response.body
        ≡ text 503)
unfolding request
conclude-timed_example =
    conclude-timed text derive 1 slow fresh (plain (codes "context deadline exceeded")) refl refl
      refl refl

abbrev app : App (Prog Bytes)
app = new_app (fail (http (pos 404) []))

handle-acquire_example :
    ((handle text app dh false true false
        (codes "GET")
        (codes "/")
        fresh.response
        (clean ∷ [])).response
      ≡ (handle text app dh false true false (codes "GET") (codes "/") fresh.response []).response)
    × ((handle text app dh false true false
          (codes "GET")
          (codes "/")
          fresh.response
          (clean ∷ [])).started
        ≡ (handle text app dh false true false (codes "GET") (codes "/") fresh.response []).started)
    × All IsLive
        (handle text app dh false true false
          (codes "GET")
          (codes "/")
          fresh.response
          (clean ∷ [])).pool
handle-acquire_example =
    handle-acquire text app dh false true false (codes "GET") (codes "/") fresh.response
      (clean ∷ []) (refl, tt)

-- A context that served a request, and one more in the pool.
abbrev used : Ctx Bytes
used = record clean {
  store = record { key = 3; val = some (codes "v") } ∷ [];
  handled = true;
  stream_fn = some 5;
  route = codes "/";
}

release_lem_example :
    ((release true used (clean ∷ [])).0 ≡ idle true)
    × ((release true used (clean ∷ [])).1 ≡ clean ∷ [])
    × (true ≡ true
        → (k : Option ℕ) (v : Option Bytes) (name : Bytes) (base : ℕ)
          (answer : Err → State Bytes → State Bytes) (e : Option Err) (n : Option ℕ) (r : Response)
          (head : Bool)
        → let gone = (release true used (clean ∷ [])).0 in
          let s : State Bytes = record { c = gone; response = r; head = head } in
          (key_set k v gone ≡ none)
          × (key_get k gone ≡ none)
          × (param name gone ≡ none)
          × (route_of gone ≡ none)
          × (context_of base gone ≡ none)
          × (call_handle_error answer e s ≡ threw use_after_release)
          × (call_set_context n s ≡ threw use_after_release)
          × (call_stream n s ≡ threw use_after_release))
release_lem_example = release_lem true used (clean ∷ []) refl
