-- ===== src/Request/Released.antt =====
-- ctx.go, stream.go, poison_debug.go: the calls of a Ctx with the check that they begin with, and a run
-- of a handler whose calls have it.
use rice_http.Prelude.{
  ℕ, Bytes, codes, Bool, true, false, ◌∙◌, Option, none, some, List, ◌∷◌, ◌≡◌, refl, ap,
  if◌then◌else◌,
}
use rice_http.Errors.{Err, Thrown, other_value, Response}
use rice_http.Ctx.{Ctx, set, release, key_set, key_get, param, route_of, context_of}
use rice_http.Ctx.Pool.{idle, release-idle}
use rice_http.Request.{
  State, Prog, ret, fail, throw, settle, write, stream, put, set_context, ask, Outcome, done, error,
  panics, Attempt, went, threw, register_stream, try_context, continue, handle_error, run, with_ctx,
}
use rice_http.Request.Settling.{Left, register_stream-Left, try_context-Left}
use rice_http.Request.Whole.{InUse, handle_error-InUse}

-- `errUseAfterRelease`
abbrev pub use_after_release : Thrown
use_after_release = other_value (
    codes
      "rice: *Ctx used after its handler returned; see the borrow contract in the package documentation")

module _ {V : Type 0} where
  -- `poison.check`, and the rest of the call.
  unfoldable pub guarded : (State V → Attempt V) → State V → Attempt V
  guarded f s = if s.c.released then threw use_after_release else f s

  -- `HandleError`
  unfoldable pub call_handle_error : (Err → State V → State V) → Option Err → State V → Attempt V
  call_handle_error answer e s = guarded (λ t. went (handle_error answer e t)) s

  -- `SetContext`
  unfoldable pub call_set_context : Option ℕ → State V → Attempt V
  call_set_context ctx s = guarded (try_context ctx) s

  -- `Stream`
  unfoldable pub call_stream : Option ℕ → State V → Attempt V
  call_stream fn s = guarded (register_stream 0 fn) s

  key_set-idle : (k : Option ℕ) (v : Option V) → key_set k v (idle true) ≡ none
  unfolding key_set
  key_set-idle none v = refl
  key_set-idle (some i) v = refl

  key_get-idle : (k : Option ℕ) → key_get k (idle {V = V} true) ≡ none
  unfolding key_get
  key_get-idle none = refl
  key_get-idle (some i) = refl

  -- A context that is given back holds nothing of its request: every field is as in a context that
  -- was never used, but for the mark of a debug build. The pool has it, or in a debug build is as it
  -- was. Then every later Key.Set, Key.Get, Param, Route, Context, HandleError, SetContext and Stream
  -- on it panics. The context was in use before.
  pub release_lem :
      (debug : Bool) (c : Ctx V) (pool : List (Ctx V))
      → c.released ≡ false
      → ((release debug c pool).0 ≡ idle debug)
        × ((release debug c pool).1 ≡ (if debug then pool else idle false ∷ pool))
        × (debug ≡ true
            → (k : Option ℕ) (v : Option V) (name : Bytes) (base : ℕ)
              (answer : Err → State V → State V) (e : Option Err) (n : Option ℕ) (r : Response)
              (head : Bool)
            → let gone = (release debug c pool).0 in
              let s : State V = record { c = gone; response = r; head = head } in
              (key_set k v gone ≡ none)
              × (key_get k gone ≡ none)
              × (param name gone ≡ none)
              × (route_of gone ≡ none)
              × (context_of base gone ≡ none)
              × (call_handle_error answer e s ≡ threw use_after_release)
              × (call_set_context n s ≡ threw use_after_release)
              × (call_stream n s ≡ threw use_after_release))
  unfolding param route_of context_of guarded call_handle_error call_set_context call_stream
  release_lem debug c pool l =
      let (gone, kept) = release-idle debug c pool l in
      (
        gone,
        kept,
        λ poisoned k v name base answer e n r head.
            rw (gone, poisoned)
              (key_set-idle k v, key_get-idle k, refl, refl, refl, refl, refl, refl),
      )

  -- A run of a handler whose every call checks its Ctx.
  unfoldable pub checked_run : (Err → State V → State V) → Prog V → State V → Outcome × State V
  checked_run answer ret s = (done, s)
  checked_run answer (fail e) s = (error e, s)
  checked_run answer (throw t) s = (panics t, s)
  checked_run answer (settle e k) s =
      continue (call_handle_error answer e s) (checked_run answer k) s
  checked_run answer (write f k) s =
      continue (guarded (λ t. went (record t { response = f t.response })) s) (checked_run answer k)
        s
  checked_run answer (stream hb fn k) s =
      continue (guarded (register_stream hb fn) s) (checked_run answer k) s
  checked_run answer (put id v k) s =
      continue (guarded (λ t. went (with_ctx t (set id v))) s) (checked_run answer k) s
  checked_run answer (set_context ctx k) s =
      continue (call_set_context ctx s) (checked_run answer k) s
  checked_run answer (ask k) s = checked_run answer (k s) s

  passes :
      (f : State V → Attempt V) (k k' : State V → Outcome × State V) (s : State V)
      → InUse s
      → Left InUse (f s)
      → ((t : State V) → InUse t → k t ≡ k' t)
      → continue (guarded f s) k s ≡ continue (f s) k' s
  unfolding guarded
  passes f k k' s live l same =
      ap (λ (b : Bool). continue (if b then threw use_after_release else f s) k s) live ∙ on (f s) l
    where
      on : (x : Attempt V) → Left InUse x → continue x k s ≡ continue x k' s
      on (went t) l = same t l
      on (threw t) l = refl

  -- On a Ctx that is in use no check fails: the run is the one without the checks. The ErrorHandler
  -- keeps the Ctx in use.
  pub checked_run-run :
      (answer : Err → State V → State V)
      → ((x : Err) (t : State V) → InUse t → InUse (answer x t))
      → (p : Prog V) (s : State V) → InUse s
      → checked_run answer p s ≡ run answer p s
  unfolding checked_run run call_handle_error call_set_context
  checked_run-run answer f ret s live = refl
  checked_run-run answer f (fail e) s live = refl
  checked_run-run answer f (throw t) s live = refl
  checked_run-run answer f (settle e k) s live =
      passes (λ t. went (handle_error answer e t)) _ _ s live (handle_error-InUse answer e s f live)
        (λ t l. checked_run-run answer f k t l)
  checked_run-run answer f (write w k) s live =
      passes (λ t. went (record t { response = w t.response })) _ _ s live live
        (λ t l. checked_run-run answer f k t l)
  checked_run-run answer f (stream hb fn k) s live =
      passes (register_stream hb fn) _ _ s live
        (register_stream-Left InUse hb fn s live (λ n. live))
        (λ t l. checked_run-run answer f k t l)
  checked_run-run answer f (put id v k) s live =
      passes (λ t. went (with_ctx t (set id v))) _ _ s live live
        (λ t l. checked_run-run answer f k t l)
  checked_run-run answer f (set_context ctx k) s live =
      passes (try_context ctx) _ _ s live (try_context-Left InUse ctx s (λ n. live))
        (λ t l. checked_run-run answer f k t l)
  checked_run-run answer f (ask k) s live = checked_run-run answer f (k s) s live
