-- ===== src/Request/Wrappers/Laws.antt =====
-- middleware/recover.go, middleware/timeout.go, middleware/logger.go: what they change of a request.
use rice_http.Prelude.{
  ℕ, pos, Bytes, Bool, true, false, Option, some, ◌≡◌, refl, ◌∙◌, if◌then◌else◌,
}
use rice_http.Errors.{
  Err, panicked, nothing, as_http, as_panic, default_error_handler, answer_wrapped, respond,
  valid_status,
}
use rice_http.Ctx.{or_base, set}
use rice_http.Request.{
  State, Prog, ret, fail, throw, settle, write, stream, put, set_context, ask, Outcome, done, error,
  panics, Attempt, went, threw, register_stream, try_context, continue, handle_error, run,
  call_error_handler, funnel, conclude, default_handler, mark_handled, with_ctx,
}
use rice_http.Request.Settling.{HasPanicked, IsSettled, if_true, if_false}
use rice_http.Request.Wrappers.{caught, after, recovered, recover, or_unavailable, timed_out, timed}

-- What a timeout makes of a handler's end.
abbrev pub deadline : Bool → Outcome → Outcome
deadline expired (error e) = error (if expired then or_unavailable (as_http e) e else e)
deadline expired o = o

module _ {V : Type 0} where
  abbrev pub resume :
      (Err → State V → State V) → (Outcome → Prog V) → Outcome × State V → Outcome × State V
  resume answer k (o, s) = run answer (k o) s

  after_stream :
      (answer : Err → State V → State V) (x : Attempt V) (k : Outcome → Prog V) (p : Prog V)
      (hb : ℕ) (fn : Option ℕ) (s : State V)
      → register_stream hb fn s ≡ x
      → ((u : State V) → run answer (after p k) u ≡ resume answer k (run answer p u))
      → run answer (caught x (λ t. k (panics t)) (stream hb fn (after p k))) s
        ≡ resume answer k (continue x (run answer p) s)
  unfolding run
  after_stream answer (went u) k p hb fn s e f = rw e (f u)
  after_stream answer (threw t) k p hb fn s e f = refl

  after_context :
      (answer : Err → State V → State V) (x : Attempt V) (k : Outcome → Prog V) (p : Prog V)
      (ctx : Option ℕ) (s : State V)
      → try_context ctx s ≡ x
      → ((u : State V) → run answer (after p k) u ≡ resume answer k (run answer p u))
      → run answer (caught x (λ t. k (panics t)) (set_context ctx (after p k))) s
        ≡ resume answer k (continue x (run answer p) s)
  unfolding run
  after_context answer (went u) k p ctx s e f = rw e (f u)
  after_context answer (threw t) k p ctx s e f = refl

  -- A run of a handler, then of what stands behind it.
  pub run-after :
      (answer : Err → State V → State V) (p : Prog V) (k : Outcome → Prog V) (s : State V)
      → run answer (after p k) s ≡ resume answer k (run answer p s)
  unfolding run after
  run-after answer ret k s = refl
  run-after answer (fail e) k s = refl
  run-after answer (throw t) k s = refl
  run-after answer (settle e p) k s = run-after answer p k (handle_error answer e s)
  run-after answer (write f p) k s = run-after answer p k (record s { response = f s.response })
  run-after answer (stream hb fn p) k s =
      after_stream answer (register_stream hb fn s) k p hb fn s refl (λ u. run-after answer p k u)
  run-after answer (put id v p) k s = run-after answer p k (with_ctx s (set id v))
  run-after answer (set_context ctx p) k s =
      after_context answer (try_context ctx s) k p ctx s refl (λ u. run-after answer p k u)
  run-after answer (ask f) k s = run-after answer (f s) k s

  recovered_answer :
      (sm : ℕ → Bytes) (eh : Err → Prog V) (x : Outcome × State V)
      → (HasPanicked (resume (funnel sm eh) recovered x).0 → ⊥)
        × (x.1.c.handled ≡ false
            → conclude sm eh (resume (funnel sm eh) recovered x) ≡ conclude sm eh x)
        × (IsSettled x.1 → conclude sm eh (resume (funnel sm eh) recovered x) ≡ x.1)
  unfolding conclude run
  recovered_answer sm eh (done, s) = (λ h. h, λ h. refl, λ h. refl)
  recovered_answer sm eh (error e, s) =
      (λ h. h, λ h. refl, λ h. if_true s.c.handled s (funnel sm eh e (mark_handled s)) h)
  recovered_answer sm eh (panics t, s) = (
    λ h. h,
    λ h. if_false s.c.handled s (funnel sm eh (panicked t) (mark_handled s)) h,
    λ h. if_true s.c.handled s (funnel sm eh (panicked t) (mark_handled s)) h,
  )

  -- Under Recover no panic leaves the handler. A request that no error has settled by then is answered
  -- as it is without Recover, panic or not. A request that is settled already keeps the response that
  -- it has, and a panic behind the settling is not answered.
  pub conclude-recover :
      (sm : ℕ → Bytes) (eh : Err → Prog V) (p : Prog V) (s : State V)
      → (HasPanicked (run (funnel sm eh) (recover p) s).0 → ⊥)
        × ((run (funnel sm eh) p s).1.c.handled ≡ false
            → conclude sm eh (run (funnel sm eh) (recover p) s)
              ≡ conclude sm eh (run (funnel sm eh) p s))
        × (IsSettled (run (funnel sm eh) p s).1
            → conclude sm eh (run (funnel sm eh) (recover p) s) ≡ (run (funnel sm eh) p s).1)
  unfolding recover
  conclude-recover sm eh p s =
      rw (run-after (funnel sm eh) p recovered s) (recovered_answer sm eh (run (funnel sm eh) p s))

  abbrev pub set_ctx : ℕ → State V → State V
  set_ctx k s = with_ctx s λ c. record c { ctx = some k }

  timed_end :
      (answer : Err → State V → State V) (expired : Bool) (prev : ℕ) (x : Outcome × State V)
      → resume answer (λ o. set_context (some prev) (timed_out expired o)) x
        ≡ (deadline expired x.0, set_ctx prev x.1)
  unfolding run try_context
  timed_end answer expired prev (done, s) = refl
  timed_end answer expired prev (error e, s) = refl
  timed_end answer expired prev (panics t, s) = refl

  -- The handler inside Timeout runs under the derived context and nothing else is different for it;
  -- the context that was there before is put back however the handler ends, and of its end only an
  -- error is changed.
  pub run-timed :
      (answer : Err → State V → State V) (derive : ℕ → ℕ) (expired : Bool) (base : ℕ) (p : Prog V)
      (s : State V)
      → let x = run answer p (set_ctx (derive (or_base base s.c.ctx)) s) in
        run answer (timed derive expired base p) s
        ≡ (deadline expired x.0, set_ctx (or_base base s.c.ctx) x.1)
  unfolding timed run try_context
  run-timed answer derive expired base p s =
      let prev = or_base base s.c.ctx in
      run-after answer p (λ o. set_context (some prev) (timed_out expired o))
        (set_ctx (derive prev) s)
      ∙ timed_end answer expired prev (run answer p (set_ctx (derive prev) s))

  unavailable :
      (sm : ℕ → Bytes) (e : Err) (s : State V)
      → as_panic e ≡ false
      → as_http e ≡ nothing
      → s.c.handled ≡ false
      → ((conclude sm (default_handler sm) (deadline true (error e), s)).response.status ≡ pos 503)
        × ((conclude sm (default_handler sm) (deadline true (error e), s)).response.body ≡ sm 503)
  unfolding conclude call_error_handler run default_error_handler answer_wrapped respond
      valid_status as_panic as_http
  unavailable sm e s np nh h = rw (nh, h, np) (refl, refl)

  -- A handler under a timeout that returns an error after the deadline, on a request that is not
  -- settled, where the error carries no recovered panic and no *HTTPError: the default ErrorHandler
  -- answers with 503 and the text of that status.
  pub conclude-timed :
      (sm : ℕ → Bytes) (derive : ℕ → ℕ) (base : ℕ) (p : Prog V) (s : State V) (e : Err)
      → let x =
          run (funnel sm (default_handler sm)) p (set_ctx (derive (or_base base s.c.ctx)) s) in
        let end =
          conclude sm
            (default_handler sm)
            (run (funnel sm (default_handler sm)) (timed derive true base p) s) in
        x.0 ≡ error e
        → as_panic e ≡ false
        → as_http e ≡ nothing
        → x.1.c.handled ≡ false
        → (end.response.status ≡ pos 503) × (end.response.body ≡ sm 503)
  conclude-timed sm derive base p s e is_error np nh h =
      let x = run (funnel sm (default_handler sm)) p (set_ctx (derive (or_base base s.c.ctx)) s) in
      rw (run-timed (funnel sm (default_handler sm)) derive true base p s, is_error)
        (unavailable sm e (set_ctx (or_base base s.c.ctx) x.1) np nh h)
