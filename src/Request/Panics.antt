-- ===== src/Request/Panics.antt =====
-- app.go (`handle`): what is answered, and which stream is started, when a handler fails.
use rice_http.Prelude.{
  ℕ, pos, Bytes, Bool, true, false, Option, none, some, ◌≡◌, refl, Bool-cases, inl, inr, ap, sym,
  ◌∙◌,
}
use rice_http.Errors.{
  Err, panicked, Response, internal_error, text_plain, respond, respond_panic, valid_status,
  default_error_handler,
}
use rice_http.Ctx.{Ctx}
use rice_http.Request.{
  State, Prog, Outcome, done, error, panics, run, call_error_handler, funnel, conclude,
  default_handler, to_start, start_of, mark_handled,
}
use rice_http.Request.Settling.{HasPanicked, funnel-IsSettled, if_true, if_false}

-- The answer to a request that failed inside.
abbrev pub IsInternalError : Response → Type 0
IsInternalError r = (r.status ≡ pos 500) × (r.body ≡ internal_error) × (r.content_type ≡ text_plain)

module _ {V : Type 0} where
  to_start_settled : (c : Ctx V) → c.handled ≡ true → to_start c ≡ none
  to_start_settled c h = quiet c.handled c.stream_fn c.heartbeat h
    where
      quiet : (h : Bool) (f : Option ℕ) (n : ℕ) → h ≡ true → start_of h f n ≡ none
      quiet h none n e = refl
      quiet h (some fn) n e = rw e refl

  panicked_answer :
      (sm : ℕ → Bytes) (x : Outcome × State V)
      → HasPanicked x.0
      → IsInternalError (conclude sm (default_handler sm) x).response
        × (to_start (conclude sm (default_handler sm) x).c ≡ none)
  unfolding conclude call_error_handler run default_error_handler respond_panic respond valid_status
  panicked_answer sm (done, s) h = absurd h
  panicked_answer sm (error e, s) h = absurd h
  panicked_answer sm (panics t, s) h =
      ((refl, refl, refl), to_start_settled (conclude sm (default_handler sm) (panics t, s)).c refl)

  -- A request whose handler panics, at any point and whatever it wrote, handled or recorded before, is
  -- answered by the default ErrorHandler as an internal error, and none of its streams starts.
  pub conclude_panicked :
      (sm : ℕ → Bytes) (p : Prog V) (s : State V)
      → HasPanicked (run (funnel sm (default_handler sm)) p s).0
      → IsInternalError
          (conclude sm (default_handler sm) (run (funnel sm (default_handler sm)) p s)).response
        × (to_start (conclude sm (default_handler sm) (run (funnel sm (default_handler sm)) p s)).c
            ≡ none)
  conclude_panicked sm p s h = panicked_answer sm (run (funnel sm (default_handler sm)) p s) h

  started :
      (c : Ctx V) (x : ℕ × ℕ)
      → to_start c ≡ some x
      → (c.handled ≡ false) × (c.stream_fn ≡ some x.0) × (c.heartbeat ≡ x.1)
  started c x e = read c.handled c.stream_fn c.heartbeat e
    where
      read :
          (h : Bool) (f : Option ℕ) (n : ℕ)
          → start_of h f n ≡ some x
          → (h ≡ false) × (f ≡ some x.0) × (n ≡ x.1)
      read h none n e = cc
      read true (some fn) n e = cc
      read false (some fn) n e = (refl, cc, cc)

  -- A request that the funnel answered starts no stream.
  conclude_unsettled :
      (sm : ℕ → Bytes) (eh : Err → Prog V) (x : Outcome × State V)
      → (conclude sm eh x).c.handled ≡ false
      → (x.0 ≡ done) × (conclude sm eh x ≡ x.1)
  unfolding conclude
  conclude_unsettled sm eh (done, s) h = (refl, refl)
  conclude_unsettled sm eh (error e, s) h = elim (Bool-cases s.c.handled) [
    | inl was ↦ absurd (
        clash was (
          ap (λ t. t.c.handled) (sym (if_true s.c.handled s (funnel sm eh e (mark_handled s)) was))
          ∙ h))
    | inr not_yet ↦ absurd (
        clash (funnel-IsSettled sm eh e (mark_handled s) refl) (
          ap (λ t. t.c.handled)
            (sym (if_false s.c.handled s (funnel sm eh e (mark_handled s)) not_yet))
          ∙ h))
  ]
    where
      clash : {b : Bool} → b ≡ true → b ≡ false → ⊥
      clash p q = cc
  conclude_unsettled sm eh (panics t, s) h =
      cc (funnel-IsSettled sm eh (panicked t) (mark_handled s) refl)

  -- A stream starts only behind a handler that returned nil, on a request that no error has settled;
  -- it is the callback that the handlers registered, with its heartbeat, and nothing is changed in the
  -- response behind them.
  pub to_start-conclude :
      (sm : ℕ → Bytes) (eh : Err → Prog V) (p : Prog V) (s : State V) (fn heartbeat : ℕ)
      → to_start (conclude sm eh (run (funnel sm eh) p s)).c ≡ some (fn, heartbeat)
      → ((run (funnel sm eh) p s).0 ≡ done)
        × ((run (funnel sm eh) p s).1.c.handled ≡ false)
        × ((run (funnel sm eh) p s).1.c.stream_fn ≡ some fn)
        × ((run (funnel sm eh) p s).1.c.heartbeat ≡ heartbeat)
        × (conclude sm eh (run (funnel sm eh) p s) ≡ (run (funnel sm eh) p s).1)
  to_start-conclude sm eh p s fn heartbeat e =
      let (h, f, n) = started (conclude sm eh (run (funnel sm eh) p s)).c (fn, heartbeat) e in
      let (d, same) = conclude_unsettled sm eh (run (funnel sm eh) p s) h in
      (d, rw same at h, rw same at f, rw same at n, same)
