-- ===== src/Request/Settling.antt =====
-- ctx.go, app.go: a request is settled once.
use rice_http.Prelude.{
  ℕ, suc, Bytes, Bool, true, false, Option, none, some, ◌≡◌, refl, ◌∙◌, ap, if◌then◌else◌,
}
use rice_http.Errors.{Err, Response}
use rice_http.Ctx.{set}
use rice_http.Request.{
  State, Prog, ret, fail, throw, settle, write, stream, put, set_context, ask, Outcome, done, error,
  panics, Attempt, went, threw, register_stream, try_context, continue, handle_error, run,
  last_resort, call_error_handler, funnel, conclude, mark_handled,
}

abbrev pub HasPanicked : Outcome → Type 0
HasPanicked (panics t) = Unit
HasPanicked _ = ⊥

module _ {V : Type 0} where
  abbrev pub IsSettled : State V → Type 0
  IsSettled s = s.c.handled ≡ true

  -- What an attempt leaves has the property, if it leaves anything.
  abbrev pub Left : (State V → Type 0) → Attempt V → Type 0
  Left Q (went s) = Q s
  Left Q (threw t) = Unit

  -- A property of the state that no call of a handler breaks.
  pub record IsStable (answer : Err → State V → State V) (Q : State V → Type 0) : Type 0 where
    pub answering : (e : Option Err) (s : State V) → Q s → Q (handle_error answer e s)
    pub writing :
        (f : Response → Response) (s : State V) → Q s → Q (record s { response = f s.response })
    pub streaming : (hb : ℕ) (fn : Option ℕ) (s : State V) → Q s → Left Q (register_stream hb fn s)
    pub putting : (id : ℕ) (v : Option V) (s : State V) → Q s → Q (record s { c = set id v s.c })
    pub setting : (ctx : Option ℕ) (s : State V) → Q s → Left Q (try_context ctx s)

  continue_keeps :
      (Q : State V → Type 0) (x : Attempt V) (k : State V → Outcome × State V) (s : State V)
      → Left Q x
      → ((t : State V) → Q t → Q (k t).1)
      → Q s
      → Q (continue x k s).1
  continue_keeps Q (went t) k s l f q = f t l
  continue_keeps Q (threw v) k s l f q = q

  pub run-stable :
      (answer : Err → State V → State V) (Q : State V → Type 0)
      → IsStable answer Q
      → (p : Prog V) (s : State V) → Q s
      → Q (run answer p s).1
  unfolding run
  run-stable answer Q st ret s q = q
  run-stable answer Q st (fail e) s q = q
  run-stable answer Q st (throw t) s q = q
  run-stable answer Q st (settle e k) s q = run-stable answer Q st k _ (st.answering e s q)
  run-stable answer Q st (write f k) s q = run-stable answer Q st k _ (st.writing f s q)
  run-stable answer Q st (stream hb fn k) s q =
      continue_keeps Q (register_stream hb fn s) (run answer k) s (st.streaming hb fn s q)
        (λ t l. run-stable answer Q st k t l) q
  run-stable answer Q st (put id v k) s q = run-stable answer Q st k _ (st.putting id v s q)
  run-stable answer Q st (set_context ctx k) s q =
      continue_keeps Q (try_context ctx s) (run answer k) s (st.setting ctx s q)
        (λ t l. run-stable answer Q st k t l) q
  run-stable answer Q st (ask k) s q = run-stable answer Q st (k s) s q

  if-Left :
      (Q : State V → Type 0) (b : Bool) (x y : Attempt V)
      → Left Q x
      → Left Q y
      → Left Q (if b then x else y)
  if-Left Q true x y l r = l
  if-Left Q false x y l r = r

  pub register_stream-Left :
      (Q : State V → Type 0) (hb : ℕ) (fn : Option ℕ) (s : State V)
      → Q (record s { c = record s.c { stream_set = true } })
      → ((f : ℕ)
          → Q (record s {
            c = record s.c { stream_set = true; stream_fn = some f; heartbeat = hb };
          }))
      → Left Q (register_stream hb fn s)
  unfolding register_stream
  register_stream-Left Q hb none s a b = tt
  register_stream-Left Q hb (some fn) s a b =
      if-Left Q s.c.stream_set _ _ tt (if-Left Q s.head _ _ a (b fn))

  pub try_context-Left :
      (Q : State V → Type 0) (ctx : Option ℕ) (s : State V)
      → ((k : ℕ) → Q (record s { c = record s.c { ctx = some k } }))
      → Left Q (try_context ctx s)
  unfolding try_context
  try_context-Left Q none s f = tt
  try_context-Left Q (some k) s f = f k

  pub if_true : (b : Bool) (x y : State V) → b ≡ true → (if b then x else y) ≡ x
  if_true b x y e = rw e refl

  pub if_false : (b : Bool) (x y : State V) → b ≡ false → (if b then x else y) ≡ y
  if_false b x y e = rw e refl

  -- Of a settled request no call asks the ErrorHandler.
  handle_error_settled :
      (answer : Err → State V → State V) (e : Option Err) (s : State V)
      → IsSettled s
      → handle_error answer e s ≡ s
  handle_error_settled answer none s h = refl
  handle_error_settled answer (some e) s h = if_true s.c.handled s (answer e (mark_handled s)) h

  IsSettled-stable : (answer : Err → State V → State V) → IsStable answer IsSettled
  IsSettled-stable answer = record {
    answering = λ e s q. rw (handle_error_settled answer e s q) q;
    writing = λ f s q. q;
    streaming = λ hb fn s q. register_stream-Left IsSettled hb fn s q (λ f. q);
    putting = λ id v s q. q;
    setting = λ ctx s q. try_context-Left IsSettled ctx s (λ k. q);
  }

  continue_same :
      (x : Attempt V) (k k' : State V → Outcome × State V) (s : State V)
      → Left IsSettled x
      → ((t : State V) → IsSettled t → k t ≡ k' t)
      → continue x k s ≡ continue x k' s
  continue_same (went t) k k' s l f = f t l
  continue_same (threw v) k k' s l f = refl

  pub run_settled :
      (answer answer' : Err → State V → State V) (p : Prog V) (s : State V)
      → IsSettled s
      → run answer p s ≡ run answer' p s
  unfolding run
  run_settled f g ret s h = refl
  run_settled f g (fail e) s h = refl
  run_settled f g (throw t) s h = refl
  run_settled f g (settle e k) s h =
      rw (handle_error_settled f e s h, handle_error_settled g e s h) (run_settled f g k s h)
  run_settled f g (write w k) s h = run_settled f g k (record s { response = w s.response }) h
  run_settled f g (stream hb fn k) s h =
      continue_same (register_stream hb fn s) (run f k) (run g k) s
        (register_stream-Left IsSettled hb fn s h (λ n. h)) (λ t q. run_settled f g k t q)
  run_settled f g (put id v k) s h = run_settled f g k (record s { c = set id v s.c }) h
  run_settled f g (set_context ctx k) s h =
      continue_same (try_context ctx s) (run f k) (run g k) s
        (try_context-Left IsSettled ctx s (λ n. h)) (λ t q. run_settled f g k t q)
  run_settled f g (ask k) s h = run_settled f g (k s) s h

  -- An ErrorHandler runs on a settled request, so its own calls of HandleError do nothing, and one
  -- level of the funnel is all there is.
  pub call_error_handler_depth :
      (sm : ℕ → Bytes) (depth : ℕ) (eh : Err → Prog V) (e : Err) (s : State V)
      → IsSettled s
      → call_error_handler sm (suc depth) eh e s ≡ funnel sm eh e s
  unfolding call_error_handler
  call_error_handler_depth sm depth eh e s h =
      ap (last_resort sm)
        (run_settled (call_error_handler sm depth eh) (call_error_handler sm 0 eh) (eh e) s h)

  pub last_resort-IsSettled :
      (sm : ℕ → Bytes) (x : Outcome × State V) → IsSettled x.1 → IsSettled (last_resort sm x)
  last_resort-IsSettled sm (done, s) h = h
  last_resort-IsSettled sm (error e, s) h = h
  last_resort-IsSettled sm (panics t, s) h = h

  pub funnel-IsSettled :
      (sm : ℕ → Bytes) (eh : Err → Prog V) (e : Err) (s : State V)
      → IsSettled s
      → IsSettled (funnel sm eh e s)
  unfolding call_error_handler
  funnel-IsSettled sm eh e s h = last_resort-IsSettled sm _ (
      run-stable (call_error_handler sm 0 eh) IsSettled
        (IsSettled-stable (call_error_handler sm 0 eh)) (eh e) s h)

  conclude_settled :
      (sm : ℕ → Bytes) (eh : Err → Prog V) (x : Outcome × State V)
      → IsSettled x.1
      → (HasPanicked x.0 → ⊥)
      → conclude sm eh x ≡ x.1
  unfolding conclude
  conclude_settled sm eh (done, s) h n = refl
  conclude_settled sm eh (error e, s) h n =
      if_true s.c.handled s (funnel sm eh e (mark_handled s)) h
  conclude_settled sm eh (panics t, s) h n = absurd (n tt)

  -- Once a request is settled, the rest of it runs without the ErrorHandler, whatever errors are
  -- handled or returned, as long as nothing panics: the state at the end is the one that the handlers
  -- leave when no ErrorHandler is there to be called. The request stays settled.
  pub conclude-run-IsSettled :
      (sm : ℕ → Bytes) (eh : Err → Prog V) (p : Prog V) (s : State V)
      → IsSettled s
      → (HasPanicked (run (funnel sm eh) p s).0 → ⊥)
      → (conclude sm eh (run (funnel sm eh) p s) ≡ (run (λ e t. t) p s).1)
        × IsSettled (conclude sm eh (run (funnel sm eh) p s))
  conclude-run-IsSettled sm eh p s h n =
      let still = run-stable (funnel sm eh) IsSettled (IsSettled-stable (funnel sm eh)) p s h in
      let e = conclude_settled sm eh (run (funnel sm eh) p s) still n in
      (e ∙ ap (λ x. x.1) (run_settled (funnel sm eh) (λ e t. t) p s h), rw e still)
