-- ===== src/Request/Whole.antt =====
-- app.go (`handle`): requests one after the other, through one pool of contexts.
use rice_http.Prelude.{
  ℕ, Bytes, Bool, true, false, Option, none, some, List, [], ◌≡◌, sym, ◌∙◌, ap, All, if◌then◌else◌,
}
use rice_http.Errors.{Err, panicked, Response}
use rice_http.Ctx.{Ctx, acquire}
use rice_http.Ctx.Pool.{IsLive, acquire-clean, release-IsLive}
use rice_http.App.Model.{App}
use rice_http.App.Build.{dispatch}
use rice_http.Request.{
  State, Prog, Outcome, done, error, panics, run, handle_error, last_resort, call_error_handler,
  funnel, conclude, mark_handled, to_start, begin, handle,
}
use rice_http.Request.Settling.{IsStable, run-stable, register_stream-Left, try_context-Left}

module _ {V : Type 0} where
  -- The context of the request is not poisoned.
  abbrev pub InUse : State V → Type 0
  InUse s = IsLive s.c

  if_state : (b : Bool) (s t : State V) → InUse s → InUse t → InUse (if b then s else t)
  if_state true s t l r = l
  if_state false s t l r = r

  pub handle_error-InUse :
      (answer : Err → State V → State V) (e : Option Err) (s : State V)
      → ((x : Err) (t : State V) → InUse t → InUse (answer x t))
      → InUse s
      → InUse (handle_error answer e s)
  handle_error-InUse answer none s f q = q
  handle_error-InUse answer (some e) s f q =
      if_state s.c.handled s (answer e (mark_handled s)) q (f e (mark_handled s) q)

  InUse-stable :
      (answer : Err → State V → State V)
      → ((x : Err) (t : State V) → InUse t → InUse (answer x t))
      → IsStable answer InUse
  InUse-stable answer f = record {
    answering = λ e s q. handle_error-InUse answer e s f q;
    writing = λ w s q. q;
    streaming = λ hb fn s q. register_stream-Left InUse hb fn s q (λ n. q);
    putting = λ id v s q. q;
    setting = λ ctx s q. try_context-Left InUse ctx s (λ k. q);
  }

  last_resort-InUse :
      (sm : ℕ → Bytes) (x : Outcome × State V) → InUse x.1 → InUse (last_resort sm x)
  last_resort-InUse sm (done, s) q = q
  last_resort-InUse sm (error e, s) q = q
  last_resort-InUse sm (panics t, s) q = q

  funnel-InUse :
      (sm : ℕ → Bytes) (eh : Err → Prog V) (e : Err) (s : State V)
      → InUse s
      → InUse (funnel sm eh e s)
  unfolding call_error_handler
  funnel-InUse sm eh e s q = last_resort-InUse sm _ (
      run-stable (call_error_handler sm 0 eh) InUse
        (InUse-stable (call_error_handler sm 0 eh) (λ x t r. r)) (eh e) s q)

  conclude-InUse :
      (sm : ℕ → Bytes) (eh : Err → Prog V) (x : Outcome × State V)
      → InUse x.1
      → InUse (conclude sm eh x)
  unfolding conclude
  conclude-InUse sm eh (done, s) q = q
  conclude-InUse sm eh (error e, s) q =
      if_state s.c.handled s (funnel sm eh e (mark_handled s)) q
        (funnel-InUse sm eh e (mark_handled s) q)
  conclude-InUse sm eh (panics t, s) q = funnel-InUse sm eh (panicked t) (mark_handled s) q

  -- The request on a context that the pool gave.
  abbrev serve_with :
      (sm : ℕ → Bytes)
      → App (Prog V)
      → (Err → Prog V)
      → Bool
      → Bool
      → Bytes
      → Bytes
      → Response
      → Ctx V
      → State V
  serve_with sm a eh draining head method path r c =
      let ((h, route), ps) = dispatch a method path c.params in
      let s0 : State V = record {
        c = record c { params = ps; route = route };
        response = begin draining r;
        head = head;
      } in
      conclude sm eh (run (funnel sm eh) h s0)

  serve_with-InUse :
      (sm : ℕ → Bytes) (a : App (Prog V)) (eh : Err → Prog V) (draining head : Bool)
      (method path : Bytes) (r : Response) (c : Ctx V)
      → IsLive c
      → InUse (serve_with sm a eh draining head method path r c)
  serve_with-InUse sm a eh draining head method path r c q =
      conclude-InUse sm eh _
        (run-stable (funnel sm eh) InUse (InUse-stable (funnel sm eh) (funnel-InUse sm eh)) _ _ q)

  -- A request is answered the same, and starts the same stream, whatever requests the contexts of the
  -- pool served before, if none of them is poisoned; and it leaves the pool like that for the next.
  pub handle-acquire :
      (sm : ℕ → Bytes) (a : App (Prog V)) (eh : Err → Prog V) (debug draining head : Bool)
      (method path : Bytes) (r : Response) (pool : List (Ctx V))
      → All IsLive pool
      → let x = handle sm a eh debug draining head method path r pool in
        let y = handle sm a eh debug draining head method path r [] in
        (x.response ≡ y.response) × (x.started ≡ y.started) × All IsLive x.pool
  unfolding handle
  handle-acquire sm a eh debug draining head method path r pool live =
      let (is_clean, rest) = acquire-clean a.max_params pool live in
      let (as_new, other) = acquire-clean a.max_params [] tt in
      let same = is_clean ∙ sym as_new in
      let end = serve_with sm a eh draining head method path r in
      let c = (acquire a.max_params pool).0 in
      let still =
        serve_with-InUse sm a eh draining head method path r c (ap (λ c. c.released) is_clean) in
      (
        ap (λ c. (end c).response) same,
        ap (λ c. to_start (end c).c) same,
        release-IsLive debug (end c).c (acquire a.max_params pool).1 still rest,
      )
