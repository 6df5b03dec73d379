-- ===== src/Health/Readiness.antt =====
-- health/health.go (`Ready`): what a probe is answered.
use rice_http.Prelude.{
  ℕ, ℤ, pos, negsuc, ap, arith, Bytes, Bool, true, false, Option, none, some, List, [], ◌∷◌, ◌≡◌,
  ◌≢◌, Bool-cases, ◌⊎◌, inl, inr, refl, sym, ◌∙◌, All,
}
use rice_http.Errors.{
  Err, http, Response, as_panic, as_http, respond, respond_panic, valid_status, answer_wrapped,
  default_error_handler,
}
use rice_http.Request.{
  State, Prog, fail, run, call_error_handler, funnel, conclude, default_handler,
}
use rice_http.Respond.{string}
use rice_http.Health.{Check, run_check, run_checks, ready, failed_check, not_ready_message, ok_text}

-- The checks up to the first that fails, and its error.
pub data FirstFailure (e : Err) (ch : Check) : List Check → Type 0 where
  here : {checks : List Check} → run_check ch ≡ some e → FirstFailure e ch (ch ∷ checks)
  later :
      {c : Check} {checks : List Check}
      → run_check c ≡ none
      → FirstFailure e ch checks
      → FirstFailure e ch (c ∷ checks)

abbrev pub Passed : List Check → Type 0
Passed checks = All (λ ch. run_check ch ≡ none) checks

Check-cases : (x : Option Err) → (x ≡ none) ⊎ ((e : Err) × (x ≡ some e))
Check-cases none = inl refl
Check-cases (some e) = inr (e, refl)

Passed-cases :
    (checks : List Check) → Passed checks ⊎ ((e : Err) × (ch : Check) × FirstFailure e ch checks)
Passed-cases [] = inl tt
Passed-cases (ch ∷ checks) = elim (Check-cases (run_check ch)) [
  | inl fine ↦ elim (Passed-cases checks) [
    | inl rest ↦ inl (fine, rest)
    | inr (e, c, f) ↦ inr (e, c, later fine f)
  ]
  | inr (e, failed) ↦ inr (e, ch, here failed)
]

abbrev num : ℤ → ℕ
num (pos n) = n
num (negsuc n) = 0

differ : (a b : ℕ) → pos a ≡ pos b → a ≢ b → ⊥
differ a b e off = off (ap num e)

abbrev pub IsNotReady : Response → Type 0
IsNotReady r = (r.status ≡ pos 503) × (r.body ≡ not_ready_message)

module _ {V : Type 0} where
  -- What a request that no error has settled is answered.
  abbrev pub answer : (ℕ → Bytes) → Prog V → State V → Response
  answer sm p s =
      (conclude sm (default_handler sm) (run (funnel sm (default_handler sm)) p s)).response

  all-Passed :
      (sm : ℕ → Bytes) (checks : List Check) (s : State V)
      → Passed checks
      → ((answer sm (run_checks checks) s).status ≡ pos 200)
        × ((answer sm (run_checks checks) s).body ≡ ok_text)
  unfolding run_checks string run conclude
  all-Passed sm [] s p = (refl, refl)
  all-Passed sm (ch ∷ checks) s (p, ps) = rw p (all-Passed sm checks s ps)

  failed_answer :
      (sm : ℕ → Bytes) (ch : Check) (e : Err) (s : State V)
      → s.c.handled ≡ false
      → let r = answer sm (fail (failed_check ch e)) s in
        (as_panic e ≡ false → IsNotReady r) × (r.status ≢ pos 200)
  unfolding run conclude call_error_handler default_error_handler answer_wrapped as_panic as_http
      respond respond_panic valid_status
  failed_answer sm ch e s h = rw h (elim (Bool-cases (as_panic e)) [
    | inl bug ↦ rw bug (λ n. cc, λ n. differ 500 200 n (omega arith))
    | inr fine ↦ rw fine (λ n. (refl, refl), λ n. differ 503 200 n (omega arith))
  ])

  first_failure :
      (sm : ℕ → Bytes) (checks : List Check) (e : Err) (ch : Check) (s : State V)
      → FirstFailure e ch checks
      → answer sm (run_checks checks) s ≡ answer sm (fail (failed_check ch e)) s
  unfolding run_checks
  first_failure sm [] e ch s f = elim f [ ]
  first_failure sm (ch ∷ checks) e ch' s (here f) = rw f refl
  first_failure sm (c ∷ checks) e ch s (later n f) = rw n (first_failure sm checks e ch s f)

  down_answer :
      (sm : ℕ → Bytes) (s : State V)
      → s.c.handled ≡ false
      → IsNotReady (answer sm (fail (http (pos 503) not_ready_message)) s)
  unfolding run conclude call_error_handler default_error_handler respond valid_status
  down_answer sm s h = rw h (refl, refl)

  -- A probe of a request that no error has settled is answered 200 exactly when the App is ready and
  -- every check passes, and then with the text "ok". An App that is not ready is answered 503 with
  -- "not ready"; so is one whose first failing check has an error that carries no recovered panic.
  pub ready-Passed :
      (sm : ℕ → Bytes) (is_ready : Bool) (checks : List Check) (s : State V)
      → s.c.handled ≡ false
      → let r = answer sm (ready is_ready checks) s in
        (r.status ≡ pos 200 → (is_ready ≡ true) × Passed checks)
        × (is_ready ≡ true → Passed checks → (r.status ≡ pos 200) × (r.body ≡ ok_text))
        × (is_ready ≡ false → IsNotReady r)
        × ((e : Err) (ch : Check)
            → is_ready ≡ true
            → FirstFailure e ch checks
            → as_panic e ≡ false
            → IsNotReady r)
  unfolding ready
  ready-Passed sm false checks s h =
      let (status_of, body_of) = down_answer sm s h in
      (
        λ q. absurd (differ 503 200 (sym status_of ∙ q) (omega arith)),
        λ up p. cc,
        λ down. (status_of, body_of),
        λ e ch up f np. cc,
      )
  ready-Passed sm true checks s h = (
    λ q. (refl, every q (Passed-cases checks)),
    λ up p. all-Passed sm checks s p,
    λ down. cc,
    λ e ch up f np. rw (first_failure sm checks e ch s f) ((failed_answer sm ch e s h).0 np),
  )
    where
      every :
          (answer sm (run_checks checks) s).status ≡ pos 200
          → Passed checks ⊎ ((e : Err) × (ch : Check) × FirstFailure e ch checks)
          → Passed checks
      every q (inl p) = p
      every q (inr (e, ch, f)) = absurd (
          (failed_answer sm ch e s h).1
            (ap (λ r. r.status) (sym (first_failure sm checks e ch s f)) ∙ q))
