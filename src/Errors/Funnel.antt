-- ===== src/Errors/Funnel.antt =====
-- errors.go: what DefaultErrorHandler answers.
use rice_http.Prelude.{
  ℕ, ℤ, pos, negsuc, ◌≤◌, Bytes, Bool, true, false, ◌||◌, ◌≡◌, inl, inr, refl, arith, Bool-cases,
}
use rice_http.Errors.{
  Err, http, http_caused, panicked, wrapping, joined, plain, error_value, Response, Found, found,
  nothing, or_found, as_panic, as_http, valid_status, internal_error, respond, respond_panic,
  answer_found, answer_wrapped, default_error_handler,
}

-- An error of this shape stands in the tree.
pub data Carries (P : Err → Type 0) : Err → Type 0 where
  itself : {e : Err} → P e → Carries P e
  in_cause : {code : ℤ} {msg : Bytes} {e : Err} → Carries P e → Carries P (http_caused code msg e)
  in_wrapped : {text : Bytes} {e : Err} → Carries P e → Carries P (wrapping text e)
  in_left : {a b : Err} → Carries P a → Carries P (joined a b)
  in_right : {a b : Err} → Carries P b → Carries P (joined a b)
  in_thrown : {e : Err} → Carries P e → Carries P (panicked (error_value e))

abbrev pub IsPanic : Err → Type 0
IsPanic (panicked v) = Unit
IsPanic _ = ⊥

-- No *HTTPError in the tree, outside of panics.
abbrev pub HasNoHttp : Err → Type 0
HasNoHttp (http code msg) = ⊥
HasNoHttp (http_caused code msg e) = ⊥
HasNoHttp (panicked v) = Unit
HasNoHttp (wrapping text e) = HasNoHttp e
HasNoHttp (joined a b) = HasNoHttp a × HasNoHttp b
HasNoHttp (plain text) = Unit

-- The first *HTTPError of the tree, depth first, in an error that carries no panic.
pub data FirstHttp (code : ℤ) (msg : Bytes) : Err → Type 0 where
  bare : FirstHttp code msg (http code msg)
  caused : {e : Err} → FirstHttp code msg (http_caused code msg e)
  unwrapped : {text : Bytes} {e : Err} → FirstHttp code msg e → FirstHttp code msg (wrapping text e)
  left : {a b : Err} → FirstHttp code msg a → FirstHttp code msg (joined a b)
  right : {a b : Err} → HasNoHttp a → FirstHttp code msg b → FirstHttp code msg (joined a b)

-- The code and the message that an error is answered with.
pub data Answers (e : Err) : ℤ → Bytes → Type 0 where
  as_bug : Carries IsPanic e → Answers e (pos 500) internal_error
  as_status :
      {code : ℤ} {msg : Bytes} → (Carries IsPanic e → ⊥) → FirstHttp code msg e → Answers e code msg
  as_unknown : (Carries IsPanic e → ⊥) → HasNoHttp e → Answers e (pos 500) internal_error

valid_status_bounds : (code : ℤ) → (100 ≤ valid_status code) × (valid_status code ≤ 599)
unfolding valid_status
valid_status_bounds (pos n) = ground arith
valid_status_bounds (negsuc n) = omega arith

valid_status_kept : (n : ℕ) → 100 ≤ n → n ≤ 599 → valid_status (pos n) ≡ n
unfolding valid_status
valid_status_kept n a b = ground arith

as_panic-Carries : (e : Err) → as_panic e ≡ true → Carries IsPanic e
unfolding as_panic
as_panic-Carries (http code msg) h = cc
as_panic-Carries (http_caused code msg e) h = in_cause (as_panic-Carries e h)
as_panic-Carries (panicked v) h = itself tt
as_panic-Carries (wrapping text e) h = in_wrapped (as_panic-Carries e h)
as_panic-Carries (joined a b) h = elim (Bool-cases (as_panic a)) [
  | inl l ↦ in_left (as_panic-Carries a l)
  | inr n ↦ in_right (as_panic-Carries b (rw n at h))
]
as_panic-Carries (plain text) h = cc

Carries-as_panic : {e : Err} → Carries IsPanic e → as_panic e ≡ true
unfolding as_panic
Carries-as_panic (itself {e} p) = here e p
  where
    here : (e : Err) → IsPanic e → as_panic e ≡ true
    here (http code msg) p = absurd p
    here (http_caused code msg e) p = absurd p
    here (panicked v) p = refl
    here (wrapping text e) p = absurd p
    here (joined a b) p = absurd p
    here (plain text) p = absurd p
Carries-as_panic (in_cause c) = Carries-as_panic c
Carries-as_panic (in_wrapped c) = Carries-as_panic c
Carries-as_panic (in_left c) = rw (Carries-as_panic c) refl
Carries-as_panic (in_right {a} {b} c) = elim (Bool-cases (as_panic a)) [
  | inl l ↦ rw l refl
  | inr n ↦ rw (n, Carries-as_panic c) refl
]
Carries-as_panic (in_thrown c) = refl

-- What the walk for an *HTTPError finds.
abbrev Walk : Err → Found → Type 0
Walk e (found c m) = FirstHttp c m e
Walk e nothing = HasNoHttp e

Walk-wrapped : (t : Bytes) (e : Err) (f : Found) → Walk e f → Walk (wrapping t e) f
Walk-wrapped t e (found c m) w = unwrapped w
Walk-wrapped t e nothing w = w

Walk-joined : (a b : Err) (f g : Found) → Walk a f → Walk b g → Walk (joined a b) (or_found f g)
Walk-joined a b (found c m) g w v = left w
Walk-joined a b nothing (found c m) w v = right w v
Walk-joined a b nothing nothing w v = (w, v)

as_http-Walk : (e : Err) → as_panic e ≡ false → Walk e (as_http e)
unfolding as_http as_panic
as_http-Walk (http code msg) h = bare
as_http-Walk (http_caused code msg e) h = caused
as_http-Walk (panicked v) h = cc
as_http-Walk (wrapping text e) h = Walk-wrapped text e (as_http e) (as_http-Walk e h)
as_http-Walk (joined a b) h =
    let (ha, hb) = both (as_panic a) (as_panic b) h in
    Walk-joined a b (as_http a) (as_http b) (as_http-Walk a ha) (as_http-Walk b hb)
  where
    both : (x y : Bool) → (x || y) ≡ false → (x ≡ false) × (y ≡ false)
    both true y h = cc
    both false y h = (refl, h)
as_http-Walk (plain text) h = tt

module _ (sm : ℕ → Bytes) where
  -- The type switch gives the answer that the two walks of the error's tree give.
  pub default_error_handler-answer_wrapped :
      (e : Err) (r : Response) → default_error_handler sm e r ≡ answer_wrapped sm e r
  unfolding default_error_handler answer_wrapped as_panic as_http
  default_error_handler-answer_wrapped (http code msg) r = refl
  default_error_handler-answer_wrapped (http_caused code msg e) r = refl
  default_error_handler-answer_wrapped (panicked v) r = refl
  default_error_handler-answer_wrapped (wrapping text e) r = refl
  default_error_handler-answer_wrapped (joined a b) r = refl
  default_error_handler-answer_wrapped (plain text) r = refl

  answered :
      (e : Err) (r : Response) (f : Found)
      → (Carries IsPanic e → ⊥)
      → Walk e f
      → (code : ℤ) × (msg : Bytes) × Answers e code msg
        × (answer_found sm f r ≡ respond sm code msg r)
  answered e r (found c m) sound w = (c, m, as_status sound w, refl)
  answered e r nothing sound w = (pos 500, internal_error, as_unknown sound w, refl)

  -- An error that carries a recovered panic anywhere is answered as an internal error; any other with
  -- the code and the message of its first *HTTPError; one without an *HTTPError as an internal error.
  pub default_error_handler-Answers :
      (e : Err) (r : Response)
      → (code : ℤ) × (msg : Bytes) × Answers e code msg
        × (default_error_handler sm e r ≡ respond sm code msg r)
  unfolding answer_wrapped respond_panic
  default_error_handler-Answers e r =
      rw (default_error_handler-answer_wrapped e r) (elim (Bool-cases (as_panic e)) [
        | inl bug ↦ rw bug (pos 500, internal_error, as_bug (as_panic-Carries e bug), refl)
        | inr fine ↦
            rw fine (
              answered e r (as_http e) (λ c. clash (Carries-as_panic c) fine) (as_http-Walk e fine))
      ])
    where
      clash : {b : Bool} → b ≡ true → b ≡ false → ⊥
      clash p q = cc

  -- Whatever the error, the status sent is from 100 to 599; a code in that range is sent as it is.
  pub respond_bounds :
      (code : ℤ) (msg : Bytes) (r : Response)
      → (n : ℕ) × ((respond sm code msg r).status ≡ pos n)
        × (100 ≤ n)
        × (n ≤ 599)
        × ((k : ℕ) → code ≡ pos k → 100 ≤ k → k ≤ 599 → n ≡ k)
  unfolding respond
  respond_bounds code msg r =
      let (lo, hi) = valid_status_bounds code in
      (valid_status code, refl, lo, hi, λ k e a b. rw e (valid_status_kept k a b))
