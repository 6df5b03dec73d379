-- ===== src/Life/Hooks.antt =====
-- lifecycle.go (`runStart`, `runShutdown`), server.go (`shutdownWithin`), app.go (`WithDrainDelay`): the
-- hooks, as functions on a state S of the program, and the time of a shutdown. A time.Duration that is
-- not negative is a number, and an int64 sum of two wraps around.
use rice_http.Prelude.{
  ℕ, zero, suc, ℤ, pos, negsuc, ◌+◌, ◌-◌, ◌≤◌, ◌<◌, ◌≡◌, refl, sym, ap, ◌∙◌, Bool, true, Option,
  none, some, List, [], ◌∷◌, ◌++◌, arith, length, get_elem?, ltb, Bool-cases, inl, inr,
  if◌then◌else◌,
}
use rice_http.RateLimit.{max_int64}

abbrev pub add_error : {E : Type 0} → Option E → List E → List E
add_error none errs = errs
add_error (some e) errs = errs ++ e ∷ []

module _ {S E : Type 0} where
  -- `runStart`
  unfoldable pub run_start : List (S → Option E × S) → S → Option E × S
  run_start [] s = (none, s)
  run_start (fn ∷ fns) s =
      let (err, t) = fn s in elim err [ none ↦ run_start fns t | some e ↦ (some e, t) ]

  abbrev pub run_one : Option (S → Option E × S) → List E × S → List E × S
  run_one none r = r
  run_one (some fn) (errs, s) = (add_error (fn s).0 errs, (fn s).1)

  -- The loop of `runShutdown`: what is left of the index, and the errors so far.
  unfoldable pub run_down : List (S → Option E × S) → ℕ → List E × S → List E × S
  run_down hooks zero r = r
  run_down hooks (suc i) r = run_down hooks i (run_one (get_elem? hooks i) r)

  unfoldable pub run_shutdown : List (S → Option E × S) → S → List E × S
  run_shutdown hooks s = run_down hooks (length hooks) ([], s)

  -- All of a list of hooks in its order.
  abbrev pub run_each : List (S → Option E × S) → List E × S → List E × S
  run_each [] r = r
  run_each (fn ∷ fns) r = run_each fns (run_one (some fn) r)

  abbrev pub reverse : List (S → Option E × S) → List (S → Option E × S)
  reverse [] = []
  reverse (fn ∷ fns) = reverse fns ++ fn ∷ []

  run_down-cons :
      (fn : S → Option E × S) (fns : List (S → Option E × S)) (n : ℕ) (r : List E × S)
      → run_down (fn ∷ fns) (suc n) r ≡ run_one (some fn) (run_down fns n r)
  unfolding run_down
  run_down-cons fn fns zero r = refl
  run_down-cons fn fns (suc n) r = run_down-cons fn fns n (run_one (get_elem? fns n) r)

  run_each-snoc :
      (fns : List (S → Option E × S)) (fn : S → Option E × S) (r : List E × S)
      → run_each (fns ++ fn ∷ []) r ≡ run_one (some fn) (run_each fns r)
  run_each-snoc [] fn r = refl
  run_each-snoc (x ∷ fns) fn r = run_each-snoc fns fn (run_one (some x) r)

  run_down-reverse :
      (hooks : List (S → Option E × S)) (r : List E × S)
      → run_down hooks (length hooks) r ≡ run_each (reverse hooks) r
  unfolding run_down
  run_down-reverse [] r = refl
  run_down-reverse (fn ∷ fns) r =
      run_down-cons fn fns (length fns) r
      ∙ ap (run_one (some fn)) (run_down-reverse fns r)
      ∙ sym (run_each-snoc (reverse fns) fn r)

  -- The OnShutdown hooks run in reverse order of registration: every one runs, whether the ones before
  -- it failed or not, each on what they left, and the errors are returned in the order they came in.
  pub run_shutdown-reverse :
      (hooks : List (S → Option E × S)) (s : S)
      → run_shutdown hooks s ≡ run_each (reverse hooks) ([], s)
  unfolding run_shutdown
  run_shutdown-reverse hooks s = run_down-reverse hooks ([], s)

-- The sum of two times in an int64.
unfoldable pub add_durations : ℕ → ℕ → ℤ
add_durations d e =
    if ltb max_int64 (d + e) then negsuc (max_int64 + max_int64 + 1 - (d + e)) else pos (d + e)

abbrev pub less_than : ℤ → ℕ → Bool
less_than (pos n) m = ltb n m
less_than (negsuc n) m = true

-- The time that `shutdownWithin` gives to Shutdown.
unfoldable pub shutdown_within : ℕ → ℕ → ℤ
shutdown_within drain_delay grace =
    let sum = add_durations drain_delay grace in if less_than sum grace then pos max_int64 else sum

-- The time of a shutdown is the drain delay and the grace together, or the longest time there is when
-- their sum does not fit: it is never negative and never shorter than the grace.
pub shutdown_within_bounds :
    (drain_delay grace : ℕ)
    → drain_delay ≤ max_int64
    → grace ≤ max_int64
    → (n : ℕ) × (shutdown_within drain_delay grace ≡ pos n)
      × (n ≤ max_int64)
      × (grace ≤ n)
      × (n ≤ drain_delay + grace)
      × (drain_delay + grace ≤ max_int64 → n ≡ drain_delay + grace)
      × (max_int64 < drain_delay + grace → n ≡ max_int64)
unfolding shutdown_within add_durations
shutdown_within_bounds d g hd hg = elim (Bool-cases (ltb max_int64 (d + g))) [
  | inl over ↦ (max_int64, rw over refl, omega arith, hg, ground arith, ground arith, ground arith)
  | inr fits ↦
      (d + g, ground arith, ground arith, omega arith, omega arith, ground arith, ground arith)
]
