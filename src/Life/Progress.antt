-- ===== src/Life/Progress.antt =====
-- server.go: which calls of Serve and Shutdown wait for what.
use rice_http.Prelude.{
  ℕ, ◌≤◌, ◌≡◌, refl, ◌≢◌, ◌⊎◌, inl, inr, ap, Bool, true, false, not, ◌&&◌, ◌||◌, Bool-cases, Option,
  none, some, List, [], ◌∷◌, ◌++◌, arith, if◌then◌else◌,
}
use rice_http.Life.{
  Life, Thread, Outside, entering, starting, publishing, accepting, unready, leaving, served,
  closing, cancelling, draining_at, marking, taking, waiting, driving, sweeping, cancelling_base,
  cutting, at_hooks, running_hooks, releasing, down, step, timed_out,
}
use rice_http.Life.System.{System, Reached}
use rice_http.Life.Order.{marks, has_turn, runs_hooks, total, Reached-IsOrdered}

-- A call that has not returned.
abbrev pub unfinished : Thread → ℕ
unfinished (served r) = 0
unfinished (down held) = 0
unfinished _ = 1

-- A call that is in code of the outside: an OnStart hook, fasthttp's Serve or ShutdownWithContext, an
-- OnShutdown hook.
abbrev pub is_outside : Thread → Bool
is_outside (starting ln) = true
is_outside (accepting ln) = true
is_outside (driving ln) = true
is_outside running_hooks = true
is_outside _ = false

-- It takes a step whatever the outside does, once that comes back if the call is in it.
abbrev pub Goes : Life → Thread → Type 0
Goes l t = (o : Outside) → (is_outside t ≡ true → o.returns ≡ true) → step o t l ≢ none

marks-Goes : (l : Life) (t : Thread) → 1 ≤ marks t → Goes l t
unfolding step
marks-Goes l (marking ln) h o b = λ e. cc
marks-Goes l _ h o b = absurd (omega (arith, h))

-- A call that is in code of the outside, which comes back.
back_goes :
    (r : Bool) (x : Option (Thread × Life))
    → x ≢ none
    → r ≡ true
    → (if not r then none else x) ≢ none
back_goes true x n h = n
back_goes false x n h = λ e. cc

runs_hooks-Goes : (l : Life) (t : Thread) → 1 ≤ runs_hooks t → Goes l t
unfolding step
runs_hooks-Goes l running_hooks h o b = back_goes o.returns _ (λ e. cc) (b refl)
runs_hooks-Goes l _ h o b = absurd (omega (arith, h))

either_goes : (b : Bool) (x y : Thread × Life) → (if b then some x else some y) ≢ none
either_goes true x y = λ e. cc
either_goes false x y = λ e. cc

hooks_go :
    (b c : Bool) (x y : Thread × Life)
    → (c ≡ true → b ≡ true)
    → (if b then some x else if c then none else some y) ≢ none
hooks_go true c x y f = λ e. cc
hooks_go false true x y f = cc (f refl)
hooks_go false false x y f = λ e. cc

has_turn-Goes :
    (l : Life) (t : Thread)
    → (l.hooks_started ≡ true → l.shutdown_done ≡ true)
    → 1 ≤ has_turn t
    → Goes l t
unfolding step
has_turn-Goes l (driving ln) f h o b =
    back_goes o.returns _ (either_goes (timed_out ln o) _ _) (b refl)
has_turn-Goes l (sweeping held) f h o b = λ e. cc
has_turn-Goes l (cancelling_base held cs) f h o b = λ e. cc
has_turn-Goes l (cutting held []) f h o b = either_goes held _ _
has_turn-Goes l (cutting held (c ∷ cs)) f h o b = λ e. cc
has_turn-Goes l at_hooks f h o b = hooks_go l.shutdown_done l.hooks_started _ _ f
has_turn-Goes l running_hooks f h o b = back_goes o.returns _ (λ e. cc) (b refl)
has_turn-Goes l releasing f h o b = λ e. cc
has_turn-Goes l _ f h o b = absurd (omega (arith, h))

entry_goes :
    (b c : Bool) (x y z : Thread × Life)
    → (if b then some x else if c then some y else some z) ≢ none
entry_goes true c x y z = λ e. cc
entry_goes false c x y z = either_goes c y z

unfinished-Goes :
    (l : Life) (t : Thread)
    → (l.drain_begun ≡ true → l.draining ≡ true)
    → (l.hooks_started ≡ true → l.shutdown_done ≡ true)
    → l.turn ≡ false
    → 1 ≤ unfinished t
    → Goes l t
unfolding step
unfinished-Goes l (entering ln) d f n h o b = entry_goes l.closed l.serving _ _ _
unfinished-Goes l (starting ln) d f n h o b =
    back_goes o.returns _ (either_goes o.failed _ _) (b refl)
unfinished-Goes l (publishing ln) d f n h o b = either_goes l.closed _ _
unfinished-Goes l (accepting ln) d f n h o b = back_goes o.returns _ (λ e. cc) (b refl)
unfinished-Goes l (unready ln r) d f n h o b = λ e. cc
unfinished-Goes l (leaving r) d f n h o b = λ e. cc
unfinished-Goes l closing d f n h o b = λ e. cc
unfinished-Goes l (cancelling ln) d f n h o b = λ e. cc
unfinished-Goes l (draining_at ln) d f n h o b = hooks_go l.draining l.drain_begun _ _ d
unfinished-Goes l (marking ln) d f n h o b = λ e. cc
unfinished-Goes l (taking ln) d f n h o b = either_goes l.turn _ _
unfinished-Goes l (waiting ln) d f n h o b =
    hooks_go (o.ended && (l.turn || o.gives_up)) l.turn _ _ (λ e. cc)
unfinished-Goes l (driving ln) d f n h o b =
    back_goes o.returns _ (either_goes (timed_out ln o) _ _) (b refl)
unfinished-Goes l (sweeping held) d f n h o b = λ e. cc
unfinished-Goes l (cancelling_base held cs) d f n h o b = λ e. cc
unfinished-Goes l (cutting held []) d f n h o b = either_goes held _ _
unfinished-Goes l (cutting held (c ∷ cs)) d f n h o b = λ e. cc
unfinished-Goes l at_hooks d f n h o b = hooks_go l.shutdown_done l.hooks_started _ _ f
unfinished-Goes l running_hooks d f n h o b = back_goes o.returns _ (λ e. cc) (b refl)
unfinished-Goes l releasing d f n h o b = λ e. cc
unfinished-Goes l _ d f n h o b = absurd (omega (arith, h))

-- Some thread of these takes a step.
abbrev pub SomeGoes : Life → List Thread → Type 0
SomeGoes l ts =
    (xs : List Thread) × (t : Thread) × (ys : List Thread) × (ts ≡ xs ++ t ∷ ys) × Goes l t

find-Goes :
    (w : Thread → ℕ) (l : Life) (ts : List Thread)
    → ((t : Thread) → 1 ≤ w t → Goes l t)
    → 1 ≤ total w ts
    → SomeGoes l ts
find-Goes w l [] f h = absurd (omega (arith, h))
find-Goes w l (t ∷ ts) f h = elim (positive (w t)) [
  | inl here ↦ ([], t, ts, refl, f t here)
  | inr none_here ↦
      let (xs, u, ys, e, g) = find-Goes w l ts f (omega (arith, h, none_here)) in
      (t ∷ xs, u, ys, ap (λ zs. t ∷ zs) e, g)
]
  where
    positive : (n : ℕ) → (1 ≤ n) ⊎ (n ≡ 0)
    positive n = ground arith

-- Calls of Serve and Shutdown never wait only for each other: as long as some call has not returned,
-- one of the calls takes a step, whatever the contexts do; if that call is in an OnStart or OnShutdown
-- hook or in fasthttp's Serve or ShutdownWithContext, it takes the step once these come back.
pub Reached-progress :
    {s : System} → Reached s → 1 ≤ total unfinished s.threads → SomeGoes s.life s.threads
Reached-progress {s} r left = elim (zero_or (total marks s.threads)) [
  | inl m ↦ find-Goes marks s.life s.threads (marks-Goes s.life) m
  | inr no_mark ↦ elim (zero_or (total runs_hooks s.threads)) [
    | inl q ↦ find-Goes runs_hooks s.life s.threads (runs_hooks-Goes s.life) q
    | inr no_hooks ↦
        let (a, b, d, e, f, g, h, i, j, k) = Reached-IsOrdered r in
        let marked : s.life.drain_begun ≡ true → s.life.draining ≡ true = λ x. ground arith in
        let ran : s.life.hooks_started ≡ true → s.life.shutdown_done ≡ true = λ x. ground arith in
        elim (Bool-cases s.life.turn) [
          | inl taken ↦
              find-Goes has_turn s.life s.threads (λ t. has_turn-Goes s.life t ran) (ground arith)
          | inr free ↦
              find-Goes unfinished s.life s.threads (λ t. unfinished-Goes s.life t marked ran free)
                left
        ]
  ]
]
  where
    zero_or : (n : ℕ) → (1 ≤ n) ⊎ (n ≡ 0)
    zero_or n = ground arith
