-- ===== src/Life/Tests.antt =====
-- An App served and shut down, and the instances of the theorems.
use rice_http.Prelude.{
  ℕ, pos, ◌+◌, ◌≤◌, ◌<◌, ◌≡◌, refl, true, false, Option, none, some, List, [], ◌∷◌, arith,
}
use rice_http.RateLimit.{max_int64}
use rice_http.Life.{
  Outside, clean, context_error, state_new, entering, closing, step, timed_out, conn_state,
  new_life, running_hooks, taking, waiting, accepting, down, at_hooks, addr, is_ready, served, nil,
}
use rice_http.Life.System.{
  System, Reached, start, call_serve, call_shutdown, connection, move, moves, moves-Reached,
}
use rice_http.Life.Order.{in_serve, published, has_turn, runs_hooks, total}
use rice_http.Life.Listener.{publishes}
use rice_http.Life.Turns.{Reached-exclusive, Reached-ready, Reached-hooks}
use rice_http.Life.Progress.{SomeGoes, Reached-progress}
use rice_http.Life.Cut.{has, Reached-cut}
use rice_http.Life.Hooks.{
  run_down, run_shutdown, run_each, reverse, run_shutdown-reverse, shutdown_within,
  shutdown_within_bounds,
}

life : Unit {0}
unfolding step timed_out conn_state new_life move moves addr is_ready
life = tt

abbrev calm : Outside
calm = record {
  returns = true;
  failed = false;
  ended = false;
  gives_up = false;
  first = clean;
  second = clean;
}

-- The context of the Shutdown ends while the server drains.
abbrev late : Outside
late = record {
  returns = true;
  failed = false;
  ended = true;
  gives_up = false;
  first = context_error;
  second = clean;
}

-- A Serve that accepts, with one connection.
abbrev up : System
up = moves 3 calm (record { life = new_life; threads = entering 4 ∷ [] })

abbrev busy : System
busy = record { life = conn_state 9 state_new up.life; threads = up.threads }

-- A Shutdown beside it, that has been late by so many steps.
abbrev ending : ℕ → System
ending n = moves n late (record { life = busy.life; threads = closing ∷ busy.threads })

up-Reached : Reached up
up-Reached = moves-Reached 3 calm _ (call_serve 4 start)

ending-Reached : (n : ℕ) → Reached (ending n)
ending-Reached n = moves-Reached n late _ (call_shutdown (connection 9 state_new up-Reached))

runs :
    (up.threads ≡ accepting 4 ∷ [])
    × (up.life.ready ≡ true)
    × ((ending 10).threads ≡ at_hooks ∷ accepting 4 ∷ [])
    × ((ending 10).life.cut ≡ 9 ∷ [])
    × ((ending 13).threads ≡ down true ∷ accepting 4 ∷ [])
    × ((ending 13).life.hook_runs ≡ 1)
unfolding life
runs = (refl, refl, refl, refl, refl, refl)

Reached-exclusive_example :
    (total in_serve (ending 7).threads ≤ 1)
    × (total has_turn (ending 7).threads ≤ 1)
    × (total runs_hooks (ending 7).threads ≤ 1)
    × ((ending 7).life.hook_runs ≤ 1)
Reached-exclusive_example = Reached-exclusive (ending-Reached 7)

Reached-ready_example :
    (total published up.threads ≡ 1)
    × ((ln : ℕ) × (up.life.ln ≡ some ln) × (total (publishes ln) up.threads ≡ 1))
    × (up.life.drain_begun ≡ false)
    × (up.life.draining ≡ false)
unfolding life
Reached-ready_example = Reached-ready up-Reached refl

Reached-hooks_example :
    ((ending 13).life.hook_runs ≡ 1)
    × ((ending 13).life.shutdown_done ≡ true)
    × (total runs_hooks (ending 13).threads ≡ 0)
unfolding life
Reached-hooks_example = Reached-hooks (ending-Reached 13) (omega arith)

Reached-progress_example : SomeGoes (ending 6).life (ending 6).threads
unfolding life
Reached-progress_example = Reached-progress (ending-Reached 6) (omega arith)

Reached-cut_example :
    (has 9 (ending 10).life.alive ≡ true → has 9 (ending 10).life.cut ≡ true)
    × ((ending 10).life.base_cancelled ≡ true)
unfolding life
Reached-cut_example = Reached-cut 9 (ending-Reached 10) refl refl

shutdown_within_bounds_example :
    (n : ℕ) × (shutdown_within 5 max_int64 ≡ pos n)
    × (n ≤ max_int64)
    × (max_int64 ≤ n)
    × (n ≤ 5 + max_int64)
    × (5 + max_int64 ≤ max_int64 → n ≡ 5 + max_int64)
    × (max_int64 < 5 + max_int64 → n ≡ max_int64)
shutdown_within_bounds_example = shutdown_within_bounds 5 max_int64 (omega arith) (omega arith)

-- A hook that calls Shutdown with a context that never ends does not come back: it waits for the turn
-- that the Shutdown around it holds.
abbrev stuck : Outside
stuck = record calm { returns = false }

hook_blocks :
    ((ending 11).threads ≡ running_hooks ∷ accepting 4 ∷ [])
    × (step stuck running_hooks (ending 11).life ≡ none)
    × (step stuck (taking none) (ending 11).life ≡ some (waiting none, (ending 11).life))
    × (step stuck (waiting none) (ending 11).life ≡ none)
unfolding life
hook_blocks = (refl, refl, refl, refl)

-- Three hooks on a log: the second fails.
abbrev hooks : List (List ℕ → Option ℕ × List ℕ)
hooks = (λ s. (none, 1 ∷ s)) ∷ (λ s. (some 7, 2 ∷ s)) ∷ (λ s. (none, 3 ∷ s)) ∷ []

run_shutdown-reverse_example : run_shutdown hooks [] ≡ run_each (reverse hooks) ([], [])
run_shutdown-reverse_example = run_shutdown-reverse hooks []

hooks_run : run_shutdown hooks [] ≡ (7 ∷ [], 1 ∷ 2 ∷ 3 ∷ [])
unfolding run_shutdown run_down
hooks_run = refl

-- The address stays when the Serve has returned.
abbrev over : System
over = moves 6 calm (record { life = new_life; threads = entering 4 ∷ [] })

addr_stays :
    (over.threads ≡ served nil ∷ []) × (is_ready over.life ≡ false) × (addr over.life ≡ some 4)
unfolding life
addr_stays = (refl, refl, refl)
