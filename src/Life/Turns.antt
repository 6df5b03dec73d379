-- ===== src/Life/Turns.antt =====
-- server.go, lifecycle.go: one Serve, one Shutdown at a time, and the OnShutdown hooks.
use rice_http.Prelude.{ℕ, ◌≤◌, ◌≡◌, refl, true, false, Option, none, some, List, [], ◌∷◌, arith}
use rice_http.Life.{Thread, accepting, unready}
use rice_http.Life.System.{System, Reached}
use rice_http.Life.Listener.{publishes, publishes-total_le, Reached-publishes}
use rice_http.Life.Order.{
  in_serve, published, has_turn, runs_hooks, past_hooks, total, listens, Reached-IsOrdered,
}

published_le : (t : Thread) → published t ≤ in_serve t
published_le (accepting ln) = omega arith
published_le (unready none r) = omega arith
published_le (unready (some ln) r) = omega arith
published_le _ = omega arith

total_le : (ts : List Thread) → total published ts ≤ total in_serve ts
total_le [] = omega arith
total_le (t ∷ ts) = omega (arith, published_le t, total_le ts)

a_listener : (ln : Option ℕ) → 1 ≤ listens ln → (k : ℕ) × (ln ≡ some k)
a_listener none h = absurd (omega (arith, h))
a_listener (some k) h = (k, refl)

-- Whatever calls of Serve and Shutdown run at once, and in whatever order: at most one Serve is between
-- its start and its end, at most one Shutdown holds the turn, which a Shutdown drains and runs hooks
-- under, and the OnShutdown hooks run at most once.
pub Reached-exclusive :
    {s : System}
    → Reached s
    → (total in_serve s.threads ≤ 1)
      × (total has_turn s.threads ≤ 1)
      × (total runs_hooks s.threads ≤ 1)
      × (s.life.hook_runs ≤ 1)
Reached-exclusive {s} r = let (a, b, d, e, f, g, h, i, j, k) = Reached-IsOrdered r in ground arith

-- An App is ready only while exactly one Serve has published its listener and has not ended, the
-- App's listener is the one that this Serve published, and no Shutdown has begun to drain.
pub Reached-ready :
    {s : System}
    → Reached s
    → s.life.ready ≡ true
    → (total published s.threads ≡ 1)
      × ((ln : ℕ) × (s.life.ln ≡ some ln) × (total (publishes ln) s.threads ≡ 1))
      × (s.life.drain_begun ≡ false)
      × (s.life.draining ≡ false)
Reached-ready {s} r up =
    let (a, b, d, e, f, g, h, i, j, k) = Reached-IsOrdered r in
    let least = total_le s.threads in
    let (ln, at) = a_listener s.life.ln (ground arith) in
    let one : total published s.threads ≡ 1 = ground arith in
    (
      one,
      (ln, at, omega (arith, one, Reached-publishes ln r up at, publishes-total_le ln s.threads)),
      ground arith,
      ground arith,
    )

-- When a Shutdown that had its turn has returned, the OnShutdown hooks have run once, they are done,
-- and no Shutdown runs them again.
pub Reached-hooks :
    {s : System}
    → Reached s
    → 1 ≤ total past_hooks s.threads
    → (s.life.hook_runs ≡ 1) × (s.life.shutdown_done ≡ true) × (total runs_hooks s.threads ≡ 0)
Reached-hooks {s} r back = let (a, b, d, e, f, g, h, i, j, k) = Reached-IsOrdered r in ground arith
