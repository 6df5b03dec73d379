-- ===== src/Life/Listener.antt =====
-- server.go: whose listener the App's is.
use mathlib.Core.Path.{subst}
use rice_http.Prelude.{ℕ, ◌+◌, ◌≤◌, ◌≡◌, true, Option, none, some, List, [], ◌∷◌, ◌==◌, arith}
use rice_http.Life.{
  Life, Thread, Outside, ConnState, state_new, state_active, state_idle, state_hijacked,
  state_closed, entering, starting, publishing, accepting, unready, leaving, served, closing,
  cancelling, draining_at, marking, taking, waiting, driving, sweeping, cancelling_base, cutting,
  at_hooks, running_hooks, releasing, down, step, conn_state, new_life,
}
use rice_http.Life.System.{System, Reached, start, call_serve, call_shutdown, connection, steps}
use rice_http.Life.Order.{bit, published, total, total-append}

abbrev pub is_listener : ℕ → Option ℕ → ℕ
is_listener k none = 0
is_listener k (some ln) = bit (ln == k)

-- A call of Serve that has published this listener and has not ended.
abbrev pub publishes : ℕ → Thread → ℕ
publishes k (accepting ln) = bit (ln == k)
publishes k (unready ln r) = is_listener k ln
publishes k _ = 0

abbrev IsServed : ℕ → Life → ℕ → Type 0
IsServed k l p = l.ready ≡ true → is_listener k l.ln ≤ p

abbrev Kept : ℕ → ℕ → Option (Thread × Life) → Type 0
Kept k p none = Unit
Kept k p (some (t, l)) = IsServed k l (publishes k t + p)

step-Kept :
    (k : ℕ) (o : Outside) (t : Thread) (l : Life) (p : ℕ)
    → IsServed k l (publishes k t + p)
    → Kept k p (step o t l)
unfolding step
step-Kept k o (entering ln) l p h = ground arith
step-Kept k o (starting ln) l p h = ground arith
step-Kept k o (publishing ln) l p h = ground arith
step-Kept k o (accepting ln) l p h = ground arith
step-Kept k o (unready ln r) l p h = λ e. cc
step-Kept k o (leaving r) l p h = h
step-Kept k o (served r) l p h = tt
step-Kept k o closing l p h = h
step-Kept k o (cancelling ln) l p h = h
step-Kept k o (draining_at ln) l p h = ground arith
step-Kept k o (marking ln) l p h = h
step-Kept k o (taking ln) l p h = ground arith
step-Kept k o (waiting ln) l p h = ground arith
step-Kept k o (driving ln) l p h = ground arith
step-Kept k o (sweeping held) l p h = h
step-Kept k o (cancelling_base held cs) l p h = h
step-Kept k o (cutting held []) l p h = ground arith
step-Kept k o (cutting held (c ∷ cs)) l p h = h
step-Kept k o at_hooks l p h = ground arith
step-Kept k o running_hooks l p h = ground arith
step-Kept k o releasing l p h = h
step-Kept k o (down held) l p h = tt

conn_state-IsServed :
    (k c : ℕ) (s : ConnState) (l : Life) (p : ℕ) → IsServed k l p → IsServed k (conn_state c s l) p
unfolding conn_state
conn_state-IsServed k c state_new l p h = ground arith
conn_state-IsServed k c state_active l p h = h
conn_state-IsServed k c state_idle l p h = h
conn_state-IsServed k c state_hijacked l p h = h
conn_state-IsServed k c state_closed l p h = h

took_step :
    (k : ℕ) (o : Outside) (t t' : Thread) (l l' : Life) (p : ℕ)
    → IsServed k l (publishes k t + p)
    → step o t l ≡ some (t', l')
    → IsServed k l' (publishes k t' + p)
took_step k o t t' l l' p h e =
    let kept : Kept k p (some (t', l')) = subst (Kept k p) e (step-Kept k o t l p h) in kept

pub Reached-IsServed :
    {s : System} (k : ℕ) → Reached s → IsServed k s.life (total (publishes k) s.threads)
unfolding new_life
Reached-IsServed k start = λ e. cc
Reached-IsServed k (call_serve {l} {ts} ln r) = λ up. omega (arith, Reached-IsServed k r up)
Reached-IsServed k (call_shutdown {l} {ts} r) = λ up. omega (arith, Reached-IsServed k r up)
Reached-IsServed k (connection {l} {ts} c s r) =
    conn_state-IsServed k c s l (total (publishes k) ts) (Reached-IsServed k r)
Reached-IsServed k (steps {l'} {t'} l t o xs ys r e) = rw (total-append (publishes k) xs t' ys) (
    took_step k o t t' l l' (total (publishes k) xs + total (publishes k) ys)
      (rw (total-append (publishes k) xs t ys) at (Reached-IsServed k r)) e)

publishes_le : (k : ℕ) (t : Thread) → publishes k t ≤ published t
publishes_le k (accepting ln) = ground arith
publishes_le k (unready none r) = omega arith
publishes_le k (unready (some ln) r) = ground arith
publishes_le k _ = omega arith

pub publishes-total_le : (k : ℕ) (ts : List Thread) → total (publishes k) ts ≤ total published ts
publishes-total_le k [] = omega arith
publishes-total_le k (t ∷ ts) = omega (arith, publishes_le k t, publishes-total_le k ts)

-- The listener of an App that is ready is one that a call of Serve has published.
pub Reached-publishes :
    {s : System} (k : ℕ)
    → Reached s
    → s.life.ready ≡ true
    → s.life.ln ≡ some k
    → 1 ≤ total (publishes k) s.threads
Reached-publishes {s} k r up at = least (rw at at (Reached-IsServed k r up))
  where
    least :
        is_listener k (some k) ≤ total (publishes k) s.threads → 1 ≤ total (publishes k) s.threads
    least h = ground arith
