-- ===== src/Life/Order.antt =====
-- server.go: which calls of Serve and Shutdown can be where at the same time.
use rice_http.Prelude.{
  ℕ, ◌+◌, ◌≤◌, ◌≡◌, refl, Bool, true, false, Option, none, some, List, [], ◌∷◌, ◌++◌, arith,
  if◌then◌else◌, sym,
}
use rice_http.Life.{
  Life, Thread, Outside, ConnState, state_new, state_active, state_idle, state_hijacked,
  state_closed, entering, starting, publishing, accepting, unready, leaving, served, closing,
  cancelling, draining_at, marking, taking, waiting, driving, sweeping, cancelling_base, cutting,
  at_hooks, running_hooks, releasing, down, step, conn_state, new_life,
}
use mathlib.Core.Path.{subst}
use rice_http.Life.System.{System, Reached, start, call_serve, call_shutdown, connection, steps}

abbrev pub bit : Bool → ℕ
bit true = 1
bit false = 0

-- A call of Serve that has begun to serve and has not ended.
abbrev pub in_serve : Thread → ℕ
in_serve (starting ln) = 1
in_serve (publishing ln) = 1
in_serve (accepting ln) = 1
in_serve (unready ln r) = 1
in_serve (leaving r) = 1
in_serve _ = 0

-- A call of Serve with its listener published.
abbrev pub published : Thread → ℕ
published (accepting ln) = 1
published (unready (some ln) r) = 1
published _ = 0

-- A call of Shutdown that holds the turn.
abbrev pub has_turn : Thread → ℕ
has_turn (driving ln) = 1
has_turn (sweeping held) = bit held
has_turn (cancelling_base held cs) = bit held
has_turn (cutting held cs) = bit held
has_turn at_hooks = 1
has_turn running_hooks = 1
has_turn releasing = 1
has_turn _ = 0

-- A call of Shutdown that has begun.
abbrev pub past_close : Thread → ℕ
past_close (entering ln) = 0
past_close (starting ln) = 0
past_close (publishing ln) = 0
past_close (accepting ln) = 0
past_close (unready ln r) = 0
past_close (leaving r) = 0
past_close (served r) = 0
past_close closing = 0
past_close _ = 1

abbrev pub marks : Thread → ℕ
marks (marking ln) = 1
marks _ = 0

abbrev pub runs_hooks : Thread → ℕ
runs_hooks running_hooks = 1
runs_hooks _ = 0

-- A call of Shutdown that the hooks are behind.
abbrev pub past_hooks : Thread → ℕ
past_hooks releasing = 1
past_hooks (down held) = bit held
past_hooks _ = 0

abbrev pub total : (Thread → ℕ) → List Thread → ℕ
total w [] = 0
total w (t ∷ ts) = w t + total w ts

pub total-append :
    (w : Thread → ℕ) (xs : List Thread) (t : Thread) (ys : List Thread)
    → total w (xs ++ t ∷ ys) ≡ w t + (total w xs + total w ys)
total-append w [] t ys = omega arith
total-append w (x ∷ xs) t ys = rw (total-append w xs t ys) (omega arith)

-- How many threads are where.
pub record Tally : Type 0 where
  pub serve : ℕ
  pub live : ℕ
  pub turn : ℕ
  pub past : ℕ
  pub mark : ℕ
  pub hooks : ℕ
  pub behind : ℕ

abbrev pub tally : List Thread → Tally
tally ts = record {
  serve = total in_serve ts;
  live = total published ts;
  turn = total has_turn ts;
  past = total past_close ts;
  mark = total marks ts;
  hooks = total runs_hooks ts;
  behind = total past_hooks ts;
}

-- One thread more.
abbrev pub plus : Thread → Tally → Tally
plus t n = record {
  serve = in_serve t + n.serve;
  live = published t + n.live;
  turn = has_turn t + n.turn;
  past = past_close t + n.past;
  mark = marks t + n.mark;
  hooks = runs_hooks t + n.hooks;
  behind = past_hooks t + n.behind;
}

abbrev pub listens : Option ℕ → ℕ
listens none = 0
listens (some ln) = 1

-- What the flags of the App say of its threads.
abbrev pub IsOrdered : Life → Tally → Type 0
IsOrdered l n =
    (n.serve ≡ bit l.serving)
    × (bit l.ready ≤ n.live)
    × (bit l.ready ≤ listens l.ln)
    × (n.turn ≡ bit l.turn)
    × (l.closed ≡ false → n.past ≡ 0)
    × (l.drain_begun ≡ true → (l.closed ≡ true) × (l.ready ≡ false))
    × (n.mark + bit l.draining ≡ bit l.drain_begun)
    × (n.hooks + bit l.shutdown_done ≡ bit l.hooks_started)
    × (l.hook_runs ≡ bit l.hooks_started)
    × (l.shutdown_done ≡ false → n.behind ≡ 0)

abbrev Kept : Tally → Option (Thread × Life) → Type 0
Kept n none = Unit
Kept n (some (t, l)) = IsOrdered l (plus t n)

step-Kept :
    (o : Outside) (t : Thread) (l : Life) (n : Tally) → IsOrdered l (plus t n) → Kept n (step o t l)
unfolding step
step-Kept o (entering ln) l n (a, b, d, e, f, g, h, i, j, k) = ground arith
step-Kept o (starting ln) l n (a, b, d, e, f, g, h, i, j, k) = ground arith
step-Kept o (publishing ln) l n (a, b, d, e, f, g, h, i, j, k) = ground arith
step-Kept o (accepting ln) l n (a, b, d, e, f, g, h, i, j, k) = ground arith
step-Kept o (unready ln r) l n (a, b, d, e, f, g, h, i, j, k) = ground arith
step-Kept o (leaving r) l n (a, b, d, e, f, g, h, i, j, k) = ground arith
step-Kept o (served r) l n (a, b, d, e, f, g, h, i, j, k) = tt
step-Kept o closing l n (a, b, d, e, f, g, h, i, j, k) = ground arith
step-Kept o (cancelling ln) l n (a, b, d, e, f, g, h, i, j, k) = ground arith
step-Kept o (draining_at ln) l n (a, b, d, e, f, g, h, i, j, k) = ground arith
step-Kept o (marking ln) l n (a, b, d, e, f, g, h, i, j, k) = ground arith
step-Kept o (taking ln) l n (a, b, d, e, f, g, h, i, j, k) = ground arith
step-Kept o (waiting ln) l n (a, b, d, e, f, g, h, i, j, k) = ground arith
step-Kept o (driving ln) l n (a, b, d, e, f, g, h, i, j, k) = ground arith
step-Kept o (sweeping held) l n (a, b, d, e, f, g, h, i, j, k) = ground arith
step-Kept o (cancelling_base held cs) l n (a, b, d, e, f, g, h, i, j, k) = ground arith
step-Kept o (cutting held []) l n (a, b, d, e, f, g, h, i, j, k) = ground arith
step-Kept o (cutting held (x ∷ cs)) l n (a, b, d, e, f, g, h, i, j, k) = ground arith
step-Kept o at_hooks l n (a, b, d, e, f, g, h, i, j, k) = ground arith
step-Kept o running_hooks l n (a, b, d, e, f, g, h, i, j, k) = ground arith
step-Kept o releasing l n (a, b, d, e, f, g, h, i, j, k) = ground arith
step-Kept o (down held) l n (a, b, d, e, f, g, h, i, j, k) = tt

conn_state-IsOrdered :
    (c : ℕ) (s : ConnState) (l : Life) (n : Tally) → IsOrdered l n → IsOrdered (conn_state c s l) n
unfolding conn_state
conn_state-IsOrdered c state_new l n h = arrived l.force_closed
  where
    arrived :
        (b : Bool)
        → IsOrdered
            (if b
              then record l { cut = c ∷ l.cut; alive = c ∷ l.alive }
              else record l { conns = c ∷ l.conns; alive = c ∷ l.alive })
            n
    arrived true = h
    arrived false = h
conn_state-IsOrdered c state_active l n h = h
conn_state-IsOrdered c state_idle l n h = h
conn_state-IsOrdered c state_hijacked l n h = h
conn_state-IsOrdered c state_closed l n h = h

tally-append :
    (xs : List Thread) (t : Thread) (ys : List Thread)
    → (r : Tally) × ((t : Thread) → tally (xs ++ t ∷ ys) ≡ plus t r)
tally-append xs t ys = (
  record {
    serve = total in_serve xs + total in_serve ys;
    live = total published xs + total published ys;
    turn = total has_turn xs + total has_turn ys;
    past = total past_close xs + total past_close ys;
    mark = total marks xs + total marks ys;
    hooks = total runs_hooks xs + total runs_hooks ys;
    behind = total past_hooks xs + total past_hooks ys;
  },
  λ t.
      rw
        (
          total-append in_serve xs t ys,
          total-append published xs t ys,
          total-append has_turn xs t ys,
          total-append past_close xs t ys,
          total-append marks xs t ys,
          total-append runs_hooks xs t ys,
          total-append past_hooks xs t ys,
        )
        refl,
)

took_step :
    (o : Outside) (t t' : Thread) (l l' : Life) (n : Tally)
    → IsOrdered l (plus t n)
    → step o t l ≡ some (t', l')
    → IsOrdered l' (plus t' n)
took_step o t t' l l' n h e =
    let kept : Kept n (some (t', l')) = rw e at (step-Kept o t l n h) in kept

pub Reached-IsOrdered : {s : System} → Reached s → IsOrdered s.life (tally s.threads)
unfolding new_life
Reached-IsOrdered start = ground arith
Reached-IsOrdered (call_serve {l} {ts} ln r) = called (Reached-IsOrdered r)
  where
    called : IsOrdered l (tally ts) → IsOrdered l (tally (entering ln ∷ ts))
    called (a, b, d, e, f, g, h, i, j, k) = ground arith
Reached-IsOrdered (call_shutdown {l} {ts} r) = called (Reached-IsOrdered r)
  where
    called : IsOrdered l (tally ts) → IsOrdered l (tally (closing ∷ ts))
    called (a, b, d, e, f, g, h, i, j, k) = ground arith
Reached-IsOrdered (connection {l} {ts} c s r) =
    conn_state-IsOrdered c s l (tally ts) (Reached-IsOrdered r)
Reached-IsOrdered (steps {l'} {t'} l t o xs ys r e) =
    let (n, counts) = tally-append xs t ys in
    subst (IsOrdered l') (sym (counts t'))
      (took_step o t t' l l' n (subst (IsOrdered l) (counts t) (Reached-IsOrdered r)) e)
