-- ===== src/Life.antt =====
-- server.go, lifecycle.go, conns.go: serving and shutting down. Calls of Serve and of Shutdown run at
-- once, each a thread that steps from one lock, atomic or channel operation to the next. What the
-- outside does is an argument of a step: the hooks, fasthttp's server and the contexts, and whether a
-- hook or the server comes back at all.
pub mod System
pub mod Order
pub mod Listener
pub mod Turns
pub mod Progress
pub mod Cut
pub mod Hooks
mod Tests
use rice_http.Prelude.{
  ℕ, zero, suc, ◌+◌, ◌≡◌, Bool, true, false, not, ◌&&◌, ◌||◌, Option, none, some, List, [], ◌∷◌,
  ◌++◌, ◌==◌, if◌then◌else◌,
}

-- The App's own state of it: a connection and a listener are opaque.
pub record Life : Type 0 where
  pub closed : Bool
  pub serving : Bool
  pub ln : Option ℕ
  pub ready : Bool
  -- drainOnce has begun; it has ended
  pub drain_begun : Bool
  pub draining : Bool
  -- shutdownSem is full
  pub turn : Bool
  -- hooksStarted and shutdownDone are closed
  pub hooks_started : Bool
  pub shutdown_done : Bool
  pub hook_runs : ℕ
  pub streams_cancelled : Bool
  pub base_cancelled : Bool
  pub force_closed : Bool
  pub conns : List ℕ
  -- Kept for the theorems: the connections that were reported as new and since then neither as closed
  -- nor as hijacked, and those that the App has closed.
  pub alive : List ℕ
  pub cut : List ℕ

-- How fasthttp's ShutdownWithContext ends: without an error, with net.ErrClosed, with the error of the
-- context, with another one.
pub data Drained : Type 0 where
  clean : Drained
  already_closed : Drained
  context_error : Drained
  other_error : Drained

pub record Outside : Type 0 where
  -- the hooks or the server that the call is in come back to it
  pub returns : Bool
  -- an OnStart hook fails, or serving does
  pub failed : Bool
  -- the call's ctx has ended
  pub ended : Bool
  -- `select` takes the end of ctx where the turn is free too
  pub gives_up : Bool
  -- the two calls of ShutdownWithContext
  pub first : Drained
  pub second : Drained

-- What Serve returns.
pub data Served : Type 0 where
  nil : Served
  already_serving : Served
  failure : Served

pub data Thread : Type 0 where
  -- Serve, with its listener, before each of its operations; behind them, with the listener that it
  -- has published
  entering : ℕ → Thread
  starting : ℕ → Thread
  publishing : ℕ → Thread
  accepting : ℕ → Thread
  unready : Option ℕ → Served → Thread
  leaving : Served → Thread
  served : Served → Thread
  -- Shutdown, and the listener that it found; in `closeConns`, whether it holds the turn
  closing : Thread
  cancelling : Option ℕ → Thread
  draining_at : Option ℕ → Thread
  marking : Option ℕ → Thread
  taking : Option ℕ → Thread
  waiting : Option ℕ → Thread
  driving : Option ℕ → Thread
  sweeping : Bool → Thread
  cancelling_base : Bool → List ℕ → Thread
  cutting : Bool → List ℕ → Thread
  at_hooks : Thread
  running_hooks : Thread
  releasing : Thread
  -- returned, with whether it had its turn
  down : Bool → Thread

abbrev pub is_context_error : Drained → Bool
is_context_error context_error = true
is_context_error _ = false

abbrev pub ignore_closed : Drained → Drained
ignore_closed already_closed = clean
ignore_closed d = d

-- The second ShutdownWithContext, of a Shutdown that found a listener.
abbrev pub drain_again : Option ℕ → Outside → Drained → Drained
drain_again (some ln) o clean =
    if o.ended && is_context_error o.second then context_error else clean
drain_again _ o d = d

-- Whether the drain timed out.
unfoldable pub timed_out : Option ℕ → Outside → Bool
timed_out ln o = o.ended && is_context_error (drain_again ln o (ignore_closed o.first))

-- A step of a thread; `none` when it waits, or has returned.
unfoldable pub step : Outside → Thread → Life → Option (Thread × Life)
step o (entering ln) l =
    if l.closed
    then some (served nil, l)
    else if l.serving
    then some (served already_serving, l)
    else some (starting ln, record l { serving = true })
step o (starting ln) l =
    if not o.returns
    then none
    else if o.failed
    then some (unready none failure, l)
    else some (publishing ln, l)
step o (publishing ln) l =
    if l.closed
    then some (unready none nil, l)
    else some (accepting ln, record l { ln = some ln; ready = true })
step o (accepting ln) l =
    if not o.returns then none else some (unready (some ln) (if o.failed then failure else nil), l)
step o (unready published r) l = some (leaving r, record l { ready = false })
step o (leaving r) l = some (served r, record l { serving = false })
step o (served r) l = none
step o closing l = some (cancelling l.ln, record l { closed = true })
step o (cancelling ln) l = some (draining_at ln, record l { streams_cancelled = true })
step o (draining_at ln) l =
    if l.draining
    then some (taking ln, l)
    else if l.drain_begun
    then none
    else some (marking ln, record l { drain_begun = true; ready = false })
step o (marking ln) l = some (taking ln, record l { draining = true })
step o (taking ln) l =
    if l.turn then some (waiting ln, l) else some (driving ln, record l { turn = true })
step o (waiting ln) l =
    if o.ended && (l.turn || o.gives_up)
    then some (sweeping false, l)
    else if l.turn
    then none
    else some (driving ln, record l { turn = true })
step o (driving ln) l =
    if not o.returns
    then none
    else if timed_out ln o
    then some (sweeping true, l)
    else some (at_hooks, l)
step o (sweeping held) l = some (cancelling_base held l.conns, record l { force_closed = true })
step o (cancelling_base held cs) l = some (cutting held cs, record l { base_cancelled = true })
step o (cutting held []) l = if held then some (at_hooks, l) else some (down false, l)
step o (cutting held (c ∷ cs)) l = some (cutting held cs, record l { cut = c ∷ l.cut })
step o at_hooks l =
    if l.shutdown_done
    then some (releasing, l)
    else if l.hooks_started
    then none
    else some (running_hooks, record l { hooks_started = true; hook_runs = suc l.hook_runs })
step o running_hooks l =
    if not o.returns then none else some (releasing, record l { shutdown_done = true })
step o releasing l = some (down true, record l { turn = false })
step o (down held) l = none

-- `delete` of the set of connections.
unfoldable pub untrack : ℕ → List ℕ → List ℕ
untrack c [] = []
untrack c (d ∷ ds) = if d == c then untrack c ds else d ∷ untrack c ds

-- `connState`
pub data ConnState : Type 0 where
  state_new : ConnState
  state_active : ConnState
  state_idle : ConnState
  state_hijacked : ConnState
  state_closed : ConnState

unfoldable pub conn_state : ℕ → ConnState → Life → Life
conn_state c state_new l =
    if l.force_closed
    then record l { cut = c ∷ l.cut; alive = c ∷ l.alive }
    else record l { conns = c ∷ l.conns; alive = c ∷ l.alive }
conn_state c state_active l = l
conn_state c state_idle l = l
conn_state c state_hijacked l = record l { conns = untrack c l.conns; alive = untrack c l.alive }
conn_state c state_closed l = record l { conns = untrack c l.conns; alive = untrack c l.alive }

-- `New`
unfoldable pub new_life : Life
new_life = record {
  closed = false;
  serving = false;
  ln = none;
  ready = false;
  drain_begun = false;
  draining = false;
  turn = false;
  hooks_started = false;
  shutdown_done = false;
  hook_runs = 0;
  streams_cancelled = false;
  base_cancelled = false;
  force_closed = false;
  conns = [];
  alive = [];
  cut = [];
}

-- `Addr` and `Ready`
unfoldable pub addr : Life → Option ℕ
addr l = l.ln

unfoldable pub is_ready : Life → Bool
is_ready l = l.ready
