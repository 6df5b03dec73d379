-- ===== src/Life/Cut.antt =====
-- conns.go: the connections that a force-close cuts.
use rice_http.Prelude.{
  ℕ, ◌+◌, ◌≤◌, ◌≡◌, refl, Bool, true, false, ◌||◌, ◌==◌, Option, none, some, List, [], ◌∷◌, arith,
  if◌then◌else◌,
}
use mathlib.Core.Path.{subst}
use rice_http.Life.{
  Life, Thread, Outside, ConnState, state_new, state_active, state_idle, state_hijacked,
  state_closed, entering, starting, publishing, accepting, unready, leaving, served, closing,
  cancelling, draining_at, marking, taking, waiting, driving, sweeping, cancelling_base, cutting,
  at_hooks, running_hooks, releasing, down, step, conn_state, untrack, new_life,
}
use rice_http.Life.System.{System, Reached, start, call_serve, call_shutdown, connection, steps}
use rice_http.Life.Order.{bit, total, total-append}

abbrev pub has : ℕ → List ℕ → Bool
has c [] = false
has c (d ∷ ds) = (d == c) || has c ds

-- A call of Shutdown that still has to close this connection.
abbrev pub holds : ℕ → Thread → ℕ
holds c (cancelling_base held cs) = bit (has c cs)
holds c (cutting held cs) = bit (has c cs)
holds c _ = 0

-- A call of Shutdown that still has to cancel the base context.
abbrev pub cancels : Thread → ℕ
cancels (cancelling_base held cs) = 1
cancels _ = 0

-- A call of Shutdown in `closeConns`.
abbrev pub cuts : Thread → ℕ
cuts (cancelling_base held cs) = 1
cuts (cutting held cs) = 1
cuts _ = 0

abbrev IsCut : ℕ → Life → ℕ → ℕ → Type 0
IsCut c l pending stopping =
    (l.force_closed ≡ false → bit (has c l.alive) ≤ bit (has c l.conns))
    × (l.force_closed ≡ true → bit (has c l.alive) ≤ bit (has c l.cut) + pending)
    × (l.force_closed ≡ true → 1 ≤ bit l.base_cancelled + stopping)

abbrev Kept : ℕ → ℕ → ℕ → Option (Thread × Life) → Type 0
Kept c p q none = Unit
Kept c p q (some (t, l)) = IsCut c l (holds c t + p) (cancels t + q)

step-Kept :
    (c : ℕ) (o : Outside) (t : Thread) (l : Life) (p q : ℕ)
    → IsCut c l (holds c t + p) (cancels t + q)
    → Kept c p q (step o t l)
unfolding step
step-Kept c o (entering ln) l p q (b, f, g) = ground arith
step-Kept c o (starting ln) l p q (b, f, g) = ground arith
step-Kept c o (publishing ln) l p q (b, f, g) = ground arith
step-Kept c o (accepting ln) l p q (b, f, g) = ground arith
step-Kept c o (unready ln r) l p q (b, f, g) = ground arith
step-Kept c o (leaving r) l p q (b, f, g) = ground arith
step-Kept c o (served r) l p q (b, f, g) = tt
step-Kept c o closing l p q (b, f, g) = ground arith
step-Kept c o (cancelling ln) l p q (b, f, g) = ground arith
step-Kept c o (draining_at ln) l p q (b, f, g) = ground arith
step-Kept c o (marking ln) l p q (b, f, g) = ground arith
step-Kept c o (taking ln) l p q (b, f, g) = ground arith
step-Kept c o (waiting ln) l p q (b, f, g) = ground arith
step-Kept c o (driving ln) l p q (b, f, g) = ground arith
step-Kept c o (sweeping held) l p q (b, f, g) = ground arith
step-Kept c o (cancelling_base held cs) l p q (b, f, g) = ground arith
step-Kept c o (cutting held []) l p q (b, f, g) = ground arith
step-Kept c o (cutting held (d ∷ cs)) l p q (b, f, g) = ground arith
step-Kept c o at_hooks l p q (b, f, g) = ground arith
step-Kept c o running_hooks l p q (b, f, g) = ground arith
step-Kept c o releasing l p q (b, f, g) = ground arith
step-Kept c o (down held) l p q (b, f, g) = tt

has-untrack : (c d : ℕ) (ds : List ℕ) → has c (untrack d ds) ≡ (if d == c then false else has c ds)
unfolding untrack
has-untrack c d [] = ground arith
has-untrack c d (x ∷ ds) = ground (arith, has-untrack c d ds)

-- A connection that is closed or hijacked leaves both sets.
untracked :
    (c d : ℕ) (l : Life) (p q : ℕ)
    → IsCut c l p q
    → IsCut c (record l { conns = untrack d l.conns; alive = untrack d l.alive }) p q
untracked c d l p q (b, f, g) = rw (has-untrack c d l.alive, has-untrack c d l.conns) (ground arith)

conn_state-IsCut :
    (c d : ℕ) (s : ConnState) (l : Life) (p q : ℕ) → IsCut c l p q → IsCut c (conn_state d s l) p q
unfolding conn_state
conn_state-IsCut c d state_new l p q (b, f, g) = arrived l.force_closed refl
  where
    arrived :
        (now : Bool)
        → l.force_closed ≡ now
        → IsCut c
            (if now
              then record l { cut = d ∷ l.cut; alive = d ∷ l.alive }
              else record l { conns = d ∷ l.conns; alive = d ∷ l.alive })
            p
            q
    arrived true e = ground arith
    arrived false e = ground arith
conn_state-IsCut c d state_active l p q h = h
conn_state-IsCut c d state_idle l p q h = h
conn_state-IsCut c d state_hijacked l p q h = untracked c d l p q h
conn_state-IsCut c d state_closed l p q h = untracked c d l p q h

took_step :
    (c : ℕ) (o : Outside) (t t' : Thread) (l l' : Life) (p q : ℕ)
    → IsCut c l (holds c t + p) (cancels t + q)
    → step o t l ≡ some (t', l')
    → IsCut c l' (holds c t' + p) (cancels t' + q)
took_step c o t t' l l' p q h e =
    let kept : Kept c p q (some (t', l')) = subst (Kept c p q) e (step-Kept c o t l p q h) in kept

Reached-IsCut :
    {s : System} (c : ℕ)
    → Reached s
    → IsCut c s.life (total (holds c) s.threads) (total cancels s.threads)
unfolding new_life
Reached-IsCut c start = ground arith
Reached-IsCut c (call_serve {l} {ts} ln r) = called (Reached-IsCut c r)
  where
    called :
        IsCut c l (total (holds c) ts) (total cancels ts)
        → IsCut c l (0 + total (holds c) ts) (0 + total cancels ts)
    called (b, f, g) = ground arith
Reached-IsCut c (call_shutdown {l} {ts} r) = called (Reached-IsCut c r)
  where
    called :
        IsCut c l (total (holds c) ts) (total cancels ts)
        → IsCut c l (0 + total (holds c) ts) (0 + total cancels ts)
    called (b, f, g) = ground arith
Reached-IsCut c (connection {l} {ts} d s r) =
    conn_state-IsCut c d s l (total (holds c) ts) (total cancels ts) (Reached-IsCut c r)
Reached-IsCut c (steps {l'} {t'} l t o xs ys r e) =
    rw (total-append (holds c) xs t' ys, total-append cancels xs t' ys)
      (took_step c o t t' l l' (total (holds c) xs + total (holds c) ys)
        (total cancels xs + total cancels ys)
        (rw (total-append (holds c) xs t ys, total-append cancels xs t ys) at (Reached-IsCut c r))
        e)

holds_le : (c : ℕ) (t : Thread) → cuts t ≡ 0 → holds c t ≡ 0
holds_le c (cancelling_base held cs) h = absurd (omega (arith, h))
holds_le c (cutting held cs) h = absurd (omega (arith, h))
holds_le c _ h = refl

cancels_le : (t : Thread) → cancels t ≤ cuts t
cancels_le (cancelling_base held cs) = omega arith
cancels_le (cutting held cs) = omega arith
cancels_le _ = omega arith

nobody :
    (c : ℕ) (ts : List Thread)
    → total cuts ts ≡ 0
    → (total (holds c) ts ≡ 0) × (total cancels ts ≡ 0)
nobody c [] h = (refl, refl)
nobody c (t ∷ ts) h =
    let (a, b) = nobody c ts (omega (arith, h)) in
    (omega (arith, holds_le c t (omega (arith, h)), a), omega (arith, cancels_le t, h, b))

-- Once a Shutdown has cut off and no call is in the middle of it, every connection that was ever
-- reported as new, before the cut or after it, has been closed by the App, unless it was since then
-- reported as closed or hijacked; and the base context of the handlers is cancelled.
pub Reached-cut :
    {s : System} (c : ℕ)
    → Reached s
    → s.life.force_closed ≡ true
    → total cuts s.threads ≡ 0
    → (has c s.life.alive ≡ true → has c s.life.cut ≡ true) × (s.life.base_cancelled ≡ true)
Reached-cut {s} c r forced quiet =
    let (b, f, g) = Reached-IsCut c r in
    let (a, b) = nobody c s.threads quiet in
    let f1 = f forced in let g1 = g forced in (λ open_yet. ground arith, ground arith)
