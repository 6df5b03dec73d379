-- ===== src/Life/System.antt =====
-- server.go: any number of calls of Serve and Shutdown at once, in every order of their steps.
use rice_http.Prelude.{ℕ, zero, suc, ◌≡◌, refl, Option, none, some, List, [], ◌∷◌, ◌++◌}
use rice_http.Life.{Life, Thread, Outside, ConnState, entering, closing, step, conn_state, new_life}

pub record System : Type 0 where
  pub life : Life
  pub threads : List Thread

-- The systems that an App can come to.
pub data Reached : System → Type 0 where
  start : Reached (record { life = new_life; threads = [] })
  call_serve :
      {l : Life} {ts : List Thread} (ln : ℕ)
      → Reached (record { life = l; threads = ts })
      → Reached (record { life = l; threads = entering ln ∷ ts })
  call_shutdown :
      {l : Life} {ts : List Thread}
      → Reached (record { life = l; threads = ts })
      → Reached (record { life = l; threads = closing ∷ ts })
  connection :
      {l : Life} {ts : List Thread} (c : ℕ) (s : ConnState)
      → Reached (record { life = l; threads = ts })
      → Reached (record { life = conn_state c s l; threads = ts })
  steps :
      {l' : Life} {t' : Thread} (l : Life) (t : Thread) (o : Outside) (xs ys : List Thread)
      → Reached (record { life = l; threads = xs ++ t ∷ ys })
      → step o t l ≡ some (t', l')
      → Reached (record { life = l'; threads = xs ++ t' ∷ ys })

-- The newest call takes its steps, for as long as it can.
abbrev pub moved : Life → Thread → List Thread → Option (Thread × Life) → System
moved l t ts none = record { life = l; threads = t ∷ ts }
moved l t ts (some (u, k)) = record { life = k; threads = u ∷ ts }

unfoldable pub move : Outside → Life → List Thread → System
move o l [] = record { life = l; threads = [] }
move o l (t ∷ ts) = moved l t ts (step o t l)

moved-Reached :
    (o : Outside) (l : Life) (t : Thread) (ts : List Thread) (x : Option (Thread × Life))
    → step o t l ≡ x
    → Reached (record { life = l; threads = t ∷ ts })
    → Reached (moved l t ts x)
moved-Reached o l t ts none e r = r
moved-Reached o l t ts (some (u, k)) e r = steps l t o [] ts r e

pub move-Reached :
    (o : Outside) (l : Life) (ts : List Thread)
    → Reached (record { life = l; threads = ts })
    → Reached (move o l ts)
unfolding move
move-Reached o l [] r = r
move-Reached o l (t ∷ ts) r = moved-Reached o l t ts (step o t l) refl r

unfoldable pub moves : ℕ → Outside → System → System
moves zero o s = s
moves (suc n) o s = moves n o (move o s.life s.threads)

pub moves-Reached : (n : ℕ) (o : Outside) (s : System) → Reached s → Reached (moves n o s)
unfolding moves
moves-Reached zero o s r = r
moves-Reached (suc n) o s r =
    moves-Reached n o (move o s.life s.threads) (move-Reached o s.life s.threads r)
