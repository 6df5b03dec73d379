-- ===== src/Ctx/Pool.antt =====
-- pool.go, poison_debug.go: contexts that go back to the pool.
use rice_http.Prelude.{ℕ, Bool, true, false, none, List, [], ◌∷◌, ◌≡◌, refl, All, ap, if◌then◌else◌}
use rice_http.Ctx.{Ctx, reset_ctx, new_ctx, mark, acquire, release}

module _ {V : Type 0} where
  -- A context as a new request finds it.
  abbrev pub clean : Ctx V
  clean = record {
    released = false;
    bound = true;
    ctx = none;
    params = record { slots = [] };
    store = [];
    handled = false;
    stream_fn = none;
    heartbeat = 0;
    stream_set = false;
    route = [];
  }

  abbrev pub IsLive : Ctx V → Type 0
  IsLive c = c.released ≡ false

  -- Every request starts with the same context, whichever one of the pool it is given: nothing that
  -- an earlier request left in it can be seen, if the pool holds only contexts that are not poisoned.
  pub acquire-clean :
      (max_params : ℕ) (pool : List (Ctx V))
      → All IsLive pool
      → ((acquire max_params pool).0 ≡ clean) × All IsLive (acquire max_params pool).1
  unfolding acquire reset_ctx new_ctx
  acquire-clean max_params [] live = (refl, tt)
  acquire-clean max_params (c ∷ pool) (l, live) =
      (ap (λ (b : Bool). record clean { released = b }) l, live)

  -- A context that is not in use.
  abbrev pub idle : Bool → Ctx V
  idle poisoned = record clean { released = poisoned; bound = false }

  pub release-idle :
      (debug : Bool) (c : Ctx V) (pool : List (Ctx V))
      → c.released ≡ false
      → ((release debug c pool).0 ≡ idle debug)
        × ((release debug c pool).1 ≡ (if debug then pool else idle false ∷ pool))
  unfolding release mark reset_ctx
  release-idle false c pool l = (
    ap (λ (b : Bool). record (idle false) { released = b }) l,
    ap (λ (b : Bool). record (idle false) { released = b } ∷ pool) l,
  )
  release-idle true c pool l = (refl, refl)

  pub release-IsLive :
      (debug : Bool) (c : Ctx V) (pool : List (Ctx V))
      → c.released ≡ false
      → All IsLive pool
      → All IsLive (release debug c pool).1
  release-IsLive false c pool l live = rw (release-idle false c pool l).1 (refl, live)
  release-IsLive true c pool l live = rw (release-idle true c pool l).1 live
