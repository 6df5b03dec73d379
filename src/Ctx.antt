-- ===== src/Ctx.antt =====
-- ctx.go, ctx_store.go, ctx_param.go, pool.go, poison_debug.go: the context of a request. The fasthttp
-- side of it, with the response, is kept apart (Request). A key is the address that NewKey makes, a
-- context.Context, a callback and a stored value are opaque; `none` in a slot is a nil interface.
pub mod Store
pub mod Pool
mod Tests
use rice_http.Prelude.{
  ℕ, Bytes, Bool, true, false, Option, none, some, List, [], ◌∷◌, ◌==◌, if◌then◌else◌,
}
use rice_http.Router.Params.{Params, make_params, reset, get}

-- `entry`
pub record Slot (V : Type 0) : Type 0 where
  pub key : ℕ
  pub val : Option V

pub record Ctx (V : Type 0) : Type 0 where
  -- poison
  pub released : Bool
  -- Whether `app` and `fctx` are set.
  pub bound : Bool
  pub ctx : Option ℕ
  pub params : Params
  pub store : List (Slot V)
  pub handled : Bool
  pub stream_fn : Option ℕ
  pub heartbeat : ℕ
  pub stream_set : Bool
  pub route : Bytes

module _ {V : Type 0} where
  unfoldable pub set_slot : ℕ → Option V → List (Slot V) → List (Slot V)
  set_slot id v [] = record { key = id; val = v } ∷ []
  set_slot id v (s ∷ ss) = if s.key == id then record s { val = v } ∷ ss else s ∷ set_slot id v ss

  unfoldable pub get_slot : ℕ → List (Slot V) → Option (Option V)
  get_slot id [] = none
  get_slot id (s ∷ ss) = if s.key == id then some s.val else get_slot id ss

  -- `Ctx.set` and `Ctx.get`
  abbrev pub set : ℕ → Option V → Ctx V → Ctx V
  set id v c = record c { store = set_slot id v c.store }

  abbrev pub get_value : ℕ → Ctx V → Option (Option V)
  get_value id c = get_slot id c.store

  -- `reset`: with the app and the fasthttp context, or with nils.
  unfoldable pub reset_ctx : Bool → Ctx V → Ctx V
  reset_ctx bound c = record c {
    bound = bound;
    ctx = none;
    params = reset c.params;
    store = [];
    handled = false;
    stream_fn = none;
    heartbeat = 0;
    stream_set = false;
    route = [];
  }

  unfoldable pub new_ctx : ℕ → Ctx V
  new_ctx max_params = record {
    released = false;
    bound = false;
    ctx = none;
    params = make_params max_params;
    store = [];
    handled = false;
    stream_fn = none;
    heartbeat = 0;
    stream_set = false;
    route = [];
  }

  -- `poison.mark`, which is empty in a release build.
  unfoldable pub mark : Bool → Ctx V → Ctx V
  mark debug c = if debug then record c { released = true } else c

  -- The idle contexts of the pool are a list: `Get` takes one, or makes a new one.
  unfoldable pub acquire : ℕ → List (Ctx V) → Ctx V × List (Ctx V)
  acquire max_params [] = (reset_ctx true (new_ctx max_params), [])
  acquire max_params (c ∷ pool) = (reset_ctx true c, pool)

  -- `release`: a debug build keeps the context out of the pool.
  unfoldable pub release : Bool → Ctx V → List (Ctx V) → Ctx V × List (Ctx V)
  release debug c pool =
      let gone = mark debug (reset_ctx false c) in (gone, if debug then pool else gone ∷ pool)

-- `Param`, where a missing name is an empty slice.
abbrev pub or_nil : Option Bytes → Bytes
or_nil none = []
or_nil (some v) = v

-- `Context`, with the App's base context.
abbrev pub or_base : ℕ → Option ℕ → ℕ
or_base base none = base
or_base base (some k) = k

-- What an accessor does: `none` is the panic of `poison.check`.
module _ {V : Type 0} where
  abbrev pub checked : {A : Type 0} → (Ctx V → A) → Ctx V → Option A
  checked f c = if c.released then none else some (f c)

  -- `Key.Set`; a zero Key panics.
  unfoldable pub key_set : Option ℕ → Option V → Ctx V → Option (Ctx V)
  key_set none v c = none
  key_set (some id) v c = checked (set id v) c

  -- `Key.Get`: the value, `none` for the zero value, and whether one was stored.
  abbrev pub read : Option (Option V) → Option V × Bool
  read none = (none, false)
  read (some v) = (v, true)

  unfoldable pub key_get : Option ℕ → Ctx V → Option (Option V × Bool)
  key_get none c = none
  key_get (some id) c = checked (λ d. read (get_value id d)) c

  unfoldable pub param : Bytes → Ctx V → Option Bytes
  param name c = checked (λ d. or_nil (get d.params name)) c

  unfoldable pub route_of : Ctx V → Option Bytes
  route_of c = checked (λ d. d.route) c

  unfoldable pub context_of : ℕ → Ctx V → Option ℕ
  context_of base c = checked (λ d. or_base base d.ctx) c
