-- ===== src/Cors/Origins.antt =====
-- middleware/cors.go: which origins are allowed.
use rice_http.Prelude.{
  ℕ, Bytes, bytes_eq, bytes_eq_iff, bytes_eq_self, Bool, true, false, not, ◌&&◌, ◌||◌, Option, none,
  some, List, [], ◌∷◌, ◌≡◌, ◌⊎◌, inl, inr, refl, sym, ◌∙◌, ap, Bool-cases, if◌then◌else◌,
}
use rice_http.Cors.{
  CorsConfig, Compiled, Outcome, compiled, panics, Header, cut, valid_origin, all_valid, no_origins,
  is_empty, is_negative, is_short, join_list, or_default, lists, compile_cors, match_origin, End,
  next, no_content, is_preflight, allowing, cors,
}

abbrev pub Listed : Bytes → List Bytes → Type 0
Listed v [] = ⊥
Listed v (o ∷ os) = (o ≡ v) ⊎ Listed v os

match_origin-Listed :
    (os : List Bytes) (origin v : Bytes)
    → match_origin os origin ≡ some v
    → (v ≡ origin) × Listed v os
unfolding match_origin
match_origin-Listed [] origin v e = cc
match_origin-Listed (o ∷ os) origin v e = elim (Bool-cases (bytes_eq origin o)) [
  | inl same ↦
      let here : o ≡ v = found (bytes_eq origin o) same e in
      (sym here ∙ sym ((bytes_eq_iff origin o).0 same), inl here)
  | inr other ↦
      let (a, b) = match_origin-Listed os origin v (later (bytes_eq origin o) other e) in (a, inr b)
]
  where
    found : (b : Bool) → b ≡ true → (if b then some o else match_origin os origin) ≡ some v → o ≡ v
    found true p q = cc
    found false p q = cc

    later :
        (b : Bool)
        → b ≡ false
        → (if b then some o else match_origin os origin) ≡ some v
        → match_origin os origin ≡ some v
    later true p q = cc
    later false p q = q

Listed-match_origin :
    (os : List Bytes) (origin : Bytes) → Listed origin os → match_origin os origin ≡ some origin
unfolding match_origin
Listed-match_origin [] origin l = absurd l
Listed-match_origin (o ∷ os) origin l = elim (Bool-cases (bytes_eq origin o)) [
  | inl same ↦ rw same (ap some (sym ((bytes_eq_iff origin o).0 same)))
  | inr other ↦ rw other (elim l [
    | inl here ↦ absurd (clash other (rw here (bytes_eq_self origin)))
    | inr there ↦ Listed-match_origin os origin there
  ])
]
  where
    clash : {b : Bool} → b ≡ false → b ≡ true → ⊥
    clash p q = cc

Listed-valid :
    (os : List Bytes) (v : Bytes) → all_valid os ≡ true → Listed v os → valid_origin v ≡ true
unfolding all_valid
Listed-valid [] v h l = absurd l
Listed-valid (o ∷ os) v h (inl here) = rw⁻¹ here (left (valid_origin o) (all_valid os) h)
  where
    left : (a b : Bool) → (a && b) ≡ true → a ≡ true
    left true b h = refl
    left false b h = cc
Listed-valid (o ∷ os) v h (inr there) =
    Listed-valid os v (right (valid_origin o) (all_valid os) h) there
  where
    right : (a b : Bool) → (a && b) ≡ true → b ≡ true
    right true b h = h
    right false b h = cc

valid-nonempty : (v : Bytes) → valid_origin v ≡ true → is_empty v ≡ false
unfolding valid_origin cut
valid-nonempty [] h = cc
valid-nonempty (c ∷ cs) h = refl

allowing_lem :
    (x : Option Bytes) (hs : List Header) (e : End)
    → ((allowing x hs e).allow_origin ≡ x)
      × (x ≡ none → (allowing x hs e).headers ≡ [])
      × ((allowing x hs e).ends ≡ e)
allowing_lem none hs e = (refl, λ q. refl, refl)
allowing_lem (some o) hs e = (refl, λ q. cc, refl)

-- A request with an origin: what is allowed, and when the middleware answers itself.
cors_lem :
    (c : Compiled) (method origin request_method : Bytes)
    → is_empty origin ≡ false
    → let r = cors c method origin request_method in
      (r.allow_origin ≡ match_origin c.origins origin)
      × (match_origin c.origins origin ≡ none → r.headers ≡ [])
      × (r.ends ≡ (if is_preflight method request_method then no_content else next))
unfolding cors
cors_lem c method origin rm h =
    let x = match_origin c.origins origin in
    elim (Bool-cases (is_preflight method rm)) [
      | inl pre ↦ rw (h, pre) (allowing_lem x c.preflight no_content)
      | inr plain ↦ rw (h, plain) (allowing_lem x c.real next)
    ]

module _ (decimal : ℕ → Bytes) where
  abbrev origins_of : Outcome → List Bytes
  origins_of (compiled c) = c.origins
  origins_of (panics p) = []

  lists_origins :
      (cfg : CorsConfig) (ms hs es : Option Bytes) (c : Compiled)
      → lists decimal cfg ms hs es ≡ compiled c
      → cfg.origins ≡ c.origins
  lists_origins cfg none hs es c e = cc
  lists_origins cfg (some ms) none es c e = cc
  lists_origins cfg (some ms) (some hs) none c e = cc
  lists_origins cfg (some ms) (some hs) (some es) c e = ap origins_of e

  checks_passed :
      (a b d : Bool) (p q s : Bytes) (x : Outcome) (c : Compiled)
      → (if a then panics p else if not b then panics q else if d then panics s else x) ≡ compiled c
      → (b ≡ true) × (x ≡ compiled c)
  checks_passed true b d p q s x c e = cc
  checks_passed false false d p q s x c e = cc
  checks_passed false true true p q s x c e = cc
  checks_passed false true false p q s x c e = (refl, e)

  compile_cors-origins :
      (cfg : CorsConfig) (c : Compiled)
      → compile_cors decimal cfg ≡ compiled c
      → (all_valid cfg.origins ≡ true) × (cfg.origins ≡ c.origins)
  unfolding compile_cors
  compile_cors-origins cfg c e =
      let (valid, made) =
        checks_passed (no_origins cfg.origins) (all_valid cfg.origins)
          (is_negative cfg.max_age || is_short cfg.max_age) _ _ _
          (lists decimal cfg (join_list (or_default cfg.allow_methods))
            (join_list cfg.allow_headers) (join_list cfg.expose_headers))
          c e in
      (valid, lists_origins cfg _ _ _ c made)

  -- Behind a configuration that is accepted, a request with an origin is allowed exactly when the
  -- configuration lists that origin, byte for byte, and then that origin is the one that is sent back
  -- and it passes the check of origins; otherwise none of the headers is set. A preflight, whatever
  -- its origin, is answered without the next handler, and any other request goes on to it.
  pub cors-Listed :
      (cfg : CorsConfig) (c : Compiled) (method origin request_method : Bytes)
      → compile_cors decimal cfg ≡ compiled c
      → is_empty origin ≡ false
      → let r = cors c method origin request_method in
        ((v : Bytes)
          → r.allow_origin ≡ some v
          → (v ≡ origin) × Listed v cfg.origins × (valid_origin v ≡ true))
        × (Listed origin cfg.origins → r.allow_origin ≡ some origin)
        × (r.allow_origin ≡ none → r.headers ≡ [])
        × (r.ends ≡ (if is_preflight method request_method then no_content else next))
  cors-Listed cfg c method origin rm made h =
      let (valid, same) = compile_cors-origins cfg c made in
      let (allow, bare, ends) = cors_lem c method origin rm h in
      (
        λ v e.
            let (is_it, listed) = match_origin-Listed c.origins origin v (sym allow ∙ e) in
            let here : Listed v cfg.origins = rw same listed in
            (is_it, here, Listed-valid cfg.origins v valid here),
        λ l. allow ∙ Listed-match_origin c.origins origin (rw same at l),
        λ e. bare (sym allow ∙ e),
        ends,
      )
