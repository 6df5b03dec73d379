-- ===== src/App/Register/Recorded.antt =====
-- route.go, group.go: the trees of an App against the routes that it has recorded.
use rice_http.Prelude.{
  ℕ, Bytes, Option, none, some, List, [], ◌∷◌, ◌++◌, ◌≡◌, ◌≢◌, refl, ◌∙◌, Option-cases, inl, inr,
  bytes_eq, bytes_ne, false,
}
use rice_http.App.Trees.{Trees, no_trees, insert_route}
use rice_http.App.Model.{Route, Entry, App, Panic, went_on, went_past, ok, panic, check_middleware}
use rice_http.App.Register.{raw, add_route, with_route, register, require, has_lowercase_byte}
use rice_http.App.Build.{insert_all, next_route}

module _ {ℓ} {H : Type ℓ} (u : Bytes → Option Bytes) where
  insert_all-append :
      (f : Route H → Entry H) (rs : List (Route H)) (r : Route H) (ts us : Trees (Entry H))
      → insert_all u f rs ts ≡ ok us
      → insert_all u f (rs ++ r ∷ []) ts
        ≡ next_route r (λ vs. ok vs) (insert_route u r.method r.path (f r) us)
  unfolding insert_all
  insert_all-append f [] r ts us done = let e : ts ≡ us = cc in rw e refl
  insert_all-append f (q ∷ rs) r ts us done =
      elim (Option-cases (insert_route u q.method q.path (f q) ts).1) [
        | inl went ↦ rw went (insert_all-append f rs r _ us (rw went at done))
        | inr (e, failed) ↦ absurd (no_ok (rw failed at done))
      ]
    where
      no_ok : {e : Panic} {us : Trees (Entry H)} → panic e ≡ ok us → ⊥
      no_ok h = cc

  -- The trees and the record of the routes agree.
  abbrev pub IsRecorded : App H → Type ℓ
  IsRecorded a = insert_all u raw a.routes no_trees ≡ ok a.trees

  -- What a registration that is accepted does: the tree of the method takes the pattern, and the
  -- route is recorded behind the others.
  pub record IsAdded (a : App H) (r : Route H) (b : App H) : Type ℓ where
    pub setup : a.built ≡ false
    pub named : (r.method ≢ []) × (has_lowercase_byte r.method ≡ false)
    pub accepted : (insert_route u r.method r.path (raw r) a.trees).1 ≡ none
    pub trees : b.trees ≡ (insert_route u r.method r.path (raw r) a.trees).0
    pub routes : b.routes ≡ a.routes ++ r ∷ []
    pub kept : (b.mws ≡ a.mws) × (b.groups ≡ a.groups) × (b.once ≡ a.once) × (b.built ≡ a.built)

  record_route-IsAdded :
      (r : Route H) (a b : App H)
      → a.built ≡ false
      → (r.method ≢ []) × (has_lowercase_byte r.method ≡ false)
      → add_route u r a ≡ ok b
      → IsAdded a r b
  record_route-IsAdded r a b setup named done =
      elim (Option-cases (insert_route u r.method r.path (raw r) a.trees).1) [
        | inl went ↦
            let same : with_route a r (insert_route u r.method r.path (raw r) a.trees).0 ≡ b =
              unwrap (rw went at done) in
            rw (← same) (record {
              setup = setup;
              named = named;
              accepted = went;
              trees = refl;
              routes = refl;
              kept = (refl, refl, refl, refl);
            })
        | inr (e, failed) ↦ absurd (no_ok (rw failed at done))
      ]
    where
      no_ok : {e : Panic} {b : App H} → panic e ≡ ok b → ⊥
      no_ok h = cc

      unwrap : {a b : App H} → ok a ≡ ok b → a ≡ b
      unwrap h = cc

  pub register-IsAdded :
      (method path : Bytes) (h : Option H) (g : Option ℕ) (mw : List (Option (H → H))) (a b : App H)
      → register u method path h g mw a ≡ ok b
      → (mws : List (H → H)) × (f : H) × (check_middleware mw ≡ ok mws)
        × (h ≡ some f)
        × IsAdded a (record { method = method; path = path; h = f; group = g; mws = mws }) b
  unfolding register
  register-IsAdded method path h g mw a b done =
      let (mws, s1, checked) = went_on (check_middleware mw) done in
      let (s2, setup) = went_past a.built _ s1 in
      let (s3, nonempty) = went_past (bytes_eq method []) _ s2 in
      let (s4, upper) = went_past (has_lowercase_byte method) _ s3 in
      let (f, s5, given) = went_on (require h) s4 in
      (
        mws,
        f,
        checked,
        required h given,
        record_route-IsAdded _ a b setup (bytes_ne method [] nonempty, upper) s5,
      )
    where
      required : {f : H} (h : Option H) → require h ≡ ok f → h ≡ some f
      required none e = cc
      required (some f) e = cc

  pub IsAdded-IsRecorded : (r : Route H) (a b : App H) → IsAdded a r b → IsRecorded a → IsRecorded b
  IsAdded-IsRecorded r a b added rec =
      rw (added.routes, added.trees)
        (insert_all-append raw a.routes r no_trees a.trees rec ∙ rw (added.accepted) refl)
