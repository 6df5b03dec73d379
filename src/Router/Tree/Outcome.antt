-- ===== src/Router/Tree/Outcome.antt =====
-- internal/router/tree.go: what one attempt of the lookup returns, as a relation to a table.
use rice_http.Prelude.{
  ℕ, Bytes, Option, none, some, List, [], ◌∷◌, ◌++◌, ◌≡◌, ◌⊎◌, inl, inr, refl, sym, ap, ◌∙◌,
  append-nil, append_assoc, take-length-append,
}
use rice_http.Router.Params.{Param, Params, len, add}
use rice_http.Router.Tree.{Node, node, or_else, undo, land, lookup_node, handler_of}
use rice_http.Router.Table.{Symbol, Matches, done, segment, Precedes, entry}

module _ {ℓ} {H : Type ℓ} (E : List Symbol → Option H) (path : Bytes) (ps : Params) where
  -- A hit is the entry of a matching pattern that precedes all others, and appends its captures; a
  -- miss means that no pattern matches, and leaves the parameters alone.
  pub data Outcome : Option H × Params → Type ℓ where
    hit :
        (s : List Symbol) (cs : List Param) (h : H) (ps' : Params)
        → E s ≡ some h
        → Matches s path cs
        → ((q : List Symbol) (g : H) (ds : List Param)
            → E q ≡ some g
            → Matches q path ds
            → Precedes s q)
        → ps'.slots ≡ ps.slots ++ cs
        → Outcome (some h, ps')
    miss :
        (ps' : Params)
        → ((q : List Symbol) (g : H) (ds : List Param) → E q ≡ some g → Matches q path ds → ⊥)
        → ps'.slots ≡ ps.slots
        → Outcome (none, ps')

-- The attempts one after the other: the first covers one kind of pattern, and precedes the others.
pub or_else-Outcome {ℓ} :
    {H : Type ℓ} (E E1 E2 : List Symbol → Option H) (path : Bytes) (ps : Params)
    (next : Params → Option H × Params)
    → ((q : List Symbol) (g : H) (ds : List Param)
        → E q ≡ some g
        → Matches q path ds
        → (E1 q ≡ some g) ⊎ (E2 q ≡ some g))
    → ((q : List Symbol) (g : H) → E1 q ≡ some g → E q ≡ some g)
    → ((q : List Symbol) (g : H) → E2 q ≡ some g → E q ≡ some g)
    → ((s q : List Symbol) (h g : H) → E1 s ≡ some h → E2 q ≡ some g → Precedes s q)
    → {r : Option H × Params} → Outcome E1 path ps r
    → ((ps1 : Params) → Outcome E2 path ps1 (next ps1))
    → Outcome E path ps (or_else r next)
or_else-Outcome E E1 E2 path ps next cover one two first (hit s cs h ps' e m best sl) rest =
    hit s cs h ps' (one s h e) m
      (λ q g ds eq mq. elim (cover q g ds eq mq) [
        | inl e1 ↦ best q g ds e1 mq
        | inr e2 ↦ first s q h g e e2
      ])
      sl
or_else-Outcome {H} E E1 E2 path ps next cover one two first (miss ps1 never sl) rest =
    go (next ps1) (rest ps1)
  where
    go : (r : Option H × Params) → Outcome E2 path ps1 r → Outcome E path ps r
    go r (hit s cs h ps' e m best sl') =
        hit s cs h ps' (two s h e) m
          (λ q g ds eq mq. elim (cover q g ds eq mq) [
            | inl e1 ↦ absurd (never q g ds e1 mq)
            | inr e2 ↦ best q g ds e2 mq
          ])
          (sl' ∙ ap (λ l. l ++ cs) sl)
    go r (miss ps' never' sl') =
        miss ps'
          (λ q g ds eq mq. elim (cover q g ds eq mq) [
            | inl e1 ↦ never q g ds e1 mq
            | inr e2 ↦ never' q g ds e2 mq
          ])
          (sl' ∙ sl)

-- A table that agrees on the patterns that match.
pub Outcome-agree {ℓ} :
    {H : Type ℓ} (E E' : List Symbol → Option H) {path : Bytes} {ps : Params}
    → ((q : List Symbol) (ds : List Param) → Matches q path ds → E q ≡ E' q)
    → {r : Option H × Params} → Outcome E path ps r
    → Outcome E' path ps r
Outcome-agree E E' same (hit s cs h ps' e m best sl) =
    hit s cs h ps' (sym (same s cs m) ∙ e) m (λ q g ds eq mq. best q g ds (same q ds mq ∙ eq) mq) sl
Outcome-agree E E' same (miss ps' never sl) =
    miss ps' (λ q g ds eq mq. never q g ds (same q ds mq ∙ eq) mq) sl

-- Where the path ends, the node's own handler is all that matches.
pub end-Outcome {ℓ} :
    {H : Type ℓ} (n : Node H) (ps : Params) → Outcome (entry n) [] ps (handler_of n, ps)
unfolding entry
end-Outcome (node p (some h) ss pr w nm) ps =
    hit [] [] h ps refl done (λ q g ds eq mq. ends mq) (sym (append-nil ps.slots))
  where
    ends : {q : List Symbol} {ds : List Param} → Matches q [] ds → Precedes [] q
    ends done = tt
    ends (segment b seg rest n d e m) = cc
end-Outcome (node p none ss pr w nm) ps = miss ps (λ q g ds eq mq. ends mq eq) refl
  where
    ends :
        {q : List Symbol} {ds : List Param} {g : _}
        → Matches q [] ds
        → entry (node p none ss pr w nm) q ≡ some g
        → ⊥
    ends done eq = cc
    ends (segment b seg rest n d e m) eq = cc

-- At a child that the path leads to: either the path ends there, or the lookup goes on below it.
pub land-Outcome {ℓ} :
    {H : Type ℓ} (n : Node H) (rest : Bytes) (ps : Params)
    → ((b : ℕ) (path : Bytes) → Outcome (entry n) (b ∷ path) ps (lookup_node n (b ∷ path) ps))
    → Outcome (entry n) rest ps (land (handler_of n) rest ps (lookup_node n))
land-Outcome n [] ps deeper = end-Outcome n ps
land-Outcome n (b ∷ path) ps deeper = deeper b path

-- A capture before the rest: its pattern symbol stands in front, and a failure undoes it.
pub undo-Outcome {ℓ} :
    {H : Type ℓ} (E E' : List Symbol → Option H) (a : Symbol) (c : Param) (path rest : Bytes)
    (ps : Params)
    → ((q : List Symbol) → E' (a ∷ q) ≡ E q)
    → ((q : List Symbol) (ds : List Param) → Matches q rest ds → Matches (a ∷ q) path (c ∷ ds))
    → ((q : List Symbol) (g : H) (ds : List Param)
        → E' q ≡ some g
        → Matches q path ds
        → (q' : List Symbol) × (ds' : List Param) × (q ≡ a ∷ q') × Matches q' rest ds')
    → {r : Option H × Params} → Outcome E rest (add ps c.key c.value) r
    → Outcome E' path ps (undo (len ps) r)
undo-Outcome E E' a c path rest ps below front only (hit s cs h ps' e m best sl) =
    hit (a ∷ s) (c ∷ cs) h ps' (below s ∙ e) (front s cs m)
      (λ q g ds eq mq.
        let (q', ds', same, m') = only q g ds eq mq in
        rw same (inr (refl, best q' g ds' (sym (below q') ∙ (rw same at eq)) m')))
      (sl ∙ append_assoc ps.slots (c ∷ []) cs)
undo-Outcome E E' a c path rest ps below front only (miss ps' never sl) =
    miss _
      (λ q g ds eq mq.
        let (q', ds', same, m') = only q g ds eq mq in
        never q' g ds' (sym (below q') ∙ (rw same at eq)) m')
      (rw sl (take-length-append ps.slots (c ∷ [])))
