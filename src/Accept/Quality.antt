-- ===== src/Accept/Quality.antt =====
-- ctx_accept.go: the bounds of a quality, and the range that decides it.
use rice_http.Prelude.{
  ℕ, ◌-◌, ◌≤◌, ◌<◌, Bytes, none, some, List, [], ◌∷◌, ◌++◌, ◌==◌, ◌≡◌, ◌⊎◌, inl, inr, refl, sym, ap,
  ◌∙◌, arith, ==_iff, Bool-cases, Option-cases, length, All, ltb, drop,
}
use rice_http.Accept.{
  nonempty_parts, cut_at, trim_ows, next_item, items, parse_q, parse_fraction, fraction_from,
  q_param, q_from, specificity, match_range, quality_from, elements, offer_quality,
}

-- Up to three digits make at most 999 thousandths.
fraction_le : (d : Bytes) (v : ℕ) → length d ≤ 3 → parse_fraction d ≡ some v → v ≤ 999
unfolding fraction_from
fraction_le [] v l e = ground arith
fraction_le (a ∷ []) v l e = ground arith
fraction_le (a ∷ b ∷ []) v l e = ground arith
fraction_le (a ∷ b ∷ c ∷ []) v l e = ground arith
fraction_le (a ∷ b ∷ c ∷ d ∷ r) v l e = absurd (omega arith)

length-drop_one : (s : Bytes) → length (drop 1 s) ≤ length s - 1
length-drop_one [] = omega arith
length-drop_one (c ∷ s) = omega arith

pub parse_q-le : (b : Bytes) (v : ℕ) → parse_q b ≡ some v → v ≤ 1000
unfolding parse_q
parse_q-le [] v e = cc
parse_q-le (a ∷ s) v e =
    ground (arith, fraction_le s v, fraction_le (drop 1 s) v, length-drop_one s)

q_param-le : (q : ℕ) (p : Bytes) (v : ℕ) → q ≤ 1000 → q_param q p ≡ some v → v ≤ 1000
unfolding q_param
q_param-le q p v le e = grind (arith, parse_q-le)

pub none_or_some {ℓ} : {A : Type ℓ} {a : A} → none ≡ some a → ⊥
none_or_some e = cc

q_from-le : (q : ℕ) (ps : List Bytes) (v : ℕ) → q ≤ 1000 → q_from q ps ≡ some v → v ≤ 1000
unfolding q_from
q_from-le q [] v le e = ground arith
q_from-le q (p ∷ ps) v le e = elim (Option-cases (q_param q p)) [
  | inl off ↦ absurd (none_or_some (rw off at e))
  | inr (w, on) ↦ q_from-le w ps v (q_param-le q p w le on) (rw on at e)
]

specificity_bounds :
    (rt rs typ sub : Bytes) (n : ℕ) → specificity rt rs typ sub ≡ some n → (0 < n) × (n ≤ 3)
unfolding specificity
specificity_bounds rt rs typ sub n e = ground arith

pub match_range_bounds :
    (elem typ sub : Bytes) (q spec : ℕ)
    → match_range elem typ sub ≡ some (q, spec)
    → (q ≤ 1000) × (0 < spec) × (spec ≤ 3)
unfolding match_range
match_range_bounds elem typ sub q spec e =
    elim (Option-cases (nonempty_parts (cut_at b'/' (trim_ows (next_item elem b';').0)))) [
      | inl off ↦ absurd (none_or_some (rw off at e))
      | inr (range, on) ↦ elim (Option-cases (specificity range.0 range.1 typ sub)) [
        | inl off ↦ absurd (none_or_some (rw (on, off) at e))
        | inr (n, specific) ↦
            elim (Option-cases (q_from 1000 (items (next_item elem b';').1 b';'))) [
              | inl off ↦ absurd (none_or_some (rw (on, specific, off) at e))
              | inr (v, quality) ↦
                  let e' : some (v, n) ≡ some (q, spec) = rw (on, specific, quality) at e in
                  ground (
                    arith,
                    specificity_bounds range.0 range.1 typ sub n specific,
                    q_from-le 1000 _ v (omega arith) quality,
                    e',
                  )
            ]
      ]
    ]

module _ (typ sub : Bytes) where
  -- No match of an element is as specific as `n`, or more specific than `n`.
  abbrev pub IsBelow : ℕ → Bytes → Type 0
  IsBelow n e = (q spec : ℕ) → match_range e typ sub ≡ some (q, spec) → spec < n

  abbrev pub IsAtMost : ℕ → Bytes → Type 0
  IsAtMost n e = (q spec : ℕ) → match_range e typ sub ≡ some (q, spec) → spec ≤ n

  -- `q` is the quality of the first among the most specific matches.
  pub record Decides (es : List Bytes) (q : ℕ) : Type 0 where
    pub front : List Bytes
    pub elem : Bytes
    pub back : List Bytes
    pub parts : es ≡ front ++ elem ∷ back
    pub spec : ℕ
    pub matched : match_range elem typ sub ≡ some (q, spec)
    pub first : All (IsBelow spec) front
    pub best : All (IsAtMost spec) back

  At_most_three : (es : List Bytes) → All (IsAtMost 3) es
  At_most_three [] = tt
  At_most_three (e ∷ es) =
      ((λ q spec m. (match_range_bounds e typ sub q spec m).2), At_most_three es)

  Decides-cons :
      (e : Bytes) {es : List Bytes} {q : ℕ} (d : Decides es q)
      → IsBelow d.spec e
      → Decides (e ∷ es) q
  Decides-cons e d below = record {
    front = e ∷ d.front;
    elem = d.elem;
    back = d.back;
    parts = ap (λ l. e ∷ l) d.parts;
    spec = d.spec;
    matched = d.matched;
    first = (below, d.first);
    best = d.best;
  }

  Decides-head :
      (e : Bytes) (es : List Bytes) (q spec : ℕ)
      → match_range e typ sub ≡ some (q, spec)
      → All (IsAtMost spec) es
      → Decides (e ∷ es) q
  Decides-head e es q spec m best = record {
    front = [];
    elem = e;
    back = es;
    parts = refl;
    spec = spec;
    matched = m;
    first = tt;
    best = best;
  }

  -- An element whose match is known.
  match_found :
      (e : Bytes) (q spec q' spec' : ℕ)
      → match_range e typ sub ≡ some (q, spec)
      → match_range e typ sub ≡ some (q', spec')
      → spec' ≡ spec
  match_found e q spec q' spec' m m' = cc

  pub Result : List Bytes → ℕ → ℕ → ℕ → Type 0
  Result es q spec r = (All (IsAtMost spec) es × (r ≡ q)) ⊎ ((d : Decides es r) × (spec < d.spec))

  -- An element that is not more specific than what came before changes nothing.
  Result-skip :
      (e : Bytes) (es : List Bytes) (q spec r : ℕ)
      → IsAtMost spec e
      → Result es q spec r
      → Result (e ∷ es) q spec r
  unfolding Result Decides-cons
  Result-skip e es q spec r low (inl (all, same)) = inl ((low, all), same)
  Result-skip e es q spec r low (inr (d, above)) =
      inr (Decides-cons e d (λ q' n m. omega (arith, low q' n m)), above)

  -- One that is more specific takes over.
  Result-take :
      (e : Bytes) (es : List Bytes) (q spec eq n r : ℕ)
      → match_range e typ sub ≡ some (eq, n)
      → spec < n
      → Result es eq n r
      → Result (e ∷ es) q spec r
  unfolding Result Decides-head Decides-cons
  Result-take e es q spec eq n r m above (inl (all, same)) =
      inr (rw same (Decides-head e es eq n m all), above)
  Result-take e es q spec eq n r m above (inr (d, more)) =
      inr (Decides-cons e d (λ q' k m'. omega (arith, match_found e eq n q' k m m')), omega arith)

  quality_from_lem :
      (es : List Bytes) (q spec : ℕ) → Result es q spec (quality_from es typ sub q spec)
  unfolding quality_from
  quality_from_lem [] q spec = unfold Result in inl (tt, refl)
  quality_from_lem (e ∷ es) q spec = elim (Option-cases (match_range e typ sub)) [
    | inl off ↦ rw off (
        Result-skip e es q spec _ (λ q' n m. absurd (none_or_some (sym off ∙ m)))
          (quality_from_lem es q spec))
    | inr ((eq, n), on) ↦ elim (Bool-cases (ltb spec n)) [
      | inr low ↦
          rw (on, low)
            (Result-skip e es q spec _ (λ q' k m. ground (arith, low, match_found e eq n q' k on m))
              (quality_from_lem es q spec))
      | inl above ↦ elim (Bool-cases (n == 3)) [
        | inl top ↦
            rw (on, above, top)
              (Result-take e es q spec eq n eq on (ground arith)
                (unfold Result in inl (rw ((==_iff n 3).0 top) (At_most_three es), refl)))
        | inr other ↦
            rw (on, above, other)
              (Result-take e es q spec eq n _ on (ground arith) (quality_from_lem es eq n))
      ]
    ]
  ]

  NoMatch_of_zero :
      (es : List Bytes) → All (IsAtMost 0) es → All (λ e. match_range e typ sub ≡ none) es
  NoMatch_of_zero [] h = tt
  NoMatch_of_zero (e ∷ es) (here, h) = (
    elim (Option-cases (match_range e typ sub)) [
      | inl off ↦ off
      | inr ((q, n), on) ↦ absurd (omega (arith, here q n on, match_range_bounds e typ sub q n on))
    ],
    NoMatch_of_zero es h,
  )

  -- The quality of an offer: 0 if no element of the Accept lines matches it, else the quality of the
  -- first among its most specific matches; in either case at most 1000.
  pub offer_quality_lem :
      (accepts : List Bytes)
      → ((All (λ e. match_range e typ sub ≡ none) (elements accepts)
            × (offer_quality accepts typ sub ≡ 0))
          ⊎ Decides (elements accepts) (offer_quality accepts typ sub))
        × (offer_quality accepts typ sub ≤ 1000)
  unfolding offer_quality Result
  offer_quality_lem accepts = elim (quality_from_lem (elements accepts) 0 0) [
    | inl (all, same) ↦ (inl (NoMatch_of_zero _ all, same), omega arith)
    | inr (d, above) ↦ (inr d, (match_range_bounds d.elem typ sub _ d.spec d.matched).0)
  ]
