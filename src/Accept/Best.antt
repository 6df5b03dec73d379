-- ===== src/Accept/Best.antt =====
-- ctx_accept.go: the offer that `negotiate` chooses.
use rice_http.Prelude.{
  ℕ, ◌+◌, ◌≤◌, ◌<◌, Bytes, Bool, true, false, none, some, List, [], ◌∷◌, ◌++◌, ◌==◌, ◌≡◌, ◌≢◌, ◌⊎◌,
  inl, inr, refl, ap, ◌↔◌, arith, ==_iff, Bool-cases, Option-cases, All, ltb,
}
use rice_http.Accept.{split_offer, offer_quality, is_present, pick, negotiate_from, negotiate}
use rice_http.Accept.Quality.{offer_quality_lem, none_or_some}

module _ (accepts : List Bytes) where
  -- The quality of an offer by itself; an offer that is not a media type has none.
  pub quality : Bytes → ℕ
  quality offer = elim (split_offer offer) [
    | none ↦ 0
    | some (typ, sub) ↦ offer_quality accepts typ sub
  ]

  quality-le : (offer : Bytes) → quality offer ≤ 1000
  unfolding quality
  quality-le offer = elim (Option-cases (split_offer offer)) [
    | inl off ↦ rw (off, quality) (omega arith)
    | inr ((typ, sub), on) ↦ rw (on, quality) (offer_quality_lem typ sub accepts).1
  ]

  -- The earliest among the offers of the highest quality, which is positive.
  pub record IsBest (offers : List Bytes) (best : Bytes) : Type 0 where
    pub front : List Bytes
    pub back : List Bytes
    pub parts : offers ≡ front ++ best ∷ back
    pub positive : 0 < quality best
    pub earlier : All (λ o. quality o < quality best) front
    pub later : All (λ o. quality o ≤ quality best) back

  -- What is chosen from here on, when the best so far has quality `q`.
  abbrev Choice : List Bytes → Bytes → ℕ → Bytes → Type 0
  Choice offers best q chosen =
      (All (λ o. quality o ≤ q) offers × (chosen ≡ best))
      ⊎ ((b : IsBest offers chosen) × (q < quality chosen))

  Choice-keep :
      (offer : Bytes) (offers : List Bytes) (best : Bytes) (q : ℕ) (chosen : Bytes)
      → quality offer ≤ q
      → Choice offers best q chosen
      → Choice (offer ∷ offers) best q chosen
  Choice-keep offer offers best q chosen low (inl (all, same)) = inl ((low, all), same)
  Choice-keep offer offers best q chosen low (inr (b, above)) = inr (
    record {
      front = offer ∷ b.front;
      back = b.back;
      parts = ap (λ l. offer ∷ l) b.parts;
      positive = b.positive;
      earlier = (omega arith, b.earlier);
      later = b.later;
    },
    above,
  )

  Choice-take :
      (offer : Bytes) (offers : List Bytes) (best : Bytes) (q : ℕ) (chosen : Bytes)
      → q < quality offer
      → Choice offers offer (quality offer) chosen
      → Choice (offer ∷ offers) best q chosen
  Choice-take offer offers best q chosen above (inl (all, same)) = rw same (
      inr (
        record {
          front = [];
          back = offers;
          parts = refl;
          positive = omega arith;
          earlier = tt;
          later = all;
        },
        above,
      ))
  Choice-take offer offers best q chosen above (inr (b, more)) = inr (
    record {
      front = offer ∷ b.front;
      back = b.back;
      parts = ap (λ l. offer ∷ l) b.parts;
      positive = b.positive;
      earlier = (more, b.earlier);
      later = b.later;
    },
    omega arith,
  )

  pick-Choice :
      (i : ℕ) (best : Bytes) (q : ℕ) (offer : Bytes) (offers : List Bytes) (chosen : Bytes)
      → Choice offers
          (pick true i best q offer (quality offer)).0
          (pick true i best q offer (quality offer)).1
          chosen
      → Choice (offer ∷ offers) best q chosen
  pick-Choice i best q offer offers chosen h = elim (Bool-cases (q == 1000)) [
    | inl top ↦
        Choice-keep offer offers best q chosen
          (omega (arith, quality-le offer, (==_iff q 1000).0 top)) (rw top at h)
    | inr room ↦ elim (Bool-cases (ltb q (quality offer))) [
      | inl above ↦ Choice-take offer offers best q chosen (ground arith) (rw (room, above) at h)
      | inr low ↦ Choice-keep offer offers best q chosen (ground arith) (rw (room, low) at h)
    ]
  ]

  negotiate_from-Choice :
      (offers : List Bytes) (i : ℕ) (best : Bytes) (q : ℕ) (chosen : Bytes)
      → negotiate_from accepts true offers i (best, q) ≡ some chosen
      → Choice offers best q chosen
  unfolding negotiate_from quality
  negotiate_from-Choice [] i best q chosen e = inl (tt, some_eq e)
    where
      some_eq : some best ≡ some chosen → chosen ≡ best
      some_eq h = cc
  negotiate_from-Choice (offer ∷ offers) i best q chosen e =
      elim (Option-cases (split_offer offer)) [
        | inl off ↦ absurd (none_or_some (rw off at e))
        | inr ((typ, sub), on) ↦
            pick-Choice i best q offer offers chosen (
              negotiate_from-Choice offers (i + 1) _ _ chosen (rw (own typ sub on) at (rw on at e)))
      ]
    where
      own :
          (typ sub : Bytes)
          → split_offer offer ≡ some (typ, sub)
          → offer_quality accepts typ sub ≡ quality offer
      own typ sub on = rw (on, quality)

  absent-keeps :
      (offers : List Bytes) (i : ℕ) (best : Bytes) (q : ℕ) (chosen : Bytes)
      → 0 < i
      → negotiate_from accepts false offers i (best, q) ≡ some chosen
      → chosen ≡ best
  unfolding negotiate_from
  absent-keeps [] i best q chosen pos e = some_eq e
    where
      some_eq : some best ≡ some chosen → chosen ≡ best
      some_eq h = cc
  absent-keeps (offer ∷ offers) i best q chosen pos e = elim (Option-cases (split_offer offer)) [
    | inl off ↦ absurd (none_or_some (rw off at e))
    | inr (parts, on) ↦
        let later : (i == 0) ≡ false = ground arith in
        absent-keeps offers (i + 1) best q chosen (omega arith) (rw (on, later) at e)
  ]

  abbrev pub IsFirst : List Bytes → Bytes → Type 0
  IsFirst [] chosen = chosen ≡ []
  IsFirst (offer ∷ offers) chosen = chosen ≡ offer

  absent-IsFirst :
      (offers : List Bytes) (chosen : Bytes)
      → negotiate_from accepts false offers 0 ([], 0) ≡ some chosen
      → IsFirst offers chosen
  unfolding negotiate_from
  absent-IsFirst [] chosen e = some_eq e
    where
      some_eq : some [] ≡ some chosen → chosen ≡ []
      some_eq h = cc
  absent-IsFirst (offer ∷ offers) chosen e = elim (Option-cases (split_offer offer)) [
    | inl off ↦ absurd (none_or_some (rw off at e))
    | inr (parts, on) ↦ absent-keeps offers 1 offer 0 chosen (omega arith) (rw on at e)
  ]

  -- The answer of `negotiate`, where it does not panic. Without an Accept header it is the first
  -- offer. With one it is the earliest among the offers of the highest quality; if no offer has a
  -- positive quality it is empty.
  pub negotiate-IsBest :
      (offers : List Bytes) (chosen : Bytes)
      → negotiate accepts offers ≡ some chosen
      → ((is_present accepts ≡ false) × IsFirst offers chosen)
        ⊎ ((is_present accepts ≡ true)
            × (((chosen ≡ []) × All (λ o. quality o ≤ 0) offers) ⊎ IsBest offers chosen))
  unfolding negotiate
  negotiate-IsBest offers chosen e = elim (Bool-cases (is_present accepts)) [
    | inr absent ↦ inl (absent, absent-IsFirst offers chosen (rw absent at e))
    | inl present ↦ inr (
      present,
      elim (negotiate_from-Choice offers 0 [] 0 chosen (rw present at e)) [
        | inl (all, same) ↦ inl (same, all)
        | inr (b, above) ↦ inr b
      ],
    )
  ]

  negotiate_from-total :
      (present : Bool) (offers : List Bytes) (i : ℕ) (best : Bytes × ℕ)
      → All (λ o. split_offer o ≢ none) offers
      → negotiate_from accepts present offers i best ≢ none
  unfolding negotiate_from
  negotiate_from-total present [] i best h = cc
  negotiate_from-total present (offer ∷ offers) i best (h, hs) =
      elim (Option-cases (split_offer offer)) [
        | inl off ↦ absurd (h off)
        | inr (parts, on) ↦ rw on (negotiate_from-total present offers (i + 1) _ hs)
      ]

  negotiate_from-checks :
      (present : Bool) (offers : List Bytes) (i : ℕ) (best : Bytes × ℕ)
      → negotiate_from accepts present offers i best ≢ none
      → All (λ o. split_offer o ≢ none) offers
  unfolding negotiate_from
  negotiate_from-checks present [] i best h = tt
  negotiate_from-checks present (offer ∷ offers) i best h =
      elim (Option-cases (split_offer offer)) [
        | inl off ↦ absurd (h (rw off))
        | inr (parts, on) ↦ (
          (λ off. absurd (clash on off)),
          negotiate_from-checks present offers (i + 1) _ (rw on at h),
        )
      ]
    where
      clash :
          {parts : Bytes × Bytes} → split_offer offer ≡ some parts → split_offer offer ≡ none → ⊥
      clash h k = cc

  -- `negotiate` panics exactly when some offer is not a media type, Accept header or not, also where
  -- an earlier offer has the highest quality there is.
  pub negotiate_total :
      (offers : List Bytes)
      → (negotiate accepts offers ≢ none) ↔ All (λ o. split_offer o ≢ none) offers
  unfolding negotiate
  negotiate_total offers = (
    negotiate_from-checks (is_present accepts) offers 0 ([], 0),
    negotiate_from-total (is_present accepts) offers 0 ([], 0),
  )
