-- ===== src/Accept/Items.antt =====
-- ctx_accept.go: splitting a header line into items.
use rice_http.Prelude.{
  ℕ, zero, suc, ◌≤◌, Bytes, true, false, List, [], ◌∷◌, ◌++◌, ◌≡◌, ◌⊎◌, inl, inr, refl, ap, ◌∙◌,
  arith, Bool-cases, length, append_assoc, All, length-append,
}
use rice_http.Accept.{
  Quote, outside, inside, escaped, advance, is_cut, next_from, next_item, items_from, items,
}

-- Whether a text has no separator outside quotes, read from a position.
abbrev pub HasNoCut : Quote → ℕ → Bytes → Type 0
HasNoCut quote sep [] = Unit
HasNoCut quote sep (c ∷ s) = (is_cut quote sep c ≡ false) × HasNoCut (advance quote c) sep s

is_cut-eq : (quote : Quote) (sep c : ℕ) → is_cut quote sep c ≡ true → c ≡ sep
unfolding is_cut
is_cut-eq outside sep c h = ground arith
is_cut-eq inside sep c h = cc
is_cut-eq escaped sep c h = cc

-- The item and the rest: either nothing was cut, or the separator stands between the two.
next_from_lem :
    (quote : Quote) (sep : ℕ) (s : Bytes)
    → HasNoCut quote sep (next_from quote sep s).0
      × (((next_from quote sep s).0 ≡ s) × ((next_from quote sep s).1 ≡ [])
          ⊎ (s ≡ (next_from quote sep s).0 ++ sep ∷ (next_from quote sep s).1))
unfolding next_from
next_from_lem quote sep [] = (tt, inl (refl, refl))
next_from_lem quote sep (c ∷ s) = elim (Bool-cases (is_cut quote sep c)) [
  | inl cut ↦ rw cut (tt, inr (ap (λ x. x ∷ s) (is_cut-eq quote sep c cut)))
  | inr keep ↦
      let (clear, parts) = next_from_lem (advance quote c) sep s in
      rw keep ((keep, clear), longer c parts)
]
  where
    longer :
        (c : ℕ) {a b s : Bytes}
        → ((a ≡ s) × (b ≡ [])) ⊎ (s ≡ a ++ sep ∷ b)
        → ((c ∷ a ≡ c ∷ s) × (b ≡ [])) ⊎ (c ∷ s ≡ c ∷ (a ++ sep ∷ b))
    longer c (inl (e, n)) = inl (ap (λ l. c ∷ l) e, n)
    longer c (inr e) = inr (ap (λ l. c ∷ l) e)

abbrev pub join_items : ℕ → List Bytes → Bytes
join_items sep [] = []
join_items sep (x ∷ []) = x
join_items sep (x ∷ y ∷ xs) = x ++ sep ∷ join_items sep (y ∷ xs)

-- The items put together again are the text, but for a separator at its end.
pub Rejoins : ℕ → List Bytes → Bytes → Type 0
Rejoins sep xs s = (join_items sep xs ≡ s) ⊎ (join_items sep xs ++ sep ∷ [] ≡ s)

Rejoins-cons :
    (sep : ℕ) (x y : Bytes) (ys : List Bytes) (rest : Bytes)
    → Rejoins sep (y ∷ ys) rest
    → Rejoins sep (x ∷ y ∷ ys) (x ++ sep ∷ rest)
unfolding Rejoins
Rejoins-cons sep x y ys rest (inl e) = inl (ap (λ l. x ++ sep ∷ l) e)
Rejoins-cons sep x y ys rest (inr e) = inr (append_assoc x _ _ ∙ ap (λ l. x ++ sep ∷ l) e)

-- What is left behind an item is shorter.
rest_shorter :
    (sep c : ℕ) (s item rest : Bytes)
    → ((item ≡ c ∷ s) × (rest ≡ [])) ⊎ (c ∷ s ≡ item ++ sep ∷ rest)
    → length rest ≤ length s
rest_shorter sep c s item rest (inl (whole, nothing)) = rw nothing (omega arith)
rest_shorter sep c s item rest (inr cut) =
    omega (arith, ap length cut, length-append {0} item (sep ∷ rest))

-- The loop from one item on: it ends when nothing is left, and goes on behind the separator else.
rejoin_one :
    (sep fuel c : ℕ) (s item rest : Bytes)
    → ((item ≡ c ∷ s) × (rest ≡ [])) ⊎ (c ∷ s ≡ item ++ sep ∷ rest)
    → length rest ≤ fuel
    → Rejoins sep (items_from fuel sep rest) rest
    → Rejoins sep (item ∷ items_from fuel sep rest) (c ∷ s)
unfolding items_from Rejoins
rejoin_one sep zero c s item rest (inl (whole, nothing)) le h = rw whole (inl refl)
rejoin_one sep (suc fuel) c s item rest (inl (whole, nothing)) le h = rw (whole, nothing) (inl refl)
rejoin_one sep zero c s item [] (inr cut) le h = rw cut (inr refl)
rejoin_one sep (suc fuel) c s item [] (inr cut) le h = rw cut (inr refl)
rejoin_one sep zero c s item (r ∷ rest) (inr cut) le h = absurd (omega arith)
rejoin_one sep (suc fuel) c s item (r ∷ rest) (inr cut) le h = rw cut (
    Rejoins-cons sep item (next_item (r ∷ rest) sep).0
      (items_from fuel sep (next_item (r ∷ rest) sep).1) (r ∷ rest) h)

items_from_lem :
    (fuel : ℕ) (sep : ℕ) (s : Bytes)
    → length s ≤ fuel
    → Rejoins sep (items_from fuel sep s) s × All (HasNoCut outside sep) (items_from fuel sep s)
unfolding items_from Rejoins
items_from_lem zero sep [] le = (inl refl, tt)
items_from_lem (suc fuel) sep [] le = (inl refl, tt)
items_from_lem zero sep (c ∷ s) le = absurd (omega arith)
items_from_lem (suc fuel) sep (c ∷ s) le =
    let (clear, parts) = next_from_lem outside sep (c ∷ s) in
    let rest = (next_from outside sep (c ∷ s)).1 in
    let short : length rest ≤ fuel = omega (arith, rest_shorter sep c s _ _ parts) in
    let (joined, later) = items_from_lem fuel sep rest short in
    (rejoin_one sep fuel c s _ rest parts short joined, (clear, later))

-- The items of a line, as the loops over `nextItem` meet them: put together with separators they are
-- the line, but for one separator at its end, and none holds a separator outside quotes.
pub items_lem :
    (s : Bytes) (sep : ℕ)
    → ((join_items sep (items s sep) ≡ s) ⊎ (join_items sep (items s sep) ++ sep ∷ [] ≡ s))
      × All (HasNoCut outside sep) (items s sep)
unfolding Rejoins
items_lem s sep = items_from_lem (length s) sep s (omega arith)
