-- ===== src/Accept/Vary.antt =====
-- ctx_accept.go: the Vary header after `Accepts`.
use rice_http.Prelude.{
  Bytes, codes, true, false, ◌||◌, List, [], ◌∷◌, ◌++◌, ◌≡◌, ◌⊎◌, inl, inr, refl, ap, arith,
  Bool-cases, bytes_eq, append_assoc, ◌∙◌, sym,
}
use rice_http.Accept.{
  lists_accept, add_vary_accept, elements, items_from, next_from, is_cut, advance, trim_ows,
  trim_left, trim_right, is_star, equal_fold_ascii, items,
}

lists_accept-append :
    (xs ys : List Bytes) → lists_accept (xs ++ ys) ≡ (lists_accept xs || lists_accept ys)
unfolding lists_accept
lists_accept-append [] ys = refl
lists_accept-append (x ∷ xs) ys = ground (arith, lists_accept-append xs ys)

elements-append : (xs ys : List Bytes) → elements (xs ++ ys) ≡ elements xs ++ elements ys
unfolding elements
elements-append [] ys = refl
elements-append (x ∷ xs) ys =
    ap (λ l. items x b',' ++ l) (elements-append xs ys)
    ∙ sym (append_assoc (items x b',') (elements xs) (elements ys))

own_line : lists_accept (elements (codes "Accept" ∷ [])) ≡ true
unfolding lists_accept elements items_from next_from is_cut advance trim_ows trim_left trim_right
    is_star equal_fold_ascii bytes_eq
own_line = refl

listed_now :
    (vary : List Bytes)
    → lists_accept (elements vary) ≡ false
    → lists_accept (elements (vary ++ codes "Accept" ∷ [])) ≡ true
listed_now vary missing =
    ap lists_accept (elements-append vary (codes "Accept" ∷ []))
    ∙ lists_accept-append (elements vary) _
    ∙ rw (missing, own_line) refl

-- After `addVaryAccept` the Vary lines list Accept or *; the lines that were there are kept, and a
-- second call adds nothing.
pub add_vary_accept_lem :
    (vary : List Bytes)
    → (lists_accept (elements (add_vary_accept vary)) ≡ true)
      × ((add_vary_accept vary ≡ vary) ⊎ (add_vary_accept vary ≡ vary ++ codes "Accept" ∷ []))
      × (add_vary_accept (add_vary_accept vary) ≡ add_vary_accept vary)
unfolding add_vary_accept
add_vary_accept_lem vary = elim (Bool-cases (lists_accept (elements vary))) [
  | inl listed ↦ rw listed (listed, inl refl, rw listed refl)
  | inr missing ↦ let now = listed_now vary missing in rw missing (now, inr refl, rw now)
]
