-- ===== src/Auth/Scheme.antt =====
-- middleware/auth.go: cutting the scheme off an Authorization value.
use rice_http.Prelude.{
  Bytes, Bool, true, false, none, some, [], ◌∷◌, ◌++◌, ◌==◌, ◌≡◌, ◌≢◌, refl, sym, ◌∙◌, ap, length,
  take, drop, take-append-drop, take-length-append, Bool-cases, inl, inr, arith, ==_iff, All,
}
use rice_http.Accept.{equal_fold_ascii}
use rice_http.Auth.{drop_spaces, behind_scheme, cut_scheme}

abbrev pub AtText : Bytes → Type 0
AtText [] = Unit
AtText (c ∷ s) = c ≢ b' '

-- A value in its three parts.
pub record IsCut (v scheme rest : Bytes) : Type 0 where
  pub name : Bytes
  pub spaces : Bytes
  pub parts : v ≡ name ++ (b' ' ∷ (spaces ++ rest))
  pub folds : equal_fold_ascii name scheme ≡ true
  pub blank : All (λ c. c ≡ b' ') spaces
  pub begins : AtText rest

drop_spaces_parts :
    (s : Bytes)
    → (spaces : Bytes) × (s ≡ spaces ++ drop_spaces s)
      × All (λ c. c ≡ b' ') spaces
      × AtText (drop_spaces s)
unfolding drop_spaces
drop_spaces_parts [] = ([], refl, tt, tt)
drop_spaces_parts (c ∷ s) = elim (Bool-cases (c == b' ')) [
  | inl sp ↦
      let (spaces, e, all, at) = drop_spaces_parts s in
      rw sp (c ∷ spaces, ap (λ r. c ∷ r) e, ((==_iff c _).0 sp, all), at)
  | inr text ↦ rw text ([], refl, tt, ground arith)
]

behind_scheme_parts :
    (same : Bool) (s rest : Bytes)
    → behind_scheme same s ≡ some rest
    → (same ≡ true) × (r : Bytes) × (s ≡ b' ' ∷ r) × (rest ≡ drop_spaces r)
unfolding behind_scheme drop_spaces
behind_scheme_parts same [] rest h = cc
behind_scheme_parts true (c ∷ r) rest h = elim (Bool-cases (c == b' ')) [
  | inl sp ↦ (refl, r, ap (λ d. d ∷ r) ((==_iff c _).0 sp), some_eq (rw sp at h))
  | inr other ↦ absurd (none_some (rw other at h))
]
  where
    some_eq : {a b : Bytes} → some a ≡ some b → b ≡ a
    some_eq e = cc

    none_some : {b : Bytes} → none ≡ some b → ⊥
    none_some e = cc
behind_scheme_parts false (c ∷ r) rest h = ground arith

-- A value that is cut is the scheme, in any case, one space or more, and the rest, which does not
-- begin with a space.
pub cut_scheme-IsCut :
    (v scheme rest : Bytes) → cut_scheme v scheme ≡ some rest → IsCut v scheme rest
unfolding cut_scheme
cut_scheme-IsCut v scheme rest h =
    let (same, r, e, er) = behind_scheme_parts _ (drop (length scheme) v) rest h in
    let (spaces, parts, all, at) = drop_spaces_parts r in
    let tail : drop (length scheme) v ≡ b' ' ∷ (spaces ++ rest) =
      e ∙ ap (λ (x : Bytes). b' ' ∷ x) (parts ∙ ap (λ (d : Bytes). spaces ++ d) (sym er)) in
    record {
      name = take (length scheme) v;
      spaces = spaces;
      parts =
          sym (take-append-drop (length scheme) v)
          ∙ ap (λ (d : Bytes). take (length scheme) v ++ d) tail;
      folds = same;
      blank = all;
      begins = rw er at;
    }

fold_length : (s scheme : Bytes) → equal_fold_ascii s scheme ≡ true → length s ≡ length scheme
unfolding equal_fold_ascii
fold_length [] [] h = refl
fold_length [] (b ∷ t) h = cc
fold_length (a ∷ s) [] h = cc
fold_length (a ∷ s) (b ∷ t) h = ground (arith, fold_length s t)

drop-length-append : (s t : Bytes) → drop (length s) (s ++ t) ≡ t
drop-length-append [] t = refl
drop-length-append (a ∷ s) t = drop-length-append s t

-- The scheme in any case, a space and anything are cut behind the spaces.
pub cut_scheme-append :
    (name scheme r : Bytes)
    → equal_fold_ascii name scheme ≡ true
    → cut_scheme (name ++ b' ' ∷ r) scheme ≡ some (drop_spaces r)
unfolding cut_scheme behind_scheme drop_spaces
cut_scheme-append name scheme r folds =
    rw
      (
        ← fold_length name scheme folds,
        take-length-append name (b' ' ∷ r),
        drop-length-append name (b' ' ∷ r),
        folds,
      )
      refl
