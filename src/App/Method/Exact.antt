-- ===== src/App/Method/Exact.antt =====
-- method.go: the slots of the common verbs against the verbs' names.
use rice_http.Prelude.{
  ℕ, zero, suc, Bytes, codes, Option, none, some, ◌==◌, bytes_eq, bytes_eq_iff, if◌then◌else◌,
  length, ◌≡◌, ◌↔◌, List, [], ◌∷◌, get_elem?, Bool-cases, inl, inr, refl,
}
use rice_http.App.Method.{method_index}

-- The verbs in the order of the constants.
abbrev pub verbs : List Bytes
verbs =
    codes "GET"
    ∷ codes "POST"
    ∷ codes "PUT"
    ∷ codes "PATCH"
    ∷ codes "DELETE"
    ∷ codes "HEAD"
    ∷ codes "OPTIONS"
    ∷ []

-- One test of the switch: a verb that it accepts is the constant's.
arm :
    (m v : Bytes) (j i : ℕ) (rest : Option ℕ)
    → get_elem? verbs j ≡ some v
    → (rest ≡ some i → get_elem? verbs i ≡ some m)
    → (if bytes_eq m v then some j else rest) ≡ some i
    → get_elem? verbs i ≡ some m
arm m v j i rest is_at other h = elim (Bool-cases (bytes_eq m v)) [
  | inl same ↦
      let here : some j ≡ some i = rw same at h in
      let ji : j ≡ i = cc in rw (← ji, (bytes_eq_iff m v).0 same) is_at
  | inr differs ↦ other (rw differs at h)
]

of_length :
    (a b : ℕ) (i : ℕ) (x y : Option ℕ) (P : Type 0)
    → (x ≡ some i → P)
    → (y ≡ some i → P)
    → (if a == b then x else y) ≡ some i
    → P
of_length a b i x y P f g h = elim (Bool-cases (a == b)) [
  | inl same ↦ f (rw same at h)
  | inr differs ↦ g (rw differs at h)
]

no_verb : (m : Bytes) (i : ℕ) → none ≡ some i → get_elem? verbs i ≡ some m
no_verb m i e = cc

method_index_sound : (m : Bytes) (i : ℕ) → method_index m ≡ some i → get_elem? verbs i ≡ some m
unfolding method_index
method_index_sound m i h =
    let last = no_verb m i in
    of_length (length m) 3 i _ _ _ (arm m _ 0 i _ refl (arm m _ 2 i _ refl last))
      (of_length (length m) 4 i _ _ _ (arm m _ 1 i _ refl (arm m _ 5 i _ refl last)) (
        of_length (length m) 5 i _ _ _ (arm m _ 3 i _ refl last) (
          of_length (length m) 6 i _ _ _ (arm m _ 4 i _ refl last)
            (of_length (length m) 7 i _ _ _ (arm m _ 6 i _ refl last) last))))
      h

index_of_verb :
    (v : Bytes) (i : ℕ) (m : Bytes)
    → method_index v ≡ some i
    → some v ≡ some m
    → method_index m ≡ some i
index_of_verb v i m known e = let same : v ≡ m = cc in rw same at known

method_index_complete : (m : Bytes) (i : ℕ) → get_elem? verbs i ≡ some m → method_index m ≡ some i
unfolding method_index bytes_eq
method_index_complete m zero e = index_of_verb (codes "GET") 0 m refl e
method_index_complete m (suc zero) e = index_of_verb (codes "POST") 1 m refl e
method_index_complete m (suc (suc zero)) e = index_of_verb (codes "PUT") 2 m refl e
method_index_complete m (suc (suc (suc zero))) e = index_of_verb (codes "PATCH") 3 m refl e
method_index_complete m (suc (suc (suc (suc zero)))) e = index_of_verb (codes "DELETE") 4 m refl e
method_index_complete m (suc (suc (suc (suc (suc zero))))) e =
    index_of_verb (codes "HEAD") 5 m refl e
method_index_complete m (suc (suc (suc (suc (suc (suc zero)))))) e =
    index_of_verb (codes "OPTIONS") 6 m refl e
method_index_complete m (suc (suc (suc (suc (suc (suc (suc i))))))) e = cc

-- A method has slot `i` exactly when it is the verb of the `i`-th constant, and no slot when it is
-- none of the seven.
pub method_index_lem :
    (m : Bytes) (i : ℕ) → (method_index m ≡ some i) ↔ (get_elem? verbs i ≡ some m)
method_index_lem m i = (method_index_sound m i, method_index_complete m i)
