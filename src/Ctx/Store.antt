-- ===== src/Ctx/Store.antt =====
-- ctx_store.go: the keyed store of a request.
use rice_http.Prelude.{
  ℕ, true, false, Option, some, List, [], ◌∷◌, ◌==◌, ◌≡◌, ◌≢◌, refl, arith, if◌then◌else◌, All,
  Bool-cases, inl, inr,
}
use rice_http.Ctx.{Slot, Ctx, set_slot, get_slot, key_set, key_get, set}

module _ {V : Type 0} where
  get_slot-set_slot :
      (i j : ℕ) (v : Option V) (ss : List (Slot V))
      → get_slot j (set_slot i v ss) ≡ (if i == j then some v else get_slot j ss)
  unfolding get_slot set_slot
  get_slot-set_slot i j v [] = refl
  get_slot-set_slot i j v (s ∷ ss) = ground (arith, get_slot-set_slot i j v ss)

  -- A key of a context that is in use reads back what was set under it last, and setting one key
  -- leaves every other as it was.
  pub key_get-key_set :
      (i j : ℕ) (v : Option V) (c : Ctx V)
      → c.released ≡ false
      → (d : Ctx V) × (key_set (some i) v c ≡ some d)
        × (key_get (some i) d ≡ some (v, true))
        × (i ≢ j → key_get (some j) d ≡ key_get (some j) c)
  unfolding key_set key_get
  key_get-key_set i j v c live = (
    set i v c,
    rw live refl,
    rw (live, get_slot-set_slot i i v c.store) (ground arith),
    λ off. rw (live, get_slot-set_slot i j v c.store) (ground arith),
  )

  abbrev HasNoKey : ℕ → List (Slot V) → Type 0
  HasNoKey id ss = All (λ s. s.key ≢ id) ss

  -- No key has two slots.
  abbrev pub IsDistinct : List (Slot V) → Type 0
  IsDistinct [] = Unit
  IsDistinct (s ∷ ss) = HasNoKey s.key ss × IsDistinct ss

  set_slot-HasNoKey :
      (i id : ℕ) (v : Option V) (ss : List (Slot V))
      → i ≢ id
      → HasNoKey id ss
      → HasNoKey id (set_slot i v ss)
  unfolding set_slot
  set_slot-HasNoKey i id v [] off n = (off, tt)
  set_slot-HasNoKey i id v (s ∷ ss) off (n, ns) = elim (Bool-cases (s.key == i)) [
    | inl same ↦ rw same (n, ns)
    | inr other ↦ rw other (n, set_slot-HasNoKey i id v ss off ns)
  ]

  -- `Set` keeps one slot for each key.
  pub set_slot-IsDistinct :
      (i : ℕ) (v : Option V) (ss : List (Slot V)) → IsDistinct ss → IsDistinct (set_slot i v ss)
  unfolding set_slot
  set_slot-IsDistinct i v [] d = (tt, tt)
  set_slot-IsDistinct i v (s ∷ ss) (n, ds) = elim (Bool-cases (s.key == i)) [
    | inl same ↦ rw same (n, ds)
    | inr other ↦
        rw other (set_slot-HasNoKey i s.key v ss (ground arith) n, set_slot-IsDistinct i v ss ds)
  ]
