-- ===== src/Ctx/Tests.antt =====
-- Contexts used, and the instances of the theorems.
use rice_http.Prelude.{ℕ, Bytes, codes, true, some, [], ◌∷◌, ◌≡◌, ◌≢◌, refl}
use rice_http.Ctx.{Ctx, key_set, key_get}
use rice_http.Ctx.Store.{key_get-key_set}
use rice_http.Ctx.Pool.{clean}

abbrev one_key : Ctx Bytes
one_key = record clean {
  store = record { key = 3; val = some (codes "v") } ∷ [];
  route = codes "/";
}

key_get-key_set_example :
    (d : Ctx Bytes) × (key_set (some 7) (some (codes "w")) one_key ≡ some d)
    × (key_get (some 7) d ≡ some (some (codes "w"), true))
    × (◌≢◌ {A = ℕ} 7 3 → key_get (some 3) d ≡ key_get (some 3) one_key)
key_get-key_set_example = key_get-key_set 7 3 (some (codes "w")) one_key refl
