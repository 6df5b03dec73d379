-- ===== src/App/Model.antt =====
-- app.go, group.go, route.go: the state of an App while it is set up. A `*Group` is an index into the
-- App's store of groups, so that `Use` on a group reaches every route that was registered on it.
use rice_http.Prelude.{
  ℕ, ◌+◌, Bytes, Bool, true, false, Option, none, some, List, [], ◌∷◌, ◌≡◌, refl,
}
use rice_http.Router.RouteTree.{RouteError}
use rice_http.App.Trees.{Trees}

pub record Group {ℓ} (H : Type ℓ) : Type ℓ where
  pub parent : Option ℕ
  pub prefix : Bytes
  pub mws : List (H → H)

pub record Route {ℓ} (H : Type ℓ) : Type ℓ where
  pub method : Bytes
  pub path : Bytes
  pub h : H
  pub group : Option ℕ
  pub mws : List (H → H)

-- `routeEntry`
pub record Entry {ℓ} (H : Type ℓ) : Type ℓ where
  pub h : H
  pub pattern : Bytes

pub record App {ℓ} (H : Type ℓ) : Type ℓ where
  pub trees : Trees (Entry H)
  pub mws : List (H → H)
  pub routes : List (Route H)
  pub groups : List (Group H)
  -- Whether `buildOnce` has fired.
  pub once : Bool
  pub built : Bool
  pub miss : H
  pub max_params : ℕ

pub data Panic : Type 0 where
  nil_middleware : ℕ → Panic
  after_build empty_method lowercase_method nil_handler : Panic
  bad_route : RouteError → Panic
  prefix_without_slash prefix_ends_in_slash empty_group_path path_without_slash : Panic
  nil_group : Panic
  build_failed : RouteError → Bytes → Bytes → Panic

pub data Result {ℓ} (A : Type ℓ) : Type ℓ where
  ok : A → Result A
  panic : Panic → Result A

infixl 5 ◌>>=◌ ◌>>◌
abbrev pub ◌>>=◌ {ℓ κ} : {A : Type ℓ} {B : Type κ} → Result A → (A → Result B) → Result B
ok a >>= f = f a
panic e >>= f = panic e

abbrev pub ◌>>◌ {ℓ} : {B : Type ℓ} → Result (Unit {0}) → Result B → Result B
m >> k = m >>= λ _. k

abbrev pub refuse : Bool → Panic → Result (Unit {0})
refuse true e = panic e
refuse false e = ok tt

module _ {ℓ} {H : Type ℓ} where
  -- `checkMiddleware`, from index `i` on: the list without its nils.
  unfoldable pub check_from : ℕ → List (Option (H → H)) → Result (List (H → H))
  check_from i [] = ok []
  check_from i (none ∷ mws) = panic (nil_middleware i)
  check_from i (some mw ∷ mws) = do rest ← check_from (i + 1) mws; ok (mw ∷ rest)

  abbrev pub check_middleware : List (Option (H → H)) → Result (List (H → H))
  check_middleware mws = check_from 0 mws

-- A chain that succeeds has gone on from its first step.
pub went_on {ℓ κ} :
    {A : Type ℓ} {B : Type κ} {next : A → Result B} {b : B} (first : Result A)
    → (first >>= next) ≡ ok b
    → (a : A) × (next a ≡ ok b) × (first ≡ ok a)
went_on (panic e) h = cc
went_on (ok a) h = (a, h, refl)

pub went_past {ℓ} :
    {B : Type ℓ} {rest : Result B} {b : B} (test : Bool) (e : Panic)
    → (refuse test e >> rest) ≡ ok b
    → (rest ≡ ok b) × (test ≡ false)
went_past true e h = cc
went_past false e h = (h, refl)

pub ok_injective {ℓ} : {A : Type ℓ} {x y : A} → ok x ≡ ok y → x ≡ y
ok_injective h = cc
