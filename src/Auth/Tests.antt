-- ===== src/Auth/Tests.antt =====
-- Credentials run on header values, and the instances of the theorems.
use rice_http.Prelude.{
  ℕ, Bytes, codes, Bool, true, false, Option, some, [], ◌∷◌, ◌++◌, ◌≡◌, ◌≢◌, ◌⊎◌, refl, bytes_eq,
  if◌then◌else◌,
}
use rice_http.Accept.{trim_ows, trim_left, trim_right, equal_fold_ascii, cut_at}
use rice_http.Auth.{
  Validation, accepted, rejected, next, unauthorized, basic_auth, key_auth, cut_scheme,
  behind_scheme, drop_spaces, is_token, all_token_bytes, is_token_byte, valid_realm, basic_config,
  key_config, panics, authorization_header, bad_realm, bad_header,
}
use rice_http.Auth.Scheme.{IsCut, cut_scheme-append}
use rice_http.Auth.Credentials.{IsLogin, basic_auth-IsLogin, key_auth_lem}

auth : Unit {0}
unfolding trim_ows trim_left trim_right equal_fold_ascii cut_at basic_auth key_auth cut_scheme
    behind_scheme drop_spaces is_token all_token_bytes is_token_byte valid_realm basic_config
    key_config bytes_eq
auth = tt

-- A decoder that hands its input through, and a check of one user.
abbrev plain : Bytes → Option Bytes
plain s = some s

abbrev only_ann : Bytes → Bytes → Validation ℕ
only_ann user password = if bytes_eq user (codes "ann") then accepted 5 else rejected

abbrev any_key : Bytes → Validation ℕ
any_key k = accepted 9

logged_in : basic_auth (codes "c") plain only_ann (codes "bASIC  ann:x:y ") ≡ next 5
unfolding auth
logged_in = refl

keyed : key_auth true any_key (codes "Bearer  k ") ≡ next 9
unfolding auth
keyed = refl

more_tests :
    (basic_auth (codes "c") plain only_ann (codes "Basic ann") ≡ unauthorized (codes "c"))
    × (basic_auth (codes "c") plain only_ann (codes "Basicann:x") ≡ unauthorized (codes "c"))
    × (key_auth false any_key (codes "  ") ≡ unauthorized [])
    × (key_config true true (codes "authorization") ≡ panics authorization_header)
    × (key_config true true (codes "X Key") ≡ panics bad_header)
    × (basic_config true true (codes "a\"b") ≡ panics bad_realm)
unfolding auth
more_tests = (refl, refl, refl, refl, refl, refl)

folds : equal_fold_ascii (codes "BEARER") (codes "Bearer") ≡ true
unfolding auth
folds = refl

cut_scheme-append_example :
    cut_scheme (codes "BEARER" ++ b' ' ∷ codes " k") (codes "Bearer")
    ≡ some (drop_spaces (codes " k"))
cut_scheme-append_example = cut_scheme-append (codes "BEARER") (codes "Bearer") (codes " k") folds

basic_auth-IsLogin_example : IsLogin plain only_ann (codes "bASIC  ann:x:y ") 5
basic_auth-IsLogin_example =
    basic_auth-IsLogin (codes "c") plain only_ann (codes "bASIC  ann:x:y ") 5 logged_in

key_auth_lem_example :
    (x : Bytes) × (((◌≡◌ {A = Bool} true true) × IsCut (codes "Bearer  k ") (codes "Bearer") x)
      ⊎ ((◌≡◌ {A = Bool} true false) × (x ≡ codes "Bearer  k ")))
    × (trim_ows x ≢ [])
    × (any_key (trim_ows x) ≡ accepted 9)
key_auth_lem_example = key_auth_lem true any_key (codes "Bearer  k ") 9 keyed
