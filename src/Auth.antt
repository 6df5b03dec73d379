-- ===== src/Auth.antt =====
-- middleware/auth.go, basicauth.go, keyauth.go: the credentials of a request. base64 decoding and
-- `Validate` are arguments. auth.go has its own copies of `trimOWS` and `equalFoldASCII`, the same
-- code as in ctx_accept.go, whose definitions are used here.
pub mod Scheme
pub mod Credentials
mod Tests
use rice_http.Prelude.{
  ℕ, Bytes, codes, Bool, true, false, not, ◌&&◌, ◌||◌, Option, none, some, List, [], ◌∷◌, ◌++◌,
  ◌==◌, ltb, leb, bytes_eq, if◌then◌else◌, length, take, drop,
}
use rice_http.Accept.{trim_ows, equal_fold_ascii, cut_at}

unfoldable pub drop_spaces : Bytes → Bytes
drop_spaces [] = []
drop_spaces (c ∷ s) = if c == b' ' then drop_spaces s else c ∷ s

-- `cutScheme` behind the scheme: what is left of the value there.
unfoldable pub behind_scheme : Bool → Bytes → Option Bytes
behind_scheme same [] = none
behind_scheme same (c ∷ rest) =
    if not (c == b' ') || not same then none else some (drop_spaces (c ∷ rest))

unfoldable pub cut_scheme : Bytes → Bytes → Option Bytes
cut_scheme v scheme =
    behind_scheme (equal_fold_ascii (take (length scheme) v) scheme) (drop (length scheme) v)

unfoldable pub is_token_byte : ℕ → Bool
is_token_byte c =
    leb b'a' c && leb c b'z'
    || leb b'A' c && leb c b'Z'
    || leb b'0' c && leb c b'9'
    || c == b'!'
    || c == b'#'
    || c == b'$'
    || c == b'%'
    || c == b'&'
    || c == b'\''
    || c == b'*'
    || c == b'+'
    || c == b'-'
    || c == b'.'
    || c == b'^'
    || c == b'_'
    || c == b'`'
    || c == b'|'
    || c == b'~'

unfoldable pub all_token_bytes : Bytes → Bool
all_token_bytes [] = true
all_token_bytes (c ∷ s) = is_token_byte c && all_token_bytes s

unfoldable pub is_token : Bytes → Bool
is_token s = not (bytes_eq s []) && all_token_bytes s

unfoldable pub valid_realm : Bytes → Bool
valid_realm [] = true
valid_realm (c ∷ s) = not (c == b'"' || c == b'\\' || ltb c 32 || c == 127) && valid_realm s

-- What `Validate` returns.
pub data Validation (T : Type 0) : Type 0 where
  accepted : T → Validation T
  rejected failed : Validation T

-- What the middleware does: the challenge with 401, the error of `Validate`, or the next handler with
-- the identity stored.
pub data Reply (T : Type 0) : Type 0 where
  unauthorized : Bytes → Reply T
  validate_failed : Reply T
  next : T → Reply T

module _ {T : Type 0} where
  abbrev pub conclude : Bytes → Validation T → Reply T
  conclude challenge (accepted id) = next id
  conclude challenge rejected = unauthorized challenge
  conclude challenge failed = validate_failed

  abbrev pub basic_pair : Bytes → (Bytes → Bytes → Validation T) → Option (Bytes × Bytes) → Reply T
  basic_pair challenge validate none = unauthorized challenge
  basic_pair challenge validate (some (user, password)) =
      conclude challenge (validate user password)

  abbrev pub basic_decoded : Bytes → (Bytes → Bytes → Validation T) → Option Bytes → Reply T
  basic_decoded challenge validate none = unauthorized challenge
  basic_decoded challenge validate (some creds) = basic_pair challenge validate (cut_at b':' creds)

  abbrev pub basic_encoded :
      Bytes → (Bytes → Option Bytes) → (Bytes → Bytes → Validation T) → Option Bytes → Reply T
  basic_encoded challenge decode validate none = unauthorized challenge
  basic_encoded challenge decode validate (some enc) =
      basic_decoded challenge validate (decode (trim_ows enc))

  -- The handler of `BasicAuth`, on the value of the Authorization header.
  unfoldable pub basic_auth :
      Bytes → (Bytes → Option Bytes) → (Bytes → Bytes → Validation T) → Bytes → Reply T
  basic_auth challenge decode validate authorization =
      basic_encoded challenge decode validate (cut_scheme authorization (codes "Basic"))

  abbrev pub key_value : Bytes → (Bytes → Validation T) → Bytes → Reply T
  key_value challenge validate [] = unauthorized challenge
  key_value challenge validate (c ∷ v) = conclude challenge (validate (c ∷ v))

  abbrev pub key_found : Bytes → (Bytes → Validation T) → Option Bytes → Reply T
  key_found challenge validate none = unauthorized challenge
  key_found challenge validate (some v) = key_value challenge validate (trim_ows v)

  -- The handler of `KeyAuth`, on the value of its header; `bearer` if that is Authorization.
  unfoldable pub key_auth : Bool → (Bytes → Validation T) → Bytes → Reply T
  key_auth bearer validate v =
      if bearer
      then key_found (codes "Bearer") validate (cut_scheme v (codes "Bearer"))
      else key_found [] validate (some v)

pub data ConfigError : Type 0 where
  validate_nil zero_key bad_realm bad_header authorization_header : ConfigError

-- The checks of `BasicAuth` before it returns a middleware: the challenge, or the panic.
pub data Checked : Type 0 where
  challenge : Bytes → Checked
  panics : ConfigError → Checked

unfoldable pub basic_config : Bool → Bool → Bytes → Checked
basic_config has_validate has_key realm =
    let name = (if bytes_eq realm [] then codes "Restricted" else realm) in
    if not has_validate
    then panics validate_nil
    else if not has_key
    then panics zero_key
    else if not (valid_realm name)
    then panics bad_realm
    else challenge (codes "Basic realm=\"" ++ (name ++ codes "\", charset=\"UTF-8\""))

-- Those of `KeyAuth`: the header to read, or the panic.
unfoldable pub key_config : Bool → Bool → Bytes → Checked
key_config has_validate has_key header =
    if not has_validate
    then panics validate_nil
    else if not has_key
    then panics zero_key
    else if not (bytes_eq header []) && not (is_token header)
    then panics bad_header
    else if equal_fold_ascii header (codes "Authorization")
    then panics authorization_header
    else if bytes_eq header []
    then challenge (codes "Bearer")
    else challenge []
