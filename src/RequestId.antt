-- ===== src/RequestId.antt =====
-- middleware/requestid.go: the id of a request. The random bytes, in hexadecimal, are an argument, as
-- is the address of the key.
use rice_http.Prelude.{
  ℕ, ◌≤◌, Bytes, codes, Bool, true, false, ◌&&◌, ◌||◌, Option, none, some, [], ◌∷◌, ◌==◌, ◌≡◌, ◌⊎◌,
  inl, inr, refl, leb, ltb, length, arith, All, Bool-cases, if◌then◌else◌,
}
use rice_http.Ctx.{Ctx, key_get}
use rice_http.Request.{Prog, put}
use rice_http.Respond.{set_header}

abbrev pub id_byte : ℕ → Bool
id_byte b =
    (leb 97 b && leb b 122)
    || (leb 65 b && leb b 90)
    || (leb 48 b && leb b 57)
    || b == 45
    || b == 95

unfoldable pub all_id_bytes : Bytes → Bool
all_id_bytes [] = true
all_id_bytes (b ∷ bs) = id_byte b && all_id_bytes bs

unfoldable pub valid_request_id : Bytes → Bool
valid_request_id id = if length id == 0 || ltb 64 (length id) then false else all_id_bytes id

abbrev pub request_id_header : Bytes
request_id_header = codes "X-Request-Id"

abbrev pub chosen_id : Bytes → Bytes → Bytes
chosen_id incoming new_id = if valid_request_id incoming then incoming else new_id

-- The handler of `RequestID`, of a request with this header, in front of the next one.
unfoldable pub request_id : ℕ → Bytes → Bytes → Prog Bytes → Prog Bytes
request_id key incoming new_id next =
    let id = chosen_id incoming new_id in put key (some id) (set_header request_id_header id next)

abbrev pub or_no_id : Option (Option Bytes × Bool) → Option Bytes
or_no_id none = none
or_no_id (some (none, b)) = some []
or_no_id (some (some id, b)) = some id

-- `RequestIDFrom`; `none` is the panic of a released context.
unfoldable pub request_id_from : ℕ → Ctx Bytes → Option Bytes
request_id_from key c = or_no_id (key_get (some key) c)

all_id_bytes-All : (id : Bytes) → all_id_bytes id ≡ true → All (λ b. id_byte b ≡ true) id
unfolding all_id_bytes
all_id_bytes-All [] h = tt
all_id_bytes-All (b ∷ bs) h =
    let (here, rest) = both (id_byte b) (all_id_bytes bs) h in (here, all_id_bytes-All bs rest)
  where
    both : (x y : Bool) → (x && y) ≡ true → (x ≡ true) × (y ≡ true)
    both true y h = (refl, h)
    both false y h = cc

-- The id that a request gets is the client's own only if that has from 1 to 64 bytes, each a letter, a
-- digit, '-' or '_'; otherwise it is the new one.
pub chosen_id-incoming :
    (incoming new_id : Bytes)
    → ((chosen_id incoming new_id ≡ incoming)
        × (1 ≤ length incoming)
        × (length incoming ≤ 64)
        × All (λ b. id_byte b ≡ true) incoming)
      ⊎ (chosen_id incoming new_id ≡ new_id)
unfolding valid_request_id
chosen_id-incoming incoming new_id =
    elim (Bool-cases (length incoming == 0 || ltb 64 (length incoming))) [
      | inl bad ↦ inr (rw bad refl)
      | inr fine ↦ elim (Bool-cases (all_id_bytes incoming)) [
        | inl good ↦ inl (
          rw (fine, good) refl,
          ground (arith, fine),
          ground (arith, fine),
          all_id_bytes-All incoming good,
        )
        | inr other ↦ inr (rw (fine, other) refl)
      ]
    ]
