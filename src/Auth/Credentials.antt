-- ===== src/Auth/Credentials.antt =====
-- middleware/basicauth.go, keyauth.go: which requests reach the next handler.
use rice_http.Prelude.{
  ℕ, Bytes, codes, Bool, true, false, Option, none, some, [], ◌∷◌, ◌++◌, ◌==◌, ◌≡◌, ◌≢◌, ◌⊎◌, inl,
  inr, refl, ◌∙◌, ap, Bool-cases, Option-cases, arith, ==_iff, All,
}
use rice_http.Accept.{cut_at, trim_ows}
use rice_http.Auth.{
  Validation, accepted, rejected, failed, unauthorized, next, conclude, basic_auth, key_value,
  key_auth, cut_scheme,
}
use rice_http.Auth.Scheme.{IsCut, cut_scheme-IsCut}

cut_at_parts :
    (c : ℕ) (s a b : Bytes) → cut_at c s ≡ some (a, b) → (s ≡ a ++ c ∷ b) × All (λ x. x ≢ c) a
unfolding cut_at
cut_at_parts c [] a b h = cc
cut_at_parts c (d ∷ s) a b h = elim (Bool-cases (d == c)) [
  | inl here ↦
      let (ea, eb) = pair_eq (rw here at h) in
      rw (← ea, ← eb) (ap (λ x. x ∷ s) ((==_iff d c).0 here), tt)
  | inr there ↦ elim (Option-cases (cut_at c s)) [
    | inl none_ ↦ absurd (none_some (rw (there, none_) at h))
    | inr ((a', b'), found) ↦
        let (ea, eb) = pair_eq (rw (there, found) at h) in
        let (e, off) = cut_at_parts c s a' b' found in
        rw (← ea, ← eb) (ap (λ x. d ∷ x) e, ((λ same. ground arith), off))
  ]
]
  where
    pair_eq :
        {x y p q : Bytes}
        → ◌≡◌ {A = Option (Bytes × Bytes)} (some (x, y)) (some (p, q))
        → (x ≡ p) × (y ≡ q)
    pair_eq e = (cc, cc)

    none_some : {p q : Bytes} → ◌≡◌ {A = Option (Bytes × Bytes)} none (some (p, q)) → ⊥
    none_some e = cc

module _ {T : Type 0} where
  not_next : {ch : Bytes} {id : T} → unauthorized ch ≡ next id → ⊥
  not_next e = cc

  conclude_next :
      (ch : Bytes) (v : Validation T) (id : T) → conclude ch v ≡ next id → v ≡ accepted id
  conclude_next ch (accepted x) id e = cc
  conclude_next ch rejected id e = cc
  conclude_next ch failed id e = cc

  -- The user and the password that an Authorization value carries, accepted as `id`.
  pub record IsLogin (decode : Bytes → Option Bytes) (validate : Bytes → Bytes → Validation T)
      (v : Bytes) (id : T) : Type 0 where
    pub enc : Bytes
    pub user : Bytes
    pub password : Bytes
    pub cut : IsCut v (codes "Basic") enc
    pub decoded : decode (trim_ows enc) ≡ some (user ++ b':' ∷ password)
    pub no_colon : All (λ c. c ≢ b':') user
    pub validated : validate user password ≡ accepted id

  -- BasicAuth calls the next handler only behind the scheme Basic, with credentials that decode to a
  -- user without a colon, a colon and a password, that Validate accepts, and with the identity that
  -- Validate returned.
  pub basic_auth-IsLogin :
      (challenge : Bytes) (decode : Bytes → Option Bytes) (validate : Bytes → Bytes → Validation T)
      (v : Bytes) (id : T)
      → basic_auth challenge decode validate v ≡ next id
      → IsLogin decode validate v id
  unfolding basic_auth
  basic_auth-IsLogin challenge decode validate v id h =
      elim (Option-cases (cut_scheme v (codes "Basic"))) [
        | inl none_ ↦ absurd (not_next (rw none_ at h))
        | inr (enc, cut) ↦ elim (Option-cases (decode (trim_ows enc))) [
          | inl none_ ↦ absurd (not_next (rw (cut, none_) at h))
          | inr (creds, dec) ↦ elim (Option-cases (cut_at b':' creds)) [
            | inl none_ ↦ absurd (not_next (rw (cut, dec, none_) at h))
            | inr ((user, password), split) ↦
                let (e, off) = cut_at_parts b':' creds user password split in
                record {
                  enc = enc;
                  user = user;
                  password = password;
                  cut = cut_scheme-IsCut v (codes "Basic") enc cut;
                  decoded = dec ∙ ap some e;
                  no_colon = off;
                  validated = conclude_next challenge _ id (rw (cut, dec, split) at h);
                }
          ]
        ]
      ]

  key_value_next :
      (ch : Bytes) (validate : Bytes → Validation T) (k : Bytes) (id : T)
      → key_value ch validate k ≡ next id
      → (k ≢ []) × (validate k ≡ accepted id)
  key_value_next ch validate [] id h = cc
  key_value_next ch validate (c ∷ v) id h = ((λ e. cc), conclude_next ch _ id h)

  -- KeyAuth calls the next handler only with a key that is not empty and that Validate accepts: what
  -- the header holds, for Authorization behind the scheme Bearer, without white space at its ends.
  pub key_auth_lem :
      (bearer : Bool) (validate : Bytes → Validation T) (v : Bytes) (id : T)
      → key_auth bearer validate v ≡ next id
      → (x : Bytes) × (((bearer ≡ true) × IsCut v (codes "Bearer") x)
          ⊎ ((bearer ≡ false) × (x ≡ v)))
        × (trim_ows x ≢ [])
        × (validate (trim_ows x) ≡ accepted id)
  unfolding key_auth
  key_auth_lem false validate v id h =
      let (some_, ok_) = key_value_next [] validate (trim_ows v) id h in
      (v, inr (refl, refl), some_, ok_)
  key_auth_lem true validate v id h = elim (Option-cases (cut_scheme v (codes "Bearer"))) [
    | inl none_ ↦ absurd (not_next (rw none_ at h))
    | inr (x, cut) ↦
        let (some_, ok_) = key_value_next (codes "Bearer") validate (trim_ows x) id (rw cut at h) in
        (x, inl (refl, cut_scheme-IsCut v (codes "Bearer") x cut), some_, ok_)
  ]
