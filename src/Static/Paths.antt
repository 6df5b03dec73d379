-- ===== src/Static/Paths.antt =====
-- static.go (`hasDotDotSegment`, `serve`): which paths reach the file handler, and what is kept of the
-- response around it.
use rice_http.Prelude.{
  ◌⊎◌, not, ◌&&◌, ℕ, zero, suc, ℤ, pos, negsuc, ◌≤◌, ◌<◌, Bytes, bytes_eq, contains, Bool, true,
  false, ◌||◌, Option, none, some, List, [], ◌∷◌, ◌==◌, ◌≡◌, ◌≢◌, sym, ◌∙◌, ap, refl, Bool-cases,
  inl, inr, length, leb, if◌then◌else◌, arith,
}
use rice_http.Accept.{cut_at}
use rice_http.Errors.{Err, http, Response}
use rice_http.Static.{
  dot_dot, first_segment, dot_dot_from, has_dot_dot_segment, is_success, restore, not_found,
  by_status, static_result, serve, write_dir_redirect,
}

-- The segments of a path, between its slashes.
abbrev pub onto : ℕ → List Bytes → List Bytes
onto c [] = (c ∷ []) ∷ []
onto c (s ∷ ss) = (c ∷ s) ∷ ss

abbrev pub segments : Bytes → List Bytes
segments [] = [] ∷ []
segments (c ∷ cs) = let rest = segments cs in if c == 47 then [] ∷ rest else onto c rest

abbrev pub climbs : List Bytes → Bool
climbs [] = false
climbs (s ∷ ss) = bytes_eq s dot_dot || climbs ss

-- What a cut at the first slash makes of the segments.
abbrev Cut : Bytes → Option (Bytes × Bytes) → Type 0
Cut p none = segments p ≡ p ∷ []
Cut p (some (s, rest)) = (segments p ≡ s ∷ segments rest) × (length rest < length p)

cut_at-Cut : (p : Bytes) → Cut p (cut_at 47 p)
unfolding cut_at
cut_at-Cut [] = refl
cut_at-Cut (c ∷ cs) = elim (Bool-cases (c == 47)) [
  | inl slash ↦ rw slash (rw slash refl, omega arith)
  | inr other ↦ rw other (longer (cut_at 47 cs) other (cut_at-Cut cs))
]
  where
    longer :
        (x : Option (Bytes × Bytes))
        → (c == 47) ≡ false
        → Cut cs x
        → Cut (c ∷ cs) (elim x [ none ↦ none | some (a, b) ↦ some (c ∷ a, b) ])
    longer none o e = rw (o, e) refl
    longer (some (a, b)) o (e, h) = (rw (o, e) refl, omega arith)

first_segment-climbs :
    (c : ℕ) (cs : Bytes) (x : Option (Bytes × Bytes))
    → Cut (c ∷ cs) x
    → (climbs (segments (c ∷ cs)) ≡ (
        bytes_eq (first_segment (c ∷ cs) x).0 dot_dot
        || climbs (segments (first_segment (c ∷ cs) x).1)))
      × (length (first_segment (c ∷ cs) x).1 < length (c ∷ cs))
unfolding bytes_eq
first_segment-climbs c cs none e = (ap climbs e, omega arith)
first_segment-climbs c cs (some (s, rest)) (e, h) = (ap climbs e, h)

dot_dot_from-climbs :
    (fuel : ℕ) (p : Bytes) → length p ≤ fuel → dot_dot_from fuel p ≡ climbs (segments p)
unfolding dot_dot_from bytes_eq
dot_dot_from-climbs fuel [] h = refl
dot_dot_from-climbs zero (c ∷ cs) h = absurd (omega (arith, h))
dot_dot_from-climbs (suc fuel) (c ∷ cs) h =
    let x = first_segment (c ∷ cs) (cut_at 47 (c ∷ cs)) in
    let (e, shorter) = first_segment-climbs c cs (cut_at 47 (c ∷ cs)) (cut_at-Cut (c ∷ cs)) in
    either (bytes_eq x.0 dot_dot) (dot_dot_from-climbs fuel x.1 (omega arith)) ∙ sym e
  where
    either : {y z : Bool} (b : Bool) → y ≡ z → (if b then true else y) ≡ (b || z)
    either true e = refl
    either false e = e

pub has_dot_dot_segment-climbs : (p : Bytes) → has_dot_dot_segment p ≡ climbs (segments p)
unfolding has_dot_dot_segment
has_dot_dot_segment-climbs p = dot_dot_from-climbs (length p) p (omega arith)

abbrev pub has_nul : Bytes → Bool
has_nul p = contains (λ c. c == 0) p

module _ (escape : Bytes → Bytes) (path query : Bytes) where
  -- What is made of the answer of the file handler, by its status: a redirect to the directory, not
  -- found, an error with the status, or the answer as it is.
  pub data Answered (a : Response) : ℤ → Option Err × Response → Type 0 where
    to_directory : Answered a (pos 302) (none, write_dir_redirect escape path query a)
    missing : (n : ℕ) → (n ≡ 404) ⊎ (n ≡ 403) → Answered a (pos n) (some not_found, a)
    failing : (n : ℕ) → n ≢ 404 → n ≢ 403 → 400 ≤ n → Answered a (pos n) (some (http (pos n) []), a)
    as_it_is : (n : ℕ) → n ≢ 302 → n < 400 → Answered a (pos n) (none, a)
    below_zero : (n : ℕ) → Answered a (negsuc n) (none, a)

  by_status-Answered : (st : ℤ) (a : Response) → Answered a st (by_status escape path query st a)
  by_status-Answered (negsuc n) a = below_zero n
  by_status-Answered (pos n) a = elim (Bool-cases (n == 302)) [
    | inl same ↦ rw (the 302 same) to_directory
    | inr other ↦
        rw other (behind other (Bool-cases (n == 404 || n == 403)) (Bool-cases (leb 400 n)))
  ]
    where
      the : (m : ℕ) → (n == m) ≡ true → n ≡ m
      the m h = ground arith

      behind :
          (n == 302) ≡ false
          → ((n == 404 || n == 403) ≡ true) ⊎ ((n == 404 || n == 403) ≡ false)
          → (leb 400 n ≡ true) ⊎ (leb 400 n ≡ false)
          → Answered a (pos n) (
              if n == 404 || n == 403
              then (some not_found, a)
              else if leb 400 n
              then (some (http (pos n) []), a)
              else (none, a))
      behind off (inl gone) big = rw gone (missing n (ground arith))
      behind off (inr there) (inl big) =
          rw (there, big) (failing n (ground arith) (ground arith) (ground arith))
      behind off (inr there) (inr small) =
          rw (there, small) (as_it_is n (ground arith) (ground arith))

-- The answer of the file handler, with the headers that were set before it when there are any and its
-- status is no success.
pub data Kept (set : Response → Bool) (r a : Response) : Response → Type 0 where
  kept :
      (k : Response)
      → set r ≡ true
      → is_success a.status ≡ false
      → k.header ≡ r.header
      → k.content_type ≡ r.content_type
      → k.close ≡ r.close
      → k.status ≡ a.status
      → k.body ≡ a.body
      → Kept set r a k
  own : (set r ≡ false) ⊎ (is_success a.status ≡ true) → Kept set r a a

merge-Kept :
    (set : Response → Bool) (r a : Response)
    → Kept set r a (if set r && not (is_success a.status) then restore r a else a)
merge-Kept set r a = by (Bool-cases (set r)) (Bool-cases (is_success a.status))
  where
    by :
        (set r ≡ true) ⊎ (set r ≡ false)
        → (is_success a.status ≡ true) ⊎ (is_success a.status ≡ false)
        → Kept set r a (if set r && not (is_success a.status) then restore r a else a)
    by (inr off) x = rw off (own (inl off))
    by (inl on) (inl good) = rw (on, good) (own (inr good))
    by (inl on) (inr bad) = rw (on, bad) (kept (restore r a) on bad refl refl refl refl refl)

merged-Answered :
    (escape : Bytes → Bytes) (path query : Bytes) (b : Bool) (r a : Response)
    → let k = if b then restore r a else a in
      Answered escape path query k a.status (by_status escape path query k.status k)
merged-Answered escape path query true r a =
    by_status-Answered escape path query a.status (restore r a)
merged-Answered escape path query false r a = by_status-Answered escape path query a.status a

-- A path with a segment ".." or a NUL is not found and does not touch the response. Any other path
-- reaches the file handler. Its answer gets back the headers that were set before it, if any were and
-- its status is no success; and is then, by its status, a redirect to the directory (302), not found
-- (404, 403), an error with the status (400 and above), or returned as it is.
pub serve-segments :
    (escape : Bytes → Bytes) (has_headers : Response → Bool) (files : Response → Response)
    (path query : Bytes) (r : Response)
    → let x = serve escape has_headers files path query r in
      ((has_nul path || climbs (segments path)) ≡ true → x ≡ (some not_found, r))
      × ((has_nul path || climbs (segments path)) ≡ false
          → (a : Response) × Kept has_headers r (files r) a
            × Answered escape path query a (files r).status x)
unfolding serve static_result
serve-segments escape has_headers files path query r = rw (has_dot_dot_segment-climbs path) (
  λ bad. rw bad refl,
  λ fine.
      let given = has_headers r && not (is_success (files r).status) in
      rw fine (
        if given then restore r (files r) else files r,
        merge-Kept has_headers r (files r),
        merged-Answered escape path query given r (files r),
      ),
)
